-- ===== src/StateMachine/History.antt =====
-- Sequences of moves that a table of src/project_supervisor/state_machine.py admits.
use chips_agent_fabric.Prelude.{
  ◌≡◌, refl, sym, Bool, true, false, ◌⊎◌, inl, inr, List, [], ◌∷◌, Eq, contains, path→eq, arith,
}
use chips_agent_fabric.Domain.{TaskState, TaskState_eq, ProjectPhase_eq}
use chips_agent_fabric.StateMachine.{TransitionTable, allows, task_transitions}

-- The states that a sequence of moves enters, in order, each move admitted by the table.
pub data History {S : Type 0} ⦃e : Eq S⦄ (table : TransitionTable S) : S → List S → S → Type 0 where
  here : {s : S} → History table s [] s
  enter :
      {s t u : S} {l : List S}
      → allows table s t ≡ true
      → History table t l u
      → History table s (t ∷ l) u

contains_later :
    {S : Type 0} ⦃e : Eq S⦄ (t : S) (l : List S) (g : S)
    → contains l g ≡ true
    → contains (t ∷ l) g ≡ true
contains_later t l g h = ground arith

contains_here :
    {S : Type 0} ⦃e : Eq S⦄ (t : S) (l : List S) (g : S) → t ≡ g → contains (t ∷ l) g ≡ true
contains_here t l g h = ground (arith, path→eq g t (sym h))

-- A region that is left only through `gate`: to end outside it, a sequence of moves enters `gate`.
module _ {S : Type 0} ⦃e : Eq S⦄ (table : TransitionTable S) (gate : S) (region : S → Bool)
    (leave : (s t : S)
      → region s ≡ true
      → allows table s t ≡ true
      → (t ≡ gate) ⊎ (region t ≡ true)) where
  through_gate :
      {s u : S} {l : List S}
      → History table s l u
      → region s ≡ true
      → region u ≡ false
      → contains l gate ≡ true
  through_gate here r o = cc
  through_gate (enter {t = t} {l = l} a h) r o = elim (leave _ t r a) [
    | inl g ↦ contains_here t l gate g
    | inr r' ↦ contains_later t l gate (through_gate h r' o)
  ]

abbrev pub never_ran : TaskState → Bool
never_ran TaskState.running = false
never_ran TaskState.reviewing = false
never_ran TaskState.succeeded = false
never_ran _ = true

leave_never_ran :
    (s t : TaskState)
    → never_ran s ≡ true
    → allows task_transitions s t ≡ true
    → (t ≡ TaskState.running) ⊎ (never_ran t ≡ true)
unfolding allows
leave_never_ran s t r a = ground arith

-- Every sequence of moves that TASK_TRANSITIONS admits, each of them alone, from draft to succeeded
-- enters running. Of writes that do not consult the table it says nothing.
pub succeeded_was_running :
    {l : List TaskState}
    → History task_transitions TaskState.draft l TaskState.succeeded
    → contains l TaskState.running ≡ true
succeeded_was_running h =
    through_gate task_transitions TaskState.running never_ran leave_never_ran h refl refl
