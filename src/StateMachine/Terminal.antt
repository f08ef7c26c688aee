-- ===== src/StateMachine/Terminal.antt =====
-- Terminal states of src/project_supervisor/state_machine.py.
use chips_agent_fabric.Prelude.{◌≡◌, refl, Bool, true, false, ◌↔◌, inl, inr, Bool-cases, arith}
use chips_agent_fabric.Domain.{TaskState, RunState, TaskState_eq, RunState_eq}
use chips_agent_fabric.StateMachine.{allows, task_transitions, run_transitions}

-- The states at which the store writes `finished_at`.
abbrev pub is_terminal_task : TaskState → Bool
is_terminal_task TaskState.succeeded = true
is_terminal_task TaskState.failed = true
is_terminal_task TaskState.cancelled = true
is_terminal_task _ = false

-- The states of a run that may still hold its worker: `state IN ('starting','running','waiting')`.
abbrev pub is_active_run : RunState → Bool
is_active_run RunState.starting = true
is_active_run RunState.running = true
is_active_run RunState.waiting = true
is_active_run _ = false

pub terminal_task_absorbs :
    (s t : TaskState) → is_terminal_task s ≡ true → allows task_transitions s t ≡ true → s ≡ t
unfolding allows
terminal_task_absorbs s t h a = ground arith

pub ended_run_absorbs :
    (s t : RunState) → is_active_run s ≡ false → allows run_transitions s t ≡ true → s ≡ t
unfolding allows
ended_run_absorbs s t h a = ground arith

pub cancel_allowed :
    (s : TaskState)
    → is_terminal_task s ≡ false
    → allows task_transitions s TaskState.cancelled ≡ true
unfolding allows
cancel_allowed s h = ground arith

-- Of a task's states exactly the terminal ones admit no move to another state, and every other one
-- may be cancelled at once.
pub terminal_task_iff :
    (s : TaskState)
    → (is_terminal_task s ≡ true ↔ ((t : TaskState) → allows task_transitions s t ≡ true → s ≡ t))
      × (is_terminal_task s ≡ false → allows task_transitions s TaskState.cancelled ≡ true)
terminal_task_iff s = (
  (
    λ h t a. terminal_task_absorbs s t h a,
    λ stuck. elim (Bool-cases (is_terminal_task s)) [
      | inl y ↦ y
      | inr n ↦ rw (stuck TaskState.cancelled (cancel_allowed s n)) refl
    ],
  ),
  cancel_allowed s,
)
