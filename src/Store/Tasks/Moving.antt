-- ===== src/Store/Tasks/Moving.antt =====
-- Moves of a task by `transition_task` and `claim_task_dispatch` of src/project_supervisor/store.py, one after another.
use chips_agent_fabric.Store.Claim.{claim_task_dispatch}
use chips_agent_fabric.Store.Claim.Granting.{claim_task_dispatch-granted}
use chips_agent_fabric.Store.Dispatch.{Blank, Claim, Granted}
use chips_agent_fabric.Store.Scopes.{Digests}
use mathlib.Core.Option
use chips_agent_fabric.Prelude.{
  ℕ, String, true, List, [], ◌∷◌, Option, some, ◌≡◌, refl, sym, subst, ap, ◌∙◌, contains, string_eq,
  nat_eq, eq_refl,
}
use chips_agent_fabric.Domain.{TaskState, TaskState_eq}
use chips_agent_fabric.Sql.{first_where}
use chips_agent_fabric.Sql.Rows.{first_where_holds}
use chips_agent_fabric.Sql.Rewrite.{first_where-update_where}
use chips_agent_fabric.Store.Error.{ok}
use chips_agent_fabric.Store.Schema.{Db, TaskRow, Field, task_is, timestamp}
use chips_agent_fabric.Store.Tasks.{transition_task, moved_task, moved_task_db, same_version}
use chips_agent_fabric.Store.Tasks.Cases.{transition_task_cases}
use chips_agent_fabric.StateMachine.{task_transitions, allows}
use chips_agent_fabric.StateMachine.History.{History, succeeded_was_running}

abbrev pub state_of : String → Db → Option TaskState
state_of task_id db = Option.map (λ (t : TaskRow). t.state) (first_where (task_is task_id) db.tasks)

-- Databases in which `transition_task` and granted claims move the task, with the states that it enters,
-- in order. Between two moves anything else may happen that leaves the state of the task.
pub data Moves (task_id : String) : Db → List TaskState → Db → Type 0 where
  here : {db : Db} → Moves task_id db [] db
  between :
      {db mid last : Db} {l : List TaskState}
      → state_of task_id mid ≡ state_of task_id db
      → Moves task_id mid l last
      → Moves task_id db l last
  moved :
      {db mid last : Db} {l : List TaskState} (clock : ℕ) (target : TaskState) (actor : String)
      (extra : List (String × Field)) (expected : Option ℕ) (owner : Option String)
      (generation : Option ℕ) (row : TaskRow)
      → transition_task clock task_id target actor extra expected owner generation db
        ≡ ok (row, mid)
      → Moves task_id mid l last
      → Moves task_id db (target ∷ l) last
  claimed :
      {db mid last : Db} {l : List TaskState} (new_run_id : String → String) (blank : Blank)
      (digests : Digests) (clock : ℕ) (claim : Claim) (g : Granted)
      → claim.task_id ≡ task_id
      → claim_task_dispatch new_run_id blank digests clock claim db ≡ ok (some g, mid)
      → Moves task_id mid l last
      → Moves task_id db (TaskState.running ∷ l) last

-- A claim moves the task from ready to running, as the table admits.
claim_task_dispatch-moves :
    (new_run_id : String → String) (blank : Blank) (digests : Digests) (clock : ℕ) (claim : Claim)
    (db : Db) {g : Granted} {db' : Db}
    → claim_task_dispatch new_run_id blank digests clock claim db ≡ ok (some g, db')
    → (state_of claim.task_id db ≡ some TaskState.ready)
      × (allows task_transitions TaskState.ready TaskState.running ≡ true)
      × (state_of claim.task_id db' ≡ some TaskState.running)
unfolding allows
claim_task_dispatch-moves new_run_id blank digests clock claim db h =
    let (row, found, ready, _, _, _, _, left, _) =
      claim_task_dispatch-granted new_run_id blank digests clock claim db h in
    (
      ap (Option.map (λ (t : TaskRow). t.state)) found ∙ ap some ready,
      refl,
      ap (Option.map (λ (t : TaskRow). t.state)) left,
    )

-- A transition was admitted from the old state, and leaves the target.
transition_task-moves :
    (clock : ℕ) (task_id : String) (target : TaskState) (actor : String)
    (extra : List (String × Field)) (expected : Option ℕ) (owner : Option String)
    (generation : Option ℕ) (db : Db) {r : TaskRow} {db' : Db}
    → transition_task clock task_id target actor extra expected owner generation db ≡ ok (r, db')
    → (s : TaskState) × (state_of task_id db ≡ some s)
      × (allows task_transitions s target ≡ true)
      × (state_of task_id db' ≡ some target)
unfolding moved_task_db
transition_task-moves clock task_id target actor extra expected owner generation db h =
    let (row, found, _, allowed, _, _, done, _) =
      transition_task_cases clock task_id target actor extra expected owner generation db h in
    let held = first_where_holds (task_is task_id) db.tasks row found in
    let moved =
      first_where-update_where (same_version task_id row) (moved_task (timestamp clock) target row)
        (task_is task_id) db.tasks (λ r. refl) in
    let shown : first_where (task_is task_id)
          (moved_task_db (timestamp clock) task_id target actor extra row db).tasks
        ≡ some (moved_task (timestamp clock) target row row) =
      moved ∙ rw found (rw held (rw (eq_refl row.version) refl)) in
    (
      row.state,
      ap (Option.map (λ (t : TaskRow). t.state)) found,
      allowed,
      ap (state_of task_id) done ∙ ap (Option.map (λ (t : TaskRow). t.state)) shown,
    )

some-inj : {a b : TaskState} → some a ≡ some b → a ≡ b
some-inj h = cc

Moves-History :
    {task_id : String} {db last : Db} {l : List TaskState} (s u : TaskState)
    → Moves task_id db l last
    → state_of task_id db ≡ some s
    → state_of task_id last ≡ some u
    → History task_transitions s l u
Moves-History s u Moves.here start end =
    subst (History task_transitions s []) (some-inj (sym start ∙ end)) History.here
Moves-History s u (Moves.between same rest) start end = Moves-History s u rest (same ∙ start) end
Moves-History {task_id} {db} s u
      (Moves.moved clock target actor extra expected owner generation row h rest) start end =
    let (s', old, allowed, new) =
      transition_task-moves clock task_id target actor extra expected owner generation db h in
    let same : s' ≡ s = some-inj (sym old ∙ start) in
    History.enter (subst (λ x. allows task_transitions x target ≡ true) same allowed)
      (Moves-History target u rest new end)
Moves-History {task_id} {db} s u
      (Moves.claimed {mid = mid} new_run_id blank digests clock claim g key h rest) start end =
    let (old, allowed, new) = claim_task_dispatch-moves new_run_id blank digests clock claim db h in
    let same : TaskState.ready ≡ s = some-inj (sym old ∙ ap (λ k. state_of k db) key ∙ start) in
    History.enter (subst (λ x. allows task_transitions x TaskState.running ≡ true) same allowed)
      (Moves-History TaskState.running u rest (sym (ap (λ k. state_of k mid) key) ∙ new) end)

-- A draft task whose state only `transition_task` and granted claims change, and that has succeeded at
-- the end, was moved to running in between.
pub moved_task-succeeded :
    (task_id : String) (db last : Db) (l : List TaskState)
    → state_of task_id db ≡ some TaskState.draft
    → Moves task_id db l last
    → state_of task_id last ≡ some TaskState.succeeded
    → contains l TaskState.running ≡ true
moved_task-succeeded task_id db last l start path end =
    succeeded_was_running (Moves-History TaskState.draft TaskState.succeeded path start end)
