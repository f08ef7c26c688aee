-- ===== src/Store/Tasks/Cases.antt =====
-- The outcomes of `transition_task` of src/project_supervisor/store.py, taken apart.
use chips_agent_fabric.StateMachine.{task_transitions, allows}
use chips_agent_fabric.Store.Lease.{require_optional_lease}
use chips_agent_fabric.Sql.{count_where, first_where}
use chips_agent_fabric.Store.Error.{ok}
use chips_agent_fabric.Store.Schema.{timestamp, task_is, TaskRow, Db, Field}
use chips_agent_fabric.Store.Tasks.{
  moved_task_db, same_version, version_conflict, allows, require_optional_lease, first_where, ok,
  Field, transition_task,
}
use chips_agent_fabric.Prelude.{
  inr, arith, inl, Option-cases, false, true, some, ◌≡◌, Option, List, String, ℕ,
}
use chips_agent_fabric.Domain.{TaskState_eq, TaskState}

pub transition_task_cases :
    (clock : ℕ) (task_id : String) (target : TaskState) (actor : String)
    (extra : List (String × Field)) (expected : Option ℕ) (owner : Option String)
    (generation : Option ℕ) (db : Db) {r : TaskRow} {db' : Db}
    → transition_task clock task_id target actor extra expected owner generation db ≡ ok (r, db')
    → (row : TaskRow) × (first_where (task_is task_id) db.tasks ≡ some row)
      × (require_optional_lease clock db task_id owner generation ≡ ok tt)
      × (allows task_transitions row.state target ≡ true)
      × (version_conflict expected row.version ≡ false)
      × (count_where (same_version task_id row) db.tasks ≡ 1)
      × (db' ≡ moved_task_db (timestamp clock) task_id target actor extra row db)
      × (first_where (task_is task_id) db'.tasks ≡ some r)
unfolding transition_task
transition_task_cases clock task_id target actor extra expected owner generation db {r} {db'} h =
    elim (Option-cases (first_where (task_is task_id) db.tasks)) [
      | inl e ↦ absurd (ground arith)
      | inr (row, e) ↦ (
        row,
        e,
        ground arith,
        ground arith,
        ground arith,
        ground arith,
        ground arith,
        ground arith,
      )
    ]
