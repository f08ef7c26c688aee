-- ===== src/Store/Cancel/Cases.antt =====
-- The outcomes of `cancel_task_execution` of src/project_supervisor/store.py, taken apart.
use chips_agent_fabric.Sql.{first_where}
use chips_agent_fabric.Store.Error.{ok}
use chips_agent_fabric.Store.Schema.{timestamp, task_is, TaskRow, Db}
use chips_agent_fabric.Store.Cancel.{
  timestamp, commit_cancel, task_is, first_where, TaskRow, ok, Db, cancel_task_execution,
}
use chips_agent_fabric.Prelude.{
  inr, arith, inl, ◌⊎◌, false, true, some, ◌≡◌, Bool, String, ℕ, Option-cases, Bool-cases,
}
use chips_agent_fabric.StateMachine.Terminal.{is_terminal_task}

-- Only a missing task is an error: the table admits the cancellation of every task that has not ended.
pub cancel_task_execution_cases :
    (clock : ℕ) (task_id : String) (actor : String) (db : Db) {b : Bool} {db' : Db}
    → cancel_task_execution clock task_id actor db ≡ ok (b, db')
    → (task : TaskRow) × (first_where (task_is task_id) db.tasks ≡ some task)
      × (((is_terminal_task task.state ≡ true) × (b ≡ false) × (db' ≡ db))
          ⊎ ((is_terminal_task task.state ≡ false)
              × (b ≡ true)
              × (db' ≡ commit_cancel (timestamp clock) task_id task actor db)))
unfolding cancel_task_execution
cancel_task_execution_cases clock task_id actor db {b} {db'} h =
    elim (Option-cases (first_where (task_is task_id) db.tasks)) [
      | inl e ↦ absurd (ground arith)
      | inr (task, e) ↦ (
        task,
        e,
        elim (Bool-cases (is_terminal_task task.state)) [
          | inl y ↦ inl (y, ground arith, ground arith)
          | inr n ↦ inr (n, ground arith, ground arith)
        ],
      )
    ]
