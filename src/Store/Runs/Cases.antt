-- ===== src/Store/Runs/Cases.antt =====
-- The outcomes of `activate_worker_run` and `transition_worker_run` of
-- src/project_supervisor/store.py, taken apart.
use chips_agent_fabric.StateMachine.{run_transitions, allows}
use chips_agent_fabric.Store.Lease.{require_optional_lease}
use chips_agent_fabric.Sql.{first_where}
use chips_agent_fabric.Store.Error.{ok}
use chips_agent_fabric.Store.Schema.{timestamp, task_is, TaskRow, run_is, RunRow, Field, Db}
use chips_agent_fabric.Store.Runs.{
  timestamp, moved_run_db, allows, require_optional_lease, task_is, TaskRow, run_is, first_where,
  ok, RunRow, Field, Db, RunDetails, transition_worker_run,
}
use chips_agent_fabric.Store.Claim.{activated_db, activate_worker_run}
use mathlib.Core.Option
use chips_agent_fabric.Prelude.{
  Bool-cases, inr, arith, inl, Option-cases, true, some, ◌⊎◌, false, ◌≡◌, Bool, List, Option,
  String, ℕ,
}
use chips_agent_fabric.Domain.{RunState_eq, TaskState, RunState}

pub activate_worker_run_cases :
    (clock : ℕ) (run_id : String) (owner : Option String) (generation : Option ℕ) (actor : String)
    (db : Db) {b : Bool} {db' : Db}
    → activate_worker_run clock run_id owner generation actor db ≡ ok (b, db')
    → ((b ≡ false) × (db' ≡ db))
      ⊎ ((run : RunRow) × (task : TaskRow) × (first_where (run_is run_id) db.runs ≡ some run)
          × (first_where (task_is run.task_id) db.tasks ≡ some task)
          × (require_optional_lease clock db run.task_id owner generation ≡ ok tt)
          × (run.state ≡ RunState.starting)
          × (task.state ≡ TaskState.running)
          × (b ≡ true)
          × (db' ≡ activated_db (timestamp clock) run_id run task actor db))
unfolding activate_worker_run
activate_worker_run_cases clock run_id owner generation actor db {b} {db'} h =
    elim (Option-cases (first_where (run_is run_id) db.runs)) [
      | inl e ↦ absurd (ground arith)
      | inr (run, e) ↦ elim (Option-cases (first_where (task_is run.task_id) db.tasks)) [
        | inl e' ↦ absurd (ground arith)
        | inr (task, e') ↦ elim (Bool-cases b) [
          | inl y ↦
              inr (run, task, e, e', ground arith, ground arith, ground arith, y, ground arith)
          | inr n ↦ inl (n, ground arith)
        ]
      ]
    ]

-- The details with the failure text redacted.
abbrev pub redacted : (String → String) → RunDetails → RunDetails
redacted redact details = record details {
  failure_detail = Option.map redact details.failure_detail;
}

pub transition_worker_run_cases :
    (redact : String → String) (clock : ℕ) (run_id : String) (target : RunState)
    (details : RunDetails) (extra : List (String × Field)) (owner : Option String)
    (generation : Option ℕ) (db : Db) {r : RunRow} {db' : Db}
    → transition_worker_run redact clock run_id target details extra owner generation db
      ≡ ok (r, db')
    → (run : RunRow) × (first_where (run_is run_id) db.runs ≡ some run)
      × (require_optional_lease clock db run.task_id owner generation ≡ ok tt)
      × (allows run_transitions run.state target ≡ true)
      × (db' ≡ moved_run_db (timestamp clock) run_id target (redacted redact details) extra run db)
      × (first_where (run_is run_id) db'.runs ≡ some r)
unfolding transition_worker_run
transition_worker_run_cases redact clock run_id target details extra owner generation db {r} {db'}
      h =
    elim (Option-cases (first_where (run_is run_id) db.runs)) [
      | inl e ↦ absurd (ground arith)
      | inr (run, e) ↦ (run, e, ground arith, ground arith, ground arith, ground arith)
    ]
