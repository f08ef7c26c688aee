-- ===== src/Store/System.antt =====
-- The store of src/project_supervisor/store.py as a whole: one transaction after another, from any
-- number of processes. SQLite serialises them, so an interleaving is a sequence of steps.
pub mod Keys
pub mod Reports
pub mod Jobs
pub mod Tables
pub mod Exclusive
pub mod Leases
pub mod Generations
pub mod Renewals
pub mod Growth
pub mod Fencing
pub mod Reconciling
use chips_agent_fabric.Store.Adapter.{record_adapter_event}
use chips_agent_fabric.Store.Jobs.Prepare.{prepare_provider_job, mark_provider_job_launching}
use chips_agent_fabric.Store.Jobs.Bind.{bind_provider_job_handle}
use chips_agent_fabric.Store.Jobs.Observe.{
  record_provider_job_observation, mark_provider_job_result_collected,
}
use chips_agent_fabric.Store.Jobs.Collect.{WorkerUpdate, finalize_provider_job_result}
use chips_agent_fabric.Store.Jobs.Orphans.{
  claim_task_reconciliation, interrupt_missing_provider_job,
}
use chips_agent_fabric.Store.Lease.{release_task_execution_lease, heartbeat_task_execution_lease}
use chips_agent_fabric.Store.Recover.{recover_interrupted}
use chips_agent_fabric.Store.Runs.{create_worker_run, transition_worker_run, RunDetails}
use chips_agent_fabric.Store.Claim.{activate_worker_run, claim_task_dispatch}
use chips_agent_fabric.Store.Scopes.{Digests}
use chips_agent_fabric.Store.Dispatch.{Granted, Claim, Blank}
use chips_agent_fabric.Store.Workers.{claim_workers, set_worker_state}
use chips_agent_fabric.Store.Cancel.{cancel_task_execution, holds}
use chips_agent_fabric.Store.Dependencies.{add_task_dependency}
use chips_agent_fabric.Store.Error.{ok}
use chips_agent_fabric.Store.Tasks.{transition_task, create_task, TaskRecord, create_project}
use chips_agent_fabric.Store.Schema.{
  ProviderJobRow, Handle, ReconciliationState, RunRow, Field, TaskRow, ProjectRow, Db,
}
use chips_agent_fabric.Prelude.{ℕ, ◌≡◌, Bool, String, List, Option}
use chips_agent_fabric.Domain.{ResourceState, TaskState, RunState, WorkerState}
use chips_agent_fabric.Sql.{count_where}

-- A committed transaction of one of the operations that this library translates; all arguments are
-- free.
pub data Step (db db' : Db) : Type 0 where
  project_created :
      (clock : ℕ) (project_id name root_path goal : String) (row : ProjectRow)
      → create_project clock project_id name root_path goal db ≡ ok (row, db')
      → Step db db'
  task_created :
      (clock : ℕ) (task : TaskRecord) (reference : String) (row : TaskRow)
      → create_task clock task reference db ≡ ok (row, db')
      → Step db db'
  dependency_added :
      (clock : ℕ) (task_id depends_on_task_id : String)
      → add_task_dependency clock task_id depends_on_task_id db ≡ ok db'
      → Step db db'
  task_moved :
      (clock : ℕ) (task_id : String) (target : TaskState) (actor : String)
      (extra : List (String × Field)) (expected : Option ℕ) (owner : Option String)
      (generation : Option ℕ) (row : TaskRow)
      → transition_task clock task_id target actor extra expected owner generation db
        ≡ ok (row, db')
      → Step db db'
  worker_set :
      (clock : ℕ) (worker_id : String) (state : WorkerState) (resources : Option ResourceState)
      (model task owner : Option String) (generation : Option ℕ) (actor : String)
      → set_worker_state clock worker_id state resources model task owner generation actor db
        ≡ ok db'
      → Step db db'
  workers_claimed :
      (clock : ℕ) (worker_ids : List String) (actor : String) (b : Bool)
      → claim_workers clock worker_ids actor db ≡ ok (b, db')
      → Step db db'
  dispatch_claimed :
      (new_run_id : String → String) (blank : Blank) (digests : Digests) (clock : ℕ) (claim : Claim)
      (r : Option Granted)
      → claim_task_dispatch new_run_id blank digests clock claim db ≡ ok (r, db')
      → Step db db'
  run_created :
      (digests : Digests) (clock : ℕ) (run_id task_id worker_id : String) (attempt : ℕ)
      (timeout_at : Option ℕ) (r : String)
      → create_worker_run digests clock run_id task_id worker_id attempt timeout_at db ≡ ok (r, db')
      → Step db db'
  run_activated :
      (clock : ℕ) (run_id : String) (owner : Option String) (generation : Option ℕ) (actor : String)
      (b : Bool)
      → activate_worker_run clock run_id owner generation actor db ≡ ok (b, db')
      → Step db db'
  run_moved :
      (redact : String → String) (clock : ℕ) (run_id : String) (target : RunState)
      (details : RunDetails) (extra : List (String × Field)) (owner : Option String)
      (generation : Option ℕ) (row : RunRow)
      → transition_worker_run redact clock run_id target details extra owner generation db
        ≡ ok (row, db')
      → Step db db'
  adapter_reported :
      (clock : ℕ) (run_id kind : String) (payload : List (String × Field)) (owner : Option String)
      (generation : Option ℕ) (n : ℕ)
      → record_adapter_event clock run_id kind payload owner generation db ≡ ok (n, db')
      → Step db db'
  task_cancelled :
      (clock : ℕ) (task_id actor : String) (b : Bool)
      → cancel_task_execution clock task_id actor db ≡ ok (b, db')
      → Step db db'
  recovered :
      (clock : ℕ) (task_ids : Option (List String))
      → (recover_interrupted clock task_ids db).1 ≡ db'
      → Step db db'
  lease_renewed :
      (clock : ℕ) (task_id owner : String) (generation ttl : ℕ) (b : Bool)
      → heartbeat_task_execution_lease clock task_id owner generation ttl db ≡ ok (b, db')
      → Step db db'
  lease_released :
      (clock : ℕ) (task_id owner : String) (generation : ℕ) (actor : String)
      → (release_task_execution_lease clock task_id owner generation actor db).1 ≡ db'
      → Step db db'
  job_prepared :
      (blank : Blank) (fingerprint : String → String) (clock : ℕ)
      (job_id run_id adapter instance_id : String) (capabilities : List (String × ℕ))
      (owner : String) (generation : ℕ) (actor : String) (row : ProviderJobRow)
      → prepare_provider_job blank fingerprint clock job_id run_id adapter instance_id capabilities
          owner generation actor db
        ≡ ok (row, db')
      → Step db db'
  job_launching :
      (clock : ℕ) (run_id owner : String) (generation : ℕ) (actor : String) (row : ProviderJobRow)
      → mark_provider_job_launching clock run_id owner generation actor db ≡ ok (row, db')
      → Step db db'
  job_bound :
      (safe : String → String) (clock : ℕ) (run_id adapter instance_id : String) (handle : Handle)
      (owner : String) (generation : ℕ) (actor : String) (row : ProviderJobRow)
      → bind_provider_job_handle safe clock run_id adapter instance_id handle owner generation actor
          db
        ≡ ok (row, db')
      → Step db db'
  job_observed :
      (redact : String → String) (clock : ℕ) (run_id : String) (state : ReconciliationState)
      (status detail : Option String) (owner : String) (generation : ℕ) (actor : String)
      (row : ProviderJobRow)
      → record_provider_job_observation redact clock run_id state status detail owner generation
          actor db
        ≡ ok (row, db')
      → Step db db'
  job_collected :
      (clock : ℕ) (run_id : String) (target : RunState) (owner : String) (generation : ℕ)
      (actor : String) (row : ProviderJobRow)
      → mark_provider_job_result_collected clock run_id target owner generation actor db
        ≡ ok (row, db')
      → Step db db'
  result_finalized :
      (redact : String → String) (clock : ℕ) (run_id : String) (target : RunState)
      (details : RunDetails) (update : WorkerUpdate) (owner : String) (generation : ℕ)
      (actor : String) (row : RunRow)
      → finalize_provider_job_result redact clock run_id target details update owner generation
          actor db
        ≡ ok (row, db')
      → Step db db'
  reconciliation_claimed :
      (blank : Blank) (clock : ℕ) (task_id owner : String) (ttl : ℕ) (allow : Bool) (actor : String)
      (r : Option ℕ)
      → claim_task_reconciliation blank clock task_id owner ttl allow actor db ≡ ok (r, db')
      → Step db db'
  job_missing :
      (clock : ℕ) (run_id owner : String) (generation : ℕ) (actor : String)
      → interrupt_missing_provider_job clock run_id owner generation actor db ≡ ok db'
      → Step db db'

pub data Reach (db : Db) : Db → Type 0 where
  here : Reach db db
  next : {mid last : Db} → Reach db mid → Step mid last → Reach db last
