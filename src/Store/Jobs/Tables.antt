-- ===== src/Store/Jobs/Tables.antt =====
-- Which tables the parts of `finalize_provider_job_result` of src/project_supervisor/store.py write.
use chips_agent_fabric.Store.Jobs.{is_collected}
use chips_agent_fabric.Store.Workers.{moved_worker}
use chips_agent_fabric.Store.Jobs.Observe.{collected_db}
use chips_agent_fabric.Store.Schema.Jobs.{ProviderJobRow}
use chips_agent_fabric.Prelude.{
  none, some, nat_eq, ◌⊎◌, inl, inr, Bool-cases, ℕ, String, Option, ◌≡◌, true, false, refl, Bool,
  ◌==◌, string_eq,
}
use chips_agent_fabric.Sql.{first_where, count_where, update_where}
use chips_agent_fabric.Domain.{WorkerState_eq, WorkerState, RunState, RunState_eq}
use chips_agent_fabric.Store.Schema.{
  worker_is, ProviderJobRow, Db, RunRow, TaskRow, WorkerRow, run_is,
}
use chips_agent_fabric.Store.Runs.{RunDetails}
use chips_agent_fabric.Store.Jobs.Collect.{
  journal_worker, closed_job_db, released_worker_db, WorkerUpdate, releasable, finished_run,
  finished_db, cancellation_wins,
}

-- Either the row of the run is final now, or nothing was written.
pub finished_db_tables :
    (now : ℕ) (run_id : String) (target : RunState) (details : RunDetails) (run : RunRow)
    (task : Option TaskRow) (actor : String) (db : Db)
    → let db' = finished_db now run_id target details run task actor db in
      (db'.workers ≡ db.workers)
      × (db'.leases ≡ db.leases)
      × (db'.provider_jobs ≡ db.provider_jobs)
      × ((db'.runs ≡ update_where (run_is run_id) (finished_run now target details) db.runs)
          ⊎ ((db'.runs ≡ db.runs)
              × (((run.state == target) ≡ true) ⊎ (cancellation_wins run task ≡ true))))
unfolding finished_db
finished_db_tables now run_id target details run task actor db =
    elim (Bool-cases (run.state == target)) [
      | inl y ↦ rw y (refl, refl, refl, inr (refl, inl refl))
      | inr n ↦ elim (Bool-cases (cancellation_wins run task)) [
        | inl w ↦ rw n (rw w (refl, refl, refl, inr (refl, inr refl)))
        | inr l ↦ rw n (rw l (refl, refl, refl, inl refl))
      ]
    ]

journal_worker_tables :
    (written : Bool) (worker : Option WorkerRow) (state : WorkerState) (run : RunRow)
    (run_id actor : String) (now : ℕ) (db : Db)
    → let db' = journal_worker written worker state run run_id actor now db in
      (db'.runs ≡ db.runs)
      × (db'.leases ≡ db.leases)
      × (db'.provider_jobs ≡ db.provider_jobs)
      × (db'.workers ≡ db.workers)
journal_worker_tables false worker state run run_id actor now db = (refl, refl, refl, refl)
journal_worker_tables true none state run run_id actor now db = (refl, refl, refl, refl)
journal_worker_tables true (some worker) state run run_id actor now db =
    elim (Bool-cases (worker.state == state)) [
      | inl y ↦ rw y (refl, refl, refl, refl)
      | inr n ↦ rw n (refl, refl, refl, refl)
    ]

-- The worker's part: its rows are rewritten, or nothing happens.
pub released_worker_db_tables :
    (now : ℕ) (run_id : String) (update : WorkerUpdate) (run : RunRow) (task : Option TaskRow)
    (job : ProviderJobRow) (actor : String) (db : Db)
    → let db' = released_worker_db now run_id update run task job actor db in
      (db'.runs ≡ db.runs)
      × (db'.leases ≡ db.leases)
      × (db'.provider_jobs ≡ db.provider_jobs)
      × ((db'.workers ≡ db.workers)
          ⊎ ((cancellation_wins run task ≡ false)
              × (db'.workers
                  ≡ update_where
                      (releasable run.worker_id run_id db.runs)
                      (moved_worker now update.state update.resource_state update.model_id)
                      db.workers)))
unfolding released_worker_db
released_worker_db_tables now run_id update run task job actor db =
    elim (Bool-cases (cancellation_wins run task)) [
      | inl w ↦ rw w (refl, refl, refl, inl refl)
      | inr l ↦ elim (Bool-cases (is_collected job.result_collection_state)) [
        | inl y ↦ rw l (rw y (refl, refl, refl, inl refl))
        | inr n ↦
            let free = releasable run.worker_id run_id db.runs in
            let (runs, leases, jobs, workers) =
              journal_worker_tables (count_where free db.workers == 1)
                (first_where (worker_is run.worker_id) db.workers) update.state run run_id actor now
                (record db {
                  workers =
                      update_where free
                        (moved_worker now update.state update.resource_state update.model_id)
                        db.workers;
                }) in
            rw l (rw n (runs, leases, jobs, inr (refl, workers)))
      ]
    ]

pub closed_job_db_tables :
    (now : ℕ) (run_id : String) (target : RunState) (task : Option TaskRow) (job : ProviderJobRow)
    (actor : String) (db : Db)
    → let db' = closed_job_db now run_id target task job actor db in
      (db'.workers ≡ db.workers) × (db'.runs ≡ db.runs) × (db'.leases ≡ db.leases)
unfolding closed_job_db collected_db
closed_job_db_tables now run_id target task job actor db =
    elim (Bool-cases (is_collected job.result_collection_state)) [
      | inl y ↦ rw y (refl, refl, refl)
      | inr n ↦ rw n (refl, refl, refl)
    ]
