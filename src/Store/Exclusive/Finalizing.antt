-- ===== src/Store/Exclusive/Finalizing.antt =====
-- `finalize_provider_job_result` and `interrupt_missing_provider_job` of
-- src/project_supervisor/store.py, and the workers that runs hold.
use chips_agent_fabric.Store.Jobs.Tables.{closed_job_db_tables, released_worker_db_tables}
use chips_agent_fabric.Store.Jobs.Endings.{
  interrupt_missing_provider_job_cases, finalize_provider_job_result_cases,
}
use chips_agent_fabric.Store.Error.{ok}
use chips_agent_fabric.Store.Jobs.Orphans.{
  idled_worker, missing_run, interrupt_missing_provider_job, missing_job_db,
}
use chips_agent_fabric.Store.Workers.{moved_worker}
use chips_agent_fabric.Store.Runs.Cases.{redacted}
use chips_agent_fabric.Store.Exclusive.Updating.{HasRunKeys}
use chips_agent_fabric.Store.Schema.Jobs.{ProviderJobRow}
use chips_agent_fabric.Prelude.{
  some, ◌≤◌, nat_eq, ap, inl, inr, ℕ, String, Option, ◌≡◌, true, refl, string_eq, subst, sym,
}
use chips_agent_fabric.Sql.{first_where, count_where, update_where}
use chips_agent_fabric.Domain.{RunState, RunState_eq}
use chips_agent_fabric.Store.Schema.{timestamp, ProviderJobRow, Db, RunRow, TaskRow, run_is}
use chips_agent_fabric.Store.Runs.{RunDetails}
use chips_agent_fabric.Store.Exclusive.{IsExclusive}
use chips_agent_fabric.Store.Exclusive.Updating.{same-IsExclusive}
use chips_agent_fabric.Store.Jobs.Collect.{
  finalized_db, closed_job_db, finalize_provider_job_result, released_worker_db, WorkerUpdate,
  releasable, finished_db, is_final,
}
use chips_agent_fabric.Store.Exclusive.Releasing.{
  released-IsExclusive, ended_run-over, ended_run-IsExclusive, finished_db-over,
  finished_db-IsExclusive,
}

closed_job_db-IsExclusive :
    (now : ℕ) (run_id : String) (target : RunState) (task : Option TaskRow) (job : ProviderJobRow)
    (actor : String) (db : Db)
    → IsExclusive db
    → IsExclusive (closed_job_db now run_id target task job actor db)
closed_job_db-IsExclusive now run_id target task job actor db safe =
    let (workers, runs, _) = closed_job_db_tables now run_id target task job actor db in
    same-IsExclusive db (closed_job_db now run_id target task job actor db) (workers, runs) safe

pub finalized_db-IsExclusive :
    (now : ℕ) (run_id : String) (target : RunState) (details : RunDetails) (update : WorkerUpdate)
    (run : RunRow) (task : Option TaskRow) (job : ProviderJobRow) (actor : String) (db : Db)
    → is_final target ≡ true
    → count_where (run_is run_id) db.runs ≤ 1
    → first_where (run_is run_id) db.runs ≡ some run
    → IsExclusive db
    → IsExclusive (finalized_db now run_id target details update run task job actor db)
unfolding finalized_db
finalized_db-IsExclusive now run_id target details update run task job actor db final keys found
      safe =
    let mid = finished_db now run_id target details run task actor db in
    let after = released_worker_db now run_id update run task job actor mid in
    let kept = finished_db-IsExclusive now run_id target details run task actor db final safe in
    let (runs, _, _, outcome) =
      released_worker_db_tables now run_id update run task job actor mid in
    closed_job_db-IsExclusive now run_id target task job actor after (elim outcome [
      | inl workers ↦ same-IsExclusive mid after (workers, runs) kept
      | inr (loses, workers) ↦
          let freed : Db = record mid {
            workers =
                update_where (releasable run.worker_id run_id mid.runs)
                  (moved_worker now update.state update.resource_state update.model_id) mid.workers;
          } in
          same-IsExclusive freed after (workers, runs)
            (released-IsExclusive run.worker_id run_id
              (moved_worker now update.state update.resource_state update.model_id) mid (λ w. refl)
              (finished_db-over now run_id target details run task actor db final keys found loses)
              kept)
    ])

-- A run ends with its result and releases its worker: workers stay exclusive.
pub finalize_provider_job_result-IsExclusive :
    (redact : String → String) (clock : ℕ) (run_id : String) (target : RunState)
    (details : RunDetails) (update : WorkerUpdate) (owner : String) (generation : ℕ)
    (actor : String) (db : Db) {row : RunRow} {db' : Db}
    → IsExclusive db
    → HasRunKeys db
    → finalize_provider_job_result redact clock run_id target details update owner generation actor
        db
      ≡ ok (row, db')
    → IsExclusive db'
finalize_provider_job_result-IsExclusive redact clock run_id target details update owner generation
      actor db safe keys h =
    let (job, run, final, _, found, _, done) =
      finalize_provider_job_result_cases redact clock run_id target details update owner generation
        actor db h in
    subst IsExclusive (sym done) (
      finalized_db-IsExclusive (timestamp clock) run_id target (redacted redact details) update run
        _ job actor db final (keys run_id) found safe)

-- So does the end of a run whose job is missing.
pub interrupt_missing_provider_job-IsExclusive :
    (clock : ℕ) (run_id owner : String) (generation : ℕ) (actor : String) (db : Db) {db' : Db}
    → IsExclusive db
    → interrupt_missing_provider_job clock run_id owner generation actor db ≡ ok db'
    → IsExclusive db'
unfolding missing_job_db
interrupt_missing_provider_job-IsExclusive clock run_id owner generation actor db {db'} safe h =
    let (job, run, task, _, found, outcome) =
      interrupt_missing_provider_job_cases clock run_id owner generation actor db h in
    let now = timestamp clock in
    let ended : Db = record db { runs = update_where (run_is run_id) (missing_run now) db.runs } in
    let idled : Db = record ended {
      workers =
          update_where (releasable run.worker_id run_id ended.runs) (idled_worker now)
            ended.workers;
    } in
    elim outcome [
      | inl (_, same) ↦ subst IsExclusive (sym same) safe
      | inr (_, done) ↦
          same-IsExclusive idled db' (ap (λ (d : Db). d.workers) done, ap (λ (d : Db). d.runs) done)
            (released-IsExclusive run.worker_id run_id (idled_worker now) ended (λ w. refl)
              (ended_run-over run_id (missing_run now) db.runs (λ r. refl))
              (ended_run-IsExclusive run_id (missing_run now) db (λ r. refl) safe))
    ]
