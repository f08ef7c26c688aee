-- ===== src/Store/Jobs/Settling.antt =====
-- What a finalized result of src/project_supervisor/store.py leaves.
use chips_agent_fabric.Prelude.{
  some, ℕ, String, true, false, Option, ◌≡◌, ◌≤◌, refl, inl, inr, sym, subst, ap, ◌∙◌, Bool-cases,
  arith, eq_refl, string_eq,
}
use chips_agent_fabric.Domain.{RunState, RunState_eq}
use chips_agent_fabric.Sql.{first_where, exists_where, count_where}
use chips_agent_fabric.Sql.Rows.{unique_row}
use chips_agent_fabric.Sql.Rewrite.{first_where-update_where}
use chips_agent_fabric.Store.Error.{ok}
use chips_agent_fabric.Store.Schema.{
  Db, ProviderJobRow, RunRow, TaskRow, run_is, task_is, job_of, timestamp,
}
use chips_agent_fabric.Store.Runs.{RunDetails}
use chips_agent_fabric.Store.Runs.Cases.{redacted}
use chips_agent_fabric.Store.Exclusive.Updating.{HasRunKeys}
use chips_agent_fabric.Store.Exclusive.Releasing.{
  active_row, finished_db-over, over_by_key, ended_run-over, final-over,
}
use chips_agent_fabric.Store.Jobs.{is_collected, job_is}
use chips_agent_fabric.Store.Jobs.Observe.{collected_db, collected_job}
use chips_agent_fabric.Store.Jobs.Collect.{
  WorkerUpdate, finalize_provider_job_result, finalized_db, finished_db, released_worker_db,
  closed_job_db, cancellation_wins, is_final, observation_of, finished_run,
}
use chips_agent_fabric.Store.Jobs.Cases.{fenced_provider_job_cases}
use chips_agent_fabric.Store.Jobs.Endings.{finalize_provider_job_result_cases}
use chips_agent_fabric.Store.Jobs.Tables.{
  finished_db_tables, released_worker_db_tables, closed_job_db_tables,
}

-- The job of the run is collected.
abbrev pub IsCollected : String → Db → Type 0
IsCollected run_id db =
    (job : ProviderJobRow) × (first_where (job_of run_id) db.provider_jobs ≡ some job)
    × (is_collected job.result_collection_state ≡ true)

closed_job_db-IsCollected :
    (now : ℕ) (run_id : String) (target : RunState) (task : Option TaskRow) (job : ProviderJobRow)
    (actor : String) (db : Db)
    → first_where (job_of run_id) db.provider_jobs ≡ some job
    → IsCollected run_id (closed_job_db now run_id target task job actor db)
unfolding closed_job_db collected_db
closed_job_db-IsCollected now run_id target task job actor db found =
    elim (Bool-cases (is_collected job.result_collection_state)) [
      | inl y ↦ rw y (job, found, y)
      | inr n ↦ rw n (
        collected_job now (observation_of target) job,
        first_where-update_where (job_is job.id) (collected_job now (observation_of target))
              (job_of run_id) db.provider_jobs (λ r. refl)
            ∙ rw found (rw (eq_refl job.id) refl),
        refl,
      )
    ]

cancelled-over :
    (run_id : String) (run : RunRow) (task : Option TaskRow) (db : Db)
    → count_where (run_is run_id) db.runs ≤ 1
    → first_where (run_is run_id) db.runs ≡ some run
    → cancellation_wins run task ≡ true
    → exists_where (active_row run_id) db.runs ≡ false
cancelled-over run_id run task db keys found wins =
    over_by_key run_id run db.runs (ground arith)
      (unique_row (run_is run_id) db.runs run keys found)

module _ (now : ℕ) (run_id : String) (target : RunState) (details : RunDetails) (run : RunRow)
    (task : Option TaskRow) (actor : String) (db : Db) where
  -- With or without a cancellation that came first, the run is over.
  finished_db-ends :
      is_final target ≡ true
      → count_where (run_is run_id) db.runs ≤ 1
      → first_where (run_is run_id) db.runs ≡ some run
      → exists_where
          (active_row run_id)
          (finished_db now run_id target details run task actor db).runs
        ≡ false
  finished_db-ends final keys found = elim (Bool-cases (cancellation_wins run task)) [
    | inr loses ↦
        finished_db-over now run_id target details run task actor db final keys found loses
    | inl wins ↦
        let (_, _, _, outcome) = finished_db_tables now run_id target details run task actor db in
        elim outcome [
          | inl done ↦
              ap (exists_where (active_row run_id)) done
              ∙ ended_run-over run_id (finished_run now target details) db.runs
                  (λ r. final-over target final)
          | inr (same, _) ↦
              ap (exists_where (active_row run_id)) same
              ∙ cancelled-over run_id run task db keys found wins
        ]
  ]

-- After a result has been finalized, its run is over, whether the result or an earlier cancellation
-- ended it, and its job is collected; both hold where run identifiers are unique.
pub finalize_provider_job_result-settles :
    (redact : String → String) (clock : ℕ) (run_id : String) (target : RunState)
    (details : RunDetails) (update : WorkerUpdate) (owner : String) (generation : ℕ)
    (actor : String) (db db' : Db) (row : RunRow)
    → HasRunKeys db
    → finalize_provider_job_result redact clock run_id target details update owner generation actor
        db
      ≡ ok (row, db')
    → (exists_where (active_row run_id) db'.runs ≡ false) × IsCollected run_id db'
unfolding finalized_db
finalize_provider_job_result-settles redact clock run_id target details update owner generation
      actor db db' row keys h =
    let (job, run, final, held, found, _, done) =
      finalize_provider_job_result_cases redact clock run_id target details update owner generation
        actor db h in
    let (has_job, _) = fenced_provider_job_cases clock db run_id owner generation held in
    let now = timestamp clock in
    let safe = redacted redact details in
    let task = first_where (task_is run.task_id) db.tasks in
    let first = finished_db now run_id target safe run task actor db in
    let second = released_worker_db now run_id update run task job actor first in
    let (_, _, jobs1, _) = finished_db_tables now run_id target safe run task actor db in
    let (runs2, _, jobs2, _) =
      released_worker_db_tables now run_id update run task job actor first in
    let (_, runs3, _) = closed_job_db_tables now run_id target task job actor second in
    (
      ap (λ (d : Db). exists_where (active_row run_id) d.runs) done
          ∙ ap (exists_where (active_row run_id)) (runs3 ∙ runs2)
          ∙ finished_db-ends now run_id target safe run task actor db final (keys run_id) found,
      subst (IsCollected run_id) (sym done) (
          closed_job_db-IsCollected now run_id target task job actor second
            (ap (first_where (job_of run_id)) (jobs2 ∙ jobs1) ∙ has_job)),
    )
