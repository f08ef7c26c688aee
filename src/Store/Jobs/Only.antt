-- ===== src/Store/Jobs/Only.antt =====
-- Which tables the operations on provider jobs of src/project_supervisor/store.py leave alone.
use chips_agent_fabric.Store.Jobs.{reconciliation_text}
use chips_agent_fabric.Prelude.{
  string_eq, inl, inr, Bool-cases, ℕ, String, List, Option, ◌≡◌, arith, refl, subst, sym, ◌==◌,
}
use chips_agent_fabric.Domain.{RunState}
use chips_agent_fabric.Store.Error.{ok}
use chips_agent_fabric.Store.Schema.{Db, ProviderJobRow, Handle, ReconciliationState, timestamp}
use chips_agent_fabric.Store.Dispatch.{Blank}
use chips_agent_fabric.Store.Jobs.Prepare.{
  insert_job, prepare_provider_job, mark_provider_job_launching, launching_db,
}
use chips_agent_fabric.Store.Jobs.Bind.{bound_db, bind_provider_job_handle}
use chips_agent_fabric.Store.Jobs.Observe.{
  observed_db, record_provider_job_observation, collected_db, mark_provider_job_result_collected,
}
use chips_agent_fabric.Store.Jobs.Cases.{
  OnlyJobs, prepare_provider_job_cases, mark_provider_job_launching_cases,
  bind_provider_job_handle_cases, record_provider_job_observation_cases,
  mark_provider_job_result_collected_cases,
}

same-OnlyJobs : (db db' : Db) → db' ≡ db → OnlyJobs db db'
same-OnlyJobs db db' h = subst (OnlyJobs db) (sym h) (refl, refl, refl, refl)

insert_job-OnlyJobs :
    (fingerprint : String → String) (job : ProviderJobRow) (project : Option String)
    (actor : String) (db : Db) {db' : Db}
    → insert_job fingerprint job project actor db ≡ ok db'
    → OnlyJobs db db'
unfolding insert_job
insert_job-OnlyJobs fingerprint job project actor db {db'} h = ground arith

pub prepare_provider_job-OnlyJobs :
    (blank : Blank) (fingerprint : String → String) (clock : ℕ)
    (job_id run_id adapter instance_id : String) (capabilities : List (String × ℕ)) (owner : String)
    (generation : ℕ) (actor : String) (db : Db) {row : ProviderJobRow} {db' : Db}
    → prepare_provider_job blank fingerprint clock job_id run_id adapter instance_id capabilities
        owner generation actor db
      ≡ ok (row, db')
    → OnlyJobs db db'
prepare_provider_job-OnlyJobs blank fingerprint clock job_id run_id adapter instance_id capabilities
      owner generation actor db {row} {db'} h =
    elim (prepare_provider_job_cases blank fingerprint clock job_id run_id adapter instance_id
      capabilities owner generation actor db h) [
        | inl (_, _, same) ↦ same-OnlyJobs db db' same
        | inr (run, provider, project, _, _, done) ↦
            insert_job-OnlyJobs fingerprint _ project actor db done
      ]

pub mark_provider_job_launching-OnlyJobs :
    (clock : ℕ) (run_id owner : String) (generation : ℕ) (actor : String) (db : Db)
    {row : ProviderJobRow} {db' : Db}
    → mark_provider_job_launching clock run_id owner generation actor db ≡ ok (row, db')
    → OnlyJobs db db'
unfolding launching_db
mark_provider_job_launching-OnlyJobs clock run_id owner generation actor db {row} {db'} h =
    let (job, _, outcome) =
      mark_provider_job_launching_cases clock run_id owner generation actor db h in
    elim outcome [
      | inl (_, same) ↦ same-OnlyJobs db db' same
      | inr (_, done) ↦ subst (OnlyJobs db) (sym done) (refl, refl, refl, refl)
    ]

pub bind_provider_job_handle-OnlyJobs :
    (safe : String → String) (clock : ℕ) (run_id adapter instance_id : String) (handle : Handle)
    (owner : String) (generation : ℕ) (actor : String) (db : Db) {row : ProviderJobRow} {db' : Db}
    → bind_provider_job_handle safe clock run_id adapter instance_id handle owner generation actor
        db
      ≡ ok (row, db')
    → OnlyJobs db db'
unfolding bound_db
bind_provider_job_handle-OnlyJobs safe clock run_id adapter instance_id handle owner generation
      actor db {row} {db'} h =
    let (job, _, outcome) =
      bind_provider_job_handle_cases safe clock run_id adapter instance_id handle owner generation
        actor db h in
    elim outcome [
      | inl (_, _, same) ↦ same-OnlyJobs db db' same
      | inr (_, done) ↦ subst (OnlyJobs db) (sym done) (refl, refl, refl, refl)
    ]

observed_db-OnlyJobs :
    (redact : String → String) (now : ℕ) (run_id : String) (state : ReconciliationState)
    (status detail : Option String) (job : ProviderJobRow) (actor : String) (db : Db)
    → OnlyJobs db (observed_db redact now run_id state status detail job actor db)
unfolding observed_db
observed_db-OnlyJobs redact now run_id state status detail job actor db =
    elim (Bool-cases (reconciliation_text job.reconciliation_state == reconciliation_text state)) [
      | inl y ↦ rw y (refl, refl, refl, refl)
      | inr n ↦ rw n (refl, refl, refl, refl)
    ]

pub record_provider_job_observation-OnlyJobs :
    (redact : String → String) (clock : ℕ) (run_id : String) (state : ReconciliationState)
    (status detail : Option String) (owner : String) (generation : ℕ) (actor : String) (db : Db)
    {row : ProviderJobRow} {db' : Db}
    → record_provider_job_observation redact clock run_id state status detail owner generation actor
        db
      ≡ ok (row, db')
    → OnlyJobs db db'
record_provider_job_observation-OnlyJobs redact clock run_id state status detail owner generation
      actor db {row} {db'} h =
    let (job, _, outcome) =
      record_provider_job_observation_cases redact clock run_id state status detail owner generation
        actor db h in
    elim outcome [
      | inl (_, same) ↦ same-OnlyJobs db db' same
      | inr (_, done) ↦
          subst (OnlyJobs db) (sym done)
            (observed_db-OnlyJobs redact (timestamp clock) run_id state status detail job actor db)
    ]

pub mark_provider_job_result_collected-OnlyJobs :
    (clock : ℕ) (run_id : String) (target : RunState) (owner : String) (generation : ℕ)
    (actor : String) (db : Db) {row : ProviderJobRow} {db' : Db}
    → mark_provider_job_result_collected clock run_id target owner generation actor db
      ≡ ok (row, db')
    → OnlyJobs db db'
unfolding collected_db
mark_provider_job_result_collected-OnlyJobs clock run_id target owner generation actor db {row}
      {db'} h =
    let (job, _, outcome) =
      mark_provider_job_result_collected_cases clock run_id target owner generation actor db h in
    elim outcome [
      | inl (_, same) ↦ same-OnlyJobs db db' same
      | inr (_, _, _, done) ↦ subst (OnlyJobs db) (sym done) (refl, refl, refl, refl)
    ]
