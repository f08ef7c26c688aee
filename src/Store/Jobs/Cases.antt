-- ===== src/Store/Jobs/Cases.antt =====
-- The outcomes of the operations on provider jobs of src/project_supervisor/store.py, taken apart.
use chips_agent_fabric.Prelude.{
  inl, inr, Bool-cases, Option-cases, ℕ, String, List, Option, none, subst, sym, ap, ◌∙◌, ◌==◌,
  nat_eq, ◌≡◌, arith, some, true, false, ◌⊎◌,
}
use chips_agent_fabric.Sql.{first_where}
use chips_agent_fabric.Store.Error.{
  ok, >>=-eq-ok, >>-eq-ok, fetched, refuse, key_error, fetched-eq-ok, guarded-eq-ok, runtime_error,
  value_error,
}
use chips_agent_fabric.Store.Schema.{
  Db, ProviderJobRow, Handle, ReconciliationState, job_of, timestamp, RunRow, run_is, task_is,
  worker_is,
}
use chips_agent_fabric.Domain.{RunState}
use chips_agent_fabric.Store.Dispatch.{Blank}
use chips_agent_fabric.Store.Lease.{require_task_execution_lease}
use chips_agent_fabric.Store.Jobs.{
  provider_job_for_update, fenced_provider_job, get_provider_job, is_collected,
}
use chips_agent_fabric.Store.Jobs.Prepare.{
  insert_job, prepare_provider_job, mark_provider_job_launching, is_prepared, launching_db,
  existing_or_new, prepared_job, is_same_intent, protocol_of,
}
use chips_agent_fabric.Store.Jobs.Bind.{
  bound_db, bind_job, bind_provider_job_handle, is_bindable, is_bound, same_handle,
}
use chips_agent_fabric.Store.Jobs.Observe.{
  observed_db, record_provider_job_observation, collected_db, mark_provider_job_result_collected,
  collected_as,
}

get_provider_job-same :
    (run_id : String) (db : Db) {row : ProviderJobRow} {db' : Db}
    → get_provider_job run_id db ≡ ok (row, db')
    → db' ≡ db
unfolding get_provider_job
get_provider_job-same run_id db h = ground arith

-- The job of the run, fetched under the current lease of its task.
pub fenced_provider_job_cases :
    (clock : ℕ) (db : Db) (run_id owner : String) (generation : ℕ) {job : ProviderJobRow}
    → fenced_provider_job clock db run_id owner generation ≡ ok job
    → (first_where (job_of run_id) db.provider_jobs ≡ some job)
      × (require_task_execution_lease clock db job.task_id owner generation ≡ ok tt)
unfolding fenced_provider_job provider_job_for_update
fenced_provider_job_cases clock db run_id owner generation h =
    elim (Option-cases (first_where (job_of run_id) db.provider_jobs)) [
      | inl e ↦ absurd (ground arith)
      | inr (job, e) ↦ (ground arith, ground arith)
    ]

-- The tables that an operation on a job alone does not write.
abbrev pub OnlyJobs : Db → Db → Type 0
OnlyJobs db db' =
    (db'.workers ≡ db.workers)
    × (db'.runs ≡ db.runs)
    × (db'.leases ≡ db.leases)
    × (db'.tasks ≡ db.tasks)

bind_job_cases :
    (now : ℕ) (run_id : String) (handle : Handle) (job : ProviderJobRow) (actor : String) (db : Db)
    {row : ProviderJobRow} {db' : Db}
    → bind_job now run_id handle job actor db ≡ ok (row, db')
    → ((is_bound job.launch_state ≡ true) × (same_handle job.handle handle ≡ true) × (db' ≡ db))
      ⊎ ((is_bindable job job.launch_state ≡ true)
          × (db' ≡ bound_db now run_id handle job actor db))
unfolding bind_job
bind_job_cases now run_id handle job actor db h = elim (Bool-cases (is_bound job.launch_state)) [
  | inl y ↦ inl (y, ground arith, ground arith)
  | inr n ↦
      let written = bound_db now run_id handle job actor db in
      let after = rw n at h in
      inr (
        ground (arith, after),
        get_provider_job-same run_id written
            (>>-eq-ok _ (get_provider_job run_id written) (>>-eq-ok _ _ after)),
      )
]

pub bind_provider_job_handle_cases :
    (safe : String → String) (clock : ℕ) (run_id adapter instance_id : String) (raw : Handle)
    (owner : String) (generation : ℕ) (actor : String) (db : Db) {row : ProviderJobRow} {db' : Db}
    → bind_provider_job_handle safe clock run_id adapter instance_id raw owner generation actor db
      ≡ ok (row, db')
    → (job : ProviderJobRow) × (fenced_provider_job clock db run_id owner generation ≡ ok job)
      × (((is_bound job.launch_state ≡ true)
            × (same_handle job.handle (record raw { adapter_metadata = safe raw.adapter_metadata })
                ≡ true)
            × (db' ≡ db))
          ⊎ ((is_bindable job job.launch_state ≡ true)
              × (db'
                  ≡ bound_db
                      (timestamp clock)
                      run_id
                      (record raw { adapter_metadata = safe raw.adapter_metadata })
                      job
                      actor
                      db)))
unfolding bind_provider_job_handle
bind_provider_job_handle_cases safe clock run_id adapter instance_id raw owner generation actor db
      {row} {db'} h =
    let handle : Handle = record raw { adapter_metadata = safe raw.adapter_metadata } in
    let (job, found, after) =
      >>=-eq-ok (fenced_provider_job clock db run_id owner generation) _ (>>-eq-ok _ _ h) in
    (
      job,
      found,
      bind_job_cases (timestamp clock) run_id handle job actor db
          (>>-eq-ok _ (bind_job (timestamp clock) run_id handle job actor db) after),
    )

pub record_provider_job_observation_cases :
    (redact : String → String) (clock : ℕ) (run_id : String) (state : ReconciliationState)
    (status detail : Option String) (owner : String) (generation : ℕ) (actor : String) (db : Db)
    {row : ProviderJobRow} {db' : Db}
    → record_provider_job_observation redact clock run_id state status detail owner generation actor
        db
      ≡ ok (row, db')
    → (job : ProviderJobRow) × (fenced_provider_job clock db run_id owner generation ≡ ok job)
      × (((is_collected job.result_collection_state ≡ true) × (db' ≡ db))
          ⊎ ((is_collected job.result_collection_state ≡ false)
              × (db'
                  ≡ observed_db redact (timestamp clock) run_id state status detail job actor db)))
unfolding record_provider_job_observation
record_provider_job_observation_cases redact clock run_id state status detail owner generation actor
      db h =
    let (job, found, after) =
      >>=-eq-ok (fenced_provider_job clock db run_id owner generation) _ h in
    elim (Bool-cases (is_collected job.result_collection_state)) [
      | inl y ↦ (job, found, inl (y, ground arith))
      | inr n ↦ (job, found, inr (n, get_provider_job-same run_id _ (rw n at after)))
    ]

pub mark_provider_job_result_collected_cases :
    (clock : ℕ) (run_id : String) (target : RunState) (owner : String) (generation : ℕ)
    (actor : String) (db : Db) {row : ProviderJobRow} {db' : Db}
    → mark_provider_job_result_collected clock run_id target owner generation actor db
      ≡ ok (row, db')
    → (job : ProviderJobRow) × (fenced_provider_job clock db run_id owner generation ≡ ok job)
      × (((is_collected job.result_collection_state ≡ true) × (db' ≡ db))
          ⊎ ((state : ReconciliationState) × (project : Option String) × (is_collected
                  job.result_collection_state
                ≡ false)
              × (db' ≡ collected_db (timestamp clock) run_id state job project actor db)))
unfolding mark_provider_job_result_collected
mark_provider_job_result_collected_cases clock run_id target owner generation actor db h =
    let (state, _, fetched_job) = >>=-eq-ok (fetched (collected_as target) _) _ h in
    let (job, found, after) =
      >>=-eq-ok (fenced_provider_job clock db run_id owner generation) _ fetched_job in
    elim (Bool-cases (is_collected job.result_collection_state)) [
      | inl y ↦ (job, found, inl (y, ground arith))
      | inr n ↦ (job, found, inr (state, _, n, get_provider_job-same run_id _ (rw n at after)))
    ]

pub mark_provider_job_launching_cases :
    (clock : ℕ) (run_id owner : String) (generation : ℕ) (actor : String) (db : Db)
    {row : ProviderJobRow} {db' : Db}
    → mark_provider_job_launching clock run_id owner generation actor db ≡ ok (row, db')
    → (job : ProviderJobRow) × (fenced_provider_job clock db run_id owner generation ≡ ok job)
      × (((is_prepared job.launch_state ≡ false) × (db' ≡ db))
          ⊎ ((is_prepared job.launch_state ≡ true)
              × (db' ≡ launching_db (timestamp clock) run_id job actor db)))
unfolding mark_provider_job_launching
mark_provider_job_launching_cases clock run_id owner generation actor db h =
    let (job, found, after) =
      >>=-eq-ok (fenced_provider_job clock db run_id owner generation) _ h in
    elim (Bool-cases (is_prepared job.launch_state)) [
      | inr n ↦ (job, found, inl (n, ground arith))
      | inl y ↦ (job, found, inr (y, get_provider_job-same run_id _ (rw y at after)))
    ]

existing_or_new_cases :
    (fingerprint : String → String) (now : ℕ) (job_id run_id : String) (run : RunRow)
    (provider adapter instance_id : String) (capabilities : List (String × ℕ)) (generation : ℕ)
    (project : Option String) (actor : String) (db : Db) {row : ProviderJobRow} {db' : Db}
    → first_where (run_is run_id) db.runs ≡ some run
    → existing_or_new fingerprint now job_id run provider adapter instance_id capabilities
        generation project actor db
        (first_where (job_of run_id) db.provider_jobs)
      ≡ ok (row, db')
    → ((first_where (job_of run_id) db.provider_jobs ≡ some row)
        × (is_same_intent row adapter instance_id generation capabilities ≡ true)
        × (db' ≡ db))
      ⊎ ((run : RunRow) × (provider : String) × (project : Option String) × (first_where
              (run_is run_id)
              db.runs
            ≡ some run)
          × (first_where (job_of run_id) db.provider_jobs ≡ none)
          × (insert_job fingerprint
                (prepared_job now job_id run provider adapter instance_id generation capabilities)
                project
                actor
                db
              ≡ ok db'))
unfolding existing_or_new
existing_or_new_cases fingerprint now job_id run_id run provider adapter instance_id capabilities
      generation project actor db {row} {db'} found h =
    elim (Option-cases (first_where (job_of run_id) db.provider_jobs)) [
      | inr (existing, e) ↦
          let (same, taken) =
            guarded-eq-ok (is_same_intent existing adapter instance_id generation capabilities)
              (existing, db) runtime_error (rw e at h) in
          let is_row = ap (λ (t : ProviderJobRow × Db). t.0) taken in
          inl (
            e ∙ ap some is_row,
            subst (λ r. is_same_intent r adapter instance_id generation capabilities ≡ true) is_row
                same,
            sym (ap (λ (t : ProviderJobRow × Db). t.1) taken),
          )
      | inl e ↦
          let job =
            prepared_job now job_id run provider adapter instance_id generation capabilities in
          let (prepared, inserted, after) =
            >>=-eq-ok (insert_job fingerprint job project actor db) _ (rw e at h) in
          inr (
            run,
            provider,
            project,
            found,
            e,
            subst (λ d. insert_job fingerprint job project actor db ≡ ok d)
                (sym (get_provider_job-same run.id prepared after)) inserted,
          )
    ]

-- A new job, or the job that is there.
pub prepare_provider_job_cases :
    (blank : Blank) (fingerprint : String → String) (clock : ℕ)
    (job_id run_id adapter instance_id : String) (capabilities : List (String × ℕ)) (owner : String)
    (generation : ℕ) (actor : String) (db : Db) {row : ProviderJobRow} {db' : Db}
    → prepare_provider_job blank fingerprint clock job_id run_id adapter instance_id capabilities
        owner generation actor db
      ≡ ok (row, db')
    → ((first_where (job_of run_id) db.provider_jobs ≡ some row)
        × (is_same_intent row adapter instance_id generation capabilities ≡ true)
        × (db' ≡ db))
      ⊎ ((run : RunRow) × (provider : String) × (project : Option String) × (first_where
              (run_is run_id)
              db.runs
            ≡ some run)
          × (first_where (job_of run_id) db.provider_jobs ≡ none)
          × (insert_job fingerprint
                (prepared_job
                  (timestamp clock)
                  job_id
                  run
                  provider
                  adapter
                  instance_id
                  generation
                  capabilities)
                project
                actor
                db
              ≡ ok db'))
unfolding prepare_provider_job
prepare_provider_job_cases blank fingerprint clock job_id run_id adapter instance_id capabilities
      owner generation actor db h =
    let (run, found, with_run) =
      >>=-eq-ok (fetched (first_where (run_is run_id) db.runs) (key_error run_id)) _ (
        >>-eq-ok (refuse (protocol_of capabilities == 0) value_error) _ (
          >>-eq-ok (refuse (blank instance_id) value_error) _
            (>>-eq-ok (refuse (blank adapter) value_error) _ h))) in
    let (task, _, with_task) =
      >>=-eq-ok (fetched (first_where (task_is run.task_id) db.tasks) (key_error run_id)) _
        with_run in
    let (worker, _, with_worker) =
      >>=-eq-ok (fetched (first_where (worker_is run.worker_id) db.workers) (key_error run_id)) _
        with_task in
    existing_or_new_cases fingerprint (timestamp clock) job_id run_id run worker.provider adapter
      instance_id capabilities generation (some task.project_id) actor db
      (fetched-eq-ok (first_where (run_is run_id) db.runs) (key_error run_id) found)
      (>>-eq-ok _
        (existing_or_new fingerprint (timestamp clock) job_id run worker.provider adapter
          instance_id capabilities generation (some task.project_id) actor db
          (first_where (job_of run_id) db.provider_jobs))
        with_worker)
