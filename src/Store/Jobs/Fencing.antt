-- ===== src/Store/Jobs/Fencing.antt =====
-- The lease token and provider jobs of src/project_supervisor/store.py: the operations that ask for it,
-- and the takeover that gives a new one.
use chips_agent_fabric.Store.System.Leases.{upsert_lease_same}
use chips_agent_fabric.Store.Dispatch.{upsert_lease, new_lease, next_generation, Blank}
use chips_agent_fabric.Prelude.{
  sym, eq_refl, ap, ◌∙◌, ◌+◌, ◌<◌, inr, inl, Bool, ℕ, String, Option, ◌≡◌, arith, true, false, refl,
  some, none, string_eq,
}
use chips_agent_fabric.Sql.{first_where}
use chips_agent_fabric.Domain.{RunState}
use chips_agent_fabric.Store.Error.{ok}
use chips_agent_fabric.Store.Schema.{
  timestamp, lease_is, Db, ProviderJobRow, RunRow, TaskRow, task_is, Handle, ReconciliationState,
  LeaseRow, job_of,
}
use chips_agent_fabric.Store.Runs.{RunDetails}
use chips_agent_fabric.Store.Lease.{
  require_task_execution_lease, task_execution_lease_is_current, is_current,
}
use chips_agent_fabric.Store.Jobs.{require_task_execution_lease, fenced_provider_job}
use chips_agent_fabric.Store.Jobs.Prepare.{mark_provider_job_launching}
use chips_agent_fabric.Store.Jobs.Bind.{bind_provider_job_handle}
use chips_agent_fabric.Store.Jobs.Observe.{
  record_provider_job_observation, mark_provider_job_result_collected,
}
use chips_agent_fabric.Store.Jobs.Collect.{WorkerUpdate, finalize_provider_job_result}
use chips_agent_fabric.Store.Jobs.Orphans.{
  is_reconcilable, claim_task_reconciliation, reclaimed_db, interrupt_missing_provider_job, is_live,
}
use chips_agent_fabric.Store.Jobs.Cases.{
  fenced_provider_job_cases, mark_provider_job_launching_cases, bind_provider_job_handle_cases,
  record_provider_job_observation_cases, mark_provider_job_result_collected_cases,
}
use chips_agent_fabric.Store.Jobs.Endings.{
  claim_task_reconciliation_cases, finalize_provider_job_result_cases,
  interrupt_missing_provider_job_cases,
}

-- A call of one of six operations on the job of a run, made at a time with a lease token, that
-- succeeded.
pub data JobChange (clock : ℕ) (run_id owner : String) (generation : ℕ) (db : Db) : Type 0 where
  launches :
      (actor : String) (row : ProviderJobRow) (db' : Db)
      → mark_provider_job_launching clock run_id owner generation actor db ≡ ok (row, db')
      → JobChange clock run_id owner generation db
  binds :
      (safe : String → String) (adapter instance_id : String) (handle : Handle) (actor : String)
      (row : ProviderJobRow) (db' : Db)
      → bind_provider_job_handle safe clock run_id adapter instance_id handle owner generation actor
          db
        ≡ ok (row, db')
      → JobChange clock run_id owner generation db
  observes :
      (redact : String → String) (state : ReconciliationState) (status detail : Option String)
      (actor : String) (row : ProviderJobRow) (db' : Db)
      → record_provider_job_observation redact clock run_id state status detail owner generation
          actor db
        ≡ ok (row, db')
      → JobChange clock run_id owner generation db
  collects :
      (target : RunState) (actor : String) (row : ProviderJobRow) (db' : Db)
      → mark_provider_job_result_collected clock run_id target owner generation actor db
        ≡ ok (row, db')
      → JobChange clock run_id owner generation db
  finalizes :
      (redact : String → String) (target : RunState) (details : RunDetails) (update : WorkerUpdate)
      (actor : String) (row : RunRow) (db' : Db)
      → finalize_provider_job_result redact clock run_id target details update owner generation
          actor db
        ≡ ok (row, db')
      → JobChange clock run_id owner generation db
  interrupts :
      (actor : String) (db' : Db)
      → interrupt_missing_provider_job clock run_id owner generation actor db ≡ ok db'
      → JobChange clock run_id owner generation db

JobChange-fenced :
    {clock : ℕ} {run_id owner : String} {generation : ℕ} {db : Db}
    → JobChange clock run_id owner generation db
    → (job : ProviderJobRow) × (fenced_provider_job clock db run_id owner generation ≡ ok job)
JobChange-fenced {clock} {run_id} {owner} {generation} {db} (JobChange.launches a row db' h) =
    let (job, e, _) = mark_provider_job_launching_cases clock run_id owner generation a db h in
    (job, e)
JobChange-fenced {clock} {run_id} {owner} {generation} {db}
      (JobChange.binds safe ad i handle a row db' h) =
    let (job, e, _) =
      bind_provider_job_handle_cases safe clock run_id ad i handle owner generation a db h in
    (job, e)
JobChange-fenced {clock} {run_id} {owner} {generation} {db}
      (JobChange.observes redact state st d a row db' h) =
    let (job, e, _) =
      record_provider_job_observation_cases redact clock run_id state st d owner generation a db
        h in
    (job, e)
JobChange-fenced {clock} {run_id} {owner} {generation} {db}
      (JobChange.collects target a row db' h) =
    let (job, e, _) =
      mark_provider_job_result_collected_cases clock run_id target owner generation a db h in
    (job, e)
JobChange-fenced {clock} {run_id} {owner} {generation} {db}
      (JobChange.finalizes redact target details update a row db' h) =
    let (job, _, _, e, _, _, _) =
      finalize_provider_job_result_cases redact clock run_id target details update owner generation
        a db h in
    (job, e)
JobChange-fenced {clock} {run_id} {owner} {generation} {db} (JobChange.interrupts a db' h) =
    let (job, _, _, e, _, _) =
      interrupt_missing_provider_job_cases clock run_id owner generation a db h in
    (job, e)

held-current :
    (clock : ℕ) (db : Db) (task_id owner : String) (generation : ℕ)
    → require_task_execution_lease clock db task_id owner generation ≡ ok tt
    → task_execution_lease_is_current clock db task_id owner generation ≡ true
unfolding task_execution_lease_is_current
held-current clock db task_id owner generation h = ground (arith, h)

pub current-held :
    (clock : ℕ) (db : Db) (task_id owner : String) (generation : ℕ)
    → task_execution_lease_is_current clock db task_id owner generation
      ≡ is_current (first_where (lease_is task_id) db.leases) owner generation (timestamp clock)
unfolding task_execution_lease_is_current require_task_execution_lease
current-held clock db task_id owner generation = ground arith

-- A call that succeeds of mark_provider_job_launching, bind_provider_job_handle,
-- record_provider_job_observation, mark_provider_job_result_collected, finalize_provider_job_result or
-- interrupt_missing_provider_job was made with the lease token that is current for the task of the
-- job. cancel_task_execution, which writes jobs without a token, is not one of the six.
pub JobChange-current :
    (clock : ℕ) (run_id owner : String) (generation : ℕ) (db : Db)
    → JobChange clock run_id owner generation db
    → (job : ProviderJobRow) × (first_where (job_of run_id) db.provider_jobs ≡ some job)
      × (task_execution_lease_is_current clock db job.task_id owner generation ≡ true)
JobChange-current clock run_id owner generation db change =
    let (job, e) = JobChange-fenced change in
    let (found, held) = fenced_provider_job_cases clock db run_id owner generation e in
    (job, found, held-current clock db job.task_id owner generation held)

lost_while_dead :
    (lease : Option LeaseRow) (owner : String) (generation now : ℕ)
    → is_live lease now ≡ false
    → is_current lease owner generation now ≡ false
lost_while_dead none owner generation now h = refl
lost_while_dead (some l) owner generation now h = ground arith

-- A granted reconciliation found no current token of the task, whoever asks; its task was running or
-- waiting, or cancelled where that was allowed; it takes the generation after the last one; and its
-- own token is current until the expiry that it asked for.
pub claim_task_reconciliation-orphaned :
    (blank : Blank) (clock : ℕ) (task_id owner : String) (ttl : ℕ) (allow : Bool) (actor : String)
    (db db' : Db) (new : ℕ)
    → claim_task_reconciliation blank clock task_id owner ttl allow actor db ≡ ok (some new, db')
    → ((o : String) (g : ℕ) → task_execution_lease_is_current clock db task_id o g ≡ false)
      × ((task : TaskRow) × (first_where (task_is task_id) db.tasks ≡ some task)
          × (is_reconcilable allow task.state ≡ true))
      × (new ≡ next_generation (first_where (lease_is task_id) db.leases))
      × ((clock' : ℕ)
          → timestamp clock' < timestamp (clock + ttl)
          → task_execution_lease_is_current clock' db' task_id owner new ≡ true)
unfolding reclaimed_db
claim_task_reconciliation-orphaned blank clock task_id owner ttl allow actor db db' new h =
    let (task, found, outcome) =
      claim_task_reconciliation_cases blank clock task_id owner ttl allow actor db h in
    elim outcome [
      | inl (e, _) ↦ cc
      | inr (fits, dead, e, done) ↦
          let generation : ◌≡◌ {A = ℕ} new
              (next_generation (first_where (lease_is task_id) db.leases)) =
            cc in
          let lease = new_lease clock ttl task_id owner new in
          let written : first_where (lease_is task_id) db'.leases ≡ some lease =
            ap (λ (d : Db). first_where (lease_is task_id) d.leases) done
            ∙ ap
                (λ n.
                  first_where (lease_is task_id)
                    (upsert_lease (new_lease clock ttl task_id owner n) db.leases))
                (sym generation)
            ∙ upsert_lease_same lease db.leases in
          (
            (λ o g.
                current-held clock db task_id o g
                ∙ lost_while_dead (first_where (lease_is task_id) db.leases) o g (timestamp clock)
                    dead),
            (task, found, fits),
            generation,
            λ clock' before.
                current-held clock' db' task_id owner new
                ∙ ap (λ l. is_current l owner new (timestamp clock')) written
                ∙ ground (arith, eq_refl owner),
          )
    ]
