-- ===== src/Store/System/Jobs.antt =====
-- Runs and leases under the operations on provider jobs of src/project_supervisor/store.py.
use chips_agent_fabric.Prelude.{
  [], inl, inr, ℕ, String, Option, ◌≡◌, arith, refl, Bool, ap, ◌∙◌, some, none, ◌⊎◌,
}
use chips_agent_fabric.Sql.{update_where, count_where}
use chips_agent_fabric.Domain.{RunState}
use chips_agent_fabric.Store.Error.{ok}
use chips_agent_fabric.Store.Schema.{Db, ProviderJobRow, RunRow, TaskRow, run_is, timestamp}
use chips_agent_fabric.Store.Runs.{RunDetails}
use chips_agent_fabric.Store.Runs.Cases.{redacted}
use chips_agent_fabric.Store.Dispatch.{Blank, Claim, acquire_lease}
use chips_agent_fabric.Store.Jobs.Collect.{
  WorkerUpdate, finalize_provider_job_result, finalized_db, finished_db, released_worker_db,
  finished_run,
}
use chips_agent_fabric.Store.Jobs.Orphans.{
  claim_task_reconciliation, reclaimed_db, interrupt_missing_provider_job, missing_job_db,
  missing_run,
}
use chips_agent_fabric.Store.Jobs.Endings.{
  finalize_provider_job_result_cases, claim_task_reconciliation_cases,
  interrupt_missing_provider_job_cases,
}
use chips_agent_fabric.Store.Jobs.Tables.{
  finished_db_tables, released_worker_db_tables, closed_job_db_tables,
}
use chips_agent_fabric.Store.System.Tables.{SameTables}
use chips_agent_fabric.Store.System.Keys.{SameRunIds, update-SameRunIds}
use chips_agent_fabric.Store.System.Leases.{acquire_lease-grows, generation_at}
use chips_agent_fabric.Store.System.Generations.{Grows, same-Grows}

-- What all parts of a finalization leave of the runs and the leases.
finalized_db_tables :
    (now : ℕ) (run_id : String) (target : RunState) (details : RunDetails) (update : WorkerUpdate)
    (run : RunRow) (task : Option TaskRow) (job : ProviderJobRow) (actor : String) (db : Db)
    → let db' = finalized_db now run_id target details update run task job actor db in
      (db'.leases ≡ db.leases)
      × ((db'.runs ≡ update_where (run_is run_id) (finished_run now target details) db.runs)
          ⊎ (db'.runs ≡ db.runs))
unfolding finalized_db
finalized_db_tables now run_id target details update run task job actor db =
    let first = finished_db now run_id target details run task actor db in
    let second = released_worker_db now run_id update run task job actor first in
    let (_, l1, _, outcome) = finished_db_tables now run_id target details run task actor db in
    let (r2, l2, _, _) = released_worker_db_tables now run_id update run task job actor first in
    let (_, r3, l3) = closed_job_db_tables now run_id target task job actor second in
    (
      l3 ∙ l2 ∙ l1,
      elim outcome [ inl done ↦ inl (r3 ∙ r2 ∙ done) | inr (same, _) ↦ inr (r3 ∙ r2 ∙ same) ],
    )

module _ (redact : String → String) (clock : ℕ) (run_id : String) (target : RunState)
    (details : RunDetails) (update : WorkerUpdate) (owner : String) (generation : ℕ)
    (actor : String) (db : Db) {row : RunRow} {db' : Db}
    (h : finalize_provider_job_result redact clock run_id target details update owner generation
        actor db
      ≡ ok (row, db')) where
  pub finalize_provider_job_result-leases : db'.leases ≡ db.leases
  finalize_provider_job_result-leases =
      let (job, run, _, _, _, _, done) =
        finalize_provider_job_result_cases redact clock run_id target details update owner
          generation actor db h in
      ap (λ (d : Db). d.leases) done
      ∙ (finalized_db_tables (timestamp clock) run_id target (redacted redact details) update run _
          job actor db).0

  pub finalize_provider_job_result-SameRunIds : SameRunIds db db'
  finalize_provider_job_result-SameRunIds k =
      let (job, run, _, _, _, _, done) =
        finalize_provider_job_result_cases redact clock run_id target details update owner
          generation actor db h in
      ap (λ (d : Db). count_where (run_is k) d.runs) done
      ∙ elim (finalized_db_tables (timestamp clock) run_id target (redacted redact details) update
          run _ job actor db).1 [
            | inl e ↦
                ap (count_where (run_is k)) e
                ∙ update-SameRunIds (run_is run_id)
                    (finished_run (timestamp clock) target (redacted redact details)) db (λ r. refl)
                    k
            | inr e ↦ ap (count_where (run_is k)) e
          ]

module _ (clock : ℕ) (run_id owner : String) (generation : ℕ) (actor : String) (db : Db) {db' : Db}
    (h : interrupt_missing_provider_job clock run_id owner generation actor db ≡ ok db') where
  pub interrupt_missing_provider_job-leases : db'.leases ≡ db.leases
  unfolding missing_job_db
  interrupt_missing_provider_job-leases =
      let (_, _, _, _, _, outcome) =
        interrupt_missing_provider_job_cases clock run_id owner generation actor db h in
      elim outcome [
        | inl (_, same) ↦ ap (λ (d : Db). d.leases) same
        | inr (_, done) ↦ ap (λ (d : Db). d.leases) done
      ]

  pub interrupt_missing_provider_job-SameRunIds : SameRunIds db db'
  unfolding missing_job_db
  interrupt_missing_provider_job-SameRunIds k =
      let (_, _, _, _, _, outcome) =
        interrupt_missing_provider_job_cases clock run_id owner generation actor db h in
      elim outcome [
        | inl (_, same) ↦ ap (λ (d : Db). count_where (run_is k) d.runs) same
        | inr (_, done) ↦
            ap (λ (d : Db). count_where (run_is k) d.runs) done
            ∙ update-SameRunIds (run_is run_id) (missing_run (timestamp clock)) db (λ r. refl) k
      ]

-- The claim that would acquire the same lease.
abbrev lease_claim : ℕ → String → String → Claim
lease_claim ttl task_id owner = record {
  task_id = task_id;
  worker_ids = [];
  expected_version = 0;
  timeout_at = none;
  lease_owner_id = some owner;
  lease_ttl = ttl;
  max_attempts = none;
  actor = "";
}

pub claim_task_reconciliation-Grows :
    (blank : Blank) (clock : ℕ) (task_id owner : String) (ttl : ℕ) (allow : Bool) (actor : String)
    (db : Db) {r : Option ℕ} {db' : Db}
    → claim_task_reconciliation blank clock task_id owner ttl allow actor db ≡ ok (r, db')
    → Grows db db'
unfolding reclaimed_db acquire_lease
claim_task_reconciliation-Grows blank clock task_id owner ttl allow actor db {r} {db'} h =
    let (task, _, outcome) =
      claim_task_reconciliation_cases blank clock task_id owner ttl allow actor db h in
    elim outcome [
      | inl (_, same) ↦ same-Grows db db' (ap (λ (d : Db). d.leases) same)
      | inr (_, _, _, done) ↦ λ k. omega (
        arith,
        ap (λ (d : Db). generation_at k d.leases) done,
        acquire_lease-grows clock (lease_claim ttl task_id owner) (some owner) db k,
      )
    ]

pub claim_task_reconciliation-SameTables :
    (blank : Blank) (clock : ℕ) (task_id owner : String) (ttl : ℕ) (allow : Bool) (actor : String)
    (db : Db) {r : Option ℕ} {db' : Db}
    → claim_task_reconciliation blank clock task_id owner ttl allow actor db ≡ ok (r, db')
    → SameTables db db'
unfolding reclaimed_db
claim_task_reconciliation-SameTables blank clock task_id owner ttl allow actor db h =
    let (task, _, outcome) =
      claim_task_reconciliation_cases blank clock task_id owner ttl allow actor db h in
    elim outcome [
      | inl (_, same) ↦ (ap (λ (d : Db). d.workers) same, ap (λ (d : Db). d.runs) same)
      | inr (_, _, _, done) ↦ (ap (λ (d : Db). d.workers) done, ap (λ (d : Db). d.runs) done)
    ]
