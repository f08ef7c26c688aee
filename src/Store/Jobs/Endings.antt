-- ===== src/Store/Jobs/Endings.antt =====
-- The outcomes of `finalize_provider_job_result`, `claim_task_reconciliation` and
-- `interrupt_missing_provider_job` of src/project_supervisor/store.py, taken apart.
use chips_agent_fabric.Prelude.{
  inl, inr, Bool-cases, ℕ, String, Option, none, some, ◌≡◌, arith, true, false, not, ◌⊎◌, refl,
  Bool, ltb, ◌&&◌, ◌||◌, ◌==◌, ap, sym,
}
use chips_agent_fabric.Sql.{first_where, exists_where}
use chips_agent_fabric.Domain.{RunState, RunState_eq}
use chips_agent_fabric.StateMachine.{allows, run_transitions}
use chips_agent_fabric.StateMachine.Terminal.{is_active_run}
use chips_agent_fabric.Store.Error.{
  integrity_error, ok, Error, Result, >>=-eq-ok, >>-eq-ok, fetched-eq-ok, fetched, refuse,
  key_error, value_error, runtime_error, invalid_transition, ◌>>◌,
}
use chips_agent_fabric.Store.Schema.{
  Db, ProviderJobRow, RunRow, TaskRow, task_is, run_is, lease_is, result_of, timestamp,
}
use chips_agent_fabric.Store.Runs.{RunDetails}
use chips_agent_fabric.Store.Runs.Cases.{redacted}
use chips_agent_fabric.Store.Dispatch.{Blank, next_generation}
use chips_agent_fabric.Store.Jobs.{fenced_provider_job}
use chips_agent_fabric.Store.Jobs.Collect.{
  violates_references, WorkerUpdate, finalize_provider_job_result, finalized_db, is_final,
  cancellation_wins,
}
use chips_agent_fabric.Store.Jobs.Orphans.{
  claim_task_reconciliation, reclaimed_db, is_reconcilable, is_live, interrupt_missing_provider_job,
  missing_job_db,
}

ok-path {ℓ} : {A : Type ℓ} {a b : A} → ok a ≡ ok b → a ≡ b
ok-path h = cc

-- A chain that begins with a refused test did not meet it.
passed-eq-ok {ℓ} :
    {S : Type ℓ} (bad : Bool) (reason : Error) (next : Result S) {last : S}
    → (refuse bad reason >> next) ≡ ok last
    → bad ≡ false
passed-eq-ok true reason next h = cc
passed-eq-ok false reason next h = refl

pub finalize_provider_job_result_cases :
    (redact : String → String) (clock : ℕ) (run_id : String) (target : RunState)
    (details : RunDetails) (update : WorkerUpdate) (owner : String) (generation : ℕ)
    (actor : String) (db : Db) {row : RunRow} {db' : Db}
    → finalize_provider_job_result redact clock run_id target details update owner generation actor
        db
      ≡ ok (row, db')
    → (job : ProviderJobRow) × (run : RunRow) × (is_final target ≡ true)
      × (fenced_provider_job clock db run_id owner generation ≡ ok job)
      × (first_where (run_is run_id) db.runs ≡ some run)
      × (first_where (run_is run_id) db'.runs ≡ some row)
      × (db'
          ≡ finalized_db
              (timestamp clock)
              run_id
              target
              (redacted redact details)
              update
              run
              (first_where (task_is run.task_id) db.tasks)
              job
              actor
              db)
unfolding finalize_provider_job_result
finalize_provider_job_result_cases redact clock run_id target details update owner generation actor
      db {row} {db'} h =
    let (job, found, after) =
      >>=-eq-ok (fenced_provider_job clock db run_id owner generation) _
        (>>-eq-ok (refuse (not (is_final target)) value_error) _ h) in
    let (run, there, checks) =
      >>=-eq-ok (fetched (first_where (run_is run_id) db.runs) (key_error run_id)) _ after in
    let task = first_where (task_is run.task_id) db.tasks in
    let written =
      finalized_db (timestamp clock) run_id target (redacted redact details) update run task job
        actor db in
    let (current, fresh, same) =
      >>=-eq-ok (fetched (first_where (run_is run_id) written.runs) (key_error run_id)) _ (
        >>-eq-ok
          (refuse (violates_references target details update run task job db) integrity_error) _
          (>>-eq-ok
            (refuse (not (is_final run.state) && not (allows run_transitions run.state target))
              invalid_transition)
            _
            (>>-eq-ok
              (refuse
                (is_final run.state
                  && not (run.state == target)
                  && not (cancellation_wins run task))
                runtime_error)
              _
              (>>-eq-ok (refuse (not (exists_where (result_of run_id) db.results)) runtime_error) _
                checks)))) in
    let answer = ok-path same in
    let done = ap (λ (t : RunRow × Db). t.1) answer in
    (
      job,
      run,
      ground (arith, passed-eq-ok (not (is_final target)) value_error _ h),
      found,
      fetched-eq-ok _ _ there,
      ground (arith, fetched-eq-ok _ _ fresh, answer),
      sym done,
    )

pub claim_task_reconciliation_cases :
    (blank : Blank) (clock : ℕ) (task_id owner : String) (ttl : ℕ) (allow : Bool) (actor : String)
    (db : Db) {r : Option ℕ} {db' : Db}
    → claim_task_reconciliation blank clock task_id owner ttl allow actor db ≡ ok (r, db')
    → (task : TaskRow) × (first_where (task_is task_id) db.tasks ≡ some task)
      × (((r ≡ none) × (db' ≡ db))
          ⊎ ((is_reconcilable allow task.state ≡ true)
              × (is_live (first_where (lease_is task_id) db.leases) (timestamp clock) ≡ false)
              × (r ≡ some (next_generation (first_where (lease_is task_id) db.leases)))
              × (db'
                  ≡ reclaimed_db clock ttl task_id task owner
                      (next_generation (first_where (lease_is task_id) db.leases))
                      actor
                      db)))
unfolding claim_task_reconciliation
claim_task_reconciliation_cases blank clock task_id owner ttl allow actor db h =
    let (task, found, after) =
      >>=-eq-ok (fetched (first_where (task_is task_id) db.tasks) (key_error task_id)) _ (
        >>-eq-ok (refuse (ltb ttl 1000000) value_error) _
          (>>-eq-ok (refuse (blank owner) value_error) _ h)) in
    let lease = first_where (lease_is task_id) db.leases in
    elim (Bool-cases (not (is_reconcilable allow task.state) || is_live lease (timestamp clock))) [
      | inl y ↦ (task, fetched-eq-ok _ _ found, inl (ground arith, ground arith))
      | inr n ↦ (
        task,
        fetched-eq-ok _ _ found,
        inr (ground arith, ground arith, ground arith, ground arith),
      )
    ]

pub interrupt_missing_provider_job_cases :
    (clock : ℕ) (run_id owner : String) (generation : ℕ) (actor : String) (db : Db) {db' : Db}
    → interrupt_missing_provider_job clock run_id owner generation actor db ≡ ok db'
    → (job : ProviderJobRow) × (run : RunRow) × (task : TaskRow) × (fenced_provider_job clock db
          run_id owner generation
        ≡ ok job)
      × (first_where (run_is run_id) db.runs ≡ some run)
      × (((is_active_run run.state ≡ false) × (db' ≡ db))
          ⊎ ((is_active_run run.state ≡ true)
              × (db' ≡ missing_job_db (timestamp clock) run_id run task job actor db)))
unfolding interrupt_missing_provider_job
interrupt_missing_provider_job_cases clock run_id owner generation actor db h =
    let (job, found, after) =
      >>=-eq-ok (fenced_provider_job clock db run_id owner generation) _ h in
    let (run, there, rest) =
      >>=-eq-ok (fetched (first_where (run_is run_id) db.runs) (key_error run_id)) _ after in
    let (task, _, last) =
      >>=-eq-ok (fetched (first_where (task_is job.task_id) db.tasks) (key_error job.task_id)) _
        rest in
    elim (Bool-cases (is_active_run run.state)) [
      | inr n ↦ (job, run, task, found, fetched-eq-ok _ _ there, inl (n, ground arith))
      | inl y ↦ (job, run, task, found, fetched-eq-ok _ _ there, inr (y, ground arith))
    ]
