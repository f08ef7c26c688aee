-- ===== src/Store/System/Exclusive.antt =====
-- Workers and runs of src/project_supervisor/store.py over whole executions.
use chips_agent_fabric.Store.System.Reports.{
  record_adapter_event-IsExclusive, record_adapter_event-SameRunIds,
}
use chips_agent_fabric.Store.System.Jobs.{
  interrupt_missing_provider_job-SameRunIds, claim_task_reconciliation-SameTables,
  finalize_provider_job_result-SameRunIds,
}
use chips_agent_fabric.Store.Exclusive.Finalizing.{
  interrupt_missing_provider_job-IsExclusive, finalize_provider_job_result-IsExclusive,
}
use chips_agent_fabric.Store.Jobs.Only.{
  mark_provider_job_result_collected-OnlyJobs, record_provider_job_observation-OnlyJobs,
  bind_provider_job_handle-OnlyJobs, mark_provider_job_launching-OnlyJobs,
  prepare_provider_job-OnlyJobs,
}
use chips_agent_fabric.Store.Jobs.Cases.{OnlyJobs}
use chips_agent_fabric.Store.Exclusive.Setting.{moved_worker-IsExclusiveAt, set_worker_state_tables}
use chips_agent_fabric.Store.Recover.{recover_interrupted}
use chips_agent_fabric.Store.Claim.Cases.{
  claimed_db_tables, commit_claim_cases, claim_task_dispatch_cases,
}
use chips_agent_fabric.Store.Scopes.{Digests}
use chips_agent_fabric.Sql.{update_where, count_where}
use chips_agent_fabric.Store.Dispatch.{Granted, Claim, Blank}
use chips_agent_fabric.Domain.{WorkerState_eq, ResourceState, WorkerState}
use chips_agent_fabric.Store.System.{
  recover_interrupted, Digests, WorkerState, count_where, Blank, Step, Reach,
}
use chips_agent_fabric.Store.System.Tables.{
  SameTables, create_project-SameTables, create_task-SameTables, add_task_dependency-SameTables,
  transition_task-SameTables, heartbeat-SameTables, release-SameTables,
}
use chips_agent_fabric.Store.System.Keys.{
  SameRunIds, SameRunIds-HasRunKeys, start_runs-HasRunKeys, cancel_task_execution-SameRunIds,
  recover_interrupted-SameRunIds, transition_worker_run-SameRunIds, activate_worker_run-SameRunIds,
}
use chips_agent_fabric.Store.Exclusive.{IsExclusive, IsExclusiveAt}
use chips_agent_fabric.Store.Exclusive.Updating.{
  journal_claims_tables, HasRunKeys, same-IsExclusive, claim_workers-IsExclusive,
  activate_worker_run-IsExclusive, transition_worker_run-IsExclusive,
}
use chips_agent_fabric.Store.Exclusive.Claiming.{claim_task_dispatch-IsExclusive}
use chips_agent_fabric.Store.Exclusive.Fencing.{
  cancel_task_execution-IsExclusive, recover_interrupted-IsExclusive,
}
use chips_agent_fabric.Store.Workers.{
  reserve, moved_worker, distinct, set_worker_state, claim_workers,
}
use chips_agent_fabric.Store.Claim.{leased_db, claim_task_dispatch}
use chips_agent_fabric.Store.Schema.{timestamp, worker_is, run_is, RunRow, Db}
use chips_agent_fabric.Store.Error.{ok}
use chips_agent_fabric.Prelude.{
  ap, string_eq, Bool, inr, inl, sym, ◌≤◌, List, Option, subst, ℕ, String, ◌≡◌, arith,
}

-- The states of workers and runs that every transaction keeps.
abbrev IsSound : Db → Type 0
IsSound db = IsExclusive db × HasRunKeys db

same-IsSound : (db db' : Db) → SameTables db db' → IsSound db → IsSound db'
same-IsSound db db' (ws, rs) (safe, keys) = (
  same-IsExclusive db db' (ws, rs) safe,
  λ k. subst (λ (r : List RunRow). count_where (run_is k) r ≤ 1) (sym rs) (keys k),
)

OnlyJobs-IsSound : (db db' : Db) → OnlyJobs db db' → IsSound db → IsSound db'
OnlyJobs-IsSound db db' (ws, rs, _, _) = same-IsSound db db' (ws, rs)

set_worker_state-IsSound :
    (clock : ℕ) (worker_id : String) (state : WorkerState) (resources : Option ResourceState)
    (model task owner : Option String) (generation : Option ℕ) (actor : String) (db : Db) {db' : Db}
    → (state ≡ WorkerState.idle → ⊥)
    → IsSound db
    → set_worker_state clock worker_id state resources model task owner generation actor db ≡ ok db'
    → IsSound db'
set_worker_state-IsSound clock worker_id state resources model task owner generation actor db {db'}
      busy (safe, keys) h =
    let (ws, rs) =
      set_worker_state_tables clock worker_id state resources model task owner generation actor db
        h in
    same-IsSound
      (record db {
        workers =
            update_where (worker_is worker_id)
              (moved_worker (timestamp clock) state resources model) db.workers;
      })
      db' (ws, rs)
      (
        record {
          at = λ k.
              moved_worker-IsExclusiveAt (timestamp clock) worker_id state resources model
                db.workers db.runs k (λ e. absurd (busy e)) (safe.at k);
        },
        keys,
      )

claim_workers-SameRunIds :
    (clock : ℕ) (ids : List String) (actor : String) (db : Db) {b : Bool} {db' : Db}
    → claim_workers clock ids actor db ≡ ok (b, db')
    → SameRunIds db db'
unfolding claim_workers
claim_workers-SameRunIds clock ids actor db {b} {db'} h k =
    let tables =
      journal_claims_tables (timestamp clock) actor db.workers (distinct ids)
        (record db { workers = reserve (timestamp clock) (distinct ids) db.workers }) in
    let same : db'.runs ≡ db.runs = ground (arith, tables) in ap (count_where (run_is k)) same

claim_task_dispatch-HasRunKeys :
    (new_run_id : String → String) (blank : Blank) (digests : Digests) (clock : ℕ) (claim : Claim)
    (db : Db) {r : Option Granted} {db' : Db}
    → HasRunKeys db
    → claim_task_dispatch new_run_id blank digests clock claim db ≡ ok (r, db')
    → HasRunKeys db'
claim_task_dispatch-HasRunKeys new_run_id blank digests clock claim db {r} {db'} keys h =
    elim (claim_task_dispatch_cases new_run_id blank digests clock claim db h) [
      | inl (_, same) ↦ subst HasRunKeys (sym same) keys
      | inr (task, snapshot, _, _, _, _, done) ↦
          elim (commit_claim_cases new_run_id clock claim _ task snapshot db done) [
            | inl (_, same, _) ↦ subst HasRunKeys (sym same) (unfold leased_db in keys)
            | inr (_, started, _) ↦
                let (runs, _, _, _) =
                  claimed_db_tables clock claim (distinct claim.worker_ids) task db in
                start_runs-HasRunKeys _ db.workers task.project_id claim.actor _ _
                  (λ k.
                    subst (λ (r : List RunRow). count_where (run_is k) r ≤ 1) (sym runs) (keys k))
                  started
          ]
    ]

-- The transaction neither makes a worker idle by `set_worker_state`, which does not look at its runs,
-- nor starts a run by `create_worker_run`, which does not look at its worker.
abbrev pub IsManaged : {db db' : Db} → Step db db' → Type 0
IsManaged (Step.worker_set clock i state rs m t o g actor h) = state ≡ WorkerState.idle → ⊥
IsManaged (Step.run_created digests clock i t w n timeout r h) = ⊥
IsManaged _ = Unit {0}

-- All transactions of the execution are of that kind.
abbrev pub EachIsManaged : {db db' : Db} → Reach db db' → Type 0
EachIsManaged Reach.here = Unit {0}
EachIsManaged (Reach.next before step) = EachIsManaged before × IsManaged step

-- Every such transaction keeps workers exclusive.
Step-IsSound : {db db' : Db} → IsSound db → (step : Step db db') → IsManaged step → IsSound db'
Step-IsSound s (Step.project_created clock i n p g row h) m =
    same-IsSound _ _ (create_project-SameTables clock i n p g _ h) s
Step-IsSound s (Step.task_created clock task reference row h) m =
    same-IsSound _ _ (create_task-SameTables clock task reference _ h) s
Step-IsSound s (Step.dependency_added clock t d h) m =
    same-IsSound _ _ (add_task_dependency-SameTables clock t d _ h) s
Step-IsSound s (Step.task_moved clock i target actor extra v o g row h) m =
    same-IsSound _ _ (transition_task-SameTables clock i target actor extra v o g _ h) s
Step-IsSound s (Step.worker_set clock i state rs m t o g actor h) busy =
    set_worker_state-IsSound clock i state rs m t o g actor _ busy s h
Step-IsSound {db} {db'} (safe, keys) (Step.workers_claimed clock ids actor b h) m = (
  claim_workers-IsExclusive clock ids actor db safe h,
  λ k. omega (arith, keys k, claim_workers-SameRunIds clock ids actor db h k),
)
Step-IsSound {db} (safe, keys) (Step.dispatch_claimed new_run_id blank digests clock claim r h) m =
    (
      claim_task_dispatch-IsExclusive new_run_id blank digests clock claim db safe h,
      claim_task_dispatch-HasRunKeys new_run_id blank digests clock claim db keys h,
    )
Step-IsSound s (Step.run_created digests clock i t w n timeout r h) m = absurd m
Step-IsSound {db} {db'} (safe, keys) (Step.run_activated clock i o g actor b h) m = (
  activate_worker_run-IsExclusive clock i o g actor db safe h,
  SameRunIds-HasRunKeys db db' (activate_worker_run-SameRunIds clock i o g actor db h) keys,
)
Step-IsSound {db} {db'} (safe, keys) (Step.run_moved redact clock i target details extra o g row h)
      m =
    (
      transition_worker_run-IsExclusive redact clock i target details extra o g db safe keys h,
      SameRunIds-HasRunKeys db db'
          (transition_worker_run-SameRunIds redact clock i target details extra o g db h) keys,
    )
Step-IsSound {db} {db'} (safe, keys) (Step.adapter_reported clock i kind payload o g n h) m = (
  record_adapter_event-IsExclusive clock i kind payload o g db h safe,
  SameRunIds-HasRunKeys db db' (record_adapter_event-SameRunIds clock i kind payload o g db h) keys,
)
Step-IsSound {db} {db'} (safe, keys) (Step.task_cancelled clock i actor b h) m = (
  cancel_task_execution-IsExclusive clock i actor db safe h,
  SameRunIds-HasRunKeys db db' (cancel_task_execution-SameRunIds clock i actor db h) keys,
)
Step-IsSound {db} (safe, keys) (Step.recovered clock ids h) m = (
  subst IsExclusive h (recover_interrupted-IsExclusive clock ids db safe),
  subst HasRunKeys h (
      SameRunIds-HasRunKeys db (recover_interrupted clock ids db).1
        (recover_interrupted-SameRunIds clock ids db) keys),
)
Step-IsSound s (Step.lease_renewed clock i o g ttl b h) m =
    same-IsSound _ _ (heartbeat-SameTables clock i o g ttl _ h) s
Step-IsSound {db} s (Step.lease_released clock i o g actor h) m =
    same-IsSound db _ (subst (SameTables db) h (release-SameTables clock i o g actor db)) s
Step-IsSound s (Step.job_prepared blank f clock j i a n c o g actor row h) m =
    OnlyJobs-IsSound _ _ (prepare_provider_job-OnlyJobs blank f clock j i a n c o g actor _ h) s
Step-IsSound s (Step.job_launching clock i o g actor row h) m =
    OnlyJobs-IsSound _ _ (mark_provider_job_launching-OnlyJobs clock i o g actor _ h) s
Step-IsSound s (Step.job_bound safe clock i a n handle o g actor row h) m =
    OnlyJobs-IsSound _ _ (bind_provider_job_handle-OnlyJobs safe clock i a n handle o g actor _ h) s
Step-IsSound s (Step.job_observed redact clock i state st d o g actor row h) m =
    OnlyJobs-IsSound _ _
      (record_provider_job_observation-OnlyJobs redact clock i state st d o g actor _ h) s
Step-IsSound s (Step.job_collected clock i target o g actor row h) m =
    OnlyJobs-IsSound _ _ (mark_provider_job_result_collected-OnlyJobs clock i target o g actor _ h)
      s
Step-IsSound {db} {db'} (safe, keys)
      (Step.result_finalized redact clock i target details update o g actor row h) m =
    (
      finalize_provider_job_result-IsExclusive redact clock i target details update o g actor db
          safe keys h,
      SameRunIds-HasRunKeys db db'
          (finalize_provider_job_result-SameRunIds redact clock i target details update o g actor db
            h)
          keys,
    )
Step-IsSound s (Step.reconciliation_claimed blank clock t o ttl allow actor r h) m =
    same-IsSound _ _ (claim_task_reconciliation-SameTables blank clock t o ttl allow actor _ h) s
Step-IsSound {db} {db'} (safe, keys) (Step.job_missing clock i o g actor h) m = (
  interrupt_missing_provider_job-IsExclusive clock i o g actor db safe h,
  SameRunIds-HasRunKeys db db' (interrupt_missing_provider_job-SameRunIds clock i o g actor db h)
      keys,
)

Reach-IsSound :
    {db db' : Db} → IsSound db → (path : Reach db db') → EachIsManaged path → IsSound db'
Reach-IsSound s Reach.here m = s
Reach-IsSound s (Reach.next before step) (m, n) = Step-IsSound (Reach-IsSound s before m) step n

-- Let no worker have two active runs, no idle worker have one, and run identifiers be unique. Then an
-- execution of the transactions of `Step`, in which nobody makes a worker idle by `set_worker_state` or
-- starts a run by `create_worker_run`, keeps the first two for every worker: at most one active run
-- holds it, and none while it is idle.
pub Reach-IsExclusiveAt :
    (db db' : Db) (worker_id : String)
    → IsExclusive db
    → HasRunKeys db
    → (path : Reach db db') → EachIsManaged path
    → IsExclusiveAt db'.workers db'.runs worker_id
Reach-IsExclusiveAt db db' worker_id safe keys path managed =
    (Reach-IsSound (safe, keys) path managed).0.at worker_id
