-- ===== src/Store/System/Growth.antt =====
-- The generation of a lease over whole executions of src/project_supervisor/store.py.
use chips_agent_fabric.Store.System.Reports.{record_adapter_event-leases}
use chips_agent_fabric.Store.System.Jobs.{
  interrupt_missing_provider_job-leases, claim_task_reconciliation-Grows,
  finalize_provider_job_result-leases,
}
use chips_agent_fabric.Store.Jobs.Only.{
  mark_provider_job_result_collected-OnlyJobs, record_provider_job_observation-OnlyJobs,
  bind_provider_job_handle-OnlyJobs, mark_provider_job_launching-OnlyJobs,
  prepare_provider_job-OnlyJobs,
}
use chips_agent_fabric.Store.Jobs.Cases.{OnlyJobs}
use chips_agent_fabric.Store.Error.{ok}
use chips_agent_fabric.Store.Claim.{claim_task_dispatch}
use chips_agent_fabric.Store.System.Renewals.{
  release-Grows, heartbeat-Grows, recover_interrupted-Grows, cancel_task_execution-Grows,
  transition_worker_run-Grows, activate_worker_run-Grows, transition_task-Grows,
}
use chips_agent_fabric.Store.Scopes.{Digests}
use chips_agent_fabric.Store.Dispatch.{Granted, Claim, Blank}
use chips_agent_fabric.Store.Schema.{Db}
use chips_agent_fabric.Prelude.{ap, subst, inr, inl, Option, ℕ, String, ◌≡◌, arith}
use chips_agent_fabric.Store.System.Leases.{acquire_lease-grows, generation_at}
use chips_agent_fabric.Store.System.Generations.{
  create_worker_run-leases, claim_task_dispatch-leases, claim_workers-leases,
  set_worker_state-leases, add_task_dependency-leases, create_task-leases, create_project-leases,
  same-Grows, Grows,
}
use chips_agent_fabric.Store.System.{ok, claim_task_dispatch, Digests, Blank, Step, Reach}

claim_task_dispatch-Grows :
    (new_run_id : String → String) (blank : Blank) (digests : Digests) (clock : ℕ) (claim : Claim)
    (db : Db) {r : Option Granted} {db' : Db}
    → claim_task_dispatch new_run_id blank digests clock claim db ≡ ok (r, db')
    → Grows db db'
claim_task_dispatch-Grows new_run_id blank digests clock claim db {r} {db'} h =
    elim (claim_task_dispatch-leases new_run_id blank digests clock claim db h) [
      | inl (_, same) ↦ same-Grows db db' same
      | inr (leases, _) ↦ λ k. omega (
        arith,
        ap (generation_at k) leases,
        acquire_lease-grows clock claim claim.lease_owner_id db k,
      )
    ]

OnlyJobs-Grows : (db db' : Db) → OnlyJobs db db' → Grows db db'
OnlyJobs-Grows db db' (_, _, leases, _) = same-Grows db db' leases

Step-Grows : {db db' : Db} → Step db db' → Grows db db'
Step-Grows {db} {db'} (Step.project_created clock i n p g row h) =
    same-Grows db db' (create_project-leases clock i n p g db h)
Step-Grows {db} {db'} (Step.task_created clock task reference row h) =
    same-Grows db db' (create_task-leases clock task reference db h)
Step-Grows {db} {db'} (Step.dependency_added clock t d h) =
    same-Grows db db' (add_task_dependency-leases clock t d db h)
Step-Grows {db} (Step.task_moved clock i target actor extra v o g row h) =
    transition_task-Grows clock i target actor extra v o g db h
Step-Grows {db} {db'} (Step.worker_set clock i state rs m t o g actor h) =
    same-Grows db db' (set_worker_state-leases clock i state rs m t o g actor db h)
Step-Grows {db} {db'} (Step.workers_claimed clock ids actor b h) =
    same-Grows db db' (claim_workers-leases clock ids actor db h)
Step-Grows {db} (Step.dispatch_claimed new_run_id blank digests clock claim r h) =
    claim_task_dispatch-Grows new_run_id blank digests clock claim db h
Step-Grows {db} {db'} (Step.run_created digests clock i t w n timeout r h) =
    same-Grows db db' (create_worker_run-leases digests clock i t w n timeout db h)
Step-Grows {db} (Step.run_activated clock i o g actor b h) =
    activate_worker_run-Grows clock i o g actor db h
Step-Grows {db} (Step.run_moved redact clock i target details extra o g row h) =
    transition_worker_run-Grows redact clock i target details extra o g db h
Step-Grows {db} {db'} (Step.adapter_reported clock i kind payload o g n h) =
    same-Grows db db' (record_adapter_event-leases clock i kind payload o g db h)
Step-Grows {db} (Step.task_cancelled clock i actor b h) =
    cancel_task_execution-Grows clock i actor db h
Step-Grows {db} (Step.recovered clock ids h) =
    subst (Grows db) h (recover_interrupted-Grows clock ids db)
Step-Grows {db} (Step.lease_renewed clock i o g ttl b h) = heartbeat-Grows clock i o g ttl db h
Step-Grows {db} (Step.lease_released clock i o g actor h) =
    subst (Grows db) h (release-Grows clock i o g actor db)
Step-Grows {db} {db'} (Step.job_prepared blank f clock j i a n c o g actor row h) =
    OnlyJobs-Grows db db' (prepare_provider_job-OnlyJobs blank f clock j i a n c o g actor db h)
Step-Grows {db} {db'} (Step.job_launching clock i o g actor row h) =
    OnlyJobs-Grows db db' (mark_provider_job_launching-OnlyJobs clock i o g actor db h)
Step-Grows {db} {db'} (Step.job_bound safe clock i a n handle o g actor row h) =
    OnlyJobs-Grows db db' (bind_provider_job_handle-OnlyJobs safe clock i a n handle o g actor db h)
Step-Grows {db} {db'} (Step.job_observed redact clock i state st d o g actor row h) =
    OnlyJobs-Grows db db'
      (record_provider_job_observation-OnlyJobs redact clock i state st d o g actor db h)
Step-Grows {db} {db'} (Step.job_collected clock i target o g actor row h) =
    OnlyJobs-Grows db db'
      (mark_provider_job_result_collected-OnlyJobs clock i target o g actor db h)
Step-Grows {db} {db'} (Step.result_finalized redact clock i target details update o g actor row h) =
    same-Grows db db'
      (finalize_provider_job_result-leases redact clock i target details update o g actor db h)
Step-Grows {db} (Step.reconciliation_claimed blank clock t o ttl allow actor r h) =
    claim_task_reconciliation-Grows blank clock t o ttl allow actor db h
Step-Grows {db} {db'} (Step.job_missing clock i o g actor h) =
    same-Grows db db' (interrupt_missing_provider_job-leases clock i o g actor db h)

pub Reach-Grows : {db db' : Db} → Reach db db' → Grows db db'
Reach-Grows Reach.here k = omega arith
Reach-Grows (Reach.next before step) k = omega (arith, Reach-Grows before k, Step-Grows step k)
