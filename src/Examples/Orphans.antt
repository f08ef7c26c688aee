-- ===== src/Examples/Orphans.antt =====
-- A job whose runtime is gone is taken over.
use chips_agent_fabric.Store.Jobs.{get_provider_job, fenced_provider_job}
use chips_agent_fabric.Prelude.{ℕ, true, false, ◌<◌, some, ◌≡◌, refl, arith, String}
use chips_agent_fabric.Domain.{TaskState}
use chips_agent_fabric.Sql.{update_where, first_where}
use chips_agent_fabric.Store.Error.{ok, err, execution_lease_lost}
use chips_agent_fabric.Store.Schema.{Db, TaskRow, task_is, timestamp}
use chips_agent_fabric.Store.Lease.{require_task_execution_lease, task_execution_lease_is_current}
use chips_agent_fabric.Store.Jobs.Prepare.{launching_db, mark_provider_job_launching}
use chips_agent_fabric.Store.Jobs.Bind.{bound_db, bind_job, bind_provider_job_handle}
use chips_agent_fabric.Store.Jobs.Orphans.{claim_task_reconciliation, is_reconcilable}
use chips_agent_fabric.Store.Jobs.Fencing.{claim_task_reconciliation-orphaned}
use chips_agent_fabric.Store.System.{Reach}
use chips_agent_fabric.Store.System.Reconciling.{claim_task_reconciliation-fences}
use chips_agent_fabric.Examples.{task, blank, after}
use chips_agent_fabric.Examples.Jobs.{bound}
use chips_agent_fabric.Store.Jobs.Taking.{claim_task_reconciliation-taken}
use chips_agent_fabric.Domain.{TaskState}

-- The lease expires, and a supervisor takes the job over.
abbrev reclaimed : Db
reclaimed =
    after (claim_task_reconciliation blank 60000000 "a" "rescuer" 5000000 false "recovery" bound)
      bound

reclaims :
    claim_task_reconciliation blank 60000000 "a" "rescuer" 5000000 false "recovery" bound
    ≡ ok (some 2, reclaimed)
unfolding claim_task_reconciliation first_where bind_provider_job_handle fenced_provider_job
    mark_provider_job_launching require_task_execution_lease get_provider_job launching_db
    update_where bind_job bound_db
reclaims = refl

claim_task_reconciliation-orphaned_example :
    ((o : String) (g : ℕ) → task_execution_lease_is_current 60000000 bound "a" o g ≡ false)
    × ((row : TaskRow) × (first_where (task_is "a") bound.tasks ≡ some row)
        × (is_reconcilable false row.state ≡ true))
    × (◌≡◌ {A = ℕ} 2 2)
    × ((clock' : ℕ)
        → timestamp clock' < timestamp 65000000
        → task_execution_lease_is_current clock' reclaimed "a" "rescuer" 2 ≡ true)
unfolding first_where bind_provider_job_handle fenced_provider_job mark_provider_job_launching
    require_task_execution_lease get_provider_job launching_db update_where bind_job bound_db
claim_task_reconciliation-orphaned_example =
    claim_task_reconciliation-orphaned blank 60000000 "a" "rescuer" 5000000 false "recovery" bound
      reclaimed 2 reclaims

claim_task_reconciliation-fences_example :
    require_task_execution_lease 61000000 reclaimed "a" "host" 1 ≡ err execution_lease_lost
claim_task_reconciliation-fences_example =
    claim_task_reconciliation-fences blank 60000000 "a" "rescuer" 5000000 false "recovery" bound
      reclaimed reclaimed 2 1 61000000 "host" reclaims Reach.here (omega arith)

abbrev orphan : TaskRow
orphan = task "a" TaskState.running

-- The token of the first owner is lost, and no other was ever given out.
nobody : (o : String) (g : ℕ) → task_execution_lease_is_current 60000000 bound "a" o g ≡ false
nobody =
    let (gone, _, _, _) =
      claim_task_reconciliation-orphaned blank 60000000 "a" "rescuer" 5000000 false "recovery" bound
        reclaimed 2 reclaims in
    gone

claim_task_reconciliation-taken_example :
    (new : ℕ) × (db' : Db) × (claim_task_reconciliation blank 60000000 "a" "rescuer" 5000000 false
        "recovery" bound
      ≡ ok (some new, db'))
    × (task_execution_lease_is_current 60000000 db' "a" "rescuer" new ≡ true)
unfolding first_where bind_provider_job_handle fenced_provider_job mark_provider_job_launching
    require_task_execution_lease get_provider_job launching_db update_where bind_job bound_db
claim_task_reconciliation-taken_example =
    claim_task_reconciliation-taken blank 60000000 "a" "rescuer" 5000000 false "recovery" bound
      orphan refl refl refl refl nobody
