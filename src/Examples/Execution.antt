-- ===== src/Examples/Execution.antt =====
-- A task that is claimed, renewed, cancelled and refused, in src/project_supervisor/store.py.
use chips_agent_fabric.StateMachine.{allows}
use chips_agent_fabric.Store.Cancel.Fence.{cancel_task_execution-fences}
use chips_agent_fabric.Store.Lease.Renewal.{
  heartbeat_task_execution_lease_iff_current, release_task_execution_lease-lost,
  heartbeat_task_execution_lease-current,
}
use chips_agent_fabric.Store.Dependencies.{is_unsatisfied}
use chips_agent_fabric.Store.Runs.{RunDetails, transition_worker_run}
use chips_agent_fabric.Store.Cancel.{active_of, cancelled_task, cancel_task_execution}
use chips_agent_fabric.Store.Claim.Granting.{claim_task_dispatch-granted, claim_task_dispatch-once}
use chips_agent_fabric.Store.Scopes.{dispatch_snapshot}
use chips_agent_fabric.Domain.{RunState, TaskState}
use chips_agent_fabric.Store.Tasks.{moved_task_db, transition_task}
use chips_agent_fabric.Store.Recover.{
  interrupt_runs, idle_workers, interrupt_tasks, recovered_db, recover_interrupted,
}
use chips_agent_fabric.Store.Workers.{all_idle, distinct}
use chips_agent_fabric.Store.Exclusive.{IsExclusive, IsExclusiveAt}
use chips_agent_fabric.Store.Lease.{
  require_optional_lease, renewed, renewable, heartbeat_task_execution_lease,
  release_task_execution_lease, task_execution_lease_is_current, require_task_execution_lease,
}
use chips_agent_fabric.Sql.{update_where, select_where, exists_where, first_where, count_where}
use chips_agent_fabric.Store.Error.{execution_lease_lost, err, ok}
use chips_agent_fabric.Store.Dispatch.{exhausted, start_runs, Granted}
use chips_agent_fabric.Prelude.{
  Option, ◌+◌, true, ◌≤◌, false, ◌<◌, none, some, [], ◌∷◌, ◌≡◌, refl, arith,
}
use chips_agent_fabric.Examples.{
  Option, true, false, RunRow, task, TaskState, TaskRow, err, ok, fresh, claim, after, run_id,
  blank, digests,
}
use chips_agent_fabric.Store.Claim.{
  claimed, run_of, claimed_db, commit_claim, is_blocked, is_stale, claim_task_dispatch,
}
use chips_agent_fabric.Store.Schema.{run_is, timestamp, lease_is, task_is, RunRow, TaskRow, Db}
use chips_agent_fabric.Store.System.{Step, Reach}
use chips_agent_fabric.Store.System.Exclusive.{Reach-IsExclusiveAt}
use chips_agent_fabric.Store.System.Fencing.{
  stale_token-refused, claim_task_dispatch-increases, claim_task_dispatch-fences,
}

abbrev grant : Granted
grant = record {
  attempt = 1;
  run_ids = ("w", "r1") ∷ [];
  lease_generation = some 1;
  verification_scope_id = none;
  task_definition_revision = 1;
}

abbrev claimed_first : Db
unfolding claim_task_dispatch distinct first_where is_stale dispatch_snapshot is_blocked
    exists_where all_idle select_where commit_claim count_where start_runs claimed_db update_where
claimed_first =
    after (claim_task_dispatch (run_id "r1") blank digests 5000000 (claim 3) fresh) fresh

claims_first :
    claim_task_dispatch (run_id "r1") blank digests 5000000 (claim 3) fresh
    ≡ ok (some grant, claimed_first)
unfolding claim_task_dispatch distinct first_where is_stale dispatch_snapshot is_blocked
    exists_where all_idle select_where commit_claim count_where start_runs claimed_db update_where
claims_first = refl

first_step : Reach fresh claimed_first
first_step =
    Reach.next Reach.here (
      Step.dispatch_claimed (run_id "r1") blank digests 5000000 (claim 3) (some grant) claims_first)

fresh-IsExclusive : IsExclusive fresh
unfolding count_where
fresh-IsExclusive = record { at = λ k. (omega arith, λ h. refl) }

Reach-IsExclusiveAt_example : IsExclusiveAt claimed_first.workers claimed_first.runs "w"
unfolding count_where first_step
Reach-IsExclusiveAt_example =
    Reach-IsExclusiveAt fresh claimed_first "w" fresh-IsExclusive (λ k. omega arith) first_step
      (tt, tt)

claim_task_dispatch-fences_example :
    require_task_execution_lease 6000000 claimed_first "a" "host" 0 ≡ err execution_lease_lost
claim_task_dispatch-fences_example =
    claim_task_dispatch-fences (run_id "r1") blank digests 5000000 (claim 3) fresh claimed_first
      claimed_first grant 1 0 6000000 "host" claims_first refl Reach.here (omega arith)

-- A supervisor that restarts after the lease has expired interrupts the task, which is made ready
-- again and claimed by another host.
abbrev interrupted : Db
unfolding recover_interrupted recovered_db
interrupted = (recover_interrupted 60000000 none claimed_first).1

abbrev again : TaskRow
again = record (task "a" TaskState.ready) {
  attempt_count = 1;
  version = 6;
  updated_at = 61;
  started_at = some 5;
}

abbrev readied : Db
readied =
    after (transition_task 61000000 "a" TaskState.ready "scheduler" [] none none none interrupted)
      interrupted

readies :
    transition_task 61000000 "a" TaskState.ready "scheduler" [] none none none interrupted
    ≡ ok (again, readied)
unfolding transition_task first_where interrupted interrupt_tasks select_where claimed_first
    idle_workers interrupt_runs require_optional_lease allows moved_task_db
readies = refl

abbrev second_grant : Granted
second_grant = record {
  attempt = 2;
  run_ids = ("w", "r2") ∷ [];
  lease_generation = some 2;
  verification_scope_id = none;
  task_definition_revision = 1;
}

abbrev claimed_second : Db
claimed_second =
    after (claim_task_dispatch (run_id "r2") blank digests 62000000 (claim 6) readied) readied

claims_second :
    claim_task_dispatch (run_id "r2") blank digests 62000000 (claim 6) readied
    ≡ ok (some second_grant, claimed_second)
unfolding claim_task_dispatch distinct first_where transition_task interrupted interrupt_tasks
    select_where claimed_first idle_workers interrupt_runs require_optional_lease allows
    moved_task_db
claims_second = refl

again_path : Reach claimed_first readied
unfolding recover_interrupted interrupted
again_path =
    Reach.next (Reach.next Reach.here (Step.recovered 60000000 none refl))
      (Step.task_moved 61000000 "a" TaskState.ready "scheduler" [] none none none again readies)

claim_task_dispatch-increases_example : 1 < 2
claim_task_dispatch-increases_example =
    claim_task_dispatch-increases (run_id "r1") (run_id "r2") blank digests 5000000 62000000
      (claim 3) (claim 6) fresh claimed_first readied claimed_second grant second_grant 1 2
      claims_first refl again_path claims_second refl refl

the_second_answer :
    claim_task_dispatch (run_id "r1") blank digests 5000001 (claim 3) claimed_first
    ≡ ok (none, claimed_first)
unfolding claim_task_dispatch distinct first_where claimed_first
the_second_answer = refl

claim_task_dispatch-once_example :
    (◌≡◌ {A = Option Granted} none none) × (claimed_first ≡ claimed_first)
claim_task_dispatch-once_example =
    claim_task_dispatch-once (run_id "r1") blank digests 5000000 (claim 3) fresh (run_id "r1") blank
      digests 5000001 (claim 3) claims_first refl the_second_answer

claim_task_dispatch-granted_example :
    (t : TaskRow) × (first_where (task_is "a") fresh.tasks ≡ some t)
    × (t.state ≡ TaskState.ready)
    × (t.version ≡ 3)
    × (exhausted (some 3) t.attempt_count ≡ false)
    × (exists_where (is_unsatisfied fresh "a") fresh.dependencies ≡ false)
    × (all_idle (distinct ("w" ∷ "w" ∷ [])) fresh.workers ≡ true)
    × (first_where (task_is "a") claimed_first.tasks
        ≡ some (claimed (timestamp 5000000) (t.attempt_count + 1) t))
    × (1 ≡ t.attempt_count + 1)
claim_task_dispatch-granted_example =
    claim_task_dispatch-granted (run_id "r1") blank digests 5000000 (claim 3) fresh claims_first

finds_task :
    first_where (task_is "a") claimed_first.tasks ≡ some (claimed 5 1 (task "a" TaskState.ready))
unfolding first_where claimed_first
finds_task = refl

abbrev first_run : RunRow
first_run = run_of (run_id "r1") 5 (claim 3) 1 (none, 1) "w"

finds_run : first_where (run_is "r1") claimed_first.runs ≡ some first_run
unfolding first_where claimed_first
finds_run = refl

loses : task_execution_lease_is_current 6000000 claimed_first "a" "other" 1 ≡ false
unfolding task_execution_lease_is_current first_where claimed_first
loses = refl

cancel_task_execution-fences_example :
    (last : Db) × (cancel_task_execution 6000000 "a" "human" claimed_first ≡ ok (true, last))
    × (first_where (task_is "a") last.tasks
        ≡ some (cancelled_task (timestamp 6000000) (claimed 5 1 (task "a" TaskState.ready))))
    × (count_where (active_of "a") last.runs ≡ 0)
    × (task_execution_lease_is_current 7000000 last "a" "host" 1 ≡ false)
cancel_task_execution-fences_example =
    cancel_task_execution-fences 6000000 7000000 "a" "human" "host" 1
      (claimed 5 1 (task "a" TaskState.ready)) claimed_first finds_task refl

one_lease : count_where (lease_is "a") claimed_first.leases ≤ 1
unfolding count_where claimed_first
one_lease = omega arith

heartbeat_task_execution_lease_iff_current_example :
    heartbeat_task_execution_lease 6000000 "a" "host" 1 10000000 claimed_first
    ≡ ok (
      task_execution_lease_is_current 6000000 claimed_first "a" "host" 1,
      record claimed_first {
        leases =
            update_where
              (renewable (timestamp 6000000) "a" "host" 1)
              (renewed (timestamp 6000000) (timestamp (6000000 + 10000000)))
              claimed_first.leases;
      },
    )
heartbeat_task_execution_lease_iff_current_example =
    heartbeat_task_execution_lease_iff_current 6000000 "a" "host" 1 10000000 claimed_first one_lease
      (omega arith)

abbrev renewed_db : Db
renewed_db =
    after (heartbeat_task_execution_lease 6000000 "a" "host" 1 10000000 claimed_first) claimed_first

renews :
    heartbeat_task_execution_lease 6000000 "a" "host" 1 10000000 claimed_first
    ≡ ok (true, renewed_db)
unfolding heartbeat_task_execution_lease count_where claimed_first
renews = refl

heartbeat_task_execution_lease-current_example :
    task_execution_lease_is_current 15000000 renewed_db "a" "host" 1 ≡ true
unfolding timestamp
heartbeat_task_execution_lease-current_example =
    heartbeat_task_execution_lease-current 6000000 15000000 "a" "host" 1 10000000 claimed_first
      one_lease renews (omega arith)

abbrev released_db : Db
released_db = (release_task_execution_lease 6000000 "a" "host" 1 "host" claimed_first).1

releases :
    release_task_execution_lease 6000000 "a" "host" 1 "host" claimed_first ≡ (true, released_db)
unfolding release_task_execution_lease first_where claimed_first
releases = refl

release_task_execution_lease-lost_example :
    task_execution_lease_is_current 7000000 released_db "a" "host" 1 ≡ false
release_task_execution_lease-lost_example =
    release_task_execution_lease-lost 6000000 7000000 "a" "host" "host" "host" 1 1 claimed_first
      releases

abbrev details : RunDetails
details = record {
  session_id = none;
  process_id = none;
  exit_code = none;
  failure_class = none;
  failure_detail = none;
  raw_output_reference = none;
}

stale_token-refused_example :
    (transition_task 6000000 "a" TaskState.succeeded "host" [] none
        (some "other")
        (some 1)
        claimed_first
      ≡ err execution_lease_lost)
    × (transition_worker_run
          (λ t. t)
          6000000
          "r1"
          RunState.running
          details
          []
          (some "other")
          (some 1)
          claimed_first
        ≡ err execution_lease_lost)
unfolding task_execution_lease_is_current first_where claimed_first
stale_token-refused_example =
    stale_token-refused (λ t. t) 6000000 "a" "r1" "other" "host" 1 TaskState.succeeded
      RunState.running details [] none (claimed 5 1 (task "a" TaskState.ready)) first_run
      claimed_first loses finds_task finds_run refl
