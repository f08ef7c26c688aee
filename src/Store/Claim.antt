-- ===== src/Store/Claim.antt =====
-- `claim_task_dispatch` and `activate_worker_run` of src/project_supervisor/store.py.
pub mod Cases
pub mod Granting
use chips_agent_fabric.Prelude.{
  nat_eq, ℕ, ◌+◌, Bool, true, false, not, ◌||◌, ◌&&◌, Option, none, some, List, [], ◌∷◌, String,
  ◌==◌, if◌then◌else◌, length, coalesce, map,
}
use mathlib.Core.Option
use chips_agent_fabric.Domain.{
  RunState_eq, WorkerState_eq, TaskState_eq, TaskState, RunState, WorkerState, EventSeverity,
}
use chips_agent_fabric.Sql.{first_where, exists_where, count_where, update_where}
use chips_agent_fabric.Store.Error.{
  Result, ok, key_error, value_error, runtime_error, ◌>>=◌, ◌>>◌, refuse, fetched,
}
use chips_agent_fabric.Store.Schema.{
  Db, TaskRow, WorkerRow, RunRow, Event, Field, timestamp, append_event, task_is, worker_is, run_is,
}
use chips_agent_fabric.Store.Lease.{require_optional_lease}
use chips_agent_fabric.Store.Dependencies.{is_unsatisfied}
use chips_agent_fabric.Store.Workers.{distinct, all_idle, reserve, among, is_idle, worker_event}
use chips_agent_fabric.Store.Scopes.{Digests, dispatch_snapshot}
use chips_agent_fabric.Store.Dispatch.{
  Claim, Granted, Blank, bad_owner, bad_ttl, bad_limit, exhausted, acquire_lease, journal_lease,
  starting_run, start_runs,
}

-- What the claim looks up before it writes: a second process may have changed it.
unfoldable pub is_stale : Claim → TaskRow → Bool
is_stale claim task =
    not (task.state == TaskState.ready)
    || not (task.version == claim.expected_version)
    || exhausted claim.max_attempts task.attempt_count

unfoldable pub is_blocked : Claim → List String → Db → Bool
is_blocked claim identities db =
    exists_where (is_unsatisfied db claim.task_id) db.dependencies
    || not (all_idle identities db.workers)

abbrev pub claimed : ℕ → ℕ → TaskRow → TaskRow
claimed now attempt r = record r {
  state = TaskState.running;
  attempt_count = attempt;
  started_at = coalesce r.started_at (some now);
  updated_at = now;
  version = r.version + 1;
}

-- `WHERE id=? AND state='ready' AND version=?`
abbrev pub claimable : Claim → TaskRow → Bool
claimable claim r =
    task_is claim.task_id r && r.state == TaskState.ready && r.version == claim.expected_version

abbrev pub claim_event : Claim → List String → TaskRow → ℕ → ℕ → ℕ → Event
claim_event claim identities task attempt now sequence = record {
  sequence = sequence;
  kind = "taskStateChanged";
  severity = EventSeverity.notice;
  entity_type = "task";
  entity_id = claim.task_id;
  project_id = some task.project_id;
  task_id = some claim.task_id;
  worker_id = none;
  run_id = none;
  payload =
      ("from", Field.task_state TaskState.ready)
      ∷ ("to", Field.task_state TaskState.running)
      ∷ ("attempt", Field.number attempt)
      ∷ ("workerIDs", Field.texts identities)
      ∷ [];
  actor = claim.actor;
  created_at = now;
}

-- After the lease is written.
unfoldable pub leased_db : ℕ → Claim → Db → Db
unfolding acquire_lease
leased_db clock claim db = record db {
  leases = (acquire_lease clock claim claim.lease_owner_id db).1;
}

-- After the task and the workers are taken and journalled too: what the loop over the workers starts from.
unfoldable pub claimed_db : ℕ → Claim → List String → TaskRow → Db → Db
unfolding leased_db journal_lease reserve timestamp
claimed_db clock claim identities task db =
    let now = timestamp clock in
    let attempt = task.attempt_count + 1 in
    journal_lease clock claim task claim.lease_owner_id
      (acquire_lease clock claim claim.lease_owner_id db).0
      (append_event (claim_event claim identities task attempt now)
        (record (leased_db clock claim db) {
          tasks = update_where (claimable claim) (claimed now attempt) db.tasks;
          workers = reserve now identities db.workers;
        }))

module _ (new_run_id : String → String) where
  -- The row of the run that the claim starts on a worker. `new_run_id` stands for `uuid4`.
  abbrev pub run_of : ℕ → Claim → ℕ → Option String × ℕ → String → RunRow
  run_of now claim attempt (scope_id, revision) w =
      starting_run (new_run_id w) claim.task_id w attempt (Option.map timestamp claim.timeout_at)
        scope_id revision now

  abbrev pub granted : Claim → List String → ℕ → Option ℕ → Option String × ℕ → Granted
  granted claim identities attempt generation snapshot = record {
    attempt = attempt;
    run_ids = map (λ w. (w, new_run_id w)) identities;
    lease_generation = generation;
    verification_scope_id = snapshot.0;
    task_definition_revision = snapshot.1;
  }

  -- The writes of `claim_task_dispatch`. The early return keeps what was written before it.
  unfoldable pub commit_claim :
      ℕ → Claim → List String → TaskRow → Option String × ℕ → Db → Result (Option Granted × Db)
  commit_claim clock claim identities task snapshot db =
      if not (count_where (claimable claim) db.tasks == 1)
      then ok (none, leased_db clock claim db)
      else do
        refuse
            (not
              (count_where (λ r. among identities r && is_idle r) db.workers == length identities))
            runtime_error
        let attempt = task.attempt_count + 1
        let generation = (acquire_lease clock claim claim.lease_owner_id db).0
        final ←
            start_runs (run_of (timestamp clock) claim attempt snapshot) db.workers task.project_id
              claim.actor identities (claimed_db clock claim identities task db)
        ok (some (granted claim identities attempt generation snapshot), final)

  unfoldable pub claim_task_dispatch :
      Blank → Digests → ℕ → Claim → Db → Result (Option Granted × Db)
  claim_task_dispatch blank digests clock claim db = do
    let identities = distinct claim.worker_ids
    refuse (length identities == 0) value_error
    refuse (bad_owner blank claim.lease_owner_id) value_error
    refuse (bad_ttl claim.lease_owner_id claim.lease_ttl) value_error
    refuse (bad_limit claim.max_attempts) value_error
    task ← fetched (first_where (task_is claim.task_id) db.tasks) (key_error claim.task_id)
    if is_stale claim task then ok (none, db) else do
      snapshot ← dispatch_snapshot digests db task
      if is_blocked claim identities db
          then ok (none, db)
          else commit_claim clock claim identities task snapshot db

-- The worker is there and waits for its run to start.
abbrev is_starting : Option WorkerRow → Bool
is_starting none = false
is_starting (some w) = w.state == WorkerState.starting

abbrev pub started_run : ℕ → RunRow → RunRow
started_run now r = record r {
  state = RunState.running;
  started_at = coalesce r.started_at (some now);
  last_event_at = some now;
  updated_at = now;
}

abbrev pub started_worker : ℕ → WorkerRow → WorkerRow
started_worker now r = record r {
  state = WorkerState.running;
  last_heartbeat_at = now;
  updated_at = now;
}

abbrev running_event : RunRow → String → String → ℕ → ℕ → Event
running_event run project_id actor now sequence = record {
  sequence = sequence;
  kind = "workerRunning";
  severity = EventSeverity.notice;
  entity_type = "workerRun";
  entity_id = run.id;
  project_id = some project_id;
  task_id = some run.task_id;
  worker_id = some run.worker_id;
  run_id = some run.id;
  payload =
      ("from", Field.run_state RunState.starting) ∷ ("to", Field.run_state RunState.running) ∷ [];
  actor = actor;
  created_at = now;
}

-- The writes of `activate_worker_run` after its checks.
unfoldable pub activated_db : ℕ → String → RunRow → TaskRow → String → Db → Db
activated_db now run_id run task actor db =
    append_event
      (worker_event run.worker_id WorkerState.starting WorkerState.running (some task.project_id)
        (some run.task_id) (some run_id) actor now)
      (append_event (running_event run task.project_id actor now) (record db {
        runs =
            update_where (λ r. run_is run_id r && r.state == RunState.starting) (started_run now)
              db.runs;
        workers =
            update_where (λ w. worker_is run.worker_id w && w.state == WorkerState.starting)
              (started_worker now) db.workers;
      }))

-- `activate_worker_run`: the fence just before an adapter is called. The first query joins the run
-- with its task, so a run without a task is missing too.
unfoldable pub activate_worker_run :
    ℕ → String → Option String → Option ℕ → String → Db → Result (Bool × Db)
activate_worker_run clock run_id lease_owner_id lease_generation actor db = do
  run ← fetched (first_where (run_is run_id) db.runs) (key_error run_id)
  task ← fetched (first_where (task_is run.task_id) db.tasks) (key_error run_id)
  require_optional_lease clock db run.task_id lease_owner_id lease_generation
  if not (run.state == RunState.starting)
        || not (task.state == TaskState.running)
        || not (is_starting (first_where (worker_is run.worker_id) db.workers))
      then ok (false, db)
      else ok (true, activated_db (timestamp clock) run_id run task actor db)
