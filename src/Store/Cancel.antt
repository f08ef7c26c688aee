-- ===== src/Store/Cancel.antt =====
-- `cancel_task_execution` of src/project_supervisor/store.py: the fence that cancels a task, its
-- active runs and its lease, and frees their workers.
pub mod Cases
pub mod Fence
use chips_agent_fabric.Prelude.{
  string_eq, ℕ, ◌+◌, Bool, true, false, not, ◌&&◌, Option, none, some, List, [], ◌∷◌, String, ◌==◌,
  if◌then◌else◌, map,
}
use chips_agent_fabric.Domain.{
  TaskState_eq, RunState_eq, TaskState, RunState, WorkerState, EventSeverity,
}
use chips_agent_fabric.StateMachine.{allows, task_transitions}
use chips_agent_fabric.StateMachine.Terminal.{is_terminal_task, is_active_run}
use chips_agent_fabric.Sql.{select_where, first_where, exists_where, update_where}
use chips_agent_fabric.Store.Error.{
  Result, ok, key_error, invalid_transition, ◌>>=◌, ◌>>◌, refuse, fetched,
}
use chips_agent_fabric.Store.Schema.{
  Db, TaskRow, WorkerRow, RunRow, LeaseRow, is_active_lease, LaunchState, CollectionState,
  ProviderJobRow, Event, Field, timestamp, append_event, task_is, worker_is, run_is, lease_is,
}
use chips_agent_fabric.Store.Lease.{released}
use chips_agent_fabric.Store.Workers.{distinct}

-- `task_id=? AND state IN ('starting','running','waiting')`
abbrev pub active_of : String → RunRow → Bool
active_of task_id r = r.task_id == task_id && is_active_run r.state

abbrev pub cancelled_run : ℕ → RunRow → RunRow
cancelled_run now r = record r { state = RunState.cancelled; ended_at = some now; updated_at = now }

-- A job that was never launched ends; what another one did is not known.
abbrev pub fenced_launch : LaunchState → LaunchState
fenced_launch LaunchState.prepared = LaunchState.terminal
fenced_launch _ = LaunchState.uncertain

abbrev pub fenced_collection : LaunchState → CollectionState
fenced_collection LaunchState.prepared = CollectionState.not_available
fenced_collection _ = CollectionState.uncertain

abbrev is_collected : CollectionState → Bool
is_collected CollectionState.collected = true
is_collected _ = false

abbrev pub fenced_job : ℕ → ProviderJobRow → ProviderJobRow
fenced_job now j = record j {
  launch_state = fenced_launch j.launch_state;
  result_collection_state = fenced_collection j.launch_state;
  updated_at = now;
}

abbrev cancel_run_event : String → TaskRow → RunRow → String → ℕ → ℕ → Event
cancel_run_event task_id task run actor now sequence = record {
  sequence = sequence;
  kind = "workerCancelled";
  severity = EventSeverity.warning;
  entity_type = "workerRun";
  entity_id = run.id;
  project_id = some task.project_id;
  task_id = some task_id;
  worker_id = some run.worker_id;
  run_id = some run.id;
  payload =
      ("from", Field.run_state run.state)
      ∷ ("to", Field.run_state RunState.cancelled)
      ∷ ("providerCancellationPending", Field.flag (not (run.state == RunState.starting)))
      ∷ [];
  actor = actor;
  created_at = now;
}

-- The body of `for run in active_runs`.
abbrev pub cancel_run : ℕ → String → TaskRow → String → RunRow → Db → Db
cancel_run now task_id task actor run db =
    append_event (cancel_run_event task_id task run actor now) (record db {
      runs = update_where (run_is run.id) (cancelled_run now) db.runs;
      provider_jobs =
          update_where (λ j. j.run_id == run.id && not (is_collected j.result_collection_state))
            (fenced_job now) db.provider_jobs;
    })

unfoldable pub cancel_runs : ℕ → String → TaskRow → String → List RunRow → Db → Db
cancel_runs now task_id task actor [] db = db
cancel_runs now task_id task actor (run ∷ rest) db =
    cancel_runs now task_id task actor rest (cancel_run now task_id task actor run db)

abbrev pub holds : String → RunRow → Bool
holds worker_id r = r.worker_id == worker_id && is_active_run r.state

-- `state IN ('starting','running','waiting','stopping')`
abbrev pub is_busy : WorkerState → Bool
is_busy WorkerState.starting = true
is_busy WorkerState.running = true
is_busy WorkerState.waiting = true
is_busy WorkerState.stopping = true
is_busy _ = false

abbrev pub freed : ℕ → WorkerRow → WorkerRow
freed now w = record w { state = WorkerState.idle; updated_at = now }

-- A worker of a cancelled run is freed unless another active run holds it. The source walks the set
-- of workers in sorted order; the updates of different workers do not meet.
unfoldable pub free_workers : ℕ → List String → Db → Db
free_workers now [] db = db
free_workers now (k ∷ ks) db = free_workers now ks (record db {
  workers =
      update_where (λ w. worker_is k w && not (exists_where (holds k) db.runs) && is_busy w.state)
        (freed now) db.workers;
})

abbrev cancel_lease_event : ℕ → String → TaskRow → LeaseRow → String → ℕ → Event
cancel_lease_event now task_id task lease actor sequence = record {
  sequence = sequence;
  kind = "taskExecutionLeaseReleased";
  severity = EventSeverity.info;
  entity_type = "task";
  entity_id = task_id;
  project_id = some task.project_id;
  task_id = some task_id;
  worker_id = none;
  run_id = none;
  payload =
      ("ownerID", Field.text lease.owner_id)
      ∷ ("generation", Field.number lease.generation)
      ∷ ("reasonCode", Field.text "TASK_CANCELLED")
      ∷ [];
  actor = actor;
  created_at = now;
}

abbrev release_found : ℕ → String → TaskRow → String → Option LeaseRow → Db → Db
release_found now task_id task actor none db = db
release_found now task_id task actor (some lease) db =
    append_event (cancel_lease_event now task_id task lease actor)
      (record db { leases = update_where (lease_is task_id) (released now) db.leases })

unfoldable pub release_lease : ℕ → String → TaskRow → String → Db → Db
release_lease now task_id task actor db =
    release_found now task_id task actor
      (first_where (λ l. lease_is task_id l && is_active_lease l.state) db.leases) db

abbrev pub cancelled_task : ℕ → TaskRow → TaskRow
cancelled_task now r = record r {
  state = TaskState.cancelled;
  finished_at = some now;
  updated_at = now;
  version = r.version + 1;
}

abbrev cancel_task_event : String → TaskRow → String → ℕ → ℕ → Event
cancel_task_event task_id task actor now sequence = record {
  sequence = sequence;
  kind = "taskStateChanged";
  severity = EventSeverity.notice;
  entity_type = "task";
  entity_id = task_id;
  project_id = some task.project_id;
  task_id = some task_id;
  worker_id = none;
  run_id = none;
  payload =
      ("from", Field.task_state task.state) ∷ ("to", Field.task_state TaskState.cancelled) ∷ [];
  actor = actor;
  created_at = now;
}

-- The writes of `cancel_task_execution` after its checks.
unfoldable pub commit_cancel : ℕ → String → TaskRow → String → Db → Db
commit_cancel now task_id task actor db =
    let active_runs = select_where (active_of task_id) db.runs in
    let marked =
      append_event (cancel_task_event task_id task actor now)
        (record db { tasks = update_where (task_is task_id) (cancelled_task now) db.tasks }) in
    let fenced = cancel_runs now task_id task actor active_runs marked in
    let workers = distinct (map (λ (r : RunRow). r.worker_id) active_runs) in
    release_lease now task_id task actor (free_workers now workers fenced)

unfoldable pub cancel_task_execution : ℕ → String → String → Db → Result (Bool × Db)
cancel_task_execution clock task_id actor db = do
  task ← fetched (first_where (task_is task_id) db.tasks) (key_error task_id)
  if is_terminal_task task.state then ok (false, db) else do
    refuse (not (allows task_transitions task.state TaskState.cancelled)) invalid_transition
    ok (true, commit_cancel (timestamp clock) task_id task actor db)
