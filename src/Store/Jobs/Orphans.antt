-- ===== src/Store/Jobs/Orphans.antt =====
-- `claim_task_reconciliation` and `interrupt_missing_provider_job` of
-- src/project_supervisor/store.py: what becomes of a job whose runtime is gone.
use chips_agent_fabric.Prelude.{
  none, some, ℕ, String, Bool, true, false, ◌==◌, string_eq, nat_eq, [], ◌∷◌, Option, not, ◌&&◌,
  ◌||◌, if◌then◌else◌, ltb, ◌+◌,
}
use chips_agent_fabric.Domain.{
  EventSeverity, RunState, RunState_eq, TaskState, TaskState_eq, WorkerState,
}
use chips_agent_fabric.StateMachine.Terminal.{is_active_run}
use chips_agent_fabric.Sql.{first_where, update_where}
use chips_agent_fabric.Store.Error.{
  Result, ok, key_error, value_error, refuse, fetched, ◌>>=◌, ◌>>◌,
}
use chips_agent_fabric.Store.Schema.{
  timestamp, append_event, Db, Field, ProviderJobRow, ReconciliationState, LaunchState,
  CollectionState, RunRow, TaskRow, WorkerRow, LeaseRow, Event, task_is, run_is, lease_is,
  is_active_lease,
}
use chips_agent_fabric.Store.Dispatch.{Blank, next_generation, upsert_lease, new_lease}
use chips_agent_fabric.Store.Jobs.{fenced_provider_job, changed_job}
use chips_agent_fabric.Store.Jobs.Collect.{releasable}

-- `allowed_task_states`
abbrev pub is_reconcilable : Bool → TaskState → Bool
is_reconcilable allow_cancelled TaskState.running = true
is_reconcilable allow_cancelled TaskState.waiting = true
is_reconcilable allow_cancelled TaskState.cancelled = allow_cancelled
is_reconcilable allow_cancelled _ = false

abbrev pub is_live : Option LeaseRow → ℕ → Bool
is_live none now = false
is_live (some lease) now = is_active_lease lease.state && ltb now lease.expires_at

abbrev reconciliation_event : ℕ → ℕ → String → TaskRow → String → ℕ → String → ℕ → Event
reconciliation_event clock ttl task_id task owner generation actor sequence = record {
  sequence = sequence;
  kind = "taskExecutionLeaseAcquired";
  severity = EventSeverity.info;
  entity_type = "task";
  entity_id = task_id;
  project_id = some task.project_id;
  task_id = some task_id;
  worker_id = none;
  run_id = none;
  payload =
      ("ownerID", Field.text owner)
      ∷ ("generation", Field.number generation)
      ∷ ("expiresAt", Field.number (timestamp (clock + ttl)))
      ∷ (
        "purpose",
        Field.text (
            if task.state == TaskState.cancelled
            then "providerCancellationReconciliation"
            else "providerReconciliation"),
      )
      ∷ [];
  actor = actor;
  created_at = timestamp clock;
}

-- The writes of `claim_task_reconciliation` after its checks.
unfoldable pub reclaimed_db : ℕ → ℕ → String → TaskRow → String → ℕ → String → Db → Db
reclaimed_db clock ttl task_id task owner generation actor db =
    append_event (reconciliation_event clock ttl task_id task owner generation actor)
      (record db { leases = upsert_lease (new_lease clock ttl task_id owner generation) db.leases })

-- `ttl` counts microseconds.
unfoldable pub claim_task_reconciliation :
    Blank → ℕ → String → String → ℕ → Bool → String → Db → Result (Option ℕ × Db)
claim_task_reconciliation blank clock task_id owner_id ttl allow_cancelled actor db = do
  refuse (blank owner_id) value_error
  refuse (ltb ttl 1000000) value_error
  task ← fetched (first_where (task_is task_id) db.tasks) (key_error task_id)
  let lease = first_where (lease_is task_id) db.leases
  if not (is_reconcilable allow_cancelled task.state) || is_live lease (timestamp clock)
      then ok (none, db)
      else ok (
        some (next_generation lease),
        reclaimed_db clock ttl task_id task owner_id (next_generation lease) actor db,
      )

abbrev pub missing_run : ℕ → RunRow → RunRow
missing_run now r = record r {
  state = RunState.interrupted;
  ended_at = some now;
  failure_class = some "infrastructure";
  failure_detail = some "provider definitively reported job not found";
  updated_at = now;
}

abbrev pub idled_worker : ℕ → WorkerRow → WorkerRow
idled_worker now w = record w { state = WorkerState.idle; updated_at = now }

abbrev pub retry_state : TaskState → TaskState
retry_state state = if state == TaskState.running then TaskState.interrupted else TaskState.ready

abbrev pub retried_task : ℕ → TaskState → TaskRow → TaskRow
retried_task now target r = record r { state = target; updated_at = now; version = r.version + 1 }

abbrev pub missing_job : ℕ → ProviderJobRow → ProviderJobRow
missing_job now r = record r {
  launch_state = LaunchState.terminal;
  reconciliation_state = ReconciliationState.provider_not_found;
  result_collection_state = CollectionState.not_available;
  last_reconciled_at = some now;
  updated_at = now;
}

abbrev missing_run_event : RunRow → TaskRow → String → ℕ → ℕ → Event
missing_run_event run task actor now sequence = record {
  sequence = sequence;
  kind = "workerRunInterrupted";
  severity = EventSeverity.warning;
  entity_type = "workerRun";
  entity_id = run.id;
  project_id = some task.project_id;
  task_id = some task.id;
  worker_id = some run.worker_id;
  run_id = some run.id;
  payload =
      ("previousState", Field.run_state run.state)
      ∷ ("reasonCode", Field.text "PROVIDER_NOT_FOUND")
      ∷ [];
  actor = actor;
  created_at = now;
}

abbrev retried_task_event : TaskRow → String → ℕ → ℕ → Event
retried_task_event task actor now sequence = record {
  sequence = sequence;
  kind = "taskRecovered";
  severity = EventSeverity.warning;
  entity_type = "task";
  entity_id = task.id;
  project_id = some task.project_id;
  task_id = some task.id;
  worker_id = none;
  run_id = none;
  payload =
      ("from", Field.task_state task.state)
      ∷ ("to", Field.task_state (retry_state task.state))
      ∷ [];
  actor = actor;
  created_at = now;
}

-- The writes of `interrupt_missing_provider_job`.
unfoldable pub missing_job_db : ℕ → String → RunRow → TaskRow → ProviderJobRow → String → Db → Db
missing_job_db now run_id run task job actor db =
    let ended = record db { runs = update_where (run_is run_id) (missing_run now) db.runs } in
    let idled = record ended {
      workers =
          update_where (releasable run.worker_id run_id ended.runs) (idled_worker now)
            ended.workers;
    } in
    let retried = record idled {
      tasks =
          update_where (task_is task.id) (retried_task now (retry_state task.state)) idled.tasks;
    } in
    append_event (retried_task_event task actor now) (
      append_event (missing_run_event run task actor now)
        (changed_job (missing_job now) job retried))

-- The foreign keys of the job give it a run and a task; without one the source fails.
unfoldable pub interrupt_missing_provider_job : ℕ → String → String → ℕ → String → Db → Result Db
interrupt_missing_provider_job clock run_id lease_owner_id lease_generation actor db = do
  job ← fenced_provider_job clock db run_id lease_owner_id lease_generation
  run ← fetched (first_where (run_is run_id) db.runs) (key_error run_id)
  task ← fetched (first_where (task_is job.task_id) db.tasks) (key_error job.task_id)
  if not (is_active_run run.state)
      then ok db
      else ok (missing_job_db (timestamp clock) run_id run task job actor db)
