-- ===== src/Store/Jobs/Collect.antt =====
-- `finalize_provider_job_result` of src/project_supervisor/store.py: a run ends with the result that
-- its provider job left.
use chips_agent_fabric.Prelude.{
  ◌||◌, none, some, ℕ, String, Bool, true, false, List, ◌==◌, string_eq, nat_eq, [], ◌∷◌, Option,
  not, ◌&&◌, if◌then◌else◌, coalesce,
}
use mathlib.Core.Option
use chips_agent_fabric.Domain.{
  EventSeverity, RunState, RunState_eq, TaskState, TaskState_eq, WorkerState, WorkerState_eq,
  ResourceState,
}
use chips_agent_fabric.StateMachine.{allows, run_transitions}
use chips_agent_fabric.StateMachine.Terminal.{is_active_run}
use chips_agent_fabric.Sql.{first_where, exists_where, count_where, update_where}
use chips_agent_fabric.Store.Error.{
  integrity_error, Result, ok, key_error, value_error, runtime_error, invalid_transition, refuse,
  fetched, ◌>>=◌, ◌>>◌,
}
use chips_agent_fabric.Store.Schema.{
  is_unknown, timestamp, append_event, Db, Field, ProviderJobRow, ReconciliationState, RunRow,
  TaskRow, WorkerRow, Event, task_is, run_is, worker_is, result_of,
}
use chips_agent_fabric.Store.Runs.{RunDetails}
use chips_agent_fabric.Store.Workers.{moved_worker, worker_event}
use chips_agent_fabric.Store.Jobs.{fenced_provider_job, is_collected}
use chips_agent_fabric.Store.Jobs.Observe.{collected_db}

-- The set `terminal` of the source: an interrupted run is not in it.
abbrev pub is_final : RunState → Bool
is_final RunState.completed = true
is_final RunState.failed = true
is_final RunState.cancelled = true
is_final RunState.timed_out = true
is_final RunState.auth_required = true
is_final RunState.rate_limited = true
is_final _ = false

abbrev is_cancelled_task : Option TaskRow → Bool
is_cancelled_task none = false
is_cancelled_task (some t) = t.state == TaskState.cancelled

-- `cancellation_wins`
abbrev pub cancellation_wins : RunRow → Option TaskRow → Bool
cancellation_wins run task = run.state == RunState.cancelled && is_cancelled_task task

abbrev pub finished_run : ℕ → RunState → RunDetails → RunRow → RunRow
finished_run now target details r = record r {
  state = target;
  process_id = coalesce details.process_id r.process_id;
  session_id = coalesce details.session_id r.session_id;
  last_event_at = some now;
  ended_at = some now;
  exit_code = coalesce details.exit_code r.exit_code;
  failure_class = coalesce details.failure_class r.failure_class;
  failure_detail = coalesce details.failure_detail r.failure_detail;
  raw_output_reference = coalesce details.raw_output_reference r.raw_output_reference;
  updated_at = now;
}

abbrev finished_kind : RunState → String
finished_kind RunState.completed = "workerCompleted"
finished_kind RunState.cancelled = "workerCancelled"
finished_kind RunState.timed_out = "workerTimedOut"
finished_kind RunState.auth_required = "workerAuthRequired"
finished_kind RunState.rate_limited = "workerRateLimited"
finished_kind _ = "workerFailed"

abbrev finished_severity : RunState → EventSeverity
finished_severity RunState.completed = EventSeverity.notice
finished_severity _ = EventSeverity.warning

abbrev finished_event : RunRow → RunState → Option String → String → ℕ → ℕ → Event
finished_event run target project_id actor now sequence = record {
  sequence = sequence;
  kind = finished_kind target;
  severity = finished_severity target;
  entity_type = "workerRun";
  entity_id = run.id;
  project_id = project_id;
  task_id = some run.task_id;
  worker_id = some run.worker_id;
  run_id = some run.id;
  payload = ("from", Field.run_state run.state) ∷ ("to", Field.run_state target) ∷ [];
  actor = actor;
  created_at = now;
}

-- `if current is not target and not cancellation_wins`
unfoldable pub finished_db :
    ℕ → String → RunState → RunDetails → RunRow → Option TaskRow → String → Db → Db
finished_db now run_id target details run task actor db =
    if not (run.state == target) && not (cancellation_wins run task)
    then append_event
        (finished_event run target (Option.map (λ (t : TaskRow). t.project_id) task) actor now)
        (record db {
          runs = update_where (run_is run_id) (finished_run now target details) db.runs;
        })
    else db

-- Another active run of the worker.
abbrev pub other_active : String → String → RunRow → Bool
other_active worker_id run_id r =
    r.worker_id == worker_id && not (r.id == run_id) && is_active_run r.state

-- The rows that the UPDATE of the worker finds.
abbrev pub releasable : String → String → List RunRow → WorkerRow → Bool
releasable worker_id run_id runs w =
    worker_is worker_id w && not (exists_where (other_active worker_id run_id) runs)

abbrev pub journal_worker :
    Bool → Option WorkerRow → WorkerState → RunRow → String → String → ℕ → Db → Db
journal_worker false worker state run run_id actor now db = db
journal_worker true none state run run_id actor now db = db
journal_worker true (some worker) state run run_id actor now db =
    if worker.state == state
    then db
    else append_event
        (worker_event run.worker_id worker.state state none (some run.task_id) (some run_id) actor
          now)
        db

-- What the caller asks for the worker of the run.
pub record WorkerUpdate : Type 0 where
  pub state : WorkerState
  pub resource_state : Option ResourceState
  pub model_id : Option String

-- `if not cancellation_wins and job["result_collection_state"] != "collected"`
unfoldable pub released_worker_db :
    ℕ → String → WorkerUpdate → RunRow → Option TaskRow → ProviderJobRow → String → Db → Db
released_worker_db now run_id update run task job actor db =
    if not (cancellation_wins run task) && not (is_collected job.result_collection_state)
    then (let free = releasable run.worker_id run_id db.runs in
        journal_worker (count_where free db.workers == 1)
          (first_where (worker_is run.worker_id) db.workers) update.state run run_id actor now
          (record db {
            workers =
                update_where free
                  (moved_worker now update.state update.resource_state update.model_id) db.workers;
          }))
    else db

-- `observation`
abbrev pub observation_of : RunState → ReconciliationState
observation_of RunState.completed = ReconciliationState.known_completed
observation_of RunState.cancelled = ReconciliationState.known_cancelled
observation_of _ = ReconciliationState.known_failed

unfoldable pub closed_job_db :
    ℕ → String → RunState → Option TaskRow → ProviderJobRow → String → Db → Db
closed_job_db now run_id target task job actor db =
    if is_collected job.result_collection_state
    then db
    else collected_db now run_id (observation_of target) job
        (Option.map (λ (t : TaskRow). t.project_id) task) actor db

-- The writes of `finalize_provider_job_result` after its checks.
unfoldable pub finalized_db :
    ℕ
    → String
    → RunState
    → RunDetails
    → WorkerUpdate
    → RunRow
    → Option TaskRow
    → ProviderJobRow
    → String
    → Db
    → Db
finalized_db now run_id target details update run task job actor db =
    closed_job_db now run_id target task job actor (
      released_worker_db now run_id update run task job actor
        (finished_db now run_id target details run task actor db))

-- The references of the two rows that are updated: the session of the run and the model of the worker.
unfoldable pub violates_references :
    RunState → RunDetails → WorkerUpdate → RunRow → Option TaskRow → ProviderJobRow → Db → Bool
violates_references target details update run task job db =
    not (run.state == target)
      && not (cancellation_wins run task)
      && is_unknown db.session_ids details.session_id
    || not (cancellation_wins run task)
      && not (is_collected job.result_collection_state)
      && exists_where (releasable run.worker_id run.id db.runs) db.workers
      && is_unknown db.model_ids update.model_id

-- `redact` is `redact_sensitive` on the failure text. Every run has a task: the schema's foreign key.
unfoldable pub finalize_provider_job_result :
    (String → String)
    → ℕ
    → String
    → RunState
    → RunDetails
    → WorkerUpdate
    → String
    → ℕ
    → String
    → Db
    → Result (RunRow × Db)
finalize_provider_job_result redact clock run_id target details update lease_owner_id
      lease_generation actor db =
    do
      refuse (not (is_final target)) value_error
      job ← fenced_provider_job clock db run_id lease_owner_id lease_generation
      run ← fetched (first_where (run_is run_id) db.runs) (key_error run_id)
      refuse (not (exists_where (result_of run_id) db.results)) runtime_error
      let task = first_where (task_is run.task_id) db.tasks
      refuse (is_final run.state && not (run.state == target) && not (cancellation_wins run task))
          runtime_error
      refuse (not (is_final run.state) && not (allows run_transitions run.state target))
          invalid_transition
      refuse (violates_references target details update run task job db) integrity_error
      let safe = record details { failure_detail = Option.map redact details.failure_detail }
      let written = finalized_db (timestamp clock) run_id target safe update run task job actor db
      current ← fetched (first_where (run_is run_id) written.runs) (key_error run_id)
      ok (current, written)
