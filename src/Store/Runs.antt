-- ===== src/Store/Runs.antt =====
-- Worker runs of src/project_supervisor/store.py: `create_worker_run` and `transition_worker_run`.
pub mod Cases
use mathlib.Core.Option
use chips_agent_fabric.Prelude.{
  ℕ, ◌+◌, not, Option, some, List, [], ◌∷◌, String, ◌==◌, if◌then◌else◌, max, coalesce,
}
use chips_agent_fabric.Domain.{RunState_eq, RunState, EventSeverity}
use chips_agent_fabric.StateMachine.{allows, run_transitions}
use chips_agent_fabric.StateMachine.Terminal.{is_active_run}
use chips_agent_fabric.Sql.{first_where, update_where}
use chips_agent_fabric.Store.Error.{
  integrity_error, Result, ok, key_error, invalid_transition, ◌>>=◌, ◌>>◌, refuse, fetched,
}
use chips_agent_fabric.Store.Schema.{
  is_unknown, Db, TaskRow, RunRow, Event, Field, timestamp, append_event, merge_fields, task_is,
  worker_is, run_is,
}
use chips_agent_fabric.Store.Lease.{require_optional_lease}
use chips_agent_fabric.Store.Scopes.{Digests, dispatch_snapshot}
use chips_agent_fabric.Store.Dispatch.{starting_run, started_event, insert_run}

-- `attempt_count=MAX(attempt_count,?)`
abbrev pub counted : ℕ → ℕ → TaskRow → TaskRow
counted now attempt r = record r {
  attempt_count = max r.attempt_count attempt;
  updated_at = now;
  version = r.version + 1;
}

-- `create_worker_run`; `run_id` stands for the fresh `uuid4`.
unfoldable pub create_worker_run :
    Digests → ℕ → String → String → String → ℕ → Option ℕ → Db → Result (String × Db)
unfolding timestamp insert_run
create_worker_run digests clock run_id task_id worker_id attempt timeout_at db = do
  let now = timestamp clock
  task ← fetched (first_where (task_is task_id) db.tasks) (key_error task_id)
  worker ← fetched (first_where (worker_is worker_id) db.workers) (key_error worker_id)
  snapshot ← dispatch_snapshot digests db task
  let run =
      starting_run run_id task_id worker_id attempt (Option.map timestamp timeout_at) snapshot.0
        snapshot.1 now
  inserted ← insert_run run db
  let bumped = record inserted {
    tasks = update_where (task_is task_id) (counted now attempt) db.tasks;
  }
  ok (run_id, append_event (started_event run task.project_id "runtime") bumped)

-- The keyword arguments of `transition_worker_run` that fill columns of the run.
pub record RunDetails : Type 0 where
  pub process_id : Option ℕ
  pub exit_code : Option ℕ
  pub session_id : Option String
  pub raw_output_reference : Option String
  pub failure_class : Option String
  pub failure_detail : Option String

abbrev run_event_kind : RunState → String
run_event_kind RunState.running = "workerRunning"
run_event_kind RunState.completed = "workerCompleted"
run_event_kind RunState.cancelled = "workerCancelled"
run_event_kind RunState.timed_out = "workerTimedOut"
run_event_kind RunState.interrupted = "workerRunInterrupted"
run_event_kind RunState.auth_required = "workerAuthRequired"
run_event_kind RunState.rate_limited = "workerRateLimited"
run_event_kind RunState.failed = "workerFailed"
run_event_kind _ = "workerStateChanged"

abbrev run_severity : RunState → EventSeverity
run_severity RunState.running = EventSeverity.notice
run_severity RunState.completed = EventSeverity.notice
run_severity _ = EventSeverity.warning

-- The row after the UPDATE. The set `terminal` of the source is the complement of the active states.
abbrev pub moved_run : ℕ → RunState → RunDetails → RunRow → RunRow
moved_run now target details r = record r {
  state = target;
  process_id = coalesce details.process_id r.process_id;
  session_id = coalesce details.session_id r.session_id;
  started_at =
      if target == RunState.running then coalesce r.started_at (some now) else r.started_at;
  last_event_at = some now;
  ended_at = if is_active_run target then r.ended_at else some now;
  exit_code = coalesce details.exit_code r.exit_code;
  failure_class = coalesce details.failure_class r.failure_class;
  failure_detail = coalesce details.failure_detail r.failure_detail;
  raw_output_reference = coalesce details.raw_output_reference r.raw_output_reference;
  updated_at = now;
}

abbrev run_event : RunRow → RunState → Option String → List (String × Field) → ℕ → ℕ → Event
run_event run target project_id extra now sequence = record {
  sequence = sequence;
  kind = run_event_kind target;
  severity = run_severity target;
  entity_type = "workerRun";
  entity_id = run.id;
  project_id = project_id;
  task_id = some run.task_id;
  worker_id = some run.worker_id;
  run_id = some run.id;
  payload =
      merge_fields (("from", Field.run_state run.state) ∷ ("to", Field.run_state target) ∷ [])
        extra;
  actor = "runtime";
  created_at = now;
}

-- The writes of `transition_worker_run` after its checks.
unfoldable pub moved_run_db :
    ℕ → String → RunState → RunDetails → List (String × Field) → RunRow → Db → Db
moved_run_db now run_id target details extra run db =
    append_event
      (run_event run target
        (Option.map (λ (t : TaskRow). t.project_id) (first_where (task_is run.task_id) db.tasks))
        extra now)
      (record db { runs = update_where (run_is run_id) (moved_run now target details) db.runs })

-- `transition_worker_run`. `redact` is `redact_sensitive` on the failure text. Every run has a task:
-- the schema's foreign key.
unfoldable pub transition_worker_run :
    (String → String)
    → ℕ
    → String
    → RunState
    → RunDetails
    → List (String × Field)
    → Option String
    → Option ℕ
    → Db
    → Result (RunRow × Db)
transition_worker_run redact clock run_id target details extra lease_owner_id lease_generation db =
    do
      run ← fetched (first_where (run_is run_id) db.runs) (key_error run_id)
      require_optional_lease clock db run.task_id lease_owner_id lease_generation
      refuse (not (allows run_transitions run.state target)) invalid_transition
      refuse (is_unknown db.session_ids details.session_id) integrity_error
      let safe = record details { failure_detail = Option.map redact details.failure_detail }
      let written = moved_run_db (timestamp clock) run_id target safe extra run db
      current ← fetched (first_where (run_is run_id) written.runs) (key_error run_id)
      ok (current, written)
