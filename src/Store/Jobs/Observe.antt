-- ===== src/Store/Jobs/Observe.antt =====
-- `record_provider_job_observation` and `mark_provider_job_result_collected` of
-- src/project_supervisor/store.py: what a provider says of a job.
use chips_agent_fabric.Prelude.{
  none, some, ℕ, String, ◌==◌, string_eq, nat_eq, [], ◌∷◌, Option, not, if◌then◌else◌, coalesce,
}
use mathlib.Core.Option
use chips_agent_fabric.Domain.{EventSeverity, RunState}
use chips_agent_fabric.Store.Error.{Result, ok, value_error, fetched, ◌>>=◌}
use chips_agent_fabric.Store.Schema.{
  timestamp, append_event, Db, Field, ProviderJobRow, LaunchState, ReconciliationState,
  CollectionState,
}
use chips_agent_fabric.Store.Jobs.{
  changed_job, project_of, fenced_provider_job, get_provider_job, job_event, is_falsy, is_collected,
  text_or_null, reconciliation_text,
}

-- The state of a launch after an observation: a job that is running is bound if its provider names it.
abbrev pub observed_launch : ReconciliationState → ProviderJobRow → LaunchState
observed_launch ReconciliationState.known_completed job = LaunchState.terminal
observed_launch ReconciliationState.known_failed job = LaunchState.terminal
observed_launch ReconciliationState.known_cancelled job = LaunchState.terminal
observed_launch ReconciliationState.unknown job = LaunchState.uncertain
observed_launch ReconciliationState.provider_unreachable job = LaunchState.uncertain
observed_launch ReconciliationState.known_running job =
    if not (is_falsy job.handle.provider_job_id) then LaunchState.bound else job.launch_state
observed_launch ReconciliationState.provider_not_found job = job.launch_state

abbrev pub observed_job : ℕ → ReconciliationState → LaunchState → ProviderJobRow → ProviderJobRow
observed_job now state launch r = record r {
  reconciliation_state = state;
  launch_state = launch;
  last_reconciled_at = some now;
  updated_at = now;
}

abbrev observed_severity : ReconciliationState → EventSeverity
observed_severity ReconciliationState.unknown = EventSeverity.warning
observed_severity ReconciliationState.provider_unreachable = EventSeverity.warning
observed_severity ReconciliationState.provider_not_found = EventSeverity.warning
observed_severity _ = EventSeverity.notice

-- The writes of `record_provider_job_observation`: only a new state is journalled.
unfoldable pub observed_db :
    (String → String)
    → ℕ
    → String
    → ReconciliationState
    → Option String
    → Option String
    → ProviderJobRow
    → String
    → Db
    → Db
observed_db redact now run_id state provider_status detail job actor db =
    let written = changed_job (observed_job now state (observed_launch state job)) job db in
    if reconciliation_text job.reconciliation_state == reconciliation_text state
    then written
    else append_event
        (job_event "providerJobReconciled" (observed_severity state) job run_id
          (project_of db job.task_id)
          (("providerJobID", Field.text job.id)
            ∷ ("state", Field.text (reconciliation_text state))
            ∷ ("providerStatus", text_or_null (Option.map redact provider_status))
            ∷ ("detail", text_or_null (Option.map redact detail))
            ∷ [])
          actor now)
        written

-- A state outside the enum is the ValueError of the source.
unfoldable pub record_provider_job_observation :
    (String → String)
    → ℕ
    → String
    → ReconciliationState
    → Option String
    → Option String
    → String
    → ℕ
    → String
    → Db
    → Result (ProviderJobRow × Db)
record_provider_job_observation redact clock run_id state provider_status detail lease_owner_id
      lease_generation actor db =
    do
      job ← fenced_provider_job clock db run_id lease_owner_id lease_generation
      if is_collected job.result_collection_state
          then ok (job, db)
          else get_provider_job run_id (
              observed_db redact (timestamp clock) run_id state provider_status detail job actor db)

-- `mapping.get(terminal_state)`
abbrev pub collected_as : RunState → Option ReconciliationState
collected_as RunState.completed = some ReconciliationState.known_completed
collected_as RunState.failed = some ReconciliationState.known_failed
collected_as RunState.cancelled = some ReconciliationState.known_cancelled
collected_as RunState.timed_out = some ReconciliationState.known_failed
collected_as RunState.auth_required = some ReconciliationState.known_failed
collected_as RunState.rate_limited = some ReconciliationState.known_failed
collected_as _ = none

abbrev pub collected_job : ℕ → ReconciliationState → ProviderJobRow → ProviderJobRow
collected_job now state r = record r {
  launch_state = LaunchState.terminal;
  reconciliation_state = state;
  result_collection_state = CollectionState.collected;
  result_collected_at = some now;
  last_reconciled_at = coalesce r.last_reconciled_at (some now);
  updated_at = now;
}

-- The UPDATE of the job and its journal entry, which two operations share.
unfoldable pub collected_db :
    ℕ → String → ReconciliationState → ProviderJobRow → Option String → String → Db → Db
collected_db now run_id state job project_id actor db =
    append_event
      (job_event "providerJobResultCollected" EventSeverity.notice job run_id project_id
        (("providerJobID", Field.text job.id)
          ∷ ("state", Field.text (reconciliation_text state))
          ∷ [])
        actor now)
      (changed_job (collected_job now state) job db)

unfoldable pub mark_provider_job_result_collected :
    ℕ → String → RunState → String → ℕ → String → Db → Result (ProviderJobRow × Db)
mark_provider_job_result_collected clock run_id terminal_state lease_owner_id lease_generation actor
      db =
    do
      state ← fetched (collected_as terminal_state) value_error
      job ← fenced_provider_job clock db run_id lease_owner_id lease_generation
      if is_collected job.result_collection_state
          then ok (job, db)
          else get_provider_job run_id
              (collected_db (timestamp clock) run_id state job (project_of db job.task_id) actor db)
