-- ===== src/Store/Jobs/Bind.antt =====
-- `bind_provider_job_handle` of src/project_supervisor/store.py: the handle by which a job is found
-- again at its provider.
use chips_agent_fabric.Prelude.{
  none, some, ℕ, String, Bool, true, false, ◌==◌, string_eq, nat_eq, [], ◌∷◌, Option, not, ◌&&◌,
  ◌||◌, if◌then◌else◌, coalesce, is_none,
}
use chips_agent_fabric.Domain.{EventSeverity}
use chips_agent_fabric.Store.Error.{
  Result, ok, err, value_error, runtime_error, integrity_error, refuse, ◌>>=◌, ◌>>◌,
}
use chips_agent_fabric.Store.Schema.{
  timestamp, append_event, Db, Field, ProviderJobRow, Handle, LaunchState,
}
use chips_agent_fabric.Store.Jobs.{
  changed_job, project_of, fenced_provider_job, get_provider_job, job_event, is_falsy, same_option,
}

abbrev pub same_handle : Handle → Handle → Bool
same_handle a b =
    a.handle_version == b.handle_version
    && same_option a.provider_job_id b.provider_job_id
    && same_option a.provider_session_id b.provider_session_id
    && same_option a.runtime_pid b.runtime_pid
    && same_option a.runtime_host b.runtime_host
    && same_option a.runtime_identity b.runtime_identity
    && a.adapter_metadata == b.adapter_metadata

-- A process number says nothing without its host and an identity of the process.
abbrev pub bad_handle : Handle → Bool
bad_handle h =
    h.handle_version == 0
    || is_falsy h.provider_job_id && is_none h.runtime_pid
    || not (is_none h.runtime_pid) && (is_falsy h.runtime_host || is_falsy h.runtime_identity)

abbrev pub is_bound : LaunchState → Bool
is_bound LaunchState.bound = true
is_bound _ = false

-- `launch_state in bindable_states`
abbrev pub is_bindable : ProviderJobRow → LaunchState → Bool
is_bindable job LaunchState.prepared = true
is_bindable job LaunchState.launching = true
is_bindable job LaunchState.uncertain =
    is_falsy job.handle.provider_job_id && job.supports.provider_idempotency
is_bindable job _ = false

abbrev pub bound_job : ℕ → Handle → ProviderJobRow → ProviderJobRow
bound_job now handle r = record r {
  handle = handle;
  launch_state = LaunchState.bound;
  launched_at = coalesce r.launched_at (some now);
  updated_at = now;
}

-- `CHECK(runtime_pid IS NULL OR runtime_pid > 0)`
abbrev pub violates_pid : Option ℕ → Bool
violates_pid none = false
violates_pid (some n) = n == 0

unfoldable pub bound_db : ℕ → String → Handle → ProviderJobRow → String → Db → Db
bound_db now run_id handle job actor db =
    append_event
      (job_event "providerJobHandleBound" EventSeverity.notice job run_id
        (project_of db job.task_id)
        (("providerJobID", Field.text job.id)
          ∷ ("hasProviderIdentity", Field.flag (not (is_falsy handle.provider_job_id)))
          ∷ ("hasRuntimeIdentity", Field.flag (not (is_none handle.runtime_pid)))
          ∷ ("handleVersion", Field.number handle.handle_version)
          ∷ [])
        actor now)
      (changed_job (bound_job now handle) job db)

-- What is done with a job of the same adapter.
unfoldable pub bind_job :
    ℕ → String → Handle → ProviderJobRow → String → Db → Result (ProviderJobRow × Db)
bind_job now run_id handle job actor db =
    if is_bound job.launch_state
    then (if same_handle job.handle handle then ok (job, db) else err runtime_error)
    else do
      refuse (not (is_bindable job job.launch_state)) runtime_error
      refuse (violates_pid handle.runtime_pid) integrity_error
      get_provider_job run_id (bound_db now run_id handle job actor db)

-- `safe` stands for the redaction and the compact text of the adapter's metadata.
unfoldable pub bind_provider_job_handle :
    (String → String)
    → ℕ
    → String
    → String
    → String
    → Handle
    → String
    → ℕ
    → String
    → Db
    → Result (ProviderJobRow × Db)
bind_provider_job_handle safe clock run_id adapter_type adapter_instance_id raw lease_owner_id
      lease_generation actor db =
    do
      refuse (bad_handle raw) value_error
      let handle = record raw { adapter_metadata = safe raw.adapter_metadata }
      job ← fenced_provider_job clock db run_id lease_owner_id lease_generation
      refuse
          (not (job.adapter_type == adapter_type)
            || not (job.adapter_instance_id == adapter_instance_id))
          runtime_error
      bind_job (timestamp clock) run_id handle job actor db
