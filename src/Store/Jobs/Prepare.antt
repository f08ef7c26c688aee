-- ===== src/Store/Jobs/Prepare.antt =====
-- `prepare_provider_job` and `mark_provider_job_launching` of
-- src/project_supervisor/store.py: a job before and at its launch.
use chips_agent_fabric.Store.Dispatch.{Blank}
use chips_agent_fabric.Prelude.{
  join, none, some, ℕ, String, Bool, true, false, List, ◌==◌, string_eq, nat_eq, [], ◌∷◌, ◌++◌,
  Option, not, ◌&&◌, ◌||◌, if◌then◌else◌,
}
use chips_agent_fabric.Domain.{EventSeverity}
use chips_agent_fabric.Sql.{first_where, exists_where}
use chips_agent_fabric.Store.Error.{
  Result, ok, err, key_error, value_error, runtime_error, integrity_error, refuse, fetched, ◌>>=◌,
  ◌>>◌,
}
use chips_agent_fabric.Store.Schema.{
  worker_is, timestamp, task_is, run_is, append_event, RunRow, Db, Field, ProviderJobRow, Supports,
  Handle, LaunchState, CollectionState, ReconciliationState, job_of,
}
use chips_agent_fabric.Store.Lease.{require_task_execution_lease}
use chips_agent_fabric.Store.Jobs.{
  changed_job, task_is, project_of, fenced_provider_job, get_provider_job, job_event, same_bool,
}

-- The mapping `capabilities`: its keys with their numbers, where a flag is 0 or 1.
abbrev lookup : List (String × ℕ) → String → ℕ → ℕ
lookup [] key otherwise = otherwise
lookup ((k, n) ∷ rest) key otherwise = if k == key then n else lookup rest key otherwise

abbrev flag : List (String × ℕ) → String → Bool
flag capabilities key = not (lookup capabilities key 0 == 0)

abbrev pub protocol_of : List (String × ℕ) → ℕ
protocol_of capabilities = lookup capabilities "protocol_version" 1

abbrev pub supported : List (String × ℕ) → Supports
supported c = record {
  reconcile = flag c "supports_reconcile";
  resume = flag c "supports_resume";
  cancel = flag c "supports_cancel";
  durable_cancel = flag c "supports_durable_cancel";
  provider_idempotency = flag c "supports_provider_idempotency";
  stream_reconnect = flag c "supports_stream_reconnect";
  repeatable_collect = flag c "supports_repeatable_collect";
  idempotent_launch_lookup = flag c "supports_idempotent_launch_lookup";
  durable_launch_registry = flag c "supports_durable_launch_registry";
}

abbrev same_supports : Supports → Supports → Bool
same_supports a b =
    same_bool a.reconcile b.reconcile
    && same_bool a.resume b.resume
    && same_bool a.cancel b.cancel
    && same_bool a.durable_cancel b.durable_cancel
    && same_bool a.provider_idempotency b.provider_idempotency
    && same_bool a.stream_reconnect b.stream_reconnect
    && same_bool a.repeatable_collect b.repeatable_collect
    && same_bool a.idempotent_launch_lookup b.idempotent_launch_lookup
    && same_bool a.durable_launch_registry b.durable_launch_registry

abbrev supports_flags : Supports → List (String × Bool)
supports_flags s =
    ("supports_reconcile", s.reconcile)
    ∷ ("supports_resume", s.resume)
    ∷ ("supports_cancel", s.cancel)
    ∷ ("supports_durable_cancel", s.durable_cancel)
    ∷ ("supports_provider_idempotency", s.provider_idempotency)
    ∷ ("supports_stream_reconnect", s.stream_reconnect)
    ∷ ("supports_repeatable_collect", s.repeatable_collect)
    ∷ ("supports_idempotent_launch_lookup", s.idempotent_launch_lookup)
    ∷ ("supports_durable_launch_registry", s.durable_launch_registry)
    ∷ []

-- `f"supervisor-execution:{run_id}"`
abbrev pub idempotency_key_of : String → String
idempotency_key_of run_id = join "supervisor-execution:" run_id

-- Is the stored job the one that is asked for again?
abbrev pub is_same_intent : ProviderJobRow → String → String → ℕ → List (String × ℕ) → Bool
is_same_intent job adapter_type adapter_instance_id generation capabilities =
    job.adapter_type == adapter_type
    && job.adapter_instance_id == adapter_instance_id
    && job.launch_generation == generation
    && job.protocol_version == protocol_of capabilities
    && same_supports job.supports (supported capabilities)

-- The defaults of the schema.
abbrev no_handle : Handle
no_handle = record {
  handle_version = 1;
  provider_job_id = none;
  provider_session_id = none;
  runtime_pid = none;
  runtime_host = none;
  runtime_identity = none;
  adapter_metadata = "{}";
}

abbrev pub prepared_job :
    ℕ → String → RunRow → String → String → String → ℕ → List (String × ℕ) → ProviderJobRow
prepared_job now job_id run provider adapter_type adapter_instance_id generation capabilities =
    record {
      id = job_id;
      run_id = run.id;
      task_id = run.task_id;
      worker_id = run.worker_id;
      adapter_type = adapter_type;
      adapter_instance_id = adapter_instance_id;
      provider = provider;
      launch_generation = generation;
      idempotency_key = idempotency_key_of run.id;
      launch_state = LaunchState.prepared;
      reconciliation_state = ReconciliationState.unknown;
      result_collection_state = CollectionState.pending;
      supports = supported capabilities;
      protocol_version = protocol_of capabilities;
      handle = no_handle;
      created_at = now;
      launched_at = none;
      last_reconciled_at = none;
      result_collected_at = none;
      updated_at = now;
    }

-- The keys and checks of the table `provider_jobs`.
abbrev pub violates_jobs : ProviderJobRow → Db → Bool
violates_jobs job db =
    exists_where
      (λ r. r.id == job.id || r.run_id == job.run_id || r.idempotency_key == job.idempotency_key)
      db.provider_jobs
    || job.launch_generation == 0

-- The writes of `prepare_provider_job`. `fingerprint` stands for the head of the SHA-256 digest.
unfoldable pub insert_job :
    (String → String) → ProviderJobRow → Option String → String → Db → Result Db
insert_job fingerprint job project_id actor db =
    if violates_jobs job db
    then err integrity_error
    else ok (
        append_event
          (job_event "providerJobPrepared" EventSeverity.info job job.run_id project_id
            (("providerJobID", Field.text job.id)
              ∷ ("adapterType", Field.text job.adapter_type)
              ∷ ("protocolVersion", Field.number job.protocol_version)
              ∷ ("launchGeneration", Field.number job.launch_generation)
              ∷ ("idempotencyFingerprint", Field.text (fingerprint job.idempotency_key))
              ∷ ("capabilities", Field.flags (supports_flags job.supports))
              ∷ [])
            actor job.created_at)
          (record db { provider_jobs = db.provider_jobs ++ (job ∷ []) }))

-- What is done with the job that the run has, or for a run that has none.
unfoldable pub existing_or_new :
    (String → String)
    → ℕ
    → String
    → RunRow
    → String
    → String
    → String
    → List (String × ℕ)
    → ℕ
    → Option String
    → String
    → Db
    → Option ProviderJobRow
    → Result (ProviderJobRow × Db)
existing_or_new fingerprint now job_id run provider adapter_type adapter_instance_id capabilities
      generation project_id actor db (some existing) =
    if is_same_intent existing adapter_type adapter_instance_id generation capabilities
    then ok (existing, db)
    else err runtime_error
existing_or_new fingerprint now job_id run provider adapter_type adapter_instance_id capabilities
      generation project_id actor db none =
    do
      prepared ←
          insert_job fingerprint
            (prepared_job now job_id run provider adapter_type adapter_instance_id generation
              capabilities)
            project_id actor db
      get_provider_job run.id prepared

-- `job_id` stands for the new identifier; the query joins the run with its task and its worker.
unfoldable pub prepare_provider_job :
    Blank
    → (String → String)
    → ℕ
    → String
    → String
    → String
    → String
    → List (String × ℕ)
    → String
    → ℕ
    → String
    → Db
    → Result (ProviderJobRow × Db)
unfolding get_provider_job
prepare_provider_job blank fingerprint clock job_id run_id adapter_type adapter_instance_id
      capabilities lease_owner_id lease_generation actor db =
    do
      refuse (blank adapter_type) value_error
      refuse (blank adapter_instance_id) value_error
      refuse (protocol_of capabilities == 0) value_error
      run ← fetched (first_where (run_is run_id) db.runs) (key_error run_id)
      task ← fetched (first_where (task_is run.task_id) db.tasks) (key_error run_id)
      worker ← fetched (first_where (worker_is run.worker_id) db.workers) (key_error run_id)
      require_task_execution_lease clock db run.task_id lease_owner_id lease_generation
      existing_or_new fingerprint (timestamp clock) job_id run worker.provider adapter_type
          adapter_instance_id capabilities lease_generation (some task.project_id) actor db
          (first_where (job_of run_id) db.provider_jobs)

abbrev pub is_prepared : LaunchState → Bool
is_prepared LaunchState.prepared = true
is_prepared _ = false

abbrev pub launching_job : ℕ → ProviderJobRow → ProviderJobRow
launching_job now r = record r {
  launch_state = LaunchState.launching;
  launched_at = some now;
  updated_at = now;
}

unfoldable pub launching_db : ℕ → String → ProviderJobRow → String → Db → Db
launching_db now run_id job actor db =
    append_event
      (job_event "providerJobLaunchStarted" EventSeverity.info job run_id
        (project_of db job.task_id)
        (("providerJobID", Field.text job.id)
          ∷ ("launchGeneration", Field.number job.launch_generation)
          ∷ [])
        actor now)
      (changed_job (launching_job now) job db)

-- The other states that a row can have are the set that the source names.
unfoldable pub mark_provider_job_launching :
    ℕ → String → String → ℕ → String → Db → Result (ProviderJobRow × Db)
mark_provider_job_launching clock run_id lease_owner_id lease_generation actor db = do
  job ← fenced_provider_job clock db run_id lease_owner_id lease_generation
  if not (is_prepared job.launch_state)
      then ok (job, db)
      else get_provider_job run_id (launching_db (timestamp clock) run_id job actor db)
