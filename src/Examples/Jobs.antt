-- ===== src/Examples/Jobs.antt =====
-- A provider job that is prepared, bound and collected, in src/project_supervisor/store.py.
use chips_agent_fabric.Store.Jobs.Observe.{collected_db}
use chips_agent_fabric.Store.Jobs.{provider_job_for_update, get_provider_job, fenced_provider_job}
use chips_agent_fabric.StateMachine.{allows}
use chips_agent_fabric.Prelude.{
  Bool, ◌||◌, ◌==◌, string_eq, ◌⊎◌, List, subst, sym, ◌≤◌, true, false, none, some, [], ◌∷◌, ◌≡◌,
  refl, arith, String,
}
use chips_agent_fabric.Domain.{RunState, TaskState, WorkerState}
use chips_agent_fabric.Sql.{count_where, update_where, first_where, exists_where}
use chips_agent_fabric.Store.Error.{ok}
use chips_agent_fabric.Store.Schema.{
  run_is, Db, RunRow, LeaseRow, LeaseState, ProviderJobRow, Handle, LaunchState, ResultRow, job_of,
}
use chips_agent_fabric.Store.Runs.{RunDetails}
use chips_agent_fabric.Store.Lease.{
  require_optional_lease, require_task_execution_lease, task_execution_lease_is_current,
}
use chips_agent_fabric.Store.Dispatch.{starting_run}
use chips_agent_fabric.Store.Exclusive.Releasing.{active_row}
use chips_agent_fabric.Store.Jobs.Prepare.{launching_db, prepared_job, mark_provider_job_launching}
use chips_agent_fabric.Store.Jobs.Bind.{same_handle, bound_db, bind_job, bind_provider_job_handle}
use chips_agent_fabric.Store.Jobs.Binding.{
  IsBoundTo, IsUnsettled, redacted_handle, bind_provider_job_handle-guarded,
}
use chips_agent_fabric.Store.Jobs.Collect.{
  violates_references, released_worker_db, finished_db, finalized_db, closed_job_db, WorkerUpdate,
  finalize_provider_job_result,
}
use chips_agent_fabric.Store.Jobs.Fencing.{JobChange, JobChange-current}
use chips_agent_fabric.Store.Jobs.Settling.{IsCollected, finalize_provider_job_result-settles}
use chips_agent_fabric.Store.Records.{result_db, stored_or_new, ResultCounts, save_worker_result}
use chips_agent_fabric.Store.Records.Once.{HasResult, save_worker_result-keeps}
use chips_agent_fabric.Examples.{List, fresh, task, worker, after, taken}

abbrev run : RunRow
run = record (starting_run "r1" "a" "w" 1 none none 1 5) { state = RunState.running }

abbrev lease : LeaseRow
lease = record {
  task_id = "a";
  owner_id = "host";
  generation = 1;
  state = LeaseState.active;
  acquired_at = 5;
  heartbeat_at = 5;
  expires_at = 15;
  released_at = none;
}

-- The first task runs, and its job is prepared.
abbrev prepared : Db
prepared = record fresh {
  tasks = task "a" TaskState.running ∷ task "b" TaskState.queued ∷ [];
  workers = record (worker "w") { state = WorkerState.running } ∷ worker "v" ∷ [];
  runs = run ∷ [];
  leases = lease ∷ [];
  provider_jobs = prepared_job 6 "j1" run "mock" "codex" "local" 1 [] ∷ [];
}

abbrev launched : Db
launched = after (mark_provider_job_launching 7000000 "r1" "host" 1 "runtime" prepared) prepared

abbrev launched_job : ProviderJobRow
launched_job = record (prepared_job 6 "j1" run "mock" "codex" "local" 1 []) {
  launch_state = LaunchState.launching;
  launched_at = some 7;
  updated_at = 7;
}

launches :
    mark_provider_job_launching 7000000 "r1" "host" 1 "runtime" prepared
    ≡ ok (launched_job, launched)
unfolding mark_provider_job_launching fenced_provider_job first_where require_task_execution_lease
    get_provider_job launching_db update_where
launches = refl

JobChange-current_example :
    (job : ProviderJobRow) × (first_where (job_of "r1") prepared.provider_jobs ≡ some job)
    × (task_execution_lease_is_current 7000000 prepared job.task_id "host" 1 ≡ true)
JobChange-current_example =
    JobChange-current 7000000 "r1" "host" 1 prepared
      (JobChange.launches "runtime" launched_job launched launches)

abbrev handle : Handle
handle = record {
  handle_version = 1;
  provider_job_id = some "external";
  provider_session_id = none;
  runtime_pid = some 42;
  runtime_host = some "node";
  runtime_identity = some "boot";
  adapter_metadata = "{}";
}

abbrev pub bound : Db
bound =
    after
      (bind_provider_job_handle (λ s. s) 8000000 "r1" "codex" "local" handle "host" 1 "runtime"
        launched)
      launched

abbrev bound_row : ProviderJobRow
bound_row = record launched_job {
  handle = handle;
  launch_state = LaunchState.bound;
  updated_at = 8;
}

binds :
    bind_provider_job_handle
      (λ s. s)
      8000000
      "r1"
      "codex"
      "local"
      handle
      "host"
      1
      "runtime"
      launched
    ≡ ok (bound_row, bound)
unfolding bind_provider_job_handle fenced_provider_job first_where mark_provider_job_launching
    require_task_execution_lease get_provider_job launching_db update_where bind_job bound_db
binds = refl

bind_provider_job_handle-guarded_example :
    ((launched_job.launch_state ≡ LaunchState.bound)
      × (same_handle launched_job.handle (redacted_handle (λ s. s) handle) ≡ true)
      × (bound ≡ launched))
    ⊎ (IsUnsettled launched_job × IsBoundTo "r1" (redacted_handle (λ s. s) handle) bound)
unfolding mark_provider_job_launching fenced_provider_job first_where require_task_execution_lease
    get_provider_job launching_db update_where
bind_provider_job_handle-guarded_example =
    bind_provider_job_handle-guarded (λ s. s) 8000000 "r1" "codex" "local" handle "host" 1 "runtime"
      launched bound bound_row launched_job refl binds

abbrev values : ResultRow
values = record {
  run_id = "";
  summary = "done";
  changed_files = "[]";
  commands_run = "[]";
  tests = "[]";
  artifacts = "[]";
  commit_hash = none;
  blockers = "[]";
  confidence = some "0.5";
  recommended_next_actions = "[]";
  created_at = 0;
}

abbrev counts : ResultCounts
counts = record { changed_files = 0; tests = 0; artifacts = 0; blockers = 0 }

abbrev is_fraction : String → Bool
is_fraction t = t == "0" || t == "0.5" || t == "1"

abbrev saved : Db
saved =
    taken (save_worker_result is_fraction 10000000 "r1" values counts (some "host") (some 1) bound)

saves :
    save_worker_result is_fraction 10000000 "r1" values counts (some "host") (some 1) bound
    ≡ ok saved
unfolding save_worker_result first_where bind_provider_job_handle fenced_provider_job
    mark_provider_job_launching require_task_execution_lease get_provider_job launching_db
    update_where bind_job bound_db require_optional_lease stored_or_new
saves = refl

saves_again : save_worker_result is_fraction 11000000 "r1" values counts none none saved ≡ ok saved
unfolding save_worker_result first_where bind_provider_job_handle fenced_provider_job
    mark_provider_job_launching require_task_execution_lease get_provider_job launching_db
    update_where bind_job bound_db require_optional_lease stored_or_new result_db
saves_again = refl

save_worker_result-keeps_example :
    HasResult "r1" values saved × (saved ≡ saved) × HasResult "r1" values saved
save_worker_result-keeps_example =
    save_worker_result-keeps is_fraction 10000000 11000000 "r1" values values counts counts
      (some "host") none (some 1) none bound saved saved saves saves_again

abbrev no_details : RunDetails
no_details = record {
  process_id = none;
  exit_code = none;
  session_id = none;
  raw_output_reference = none;
  failure_class = none;
  failure_detail = none;
}

abbrev release : WorkerUpdate
release = record { state = WorkerState.idle; resource_state = none; model_id = none }

abbrev finalized : Db
finalized =
    after
      (finalize_provider_job_result (λ s. s) 12000000 "r1" RunState.completed no_details release
        "host" 1 "runtime" saved)
      saved

abbrev finished_run_row : RunRow
finished_run_row = record run {
  state = RunState.completed;
  last_event_at = some 12;
  ended_at = some 12;
  updated_at = 12;
}

finalizes :
    finalize_provider_job_result
      (λ s. s)
      12000000
      "r1"
      RunState.completed
      no_details
      release
      "host"
      1
      "runtime"
      saved
    ≡ ok (finished_run_row, finalized)
unfolding finalize_provider_job_result fenced_provider_job provider_job_for_update first_where
    save_worker_result bind_provider_job_handle mark_provider_job_launching
    require_task_execution_lease get_provider_job launching_db update_where bind_job bound_db
    require_optional_lease stored_or_new result_db exists_where allows count_where closed_job_db
    violates_references finalized_db finished_db released_worker_db collected_db
finalizes = refl

one_run : saved.runs ≡ (run ∷ [])
unfolding save_worker_result first_where bind_provider_job_handle fenced_provider_job
    provider_job_for_update mark_provider_job_launching require_task_execution_lease
    get_provider_job launching_db update_where bind_job bound_db require_optional_lease
    stored_or_new result_db
one_run = refl

one_run-keys : (k : String) → count_where (run_is k) (run ∷ []) ≤ 1
unfolding count_where
one_run-keys k = ground arith

saved-keys : (k : String) → count_where (run_is k) saved.runs ≤ 1
saved-keys k =
    subst (λ (rs : List RunRow). count_where (run_is k) rs ≤ 1) (sym one_run) (one_run-keys k)

finalize_provider_job_result-settles_example :
    (exists_where (active_row "r1") finalized.runs ≡ false) × IsCollected "r1" finalized
finalize_provider_job_result-settles_example =
    finalize_provider_job_result-settles (λ s. s) 12000000 "r1" RunState.completed no_details
      release "host" 1 "runtime" saved finalized finished_run_row saved-keys finalizes
