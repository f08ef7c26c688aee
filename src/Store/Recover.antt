-- ===== src/Store/Recover.antt =====
-- `recover_interrupted` of src/project_supervisor/store.py: what a restarted supervisor marks as
-- interrupted.
use chips_agent_fabric.Prelude.{
  string_eq, ℕ, ◌+◌, Bool, true, false, not, ◌&&◌, Option, none, some, List, [], ◌∷◌, ◌++◌, String,
  ◌==◌, if◌then◌else◌, map, contains, length, ltb,
}
use chips_agent_fabric.Domain.{TaskState_eq, TaskState, RunState, EventSeverity}
use chips_agent_fabric.StateMachine.Terminal.{is_active_run}
use chips_agent_fabric.Sql.{select_where, exists_where, update_where}
use chips_agent_fabric.Store.Schema.{
  Db, TaskRow, RunRow, LeaseRow, is_active_lease, LaunchState, ProviderJobRow, Event, Field,
  timestamp, append_event, task_is, worker_is, run_is,
}
use chips_agent_fabric.Store.Lease.{released}
use chips_agent_fabric.Store.Workers.{distinct}
use chips_agent_fabric.Store.Cancel.{holds, freed}

-- An active lease of the task that has not expired.
abbrev pub is_leased : ℕ → List LeaseRow → String → Bool
is_leased now leases task_id =
    exists_where (λ l. l.task_id == task_id && is_active_lease l.state && ltb now l.expires_at)
      leases

abbrev is_prepared : LaunchState → Bool
is_prepared LaunchState.prepared = true
is_prepared _ = false

-- A provider may have work for the run: its job went past `prepared`.
abbrev pub is_launched : List ProviderJobRow → String → Bool
is_launched jobs run_id =
    exists_where (λ j. j.run_id == run_id && not (is_prepared j.launch_state)) jobs

abbrev pub in_scope : Option (List String) → String → Bool
in_scope none task_id = true
in_scope (some task_ids) task_id = contains task_ids task_id

abbrev pub is_orphan_run : ℕ → Option (List String) → Db → RunRow → Bool
is_orphan_run now task_ids db r =
    is_active_run r.state
    && not (is_leased now db.leases r.task_id)
    && not (is_launched db.provider_jobs r.id)
    && in_scope task_ids r.task_id

abbrev pub is_orphan_task : ℕ → Option (List String) → Db → TaskRow → Bool
is_orphan_task now task_ids db t =
    t.state == TaskState.running
    && not (is_leased now db.leases t.id)
    && not (
        exists_where
          (λ (r : RunRow).
            r.task_id == t.id && is_active_run r.state && is_launched db.provider_jobs r.id)
          db.runs)
    && in_scope task_ids t.id

abbrev pub interrupted_run : ℕ → RunRow → RunRow
interrupted_run now r = record r {
  state = RunState.interrupted;
  ended_at = some now;
  updated_at = now;
  failure_class = some "infrastructure";
  failure_detail = some "supervisor restart";
}

abbrev interrupt_event : RunRow → ℕ → ℕ → Event
interrupt_event run now sequence = record {
  sequence = sequence;
  kind = "workerRunInterrupted";
  severity = EventSeverity.warning;
  entity_type = "workerRun";
  entity_id = run.id;
  project_id = none;
  task_id = some run.task_id;
  worker_id = some run.worker_id;
  run_id = some run.id;
  payload = ("previousState", Field.run_state run.state) ∷ [];
  actor = "recovery";
  created_at = now;
}

unfoldable pub interrupt_runs : ℕ → List RunRow → Db → Db
interrupt_runs now [] db = db
interrupt_runs now (run ∷ rest) db = interrupt_runs now rest (
    append_event (interrupt_event run now)
      (record db { runs = update_where (run_is run.id) (interrupted_run now) db.runs }))

-- Here the worker's own state is not asked for.
unfoldable pub idle_workers : ℕ → List String → Db → Db
idle_workers now [] db = db
idle_workers now (k ∷ ks) db = idle_workers now ks (record db {
  workers =
      update_where (λ w. worker_is k w && not (exists_where (holds k) db.runs)) (freed now)
        db.workers;
})

abbrev pub interrupted_task : ℕ → TaskRow → TaskRow
interrupted_task now t = record t {
  state = TaskState.interrupted;
  updated_at = now;
  version = t.version + 1;
}

abbrev recovered_event : TaskRow → ℕ → ℕ → Event
recovered_event task now sequence = record {
  sequence = sequence;
  kind = "taskRecovered";
  severity = EventSeverity.warning;
  entity_type = "task";
  entity_id = task.id;
  project_id = some task.project_id;
  task_id = some task.id;
  worker_id = none;
  run_id = none;
  payload =
      ("from", Field.task_state TaskState.running)
      ∷ ("to", Field.task_state TaskState.interrupted)
      ∷ [];
  actor = "recovery";
  created_at = now;
}

unfoldable pub interrupt_tasks : ℕ → List TaskRow → Db → Db
interrupt_tasks now [] db = db
interrupt_tasks now (task ∷ rest) db = interrupt_tasks now rest (
    append_event (recovered_event task now)
      (record db { tasks = update_where (task_is task.id) (interrupted_task now) db.tasks }))

abbrev pub asks_for_none : Option (List String) → Bool
asks_for_none (some []) = true
asks_for_none _ = false

-- The writes of `recover_interrupted`.
unfoldable pub recovered_db : ℕ → Option (List String) → Db → Db
recovered_db now task_ids db =
    let runs = select_where (is_orphan_run now task_ids db) db.runs in
    let tasks = select_where (is_orphan_task now task_ids db) db.tasks in
    let ended = interrupt_runs now runs db in
    let idle = idle_workers now (distinct (map (λ (r : RunRow). r.worker_id) runs)) ended in
    let marked = interrupt_tasks now tasks idle in
    let recovered = map (λ (r : RunRow). r.task_id) runs ++ map (λ (t : TaskRow). t.id) tasks in
    record marked {
      leases =
          update_where (λ l. contains recovered l.task_id && is_active_lease l.state) (released now)
            marked.leases;
    }

-- The counts `runsInterrupted` and `tasksInterrupted`, and the new database.
unfoldable pub recover_interrupted : ℕ → Option (List String) → Db → (ℕ × ℕ) × Db
recover_interrupted clock task_ids db =
    if asks_for_none task_ids
    then ((0, 0), db)
    else (let now = timestamp clock in
        (
          (
            length (select_where (is_orphan_run now task_ids db) db.runs),
            length (select_where (is_orphan_task now task_ids db) db.tasks),
          ),
          recovered_db now task_ids db,
        ))
