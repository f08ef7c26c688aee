-- ===== src/Store/Adapter.antt =====
-- `record_adapter_event` of src/project_supervisor/store.py: what an adapter reports of a run.
use chips_agent_fabric.Prelude.{
  none, some, ℕ, String, true, false, ◌==◌, string_eq, [], ◌∷◌, List, Option, coalesce, length, suc,
  if◌then◌else◌, ◌≡◌, arith,
}
use chips_agent_fabric.Domain.{EventSeverity}
use chips_agent_fabric.Sql.{first_where, update_where}
use chips_agent_fabric.Store.Error.{
  Result, ok, key_error, fetched, ◌>>=◌, ◌>>◌, >>=-eq-ok, >>-eq-ok, fetched-eq-ok,
}
use chips_agent_fabric.Store.Schema.{
  timestamp, append_event, Db, Field, Event, RunRow, run_is, merge_fields,
}
use chips_agent_fabric.Store.Jobs.{project_of}
use chips_agent_fabric.Store.Lease.{require_optional_lease}

-- `value if isinstance(value, int) else None`: Python's booleans are integers.
abbrev number_of : Field → Option ℕ
number_of (Field.number n) = some n
number_of (Field.flag true) = some 1
number_of (Field.flag false) = some 0
number_of _ = none

-- `safe_payload.get("pid")`, where it is an integer.
abbrev pub pid_of : List (String × Field) → Option ℕ
pid_of [] = none
pid_of ((k, v) ∷ payload) = let rest = pid_of payload in if k == "pid" then number_of v else rest

abbrev pub reported_run : ℕ → Option ℕ → RunRow → RunRow
reported_run now process_id r = record r {
  process_id = coalesce process_id r.process_id;
  last_event_at = some now;
  updated_at = now;
}

abbrev adapter_event : RunRow → Option String → String → List (String × Field) → ℕ → ℕ → Event
adapter_event run project_id kind payload now sequence = record {
  sequence = sequence;
  kind = "workerAdapterEvent";
  severity = EventSeverity.debug;
  entity_type = "workerRun";
  entity_id = run.id;
  project_id = project_id;
  task_id = some run.task_id;
  worker_id = some run.worker_id;
  run_id = some run.id;
  payload = merge_fields (("adapterEventKind", Field.text kind) ∷ []) payload;
  actor = "adapter";
  created_at = now;
}

unfoldable pub reported_db : ℕ → String → RunRow → String → List (String × Field) → Db → Db
reported_db now run_id run kind payload db =
    append_event (adapter_event run (project_of db run.task_id) kind payload now) (record db {
      runs = update_where (run_is run_id) (reported_run now (pid_of payload)) db.runs;
    })

-- `payload` is the redacted payload. The answer is the number of the event.
unfoldable pub record_adapter_event :
    ℕ → String → String → List (String × Field) → Option String → Option ℕ → Db → Result (ℕ × Db)
record_adapter_event clock run_id kind payload lease_owner_id lease_generation db = do
  run ← fetched (first_where (run_is run_id) db.runs) (key_error run_id)
  require_optional_lease clock db run.task_id lease_owner_id lease_generation
  ok (suc (length db.events), reported_db (timestamp clock) run_id run kind payload db)

pub record_adapter_event_cases :
    (clock : ℕ) (run_id kind : String) (payload : List (String × Field)) (owner : Option String)
    (generation : Option ℕ) (db : Db) {n : ℕ} {db' : Db}
    → record_adapter_event clock run_id kind payload owner generation db ≡ ok (n, db')
    → (run : RunRow) × (first_where (run_is run_id) db.runs ≡ some run)
      × (db' ≡ reported_db (timestamp clock) run_id run kind payload db)
unfolding record_adapter_event
record_adapter_event_cases clock run_id kind payload owner generation db h =
    let (run, found, after) =
      >>=-eq-ok (fetched (first_where (run_is run_id) db.runs) (key_error run_id)) _ h in
    let last = >>-eq-ok (require_optional_lease clock db run.task_id owner generation) _ after in
    (run, fetched-eq-ok _ _ found, ground (arith, last))
