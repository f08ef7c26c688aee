-- ===== src/Store/Dispatch.antt =====
-- `claim_task_dispatch` of src/project_supervisor/store.py: the transaction that takes a READY task,
-- its lease, its idle workers and a STARTING run for each of them.
use chips_agent_fabric.Prelude.{
  nat_eq, string_eq, ℕ, ◌+◌, Bool, false, not, ◌||◌, ◌&&◌, Option, none, some, List, [], ◌∷◌, ◌++◌,
  String, ◌==◌, if◌then◌else◌, ltb, leb,
}
use chips_agent_fabric.Domain.{RunState, WorkerState, EventSeverity}
use chips_agent_fabric.Sql.{first_where, exists_where, update_where}
use chips_agent_fabric.Store.Error.{Result, ok, err, integrity_error, ◌>>=◌}
use chips_agent_fabric.Store.Schema.{
  Db, TaskRow, WorkerRow, RunRow, LeaseRow, LeaseState, Event, Field, timestamp, append_event,
  task_is, worker_is, run_is, lease_is,
}
use chips_agent_fabric.Store.Workers.{state_before, worker_event}

-- The keyword arguments of `claim_task_dispatch`. Times and the ttl count microseconds.
pub record Claim : Type 0 where
  pub task_id : String
  pub worker_ids : List String
  pub expected_version : ℕ
  pub timeout_at : Option ℕ
  pub lease_owner_id : Option String
  pub lease_ttl : ℕ
  pub max_attempts : Option ℕ
  pub actor : String

pub record Granted : Type 0 where
  pub attempt : ℕ
  pub run_ids : List (String × String)
  pub lease_generation : Option ℕ
  pub verification_scope_id : Option String
  pub task_definition_revision : ℕ

-- `str.strip`, of which the code asks whether anything is left: the standard library's.
abbrev pub Blank : Type 0
Blank = String → Bool

abbrev pub bad_owner : Blank → Option String → Bool
bad_owner blank none = false
bad_owner blank (some owner) = blank owner

abbrev pub bad_ttl : Option String → ℕ → Bool
bad_ttl none ttl = false
bad_ttl (some owner) ttl = ltb ttl 1000000

abbrev pub bad_limit : Option ℕ → Bool
bad_limit none = false
bad_limit (some n) = ltb n 1

abbrev pub exhausted : Option ℕ → ℕ → Bool
exhausted none attempts = false
exhausted (some n) attempts = leb n attempts

abbrev pub next_generation : Option LeaseRow → ℕ
next_generation none = 1
next_generation (some lease) = lease.generation + 1

-- INSERT INTO task_execution_leases ... ON CONFLICT(task_id) DO UPDATE
unfoldable pub upsert_lease : LeaseRow → List LeaseRow → List LeaseRow
upsert_lease lease leases =
    if exists_where (lease_is lease.task_id) leases
    then update_where (lease_is lease.task_id) (λ _. lease) leases
    else leases ++ (lease ∷ [])

abbrev pub new_lease : ℕ → ℕ → String → String → ℕ → LeaseRow
new_lease clock ttl task_id owner generation = record {
  task_id = task_id;
  owner_id = owner;
  generation = generation;
  state = LeaseState.active;
  acquired_at = timestamp clock;
  heartbeat_at = timestamp clock;
  expires_at = timestamp (clock + ttl);
  released_at = none;
}

abbrev pub lease_event : ℕ → ℕ → String → String → ℕ → String → String → ℕ → Event
lease_event clock ttl task_id owner generation project_id actor sequence = record {
  sequence = sequence;
  kind = "taskExecutionLeaseAcquired";
  severity = EventSeverity.info;
  entity_type = "task";
  entity_id = task_id;
  project_id = some project_id;
  task_id = some task_id;
  worker_id = none;
  run_id = none;
  payload =
      ("ownerID", Field.text owner)
      ∷ ("generation", Field.number generation)
      ∷ ("expiresAt", Field.number (timestamp (clock + ttl)))
      ∷ [];
  actor = actor;
  created_at = timestamp clock;
}

-- The lease of the claim, where an owner is named.
unfoldable pub acquire_lease : ℕ → Claim → Option String → Db → Option ℕ × List LeaseRow
unfolding timestamp upsert_lease
acquire_lease clock claim none db = (none, db.leases)
acquire_lease clock claim (some owner) db =
    let generation = next_generation (first_where (lease_is claim.task_id) db.leases) in
    (
      some generation,
      upsert_lease (new_lease clock claim.lease_ttl claim.task_id owner generation) db.leases,
    )

unfoldable pub journal_lease : ℕ → Claim → TaskRow → Option String → Option ℕ → Db → Db
unfolding timestamp
journal_lease clock claim task (some owner) (some generation) db =
    append_event
      (lease_event clock claim.lease_ttl claim.task_id owner generation task.project_id claim.actor)
      db
journal_lease clock claim task _ _ db = db

-- The constraints of `worker_runs`: its keys, and its references to a task and a worker.
abbrev pub violates_runs : RunRow → Db → Bool
violates_runs run db =
    exists_where (run_is run.id) db.runs
    || exists_where
        (λ r. r.task_id == run.task_id && r.worker_id == run.worker_id && r.attempt == run.attempt)
        db.runs
    || not (exists_where (task_is run.task_id) db.tasks)
    || not (exists_where (worker_is run.worker_id) db.workers)
    || run.attempt == 0

-- A run row as both `claim_task_dispatch` and `create_worker_run` insert it.
abbrev pub starting_run : String → String → String → ℕ → Option ℕ → Option String → ℕ → ℕ → RunRow
starting_run run_id task_id worker_id attempt timeout_at scope_id revision now = record {
  id = run_id;
  task_id = task_id;
  worker_id = worker_id;
  session_id = none;
  state = RunState.starting;
  process_id = none;
  attempt = attempt;
  started_at = none;
  last_event_at = none;
  timeout_at = timeout_at;
  ended_at = none;
  exit_code = none;
  failure_class = none;
  failure_detail = none;
  raw_output_reference = none;
  verification_scope_id = scope_id;
  task_definition_revision = revision;
  created_at = now;
  updated_at = now;
}

abbrev pub started_event : RunRow → String → String → ℕ → Event
started_event run project_id actor sequence = record {
  sequence = sequence;
  kind = "workerStarted";
  severity = EventSeverity.notice;
  entity_type = "workerRun";
  entity_id = run.id;
  project_id = some project_id;
  task_id = some run.task_id;
  worker_id = some run.worker_id;
  run_id = some run.id;
  payload =
      ("state", Field.run_state RunState.starting) ∷ ("attempt", Field.number run.attempt) ∷ [];
  actor = actor;
  created_at = run.created_at;
}

unfoldable pub insert_run : RunRow → Db → Result Db
insert_run run db =
    if violates_runs run db
    then err integrity_error
    else ok (record db { runs = db.runs ++ (run ∷ []) })

-- The loop that starts a run for each identity; `run_of` makes its row.
unfoldable pub start_runs :
    (String → RunRow) → List WorkerRow → String → String → List String → Db → Result Db
unfolding insert_run
start_runs run_of before project_id actor [] db = ok db
start_runs run_of before project_id actor (w ∷ ws) db = do
  let run = run_of w
  inserted ← insert_run run db
  let noted =
      append_event
        (worker_event w (state_before (first_where (worker_is w) before)) WorkerState.starting
          (some project_id) (some run.task_id) (some run.id) actor run.created_at)
        inserted
  start_runs run_of before project_id actor ws
      (append_event (started_event run project_id actor) noted)
