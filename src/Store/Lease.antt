-- ===== src/Store/Lease.antt =====
-- Execution leases of src/project_supervisor/store.py: the check that fences stale runtimes, renewal
-- and release.
pub mod Renewal
use chips_agent_fabric.Prelude.{
  nat_eq, string_eq, ℕ, ◌+◌, Bool, true, false, not, ◌||◌, ◌&&◌, Option, none, some, [], ◌∷◌,
  String, ◌==◌, ltb, leb, if◌then◌else◌,
}
use chips_agent_fabric.Domain.{EventSeverity}
use chips_agent_fabric.Sql.{first_where, update_where, count_where}
use chips_agent_fabric.Store.Error.{
  Result, ok, err, value_error, execution_lease_lost, ◌>>◌, refuse,
}
use chips_agent_fabric.Store.Schema.{
  Db, TaskRow, LeaseRow, LeaseState, is_active_lease, Field, timestamp, append_event, task_is,
  lease_is,
}

-- The row proves that `owner_id` holds `generation` and has not expired.
abbrev pub is_current : Option LeaseRow → String → ℕ → ℕ → Bool
is_current none owner_id generation now = false
is_current (some lease) owner_id generation now = not (
    not (lease.owner_id == owner_id)
    || not (lease.generation == generation)
    || not (is_active_lease lease.state)
    || leb lease.expires_at now)

-- `_require_task_execution_lease`
unfoldable pub require_task_execution_lease : ℕ → Db → String → String → ℕ → Result (Unit {0})
unfolding timestamp
require_task_execution_lease clock db task_id owner_id generation =
    refuse
      (not (
        is_current (first_where (lease_is task_id) db.leases) owner_id generation
          (timestamp clock)))
      execution_lease_lost

-- `task_execution_lease_is_current`
unfoldable pub task_execution_lease_is_current : ℕ → Db → String → String → ℕ → Bool
unfolding require_task_execution_lease
task_execution_lease_is_current clock db task_id owner_id generation =
    elim (require_task_execution_lease clock db task_id owner_id generation) [
      | ok _ ↦ true
      | err _ ↦ false
    ]

-- The optional pair `lease_owner_id`, `lease_generation` that a fenced operation takes.
unfoldable pub require_optional_lease :
    ℕ → Db → String → Option String → Option ℕ → Result (Unit {0})
unfolding require_task_execution_lease
require_optional_lease clock db task_id none none = ok tt
require_optional_lease clock db task_id (some owner_id) (some generation) =
    require_task_execution_lease clock db task_id owner_id generation
require_optional_lease clock db task_id _ _ = err value_error

-- `WHERE task_id=? AND owner_id=? AND generation=? AND state='active' AND expires_at>?`
abbrev pub renewable : ℕ → String → String → ℕ → LeaseRow → Bool
renewable now task_id owner_id generation r =
    r.task_id == task_id
    && r.owner_id == owner_id
    && r.generation == generation
    && is_active_lease r.state
    && ltb now r.expires_at

abbrev pub renewed : ℕ → ℕ → LeaseRow → LeaseRow
renewed now expires_at r = record r { heartbeat_at = now; expires_at = expires_at }

-- `heartbeat_task_execution_lease`; `ttl` counts microseconds, as `clock` does.
unfoldable pub heartbeat_task_execution_lease :
    ℕ → String → String → ℕ → ℕ → Db → Result (Bool × Db)
unfolding timestamp
heartbeat_task_execution_lease clock task_id owner_id generation ttl db = do
  refuse (ltb ttl 1000000) value_error
  let now = timestamp clock
  let held = renewable now task_id owner_id generation
  ok (
    count_where held db.leases == 1,
    record db { leases = update_where held (renewed now (timestamp (clock + ttl))) db.leases },
  )

-- The row after its release.
abbrev pub released : ℕ → LeaseRow → LeaseRow
released now r = record r {
  state = LeaseState.released;
  released_at = some now;
  heartbeat_at = now;
}

abbrev journal_release : ℕ → String → String → ℕ → String → Option TaskRow → Db → Db
journal_release now task_id owner_id generation actor none db = db
journal_release now task_id owner_id generation actor (some task) db =
    append_event
      (λ sequence. record {
        sequence = sequence;
        kind = "taskExecutionLeaseReleased";
        severity = EventSeverity.info;
        entity_type = "task";
        entity_id = task_id;
        project_id = some task.project_id;
        task_id = some task_id;
        worker_id = none;
        run_id = none;
        payload = ("ownerID", Field.text owner_id) ∷ ("generation", Field.number generation) ∷ [];
        actor = actor;
        created_at = now;
      })
      db

abbrev pub is_held : Option LeaseRow → String → ℕ → Bool
is_held none owner_id generation = false
is_held (some lease) owner_id generation = not (
    not (lease.owner_id == owner_id)
    || not (lease.generation == generation)
    || not (is_active_lease lease.state))

-- `release_task_execution_lease`
unfoldable pub release_task_execution_lease : ℕ → String → String → ℕ → String → Db → Bool × Db
unfolding timestamp
release_task_execution_lease clock task_id owner_id generation actor db =
    if is_held (first_where (lease_is task_id) db.leases) owner_id generation
    then (let now = timestamp clock in
        let freed = record db {
          leases = update_where (lease_is task_id) (released now) db.leases;
        } in
        (
          true,
          journal_release now task_id owner_id generation actor
              (first_where (task_is task_id) db.tasks) freed,
        ))
    else (false, db)
