-- ===== src/Store/Workers.antt =====
-- Workers in src/project_supervisor/store.py: `set_worker_state` and `claim_workers`.
use chips_agent_fabric.Prelude.{
  nat_eq, string_eq, ℕ, Bool, true, false, not, ◌&&◌, Option, none, some, List, [], ◌∷◌, String,
  ◌==◌, if◌then◌else◌, contains, length, any, coalesce,
}
use chips_agent_fabric.Domain.{WorkerState_eq, WorkerState, ResourceState, EventSeverity}
use chips_agent_fabric.Sql.{select_where, first_where, count_where, update_where}
use chips_agent_fabric.Store.Error.{
  integrity_error, refuse, Result, ok, err, key_error, value_error, runtime_error, ◌>>=◌, ◌>>◌,
  refuse, fetched,
}
use chips_agent_fabric.Store.Schema.{
  is_unknown, Db, WorkerRow, Event, Field, timestamp, append_event, worker_is,
}
use chips_agent_fabric.Store.Lease.{require_task_execution_lease}

abbrev pub without : String → List String → List String
without k [] = []
without k (x ∷ xs) = if x == k then without k xs else x ∷ without k xs

-- `dict.fromkeys`: the distinct identifiers, in the order in which they first come.
unfoldable pub distinct : List String → List String
distinct [] = []
distinct (x ∷ xs) = x ∷ without x (distinct xs)

abbrev pub or_keep {ℓ} : {A : Type ℓ} → Option A → A → A
or_keep none a = a
or_keep (some b) a = b

abbrev pub worker_event :
    String
    → WorkerState
    → WorkerState
    → Option String
    → Option String
    → Option String
    → String
    → ℕ
    → ℕ
    → Event
worker_event worker_id from to project_id task_id run_id actor now sequence = record {
  sequence = sequence;
  kind = "workerStateChanged";
  severity = EventSeverity.notice;
  entity_type = "worker";
  entity_id = worker_id;
  project_id = project_id;
  task_id = task_id;
  worker_id = some worker_id;
  run_id = run_id;
  payload = ("from", Field.worker_state from) ∷ ("to", Field.worker_state to) ∷ [];
  actor = actor;
  created_at = now;
}

-- The lease that `set_worker_state` asks for: its three parts come together or not at all.
abbrev require_full_lease : ℕ → Db → Option String → Option String → Option ℕ → Result (Unit {0})
require_full_lease clock db none none none = ok tt
require_full_lease clock db (some task_id) (some owner_id) (some generation) =
    require_task_execution_lease clock db task_id owner_id generation
require_full_lease clock db _ _ _ = err value_error

abbrev pub moved_worker :
    ℕ → WorkerState → Option ResourceState → Option String → WorkerRow → WorkerRow
moved_worker now state resource_state model_id r = record r {
  state = state;
  resource_state = or_keep resource_state r.resource_state;
  model_id = coalesce model_id r.model_id;
  last_heartbeat_at = now;
  updated_at = now;
}

unfoldable pub set_worker_state :
    ℕ
    → String
    → WorkerState
    → Option ResourceState
    → Option String
    → Option String
    → Option String
    → Option ℕ
    → String
    → Db
    → Result Db
unfolding timestamp
set_worker_state clock worker_id state resource_state model_id task_id owner_id generation actor
      db =
    do
      worker ← fetched (first_where (worker_is worker_id) db.workers) (key_error worker_id)
      require_full_lease clock db task_id owner_id generation
      refuse (is_unknown db.model_ids model_id) integrity_error
      let now = timestamp clock
      ok (
          append_event (worker_event worker_id worker.state state none none none actor now)
            (record db {
              workers =
                  update_where (worker_is worker_id)
                    (moved_worker now state resource_state model_id) db.workers;
            }))

-- `id IN (...)`
abbrev pub among : List String → WorkerRow → Bool
among identities r = contains identities r.id

abbrev pub is_idle : WorkerRow → Bool
is_idle r = r.state == WorkerState.idle

-- `UPDATE workers SET state='starting' ... WHERE id IN (...) AND state='idle'`
abbrev pub reserved : ℕ → WorkerRow → WorkerRow
reserved now r = record r {
  state = WorkerState.starting;
  last_heartbeat_at = now;
  updated_at = now;
}

unfoldable pub reserve : ℕ → List String → List WorkerRow → List WorkerRow
reserve now identities workers =
    update_where (λ r. among identities r && is_idle r) (reserved now) workers

-- Every identity has its row, and every row is idle.
unfoldable pub all_idle : List String → List WorkerRow → Bool
all_idle identities workers =
    let rows = select_where (among identities) workers in
    length rows == length identities && not (any (λ r. not (is_idle r)) rows)

-- The state of a worker before its reservation, for the journal.
abbrev pub state_before : Option WorkerRow → WorkerState
state_before none = WorkerState.idle
state_before (some r) = r.state

unfoldable pub journal_claims : ℕ → String → List WorkerRow → List String → Db → Db
journal_claims now actor rows [] db = db
journal_claims now actor rows (w ∷ ws) db = journal_claims now actor rows ws (
    append_event
      (worker_event w (state_before (first_where (worker_is w) rows)) WorkerState.starting none none
        none actor now)
      db)

-- `claim_workers`
unfoldable pub claim_workers : ℕ → List String → String → Db → Result (Bool × Db)
claim_workers clock worker_ids actor db =
    let identities = distinct worker_ids in
    let now = timestamp clock in
    if length identities == 0
    then ok (false, db)
    else if not (all_idle identities db.workers)
    then ok (false, db)
    else do
      refuse
          (not (count_where (λ r. among identities r && is_idle r) db.workers == length identities))
          runtime_error
      ok (
        true,
        journal_claims now actor db.workers identities
            (record db { workers = reserve now identities db.workers }),
      )
