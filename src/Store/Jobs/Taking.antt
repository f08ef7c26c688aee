-- ===== src/Store/Jobs/Taking.antt =====
-- When `claim_task_reconciliation` of src/project_supervisor/store.py grants a takeover.
use chips_agent_fabric.Prelude.{
  sym, eq_refl, ◌∙◌, ◌+◌, ◌<◌, ℕ, String, Option, ◌≡◌, arith, true, false, refl, some, none, Bool,
  string_eq, nat_eq, ltb,
}
use chips_agent_fabric.Sql.{first_where}
use chips_agent_fabric.Store.Error.{ok}
use chips_agent_fabric.Store.Schema.{timestamp, lease_is, Db, TaskRow, task_is, LeaseRow}
use chips_agent_fabric.Store.Lease.{task_execution_lease_is_current, is_current}
use chips_agent_fabric.Store.Dispatch.{Blank, next_generation}
use chips_agent_fabric.Store.Jobs.Orphans.{
  is_reconcilable, claim_task_reconciliation, reclaimed_db, is_live,
}
use chips_agent_fabric.Store.Jobs.Fencing.{current-held, claim_task_reconciliation-orphaned}

dead_while_lost :
    (lease : Option LeaseRow) (now : ℕ)
    → ((owner : String) (generation : ℕ) → is_current lease owner generation now ≡ false)
    → is_live lease now ≡ false
dead_while_lost none now lost = refl
dead_while_lost (some l) now lost =
    let gone = lost l.owner_id l.generation in
    ground (arith, gone, eq_refl l.owner_id, eq_refl l.generation)

later : (clock ttl : ℕ) → ltb ttl 1000000 ≡ false → timestamp clock < timestamp (clock + ttl)
unfolding timestamp
later clock ttl h = ground arith

granted_claim :
    (blank : Blank) (clock : ℕ) (task_id owner : String) (ttl : ℕ) (allow : Bool) (actor : String)
    (db : Db) (task : TaskRow)
    → blank owner ≡ false
    → ltb ttl 1000000 ≡ false
    → first_where (task_is task_id) db.tasks ≡ some task
    → is_reconcilable allow task.state ≡ true
    → is_live (first_where (lease_is task_id) db.leases) (timestamp clock) ≡ false
    → claim_task_reconciliation blank clock task_id owner ttl allow actor db
      ≡ ok (
        some (next_generation (first_where (lease_is task_id) db.leases)),
        reclaimed_db clock ttl task_id task owner
            (next_generation (first_where (lease_is task_id) db.leases))
            actor
            db,
      )
unfolding claim_task_reconciliation
granted_claim blank clock task_id owner ttl allow actor db task named long found fits dead =
    rw named (rw long (rw found (rw fits (rw dead refl))))

-- A task that may be reconciled and of which nobody holds a current token can be taken over at once:
-- whoever asks with a name that is not blank and for a second or longer is granted a generation, and
-- its token is current in the new database.
pub claim_task_reconciliation-taken :
    (blank : Blank) (clock : ℕ) (task_id owner : String) (ttl : ℕ) (allow : Bool) (actor : String)
    (db : Db) (task : TaskRow)
    → blank owner ≡ false
    → ltb ttl 1000000 ≡ false
    → first_where (task_is task_id) db.tasks ≡ some task
    → is_reconcilable allow task.state ≡ true
    → ((o : String) (g : ℕ) → task_execution_lease_is_current clock db task_id o g ≡ false)
    → (new : ℕ) × (db' : Db) × (claim_task_reconciliation blank clock task_id owner ttl allow actor
          db
        ≡ ok (some new, db'))
      × (task_execution_lease_is_current clock db' task_id owner new ≡ true)
claim_task_reconciliation-taken blank clock task_id owner ttl allow actor db task named long found
      fits lost =
    let lease = first_where (lease_is task_id) db.leases in
    let dead =
      dead_while_lost lease (timestamp clock)
        (λ o g. sym (current-held clock db task_id o g) ∙ lost o g) in
    let done =
      granted_claim blank clock task_id owner ttl allow actor db task named long found fits dead in
    let (_, _, _, held) =
      claim_task_reconciliation-orphaned blank clock task_id owner ttl allow actor db _ _ done in
    (_, _, done, held clock (later clock ttl long))
