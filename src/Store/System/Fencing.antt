-- ===== src/Store/System/Fencing.antt =====
-- Fencing of stale runtimes by the lease of a task in src/project_supervisor/store.py.
use chips_agent_fabric.Prelude.{none, some}
use chips_agent_fabric.Sql.{first_where}
use chips_agent_fabric.Domain.{RunState, TaskState}
use chips_agent_fabric.Store.Runs.{RunDetails, transition_worker_run}
use chips_agent_fabric.Store.Claim.{claim_task_dispatch}
use chips_agent_fabric.Store.Tasks.{transition_task}
use chips_agent_fabric.Store.Error.{ok, execution_lease_lost, err}
use chips_agent_fabric.Store.Scopes.{Digests}
use chips_agent_fabric.Store.Lease.{
  require_optional_lease, require_task_execution_lease, task_execution_lease_is_current,
}
use chips_agent_fabric.Store.Dispatch.{Granted, Claim, acquire_lease, Blank}
use chips_agent_fabric.Store.System.{
  TaskState, transition_worker_run, claim_task_dispatch, transition_task, Digests, Blank, Reach,
}
use chips_agent_fabric.Store.System.Leases.{generation_at, acquire_lease-generation_at}
use chips_agent_fabric.Store.System.Generations.{claim_task_dispatch-leases}
use chips_agent_fabric.Store.System.Growth.{Reach-Grows}
use chips_agent_fabric.Store.Schema.{run_is, task_is, RunRow, TaskRow, Field, Db, lease_is}
use chips_agent_fabric.Prelude.{
  refl, sym, ◌∙◌, inr, inl, ap, Option-cases, ◌+◌, some, Option, false, ◌<◌, ℕ, String, ◌≡◌, arith,
  List,
}

owned_token :
    (clock : ℕ) (claim : Claim) (db db' : Db) (new : ℕ) (owner : Option String)
    → db'.leases ≡ (acquire_lease clock claim owner db).1
    → (acquire_lease clock claim owner db).0 ≡ some new
    → (generation_at claim.task_id db'.leases ≡ new)
      × (generation_at claim.task_id db.leases + 1 ≡ new)
unfolding acquire_lease
owned_token clock claim db db' new none same e = absurd (ground arith)
owned_token clock claim db db' new (some o) same e =
    let (next, token) = acquire_lease-generation_at clock claim o db in
    let below : generation_at claim.task_id db.leases + 1 ≡ new = ground (arith, token) in
    (ap (generation_at claim.task_id) same ∙ next ∙ below, below)

-- The token of a granted claim is the new generation of its task, one above the one before.
granted-generation_at :
    (new_run_id : String → String) (blank : Blank) (digests : Digests) (clock : ℕ) (claim : Claim)
    (db : Db) {g : Granted} {db' : Db} {new : ℕ}
    → claim_task_dispatch new_run_id blank digests clock claim db ≡ ok (some g, db')
    → g.lease_generation ≡ some new
    → (generation_at claim.task_id db'.leases ≡ new)
      × (generation_at claim.task_id db.leases + 1 ≡ new)
granted-generation_at new_run_id blank digests clock claim db {g} {db'} {new} h token =
    elim (claim_task_dispatch-leases new_run_id blank digests clock claim db h) [
      | inl (e, _) ↦ absurd (ground arith)
      | inr (leases, generation) ↦
          owned_token clock claim db db' new claim.lease_owner_id leases
            (sym (generation g refl) ∙ token)
    ]

-- A generation below the one of the task is not current.
pub old_generation :
    (clock : ℕ) (db : Db) (task_id owner : String) (old : ℕ)
    → old < generation_at task_id db.leases
    → require_task_execution_lease clock db task_id owner old ≡ err execution_lease_lost
unfolding require_task_execution_lease
old_generation clock db task_id owner old below =
    elim (Option-cases (first_where (lease_is task_id) db.leases)) [
      | inl e ↦ rw e refl
      | inr (l, e) ↦ ground arith
    ]

not_current :
    (clock : ℕ) (db : Db) (task_id owner : String) (generation : ℕ)
    → task_execution_lease_is_current clock db task_id owner generation ≡ false
    → require_task_execution_lease clock db task_id owner generation ≡ err execution_lease_lost
unfolding task_execution_lease_is_current require_task_execution_lease
not_current clock db task_id owner generation lost = ground arith

-- After a claim has granted a generation of the lease of its task, the token with any older
-- generation is refused as lost, at any time, for any owner, in every database that an execution
-- reaches from there.
pub claim_task_dispatch-fences :
    (new_run_id : String → String) (blank : Blank) (digests : Digests) (clock : ℕ) (claim : Claim)
    (db mid db' : Db) (g : Granted) (new old clock' : ℕ) (owner : String)
    → claim_task_dispatch new_run_id blank digests clock claim db ≡ ok (some g, mid)
    → g.lease_generation ≡ some new
    → Reach mid db'
    → old < new
    → require_task_execution_lease clock' db' claim.task_id owner old ≡ err execution_lease_lost
claim_task_dispatch-fences new_run_id blank digests clock claim db mid db' g new old clock' owner h
      token path below =
    let (here, _) = granted-generation_at new_run_id blank digests clock claim db h token in
    old_generation clock' db' claim.task_id owner old
      (omega (arith, here, Reach-Grows path claim.task_id))

-- Of two granted claims of one task in an execution, the later one has the greater generation.
pub claim_task_dispatch-increases :
    (new_run_id new_run_id' : String → String) (blank : Blank) (digests : Digests)
    (clock clock' : ℕ) (claim claim' : Claim) (db mid db' last : Db) (g g' : Granted) (old new : ℕ)
    → claim_task_dispatch new_run_id blank digests clock claim db ≡ ok (some g, mid)
    → g.lease_generation ≡ some old
    → Reach mid db'
    → claim_task_dispatch new_run_id' blank digests clock' claim' db' ≡ ok (some g', last)
    → g'.lease_generation ≡ some new
    → claim'.task_id ≡ claim.task_id
    → old < new
claim_task_dispatch-increases new_run_id new_run_id' blank digests clock clock' claim claim' db mid
      db' last g g' old new h token path h' token' same =
    let (here, _) = granted-generation_at new_run_id blank digests clock claim db h token in
    let (_, above) = granted-generation_at new_run_id' blank digests clock' claim' db' h' token' in
    omega (
      arith,
      here,
      above,
      Reach-Grows path claim.task_id,
      ap (λ k. generation_at k db'.leases) same,
    )

-- With a token that is not current, `transition_task` and `transition_worker_run` refuse as lost:
-- neither moves the task or a run of it, whatever the target.
pub stale_token-refused :
    (redact : String → String) (clock : ℕ) (task_id run_id owner actor : String) (generation : ℕ)
    (target : TaskState) (target' : RunState) (details : RunDetails) (extra : List (String × Field))
    (expected : Option ℕ) (task : TaskRow) (run : RunRow) (db : Db)
    → task_execution_lease_is_current clock db task_id owner generation ≡ false
    → first_where (task_is task_id) db.tasks ≡ some task
    → first_where (run_is run_id) db.runs ≡ some run
    → run.task_id ≡ task_id
    → (transition_task clock task_id target actor extra expected (some owner) (some generation) db
        ≡ err execution_lease_lost)
      × (transition_worker_run redact clock run_id target' details extra
            (some owner)
            (some generation)
            db
          ≡ err execution_lease_lost)
unfolding task_execution_lease_is_current require_optional_lease transition_task
    transition_worker_run
stale_token-refused redact clock task_id run_id owner actor generation target target' details extra
      expected task run db lost found found' of_task =
    let refused = not_current clock db task_id owner generation lost in
    (rw found (rw refused refl), rw found' (rw of_task (rw refused refl)))
