-- ===== src/Store/System/Reconciling.antt =====
-- The takeover of orphaned provider jobs of src/project_supervisor/store.py over whole executions.
use chips_agent_fabric.Prelude.{
  inl, inr, ℕ, String, ◌≡◌, ◌<◌, arith, sym, ap, ◌∙◌, some, Option-cases, Bool,
}
use chips_agent_fabric.Sql.{first_where}
use chips_agent_fabric.Store.Error.{ok, err, execution_lease_lost}
use chips_agent_fabric.Store.Schema.{Db, lease_is}
use chips_agent_fabric.Store.Dispatch.{Blank, next_generation, new_lease}
use chips_agent_fabric.Store.Lease.{require_task_execution_lease}
use chips_agent_fabric.Store.Jobs.Orphans.{claim_task_reconciliation, reclaimed_db}
use chips_agent_fabric.Store.Jobs.Endings.{claim_task_reconciliation_cases}
use chips_agent_fabric.Store.System.{Reach}
use chips_agent_fabric.Store.System.Leases.{generation_of, generation_at, upsert_lease_same}
use chips_agent_fabric.Store.System.Growth.{Reach-Grows}
use chips_agent_fabric.Store.System.Fencing.{old_generation}

reclaimed-generation_at :
    (blank : Blank) (clock : ℕ) (task_id owner : String) (ttl : ℕ) (allow : Bool) (actor : String)
    (db db' : Db) (new : ℕ)
    → claim_task_reconciliation blank clock task_id owner ttl allow actor db ≡ ok (some new, db')
    → (generation_at task_id db'.leases ≡ new) × (generation_at task_id db.leases < new)
unfolding reclaimed_db
reclaimed-generation_at blank clock task_id owner ttl allow actor db db' new h =
    let (task, _, outcome) =
      claim_task_reconciliation_cases blank clock task_id owner ttl allow actor db h in
    let found = first_where (lease_is task_id) db.leases in
    elim outcome [
      | inl (e, _) ↦ cc
      | inr (_, _, e, done) ↦
          let lease = new_lease clock ttl task_id owner (next_generation found) in
          let fresh : generation_at task_id db'.leases ≡ next_generation found =
            ap (λ (d : Db). generation_at task_id d.leases) done
            ∙ ap generation_of (upsert_lease_same lease db.leases) in
          let is_new : ◌≡◌ {A = ℕ} new (next_generation found) = cc in
          (
            fresh ∙ sym is_new,
            elim (Option-cases found) [
              | inl n ↦ omega (arith, ap next_generation n, ap generation_of n, is_new)
              | inr (l, n) ↦ omega (arith, ap next_generation n, ap generation_of n, is_new)
            ],
          )
    ]

-- After a process has taken over the orphaned job of a task, the token with any older generation is
-- refused as lost, at any time, for any owner, in every database that an execution reaches from there.
pub claim_task_reconciliation-fences :
    (blank : Blank) (clock : ℕ) (task_id owner : String) (ttl : ℕ) (allow : Bool) (actor : String)
    (db mid db' : Db) (new old clock' : ℕ) (other : String)
    → claim_task_reconciliation blank clock task_id owner ttl allow actor db ≡ ok (some new, mid)
    → Reach mid db'
    → old < new
    → require_task_execution_lease clock' db' task_id other old ≡ err execution_lease_lost
claim_task_reconciliation-fences blank clock task_id owner ttl allow actor db mid db' new old clock'
      other h path below =
    let (here, _) =
      reclaimed-generation_at blank clock task_id owner ttl allow actor db mid new h in
    old_generation clock' db' task_id other old (omega (arith, here, Reach-Grows path task_id))
