-- ===== src/Store/System/Leases.antt =====
-- The generation of the lease of a task in src/project_supervisor/store.py, over whole executions.
use chips_agent_fabric.Store.Dispatch.{
  next_generation, new_lease, Claim, acquire_lease, upsert_lease,
}
use chips_agent_fabric.Sql.{update_where, exists_where, first_where}
use chips_agent_fabric.Store.Schema.{Db, LeaseRow, lease_is}
use chips_agent_fabric.Prelude.{
  subst, Option-cases, ◌+◌, ap, eq_refl, ◌∙◌, ◌==◌, inr, refl, string_eq, none, eq→path, inl, [],
  ◌∷◌, ◌++◌, Bool-cases, if◌then◌else◌, some, false, Option, ℕ, String, ◌≡◌, arith, ◌≤◌, Bool, true,
  List,
}

-- The generation of the last lease of the task; 0 where there was none.
abbrev pub generation_of : Option LeaseRow → ℕ
generation_of none = 0
generation_of (some lease) = lease.generation

abbrev pub generation_at : String → List LeaseRow → ℕ
generation_at k leases = generation_of (first_where (lease_is k) leases)

-- A statement that keeps the keys and the generations keeps the generation of a task.
pub update-generation_at :
    (p : LeaseRow → Bool) (f : LeaseRow → LeaseRow) (leases : List LeaseRow) (k : String)
    → ((l : LeaseRow) → ((f l).task_id ≡ l.task_id) × ((f l).generation ≡ l.generation))
    → generation_at k (update_where p f leases) ≡ generation_at k leases
unfolding first_where update_where
update-generation_at p f [] k keep = refl
update-generation_at p f (l ∷ ls) k keep =
    ground (arith, keep l, update-generation_at p f ls k keep)

first_where-append_new :
    (p : LeaseRow → Bool) (leases : List LeaseRow) (l : LeaseRow)
    → exists_where p leases ≡ false
    → first_where p (leases ++ (l ∷ [])) ≡ (if p l then some l else none)
unfolding first_where exists_where
first_where-append_new p [] l h = refl
first_where-append_new p (x ∷ xs) l h = ground (arith, first_where-append_new p xs l)

first_where-append_other :
    (p : LeaseRow → Bool) (leases : List LeaseRow) (l : LeaseRow)
    → p l ≡ false
    → first_where p (leases ++ (l ∷ [])) ≡ first_where p leases
unfolding first_where
first_where-append_other p [] l h = ground arith
first_where-append_other p (x ∷ xs) l h = ground (arith, first_where-append_other p xs l)

replaced_same :
    (lease : LeaseRow) (leases : List LeaseRow)
    → exists_where (lease_is lease.task_id) leases ≡ true
    → first_where
        (lease_is lease.task_id)
        (update_where (lease_is lease.task_id) (λ _. lease) leases)
      ≡ some lease
unfolding first_where update_where exists_where
replaced_same lease [] h = cc
replaced_same lease (l ∷ ls) h = elim (Bool-cases (l.task_id == lease.task_id)) [
  | inl y ↦ rw y (rw (eq_refl lease.task_id) refl)
  | inr n ↦ rw n (rw n (replaced_same lease ls (rw n at h)))
]

replaced_other :
    (lease : LeaseRow) (leases : List LeaseRow) (k : String)
    → lease_is k lease ≡ false
    → first_where (lease_is k) (update_where (lease_is lease.task_id) (λ _. lease) leases)
      ≡ first_where (lease_is k) leases
unfolding first_where update_where
replaced_other lease [] k h = refl
replaced_other lease (l ∷ ls) k h = elim (Bool-cases (l.task_id == lease.task_id)) [
  | inl y ↦
      let other : (l.task_id == k) ≡ false = ground (arith, eq→path l.task_id lease.task_id) in
      rw y (rw h (rw other (replaced_other lease ls k h)))
  | inr n ↦ rw n (ap (λ r. if lease_is k l then some l else r) (replaced_other lease ls k h))
]

-- The lease that was written is the lease of its task, and those of other tasks stay.
pub upsert_lease_same :
    (lease : LeaseRow) (leases : List LeaseRow)
    → first_where (lease_is lease.task_id) (upsert_lease lease leases) ≡ some lease
unfolding upsert_lease
upsert_lease_same lease leases = elim (Bool-cases (exists_where (lease_is lease.task_id) leases)) [
  | inl y ↦ rw y (replaced_same lease leases y)
  | inr n ↦ rw n (
      first_where-append_new (lease_is lease.task_id) leases lease n
      ∙ rw (eq_refl lease.task_id) refl)
]

pub upsert_lease_other :
    (lease : LeaseRow) (leases : List LeaseRow) (k : String)
    → lease_is k lease ≡ false
    → first_where (lease_is k) (upsert_lease lease leases) ≡ first_where (lease_is k) leases
unfolding upsert_lease
upsert_lease_other lease leases k h =
    elim (Bool-cases (exists_where (lease_is lease.task_id) leases)) [
      | inl y ↦ rw y (replaced_other lease leases k h)
      | inr n ↦ rw n (first_where-append_other (lease_is k) leases lease h)
    ]

-- A claim with a lease takes the next generation of its task.
pub acquire_lease-generation_at :
    (clock : ℕ) (claim : Claim) (owner : String) (db : Db)
    → (generation_at claim.task_id (acquire_lease clock claim (some owner) db).1
        ≡ generation_at claim.task_id db.leases + 1)
      × ((acquire_lease clock claim (some owner) db).0
          ≡ some (generation_at claim.task_id db.leases + 1))
unfolding acquire_lease
acquire_lease-generation_at clock claim owner db =
    let found = first_where (lease_is claim.task_id) db.leases in
    let lease = new_lease clock claim.lease_ttl claim.task_id owner (next_generation found) in
    let next : next_generation found ≡ generation_of found + 1 = elim (Option-cases found) [
      | inl e ↦ rw e refl
      | inr (l, e) ↦ rw e refl
    ] in
    (ap generation_of (upsert_lease_same lease db.leases) ∙ next, ap some next)

pub acquire_lease-grows :
    (clock : ℕ) (claim : Claim) (owner : Option String) (db : Db) (k : String)
    → generation_at k db.leases ≤ generation_at k (acquire_lease clock claim owner db).1
unfolding acquire_lease
acquire_lease-grows clock claim none db k = omega arith
acquire_lease-grows clock claim (some owner) db k = elim (Bool-cases (claim.task_id == k)) [
  | inl y ↦
      subst
        (λ j.
          generation_at j db.leases ≤ generation_at j (acquire_lease clock claim (some owner) db).1)
        (eq→path claim.task_id k y)
        (let (next, _) = acquire_lease-generation_at clock claim owner db in omega (arith, next))
  | inr n ↦
      let same = ap generation_of (
        upsert_lease_other
          (new_lease clock claim.lease_ttl claim.task_id owner
            (next_generation (first_where (lease_is claim.task_id) db.leases)))
          db.leases k n) in
      omega (arith, same)
]
