-- ===== src/Store/Lease/Renewal.antt =====
-- Renewal and release of leases in src/project_supervisor/store.py.
use chips_agent_fabric.Sql.Rows.{first_where_holds}
use chips_agent_fabric.Sql.Rewrite.{first_where-update_where}
use chips_agent_fabric.Store.Error.{ok}
use chips_agent_fabric.Store.Lease.{
  task_is, released, is_current, renewed, timestamp, ok, require_task_execution_lease,
  task_execution_lease_is_current, renewable, heartbeat_task_execution_lease,
  release_task_execution_lease,
}
use chips_agent_fabric.Sql.{update_where, first_where, count_where}
use chips_agent_fabric.Prelude.{
  ◌∙◌, ap, string_eq, inr, inl, Option-cases, Bool-cases, ◌==◌, ◌+◌, nat_eq, ◌<◌, refl, ◌∷◌, false,
  [], some, ℕ, String, ◌≡◌, arith, ◌≤◌, true, List,
}
use chips_agent_fabric.Store.Schema.{task_is, timestamp, Db, LeaseRow, lease_is}

none_renewable :
    (now : ℕ) (task_id owner : String) (generation : ℕ) (leases : List LeaseRow)
    → count_where (lease_is task_id) leases ≡ 0
    → count_where (renewable now task_id owner generation) leases ≡ 0
unfolding count_where
none_renewable now task_id owner generation [] keys = refl
none_renewable now task_id owner generation (l ∷ ls) keys =
    ground (arith, none_renewable now task_id owner generation ls)

-- Where the row of a task is unique, its fetched row alone decides how many rows a renewal finds.
count_renewable :
    (now : ℕ) (task_id owner : String) (generation : ℕ) (leases : List LeaseRow)
    → count_where (lease_is task_id) leases ≤ 1
    → (count_where (renewable now task_id owner generation) leases == 1)
      ≡ is_current (first_where (lease_is task_id) leases) owner generation now
unfolding count_where first_where
count_renewable now task_id owner generation [] keys = refl
count_renewable now task_id owner generation (l ∷ ls) keys =
    elim (Bool-cases (l.task_id == task_id)) [
      | inl y ↦ ground (arith, none_renewable now task_id owner generation ls)
      | inr n ↦ ground (arith, count_renewable now task_id owner generation ls)
    ]

-- Where the task has one lease row at most and the time asked for is a second or more, a renewal
-- succeeds exactly with the current token: it answers what `task_execution_lease_is_current` says,
-- and an expired, released or superseded lease is not revived.
pub heartbeat_task_execution_lease_iff_current :
    (clock : ℕ) (task_id owner : String) (generation ttl : ℕ) (db : Db)
    → count_where (lease_is task_id) db.leases ≤ 1
    → 1000000 ≤ ttl
    → heartbeat_task_execution_lease clock task_id owner generation ttl db
      ≡ ok (
        task_execution_lease_is_current clock db task_id owner generation,
        record db {
          leases =
              update_where
                (renewable (timestamp clock) task_id owner generation)
                (renewed (timestamp clock) (timestamp (clock + ttl)))
                db.leases;
        },
      )
unfolding heartbeat_task_execution_lease task_execution_lease_is_current
    require_task_execution_lease
heartbeat_task_execution_lease_iff_current clock task_id owner generation ttl db keys enough =
    ground (arith, count_renewable (timestamp clock) task_id owner generation db.leases keys)

pub is_current_lem :
    (clock : ℕ) (db : Db) (task_id owner : String) (generation : ℕ)
    → task_execution_lease_is_current clock db task_id owner generation
      ≡ is_current (first_where (lease_is task_id) db.leases) owner generation (timestamp clock)
unfolding task_execution_lease_is_current require_task_execution_lease
is_current_lem clock db task_id owner generation = ground arith

-- Where the task has one lease row at most, a token whose renewal answered true is current until the
-- new expiry.
pub heartbeat_task_execution_lease-current :
    (clock clock' : ℕ) (task_id owner : String) (generation ttl : ℕ) (db : Db) {db' : Db}
    → count_where (lease_is task_id) db.leases ≤ 1
    → heartbeat_task_execution_lease clock task_id owner generation ttl db ≡ ok (true, db')
    → timestamp clock' < timestamp (clock + ttl)
    → task_execution_lease_is_current clock' db' task_id owner generation ≡ true
unfolding heartbeat_task_execution_lease task_execution_lease_is_current
    require_task_execution_lease
heartbeat_task_execution_lease-current clock clock' task_id owner generation ttl db {db'} keys h
      soon =
    let held = renewable (timestamp clock) task_id owner generation in
    let renew = renewed (timestamp clock) (timestamp (clock + ttl)) in
    let count = count_renewable (timestamp clock) task_id owner generation db.leases keys in
    let moved = first_where-update_where held renew (lease_is task_id) db.leases (λ r. refl) in
    let leases : db'.leases ≡ update_where held renew db.leases = ground arith in
    elim (Option-cases (first_where (lease_is task_id) db.leases)) [
      | inl e ↦ absurd (ground arith)
      | inr (l, e) ↦
          let key = first_where_holds (lease_is task_id) db.leases l e in
          let shown : first_where (lease_is task_id) db'.leases ≡ some (renew l) =
            ap (first_where (lease_is task_id)) leases ∙ moved ∙ rw e (ground arith) in
          is_current_lem clock' db' task_id owner generation
          ∙ ap (λ r. is_current r owner generation (timestamp clock')) shown
          ∙ ground arith
    ]

-- After a release the token is not current for anyone, at any time.
pub release_task_execution_lease-lost :
    (clock clock' : ℕ) (task_id owner actor other : String) (generation generation' : ℕ) (db : Db)
    {db' : Db}
    → release_task_execution_lease clock task_id owner generation actor db ≡ (true, db')
    → task_execution_lease_is_current clock' db' task_id other generation' ≡ false
unfolding release_task_execution_lease task_execution_lease_is_current require_task_execution_lease
release_task_execution_lease-lost clock clock' task_id owner actor other generation generation' db
      {db'} h =
    let free = released (timestamp clock) in
    let moved =
      first_where-update_where (lease_is task_id) free (lease_is task_id) db.leases (λ r. refl) in
    elim (Option-cases (first_where (lease_is task_id) db.leases)) [
      | inl e ↦ absurd (ground arith)
      | inr (l, e) ↦
          let key = first_where_holds (lease_is task_id) db.leases l e in
          let leases : db'.leases ≡ update_where (lease_is task_id) free db.leases =
            elim (Option-cases (first_where (task_is task_id) db.tasks)) [
              | inl e' ↦ ground arith
              | inr (t, e') ↦ ground arith
            ] in
          let shown : first_where (lease_is task_id) db'.leases ≡ some (free l) =
            ap (first_where (lease_is task_id)) leases ∙ moved ∙ rw e (rw key refl) in
          is_current_lem clock' db' task_id other generation'
          ∙ ap (λ r. is_current r other generation' (timestamp clock')) shown
          ∙ ground arith
    ]
