-- ===== src/Store/Claim/Cases.antt =====
-- The outcomes of `claim_task_dispatch` of src/project_supervisor/store.py, taken apart.
use chips_agent_fabric.Store.Scopes.{dispatch_snapshot, Digests}
use chips_agent_fabric.Prelude.{
  false, nat_eq, Option-cases, ◌⊎◌, ◌≢◌, ℕ, ◌+◌, ◌≡◌, refl, List, String, ◌==◌, arith, inl, inr,
  Bool-cases, Option, none, some,
}
use chips_agent_fabric.Sql.{first_where, count_where, update_where}
use chips_agent_fabric.Store.Error.{Result-cases, ok}
use chips_agent_fabric.Store.Schema.{task_is, Db, TaskRow, timestamp}
use chips_agent_fabric.Store.Workers.{distinct, reserve}
use chips_agent_fabric.Store.Dispatch.{Blank, Claim, Granted, acquire_lease, start_runs}
use chips_agent_fabric.Store.Claim.{
  distinct, is_blocked, dispatch_snapshot, is_stale, task_is, claim_task_dispatch, Digests, Blank,
  claimable, claimed, run_of, granted, leased_db, claimed_db, commit_claim,
}

module _ (clock : ℕ) (claim : Claim) (ids : List String) (task : TaskRow) (db : Db) where
  -- What stands in the tables when the loop over the workers begins.
  pub claimed_db_tables :
      ((claimed_db clock claim ids task db).runs ≡ db.runs)
      × ((claimed_db clock claim ids task db).workers ≡ reserve (timestamp clock) ids db.workers)
      × ((claimed_db clock claim ids task db).tasks
          ≡ update_where
              (claimable claim)
              (claimed (timestamp clock) (task.attempt_count + 1))
              db.tasks)
      × ((claimed_db clock claim ids task db).leases ≡ (leased_db clock claim db).leases)
  unfolding claimed_db
  claimed_db_tables = elim (Option-cases claim.lease_owner_id) [
    | inl e ↦ rw e (refl, refl, refl, refl)
    | inr (o, e) ↦ rw e (refl, refl, refl, refl)
  ]

module _ (new_run_id : String → String) (clock : ℕ) (claim : Claim) (ids : List String)
    (task : TaskRow) (snapshot : Option String × ℕ) (db : Db) where
  pub commit_claim_cases :
      {r : Option Granted} {db' : Db}
      → commit_claim new_run_id clock claim ids task snapshot db ≡ ok (r, db')
      → ((r ≡ none)
          × (db' ≡ leased_db clock claim db)
          × (count_where (claimable claim) db.tasks ≢ 1))
        ⊎ ((count_where (claimable claim) db.tasks ≡ 1)
            × (start_runs
                  (run_of new_run_id (timestamp clock) claim (task.attempt_count + 1) snapshot)
                  db.workers
                  task.project_id
                  claim.actor
                  ids
                  (claimed_db clock claim ids task db)
                ≡ ok db')
            × (r
                ≡ some (
                    granted new_run_id claim ids
                      (task.attempt_count + 1)
                      (acquire_lease clock claim claim.lease_owner_id db).0
                      snapshot)))
  unfolding commit_claim
  commit_claim_cases {r} {db'} h = elim (Bool-cases (count_where (claimable claim) db.tasks == 1)) [
    | inl one ↦ inr (ground arith, ground arith, ground arith)
    | inr other ↦ inl (ground arith, ground arith, ground arith)
  ]

module _ (new_run_id : String → String) (blank : Blank) (digests : Digests) (clock : ℕ)
    (claim : Claim) (db : Db) where
  -- A claim that returns refused before it wrote anything, or went on to its writes.
  pub claim_task_dispatch_cases :
      {r : Option Granted} {db' : Db}
      → claim_task_dispatch new_run_id blank digests clock claim db ≡ ok (r, db')
      → ((r ≡ none) × (db' ≡ db))
        ⊎ ((task : TaskRow) × (snapshot : Option String × ℕ) × (first_where
                (task_is claim.task_id)
                db.tasks
              ≡ some task)
            × (is_stale claim task ≡ false)
            × (dispatch_snapshot digests db task ≡ ok snapshot)
            × (is_blocked claim (distinct claim.worker_ids) db ≡ false)
            × (commit_claim new_run_id clock claim (distinct claim.worker_ids) task snapshot db
                ≡ ok (r, db')))
  unfolding claim_task_dispatch
  claim_task_dispatch_cases {r} {db'} h =
      elim (Option-cases (first_where (task_is claim.task_id) db.tasks)) [
        | inl e ↦ absurd (ground arith)
        | inr (task, e) ↦ elim (Bool-cases (is_stale claim task)) [
          | inl s ↦ inl (ground arith, ground arith)
          | inr f ↦ elim (Result-cases (dispatch_snapshot digests db task)) [
            | inr (_, e') ↦ absurd (ground arith)
            | inl (snapshot, e') ↦
                elim (Bool-cases (is_blocked claim (distinct claim.worker_ids) db)) [
                  | inl b ↦ inl (ground arith, ground arith)
                  | inr n ↦ inr (task, snapshot, e, f, e', n, ground arith)
                ]
          ]
        ]
      ]
