-- ===== src/Store/Exclusive/Claiming.antt =====
-- `claim_task_dispatch` and `claim_workers` of src/project_supervisor/store.py, and the workers that
-- runs hold.
use chips_agent_fabric.Store.Claim.Cases.{
  claimed_db_tables, claim_task_dispatch_cases, commit_claim_cases,
}
use chips_agent_fabric.Prelude.{
  ◌∙◌, sym, subst, string_eq, ℕ, ◌+◌, ◌≤◌, ◌≡◌, refl, true, List, String, arith, inl, inr,
  Bool-cases, ap, contains, Option,
}
use chips_agent_fabric.Sql.{exists_where, count_where}
use chips_agent_fabric.Store.Error.{ok}
use chips_agent_fabric.Store.Schema.{timestamp, Db, WorkerRow, RunRow, TaskRow, worker_is}
use chips_agent_fabric.Store.Cancel.{holds}
use chips_agent_fabric.Store.Workers.{distinct, all_idle, reserve}
use chips_agent_fabric.Store.Scopes.{Digests}
use chips_agent_fabric.Store.Dispatch.{Claim, Granted, Blank}
use chips_agent_fabric.Store.Claim.{
  is_blocked, leased_db, commit_claim, claim_task_dispatch, run_of,
}
use chips_agent_fabric.Store.Exclusive.{IsExclusive, IsExclusiveAt}
use chips_agent_fabric.Store.Exclusive.Identities.{
  reserve_exists, occurrences, occurrences-distinct, occurrences-contains, all_idle-exists,
  reserve_named, reserve_idle,
}
use chips_agent_fabric.Store.Exclusive.Starting.{start_runs_counts}

-- A reservation of idle workers with one new active run for each.
reserved-IsExclusiveAt :
    (now : ℕ) (ids : List String) (workers : List WorkerRow) (runs runs' : List RunRow) (k : String)
    → IsExclusiveAt workers runs k
    → all_idle ids workers ≡ true
    → occurrences k ids ≤ 1
    → count_where (holds k) runs' ≡ count_where (holds k) runs + occurrences k ids
    → (contains ids k ≡ true → exists_where (worker_is k) workers ≡ true)
    → IsExclusiveAt (reserve now ids workers) runs' k
reserved-IsExclusiveAt now ids workers runs runs' k (one, free) idle once count row =
    elim (Bool-cases (contains ids k)) [
      | inl y ↦
          let was = free (all_idle-exists ids workers k idle y (row y)) in
          (omega arith, λ h. cc (reserve_named now ids workers k y))
      | inr n ↦
          let none_new = occurrences-contains k ids n in
          (omega arith, λ h. omega (arith, free (reserve_idle now ids workers k h)))
    ]

module _ (new_run_id : String → String) where
  commit_claim-IsExclusive :
      (clock : ℕ) (claim : Claim) (ids : List String) (task : TaskRow)
      (snapshot : Option String × ℕ) (db : Db) {r : Option Granted} {db' : Db}
      → ((k : String) → occurrences k ids ≤ 1)
      → all_idle ids db.workers ≡ true
      → IsExclusive db
      → commit_claim new_run_id clock claim ids task snapshot db ≡ ok (r, db')
      → IsExclusive db'
  commit_claim-IsExclusive clock claim ids task snapshot db {r} {db'} once idle safe h =
      elim (commit_claim_cases new_run_id clock claim ids task snapshot db h) [
        | inl (_, same, _) ↦ rw same (unfold leased_db in record { at = safe.at })
        | inr (_, started, _) ↦
            let (runs, workers, _, _) = claimed_db_tables clock claim ids task db in
            let (kept, count, named) =
              start_runs_counts
                (run_of new_run_id (timestamp clock) claim (task.attempt_count + 1) snapshot)
                (λ w. refl) (λ w. refl) db.workers task.project_id claim.actor ids _ db' started in
            record {
              at = λ k.
                  subst (λ ws. IsExclusiveAt ws db'.runs k) (sym (kept ∙ workers))
                    (reserved-IsExclusiveAt (timestamp clock) ids db.workers db.runs db'.runs k
                      (safe.at k) idle (once k)
                      (ground (arith, count k, ap (count_where (holds k)) runs))
                      (λ c.
                        reserve_exists (timestamp clock) ids db.workers k (
                          subst (λ ws. exists_where (worker_is k) ws ≡ true) workers (named k c))));
            }
      ]

  -- A claim, granted or not, keeps workers exclusive.
  pub claim_task_dispatch-IsExclusive :
      (blank : Blank) (digests : Digests) (clock : ℕ) (claim : Claim) (db : Db) {r : Option Granted}
      {db' : Db}
      → IsExclusive db
      → claim_task_dispatch new_run_id blank digests clock claim db ≡ ok (r, db')
      → IsExclusive db'
  claim_task_dispatch-IsExclusive blank digests clock claim db safe h =
      elim (claim_task_dispatch_cases new_run_id blank digests clock claim db h) [
        | inl (_, same) ↦ rw same safe
        | inr (task, snapshot, _, _, _, free, done) ↦
            commit_claim-IsExclusive clock claim (distinct claim.worker_ids) task snapshot db
              (λ k. occurrences-distinct k claim.worker_ids) (unfold is_blocked in ground arith)
              safe done
      ]
