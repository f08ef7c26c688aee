-- ===== src/Store/Exclusive/Starting.antt =====
-- The loop of `claim_task_dispatch` that starts the runs, in src/project_supervisor/store.py.
use chips_agent_fabric.Prelude.{
  ◌∙◌, string_eq, ◌+◌, ◌≡◌, true, List, [], ◌∷◌, ◌++◌, String, ◌==◌, arith, inl, inr, Bool-cases,
  if◌then◌else◌, eq→path, ap, contains,
}
use chips_agent_fabric.Domain.{RunState}
use chips_agent_fabric.Sql.{exists_where, count_where}
use chips_agent_fabric.Sql.Rows.{count_where-append}
use chips_agent_fabric.Store.Error.{ok, >>=-eq-ok}
use chips_agent_fabric.Store.Schema.{Db, WorkerRow, RunRow, worker_is}
use chips_agent_fabric.Store.Cancel.{holds}
use chips_agent_fabric.Store.Dispatch.{insert_run, start_runs}
use chips_agent_fabric.Store.Exclusive.Identities.{occurrences}

-- What an accepted insertion writes, and that the worker exists.
pub insert_run_ok :
    (run : RunRow) (db : Db) {db' : Db}
    → insert_run run db ≡ ok db'
    → (db' ≡ record db { runs = db.runs ++ (run ∷ []) })
      × (exists_where (worker_is run.worker_id) db.workers ≡ true)
unfolding insert_run
insert_run_ok run db h = ground arith

module _ (run_of : String → RunRow) (on_worker : (w : String) → (run_of w).worker_id ≡ w)
    (starts : (w : String) → (run_of w).state ≡ RunState.starting) (before : List WorkerRow)
    (project_id : String) (actor : String) where
  count-holds :
      (k w : String) (runs : List RunRow)
      → count_where (holds k) (runs ++ (run_of w ∷ []))
        ≡ count_where (holds k) runs + (if w == k then 1 else 0)
  unfolding count_where
  count-holds k w runs =
      ground (arith, count_where-append (holds k) runs (run_of w ∷ []), on_worker w, starts w)

  -- Each identity gets one more active run, no worker row changes, and each identity has its row.
  pub start_runs_counts :
      (ids : List String) (db db' : Db)
      → start_runs run_of before project_id actor ids db ≡ ok db'
      → (db'.workers ≡ db.workers)
        × ((k : String)
            → count_where (holds k) db'.runs ≡ count_where (holds k) db.runs + occurrences k ids)
        × ((k : String) → contains ids k ≡ true → exists_where (worker_is k) db.workers ≡ true)
  unfolding start_runs count_where
  start_runs_counts [] db db' h = (ground arith, λ k. ground arith, λ k c. cc)
  start_runs_counts (w ∷ ws) db db' h =
      let (mid, e, rest) = >>=-eq-ok (insert_run (run_of w) db) _ h in
      let (shape, row) = insert_run_ok (run_of w) db e in
      let (same, count, named) = start_runs_counts ws _ db' rest in
      (
        same ∙ ap (λ (d : Db). d.workers) shape,
        (λ k. ground (
          arith,
          count k,
          ap (λ (d : Db). count_where (holds k) d.runs) shape,
          count-holds k w db.runs,
        )),
        λ k c. elim (Bool-cases (k == w)) [
          | inl y ↦ ground (arith, eq→path k w y, on_worker w, row)
          | inr n ↦
              ground (arith, named k, ap (λ (d : Db). exists_where (worker_is k) d.workers) shape)
        ],
      )
