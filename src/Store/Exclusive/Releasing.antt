-- ===== src/Store/Exclusive/Releasing.antt =====
-- The end of a run and the release of its worker, in src/project_supervisor/store.py.
use chips_agent_fabric.Store.Jobs.Tables.{finished_db_tables}
use chips_agent_fabric.Sql.Rows.{unique_row}
use chips_agent_fabric.Prelude.{
  some, ◌≤◌, nat_eq, All, inl, inr, Bool-cases, ℕ, String, List, Option, ◌≡◌, arith, true, false,
  not, ◌&&◌, [], ◌∷◌, refl, Bool, ◌==◌, string_eq, subst, sym, eq→path,
}
use chips_agent_fabric.Sql.{first_where, count_where, exists_where, update_where}
use chips_agent_fabric.Sql.Rewrite.{count_where-update_where-le}
use chips_agent_fabric.Domain.{RunState, RunState_eq}
use chips_agent_fabric.StateMachine.Terminal.{is_active_run}
use chips_agent_fabric.Store.Schema.{Db, RunRow, TaskRow, WorkerRow, run_is}
use chips_agent_fabric.Store.Cancel.{holds}
use chips_agent_fabric.Store.Runs.{RunDetails}
use chips_agent_fabric.Store.Exclusive.{IsExclusive}
use chips_agent_fabric.Store.Exclusive.Updating.{
  same-IsExclusive, shrink-IsExclusiveAt, freeing-IsExclusiveAt,
}
use chips_agent_fabric.Store.Jobs.Collect.{
  other_active, releasable, finished_run, finished_db, is_final, cancellation_wins,
}

-- An active row of the run.
abbrev pub active_row : String → RunRow → Bool
active_row run_id r = run_is run_id r && is_active_run r.state

exists_where-covered {ℓ} :
    {R : Type ℓ} (p q s : R → Bool) (t : List R)
    → ((r : R) → q r ≡ false → s r ≡ false → p r ≡ false)
    → exists_where q t ≡ false
    → exists_where s t ≡ false
    → exists_where p t ≡ false
unfolding exists_where
exists_where-covered p q s [] cover hq hs = refl
exists_where-covered p q s (x ∷ xs) cover hq hs =
    ground (arith, cover x, exists_where-covered p q s xs cover)

uncovered :
    (of_worker of_run active : Bool)
    → (of_run && active) ≡ false
    → (of_worker && not of_run && active) ≡ false
    → (of_worker && active) ≡ false
uncovered of_worker of_run active over other = ground arith

-- Where a run is over, an active run of a worker is another one.
other_active-holds :
    (worker_id run_id : String) (runs : List RunRow)
    → exists_where (active_row run_id) runs ≡ false
    → exists_where (other_active worker_id run_id) runs ≡ false
    → exists_where (holds worker_id) runs ≡ false
other_active-holds worker_id run_id runs =
    exists_where-covered (holds worker_id) (active_row run_id) (other_active worker_id run_id) runs
      (λ r over other.
        uncovered (r.worker_id == worker_id) (r.id == run_id) (is_active_run r.state) over other)

-- A worker is set only where no other run of it is active, so once its run is over it is free.
pub released-IsExclusive :
    (worker_id run_id : String) (f : WorkerRow → WorkerRow) (db : Db)
    → ((w : WorkerRow) → (f w).id ≡ w.id)
    → exists_where (active_row run_id) db.runs ≡ false
    → IsExclusive db
    → IsExclusive
        (record db { workers = update_where (releasable worker_id run_id db.runs) f db.workers })
released-IsExclusive worker_id run_id f db key over safe = record {
  at = λ k.
      freeing-IsExclusiveAt db.workers db.runs (releasable worker_id run_id db.runs) f k (safe.at k)
        key
        (λ w hit e.
          subst (λ j. exists_where (holds j) db.runs ≡ false) e
            (subst (λ j. exists_where (holds j) db.runs ≡ false)
              (sym (eq→path w.id worker_id (ground arith)))
              (other_active-holds worker_id run_id db.runs over (ground arith))));
}

-- An UPDATE of one run to a state that is not active.
pub ended_run-over :
    (run_id : String) (f : RunRow → RunRow) (runs : List RunRow)
    → ((r : RunRow) → is_active_run (f r).state ≡ false)
    → exists_where (active_row run_id) (update_where (run_is run_id) f runs) ≡ false
unfolding exists_where update_where
ended_run-over run_id f [] over = refl
ended_run-over run_id f (r ∷ rs) over = ground (arith, over r, ended_run-over run_id f rs over)

pub ended_run-IsExclusive :
    (run_id : String) (f : RunRow → RunRow) (db : Db)
    → ((r : RunRow) → is_active_run (f r).state ≡ false)
    → IsExclusive db
    → IsExclusive (record db { runs = update_where (run_is run_id) f db.runs })
ended_run-IsExclusive run_id f db over safe = record {
  at = λ k.
      shrink-IsExclusiveAt db.workers db.workers db.runs _ k (safe.at k)
        (count_where-update_where-le (run_is run_id) f (holds k) db.runs
          (λ r p h. ground (arith, over r)))
        (λ e. e);
}

-- The state of a finished run is a final one.
pub final-over : (target : RunState) → is_final target ≡ true → is_active_run target ≡ false
final-over target h = ground arith

pub over_by_key :
    (run_id : String) (run : RunRow) (runs : List RunRow)
    → is_active_run run.state ≡ false
    → All (λ r. run_is run_id r ≡ true → r ≡ run) runs
    → exists_where (active_row run_id) runs ≡ false
unfolding exists_where
over_by_key run_id run [] over a = refl
over_by_key run_id run (r ∷ rs) over (only, rest) = elim (Bool-cases (r.id == run_id)) [
  | inl y ↦
      let ended : is_active_run r.state ≡ false =
        subst (λ (x : RunRow). is_active_run x.state ≡ false) (sym (only y)) over in
      rw y (rw ended (over_by_key run_id run rs over rest))
  | inr n ↦ rw n (over_by_key run_id run rs over rest)
]

-- After that a run that no cancellation took is over.
pub finished_db-over :
    (now : ℕ) (run_id : String) (target : RunState) (details : RunDetails) (run : RunRow)
    (task : Option TaskRow) (actor : String) (db : Db)
    → is_final target ≡ true
    → count_where (run_is run_id) db.runs ≤ 1
    → first_where (run_is run_id) db.runs ≡ some run
    → cancellation_wins run task ≡ false
    → exists_where
        (active_row run_id)
        (finished_db now run_id target details run task actor db).runs
      ≡ false
finished_db-over now run_id target details run task actor db final keys found loses =
    let (_, _, _, outcome) = finished_db_tables now run_id target details run task actor db in
    elim outcome [
      | inl done ↦
          subst (λ rs. exists_where (active_row run_id) rs ≡ false) (sym done)
            (ended_run-over run_id (finished_run now target details) db.runs
              (λ r. final-over target final))
      | inr (same, reason) ↦
          subst (λ rs. exists_where (active_row run_id) rs ≡ false) (sym same)
            (elim reason [
              | inl y ↦
                  over_by_key run_id run db.runs
                    (subst (λ s. is_active_run s ≡ false) (sym (eq→path run.state target y))
                      (final-over target final))
                    (unique_row (run_is run_id) db.runs run keys found)
              | inr w ↦ cc
            ])
    ]

pub finished_db-IsExclusive :
    (now : ℕ) (run_id : String) (target : RunState) (details : RunDetails) (run : RunRow)
    (task : Option TaskRow) (actor : String) (db : Db)
    → is_final target ≡ true
    → IsExclusive db
    → IsExclusive (finished_db now run_id target details run task actor db)
finished_db-IsExclusive now run_id target details run task actor db final safe =
    let after = finished_db now run_id target details run task actor db in
    let (workers, _, _, outcome) = finished_db_tables now run_id target details run task actor db in
    elim outcome [
      | inl done ↦
          same-IsExclusive
            (record db {
              runs = update_where (run_is run_id) (finished_run now target details) db.runs;
            })
            after (workers, done)
            (ended_run-IsExclusive run_id (finished_run now target details) db
              (λ r. final-over target final) safe)
      | inr (same, _) ↦ same-IsExclusive db after (workers, same) safe
    ]
