-- ===== src/Store/Exclusive/Fencing.antt =====
-- `cancel_task_execution` and `recover_interrupted` of src/project_supervisor/store.py, and the workers
-- that runs hold.
use chips_agent_fabric.Store.Cancel.Cases.{cancel_task_execution_cases}
use chips_agent_fabric.Store.Error.{ok}
use chips_agent_fabric.Store.Recover.{
  asks_for_none, recovered_db, interrupted_run, idle_workers, recover_interrupted, interrupt_tasks,
  interrupt_runs,
}
use chips_agent_fabric.Sql.Rewrite.{count_where-update_where-le}
use chips_agent_fabric.Store.Exclusive.Updating.{
  same-IsExclusive, shrink-IsExclusiveAt, freeing-IsExclusiveAt,
}
use chips_agent_fabric.Store.Exclusive.{WorkerRow, worker_is, IsExclusive}
use chips_agent_fabric.Store.Schema.{timestamp, WorkerRow, run_is, worker_is, RunRow, Db, TaskRow}
use chips_agent_fabric.Store.Cancel.{
  commit_cancel, release_lease, cancel_task_execution, freed, is_busy, cancelled_run, holds,
  cancel_run, free_workers, cancel_runs,
}
use chips_agent_fabric.Prelude.{
  inr, inl, Bool-cases, string_eq, ◌∙◌, eq→path, sym, Option, subst, refl, not, ℕ, ◌≡◌, Bool, true,
  false, ◌&&◌, List, [], ◌∷◌, String, arith,
}
use chips_agent_fabric.Sql.{exists_where}

-- Ending a list of runs, in the way of `end`, leaves workers exclusive.
cancel_runs-IsExclusive :
    (now : ℕ) (task_id : String) (task : TaskRow) (actor : String) (ended : List RunRow) (db : Db)
    → IsExclusive db
    → IsExclusive (cancel_runs now task_id task actor ended db)
unfolding cancel_runs
cancel_runs-IsExclusive now task_id task actor [] db safe = safe
cancel_runs-IsExclusive now task_id task actor (run ∷ rest) db safe =
    cancel_runs-IsExclusive now task_id task actor rest (cancel_run now task_id task actor run db)
      (record {
        at = λ k.
            shrink-IsExclusiveAt db.workers db.workers db.runs _ k (safe.at k)
              (count_where-update_where-le (run_is run.id) (cancelled_run now) (holds k) db.runs
                (λ r p h. ground arith))
              (λ e. e);
      })

unheld :
    (runs : List RunRow) (j k : String) (w : WorkerRow)
    → exists_where (holds j) runs ≡ false
    → worker_is j w ≡ true
    → w.id ≡ k
    → exists_where (holds k) runs ≡ false
unheld runs j k w free hit e =
    subst (λ x. exists_where (holds x) runs ≡ false) (sym (eq→path w.id j hit) ∙ e) free

free_workers-IsExclusive :
    (now : ℕ) (ids : List String) (db : Db) → IsExclusive db → IsExclusive (free_workers now ids db)
unfolding free_workers
free_workers-IsExclusive now [] db safe = safe
free_workers-IsExclusive now (j ∷ js) db safe = free_workers-IsExclusive now js _ (record {
  at = λ k.
      freeing-IsExclusiveAt db.workers db.runs
        (λ w. worker_is j w && not (exists_where (holds j) db.runs) && is_busy w.state) (freed now)
        k (safe.at k) (λ w. refl) (λ w hit e. unheld db.runs j k w (ground arith) (ground arith) e);
})

pub release_lease_tables :
    (now : ℕ) (task_id : String) (task : TaskRow) (actor : String) (db : Db)
    → ((release_lease now task_id task actor db).workers ≡ db.workers)
      × ((release_lease now task_id task actor db).runs ≡ db.runs)
unfolding release_lease
release_lease_tables now task_id task actor db = (ground arith, ground arith)

release_lease-IsExclusive :
    (now : ℕ) (task_id : String) (task : TaskRow) (actor : String) (db : Db)
    → IsExclusive db
    → IsExclusive (release_lease now task_id task actor db)
release_lease-IsExclusive now task_id task actor db safe =
    same-IsExclusive db _ (release_lease_tables now task_id task actor db) safe

commit_cancel-IsExclusive :
    (now : ℕ) (task_id : String) (task : TaskRow) (actor : String) (db : Db)
    → IsExclusive db
    → IsExclusive (commit_cancel now task_id task actor db)
unfolding commit_cancel
commit_cancel-IsExclusive now task_id task actor db safe =
    release_lease-IsExclusive now task_id task actor _ (
      free_workers-IsExclusive now _ _
        (cancel_runs-IsExclusive now task_id task actor _ _ (record { at = safe.at })))

-- Cancelling a task keeps workers exclusive.
pub cancel_task_execution-IsExclusive :
    (clock : ℕ) (task_id : String) (actor : String) (db : Db) {b : Bool} {db' : Db}
    → IsExclusive db
    → cancel_task_execution clock task_id actor db ≡ ok (b, db')
    → IsExclusive db'
cancel_task_execution-IsExclusive clock task_id actor db safe h =
    let (task, _, outcome) = cancel_task_execution_cases clock task_id actor db h in
    elim outcome [
      | inl (_, _, same) ↦ subst IsExclusive (sym same) safe
      | inr (_, _, done) ↦
          subst IsExclusive (sym done)
            (commit_cancel-IsExclusive (timestamp clock) task_id task actor db safe)
    ]

interrupt_runs-IsExclusive :
    (now : ℕ) (ended : List RunRow) (db : Db)
    → IsExclusive db
    → IsExclusive (interrupt_runs now ended db)
unfolding interrupt_runs
interrupt_runs-IsExclusive now [] db safe = safe
interrupt_runs-IsExclusive now (run ∷ rest) db safe =
    interrupt_runs-IsExclusive now rest _ (record {
      at = λ k.
          shrink-IsExclusiveAt db.workers db.workers db.runs _ k (safe.at k)
            (count_where-update_where-le (run_is run.id) (interrupted_run now) (holds k) db.runs
              (λ r p h. ground arith))
            (λ e. e);
    })

idle_workers-IsExclusive :
    (now : ℕ) (ids : List String) (db : Db) → IsExclusive db → IsExclusive (idle_workers now ids db)
unfolding idle_workers
idle_workers-IsExclusive now [] db safe = safe
idle_workers-IsExclusive now (j ∷ js) db safe = idle_workers-IsExclusive now js _ (record {
  at = λ k.
      freeing-IsExclusiveAt db.workers db.runs
        (λ w. worker_is j w && not (exists_where (holds j) db.runs)) (freed now) k (safe.at k)
        (λ w. refl) (λ w hit e. unheld db.runs j k w (ground arith) (ground arith) e);
})

pub interrupt_tasks_tables :
    (now : ℕ) (tasks : List TaskRow) (db : Db)
    → ((interrupt_tasks now tasks db).workers ≡ db.workers)
      × ((interrupt_tasks now tasks db).runs ≡ db.runs)
unfolding interrupt_tasks
interrupt_tasks_tables now [] db = (refl, refl)
interrupt_tasks_tables now (task ∷ rest) db = interrupt_tasks_tables now rest _

interrupt_tasks-IsExclusive :
    (now : ℕ) (tasks : List TaskRow) (db : Db)
    → IsExclusive db
    → IsExclusive (interrupt_tasks now tasks db)
interrupt_tasks-IsExclusive now tasks db safe =
    same-IsExclusive db _ (interrupt_tasks_tables now tasks db) safe

recovered_db-IsExclusive :
    (now : ℕ) (task_ids : Option (List String)) (db : Db)
    → IsExclusive db
    → IsExclusive (recovered_db now task_ids db)
unfolding recovered_db
recovered_db-IsExclusive now task_ids db safe =
    let done =
      interrupt_tasks-IsExclusive now _ _
        (idle_workers-IsExclusive now _ _ (interrupt_runs-IsExclusive now _ db safe)) in
    record { at = done.at }

-- Recovery keeps workers exclusive.
pub recover_interrupted-IsExclusive :
    (clock : ℕ) (task_ids : Option (List String)) (db : Db)
    → IsExclusive db
    → IsExclusive (recover_interrupted clock task_ids db).1
unfolding recover_interrupted
recover_interrupted-IsExclusive clock task_ids db safe =
    elim (Bool-cases (asks_for_none task_ids)) [
      | inl y ↦ rw y safe
      | inr n ↦ rw n (recovered_db-IsExclusive (timestamp clock) task_ids db safe)
    ]
