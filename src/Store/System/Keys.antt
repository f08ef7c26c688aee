-- ===== src/Store/System/Keys.antt =====
-- The primary key of `worker_runs` in src/project_supervisor/store.py.
use chips_agent_fabric.Store.Runs.Cases.{
  redacted, transition_worker_run_cases, activate_worker_run_cases,
}
use chips_agent_fabric.Store.Exclusive.Fencing.{interrupt_tasks_tables, release_lease_tables}
use chips_agent_fabric.Store.Cancel.Cases.{cancel_task_execution_cases}
use chips_agent_fabric.Sql.Rewrite.{count_where-update_where}
use chips_agent_fabric.Domain.{RunState_eq, RunState}
use chips_agent_fabric.Store.Claim.{started_run, activate_worker_run, activated_db}
use chips_agent_fabric.Store.Runs.{moved_run, transition_worker_run, RunDetails, moved_run_db}
use chips_agent_fabric.Store.Recover.{
  asks_for_none, interrupted_run, recovered_db, idle_workers, interrupt_runs, recover_interrupted,
}
use chips_agent_fabric.Store.Cancel.{
  cancelled_run, cancel_run, cancel_task_execution, commit_cancel, free_workers, cancel_runs,
}
use chips_agent_fabric.Sql.Rows.{count_where_zero, count_where-append}
use chips_agent_fabric.Store.Error.{>>=-eq-ok, ok}
use chips_agent_fabric.Store.Exclusive.Updating.{HasRunKeys}
use chips_agent_fabric.Store.Schema.{timestamp, Field, WorkerRow, TaskRow, run_is, Db, RunRow}
use chips_agent_fabric.Sql.{update_where, count_where}
use chips_agent_fabric.Store.Dispatch.{start_runs, insert_run}
use chips_agent_fabric.Prelude.{
  ◌&&◌, inr, ◌==◌, inl, Bool-cases, refl, ◌∙◌, ap, Option, List, ℕ, Bool, String, string_eq,
  eq→path, [], ◌∷◌, arith, ◌≡◌,
}

-- An accepted insertion keeps identifiers unique: the constraint refuses a second one.
insert_run-HasRunKeys :
    (run : RunRow) (db : Db) {db' : Db}
    → HasRunKeys db
    → insert_run run db ≡ ok db'
    → HasRunKeys db'
unfolding insert_run count_where
insert_run-HasRunKeys run db {db'} keys h k = ground (
  arith,
  keys k,
  count_where-append (run_is k) db.runs (run ∷ []),
  eq→path run.id k,
  count_where_zero (run_is run.id) db.runs,
)

-- Equally many runs of each identifier.
abbrev pub SameRunIds : Db → Db → Type 0
SameRunIds db db' = (k : String) → count_where (run_is k) db'.runs ≡ count_where (run_is k) db.runs

pub SameRunIds-HasRunKeys : (db db' : Db) → SameRunIds db db' → HasRunKeys db → HasRunKeys db'
SameRunIds-HasRunKeys db db' same keys k = omega (arith, same k, keys k)

pub start_runs-HasRunKeys :
    (run_of : String → RunRow) (before : List WorkerRow) (project_id actor : String)
    (ids : List String) (db : Db) {db' : Db}
    → HasRunKeys db
    → start_runs run_of before project_id actor ids db ≡ ok db'
    → HasRunKeys db'
unfolding start_runs
start_runs-HasRunKeys run_of before project_id actor [] db keys h = λ k. ground (arith, keys k)
start_runs-HasRunKeys run_of before project_id actor (w ∷ ws) db keys h =
    let (mid, e, rest) = >>=-eq-ok (insert_run (run_of w) db) _ h in
    start_runs-HasRunKeys run_of before project_id actor ws _
      (insert_run-HasRunKeys (run_of w) db keys e) rest

pub update-SameRunIds :
    (p : RunRow → Bool) (f : RunRow → RunRow) (db : Db)
    → ((r : RunRow) → (f r).id ≡ r.id)
    → (k : String)
    → count_where (run_is k) (update_where p f db.runs) ≡ count_where (run_is k) db.runs
update-SameRunIds p f db key k =
    count_where-update_where p f (run_is k) db.runs (λ r _. ap (λ x. x == k) (key r))

cancel_runs-SameRunIds :
    (now : ℕ) (task_id : String) (task : TaskRow) (actor : String) (ended : List RunRow) (db : Db)
    → SameRunIds db (cancel_runs now task_id task actor ended db)
unfolding cancel_runs
cancel_runs-SameRunIds now task_id task actor [] db k = refl
cancel_runs-SameRunIds now task_id task actor (run ∷ rest) db k =
    cancel_runs-SameRunIds now task_id task actor rest (cancel_run now task_id task actor run db) k
    ∙ update-SameRunIds (run_is run.id) (cancelled_run now) db (λ r. refl) k

free_workers-SameRunIds :
    (now : ℕ) (ids : List String) (db : Db) → SameRunIds db (free_workers now ids db)
unfolding free_workers
free_workers-SameRunIds now [] db k = refl
free_workers-SameRunIds now (j ∷ js) db k = free_workers-SameRunIds now js _ k

commit_cancel-SameRunIds :
    (now : ℕ) (task_id : String) (task : TaskRow) (actor : String) (db : Db)
    → SameRunIds db (commit_cancel now task_id task actor db)
unfolding commit_cancel
commit_cancel-SameRunIds now task_id task actor db k =
    ap (count_where (run_is k)) (release_lease_tables now task_id task actor _).1
    ∙ free_workers-SameRunIds now _ _ k
    ∙ cancel_runs-SameRunIds now task_id task actor _ _ k

pub cancel_task_execution-SameRunIds :
    (clock : ℕ) (task_id : String) (actor : String) (db : Db) {b : Bool} {db' : Db}
    → cancel_task_execution clock task_id actor db ≡ ok (b, db')
    → SameRunIds db db'
cancel_task_execution-SameRunIds clock task_id actor db h k =
    let (task, _, outcome) = cancel_task_execution_cases clock task_id actor db h in
    elim outcome [
      | inl (_, _, same) ↦ ap (λ (d : Db). count_where (run_is k) d.runs) same
      | inr (_, _, done) ↦
          ap (λ (d : Db). count_where (run_is k) d.runs) done
          ∙ commit_cancel-SameRunIds (timestamp clock) task_id task actor db k
    ]

interrupt_runs-SameRunIds :
    (now : ℕ) (ended : List RunRow) (db : Db) → SameRunIds db (interrupt_runs now ended db)
unfolding interrupt_runs
interrupt_runs-SameRunIds now [] db k = refl
interrupt_runs-SameRunIds now (run ∷ rest) db k =
    interrupt_runs-SameRunIds now rest _ k
    ∙ update-SameRunIds (run_is run.id) (interrupted_run now) db (λ r. refl) k

idle_workers-SameRunIds :
    (now : ℕ) (ids : List String) (db : Db) → SameRunIds db (idle_workers now ids db)
unfolding idle_workers
idle_workers-SameRunIds now [] db k = refl
idle_workers-SameRunIds now (j ∷ js) db k = idle_workers-SameRunIds now js _ k

pub recover_interrupted-SameRunIds :
    (clock : ℕ) (task_ids : Option (List String)) (db : Db)
    → SameRunIds db (recover_interrupted clock task_ids db).1
unfolding recover_interrupted recovered_db
recover_interrupted-SameRunIds clock task_ids db k = elim (Bool-cases (asks_for_none task_ids)) [
  | inl y ↦ rw y refl
  | inr n ↦ rw n (
      ap (count_where (run_is k)) (interrupt_tasks_tables (timestamp clock) _ _).1
      ∙ idle_workers-SameRunIds (timestamp clock) _ _ k
      ∙ interrupt_runs-SameRunIds (timestamp clock) _ db k)
]

pub transition_worker_run-SameRunIds :
    (redact : String → String) (clock : ℕ) (run_id : String) (target : RunState)
    (details : RunDetails) (extra : List (String × Field)) (owner : Option String)
    (generation : Option ℕ) (db : Db) {r : RunRow} {db' : Db}
    → transition_worker_run redact clock run_id target details extra owner generation db
      ≡ ok (r, db')
    → SameRunIds db db'
unfolding moved_run_db
transition_worker_run-SameRunIds redact clock run_id target details extra owner generation db h k =
    let (run, _, _, _, done, _) =
      transition_worker_run_cases redact clock run_id target details extra owner generation db h in
    ap (λ (d : Db). count_where (run_is k) d.runs) done
    ∙ update-SameRunIds (run_is run_id)
        (moved_run (timestamp clock) target (redacted redact details)) db (λ r. refl) k

pub activate_worker_run-SameRunIds :
    (clock : ℕ) (run_id : String) (owner : Option String) (generation : Option ℕ) (actor : String)
    (db : Db) {b : Bool} {db' : Db}
    → activate_worker_run clock run_id owner generation actor db ≡ ok (b, db')
    → SameRunIds db db'
unfolding activated_db
activate_worker_run-SameRunIds clock run_id owner generation actor db h k =
    elim (activate_worker_run_cases clock run_id owner generation actor db h) [
      | inl (_, same) ↦ ap (λ (d : Db). count_where (run_is k) d.runs) same
      | inr (run, task, _, _, _, _, _, _, done) ↦
          ap (λ (d : Db). count_where (run_is k) d.runs) done
          ∙ update-SameRunIds (λ r. run_is run_id r && r.state == RunState.starting)
              (started_run (timestamp clock)) db (λ r. refl) k
    ]
