-- ===== src/Store/System/Renewals.antt =====
-- The generation of a lease over the fenced transactions of src/project_supervisor/store.py.
use chips_agent_fabric.Store.Tasks.Cases.{transition_task_cases}
use chips_agent_fabric.Store.Runs.Cases.{transition_worker_run_cases, activate_worker_run_cases}
use chips_agent_fabric.Store.Cancel.Cases.{cancel_task_execution_cases}
use chips_agent_fabric.Store.Error.{ok}
use chips_agent_fabric.Domain.{RunState, TaskState}
use chips_agent_fabric.Store.Recover.{
  asks_for_none, recover_interrupted, idle_workers, recovered_db, interrupt_runs, interrupt_tasks,
}
use chips_agent_fabric.Store.Cancel.{
  cancel_run, commit_cancel, release_lease, cancel_task_execution, cancel_runs, free_workers,
}
use chips_agent_fabric.Sql.{first_where, update_where}
use chips_agent_fabric.Store.Lease.{
  renewed, is_held, renewable, released, release_task_execution_lease,
  heartbeat_task_execution_lease,
}
use chips_agent_fabric.Store.Claim.{activate_worker_run, activated_db}
use chips_agent_fabric.Store.Runs.{transition_worker_run, RunDetails, moved_run_db}
use chips_agent_fabric.Store.Tasks.{transition_task, moved_task_db}
use chips_agent_fabric.Store.Schema.{
  is_active_lease, task_is, timestamp, Field, RunRow, TaskRow, Db, LeaseRow, lease_is,
}
use chips_agent_fabric.Prelude.{
  ◌+◌, sym, ◌&&◌, inr, refl, ap, inl, ◌∙◌, [], Bool-cases, Option-cases, ◌∷◌, subst, Option, ℕ,
  String, ◌≡◌, arith, ◌≤◌, Bool, List,
}
use chips_agent_fabric.Store.System.Leases.{update-generation_at, generation_at}
use chips_agent_fabric.Store.System.Generations.{same-Grows, update-Grows, Grows}

pub transition_task-Grows :
    (clock : ℕ) (task_id : String) (target : TaskState) (actor : String)
    (extra : List (String × Field)) (expected : Option ℕ) (owner : Option String)
    (generation : Option ℕ) (db : Db) {r : TaskRow} {db' : Db}
    → transition_task clock task_id target actor extra expected owner generation db ≡ ok (r, db')
    → Grows db db'
unfolding moved_task_db
transition_task-Grows clock task_id target actor extra expected owner generation db {r} {db'} h =
    let (row, _, _, _, _, _, done, _) =
      transition_task_cases clock task_id target actor extra expected owner generation db h in
    same-Grows db db' (ap (λ (d : Db). d.leases) done)

pub transition_worker_run-Grows :
    (redact : String → String) (clock : ℕ) (run_id : String) (target : RunState)
    (details : RunDetails) (extra : List (String × Field)) (owner : Option String)
    (generation : Option ℕ) (db : Db) {r : RunRow} {db' : Db}
    → transition_worker_run redact clock run_id target details extra owner generation db
      ≡ ok (r, db')
    → Grows db db'
unfolding moved_run_db
transition_worker_run-Grows redact clock run_id target details extra owner generation db {r} {db'}
      h =
    let (run, _, _, _, done, _) =
      transition_worker_run_cases redact clock run_id target details extra owner generation db h in
    same-Grows db db' (ap (λ (d : Db). d.leases) done)

pub activate_worker_run-Grows :
    (clock : ℕ) (run_id : String) (owner : Option String) (generation : Option ℕ) (actor : String)
    (db : Db) {b : Bool} {db' : Db}
    → activate_worker_run clock run_id owner generation actor db ≡ ok (b, db')
    → Grows db db'
unfolding activated_db
activate_worker_run-Grows clock run_id owner generation actor db {b} {db'} h =
    elim (activate_worker_run_cases clock run_id owner generation actor db h) [
      | inl (_, same) ↦ same-Grows db db' (ap (λ (d : Db). d.leases) same)
      | inr (run, task, _, _, _, _, _, _, done) ↦ same-Grows db db' (ap (λ (d : Db). d.leases) done)
    ]

pub heartbeat-Grows :
    (clock : ℕ) (task_id owner : String) (generation ttl : ℕ) (db : Db) {b : Bool} {db' : Db}
    → heartbeat_task_execution_lease clock task_id owner generation ttl db ≡ ok (b, db')
    → Grows db db'
unfolding heartbeat_task_execution_lease
heartbeat-Grows clock task_id owner generation ttl db {b} {db'} h =
    update-Grows (renewable (timestamp clock) task_id owner generation)
      (renewed (timestamp clock) (timestamp (clock + ttl))) db db' (λ l. (refl, refl))
      (ground arith)

released-Grows :
    (now : ℕ) (p : LeaseRow → Bool) (db db' : Db)
    → db'.leases ≡ update_where p (released now) db.leases
    → Grows db db'
released-Grows now p db db' h = update-Grows p (released now) db db' (λ l. (refl, refl)) h

pub release-Grows :
    (clock : ℕ) (task_id owner : String) (generation : ℕ) (actor : String) (db : Db)
    → Grows db (release_task_execution_lease clock task_id owner generation actor db).1
unfolding release_task_execution_lease
release-Grows clock task_id owner generation actor db k =
    let kept =
      update-generation_at (lease_is task_id) (released (timestamp clock)) db.leases k
        (λ l. (refl, refl)) in
    elim (Bool-cases (is_held (first_where (lease_is task_id) db.leases) owner generation)) [
      | inr n ↦ rw n (omega arith)
      | inl y ↦ elim (Option-cases (first_where (task_is task_id) db.tasks)) [
        | inl e ↦ rw y (rw e (omega (arith, kept)))
        | inr (t, e) ↦ rw y (rw e (omega (arith, kept)))
      ]
    ]

cancel_runs-leases :
    (now : ℕ) (task_id : String) (task : TaskRow) (actor : String) (ended : List RunRow) (db : Db)
    → (cancel_runs now task_id task actor ended db).leases ≡ db.leases
unfolding cancel_runs
cancel_runs-leases now task_id task actor [] db = refl
cancel_runs-leases now task_id task actor (run ∷ rest) db =
    cancel_runs-leases now task_id task actor rest (cancel_run now task_id task actor run db)

free_workers-leases :
    (now : ℕ) (ids : List String) (db : Db) → (free_workers now ids db).leases ≡ db.leases
unfolding free_workers
free_workers-leases now [] db = refl
free_workers-leases now (j ∷ js) db = free_workers-leases now js _

release_lease-Grows :
    (now : ℕ) (task_id : String) (task : TaskRow) (actor : String) (db : Db)
    → Grows db (release_lease now task_id task actor db)
unfolding release_lease
release_lease-Grows now task_id task actor db k =
    let kept =
      update-generation_at (lease_is task_id) (released now) db.leases k (λ l. (refl, refl)) in
    elim (Option-cases
      (first_where (λ l. lease_is task_id l && is_active_lease l.state) db.leases)) [
        | inl e ↦ rw e (omega arith)
        | inr (l, e) ↦ rw e (omega (arith, kept))
      ]

commit_cancel-Grows :
    (now : ℕ) (task_id : String) (task : TaskRow) (actor : String) (db : Db)
    → Grows db (commit_cancel now task_id task actor db)
unfolding commit_cancel
commit_cancel-Grows now task_id task actor db k =
    subst (λ n. n ≤ generation_at k (commit_cancel now task_id task actor db).leases)
      (ap (generation_at k)
        (free_workers-leases now _ _ ∙ cancel_runs-leases now task_id task actor _ _))
      (release_lease-Grows now task_id task actor _ k)

pub cancel_task_execution-Grows :
    (clock : ℕ) (task_id : String) (actor : String) (db : Db) {b : Bool} {db' : Db}
    → cancel_task_execution clock task_id actor db ≡ ok (b, db')
    → Grows db db'
cancel_task_execution-Grows clock task_id actor db {b} {db'} h =
    let (task, _, outcome) = cancel_task_execution_cases clock task_id actor db h in
    elim outcome [
      | inl (_, _, same) ↦ same-Grows db db' (ap (λ (d : Db). d.leases) same)
      | inr (_, _, done) ↦
          subst (Grows db) (sym done) (commit_cancel-Grows (timestamp clock) task_id task actor db)
    ]

interrupt_runs-leases :
    (now : ℕ) (ended : List RunRow) (db : Db) → (interrupt_runs now ended db).leases ≡ db.leases
unfolding interrupt_runs
interrupt_runs-leases now [] db = refl
interrupt_runs-leases now (run ∷ rest) db = interrupt_runs-leases now rest _

idle_workers-leases :
    (now : ℕ) (ids : List String) (db : Db) → (idle_workers now ids db).leases ≡ db.leases
unfolding idle_workers
idle_workers-leases now [] db = refl
idle_workers-leases now (j ∷ js) db = idle_workers-leases now js _

interrupt_tasks-leases :
    (now : ℕ) (tasks : List TaskRow) (db : Db) → (interrupt_tasks now tasks db).leases ≡ db.leases
unfolding interrupt_tasks
interrupt_tasks-leases now [] db = refl
interrupt_tasks-leases now (t ∷ ts) db = interrupt_tasks-leases now ts _

recovered_db-generation_at :
    (now : ℕ) (task_ids : Option (List String)) (db : Db) (k : String)
    → generation_at k (recovered_db now task_ids db).leases ≡ generation_at k db.leases
unfolding recovered_db
recovered_db-generation_at now task_ids db k =
    update-generation_at _ (released now) _ k (λ l. (refl, refl))
    ∙ ap (generation_at k) (
        interrupt_tasks-leases now _ _
        ∙ idle_workers-leases now _ _
        ∙ interrupt_runs-leases now _ db)

pub recover_interrupted-Grows :
    (clock : ℕ) (task_ids : Option (List String)) (db : Db)
    → Grows db (recover_interrupted clock task_ids db).1
unfolding recover_interrupted
recover_interrupted-Grows clock task_ids db k = elim (Bool-cases (asks_for_none task_ids)) [
  | inl y ↦ rw y (omega arith)
  | inr n ↦ rw n (omega (arith, recovered_db-generation_at (timestamp clock) task_ids db k))
]
