-- ===== src/Store/System/Generations.antt =====
-- The generation of a lease in src/project_supervisor/store.py, transaction by transaction.
use mathlib.Core.Option
use chips_agent_fabric.Store.Runs.{create_worker_run}
use chips_agent_fabric.Store.Dispatch.{starting_run, insert_run, violates_runs}
use chips_agent_fabric.Store.Scopes.{dispatch_snapshot}
use chips_agent_fabric.Store.Error.{>>=-eq-ok, fetched, key_error}
use chips_agent_fabric.Prelude.{Bool-cases}
use chips_agent_fabric.Store.Claim.Cases.{
  claimed_db_tables, commit_claim_cases, claim_task_dispatch_cases,
}
use chips_agent_fabric.Store.Scopes.{Digests}
use chips_agent_fabric.Domain.{ResourceState, WorkerState}
use chips_agent_fabric.Store.Error.{ok}
use chips_agent_fabric.Store.Claim.{claim_task_dispatch, leased_db}
use chips_agent_fabric.Store.Dispatch.{
  acquire_lease, Granted, violates_runs, Claim, Blank, insert_run, start_runs,
}
use chips_agent_fabric.Store.Workers.{
  reserve, distinct, journal_claims, set_worker_state, claim_workers,
}
use chips_agent_fabric.Store.Dependencies.{add_task_dependency}
use chips_agent_fabric.Store.Tasks.{TaskRecord, create_project, create_task}
use chips_agent_fabric.Sql.{first_where, update_where}
use chips_agent_fabric.Store.System.{
  Digests, TaskRecord, WorkerState, ok, set_worker_state, create_project, claim_workers,
  add_task_dependency, create_task,
}
use chips_agent_fabric.Store.System.Leases.{generation_at, update-generation_at}
use chips_agent_fabric.Store.Schema.{
  task_is, worker_is, timestamp, RunRow, TaskRow, WorkerRow, ProjectRow, Db, LeaseRow,
}
use chips_agent_fabric.Prelude.{
  ◌∙◌, some, ◌⊎◌, inr, none, inl, refl, [], ◌∷◌, Bool-cases, Option-cases, Option, ap, ℕ, String,
  ◌≡◌, arith, ◌≤◌, Bool, List,
}

-- No task's generation goes down.
abbrev pub Grows : Db → Db → Type 0
Grows db db' = (k : String) → generation_at k db.leases ≤ generation_at k db'.leases

pub same-Grows : (db db' : Db) → db'.leases ≡ db.leases → Grows db db'
same-Grows db db' h k = omega (arith, ap (generation_at k) h)

pub update-Grows :
    (p : LeaseRow → Bool) (f : LeaseRow → LeaseRow) (db db' : Db)
    → ((l : LeaseRow) → ((f l).task_id ≡ l.task_id) × ((f l).generation ≡ l.generation))
    → db'.leases ≡ update_where p f db.leases
    → Grows db db'
update-Grows p f db db' keep h k =
    omega (arith, ap (generation_at k) h, update-generation_at p f db.leases k keep)

pub create_project-leases :
    (clock : ℕ) (project_id name root_path goal : String) (db : Db) {r : ProjectRow} {db' : Db}
    → create_project clock project_id name root_path goal db ≡ ok (r, db')
    → db'.leases ≡ db.leases
unfolding create_project
create_project-leases clock project_id name root_path goal db h = ground arith

pub create_task-leases :
    (clock : ℕ) (task : TaskRecord) (reference : String) (db : Db) {r : TaskRow} {db' : Db}
    → create_task clock task reference db ≡ ok (r, db')
    → db'.leases ≡ db.leases
unfolding create_task
create_task-leases clock task reference db h = ground arith

pub add_task_dependency-leases :
    (clock : ℕ) (task_id depends_on_task_id : String) (db : Db) {db' : Db}
    → add_task_dependency clock task_id depends_on_task_id db ≡ ok db'
    → db'.leases ≡ db.leases
unfolding add_task_dependency
add_task_dependency-leases clock task_id depends_on_task_id db h =
    elim (Option-cases (first_where (task_is task_id) db.tasks)) [
      | inl e ↦ absurd (ground arith)
      | inr (t, e) ↦ elim (Option-cases (first_where (task_is depends_on_task_id) db.tasks)) [
        | inl e' ↦ absurd (ground arith)
        | inr (p, e') ↦ ground arith
      ]
    ]

pub set_worker_state-leases :
    (clock : ℕ) (worker_id : String) (state : WorkerState) (resources : Option ResourceState)
    (model task owner : Option String) (generation : Option ℕ) (actor : String) (db : Db) {db' : Db}
    → set_worker_state clock worker_id state resources model task owner generation actor db ≡ ok db'
    → db'.leases ≡ db.leases
unfolding set_worker_state
set_worker_state-leases clock worker_id state resources model task owner generation actor db h =
    elim (Option-cases (first_where (worker_is worker_id) db.workers)) [
      | inl e ↦ absurd (ground arith)
      | inr (w, e) ↦ ground arith
    ]

pub journal_claims-leases :
    (now : ℕ) (actor : String) (rows : List WorkerRow) (ids : List String) (db : Db)
    → (journal_claims now actor rows ids db).leases ≡ db.leases
unfolding journal_claims
journal_claims-leases now actor rows [] db = refl
journal_claims-leases now actor rows (w ∷ ws) db = journal_claims-leases now actor rows ws _

pub claim_workers-leases :
    (clock : ℕ) (ids : List String) (actor : String) (db : Db) {b : Bool} {db' : Db}
    → claim_workers clock ids actor db ≡ ok (b, db')
    → db'.leases ≡ db.leases
unfolding claim_workers
claim_workers-leases clock ids actor db h =
    let tables =
      journal_claims-leases (timestamp clock) actor db.workers (distinct ids)
        (record db { workers = reserve (timestamp clock) (distinct ids) db.workers }) in
    ground (arith, tables)

pub start_runs-leases :
    (run_of : String → RunRow) (before : List WorkerRow) (project_id actor : String)
    (ids : List String) (db : Db) {db' : Db}
    → start_runs run_of before project_id actor ids db ≡ ok db'
    → db'.leases ≡ db.leases
unfolding start_runs insert_run
start_runs-leases run_of before project_id actor [] db h = ground arith
start_runs-leases run_of before project_id actor (w ∷ ws) db {db'} h =
    elim (Bool-cases (violates_runs (run_of w) db)) [
      | inl y ↦ absurd (ground arith)
      | inr n ↦ start_runs-leases run_of before project_id actor ws _ (rw n at h)
    ]

-- A claim leaves the leases as they are, or with the one it acquires.
pub claim_task_dispatch-leases :
    (new_run_id : String → String) (blank : Blank) (digests : Digests) (clock : ℕ) (claim : Claim)
    (db : Db) {r : Option Granted} {db' : Db}
    → claim_task_dispatch new_run_id blank digests clock claim db ≡ ok (r, db')
    → ((r ≡ none) × (db'.leases ≡ db.leases))
      ⊎ ((db'.leases ≡ (acquire_lease clock claim claim.lease_owner_id db).1)
          × ((g : Granted)
              → r ≡ some g
              → g.lease_generation ≡ (acquire_lease clock claim claim.lease_owner_id db).0))
unfolding leased_db
claim_task_dispatch-leases new_run_id blank digests clock claim db {r} {db'} h =
    elim (claim_task_dispatch_cases new_run_id blank digests clock claim db h) [
      | inl (e, same) ↦ inl (e, ap (λ (d : Db). d.leases) same)
      | inr (task, snapshot, _, _, _, _, done) ↦
          elim (commit_claim_cases new_run_id clock claim _ task snapshot db done) [
            | inl (e, same, _) ↦ inr (ap (λ (d : Db). d.leases) same, λ g e'. ground arith)
            | inr (_, started, e) ↦
                let (_, _, _, leases) =
                  claimed_db_tables clock claim (distinct claim.worker_ids) task db in
                inr (
                  start_runs-leases _ db.workers task.project_id claim.actor _ _ started ∙ leases,
                  λ g e'. ground arith,
                )
          ]
    ]

pub create_worker_run-leases :
    (digests : Digests) (clock : ℕ) (run_id task_id worker_id : String) (attempt : ℕ)
    (timeout_at : Option ℕ) (db : Db) {r : String} {db' : Db}
    → create_worker_run digests clock run_id task_id worker_id attempt timeout_at db ≡ ok (r, db')
    → db'.leases ≡ db.leases
unfolding create_worker_run insert_run
create_worker_run-leases digests clock run_id task_id worker_id attempt timeout_at db h =
    let (task, _, after) =
      >>=-eq-ok (fetched (first_where (task_is task_id) db.tasks) (key_error task_id)) _ h in
    let (worker, _, rest) =
      >>=-eq-ok (fetched (first_where (worker_is worker_id) db.workers) (key_error worker_id)) _
        after in
    let (snapshot, _, last) = >>=-eq-ok (dispatch_snapshot digests db task) _ rest in
    let run =
      starting_run run_id task_id worker_id attempt (Option.map timestamp timeout_at) snapshot.0
        snapshot.1 (timestamp clock) in
    elim (Bool-cases (violates_runs run db)) [
      | inl y ↦ absurd (ground arith)
      | inr n ↦ ground arith
    ]
