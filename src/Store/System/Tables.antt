-- ===== src/Store/System/Tables.antt =====
-- Operations of src/project_supervisor/store.py that write neither a run nor a worker.
use chips_agent_fabric.Sql.{first_where}
use chips_agent_fabric.Store.Lease.{release_task_execution_lease, heartbeat_task_execution_lease}
use chips_agent_fabric.Domain.{TaskState}
use chips_agent_fabric.Store.Dependencies.{add_task_dependency}
use chips_agent_fabric.Store.System.{
  release_task_execution_lease, TaskState, add_task_dependency, heartbeat_task_execution_lease,
}
use chips_agent_fabric.Store.Tasks.{
  create_project, create_task, TaskRecord, transition_task, moved_task_db,
}
use chips_agent_fabric.Store.Tasks.Cases.{transition_task_cases}
use chips_agent_fabric.Store.Schema.{task_is, Field, Db, ProjectRow, TaskRow}
use chips_agent_fabric.Store.Error.{ok}
use chips_agent_fabric.Prelude.{
  inr, ap, inl, Option, List, Option-cases, Bool, ℕ, String, ◌≡◌, arith,
}

-- The tables of workers and runs stay as they are.
abbrev pub SameTables : Db → Db → Type 0
SameTables db db' = (db'.workers ≡ db.workers) × (db'.runs ≡ db.runs)

pub create_project-SameTables :
    (clock : ℕ) (project_id name root_path goal : String) (db : Db) {r : ProjectRow} {db' : Db}
    → create_project clock project_id name root_path goal db ≡ ok (r, db')
    → SameTables db db'
unfolding create_project
create_project-SameTables clock project_id name root_path goal db h = (ground arith, ground arith)

pub create_task-SameTables :
    (clock : ℕ) (task : TaskRecord) (reference : String) (db : Db) {r : TaskRow} {db' : Db}
    → create_task clock task reference db ≡ ok (r, db')
    → SameTables db db'
unfolding create_task
create_task-SameTables clock task reference db h = (ground arith, ground arith)

pub add_task_dependency-SameTables :
    (clock : ℕ) (task_id depends_on_task_id : String) (db : Db) {db' : Db}
    → add_task_dependency clock task_id depends_on_task_id db ≡ ok db'
    → SameTables db db'
unfolding add_task_dependency
add_task_dependency-SameTables clock task_id depends_on_task_id db h =
    elim (Option-cases (first_where (task_is task_id) db.tasks)) [
      | inl e ↦ absurd (ground arith)
      | inr (t, e) ↦ elim (Option-cases (first_where (task_is depends_on_task_id) db.tasks)) [
        | inl e' ↦ absurd (ground arith)
        | inr (p, e') ↦ (ground arith, ground arith)
      ]
    ]

pub transition_task-SameTables :
    (clock : ℕ) (task_id : String) (target : TaskState) (actor : String)
    (extra : List (String × Field)) (expected : Option ℕ) (owner : Option String)
    (generation : Option ℕ) (db : Db) {r : TaskRow} {db' : Db}
    → transition_task clock task_id target actor extra expected owner generation db ≡ ok (r, db')
    → SameTables db db'
unfolding moved_task_db
transition_task-SameTables clock task_id target actor extra expected owner generation db h =
    let (row, _, _, _, _, _, done, _) =
      transition_task_cases clock task_id target actor extra expected owner generation db h in
    (ap (λ (d : Db). d.workers) done, ap (λ (d : Db). d.runs) done)

pub heartbeat-SameTables :
    (clock : ℕ) (task_id owner : String) (generation ttl : ℕ) (db : Db) {b : Bool} {db' : Db}
    → heartbeat_task_execution_lease clock task_id owner generation ttl db ≡ ok (b, db')
    → SameTables db db'
unfolding heartbeat_task_execution_lease
heartbeat-SameTables clock task_id owner generation ttl db h = (ground arith, ground arith)

pub release-SameTables :
    (clock : ℕ) (task_id owner : String) (generation : ℕ) (actor : String) (db : Db)
    → SameTables db (release_task_execution_lease clock task_id owner generation actor db).1
unfolding release_task_execution_lease
release-SameTables clock task_id owner generation actor db = (ground arith, ground arith)
