-- ===== src/Store/Tasks.antt =====
-- Projects, tasks and their dependencies: `create_project`, `create_task`, `add_task_dependency`,
-- `unsatisfied_dependencies` and `transition_task` of src/project_supervisor/store.py.
pub mod Cases
pub mod Moving
use chips_agent_fabric.Prelude.{
  nat_eq, string_eq, ℕ, ◌+◌, Bool, false, not, ◌||◌, ◌&&◌, Option, none, some, List, [], ◌∷◌, ◌++◌,
  String, ◌==◌, ltb, if◌then◌else◌, coalesce,
}
use chips_agent_fabric.Domain.{
  TaskState_eq, ProjectPhase, TaskState, ExecutionTopology, EventSeverity,
}
use chips_agent_fabric.StateMachine.{allows, task_transitions}
use chips_agent_fabric.StateMachine.Terminal.{is_terminal_task}
use chips_agent_fabric.Sql.{count_where, first_where, exists_where, update_where}
use chips_agent_fabric.Store.Error.{
  Result, ok, key_error, runtime_error, invalid_transition, integrity_error, ◌>>=◌, ◌>>◌, refuse,
  fetched,
}
use chips_agent_fabric.Store.Schema.{
  Db, ProjectRow, TaskRow, TaskRequirements, Field, timestamp, append_event, merge_fields, task_is,
}
use chips_agent_fabric.Store.Lease.{require_optional_lease}

abbrev pub project_is : String → ProjectRow → Bool
project_is k r = r.id == k

unfoldable pub create_project :
    ℕ → String → String → String → String → Db → Result (ProjectRow × Db)
unfolding timestamp
create_project clock project_id name root_path goal db = do
  let now = timestamp clock
  let row : ProjectRow = record {
    id = project_id;
    name = name;
    root_path = root_path;
    goal = goal;
    phase = ProjectPhase.initializing;
    created_at = now;
    updated_at = now;
  }
  refuse (exists_where (project_is project_id) db.projects) integrity_error
  let created =
      append_event
        (λ sequence. record {
          sequence = sequence;
          kind = "projectCreated";
          severity = EventSeverity.notice;
          entity_type = "project";
          entity_id = project_id;
          project_id = some project_id;
          task_id = none;
          worker_id = none;
          run_id = none;
          payload = ("phase", Field.phase ProjectPhase.initializing) ∷ [];
          actor = "supervisor";
          created_at = now;
        })
        (record db { projects = db.projects ++ (row ∷ []) })
  ok (row, created)

-- The argument of `create_task`, as the dataclass `TaskRecord`.
pub record TaskRecord : Type 0 where
  pub id : String
  pub project_id : String
  pub title : String
  pub description : String
  pub state : TaskState
  pub topology : ExecutionTopology
  pub requirements : TaskRequirements
  pub priority : ℕ
  pub attempt_count : ℕ
  pub created_at : ℕ
  pub updated_at : ℕ

abbrev too_small : Option ℕ → Bool
too_small none = false
too_small (some n) = n == 0

-- The constraints of the table `tasks`: its keys and its checks.
abbrev violates_tasks : TaskRecord → String → Db → Bool
violates_tasks task reference db =
    exists_where (task_is task.id) db.tasks
    || exists_where (λ r. r.project_id == task.project_id && r.reference == reference) db.tasks
    || not (exists_where (project_is task.project_id) db.projects)
    || ltb 100 task.priority
    || too_small task.requirements.minimum_context_tokens
    || task.requirements.panel_size == 0

unfoldable pub create_task : ℕ → TaskRecord → String → Db → Result (TaskRow × Db)
unfolding timestamp
create_task clock task reference db = do
  let row : TaskRow = record {
    id = task.id;
    project_id = task.project_id;
    reference = reference;
    title = task.title;
    description = task.description;
    state = task.state;
    topology = task.topology;
    priority = task.priority;
    requirements = task.requirements;
    attempt_count = task.attempt_count;
    version = 1;
    definition_revision = 1;
    current_verification_scope_id = none;
    created_at = timestamp task.created_at;
    updated_at = timestamp task.updated_at;
    started_at = none;
    finished_at = none;
  }
  refuse (violates_tasks task reference db) integrity_error
  let created =
      append_event
        (λ sequence. record {
          sequence = sequence;
          kind = "taskCreated";
          severity = EventSeverity.info;
          entity_type = "task";
          entity_id = task.id;
          project_id = some task.project_id;
          task_id = some task.id;
          worker_id = none;
          run_id = none;
          payload =
              ("state", Field.task_state task.state)
              ∷ ("topology", Field.topology task.topology)
              ∷ [];
          actor = "supervisor";
          created_at = timestamp clock;
        })
        (record db { tasks = db.tasks ++ (row ∷ []) })
  ok (row, created)

abbrev pub version_conflict : Option ℕ → ℕ → Bool
version_conflict none version = false
version_conflict (some expected) version = not (version == expected)

-- The row after the UPDATE, for the row that was read.
abbrev pub moved_task : ℕ → TaskState → TaskRow → TaskRow → TaskRow
moved_task now target row r = record r {
  state = target;
  started_at =
      if target == TaskState.running then coalesce row.started_at (some now) else row.started_at;
  finished_at = if is_terminal_task target then some now else row.finished_at;
  updated_at = now;
  version = r.version + 1;
}

-- `WHERE id=? AND version=?`
abbrev pub same_version : String → TaskRow → TaskRow → Bool
same_version task_id row r = task_is task_id r && r.version == row.version

-- The writes of `transition_task` after its checks.
unfoldable pub moved_task_db :
    ℕ → String → TaskState → String → List (String × Field) → TaskRow → Db → Db
moved_task_db now task_id target actor extra row db =
    append_event
      (λ sequence. record {
        sequence = sequence;
        kind = "taskStateChanged";
        severity = EventSeverity.notice;
        entity_type = "task";
        entity_id = task_id;
        project_id = some row.project_id;
        task_id = some task_id;
        worker_id = none;
        run_id = none;
        payload =
            merge_fields
              (("from", Field.task_state row.state) ∷ ("to", Field.task_state target) ∷ []) extra;
        actor = actor;
        created_at = now;
      })
      (record db {
        tasks = update_where (same_version task_id row) (moved_task now target row) db.tasks;
      })

-- `transition_task`; `extra` is the payload that the caller adds.
unfoldable pub transition_task :
    ℕ
    → String
    → TaskState
    → String
    → List (String × Field)
    → Option ℕ
    → Option String
    → Option ℕ
    → Db
    → Result (TaskRow × Db)
transition_task clock task_id target actor extra expected_version lease_owner_id lease_generation
      db =
    do
      row ← fetched (first_where (task_is task_id) db.tasks) (key_error task_id)
      require_optional_lease clock db task_id lease_owner_id lease_generation
      refuse (not (allows task_transitions row.state target)) invalid_transition
      refuse (version_conflict expected_version row.version) runtime_error
      refuse (not (count_where (same_version task_id row) db.tasks == 1)) runtime_error
      let written = moved_task_db (timestamp clock) task_id target actor extra row db
      current ← fetched (first_where (task_is task_id) written.tasks) (key_error task_id)
      ok (current, written)
