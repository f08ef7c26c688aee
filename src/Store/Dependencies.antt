-- ===== src/Store/Dependencies.antt =====
-- Task dependencies of src/project_supervisor/store.py: `add_task_dependency`,
-- `unsatisfied_dependencies`, and the recursive query that looks for a cycle.
pub mod Picking
pub mod Closure
pub mod Acyclic
use chips_agent_fabric.Prelude.{
  nat_eq, string_eq, is_none, map, ℕ, zero, suc, ◌+◌, Bool, true, false, not, ◌&&◌, Option, none,
  some, List, [], ◌∷◌, ◌++◌, String, ◌==◌, if◌then◌else◌, contains, length,
}
use chips_agent_fabric.Domain.{TaskState_eq, TaskState, EventSeverity}
use chips_agent_fabric.Sql.{select_where, first_where, exists_where, update_where}
use chips_agent_fabric.Store.Error.{
  Result, ok, key_error, value_error, integrity_error, ◌>>=◌, ◌>>◌, refuse, fetched,
}
use chips_agent_fabric.Store.Schema.{
  Db, TaskRow, DependencyRow, ScopeRow, Field, timestamp, append_event, task_is,
}

-- The next edge that leads out of `seen`, and the other edges.
unfoldable pub pick_edge :
    List DependencyRow → List String → Option (DependencyRow × List DependencyRow)
pick_edge [] seen = none
pick_edge (d ∷ ds) seen =
    if contains seen d.task_id
    then some (d, ds)
    else elim (pick_edge ds seen) [ none ↦ none | some (e, rest) ↦ some (e, d ∷ rest) ]

-- WITH RECURSIVE ancestors(id): every edge is followed at most once, so the number of edges is
-- enough fuel.
unfoldable pub ancestors : ℕ → List DependencyRow → List String → List String
ancestors zero edges seen = seen
ancestors (suc fuel) edges seen = elim (pick_edge edges seen) [
  | none ↦ seen
  | some (e, rest) ↦ ancestors fuel rest (e.depends_on_task_id ∷ seen)
]

unfoldable pub would_cycle : List DependencyRow → String → String → Bool
unfolding ancestors pick_edge
would_cycle edges task_id depends_on_task_id =
    contains (ancestors (length edges) edges (depends_on_task_id ∷ [])) task_id

abbrev pub edge_is : String → String → DependencyRow → Bool
edge_is task_id depends_on_task_id d =
    d.task_id == task_id && d.depends_on_task_id == depends_on_task_id

-- The states in which a task may still take a dependency.
abbrev pub is_definable : TaskState → Bool
is_definable TaskState.draft = true
is_definable TaskState.queued = true
is_definable TaskState.ready = true
is_definable _ = false

-- The trigger `tasks_require_sealed_verification_scope`, for a row that moves to `revision`.
abbrev pub violates_scope : Db → TaskRow → ℕ → Bool
violates_scope db row revision = elim (row.current_verification_scope_id) [
  | none ↦ false
  | some scope_id ↦ not (
      exists_where
        (λ (s : ScopeRow).
          s.id == scope_id
          && s.task_id == row.id
          && s.project_id == row.project_id
          && s.task_definition_revision == revision
          && not (is_none s.sealed_at))
        db.scopes)
]

abbrev pub redefined : ℕ → TaskRow → TaskRow
redefined now r = record r {
  definition_revision = r.definition_revision + 1;
  version = r.version + 1;
  updated_at = now;
}

-- The writes of `add_task_dependency`, after its checks.
unfoldable pub insert_dependency : ℕ → String → TaskRow → String → Db → Db
insert_dependency now task_id task depends_on_task_id db =
    append_event
      (λ sequence. record {
        sequence = sequence;
        kind = "taskDependencyAdded";
        severity = EventSeverity.info;
        entity_type = "task";
        entity_id = task_id;
        project_id = some task.project_id;
        task_id = some task_id;
        worker_id = none;
        run_id = none;
        payload = ("dependsOnTaskID", Field.text depends_on_task_id) ∷ [];
        actor = "scheduler";
        created_at = now;
      })
      (record db {
        dependencies =
            db.dependencies
            ++ (record { task_id = task_id; depends_on_task_id = depends_on_task_id } ∷ []);
        tasks = update_where (task_is task_id) (redefined now) db.tasks;
      })

-- `add_task_dependency`. An edge that is there already is no change.
unfoldable pub add_task_dependency : ℕ → String → String → Db → Result Db
unfolding timestamp would_cycle insert_dependency
add_task_dependency clock task_id depends_on_task_id db = do
  refuse (task_id == depends_on_task_id) value_error
  task ← fetched (first_where (task_is task_id) db.tasks) (key_error task_id)
  prerequisite ←
      fetched (first_where (task_is depends_on_task_id) db.tasks) (key_error depends_on_task_id)
  refuse (not (task.project_id == prerequisite.project_id)) value_error
  if exists_where (edge_is task_id depends_on_task_id) db.dependencies then ok db else do
    refuse (not (is_definable task.state)) value_error
    refuse (would_cycle db.dependencies task_id depends_on_task_id) value_error
    refuse (violates_scope db task (task.definition_revision + 1)) integrity_error
    ok (insert_dependency (timestamp clock) task_id task depends_on_task_id db)

-- Does the prerequisite of this edge stand in another state than `succeeded`?
abbrev pub is_unsatisfied : Db → String → DependencyRow → Bool
is_unsatisfied db task_id d =
    d.task_id == task_id
    && exists_where (λ t. t.id == d.depends_on_task_id && not (t.state == TaskState.succeeded))
        db.tasks

-- `unsatisfied_dependencies`, without its ORDER BY.
unfoldable pub unsatisfied_dependencies : Db → String → List String
unsatisfied_dependencies db task_id =
    map (λ d. d.depends_on_task_id) (select_where (is_unsatisfied db task_id) db.dependencies)
