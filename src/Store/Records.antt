-- ===== src/Store/Records.antt =====
-- Records of src/project_supervisor/store.py that are written once: `save_worker_result` and
-- `record_failure`, and the approvals that a human resolves.
pub mod Approvals
pub mod Once
use chips_agent_fabric.Prelude.{
  none, some, ℕ, String, Bool, true, false, List, ◌==◌, string_eq, [], ◌∷◌, ◌++◌, Option, not, ◌&&◌,
  ◌||◌, if◌then◌else◌, coalesce,
}
use mathlib.Core.Option
use chips_agent_fabric.Domain.{EventSeverity}
use chips_agent_fabric.Sql.{first_where, exists_where}
use chips_agent_fabric.Store.Error.{
  integrity_error, Result, ok, err, key_error, value_error, runtime_error, integrity_error, refuse,
  fetched, ◌>>=◌, ◌>>◌,
}
use chips_agent_fabric.Store.Schema.{
  timestamp, append_event, Db, Field, Event, ProjectRow, ResultRow, FailureRow, TaskRow, RunRow,
  run_is, task_is, result_of,
}
use chips_agent_fabric.Store.Lease.{require_optional_lease}
use chips_agent_fabric.Store.Dispatch.{Blank}
use chips_agent_fabric.Store.Jobs.{same_option, same_bool, is_falsy, project_of}

-- How many entries the lists of a result have.
pub record ResultCounts : Type 0 where
  pub changed_files : ℕ
  pub tests : ℕ
  pub artifacts : ℕ
  pub blockers : ℕ

-- `all(existing[column] == value ...)`: the columns but for the key and the time.
abbrev pub same_result : ResultRow → ResultRow → Bool
same_result a b =
    a.summary == b.summary
    && a.changed_files == b.changed_files
    && a.commands_run == b.commands_run
    && a.tests == b.tests
    && a.artifacts == b.artifacts
    && same_option a.commit_hash b.commit_hash
    && a.blockers == b.blockers
    && same_option a.confidence b.confidence
    && a.recommended_next_actions == b.recommended_next_actions

abbrev result_event : RunRow → String → Option String → ResultCounts → ℕ → ℕ → Event
result_event run run_id project_id counts now sequence = record {
  sequence = sequence;
  kind = "workerResultRecorded";
  severity = EventSeverity.info;
  entity_type = "workerRun";
  entity_id = run_id;
  project_id = project_id;
  task_id = some run.task_id;
  worker_id = some run.worker_id;
  run_id = some run_id;
  payload =
      ("changedFileCount", Field.number counts.changed_files)
      ∷ ("testCount", Field.number counts.tests)
      ∷ ("artifactCount", Field.number counts.artifacts)
      ∷ ("blockerCount", Field.number counts.blockers)
      ∷ [];
  actor = "runtime";
  created_at = now;
}

abbrev pub stored_result : String → ℕ → ResultRow → ResultRow
stored_result run_id now values = record values { run_id = run_id; created_at = now }

unfoldable pub result_db : ℕ → String → RunRow → ResultRow → ResultCounts → Db → Db
result_db now run_id run values counts db =
    append_event (result_event run run_id (project_of db run.task_id) counts now)
      (record db { results = db.results ++ (stored_result run_id now values ∷ []) })

-- `CHECK(confidence IS NULL OR confidence BETWEEN 0 AND 1)`; `is_fraction` stands for the comparison.
abbrev pub violates_confidence : (String → Bool) → Option String → Bool
violates_confidence is_fraction none = false
violates_confidence is_fraction (some c) = not (is_fraction c)

-- What is done with the result that is there, or where there is none.
unfoldable pub stored_or_new :
    (String → Bool)
    → ℕ
    → String
    → RunRow
    → ResultRow
    → ResultCounts
    → Db
    → Option ResultRow
    → Result Db
stored_or_new is_fraction now run_id run values counts db (some existing) =
    if same_result existing values then ok db else err runtime_error
stored_or_new is_fraction now run_id run values counts db none =
    if not (violates_confidence is_fraction values.confidence)
    then ok (result_db now run_id run values counts db)
    else err integrity_error

-- `values` holds what the source calls `values`: the arguments, redacted and as compact texts.
unfoldable pub save_worker_result :
    (String → Bool)
    → ℕ
    → String
    → ResultRow
    → ResultCounts
    → Option String
    → Option ℕ
    → Db
    → Result Db
save_worker_result is_fraction clock run_id values counts lease_owner_id lease_generation db = do
  run ← fetched (first_where (run_is run_id) db.runs) (key_error run_id)
  require_optional_lease clock db run.task_id lease_owner_id lease_generation
  stored_or_new is_fraction (timestamp clock) run_id run values counts db
      (first_where (result_of run_id) db.results)

abbrev pub failure_is : String → FailureRow → Bool
failure_is k r = r.id == k

-- The columns of `expected`.
abbrev pub same_failure : FailureRow → FailureRow → Bool
same_failure a b =
    same_option a.project_id b.project_id
    && same_option a.task_id b.task_id
    && same_option a.run_id b.run_id
    && a.classification == b.classification
    && a.summary == b.summary
    && same_option a.detail b.detail
    && same_bool a.retryable b.retryable

-- Python's `first or second`, on texts.
abbrev or_text : Option String → String → String
or_text none second = second
or_text (some first) second = if first == "" then second else first

abbrev failure_event : FailureRow → ℕ → Event
failure_event failure sequence = record {
  sequence = sequence;
  kind = "failureRecorded";
  severity = EventSeverity.warning;
  entity_type = if is_falsy failure.run_id then "task" else "workerRun";
  entity_id = or_text failure.run_id (or_text failure.task_id failure.id);
  project_id = failure.project_id;
  task_id = failure.task_id;
  worker_id = none;
  run_id = failure.run_id;
  payload =
      ("failureID", Field.text failure.id)
      ∷ ("classification", Field.text failure.classification)
      ∷ ("retryable", Field.flag failure.retryable)
      ∷ [];
  actor = "runtime";
  created_at = failure.created_at;
}

-- The project of a failure: the one given, or that of its task.
abbrev failure_project : Option String → Option String → Db → Result (Option String)
failure_project (some project_id) task_id db = ok (some project_id)
failure_project none none db = ok none
failure_project none (some task_id) db = do
  task ← fetched (first_where (task_is task_id) db.tasks) (key_error task_id)
  ok (some task.project_id)

unfoldable pub failure_db : FailureRow → Db → Db
failure_db failure db =
    append_event (failure_event failure) (record db { failures = db.failures ++ (failure ∷ []) })

-- The references of the table `failures`.
abbrev names_none {ℓ} : {R : Type ℓ} → (String → R → Bool) → Option String → List R → Bool
names_none is_key none rows = false
names_none is_key (some k) rows = not (exists_where (is_key k) rows)

abbrev violates_failures : FailureRow → Db → Bool
violates_failures failure db =
    names_none (λ k (r : ProjectRow). r.id == k) failure.project_id db.projects
    || names_none task_is failure.task_id db.tasks
    || names_none run_is failure.run_id db.runs

abbrev replayed_or_new : FailureRow → Db → Option FailureRow → Result (String × Db)
replayed_or_new failure db (some existing) =
    if same_failure existing failure then ok (failure.id, db) else err runtime_error
replayed_or_new failure db none = do
  refuse (violates_failures failure db) integrity_error
  ok (failure.id, failure_db failure db)

-- `given` holds the arguments of `record_failure` with the texts redacted, and `fresh` the new
-- identifier.
unfoldable pub record_failure :
    Blank → ℕ → Option String → String → FailureRow → Db → Result (String × Db)
unfolding failure_db timestamp
record_failure blank clock record_id fresh given db = do
  let failure_id = or_text record_id fresh
  refuse (blank failure_id) value_error
  project ← failure_project given.project_id given.task_id db
  let failure = record given { id = failure_id; project_id = project; created_at = timestamp clock }
  replayed_or_new failure db (first_where (failure_is failure_id) db.failures)
