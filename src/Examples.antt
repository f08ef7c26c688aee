-- ===== src/Examples.antt =====
-- One small project, and the transactions of src/project_supervisor/store.py and the control of goals
-- of src/project_supervisor/autonomy.py run on it.
pub mod Execution
pub mod Planning
pub mod Moved
pub mod Steered
pub mod Jobs
pub mod Orphans
pub mod Approvals
pub mod Routing
use chips_agent_fabric.Store.Error.{err, ok, Result}
use chips_agent_fabric.Store.Scopes.{Digests}
use chips_agent_fabric.Prelude.{
  string_eq, ◌==◌, if◌then◌else◌, ℕ, String, Option, none, some, List, [], ◌∷◌, Bool, true, false,
}
use chips_agent_fabric.Domain.{
  ProjectPhase, TaskState, RunState, WorkerState, ResourceState, ExecutionTopology, PermissionClass,
  ApprovalState,
}
use chips_agent_fabric.Store.Schema.{
  Db, ProjectRow, TaskRow, TaskRequirements, DependencyRow, WorkerRow, RunRow, LeaseRow, LeaseState,
}
use chips_agent_fabric.Store.Dispatch.{Claim}

abbrev pub project : ProjectRow
project = record {
  id = "p";
  name = "Fabric";
  root_path = "/srv/fabric";
  goal = "ship";
  phase = ProjectPhase.initializing;
  created_at = 0;
  updated_at = 0;
}

abbrev requirements : TaskRequirements
requirements = record {
  labels = [];
  required_capabilities = [];
  permission_class = PermissionClass.green;
  approval_state = ApprovalState.not_required;
  minimum_context_tokens = none;
  privacy_sensitive = false;
  code_write_required = false;
  panel_size = 1;
  preferred_workers = [];
}

abbrev pub task : String → TaskState → TaskRow
task id state = record {
  id = id;
  project_id = "p";
  reference = id;
  title = "a task";
  description = "";
  state = state;
  topology = ExecutionTopology.single;
  priority = 50;
  requirements = requirements;
  attempt_count = 0;
  version = 3;
  definition_revision = 1;
  current_verification_scope_id = none;
  created_at = 0;
  updated_at = 0;
  started_at = none;
  finished_at = none;
}

abbrev pub worker : String → WorkerRow
worker id = record {
  id = id;
  provider = "mock";
  model_id = none;
  state = WorkerState.idle;
  resource_state = ResourceState.available;
  last_heartbeat_at = 0;
  updated_at = 0;
}

-- Two tasks, the second of which needs the first, and two idle workers.
abbrev pub fresh : Db
fresh = record {
  projects = project ∷ [];
  tasks = task "a" TaskState.ready ∷ task "b" TaskState.queued ∷ task "c" TaskState.draft ∷ [];
  dependencies = record { task_id = "b"; depends_on_task_id = "a" } ∷ [];
  workers = worker "w" ∷ worker "v" ∷ [];
  runs = [];
  leases = [];
  provider_jobs = [];
  results = [];
  approvals = [];
  failures = [];
  scopes = [];
  scope_items = [];
  events = [];
  session_ids = [];
  model_ids = [];
}

-- A claim of the first task for one worker, with a lease of ten seconds.
abbrev pub claim : ℕ → Claim
claim version = record {
  task_id = "a";
  worker_ids = "w" ∷ "w" ∷ [];
  expected_version = version;
  timeout_at = none;
  lease_owner_id = some "host";
  lease_ttl = 10000000;
  max_attempts = some 3;
  actor = "scheduler";
}

-- The identifiers of the runs of one claim, a test for blank texts, and digests, as the examples use them.
abbrev pub run_id : String → String → String
run_id suffix w = if w == "w" then suffix else "other"

abbrev pub blank : String → Bool
blank s = s == ""

abbrev pub digests : Digests
digests = record { item = λ i. i.criterion_id; scope = λ s items. s.id }

-- The database that an operation leaves, and its answer.
abbrev pub after {ℓ} : {A : Type ℓ} → Result (A × Db) → Db → Db
after (ok (_, db)) before = db
after (err _) before = before

abbrev pub answer {ℓ} : {A : Type ℓ} → Result (Option A × Db) → A → A
answer (ok (some a, _)) otherwise = a
answer (ok (none, _)) otherwise = otherwise
answer (err _) otherwise = otherwise

abbrev pub taken : Result Db → Db
taken (ok db) = db
taken (err _) = fresh
