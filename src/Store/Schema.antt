-- ===== src/Store/Schema.antt =====
-- The tables of src/project_supervisor/store.py that task execution reads and writes, and the event
-- journal. A row has the columns that the modelled statements use. A time is the number of seconds
-- that `timestamp` writes: it drops the microseconds of the clock, and its texts compare as times.
pub mod Jobs
pub use Jobs.*
use chips_agent_fabric.Prelude.{
  Bool, true, false, none, some, not, contains, Option, string_eq, any, if◌then◌else◌, ℕ, suc, ◌/◌,
  List, [], ◌∷◌, ◌++◌, String, ◌==◌, length,
}
use chips_agent_fabric.Domain.{
  ProjectPhase, TaskState, RunState, WorkerState, ResourceState, EventSeverity, ExecutionTopology,
  PermissionClass, ApprovalState,
}

pub record ProjectRow : Type 0 where
  pub id : String
  pub name : String
  pub root_path : String
  pub goal : String
  pub phase : ProjectPhase
  pub created_at : ℕ
  pub updated_at : ℕ

pub record TaskRequirements : Type 0 where
  pub labels : List String
  pub required_capabilities : List String
  pub permission_class : PermissionClass
  pub approval_state : ApprovalState
  pub minimum_context_tokens : Option ℕ
  pub privacy_sensitive : Bool
  pub code_write_required : Bool
  pub panel_size : ℕ
  pub preferred_workers : List String

pub record TaskRow : Type 0 where
  pub id : String
  pub project_id : String
  pub reference : String
  pub title : String
  pub description : String
  pub state : TaskState
  pub topology : ExecutionTopology
  pub priority : ℕ
  pub requirements : TaskRequirements
  pub attempt_count : ℕ
  pub version : ℕ
  pub definition_revision : ℕ
  pub current_verification_scope_id : Option String
  pub created_at : ℕ
  pub updated_at : ℕ
  pub started_at : Option ℕ
  pub finished_at : Option ℕ

pub record DependencyRow : Type 0 where
  pub task_id : String
  pub depends_on_task_id : String

pub record WorkerRow : Type 0 where
  pub id : String
  pub provider : String
  pub model_id : Option String
  pub state : WorkerState
  pub resource_state : ResourceState
  pub last_heartbeat_at : ℕ
  pub updated_at : ℕ

pub record RunRow : Type 0 where
  pub id : String
  pub task_id : String
  pub worker_id : String
  pub session_id : Option String
  pub state : RunState
  pub process_id : Option ℕ
  pub attempt : ℕ
  pub started_at : Option ℕ
  pub last_event_at : Option ℕ
  pub timeout_at : Option ℕ
  pub ended_at : Option ℕ
  pub exit_code : Option ℕ
  pub failure_class : Option String
  pub failure_detail : Option String
  pub raw_output_reference : Option String
  pub verification_scope_id : Option String
  pub task_definition_revision : ℕ
  pub created_at : ℕ
  pub updated_at : ℕ

pub data LeaseState : Type 0 where
  active released : LeaseState

abbrev pub is_active_lease : LeaseState → Bool
is_active_lease LeaseState.active = Bool.true
is_active_lease LeaseState.released = Bool.false

pub record LeaseRow : Type 0 where
  pub task_id : String
  pub owner_id : String
  pub generation : ℕ
  pub state : LeaseState
  pub acquired_at : ℕ
  pub heartbeat_at : ℕ
  pub expires_at : ℕ
  pub released_at : Option ℕ

pub record ScopeRow : Type 0 where
  pub id : String
  pub project_id : String
  pub task_id : String
  pub task_definition_revision : ℕ
  pub sealed_at : Option ℕ
  pub definition_sha256 : String

pub record ScopeItemRow : Type 0 where
  pub scope_id : String
  pub criterion_id : String
  pub ordinal : ℕ
  pub definition_sha256 : String

-- One value in the JSON payload of an event.
pub data Field : Type 0 where
  null : Field
  text : String → Field
  texts : List String → Field
  number : ℕ → Field
  flag : Bool → Field
  flags : List (String × Bool) → Field
  task_state : TaskState → Field
  run_state : RunState → Field
  worker_state : WorkerState → Field
  phase : ProjectPhase → Field
  topology : ExecutionTopology → Field

-- `{**base, **extra}`: a key of `extra` replaces the same key of `base`.
unfoldable pub merge_fields : List (String × Field) → List (String × Field) → List (String × Field)
merge_fields [] extra = extra
merge_fields ((k, v) ∷ base) extra =
    let rest = merge_fields base extra in if any (λ f. f.0 == k) extra then rest else (k, v) ∷ rest

-- The random `event_id` and the human-readable `summary` are left out.
pub record Event : Type 0 where
  pub sequence : ℕ
  pub kind : String
  pub severity : EventSeverity
  pub entity_type : String
  pub entity_id : String
  pub project_id : Option String
  pub task_id : Option String
  pub worker_id : Option String
  pub run_id : Option String
  pub payload : List (String × Field)
  pub actor : String
  pub created_at : ℕ

pub record Db : Type 0 where
  pub projects : List ProjectRow
  pub tasks : List TaskRow
  pub dependencies : List DependencyRow
  pub workers : List WorkerRow
  pub runs : List RunRow
  pub leases : List LeaseRow
  pub provider_jobs : List ProviderJobRow
  pub results : List ResultRow
  pub approvals : List ApprovalRow
  pub failures : List FailureRow
  pub scopes : List ScopeRow
  pub scope_items : List ScopeItemRow
  pub events : List Event
  -- The identifiers of the tables `sessions` and `models`, which rows refer to.
  pub session_ids : List String
  pub model_ids : List String

-- `timestamp` of a clock that counts microseconds.
unfoldable pub timestamp : ℕ → ℕ
timestamp clock = clock / 1000000

-- `_append_event`: the journal is append-only, and its row id is the next sequence number.
abbrev pub append_event : (ℕ → Event) → Db → Db
append_event event db = record db { events = db.events ++ (event (suc (length db.events)) ∷ []) }

abbrev pub task_is : String → TaskRow → Bool
task_is k r = r.id == k

abbrev pub worker_is : String → WorkerRow → Bool
worker_is k r = r.id == k

abbrev pub run_is : String → RunRow → Bool
run_is k r = r.id == k

abbrev pub lease_is : String → LeaseRow → Bool
lease_is k r = r.task_id == k

-- A value that `REFERENCES` admits is NULL or the identifier of a row.
abbrev pub is_unknown : List String → Option String → Bool
is_unknown ids none = false
is_unknown ids (some k) = not (contains ids k)
