-- ===== src/Store/Schema/Jobs.antt =====
-- The tables of src/project_supervisor/store.py about work that a provider does outside the database:
-- its jobs, the results and failures of runs, and what waits for a human.
use chips_agent_fabric.Prelude.{string_eq, ℕ, Bool, Option, String, ◌==◌}
use chips_agent_fabric.Domain.{ApprovalState}

pub data LaunchState : Type 0 where
  prepared launching bound terminal uncertain : LaunchState

pub data CollectionState : Type 0 where
  pending collected not_available uncertain : CollectionState

pub data ReconciliationState : Type 0 where
  unknown known_running known_completed known_failed known_cancelled provider_not_found
        provider_unreachable :
      ReconciliationState

-- The nine columns `supports_...`.
pub record Supports : Type 0 where
  pub reconcile : Bool
  pub resume : Bool
  pub cancel : Bool
  pub durable_cancel : Bool
  pub provider_idempotency : Bool
  pub stream_reconnect : Bool
  pub repeatable_collect : Bool
  pub idempotent_launch_lookup : Bool
  pub durable_launch_registry : Bool

-- The columns that name a job at its provider or at a runtime.
pub record Handle : Type 0 where
  pub handle_version : ℕ
  pub provider_job_id : Option String
  pub provider_session_id : Option String
  pub runtime_pid : Option ℕ
  pub runtime_host : Option String
  pub runtime_identity : Option String
  pub adapter_metadata : String

pub record ProviderJobRow : Type 0 where
  pub id : String
  pub run_id : String
  pub task_id : String
  pub worker_id : String
  pub adapter_type : String
  pub adapter_instance_id : String
  pub provider : String
  pub launch_generation : ℕ
  pub idempotency_key : String
  pub launch_state : LaunchState
  pub reconciliation_state : ReconciliationState
  pub result_collection_state : CollectionState
  pub supports : Supports
  pub protocol_version : ℕ
  pub handle : Handle
  pub created_at : ℕ
  pub launched_at : Option ℕ
  pub last_reconciled_at : Option ℕ
  pub result_collected_at : Option ℕ
  pub updated_at : ℕ

-- The JSON columns are their texts; `confidence` is the text of the number.
pub record ResultRow : Type 0 where
  pub run_id : String
  pub summary : String
  pub changed_files : String
  pub commands_run : String
  pub tests : String
  pub artifacts : String
  pub commit_hash : Option String
  pub blockers : String
  pub confidence : Option String
  pub recommended_next_actions : String
  pub created_at : ℕ

pub record ApprovalRow : Type 0 where
  pub id : String
  pub project_id : String
  pub task_id : Option String
  pub permission_class : String
  pub action_type : String
  pub action_payload : String
  pub state : ApprovalState
  pub requested_at : ℕ
  pub resolved_at : Option ℕ
  pub requested_by : String
  pub resolved_by : Option String
  pub reason : Option String

pub record FailureRow : Type 0 where
  pub id : String
  pub project_id : Option String
  pub task_id : Option String
  pub run_id : Option String
  pub classification : String
  pub summary : String
  pub detail : Option String
  pub retryable : Bool
  pub created_at : ℕ

abbrev pub job_of : String → ProviderJobRow → Bool
job_of k r = r.run_id == k

abbrev pub result_of : String → ResultRow → Bool
result_of k r = r.run_id == k
