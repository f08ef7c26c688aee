-- ===== src/Scheduler.antt =====
-- src/project_supervisor/scheduler.py: the data of the scheduler, with its classes of domain.py. The
-- texts that only explain a decision (`detail`, `explanation`) are left out.
pub mod Sorting
pub mod Order
pub mod Constraints
pub mod Score
pub mod Routing
pub mod Eligible
pub mod Counts
pub mod Best
pub mod Reviewing
pub mod Shuffled
use chips_agent_fabric.Prelude.{
  ℕ, String, Bool, true, false, List, [], ◌∷◌, Option, ◌==◌, string_eq, if◌then◌else◌, not, ◌&&◌,
  contains,
}
use chips_agent_fabric.Domain.{
  Harness, Provider, WorkerState, NodeState, ResourceState, ExecutionTopology,
}

-- What the code uses of Python's `float`: the arithmetic of IEEE 754 is a parameter. `rounded` is
-- `round(_, 9)`.
pub record FloatOps {ℓ} (F : Type ℓ) : Type ℓ where
  pub of_nat : ℕ → F
  pub half : F
  pub quarter : F
  pub add : F → F → F
  pub sub : F → F → F
  pub mul : F → F → F
  pub div : F → F → F
  pub neg : F → F
  pub rounded : F → F
  pub less : F → F → Bool
  pub same : F → F → Bool

pub record ModelDescriptor : Type 0 where
  pub identifier : String
  pub display_name : String
  pub provider : Provider
  pub context_variant : Option String
  pub context_window_tokens : Option ℕ

pub record WorkerSnapshot {ℓ} (F : Type ℓ) : Type ℓ where
  pub id : String
  pub node_id : String
  pub harness : Harness
  pub provider : Provider
  pub model : ModelDescriptor
  pub state : WorkerState
  pub node_state : NodeState
  pub resource_state : ResourceState
  pub capabilities : List String
  pub code_write_allowed : Bool
  pub privacy_allowed : Bool
  pub quality_score : F
  pub reliability_score : F
  pub expected_latency_seconds : F
  pub monetary_cost_score : F
  pub node_load : F
  pub running_tasks : ℕ

pub record SchedulerWeights {ℓ} (F : Type ℓ) : Type ℓ where
  pub capability_fit : F
  pub expected_quality : F
  pub availability : F
  pub quota_health : F
  pub monetary_cost : F
  pub latency : F
  pub historical_reliability : F
  pub node_load : F
  pub privacy : F
  pub context_fit : F

pub record SchedulerConfig {ℓ} (F : Type ℓ) : Type ℓ where
  pub policy_version : String
  pub weights : SchedulerWeights F

-- Of `ResourceRoutingEvidence`, what the score reads.
pub record ResourceRoutingEvidence {ℓ} (F : Type ℓ) : Type ℓ where
  pub worker_id : String
  pub health_score : F

pub data ReasonCode : Type 0 where
  node_unavailable worker_unavailable resource_unavailable capability_mismatch code_write_forbidden
        privacy_mismatch context_unknown context_insufficient human_approval_required
        reviewer_unavailable panel_size_unavailable :
      ReasonCode

pub record Rejection : Type 0 where
  pub worker_id : String
  pub reason_code : ReasonCode

-- The dictionary `components` by its keys.
pub record Components {ℓ} (F : Type ℓ) : Type ℓ where
  pub capability_fit : F
  pub expected_quality : F
  pub availability : F
  pub quota_health : F
  pub monetary_cost : F
  pub latency : F
  pub historical_reliability : F
  pub node_load : F
  pub privacy : F
  pub context_fit : F

pub record CandidateScore {ℓ} (F : Type ℓ) : Type ℓ where
  pub worker_id : String
  pub score : F
  pub components : Components F

pub record RoutingDecision {ℓ} (F : Type ℓ) : Type ℓ where
  pub topology : ExecutionTopology
  pub selected_worker_ids : List String
  pub candidates : List (CandidateScore F)
  pub rejected : List Rejection
  pub policy_version : String

-- `required <= capabilities`: no element of `required - capabilities`.
abbrev pub covers : List String → List String → Bool
covers capabilities [] = true
covers capabilities (c ∷ required) = contains capabilities c && covers capabilities required
