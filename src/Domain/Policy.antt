-- ===== src/Domain/Policy.antt =====
-- Classes that policy and routing read: further `StrEnum` classes of
-- src/project_supervisor/domain.py.
use chips_agent_fabric.Prelude.{ℕ, ◌≡◌, refl, List, [], ◌∷◌, get_or, Eq, enum_eq}

pub data NodeState : Type 0 where
  online degraded offline unprovisioned : NodeState

abbrev pub node_state_members : List NodeState
node_state_members =
    NodeState.online ∷ NodeState.degraded ∷ NodeState.offline ∷ NodeState.unprovisioned ∷ []

abbrev pub node_state_position : NodeState → ℕ
node_state_position NodeState.online = 0
node_state_position NodeState.degraded = 1
node_state_position NodeState.offline = 2
node_state_position NodeState.unprovisioned = 3

pub get_or-node_state_position :
    (s : NodeState) → get_or node_state_members (node_state_position s) NodeState.online ≡ s
get_or-node_state_position NodeState.online = refl
get_or-node_state_position _ = refl

instance abbrev pub NodeState_eq : Eq NodeState
NodeState_eq =
    enum_eq node_state_position (λ i. get_or node_state_members i NodeState.online)
      get_or-node_state_position

pub data ResourceState : Type 0 where
  available warning rate_limited budget_exhausted cooldown unknown : ResourceState

abbrev pub resource_state_members : List ResourceState
resource_state_members =
    ResourceState.available ∷ ResourceState.warning ∷ ResourceState.rate_limited
    ∷ ResourceState.budget_exhausted ∷ ResourceState.cooldown ∷ ResourceState.unknown ∷ []

abbrev pub resource_state_position : ResourceState → ℕ
resource_state_position ResourceState.available = 0
resource_state_position ResourceState.warning = 1
resource_state_position ResourceState.rate_limited = 2
resource_state_position ResourceState.budget_exhausted = 3
resource_state_position ResourceState.cooldown = 4
resource_state_position ResourceState.unknown = 5

pub get_or-resource_state_position :
    (s : ResourceState)
    → get_or resource_state_members (resource_state_position s) ResourceState.available ≡ s
get_or-resource_state_position ResourceState.available = refl
get_or-resource_state_position _ = refl

instance abbrev pub ResourceState_eq : Eq ResourceState
ResourceState_eq =
    enum_eq resource_state_position (λ i. get_or resource_state_members i ResourceState.available)
      get_or-resource_state_position

pub data ExecutionTopology : Type 0 where
  single primary_reviewer parallel_panel cheap_first_escalation fallback : ExecutionTopology

abbrev pub execution_topology_members : List ExecutionTopology
execution_topology_members =
    ExecutionTopology.single ∷ ExecutionTopology.primary_reviewer ∷ ExecutionTopology.parallel_panel
    ∷ ExecutionTopology.cheap_first_escalation ∷ ExecutionTopology.fallback ∷ []

abbrev pub execution_topology_position : ExecutionTopology → ℕ
execution_topology_position ExecutionTopology.single = 0
execution_topology_position ExecutionTopology.primary_reviewer = 1
execution_topology_position ExecutionTopology.parallel_panel = 2
execution_topology_position ExecutionTopology.cheap_first_escalation = 3
execution_topology_position ExecutionTopology.fallback = 4

pub get_or-execution_topology_position :
    (s : ExecutionTopology)
    → get_or execution_topology_members (execution_topology_position s) ExecutionTopology.single ≡ s
get_or-execution_topology_position ExecutionTopology.single = refl
get_or-execution_topology_position _ = refl

instance abbrev pub ExecutionTopology_eq : Eq ExecutionTopology
ExecutionTopology_eq =
    enum_eq execution_topology_position
      (λ i. get_or execution_topology_members i ExecutionTopology.single)
      get_or-execution_topology_position

pub data PermissionClass : Type 0 where
  green yellow red : PermissionClass

abbrev pub permission_class_members : List PermissionClass
permission_class_members = PermissionClass.green ∷ PermissionClass.yellow ∷ PermissionClass.red ∷ []

abbrev pub permission_class_position : PermissionClass → ℕ
permission_class_position PermissionClass.green = 0
permission_class_position PermissionClass.yellow = 1
permission_class_position PermissionClass.red = 2

pub get_or-permission_class_position :
    (s : PermissionClass)
    → get_or permission_class_members (permission_class_position s) PermissionClass.green ≡ s
get_or-permission_class_position PermissionClass.green = refl
get_or-permission_class_position _ = refl

instance abbrev pub PermissionClass_eq : Eq PermissionClass
PermissionClass_eq =
    enum_eq permission_class_position (λ i. get_or permission_class_members i PermissionClass.green)
      get_or-permission_class_position

pub data ApprovalState : Type 0 where
  not_required pending approved rejected expired : ApprovalState

abbrev pub approval_state_members : List ApprovalState
approval_state_members =
    ApprovalState.not_required ∷ ApprovalState.pending ∷ ApprovalState.approved
    ∷ ApprovalState.rejected ∷ ApprovalState.expired ∷ []

abbrev pub approval_state_position : ApprovalState → ℕ
approval_state_position ApprovalState.not_required = 0
approval_state_position ApprovalState.pending = 1
approval_state_position ApprovalState.approved = 2
approval_state_position ApprovalState.rejected = 3
approval_state_position ApprovalState.expired = 4

pub get_or-approval_state_position :
    (s : ApprovalState)
    → get_or approval_state_members (approval_state_position s) ApprovalState.not_required ≡ s
get_or-approval_state_position ApprovalState.not_required = refl
get_or-approval_state_position _ = refl

instance abbrev pub ApprovalState_eq : Eq ApprovalState
ApprovalState_eq =
    enum_eq approval_state_position
      (λ i. get_or approval_state_members i ApprovalState.not_required)
      get_or-approval_state_position

pub data EventSeverity : Type 0 where
  debug info notice warning error critical : EventSeverity

abbrev pub event_severity_members : List EventSeverity
event_severity_members =
    EventSeverity.debug ∷ EventSeverity.info ∷ EventSeverity.notice ∷ EventSeverity.warning
    ∷ EventSeverity.error ∷ EventSeverity.critical ∷ []

abbrev pub event_severity_position : EventSeverity → ℕ
event_severity_position EventSeverity.debug = 0
event_severity_position EventSeverity.info = 1
event_severity_position EventSeverity.notice = 2
event_severity_position EventSeverity.warning = 3
event_severity_position EventSeverity.error = 4
event_severity_position EventSeverity.critical = 5

pub get_or-event_severity_position :
    (s : EventSeverity)
    → get_or event_severity_members (event_severity_position s) EventSeverity.debug ≡ s
get_or-event_severity_position EventSeverity.debug = refl
get_or-event_severity_position _ = refl

instance abbrev pub EventSeverity_eq : Eq EventSeverity
EventSeverity_eq =
    enum_eq event_severity_position (λ i. get_or event_severity_members i EventSeverity.debug)
      get_or-event_severity_position

pub data Harness : Type 0 where
  codex claude_code grok_build google_agy local_worker mock : Harness

pub data Provider : Type 0 where
  openai anthropic xai google local mock : Provider
