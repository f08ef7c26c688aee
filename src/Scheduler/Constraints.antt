-- ===== src/Scheduler/Constraints.antt =====
-- `_hard_constraints` of src/project_supervisor/scheduler.py.
use chips_agent_fabric.Prelude.{
  ℕ, String, Bool, true, false, List, [], ◌∷◌, ◌++◌, Option, none, some, ◌==◌, not, ◌&&◌, ltb,
  if◌then◌else◌,
}
use chips_agent_fabric.Domain.{
  NodeState, NodeState_eq, WorkerState, WorkerState_eq, ResourceState, PermissionClass,
  PermissionClass_eq, ApprovalState, ApprovalState_eq,
}
use chips_agent_fabric.Store.Schema.{TaskRequirements}
use chips_agent_fabric.Scheduler.{WorkerSnapshot, Rejection, ReasonCode, covers}

-- The resource states that rule a worker out.
abbrev pub is_spent : ResourceState → Bool
is_spent ResourceState.rate_limited = true
is_spent ResourceState.budget_exhausted = true
is_spent ResourceState.cooldown = true
is_spent _ = false

-- `if bad: reject(code, ...)`
abbrev pub reject_if : Bool → String → ReasonCode → List Rejection
reject_if bad worker_id code =
    if bad then record { worker_id = worker_id; reason_code = code } ∷ [] else []

abbrev pub context_reasons : Option ℕ → Option ℕ → String → List Rejection
context_reasons none context worker_id = []
context_reasons (some needed) none worker_id = reject_if true worker_id ReasonCode.context_unknown
context_reasons (some needed) (some context) worker_id =
    reject_if (ltb context needed) worker_id ReasonCode.context_insufficient

unfoldable pub hard_constraints {ℓ} :
    {F : Type ℓ} → TaskRequirements → WorkerSnapshot F → List Rejection
hard_constraints requirements worker =
    reject_if (not (worker.node_state == NodeState.online)) worker.id ReasonCode.node_unavailable
    ++ (reject_if (not (worker.state == WorkerState.idle)) worker.id ReasonCode.worker_unavailable
        ++ (reject_if (is_spent worker.resource_state) worker.id ReasonCode.resource_unavailable
            ++ (reject_if (not (covers worker.capabilities requirements.required_capabilities))
                  worker.id ReasonCode.capability_mismatch
                ++ (reject_if (requirements.code_write_required && not worker.code_write_allowed)
                      worker.id ReasonCode.code_write_forbidden
                    ++ (reject_if (requirements.privacy_sensitive && not worker.privacy_allowed)
                          worker.id ReasonCode.privacy_mismatch
                        ++ (context_reasons requirements.minimum_context_tokens
                              worker.model.context_window_tokens worker.id
                            ++ reject_if
                                (requirements.permission_class == PermissionClass.red
                                  && not (requirements.approval_state == ApprovalState.approved))
                                worker.id ReasonCode.human_approval_required))))))

-- `constraint_rejections`
unfoldable pub constraint_rejections {ℓ} :
    {F : Type ℓ} → TaskRequirements → WorkerSnapshot F → List Rejection
unfolding hard_constraints
constraint_rejections requirements worker = hard_constraints requirements worker
