-- ===== src/StateMachine.antt =====
-- src/project_supervisor/state_machine.py: which transitions of a task, a worker run and a project
-- the store accepts.
pub mod Terminal
pub mod History
use chips_agent_fabric.Prelude.{Bool, ◌||◌, List, [], ◌∷◌, Eq, ◌==◌, contains}
use chips_agent_fabric.Domain.{TaskState, RunState, ProjectPhase}

-- A table maps a state to its targets, none where the mapping lacks the state.
pub record TransitionTable (S : Type 0) : Type 0 where
  pub transitions : S → List S

unfoldable pub allows : {S : Type 0} ⦃e : Eq S⦄ → TransitionTable S → S → S → Bool
allows table current target = current == target || contains (table.transitions current) target

abbrev task_targets : TaskState → List TaskState
task_targets TaskState.draft = TaskState.queued ∷ TaskState.cancelled ∷ []
task_targets TaskState.queued =
    TaskState.ready ∷ TaskState.blocked ∷ TaskState.cancelled ∷ TaskState.failed ∷ []
task_targets TaskState.ready =
    TaskState.running ∷ TaskState.blocked ∷ TaskState.cancelled ∷ TaskState.failed ∷ []
task_targets TaskState.running =
    TaskState.waiting ∷ TaskState.reviewing ∷ TaskState.succeeded ∷ TaskState.failed
    ∷ TaskState.cancelled ∷ TaskState.interrupted ∷ []
task_targets TaskState.waiting =
    TaskState.ready ∷ TaskState.running ∷ TaskState.blocked ∷ TaskState.failed ∷ TaskState.cancelled
    ∷ []
task_targets TaskState.reviewing =
    TaskState.ready ∷ TaskState.succeeded ∷ TaskState.failed ∷ TaskState.blocked
    ∷ TaskState.cancelled ∷ []
task_targets TaskState.blocked = TaskState.ready ∷ TaskState.cancelled ∷ TaskState.failed ∷ []
task_targets TaskState.interrupted = TaskState.ready ∷ TaskState.failed ∷ TaskState.cancelled ∷ []
task_targets TaskState.succeeded = []
task_targets TaskState.failed = []
task_targets TaskState.cancelled = []

abbrev pub task_transitions : TransitionTable TaskState
task_transitions = record { transitions = task_targets }

abbrev run_targets : RunState → List RunState
run_targets RunState.starting =
    RunState.running ∷ RunState.failed ∷ RunState.cancelled ∷ RunState.auth_required
    ∷ RunState.rate_limited ∷ []
run_targets RunState.running =
    RunState.waiting ∷ RunState.completed ∷ RunState.failed ∷ RunState.cancelled
    ∷ RunState.timed_out ∷ RunState.interrupted ∷ RunState.auth_required ∷ RunState.rate_limited
    ∷ []
run_targets RunState.waiting =
    RunState.running ∷ RunState.completed ∷ RunState.failed ∷ RunState.cancelled ∷ []
run_targets RunState.completed = []
run_targets RunState.failed = []
run_targets RunState.cancelled = []
run_targets RunState.timed_out = []
run_targets RunState.interrupted = []
run_targets RunState.auth_required = []
run_targets RunState.rate_limited = []

abbrev pub run_transitions : TransitionTable RunState
run_transitions = record { transitions = run_targets }

abbrev project_targets : ProjectPhase → List ProjectPhase
project_targets ProjectPhase.initializing = ProjectPhase.planning ∷ ProjectPhase.failed ∷ []
project_targets ProjectPhase.planning =
    ProjectPhase.dispatching ∷ ProjectPhase.waiting_for_human ∷ ProjectPhase.failed ∷ []
project_targets ProjectPhase.dispatching =
    ProjectPhase.working ∷ ProjectPhase.blocked ∷ ProjectPhase.failed ∷ []
project_targets ProjectPhase.working =
    ProjectPhase.reviewing ∷ ProjectPhase.replanning ∷ ProjectPhase.waiting_for_human
    ∷ ProjectPhase.paused ∷ ProjectPhase.blocked ∷ ProjectPhase.failed ∷ []
project_targets ProjectPhase.reviewing =
    ProjectPhase.replanning ∷ ProjectPhase.dispatching ∷ ProjectPhase.done ∷ ProjectPhase.failed
    ∷ []
project_targets ProjectPhase.replanning =
    ProjectPhase.dispatching ∷ ProjectPhase.waiting_for_human ∷ ProjectPhase.blocked ∷ []
project_targets ProjectPhase.waiting_for_human =
    ProjectPhase.planning ∷ ProjectPhase.dispatching ∷ ProjectPhase.paused ∷ ProjectPhase.failed
    ∷ []
project_targets ProjectPhase.paused =
    ProjectPhase.planning ∷ ProjectPhase.dispatching ∷ ProjectPhase.working ∷ ProjectPhase.failed
    ∷ []
project_targets ProjectPhase.blocked =
    ProjectPhase.planning ∷ ProjectPhase.replanning ∷ ProjectPhase.failed ∷ []
project_targets ProjectPhase.done = []
project_targets ProjectPhase.failed = []

abbrev pub project_transitions : TransitionTable ProjectPhase
project_transitions = record { transitions = project_targets }
