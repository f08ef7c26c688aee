-- ===== src/Domain/States.antt =====
-- The states of persisted entities: the `StrEnum` classes of src/project_supervisor/domain.py.
-- Members stand in the order of the source, and are compared by their position.
use chips_agent_fabric.Prelude.{ℕ, ◌≡◌, refl, List, [], ◌∷◌, get_or, Eq, enum_eq}

pub data ProjectPhase : Type 0 where
  initializing planning dispatching working reviewing replanning waiting_for_human paused blocked
        done failed :
      ProjectPhase

abbrev pub project_phase_members : List ProjectPhase
project_phase_members =
    ProjectPhase.initializing ∷ ProjectPhase.planning ∷ ProjectPhase.dispatching
    ∷ ProjectPhase.working ∷ ProjectPhase.reviewing ∷ ProjectPhase.replanning
    ∷ ProjectPhase.waiting_for_human ∷ ProjectPhase.paused ∷ ProjectPhase.blocked
    ∷ ProjectPhase.done ∷ ProjectPhase.failed ∷ []

abbrev pub project_phase_position : ProjectPhase → ℕ
project_phase_position ProjectPhase.initializing = 0
project_phase_position ProjectPhase.planning = 1
project_phase_position ProjectPhase.dispatching = 2
project_phase_position ProjectPhase.working = 3
project_phase_position ProjectPhase.reviewing = 4
project_phase_position ProjectPhase.replanning = 5
project_phase_position ProjectPhase.waiting_for_human = 6
project_phase_position ProjectPhase.paused = 7
project_phase_position ProjectPhase.blocked = 8
project_phase_position ProjectPhase.done = 9
project_phase_position ProjectPhase.failed = 10

pub get_or-project_phase_position :
    (s : ProjectPhase)
    → get_or project_phase_members (project_phase_position s) ProjectPhase.initializing ≡ s
get_or-project_phase_position ProjectPhase.initializing = refl
get_or-project_phase_position _ = refl

instance abbrev pub ProjectPhase_eq : Eq ProjectPhase
ProjectPhase_eq =
    enum_eq project_phase_position (λ i. get_or project_phase_members i ProjectPhase.initializing)
      get_or-project_phase_position

pub data TaskState : Type 0 where
  draft queued ready running waiting reviewing blocked interrupted succeeded failed cancelled :
      TaskState

abbrev pub task_state_members : List TaskState
task_state_members =
    TaskState.draft ∷ TaskState.queued ∷ TaskState.ready ∷ TaskState.running ∷ TaskState.waiting
    ∷ TaskState.reviewing ∷ TaskState.blocked ∷ TaskState.interrupted ∷ TaskState.succeeded
    ∷ TaskState.failed ∷ TaskState.cancelled ∷ []

abbrev pub task_state_position : TaskState → ℕ
task_state_position TaskState.draft = 0
task_state_position TaskState.queued = 1
task_state_position TaskState.ready = 2
task_state_position TaskState.running = 3
task_state_position TaskState.waiting = 4
task_state_position TaskState.reviewing = 5
task_state_position TaskState.blocked = 6
task_state_position TaskState.interrupted = 7
task_state_position TaskState.succeeded = 8
task_state_position TaskState.failed = 9
task_state_position TaskState.cancelled = 10

pub get_or-task_state_position :
    (s : TaskState) → get_or task_state_members (task_state_position s) TaskState.draft ≡ s
get_or-task_state_position TaskState.draft = refl
get_or-task_state_position _ = refl

instance abbrev pub TaskState_eq : Eq TaskState
TaskState_eq =
    enum_eq task_state_position (λ i. get_or task_state_members i TaskState.draft)
      get_or-task_state_position

pub data RunState : Type 0 where
  starting running waiting completed failed cancelled timed_out interrupted auth_required
        rate_limited :
      RunState

abbrev pub run_state_members : List RunState
run_state_members =
    RunState.starting ∷ RunState.running ∷ RunState.waiting ∷ RunState.completed ∷ RunState.failed
    ∷ RunState.cancelled ∷ RunState.timed_out ∷ RunState.interrupted ∷ RunState.auth_required
    ∷ RunState.rate_limited ∷ []

abbrev pub run_state_position : RunState → ℕ
run_state_position RunState.starting = 0
run_state_position RunState.running = 1
run_state_position RunState.waiting = 2
run_state_position RunState.completed = 3
run_state_position RunState.failed = 4
run_state_position RunState.cancelled = 5
run_state_position RunState.timed_out = 6
run_state_position RunState.interrupted = 7
run_state_position RunState.auth_required = 8
run_state_position RunState.rate_limited = 9

pub get_or-run_state_position :
    (s : RunState) → get_or run_state_members (run_state_position s) RunState.starting ≡ s
get_or-run_state_position RunState.starting = refl
get_or-run_state_position _ = refl

instance abbrev pub RunState_eq : Eq RunState
RunState_eq =
    enum_eq run_state_position (λ i. get_or run_state_members i RunState.starting)
      get_or-run_state_position

pub data WorkerState : Type 0 where
  idle starting running waiting rate_limited stopping offline failed : WorkerState

abbrev pub worker_state_members : List WorkerState
worker_state_members =
    WorkerState.idle ∷ WorkerState.starting ∷ WorkerState.running ∷ WorkerState.waiting
    ∷ WorkerState.rate_limited ∷ WorkerState.stopping ∷ WorkerState.offline ∷ WorkerState.failed
    ∷ []

abbrev pub worker_state_position : WorkerState → ℕ
worker_state_position WorkerState.idle = 0
worker_state_position WorkerState.starting = 1
worker_state_position WorkerState.running = 2
worker_state_position WorkerState.waiting = 3
worker_state_position WorkerState.rate_limited = 4
worker_state_position WorkerState.stopping = 5
worker_state_position WorkerState.offline = 6
worker_state_position WorkerState.failed = 7

pub get_or-worker_state_position :
    (s : WorkerState) → get_or worker_state_members (worker_state_position s) WorkerState.idle ≡ s
get_or-worker_state_position WorkerState.idle = refl
get_or-worker_state_position _ = refl

instance abbrev pub WorkerState_eq : Eq WorkerState
WorkerState_eq =
    enum_eq worker_state_position (λ i. get_or worker_state_members i WorkerState.idle)
      get_or-worker_state_position
