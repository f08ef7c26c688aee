-- ===== src/Goals.antt =====
-- Autonomous goals of src/project_supervisor/autonomy.py: their states, their rows, and what a control
-- operation does to a row.
pub mod Text
pub mod Service
pub mod Control
pub mod Steering
pub mod Resuming
use chips_agent_fabric.Store.Tasks.{project_is}
use chips_agent_fabric.Sql.{exists_where, first_where, update_where}
use chips_agent_fabric.Prelude.{
  nat_eq, coalesce, none, some, ℕ, String, ◌≡◌, arith, Bool, true, false, List, ◌==◌, string_eq, [],
  ◌∷◌, ◌++◌, ◌&&◌, ◌||◌, not, ◌+◌, ltb, if◌then◌else◌, Option,
}
use chips_agent_fabric.Store.Schema.{Db, Field, Event, append_event, timestamp}
use chips_agent_fabric.Store.Error.{
  integrity_error, key_error, value_error, Result, ok, refuse, fetched, ◌>>=◌, ◌>>◌,
}
use chips_agent_fabric.Domain.{EventSeverity}

pub data GoalState : Type 0 where
  created running soft_paused hard_paused stopped terminated : GoalState

pub data PauseMode : Type 0 where
  soft hard : PauseMode

pub data TerminationReason : Type 0 where
  success blocked no_progress iteration_limit budget_limit repeated_failure safety_boundary
        permission_required human_escalation user_stopped :
      TerminationReason

abbrev pub is_paused : GoalState → Bool
is_paused GoalState.soft_paused = true
is_paused GoalState.hard_paused = true
is_paused _ = false

-- `{GoalState.STOPPED, GoalState.TERMINATED}`
abbrev pub is_ended : GoalState → Bool
is_ended GoalState.stopped = true
is_ended GoalState.terminated = true
is_ended _ = false

abbrev pub pause_target : PauseMode → GoalState
pause_target PauseMode.soft = GoalState.soft_paused
pause_target PauseMode.hard = GoalState.hard_paused

-- Does the goal stand in the pause that is asked for?
abbrev pub is_paused_as : PauseMode → GoalState → Bool
is_paused_as PauseMode.soft GoalState.soft_paused = true
is_paused_as PauseMode.hard GoalState.hard_paused = true
is_paused_as _ _ = false

abbrev pub mode_text : PauseMode → String
mode_text PauseMode.soft = "soft"
mode_text PauseMode.hard = "hard"

abbrev pub text_or_null : Option String → Field
text_or_null none = Field.null
text_or_null (some t) = Field.text t

pub record GoalRow : Type 0 where
  pub id : String
  pub project_id : String
  pub intent : String
  pub effective_intent : String
  pub state : GoalState
  pub pause_mode : Option PauseMode
  pub budgets : String
  pub steer_version : ℕ
  pub termination_reason : Option TerminationReason
  pub termination_detail : Option String
  pub version : ℕ
  pub created_at : ℕ
  pub updated_at : ℕ
  pub started_at : Option ℕ
  pub finished_at : Option ℕ

pub record SteerRow : Type 0 where
  pub goal_id : String
  pub sequence : ℕ
  pub instruction : String
  pub priority : Option ℕ
  pub preserve_valid_work : Bool
  pub actor : String
  pub created_at : ℕ

-- The tables of the goals beside those of the store. The random id of a steer is left out.
pub record GoalDb : Type 0 where
  pub store : Db
  pub goals : List GoalRow
  pub steers : List SteerRow

abbrev pub goal_is : String → GoalRow → Bool
goal_is k r = r.id == k

abbrev pub steer_of : String → SteerRow → Bool
steer_of k r = r.goal_id == k

abbrev pub goal_event :
    String → EventSeverity → GoalRow → List (String × Field) → String → ℕ → ℕ → Event
goal_event kind severity goal payload actor now sequence = record {
  sequence = sequence;
  kind = kind;
  severity = severity;
  entity_type = "goal";
  entity_id = goal.id;
  project_id = some goal.project_id;
  task_id = none;
  worker_id = none;
  run_id = none;
  payload = payload;
  actor = actor;
  created_at = now;
}

-- `UPDATE autonomous_goals SET ... WHERE id=?`, and the event of the change.
abbrev pub changed_goal :
    (GoalRow → GoalRow)
    → String
    → EventSeverity
    → GoalRow
    → List (String × Field)
    → String
    → ℕ
    → GoalDb
    → GoalDb
changed_goal change kind severity goal payload actor now db = record db {
  goals = update_where (goal_is goal.id) change db.goals;
  store = append_event (goal_event kind severity goal payload actor now) db.store;
}

unfoldable pub get_goal : String → GoalDb → Result (GoalRow × GoalDb)
get_goal goal_id db = do
  row ← fetched (first_where (goal_is goal_id) db.goals) (key_error goal_id)
  ok (row, db)

-- `_require_mutable`
unfoldable pub require_mutable : String → GoalDb → Result GoalRow
require_mutable goal_id db = do
  goal ← fetched (first_where (goal_is goal_id) db.goals) (key_error goal_id)
  refuse (is_ended goal.state) value_error
  ok goal

abbrev pub new_goal : ℕ → String → String → String → String → GoalRow
new_goal now project_id intent budgets goal_id = record {
  id = goal_id;
  project_id = project_id;
  intent = intent;
  effective_intent = intent;
  state = GoalState.created;
  pause_mode = none;
  budgets = budgets;
  steer_version = 0;
  termination_reason = none;
  termination_detail = none;
  version = 1;
  created_at = now;
  updated_at = now;
  started_at = none;
  finished_at = none;
}

abbrev pub paused_goal : ℕ → PauseMode → GoalRow → GoalRow
paused_goal now mode r = record r {
  state = pause_target mode;
  pause_mode = some mode;
  updated_at = now;
  version = r.version + 1;
}

abbrev pub resumed_goal : ℕ → GoalRow → GoalRow
resumed_goal now r = record r {
  state = GoalState.running;
  pause_mode = none;
  updated_at = now;
  started_at = coalesce r.started_at (some now);
  version = r.version + 1;
}

abbrev pub stopped_goal : ℕ → String → GoalRow → GoalRow
stopped_goal now reason r = record r {
  state = GoalState.stopped;
  pause_mode = none;
  termination_reason = some TerminationReason.user_stopped;
  termination_detail = some reason;
  finished_at = some now;
  updated_at = now;
  version = r.version + 1;
}

abbrev pub steered_goal : ℕ → String → ℕ → GoalRow → GoalRow
steered_goal now effective sequence r = record r {
  effective_intent = effective;
  steer_version = sequence;
  updated_at = now;
  version = r.version + 1;
}
