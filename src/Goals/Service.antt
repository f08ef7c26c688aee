-- ===== src/Goals/Service.antt =====
-- Human control of autonomous goals: `GoalService` of src/project_supervisor/autonomy.py.
use chips_agent_fabric.Goals.Text.{steered_text}
use chips_agent_fabric.Store.Tasks.{project_is}
use chips_agent_fabric.Sql.{exists_where, first_where}
use mathlib.Core.Option
use chips_agent_fabric.Prelude.{
  none, some, ℕ, String, Bool, false, ◌==◌, string_eq, nat_eq, [], ◌∷◌, ◌++◌, ◌&&◌, not, ◌+◌, ltb,
  if◌then◌else◌, Option,
}
use chips_agent_fabric.Store.Schema.{Field, append_event, timestamp}
use chips_agent_fabric.Store.Error.{
  Result, refuse, fetched, ◌>>=◌, ◌>>◌, key_error, value_error, integrity_error,
}
use chips_agent_fabric.Domain.{EventSeverity}
use chips_agent_fabric.Goals.{
  new_goal, mode_text, text_or_null, stopped_goal, paused_goal, steered_goal, resumed_goal,
  changed_goal, is_paused, goal_event, steer_of, goal_is, get_goal, exists_where, project_is,
  is_paused_as, first_where, require_mutable, GoalDb, GoalRow, SteerRow, PauseMode,
}

-- `str.strip` leaves nothing, and `redact_sensitive`.
module _ (blank : String → Bool) (redact : String → String) where
  -- `budgets` is the JSON text of the budgets, `goal_id` the given or the new identifier.
  unfoldable pub create_goal :
      ℕ → String → String → String → String → String → GoalDb → Result (GoalRow × GoalDb)
  create_goal clock project_id intent budgets goal_id actor db = do
    refuse (blank intent) value_error
    project ← fetched (first_where (project_is project_id) db.store.projects) (key_error project_id)
    let now = timestamp clock
    let row = new_goal now project_id (redact intent) budgets goal_id
    refuse (exists_where (goal_is goal_id) db.goals) integrity_error
    get_goal goal_id (record db {
      goals = db.goals ++ (row ∷ []);
      store =
          append_event
            (goal_event "goalCreated" EventSeverity.notice row
              (("state", Field.text "created") ∷ ("budgets", Field.text budgets) ∷ []) actor now)
            db.store;
    })

  unfoldable pub pause :
      ℕ → String → PauseMode → Option String → String → GoalDb → Result (GoalRow × GoalDb)
  pause clock goal_id mode reason actor db = do
    goal ← require_mutable goal_id db
    if is_paused_as mode goal.state
        then get_goal goal_id db
        else get_goal goal_id (
            changed_goal (paused_goal (timestamp clock) mode) "goalPaused" EventSeverity.notice goal
              (("mode", Field.text (mode_text mode))
                ∷ ("reason", text_or_null (Option.map redact reason))
                ∷ [])
              actor (timestamp clock) db)

  unfoldable pub resume : ℕ → String → Option String → String → GoalDb → Result (GoalRow × GoalDb)
  resume clock goal_id reason actor db = do
    goal ← fetched (first_where (goal_is goal_id) db.goals) (key_error goal_id)
    refuse (not (is_paused goal.state)) value_error
    get_goal goal_id (
        changed_goal (resumed_goal (timestamp clock)) "goalResumed" EventSeverity.notice goal
          (("reason", text_or_null (Option.map redact reason)) ∷ []) actor (timestamp clock) db)

  unfoldable pub stop : ℕ → String → String → String → GoalDb → Result (GoalRow × GoalDb)
  stop clock goal_id reason actor db = do
    refuse (blank reason) value_error
    goal ← require_mutable goal_id db
    get_goal goal_id (
        changed_goal (stopped_goal (timestamp clock) (redact reason)) "goalStopped"
          EventSeverity.warning goal (("reason", Field.text (redact reason)) ∷ []) actor
          (timestamp clock) db)

  abbrev pub bad_priority : Option ℕ → Bool
  bad_priority none = false
  bad_priority (some p) = ltb 100 p

  abbrev number_or_null : Option ℕ → Field
  number_or_null none = Field.null
  number_or_null (some n) = Field.number n

  -- The writes of `steer`; `safe` is the redacted instruction.
  abbrev pub steered_db : ℕ → String → String → Option ℕ → Bool → String → GoalRow → GoalDb → GoalDb
  steered_db now goal_id safe priority preserve_valid_work actor goal db =
      let sequence = goal.steer_version + 1 in
      let row : SteerRow = record {
        goal_id = goal_id;
        sequence = sequence;
        instruction = safe;
        priority = priority;
        preserve_valid_work = preserve_valid_work;
        actor = actor;
        created_at = now;
      } in
      changed_goal (steered_goal now (steered_text goal.effective_intent sequence safe) sequence)
        "goalSteered" EventSeverity.notice goal
        (("steerVersion", Field.number sequence)
          ∷ ("instruction", Field.text safe)
          ∷ ("priority", number_or_null priority)
          ∷ ("preserveValidWork", Field.flag preserve_valid_work)
          ∷ [])
        actor now (record db { steers = db.steers ++ (row ∷ []) })

  unfoldable pub steer :
      ℕ → String → String → Option ℕ → Bool → String → GoalDb → Result (GoalRow × GoalDb)
  steer clock goal_id instruction priority preserve_valid_work actor db = do
    refuse (blank instruction) value_error
    refuse (bad_priority priority) value_error
    goal ← require_mutable goal_id db
    let sequence = goal.steer_version + 1
    refuse (exists_where (λ s. steer_of goal_id s && s.sequence == sequence) db.steers)
        integrity_error
    get_goal goal_id (
        steered_db (timestamp clock) goal_id (redact instruction) priority preserve_valid_work actor
          goal db)
