-- ===== src/Goals/Resuming.antt =====
-- A pause of a goal in src/project_supervisor/autonomy.py and the end of it.
use mathlib.Core.Option
use chips_agent_fabric.Domain.{EventSeverity}
use chips_agent_fabric.Sql.Rewrite.{first_where-update_where}
use chips_agent_fabric.Sql.Rows.{first_where_holds}
use chips_agent_fabric.Store.Schema.{Field, timestamp}
use chips_agent_fabric.Sql.{update_where, first_where}
use chips_agent_fabric.Prelude.{
  [], ◌∷◌, ◌==◌, ap, eq_refl, ◌∙◌, eq→path, refl, none, some, ℕ, String, Bool, true, string_eq,
  nat_eq, ◌+◌, ◌≡◌, arith, Option,
}
use chips_agent_fabric.Store.Error.{ok}
use chips_agent_fabric.Goals.{
  mode_text, text_or_null, Field, pause_target, EventSeverity, is_paused, update_where,
  changed_goal, paused_goal, resumed_goal, get_goal, require_mutable, GoalDb, GoalRow, goal_is,
  GoalState, PauseMode,
}
use chips_agent_fabric.Goals.Service.{pause, resume}

changed_row :
    (goal_id : String) (change : GoalRow → GoalRow) (goal : GoalRow) (db db' : GoalDb)
    → ((r : GoalRow) → (change r).id ≡ r.id)
    → first_where (goal_is goal_id) db.goals ≡ some goal
    → db'.goals ≡ update_where (goal_is goal.id) change db.goals
    → first_where (goal_is goal_id) db'.goals ≡ some (change goal)
changed_row goal_id change goal db db' keeps found done =
    let key = eq→path goal.id goal_id (first_where_holds (goal_is goal_id) db.goals goal found) in
    ap (first_where (goal_is goal_id)) done
    ∙ first_where-update_where (goal_is goal.id) change (goal_is goal_id) db.goals
        (λ r. ap (λ k. k == goal_id) (keeps r))
    ∙ rw found (rw (eq_refl goal.id) refl)

pause_target-IsPaused : (mode : PauseMode) → is_paused (pause_target mode) ≡ true
pause_target-IsPaused PauseMode.soft = refl
pause_target-IsPaused PauseMode.hard = refl

again :
    (clock clock' : ℕ) (mode : PauseMode) (started : ℕ) (goal : GoalRow)
    → goal.state ≡ GoalState.running
    → goal.pause_mode ≡ none
    → goal.started_at ≡ some started
    → resumed_goal (timestamp clock') (paused_goal (timestamp clock) mode goal)
      ≡ record goal { updated_at = timestamp clock'; version = goal.version + 2 }
again clock clock' mode started goal runs bare began =
    let twice : goal.version + 1 + 1 ≡ goal.version + 2 = omega arith in
    rw runs (rw bare (rw began (rw twice refl)))

module _ (blank : String → Bool) (redact : String → String) where
  pause_running :
      (clock : ℕ) (goal_id : String) (mode : PauseMode) (reason : Option String) (actor : String)
      (goal : GoalRow) (db : GoalDb)
      → first_where (goal_is goal_id) db.goals ≡ some goal
      → goal.state ≡ GoalState.running
      → (db' : GoalDb) × (pause blank redact clock goal_id mode reason actor db
          ≡ ok (paused_goal (timestamp clock) mode goal, db'))
        × (first_where (goal_is goal_id) db'.goals ≡ some (paused_goal (timestamp clock) mode goal))
  unfolding pause require_mutable get_goal
  pause_running clock goal_id mode reason actor goal db found runs =
      let db' =
        changed_goal (paused_goal (timestamp clock) mode) "goalPaused" EventSeverity.notice goal
          (("mode", Field.text (mode_text mode))
            ∷ ("reason", text_or_null (Option.map redact reason))
            ∷ [])
          actor (timestamp clock) db in
      let shown =
        changed_row goal_id (paused_goal (timestamp clock) mode) goal db db' (λ r. refl) found
          refl in
      (db', rw found (ground (arith, runs, shown)), shown)

  resume_paused :
      (clock : ℕ) (goal_id : String) (reason : Option String) (actor : String) (goal : GoalRow)
      (db : GoalDb)
      → first_where (goal_is goal_id) db.goals ≡ some goal
      → is_paused goal.state ≡ true
      → (db' : GoalDb) × (resume blank redact clock goal_id reason actor db
          ≡ ok (resumed_goal (timestamp clock) goal, db'))
  unfolding resume get_goal
  resume_paused clock goal_id reason actor goal db found paused =
      let db' =
        changed_goal (resumed_goal (timestamp clock)) "goalResumed" EventSeverity.notice goal
          (("reason", text_or_null (Option.map redact reason)) ∷ []) actor (timestamp clock) db in
      let shown =
        changed_row goal_id (resumed_goal (timestamp clock)) goal db db' (λ r. refl) found refl in
      (db', rw found (rw paused (ground (arith, shown))))

  -- A goal that runs can be paused, softly or hard, and the paused goal can be resumed; both always
  -- succeed, and the resumed goal is the first one again but for the time of its update and its
  -- version, which counts both operations.
  pub pause-resume :
      (clock clock' : ℕ) (goal_id : String) (mode : PauseMode) (reason reason' : Option String)
      (actor actor' : String) (started : ℕ) (goal : GoalRow) (db : GoalDb)
      → first_where (goal_is goal_id) db.goals ≡ some goal
      → goal.state ≡ GoalState.running
      → goal.pause_mode ≡ none
      → goal.started_at ≡ some started
      → (middle : GoalRow) × (db' : GoalDb) × (last : GoalRow) × (db'' : GoalDb) × (pause blank
            redact clock goal_id mode reason actor db
          ≡ ok (middle, db'))
        × (resume blank redact clock' goal_id reason' actor' db' ≡ ok (last, db''))
        × (last ≡ record goal { updated_at = timestamp clock'; version = goal.version + 2 })
  pause-resume clock clock' goal_id mode reason reason' actor actor' started goal db found runs bare
        began =
      let (db', paused, there) = pause_running clock goal_id mode reason actor goal db found runs in
      let (db'', resumed) =
        resume_paused clock' goal_id reason' actor' (paused_goal (timestamp clock) mode goal) db'
          there (pause_target-IsPaused mode) in
      (_, db', _, db'', paused, resumed, again clock clock' mode started goal runs bare began)
