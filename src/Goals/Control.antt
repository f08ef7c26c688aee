-- ===== src/Goals/Control.antt =====
-- What the control operations of src/project_supervisor/autonomy.py keep and refuse.
use chips_agent_fabric.Goals.Text.{steered_text}
use chips_agent_fabric.Store.Tasks.{project_is}
use chips_agent_fabric.Sql.Rewrite.{All-update_where}
use chips_agent_fabric.Store.Schema.{timestamp}
use chips_agent_fabric.Sql.{update_where, first_where}
use chips_agent_fabric.Prelude.{
  Bool-cases, subst, inr, inl, Option-cases, refl, Option, none, some, ℕ, String, Bool, true, false,
  List, string_eq, nat_eq, [], ◌∷◌, ◌++◌, not, ◌+◌, ◌≡◌, arith, All,
}
use chips_agent_fabric.Store.Error.{value_error, ok, err}
use chips_agent_fabric.Goals.{
  new_goal, steered_goal, resumed_goal, paused_goal, is_paused_as, project_is, is_paused,
  update_where, timestamp, value_error, stopped_goal, is_ended, goal_is, first_where, Option,
  get_goal, require_mutable, GoalDb, GoalRow, GoalState, PauseMode,
}
use chips_agent_fabric.Goals.Service.{pause, resume, stop, steer, create_goal}

module _ (blank : String → Bool) (redact : String → String) where
  -- A goal that was stopped or has terminated cannot be paused, resumed, stopped or steered: each is
  -- refused, whatever its other arguments.
  pub ended_goal-refuses :
      (clock : ℕ) (goal_id : String) (mode : PauseMode) (reason : Option String)
      (stop_reason instruction actor : String) (priority : Option ℕ) (keep : Bool) (goal : GoalRow)
      (db : GoalDb)
      → first_where (goal_is goal_id) db.goals ≡ some goal
      → is_ended goal.state ≡ true
      → (pause blank redact clock goal_id mode reason actor db ≡ err value_error)
        × (resume blank redact clock goal_id reason actor db ≡ err value_error)
        × (stop blank redact clock goal_id stop_reason actor db ≡ err value_error)
        × (steer blank redact clock goal_id instruction priority keep actor db ≡ err value_error)
  unfolding pause resume stop steer require_mutable
  ended_goal-refuses clock goal_id mode reason stop_reason instruction actor priority keep goal db
        found ended =
      (ground arith, ground arith, ground arith, ground arith)

-- The check of the schema on a goal: it has a pause mode exactly while it is paused, and the one of
-- its state.
abbrev pub mode_matches : GoalState → Option PauseMode → Bool
mode_matches GoalState.soft_paused (some PauseMode.soft) = true
mode_matches GoalState.hard_paused (some PauseMode.hard) = true
mode_matches s none = not (is_paused s)
mode_matches _ (some _) = false

abbrev pub IsConsistent : GoalDb → Type 0
IsConsistent db = All (λ (r : GoalRow). mode_matches r.state r.pause_mode ≡ true) db.goals

change-IsConsistent :
    (p : GoalRow → Bool) (f : GoalRow → GoalRow) (goals : List GoalRow)
    → ((r : GoalRow)
        → mode_matches r.state r.pause_mode ≡ true
        → mode_matches (f r).state (f r).pause_mode ≡ true)
    → All (λ (r : GoalRow). mode_matches r.state r.pause_mode ≡ true) goals
    → All (λ (r : GoalRow). mode_matches r.state r.pause_mode ≡ true) (update_where p f goals)
change-IsConsistent p f goals keep a =
    All-update_where p f _ _ goals (λ r ok _. keep r ok) (λ r ok _. ok) a

append-IsConsistent :
    (goals : List GoalRow) (g : GoalRow)
    → mode_matches g.state g.pause_mode ≡ true
    → All (λ (r : GoalRow). mode_matches r.state r.pause_mode ≡ true) goals
    → All (λ (r : GoalRow). mode_matches r.state r.pause_mode ≡ true) (goals ++ (g ∷ []))
append-IsConsistent [] g new a = (new, tt)
append-IsConsistent (x ∷ xs) g new a = (a.0, append-IsConsistent xs g new a.1)

module _ (blank : String → Bool) (redact : String → String) where
  -- A control operation that succeeded, of any kind, with any arguments.
  pub data Control (db db' : GoalDb) : Type 0 where
    created :
        (clock : ℕ) (project_id intent budgets goal_id actor : String) (row : GoalRow)
        → create_goal blank redact clock project_id intent budgets goal_id actor db ≡ ok (row, db')
        → Control db db'
    paused :
        (clock : ℕ) (goal_id : String) (mode : PauseMode) (reason : Option String) (actor : String)
        (row : GoalRow)
        → pause blank redact clock goal_id mode reason actor db ≡ ok (row, db')
        → Control db db'
    resumed :
        (clock : ℕ) (goal_id : String) (reason : Option String) (actor : String) (row : GoalRow)
        → resume blank redact clock goal_id reason actor db ≡ ok (row, db')
        → Control db db'
    stopped :
        (clock : ℕ) (goal_id reason actor : String) (row : GoalRow)
        → stop blank redact clock goal_id reason actor db ≡ ok (row, db')
        → Control db db'
    steered :
        (clock : ℕ) (goal_id instruction : String) (priority : Option ℕ) (keep : Bool)
        (actor : String) (row : GoalRow)
        → steer blank redact clock goal_id instruction priority keep actor db ≡ ok (row, db')
        → Control db db'

  -- Every control operation keeps the check of the schema on the pause mode of every goal.
  pub Control-IsConsistent : (db db' : GoalDb) → IsConsistent db → Control db db' → IsConsistent db'
  unfolding pause resume stop steer create_goal require_mutable get_goal
  Control-IsConsistent db db' a
        (Control.created clock project_id intent budgets goal_id actor row h) =
      elim (Option-cases (first_where (project_is project_id) db.store.projects)) [
        | inl e ↦ absurd (ground arith)
        | inr (p, e) ↦
            let longer : db.goals
                  ++ (new_goal (timestamp clock) project_id (redact intent) budgets goal_id ∷ [])
                ≡ db'.goals =
              ground arith in
            subst (All _) longer (append-IsConsistent db.goals _ refl a)
      ]
  Control-IsConsistent db db' a (Control.paused clock goal_id mode reason actor row h) =
      elim (Option-cases (first_where (goal_is goal_id) db.goals)) [
        | inl e ↦ absurd (ground arith)
        | inr (g, e) ↦ elim (Bool-cases (is_paused_as mode g.state)) [
          | inl y ↦ let same : db.goals ≡ db'.goals = ground arith in subst (All _) same a
          | inr n ↦
              let moved : update_where (goal_is g.id) (paused_goal (timestamp clock) mode) db.goals
                  ≡ db'.goals =
                ground arith in
              subst (All _) moved (change-IsConsistent _ _ db.goals (λ r ok. ground arith) a)
        ]
      ]
  Control-IsConsistent db db' a (Control.resumed clock goal_id reason actor row h) =
      elim (Option-cases (first_where (goal_is goal_id) db.goals)) [
        | inl e ↦ absurd (ground arith)
        | inr (g, e) ↦
            let moved : update_where (goal_is g.id) (resumed_goal (timestamp clock)) db.goals
                ≡ db'.goals =
              ground arith in
            subst (All _) moved (change-IsConsistent _ _ db.goals (λ r ok. refl) a)
      ]
  Control-IsConsistent db db' a (Control.stopped clock goal_id reason actor row h) =
      elim (Option-cases (first_where (goal_is goal_id) db.goals)) [
        | inl e ↦ absurd (ground arith)
        | inr (g, e) ↦
            let moved : update_where (goal_is g.id) (stopped_goal (timestamp clock) (redact reason))
                  db.goals
                ≡ db'.goals =
              ground arith in
            subst (All _) moved (change-IsConsistent _ _ db.goals (λ r ok. refl) a)
      ]
  Control-IsConsistent db db' a
        (Control.steered clock goal_id instruction priority keep actor row h) =
      elim (Option-cases (first_where (goal_is goal_id) db.goals)) [
        | inl e ↦ absurd (ground arith)
        | inr (g, e) ↦
            let moved : update_where (goal_is g.id)
                  (steered_goal (timestamp clock)
                    (steered_text g.effective_intent (g.steer_version + 1) (redact instruction))
                    (g.steer_version + 1))
                  db.goals
                ≡ db'.goals =
              ground arith in
            subst (All _) moved (change-IsConsistent _ _ db.goals (λ r ok. ok) a)
      ]
