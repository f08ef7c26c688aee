-- ===== src/Examples/Steered.antt =====
-- A goal that is steered, paused and stopped.
use Prim.Native.String.{◌++◌ as ◌+++◌}
use chips_agent_fabric.Goals.Text.{decimal}
use chips_agent_fabric.Store.Schema.{timestamp}
use chips_agent_fabric.Sql.{update_where, count_where, first_where}
use chips_agent_fabric.Store.Error.{value_error, ok, err, Result}
use chips_agent_fabric.Goals.Service.{stop, resume, pause, steer}
use chips_agent_fabric.Prelude.{◌+◌, ℕ, String, none, some, [], ◌∷◌, true, ◌≡◌, refl, arith}
use chips_agent_fabric.Examples.{ok, err, Result, fresh, blank}
use chips_agent_fabric.Goals.{
  get_goal, require_mutable, goal_is, new_goal, paused_goal, GoalDb, GoalRow, GoalState, PauseMode,
}
use chips_agent_fabric.Goals.Control.{
  IsConsistent, ended_goal-refuses, Control-IsConsistent, Control,
}
use chips_agent_fabric.Goals.Resuming.{pause-resume}
use chips_agent_fabric.Goals.Steering.{IsNumbered, steer-IsNumbered}

abbrev redact : String → String
redact t = t

abbrev goal : GoalState → GoalRow
goal state = record (new_goal 0 "p" "ship" "{}" "g") { state = state }

abbrev goals : GoalState → GoalDb
goals state = record { store = fresh; goals = goal state ∷ []; steers = [] }

ended_goal-refuses_example :
    (pause blank redact 1000000 "g" PauseMode.soft none "human" (goals GoalState.stopped)
      ≡ err value_error)
    × (resume blank redact 1000000 "g" none "human" (goals GoalState.stopped) ≡ err value_error)
    × (stop blank redact 1000000 "g" "enough" "human" (goals GoalState.stopped) ≡ err value_error)
    × (steer blank redact 1000000 "g" "faster" none true "human" (goals GoalState.stopped)
        ≡ err value_error)
unfolding first_where
ended_goal-refuses_example =
    ended_goal-refuses blank redact 1000000 "g" PauseMode.soft none "enough" "faster" "human" none
      true (goal GoalState.stopped) (goals GoalState.stopped) refl refl

abbrev left : Result (GoalRow × GoalDb) → GoalDb
left (ok (_, db)) = db
left (err _) = goals GoalState.running

abbrev paused_db : GoalDb
paused_db = record (goals GoalState.running) {
  goals = paused_goal 1 PauseMode.hard (goal GoalState.running) ∷ [];
  store =
      (left (
        pause blank redact 1000000 "g" PauseMode.hard none "human"
          (goals GoalState.running))).store;
}

pauses :
    pause blank redact 1000000 "g" PauseMode.hard none "human" (goals GoalState.running)
    ≡ ok (paused_goal 1 PauseMode.hard (goal GoalState.running), paused_db)
unfolding pause require_mutable first_where get_goal update_where timestamp
pauses = refl

Control-IsConsistent_example : IsConsistent paused_db
Control-IsConsistent_example =
    Control-IsConsistent blank redact (goals GoalState.running) paused_db (refl, tt)
      (Control.paused 1000000 "g" PauseMode.hard none "human"
        (paused_goal 1 PauseMode.hard (goal GoalState.running)) pauses)

some-inj : {a b : ℕ} → some a ≡ some b → a ≡ b
some-inj h = cc

steer-IsNumbered_example :
    (row : GoalRow) × (db : GoalDb) × (steer blank redact 1000000 "g" "faster"
        (some 70)
        true
        "human"
        (goals GoalState.running)
      ≡ ok (row, db))
    × (first_where (goal_is "g") db.goals ≡ some row)
    × (row.steer_version ≡ 0 + 1)
    × (row.effective_intent
        ≡ "ship" +++ "\n\nSteer " +++ decimal row.steer_version +++ ": " +++ redact "faster")
    × IsNumbered "g" db.steers row.steer_version
unfolding first_where count_where
steer-IsNumbered_example =
    steer-IsNumbered blank redact 1000000 "g" "faster" "human" (some 70) true
      (goal GoalState.running) (goals GoalState.running) refl (refl, tt) refl refl
      (λ p e. omega (arith, some-inj e))

abbrev started : GoalRow
started = record (goal GoalState.running) { started_at = some 3 }

abbrev started_db : GoalDb
started_db = record (goals GoalState.running) { goals = started ∷ [] }

pause-resume_example :
    (middle : GoalRow) × (db' : GoalDb) × (last : GoalRow) × (db'' : GoalDb) × (pause blank redact
        5000000 "g" PauseMode.soft none "human" started_db
      ≡ ok (middle, db'))
    × (resume blank redact 8000000 "g" none "human" db' ≡ ok (last, db''))
    × (last ≡ record started { updated_at = timestamp 8000000; version = started.version + 2 })
unfolding first_where
pause-resume_example =
    pause-resume blank redact 5000000 8000000 "g" PauseMode.soft none none "human" "human" 3 started
      started_db refl refl refl refl
