-- ===== src/Examples/Moved.antt =====
-- A task that is moved from draft to succeeded, in src/project_supervisor/store.py.
use chips_agent_fabric.Prelude.{true, none, [], ◌∷◌, ◌≡◌, refl, contains}
use chips_agent_fabric.Domain.{TaskState, TaskState_eq}
use chips_agent_fabric.Sql.{first_where, update_where, count_where}
use chips_agent_fabric.Store.Error.{Result, ok, err}
use chips_agent_fabric.Store.Schema.{Db, TaskRow}
use chips_agent_fabric.Store.Tasks.{transition_task, moved_task_db}
use chips_agent_fabric.Store.Tasks.Moving.{Moves, moved_task-succeeded}
use chips_agent_fabric.Store.Lease.{require_optional_lease}
use chips_agent_fabric.StateMachine.{allows}
use chips_agent_fabric.Examples.{fresh, task, after}

abbrev moved_row : Result (TaskRow × Db) → TaskRow
moved_row (ok (row, _)) = row
moved_row (err _) = task "c" TaskState.draft

abbrev queued_db : Db
queued_db =
    after (transition_task 1000000 "c" TaskState.queued "scheduler" [] none none none fresh) fresh

moves_queued :
    transition_task 1000000 "c" TaskState.queued "scheduler" [] none none none fresh
    ≡ ok (
      moved_row (transition_task 1000000 "c" TaskState.queued "scheduler" [] none none none fresh),
      queued_db,
    )
unfolding transition_task first_where require_optional_lease allows moved_task_db update_where
    count_where
moves_queued = refl

abbrev ready_db : Db
ready_db =
    after (transition_task 2000000 "c" TaskState.ready "scheduler" [] none none none queued_db)
      queued_db

moves_ready :
    transition_task 2000000 "c" TaskState.ready "scheduler" [] none none none queued_db
    ≡ ok (
      moved_row
          (transition_task 2000000 "c" TaskState.ready "scheduler" [] none none none queued_db),
      ready_db,
    )
unfolding transition_task first_where require_optional_lease allows moved_task_db update_where
    count_where
moves_ready = refl

abbrev running_db : Db
running_db =
    after (transition_task 3000000 "c" TaskState.running "scheduler" [] none none none ready_db)
      ready_db

moves_running :
    transition_task 3000000 "c" TaskState.running "scheduler" [] none none none ready_db
    ≡ ok (
      moved_row
          (transition_task 3000000 "c" TaskState.running "scheduler" [] none none none ready_db),
      running_db,
    )
unfolding transition_task first_where require_optional_lease allows moved_task_db update_where
    count_where
moves_running = refl

abbrev succeeded_db : Db
succeeded_db =
    after (transition_task 4000000 "c" TaskState.succeeded "scheduler" [] none none none running_db)
      running_db

moves_succeeded :
    transition_task 4000000 "c" TaskState.succeeded "scheduler" [] none none none running_db
    ≡ ok (
      moved_row (
          transition_task 4000000 "c" TaskState.succeeded "scheduler" [] none none none running_db),
      succeeded_db,
    )
unfolding transition_task first_where require_optional_lease allows moved_task_db update_where
    count_where
moves_succeeded = refl

moved_task-succeeded_example :
    contains
      (TaskState.queued ∷ TaskState.ready ∷ TaskState.running ∷ TaskState.succeeded ∷ [])
      TaskState.running
    ≡ true
unfolding transition_task first_where require_optional_lease allows moved_task_db update_where
    count_where
moved_task-succeeded_example =
    moved_task-succeeded "c" fresh succeeded_db
      (TaskState.queued ∷ TaskState.ready ∷ TaskState.running ∷ TaskState.succeeded ∷ []) refl
      (Moves.moved 1000000 TaskState.queued "scheduler" [] none none none _ moves_queued (
        Moves.moved 2000000 TaskState.ready "scheduler" [] none none none _ moves_ready (
          Moves.moved 3000000 TaskState.running "scheduler" [] none none none _ moves_running (
            Moves.moved 4000000 TaskState.succeeded "scheduler" [] none none none _ moves_succeeded
              Moves.here))))
      refl
