-- ===== src/Lib.antt =====
-- CHIPS Agent Fabric keeps the state of a software project that several agent workers execute: its
-- projects, tasks, workers, runs and leases in one SQLite database, and a journal of events. Several
-- processes write to the database at once. This library models the parts that decide who may execute
-- what, and proves what keeps them apart.
--
-- Prelude holds the Boolean tests and lemmas that all modules share, and Sql the statements over a
-- table, which is the list of its rows: SELECT, EXISTS, the row count of an UPDATE, and UPDATE.
--
-- Domain is src/project_supervisor/domain.py: the states and policies. StateMachine is
-- src/project_supervisor/state_machine.py: the tables of transitions of tasks, runs and projects.
--
-- Store is src/project_supervisor/store.py. Its parts are Error (exceptions as values), Schema (the
-- rows, the database and the journal), Lease (the token that fences stale runtimes), Tasks
-- (create_project, create_task, transition_task), Dependencies (add_task_dependency and its
-- recursive query), Workers (set_worker_state, claim_workers), Scopes (the verification scope that a
-- dispatch records), Dispatch and Claim (claim_task_dispatch and activate_worker_run), Runs
-- (create_worker_run, transition_worker_run), Adapter (record_adapter_event), Cancel
-- (cancel_task_execution), Recover (recover_interrupted), Jobs (the provider jobs: preparing,
-- launching, binding a handle, observing, collecting, finalizing, and the takeover of orphaned jobs)
-- and Records (results, failures and approvals). An operation has the name of its method and maps a
-- database to a result; a transaction that raises leaves no database, as the source rolls back.
-- Exclusive is about the workers that runs hold. System has one step for each committed transaction
-- of these operations, but for those of Records, which write no run, worker or lease, and the
-- databases that sequences of steps reach: SQLite serialises the transactions, so these are all
-- their interleavings.
--
-- Scheduler is src/project_supervisor/scheduler.py: the hard constraints, the scores and `schedule`.
-- Its floating-point arithmetic is the parameter FloatOps, with IsOrdered for the order of numbers
-- where a theorem needs it. Python's `sorted`, which is stable, is a stable insertion sort. Each
-- topology is a clause of `select`.
--
-- Goals is the class GoalService of src/project_supervisor/autonomy.py: the human control of goals,
-- over tables of goals and steers beside the store.
--
-- Examples runs the operations on one small project.
--
-- A clock counts microseconds and is an argument of the operations; `timestamp` drops the
-- microseconds as the source does, and a stored time is a number of seconds. Lists of rows are in
-- the order of insertion. The recursive query follows each edge at most once, so it is given as much
-- fuel as there are edges. Random identifiers, digests, the test for blank text, the redaction of
-- secrets and the test of a confidence are parameters.
--
-- Not modelled: in the store, the registration of nodes, models, workers and sessions (upsert_node,
-- upsert_model, upsert_worker, upsert_session, record_node_public_identity), the acceptance
-- criteria, the binding and the verification of scopes (add_acceptance_criterion,
-- bind_task_verification_scope, record_verification, apply_task_verification), routing decisions,
-- escalations, usage, the execution history, capability grants, API tokens, and the queries that
-- only list rows. Of these upsert_worker writes workers, record_adapter_event runs and
-- bind_task_verification_scope and apply_task_verification tasks, and outside the store runtime.py
-- writes tasks and node_recovery.py workers: they are no steps of System. None of them writes a
-- lease. The tables of sessions and models are the lists of their identifiers. Of the scheduler, the
-- explanations and schedule_snapshot. Not modelled either: the autonomy engine and driver, the host,
-- the runtime, the adapters, the interfaces and protocols, the local worker, node recovery,
-- telemetry, configuration and the command line.
pub mod Prelude
pub mod Domain
pub mod StateMachine
pub mod Sql
pub mod Store
pub mod Goals
pub mod Scheduler
pub mod Examples
