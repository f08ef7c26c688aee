-- ===== src/Store/Claim/Granting.antt =====
-- What a granted claim of src/project_supervisor/store.py found and what it leaves.
use chips_agent_fabric.Sql.Rewrite.{first_where-update_where}
use chips_agent_fabric.Store.Workers.{distinct, all_idle}
use chips_agent_fabric.Sql.Rows.{first_where_holds}
use chips_agent_fabric.Store.Dependencies.{is_unsatisfied}
use chips_agent_fabric.Domain.{TaskState}
use chips_agent_fabric.Store.Error.{ok}
use chips_agent_fabric.Sql.{exists_where, update_where, first_where}
use chips_agent_fabric.Store.Scopes.{Digests}
use chips_agent_fabric.Store.Claim.{
  timestamp, distinct, all_idle, claimed, is_unsatisfied, claimable, exhausted, TaskState, ok,
  task_is, WorkerRow, claim_task_dispatch, first_where, is_blocked, Granted, TaskRow, RunRow,
  Digests, Claim, is_stale,
}
use chips_agent_fabric.Store.Dispatch.{
  violates_runs, exhausted, Granted, Claim, insert_run, Blank, start_runs,
}
use chips_agent_fabric.Prelude.{
  ap, refl, ◌∙◌, ◌∷◌, [], subst, Bool-cases, inr, false, inl, Option, none, some, ℕ, String, ◌≡◌,
  arith, true, List, ◌+◌, nat_eq,
}
use chips_agent_fabric.Store.Schema.{timestamp, task_is, WorkerRow, TaskRow, RunRow, Db}
use chips_agent_fabric.Store.Claim.Cases.{
  claimed_db_tables, commit_claim_cases, claim_task_dispatch_cases,
}

start_runs-tasks :
    (run_of : String → RunRow) (before : List WorkerRow) (project_id actor : String)
    (ids : List String) (db : Db) {db' : Db}
    → start_runs run_of before project_id actor ids db ≡ ok db'
    → (db'.tasks ≡ db.tasks) × (db'.leases ≡ db.leases) × (db'.workers ≡ db.workers)
unfolding start_runs insert_run
start_runs-tasks run_of before project_id actor [] db h = (ground arith, ground arith, ground arith)
start_runs-tasks run_of before project_id actor (w ∷ ws) db {db'} h =
    elim (Bool-cases (violates_runs (run_of w) db)) [
      | inl y ↦ absurd (ground arith)
      | inr n ↦ start_runs-tasks run_of before project_id actor ws _ (rw n at h)
    ]

-- The statement that takes the task takes the row that was read.
claimed_row :
    (claim : Claim) (now : ℕ) (task : TaskRow) (tasks : List TaskRow)
    → first_where (task_is claim.task_id) tasks ≡ some task
    → is_stale claim task ≡ false
    → first_where
        (task_is claim.task_id)
        (update_where (claimable claim) (claimed now (task.attempt_count + 1)) tasks)
      ≡ some (claimed now (task.attempt_count + 1) task)
unfolding is_stale
claimed_row claim now task tasks found fresh =
    let key = first_where_holds (task_is claim.task_id) tasks task found in
    first_where-update_where (claimable claim) (claimed now (task.attempt_count + 1))
      (task_is claim.task_id) tasks (λ r. refl)
    ∙ rw found (ground arith)

module _ (new_run_id : String → String) (blank : Blank) (digests : Digests) (clock : ℕ)
    (claim : Claim) (db : Db) where
  -- A granted claim found its task ready, at the version that the caller had read, below the limit of
  -- attempts, with all its prerequisites succeeded and all its workers idle, and leaves it running, one
  -- attempt and one version further.
  pub claim_task_dispatch-granted :
      {g : Granted} {db' : Db}
      → claim_task_dispatch new_run_id blank digests clock claim db ≡ ok (some g, db')
      → (task : TaskRow) × (first_where (task_is claim.task_id) db.tasks ≡ some task)
        × (task.state ≡ TaskState.ready)
        × (task.version ≡ claim.expected_version)
        × (exhausted claim.max_attempts task.attempt_count ≡ false)
        × (exists_where (is_unsatisfied db claim.task_id) db.dependencies ≡ false)
        × (all_idle (distinct claim.worker_ids) db.workers ≡ true)
        × (first_where (task_is claim.task_id) db'.tasks
            ≡ some (claimed (timestamp clock) (task.attempt_count + 1) task))
        × (g.attempt ≡ task.attempt_count + 1)
  unfolding is_stale is_blocked
  claim_task_dispatch-granted {g} {db'} h =
      elim (claim_task_dispatch_cases new_run_id blank digests clock claim db h) [
        | inl (e, _) ↦ absurd (ground arith)
        | inr (task, snapshot, found, fresh, _, free, done) ↦
            elim (commit_claim_cases new_run_id clock claim _ task snapshot db done) [
              | inl (e, _, _) ↦ absurd (ground arith)
              | inr (_, started, e) ↦
                  let (_, _, tasks, _) =
                    claimed_db_tables clock claim (distinct claim.worker_ids) task db in
                  let (kept, _, _) =
                    start_runs-tasks _ db.workers task.project_id claim.actor _ _ started in
                  (
                    task,
                    found,
                    ground arith,
                    ground arith,
                    ground arith,
                    ground arith,
                    ground arith,
                    ap (first_where (task_is claim.task_id)) (kept ∙ tasks)
                        ∙ claimed_row claim (timestamp clock) task db.tasks found fresh,
                    ground arith,
                  )
            ]
      ]

  -- In the database that a granted claim leaves, another claim of the same task, whatever it expects,
  -- is not granted: it fails, or returns nothing and changes nothing.
  pub claim_task_dispatch-once :
      (new_run_id' : String → String) (blank' : Blank) (digests' : Digests) (clock' : ℕ)
      (claim' : Claim) {g : Granted} {db' last : Db} {r : Option Granted}
      → claim_task_dispatch new_run_id blank digests clock claim db ≡ ok (some g, db')
      → claim'.task_id ≡ claim.task_id
      → claim_task_dispatch new_run_id' blank' digests' clock' claim' db' ≡ ok (r, last)
      → (r ≡ none) × (last ≡ db')
  unfolding is_stale
  claim_task_dispatch-once new_run_id' blank' digests' clock' claim' {g} {db'} {last} {r} h same
        h' =
      let (task, _, _, _, _, _, _, taken, _) = claim_task_dispatch-granted h in
      elim (claim_task_dispatch_cases new_run_id' blank' digests' clock' claim' db' h') [
        | inl outcome ↦ outcome
        | inr (task', _, found, fresh, _, _, _) ↦
            let found' = subst (λ k. first_where (task_is k) db'.tasks ≡ some task') same found in
            absurd (ground arith)
      ]
