-- ===== src/Store/Cancel/Fence.antt =====
-- What the cancellation of a task in src/project_supervisor/store.py leaves.
use chips_agent_fabric.Store.Lease.Renewal.{is_current_lem}
use chips_agent_fabric.Sql.Rewrite.{first_where-update_where}
use chips_agent_fabric.Sql.Rows.{first_where_holds}
use chips_agent_fabric.Store.Lease.{
  released, require_task_execution_lease, task_execution_lease_is_current,
}
use chips_agent_fabric.Store.Error.{ok}
use chips_agent_fabric.Store.Cancel.{
  released, is_active_lease, commit_cancel, timestamp, cancelled_task, ok, cancel_task_execution,
  cancelled_run, cancel_run, run_is, task_is, active_of, free_workers, release_lease, cancel_runs,
}
use chips_agent_fabric.Sql.{select_where, first_where, update_where, count_where, exists_where}
use chips_agent_fabric.Prelude.{
  ◌∙◌, inr, ap, inl, Option-cases, path→eq, false, eq→path, string_eq, refl, eq_refl, [], ◌∷◌, none,
  some, ℕ, String, ◌≡◌, arith, ◌≤◌, Bool, true, List, ◌==◌, nat_eq,
}
use chips_agent_fabric.Prelude.{◌&&◌, not, any, eq→path, path→eq, eq_refl, [], ◌∷◌, string_eq}
use chips_agent_fabric.Store.Schema.{
  is_active_lease, timestamp, run_is, task_is, RunRow, TaskRow, Db, LeaseRow, lease_is,
}
use chips_agent_fabric.StateMachine.Terminal.{is_terminal_task, cancel_allowed}

-- An active run of the task that is none of `ended`.
abbrev is_left : String → List RunRow → RunRow → Bool
is_left task_id ended r = active_of task_id r && not (any (λ (e : RunRow). e.id == r.id) ended)

cancelled_run-is_left :
    (now : ℕ) (task_id : String) (run : RunRow) (rest : List RunRow) (runs : List RunRow)
    → count_where (is_left task_id rest) (update_where (run_is run.id) (cancelled_run now) runs)
      ≤ count_where (is_left task_id (run ∷ rest)) runs
unfolding count_where update_where
cancelled_run-is_left now task_id run rest [] = omega arith
cancelled_run-is_left now task_id run rest (r ∷ rs) =
    ground (
      arith,
      cancelled_run-is_left now task_id run rest rs,
      eq→path run.id r.id,
      path→eq r.id run.id,
    )

cancel_runs-is_left :
    (now : ℕ) (task_id : String) (task : TaskRow) (actor : String) (ended : List RunRow) (db : Db)
    → count_where (is_left task_id []) (cancel_runs now task_id task actor ended db).runs
      ≤ count_where (is_left task_id ended) db.runs
unfolding cancel_runs
cancel_runs-is_left now task_id task actor [] db = omega arith
cancel_runs-is_left now task_id task actor (run ∷ rest) db = omega (
  arith,
  cancel_runs-is_left now task_id task actor rest (cancel_run now task_id task actor run db),
  cancelled_run-is_left now task_id run rest db.runs,
)

-- More runs are taken for ended, fewer are left.
is_left-le :
    (task_id : String) (run : RunRow) (ended : List RunRow) (runs : List RunRow)
    → count_where (is_left task_id (run ∷ ended)) runs ≤ count_where (is_left task_id ended) runs
unfolding count_where
is_left-le task_id run ended [] = omega arith
is_left-le task_id run ended (r ∷ rs) = ground (arith, is_left-le task_id run ended rs)

-- The selected runs are all.
none_left :
    (task_id : String) (runs : List RunRow)
    → count_where (is_left task_id (select_where (active_of task_id) runs)) runs ≡ 0
unfolding count_where select_where
none_left task_id [] = refl
none_left task_id (r ∷ rs) = ground (
  arith,
  none_left task_id rs,
  is_left-le task_id r (select_where (active_of task_id) rs) rs,
  eq_refl r.id,
)

active_of-is_left :
    (task_id : String) (runs : List RunRow)
    → count_where (active_of task_id) runs ≡ count_where (is_left task_id []) runs
unfolding count_where
active_of-is_left task_id [] = refl
active_of-is_left task_id (r ∷ rs) = ground (arith, active_of-is_left task_id rs)

cancel_runs-tables :
    (now : ℕ) (task_id : String) (task : TaskRow) (actor : String) (ended : List RunRow) (db : Db)
    → ((cancel_runs now task_id task actor ended db).tasks ≡ db.tasks)
      × ((cancel_runs now task_id task actor ended db).leases ≡ db.leases)
unfolding cancel_runs
cancel_runs-tables now task_id task actor [] db = (refl, refl)
cancel_runs-tables now task_id task actor (run ∷ rest) db =
    cancel_runs-tables now task_id task actor rest (cancel_run now task_id task actor run db)

free_workers-tables :
    (now : ℕ) (ids : List String) (db : Db)
    → ((free_workers now ids db).runs ≡ db.runs)
      × ((free_workers now ids db).tasks ≡ db.tasks)
      × ((free_workers now ids db).leases ≡ db.leases)
unfolding free_workers
free_workers-tables now [] db = (refl, refl, refl)
free_workers-tables now (j ∷ js) db = free_workers-tables now js _

release_lease-tables :
    (now : ℕ) (task_id : String) (task : TaskRow) (actor : String) (db : Db)
    → ((release_lease now task_id task actor db).runs ≡ db.runs)
      × ((release_lease now task_id task actor db).tasks ≡ db.tasks)
unfolding release_lease
release_lease-tables now task_id task actor db = (ground arith, ground arith)

-- No lease of the task is active any more.
no_active_lease :
    (leases : List LeaseRow) (now : ℕ) (task_id : String)
    → exists_where
        (λ l. lease_is task_id l && is_active_lease l.state)
        (update_where (lease_is task_id) (released now) leases)
      ≡ false
unfolding exists_where update_where
no_active_lease [] now task_id = refl
no_active_lease (l ∷ ls) now task_id = ground (arith, no_active_lease ls now task_id)

none_found :
    (p : LeaseRow → Bool) (leases : List LeaseRow)
    → first_where p leases ≡ none
    → exists_where p leases ≡ false
unfolding first_where exists_where
none_found p [] h = refl
none_found p (l ∷ ls) h = ground (arith, none_found p ls)

release_lease-inactive :
    (now : ℕ) (task_id : String) (task : TaskRow) (actor : String) (db : Db)
    → exists_where
        (λ l. lease_is task_id l && is_active_lease l.state)
        (release_lease now task_id task actor db).leases
      ≡ false
unfolding release_lease
release_lease-inactive now task_id task actor db =
    elim (Option-cases
      (first_where (λ l. lease_is task_id l && is_active_lease l.state) db.leases)) [
        | inl e ↦ rw e (none_found _ db.leases e)
        | inr (l, e) ↦ rw e (no_active_lease db.leases now task_id)
      ]

inactive_row :
    (task_id : String) (leases : List LeaseRow) (l : LeaseRow)
    → first_where (lease_is task_id) leases ≡ some l
    → exists_where (λ l. lease_is task_id l && is_active_lease l.state) leases ≡ false
    → is_active_lease l.state ≡ false
unfolding first_where exists_where
inactive_row task_id [] l found h = cc
inactive_row task_id (x ∷ xs) l found h = ground (arith, inactive_row task_id xs l)

-- Then no token is current.
inactive-not_current :
    (clock : ℕ) (task_id owner : String) (generation : ℕ) (db : Db)
    → exists_where (λ l. lease_is task_id l && is_active_lease l.state) db.leases ≡ false
    → task_execution_lease_is_current clock db task_id owner generation ≡ false
unfolding task_execution_lease_is_current require_task_execution_lease
inactive-not_current clock task_id owner generation db none_active =
    is_current_lem clock db task_id owner generation
    ∙ elim (Option-cases (first_where (lease_is task_id) db.leases)) [
      | inl e ↦ rw e refl
      | inr (l, e) ↦ rw e (ground (arith, inactive_row task_id db.leases l e none_active))
    ]

at_most_zero : {m n : ℕ} → m ≤ n → n ≡ 0 → m ≡ 0
at_most_zero h e = omega (arith, h, e)

commit_cancel-outcome :
    (now : ℕ) (task_id actor : String) (task : TaskRow) (db : Db)
    → first_where (task_is task_id) db.tasks ≡ some task
    → (first_where (task_is task_id) (commit_cancel now task_id task actor db).tasks
        ≡ some (cancelled_task now task))
      × (count_where (active_of task_id) (commit_cancel now task_id task actor db).runs ≡ 0)
      × (exists_where
            (λ l. lease_is task_id l && is_active_lease l.state)
            (commit_cancel now task_id task actor db).leases
          ≡ false)
unfolding commit_cancel
commit_cancel-outcome now task_id actor task db found =
    let (runs, tasks) = release_lease-tables now task_id task actor _ in
    let (runs', tasks', _) = free_workers-tables now _ _ in
    let (tasks'', _) = cancel_runs-tables now task_id task actor _ _ in
    let key = first_where_holds (task_is task_id) db.tasks task found in
    (
      ap (first_where (task_is task_id)) (tasks ∙ tasks' ∙ tasks'')
          ∙ first_where-update_where (task_is task_id) (cancelled_task now) (task_is task_id)
              db.tasks (λ r. refl)
          ∙ rw found (rw key refl),
      ap (count_where (active_of task_id)) (runs ∙ runs')
          ∙ active_of-is_left task_id _
          ∙ at_most_zero (cancel_runs-is_left now task_id task actor _ _)
              (none_left task_id db.runs),
      release_lease-inactive now task_id task actor _,
    )

-- The cancellation of a task that has not ended always succeeds. It leaves the task cancelled, no
-- active run of it, and no current token of its lease for anyone at any time.
pub cancel_task_execution-fences :
    (clock clock' : ℕ) (task_id actor owner : String) (generation : ℕ) (task : TaskRow) (db : Db)
    → first_where (task_is task_id) db.tasks ≡ some task
    → is_terminal_task task.state ≡ false
    → (db' : Db) × (cancel_task_execution clock task_id actor db ≡ ok (true, db'))
      × (first_where (task_is task_id) db'.tasks ≡ some (cancelled_task (timestamp clock) task))
      × (count_where (active_of task_id) db'.runs ≡ 0)
      × (task_execution_lease_is_current clock' db' task_id owner generation ≡ false)
unfolding cancel_task_execution
cancel_task_execution-fences clock clock' task_id actor owner generation task db found live =
    let (ended, idle, inactive) =
      commit_cancel-outcome (timestamp clock) task_id actor task db found in
    (
      commit_cancel (timestamp clock) task_id task actor db,
      rw found (rw live (rw (cancel_allowed task.state live) refl)),
      ended,
      idle,
      inactive-not_current clock' task_id owner generation _ inactive,
    )
