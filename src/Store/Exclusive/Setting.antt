-- ===== src/Store/Exclusive/Setting.antt =====
-- `set_worker_state` of src/project_supervisor/store.py and the workers that runs hold.
use chips_agent_fabric.Sql.Rewrite.{exists_where-update_where}
use chips_agent_fabric.Sql.Rows.{count_where_pos, count_where_zero}
use chips_agent_fabric.Store.Cancel.{holds}
use chips_agent_fabric.Sql.{first_where, exists_where, count_where, update_where}
use chips_agent_fabric.Store.Error.{ok}
use chips_agent_fabric.Store.Schema.{timestamp, worker_is, RunRow, WorkerRow, Db}
use chips_agent_fabric.Domain.{WorkerState_eq, ResourceState, WorkerState}
use chips_agent_fabric.Store.Workers.{moved_worker, set_worker_state}
use chips_agent_fabric.Store.Exclusive.{
  holds, worker_is, RunRow, WorkerRow, Db, WorkerState, IsExclusiveAt, idle_row,
}
use chips_agent_fabric.Prelude.{
  string_eq, eq→path, inl, inr, Option-cases, Bool-cases, List, Option, ℕ, String, ◌≡◌, arith,
}

pub set_worker_state_tables :
    (clock : ℕ) (worker_id : String) (state : WorkerState) (resources : Option ResourceState)
    (model task owner : Option String) (generation : Option ℕ) (actor : String) (db : Db) {db' : Db}
    → set_worker_state clock worker_id state resources model task owner generation actor db ≡ ok db'
    → (db'.workers
        ≡ update_where
            (worker_is worker_id)
            (moved_worker (timestamp clock) state resources model)
            db.workers)
      × (db'.runs ≡ db.runs)
unfolding set_worker_state
set_worker_state_tables clock worker_id state resources model task owner generation actor db h =
    elim (Option-cases (first_where (worker_is worker_id) db.workers)) [
      | inl e ↦ absurd (ground arith)
      | inr (w, e) ↦ (ground arith, ground arith)
    ]

-- A worker is made idle only where no active run holds it.
pub moved_worker-IsExclusiveAt :
    (now : ℕ) (worker_id : String) (state : WorkerState) (resources : Option ResourceState)
    (model : Option String) (workers : List WorkerRow) (runs : List RunRow) (k : String)
    → (state ≡ WorkerState.idle → count_where (holds worker_id) runs ≡ 0)
    → IsExclusiveAt workers runs k
    → IsExclusiveAt
        (update_where (worker_is worker_id) (moved_worker now state resources model) workers)
        runs
        k
moved_worker-IsExclusiveAt now worker_id state resources model workers runs k unheld (one, free) = (
  one,
  λ h. elim (Bool-cases (exists_where (holds k) runs)) [
    | inr n ↦ count_where_zero (holds k) runs n
    | inl y ↦ free (
        exists_where-update_where (worker_is worker_id) (moved_worker now state resources model)
          (idle_row k) workers
          (λ w hit e. absurd (
            ground (
              arith,
              unheld,
              eq→path w.id k,
              eq→path w.id worker_id,
              eq→path state WorkerState.idle,
              count_where_pos (holds k) runs y,
            )))
          h)
  ],
)
