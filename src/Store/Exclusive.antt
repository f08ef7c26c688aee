-- ===== src/Store/Exclusive.antt =====
-- Exclusive use of workers in src/project_supervisor/store.py.
pub mod Identities
pub mod Starting
pub mod Claiming
pub mod Updating
pub mod Fencing
pub mod Setting
pub mod Releasing
pub mod Finalizing
use chips_agent_fabric.Prelude.{
  ℕ, ◌+◌, ◌≤◌, ◌≡◌, Bool, true, false, ◌&&◌, List, String, ◌==◌, arith,
}
use chips_agent_fabric.Domain.{WorkerState}
use chips_agent_fabric.Sql.{exists_where, count_where}
use chips_agent_fabric.Store.Schema.{Db, WorkerRow, RunRow, worker_is}
use chips_agent_fabric.Store.Workers.{is_idle}
use chips_agent_fabric.Store.Cancel.{holds}

-- An idle row of the worker.
abbrev pub idle_row : String → WorkerRow → Bool
idle_row k w = worker_is k w && is_idle w

abbrev pub IsExclusiveAt : List WorkerRow → List RunRow → String → Type 0
IsExclusiveAt workers runs k =
    (count_where (holds k) runs ≤ 1)
    × (exists_where (idle_row k) workers ≡ true → count_where (holds k) runs ≡ 0)

pub record IsExclusive (db : Db) : Type 0 where
  pub at : (k : String) → IsExclusiveAt db.workers db.runs k
