-- ===== src/Store/Exclusive/Updating.antt =====
-- The other operations of src/project_supervisor/store.py on runs and workers: what they keep.
use chips_agent_fabric.Store.Runs.Cases.{
  redacted, transition_worker_run_cases, activate_worker_run_cases,
}
use chips_agent_fabric.Store.Exclusive.Identities.{reserve_idle}
use chips_agent_fabric.StateMachine.{run_transitions, allows}
use chips_agent_fabric.Store.Error.{ok}
use chips_agent_fabric.Sql.Rewrite.{
  count_where-update_where-le_All, count_where-update_where-le, exists_where-update_where,
}
use chips_agent_fabric.Sql.Rows.{unique_row, count_where_zero}
use chips_agent_fabric.Store.Runs.{moved_run_db, moved_run, transition_worker_run, RunDetails}
use chips_agent_fabric.Store.Claim.{started_worker, started_run, activated_db, activate_worker_run}
use chips_agent_fabric.Store.Workers.{reserve, distinct, journal_claims, claim_workers}
use chips_agent_fabric.Store.Cancel.{holds}
use chips_agent_fabric.Store.Exclusive.{idle_row, holds, IsExclusiveAt, IsExclusive}
use chips_agent_fabric.Prelude.{
  refl, ◌∷◌, [], sym, subst, string_eq, eq→path, inl, inr, Bool-cases, Option, ℕ, ◌≤◌, ◌≡◌, Bool,
  true, false, List, String, arith,
}
use chips_agent_fabric.Domain.{RunState_eq, RunState}
use chips_agent_fabric.Sql.{update_where, exists_where, count_where}
use chips_agent_fabric.Store.Schema.{TaskRow, timestamp, Field, run_is, Db, WorkerRow, RunRow}

-- No two runs have one identifier: the primary key.
abbrev pub HasRunKeys : Db → Type 0
HasRunKeys db = (k : String) → count_where (run_is k) db.runs ≤ 1

-- Exclusivity is a matter of the two tables alone.
pub same-IsExclusive :
    (db db' : Db)
    → (db'.workers ≡ db.workers) × (db'.runs ≡ db.runs)
    → IsExclusive db
    → IsExclusive db'
same-IsExclusive db db' (ws, rs) safe = record {
  at = λ k.
      subst (λ w. IsExclusiveAt w db'.runs k) (sym ws)
        (subst (λ r. IsExclusiveAt db.workers r k) (sym rs) (safe.at k));
}

-- Fewer active runs and fewer idle workers are no danger.
pub shrink-IsExclusiveAt :
    (workers workers' : List WorkerRow) (runs runs' : List RunRow) (k : String)
    → IsExclusiveAt workers runs k
    → count_where (holds k) runs' ≤ count_where (holds k) runs
    → (exists_where (idle_row k) workers' ≡ true → exists_where (idle_row k) workers ≡ true)
    → IsExclusiveAt workers' runs' k
shrink-IsExclusiveAt workers workers' runs runs' k (one, free) fewer idle =
    (omega arith, λ h. omega (arith, free (idle h)))

-- A worker is freed only where no active run holds it.
pub freeing-IsExclusiveAt :
    (workers : List WorkerRow) (runs : List RunRow) (p : WorkerRow → Bool)
    (f : WorkerRow → WorkerRow) (k : String)
    → IsExclusiveAt workers runs k
    → ((w : WorkerRow) → (f w).id ≡ w.id)
    → ((w : WorkerRow) → p w ≡ true → w.id ≡ k → exists_where (holds k) runs ≡ false)
    → IsExclusiveAt (update_where p f workers) runs k
freeing-IsExclusiveAt workers runs p f k (one, free) key unheld = (
  one,
  λ h. elim (Bool-cases (exists_where (holds k) runs)) [
    | inr n ↦ count_where_zero (holds k) runs n
    | inl y ↦ free (
        exists_where-update_where p f (idle_row k) workers
          (λ w hit e. absurd (ground (arith, unheld w hit, key w, eq→path (f w).id k))) h)
  ],
)

pub journal_claims_tables :
    (now : ℕ) (actor : String) (rows : List WorkerRow) (ids : List String) (db : Db)
    → ((journal_claims now actor rows ids db).workers ≡ db.workers)
      × ((journal_claims now actor rows ids db).runs ≡ db.runs)
unfolding journal_claims
journal_claims_tables now actor rows [] db = (refl, refl)
journal_claims_tables now actor rows (w ∷ ws) db = journal_claims_tables now actor rows ws _

-- A reservation of workers alone keeps them exclusive.
pub claim_workers-IsExclusive :
    (clock : ℕ) (ids : List String) (actor : String) (db : Db) {b : Bool} {db' : Db}
    → IsExclusive db
    → claim_workers clock ids actor db ≡ ok (b, db')
    → IsExclusive db'
unfolding claim_workers
claim_workers-IsExclusive clock ids actor db {b} {db'} safe h = record {
  at = λ k.
      let tables =
        journal_claims_tables (timestamp clock) actor db.workers (distinct ids)
          (record db { workers = reserve (timestamp clock) (distinct ids) db.workers }) in
      shrink-IsExclusiveAt db.workers db'.workers db.runs db'.runs k (safe.at k)
        (ground (arith, tables))
        (λ e. ground (arith, tables, reserve_idle (timestamp clock) (distinct ids) db.workers k));
}

-- The start of a run keeps workers exclusive.
activated_db-IsExclusive :
    (now : ℕ) (run_id : String) (run : RunRow) (task : TaskRow) (actor : String) (db : Db)
    → IsExclusive db
    → IsExclusive (activated_db now run_id run task actor db)
unfolding activated_db
activated_db-IsExclusive now run_id run task actor db safe = record {
  at = λ k.
      shrink-IsExclusiveAt db.workers _ db.runs _ k (safe.at k)
        (count_where-update_where-le _ (started_run now) (holds k) db.runs (λ r p h. ground arith))
        (exists_where-update_where _ (started_worker now) (idle_row k) db.workers
          (λ w p h. ground arith));
}

pub activate_worker_run-IsExclusive :
    (clock : ℕ) (run_id : String) (owner : Option String) (generation : Option ℕ) (actor : String)
    (db : Db) {b : Bool} {db' : Db}
    → IsExclusive db
    → activate_worker_run clock run_id owner generation actor db ≡ ok (b, db')
    → IsExclusive db'
activate_worker_run-IsExclusive clock run_id owner generation actor db safe h =
    elim (activate_worker_run_cases clock run_id owner generation actor db h) [
      | inl (_, same) ↦ subst IsExclusive (sym same) safe
      | inr (run, task, _, _, _, _, _, _, done) ↦
          subst IsExclusive (sym done)
            (activated_db-IsExclusive (timestamp clock) run_id run task actor db safe)
    ]

-- A run that has ended stays so: its row cannot be made active again.
moved_run-holds :
    (now : ℕ) (target : RunState) (details : RunDetails) (run : RunRow) (k : String)
    → allows run_transitions run.state target ≡ true
    → holds k (moved_run now target details run) ≡ true
    → holds k run ≡ true
unfolding allows
moved_run-holds now target details run k a h = ground arith

-- A transition of a run keeps workers exclusive.
pub transition_worker_run-IsExclusive :
    (redact : String → String) (clock : ℕ) (run_id : String) (target : RunState)
    (details : RunDetails) (extra : List (String × Field)) (owner : Option String)
    (generation : Option ℕ) (db : Db) {r : RunRow} {db' : Db}
    → IsExclusive db
    → HasRunKeys db
    → transition_worker_run redact clock run_id target details extra owner generation db
      ≡ ok (r, db')
    → IsExclusive db'
unfolding moved_run_db
transition_worker_run-IsExclusive redact clock run_id target details extra owner generation db safe
      keys h =
    let (run, found, _, allowed, done, _) =
      transition_worker_run_cases redact clock run_id target details extra owner generation db h in
    subst IsExclusive (sym done) (record {
      at = λ k.
          shrink-IsExclusiveAt db.workers db.workers db.runs _ k (safe.at k)
            (count_where-update_where-le_All _
              (moved_run (timestamp clock) target (redacted redact details)) (holds k)
              (λ r. run_is run_id r ≡ true → r ≡ run) db.runs
              (unique_row _ db.runs run (keys run_id) found)
              (λ r only hit e.
                moved_run-holds (timestamp clock) target (redacted redact details) r k
                  (subst (λ (s : RunRow). allows run_transitions s.state target ≡ true)
                    (sym (only hit)) allowed)
                  e))
            (λ e. e);
    })
