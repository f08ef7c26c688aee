-- ===== src/Store/System/Reports.antt =====
-- Runs and leases under `record_adapter_event` of src/project_supervisor/store.py.
use chips_agent_fabric.Prelude.{ℕ, String, List, Option, ◌≡◌, subst, sym, ap, ◌∙◌, refl, string_eq}
use chips_agent_fabric.Sql.{count_where}
use chips_agent_fabric.Sql.Rewrite.{count_where-update_where-le}
use chips_agent_fabric.Store.Error.{ok}
use chips_agent_fabric.Store.Schema.{Db, Field, run_is, timestamp}
use chips_agent_fabric.Store.Cancel.{holds}
use chips_agent_fabric.Store.Adapter.{
  record_adapter_event, record_adapter_event_cases, reported_db, reported_run, pid_of,
}
use chips_agent_fabric.Store.Exclusive.{IsExclusive}
use chips_agent_fabric.Store.Exclusive.Updating.{shrink-IsExclusiveAt}
use chips_agent_fabric.Store.System.Keys.{SameRunIds, update-SameRunIds}

module _ (clock : ℕ) (run_id kind : String) (payload : List (String × Field))
    (owner : Option String) (generation : Option ℕ) (db : Db) {n : ℕ} {db' : Db}
    (h : record_adapter_event clock run_id kind payload owner generation db ≡ ok (n, db')) where
  pub record_adapter_event-leases : db'.leases ≡ db.leases
  unfolding reported_db
  record_adapter_event-leases =
      let (run, _, done) =
        record_adapter_event_cases clock run_id kind payload owner generation db h in
      ap (λ (d : Db). d.leases) done

  pub record_adapter_event-SameRunIds : SameRunIds db db'
  unfolding reported_db
  record_adapter_event-SameRunIds k =
      let (run, _, done) =
        record_adapter_event_cases clock run_id kind payload owner generation db h in
      ap (λ (d : Db). count_where (run_is k) d.runs) done
      ∙ update-SameRunIds (run_is run_id) (reported_run (timestamp clock) (pid_of payload)) db
          (λ r. refl) k

  pub record_adapter_event-IsExclusive : IsExclusive db → IsExclusive db'
  unfolding reported_db
  record_adapter_event-IsExclusive safe =
      let (run, _, done) =
        record_adapter_event_cases clock run_id kind payload owner generation db h in
      subst IsExclusive (sym done) (record {
        at = λ k.
            shrink-IsExclusiveAt db.workers db.workers db.runs _ k (safe.at k)
              (count_where-update_where-le (run_is run_id)
                (reported_run (timestamp clock) (pid_of payload)) (holds k) db.runs (λ r p e. e))
              (λ e. e);
      })
