-- ===== src/Store/Records/Once.antt =====
-- Repeated writes of results and approvals in src/project_supervisor/store.py.
use chips_agent_fabric.Prelude.{
  none, some, ℕ, String, Bool, true, false, List, ◌==◌, string_eq, [], ◌∷◌, ◌++◌, Option, ◌≡◌, refl,
  inl, inr, sym, subst, ap, ◌∙◌, Option-cases, eq_refl, arith, ◌⊎◌, not,
}
use chips_agent_fabric.Domain.{ApprovalState, ApprovalState_eq}
use chips_agent_fabric.Sql.{first_where}
use chips_agent_fabric.Sql.Rows.{first_where_holds}
use chips_agent_fabric.Sql.Rewrite.{first_where-update_where}
use chips_agent_fabric.Store.Error.{
  integrity_error, ok, err, value_error, >>=-eq-ok, >>-eq-ok, guarded-eq-ok, fetched, key_error,
  runtime_error, fetched-eq-ok, refuse,
}
use chips_agent_fabric.Store.Schema.{
  timestamp, Db, ResultRow, ApprovalRow, RunRow, result_of, run_is,
}
use chips_agent_fabric.Store.Lease.{require_optional_lease}
use chips_agent_fabric.Store.Jobs.{same_option_refl}
use chips_agent_fabric.Store.Records.{
  violates_confidence, ResultCounts, same_result, save_worker_result, stored_or_new, stored_result,
  result_db,
}
use chips_agent_fabric.Store.Records.Approvals.{
  resolve_approval, approval_is, resolved_db, resolved_approval, resolution,
}

-- The stored result of the run, with the values.
abbrev pub HasResult : String → ResultRow → Db → Type 0
HasResult run_id values db =
    (row : ResultRow) × (first_where (result_of run_id) db.results ≡ some row)
    × (same_result row values ≡ true)

first_where-appended :
    (k : String) (rows : List ResultRow) (row : ResultRow)
    → first_where (result_of k) rows ≡ none
    → result_of k row ≡ true
    → first_where (result_of k) (rows ++ (row ∷ [])) ≡ some row
unfolding first_where
first_where-appended k [] row h fits = rw fits refl
first_where-appended k (r ∷ rs) row h fits = ground (arith, first_where-appended k rs row)

ok-inj {ℓ} : {A : Type ℓ} {a b : A} → ok a ≡ ok b → a ≡ b
ok-inj h = cc

same_result_refl : (r : ResultRow) → same_result r r ≡ true
same_result_refl r = rw (eq_refl r.summary) (
    rw (eq_refl r.changed_files) (
      rw (eq_refl r.commands_run) (
        rw (eq_refl r.tests) (
          rw (eq_refl r.artifacts) (
            rw (same_option_refl r.commit_hash) (
              rw (eq_refl r.blockers)
                (rw (same_option_refl r.confidence) (eq_refl r.recommended_next_actions))))))))

stored_or_new_cases :
    (is_fraction : String → Bool) (now : ℕ) (run_id : String) (run : RunRow) (values : ResultRow)
    (counts : ResultCounts) (db : Db) {db' : Db}
    → stored_or_new is_fraction now run_id run values counts db
        (first_where (result_of run_id) db.results)
      ≡ ok db'
    → HasResult run_id values db'
      × ((db' ≡ db) ⊎ (first_where (result_of run_id) db.results ≡ none))
unfolding stored_or_new result_db
stored_or_new_cases is_fraction now run_id run values counts db {db'} h =
    elim (Option-cases (first_where (result_of run_id) db.results)) [
      | inr (row, e) ↦
          let (same, taken) = guarded-eq-ok (same_result row values) db runtime_error (rw e at h) in
          (subst (HasResult run_id values) taken (row, e, same), inl (sym taken))
      | inl e ↦
          let (_, taken) =
            guarded-eq-ok (not (violates_confidence is_fraction values.confidence))
              (result_db now run_id run values counts db) integrity_error (rw e at h) in
          (
            subst (HasResult run_id values) taken (
              stored_result run_id now values,
              first_where-appended run_id db.results (stored_result run_id now values) e
                  (eq_refl run_id),
              same_result_refl values,
            ),
            inr e,
          )
    ]

save_worker_result_cases :
    (is_fraction : String → Bool) (clock : ℕ) (run_id : String) (values : ResultRow)
    (counts : ResultCounts) (owner : Option String) (generation : Option ℕ) (db : Db) {db' : Db}
    → save_worker_result is_fraction clock run_id values counts owner generation db ≡ ok db'
    → HasResult run_id values db'
      × ((db' ≡ db) ⊎ (first_where (result_of run_id) db.results ≡ none))
unfolding save_worker_result
save_worker_result_cases is_fraction clock run_id values counts owner generation db h =
    let (run, _, after) =
      >>=-eq-ok (fetched (first_where (run_is run_id) db.runs) (key_error run_id)) _ h in
    stored_or_new_cases is_fraction (timestamp clock) run_id run values counts db (
      >>-eq-ok (require_optional_lease clock db run.task_id owner generation)
        (stored_or_new is_fraction (timestamp clock) run_id run values counts db
          (first_where (result_of run_id) db.results))
        after)

-- The result of a run is immutable: after `save_worker_result` has accepted values, they are stored,
-- and a later call for the run that succeeds changes nothing and has the same values, but for the key
-- and the time, as the stored row.
pub save_worker_result-keeps :
    (is_fraction : String → Bool) (clock clock' : ℕ) (run_id : String) (values values' : ResultRow)
    (counts counts' : ResultCounts) (owner owner' : Option String)
    (generation generation' : Option ℕ) (db db' last : Db)
    → save_worker_result is_fraction clock run_id values counts owner generation db ≡ ok db'
    → save_worker_result is_fraction clock' run_id values' counts' owner' generation' db' ≡ ok last
    → HasResult run_id values db' × (last ≡ db') × HasResult run_id values' db'
save_worker_result-keeps is_fraction clock clock' run_id values values' counts counts' owner owner'
      generation generation' db db' last h h' =
    let (stored, _) =
      save_worker_result_cases is_fraction clock run_id values counts owner generation db h in
    let (again, outcome) =
      save_worker_result_cases is_fraction clock' run_id values' counts' owner' generation' db'
        h' in
    let (row, found, _) = stored in
    elim outcome [
      | inl same ↦ (stored, same, subst (HasResult run_id values') same again)
      | inr missing ↦ absurd (ground (arith, found, missing))
    ]

resolved-not_pending : (approved : Bool) → (resolution approved == ApprovalState.pending) ≡ false
resolved-not_pending true = refl
resolved-not_pending false = refl

resolved_db-found :
    (now : ℕ) (approval_id : String) (approved : Bool) (by : String) (reason : Option String)
    (row : ApprovalRow) (db : Db)
    → first_where (approval_is approval_id) db.approvals ≡ some row
    → first_where
        (approval_is approval_id)
        (resolved_db now approval_id approved by reason row db).approvals
      ≡ some (resolved_approval now approved by reason row)
unfolding resolved_db
resolved_db-found now approval_id approved by reason row db found =
    first_where-update_where (approval_is approval_id) (resolved_approval now approved by reason)
      (approval_is approval_id) db.approvals (λ r. refl)
    ∙ rw found (rw (first_where_holds (approval_is approval_id) db.approvals row found) refl)

resolve_approval-refused :
    (clock : ℕ) (approval_id : String) (approved : Bool) (by : String) (reason : Option String)
    (row : ApprovalRow) (db : Db)
    → first_where (approval_is approval_id) db.approvals ≡ some row
    → (row.state == ApprovalState.pending) ≡ false
    → resolve_approval clock approval_id approved by reason db ≡ err value_error
unfolding resolve_approval
resolve_approval-refused clock approval_id approved by reason row db found ended =
    rw found (rw ended refl)

-- An approval is resolved once: after `resolve_approval` has succeeded, the approval has the answer and
-- the one who gave it, and every later call, whatever its answer, is refused as a bad value.
pub resolve_approval-once :
    (clock clock' : ℕ) (approval_id : String) (approved approved' : Bool) (by by' : String)
    (reason reason' : Option String) (db db' : Db)
    → resolve_approval clock approval_id approved by reason db ≡ ok db'
    → ((row : ApprovalRow) × (first_where (approval_is approval_id) db'.approvals ≡ some row)
        × (row.state ≡ resolution approved)
        × (row.resolved_by ≡ some by))
      × (resolve_approval clock' approval_id approved' by' reason' db' ≡ err value_error)
unfolding resolve_approval
resolve_approval-once clock clock' approval_id approved approved' by by' reason reason' db db' h =
    let (row, there, after) =
      >>=-eq-ok
        (fetched (first_where (approval_is approval_id) db.approvals) (key_error approval_id)) _
        h in
    let now = timestamp clock in
    let change = resolved_approval now approved by reason in
    let taken : resolved_db now approval_id approved by reason row db ≡ db' =
      ok-inj (>>-eq-ok (refuse (not (row.state == ApprovalState.pending)) value_error) _ after) in
    let found : first_where (approval_is approval_id) db'.approvals ≡ some (change row) =
      ap (λ (d : Db). first_where (approval_is approval_id) d.approvals) (sym taken)
      ∙ resolved_db-found now approval_id approved by reason row db (fetched-eq-ok _ _ there) in
    (
      (change row, found, refl, refl),
      resolve_approval-refused clock' approval_id approved' by' reason' (change row) db' found
          (resolved-not_pending approved),
    )
