-- ===== src/Store/Records/Approvals.antt =====
-- `request_approval` and `resolve_approval` of src/project_supervisor/store.py.
use chips_agent_fabric.Prelude.{
  none, some, ℕ, String, Bool, true, false, List, ◌==◌, string_eq, [], ◌∷◌, ◌++◌, Option, not,
  coalesce,
}
use chips_agent_fabric.Domain.{EventSeverity, ApprovalState, ApprovalState_eq}
use chips_agent_fabric.Sql.{first_where, exists_where, update_where}
use chips_agent_fabric.Store.Error.{
  Result, ok, key_error, value_error, integrity_error, refuse, fetched, ◌>>=◌, ◌>>◌,
}
use chips_agent_fabric.Store.Schema.{timestamp, append_event, Db, Field, Event, ApprovalRow}

abbrev pub approval_is : String → ApprovalRow → Bool
approval_is k r = r.id == k

abbrev approval_event :
    String → EventSeverity → ApprovalRow → List (String × Field) → String → ℕ → ℕ → Event
approval_event kind severity row payload actor now sequence = record {
  sequence = sequence;
  kind = kind;
  severity = severity;
  entity_type = "approval";
  entity_id = row.id;
  project_id = some row.project_id;
  task_id = row.task_id;
  worker_id = none;
  run_id = none;
  payload = payload;
  actor = actor;
  created_at = now;
}

abbrev names_no_task : Option String → Db → Bool
names_no_task none db = false
names_no_task (some task_id) db = not (exists_where (λ t. t.id == task_id) db.tasks)

abbrev pub pending_approval : ℕ → String → ApprovalRow → ApprovalRow
pending_approval now approval_id given = record given {
  id = approval_id;
  state = ApprovalState.pending;
  requested_at = now;
  resolved_at = none;
  resolved_by = none;
}

-- `given` holds the arguments, its payload as a redacted compact text; `approval_id` is the new
-- identifier. A project or task that is missing breaks the schema's references.
unfoldable pub request_approval : ℕ → String → ApprovalRow → Db → Result (String × Db)
unfolding timestamp
request_approval clock approval_id given db = do
  let row = pending_approval (timestamp clock) approval_id given
  refuse (exists_where (approval_is approval_id) db.approvals) integrity_error
  refuse (not (exists_where (λ p. p.id == row.project_id) db.projects)) integrity_error
  refuse (names_no_task row.task_id db) integrity_error
  ok (
    approval_id,
    append_event
        (approval_event "approvalRequested" EventSeverity.warning row
          (("approvalID", Field.text approval_id)
            ∷ ("permissionClass", Field.text row.permission_class)
            ∷ [])
          row.requested_by (timestamp clock))
        (record db { approvals = db.approvals ++ (row ∷ []) }),
  )

abbrev pub resolution : Bool → ApprovalState
resolution true = ApprovalState.approved
resolution false = ApprovalState.rejected

abbrev resolution_text : Bool → String
resolution_text true = "approved"
resolution_text false = "rejected"

abbrev pub resolved_approval : ℕ → Bool → String → Option String → ApprovalRow → ApprovalRow
resolved_approval now approved resolved_by reason r = record r {
  state = resolution approved;
  resolved_at = some now;
  resolved_by = some resolved_by;
  reason = coalesce reason r.reason;
}

unfoldable pub resolved_db : ℕ → String → Bool → String → Option String → ApprovalRow → Db → Db
resolved_db now approval_id approved resolved_by reason row db =
    append_event
      (approval_event "approvalResolved" EventSeverity.notice row
        (("approvalID", Field.text approval_id)
          ∷ ("state", Field.text (resolution_text approved))
          ∷ [])
        resolved_by now)
      (record db {
        approvals =
            update_where (approval_is approval_id)
              (resolved_approval now approved resolved_by reason) db.approvals;
      })

unfoldable pub resolve_approval : ℕ → String → Bool → String → Option String → Db → Result Db
resolve_approval clock approval_id approved resolved_by reason db = do
  row ← fetched (first_where (approval_is approval_id) db.approvals) (key_error approval_id)
  refuse (not (row.state == ApprovalState.pending)) value_error
  ok (resolved_db (timestamp clock) approval_id approved resolved_by reason row db)
