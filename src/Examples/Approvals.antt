-- ===== src/Examples/Approvals.antt =====
-- An approval is asked for and answered.
use chips_agent_fabric.Prelude.{true, false, none, some, ◌≡◌, refl}
use chips_agent_fabric.Domain.{ApprovalState}
use chips_agent_fabric.Sql.{first_where, exists_where}
use chips_agent_fabric.Store.Error.{ok, err, value_error}
use chips_agent_fabric.Store.Schema.{Db, ApprovalRow}
use chips_agent_fabric.Store.Records.Approvals.{request_approval, resolve_approval, approval_is}
use chips_agent_fabric.Store.Records.Once.{resolve_approval-once}
use chips_agent_fabric.Examples.{fresh, after, taken}

abbrev asked : ApprovalRow
asked = record {
  id = "";
  project_id = "p";
  task_id = none;
  permission_class = "red";
  action_type = "deploy";
  action_payload = "{}";
  state = ApprovalState.pending;
  requested_at = 0;
  resolved_at = none;
  requested_by = "runtime";
  resolved_by = none;
  reason = none;
}

abbrev pending : Db
pending = after (request_approval 20000000 "q" asked fresh) fresh

abbrev resolved : Db
resolved = taken (resolve_approval 21000000 "q" true "human" none pending)

resolves : resolve_approval 21000000 "q" true "human" none pending ≡ ok resolved
unfolding resolve_approval first_where request_approval exists_where
resolves = refl

resolve_approval-once_example :
    ((row : ApprovalRow) × (first_where (approval_is "q") resolved.approvals ≡ some row)
      × (row.state ≡ ApprovalState.approved)
      × (row.resolved_by ≡ some "human"))
    × (resolve_approval 22000000 "q" false "other" none resolved ≡ err value_error)
resolve_approval-once_example =
    resolve_approval-once 21000000 22000000 "q" true false "human" "other" none none pending
      resolved resolves
