-- ===== src/Store/Jobs.antt =====
-- Durable provider jobs of src/project_supervisor/store.py: what the operations on a job share.
pub mod Prepare
pub mod Bind
pub mod Observe
pub mod Collect
pub mod Orphans
pub mod Cases
pub mod Endings
pub mod Tables
pub mod Only
pub mod Fencing
pub mod Binding
pub mod Settling
pub mod Taking
use mathlib.Core.Option
use chips_agent_fabric.Prelude.{
  refl, eq_refl, ◌≡◌, Eq, none, some, ℕ, String, Bool, true, false, List, ◌==◌, string_eq, [], ◌∷◌,
  Option,
}
use chips_agent_fabric.Domain.{EventSeverity, RunState, RunState_eq}
use chips_agent_fabric.Sql.{first_where, update_where}
use chips_agent_fabric.Store.Error.{Result, ok, key_error, fetched, ◌>>=◌, ◌>>◌}
use chips_agent_fabric.Store.Schema.{
  Db, TaskRow, Field, Event, ProviderJobRow, ReconciliationState, CollectionState, job_of, task_is,
}
use chips_agent_fabric.Store.Lease.{require_task_execution_lease}

-- Python's truth of an optional text: `not value`.
abbrev pub is_falsy : Option String → Bool
is_falsy none = true
is_falsy (some t) = t == ""

abbrev pub same_bool : Bool → Bool → Bool
same_bool true b = b
same_bool false true = false
same_bool false false = true

abbrev pub same_option {ℓ} : {A : Type ℓ} ⦃e : Eq A⦄ → Option A → Option A → Bool
same_option none none = true
same_option (some a) (some b) = a == b
same_option _ _ = false

pub same_option_refl {ℓ} : {A : Type ℓ} ⦃e : Eq A⦄ (o : Option A) → same_option o o ≡ true
same_option_refl none = refl
same_option_refl (some a) = eq_refl a

-- `SELECT project_id FROM tasks WHERE id=?`
abbrev pub project_of : Db → String → Option String
project_of db task_id =
    Option.map (λ (t : TaskRow). t.project_id) (first_where (task_is task_id) db.tasks)

abbrev pub job_is : String → ProviderJobRow → Bool
job_is k r = r.id == k

-- `_provider_job_for_update`
unfoldable pub provider_job_for_update : Db → String → Result ProviderJobRow
provider_job_for_update db run_id =
    fetched (first_where (job_of run_id) db.provider_jobs) (key_error run_id)

-- The job of the run, for the owner of the current lease of its task.
unfoldable pub fenced_provider_job : ℕ → Db → String → String → ℕ → Result ProviderJobRow
unfolding provider_job_for_update
fenced_provider_job clock db run_id lease_owner_id lease_generation = do
  job ← provider_job_for_update db run_id
  require_task_execution_lease clock db job.task_id lease_owner_id lease_generation
  ok job

-- `get_provider_job`
unfoldable pub get_provider_job : String → Db → Result (ProviderJobRow × Db)
get_provider_job run_id db = do
  job ← fetched (first_where (job_of run_id) db.provider_jobs) (key_error run_id)
  ok (job, db)

abbrev pub job_event :
    String
    → EventSeverity
    → ProviderJobRow
    → String
    → Option String
    → List (String × Field)
    → String
    → ℕ
    → ℕ
    → Event
job_event kind severity job run_id project_id payload actor now sequence = record {
  sequence = sequence;
  kind = kind;
  severity = severity;
  entity_type = "providerJob";
  entity_id = job.id;
  project_id = project_id;
  task_id = some job.task_id;
  worker_id = some job.worker_id;
  run_id = some run_id;
  payload = payload;
  actor = actor;
  created_at = now;
}

-- `UPDATE provider_jobs SET ... WHERE id=?`
abbrev pub changed_job : (ProviderJobRow → ProviderJobRow) → ProviderJobRow → Db → Db
changed_job change job db = record db {
  provider_jobs = update_where (job_is job.id) change db.provider_jobs;
}

abbrev pub is_collected : CollectionState → Bool
is_collected CollectionState.collected = true
is_collected _ = false

abbrev pub text_or_null : Option String → Field
text_or_null none = Field.null
text_or_null (some t) = Field.text t

-- The names that the journal writes.
abbrev pub reconciliation_text : ReconciliationState → String
reconciliation_text ReconciliationState.unknown = "unknown"
reconciliation_text ReconciliationState.known_running = "knownRunning"
reconciliation_text ReconciliationState.known_completed = "knownCompleted"
reconciliation_text ReconciliationState.known_failed = "knownFailed"
reconciliation_text ReconciliationState.known_cancelled = "knownCancelled"
reconciliation_text ReconciliationState.provider_not_found = "providerNotFound"
reconciliation_text ReconciliationState.provider_unreachable = "providerUnreachable"
