-- ===== src/Store/Jobs/Binding.antt =====
-- When `bind_provider_job_handle` of src/project_supervisor/store.py accepts a handle.

use chips_agent_fabric.Prelude.{
  ◌⊎◌, inl, inr, ℕ, String, ◌≡◌, arith, true, refl, Bool, subst, sym, ◌∙◌, some, string_eq, nat_eq,
  eq_refl, ◌&&◌,
}
use chips_agent_fabric.Sql.{first_where}
use chips_agent_fabric.Sql.Rewrite.{first_where-update_where}
use chips_agent_fabric.Store.Error.{ok}
use chips_agent_fabric.Store.Schema.{Db, ProviderJobRow, Handle, LaunchState, job_of, timestamp}
use chips_agent_fabric.Store.Jobs.{is_falsy, same_option_refl, job_is}
use chips_agent_fabric.Store.Jobs.Bind.{
  bind_provider_job_handle, same_handle, is_bound, bound_db, bound_job, is_bindable,
}
use chips_agent_fabric.Store.Jobs.Cases.{bind_provider_job_handle_cases, fenced_provider_job_cases}

and-true : (a b : Bool) → a ≡ true → b ≡ true → (a && b) ≡ true
and-true a b p q = cc

same_handle_refl : (h : Handle) → same_handle h h ≡ true
same_handle_refl h = rw (eq_refl h.handle_version) (
    rw (same_option_refl h.provider_job_id) (
      rw (same_option_refl h.provider_session_id) (
        rw (same_option_refl h.runtime_pid) (
          rw (same_option_refl h.runtime_host)
            (rw (same_option_refl h.runtime_identity) (eq_refl h.adapter_metadata))))))

-- The handle that the caller asks to keep, with its metadata redacted.
abbrev pub redacted_handle : (String → String) → Handle → Handle
redacted_handle safe raw = record raw { adapter_metadata = safe raw.adapter_metadata }

-- The job is bound to this handle.
abbrev pub IsBoundTo : String → Handle → Db → Type 0
IsBoundTo run_id handle db =
    (job : ProviderJobRow) × (first_where (job_of run_id) db.provider_jobs ≡ some job)
    × (is_bound job.launch_state ≡ true)
    × (same_handle job.handle handle ≡ true)

bound_db-IsBoundTo :
    (now : ℕ) (run_id : String) (handle : Handle) (job : ProviderJobRow) (actor : String) (db : Db)
    → first_where (job_of run_id) db.provider_jobs ≡ some job
    → IsBoundTo run_id handle (bound_db now run_id handle job actor db)
unfolding bound_db
bound_db-IsBoundTo now run_id handle job actor db found = (
  bound_job now handle job,
  first_where-update_where (job_is job.id) (bound_job now handle) (job_of run_id) db.provider_jobs
        (λ r. refl)
      ∙ rw found (rw (eq_refl job.id) refl),
  refl,
  same_handle_refl handle,
)

-- A job at which a handle may be bound for the first time or again: it is prepared or launching, or it
-- is uncertain, has no identifier from the provider, and the provider knows a repeated request.
abbrev pub IsUnsettled : ProviderJobRow → Type 0
IsUnsettled job =
    (job.launch_state ≡ LaunchState.prepared)
    ⊎ (job.launch_state ≡ LaunchState.launching)
    ⊎ ((job.launch_state ≡ LaunchState.uncertain)
        × (is_falsy job.handle.provider_job_id ≡ true)
        × (job.supports.provider_idempotency ≡ true))

is_bindable-cases :
    (job : ProviderJobRow) (s : LaunchState)
    → is_bindable job s ≡ true
    → (s ≡ LaunchState.prepared)
      ⊎ (s ≡ LaunchState.launching)
      ⊎ ((s ≡ LaunchState.uncertain)
          × (is_falsy job.handle.provider_job_id ≡ true)
          × (job.supports.provider_idempotency ≡ true))
is_bindable-cases job LaunchState.prepared h = inl refl
is_bindable-cases job LaunchState.launching h = inr (inl refl)
is_bindable-cases job LaunchState.uncertain h =
    inr (inr (refl, ground (arith, h), ground (arith, h)))
is_bindable-cases job LaunchState.bound h = cc
is_bindable-cases job LaunchState.terminal h = cc

bound_state : (s : LaunchState) → is_bound s ≡ true → s ≡ LaunchState.bound
bound_state s h = ground arith

-- Of a call that succeeded one of two holds. It found the job of the run bound, the handle that it asks
-- for, with its metadata redacted, is the one that is bound, and nothing changed. Or it found the job
-- prepared or launching, or uncertain without an identifier from a provider that knows repeated
-- requests, and leaves it bound to that handle.
pub bind_provider_job_handle-guarded :
    (safe : String → String) (clock : ℕ) (run_id adapter instance_id : String) (raw : Handle)
    (owner : String) (generation : ℕ) (actor : String) (db db' : Db) (row job : ProviderJobRow)
    → first_where (job_of run_id) db.provider_jobs ≡ some job
    → bind_provider_job_handle safe clock run_id adapter instance_id raw owner generation actor db
      ≡ ok (row, db')
    → ((job.launch_state ≡ LaunchState.bound)
        × (same_handle job.handle (redacted_handle safe raw) ≡ true)
        × (db' ≡ db))
      ⊎ (IsUnsettled job × IsBoundTo run_id (redacted_handle safe raw) db')
bind_provider_job_handle-guarded safe clock run_id adapter instance_id raw owner generation actor db
      db' row job there h =
    let (job', held, outcome) =
      bind_provider_job_handle_cases safe clock run_id adapter instance_id raw owner generation
        actor db h in
    let (found, _) = fenced_provider_job_cases clock db run_id owner generation held in
    let is_job : job' ≡ job = ground (arith, found, there) in
    elim outcome [
      | inl (bound, same, unchanged) ↦ inl (
        bound_state job.launch_state
            (subst (λ (j : ProviderJobRow). is_bound j.launch_state ≡ true) is_job bound),
        subst (λ (j : ProviderJobRow). same_handle j.handle (redacted_handle safe raw) ≡ true)
            is_job same,
        unchanged,
      )
      | inr (bindable, done) ↦ inr (
        subst IsUnsettled is_job (is_bindable-cases job' job'.launch_state bindable),
        subst (IsBoundTo run_id (redacted_handle safe raw)) (sym done) (
            bound_db-IsBoundTo (timestamp clock) run_id (redacted_handle safe raw) job' actor db
              found),
      )
    ]
