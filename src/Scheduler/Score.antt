-- ===== src/Scheduler/Score.antt =====
-- `_score` and `_resource_evidence` of src/project_supervisor/scheduler.py.
use chips_agent_fabric.Prelude.{
  ℕ, String, Bool, List, [], ◌∷◌, ◌++◌, Option, none, some, ◌==◌, string_eq, not, ◌||◌,
  if◌then◌else◌, length, contains, nat_eq,
}
use chips_agent_fabric.Domain.{WorkerState, WorkerState_eq, ResourceState}
use chips_agent_fabric.Sql.{select_where, exists_where, first_where}
use chips_agent_fabric.Store.Error.{Result, ok, value_error, refuse, ◌>>◌}
use chips_agent_fabric.Store.Schema.{TaskRequirements}
use chips_agent_fabric.Scheduler.{
  FloatOps, WorkerSnapshot, SchedulerWeights, Components, CandidateScore, ResourceRoutingEvidence,
}

module _ {ℓ} {F : Type ℓ} (ops : FloatOps F) where
  abbrev zero_f : F
  zero_f = ops.of_nat 0

  abbrev one : F
  one = ops.of_nat 1

  -- Python's `min` and `max`: the second is taken only where it is less, or greater.
  abbrev min_f : F → F → F
  min_f a b = if ops.less b a then b else a

  abbrev max_f : F → F → F
  max_f a b = if ops.less a b then b else a

  -- `_clamp`
  abbrev pub clamp : F → F
  clamp value = min_f one (max_f zero_f value)

  abbrev capability_fit_of : List String → List String → F
  capability_fit_of [] capabilities = one
  capability_fit_of (c ∷ required) capabilities =
      ops.div (ops.of_nat (length (select_where (contains capabilities) (c ∷ required))))
        (ops.of_nat (length (c ∷ required)))

  -- `worker.model.context_window_tokens or 0`
  abbrev tokens_or_zero : Option ℕ → ℕ
  tokens_or_zero none = 0
  tokens_or_zero (some n) = n

  abbrev context_fit_of : Option ℕ → Option ℕ → F
  context_fit_of none context = one
  context_fit_of (some needed) context =
      if needed == 0
      then one
      else min_f one (ops.div (ops.of_nat (tokens_or_zero context)) (ops.of_nat needed))

  abbrev health_of : ResourceState → F
  health_of ResourceState.available = one
  health_of ResourceState.warning = ops.half
  health_of ResourceState.unknown = ops.quarter
  health_of _ = zero_f

  abbrev quota_health_of : Option (ResourceRoutingEvidence F) → ResourceState → F
  quota_health_of (some evidence) state = evidence.health_score
  quota_health_of none state = health_of state

  abbrev pub components_of :
      TaskRequirements → WorkerSnapshot F → Option (ResourceRoutingEvidence F) → Components F
  components_of requirements worker evidence = record {
    capability_fit = capability_fit_of requirements.required_capabilities worker.capabilities;
    expected_quality = clamp worker.quality_score;
    availability = if worker.state == WorkerState.idle then one else zero_f;
    quota_health = quota_health_of evidence worker.resource_state;
    monetary_cost = clamp worker.monetary_cost_score;
    latency =
        ops.div one
          (ops.add one (ops.div (max_f worker.expected_latency_seconds zero_f) (ops.of_nat 60)));
    historical_reliability = clamp worker.reliability_score;
    node_load = ops.sub one (clamp worker.node_load);
    privacy = if not requirements.privacy_sensitive || worker.privacy_allowed then one else zero_f;
    context_fit =
        context_fit_of requirements.minimum_context_tokens worker.model.context_window_tokens;
  }

  -- `sum(values)` starts from the integer 0.
  abbrev sum_from : F → List F → F
  sum_from total [] = total
  sum_from total (x ∷ xs) = sum_from (ops.add total x) xs

  abbrev weights_list : SchedulerWeights F → List F
  weights_list w =
      w.capability_fit ∷ w.expected_quality ∷ w.availability ∷ w.quota_health ∷ w.monetary_cost
      ∷ w.latency ∷ w.historical_reliability ∷ w.node_load ∷ w.privacy ∷ w.context_fit ∷ []

  abbrev weighted : Components F → SchedulerWeights F → List F
  weighted c w =
      ops.mul c.capability_fit w.capability_fit
      ∷ ops.mul c.expected_quality w.expected_quality
      ∷ ops.mul c.availability w.availability
      ∷ ops.mul c.quota_health w.quota_health
      ∷ ops.mul c.monetary_cost w.monetary_cost
      ∷ ops.mul c.latency w.latency
      ∷ ops.mul c.historical_reliability w.historical_reliability
      ∷ ops.mul c.node_load w.node_load
      ∷ ops.mul c.privacy w.privacy
      ∷ ops.mul c.context_fit w.context_fit
      ∷ []

  -- `_score`. Weights whose sum is zero make Python fail; `ops.div` stands for the division then.
  unfoldable pub score_of :
      SchedulerWeights F
      → TaskRequirements
      → WorkerSnapshot F
      → Option (ResourceRoutingEvidence F)
      → CandidateScore F
  score_of weights requirements worker evidence =
      let components = components_of requirements worker evidence in
      record {
        worker_id = worker.id;
        score = ops.rounded (
            ops.div (sum_from zero_f (weighted components weights))
              (sum_from zero_f (weights_list weights)));
        components = components;
      }

module _ {ℓ} {F : Type ℓ} where
  abbrev pub evidence_for : String → ResourceRoutingEvidence F → Bool
  evidence_for k e = e.worker_id == k

  unfoldable pub gather_evidence :
      List (ResourceRoutingEvidence F)
      → List (ResourceRoutingEvidence F)
      → Result (List (ResourceRoutingEvidence F))
  gather_evidence found [] = ok found
  gather_evidence found (value ∷ values) =
      let rest = gather_evidence (found ++ (value ∷ [])) values in
      (refuse (exists_where (evidence_for value.worker_id) found) value_error >> rest)

  -- `_resource_evidence`: one entry for each worker.
  unfoldable pub resource_evidence :
      List (ResourceRoutingEvidence F) → Result (List (ResourceRoutingEvidence F))
  unfolding gather_evidence
  resource_evidence values = gather_evidence [] values

  -- `evidence_by_worker.get(worker.id)`
  abbrev pub evidence_of :
      List (ResourceRoutingEvidence F) → String → Option (ResourceRoutingEvidence F)
  evidence_of found k = first_where (evidence_for k) found
