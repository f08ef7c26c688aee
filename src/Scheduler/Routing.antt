-- ===== src/Scheduler/Routing.antt =====
-- `_select`, `schedule` and the topologies of src/project_supervisor/scheduler.py.
use chips_agent_fabric.Prelude.{
  false, true, ℕ, suc, String, Bool, List, [], ◌∷◌, ◌++◌, Option, none, some, ◌==◌, string_eq, not,
  ◌&&◌, if◌then◌else◌, length, contains, nat_eq, map, take, ltb, nat_beq,
}
use chips_agent_fabric.Domain.{ExecutionTopology, ExecutionTopology_eq}
use chips_agent_fabric.Sql.{first_where}
use chips_agent_fabric.Store.Error.{Result, ok, ◌>>=◌}
use chips_agent_fabric.Store.Schema.{TaskRequirements}
use chips_agent_fabric.Scheduler.{
  FloatOps, WorkerSnapshot, SchedulerConfig, CandidateScore, Rejection, ReasonCode, RoutingDecision,
  ResourceRoutingEvidence,
}
use chips_agent_fabric.Scheduler.Sorting.{sorted}
use chips_agent_fabric.Scheduler.Order.{text_less}
use chips_agent_fabric.Scheduler.Constraints.{hard_constraints}
use chips_agent_fabric.Scheduler.Score.{score_of, resource_evidence, evidence_of}

-- `preferred_rank`: a worker that is named twice has the later place. Others come after all names.
abbrev rank_from : ℕ → ℕ → List String → String → ℕ
rank_from found i [] k = found
rank_from found i (w ∷ ws) k = rank_from (if w == k then i else found) (suc i) ws k

-- `len(preferred_rank)`: the number of different names.
abbrev distinct_count : List String → ℕ
distinct_count [] = 0
distinct_count (w ∷ ws) = let rest = distinct_count ws in if contains ws w then rest else suc rest

abbrev pub preferred_rank : List String → String → ℕ
preferred_rank preferred k = rank_from (distinct_count preferred) 0 preferred k

-- `not reasons`
abbrev pub is_clear : List Rejection → Bool
is_clear [] = true
is_clear (_ ∷ _) = false

-- `<` of Python's tuples: the first keys that differ decide.
abbrev pub tuple_less : Bool → Bool → Bool → Bool
tuple_less first_less first_same rest_less = if first_same then rest_less else first_less

-- What is selected and rejected when a topology cannot be staffed.
unfoldable pub staffed :
    ExecutionTopology → ℕ → List String → List Rejection → List String × List Rejection
staffed topology panel_size selected rejected =
    if topology == ExecutionTopology.primary_reviewer && ltb (length selected) 2
    then (
      [],
      rejected
          ++ (record { worker_id = "__topology__"; reason_code = ReasonCode.reviewer_unavailable }
              ∷ []),
    )
    else if topology == ExecutionTopology.parallel_panel && ltb (length selected) panel_size
    then (
      [],
      rejected
          ++ (record { worker_id = "__topology__"; reason_code = ReasonCode.panel_size_unavailable }
              ∷ []),
    )
    else (selected, rejected)

module _ {ℓ} {F : Type ℓ} where
  -- The workers that no hard constraint rules out, and the reasons against the others.
  unfoldable pub eligible : TaskRequirements → List (WorkerSnapshot F) → List (WorkerSnapshot F)
  eligible requirements [] = []
  eligible requirements (w ∷ ws) =
      let rest = eligible requirements ws in
      if is_clear (hard_constraints requirements w) then w ∷ rest else rest

  unfoldable pub reasons_against : TaskRequirements → List (WorkerSnapshot F) → List Rejection
  reasons_against requirements [] = []
  reasons_against requirements (w ∷ ws) =
      hard_constraints requirements w ++ reasons_against requirements ws

  -- `sorted(workers, key=lambda item: item.id)`
  abbrev pub sorted_workers : List (WorkerSnapshot F) → List (WorkerSnapshot F)
  sorted_workers workers = sorted (λ a b. text_less a.id b.id) workers

  abbrev pub is_reviewer_beside : String → WorkerSnapshot F → Bool
  is_reviewer_beside primary_id w = not (w.id == primary_id) && contains w.capabilities "review"

  abbrev reviewed_by : String → Option (WorkerSnapshot F) → List String
  reviewed_by primary_id none = primary_id ∷ []
  reviewed_by primary_id (some reviewer) = primary_id ∷ reviewer.id ∷ []

  abbrev pub first_id : List (WorkerSnapshot F) → List String
  first_id [] = []
  first_id (w ∷ ws) = w.id ∷ []

  abbrev ids : List (WorkerSnapshot F) → List String
  ids ws = map (λ (w : WorkerSnapshot F). w.id) ws

module _ {ℓ} {F : Type ℓ} (ops : FloatOps F) where
  -- `score_by_id[k].score`: the last score with the identifier.
  unfoldable pub score_by_id : F → List (CandidateScore F) → String → F
  score_by_id found [] k = found
  score_by_id found (s ∷ rest) k = score_by_id (if s.worker_id == k then s.score else found) rest k

  -- The key `(-score, id)`.
  abbrev pub ranks_before : (String → F) → WorkerSnapshot F → WorkerSnapshot F → Bool
  ranks_before score a b =
      tuple_less (ops.less (ops.neg (score a.id)) (ops.neg (score b.id)))
        (ops.same (ops.neg (score a.id)) (ops.neg (score b.id))) (text_less a.id b.id)

  -- The key `(preferred_rank, -score, id)`.
  abbrev pub prefers : List String → (String → F) → WorkerSnapshot F → WorkerSnapshot F → Bool
  prefers preferred score a b =
      tuple_less (ltb (preferred_rank preferred a.id) (preferred_rank preferred b.id))
        (nat_beq (preferred_rank preferred a.id) (preferred_rank preferred b.id))
        (ranks_before score a b)

  -- The key `(-monetary_cost_score, -score, id)`.
  abbrev pub is_cheaper : (String → F) → WorkerSnapshot F → WorkerSnapshot F → Bool
  is_cheaper score a b =
      tuple_less (ops.less (ops.neg a.monetary_cost_score) (ops.neg b.monetary_cost_score))
        (ops.same (ops.neg a.monetary_cost_score) (ops.neg b.monetary_cost_score))
        (ranks_before score a b)

  -- The key `(-score, worker_id)` of the candidates.
  abbrev scores_before : CandidateScore F → CandidateScore F → Bool
  scores_before a b =
      tuple_less (ops.less (ops.neg a.score) (ops.neg b.score))
        (ops.same (ops.neg a.score) (ops.neg b.score)) (text_less a.worker_id b.worker_id)

  -- `_select`
  unfoldable pub select :
      ExecutionTopology → TaskRequirements → List (WorkerSnapshot F) → (String → F) → List String
  select topology requirements [] score = []
  select ExecutionTopology.single requirements (w ∷ ws) score = w.id ∷ []
  select ExecutionTopology.fallback requirements (w ∷ ws) score =
      first_id (sorted (prefers requirements.preferred_workers score) (w ∷ ws))
  select ExecutionTopology.cheap_first_escalation requirements (w ∷ ws) score =
      first_id (sorted (is_cheaper score) (w ∷ ws))
  select ExecutionTopology.primary_reviewer requirements (w ∷ ws) score =
      reviewed_by w.id (first_where (is_reviewer_beside w.id) (w ∷ ws))
  select ExecutionTopology.parallel_panel requirements (w ∷ ws) score =
      ids (take requirements.panel_size (w ∷ ws))

  -- The parts of a decision, as `schedule` makes them one after another, of the sorted workers.
  abbrev pub scores_of :
      SchedulerConfig F
      → TaskRequirements
      → List (WorkerSnapshot F)
      → List (ResourceRoutingEvidence F)
      → List (CandidateScore F)
  scores_of config requirements workers evidence =
      map
        (λ (w : WorkerSnapshot F).
          score_of ops config.weights requirements w (evidence_of evidence w.id))
        (eligible requirements workers)

  abbrev pub score_table :
      SchedulerConfig F
      → TaskRequirements
      → List (WorkerSnapshot F)
      → List (ResourceRoutingEvidence F)
      → String
      → F
  score_table config requirements workers evidence k =
      score_by_id (ops.of_nat 0) (scores_of config requirements workers evidence) k

  abbrev pub ranked_of :
      SchedulerConfig F
      → TaskRequirements
      → List (WorkerSnapshot F)
      → List (ResourceRoutingEvidence F)
      → List (WorkerSnapshot F)
  ranked_of config requirements workers evidence =
      sorted (ranks_before (score_table config requirements workers evidence))
        (eligible requirements workers)

  abbrev pub decision :
      SchedulerConfig F
      → TaskRequirements
      → ExecutionTopology
      → List (WorkerSnapshot F)
      → List (ResourceRoutingEvidence F)
      → RoutingDecision F
  decision config requirements topology workers evidence =
      let staff =
        staffed topology requirements.panel_size
          (select topology requirements (ranked_of config requirements workers evidence)
            (score_table config requirements workers evidence))
          (reasons_against requirements workers) in
      record {
        topology = topology;
        selected_worker_ids = staff.0;
        candidates = sorted scores_before (scores_of config requirements workers evidence);
        rejected = staff.1;
        policy_version = config.policy_version;
      }

  -- `schedule`
  unfoldable pub schedule :
      SchedulerConfig F
      → TaskRequirements
      → ExecutionTopology
      → List (WorkerSnapshot F)
      → List (ResourceRoutingEvidence F)
      → Result (RoutingDecision F)
  unfolding sorted eligible reasons_against staffed select score_by_id hard_constraints score_of
      text_less resource_evidence
  schedule config requirements topology workers evidence = do
    found ← resource_evidence evidence
    ok (decision config requirements topology (sorted_workers workers) found)
