-- ===== src/Scheduler/Eligible.antt =====
-- What `schedule` of src/project_supervisor/scheduler.py selects from.
use mathlib.Core.List.{Memᴰ}
use chips_agent_fabric.Prelude.{
  ℕ, zero, suc, String, Bool, true, List, [], ◌∷◌, ◌≡◌, refl, inl, inr, Bool-cases, Option-cases,
  All, All-imp, sym, subst, map, take, ltb, ◌==◌, ◌&&◌, length,
}
use chips_agent_fabric.Domain.{ExecutionTopology, ExecutionTopology_eq}
use chips_agent_fabric.Sql.{first_where}
use chips_agent_fabric.Sql.Rows.{All-first_where}
use chips_agent_fabric.Store.Error.{ok, >>=-eq-ok}
use chips_agent_fabric.Store.Schema.{TaskRequirements}
use chips_agent_fabric.Scheduler.{
  FloatOps, WorkerSnapshot, SchedulerConfig, RoutingDecision, ResourceRoutingEvidence, Rejection,
}
use chips_agent_fabric.Scheduler.Sorting.{sorted, All-sorted}
use chips_agent_fabric.Scheduler.Order.{text_less}
use chips_agent_fabric.Scheduler.Constraints.{hard_constraints}
use chips_agent_fabric.Scheduler.Score.{resource_evidence}
use chips_agent_fabric.Scheduler.Routing.{
  eligible, staffed, is_clear, select, schedule, decision, sorted_workers, ranked_of, score_table,
  is_reviewer_beside, prefers, is_cheaper, ranks_before, first_id,
}

module _ {ℓ κ} {A : Type ℓ} (P : A → Type κ) where
  All-take : (n : ℕ) (xs : List A) → All P xs → All P (take n xs)
  All-take zero xs a = tt
  All-take (suc n) [] a = tt
  All-take (suc n) (x ∷ xs) (p, a) = (p, All-take n xs a)

-- Every element is in the list.
pub All-in {ℓ} : {A : Type ℓ} (xs : List A) → All (λ x. Memᴰ x xs) xs
All-in [] = tt
All-in (x ∷ xs) = (
  Memᴰ.head refl,
  All-imp (λ y. Memᴰ y xs) (λ y. Memᴰ y (x ∷ xs)) xs (λ y m. Memᴰ.tail m) (All-in xs),
)

pub is_clear-none : (reasons : List Rejection) → is_clear reasons ≡ true → reasons ≡ []
is_clear-none [] h = refl
is_clear-none (r ∷ rs) h = cc

module _ {ℓ κ} {F : Type ℓ} (requirements : TaskRequirements) (P : WorkerSnapshot F → Type κ) where
  -- An eligible worker, of what all workers have.
  abbrev pub IsEligible : WorkerSnapshot F → Type κ
  IsEligible w = P w × (hard_constraints requirements w ≡ [])

  pub All-eligible :
      (ws : List (WorkerSnapshot F)) → All P ws → All IsEligible (eligible requirements ws)
  unfolding eligible
  All-eligible [] a = tt
  All-eligible (w ∷ ws) (p, a) = elim (Bool-cases (is_clear (hard_constraints requirements w))) [
    | inl y ↦ rw y ((p, is_clear-none (hard_constraints requirements w) y), All-eligible ws a)
    | inr n ↦ rw n (All-eligible ws a)
  ]

-- A selected identifier is that of a worker with the property.
abbrev pub IsIdOf {ℓ κ} : {F : Type ℓ} (P : WorkerSnapshot F → Type κ) → String → Type (ℓ ⊔ κ)
IsIdOf {F = F} P k = (w : WorkerSnapshot F) × P w × (w.id ≡ k)

module _ {ℓ κ} {F : Type ℓ} (P : WorkerSnapshot F → Type κ) where
  All-ids :
      (ws : List (WorkerSnapshot F))
      → All P ws
      → All (IsIdOf P) (map (λ (w : WorkerSnapshot F). w.id) ws)
  All-ids [] a = tt
  All-ids (w ∷ ws) (p, a) = ((w, p, refl), All-ids ws a)

  All-first_id : (ws : List (WorkerSnapshot F)) → All P ws → All (IsIdOf P) (first_id ws)
  All-first_id [] a = tt
  All-first_id (w ∷ ws) (p, a) = ((w, p, refl), tt)

  All-staffed :
      (topology : ExecutionTopology) (panel_size : ℕ) (selected : List String)
      (rejected : List Rejection)
      → All (IsIdOf P) selected
      → All (IsIdOf P) (staffed topology panel_size selected rejected).0
  unfolding staffed
  All-staffed topology panel_size selected rejected a =
      elim (Bool-cases
        (topology == ExecutionTopology.primary_reviewer && ltb (length selected) 2)) [
          | inl y ↦ rw y tt
          | inr n ↦
              elim (Bool-cases (
                topology == ExecutionTopology.parallel_panel && ltb (length selected) panel_size)) [
                  | inl y ↦ rw n (rw y tt)
                  | inr m ↦ rw n (rw m a)
                ]
        ]

  module _ (ops : FloatOps F) where
    -- Only ranked workers are selected.
    All-select :
        (topology : ExecutionTopology) (requirements : TaskRequirements)
        (ranked : List (WorkerSnapshot F)) (score : String → F)
        → All P ranked
        → All (IsIdOf P) (select ops topology requirements ranked score)
    unfolding select
    All-select ExecutionTopology.single requirements [] score a = tt
    All-select ExecutionTopology.fallback requirements [] score a = tt
    All-select ExecutionTopology.cheap_first_escalation requirements [] score a = tt
    All-select ExecutionTopology.primary_reviewer requirements [] score a = tt
    All-select ExecutionTopology.parallel_panel requirements [] score a = tt
    All-select ExecutionTopology.single requirements (w ∷ ws) score (p, a) = ((w, p, refl), tt)
    All-select ExecutionTopology.fallback requirements (w ∷ ws) score a =
        All-first_id _ (All-sorted (prefers ops requirements.preferred_workers score) P (w ∷ ws) a)
    All-select ExecutionTopology.cheap_first_escalation requirements (w ∷ ws) score a =
        All-first_id _ (All-sorted (is_cheaper ops score) P (w ∷ ws) a)
    All-select ExecutionTopology.primary_reviewer requirements (w ∷ ws) score a =
        elim (Option-cases (first_where (is_reviewer_beside w.id) (w ∷ ws))) [
          | inl e ↦ rw e ((w, a.0, refl), tt)
          | inr (r, e) ↦ rw e (
            (w, a.0, refl),
            ((r, All-first_where (is_reviewer_beside w.id) P (w ∷ ws) r a e, refl), tt),
          )
        ]
    All-select ExecutionTopology.parallel_panel requirements (w ∷ ws) score a =
        All-ids _ (All-take P requirements.panel_size (w ∷ ws) a)

-- The outcome of `schedule`.
pub schedule_cases {ℓ} :
    {F : Type ℓ} (ops : FloatOps F) (config : SchedulerConfig F) (requirements : TaskRequirements)
    (topology : ExecutionTopology) (workers : List (WorkerSnapshot F))
    (evidence : List (ResourceRoutingEvidence F)) {d : RoutingDecision F}
    → schedule ops config requirements topology workers evidence ≡ ok d
    → (found : List (ResourceRoutingEvidence F)) × (resource_evidence evidence ≡ ok found)
      × (d ≡ decision ops config requirements topology (sorted_workers workers) found)
unfolding schedule
schedule_cases ops config requirements topology workers evidence h =
    let (found, gathered, same) = >>=-eq-ok (resource_evidence evidence) _ h in
    (found, gathered, cc)

-- With the evidence that was gathered, the decision is the one of the parts.
pub schedule_made {ℓ} :
    {F : Type ℓ} (ops : FloatOps F) (config : SchedulerConfig F) (requirements : TaskRequirements)
    (topology : ExecutionTopology) (workers : List (WorkerSnapshot F))
    (evidence found : List (ResourceRoutingEvidence F)) (d : RoutingDecision F)
    → resource_evidence evidence ≡ ok found
    → schedule ops config requirements topology workers evidence ≡ ok d
    → d ≡ decision ops config requirements topology (sorted_workers workers) found
schedule_made ops config requirements topology workers evidence found d gathered h =
    let (found', gathered', same) =
      schedule_cases ops config requirements topology workers evidence h in
    let is_found : found' ≡ found = cc in
    subst (λ f. d ≡ decision ops config requirements topology (sorted_workers workers) f) is_found
      same

-- A given worker against which no hard constraint speaks.
abbrev pub IsPassing {ℓ} :
    {F : Type ℓ} → TaskRequirements → List (WorkerSnapshot F) → WorkerSnapshot F → Type ℓ
IsPassing requirements workers w = Memᴰ w workers × (hard_constraints requirements w ≡ [])

-- Only such workers are ranked.
pub ranked_of-IsPassing {ℓ} :
    {F : Type ℓ} (ops : FloatOps F) (config : SchedulerConfig F) (requirements : TaskRequirements)
    (workers : List (WorkerSnapshot F)) (found : List (ResourceRoutingEvidence F))
    → All
        (IsPassing requirements workers)
        (ranked_of ops config requirements (sorted_workers workers) found)
ranked_of-IsPassing {F} ops config requirements workers found =
    let by_id : WorkerSnapshot F → WorkerSnapshot F → Bool = λ a b. text_less a.id b.id in
    All-sorted
      (ranks_before ops (score_table ops config requirements (sorted_workers workers) found)) _
      (eligible requirements (sorted_workers workers))
      (All-eligible requirements (λ w. Memᴰ w workers) (sorted by_id workers)
        (All-sorted by_id (λ w. Memᴰ w workers) workers (All-in workers)))

-- Constraints come first: every selected identifier is that of a worker among the given ones against
-- which no hard constraint speaks, whatever the topology, the scores and the evidence.
pub schedule-eligible {ℓ} :
    {F : Type ℓ} (ops : FloatOps F) (config : SchedulerConfig F) (requirements : TaskRequirements)
    (topology : ExecutionTopology) (workers : List (WorkerSnapshot F))
    (evidence : List (ResourceRoutingEvidence F)) (d : RoutingDecision F)
    → schedule ops config requirements topology workers evidence ≡ ok d
    → All
        (IsIdOf (λ w. Memᴰ w workers × (hard_constraints requirements w ≡ [])))
        d.selected_worker_ids
schedule-eligible {F} ops config requirements topology workers evidence d h =
    let (found, _, same) = schedule_cases ops config requirements topology workers evidence h in
    let ranked = ranked_of-IsPassing ops config requirements workers found in
    let P : WorkerSnapshot F → Type ℓ =
      λ w. Memᴰ w workers × (hard_constraints requirements w ≡ []) in
    subst (λ (e : RoutingDecision F). All (IsIdOf P) e.selected_worker_ids) (sym same)
      (All-staffed P topology requirements.panel_size _ _ (
        All-select P ops topology requirements
          (ranked_of ops config requirements (sorted_workers workers) found)
          (score_table ops config requirements (sorted_workers workers) found) ranked))
