-- ===== src/Scheduler/Best.antt =====
-- The ranking of workers, and the single worker that `schedule` of
-- src/project_supervisor/scheduler.py selects.
use chips_agent_fabric.Prelude.{
  String, Bool, true, false, List, [], ◌∷◌, ◌≡◌, ◌⊎◌, refl, inl, inr, Bool-cases, All, arith, sym,
  subst, ap, ◌∙◌,
}
use chips_agent_fabric.Domain.{ExecutionTopology}
use chips_agent_fabric.Store.Error.{ok}
use chips_agent_fabric.Store.Schema.{TaskRequirements}
use chips_agent_fabric.Scheduler.{
  FloatOps, WorkerSnapshot, SchedulerConfig, RoutingDecision, ResourceRoutingEvidence, Rejection,
}
use chips_agent_fabric.Scheduler.Sorting.{sorted, sorted-IsHeadLeast, IsHeadLeast, All-sorted_back}
use chips_agent_fabric.Scheduler.Order.{text_less, text_less_asym, text_less_trans}
use chips_agent_fabric.Scheduler.Constraints.{hard_constraints}
use chips_agent_fabric.Scheduler.Routing.{
  staffed, select, schedule, decision, eligible, sorted_workers, ranked_of, score_table,
  ranks_before, tuple_less, is_clear,
}
use chips_agent_fabric.Scheduler.Score.{resource_evidence}
use chips_agent_fabric.Scheduler.Eligible.{schedule_made, IsPassing, ranked_of-IsPassing}

-- What the code relies on of the order of floats: it holds of all numbers but not-a-number.
pub record IsOrdered {ℓ} {F : Type ℓ} (ops : FloatOps F) : Type ℓ where
  pub less_asym : (a b : F) → ops.less a b ≡ true → ops.less b a ≡ false
  pub less_trans : (a b c : F) → ops.less a b ≡ false → ops.less b c ≡ false → ops.less a c ≡ false
  pub same_less : (a b : F) → ops.same a b ≡ true → ops.less a b ≡ false
  pub same_sym : (a b : F) → ops.same a b ≡ ops.same b a
  pub same_total : (a b : F) → ops.less a b ≡ false → ops.less b a ≡ false → ops.same a b ≡ true

tuple_less_asym :
    (less less' same same' rest rest' : Bool)
    → (less ≡ true → less' ≡ false)
    → same ≡ same'
    → (rest ≡ true → rest' ≡ false)
    → tuple_less less same rest ≡ true
    → tuple_less less' same' rest' ≡ false
tuple_less_asym less less' same same' rest rest' p q r h = ground arith

module _ {ℓ} {F : Type ℓ} (ops : FloatOps F) (ordered : IsOrdered ops) (score : String → F) where
  ranks_before_asym :
      (a b : WorkerSnapshot F)
      → ranks_before ops score a b ≡ true
      → ranks_before ops score b a ≡ false
  ranks_before_asym a b h =
      let x = ops.neg (score a.id) in
      let y = ops.neg (score b.id) in
      tuple_less_asym (ops.less x y) (ops.less y x) (ops.same x y) (ops.same y x)
        (text_less a.id b.id) (text_less b.id a.id) (ordered.less_asym x y) (ordered.same_sym x y)
        (text_less_asym a.id b.id) h

  tuple_less_trans :
      (x y z : F) (r s t : Bool)
      → (r ≡ false → s ≡ false → t ≡ false)
      → tuple_less (ops.less x y) (ops.same x y) r ≡ false
      → tuple_less (ops.less y z) (ops.same y z) s ≡ false
      → tuple_less (ops.less x z) (ops.same x z) t ≡ false
  tuple_less_trans x y z r s t next h k = ground (
    arith,
    next,
    ordered.same_less x y,
    ordered.same_less y z,
    ordered.same_less x z,
    ordered.same_less z x,
    ordered.same_sym x z,
    ordered.less_trans x y z,
    ordered.less_trans z x y,
    ordered.less_trans y z x,
    ordered.same_total x y,
    ordered.same_total y z,
  )

  ranks_before_trans :
      (a b c : WorkerSnapshot F)
      → ranks_before ops score a b ≡ false
      → ranks_before ops score b c ≡ false
      → ranks_before ops score a c ≡ false
  ranks_before_trans a b c h k =
      tuple_less_trans (ops.neg (score a.id)) (ops.neg (score b.id)) (ops.neg (score c.id))
        (text_less a.id b.id) (text_less b.id c.id) (text_less a.id c.id)
        (text_less_trans a.id b.id c.id) h k

List-cases {ℓ} : {A : Type ℓ} (l : List A) → (l ≡ []) ⊎ ((x : A) × (xs : List A) × (l ≡ (x ∷ xs)))
List-cases [] = inl refl
List-cases (x ∷ xs) = inr (x, xs, refl)

is_clear-some : (reasons : List Rejection) → reasons ≡ [] → is_clear reasons ≡ false → ⊥
is_clear-some reasons e n = ground (arith, ap is_clear e)

-- A worker against which nothing speaks is among the eligible ones.
All-eligible_back {ℓ κ} :
    {F : Type ℓ} (requirements : TaskRequirements) (P : WorkerSnapshot F → Type κ)
    (ws : List (WorkerSnapshot F))
    → All P (eligible requirements ws)
    → All (λ w. hard_constraints requirements w ≡ [] → P w) ws
unfolding eligible
All-eligible_back requirements P [] a = tt
All-eligible_back requirements P (w ∷ ws) a =
    elim (Bool-cases (is_clear (hard_constraints requirements w))) [
      | inl y ↦ let (p, rest) = rw y at a in ((λ _. p), All-eligible_back requirements P ws rest)
      | inr n ↦ (
        (λ e. absurd (is_clear-some (hard_constraints requirements w) e n)),
        All-eligible_back requirements P ws (rw n at a),
      )
    ]

module _ {ℓ} {F : Type ℓ} (ops : FloatOps F) (ordered : IsOrdered ops) where
  irreflexive : (score : String → F) (w : WorkerSnapshot F) → ranks_before ops score w w ≡ false
  irreflexive score w = elim (Bool-cases (ranks_before ops score w w)) [
    | inl y ↦ ranks_before_asym ops ordered score w w y
    | inr n ↦ n
  ]

  -- What comes first among ranked workers, none ranks before.
  pub first-best :
      (score : String → F) (w : WorkerSnapshot F) (ws eligible_ones : List (WorkerSnapshot F))
      → sorted (ranks_before ops score) eligible_ones ≡ (w ∷ ws)
      → All
          (λ v. ranks_before ops score v w ≡ false)
          (sorted (ranks_before ops score) eligible_ones)
  first-best score w ws eligible_ones e =
      let IsLeast : List (WorkerSnapshot F) → Type 0 =
        IsHeadLeast (ranks_before ops score) (ranks_before_asym ops ordered score)
          (ranks_before_trans ops ordered score) in
      subst (All (λ v. ranks_before ops score v w ≡ false)) (sym e) (
        irreflexive score w,
        subst IsLeast e (
            sorted-IsHeadLeast (ranks_before ops score) (ranks_before_asym ops ordered score)
              (ranks_before_trans ops ordered score) eligible_ones),
      )

  -- Every given worker without a reason against it has what all ranked ones have.
  pub ranked_back {κ} :
      (P : WorkerSnapshot F → Type κ) (config : SchedulerConfig F) (requirements : TaskRequirements)
      (workers : List (WorkerSnapshot F)) (found : List (ResourceRoutingEvidence F))
      → All P (ranked_of ops config requirements (sorted_workers workers) found)
      → All (λ w. hard_constraints requirements w ≡ [] → P w) workers
  ranked_back P config requirements workers found a =
      let by_id : WorkerSnapshot F → WorkerSnapshot F → Bool = λ v w. text_less v.id w.id in
      All-sorted_back by_id _ workers (
        All-eligible_back requirements P (sorted by_id workers) (
          All-sorted_back
            (ranks_before ops (score_table ops config requirements (sorted_workers workers) found))
            P (eligible requirements (sorted_workers workers)) a))

  -- No given worker without a reason against it ranks before this one.
  abbrev pub IsFirst :
      SchedulerConfig F
      → TaskRequirements
      → List (WorkerSnapshot F)
      → List (ResourceRoutingEvidence F)
      → WorkerSnapshot F
      → Type 0
  IsFirst config requirements workers found w =
      All
        (λ v.
          hard_constraints requirements v ≡ []
          → ranks_before ops (score_table ops config requirements (sorted_workers workers) found) v
              w
            ≡ false)
        workers

  -- Either nobody passes and nobody is ranked, or the first of the ranked workers passes first.
  pub ranked_cases :
      (config : SchedulerConfig F) (requirements : TaskRequirements)
      (workers : List (WorkerSnapshot F)) (found : List (ResourceRoutingEvidence F))
      → ((ranked_of ops config requirements (sorted_workers workers) found ≡ [])
          × All (λ v. hard_constraints requirements v ≡ [] → ⊥) workers)
        ⊎ ((w : WorkerSnapshot F) × (ws : List (WorkerSnapshot F)) × (ranked_of ops config
                requirements
                (sorted_workers workers)
                found
              ≡ (w ∷ ws))
            × IsPassing requirements workers w
            × IsFirst config requirements workers found w)
  ranked_cases config requirements workers found =
      let score = score_table ops config requirements (sorted_workers workers) found in
      elim (List-cases (ranked_of ops config requirements (sorted_workers workers) found)) [
        | inl e ↦ inl (
          e,
          ranked_back (λ _. ⊥) config requirements workers found (subst (All (λ _. ⊥)) (sym e) tt),
        )
        | inr (w, ws, e) ↦
            let (passes, _) =
              subst (All (IsPassing requirements workers)) e
                (ranked_of-IsPassing ops config requirements workers found) in
            inr (
              w,
              ws,
              e,
              passes,
              ranked_back (λ v. ranks_before ops score v w ≡ false) config requirements workers
                  found (first-best score w ws (eligible requirements (sorted_workers workers)) e),
            )
      ]

  single-none :
      (config : SchedulerConfig F) (requirements : TaskRequirements)
      (workers : List (WorkerSnapshot F)) (found : List (ResourceRoutingEvidence F))
      → ranked_of ops config requirements (sorted_workers workers) found ≡ []
      → (decision ops config requirements ExecutionTopology.single
          (sorted_workers workers)
          found).selected_worker_ids
        ≡ []
  unfolding select staffed
  single-none config requirements workers found e = rw e refl

  single-one :
      (config : SchedulerConfig F) (requirements : TaskRequirements)
      (workers : List (WorkerSnapshot F)) (found : List (ResourceRoutingEvidence F))
      (w : WorkerSnapshot F) (ws : List (WorkerSnapshot F))
      → ranked_of ops config requirements (sorted_workers workers) found ≡ (w ∷ ws)
      → (decision ops config requirements ExecutionTopology.single
          (sorted_workers workers)
          found).selected_worker_ids
        ≡ (w.id ∷ [])
  unfolding select staffed
  single-one config requirements workers found w ws e = rw e refl

  -- With the topology for a single worker and the evidence that was gathered, either every given
  -- worker has a reason against it and none is selected, or exactly one is selected: it is a given
  -- worker without a reason against it, and no given worker without a reason against it ranks before
  -- it in the order of the negated score and then the identifier. Negated scores are compared as
  -- numbers are.
  pub schedule-best :
      (config : SchedulerConfig F) (requirements : TaskRequirements)
      (workers : List (WorkerSnapshot F)) (evidence found : List (ResourceRoutingEvidence F))
      (d : RoutingDecision F)
      → resource_evidence evidence ≡ ok found
      → schedule ops config requirements ExecutionTopology.single workers evidence ≡ ok d
      → ((d.selected_worker_ids ≡ []) × All (λ v. hard_constraints requirements v ≡ [] → ⊥) workers)
        ⊎ ((w : WorkerSnapshot F) × IsPassing requirements workers w
            × (d.selected_worker_ids ≡ (w.id ∷ []))
            × IsFirst config requirements workers found w)
  schedule-best config requirements workers evidence found d gathered h =
      let ids = λ (x : RoutingDecision F). x.selected_worker_ids in
      let made =
        schedule_made ops config requirements ExecutionTopology.single workers evidence found d
          gathered h in
      elim (ranked_cases config requirements workers found) [
        | inl (e, nobody) ↦
            inl (ap ids made ∙ single-none config requirements workers found e, nobody)
        | inr (w, ws, e, passes, first) ↦
            inr
              (w, passes, ap ids made ∙ single-one config requirements workers found w ws e, first)
      ]
