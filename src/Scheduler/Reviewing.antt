-- ===== src/Scheduler/Reviewing.antt =====
-- The primary worker and the reviewer of `schedule` in src/project_supervisor/scheduler.py.
use chips_agent_fabric.Prelude.{
  sym, Bool, true, false, List, [], ◌∷◌, ◌≡◌, ◌⊎◌, inl, inr, Option-cases, subst, ap, ◌∙◌, ◌==◌,
  not, ◌&&◌, contains, string_eq, All, refl, none, some,
}
use chips_agent_fabric.Domain.{ExecutionTopology, ExecutionTopology_eq}
use chips_agent_fabric.Sql.{first_where}
use chips_agent_fabric.Sql.Rows.{
  first_where_holds, All-first_where, All-exists_where, exists_where-none,
}
use chips_agent_fabric.Store.Error.{ok}
use chips_agent_fabric.Store.Schema.{TaskRequirements}
use chips_agent_fabric.Scheduler.{
  FloatOps, WorkerSnapshot, SchedulerConfig, RoutingDecision, ResourceRoutingEvidence,
}
use chips_agent_fabric.Scheduler.Constraints.{hard_constraints}
use chips_agent_fabric.Scheduler.Score.{resource_evidence}
use chips_agent_fabric.Scheduler.Routing.{
  staffed, select, schedule, sorted_workers, ranked_of, decision, is_reviewer_beside,
}
use chips_agent_fabric.Scheduler.Eligible.{schedule_made, IsPassing, ranked_of-IsPassing}
use chips_agent_fabric.Scheduler.Best.{IsOrdered, IsFirst, ranked_cases, ranked_back}

-- Another worker, by identifier, with the capability to review.
abbrev pub can_review {ℓ} : {F : Type ℓ} → WorkerSnapshot F → WorkerSnapshot F → Bool
can_review p w = not (w.id == p.id) && contains w.capabilities "review"

module _ {ℓ} {F : Type ℓ} (ops : FloatOps F) (ordered : IsOrdered ops) where
  reviewed-none :
      (config : SchedulerConfig F) (requirements : TaskRequirements)
      (workers : List (WorkerSnapshot F)) (found : List (ResourceRoutingEvidence F))
      → ranked_of ops config requirements (sorted_workers workers) found ≡ []
      → (decision ops config requirements ExecutionTopology.primary_reviewer
          (sorted_workers workers)
          found).selected_worker_ids
        ≡ []
  unfolding select staffed
  reviewed-none config requirements workers found e = rw e refl

  reviewed-alone :
      (config : SchedulerConfig F) (requirements : TaskRequirements)
      (workers : List (WorkerSnapshot F)) (found : List (ResourceRoutingEvidence F))
      (p : WorkerSnapshot F) (ws : List (WorkerSnapshot F))
      → ranked_of ops config requirements (sorted_workers workers) found ≡ (p ∷ ws)
      → first_where (is_reviewer_beside p.id) (p ∷ ws) ≡ none
      → (decision ops config requirements ExecutionTopology.primary_reviewer
          (sorted_workers workers)
          found).selected_worker_ids
        ≡ []
  unfolding select staffed
  reviewed-alone config requirements workers found p ws e alone = rw e (rw alone refl)

  reviewed-both :
      (config : SchedulerConfig F) (requirements : TaskRequirements)
      (workers : List (WorkerSnapshot F)) (found : List (ResourceRoutingEvidence F))
      (p r : WorkerSnapshot F) (ws : List (WorkerSnapshot F))
      → ranked_of ops config requirements (sorted_workers workers) found ≡ (p ∷ ws)
      → first_where (is_reviewer_beside p.id) (p ∷ ws) ≡ some r
      → (decision ops config requirements ExecutionTopology.primary_reviewer
          (sorted_workers workers)
          found).selected_worker_ids
        ≡ (p.id ∷ r.id ∷ [])
  unfolding select staffed
  reviewed-both config requirements workers found p r ws e there = rw e (rw there refl)

  -- With the topology for a reviewed task and the evidence that was gathered, one of three holds. Every
  -- given worker has a reason against it, and none is selected. Or a worker passes that no passing one
  -- ranks before, no other passing worker can review, and none is selected. Or that worker is selected
  -- with a second one, which is given, passes, has another identifier, and can review. To pass is to be
  -- a given worker without a reason against it.
  pub schedule-reviewed :
      (config : SchedulerConfig F) (requirements : TaskRequirements)
      (workers : List (WorkerSnapshot F)) (evidence found : List (ResourceRoutingEvidence F))
      (d : RoutingDecision F)
      → resource_evidence evidence ≡ ok found
      → schedule ops config requirements ExecutionTopology.primary_reviewer workers evidence ≡ ok d
      → ((d.selected_worker_ids ≡ []) × All (λ v. hard_constraints requirements v ≡ [] → ⊥) workers)
        ⊎ ((p : WorkerSnapshot F) × IsPassing requirements workers p
            × IsFirst ops ordered config requirements workers found p
            × (((d.selected_worker_ids ≡ [])
                  × All
                      (λ v. hard_constraints requirements v ≡ [] → can_review p v ≡ false)
                      workers)
                ⊎ ((r : WorkerSnapshot F) × IsPassing requirements workers r
                    × (can_review p r ≡ true)
                    × (d.selected_worker_ids ≡ (p.id ∷ r.id ∷ [])))))
  schedule-reviewed config requirements workers evidence found d gathered h =
      let ids = λ (x : RoutingDecision F). x.selected_worker_ids in
      let made =
        schedule_made ops config requirements ExecutionTopology.primary_reviewer workers evidence
          found d gathered h in
      elim (ranked_cases ops ordered config requirements workers found) [
        | inl (e, nobody) ↦
            inl (ap ids made ∙ reviewed-none config requirements workers found e, nobody)
        | inr (p, ws, e, passes, first) ↦ inr (
          p,
          passes,
          first,
          elim (Option-cases (first_where (is_reviewer_beside p.id) (p ∷ ws))) [
            | inl alone ↦ inl (
              ap ids made ∙ reviewed-alone config requirements workers found p ws e alone,
              ranked_back ops ordered (λ v. can_review p v ≡ false) config requirements workers
                  found
                  (subst (All (λ v. can_review p v ≡ false)) (sym e) (
                    All-exists_where (is_reviewer_beside p.id) (p ∷ ws)
                      (exists_where-none (is_reviewer_beside p.id) (p ∷ ws) alone))),
            )
            | inr (r, there) ↦ inr (
              r,
              All-first_where (is_reviewer_beside p.id) (IsPassing requirements workers) (p ∷ ws) r
                  (subst (All (IsPassing requirements workers)) e
                    (ranked_of-IsPassing ops config requirements workers found))
                  there,
              first_where_holds (is_reviewer_beside p.id) (p ∷ ws) r there,
              ap ids made ∙ reviewed-both config requirements workers found p r ws e there,
            )
          ],
        )
      ]
