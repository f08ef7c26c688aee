-- ===== src/Scheduler/Counts.antt =====
-- How many workers `schedule` of src/project_supervisor/scheduler.py selects.
use chips_agent_fabric.Prelude.{
  Bool, not, ◌&&◌, ℕ, zero, suc, String, false, List, [], ◌∷◌, ◌≡◌, refl, inl, inr, Option-cases,
  arith, sym, subst, ◌∙◌, map, take, ltb, ◌==◌, nat_eq, length, if◌then◌else◌, contains, string_eq,
}
use chips_agent_fabric.Domain.{ExecutionTopology, ExecutionTopology_eq}
use chips_agent_fabric.Sql.{first_where, exists_where, count_where}
use chips_agent_fabric.Sql.Rows.{exists-first_where, exists_where-none}
use chips_agent_fabric.Store.Error.{ok}
use chips_agent_fabric.Store.Schema.{TaskRequirements}
use chips_agent_fabric.Scheduler.{
  FloatOps, WorkerSnapshot, SchedulerConfig, RoutingDecision, ResourceRoutingEvidence, Rejection,
}
use chips_agent_fabric.Scheduler.Constraints.{hard_constraints}
use chips_agent_fabric.Scheduler.Score.{resource_evidence}
use chips_agent_fabric.Scheduler.Sorting.{length-sorted, sorted, insert_sorted}
use chips_agent_fabric.Scheduler.Routing.{
  staffed, select, schedule, eligible, sorted_workers, ranked_of, score_table, is_reviewer_beside,
  is_clear, prefers, is_cheaper, ranks_before, first_id,
}
use chips_agent_fabric.Scheduler.Eligible.{schedule_made}

-- The number of selected workers, of the number of eligible ones, and for a reviewed task of whether
-- a reviewer is there.
abbrev pub IsTeamSize : ExecutionTopology → ℕ → ℕ → Bool → ℕ → Type 0
IsTeamSize ExecutionTopology.single panel_size available reviewer n =
    n ≡ (if available == 0 then 0 else 1)
IsTeamSize ExecutionTopology.fallback panel_size available reviewer n =
    n ≡ (if available == 0 then 0 else 1)
IsTeamSize ExecutionTopology.cheap_first_escalation panel_size available reviewer n =
    n ≡ (if available == 0 then 0 else 1)
IsTeamSize ExecutionTopology.primary_reviewer panel_size available reviewer n =
    n ≡ (if reviewer then 2 else 0)
IsTeamSize ExecutionTopology.parallel_panel panel_size available reviewer n =
    n ≡ (if ltb available panel_size then 0 else panel_size)

-- Beside the first worker there is another one that can review.
abbrev pub has_reviewer {ℓ} : {F : Type ℓ} → List (WorkerSnapshot F) → Bool
has_reviewer [] = false
has_reviewer {F = F} (p ∷ ws) =
    exists_where (λ (w : WorkerSnapshot F). not (w.id == p.id) && contains w.capabilities "review")
      (p ∷ ws)

-- The workers that pass the hard constraints.
abbrev pub passing_count {ℓ} : {F : Type ℓ} → TaskRequirements → List (WorkerSnapshot F) → ℕ
passing_count requirements workers =
    count_where (λ w. is_clear (hard_constraints requirements w)) workers

length-map {ℓ κ} :
    {A : Type ℓ} {B : Type κ} (f : A → B) (xs : List A) → length (map f xs) ≡ length xs
length-map f [] = refl
length-map f (x ∷ xs) = omega (arith, length-map f xs)

length-take {ℓ} :
    {A : Type ℓ} (n : ℕ) (xs : List A)
    → length (take n xs) ≡ (if ltb (length xs) n then length xs else n)
length-take zero xs = ground arith
length-take (suc n) [] = ground arith
length-take (suc n) (x ∷ xs) = ground (arith, length-take n xs)

panel-length :
    (panel_size available : ℕ) (selected : List String) (rejected : List Rejection)
    → length selected ≡ (if ltb available panel_size then available else panel_size)
    → length (staffed ExecutionTopology.parallel_panel panel_size selected rejected).0
      ≡ (if ltb available panel_size then 0 else panel_size)
unfolding staffed
panel-length panel_size available selected rejected h = ground arith

module _ {ℓ} {F : Type ℓ} where
  one-first_id :
      (ws : List (WorkerSnapshot F)) → length (first_id ws) ≡ (if length ws == 0 then 0 else 1)
  one-first_id [] = refl
  one-first_id (w ∷ ws) = ground arith

  module _ (ops : FloatOps F) (requirements : TaskRequirements) (score : String → F)
      (rejected : List Rejection) where
    team-IsTeamSize :
        (topology : ExecutionTopology) (ranked : List (WorkerSnapshot F))
        → IsTeamSize topology requirements.panel_size (length ranked) (has_reviewer ranked) (
            length
              (staffed topology requirements.panel_size
                (select ops topology requirements ranked score)
                rejected).0)
    unfolding select staffed
    team-IsTeamSize ExecutionTopology.single [] = refl
    team-IsTeamSize ExecutionTopology.single (w ∷ ws) = ground arith
    team-IsTeamSize ExecutionTopology.fallback [] = refl
    team-IsTeamSize ExecutionTopology.fallback (w ∷ ws) =
        one-first_id _
        ∙ rw (length-sorted (prefers ops requirements.preferred_workers score) (w ∷ ws)) refl
    team-IsTeamSize ExecutionTopology.cheap_first_escalation [] = refl
    team-IsTeamSize ExecutionTopology.cheap_first_escalation (w ∷ ws) =
        one-first_id _ ∙ rw (length-sorted (is_cheaper ops score) (w ∷ ws)) refl
    team-IsTeamSize ExecutionTopology.primary_reviewer [] = refl
    team-IsTeamSize ExecutionTopology.primary_reviewer (w ∷ ws) =
        elim (Option-cases (first_where (is_reviewer_beside w.id) (w ∷ ws))) [
          | inl e ↦ rw e (rw (exists_where-none (is_reviewer_beside w.id) (w ∷ ws) e) refl)
          | inr (r, e) ↦ rw e (rw (exists-first_where (is_reviewer_beside w.id) (w ∷ ws) r e) refl)
        ]
    team-IsTeamSize ExecutionTopology.parallel_panel [] =
        panel-length requirements.panel_size 0 [] rejected (ground arith)
    team-IsTeamSize ExecutionTopology.parallel_panel (w ∷ ws) =
        panel-length requirements.panel_size (length (w ∷ ws))
          (map (λ (v : WorkerSnapshot F). v.id) (take requirements.panel_size (w ∷ ws))) rejected
          (length-map (λ (v : WorkerSnapshot F). v.id) (take requirements.panel_size (w ∷ ws))
            ∙ length-take requirements.panel_size (w ∷ ws))

module _ {ℓ} {A : Type ℓ} (p : A → Bool) (less : A → A → Bool) where
  insert_sorted-count :
      (x : A) (ys : List A) → count_where p (insert_sorted less x ys) ≡ count_where p (x ∷ ys)
  unfolding count_where
  insert_sorted-count x [] = refl
  insert_sorted-count x (y ∷ ys) = ground (arith, insert_sorted-count x ys)

  count-sorted : (xs : List A) → count_where p (sorted less xs) ≡ count_where p xs
  unfolding sorted count_where
  count-sorted [] = refl
  count-sorted (x ∷ xs) = ground (arith, insert_sorted-count x (sorted less xs), count-sorted xs)

length-eligible {ℓ} :
    {F : Type ℓ} (requirements : TaskRequirements) (ws : List (WorkerSnapshot F))
    → length (eligible requirements ws) ≡ passing_count requirements ws
unfolding eligible count_where
length-eligible requirements [] = refl
length-eligible requirements (w ∷ ws) = ground (arith, length-eligible requirements ws)

length-ranked_of {ℓ} :
    {F : Type ℓ} (ops : FloatOps F) (config : SchedulerConfig F) (requirements : TaskRequirements)
    (workers : List (WorkerSnapshot F)) (found : List (ResourceRoutingEvidence F))
    → length (ranked_of ops config requirements (sorted_workers workers) found)
      ≡ passing_count requirements workers
length-ranked_of ops config requirements workers found =
    length-sorted
      (ranks_before ops (score_table ops config requirements (sorted_workers workers) found))
      (eligible requirements (sorted_workers workers))
    ∙ length-eligible requirements (sorted_workers workers)
    ∙ count-sorted _ _ workers

-- The size of the team, where k given workers pass the hard constraints: with a topology for one
-- worker it is one, and zero where k is zero; a reviewed task gets two workers where, among the ranked
-- ones, another than the first has the capability to review, and none otherwise; a panel has exactly
-- the size that is asked for, and none where k is less.
pub schedule-IsTeamSize {ℓ} :
    {F : Type ℓ} (ops : FloatOps F) (config : SchedulerConfig F) (requirements : TaskRequirements)
    (topology : ExecutionTopology) (workers : List (WorkerSnapshot F))
    (evidence found : List (ResourceRoutingEvidence F)) (d : RoutingDecision F)
    → resource_evidence evidence ≡ ok found
    → schedule ops config requirements topology workers evidence ≡ ok d
    → IsTeamSize topology requirements.panel_size
        (passing_count requirements workers)
        (has_reviewer (ranked_of ops config requirements (sorted_workers workers) found))
        (length d.selected_worker_ids)
schedule-IsTeamSize ops config requirements topology workers evidence found d gathered h =
    let made = schedule_made ops config requirements topology workers evidence found d gathered h in
    let score = score_table ops config requirements (sorted_workers workers) found in
    let ranked = ranked_of ops config requirements (sorted_workers workers) found in
    subst
      (λ n.
        IsTeamSize topology requirements.panel_size n (has_reviewer ranked)
          (length d.selected_worker_ids))
      (length-ranked_of ops config requirements workers found)
      (subst
        (λ (e : RoutingDecision _).
          IsTeamSize topology requirements.panel_size (length ranked) (has_reviewer ranked)
            (length e.selected_worker_ids))
        (sym made) (team-IsTeamSize ops requirements score _ topology ranked))
