-- ===== src/Scheduler/Shuffled.antt =====
-- Sorting and the order of what is sorted (src/project_supervisor/scheduler.py).
use mathlib.Core.List.{Permᴰ, Memᴰ}
use chips_agent_fabric.Domain.{ExecutionTopology}
use chips_agent_fabric.Store.Schema.{TaskRequirements}
use chips_agent_fabric.Scheduler.{
  FloatOps, WorkerSnapshot, SchedulerConfig, ResourceRoutingEvidence,
}
use chips_agent_fabric.Scheduler.Order.{text_less, text_less_asym, text_less_trans, text_less_total}
use chips_agent_fabric.Scheduler.Routing.{schedule, decision}
use chips_agent_fabric.Scheduler.Score.{resource_evidence}
use chips_agent_fabric.Store.Error.{ok, ◌>>=◌}
use chips_agent_fabric.Scheduler.Eligible.{All-in}
use chips_agent_fabric.Prelude.{
  ◌≡◌, refl, Bool, true, false, List, [], ◌∷◌, All, arith, subst, ap, ◌∙◌,
}
use chips_agent_fabric.Scheduler.Sorting.{insert_sorted, sorted}

module _ {ℓ} {A : Type ℓ} (less : A → A → Bool)
    (asym : (a b : A) → less a b ≡ true → less b a ≡ false)
    (trans : (a b c : A) → less a b ≡ false → less b c ≡ false → less a c ≡ false) where
  -- Two insertions change places, unless the elements are different and of one rank.
  insert_sorted_comm :
      (x y : A) (l : List A)
      → (less x y ≡ false → less y x ≡ false → x ≡ y)
      → insert_sorted less x (insert_sorted less y l)
        ≡ insert_sorted less y (insert_sorted less x l)
  insert_sorted_comm x y [] total = ground (arith, asym x y, asym y x)
  insert_sorted_comm x y (z ∷ zs) total = ground (
    arith,
    asym x y,
    asym y x,
    asym z x,
    asym z y,
    trans z x y,
    trans z y x,
    trans x z y,
    trans y z x,
    insert_sorted_comm x y zs total,
  )

  module _ {κ} (P : A → Type κ)
      (total : (a b : A) → P a → P b → less a b ≡ false → less b a ≡ false → a ≡ b) where
    All-Perm : {l l' : List A} → Permᴰ l l' → All P l → All P l'
    All-Perm Permᴰ.nil a = tt
    All-Perm (Permᴰ.cons e p) (h, a) = (subst P e h, All-Perm p a)
    All-Perm (Permᴰ.swap e e') (h, (h', a)) = (subst P e' h', (subst P e h, a))
    All-Perm (Permᴰ.trans p q) a = All-Perm q (All-Perm p a)

    -- Lists with the same elements sort alike, where no two different ones have one rank.
    pub sorted-Perm : {l l' : List A} → Permᴰ l l' → All P l → sorted less l ≡ sorted less l'
    unfolding sorted
    sorted-Perm Permᴰ.nil a = refl
    sorted-Perm (Permᴰ.cons e p) (h, a) = λ i. insert_sorted less (e i) (sorted-Perm p a i)
    sorted-Perm (Permᴰ.swap {a} {b} {a'} {b'} {l} e e') (h, (h', rest)) =
        insert_sorted_comm a b (sorted less l) (total a b h h')
        ∙ (λ i. insert_sorted less (e' i) (insert_sorted less (e i) (sorted less l)))
    sorted-Perm (Permᴰ.trans p q) a = sorted-Perm p a ∙ sorted-Perm q (All-Perm p a)

-- A decision does not depend on the order in which the workers are listed, where no two different ones
-- have one identifier.
pub schedule-Perm {ℓ} :
    {F : Type ℓ} (ops : FloatOps F) (config : SchedulerConfig F) (requirements : TaskRequirements)
    (topology : ExecutionTopology) (workers workers' : List (WorkerSnapshot F))
    (evidence : List (ResourceRoutingEvidence F))
    → ((v w : WorkerSnapshot F) → Memᴰ v workers → Memᴰ w workers → v.id ≡ w.id → v ≡ w)
    → Permᴰ workers workers'
    → schedule ops config requirements topology workers evidence
      ≡ schedule ops config requirements topology workers' evidence
unfolding schedule
schedule-Perm {F} ops config requirements topology workers workers' evidence keys p =
    let by_id : WorkerSnapshot F → WorkerSnapshot F → Bool = λ v w. text_less v.id w.id in
    let same : sorted by_id workers ≡ sorted by_id workers' =
      sorted-Perm by_id (λ v w. text_less_asym v.id w.id) (λ u v w. text_less_trans u.id v.id w.id)
        (λ v. Memᴰ v workers) (λ v w m n h k. keys v w m n (text_less_total v.id w.id h k)) p
        (All-in workers) in
    ap
      (λ l.
        resource_evidence evidence
        >>= (λ found. ok (decision ops config requirements topology l found)))
      same
