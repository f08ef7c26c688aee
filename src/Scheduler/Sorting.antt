-- ===== src/Scheduler/Sorting.antt =====
-- Python's `sorted` with a key, as src/project_supervisor/scheduler.py uses it: a stable sort that
-- asks only whether one key is less than another.
use chips_agent_fabric.Prelude.{
  ◌≡◌, suc, refl, Bool, true, false, List, [], ◌∷◌, inl, inr, Bool-cases, if◌then◌else◌, All,
  length, arith,
}

module _ {ℓ} {A : Type ℓ} (less : A → A → Bool) where
  -- Before the first element that is not less.
  abbrev pub insert_sorted : A → List A → List A
  insert_sorted x [] = x ∷ []
  insert_sorted x (y ∷ ys) =
      let rest = insert_sorted x ys in if less y x then y ∷ rest else x ∷ y ∷ ys

  unfoldable pub sorted : List A → List A
  sorted [] = []
  sorted (x ∷ xs) = insert_sorted x (sorted xs)

  All-insert_sorted {κ} :
      (P : A → Type κ) (x : A) (ys : List A) → P x → All P ys → All P (insert_sorted x ys)
  All-insert_sorted P x [] p a = (p, tt)
  All-insert_sorted P x (y ∷ ys) p (q, a) = elim (Bool-cases (less y x)) [
    | inl e ↦ rw e (q, All-insert_sorted P x ys p a)
    | inr e ↦ rw e (p, (q, a))
  ]

  -- A sorted list has the elements of the list.
  pub All-sorted {κ} : (P : A → Type κ) (xs : List A) → All P xs → All P (sorted xs)
  unfolding sorted
  All-sorted P [] a = tt
  All-sorted P (x ∷ xs) (p, a) = All-insert_sorted P x (sorted xs) p (All-sorted P xs a)

  All-insert_sorted_back {κ} :
      (P : A → Type κ) (x : A) (ys : List A) → All P (insert_sorted x ys) → P x × All P ys
  All-insert_sorted_back P x [] a = a
  All-insert_sorted_back P x (y ∷ ys) a = elim (Bool-cases (less y x)) [
    | inl e ↦
        let (q, rest) = rw e at a in let (p, b) = All-insert_sorted_back P x ys rest in (p, (q, b))
    | inr e ↦ rw e at a
  ]

  -- And the list those of the sorted one.
  pub All-sorted_back {κ} : (P : A → Type κ) (xs : List A) → All P (sorted xs) → All P xs
  unfolding sorted
  All-sorted_back P [] a = tt
  All-sorted_back P (x ∷ xs) a =
      let (p, b) = All-insert_sorted_back P x (sorted xs) a in (p, All-sorted_back P xs b)

  length-insert_sorted : (x : A) (ys : List A) → length (insert_sorted x ys) ≡ suc (length ys)
  length-insert_sorted x [] = refl
  length-insert_sorted x (y ∷ ys) = ground (arith, length-insert_sorted x ys)

  pub length-sorted : (xs : List A) → length (sorted xs) ≡ length xs
  unfolding sorted
  length-sorted [] = refl
  length-sorted (x ∷ xs) = omega (arith, length-insert_sorted x (sorted xs), length-sorted xs)

-- The first element of a sorted list is the least.
module _ {ℓ} {A : Type ℓ} (less : A → A → Bool)
    (asym : (a b : A) → less a b ≡ true → less b a ≡ false)
    (trans : (a b c : A) → less a b ≡ false → less b c ≡ false → less a c ≡ false) where
  -- Nothing in the list is less than what comes first.
  abbrev pub IsHeadLeast : List A → Type 0
  IsHeadLeast [] = Unit {0}
  IsHeadLeast (x ∷ xs) = All (λ y. less y x ≡ false) xs

  All-weaken :
      (x y : A) (zs : List A)
      → less y x ≡ false
      → All (λ z. less z y ≡ false) zs
      → All (λ z. less z x ≡ false) zs
  All-weaken x y [] h a = tt
  All-weaken x y (z ∷ zs) h (p, a) = (trans z y x p h, All-weaken x y zs h a)

  insert_sorted-IsHeadLeast :
      (x : A) (ys : List A) → IsHeadLeast ys → IsHeadLeast (insert_sorted less x ys)
  insert_sorted-IsHeadLeast x [] a = tt
  insert_sorted-IsHeadLeast x (y ∷ ys) a = elim (Bool-cases (less y x)) [
    | inl e ↦ rw e (All-insert_sorted less (λ z. less z y ≡ false) x ys (asym y x e) a)
    | inr e ↦ rw e (e, All-weaken x y ys e a)
  ]

  pub sorted-IsHeadLeast : (xs : List A) → IsHeadLeast (sorted less xs)
  unfolding sorted
  sorted-IsHeadLeast [] = tt
  sorted-IsHeadLeast (x ∷ xs) = insert_sorted-IsHeadLeast x (sorted less xs) (sorted-IsHeadLeast xs)
