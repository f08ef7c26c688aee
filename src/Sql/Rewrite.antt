-- ===== src/Sql/Rewrite.antt =====
-- What UPDATE does to what SELECT shows.
use mathlib.Core.Option
use chips_agent_fabric.Prelude.{
  ◌≤◌, ◌≡◌, refl, Bool, true, false, inl, inr, Bool-cases, List, [], ◌∷◌, All, length, arith,
  if◌then◌else◌,
}
use chips_agent_fabric.Sql.{first_where, exists_where, count_where, update_where}

module _ {ℓ} {R : Type ℓ} (p : R → Bool) (f : R → R) where
  -- The new value of one row.
  abbrev pub rewritten : R → R
  rewritten r = if p r then f r else r

  pub length-update_where : (t : List R) → length (update_where p f t) ≡ length t
  unfolding update_where
  length-update_where [] = refl
  length-update_where (x ∷ t) = ground (arith, length-update_where t)

  -- A condition that the rewriting does not touch fetches the same row, rewritten.
  pub first_where-update_where :
      (q : R → Bool) (t : List R)
      → ((r : R) → q (f r) ≡ q r)
      → first_where q (update_where p f t) ≡ Option.map rewritten (first_where q t)
  unfolding first_where update_where
  first_where-update_where q [] keep = refl
  first_where-update_where q (x ∷ t) keep =
      ground (arith, keep x, first_where-update_where q t keep)

  pub count_where-update_where :
      (q : R → Bool) (t : List R)
      → ((r : R) → p r ≡ true → q (f r) ≡ q r)
      → count_where q (update_where p f t) ≡ count_where q t
  unfolding count_where update_where
  count_where-update_where q [] keep = refl
  count_where-update_where q (x ∷ t) keep =
      ground (arith, keep x, count_where-update_where q t keep)

  pub count_where-update_where-le :
      (q : R → Bool) (t : List R)
      → ((r : R) → p r ≡ true → q (f r) ≡ true → q r ≡ true)
      → count_where q (update_where p f t) ≤ count_where q t
  unfolding count_where update_where
  count_where-update_where-le q [] keep = omega arith
  count_where-update_where-le q (x ∷ t) keep =
      ground (arith, keep x, count_where-update_where-le q t keep)

  -- Rows that fit after the rewriting come from rows that fit before.
  pub exists_where-update_where :
      (q : R → Bool) (t : List R)
      → ((r : R) → p r ≡ true → q (f r) ≡ true → q r ≡ true)
      → exists_where q (update_where p f t) ≡ true
      → exists_where q t ≡ true
  unfolding exists_where update_where
  exists_where-update_where q [] keep h = h
  exists_where-update_where q (x ∷ t) keep h =
      ground (arith, keep x, exists_where-update_where q t keep)

  pub All-update_where {κ μ} :
      (P : R → Type κ) (Q : R → Type μ) (t : List R)
      → ((r : R) → P r → p r ≡ true → Q (f r))
      → ((r : R) → P r → p r ≡ false → Q r)
      → All P t
      → All Q (update_where p f t)
  unfolding update_where
  All-update_where P Q [] hit miss a = tt
  All-update_where P Q (x ∷ t) hit miss a = elim (Bool-cases (p x)) [
    | inl y ↦ rw y (hit x a.0 y, All-update_where P Q t hit miss a.1)
    | inr n ↦ rw n (miss x a.0 n, All-update_where P Q t hit miss a.1)
  ]

module _ {ℓ} {R : Type ℓ} (p : R → Bool) (f : R → R) where
  -- The same, where what is asked of a rewritten row is known of the rows at hand.
  pub count_where-update_where-le_All {κ} :
      (q : R → Bool) (P : R → Type κ) (t : List R)
      → All P t
      → ((r : R) → P r → p r ≡ true → q (f r) ≡ true → q r ≡ true)
      → count_where q (update_where p f t) ≤ count_where q t
  unfolding count_where update_where
  count_where-update_where-le_All q P [] a keep = omega arith
  count_where-update_where-le_All q P (x ∷ t) a keep =
      ground (arith, keep x a.0, count_where-update_where-le_All q P t a.1 keep)
