-- ===== src/Sql/Rows.antt =====
-- What SELECT shows of a table.
use chips_agent_fabric.Prelude.{
  none, ◌≤◌, subst, ◌+◌, ◌<◌, ◌≡◌, refl, Bool, true, false, inl, inr, Bool-cases, List, [], ◌∷◌,
  ◌++◌, some, All, length, arith,
}
use chips_agent_fabric.Sql.{select_where, first_where, exists_where, count_where}

module _ {ℓ} {R : Type ℓ} (p : R → Bool) where
  -- A fetched row fits the condition.
  pub first_where_holds : (t : List R) (r : R) → first_where p t ≡ some r → p r ≡ true
  unfolding first_where
  first_where_holds [] r h = cc
  first_where_holds (x ∷ t) r h = ground (arith, first_where_holds t r)

  -- A fetched row shows that there is one.
  pub exists-first_where : (t : List R) (r : R) → first_where p t ≡ some r → exists_where p t ≡ true
  unfolding first_where exists_where
  exists-first_where [] r h = cc
  exists-first_where (x ∷ t) r h = ground (arith, exists-first_where t r)

  pub exists_where-none : (t : List R) → first_where p t ≡ none → exists_where p t ≡ false
  unfolding first_where exists_where
  exists_where-none [] h = refl
  exists_where-none (x ∷ t) h = ground (arith, exists_where-none t)

  pub first_where-exists :
      (t : List R) → exists_where p t ≡ true → (r : R) × (first_where p t ≡ some r)
  unfolding first_where exists_where
  first_where-exists [] h = cc
  first_where-exists (x ∷ t) h = elim (Bool-cases (p x)) [
    | inl y ↦ (x, rw y)
    | inr n ↦ rw n (first_where-exists t (rw n at h))
  ]

  pub All-first_where {κ} :
      (P : R → Type κ) (t : List R) (r : R) → All P t → first_where p t ≡ some r → P r
  unfolding first_where
  All-first_where P [] r a h = cc
  All-first_where P (x ∷ t) r a h = elim (Bool-cases (p x)) [
    | inl y ↦ subst P (ground arith) a.0
    | inr n ↦ All-first_where P t r a.1 (rw n at h)
  ]

  pub count_where_zero : (t : List R) → exists_where p t ≡ false → count_where p t ≡ 0
  unfolding exists_where count_where
  count_where_zero [] h = refl
  count_where_zero (x ∷ t) h = ground (arith, count_where_zero t)

  pub count_where_pos : (t : List R) → exists_where p t ≡ true → 0 < count_where p t
  unfolding exists_where count_where
  count_where_pos [] h = cc
  count_where_pos (x ∷ t) h = ground (arith, count_where_pos t)

  pub count_where-append :
      (s t : List R) → count_where p (s ++ t) ≡ count_where p s + count_where p t
  unfolding count_where
  count_where-append [] t = omega arith
  count_where-append (x ∷ s) t = ground (arith, count_where-append s t)

  pub length-select_where : (t : List R) → length (select_where p t) ≡ count_where p t
  unfolding select_where count_where
  length-select_where [] = refl
  length-select_where (x ∷ t) = ground (arith, length-select_where t)

  -- Every selected row fits, and has what all rows have.
  pub All-select_where {κ} :
      (P : R → Type κ) (t : List R) → All P t → All (λ r. P r × (p r ≡ true)) (select_where p t)
  unfolding select_where
  All-select_where P [] a = tt
  All-select_where P (x ∷ t) a = elim (Bool-cases (p x)) [
    | inl y ↦ rw y ((a.0, y), All-select_where P t a.1)
    | inr n ↦ rw n (All-select_where P t a.1)
  ]

  -- Where no row fits, each row fails.
  pub All-exists_where : (t : List R) → exists_where p t ≡ false → All (λ r. p r ≡ false) t
  unfolding exists_where
  All-exists_where [] h = tt
  All-exists_where (x ∷ t) h = ground (arith, All-exists_where t)

module _ {ℓ} {R : Type ℓ} (p : R → Bool) where
  -- Where a key is unique, every row that has it is the fetched one.
  none_more : (t : List R) (r : R) → count_where p t ≡ 0 → All (λ x. p x ≡ true → x ≡ r) t
  unfolding count_where
  none_more [] r h = tt
  none_more (x ∷ t) r h = (λ e. absurd (ground arith), none_more t r (ground arith))

  pub unique_row :
      (t : List R) (r : R)
      → count_where p t ≤ 1
      → first_where p t ≡ some r
      → All (λ x. p x ≡ true → x ≡ r) t
  unfolding count_where first_where
  unique_row [] r c h = tt
  unique_row (x ∷ t) r c h = elim (Bool-cases (p x)) [
    | inl y ↦ ((λ e. ground arith), none_more t r (ground arith))
    | inr n ↦ ((λ e. cc), unique_row t r (ground arith) (ground arith))
  ]
