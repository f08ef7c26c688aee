-- ===== src/Store/Dependencies/Picking.antt =====
-- One step of the recursive query of `add_task_dependency` in src/project_supervisor/store.py.
use chips_agent_fabric.Sql.{exists_where}
use chips_agent_fabric.Store.Schema.{DependencyRow}
use chips_agent_fabric.Store.Dependencies.{edge_is, DependencyRow, exists_where, pick_edge}
use chips_agent_fabric.Prelude.{
  refl, ap, [], ◌∷◌, eq_refl, Option-cases, subst, inr, length, inl, string_eq, suc, Bool-cases,
  All, true, some, none, contains, List, String, ◌≡◌, arith,
}

-- An edge whose task is among `seen` leads to a task among them.
abbrev pub IsClosedAt : List String → DependencyRow → Type 0
IsClosedAt seen d = contains seen d.task_id ≡ true → contains seen d.depends_on_task_id ≡ true

pub pick_edge-none :
    (edges : List DependencyRow) (seen : List String)
    → pick_edge edges seen ≡ none
    → All (IsClosedAt seen) edges
unfolding pick_edge
pick_edge-none [] seen h = tt
pick_edge-none (d ∷ ds) seen h = elim (Bool-cases (contains seen d.task_id)) [
  | inl y ↦ absurd (ground arith)
  | inr n ↦ elim (Option-cases (pick_edge ds seen)) [
    | inl e ↦ ((λ c. absurd (ground arith)), pick_edge-none ds seen e)
    | inr ((d', rest), e) ↦ absurd (ground arith)
  ]
]

-- The picked edge leads out of `seen`, and what holds of it and of the others holds of all edges.
abbrev pub IsPick : List String → List DependencyRow → DependencyRow → List DependencyRow → Type 0
IsPick seen edges d rest =
    (contains seen d.task_id ≡ true)
    × (suc (length rest) ≡ length edges)
    × (exists_where (edge_is d.task_id d.depends_on_task_id) edges ≡ true)
    × ((a b : String)
        → exists_where (edge_is a b) rest ≡ true
        → exists_where (edge_is a b) edges ≡ true)
    × ((R : List String) → IsClosedAt R d → All (IsClosedAt R) rest → All (IsClosedAt R) edges)

pub pick_edge-IsPick :
    (edges : List DependencyRow) (seen : List String) (d : DependencyRow)
    (rest : List DependencyRow)
    → pick_edge edges seen ≡ some (d, rest)
    → IsPick seen edges d rest
unfolding pick_edge exists_where
pick_edge-IsPick [] seen d rest h = cc
pick_edge-IsPick (x ∷ xs) seen d rest h = elim (Bool-cases (contains seen x.task_id)) [
  | inl y ↦
      let here : x ≡ d = ground arith in
      let others : xs ≡ rest = ground arith in
      subst (IsPick seen (x ∷ xs) d) others (
        subst (λ e. IsPick seen (x ∷ xs) e xs) here
          (
            y,
            refl,
            rw (eq_refl x.task_id) (rw (eq_refl x.depends_on_task_id) refl),
            λ a b e. ground arith,
            λ R c cs. (c, cs),
          ))
  | inr n ↦ elim (Option-cases (pick_edge xs seen)) [
    | inl e ↦ absurd (ground arith)
    | inr ((d', rest'), e) ↦
        let (from, count, edge, more, close) = pick_edge-IsPick xs seen d' rest' e in
        let here : d' ≡ d = ground arith in
        let others : x ∷ rest' ≡ rest = ground arith in
        subst (IsPick seen (x ∷ xs) d) others (
          subst (λ e. IsPick seen (x ∷ xs) e (x ∷ rest')) here
            (
              from,
              ap suc count,
              ground arith,
              λ a b e. ground (arith, more a b),
              λ R c cs. (cs.0, close R c cs.1),
            ))
  ]
]
