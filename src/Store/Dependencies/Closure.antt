-- ===== src/Store/Dependencies/Closure.antt =====
-- The recursive query of `add_task_dependency` in src/project_supervisor/store.py, against transitive
-- dependency.
use chips_agent_fabric.Store.Dependencies.Picking.{pick_edge-none, IsClosedAt, pick_edge-IsPick}
use chips_agent_fabric.Sql.{exists_where}
use chips_agent_fabric.Prelude.{
  sym, refl, eq→path, ap, subst, ◌↔◌, eq_refl, Option-cases, Bool-cases, none, some, ℕ, suc, zero,
  String, ◌≡◌, arith, ◌≤◌, true, List, ◌==◌, nat_eq, string_eq, [], ◌∷◌, ◌⊎◌, inl, inr, All, length,
  contains,
}
use chips_agent_fabric.Store.Schema.{DependencyRow}
use chips_agent_fabric.Store.Dependencies.{exists_where, edge_is, pick_edge, ancestors, would_cycle}

-- The task depends on the other one, at once or through others.
pub data Needs (edges : List DependencyRow) (k : String) : String → Type 0 where
  direct : {b : String} → exists_where (edge_is k b) edges ≡ true → Needs edges k b
  through :
      {b c : String} → Needs edges k b → exists_where (edge_is b c) edges ≡ true → Needs edges k c

ancestors_stop :
    (fuel : ℕ) (edges : List DependencyRow) (seen : List String)
    → pick_edge edges seen ≡ none
    → ancestors (suc fuel) edges seen ≡ seen
unfolding ancestors
ancestors_stop fuel edges seen e = ground (arith, e)

ancestors_step :
    (fuel : ℕ) (edges : List DependencyRow) (seen : List String) (d : DependencyRow)
    (rest : List DependencyRow)
    → pick_edge edges seen ≡ some (d, rest)
    → ancestors (suc fuel) edges seen ≡ ancestors fuel rest (d.depends_on_task_id ∷ seen)
unfolding ancestors
ancestors_step fuel edges seen d rest e = ground (arith, e)

pub contains-ancestors :
    (fuel : ℕ) (edges : List DependencyRow) (seen : List String) (k : String)
    → contains seen k ≡ true
    → contains (ancestors fuel edges seen) k ≡ true
unfolding ancestors
contains-ancestors zero edges seen k h = h
contains-ancestors (suc fuel) edges seen k h = elim (Option-cases (pick_edge edges seen)) [
  | inl e ↦ rw (ancestors_stop fuel edges seen e) h
  | inr ((d, rest), e) ↦
      rw (ancestors_step fuel edges seen d rest e)
        (contains-ancestors fuel rest (d.depends_on_task_id ∷ seen) k (ground arith))
]

-- With as much fuel as there are edges the result is closed.
ancestors-IsClosedAt :
    (fuel : ℕ) (edges : List DependencyRow) (seen : List String)
    → length edges ≤ fuel
    → All (IsClosedAt (ancestors fuel edges seen)) edges
unfolding ancestors
ancestors-IsClosedAt zero [] seen h = tt
ancestors-IsClosedAt zero (d ∷ ds) seen h = absurd (omega arith)
ancestors-IsClosedAt (suc fuel) edges seen h = elim (Option-cases (pick_edge edges seen)) [
  | inl e ↦ rw (ancestors_stop fuel edges seen e) (pick_edge-none edges seen e)
  | inr ((d, rest), e) ↦
      let (from, count, _, _, close) = pick_edge-IsPick edges seen d rest e in
      rw (ancestors_step fuel edges seen d rest e) (
        close (ancestors fuel rest (d.depends_on_task_id ∷ seen))
          (λ _.
            contains-ancestors fuel rest (d.depends_on_task_id ∷ seen) d.depends_on_task_id
              (rw (eq_refl d.depends_on_task_id) refl))
          (ancestors-IsClosedAt fuel rest (d.depends_on_task_id ∷ seen) (omega (arith, count))))
]

closed_edge :
    (R : List String) (edges : List DependencyRow) (a b : String)
    → All (IsClosedAt R) edges
    → exists_where (edge_is a b) edges ≡ true
    → contains R a ≡ true
    → contains R b ≡ true
unfolding exists_where
closed_edge R [] a b cs e h = cc
closed_edge R (d ∷ ds) a b cs e h = elim (Bool-cases (edge_is a b d)) [
  | inl y ↦ ground (
    arith,
    cs.0,
    ap (contains R) (eq→path d.task_id a (ground arith)),
    ap (contains R) (eq→path d.depends_on_task_id b (ground arith)),
  )
  | inr n ↦ closed_edge R ds a b cs.1 (rw n at e) h
]

closed-Needs :
    (R : List String) (edges : List DependencyRow) {a b : String}
    → All (IsClosedAt R) edges
    → Needs edges a b
    → contains R a ≡ true
    → contains R b ≡ true
closed-Needs R edges cs (Needs.direct e) h = closed_edge R edges _ _ cs e h
closed-Needs R edges cs (Needs.through p e) h =
    closed_edge R edges _ _ cs e (closed-Needs R edges cs p h)

-- Whatever the query finds is among the first ones or needed by one of them.
abbrev IsFrom : List DependencyRow → List String → String → Type 0
IsFrom edges seen k =
    (contains seen k ≡ true) ⊎ ((j : String) × (contains seen j ≡ true) × Needs edges j k)

step_from :
    (all : List DependencyRow) (start : List String) (d : DependencyRow)
    → exists_where (edge_is d.task_id d.depends_on_task_id) all ≡ true
    → IsFrom all start d.task_id
    → (j : String) × (contains start j ≡ true) × Needs all j d.depends_on_task_id
step_from all start d edge (inl here) = (d.task_id, here, Needs.direct edge)
step_from all start d edge (inr (j, here, p)) = (j, here, Needs.through p edge)

ancestors-IsFrom :
    (all : List DependencyRow) (start : List String) (fuel : ℕ) (edges : List DependencyRow)
    (seen : List String)
    → ((a b : String)
        → exists_where (edge_is a b) edges ≡ true
        → exists_where (edge_is a b) all ≡ true)
    → ((k : String) → contains seen k ≡ true → IsFrom all start k)
    → (k : String) → contains (ancestors fuel edges seen) k ≡ true
    → IsFrom all start k
unfolding ancestors
ancestors-IsFrom all start zero edges seen sub from k h = from k h
ancestors-IsFrom all start (suc fuel) edges seen sub from k h =
    elim (Option-cases (pick_edge edges seen)) [
      | inl e ↦ from k (rw (ancestors_stop fuel edges seen e) at h)
      | inr ((d, rest), e) ↦
          let (out, _, edge, more, _) = pick_edge-IsPick edges seen d rest e in
          ancestors-IsFrom all start fuel rest (d.depends_on_task_id ∷ seen)
            (λ a b x. sub a b (more a b x))
            (λ j x. elim (Bool-cases (j == d.depends_on_task_id)) [
              | inl y ↦
                  subst (IsFrom all start) (sym (eq→path j d.depends_on_task_id y))
                    (inr (step_from all start d (sub _ _ edge) (from d.task_id out)))
              | inr n ↦ from j (ground arith)
            ])
            k (rw (ancestors_step fuel edges seen d rest e) at h)
    ]

-- The query finds a cycle exactly when the new edge would close one: when the prerequisite is the
-- task itself or depends on it, at once or through others.
pub would_cycle_iff :
    (edges : List DependencyRow) (task_id depends_on_task_id : String)
    → would_cycle edges task_id depends_on_task_id ≡ true
      ↔ ((depends_on_task_id ≡ task_id) ⊎ Needs edges depends_on_task_id task_id)
unfolding would_cycle
would_cycle_iff edges task_id depends_on_task_id = (
  λ found.
      elim (ancestors-IsFrom edges (depends_on_task_id ∷ []) (length edges) edges
        (depends_on_task_id ∷ []) (λ a b e. e) (λ k e. inl e) task_id found) [
          | inl e ↦ inl (sym (eq→path task_id depends_on_task_id (ground arith)))
          | inr (j, e, p) ↦
              inr
                (subst (λ i. Needs edges i task_id) (eq→path j depends_on_task_id (ground arith)) p)
        ],
  λ cyclic.
      let start : contains (ancestors (length edges) edges (depends_on_task_id ∷ []))
            depends_on_task_id
          ≡ true =
        contains-ancestors (length edges) edges (depends_on_task_id ∷ []) depends_on_task_id
          (rw (eq_refl depends_on_task_id) refl) in
      elim cyclic [
        | inl e ↦
            subst
              (λ k. contains (ancestors (length edges) edges (depends_on_task_id ∷ [])) k ≡ true) e
              start
        | inr p ↦
            closed-Needs _ edges
              (ancestors-IsClosedAt (length edges) edges (depends_on_task_id ∷ []) (omega arith)) p
              start
      ],
)
