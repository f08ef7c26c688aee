-- ===== src/Store/Dependencies/Acyclic.antt =====
-- The dependency graph of tasks in src/project_supervisor/store.py.
use chips_agent_fabric.Store.Error.{ok}
use chips_agent_fabric.Sql.{first_where, exists_where}
use chips_agent_fabric.Prelude.{
  refl, Option-cases, Bool-cases, eq→path, sym, subst, ℕ, String, ◌≡◌, arith, true, false, List,
  string_eq, [], ◌∷◌, ◌++◌, ◌⊎◌, inl, inr,
}
use chips_agent_fabric.Store.Schema.{task_is, Db, DependencyRow}
use chips_agent_fabric.Store.Dependencies.{
  task_is, ok, insert_dependency, exists_where, add_task_dependency, edge_is, would_cycle,
}
use chips_agent_fabric.Store.Dependencies.Closure.{Needs, would_cycle_iff}

-- No task depends on itself.
abbrev pub IsAcyclic : List DependencyRow → Type 0
IsAcyclic edges = (k : String) → ¬ Needs edges k k

abbrev link : String → String → DependencyRow
link task_id depends_on_task_id = record {
  task_id = task_id;
  depends_on_task_id = depends_on_task_id;
}

-- An edge of the longer list is an old one or the new one.
new_edge :
    (edges : List DependencyRow) (t d a b : String)
    → exists_where (edge_is a b) (edges ++ (link t d ∷ [])) ≡ true
    → (exists_where (edge_is a b) edges ≡ true) ⊎ ((t ≡ a) × (d ≡ b))
unfolding exists_where
new_edge [] t d a b h = inr (eq→path t a (ground arith), eq→path d b (ground arith))
new_edge (x ∷ xs) t d a b h = elim (Bool-cases (edge_is a b x)) [
  | inl y ↦ inl (rw y refl)
  | inr n ↦ elim (new_edge xs t d a b (rw n at h)) [ inl e ↦ inl (rw n e) | inr e ↦ inr e ]
]

module _ (edges : List DependencyRow) (t : String) (d : String) where
  -- What the prerequisite of the new edge is or needs.
  abbrev IsBelow : String → Type 0
  IsBelow k = (d ≡ k) ⊎ Needs edges d k

  IsBelow-edge : {a b : String} → IsBelow a → exists_where (edge_is a b) edges ≡ true → IsBelow b
  IsBelow-edge {a} {b} (inl here) e =
      inr (Needs.direct (subst (λ k. exists_where (edge_is k b) edges ≡ true) (sym here) e))
  IsBelow-edge (inr p) e = inr (Needs.through p e)

  -- A new chain of dependencies is an old one, or ends below the new edge.
  split-Needs : {a b : String} → Needs (edges ++ (link t d ∷ [])) a b → Needs edges a b ⊎ IsBelow b
  split-Needs (Needs.direct e) = elim (new_edge edges t d _ _ e) [
    | inl old ↦ inl (Needs.direct old)
    | inr (_, here) ↦ inr (inl here)
  ]
  split-Needs (Needs.through p e) = elim (new_edge edges t d _ _ e) [
    | inr (_, here) ↦ inr (inl here)
    | inl old ↦ elim (split-Needs p) [
      | inl q ↦ inl (Needs.through q old)
      | inr below ↦ inr (IsBelow-edge below old)
    ]
  ]

  -- Below the new edge, where its task is not, every chain is an old one.
  Needs-IsBelow :
      {a b : String}
      → ¬ IsBelow t
      → IsBelow a
      → Needs (edges ++ (link t d ∷ [])) a b
      → Needs edges a b × IsBelow b
  Needs-IsBelow above below (Needs.direct e) = elim (new_edge edges t d _ _ e) [
    | inl old ↦ (Needs.direct old, IsBelow-edge below old)
    | inr (here, _) ↦ absurd (above (subst IsBelow (sym here) below))
  ]
  Needs-IsBelow above below (Needs.through p e) =
      let (q, below') = Needs-IsBelow above below p in
      elim (new_edge edges t d _ _ e) [
        | inl old ↦ (Needs.through q old, IsBelow-edge below' old)
        | inr (here, _) ↦ absurd (above (subst IsBelow (sym here) below'))
      ]

  new_edge-IsAcyclic :
      IsAcyclic edges → would_cycle edges t d ≡ false → IsAcyclic (edges ++ (link t d ∷ []))
  new_edge-IsAcyclic acyclic open_end k cycle =
      let above : ¬ IsBelow t =
        λ below. absurd (ground (arith, (would_cycle_iff edges t d).1 below)) in
      elim (split-Needs cycle) [
        | inl old ↦ acyclic k old
        | inr below ↦ acyclic k (Needs-IsBelow above below cycle).0
      ]

-- Where no task depends on itself, at once or through others, none does after a dependency is added.
pub add_task_dependency-IsAcyclic :
    (clock : ℕ) (task_id depends_on_task_id : String) (db db' : Db)
    → IsAcyclic db.dependencies
    → add_task_dependency clock task_id depends_on_task_id db ≡ ok db'
    → IsAcyclic db'.dependencies
unfolding add_task_dependency insert_dependency
add_task_dependency-IsAcyclic clock task_id depends_on_task_id db db' acyclic h =
    elim (Option-cases (first_where (task_is task_id) db.tasks)) [
      | inl e ↦ absurd (ground arith)
      | inr (t, e) ↦ elim (Option-cases (first_where (task_is depends_on_task_id) db.tasks)) [
        | inl e' ↦ absurd (ground arith)
        | inr (p, e') ↦
            elim (Bool-cases (exists_where (edge_is task_id depends_on_task_id) db.dependencies)) [
              | inl y ↦
                  let same : db'.dependencies ≡ db.dependencies = ground arith in
                  subst IsAcyclic (sym same) acyclic
              | inr n ↦
                  let longer : db'.dependencies
                      ≡ db.dependencies ++ (link task_id depends_on_task_id ∷ []) =
                    ground arith in
                  subst IsAcyclic (sym longer) (
                    new_edge-IsAcyclic db.dependencies task_id depends_on_task_id acyclic
                      (ground arith))
            ]
      ]
    ]
