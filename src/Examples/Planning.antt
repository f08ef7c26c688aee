-- ===== src/Examples/Planning.antt =====
-- Dependencies and transition tables on small inputs.
use chips_agent_fabric.Sql.{update_where, exists_where, first_where}
use chips_agent_fabric.Domain.{ProjectPhase_eq, TaskState_eq, TaskState}
use chips_agent_fabric.StateMachine.{task_transitions, allows}
use chips_agent_fabric.Store.Error.{value_error, ok, err}
use chips_agent_fabric.Store.Schema.{Db}
use chips_agent_fabric.Prelude.{
  ◌∙◌, ap, Bool, ◌==◌, string_eq, eq→path, sym, ◌⊎◌, ◌↔◌, String, true, false, ◌≡◌, refl, arith,
}
use chips_agent_fabric.Examples.{Bool, taken, TaskState, ok, err, Db, fresh}
use chips_agent_fabric.Store.Dependencies.{edge_is, would_cycle, add_task_dependency}
use chips_agent_fabric.Store.Dependencies.Closure.{Needs, would_cycle_iff}
use chips_agent_fabric.Store.Dependencies.Acyclic.{IsAcyclic, add_task_dependency-IsAcyclic}
use chips_agent_fabric.StateMachine.Terminal.{is_terminal_task, terminal_task_iff}

-- The third task may need the second, and then the first may not need the third.
abbrev linked : Db
linked = taken (add_task_dependency 1000000 "c" "b" fresh)

links : add_task_dependency 1000000 "c" "b" fresh ≡ ok linked
unfolding add_task_dependency first_where exists_where
links = refl

refuses_cycle : add_task_dependency 2000000 "a" "c" linked ≡ err value_error
unfolding add_task_dependency first_where exists_where update_where
refuses_cycle = refl

-- In the fresh project only the second task needs another one.
only_edge :
    (k j : String) → exists_where (edge_is k j) fresh.dependencies ≡ true → (k ≡ "b") × (j ≡ "a")
unfolding exists_where
only_edge k j e = (sym (eq→path "b" k (ground arith)), sym (eq→path "a" j (ground arith)))

only_first : {k j : String} → Needs fresh.dependencies k j → (k ≡ "b") × (j ≡ "a")
only_first (Needs.direct e) = only_edge _ _ e
only_first (Needs.through p e) = ((only_first p).0, (only_edge _ _ e).1)

abbrev is_b : String → Bool
is_b x = x == "b"

fresh-IsAcyclic : IsAcyclic fresh.dependencies
fresh-IsAcyclic k p =
    let (b, a) = only_first p in
    let clash : true ≡ false = ap is_b (sym b ∙ a) in absurd (ground arith)

add_task_dependency-IsAcyclic_example : IsAcyclic linked.dependencies
add_task_dependency-IsAcyclic_example =
    add_task_dependency-IsAcyclic 1000000 "c" "b" fresh linked fresh-IsAcyclic links

would_cycle_iff_example :
    would_cycle fresh.dependencies "a" "b" ≡ true
    ↔ ((◌≡◌ {A = String} "b" "a") ⊎ Needs fresh.dependencies "b" "a")
would_cycle_iff_example = would_cycle_iff fresh.dependencies "a" "b"

terminal_task_iff_example :
    (is_terminal_task TaskState.waiting ≡ true ↔ (
      (t : TaskState) → allows task_transitions TaskState.waiting t ≡ true → TaskState.waiting ≡ t))
    × (is_terminal_task TaskState.waiting ≡ false
        → allows task_transitions TaskState.waiting TaskState.cancelled ≡ true)
terminal_task_iff_example = terminal_task_iff TaskState.waiting
