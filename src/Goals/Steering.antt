-- ===== src/Goals/Steering.antt =====
-- The numbering of steers in src/project_supervisor/autonomy.py.
use Prim.Native.String.{◌++◌ as ◌+++◌}
use chips_agent_fabric.Goals.Text.{steered_text, decimal}
use chips_agent_fabric.Sql.Rewrite.{first_where-update_where}
use chips_agent_fabric.Sql.Rows.{count_where-append, first_where_holds}
use chips_agent_fabric.Store.Schema.{timestamp}
use chips_agent_fabric.Sql.{first_where, exists_where, count_where}
use chips_agent_fabric.Prelude.{
  none, Option, eq_refl, ◌∙◌, eq→path, refl, some, ℕ, String, Bool, true, false, List, ◌==◌,
  string_eq, nat_eq, [], ◌∷◌, ◌++◌, ◌&&◌, ◌+◌, ◌≡◌, ◌≤◌, arith, All,
}
use chips_agent_fabric.Store.Error.{ok}
use chips_agent_fabric.Goals.{
  Option, steered_goal, timestamp, is_ended, first_where, get_goal, require_mutable, exists_where,
  GoalDb, GoalRow, SteerRow, steer_of, goal_is,
}
use chips_agent_fabric.Goals.Service.{bad_priority, steered_db, steer}

-- The goal has `last` steers, and none has a number above `last`.
abbrev pub IsNumbered : String → List SteerRow → ℕ → Type 0
IsNumbered k steers last =
    (count_where (steer_of k) steers ≡ last)
    × All (λ (s : SteerRow). steer_of k s ≡ true → s.sequence ≤ last) steers

-- No steer has the next number.
next_is_free :
    (k : String) (steers : List SteerRow) (last : ℕ)
    → All (λ (s : SteerRow). steer_of k s ≡ true → s.sequence ≤ last) steers
    → exists_where (λ s. steer_of k s && s.sequence == last + 1) steers ≡ false
unfolding exists_where
next_is_free k [] last a = refl
next_is_free k (s ∷ ss) last a = ground (arith, a.0, next_is_free k ss last a.1)

append-IsNumbered :
    (k : String) (steers : List SteerRow) (s : SteerRow) (last : ℕ)
    → s.goal_id ≡ k
    → s.sequence ≡ last + 1
    → All (λ (s : SteerRow). steer_of k s ≡ true → s.sequence ≤ last) steers
    → All (λ (s : SteerRow). steer_of k s ≡ true → s.sequence ≤ last + 1) (steers ++ (s ∷ []))
append-IsNumbered k [] s last key next a = ((λ e. omega (arith, next)), tt)
append-IsNumbered k (x ∷ xs) s last key next a =
    ((λ e. omega (arith, a.0 e)), append-IsNumbered k xs s last key next a.1)

module _ (blank : String → Bool) (redact : String → String) where
  small_priority :
      (priority : Option ℕ)
      → ((p : ℕ) → priority ≡ some p → p ≤ 100)
      → bad_priority blank redact priority ≡ false
  small_priority none h = refl
  small_priority (some p) h = let below = h p refl in ground arith

  -- Where a goal has as many steers as its version, and none has a number above it, a steer of a goal
  -- that has not ended, with a text that is not blank and with no priority or one of at most 100, always
  -- succeeds: its number is free. The goal then has the next version; its intent is the old one, two
  -- line ends, "Steer", the version, and the redacted text; it has as many steers as that version, and
  -- none with a number above it.
  pub steer-IsNumbered :
      (clock : ℕ) (goal_id instruction actor : String) (priority : Option ℕ) (keep : Bool)
      (goal : GoalRow) (db : GoalDb)
      → first_where (goal_is goal_id) db.goals ≡ some goal
      → IsNumbered goal_id db.steers goal.steer_version
      → is_ended goal.state ≡ false
      → blank instruction ≡ false
      → ((p : ℕ) → priority ≡ some p → p ≤ 100)
      → (row : GoalRow) × (db' : GoalDb) × (steer blank redact clock goal_id instruction priority
            keep actor db
          ≡ ok (row, db'))
        × (first_where (goal_is goal_id) db'.goals ≡ some row)
        × (row.steer_version ≡ goal.steer_version + 1)
        × (row.effective_intent
            ≡ goal.effective_intent
              +++ "\n\nSteer "
              +++ decimal row.steer_version
              +++ ": "
              +++ redact instruction)
        × IsNumbered goal_id db'.steers row.steer_version
  unfolding steer require_mutable get_goal count_where
  steer-IsNumbered clock goal_id instruction actor priority keep goal db found (count, below) live
        said small =
      let now = timestamp clock in
      let next = goal.steer_version + 1 in
      let change =
        steered_goal now (steered_text goal.effective_intent next (redact instruction)) next in
      let key = eq→path goal.id goal_id (first_where_holds (goal_is goal_id) db.goals goal found) in
      let free = next_is_free goal_id db.steers goal.steer_version below in
      let moved =
        first_where-update_where (goal_is goal.id) change (goal_is goal_id) db.goals (λ r. refl) in
      let last =
        steered_db blank redact now goal_id (redact instruction) priority keep actor goal db in
      let shown : first_where (goal_is goal_id) last.goals ≡ some (change goal) =
        moved ∙ rw found (rw (eq_refl goal.id) refl) in
      (
        change goal,
        last,
        rw said
            (rw (small_priority priority small) (rw found (rw live (ground (arith, free, shown))))),
        shown,
        refl,
        refl,
        (
          count_where-append (steer_of goal_id) db.steers _
              ∙ ground (arith, count, eq_refl goal_id),
          append-IsNumbered goal_id db.steers _ goal.steer_version refl refl below,
        ),
      )
