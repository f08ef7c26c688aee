-- ===== src/Sql.antt =====
-- SQLite tables as the store uses them: a table is the list of its rows, and a statement of
-- src/project_supervisor/store.py reads or rewrites it. SQLite itself is not under the repository's
-- control; these functions state the documented meaning of the statements that the source writes.
pub mod Rows
pub mod Rewrite
use chips_agent_fabric.Prelude.{
  ℕ, suc, Bool, true, false, List, [], ◌∷◌, Option, none, some, if◌then◌else◌, String,
}

module _ {ℓ} {R : Type ℓ} where
  -- SELECT * FROM t WHERE p
  unfoldable pub select_where : (R → Bool) → List R → List R
  select_where p [] = []
  select_where p (r ∷ t) = let rest = select_where p t in if p r then r ∷ rest else rest

  -- fetchone() of it
  unfoldable pub first_where : (R → Bool) → List R → Option R
  first_where p [] = none
  first_where p (r ∷ t) = if p r then some r else first_where p t

  -- EXISTS (SELECT 1 FROM t WHERE p)
  unfoldable pub exists_where : (R → Bool) → List R → Bool
  exists_where p [] = false
  exists_where p (r ∷ t) = if p r then true else exists_where p t

  -- The number of rows that fit: `cursor.rowcount` of an UPDATE with this WHERE.
  unfoldable pub count_where : (R → Bool) → List R → ℕ
  count_where p [] = 0
  count_where p (r ∷ t) = let rest = count_where p t in if p r then suc rest else rest

  -- UPDATE t SET f WHERE p
  unfoldable pub update_where : (R → Bool) → (R → R) → List R → List R
  update_where p f [] = []
  update_where p f (r ∷ t) = (if p r then f r else r) ∷ update_where p f t
