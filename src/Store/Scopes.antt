-- ===== src/Store/Scopes.antt =====
-- The verification scope that a dispatch records: `_task_verification_dispatch_snapshot` and
-- `_assert_task_verification_scope_integrity` of src/project_supervisor/store.py.
use chips_agent_fabric.Prelude.{
  string_eq, nat_eq, ℕ, suc, Bool, true, not, ◌||◌, ◌&&◌, Option, none, some, List, [], ◌∷◌, String,
  ◌==◌, leb, if◌then◌else◌, is_none, any, length, map,
}
use chips_agent_fabric.Sql.{select_where, first_where}
use chips_agent_fabric.Store.Error.{
  Result, ok, runtime_error, verification_policy_error, ◌>>=◌, ◌>>◌, refuse, fetched,
}
use chips_agent_fabric.Store.Schema.{Db, TaskRow, ScopeRow, ScopeItemRow}

-- SHA-256 over the canonical JSON text, which `hashlib` and `json` compute: one digest for an item,
-- and one for a scope with the digests of its items.
pub record Digests : Type 0 where
  pub item : ScopeItemRow → String
  pub scope : ScopeRow → List (ScopeItemRow × String) → String

-- `ORDER BY ordinal`: insertion of a row by its ordinal.
insert_by_ordinal : ScopeItemRow → List ScopeItemRow → List ScopeItemRow
insert_by_ordinal r [] = r ∷ []
insert_by_ordinal r (x ∷ xs) =
    if leb r.ordinal x.ordinal then r ∷ x ∷ xs else x ∷ insert_by_ordinal r xs

unfoldable pub by_ordinal : List ScopeItemRow → List ScopeItemRow
unfolding insert_by_ordinal
by_ordinal [] = []
by_ordinal (x ∷ xs) = insert_by_ordinal x (by_ordinal xs)

-- `[ordinals] == list(range(len(items)))`, from `n` on.
unfoldable pub is_canonical : ℕ → List ScopeItemRow → Bool
is_canonical n [] = true
is_canonical n (x ∷ xs) = x.ordinal == n && is_canonical (suc n) xs

unfoldable pub items_of : Db → String → List ScopeItemRow
unfolding by_ordinal
items_of db scope_id =
    by_ordinal (select_where (λ (i : ScopeItemRow). i.scope_id == scope_id) db.scope_items)

unfoldable pub assert_scope_integrity : Digests → Db → ScopeRow → Result (Unit {0})
unfolding items_of is_canonical
assert_scope_integrity digests db scope = do
  let items = items_of db scope.id
  refuse (is_none scope.sealed_at || length items == 0) verification_policy_error
  refuse (not (is_canonical 0 items)) verification_policy_error
  refuse (any (λ (i : ScopeItemRow). not (i.definition_sha256 == digests.item i)) items)
      verification_policy_error
  refuse
      (not (scope.definition_sha256 == digests.scope scope (map (λ i. (i, digests.item i)) items)))
      verification_policy_error

abbrev checked_scope : Digests → Db → TaskRow → Option String → Result (Option String × ℕ)
checked_scope digests db task none = ok (none, task.definition_revision)
checked_scope digests db task (some scope_id) = do
  scope ← fetched (first_where (λ (s : ScopeRow). s.id == scope_id) db.scopes) runtime_error
  refuse
      (not (scope.task_id == task.id)
        || not (scope.task_definition_revision == task.definition_revision))
      runtime_error
  assert_scope_integrity digests db scope
  ok (some scope_id, task.definition_revision)

-- `_task_verification_dispatch_snapshot`
unfoldable pub dispatch_snapshot : Digests → Db → TaskRow → Result (Option String × ℕ)
unfolding assert_scope_integrity
dispatch_snapshot digests db task = checked_scope digests db task task.current_verification_scope_id
