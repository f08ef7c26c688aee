-- ===== src/Store/Exclusive/Identities.antt =====
-- `dict.fromkeys` and the test that every named worker is idle, in src/project_supervisor/store.py.
use chips_agent_fabric.Sql.Rewrite.{exists_where-update_where}
use chips_agent_fabric.Store.Schema.{worker_is, WorkerRow}
use chips_agent_fabric.Prelude.{
  ap, ◌&&◌, not, any, true, string_eq, ℕ, ◌≤◌, ◌≡◌, refl, false, List, [], ◌∷◌, String, ◌==◌, arith,
  contains, eq→path, inl, inr, Bool-cases, path→eq,
}
use chips_agent_fabric.Sql.{exists_where, update_where, select_where, count_where}
use chips_agent_fabric.Store.Workers.{
  reserved, among, is_idle, all_idle, reserve, without, distinct,
}

-- How often an identifier stands in a list.
abbrev pub occurrences : String → List String → ℕ
occurrences k = count_where (λ x. x == k)

occurrences-without :
    (k j : String) (l : List String) → occurrences k (without j l) ≤ occurrences k l
unfolding count_where
occurrences-without k j [] = omega arith
occurrences-without k j (x ∷ l) = ground (arith, occurrences-without k j l)

occurrences-without_self : (k : String) (l : List String) → occurrences k (without k l) ≡ 0
unfolding count_where
occurrences-without_self k [] = refl
occurrences-without_self k (x ∷ l) = ground (arith, occurrences-without_self k l)

pub occurrences-distinct : (k : String) (l : List String) → occurrences k (distinct l) ≤ 1
unfolding distinct count_where
occurrences-distinct k [] = omega arith
occurrences-distinct k (x ∷ l) = elim (Bool-cases (x == k)) [
  | inl y ↦
      ground
        (arith, eq→path x k y, occurrences-without_self k (distinct l), occurrences-distinct k l)
  | inr n ↦ ground (arith, occurrences-without k x (distinct l), occurrences-distinct k l)
]

pub occurrences-contains :
    (k : String) (l : List String) → contains l k ≡ false → occurrences k l ≡ 0
unfolding count_where
occurrences-contains k [] h = refl
occurrences-contains k (x ∷ l) h =
    ground (arith, path→eq k x, eq→path x k, occurrences-contains k l)

all_of_any :
    (ids : List String) (rows : List WorkerRow) (k : String)
    → any (λ r. not (is_idle r)) (select_where (among ids) rows) ≡ false
    → contains ids k ≡ true
    → exists_where (worker_is k) rows ≡ true
    → exists_where (λ w. worker_is k w && is_idle w) rows ≡ true
unfolding select_where exists_where
all_of_any ids [] k a c h = cc
all_of_any ids (r ∷ rows) k a c h = elim (Bool-cases (worker_is k r)) [
  | inl y ↦ ground (arith, ap (contains ids) (eq→path r.id k y))
  | inr n ↦ ground (arith, all_of_any ids rows k)
]

-- A named worker that exists is idle.
pub all_idle-exists :
    (ids : List String) (rows : List WorkerRow) (k : String)
    → all_idle ids rows ≡ true
    → contains ids k ≡ true
    → exists_where (worker_is k) rows ≡ true
    → exists_where (λ w. worker_is k w && is_idle w) rows ≡ true
unfolding all_idle
all_idle-exists ids rows k a c h = all_of_any ids rows k (ground arith) c h

-- After the reservation no named worker is idle.
pub reserve_named :
    (now : ℕ) (ids : List String) (rows : List WorkerRow) (k : String)
    → contains ids k ≡ true
    → exists_where (λ w. worker_is k w && is_idle w) (reserve now ids rows) ≡ false
unfolding reserve update_where exists_where
reserve_named now ids [] k c = refl
reserve_named now ids (r ∷ rows) k c = elim (Bool-cases (worker_is k r)) [
  | inl y ↦ ground (arith, ap (contains ids) (eq→path r.id k y), reserve_named now ids rows k)
  | inr n ↦ ground (arith, reserve_named now ids rows k)
]

-- The reservation makes no worker idle.
pub reserve_idle :
    (now : ℕ) (ids : List String) (rows : List WorkerRow) (k : String)
    → exists_where (λ w. worker_is k w && is_idle w) (reserve now ids rows) ≡ true
    → exists_where (λ w. worker_is k w && is_idle w) rows ≡ true
unfolding reserve update_where exists_where
reserve_idle now ids [] k h = h
reserve_idle now ids (r ∷ rows) k h = ground (arith, reserve_idle now ids rows k)

-- The reservation adds no worker.
pub reserve_exists :
    (now : ℕ) (ids : List String) (rows : List WorkerRow) (k : String)
    → exists_where (worker_is k) (reserve now ids rows) ≡ true
    → exists_where (worker_is k) rows ≡ true
unfolding reserve
reserve_exists now ids rows k h =
    exists_where-update_where (λ r. among ids r && is_idle r) (reserved now) (worker_is k) rows
      (λ r _ e. e) h
