-- ===== src/Store/Error.antt =====
-- Exceptions of src/project_supervisor/store.py as values. `StateStore.transaction` rolls back when
-- an exception leaves it, so an operation that fails returns no new database.
use chips_agent_fabric.Prelude.{
  if◌then◌else◌, inr, inl, ◌⊎◌, ◌≡◌, refl, Bool, true, false, Option, none, some, String,
}

pub data Error : Type 0 where
  -- A missing row: `KeyError(identifier)`.
  key_error : String → Error
  -- Bad arguments, or arguments that the stored state does not admit: `ValueError`.
  value_error : Error
  -- A conflict with another writer: `RuntimeError`.
  runtime_error : Error
  invalid_transition : Error
  execution_lease_lost : Error
  verification_policy_error : Error
  -- A constraint of the schema: `sqlite3.IntegrityError`.
  integrity_error : Error

pub data Result {ℓ} (T : Type ℓ) : Type ℓ where
  err : Error → Result T
  ok : T → Result T

-- `if bad: raise reason`
abbrev pub refuse : Bool → Error → Result (Unit {0})
refuse bad reason = if bad then err reason else ok tt

-- A fetched row, or the exception for a missing one.
abbrev pub fetched {ℓ} : {A : Type ℓ} → Option A → Error → Result A
fetched none e = err e
fetched (some a) e = ok a

infixl 5 ◌>>=◌
abbrev pub ◌>>=◌ {ℓ κ} : {T : Type ℓ} {S : Type κ} → Result T → (T → Result S) → Result S
err reason >>= next = err reason
ok value >>= next = next value

infixl 5 ◌>>◌
abbrev pub ◌>>◌ {ℓ} : {S : Type ℓ} → Result (Unit {0}) → Result S → Result S
err reason >> next = err reason
ok _ >> next = next

-- A chain that succeeded: both parts did.
pub >>=-eq-ok {ℓ κ} :
    {T : Type ℓ} {S : Type κ} (first : Result T) (next : T → Result S) {last : S}
    → (first >>= next) ≡ ok last
    → (value : T) × (first ≡ ok value) × (next value ≡ ok last)
>>=-eq-ok (err reason) next h = cc
>>=-eq-ok (ok value) next h = (value, refl, h)

pub >>-eq-ok {ℓ} :
    {S : Type ℓ} (first : Result (Unit {0})) (next : Result S) {last : S}
    → (first >> next) ≡ ok last
    → next ≡ ok last
>>-eq-ok (err reason) next h = cc
>>-eq-ok (ok value) next h = h

pub fetched-eq-ok {ℓ} :
    {A : Type ℓ} (found : Option A) (missing : Error) {row : A}
    → fetched found missing ≡ ok row
    → found ≡ some row
fetched-eq-ok none missing h = cc
fetched-eq-ok (some a) missing h = cc

pub guarded-eq-ok {ℓ} :
    {A : Type ℓ} (test : Bool) (value : A) (reason : Error) {last : A}
    → (if test then ok value else err reason) ≡ ok last
    → (test ≡ true) × (value ≡ last)
guarded-eq-ok true value reason h = (refl, cc)
guarded-eq-ok false value reason h = cc

pub Result-cases {ℓ} :
    {A : Type ℓ} (r : Result A) → ((a : A) × (r ≡ ok a)) ⊎ ((e : Error) × (r ≡ err e))
Result-cases (ok a) = inl (a, refl)
Result-cases (err e) = inr (e, refl)
