-- ===== src/Goals/Text.antt =====
-- The text that a steer adds to the intent of a goal, in src/project_supervisor/autonomy.py.
use Prim.Native.Nat.{◌%◌, ◌/◌}
use Prim.Native.String.{◌++◌, slice}
use chips_agent_fabric.Prelude.{
  ◌/◌, ℕ, zero, suc, String, ◌+◌, ◌<◌, ◌≡◌, refl, arith, inl, inr, Bool-cases, ltb, if◌then◌else◌,
}

abbrev digit : ℕ → String
digit n = slice "0123456789" n (n + 1)

-- The digits of a number, given at most so many.
unfoldable pub digits_from : ℕ → ℕ → String
digits_from zero n = ""
digits_from (suc fuel) n =
    let rest = digits_from fuel (n / 10) in if ltb n 10 then digit n else rest ++ digit (n % 10)

-- The text that Python formats a natural number to. A number has no more digits than one above it.
unfoldable pub decimal : ℕ → String
decimal n = digits_from (suc n) n

-- `f"{goal['effective_intent']}\n\nSteer {sequence}: {safe_instruction}"`
abbrev pub steered_text : String → ℕ → String → String
steered_text effective sequence instruction =
    effective ++ "\n\nSteer " ++ decimal sequence ++ ": " ++ instruction

-- More room than one digit above the number changes nothing.
digits_from-enough : (f g n : ℕ) → n < f → n < g → digits_from f n ≡ digits_from g n
unfolding digits_from
digits_from-enough zero g n h k = absurd (omega (arith, h))
digits_from-enough (suc f) zero n h k = absurd (omega (arith, k))
digits_from-enough (suc f) (suc g) n h k = elim (Bool-cases (ltb n 10)) [
  | inl y ↦ rw y refl
  | inr m ↦
      let smaller : n / 10 < n = ground (arith, m) in
      rw m (
        rw (digits_from-enough f g (n / 10) (omega (arith, smaller, h)) (omega (arith, smaller, k)))
          refl)
]

pub decimal-enough : (fuel n : ℕ) → n < fuel → digits_from fuel n ≡ decimal n
unfolding decimal
decimal-enough fuel n h = digits_from-enough fuel (suc n) n h (omega arith)

three_digits : decimal 407 ≡ "407"
unfolding decimal digits_from
three_digits = refl
