-- ===== src/Scheduler/Order.antt =====
-- The order of Python's texts, by code points, as src/project_supervisor/scheduler.py breaks ties.
use Prim.Native.Nat.{Ordering, compare as compare_ℕ}
use text.Mathlib.TextEquality.{codes_equal}
use Prim.Native.Char.{Char, code}
use Prim.Native.String.compare
use Prim.Native.String.{String, compare, [], ◌∷◌}
use chips_agent_fabric.Prelude.{◌≡◌, refl, Bool, true, false, ◌&&◌, ◌||◌, ltb, nat_beq, arith, ℕ}

abbrev is_before : Ordering → Bool
is_before Ordering.lt = true
is_before _ = false

unfoldable pub text_less : String → String → Bool
text_less s t = is_before (compare s t)

-- A comparison by two keys in turn, as of Python's tuples.
abbrev pub by_two : Bool → Bool → Bool → Bool
by_two first_less first_same second_less = first_less || first_same && second_less

pub by_two_asym :
    (m n : ℕ) (a b : Bool)
    → (a ≡ true → b ≡ false)
    → by_two (ltb m n) (nat_beq m n) a ≡ true
    → by_two (ltb n m) (nat_beq n m) b ≡ false
by_two_asym m n a b next h = ground arith

pub by_two_trans :
    (l m n : ℕ) (a b c : Bool)
    → (a ≡ false → b ≡ false → c ≡ false)
    → by_two (ltb l m) (nat_beq l m) a ≡ false
    → by_two (ltb m n) (nat_beq m n) b ≡ false
    → by_two (ltb l n) (nat_beq l n) c ≡ false
by_two_trans l m n a b c next h k = ground arith

text_less_cons :
    (c d : Char) (s t : String)
    → text_less (c ∷ s) (d ∷ t)
      ≡ by_two (ltb (code c) (code d)) (nat_beq (code c) (code d)) (text_less s t)
unfolding text_less
text_less_cons c d s t = rw (compare.cons-cons c d s t) (ground arith)

pub text_less_asym : (s t : String) → text_less s t ≡ true → text_less t s ≡ false
unfolding text_less
text_less_asym [] [] h = refl
text_less_asym [] (d ∷ t) h = rw (compare.cons-nil d t) refl
text_less_asym (c ∷ s) [] h = absurd (ground (arith, compare.cons-nil c s))
text_less_asym (c ∷ s) (d ∷ t) h = rw (text_less_cons d c t s) (
    by_two_asym (code c) (code d) (text_less s t) (text_less t s) (text_less_asym s t)
      (rw (text_less_cons c d s t) at h))

-- Not to be less is transitive: the order is total on texts.
pub text_less_trans :
    (s t u : String) → text_less s t ≡ false → text_less t u ≡ false → text_less s u ≡ false
unfolding text_less
text_less_trans [] t [] h k = refl
text_less_trans [] [] (e ∷ u) h k = k
text_less_trans [] (d ∷ t) (e ∷ u) h k = absurd (ground (arith, compare.nil-cons d t))
text_less_trans (c ∷ s) t [] h k = rw (compare.cons-nil c s) refl
text_less_trans (c ∷ s) [] (e ∷ u) h k = absurd (ground (arith, compare.nil-cons e u))
text_less_trans (c ∷ s) (d ∷ t) (e ∷ u) h k = rw (text_less_cons c e s u) (
    by_two_trans (code c) (code d) (code e) (text_less s t) (text_less t u) (text_less s u)
      (text_less_trans s t u) (rw (text_less_cons c d s t) at h) (rw (text_less_cons d e t u) at k))

-- Texts of which neither is less are equal.
pub text_less_total : (s t : String) → text_less s t ≡ false → text_less t s ≡ false → s ≡ t
unfolding text_less
text_less_total [] [] h k = refl
text_less_total [] (d ∷ t) h k = absurd (ground (arith, compare.nil-cons d t))
text_less_total (c ∷ s) [] h k = absurd (ground (arith, compare.nil-cons c s))
text_less_total (c ∷ s) (d ∷ t) h k =
    let h' = rw (text_less_cons c d s t) at h in
    let k' = rw (text_less_cons d c t s) at k in
    let codes : compare_ℕ (code c) (code d) ≡ Ordering.eq = ground (arith, h', k') in
    let rest = text_less_total s t (ground (arith, h', k')) (ground (arith, h', k')) in
    λ i. codes_equal c d codes i ∷ rest i
