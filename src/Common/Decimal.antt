-- ===== src/Common/Decimal.antt =====
-- Decimal formatting of unsigned integers (`format!("{}")`), and reading it back.
use Prim.Native.Nat.{ℕ, zero, suc, ◌+◌, ◌/◌, ◌%◌, ◌^◌, ◌≤◌, ◌<◌}
use native.Mathlib.Nat.{pow-suc}
use mathlib.Core.Path.{◌≡◌, refl}
use mathlib.Core.Bool.{true}
use mathlib.Core.List.{[], ◌∷◌}
use mathlib.Core.Logic.{inl, inr}
use mathlib.Core.Option.{some}
use native.Mathlib.Omega.{arith}
use dv.Common.Tests.{ltb, if◌then◌else◌, Bool-cases}
use dv.Common.Lists.{length, All}
use dv.Common.Text.{Text, is_digit, parse_digits}

-- The digits of `n` in front of `out`; `n + 1` rounds are enough.
digits : ℕ → ℕ → Text → Text
digits zero n out = out
digits (suc f) n out =
    let rest = digits f (n / 10) ((b'0' + n % 10) ∷ out) in
    if ltb n 10 then (b'0' + n) ∷ out else rest

unfoldable pub show : ℕ → Text
unfolding digits
show n = digits (suc n) n []

-- Reading the digits of `n` in front of a text goes on from `n`.
parse_digits-digits :
    (top f n : ℕ) (out : Text)
    → n < f
    → n ≤ top
    → parse_digits top 0 (digits f n out) ≡ parse_digits top n out
unfolding digits parse_digits
parse_digits-digits top zero n out h k = elim h [ ]
parse_digits-digits top (suc f) n out h k = elim (Bool-cases (ltb n 10)) [
  | inl small ↦ rw small (ground arith)
  | inr large ↦
      rw
        (
          large,
          parse_digits-digits top f (n / 10) ((b'0' + n % 10) ∷ out) (ground arith) (ground arith),
        )
        (ground arith)
]

-- What is shown of a number in range is read back as that number.
pub parse_digits-show : (top n : ℕ) → n ≤ top → parse_digits top 0 (show n) ≡ some n
unfolding show
parse_digits-show top n h =
    rw (parse_digits-digits top (suc n) n [] (omega arith) h) (unfold parse_digits in refl)

digits-All :
    (f n : ℕ) (out : Text)
    → All (λ c. is_digit c ≡ true) out
    → All (λ c. is_digit c ≡ true) (digits f n out)
unfolding digits
digits-All zero n out h = h
digits-All (suc f) n out h = elim (Bool-cases (ltb n 10)) [
  | inl small ↦ rw small (ground arith, h)
  | inr large ↦ rw large (digits-All f (n / 10) ((b'0' + n % 10) ∷ out) (ground arith, h))
]

pub show-All : (n : ℕ) → All (λ c. is_digit c ≡ true) (show n)
unfolding show
show-All n = digits-All (suc n) n [] tt

length-digits :
    (k f n : ℕ) (out : Text) → n < 10 ^ suc k → length (digits f n out) ≤ length out + suc k
unfolding digits
length-digits k zero n out h = omega arith
length-digits zero (suc f) n out h = elim (Bool-cases (ltb n 10)) [
  | inl small ↦ rw small (omega arith)
  | inr large ↦ absurd (ground arith)
]
length-digits (suc k) (suc f) n out h = elim (Bool-cases (ltb n 10)) [
  | inl small ↦ rw small (omega arith)
  | inr large ↦ rw large (
      omega (
        arith,
        length-digits k f (n / 10) ((b'0' + n % 10) ∷ out) (omega (arith, pow-suc 10 (suc k))),
      ))
]

-- A number of the type `u32` has at most ten digits.
pub length-show : (n : ℕ) → n < 2 ^ 32 → length (show n) ≤ 10
unfolding show
length-show n h = length-digits 9 (suc n) n [] (omega arith)

show-ne-nil-digits :
    (f n : ℕ) (c : ℕ) (out : Text) → (d : ℕ) × (s : Text) × (digits f n (c ∷ out) ≡ d ∷ s)
unfolding digits
show-ne-nil-digits zero n c out = (c, out, refl)
show-ne-nil-digits (suc f) n c out = elim (Bool-cases (ltb n 10)) [
  | inl small ↦ (b'0' + n, c ∷ out, rw small)
  | inr large ↦
      let (d, s, e) = show-ne-nil-digits f (n / 10) (b'0' + n % 10) (c ∷ out) in (d, s, rw large e)
]

-- At least one digit is shown.
pub show-cons : (n : ℕ) → (d : ℕ) × (s : Text) × (show n ≡ d ∷ s)
unfolding show digits
show-cons n = elim (Bool-cases (ltb n 10)) [
  | inl small ↦ (b'0' + n, [], rw small)
  | inr large ↦
      let (d, s, e) = show-ne-nil-digits n (n / 10) (b'0' + n % 10) [] in (d, s, rw large e)
]

show_tests :
    (show 0 ≡ b'0' ∷ [])
    × (show 4_294_967_295
        ≡ b'4' ∷ b'2' ∷ b'9' ∷ b'4' ∷ b'9' ∷ b'6' ∷ b'7' ∷ b'2' ∷ b'9' ∷ b'5' ∷ [])
unfolding show
show_tests = (refl, refl)
