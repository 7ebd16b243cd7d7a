-- ===== src/Project/Condition/Compare.antt =====
-- A comparison in a condition of crates/dv-core/src/project.rs evaluates to what it means.
use dv.Common.{ℕ, ◌+◌, ◌≤◌, ◌≡◌, refl, sym, ap, ◌∙◌, Bool, true, false, ◌∷◌, ◌==◌, arith}
use dv.Common.Text.{Text, strip_prefix, trim_start, eq_ignore_case}
use dv.Common.Cut.{Lacks, split_once-append}
use dv.Common.Result.{ok, ◌>>=◌, >>=_congr, >>=_assoc}
use dv.Project.{Fallible}
use dv.Project.Condition.{
  ReferenceConditionContext, Parser, Parsed, skip_whitespace, raw_operand, expand_operand,
  parse_operand, compared, matching, parse_comparison, operator,
}
use dv.Project.Condition.Grammar.{write_sign, quote, compare_texts}

-- The state with the text, the comparisons so far and the depth.
abbrev pub at : Text → ℕ → ℕ → Parser
at rest c d = record { rest = rest; comparisons = c; depth = d }

abbrev pub answer : Fallible Bool → Parser → Parsed Bool
answer m s = m >>= λ v. ok (v, s)

module _ (context : ReferenceConditionContext) where
  parse_operand-quote :
      (s k : Text) (c d : ℕ)
      → Lacks b'\'' s
      → parse_operand context (at (quote s k) c d)
        ≡ (expand_operand context s >>= λ x. ok (x, at k c d))
  unfolding parse_operand raw_operand trim_start
  parse_operand-quote s k c d h = rw (split_once-append b'\'' s k h) refl

  sign_read :
      (equal : Bool) (left k : Text) (c d : ℕ)
      → compared context left (at (write_sign equal k) c d) (operator (at (write_sign equal k) c d))
        ≡ (parse_operand context (at k c d) >>= λ (right, u).
            ok (matching equal (eq_ignore_case left right), u))
  unfolding strip_prefix
  sign_read true left k c d = refl
  sign_read false left k c d = refl

  blank_read :
      (k : Text) (c d : ℕ)
      → parse_operand context (at (b' ' ∷ k) c d) ≡ parse_operand context (at k c d)
  unfolding parse_operand trim_start
  blank_read k c d = refl

  -- what a comparison goes on with after its left operand
  abbrev rest_of : Text → Parser → Parsed Bool
  rest_of left t = compared context left (skip_whitespace t) (operator (skip_whitespace t))

  parse_comparison-step :
      (rest : Text) (c d : ℕ)
      → c + 1 ≤ 32
      → parse_comparison context (at rest c d)
        ≡ (parse_operand context (at rest (c + 1) d) >>= λ (left, t). rest_of left t)
  unfolding parse_comparison
  parse_comparison-step rest c d h = let e : (c == 32) ≡ false = ground arith in rw e refl

  right_read :
      (x right k : Text) (equal : Bool) (c d : ℕ)
      → Lacks b'\'' right
      → rest_of x (at (b' ' ∷ write_sign equal (b' ' ∷ quote right k)) c d)
        ≡ (expand_operand context right >>= λ y. ok (matching equal (eq_ignore_case x y), at k c d))
  unfolding trim_start
  right_read x right k true c d h =
      sign_read true x (b' ' ∷ quote right k) c d
      ∙ ap (λ m. m >>= λ (y, u). ok (matching true (eq_ignore_case x y), u))
          (blank_read (quote right k) c d ∙ parse_operand-quote right k c d h)
      ∙ >>=_assoc (expand_operand context right) (λ y. ok (y, at k c d))
          (λ (y, u). ok (matching true (eq_ignore_case x y), u))
  right_read x right k false c d h =
      sign_read false x (b' ' ∷ quote right k) c d
      ∙ ap (λ m. m >>= λ (y, u). ok (matching false (eq_ignore_case x y), u))
          (blank_read (quote right k) c d ∙ parse_operand-quote right k c d h)
      ∙ >>=_assoc (expand_operand context right) (λ y. ok (y, at k c d))
          (λ (y, u). ok (matching false (eq_ignore_case x y), u))

  pub parse_comparison-comparing :
      (left right k : Text) (equal : Bool) (c d : ℕ)
      → Lacks b'\'' left
      → Lacks b'\'' right
      → c + 1 ≤ 32
      → parse_comparison context
          (at (quote left (b' ' ∷ write_sign equal (b' ' ∷ quote right k))) c d)
        ≡ answer (compare_texts context left equal right) (at k (c + 1) d)
  parse_comparison-comparing left right k equal c d h l e =
      let t = b' ' ∷ write_sign equal (b' ' ∷ quote right k) in
      let s = at k (c + 1) d in
      parse_comparison-step (quote left t) c d e
      ∙ ap (λ m. m >>= λ (x, u). rest_of x u) (parse_operand-quote left t (c + 1) d h)
      ∙ >>=_assoc (expand_operand context left) (λ x. ok (x, at t (c + 1) d))
          (λ (x, u). rest_of x u)
      ∙ >>=_congr (expand_operand context left) _ _ (λ x.
        right_read x right k equal (c + 1) d l
        ∙ sym (
            >>=_assoc (expand_operand context right) (λ y. ok (matching equal (eq_ignore_case x y)))
              (λ v. ok (v, s))))
      ∙ sym (
          >>=_assoc (expand_operand context left)
            (λ x. expand_operand context right >>= λ y. ok (matching equal (eq_ignore_case x y)))
            (λ v. ok (v, s)))
