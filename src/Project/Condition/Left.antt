-- ===== src/Project/Condition/Left.antt =====
-- What the readers of a condition in crates/dv-core/src/project.rs leave is no longer than their input.
use dv.Common.{
  ℕ, zero, suc, ◌+◌, ◌≤◌, ◌≡◌, refl, Bool, true, false, ◌||◌, Option, none, some, [], ◌∷◌, length,
  drop, ◌==◌, either, if_either, option_either, ◌∙◌, arith,
}
use mathlib.Core.Option
use mathlib.Core.Path.{subst}
use dv.Common.Text.{Text, codes, split_once, strip_prefix, starts_with, trim_start, eq_ignore_case}
use dv.Common.Result.{ok, err, Holds, Holds->>=}
use dv.Project.{Fallible}
use dv.Project.Condition.{
  ReferenceConditionContext, Parser, Parsed, Mode, outside, opening, inside, after, skip_whitespace,
  consume_text, is_space, scan, pushed, ends_operand, quoted, bare, raw_operand, expand_operand,
  parse_operand, operator, lone, compared, parse_comparison,
}

-- What is left is no longer than what there was.
pub length-trim_start : (p : ℕ → Bool) (s : Text) → length (trim_start p s) ≤ length s
unfolding trim_start
length-trim_start p [] = omega arith
length-trim_start p (c ∷ s) = ground (arith, length-trim_start p s)

pub length-drop : (n : ℕ) (s : Text) → length (drop n s) ≤ length s
length-drop zero s = omega arith
length-drop (suc n) [] = omega arith
length-drop (suc n) (c ∷ s) = omega (arith, length-drop n s)

abbrev Left : ℕ → Option Text → Type 0
Left n none = Unit {0}
Left n (some r) = length r ≤ n

abbrev LeftPair : ℕ → Option (Text × Text) → Type 0
LeftPair n none = Unit {0}
LeftPair n (some (v, r)) = length r ≤ n

strip_prefix-Left : (s p : Text) → Left (length s) (strip_prefix s p)
unfolding strip_prefix
strip_prefix-Left s [] = omega arith
strip_prefix-Left [] (c ∷ p) = tt
strip_prefix-Left (d ∷ s) (c ∷ p) =
    if_either (Left (suc (length s))) (d == c) (strip_prefix s p) none
      (λ h. Left_weaker (length s) (strip_prefix s p) (strip_prefix-Left s p)) (λ h. tt)
  where
    Left_weaker : (n : ℕ) (o : Option Text) → Left n o → Left (suc n) o
    Left_weaker n none h = tt
    Left_weaker n (some r) h = omega (arith, h)

pushed-LeftPair :
    (n c : ℕ) (o : Option (Text × Text)) → LeftPair n o → LeftPair (suc n) (pushed c o)
pushed-LeftPair n c none h = tt
pushed-LeftPair n c (some (v, r)) h = omega (arith, h)

split_once-LeftPair : (c : ℕ) (s : Text) → LeftPair (length s) (split_once c s)
unfolding split_once
split_once-LeftPair c [] = tt
split_once-LeftPair c (d ∷ s) =
    if_either (LeftPair (suc (length s))) (d == c) (some ([], s)) _ (λ h. omega arith)
      (λ h. mapped (length s) d (split_once c s) (split_once-LeftPair c s))
  where
    mapped :
        (n d : ℕ) (o : Option (Text × Text))
        → LeftPair n o
        → LeftPair (suc n) (Option.map (λ p. (d ∷ p.0, p.1)) o)
    mapped n d none h = tt
    mapped n d (some (v, r)) h = omega (arith, h)

scan-LeftPair : (m : Mode) (s : Text) → LeftPair (length s) (scan m s)
unfolding scan
scan-LeftPair outside [] = omega arith
scan-LeftPair outside (c ∷ s) =
    either (LeftPair (suc (length s))) (starts_with (c ∷ s) (codes "$(")) _ _
      (λ h. pushed-LeftPair (length s) c (scan opening s) (scan-LeftPair opening s))
      (λ h.
        either (LeftPair (suc (length s))) (ends_operand c) _ _ (λ k. omega arith)
          (λ k. pushed-LeftPair (length s) c (scan outside s) (scan-LeftPair outside s)))
scan-LeftPair opening [] = tt
scan-LeftPair opening (c ∷ s) =
    pushed-LeftPair (length s) c (scan (inside []) s) (scan-LeftPair (inside []) s)
scan-LeftPair (inside name) [] = tt
scan-LeftPair (inside name) (c ∷ s) =
    either (LeftPair (suc (length s))) (c == b')') _ _
      (λ h. pushed-LeftPair (length s) c (scan outside s) (scan-LeftPair outside s))
      (λ h. pushed-LeftPair (length s) c (scan (inside name) s) (scan-LeftPair (inside name) s))

-- A step leaves no more text than `n`, at the depth `d`.
abbrev pub Within {ℓ} : {A : Type ℓ} → ℕ → ℕ → A × Parser → Type 0
Within n d (a, t) = (length t.rest ≤ n) × (t.depth ≡ d)

raw_operand-Holds : (s : Text) → Holds (λ (v, r). length r ≤ length s) (raw_operand s)
unfolding raw_operand
raw_operand-Holds [] = tt
raw_operand-Holds (c ∷ s) =
    if_either (Holds (λ (v, r). length r ≤ suc (length s))) (c == b'\'' || c == b'"')
      (quoted (split_once c s)) (bare (scan outside (c ∷ s)))
      (λ h. of_quoted (length s) (split_once c s) (split_once-LeftPair c s))
      (λ h. of_bare (suc (length s)) (scan outside (c ∷ s)) (scan-LeftPair outside (c ∷ s)))
  where
    of_quoted :
        (n : ℕ) (o : Option (Text × Text))
        → LeftPair n o
        → Holds (λ (v, r). length r ≤ suc n) (quoted o)
    of_quoted n none h = tt
    of_quoted n (some (v, r)) h = omega (arith, h)

    of_bare :
        (n : ℕ) (o : Option (Text × Text)) → LeftPair n o → Holds (λ (v, r). length r ≤ n) (bare o)
    of_bare n none h = tt
    of_bare n (some ([], r)) h = tt
    of_bare n (some (c ∷ v, r)) h = h

parse_operand-Holds :
    (context : ReferenceConditionContext) (s : Parser)
    → Holds (Within (length s.rest) s.depth) (parse_operand context s)
unfolding parse_operand
parse_operand-Holds context s =
    let r = (skip_whitespace s).rest in
    Holds->>= (λ (v, q). length q ≤ length r) (Within (length s.rest) s.depth) (raw_operand r) _
      (raw_operand-Holds r)
      (λ (v, q) h.
        Holds->>= (λ _. Unit {0}) (Within (length s.rest) s.depth) (expand_operand context v) _
          (trivial (expand_operand context v))
          (λ text _. (omega (arith, h, length-trim_start is_space s.rest), refl)))
  where
    trivial : (m : Fallible Text) → Holds (λ _. Unit {0}) m
    trivial (ok a) = tt
    trivial (err e) = tt

abbrev pub LeftState : ℕ → ℕ → Option Parser → Type 0
LeftState n d none = Unit {0}
LeftState n d (some t) = (length t.rest ≤ n) × (t.depth ≡ d)

after-LeftState :
    (s : Parser) (n : ℕ) (o : Option Text) → Left n o → LeftState n s.depth (after s o)
after-LeftState s n none h = tt
after-LeftState s n (some r) h = (h, refl)

pub consume_text-LeftState :
    (value : Text) (s : Parser) → LeftState (length s.rest) s.depth (consume_text value s)
consume_text-LeftState value s =
    after-LeftState s (length s.rest) (strip_prefix s.rest value) (strip_prefix-Left s.rest value)

abbrev LeftOperator : ℕ → ℕ → Option (Bool × Parser) → Type 0
LeftOperator n d none = Unit {0}
LeftOperator n d (some p) = Within n d p

operator-LeftOperator : (s : Parser) → LeftOperator (length s.rest) s.depth (operator s)
operator-LeftOperator s =
    let n = length s.rest in
    let d = s.depth in
    option_either (LeftOperator n d) (consume_text (codes "==") s) _ (λ t. some (true, t))
      (λ _.
        option_either (LeftOperator n d) (consume_text (codes "!=") s) none (λ t. some (false, t))
          (λ _. tt) (λ t e. subst (LeftState n d) e (consume_text-LeftState (codes "!=") s)))
      (λ t e. subst (LeftState n d) e (consume_text-LeftState (codes "==") s))

lone-Holds : (left : Text) (s : Parser) → Holds (Within (length s.rest) s.depth) (lone left s)
lone-Holds left s =
    if_either (Holds (Within (length s.rest) s.depth)) (eq_ignore_case left (codes "true")) _ _
      (λ h. (omega arith, refl))
      (λ h.
        if_either (Holds (Within (length s.rest) s.depth)) (eq_ignore_case left (codes "false")) _ _
          (λ k. (omega arith, refl)) (λ k. tt))

compared-Holds :
    (context : ReferenceConditionContext) (left : Text) (s : Parser) (n d : ℕ)
    (o : Option (Bool × Parser))
    → LeftOperator (length s.rest) s.depth o
    → length s.rest ≤ n
    → s.depth ≡ d
    → Holds (Within n d) (compared context left s o)
compared-Holds context left s n d none h e f = weaker (lone left s) (lone-Holds left s)
  where
    weaker : (m : Parsed Bool) → Holds (Within (length s.rest) s.depth) m → Holds (Within n d) m
    weaker (ok (v, t)) (h, k) = (omega (arith, h, e), k ∙ f)
    weaker (err e) h = tt
compared-Holds context left s n d (some (equal, t)) (h, k) e f =
    Holds->>= (Within (length t.rest) t.depth) (Within n d) (parse_operand context t) _
      (parse_operand-Holds context t) (λ (right, u) (l, m). (omega (arith, h, e, l), m ∙ (k ∙ f)))

pub parse_comparison-Holds :
    (context : ReferenceConditionContext) (s : Parser)
    → Holds (Within (length s.rest) s.depth) (parse_comparison context s)
unfolding parse_comparison
parse_comparison-Holds context s =
    if_either (Holds (Within (length s.rest) s.depth)) (s.comparisons == 32) _ _ (λ h. tt)
      (λ h.
        Holds->>= (Within (length s.rest) s.depth) (Within (length s.rest) s.depth)
          (parse_operand context (record s { comparisons = s.comparisons + 1 })) _
          (parse_operand-Holds context (record s { comparisons = s.comparisons + 1 }))
          (λ (left, t) (l, m).
            compared-Holds context left (skip_whitespace t) (length s.rest) s.depth
              (operator (skip_whitespace t)) (operator-LeftOperator (skip_whitespace t))
              (omega (arith, l, length-trim_start is_space t.rest)) m))
