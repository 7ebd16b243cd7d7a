-- ===== src/Project/Condition/Loops.antt =====
-- The loops and the nesting of `ReferenceConditionParser` of crates/dv-core/src/project.rs, one step at
-- a time.
use dv.Common.{
  length-append, ℕ, zero, suc, ◌-◌, ◌+◌, ◌≤◌, ◌≡◌, refl, ap, ◌∙◌, Bool, true, false, ◌&&◌, ◌||◌,
  not, Option, none, some, [], ◌∷◌, ◌++◌, length, ◌==◌, arith,
}
use dv.Common.Text.{Text, codes, strip_prefix, trim_start, eq_ignore_case}
use dv.Common.Result.{ok, err, ◌>>=◌, >>=_ok}
use dv.Project.{Fallible}
use dv.Project.Condition.{ReferenceConditionContext, Parser, Parsed, consume_keyword, enter_nested}
use dv.Project.Condition.Evaluation.{and_then, Rule, operands, chain, parse_or, parse_unary}
use dv.Project.Condition.Compare.{at, answer}
use dv.Project.Condition.Grammar.{
  Factor, Factors, Terms, comparing, negated, grouped, factor, factors, term, terms, write_sign,
  quote, write_factor, write_factors, write_terms,
}

-- `m`, and then a function of its value.
abbrev with_value : Fallible Bool → (Bool → Option (Parsed Bool)) → Option (Parsed Bool)
with_value (ok v) f = f v
with_value (err e) f = some (err e)

and_then-answer :
    (m : Fallible Bool) (s : Parser) (f : Bool × Parser → Option (Parsed Bool))
    → and_then (some (answer m s)) f ≡ with_value m (λ v. f (v, s))
and_then-answer (ok v) s f = refl
and_then-answer (err e) s f = refl

with_value-answer :
    (m : Fallible Bool) (s : Parser) (g : Bool → Fallible Bool) (f : Bool → Option (Parsed Bool))
    → ((v : Bool) → f v ≡ some (answer (g v) s))
    → with_value m f ≡ some (answer (m >>= g) s)
with_value-answer (ok v) s g f h = h v
with_value-answer (err e) s g f h = refl

module _ (keyword : Text) (combine : Bool → Bool → Bool) (item : Rule) where
  -- one round of the loop
  abbrev step : ℕ → Bool → Parser → Option Parser → Option (Parsed Bool)
  step n v s o = elim o [
    | none ↦ some (ok (v, s))
    | some t ↦ and_then (item t) (λ (w, x). operands keyword combine item n (combine v w) x)
  ]

  operands_more :
      (n : ℕ) (v : Bool) (s t u : Parser) (m : Fallible Bool)
      → consume_keyword keyword s ≡ some t
      → item t ≡ some (answer m u)
      → operands keyword combine item (suc n) v s
        ≡ with_value m (λ w. operands keyword combine item n (combine v w) u)
  unfolding operands
  operands_more n v s t u m h k =
      ap (step n v s) h
      ∙ ap (λ r. and_then r (λ (w, x). operands keyword combine item n (combine v w) x)) k
      ∙ and_then-answer m u (λ (w, x). operands keyword combine item n (combine v w) x)

  operands_end :
      (n : ℕ) (v : Bool) (s : Parser)
      → consume_keyword keyword s ≡ none
      → operands keyword combine item (suc n) v s ≡ some (ok (v, s))
  unfolding operands
  operands_end n v s h = ap (step n v s) h

-- No operand of the keyword follows.
abbrev pub Stops : Text → Text → Type 0
Stops keyword k = (c d : ℕ) → consume_keyword keyword (at k c d) ≡ none

module _ (context : ReferenceConditionContext) where
  pub blank_skipped :
      (fuel : ℕ) (k : Text) (c d : ℕ)
      → parse_unary context fuel (at (b' ' ∷ k) c d) ≡ parse_unary context fuel (at k c d)
  unfolding parse_unary trim_start
  blank_skipped zero k c d = refl
  blank_skipped (suc fuel) k c d = refl

  pub enter_nested-at :
      (k : Text) (c d : ℕ) → d + 1 ≤ 8 → enter_nested (at k c d) ≡ ok (at k c (d + 1))
  enter_nested-at k c d h = let e : (d == 8) ≡ false = ground arith in rw e refl

  pub not_read :
      (fuel c d : ℕ) (k u : Text) (m : Fallible Bool) (c' : ℕ)
      → d + 1 ≤ 8
      → parse_unary context fuel (at k c (d + 1)) ≡ some (answer m (at u c' (d + 1)))
      → parse_unary context (suc fuel) (at (b'!' ∷ k) c d)
        ≡ some (answer (m >>= λ v. ok (not v)) (at u c' d))
  unfolding parse_unary trim_start strip_prefix
  not_read fuel c d k u m c' h e =
      rw (enter_nested-at k c d h, e)
        (and_then-answer m (at u c' (d + 1)) _
          ∙ with_value-answer m (at u c' d) (λ v. ok (not v)) _
              (λ v.
                let back : d + 1 - 1 ≡ d = omega arith in
                ap (λ n. some (ok (not v, at u c' n))) back))

  pub group_read :
      (fuel c d : ℕ) (k u : Text) (m : Fallible Bool) (c' : ℕ)
      → d + 1 ≤ 8
      → parse_or (parse_unary context fuel) (at k c (d + 1))
        ≡ some (answer m (at (b')' ∷ u) c' (d + 1)))
      → parse_unary context (suc fuel) (at (b'(' ∷ k) c d) ≡ some (answer m (at u c' d))
  unfolding parse_unary trim_start strip_prefix
  group_read fuel c d k u m c' h e =
      rw (enter_nested-at k c d h, e)
        (and_then-answer m (at (b')' ∷ u) c' (d + 1)) _
          ∙ with_value-answer m (at u c' d) (λ v. ok v) _
              (λ v.
                let back : d + 1 - 1 ≡ d = omega arith in ap (λ n. some (ok (v, at u c' n))) back)
          ∙ ap (λ x. some (answer x (at u c' d))) (>>=_ok m))

-- The words are read where they are written.
pub and_word :
    (k : Text) (c d : ℕ)
    → consume_keyword (codes "And") (at (codes " And " ++ k) c d) ≡ some (at (b' ' ∷ k) c d)
unfolding consume_keyword eq_ignore_case trim_start
and_word k c d = refl

pub or_word :
    (k : Text) (c d : ℕ)
    → consume_keyword (codes "Or") (at (codes " Or " ++ k) c d) ≡ some (at (b' ' ∷ k) c d)
unfolding consume_keyword eq_ignore_case trim_start
or_word k c d = refl

pub and_Stops-or : (k : Text) → Stops (codes "And") (codes " Or " ++ k)
unfolding consume_keyword eq_ignore_case trim_start
and_Stops-or k c d = refl

pub Stops-closed : (k : Text) → Stops (codes "And") (b')' ∷ k) × Stops (codes "Or") (b')' ∷ k)
unfolding consume_keyword eq_ignore_case trim_start
Stops-closed k = (λ c d. refl, λ c d. refl)

pub Stops-end : Stops (codes "And") [] × Stops (codes "Or") []
unfolding consume_keyword eq_ignore_case trim_start
Stops-end = (λ c d. refl, λ c d. refl)

length-write_sign : (e : Bool) (k : Text) → length (write_sign e k) ≡ length k + 2
length-write_sign true k = omega arith
length-write_sign false k = omega arith

mutual
  unfolding write_factor write_factors write_terms

  pub length-write_factor : (f : Factor) (k : Text) → length k ≤ length (write_factor f k)
  length-write_factor (comparing l e r) k = omega (
    arith,
    length-append l (b'\'' ∷ b' ' ∷ write_sign e (b' ' ∷ quote r k)),
    length-write_sign e (b' ' ∷ quote r k),
    length-append r (b'\'' ∷ k),
  )
  length-write_factor (negated f) k = omega (arith, length-write_factor f k)
  length-write_factor (grouped ts) k = omega (arith, length-write_terms ts (b')' ∷ k))

  pub length-write_factors : (fs : Factors) (k : Text) → length k ≤ length (write_factors fs k)
  length-write_factors (factor f) k = length-write_factor f k
  length-write_factors (factors f fs) k = omega (
    arith,
    length-write_factor f (codes " And " ++ write_factors fs k),
    length-write_factors fs k,
  )

  pub length-write_terms : (ts : Terms) (k : Text) → length k ≤ length (write_terms ts k)
  length-write_terms (term fs) k = length-write_factors fs k
  length-write_terms (terms fs ts) k =
      omega
        (arith, length-write_factors fs (codes " Or " ++ write_terms ts k), length-write_terms ts k)

-- A loop may gather the values from the left.
regroup :
    (combine : Bool → Bool → Bool)
    → ((a v w : Bool) → combine (combine a v) w ≡ combine a (combine v w))
    → (acc : Bool) (m r : Fallible Bool)
    → (m >>= λ v. r >>= λ w. ok (combine (combine acc v) w))
      ≡ ((m >>= λ v. r >>= λ w. ok (combine v w)) >>= λ x. ok (combine acc x))
regroup combine h acc (err e) r = refl
regroup combine h acc (ok v) (err e) = refl
regroup combine h acc (ok v) (ok w) = ap ok (h acc v w)

module _ (keyword : Text) (combine : Bool → Bool → Bool) (item : Rule)
    (assoc : (a v w : Bool) → combine (combine a v) w ≡ combine a (combine v w)) where
  -- one operand, and the end of the loop
  pub loop_last :
      (n : ℕ) (acc : Bool) (s t : Parser) (m : Fallible Bool) (k : Text) (c d : ℕ)
      → consume_keyword keyword s ≡ some t
      → item t ≡ some (answer m (at k c d))
      → consume_keyword keyword (at k c d) ≡ none
      → operands keyword combine item (suc (suc n)) acc s
        ≡ some (answer (m >>= λ w. ok (combine acc w)) (at k c d))
  loop_last n acc s t m k c d h e stop =
      operands_more keyword combine item (suc n) acc s t (at k c d) m h e
      ∙ with_value-answer m (at k c d) (λ w. ok (combine acc w)) _
          (λ v. operands_end keyword combine item n (combine acc v) (at k c d) stop)

  -- one operand, and the loop over the others
  pub loop_more :
      (n : ℕ) (acc : Bool) (s t u : Parser) (m r : Fallible Bool) (x : Parser)
      → consume_keyword keyword s ≡ some t
      → item t ≡ some (answer m u)
      → ((v : Bool)
          → operands keyword combine item n (combine acc v) u
            ≡ some (answer (r >>= λ w. ok (combine (combine acc v) w)) x))
      → operands keyword combine item (suc n) acc s
        ≡ some (answer ((m >>= λ v. r >>= λ w. ok (combine v w)) >>= λ y. ok (combine acc y)) x)
  loop_more n acc s t u m r x h e more =
      operands_more keyword combine item n acc s t u m h e
      ∙ with_value-answer m x (λ v. r >>= λ w. ok (combine (combine acc v) w)) _ more
      ∙ ap (λ y. some (answer y x)) (regroup combine assoc acc m r)

  pub chain_last :
      (s : Parser) (m : Fallible Bool) (k : Text) (c d : ℕ)
      → item s ≡ some (answer m (at k c d))
      → consume_keyword keyword (at k c d) ≡ none
      → chain keyword combine item s ≡ some (answer m (at k c d))
  chain_last s m k c d e stop =
      ap (λ r. and_then r (λ (v, t). operands keyword combine item (suc (length t.rest)) v t)) e
      ∙ and_then-answer m (at k c d) _
      ∙ with_value-answer m (at k c d) (λ v. ok v) _
          (λ v. operands_end keyword combine item (length k) v (at k c d) stop)
      ∙ ap (λ x. some (answer x (at k c d))) (>>=_ok m)

  pub chain_more :
      (s u : Parser) (m r : Fallible Bool) (x : Parser)
      → item s ≡ some (answer m u)
      → ((v : Bool)
          → operands keyword combine item (suc (length u.rest)) v u
            ≡ some (answer (r >>= λ w. ok (combine v w)) x))
      → chain keyword combine item s ≡ some (answer (m >>= λ v. r >>= λ w. ok (combine v w)) x)
  chain_more s u m r x e more =
      ap (λ r. and_then r (λ (v, t). operands keyword combine item (suc (length t.rest)) v t)) e
      ∙ and_then-answer m u _
      ∙ with_value-answer m x (λ v. r >>= λ w. ok (combine v w)) _ more

pub and_assoc : (a v w : Bool) → ((a && v) && w) ≡ (a && (v && w))
and_assoc a v w = ground arith

pub or_assoc : (a v w : Bool) → ((a || v) || w) ≡ (a || (v || w))
or_assoc a v w = ground arith
