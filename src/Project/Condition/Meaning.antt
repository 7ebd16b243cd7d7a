-- ===== src/Project/Condition/Meaning.antt =====
-- A condition of crates/dv-core/src/project.rs evaluates to what it means.
use dv.Common.{
  ℕ, zero, suc, ◌+◌, ◌≤◌, ◌≡◌, refl, ap, ◌∙◌, Bool, true, false, ◌&&◌, ◌||◌, some, [], ◌∷◌, ◌++◌,
  length, ltb, arith,
}
use dv.Common.Text.{Text, codes, len, strip_prefix, trim_start}
use dv.Common.Result.{ok, err, ◌>>=◌}
use dv.Project.{Fallible}
use dv.Project.Condition.{ReferenceConditionContext, parse_comparison}
use dv.Project.Condition.Evaluation.{
  and_then, Rule, operands, parse_and, parse_or, parse_unary, complete, evaluate, is_ascii,
}
use dv.Project.Condition.Compare.{at, answer, parse_comparison-comparing}
use dv.Project.Condition.Grammar.{
  Factor, Factors, Terms, comparing, negated, grouped, factor, factors, term, terms, write_sign,
  quote, write_factor, write_factors, write_terms, factor_value, factors_value, terms_value,
  factor_size, factors_size, terms_size, factor_depth, factors_depth, terms_depth, FactorQuoted,
  FactorsQuoted, TermsQuoted,
}
use dv.Project.Condition.Loops.{
  Stops, blank_skipped, not_read, group_read, and_word, or_word, and_Stops-or, Stops-closed,
  Stops-end, length-write_factor, length-write_factors, loop_last, loop_more, chain_last,
  chain_more, and_assoc, or_assoc,
}

module _ (context : ReferenceConditionContext) where
  abbrev unary : ℕ → Rule
  unary fuel = parse_unary context fuel

  abbrev Read : Rule → (Text → Text) → ℕ → Fallible Bool → ℕ → ℕ → Text → Type 0
  Read rule write size m c d k = rule (at (write k) c d) ≡ some (answer m (at k (c + size) d))

  moved_count :
      (m : Fallible Bool) (k : Text) (c a b d : ℕ)
      → some (answer m (at k (c + a + b) d)) ≡ some (answer m (at k (c + (a + b)) d))
  moved_count m k c a b d =
      let e : c + a + b ≡ c + (a + b) = omega arith in ap (λ n. some (answer m (at k n d))) e

  blank_before :
      (fuel : ℕ) (k : Text) (c d : ℕ)
      → parse_and (unary fuel) (at (b' ' ∷ k) c d) ≡ parse_and (unary fuel) (at k c d)
  blank_before fuel k c d =
      ap
        (λ r.
          and_then r (λ (v, t).
            operands (codes "And") (λ x y. x && y) (unary fuel) (suc (length t.rest)) v t))
        (blank_skipped context fuel k c d)

  comparing_read :
      (left right k : Text) (equal : Bool) (fuel c d : ℕ)
      → parse_unary context
          (suc fuel)
          (at (quote left (b' ' ∷ write_sign equal (b' ' ∷ quote right k))) c d)
        ≡ some (
            parse_comparison context
              (at (quote left (b' ' ∷ write_sign equal (b' ' ∷ quote right k))) c d))
  unfolding parse_unary trim_start strip_prefix
  comparing_read left right k equal fuel c d = refl

  mutual
    unfolding write_factor write_factors write_terms factor_value factors_value terms_value
        factor_size factors_size terms_size factor_depth factors_depth terms_depth FactorQuoted
        FactorsQuoted TermsQuoted

    factor-Read :
        (f : Factor) (fuel c d : ℕ) (k : Text)
        → FactorQuoted f
        → c + factor_size f ≤ 32
        → d + factor_depth f ≤ 8
        → 9 ≤ fuel + d
        → Read (unary fuel) (write_factor f) (factor_size f) (factor_value context f) c d k
    factor-Read f zero c d k q n h enough = absurd (omega (arith, h, enough))
    factor-Read (comparing left equal right) (suc fuel) c d k (q, r) n h enough =
        comparing_read left right k equal fuel c d
        ∙ ap some (parse_comparison-comparing context left right k equal c d q r n)
    factor-Read (negated f) (suc fuel) c d k q n h enough =
        not_read context fuel c d (write_factor f k) k (factor_value context f) (c + factor_size f)
          (omega (arith, h))
          (factor-Read f fuel c (d + 1) k q n (omega (arith, h)) (omega (arith, enough)))
    factor-Read (grouped ts) (suc fuel) c d k q n h enough =
        let (a, b) = Stops-closed k in
        group_read context fuel c d (write_terms ts (b')' ∷ k)) k (terms_value context ts)
          (c + terms_size ts) (omega (arith, h))
          (terms-Read ts fuel c (d + 1) (b')' ∷ k) q n (omega (arith, h)) (omega (arith, enough)) a
            b)

    factors-Read :
        (fs : Factors) (fuel c d : ℕ) (k : Text)
        → FactorsQuoted fs
        → c + factors_size fs ≤ 32
        → d + factors_depth fs ≤ 8
        → 9 ≤ fuel + d
        → Stops (codes "And") k
        → Read
            (parse_and (unary fuel))
            (write_factors fs)
            (factors_size fs)
            (factors_value context fs)
            c
            d
            k
    factors-Read (factor f) fuel c d k q n h enough stop =
        chain_last (codes "And") (λ v w. v && w) (unary fuel) and_assoc _ (factor_value context f) k
          (c + factor_size f) d (factor-Read f fuel c d k q n h enough) (stop (c + factor_size f) d)
    factors-Read (factors f fs) fuel c d k (q, qs) n h enough stop =
        let t = codes " And " ++ write_factors fs k in
        chain_more (codes "And") (λ v w. v && w) (unary fuel) and_assoc _
          (at t (c + factor_size f) d) (factor_value context f) (factors_value context fs)
          (at k (c + factor_size f + factors_size fs) d)
          (factor-Read f fuel c d t q (omega (arith, n)) (omega (arith, h)) enough)
          (λ v.
            factors_loop fs (suc (length t)) v fuel (c + factor_size f) d k qs (omega (arith, n))
              (omega (arith, h)) enough stop (omega arith))
        ∙ moved_count (factors_value context (factors f fs)) k c (factor_size f) (factors_size fs) d

    factors_loop :
        (fs : Factors) (n : ℕ) (acc : Bool) (fuel c d : ℕ) (k : Text)
        → FactorsQuoted fs
        → c + factors_size fs ≤ 32
        → d + factors_depth fs ≤ 8
        → 9 ≤ fuel + d
        → Stops (codes "And") k
        → length (write_factors fs k) + 6 ≤ n
        → operands
            (codes "And")
            (λ v w. v && w)
            (unary fuel)
            n
            acc
            (at (codes " And " ++ write_factors fs k) c d)
          ≡ some (
              answer
                (factors_value context fs >>= λ w. ok (acc && w))
                (at k (c + factors_size fs) d))
    factors_loop fs zero acc fuel c d k q s h enough stop long = absurd (omega (arith, long))
    factors_loop fs (suc zero) acc fuel c d k q s h enough stop long = absurd (omega (arith, long))
    factors_loop (factor f) (suc (suc n)) acc fuel c d k q s h enough stop long =
        loop_last (codes "And") (λ v w. v && w) (unary fuel) and_assoc n acc _
          (at (b' ' ∷ write_factor f k) c d) (factor_value context f) k (c + factor_size f) d
          (and_word (write_factor f k) c d)
          (blank_skipped context fuel (write_factor f k) c d
            ∙ factor-Read f fuel c d k q s h enough)
          (stop (c + factor_size f) d)
    factors_loop (factors f fs) (suc (suc n)) acc fuel c d k (q, qs) s h enough stop long =
        let t = codes " And " ++ write_factors fs k in
        loop_more (codes "And") (λ v w. v && w) (unary fuel) and_assoc (suc n) acc _
          (at (b' ' ∷ write_factor f t) c d) (at t (c + factor_size f) d) (factor_value context f)
          (factors_value context fs) (at k (c + factor_size f + factors_size fs) d)
          (and_word (write_factor f t) c d)
          (blank_skipped context fuel (write_factor f t) c d
            ∙ factor-Read f fuel c d t q (omega (arith, s)) (omega (arith, h)) enough)
          (λ v.
            factors_loop fs (suc n) (acc && v) fuel (c + factor_size f) d k qs (omega (arith, s))
              (omega (arith, h)) enough stop (omega (arith, long, length-write_factor f t)))
        ∙ moved_count (factors_value context (factors f fs) >>= λ w. ok (acc && w)) k c
            (factor_size f) (factors_size fs) d

    terms-Read :
        (ts : Terms) (fuel c d : ℕ) (k : Text)
        → TermsQuoted ts
        → c + terms_size ts ≤ 32
        → d + terms_depth ts ≤ 8
        → 9 ≤ fuel + d
        → Stops (codes "And") k
        → Stops (codes "Or") k
        → Read
            (parse_or (unary fuel))
            (write_terms ts)
            (terms_size ts)
            (terms_value context ts)
            c
            d
            k
    terms-Read (term fs) fuel c d k q n h enough a b =
        chain_last (codes "Or") (λ v w. v || w) (parse_and (unary fuel)) or_assoc _
          (factors_value context fs) k (c + factors_size fs) d
          (factors-Read fs fuel c d k q n h enough a) (b (c + factors_size fs) d)
    terms-Read (terms fs ts) fuel c d k (q, qs) n h enough a b =
        let t = codes " Or " ++ write_terms ts k in
        chain_more (codes "Or") (λ v w. v || w) (parse_and (unary fuel)) or_assoc _
          (at t (c + factors_size fs) d) (factors_value context fs) (terms_value context ts)
          (at k (c + factors_size fs + terms_size ts) d)
          (factors-Read fs fuel c d t q (omega (arith, n)) (omega (arith, h)) enough
            (and_Stops-or (write_terms ts k)))
          (λ v.
            terms_loop ts (suc (length t)) v fuel (c + factors_size fs) d k qs (omega (arith, n))
              (omega (arith, h)) enough a b (omega arith))
        ∙ moved_count (terms_value context (terms fs ts)) k c (factors_size fs) (terms_size ts) d

    terms_loop :
        (ts : Terms) (n : ℕ) (acc : Bool) (fuel c d : ℕ) (k : Text)
        → TermsQuoted ts
        → c + terms_size ts ≤ 32
        → d + terms_depth ts ≤ 8
        → 9 ≤ fuel + d
        → Stops (codes "And") k
        → Stops (codes "Or") k
        → length (write_terms ts k) + 5 ≤ n
        → operands
            (codes "Or")
            (λ v w. v || w)
            (parse_and (unary fuel))
            n
            acc
            (at (codes " Or " ++ write_terms ts k) c d)
          ≡ some
              (answer (terms_value context ts >>= λ w. ok (acc || w)) (at k (c + terms_size ts) d))
    terms_loop ts zero acc fuel c d k q s h enough a b long = absurd (omega (arith, long))
    terms_loop ts (suc zero) acc fuel c d k q s h enough a b long = absurd (omega (arith, long))
    terms_loop (term fs) (suc (suc n)) acc fuel c d k q s h enough a b long =
        loop_last (codes "Or") (λ v w. v || w) (parse_and (unary fuel)) or_assoc n acc _
          (at (b' ' ∷ write_factors fs k) c d) (factors_value context fs) k (c + factors_size fs) d
          (or_word (write_factors fs k) c d)
          (blank_before fuel (write_factors fs k) c d ∙ factors-Read fs fuel c d k q s h enough a)
          (b (c + factors_size fs) d)
    terms_loop (terms fs ts) (suc (suc n)) acc fuel c d k (q, qs) s h enough a b long =
        let t = codes " Or " ++ write_terms ts k in
        loop_more (codes "Or") (λ v w. v || w) (parse_and (unary fuel)) or_assoc (suc n) acc _
          (at (b' ' ∷ write_factors fs t) c d) (at t (c + factors_size fs) d)
          (factors_value context fs) (terms_value context ts)
          (at k (c + factors_size fs + terms_size ts) d) (or_word (write_factors fs t) c d)
          (blank_before fuel (write_factors fs t) c d
            ∙ factors-Read fs fuel c d t q (omega (arith, s)) (omega (arith, h)) enough
                (and_Stops-or (write_terms ts k)))
          (λ v.
            terms_loop ts (suc n) (acc || v) fuel (c + factors_size fs) d k qs (omega (arith, s))
              (omega (arith, h)) enough a b (omega (arith, long, length-write_factors fs t)))
        ∙ moved_count (terms_value context (terms fs ts) >>= λ w. ok (acc || w)) k c
            (factors_size fs) (terms_size ts) d

-- The text of a condition that is within the limits: 1024 bytes of ASCII, 32 comparisons, and 8 levels.
-- Its evaluation ends with what it means: the value, or the error of the first operand without one.
pub evaluate-write_terms :
    (context : ReferenceConditionContext) (ts : Terms)
    → TermsQuoted ts
    → terms_size ts ≤ 32
    → terms_depth ts ≤ 8
    → len (write_terms ts []) ≤ 1024
    → is_ascii (write_terms ts []) ≡ true
    → evaluate context (write_terms ts []) ≡ some (terms_value context ts)
unfolding evaluate trim_start
evaluate-write_terms context ts q n h small ascii =
    let fits : ltb 1024 (len (write_terms ts [])) ≡ false = ground arith in
    let (a, b) = Stops-end in
    rw
      (
        fits,
        ascii,
        terms-Read context ts 9 0 0 [] q (omega (arith, n)) (omega (arith, h)) (omega arith) a b,
      )
      (finish (terms_value context ts) (0 + terms_size ts))
  where
    finish :
        (m : Fallible Bool) (c : ℕ)
        → and_then (some (answer m (at [] c 0))) (λ r. some (complete r)) ≡ some m
    finish (ok v) c = refl
    finish (err e) c = refl
