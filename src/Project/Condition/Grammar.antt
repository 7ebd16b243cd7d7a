-- ===== src/Project/Condition/Grammar.antt =====
-- The expressions that a condition of crates/dv-core/src/project.rs may be, how they are written, and
-- what they mean: comparisons of quoted operands, `!`, parentheses, `And` and `Or`.
use dv.Common.{ℕ, suc, ◌+◌, max, Bool, true, false, ◌&&◌, ◌||◌, not, ◌∷◌, ◌++◌}
use dv.Common.Text.{Text, codes, eq_ignore_case}
use dv.Common.Cut.{Lacks}
use dv.Common.Result.{ok, ◌>>=◌}
use dv.Project.{Fallible}
use dv.Project.Condition.{ReferenceConditionContext, expand_operand, matching}

mutual
  pub data Factor : Type 0 where
    comparing : Text → Bool → Text → Factor
    negated : Factor → Factor
    grouped : Terms → Factor

  -- one or more, with `And` between them
  pub data Factors : Type 0 where
    factor : Factor → Factors
    factors : Factor → Factors → Factors

  -- one or more, with `Or` between them
  pub data Terms : Type 0 where
    term : Factors → Terms
    terms : Factors → Terms → Terms

abbrev pub write_sign : Bool → Text → Text
write_sign true k = b'=' ∷ b'=' ∷ k
write_sign false k = b'!' ∷ b'=' ∷ k

abbrev pub quote : Text → Text → Text
quote s k = b'\'' ∷ (s ++ (b'\'' ∷ k))

unfoldable mutual
  -- the text, before a text that follows it
  pub write_factor : Factor → Text → Text
  write_factor (comparing left equal right) k =
      quote left (b' ' ∷ write_sign equal (b' ' ∷ quote right k))
  write_factor (negated f) k = b'!' ∷ write_factor f k
  write_factor (grouped ts) k = b'(' ∷ write_terms ts (b')' ∷ k)

  pub write_factors : Factors → Text → Text
  write_factors (factor f) k = write_factor f k
  write_factors (factors f fs) k = write_factor f (codes " And " ++ write_factors fs k)

  pub write_terms : Terms → Text → Text
  write_terms (term fs) k = write_factors fs k
  write_terms (terms fs ts) k = write_factors fs (codes " Or " ++ write_terms ts k)

abbrev pub compare_texts : ReferenceConditionContext → Text → Bool → Text → Fallible Bool
compare_texts context left equal right = expand_operand context left >>= λ x.
    expand_operand context right >>= λ y. ok (matching equal (eq_ignore_case x y))

unfoldable mutual
  -- The meaning; every operand is read, and the first that has no value is the error.
  pub factor_value : ReferenceConditionContext → Factor → Fallible Bool
  factor_value context (comparing left equal right) = compare_texts context left equal right
  factor_value context (negated f) = factor_value context f >>= λ v. ok (not v)
  factor_value context (grouped ts) = terms_value context ts

  pub factors_value : ReferenceConditionContext → Factors → Fallible Bool
  factors_value context (factor f) = factor_value context f
  factors_value context (factors f fs) =
      factor_value context f >>= λ v. factors_value context fs >>= λ w. ok (v && w)

  pub terms_value : ReferenceConditionContext → Terms → Fallible Bool
  terms_value context (term fs) = factors_value context fs
  terms_value context (terms fs ts) =
      factors_value context fs >>= λ v. terms_value context ts >>= λ w. ok (v || w)

unfoldable mutual
  -- the number of comparisons
  pub factor_size : Factor → ℕ
  factor_size (comparing left equal right) = 1
  factor_size (negated f) = factor_size f
  factor_size (grouped ts) = terms_size ts

  pub factors_size : Factors → ℕ
  factors_size (factor f) = factor_size f
  factors_size (factors f fs) = factor_size f + factors_size fs

  pub terms_size : Terms → ℕ
  terms_size (term fs) = factors_size fs
  terms_size (terms fs ts) = factors_size fs + terms_size ts

unfoldable mutual
  -- how deep `!` and parentheses nest
  pub factor_depth : Factor → ℕ
  factor_depth (comparing left equal right) = 0
  factor_depth (negated f) = suc (factor_depth f)
  factor_depth (grouped ts) = suc (terms_depth ts)

  pub factors_depth : Factors → ℕ
  factors_depth (factor f) = factor_depth f
  factors_depth (factors f fs) = max (factor_depth f) (factors_depth fs)

  pub terms_depth : Terms → ℕ
  terms_depth (term fs) = factors_depth fs
  terms_depth (terms fs ts) = max (factors_depth fs) (terms_depth ts)

unfoldable mutual
  -- no operand has the quotation mark that it is written in
  pub FactorQuoted : Factor → Type 0
  FactorQuoted (comparing left equal right) = Lacks b'\'' left × Lacks b'\'' right
  FactorQuoted (negated f) = FactorQuoted f
  FactorQuoted (grouped ts) = TermsQuoted ts

  pub FactorsQuoted : Factors → Type 0
  FactorsQuoted (factor f) = FactorQuoted f
  FactorsQuoted (factors f fs) = FactorQuoted f × FactorsQuoted fs

  pub TermsQuoted : Terms → Type 0
  TermsQuoted (term fs) = FactorsQuoted fs
  TermsQuoted (terms fs ts) = FactorsQuoted fs × TermsQuoted ts
