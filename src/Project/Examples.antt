-- ===== src/Project/Examples.antt =====
-- Conditions on concrete inputs (crates/dv-core/src/project.rs).
use dv.Common.{◌≡◌, ◌≢◌, ◌≤◌, refl, arith, [], true, false, none, some, Option, Bool}
use dv.Common.Text.{codes, len, Text, strip_prefix, trim_start, split_once, eq_ignore_case}
use dv.Common.Result.{ok, err}
use dv.Project.{ProjectErrorKind, Fallible}
use dv.Common.{◌∷◌, Has, ◌↔◌}
use dv.Project.{has_reference}
use dv.Project.Identifiers.{entries, parse_runtime_identifiers}
use dv.Project.Identifiers.Distinct.{Unique, runtime_identifiers_distinct}
use dv.Common.Text.{split, trim, text_eq}
use dv.Project.Condition.{
  ReferenceConditionContext, parse_comparison, consume_keyword, property_value,
}
use dv.Project.Condition.Evaluation.{evaluate, is_ascii}
use dv.Project.Condition.Ends.{evaluate_total}
use dv.Project.Condition.Grammar.{
  Terms, comparing, negated, grouped, factor, factors, term, terms, write_terms, terms_value,
  terms_size, terms_depth, TermsQuoted,
}
use dv.Project.Condition.Meaning.{evaluate-write_terms}

abbrev release : ReferenceConditionContext
release = record {
  target_framework = codes "net8.0";
  runtime_identifier = none;
  configuration = codes "Release";
}

abbrev on_release : Text → Option (Fallible Bool)
on_release s = evaluate release s

nested_condition :
    on_release
      (codes "'$(Configuration)' == 'release' And !($(TargetFramework) == net9.0 Or false)")
    ≡ some (ok true)
unfolding evaluate consume_keyword strip_prefix trim_start parse_comparison split_once
    property_value eq_ignore_case
nested_condition = refl

interpolated : on_release (codes "'a$(Configuration)b' != 'aReleaseb'") ≡ some (ok false)
unfolding evaluate consume_keyword strip_prefix trim_start parse_comparison split_once
    property_value eq_ignore_case
interpolated = refl

unclosed : on_release (codes "true Or (false") ≡ some (err ProjectErrorKind.invalid_property)
unfolding evaluate consume_keyword strip_prefix trim_start parse_comparison eq_ignore_case
unclosed = refl

too_deep : on_release (codes "!(!(!(!(!(true)))))") ≡ some (err ProjectErrorKind.unsupported)
unfolding evaluate consume_keyword strip_prefix trim_start parse_comparison eq_ignore_case
too_deep = refl

evaluate_total_example : on_release (codes "true Or (false") ≢ none
evaluate_total_example = evaluate_total release (codes "true Or (false")

-- `'$(Configuration)' == 'release' And !('a' != 'b') Or 'x' == 'y'`
abbrev mixed : Terms
mixed =
    terms
      (factors (comparing (codes "$(Configuration)") true (codes "release"))
        (factor (negated (grouped (term (factor (comparing (codes "a") false (codes "b"))))))))
      (term (factor (comparing (codes "x") true (codes "y"))))

mixed_text :
    write_terms mixed [] ≡ codes "'$(Configuration)' == 'release' And !('a' != 'b') Or 'x' == 'y'"
unfolding write_terms
mixed_text = refl

mixed_quoted : TermsQuoted mixed
unfolding TermsQuoted
mixed_quoted = omega arith

mixed_limits :
    (terms_size mixed ≤ 32)
    × (terms_depth mixed ≤ 8)
    × (len (write_terms mixed []) ≤ 1024)
    × (is_ascii (write_terms mixed []) ≡ true)
unfolding terms_size terms_depth write_terms
mixed_limits = (omega arith, omega arith, omega arith, refl)

evaluate-write_terms_example :
    evaluate release (write_terms mixed []) ≡ some (terms_value release mixed)
evaluate-write_terms_example =
    evaluate-write_terms release mixed mixed_quoted mixed_limits.0 mixed_limits.1 mixed_limits.2
      mixed_limits.3

abbrev rids : Text
rids = codes "win-x64; linux-x64;;win-x64"

rids_read : parse_runtime_identifiers (some rids) ≡ ok (codes "win-x64" ∷ codes "linux-x64" ∷ [])
unfolding parse_runtime_identifiers has_reference split trim text_eq
rids_read = refl

runtime_identifiers_distinct_example :
    ((x : Text) → Has x (codes "win-x64" ∷ codes "linux-x64" ∷ []) ↔ Has x (entries rids))
    × Unique (codes "win-x64" ∷ codes "linux-x64" ∷ [])
runtime_identifiers_distinct_example =
    runtime_identifiers_distinct rids (codes "win-x64" ∷ codes "linux-x64" ∷ []) rids_read
