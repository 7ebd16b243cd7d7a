-- ===== src/Project/Condition/Evaluation.antt =====
-- `evaluate`, `parse_or`, `parse_and` and `parse_unary` of `ReferenceConditionParser`, and
-- `reference_conditions_match`, of crates/dv-core/src/project.rs.
use dv.Common.{
  ℕ, zero, suc, Bool, true, false, ◌&&◌, ◌||◌, not, Option, none, some, List, length, all, ltb, ◌-◌,
  ◌==◌, if◌then◌else◌, get_elem?,
}
use dv.Common.Text.{Text, codes, len, is_empty}
use dv.Common.Result.{ok, err}
use dv.Project.{Fallible}
use dv.Project.Condition.{
  ReferenceConditionContext, Parser, Parsed, invalid, unsupported, skip_whitespace, consume_text,
  consume_keyword, parse_comparison, enter_nested, max_bytes, max_depth,
}

-- `?`, where `none` means that the fuel ran out
abbrev pub and_then :
    {A B : Type 0} → Option (Fallible A) → (A → Option (Fallible B)) → Option (Fallible B)
and_then none next = none
and_then (some (err e)) next = some (err e)
and_then (some (ok a)) next = next a

abbrev pub Rule : Type 0
Rule = Parser → Option (Parsed Bool)

-- The loop of `parse_or` and `parse_and`.
unfoldable pub operands : Text → (Bool → Bool → Bool) → Rule → ℕ → Bool → Rule
operands keyword combine item zero value s = none
operands keyword combine item (suc fuel) value s = elim (consume_keyword keyword s) [
  | none ↦ some (ok (value, s))
  | some t ↦
      and_then (item t) (λ (right, u). operands keyword combine item fuel (combine value right) u)
]

abbrev pub chain : Text → (Bool → Bool → Bool) → Rule → Rule
chain keyword combine item s =
    and_then (item s) (λ (value, t). operands keyword combine item (suc (length t.rest)) value t)

abbrev pub parse_and : Rule → Rule
parse_and unary s = chain (codes "And") (λ v w. v && w) unary s

abbrev pub parse_or : Rule → Rule
parse_or unary s = chain (codes "Or") (λ v w. v || w) (parse_and unary) s

-- `self.depth -= 1`
abbrev pub leave : Parser → Parser
leave s = record s { depth = s.depth - 1 }

abbrev pub closed : Bool → Option Parser → Parsed Bool
closed value none = invalid
closed value (some s) = ok (value, s)

abbrev pub nested : Rule → Fallible Parser → Option (Parsed Bool)
nested rule (err e) = some (err e)
nested rule (ok s) = rule s

-- `parse_unary`; the fuel bounds how deep expressions nest
unfoldable pub parse_unary : ReferenceConditionContext → ℕ → Rule
unfolding operands
parse_unary context zero s = none
parse_unary context (suc fuel) s = elim (consume_text (codes "!") (skip_whitespace s)) [
  | some t ↦
      and_then (nested (parse_unary context fuel) (enter_nested t))
        (λ (value, u). some (ok (not value, leave u)))
  | none ↦ elim (consume_text (codes "(") (skip_whitespace s)) [
    | some t ↦
        and_then (nested (parse_or (parse_unary context fuel)) (enter_nested t))
          (λ (value, u). some (closed value (consume_text (codes ")") (skip_whitespace (leave u)))))
    | none ↦ some (parse_comparison context (skip_whitespace s))
  ]
]

abbrev pub is_ascii : Text → Bool
is_ascii s = all (λ c. ltb c 128) s

abbrev started : Text → Parser
started input = record { rest = input; comparisons = 0; depth = 0 }

abbrev pub complete : Bool × Parser → Fallible Bool
complete (value, s) = if is_empty (skip_whitespace s).rest then ok value else unsupported

-- `evaluate`; nothing nests deeper than the nesting limit
unfoldable pub evaluate : ReferenceConditionContext → Text → Option (Fallible Bool)
unfolding parse_unary
evaluate context input =
    if ltb max_bytes (len input)
    then some unsupported
    else if not (is_ascii input)
    then some unsupported
    else and_then (parse_or (parse_unary context (suc max_depth)) (started input))
        (λ r. some (complete r))

-- `RawReferenceConditions`, and `NO_REFERENCE_CONDITION`
pub record RawReferenceConditions : Type 0 where
  pub group : ℕ
  pub item : ℕ

abbrev pub no_reference_condition : ℕ
no_reference_condition = 4294967295

-- what one of the two conditions says; `none` for an index out of range, where the source panics
unfoldable pub condition_holds : ReferenceConditionContext → List Text → ℕ → Option (Fallible Bool)
unfolding evaluate
condition_holds context conditions i =
    if i == no_reference_condition
    then some (ok true)
    else elim (get_elem? conditions i) [ none ↦ none | some condition ↦ evaluate context condition ]

unfoldable pub reference_conditions_match :
    List Text → RawReferenceConditions → ReferenceConditionContext → Option (Fallible Bool)
unfolding condition_holds
reference_conditions_match conditions selected context =
    and_then (condition_holds context conditions selected.group)
      (λ holds. if holds then condition_holds context conditions selected.item else some (ok false))
