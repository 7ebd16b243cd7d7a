-- ===== src/Project/Condition.antt =====
-- `ReferenceConditionParser` of crates/dv-core/src/project.rs. The position in the text is kept as the
-- text from there on. The outer option of a result is `none` where the fuel ran out.
pub mod Evaluation
pub mod Left
pub mod Ends
pub mod Grammar
pub mod Compare
pub mod Loops
pub mod Meaning
use dv.Common.{
  ℕ, zero, suc, ◌+◌, ◌≡◌, Bool, true, false, ◌&&◌, ◌||◌, not, Option, none, some, List, [], ◌∷◌,
  ◌++◌, reverse, length, take, drop, all, ltb, leb, ◌==◌, if◌then◌else◌,
}
use dv.Common.Text.{
  Text, codes, len, eq_ignore_case, starts_with, strip_prefix, split_once, is_alphanumeric,
  trim_start,
}
use dv.Common.Result.{Result, ok, err, ◌>>=◌}
use dv.Project.{ProjectErrorKind, Fallible, has_reference}

abbrev pub max_bytes : ℕ
max_bytes = 1024

abbrev pub max_operators : ℕ
max_operators = 32

abbrev pub max_depth : ℕ
max_depth = 8

pub record ReferenceConditionContext : Type 0 where
  pub target_framework : Text
  pub runtime_identifier : Option Text
  pub configuration : Text

-- `ReferenceConditionParser`, whose `rest` is the input from `position` on
pub record Parser : Type 0 where
  pub rest : Text
  pub comparisons : ℕ
  pub depth : ℕ

abbrev pub Parsed : Type 0 → Type 0
Parsed A = Fallible (A × Parser)

abbrev pub invalid {ℓ} : {A : Type ℓ} → Fallible A
invalid = err ProjectErrorKind.invalid_property

abbrev pub unsupported {ℓ} : {A : Type ℓ} → Fallible A
unsupported = err ProjectErrorKind.unsupported

-- `u8::is_ascii_whitespace`
abbrev pub is_space : ℕ → Bool
is_space c = c == 9 || c == 10 || c == 12 || c == 13 || c == 32

abbrev pub moved : Parser → Text → Parser
moved s rest = record s { rest = rest }

abbrev pub skip_whitespace : Parser → Parser
skip_whitespace s = moved s (trim_start is_space s.rest)

abbrev pub after : Parser → Option Text → Option Parser
after s none = none
after s (some rest) = some (moved s rest)

-- `consume_byte` and `consume_text`: `none` is `false`, which consumes nothing
abbrev pub consume_text : Text → Parser → Option Parser
consume_text value s = after s (strip_prefix s.rest value)

-- `is_none_or`: no byte that would go on with the word
abbrev pub word_ends : Text → Bool
word_ends [] = true
word_ends (c ∷ s) = not (is_alphanumeric c) && not (c == b'_')

unfoldable pub consume_keyword : Text → Parser → Option Parser
consume_keyword keyword s =
    let r = trim_start is_space s.rest in
    if eq_ignore_case (take (length keyword) r) keyword && word_ends (drop (length keyword) r)
    then some (moved s (drop (length keyword) r))
    else none

unfoldable pub property_value : ReferenceConditionContext → Text → Fallible Text
property_value context property =
    if eq_ignore_case property (codes "TargetFramework")
    then ok context.target_framework
    else if eq_ignore_case property (codes "RuntimeIdentifier")
    then ok (elim context.runtime_identifier [ none ↦ [] | some rid ↦ rid ])
    else if eq_ignore_case property (codes "Configuration")
    then ok context.configuration
    else unsupported

-- Where a pass over a value with property references stands: outside, before the parenthesis, or in
-- the name of a property, which is kept in reverse.
pub data Mode : Type 0 where
  outside : Mode
  opening : Mode
  inside : Text → Mode

abbrev pub joined : Text → Fallible Text → Fallible Text
joined s rest = rest >>= λ t. ok (s ++ t)

-- the loop of `expand_operand`
unfoldable pub expand : ReferenceConditionContext → Mode → Text → Fallible Text
unfolding starts_with
expand context outside [] = ok []
expand context outside (c ∷ s) = elim (starts_with (c ∷ s) (codes "$(")) [
  | true ↦ expand context opening s
  | false ↦ joined (c ∷ []) (expand context outside s)
]
expand context opening [] = invalid
expand context opening (c ∷ s) = expand context (inside []) s
expand context (inside name) [] = invalid
expand context (inside name) (c ∷ s) = elim (c == b')') [
  | true ↦ property_value context (reverse name) >>= λ v. joined v (expand context outside s)
  | false ↦ expand context (inside (c ∷ name)) s
]

abbrev whole_name : Option (Text × Text) → Option Text
whole_name none = none
whole_name (some (name, [])) = some name
whole_name (some (name, c ∷ s)) = none

-- the name, where the whole value is one reference
abbrev pub single : Option Text → Option Text
single none = none
single (some s) = whole_name (split_once b')' s)

abbrev expanded : ReferenceConditionContext → Text → Option Text → Fallible Text
expanded context value (some name) = property_value context name
expanded context value none = expand context outside value

unfoldable pub expand_operand : ReferenceConditionContext → Text → Fallible Text
unfolding expand has_reference
expand_operand context value =
    if has_reference value
    then expanded context value (single (strip_prefix value (codes "$(")))
    else ok value

-- An operand without quotes: the value and what follows it; `none` where a reference does not end.
abbrev ends_operand : ℕ → Bool
ends_operand c = is_space c || c == b'(' || c == b')' || c == b'!' || c == b'='

abbrev pushed : ℕ → Option (Text × Text) → Option (Text × Text)
pushed c none = none
pushed c (some (value, rest)) = some (c ∷ value, rest)

unfoldable pub scan : Mode → Text → Option (Text × Text)
unfolding starts_with
scan outside [] = some ([], [])
scan outside (c ∷ s) = elim (starts_with (c ∷ s) (codes "$(")) [
  | true ↦ pushed c (scan opening s)
  | false ↦ elim (ends_operand c) [ true ↦ some ([], c ∷ s) | false ↦ pushed c (scan outside s) ]
]
scan opening [] = none
scan opening (c ∷ s) = pushed c (scan (inside []) s)
scan (inside name) [] = none
scan (inside name) (c ∷ s) = elim (c == b')') [
  | true ↦ pushed c (scan outside s)
  | false ↦ pushed c (scan (inside name) s)
]

abbrev quoted : Option (Text × Text) → Fallible (Text × Text)
quoted none = invalid
quoted (some p) = ok p

abbrev bare : Option (Text × Text) → Fallible (Text × Text)
bare none = invalid
bare (some ([], rest)) = invalid
bare (some (c ∷ value, rest)) = ok (c ∷ value, rest)

-- the value of an operand as it is written, and what follows it
unfoldable pub raw_operand : Text → Fallible (Text × Text)
unfolding scan
raw_operand [] = invalid
raw_operand (c ∷ s) =
    if c == b'\'' || c == b'"' then quoted (split_once c s) else bare (scan outside (c ∷ s))

unfoldable pub parse_operand : ReferenceConditionContext → Parser → Parsed Text
unfolding raw_operand expand_operand
parse_operand context s = raw_operand (skip_whitespace s).rest >>= λ (value, rest).
    expand_operand context value >>= λ text. ok (text, moved s rest)

-- `==` or `!=`, with the state after it
abbrev operator : Parser → Option (Bool × Parser)
operator s = elim (consume_text (codes "==") s) [
  | some t ↦ some (true, t)
  | none ↦ elim (consume_text (codes "!=") s) [ some t ↦ some (false, t) | none ↦ none ]
]

abbrev lone : Text → Parser → Parsed Bool
lone left s =
    if eq_ignore_case left (codes "true")
    then ok (true, s)
    else if eq_ignore_case left (codes "false")
    then ok (false, s)
    else unsupported

abbrev matching : Bool → Bool → Bool
matching equal matches = if equal then matches else not matches

abbrev compared : ReferenceConditionContext → Text → Parser → Option (Bool × Parser) → Parsed Bool
compared context left s none = lone left s
compared context left s (some (equal, t)) =
    parse_operand context t >>= λ (right, u). ok (matching equal (eq_ignore_case left right), u)

unfoldable pub parse_comparison : ReferenceConditionContext → Parser → Parsed Bool
unfolding parse_operand
parse_comparison context s =
    if s.comparisons == max_operators
    then unsupported
    else parse_operand context (record s { comparisons = s.comparisons + 1 }) >>= λ (left, t).
        compared context left (skip_whitespace t) (operator (skip_whitespace t))

abbrev pub enter_nested : Parser → Fallible Parser
enter_nested s = if s.depth == max_depth then unsupported else ok (record s { depth = s.depth + 1 })
