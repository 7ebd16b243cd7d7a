-- ===== src/Package/Glob.antt =====
-- The glob patterns of content files, of crates/dv-core/src/package.rs. A text is a list of bytes, and
-- an offset into one is the rest of it from there on.
pub mod Component
pub mod Literal
pub mod Matches
pub mod Progress
use dv.Common.{
  ℕ, zero, suc, ◌+◌, ◌*◌, Bool, true, false, ◌&&◌, ◌||◌, Option, none, some, List, [], ◌∷◌, ◌==◌,
  all, length,
}
use dv.Common.Text.{to_lower, text_eq}

abbrev pub Bytes : Type 0
Bytes = List ℕ

-- where to go on after a mismatch: behind the last star, and at the byte it last gave up
abbrev pub Star : Type 0
Star = Option (Bytes × Bytes)

-- Does the byte of the pattern stand for the byte of the value?
unfoldable pub stands_for : ℕ → ℕ → Bool
unfolding to_lower
stands_for p v = p == b'?' || to_lower p == to_lower v

-- `star_value += 1`: the next rest of the value
abbrev pub given_up : Star → Option (Bytes × Bytes)
given_up none = none
given_up (some (after, [])) = none
given_up (some (after, v ∷ value)) = some (after, value)

-- The loop of `glob_component_matches`, for the rests of pattern and value; `none` means that the fuel
-- ran out.
unfoldable pub component_loop : ℕ → Bytes → Bytes → Star → Option Bool
unfolding stands_for
component_loop zero pattern value star = none
component_loop (suc fuel) pattern [] star = some (all (λ p. p == b'*') pattern)
component_loop (suc fuel) [] (v ∷ value) star = elim (given_up star) [
  | none ↦ some false
  | some (after, rest) ↦ component_loop fuel after rest (some (after, rest))
]
component_loop (suc fuel) (p ∷ pattern) (v ∷ value) star = elim (stands_for p v) [
  | true ↦ component_loop fuel pattern value star
  | false ↦ elim (p == b'*') [
    | true ↦ component_loop fuel pattern (v ∷ value) (some (pattern, v ∷ value))
    | false ↦ elim (given_up star) [
      | none ↦ some false
      | some (after, rest) ↦ component_loop fuel after rest (some (after, rest))
    ]
  ]
]

-- `glob_component_matches`: a star gives up each byte of the value once at most, and between that every
-- round takes a byte of the pattern.
unfoldable pub glob_component_matches : Bytes → Bytes → Option Bool
unfolding component_loop
glob_component_matches pattern value =
    component_loop ((length pattern + 2) * (length value + 2)) pattern value none

abbrev is_separator : ℕ → Bool
is_separator b = b == b'/' || b == b'\\'

unfoldable pub skip_separators : Bytes → Bytes
skip_separators [] = []
skip_separators (b ∷ s) = elim (is_separator b) [ true ↦ skip_separators s | false ↦ b ∷ s ]

unfoldable pub segment : Bytes → Bytes × Bytes
unfolding skip_separators
segment [] = ([], [])
segment (b ∷ s) = elim (is_separator b) [
  | true ↦ ([], skip_separators s)
  | false ↦ let (name, rest) = segment s in (b ∷ name, rest)
]

-- `next_path_segment`
unfoldable pub next_path_segment : Bytes → Option (Bytes × Bytes)
unfolding segment
next_path_segment [] = none
next_path_segment (b ∷ s) = some (segment (b ∷ s))

-- `recursive_pattern`, and the rest of the path from which it goes on
abbrev Recursive : Type 0
Recursive = Option Bytes × Bytes

abbrev is_recursive : Bytes → Bool
is_recursive name = text_eq name (b'*' ∷ b'*' ∷ [])

-- the last arm: go on behind the last `**`, with a segment less of the path
abbrev retry : (Bytes → Bytes → Recursive → Option Bool) → Recursive → Option Bool
retry loop (none, from) = some false
retry loop (some rest, from) = elim (next_path_segment from) [
  | none ↦ some false
  | some (name, next) ↦ loop rest next (some rest, next)
]

-- The loop of `glob_path_matches`; `none` means that the fuel ran out, here or in the match of a
-- component.
unfoldable pub path_loop : ℕ → Bytes → Bytes → Recursive → Option Bool
unfolding next_path_segment glob_component_matches
path_loop zero pattern path r = none
path_loop (suc fuel) pattern path (after, from) = elim (next_path_segment pattern) [
  | none ↦ elim (next_path_segment path) [
    | none ↦ some true
    | some s ↦ retry (λ p q r. path_loop fuel p q r) (after, from)
  ]
  | some (p, next_pattern) ↦ elim (is_recursive p) [
    | true ↦ path_loop fuel next_pattern path (some next_pattern, path)
    | false ↦ elim (next_path_segment path) [
      | none ↦ retry (λ p q r. path_loop fuel p q r) (after, from)
      | some (name, next_path) ↦ elim (glob_component_matches p name) [
        | none ↦ none
        | some true ↦ path_loop fuel next_pattern next_path (after, from)
        | some false ↦ retry (λ p q r. path_loop fuel p q r) (after, from)
      ]
    ]
  ]
]

-- `glob_path_matches`
unfoldable pub glob_path_matches : Bytes → Bytes → Option Bool
unfolding path_loop
glob_path_matches pattern path =
    path_loop ((length pattern + 2) * (length path + 2)) pattern path (none, path)
