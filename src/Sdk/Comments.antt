-- ===== src/Sdk/Comments.antt =====
-- `strip_json_comments` of crates/dv-core/src/sdk.rs, on the bytes of its input. Its two inner loops
-- and the states of the outer loop are the modes of one pass; that the output is UTF-8 again is left
-- out.
pub mod Laws
use dv.Common.{
  ℕ, Bool, true, false, ◌&&◌, ◌||◌, Option, none, some, List, [], ◌∷◌, ◌==◌, if◌then◌else◌,
}

abbrev pub Bytes : Type 0
Bytes = List ℕ

-- Where the pass is: in a string, perhaps after a backslash; in a comment to the end of the line, or in
-- a block comment; or outside of them.
pub data Mode : Type 0 where
  plain in_string escaped line_comment block_comment : Mode

abbrev pub push : ℕ → Option Bytes → Option Bytes
push b none = none
push b (some s) = some (b ∷ s)

abbrev pub blank : ℕ → ℕ
blank b = if b == b'\n' then b'\n' else b' '

-- Are the two bytes at the index `x` and `y`?
unfoldable pub pair_is : ℕ → ℕ → ℕ → ℕ → Bool
pair_is x y b c = b == x && c == y

-- One pass from a mode; `none` is the error for a block comment that is not closed. The line feed
-- that ends a line comment is outside of it.
unfoldable pub strip : Mode → Bytes → Option Bytes
strip block_comment [] = none
strip plain [] = some []
strip in_string [] = some []
strip escaped [] = some []
strip line_comment [] = some []
strip in_string (b ∷ s) = elim (b == b'\\') [
  | true ↦ push b (strip escaped s)
  | false ↦ elim (b == b'"') [ true ↦ push b (strip plain s) | false ↦ push b (strip in_string s) ]
]
strip escaped (b ∷ s) = push b (strip in_string s)
strip line_comment (b ∷ s) = elim (b == b'\n') [
  | true ↦ push b (strip plain s)
  | false ↦ push b' ' (strip line_comment s)
]
strip block_comment (b ∷ []) = none
strip block_comment (b ∷ c ∷ s) = elim (pair_is b'*' b'/' b c) [
  | true ↦ push b' ' (push b' ' (strip plain s))
  | false ↦ push (blank b) (strip block_comment (c ∷ s))
]
strip plain (b ∷ []) = some (b ∷ [])
strip plain (b ∷ c ∷ s) = elim (b == b'"') [
  | true ↦ push b (strip in_string (c ∷ s))
  | false ↦ elim (pair_is b'/' b'/' b c) [
    | true ↦ push b' ' (push b' ' (strip line_comment s))
    | false ↦ elim (pair_is b'/' b'*' b c) [
      | true ↦ push b' ' (push b' ' (strip block_comment s))
      | false ↦ push b (strip plain (c ∷ s))
    ]
  ]
]

-- `strip_json_comments`
unfoldable pub strip_json_comments : Bytes → Option Bytes
unfolding strip pair_is
strip_json_comments input = strip plain input
