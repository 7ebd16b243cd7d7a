-- ===== src/Common/Text.antt =====
-- Text as the source's `&str` sees it: a sequence of Unicode scalar values. Lengths and offsets
-- that the source counts in bytes are UTF-8 lengths here.
use Prim.Native.Nat.{ℕ, ◌+◌, ◌-◌, ◌*◌, ◌≤◌, compare, Ordering}
use Prim.Native.Char.{code}
use Prim.Native.String.{String}
use mathlib.Core.Path.{◌≡◌, refl}
use mathlib.Core.Bool.{Bool, true, false, ◌&&◌, ◌||◌}
use mathlib.Core.List.{List, [], ◌∷◌, map, reverse}
use mathlib.Core.Option
use mathlib.Core.Option.{Option, none, some}
use native.Mathlib.Omega.{arith}
use dv.Common.Tests.{ltb, leb, ◌==◌, if◌then◌else◌}
use dv.Common.Lists.{any}
use dv.Common.Order.{list_cmp, IsOrder, compare-IsOrder, list_cmp-IsOrder}

abbrev pub Text : Type 0
Text = List ℕ

-- The scalar values of a literal.
abbrev pub codes : String → Text
codes String.[] = []
codes (String.◌∷◌ c s) = code c ∷ codes s

-- `char::len_utf8` and `str::len`
abbrev pub utf8_len : ℕ → ℕ
utf8_len c = if ltb c 0x80 then 1 else if ltb c 0x800 then 2 else if ltb c 0x1_0000 then 3 else 4

abbrev pub len : Text → ℕ
len [] = 0
len (c ∷ s) = utf8_len c + len s

abbrev pub is_empty : Text → Bool
is_empty [] = true
is_empty (c ∷ s) = false

abbrev pub is_digit : ℕ → Bool
is_digit c = leb b'0' c && leb c b'9'

abbrev pub is_upper : ℕ → Bool
is_upper c = leb b'A' c && leb c b'Z'

abbrev pub is_lower : ℕ → Bool
is_lower c = leb b'a' c && leb c b'z'

-- `u8::is_ascii_alphanumeric`; every byte of a scalar value past ASCII fails it.
abbrev pub is_alphanumeric : ℕ → Bool
is_alphanumeric c = is_digit c || is_upper c || is_lower c

-- `char::is_whitespace`: the Unicode property White_Space
abbrev pub is_whitespace : ℕ → Bool
is_whitespace c =
    leb 9 c && leb c 13
    || c == 32
    || c == 0x85
    || c == 0xa0
    || c == 0x1680
    || leb 0x2000 c && leb c 0x200a
    || c == 0x2028
    || c == 0x2029
    || c == 0x202f
    || c == 0x205f
    || c == 0x3000

-- `str::to_ascii_lowercase`
unfoldable pub to_lower : ℕ → ℕ
to_lower c = if is_upper c then c + 32 else c

unfoldable pub to_lowercase : Text → Text
unfolding to_lower
to_lowercase s = map to_lower s

-- `str` compares by bytes, which for UTF-8 is the order of the scalar values.
abbrev pub text_cmp : Text → Text → Ordering
text_cmp = list_cmp compare

pub text_cmp-IsOrder : IsOrder text_cmp
text_cmp-IsOrder = list_cmp-IsOrder compare compare-IsOrder

unfoldable pub text_eq : Text → Text → Bool
text_eq [] [] = true
text_eq (c ∷ s) (d ∷ t) = c == d && text_eq s t
text_eq _ _ = false

-- `str::eq_ignore_ascii_case`
unfoldable pub eq_ignore_case : Text → Text → Bool
unfolding to_lower
eq_ignore_case [] [] = true
eq_ignore_case (c ∷ s) (d ∷ t) = to_lower c == to_lower d && eq_ignore_case s t
eq_ignore_case _ _ = false

unfoldable pub starts_with : Text → Text → Bool
starts_with s [] = true
starts_with [] (c ∷ p) = false
starts_with (d ∷ s) (c ∷ p) = d == c && starts_with s p

-- `str::strip_prefix`
unfoldable pub strip_prefix : Text → Text → Option Text
strip_prefix s [] = some s
strip_prefix [] (c ∷ p) = none
strip_prefix (d ∷ s) (c ∷ p) = if d == c then strip_prefix s p else none

-- `str::contains` with a character
abbrev pub contains : Text → ℕ → Bool
contains s c = any (λ d. d == c) s

-- `str::split` at a character: there is always one part.
abbrev pub push_head : ℕ → List Text → List Text
push_head c [] = (c ∷ []) ∷ []
push_head c (p ∷ ps) = (c ∷ p) ∷ ps

unfoldable pub split : ℕ → Text → List Text
split sep [] = [] ∷ []
split sep (c ∷ s) = let rest = split sep s in if c == sep then [] ∷ rest else push_head c rest

-- `str::split_once` at a character
unfoldable pub split_once : ℕ → Text → Option (Text × Text)
split_once sep [] = none
split_once sep (c ∷ s) =
    if c == sep then some ([], s) else Option.map (λ p. (c ∷ p.0, p.1)) (split_once sep s)

-- `str::trim_start_matches`, `str::trim`
unfoldable pub trim_start : (ℕ → Bool) → Text → Text
trim_start p [] = []
trim_start p (c ∷ s) = if p c then trim_start p s else c ∷ s

unfoldable pub trim : Text → Text
unfolding trim_start
trim s = reverse (trim_start is_whitespace (reverse (trim_start is_whitespace s)))

-- `&s[..n]` and `&s[n..]` at a byte offset that is a character boundary
unfoldable pub take_bytes : ℕ → Text → Text
take_bytes n [] = []
take_bytes n (c ∷ s) = if leb (utf8_len c) n then c ∷ take_bytes (n - utf8_len c) s else []

unfoldable pub drop_bytes : ℕ → Text → Text
drop_bytes n [] = []
drop_bytes n (c ∷ s) = if n == 0 then c ∷ s else drop_bytes (n - utf8_len c) s

-- `&s[a..b]`
abbrev pub slice : ℕ → ℕ → Text → Text
slice a b s = drop_bytes a (take_bytes b s)

-- `str::find` and `str::rfind` of a character: byte offsets
unfoldable pub find_char : ℕ → Text → Option ℕ
find_char c [] = none
find_char c (d ∷ s) = if d == c then some 0 else Option.map (λ i. i + utf8_len d) (find_char c s)

unfoldable pub rfind_char : ℕ → Text → Option ℕ
rfind_char c [] = none
rfind_char c (d ∷ s) = elim (rfind_char c s) [
  | some i ↦ some (i + utf8_len d)
  | none ↦ if d == c then some 0 else none
]

-- `str::ends_with` a character
unfoldable pub ends_with : Text → ℕ → Bool
ends_with [] c = false
ends_with (d ∷ []) c = d == c
ends_with (d ∷ e ∷ s) c = ends_with (e ∷ s) c

-- `s.bytes().filter(|byte| *byte == c).count()`
unfoldable pub count_char : ℕ → Text → ℕ
count_char c [] = 0
count_char c (d ∷ s) = let rest = count_char c s in if d == c then rest + 1 else rest

-- `str::parse` into an unsigned integer type with the given greatest value: an optional `+`, then
-- at least one digit, with every intermediate value in range.
unfoldable pub parse_digits : ℕ → ℕ → Text → Option ℕ
parse_digits top n [] = some n
parse_digits top n (c ∷ s) =
    let next = n * 10 + (c - b'0') in
    if is_digit c && leb next top then parse_digits top next s else none

abbrev parse_unsigned : ℕ → Text → Option ℕ
parse_unsigned top [] = none
parse_unsigned top (c ∷ s) = parse_digits top 0 (c ∷ s)

unfoldable pub parse_uint : ℕ → Text → Option ℕ
unfolding parse_digits
parse_uint top [] = none
parse_uint top (c ∷ s) = if c == b'+' then parse_unsigned top s else parse_digits top 0 (c ∷ s)

pub parse_digits_bound :
    (top n : ℕ) (s : Text) (r : ℕ) → n ≤ top → parse_digits top n s ≡ some r → r ≤ top
unfolding parse_digits
parse_digits_bound top n [] r h e = ground arith
parse_digits_bound top n (c ∷ s) r h e =
    ground (arith, parse_digits_bound top (n * 10 + (c - b'0')) s r)

parse_unsigned_bound : (top : ℕ) (s : Text) (r : ℕ) → parse_unsigned top s ≡ some r → r ≤ top
parse_unsigned_bound top [] r e = cc
parse_unsigned_bound top (c ∷ s) r e = parse_digits_bound top 0 (c ∷ s) r (omega arith) e

-- A number that is read fits the type that it is read into.
pub parse_uint_bound : (top : ℕ) (s : Text) (r : ℕ) → parse_uint top s ≡ some r → r ≤ top
unfolding parse_uint
parse_uint_bound top [] r e = cc
parse_uint_bound top (c ∷ s) r e =
    ground (arith, parse_digits_bound top 0 (c ∷ s) r, parse_unsigned_bound top s r)

parse_uint_tests :
    (parse_uint 65535 (codes "65535") ≡ some 65535)
    × (parse_uint 65535 (codes "65536") ≡ none)
    × (parse_uint 65535 (codes "+5") ≡ some 5)
    × (parse_uint 65535 (codes "+") ≡ none)
    × (parse_uint 65535 [] ≡ none)
unfolding parse_uint
parse_uint_tests = (refl, refl, refl, refl, refl)
