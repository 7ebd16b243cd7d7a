-- ===== src/Sdk/Version.antt =====
-- `SdkVersion` of crates/dv-core/src/sdk.rs: parsing and the order.
pub mod Order
use dv.Common.{
  ℕ, zero, suc, ◌+◌, ◌%◌, ◌/◌, ◌^◌, ◌-◌, Bool, true, false, ◌&&◌, ◌||◌, not, Option, none, some,
  List, [], ◌∷◌, Ordering, lt, eq, gt, compare, ltb, leb, ◌==◌, if◌then◌else◌, any, all,
}
use dv.Common.Order.{then_with, list_cmp, none_last}
use dv.Common.Text.{
  Text, len, is_empty, is_digit, is_alphanumeric, text_cmp, split, split_once, slice, drop_bytes,
  take_bytes, starts_with, find_char, parse_uint,
}
use dv.Common.Result.{Result, ok, err, ◌>>=◌, ◌>>◌, reject_if}

-- Of `SdkErrorKind` the one that parsing answers with.
pub data SdkError : Type 0 where
  invalid_version : Text → SdkError

abbrev no_prerelease : ℕ
no_prerelease = 2 ^ 16 - 1

pub record SdkVersion : Type 0 where
  pub text : Text
  pub major : ℕ
  pub minor : ℕ
  pub patch : ℕ
  pub prerelease_start : ℕ
  pub prerelease_end : ℕ

abbrev is_identifier_char : ℕ → Bool
is_identifier_char c = is_alphanumeric c || c == b'-'

-- `validate_identifiers`
unfoldable pub validate_identifiers : Option Text → Text → Result SdkError (Unit {0})
unfolding split
validate_identifiers none value = ok tt
validate_identifiers (some identifiers) value =
    reject_if
      (is_empty identifiers
        || any (λ i. is_empty i || not (all is_identifier_char i)) (split b'.' identifiers))
      (invalid_version value)

abbrev leading_zero : Text → Bool
leading_zero part = ltb 1 (len part) && starts_with part (b'0' ∷ [])

abbrev number_of : Option ℕ → Text → Result SdkError ℕ
number_of none value = err (invalid_version value)
number_of (some n) value = ok n

-- `parse_numeric_part`
unfoldable pub parse_numeric_part : Option Text → Text → Result SdkError ℕ
unfolding starts_with parse_uint
parse_numeric_part none value = err (invalid_version value)
parse_numeric_part (some part) value =
    if is_empty part || (leading_zero part || not (all is_digit part))
    then err (invalid_version value)
    else number_of (parse_uint (2 ^ 32 - 1) part) value

-- `parts.next()`
abbrev nth : ℕ → List Text → Option Text
nth n [] = none
nth zero (p ∷ ps) = some p
nth (suc n) (p ∷ ps) = nth n ps

abbrev precedence_end : Text → ℕ
precedence_end value = elim (find_char b'+' value) [ none ↦ len value | some i ↦ i ]

-- `value.get(precedence_end + 1..)`: nothing where the range starts past the end
abbrev build_metadata : Text → Option Text
build_metadata value = elim (find_char b'+' value) [
  | none ↦ none
  | some i ↦ some (drop_bytes (i + 1) value)
]

-- the text before the first `-`, and the label after it, which may not be empty
abbrev label_of : Option (Text × Text) → Text → Text → Result SdkError (Text × Option Text)
label_of none precedence value = ok (precedence, none)
label_of (some (numbers, label)) precedence value =
    if is_empty label then err (invalid_version value) else ok (numbers, some label)

-- The label is a slice of the text: it starts behind the numbers and the `-`.
abbrev prerelease_span : Text → Option Text → ℕ × ℕ
prerelease_span numbers none = (no_prerelease, no_prerelease)
prerelease_span numbers (some label) =
    ((len numbers + 1) % 2 ^ 16, (len numbers + 1 + len label) % 2 ^ 16)

-- `SdkVersion::parse_boxed`, which `parse` and `parse_owned` call
unfoldable pub parse : Text → Result SdkError SdkVersion
unfolding validate_identifiers parse_numeric_part split_once find_char take_bytes drop_bytes
parse value = do
  reject_if (is_empty value || leb no_prerelease (len value)) (invalid_version value)
  (numbers, prerelease) ←
      label_of (split_once b'-' (take_bytes (precedence_end value) value))
        (take_bytes (precedence_end value) value) value
  validate_identifiers prerelease value
  validate_identifiers (build_metadata value) value
  major ← parse_numeric_part (nth 0 (split b'.' numbers)) value
  minor ← parse_numeric_part (nth 1 (split b'.' numbers)) value
  patch ← parse_numeric_part (nth 2 (split b'.' numbers)) value
  reject_if (elim (nth 3 (split b'.' numbers)) [ none ↦ false | some p ↦ true ])
      (invalid_version value)
  ok (record {
    text = value;
    major = major;
    minor = minor;
    patch = patch;
    prerelease_start = (prerelease_span numbers prerelease).0;
    prerelease_end = (prerelease_span numbers prerelease).1;
  })

unfoldable pub feature_band : SdkVersion → ℕ
feature_band v = v.patch / 100

unfoldable pub patch_level : SdkVersion → ℕ
patch_level v = v.patch % 100

unfoldable pub is_prerelease : SdkVersion → Bool
is_prerelease v = not (v.prerelease_start == no_prerelease)

unfoldable pub prerelease : SdkVersion → Option Text
unfolding is_prerelease take_bytes drop_bytes
prerelease v =
    if is_prerelease v then some (slice v.prerelease_start v.prerelease_end v.text) else none

-- `same_feature_band`
unfoldable pub same_feature_band : SdkVersion → SdkVersion → Bool
unfolding feature_band
same_feature_band a b =
    a.major == b.major && (a.minor == b.minor && feature_band a == feature_band b)

-- the comparison of two identifiers in the loop of `compare_prerelease`
unfoldable pub identifier_cmp : Text → Text → Ordering
identifier_cmp left right =
    if all is_digit left
    then (if all is_digit right
        then then_with (compare (len left) (len right)) (text_cmp left right)
        else lt)
    else if all is_digit right
    then gt
    else text_cmp left right

-- `compare_prerelease`
unfoldable pub compare_prerelease : Option Text → Option Text → Ordering
unfolding identifier_cmp
compare_prerelease = none_last (λ l r. list_cmp identifier_cmp (split b'.' l) (split b'.' r))

-- `Ord::cmp` of `SdkVersion`
unfoldable pub cmp : SdkVersion → SdkVersion → Ordering
unfolding compare_prerelease prerelease
cmp a b = then_with (compare a.major b.major) (
    then_with (compare a.minor b.minor)
      (then_with (compare a.patch b.patch) (compare_prerelease (prerelease a) (prerelease b))))
