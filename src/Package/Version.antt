-- ===== src/Package/Version.antt =====
-- `PackageVersion` of crates/dv-core/src/package.rs: parsing, the normalized text, and the order.
pub mod Chars
pub mod Order
pub mod Parse
pub mod RoundTrip
use dv.Common.{
  ℕ, zero, suc, ◌+◌, ◌%◌, ◌^◌, ◌-◌, Bool, true, false, ◌&&◌, ◌||◌, not, Option, none, some, List,
  [], ◌∷◌, ◌++◌, Ordering, lt, eq, gt, compare, ltb, leb, ◌==◌, if◌then◌else◌, any, all, length,
}
use dv.Common.Order.{then_with, list_cmp, none_last}
use dv.Common.Text.{
  Text, len, is_empty, is_digit, is_alphanumeric, to_lowercase, text_cmp, split, split_once,
  trim_start, drop_bytes, parse_uint,
}
use dv.Common.Decimal.{show}
use dv.Common.Result.{Result, ok, err, ◌>>=◌, ◌>>◌, reject_if}
use dv.Package.Error.{PackageError, Fallible, resolution_error}

abbrev pub u32_max : ℕ
u32_max = 2 ^ 32 - 1

-- `[u32; 4]`
pub record Numbers : Type 0 where
  pub major : ℕ
  pub minor : ℕ
  pub patch : ℕ
  pub revision : ℕ

pub record PackageVersion : Type 0 where
  pub normalized : Text
  pub numbers : Numbers
  pub prerelease_start : Option ℕ

-- `numbers[index] = value`
abbrev set_number : Numbers → ℕ → ℕ → Numbers
set_number ns zero v = record ns { major = v }
set_number ns (suc zero) v = record ns { minor = v }
set_number ns (suc (suc zero)) v = record ns { patch = v }
set_number ns (suc (suc (suc zero))) v = record ns { revision = v }
set_number ns _ v = ns

-- a part of a prerelease label or of build metadata
abbrev pub is_label_char : ℕ → Bool
is_label_char c = is_alphanumeric c || c == b'-'

unfoldable pub invalid_label : Text → Bool
unfolding split
invalid_label value =
    is_empty value || any (λ part. is_empty part || not (all is_label_char part)) (split b'.' value)

abbrev pub is_some_and {ℓ} : {A : Type ℓ} → Option A → (A → Bool) → Bool
is_some_and none p = false
is_some_and (some a) p = p a

-- `value.split_once(sep).map_or((value, None), …)`
unfoldable pub cut : ℕ → Text → Text × Option Text
unfolding split_once
cut sep value = elim (split_once sep value) [
  | none ↦ (value, none)
  | some (before, after) ↦ (before, some after)
]

-- the loop over the numeric parts; the result holds their count
unfoldable pub read_numbers : PackageError → Numbers → ℕ → List Text → Fallible (Numbers × ℕ)
read_numbers e ns i [] = ok (ns, i)
read_numbers e ns i (part ∷ parts) = elim (leb 4 i) [
  | true ↦ err e
  | false ↦ elim (parse_uint u32_max part) [
    | none ↦ err e
    | some n ↦ read_numbers e (set_number ns i n) (i + 1) parts
  ]
]

unfoldable pub normalized_numbers : Numbers → Text
normalized_numbers ns =
    show ns.major
    ++ (b'.'
        ∷ (show ns.minor
            ++ (b'.'
                ∷ (show ns.patch ++ (if ns.revision == 0 then [] else b'.' ∷ show ns.revision)))))

abbrev pub no_numbers : Numbers
no_numbers = record { major = 0; minor = 0; patch = 0; revision = 0 }

-- the value that the parsed parts are assembled into
unfoldable pub assemble : Numbers → Option Text → PackageVersion
unfolding normalized_numbers
assemble ns none = record {
  normalized = normalized_numbers ns;
  numbers = ns;
  prerelease_start = none;
}
assemble ns (some label) =
    let start = normalized_numbers ns ++ (b'-' ∷ []) in
    record {
      normalized = start ++ to_lowercase label;
      numbers = ns;
      prerelease_start = some (len start % 2 ^ 32);
    }

-- `PackageVersion::parse`. Every rejection is a resolution error with the text as its context.
unfoldable pub parse : Text → Fallible PackageVersion
unfolding cut invalid_label read_numbers assemble
parse value =
    let e = resolution_error value in
    let (precedence, metadata) = cut b'+' value in
    let (numbers_text, label) = cut b'-' precedence in
    do
      reject_if (is_empty value || ltb 256 (len value)) e
      reject_if (is_some_and metadata invalid_label) e
      reject_if (is_some_and label invalid_label) e
      (numbers, count) ← read_numbers e no_numbers 0 (split b'.' numbers_text)
      reject_if (count == 0) e
      ok (assemble numbers label)

-- `PackageVersion::prerelease`
unfoldable pub prerelease : PackageVersion → Option Text
prerelease v = elim v.prerelease_start [
  | none ↦ none
  | some start ↦ some (drop_bytes start v.normalized)
]

-- the derived order of `[u32; 4]`
unfoldable pub numbers_cmp : Numbers → Numbers → Ordering
numbers_cmp a b = then_with (compare a.major b.major) (
    then_with (compare a.minor b.minor)
      (then_with (compare a.patch b.patch) (compare a.revision b.revision)))

abbrev pub trim_zeros : Text → Text
trim_zeros = trim_start (λ c. c == b'0')

-- `compare_prerelease_part`
unfoldable pub part_cmp : Text → Text → Ordering
part_cmp left right =
    if all is_digit left
    then (if all is_digit right
        then then_with (compare (len (trim_zeros left)) (len (trim_zeros right)))
            (text_cmp (trim_zeros left) (trim_zeros right))
        else lt)
    else if all is_digit right
    then gt
    else text_cmp left right

-- `compare_prerelease`: the loop walks the parts side by side, and a missing label is the greatest.
unfoldable pub prerelease_cmp : Option Text → Option Text → Ordering
unfolding part_cmp
prerelease_cmp = none_last (λ l r. list_cmp part_cmp (split b'.' l) (split b'.' r))

-- `Ord::cmp` of `PackageVersion`; its `PartialEq` is that `cmp` answers `Equal`.
unfoldable pub cmp : PackageVersion → PackageVersion → Ordering
unfolding numbers_cmp prerelease_cmp prerelease
cmp a b = then_with (numbers_cmp a.numbers b.numbers) (prerelease_cmp (prerelease a) (prerelease b))
