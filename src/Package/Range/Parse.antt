-- ===== src/Package/Range/Parse.antt =====
-- `VersionRange::parse`, `parse_version_bound` and `parse_floating_version` of
-- crates/dv-core/src/package.rs. Offsets are byte offsets.
use dv.Common.{
  ℕ, ◌+◌, ◌-◌, Bool, true, false, ◌&&◌, ◌||◌, not, Option, none, some, [], ◌∷◌, ◌++◌, ltb, ◌==◌,
  if◌then◌else◌,
}
use dv.Common.Text.{
  Text, codes, len, is_empty, text_eq, contains as holds, starts_with, ends_with, trim, slice,
  take_bytes, find_char, rfind_char, count_char, split_once,
}
use dv.Common.Result.{ok, err, ◌>>=◌, ◌>>◌, reject_if, ok_or, map_err}
use dv.Package.Error.{PackageError, Fallible, resolution_error}
use dv.Package.Version.{PackageVersion, parse as parse_version, prerelease, cmp}
use dv.Package.Range.{
  VersionFloatBehavior, fixed, prerelease_floats, revision, patch, minor, major, absolute_latest,
  prerelease_revision, prerelease_patch, prerelease_minor, prerelease_major, VersionBound, bound,
  floating_bound, VersionRange, is_gt, is_eq,
}

abbrev Floating : Type 0
Floating = PackageVersion × VersionFloatBehavior × ℕ

-- `unsupported_version_range`
abbrev pub unsupported_version_range : Text → PackageError
unsupported_version_range value = resolution_error value

-- an offset that the source expects to be there
abbrev offset : Option ℕ → ℕ
offset none = 0
offset (some i) = i

-- the two tables from the number of numeric parts to a behaviour
abbrev two_star_behavior : ℕ → Option VersionFloatBehavior
two_star_behavior n =
    if n == 1
    then some prerelease_major
    else if n == 2
    then some prerelease_minor
    else if n == 3
    then some prerelease_patch
    else if n == 4
    then some prerelease_revision
    else none

abbrev one_star_behavior : ℕ → Option VersionFloatBehavior
one_star_behavior n =
    if n == 1
    then some fixed
    else if n == 2
    then some minor
    else if n == 3
    then some patch
    else if n == 4
    then some revision
    else none

abbrev parse_or_unsupported : Text → Text → Fallible PackageVersion
parse_or_unsupported value actual =
    map_err (λ _. unsupported_version_range value) (parse_version actual)

abbrev padded : Text → Text
padded prefix = if is_empty prefix || ends_with prefix b'.' then prefix ++ (b'0' ∷ []) else prefix

-- a wildcard in the numbers and one in the label
unfoldable pub parse_two_stars : Text → ℕ → ℕ → Fallible Floating
parse_two_stars value first last =
    let e = unsupported_version_range value in
    let numeric = take_bytes first value ++ (b'0' ∷ []) in
    do
      dash ← ok_or (find_char b'-' value) e
      reject_if (not (first + 1 == dash) || not (last + 1 == len value)) e
      behavior ← ok_or (two_star_behavior (count_char b'.' numeric + 1)) e
      let prefix = slice (dash + 1) last value
      version ← parse_or_unsupported value (numeric ++ (b'-' ∷ padded prefix))
      ok (version, behavior, len prefix)

abbrev label_len : PackageVersion → ℕ
label_len v = elim (prerelease v) [ none ↦ 0 | some label ↦ len label ]

-- one wildcard, at the end of the label
unfoldable pub parse_label_star : Text → ℕ → ℕ → Fallible Floating
parse_label_star value dash last =
    let explicit = dash == offset (rfind_char b'-' value) in
    let prefix = slice (dash + 1) last value in
    let actual = take_bytes last value in
    let zero_needed = explicit && (is_empty prefix || ends_with prefix b'.') in
    do
      version ← parse_or_unsupported value (if zero_needed then actual ++ (b'0' ∷ []) else actual)
      ok (version, prerelease_floats, if explicit then len prefix else label_len version)

-- one wildcard, at the end of the numbers
unfoldable pub parse_number_star : Text → ℕ → Fallible Floating
parse_number_star value last =
    let e = unsupported_version_range value in
    let actual = take_bytes last value ++ (b'0' ∷ []) in
    do
      behavior ← ok_or (one_star_behavior (count_char b'.' actual + 1)) e
      version ← parse_or_unsupported value actual
      ok (version, behavior, 0)

unfoldable pub parse_floating_version : Text → Fallible Floating
unfolding parse_two_stars parse_label_star parse_number_star
parse_floating_version value =
    let e = unsupported_version_range value in
    let first = offset (find_char b'*' value) in
    let last = offset (rfind_char b'*' value) in
    if ltb 256 (len value) || holds value b'+' || not (ends_with value b'*')
    then err e
    else if text_eq value (codes "*")
    then (do version ← parse_version (codes "0.0.0"); ok (version, major, 0))
    else if text_eq value (codes "*-*")
    then (do version ← parse_version (codes "0.0.0-0"); ok (version, absolute_latest, 0))
    else if not (first == last)
    then parse_two_stars value first last
    else elim (find_char b'-' value) [
      | some dash ↦ parse_label_star value dash last
      | none ↦ parse_number_star value last
    ]

unfoldable pub parse_version_bound : Text → Bool → Bool → Fallible VersionBound
unfolding parse_floating_version bound floating_bound
parse_version_bound value inclusive allow_floating =
    if not (holds value b'*')
    then (do version ← parse_version value; ok (bound version inclusive))
    else if not allow_floating
    then err (unsupported_version_range value)
    else do
      (version, behavior, prefix_len) ← parse_floating_version value
      ok (floating_bound version inclusive behavior prefix_len)

-- `(!text.trim().is_empty()).then(…).transpose()`
abbrev pub optional_bound : Text → Bool → Bool → Fallible (Option VersionBound)
optional_bound text inclusive allow_floating =
    if is_empty (trim text)
    then ok none
    else do b ← parse_version_bound (trim text) inclusive allow_floating; ok (some b)

-- no version lies between the two bounds
unfoldable pub crossed : VersionBound → VersionBound → Bool
crossed lower upper =
    is_gt (cmp lower.version upper.version)
    || is_eq (cmp lower.version upper.version) && (not lower.inclusive || not upper.inclusive)

abbrev pub check_bounds : Text → Option VersionBound → Option VersionBound → Fallible VersionRange
check_bounds value none none = err (unsupported_version_range value)
check_bounds value (some l) (some u) =
    if crossed l u
    then err (resolution_error value)
    else ok (record { lower = some l; upper = some u })
check_bounds value l u = ok (record { lower = l; upper = u })

abbrev pub halves : Text → Text × Text
halves body = elim (split_once b',' body) [ none ↦ (body, []) | some p ↦ p ]

abbrev pub parse_halves : Text → Bool → Bool → Text × Text → Fallible VersionRange
parse_halves value lower_inclusive upper_inclusive (lower_text, upper_text) = do
  lower ← optional_bound lower_text lower_inclusive true
  upper ← optional_bound upper_text upper_inclusive false
  check_bounds value lower upper

-- what is between the brackets
abbrev pub parse_body : Text → Bool → Bool → Text → Fallible VersionRange
parse_body value lower_inclusive upper_inclusive body =
    if not (holds body b',')
    then (do
      reject_if (not lower_inclusive || not upper_inclusive) (unsupported_version_range value)
      version ← parse_version (trim body)
      ok (record { lower = some (bound version true); upper = some (bound version true) }))
    else parse_halves value lower_inclusive upper_inclusive (halves body)

-- an interval in brackets
unfoldable pub parse_interval : Text → Fallible VersionRange
parse_interval value =
    if not (ends_with value b']' || ends_with value b')') || ltb (len value) 3
    then err (unsupported_version_range value)
    else parse_body value (starts_with value (b'[' ∷ [])) (ends_with value b']')
        (slice 1 (len value - 1) value)

-- `VersionRange::parse`
unfoldable pub parse : Text → Fallible VersionRange
parse text =
    let value = trim text in
    if is_empty value
    then err (unsupported_version_range value)
    else if not (starts_with value (b'[' ∷ []) || starts_with value (b'(' ∷ []))
    then (do
      lower ← parse_version_bound value true true
      ok (record { lower = some lower; upper = none }))
    else parse_interval value
