-- ===== src/FrameworkReference.antt =====
-- `RuntimeVersion` and the choice of an installed runtime of
-- crates/dv-core/src/framework_reference.rs.
pub mod Order
pub mod Choice
mod Examples
use dv.Common.{
  ℕ, ◌^◌, ◌-◌, Bool, true, false, ◌&&◌, ◌||◌, not, Option, none, some, List, [], ◌∷◌, Ordering, lt,
  eq, gt, compare, ltb, ◌==◌, if◌then◌else◌, all, filter, find, map,
}
use dv.Common.Order.{then_with, list_cmp, none_last}
use dv.Common.Text.{
  Text, len, is_empty, is_digit, is_alphanumeric, text_cmp, split, split_once, starts_with,
  parse_uint,
}
use dv.Common.Select.{is_gt, max_by, min_by}

pub record RuntimeVersion : Type 0 where
  pub text : Text
  pub major : ℕ
  pub minor : ℕ
  pub patch : ℕ
  pub prerelease : Option Text

-- `numeric_part`
unfoldable pub numeric_part : Text → Option ℕ
unfolding parse_uint
numeric_part value =
    if is_empty value
      || (ltb 1 (len value) && starts_with value (b'0' ∷ []) || not (all is_digit value))
    then none
    else parse_uint (2 ^ 32 - 1) value

abbrev is_identifier : Text → Bool
is_identifier identifier =
    not (is_empty identifier) && all (λ c. is_alphanumeric c || c == b'-') identifier

-- `valid_identifiers`
unfoldable pub valid_identifiers : Text → Bool
unfolding split
valid_identifiers value = all is_identifier (split b'.' value)

-- the text before `+`; nothing where what follows is no build metadata
abbrev without_build : Text → Option (Text × Text) → Option Text
without_build value none = some value
without_build value (some (precedence, build)) =
    if valid_identifiers build then some precedence else none

-- the numbers and the label
abbrev label_of : Text → Option (Text × Text) → Option (Text × Option Text)
label_of precedence none = some (precedence, none)
label_of precedence (some (numbers, label)) =
    if valid_identifiers label then some (numbers, some label) else none

infixl 5 ◌>>=?◌
abbrev ◌>>=?◌ {ℓ κ} : {A : Type ℓ} {B : Type κ} → Option A → (A → Option B) → Option B
none >>=? f = none
some a >>=? f = f a

-- three parts and no more
abbrev versioned : Text → Option Text → List Text → Option RuntimeVersion
versioned value label (a ∷ b ∷ c ∷ []) = numeric_part a >>=? λ major. numeric_part b >>=? λ minor.
    numeric_part c >>=? λ patch.
    some (record { text = value; major = major; minor = minor; patch = patch; prerelease = label })
versioned value label parts = none

-- `RuntimeVersion::parse`
unfoldable pub parse : Text → Option RuntimeVersion
unfolding valid_identifiers numeric_part
parse value = without_build value (split_once b'+' value) >>=? λ precedence.
    label_of precedence (split_once b'-' precedence) >>=? λ (numbers, label).
    versioned value label (split b'.' numbers)

abbrev is_some : Option Text → Bool
is_some none = false
is_some (some s) = true

unfoldable pub is_prerelease : RuntimeVersion → Bool
is_prerelease v = is_some v.prerelease

-- the comparison of two identifiers in the loop of `compare_prerelease`
unfoldable pub identifier_cmp : Text → Text → Ordering
identifier_cmp left right =
    if all is_digit left
    then (if all is_digit right
        then then_with (compare (len left) (len right)) (text_cmp left right)
        else lt)
    else if all is_digit right
    then gt
    else text_cmp left right

unfoldable pub compare_prerelease : Option Text → Option Text → Ordering
unfolding identifier_cmp
compare_prerelease = none_last (λ l r. list_cmp identifier_cmp (split b'.' l) (split b'.' r))

-- `Ord::cmp` of `RuntimeVersion`
unfoldable pub cmp : RuntimeVersion → RuntimeVersion → Ordering
unfolding compare_prerelease
cmp a b = then_with (compare a.major b.major) (
    then_with (compare a.minor b.minor)
      (then_with (compare a.patch b.patch) (compare_prerelease a.prerelease b.prerelease)))

-- `PartialEq::eq`, and `>=`
abbrev pub is_same : RuntimeVersion → RuntimeVersion → Bool
is_same a b = elim (cmp a b) [ lt ↦ false | eq ↦ true | gt ↦ false ]

abbrev pub at_least : RuntimeVersion → RuntimeVersion → Bool
at_least a b = elim (cmp a b) [ lt ↦ false | eq ↦ true | gt ↦ true ]

-- `RuntimeRollForward` of crates/dv-core/src/project.rs
pub data RuntimeRollForward : Type 0 where
  disable latest_patch minor major latest_minor latest_major : RuntimeRollForward

-- `eligible_release`
unfoldable pub eligible_release : Bool → RuntimeVersion → Bool
unfolding is_prerelease
eligible_release stable_only v = not stable_only || not (is_prerelease v)

abbrev pub Band : Type 0
Band = ℕ × ℕ

-- `Ord` of a pair
abbrev pub band_cmp : Band → Band → Ordering
band_cmp a b = then_with (compare a.0 b.0) (compare a.1 b.1)

abbrev pub band_of : RuntimeVersion → Band
band_of v = (v.major, v.minor)

abbrev pub same_band : Band → Band → Bool
same_band a b = elim (band_cmp a b) [ lt ↦ false | eq ↦ true | gt ↦ false ]

abbrev pub in_band :
    List RuntimeVersion
    → RuntimeVersion
    → (RuntimeVersion → Bool)
    → Option Band
    → Option RuntimeVersion
in_band installed requested eligible none = none
in_band installed requested eligible (some nearest) =
    max_by cmp (
      filter (λ v. eligible v && (same_band (band_of v) nearest && at_least v requested)) installed)

-- `select_nearest_band`, for the band of the major and the minor version
unfoldable pub select_nearest_band :
    List RuntimeVersion → RuntimeVersion → (RuntimeVersion → Bool) → Option RuntimeVersion
select_nearest_band installed requested eligible =
    in_band installed requested eligible (min_by band_cmp (map band_of (filter eligible installed)))

-- `select_by_policy`
unfoldable pub select_by_policy :
    List RuntimeVersion → RuntimeVersion → RuntimeRollForward → Bool → Option RuntimeVersion
unfolding select_nearest_band
select_by_policy installed requested disable stable_only =
    find (λ v. is_same v requested) (filter (eligible_release stable_only) installed)
select_by_policy installed requested latest_patch stable_only = max_by cmp (
    filter (λ v. v.major == requested.major && (v.minor == requested.minor && at_least v requested))
      (filter (eligible_release stable_only) installed))
select_by_policy installed requested minor stable_only =
    select_nearest_band installed requested
      (λ v. eligible_release stable_only v && (v.major == requested.major && at_least v requested))
select_by_policy installed requested major stable_only =
    select_nearest_band installed requested
      (λ v. eligible_release stable_only v && at_least v requested)
select_by_policy installed requested latest_minor stable_only = max_by cmp (
    filter (λ v. v.major == requested.major && at_least v requested)
      (filter (eligible_release stable_only) installed))
select_by_policy installed requested latest_major stable_only =
    max_by cmp
      (filter (λ v. at_least v requested) (filter (eligible_release stable_only) installed))

abbrev pub or_else : Option RuntimeVersion → Option RuntimeVersion → Option RuntimeVersion
or_else (some v) other = some v
or_else none other = other

-- what `select_installed_runtime` makes of the versions that it found
unfoldable pub select_installed :
    List RuntimeVersion → RuntimeVersion → RuntimeRollForward → Option RuntimeVersion
unfolding select_by_policy
select_installed installed requested policy =
    if is_prerelease requested
    then select_by_policy installed requested policy false
    else or_else (select_by_policy installed requested policy true)
        (select_by_policy installed requested policy false)
