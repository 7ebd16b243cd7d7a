-- ===== src/Package/Range.antt =====
-- `VersionBound`, `VersionFloatBehavior` and `VersionRange` of crates/dv-core/src/package.rs.
pub mod Parse
pub mod Laws
pub mod Brackets
mod Examples
pub mod Intervals
use dv.Common.{
  ℕ, ◌%◌, ◌^◌, Bool, true, false, ◌&&◌, ◌||◌, not, Option, none, some, List, [], ◌∷◌, ◌++◌,
  Ordering, lt, eq, gt, compare, ◌==◌, if◌then◌else◌,
}
use dv.Common.Text.{Text, codes, starts_with, take_bytes}
use dv.Package.Version.{PackageVersion, Numbers, prerelease, cmp}

pub data VersionFloatBehavior : Type 0 where
  fixed prerelease_floats revision patch minor major absolute_latest : VersionFloatBehavior
  prerelease_revision prerelease_patch prerelease_minor prerelease_major : VersionFloatBehavior

unfoldable pub includes_prerelease : VersionFloatBehavior → Bool
includes_prerelease fixed = false
includes_prerelease revision = false
includes_prerelease patch = false
includes_prerelease minor = false
includes_prerelease major = false
includes_prerelease _ = true

pub record VersionBound : Type 0 where
  pub version : PackageVersion
  pub float_prefix_len : ℕ
  pub inclusive : Bool
  pub float_behavior : VersionFloatBehavior

-- `VersionBound::new`, and `VersionBound::floating` with its `as u16`
unfoldable pub bound : PackageVersion → Bool → VersionBound
bound version inclusive = record {
  version = version;
  float_prefix_len = 0;
  inclusive = inclusive;
  float_behavior = fixed;
}

unfoldable pub floating_bound : PackageVersion → Bool → VersionFloatBehavior → ℕ → VersionBound
floating_bound version inclusive behavior prefix_len = record {
  version = version;
  float_prefix_len = prefix_len % 2 ^ 16;
  inclusive = inclusive;
  float_behavior = behavior;
}

abbrev pub is_none {ℓ} : {A : Type ℓ} → Option A → Bool
is_none none = true
is_none (some a) = false

abbrev pub is_some_and {ℓ} : {A : Type ℓ} → Option A → (A → Bool) → Bool
is_some_and none p = false
is_some_and (some a) p = p a

abbrev pub is_none_or {ℓ} : {A : Type ℓ} → Option A → (A → Bool) → Bool
is_none_or none p = true
is_none_or (some a) p = p a

-- `>`, `<` and `==` of `PackageVersion`
abbrev pub is_gt : Ordering → Bool
is_gt gt = true
is_gt _ = false

abbrev pub is_lt : Ordering → Bool
is_lt lt = true
is_lt _ = false

abbrev pub is_eq : Ordering → Bool
is_eq eq = true
is_eq _ = false

-- `VersionBound::float_prefix`. The source slices the label of the bound's version, and panics where
-- there is none; the text is empty here then.
unfoldable pub float_prefix : VersionBound → Text
float_prefix b = elim (prerelease b.version) [
  | none ↦ []
  | some label ↦ take_bytes b.float_prefix_len label
]

-- the slices `numbers[..1]`, `numbers[..2]`, `numbers[..3]` and `numbers` of two versions agree
abbrev pub same_major : Numbers → Numbers → Bool
same_major a b = a.major == b.major

abbrev pub same_minor : Numbers → Numbers → Bool
same_minor a b = a.major == b.major && a.minor == b.minor

abbrev pub same_patch : Numbers → Numbers → Bool
same_patch a b = same_minor a b && a.patch == b.patch

abbrev pub same_numbers : Numbers → Numbers → Bool
same_numbers a b = same_patch a b && a.revision == b.revision

-- `VersionBound::float_satisfies`
unfoldable pub float_satisfies : VersionBound → PackageVersion → Bool
unfolding float_prefix
float_satisfies b version =
    let stable = is_none (prerelease version) in
    let labelled =
      stable
      || is_some_and (prerelease version) (λ release. starts_with release (float_prefix b)) in
    elim b.float_behavior [
      | fixed ↦ false
      | absolute_latest ↦ true
      | major ↦ stable
      | minor ↦ stable && same_major b.version.numbers version.numbers
      | patch ↦ stable && same_minor b.version.numbers version.numbers
      | revision ↦ stable && same_patch b.version.numbers version.numbers
      | prerelease_floats ↦ same_numbers b.version.numbers version.numbers && labelled
      | prerelease_major ↦ labelled
      | prerelease_minor ↦ same_major b.version.numbers version.numbers && labelled
      | prerelease_patch ↦ same_minor b.version.numbers version.numbers && labelled
      | prerelease_revision ↦ same_patch b.version.numbers version.numbers && labelled
    ]

pub record VersionRange : Type 0 where
  pub lower : Option VersionBound
  pub upper : Option VersionBound

-- `VersionRange::exact`
unfoldable pub exact : PackageVersion → VersionRange
unfolding bound
exact version = record { lower = some (bound version true); upper = some (bound version true) }

abbrev pub above : PackageVersion → VersionBound → Bool
above version b = is_gt (cmp version b.version) || b.inclusive && is_eq (cmp version b.version)

abbrev pub below : PackageVersion → VersionBound → Bool
below version b = is_lt (cmp version b.version) || b.inclusive && is_eq (cmp version b.version)

-- `VersionRange::contains`
unfoldable pub contains : VersionRange → PackageVersion → Bool
contains range version =
    is_none_or range.lower (above version) && is_none_or range.upper (below version)

abbrev pub floats : VersionBound → Bool
floats b = elim b.float_behavior [ fixed ↦ false | _ ↦ true ]

-- `VersionRange::allows_prerelease`
unfoldable pub allows_prerelease : VersionRange → Bool
unfolding includes_prerelease
allows_prerelease range =
    is_some_and range.lower
      (λ b. includes_prerelease b.float_behavior || not (is_none (prerelease b.version)))
    || is_some_and range.upper (λ b. not (is_none (prerelease b.version)))

-- `VersionRange::is_floating`
unfoldable pub is_floating : VersionRange → Bool
is_floating range = is_some_and range.lower floats

-- `VersionRange::floating_satisfies`
unfoldable pub floating_satisfies : VersionRange → PackageVersion → Bool
unfolding float_satisfies
floating_satisfies range version = is_some_and range.lower (λ b. float_satisfies b version)

abbrev pub better_of : VersionBound → PackageVersion → PackageVersion → Bool
better_of b current considering =
    if float_satisfies b current
    then (if float_satisfies b considering then is_lt (cmp current considering) else false)
    else if float_satisfies b considering
    then true
    else if is_lt (cmp current b.version)
    then (if is_lt (cmp considering b.version) then is_lt (cmp current considering) else true)
    else if is_lt (cmp considering b.version)
    then false
    else is_gt (cmp current considering)

-- `VersionRange::is_better`
unfoldable pub is_better : VersionRange → PackageVersion → PackageVersion → Bool
is_better range current considering = elim range.lower [
  | none ↦ is_gt (cmp current considering)
  | some b ↦ if floats b then better_of b current considering else is_gt (cmp current considering)
]

abbrev normalized_of : Option VersionBound → Text
normalized_of none = []
normalized_of (some b) = b.version.normalized

abbrev is_exact : VersionRange → Bool
is_exact range = is_some_and range.lower (λ l.
    is_some_and range.upper (λ u. l.inclusive && u.inclusive && is_eq (cmp l.version u.version)))

-- `VersionRange::diagnostic_text`
unfoldable pub diagnostic_text : VersionRange → Text
unfolding is_floating
diagnostic_text range =
    if is_exact range
    then b'[' ∷ (normalized_of range.lower ++ (b']' ∷ []))
    else if is_floating range
    then normalized_of range.lower ++ codes " (floating)"
    else (if is_some_and range.lower (λ b. b.inclusive) then b'[' else b'(')
      ∷ (normalized_of range.lower
          ++ (b','
              ∷ (normalized_of range.upper
                  ++ ((if is_some_and range.upper (λ b. b.inclusive) then b']' else b')') ∷ []))))
