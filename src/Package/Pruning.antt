-- ===== src/Package/Pruning.antt =====
-- `PackagePruning` of crates/dv-core/src/package.rs: the packages that the SDK supplies, up to a version.
use dv.Common.{
  ℕ, ◌+◌, Bool, true, false, Option, none, some, List, Ordering, gt, ◌==◌, if◌then◌else◌, find,
}
use dv.Common.Order.{then_with}
use dv.Common.Text.{Text, slice, text_eq}
use dv.Package.Version.{Numbers, PackageVersion, numbers_cmp, prerelease_cmp, prerelease}

-- `TextSpan`: a part of a shared text, in bytes
pub record TextSpan : Type 0 where
  pub start : ℕ
  pub len : ℕ

abbrev pub get_span : Text → TextSpan → Text
get_span text span = slice span.start (span.start + span.len) text

pub record PrunedPackage : Type 0 where
  pub lower_id : TextSpan
  pub upper_numbers : Numbers
  pub upper_prerelease : TextSpan

-- The rows are sorted by identity. The fingerprint is a hash and is left out.
pub record PackagePruning : Type 0 where
  pub text : Text
  pub packages : List PrunedPackage

abbrev label_at : Text → TextSpan → Option Text
label_at text span = if span.len == 0 then none else some (get_span text span)

abbrev is_not_greater : Ordering → Bool
is_not_greater gt = false
is_not_greater _ = true

abbrev covers : Text → PackageVersion → PrunedPackage → Bool
covers text version p = is_not_greater (
    then_with (numbers_cmp version.numbers p.upper_numbers)
      (prerelease_cmp (prerelease version) (label_at text p.upper_prerelease)))

-- `PackagePruning::contains`; the binary search of the sorted rows finds the row of the identity.
unfoldable pub contains : PackagePruning → Text → PackageVersion → Bool
contains pruning lower_id version =
    elim (find (λ p. text_eq (get_span pruning.text p.lower_id) lower_id) pruning.packages) [
      | none ↦ false
      | some p ↦ covers pruning.text version p
    ]
