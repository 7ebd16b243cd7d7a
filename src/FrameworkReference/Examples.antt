-- ===== src/FrameworkReference/Examples.antt =====
-- Choices among installed runtimes, on concrete inputs
-- (crates/dv-core/src/framework_reference.rs).
use dv.Common.{ℕ, ◌≡◌, refl, false, Option, none, some, List, [], ◌∷◌}
use dv.Common.Text.{Text, codes, split_once, starts_with}
use dv.Common.Select.{IsBest, kept}
use dv.FrameworkReference.{
  RuntimeVersion, parse, minor, latest_major, select_by_policy, select_installed, is_prerelease,
  eligible_release, cmp,
}
use dv.FrameworkReference.Choice.{eligible, preference, select_by_policy-Best}

abbrev numbers : ℕ → ℕ → ℕ → Text → Option Text → RuntimeVersion
numbers a b c text label = record {
  text = text;
  major = a;
  minor = b;
  patch = c;
  prerelease = label;
}

abbrev v8_0_2 : RuntimeVersion
v8_0_2 = numbers 8 0 2 (codes "8.0.2") none

abbrev v8_0_11 : RuntimeVersion
v8_0_11 = numbers 8 0 11 (codes "8.0.11") none

abbrev v9_rc : RuntimeVersion
v9_rc = numbers 9 0 0 (codes "9.0.0-rc.1") (some (codes "rc.1"))

parsed :
    (parse (codes "9.0.0-rc.1") ≡ some v9_rc)
    × (parse (codes "8.0.02") ≡ none)
    × (parse (codes "8.0.2+") ≡ none)
unfolding parse split_once starts_with
parsed = (refl, refl, refl)

abbrev installed : List RuntimeVersion
installed = v8_0_2 ∷ v8_0_11 ∷ v9_rc ∷ []

abbrev asked : RuntimeVersion
asked = numbers 8 0 1 (codes "8.0.1") none

nearest_patch : select_installed installed asked minor ≡ some v8_0_11
unfolding select_installed is_prerelease eligible_release cmp kept
nearest_patch = refl

select_by_policy-Best_example :
    IsBest
      (eligible latest_major asked false)
      (preference latest_major)
      installed
      (select_by_policy installed asked latest_major false)
select_by_policy-Best_example = select_by_policy-Best installed asked latest_major false
