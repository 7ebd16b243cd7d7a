-- ===== src/Package/Range/Examples.antt =====
-- Runs of `VersionRange::parse` of crates/dv-core/src/package.rs on concrete inputs.
use dv.Common.{◌≡◌, refl, true, false, none, some, [], ◌∷◌, arith}
use dv.Common.Text.{codes}
use dv.Common.Result.{ok, err}
use dv.Package.Error.{resolution_error}
use dv.Package.Version.{PackageVersion, assemble}
use dv.Package.Range.{VersionRange, bound, floating_bound, minor}
use dv.Package.Range.Parse.{parse}
use dv.Package.Range.Intervals.{IsRight, parse-interval-IsRight}

abbrev one : PackageVersion
one = assemble (record { major = 1; minor = 0; patch = 0; revision = 0 }) none

abbrev two : PackageVersion
two = assemble (record { major = 2; minor = 0; patch = 0; revision = 0 }) none

parse_tests :
    (parse (codes " [ 1.0 , 2.0 ) ")
      ≡ ok (record { lower = some (bound one true); upper = some (bound two false) }))
    × (parse (codes "[1.0]")
        ≡ ok (record { lower = some (bound one true); upper = some (bound one true) }))
    × (parse (codes "1.*")
        ≡ ok (record { lower = some (floating_bound one true minor 0); upper = none }))
    × (parse (codes "(1.0,1.0]") ≡ err (resolution_error (codes "(1.0,1.0]")))
    × (parse (codes "(,)") ≡ err (resolution_error (codes "(,)")))
unfolding parse dv.Package.Range.Parse.parse_interval dv.Package.Range.Parse.parse_version_bound
    dv.Package.Range.Parse.crossed dv.Package.Version.parse dv.Package.Version.cmp assemble
    dv.Common.Text.parse_uint dv.Common.Decimal.show dv.Common.Text.trim dv.Common.Text.starts_with
    dv.Common.Text.ends_with dv.Common.Text.take_bytes dv.Common.Text.drop_bytes
    dv.Common.Text.split_once dv.Common.Text.text_eq dv.Common.Text.find_char
    dv.Common.Text.rfind_char dv.Common.Text.count_char
parse_tests = (refl, refl, refl, refl, refl)

parse-interval-IsRight_example :
    IsRight (codes "[1.0,2.0.0)") true false (some one) (some two) (parse (codes "[1.0,2.0.0)"))
unfolding dv.Package.Version.parse assemble dv.Common.Text.parse_uint dv.Common.Decimal.show
parse-interval-IsRight_example =
    parse-interval-IsRight true false (codes "1.0") (codes "2.0.0") (some one) (some two) refl refl
