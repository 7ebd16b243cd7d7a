-- ===== src/Framework/Examples.antt =====
-- Runs of the model of crates/dv-core/src/framework.rs on concrete inputs.
use dv.Common.{◌≡◌, refl, ◌++◌, arith, none, some, false}
use dv.Common.Text.{codes}
use dv.Common.Result.{ok, err}
use dv.Framework.{FrameworkFamily, TargetFramework, parse, is_modern_net, csharp_language_major}
use dv.Framework.RoundTrip.{parse-moniker}

abbrev modern : TargetFramework
modern = record { family = FrameworkFamily.net; major = 8; minor = 0 }

parse_tests :
    (parse (codes "NET8.0") ≡ ok modern)
    × (parse (codes "net472")
        ≡ ok (record { family = FrameworkFamily.net_framework; major = 4; minor = 72 }))
    × (parse (codes "net+8.0") ≡ ok modern)
    × (parse (codes "net8.") ≡ err (codes "net8."))
unfolding parse dv.Common.Text.parse_uint dv.Common.Text.to_lower dv.Common.Text.split
parse_tests = (refl, refl, refl, refl)

csharp_language_major_tests :
    (csharp_language_major modern ≡ some 12)
    × (csharp_language_major (record modern { major = 11 }) ≡ none)
unfolding csharp_language_major
csharp_language_major_tests = (refl, refl)

parse-moniker_example :
    parse (codes "NET48")
    ≡ ok (record { family = FrameworkFamily.net_framework; major = 4; minor = 8 })
unfolding dv.Common.Text.to_lowercase dv.Common.Text.to_lower
parse-moniker_example =
    parse-moniker (record { family = FrameworkFamily.net_framework; major = 4; minor = 8 })
      (codes "NET48") (omega arith, omega arith) refl

-- A .NET below 5.0 is read too, and is no modern one.
below_five :
    (parse (codes "net1.0") ≡ ok (record modern { major = 1 }))
    × (is_modern_net (record modern { major = 1 }) ≡ false)
unfolding parse is_modern_net dv.Common.Text.parse_uint dv.Common.Text.to_lower dv.Common.Text.split
below_five = (refl, refl)
