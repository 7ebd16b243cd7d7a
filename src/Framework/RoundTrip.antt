-- ===== src/Framework/RoundTrip.antt =====
-- A moniker is read back to the framework that it names (crates/dv-core/src/framework.rs).
use dv.Common.{
  ℕ, ◌+◌, ◌/◌, ◌%◌, ltb, if◌then◌else◌, ◌≤◌, ◌≡◌, refl, ap, ◌∙◌, true, none, [], ◌∷◌, ◌++◌, arith,
}
use dv.Common.Text.{Text, codes, is_digit, to_lowercase, strip_prefix}
use dv.Common.Result.{ok}
use dv.Framework.{
  FrameworkFamily, TargetFramework, u16_max, dotted_version, versioned, parse, parse_as_core,
  parse_as_standard, parse_as_net, parse_net, framework_version,
}
use dv.Framework.Versions.{
  contains-version, dotted-framework_version, strip_self, strip_other, net_core_none,
  net_standard_none,
}

net_version :
    (value : Text) (f : TargetFramework)
    → f.major ≤ u16_max
    → f.minor ≤ u16_max
    → to_lowercase value ≡ codes "net" ++ framework_version f
    → parse value ≡ ok (record f { family = FrameworkFamily.net })
unfolding parse
net_version value f h k e =
    let lower = codes "net" ++ framework_version f in
    ap (λ l. parse_as_core value l (strip_prefix l (codes "netcoreapp"))) e
    ∙ ap (parse_as_core value lower) (net_core_none f)
    ∙ ap (parse_as_standard value lower) (net_standard_none f)
    ∙ ap (parse_as_net value) (strip_self (codes "net") (framework_version f))
    ∙ rw (contains-version f, dotted_version, dotted-framework_version f value h k) refl

core_version :
    (value : Text) (f : TargetFramework)
    → f.major ≤ u16_max
    → f.minor ≤ u16_max
    → to_lowercase value ≡ codes "netcoreapp" ++ framework_version f
    → parse value ≡ ok (record f { family = FrameworkFamily.net_core_app })
unfolding parse
core_version value f h k e =
    ap (λ l. parse_as_core value l (strip_prefix l (codes "netcoreapp"))) e
    ∙ ap (parse_as_core value (codes "netcoreapp" ++ framework_version f))
        (strip_self (codes "netcoreapp") (framework_version f))
    ∙ ap (versioned FrameworkFamily.net_core_app) (dotted-framework_version f value h k)

standard_none :
    (f : TargetFramework)
    → strip_prefix (codes "netstandard" ++ framework_version f) (codes "netcoreapp") ≡ none
unfolding strip_prefix
standard_none f = refl

standard_version :
    (value : Text) (f : TargetFramework)
    → f.major ≤ u16_max
    → f.minor ≤ u16_max
    → to_lowercase value ≡ codes "netstandard" ++ framework_version f
    → parse value ≡ ok (record f { family = FrameworkFamily.net_standard })
unfolding parse
standard_version value f h k e =
    let lower = codes "netstandard" ++ framework_version f in
    ap (λ l. parse_as_core value l (strip_prefix l (codes "netcoreapp"))) e
    ∙ ap (parse_as_core value lower) (standard_none f)
    ∙ ap (parse_as_standard value lower) (strip_self (codes "netstandard") (framework_version f))
    ∙ ap (versioned FrameworkFamily.net_standard) (dotted-framework_version f value h k)

-- the digits of `net48` and `net472`: a minor version takes a second digit where it needs one
abbrev pub digit : ℕ → ℕ
digit n = b'0' + n

abbrev pub minor_digits : ℕ → Text
minor_digits minor =
    if ltb minor 10 then digit minor ∷ [] else digit (minor / 10) ∷ digit (minor % 10) ∷ []

abbrev pub compact_digits : ℕ → ℕ → Text
compact_digits major minor = digit major ∷ minor_digits minor

-- the name of a family and the version behind it, in lower case
abbrev pub moniker : TargetFramework → Text
moniker f = elim f.family [
  | FrameworkFamily.net ↦ codes "net" ++ framework_version f
  | FrameworkFamily.net_core_app ↦ codes "netcoreapp" ++ framework_version f
  | FrameworkFamily.net_standard ↦ codes "netstandard" ++ framework_version f
  | FrameworkFamily.net_framework ↦ codes "net" ++ compact_digits f.major f.minor
]

-- the frameworks that have a moniker: .NET from 5.0 on, and .NET Framework with a major version of one
-- digit and a minor version of at most two
abbrev pub IsCanonical : TargetFramework → Type 0
IsCanonical f = elim f.family [
  | FrameworkFamily.net ↦ (5 ≤ f.major) × (f.major ≤ u16_max) × (f.minor ≤ u16_max)
  | FrameworkFamily.net_framework ↦ (f.major ≤ 9) × (f.minor ≤ 99)
  | _ ↦ (f.major ≤ u16_max) × (f.minor ≤ u16_max)
]

compact-digits :
    (value : Text) (major minor : ℕ)
    → major ≤ 9
    → minor ≤ 99
    → parse_net value (compact_digits major minor)
      ≡ ok (record { family = FrameworkFamily.net_framework; major = major; minor = minor })
compact-digits value major minor h k = ground arith

net_digit :
    (value : Text) (d : ℕ) (s : Text)
    → is_digit d ≡ true
    → to_lowercase value ≡ codes "net" ++ (d ∷ s)
    → parse value ≡ parse_net value (d ∷ s)
unfolding parse
net_digit value d s h e =
    let lower = codes "net" ++ (d ∷ s) in
    let core : strip_prefix lower (codes "netcoreapp") ≡ none =
      unfold strip_prefix in strip_other d b'c' s (codes "oreapp") (ground (arith, h)) in
    let standard : strip_prefix lower (codes "netstandard") ≡ none =
      unfold strip_prefix in strip_other d b's' s (codes "tandard") (ground (arith, h)) in
    ap (λ l. parse_as_core value l (strip_prefix l (codes "netcoreapp"))) e
    ∙ ap (parse_as_core value lower) core
    ∙ ap (parse_as_standard value lower) standard
    ∙ ap (parse_as_net value) (strip_self (codes "net") (d ∷ s))

compact_version :
    (value : Text) (f : TargetFramework)
    → f.major ≤ 9
    → f.minor ≤ 99
    → to_lowercase value ≡ codes "net" ++ compact_digits f.major f.minor
    → parse value ≡ ok (record f { family = FrameworkFamily.net_framework })
compact_version value f h k e =
    net_digit value (digit f.major) (minor_digits f.minor) (ground (arith, h)) e
    ∙ compact-digits value f.major f.minor h k

of_family :
    (family : FrameworkFamily) (major minor : ℕ) (value : Text)
    → IsCanonical (record { family = family; major = major; minor = minor })
    → to_lowercase value ≡ moniker (record { family = family; major = major; minor = minor })
    → parse value ≡ ok (record { family = family; major = major; minor = minor })
of_family FrameworkFamily.net major minor value (l, h, k) e = net_version value _ h k e
of_family FrameworkFamily.net_core_app major minor value (h, k) e = core_version value _ h k e
of_family FrameworkFamily.net_standard major minor value (h, k) e = standard_version value _ h k e
of_family FrameworkFamily.net_framework major minor value (h, k) e =
    compact_version value
      (record { family = FrameworkFamily.net_framework; major = major; minor = minor }) h k e

-- A text that is the moniker of a canonical framework but for the case of its letters is parsed as
-- exactly that framework, of whichever of the four families. Canonical are .NET from 5.0 on, .NET Core
-- and .NET Standard with numbers of 16 bits, and .NET Framework with a major version of one digit and a
-- minor version of at most two.
pub parse-moniker :
    (f : TargetFramework) (value : Text)
    → IsCanonical f
    → to_lowercase value ≡ moniker f
    → parse value ≡ ok f
parse-moniker f value c e = of_family f.family f.major f.minor value c e
