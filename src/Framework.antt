-- ===== src/Framework.antt =====
-- `TargetFramework` of crates/dv-core/src/framework.rs.
pub mod RoundTrip
pub mod Versions
mod Examples
use dv.Common.{
  ℕ, ◌+◌, ◌*◌, ◌-◌, ◌^◌, Bool, true, false, ◌&&◌, Option, none, some, List, [], ◌∷◌, ◌++◌, leb,
  ◌==◌, if◌then◌else◌, all,
}
use dv.Common.Text.{
  Text, codes, is_empty, is_digit, to_lowercase, strip_prefix, contains, split, parse_uint,
}
use dv.Common.Decimal.{show}
use dv.Common.Result.{Result, ok, err, ◌>>=◌, ok_or}

pub data FrameworkFamily : Type 0 where
  net net_core_app net_standard net_framework : FrameworkFamily

pub record TargetFramework : Type 0 where
  pub family : FrameworkFamily
  pub major : ℕ
  pub minor : ℕ

-- `TargetFrameworkError` carries the refused text.
abbrev pub TargetFrameworkError : Type 0
TargetFrameworkError = Text

abbrev pub u16_max : ℕ
u16_max = 2 ^ 16 - 1

abbrev pub part : Text → Option ℕ
part s = if is_empty s then none else parse_uint u16_max s

-- Every failure of `dotted_version` is the same error.
abbrev pub two_parts : Text → List Text → Result TargetFrameworkError (ℕ × ℕ)
two_parts original (a ∷ b ∷ []) =
    ok_or (part a) original >>= λ major. ok_or (part b) original >>= λ minor. ok (major, minor)
two_parts original _ = err original

-- `dotted_version`
unfoldable pub dotted_version : Text → Text → Result TargetFrameworkError (ℕ × ℕ)
unfolding split parse_uint
dotted_version value original = two_parts original (split b'.' value)

abbrev pub versioned :
    FrameworkFamily
    → Result TargetFrameworkError (ℕ × ℕ)
    → Result TargetFrameworkError TargetFramework
versioned family (err e) = err e
versioned family (ok (major, minor)) = ok (record { family = family; major = major; minor = minor })

-- two or three digits, as in `net48` and `net472`
abbrev pub compact : Text → Text → Result TargetFrameworkError TargetFramework
compact value (a ∷ b ∷ []) =
    ok (record { family = FrameworkFamily.net_framework; major = a - b'0'; minor = b - b'0' })
compact value (a ∷ b ∷ c ∷ []) = ok (record {
  family = FrameworkFamily.net_framework;
  major = a - b'0';
  minor = (b - b'0') * 10 + (c - b'0');
})
compact value _ = err value

abbrev pub parse_net : Text → Text → Result TargetFrameworkError TargetFramework
parse_net value version =
    if contains version b'.'
    then versioned FrameworkFamily.net (dotted_version version value)
    else if all is_digit version
    then compact value version
    else err value

-- what is tried after the prefixes before it were not found
abbrev pub parse_as_net : Text → Option Text → Result TargetFrameworkError TargetFramework
parse_as_net value none = err value
parse_as_net value (some version) = parse_net value version

abbrev pub parse_as_standard :
    Text → Text → Option Text → Result TargetFrameworkError TargetFramework
parse_as_standard value lower none = parse_as_net value (strip_prefix lower (codes "net"))
parse_as_standard value lower (some version) =
    versioned FrameworkFamily.net_standard (dotted_version version value)

abbrev pub parse_as_core : Text → Text → Option Text → Result TargetFrameworkError TargetFramework
parse_as_core value lower none =
    parse_as_standard value lower (strip_prefix lower (codes "netstandard"))
parse_as_core value lower (some version) =
    versioned FrameworkFamily.net_core_app (dotted_version version value)

-- `TargetFramework::parse`
unfoldable pub parse : Text → Result TargetFrameworkError TargetFramework
unfolding to_lowercase strip_prefix dotted_version
parse value =
    let lower = to_lowercase value in
    parse_as_core value lower (strip_prefix lower (codes "netcoreapp"))

abbrev is_net : FrameworkFamily → Bool
is_net FrameworkFamily.net = true
is_net _ = false

-- `is_modern_net`, `framework_version`, `analysis_level` and `csharp_language_major`; the errors of
-- the last two print the framework, which is left out here.
unfoldable pub is_modern_net : TargetFramework → Bool
is_modern_net f = is_net f.family && leb 5 f.major

unfoldable pub framework_version : TargetFramework → Text
unfolding show
framework_version f = show f.major ++ (b'.' ∷ show f.minor)

unfoldable pub analysis_level : TargetFramework → Option ℕ
unfolding is_modern_net
analysis_level f = if is_modern_net f then some f.major else none

unfoldable pub csharp_language_major : TargetFramework → Option ℕ
unfolding is_modern_net
csharp_language_major f =
    if is_modern_net f && (leb f.major 10 && f.minor == 0) then some (f.major + 4) else none
