-- ===== src/Sdk/Selection.antt =====
-- The selection of an SDK by the policy of global.json (`select_from_root` of
-- crates/dv-core/src/sdk.rs, and what `discover_sdks_in_roots` does with it).
pub mod Choice
use dv.Common.{
  ℕ, zero, suc, ◌+◌, ◌%◌, ◌^◌, Bool, true, false, ◌&&◌, ◌||◌, not, Option, none, some, List, [],
  ◌∷◌, Ordering, lt, eq, gt, compare, ◌==◌, if◌then◌else◌, filter, find, length,
}
use dv.Common.Order.{then_with}
use dv.Common.Result.{Result, ok, err}
use dv.Common.Select.{max_by, min_by}
use dv.Sdk.Version.{SdkVersion, cmp, is_prerelease, same_feature_band, feature_band}

pub data RollForward : Type 0 where
  patch feature minor major : RollForward
  latest_patch latest_feature latest_minor latest_major disable : RollForward

pub record SdkInstallation : Type 0 where
  pub version : SdkVersion
  pub root_index : ℕ

-- an entry of `iter().enumerate()`
abbrev pub Candidate : Type 0
Candidate = ℕ × SdkInstallation

abbrev pub enumerate : ℕ → List SdkInstallation → List Candidate
enumerate i [] = []
enumerate i (x ∷ xs) = (i, x) ∷ enumerate (i + 1) xs

abbrev pub version_of : Candidate → SdkVersion
version_of c = c.1.version

-- `==` and `>=`
abbrev pub is_same : SdkVersion → SdkVersion → Bool
is_same a b = elim (cmp a b) [ lt ↦ false | eq ↦ true | gt ↦ false ]

abbrev pub at_least : SdkVersion → SdkVersion → Bool
at_least a b = elim (cmp a b) [ lt ↦ false | eq ↦ true | gt ↦ true ]

abbrev pub by_version : Candidate → Candidate → Ordering
by_version a b = cmp (version_of a) (version_of b)

abbrev pub Group : Type 0
Group = ℕ × ℕ × ℕ

abbrev pub group_cmp : Group → Group → Ordering
group_cmp a b = then_with (compare a.0 b.0) (then_with (compare a.1 b.1) (compare a.2 b.2))

-- the order of `select_nearest_group`
abbrev pub by_group : (SdkVersion → Group) → Candidate → Candidate → Ordering
by_group group a b =
    then_with (group_cmp (group (version_of a)) (group (version_of b))) (by_version b a)

-- `select_nearest_group`
abbrev pub select_nearest_group : (SdkVersion → Group) → List Candidate → Option Candidate
select_nearest_group group candidates = min_by (by_group group) candidates

abbrev pub or_else : Option Candidate → Option Candidate → Option Candidate
or_else (some c) other = some c
or_else none other = other

abbrev pub same_minor : SdkVersion → SdkVersion → Bool
same_minor v requested = v.major == requested.major && v.minor == requested.minor

-- the `match` of `select_from_root`
unfoldable pub by_policy : RollForward → SdkVersion → List Candidate → Option Candidate
by_policy disable requested cs = find (λ c. is_same (version_of c) requested) cs
by_policy patch requested cs = or_else (find (λ c. is_same (version_of c) requested) cs) (
    max_by by_version (
      filter (λ c. same_feature_band (version_of c) requested && at_least (version_of c) requested)
        cs))
by_policy latest_patch requested cs = max_by by_version (
    filter (λ c. same_feature_band (version_of c) requested && at_least (version_of c) requested)
      cs)
by_policy latest_feature requested cs =
    max_by by_version
      (filter (λ c. same_minor (version_of c) requested && at_least (version_of c) requested) cs)
by_policy latest_minor requested cs =
    max_by by_version
      (filter (λ c. c.1.version.major == requested.major && at_least (version_of c) requested) cs)
by_policy latest_major requested cs =
    max_by by_version (filter (λ c. at_least (version_of c) requested) cs)
by_policy feature requested cs =
    select_nearest_group (λ v. (feature_band v, 0, 0))
      (filter (λ c. same_minor (version_of c) requested && at_least (version_of c) requested) cs)
by_policy minor requested cs =
    select_nearest_group (λ v. (v.minor, feature_band v, 0))
      (filter (λ c. c.1.version.major == requested.major && at_least (version_of c) requested) cs)
by_policy major requested cs =
    select_nearest_group (λ v. (v.major, v.minor, feature_band v))
      (filter (λ c. at_least (version_of c) requested) cs)

abbrev pub by_request : Option SdkVersion → RollForward → List Candidate → Option Candidate
by_request none policy cs = max_by by_version cs
by_request (some requested) policy cs = by_policy policy requested cs

-- the filters on the root and on prereleases
abbrev pub offered : ℕ → Bool → Candidate → Bool
offered root_index allow_prerelease c =
    c.1.root_index == root_index && (allow_prerelease || not (is_prerelease (version_of c)))

abbrev pub candidates : ℕ → Bool → List SdkInstallation → List Candidate
candidates root_index allow_prerelease installations =
    filter (λ c. allow_prerelease || not (is_prerelease (version_of c)))
      (filter (λ c. c.1.root_index == root_index) (enumerate 0 installations))

-- `select_from_root`, with the installation beside its index
unfoldable pub select_from_root :
    List SdkInstallation → ℕ → Option SdkVersion → RollForward → Bool → Option Candidate
unfolding by_policy
select_from_root installations root_index requested policy allow_prerelease =
    by_request requested policy (candidates root_index allow_prerelease installations)

-- `find_map` over the indices of the roots, from `i` on for `n` roots; an index is cast to 16 bits
unfoldable pub select_in_roots :
    List SdkInstallation → ℕ → ℕ → Option SdkVersion → RollForward → Bool → Option Candidate
select_in_roots installations i zero requested policy allow_prerelease = none
select_in_roots installations i (suc n) requested policy allow_prerelease =
    or_else (select_from_root installations (i % 2 ^ 16) requested policy allow_prerelease)
      (select_in_roots installations (i + 1) n requested policy allow_prerelease)

-- of `SdkErrorKind` what the selection answers with
pub data SelectionError : Type 0 where
  global_json no_compatible_sdk : SelectionError

abbrev pub policy_of : Option RollForward → Option SdkVersion → RollForward
policy_of (some policy) requested = policy
policy_of none (some requested) = patch
policy_of none none = latest_major

-- a version is required unless the policy is `latestMajor`
abbrev pub acceptable : RollForward → Option SdkVersion → Bool
acceptable latest_major requested = true
acceptable policy (some requested) = true
acceptable policy none = false

abbrev selected : Option Candidate → Result SelectionError ℕ
selected none = err no_compatible_sdk
selected (some c) = ok c.0

-- what `discover_sdks_in_roots` does once the installations are known
unfoldable pub select_sdk :
    List SdkInstallation
    → ℕ
    → Option SdkVersion
    → Option RollForward
    → Option Bool
    → Result SelectionError ℕ
unfolding select_in_roots
select_sdk installations roots requested roll_forward allow_prerelease =
    if acceptable (policy_of roll_forward requested) requested
    then selected (
        select_in_roots installations 0 roots requested (policy_of roll_forward requested)
          (elim allow_prerelease [ none ↦ true | some allowed ↦ allowed ]))
    else err global_json
