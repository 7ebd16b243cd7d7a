-- ===== src/Sdk/Selection/Choice.antt =====
-- Which SDK `select_from_root` of crates/dv-core/src/sdk.rs chooses.
use mathlib.Core.Path.{subst}
use dv.Common.{
  ℕ, ◌≡◌, ◌≢◌, refl, Bool, true, false, ◌&&◌, ◌||◌, not, Option, none, some, List, Ordering, lt, eq,
  gt, compare, ◌==◌, filter, find, find-some, find-none, if_either, All, All-Has, All-of-Has, ◌⊎◌,
  inr, if◌then◌else◌, arith,
}
use dv.Common.Order.{IsOrder, compare-IsOrder, then_with-IsOrder, key-IsOrder, graded-IsOrder}
use dv.Common.Select.{
  IsBest, swap-IsOrder, max_by-Best, min_by-Best, find-Best, filter-filter, filter_all, Best-filter,
  max_by,
}
use dv.Sdk.Version.{SdkVersion, cmp, is_prerelease, same_feature_band, feature_band}
use dv.Sdk.Version.Order.{sdk_cmp-IsOrder}
use dv.Sdk.Selection.{
  RollForward, patch, feature, minor, major, latest_patch, latest_feature, latest_minor,
  latest_major, disable, SdkInstallation, Candidate, enumerate, version_of, is_same, at_least,
  by_version, Group, group_cmp, by_group, or_else, same_minor, by_policy, by_request, offered,
  select_from_root,
}

by_version-IsOrder : IsOrder by_version
by_version-IsOrder = key-IsOrder version_of cmp sdk_cmp-IsOrder

group_cmp-IsOrder : IsOrder group_cmp
group_cmp-IsOrder =
    then_with-IsOrder _ _ (key-IsOrder (λ (g : Group). g.0) compare compare-IsOrder) (
      then_with-IsOrder _ _ (key-IsOrder (λ (g : Group). g.1) compare compare-IsOrder)
        (key-IsOrder (λ (g : Group). g.2) compare compare-IsOrder))

by_group-IsOrder : (group : SdkVersion → Group) → IsOrder (by_group group)
by_group-IsOrder group =
    then_with-IsOrder _ _ (key-IsOrder (λ c. group (version_of c)) group_cmp group_cmp-IsOrder)
      (swap-IsOrder by_version-IsOrder)

-- Which versions a policy permits for the requested one.
abbrev pub permits : RollForward → SdkVersion → SdkVersion → Bool
permits disable requested v = is_same v requested
permits patch requested v = same_feature_band v requested && at_least v requested
permits latest_patch requested v = same_feature_band v requested && at_least v requested
permits feature requested v = same_minor v requested && at_least v requested
permits latest_feature requested v = same_minor v requested && at_least v requested
permits minor requested v = v.major == requested.major && at_least v requested
permits latest_minor requested v = v.major == requested.major && at_least v requested
permits major requested v = at_least v requested
permits latest_major requested v = at_least v requested

abbrev pub highest_first : Candidate → Candidate → Ordering
highest_first a b = by_version b a

-- the requested version itself before all others
abbrev pub exact_first : SdkVersion → Candidate → Candidate → Ordering
exact_first requested a b =
    if is_same (version_of a) requested
    then (if is_same (version_of b) requested then eq else lt)
    else if is_same (version_of b) requested
    then gt
    else highest_first a b

-- In which order a policy prefers what it permits.
abbrev pub preference : RollForward → SdkVersion → Candidate → Candidate → Ordering
preference disable requested = highest_first
preference patch requested = exact_first requested
preference latest_patch requested = highest_first
preference latest_feature requested = highest_first
preference latest_minor requested = highest_first
preference latest_major requested = highest_first
preference feature requested = by_group (λ v. (feature_band v, 0, 0))
preference minor requested = by_group (λ v. (v.minor, feature_band v, 0))
preference major requested = by_group (λ v. (v.major, v.minor, feature_band v))

abbrev pub wanted : Option SdkVersion → RollForward → Candidate → Bool
wanted none policy c = true
wanted (some requested) policy c = permits policy requested (version_of c)

abbrev pub preferred : Option SdkVersion → RollForward → Candidate → Candidate → Ordering
preferred none policy = highest_first
preferred (some requested) policy = preference policy requested

exact_first-IsOrder : (requested : SdkVersion) → IsOrder (exact_first requested)
exact_first-IsOrder requested =
    graded-IsOrder (λ c. is_same (version_of c) requested) (λ a b. eq) highest_first
      (record { flip = λ a b. refl; same = λ a b c h. refl; trans = λ a b c h k. cc })
      (swap-IsOrder by_version-IsOrder)

-- A version that compares equal is in the same feature band.
same_band : (v r : SdkVersion) → is_same v r ≡ true → same_feature_band v r ≡ true
unfolding same_feature_band feature_band cmp
same_band v r h = ground (arith, h)

module _ (requested : SdkVersion) (cs : List Candidate) where
  without_exact :
      (p : Candidate → Bool) (o : Option Candidate)
      → All (λ c. is_same (version_of c) requested ≡ false) cs
      → IsBest p highest_first cs o
      → IsBest p (exact_first requested) cs o
  without_exact p none h k = k
  without_exact p (some r) h (m, q, k) =
      let other = All-Has (λ c. is_same (version_of c) requested ≡ false) cs m h in
      (
        m,
        q,
        All-of-Has (λ x. (p x ≡ false) ⊎ (exact_first requested r x ≢ gt)) cs
            (λ x j.
              let other_x = All-Has (λ c. is_same (version_of c) requested ≡ false) cs j h in
              let below = All-Has (λ y. (p y ≡ false) ⊎ (highest_first r y ≢ gt)) cs j k in
              rw (other, other_x) below),
      )

  patch-Best :
      (o : Option Candidate)
      → find (λ c. is_same (version_of c) requested) cs ≡ o
      → IsBest
          (λ c. permits patch requested (version_of c))
          (exact_first requested)
          cs
          (or_else o (max_by by_version (filter (λ c. permits patch requested (version_of c)) cs)))
  patch-Best (some r) e =
      let (m, q) = find-some (λ c. is_same (version_of c) requested) cs e in
      (
        m,
        ground (arith, q, same_band (version_of r) requested q),
        All-of-Has
            (λ x.
              (permits patch requested (version_of x) ≡ false) ⊎ (exact_first requested r x ≢ gt))
            cs
            (λ x j. inr (
              rw q (
                if_either (λ o. o ≢ gt) (is_same (version_of x) requested) eq lt (λ _ k. cc)
                  (λ _ k. cc)))),
      )
  patch-Best none e =
      without_exact (λ c. permits patch requested (version_of c)) _
        (find-none (λ c. is_same (version_of c) requested) cs e)
        (max_by-Best by_version-IsOrder (λ c. permits patch requested (version_of c)) cs)

-- The choice among the candidates is one that the policy permits, no other that it permits comes
-- first in its order of preference, and there is none only where none is permitted.
by_policy-Best :
    (policy : RollForward) (requested : SdkVersion) (cs : List Candidate)
    → IsBest
        (λ c. permits policy requested (version_of c))
        (preference policy requested)
        cs
        (by_policy policy requested cs)
unfolding by_policy
by_policy-Best disable requested cs =
    find-Best (swap-IsOrder by_version-IsOrder) (λ c. is_same (version_of c) requested) cs
      (λ a b h k e. ground (
        arith,
        h,
        k,
        e,
        sdk_cmp-IsOrder.same (version_of b) requested (version_of a),
        sdk_cmp-IsOrder.flip (version_of a) requested,
      ))
by_policy-Best patch requested cs = patch-Best requested cs _ refl
by_policy-Best latest_patch requested cs = max_by-Best by_version-IsOrder _ cs
by_policy-Best latest_feature requested cs = max_by-Best by_version-IsOrder _ cs
by_policy-Best latest_minor requested cs = max_by-Best by_version-IsOrder _ cs
by_policy-Best latest_major requested cs = max_by-Best by_version-IsOrder _ cs
by_policy-Best feature requested cs =
    min_by-Best (by_group-IsOrder (λ v. (feature_band v, 0, 0))) _ cs
by_policy-Best minor requested cs =
    min_by-Best (by_group-IsOrder (λ v. (v.minor, feature_band v, 0))) _ cs
by_policy-Best major requested cs =
    min_by-Best (by_group-IsOrder (λ v. (v.major, v.minor, feature_band v))) _ cs

by_request-Best :
    (requested : Option SdkVersion) (policy : RollForward) (cs : List Candidate)
    → IsBest
        (wanted requested policy)
        (preferred requested policy)
        cs
        (by_request requested policy cs)
by_request-Best none policy cs =
    subst (λ ys. IsBest (λ _. true) highest_first cs (max_by by_version ys)) (filter_all cs)
      (max_by-Best by_version-IsOrder (λ _. true) cs)
by_request-Best (some requested) policy cs = by_policy-Best policy requested cs

-- The choice from one root is an installation of that root that the request and the policy permit, a
-- prerelease only if they are allowed; no other that is permitted there comes first in the policy's
-- order of preference; and there is none only where none is permitted.
pub select_from_root-Best :
    (installations : List SdkInstallation) (root_index : ℕ) (requested : Option SdkVersion)
    (policy : RollForward) (allow_prerelease : Bool)
    → IsBest
        (λ c. offered root_index allow_prerelease c && wanted requested policy c)
        (preferred requested policy)
        (enumerate 0 installations)
        (select_from_root installations root_index requested policy allow_prerelease)
unfolding select_from_root
select_from_root-Best installations root_index requested policy allow_prerelease =
    rw
      (filter-filter (λ c. allow_prerelease || not (is_prerelease (version_of c)))
        (λ c. c.1.root_index == root_index) (enumerate 0 installations))
      (Best-filter (wanted requested policy) (offered root_index allow_prerelease)
        (preferred requested policy) (enumerate 0 installations) _
        (by_request-Best requested policy _))
