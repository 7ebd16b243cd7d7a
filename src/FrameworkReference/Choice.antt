-- ===== src/FrameworkReference/Choice.antt =====
-- Which installed runtime crates/dv-core/src/framework_reference.rs chooses.
use mathlib.Core.Path.{subst}
use dv.Common.{
  ◌≡◌, ◌≢◌, sym, Bool, true, false, ◌&&◌, Option, none, some, List, Ordering, gt, ◌==◌, filter, map,
  Has-map, map-Has, Has, All-Has, All-of-Has, Has-filter, filter-Has, ◌⊎◌, inl, inr, Bool-cases,
  arith,
}
use dv.Common.Order.{then_with}
use dv.Common.Select.{
  IsBest, swap-IsOrder, min_by-Best_of, max_by-Best, find-Best, find-filter, filter-filter,
  filter_all, max_by,
}
use dv.FrameworkReference.Order.{runtime_cmp-IsOrder, band_cmp-IsOrder}
use dv.FrameworkReference.{
  RuntimeVersion, cmp, is_same, at_least, RuntimeRollForward, disable, latest_patch, minor, major,
  latest_minor, latest_major, eligible_release, Band, band_cmp, band_of, same_band, in_band,
  select_nearest_band, select_by_policy,
}

-- Which versions a policy may choose for the requested one.
abbrev pub permits : RuntimeRollForward → RuntimeVersion → RuntimeVersion → Bool
permits disable requested v = is_same v requested
permits latest_patch requested v =
    v.major == requested.major && (v.minor == requested.minor && at_least v requested)
permits minor requested v = v.major == requested.major && at_least v requested
permits major requested v = at_least v requested
permits latest_minor requested v = v.major == requested.major && at_least v requested
permits latest_major requested v = at_least v requested

-- In which order it prefers them: the lowest band of a major and a minor version first where the
-- policy looks for the nearest, and then the highest version.
abbrev pub nearest_first : RuntimeVersion → RuntimeVersion → Ordering
nearest_first a b = then_with (band_cmp (band_of a) (band_of b)) (cmp b a)

abbrev pub preference : RuntimeRollForward → RuntimeVersion → RuntimeVersion → Ordering
preference disable a b = cmp b a
preference latest_patch a b = cmp b a
preference minor a b = nearest_first a b
preference major a b = nearest_first a b
preference latest_minor a b = cmp b a
preference latest_major a b = cmp b a

abbrev pub eligible : RuntimeRollForward → RuntimeVersion → Bool → RuntimeVersion → Bool
eligible policy requested stable_only v =
    eligible_release stable_only v && permits policy requested v

module _ (installed : List RuntimeVersion) (requested : RuntimeVersion) where
  highest :
      (p q : RuntimeVersion → Bool)
      → IsBest
          (λ v. q v && p v)
          (λ a b. cmp b a)
          installed
          (max_by cmp (filter p (filter q installed)))
  highest p q =
      rw (filter-filter p q installed) (max_by-Best runtime_cmp-IsOrder (λ v. q v && p v) installed)

  module _ (p : RuntimeVersion → Bool)
      (above : (v : RuntimeVersion) → p v ≡ true → at_least v requested ≡ true) where
    nearer :
        (w r x : RuntimeVersion)
        → (p r && (same_band (band_of r) (band_of w) && at_least r requested)) ≡ true
        → p x ≡ true
        → at_least x requested ≡ true
        → band_cmp (band_of w) (band_of x) ≢ gt
        → ((p x && (same_band (band_of x) (band_of w) && at_least x requested)) ≡ false)
          ⊎ (cmp x r ≢ gt)
        → nearest_first r x ≢ gt
    nearer w r x s q a least other e = ground arith

    -- The highest version of the nearest band is the best of all bands.
    nearest-Best :
        (w : RuntimeVersion) (o : Option RuntimeVersion)
        → Has w installed
        → p w ≡ true
        → ((v : RuntimeVersion)
            → Has v installed
            → p v ≡ true
            → band_cmp (band_of w) (band_of v) ≢ gt)
        → IsBest
            (λ v. p v && (same_band (band_of v) (band_of w) && at_least v requested))
            (λ a b. cmp b a)
            installed
            o
        → IsBest p nearest_first installed o
    nearest-Best w none m q least h =
        let e =
          All-Has
            (λ v. (p v && (same_band (band_of v) (band_of w) && at_least v requested)) ≡ false)
            installed m h in
        absurd (ground (arith, e, q, above w q))
    nearest-Best w (some r) m q least (k, s, h) = (
      k,
      ground (arith, s),
      All-of-Has (λ x. (p x ≡ false) ⊎ (nearest_first r x ≢ gt)) installed
          (λ x j. elim (Bool-cases (p x)) [
            | inl yes_p ↦ inr (
                nearer w r x s yes_p (above x yes_p) (least x j yes_p) (
                  All-Has
                    (λ v.
                      ((p v && (same_band (band_of v) (band_of w) && at_least v requested)) ≡ false)
                      ⊎ (cmp v r ≢ gt))
                    installed j h))
            | inr no_p ↦ inl no_p
          ]),
    )

    with_nearest :
        (o : Option Band)
        → IsBest (λ _. true) band_cmp (map band_of (filter p installed)) o
        → IsBest p nearest_first installed (in_band installed requested p o)
    with_nearest none h =
        All-of-Has (λ v. p v ≡ false) installed
          (λ v k. elim (Bool-cases (p v)) [
            | inl yes_p ↦
                let j = Has-map band_of (filter p installed) (Has-filter p installed yes_p k) in
                absurd (
                  true_is_not_false
                    (All-Has (λ _. true ≡ false) (map band_of (filter p installed)) j h))
            | inr no_p ↦ no_p
          ])
      where
        true_is_not_false : true ≢ false
        true_is_not_false e = cc
    with_nearest (some n) (k, _, h) =
        let (w, m, e) = map-Has band_of (filter p installed) k in
        let (q, inside) = filter-Has p installed m in
        subst (λ b. IsBest p nearest_first installed (in_band installed requested p (some b))) e
          (nearest-Best w _ inside q
            (λ v j yes_p.
              let other =
                All-Has (λ b. (true ≡ false) ⊎ (band_cmp n b ≢ gt))
                  (map band_of (filter p installed))
                  (Has-map band_of (filter p installed) (Has-filter p installed yes_p j)) h in
              subst (λ b. band_cmp b (band_of v) ≢ gt) (sym e) (right_of other))
            (max_by-Best runtime_cmp-IsOrder
              (λ v. p v && (same_band (band_of v) (band_of w) && at_least v requested)) installed))
      where
        right_of : {P : Type 0} → (true ≡ false) ⊎ P → P
        right_of (inl e) = cc
        right_of (inr x) = x

    select_nearest_band-Best :
        IsBest p nearest_first installed (select_nearest_band installed requested p)
    unfolding select_nearest_band
    select_nearest_band-Best = with_nearest _ (
        min_by-Best_of band_cmp-IsOrder (λ _. true) (map band_of (filter p installed)) _
          (filter_all (map band_of (filter p installed))))

-- The choice by a policy is an installed version that the policy permits, no other that it permits
-- comes first in the policy's order of preference, and there is none only where none is permitted.
pub select_by_policy-Best :
    (installed : List RuntimeVersion) (requested : RuntimeVersion) (policy : RuntimeRollForward)
    (stable_only : Bool)
    → IsBest
        (eligible policy requested stable_only)
        (preference policy)
        installed
        (select_by_policy installed requested policy stable_only)
unfolding select_by_policy
select_by_policy-Best installed requested disable stable_only =
    rw (find-filter (λ v. is_same v requested) (eligible_release stable_only) installed) (
      find-Best (swap-IsOrder runtime_cmp-IsOrder) (eligible disable requested stable_only)
        installed (λ a b h k. alike a b requested h k))
  where
    alike :
        (a b r : RuntimeVersion)
        → (eligible_release stable_only a && is_same a r) ≡ true
        → (eligible_release stable_only b && is_same b r) ≡ true
        → cmp b a ≢ gt
    alike a b r h k e = ground (arith, runtime_cmp-IsOrder.same b r a, runtime_cmp-IsOrder.flip a r)
select_by_policy-Best installed requested latest_patch stable_only =
    highest installed requested (permits latest_patch requested) (eligible_release stable_only)
select_by_policy-Best installed requested minor stable_only =
    select_nearest_band-Best installed requested (eligible minor requested stable_only)
      (λ v h. ground (arith, h))
select_by_policy-Best installed requested major stable_only =
    select_nearest_band-Best installed requested (eligible major requested stable_only)
      (λ v h. ground (arith, h))
select_by_policy-Best installed requested latest_minor stable_only =
    highest installed requested (permits latest_minor requested) (eligible_release stable_only)
select_by_policy-Best installed requested latest_major stable_only =
    highest installed requested (permits latest_major requested) (eligible_release stable_only)
