-- ===== src/Package/Range/Laws.antt =====
-- What `VersionRange::contains`, the emptiness test of `VersionRange::parse` and `is_better` mean for
-- the order of versions.
use dv.Common.{◌≡◌, true, false, some, Bool-cases, Option-cases, inl, inr, arith}
use dv.Common.Order.{cmp_refl}
use dv.Package.Version.{PackageVersion, cmp}
use dv.Package.Version.Order.{cmp-IsOrder}
use dv.Package.Range.{VersionBound, VersionRange, contains, is_better, is_gt, floats, better_of}
use dv.Package.Range.Parse.{crossed}
open cmp-IsOrder use {flip, same, trans}

-- A range between two crossed bounds contains no version.
pub crossed-contains :
    (l u : VersionBound) (v : PackageVersion)
    → crossed l u ≡ true
    → contains (record { lower = some l; upper = some u }) v ≡ false
unfolding crossed contains
crossed-contains l u v h = ground (
  arith,
  flip v l.version,
  flip v u.version,
  flip l.version u.version,
  same v l.version u.version,
  same v u.version l.version,
  same l.version u.version v,
  trans l.version v u.version,
)

-- Where the bounds are not crossed, an inclusive lower bound lies in the range.
pub contains-lower :
    (l u : VersionBound)
    → crossed l u ≡ false
    → l.inclusive ≡ true
    → contains (record { lower = some l; upper = some u }) l.version ≡ true
unfolding crossed contains
contains-lower l u h k = ground (arith, cmp_refl cmp-IsOrder l.version)

module _ (b : VersionBound) where
  better_of_trans :
      (u v w : PackageVersion)
      → better_of b u v ≡ true
      → better_of b v w ≡ true
      → better_of b u w ≡ true
  better_of_trans u v w p q = ground (arith, flip u v, flip v w, flip u w, trans u v w, trans w v u)

gt_trans :
    (u v w : PackageVersion)
    → is_gt (cmp u v) ≡ true
    → is_gt (cmp v w) ≡ true
    → is_gt (cmp u w) ≡ true
gt_trans u v w p q = ground (arith, flip u v, flip v w, flip u w, trans w v u)

-- The preference of a range is transitive: what is better than a better version is better.
pub is_better_trans :
    (r : VersionRange) (u v w : PackageVersion)
    → is_better r u v ≡ true
    → is_better r v w ≡ true
    → is_better r u w ≡ true
unfolding is_better
is_better_trans r u v w p q = elim (Option-cases r.lower) [
  | inl none_e ↦
      rw (none_e, is_better)
        (gt_trans u v w (rw (none_e, is_better) at p) (rw (none_e, is_better) at q))
  | inr (b, e) ↦ elim (Bool-cases (floats b)) [
    | inl f ↦
        rw (e, is_better, f)
          (better_of_trans b u v w (rw (e, is_better, f) at p) (rw (e, is_better, f) at q))
    | inr f ↦
        rw (e, is_better, f)
          (gt_trans u v w (rw (e, is_better, f) at p) (rw (e, is_better, f) at q))
  ]
]

-- No version is preferred to itself.
pub is_better_irrefl : (r : VersionRange) (v : PackageVersion) → is_better r v v ≡ false
unfolding is_better
is_better_irrefl r v = ground (arith, cmp_refl cmp-IsOrder v)
