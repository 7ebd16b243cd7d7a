-- ===== src/Package/Graph/Conflict.antt =====
-- What the emptiness test of `ConstraintView` means for versions.
use dv.Common.{
  ◌≡◌, refl, true, false, Option, none, some, List, [], ◌∷◌, All, Bool-cases, inl, inr, arith,
}
use dv.Package.Version.{PackageVersion}
use dv.Package.Range.{VersionBound, VersionRange, contains, is_none_or, above, below}
use dv.Package.Range.Parse.{crossed}
use dv.Package.Range.Laws.{crossed-contains}
use dv.Package.Graph.{
  ConstraintView, ranges, tightest, tighten_lower, tighten_upper, crossed_options,
  has_empty_intersection,
}

-- `v` is within the bounds found so far
abbrev Within : Option VersionBound → Option VersionBound → PackageVersion → Type 0
Within l u v = (is_none_or l (above v) ≡ true) × (is_none_or u (below v) ≡ true)

lower-Within :
    (v : PackageVersion) (o c : Option VersionBound)
    → is_none_or o (above v) ≡ true
    → is_none_or c (above v) ≡ true
    → is_none_or (tighten_lower o c) (above v) ≡ true
lower-Within v o none h k = h
lower-Within v none (some c) h k = k
lower-Within v (some o) (some c) h k = ground arith

upper-Within :
    (v : PackageVersion) (o c : Option VersionBound)
    → is_none_or o (below v) ≡ true
    → is_none_or c (below v) ≡ true
    → is_none_or (tighten_upper o c) (below v) ≡ true
upper-Within v o none h k = h
upper-Within v none (some c) h k = k
upper-Within v (some o) (some c) h k = ground arith

contains_iff-Within :
    (r : VersionRange) (v : PackageVersion) → contains r v ≡ true → Within r.lower r.upper v
unfolding contains
contains_iff-Within r v h = ground arith

-- A version in every range is within the tightest bounds.
tightest-Within :
    (rs : List VersionRange) (l u : Option VersionBound) (v : PackageVersion)
    → Within l u v
    → All (λ r. contains r v ≡ true) rs
    → Within (tightest l u rs).0 (tightest l u rs).1 v
unfolding tightest
tightest-Within [] l u v h k = h
tightest-Within (r ∷ rs) l u v h (p, k) =
    let (a, b) = contains_iff-Within r v p in
    tightest-Within rs (tighten_lower l r.lower) (tighten_upper u r.upper) v
      (lower-Within v l r.lower h.0 a, upper-Within v u r.upper h.1 b) k

crossed-Within :
    (b : Option VersionBound × Option VersionBound) (v : PackageVersion)
    → Within b.0 b.1 v
    → crossed_options b ≡ false
unfolding contains
crossed-Within (none, u) v h = refl
crossed-Within (some l, none) v h = refl
crossed-Within (some l, some u) v h = elim (Bool-cases (crossed l u)) [
  | inl bad ↦ absurd (ground (arith, crossed-contains l u v bad))
  | inr fine ↦ fine
]

-- A conflict is reported only where no version lies in all the ranges.
pub conflict_sound :
    (view : ConstraintView)
    → has_empty_intersection view ≡ true
    → (v : PackageVersion) → ¬ (All (λ r. contains r v ≡ true) (ranges view))
unfolding has_empty_intersection
conflict_sound view h v k = cc (
  h,
  crossed-Within (tightest none none (ranges view)) v
      (tightest-Within (ranges view) none none v (refl, refl) k),
)
