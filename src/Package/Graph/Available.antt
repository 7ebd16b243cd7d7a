-- ===== src/Package/Graph/Available.antt =====
-- The choice among enumerated versions in `select_node_version_with_constraints` of
-- crates/dv-core/src/package.rs.
use mathlib.Core.Path.{subst}
use dv.Common.{
  ◌≡◌, ◌≢◌, refl, sym, ◌∙◌, true, false, Option, none, some, List, [], ◌∷◌, filter, filter-Has,
  Has-filter, All-Has, Has, Bool-cases, inl, inr,
}
use dv.Common.Result.{ok, err}
use dv.Package.Error.{PackageError}
use dv.Package.Version.{PackageVersion}
use dv.Package.Range.{VersionRange, is_better}
use dv.Package.Graph.{
  ConstraintNode, ConstraintView, version, accepts, preference, pick, answer,
  version_not_found_error, requested_text, select_available,
}
use dv.Package.Graph.Selection.{pick-ne-none, pick-Has, pick-Unbeaten}

answer-ok :
    (o : Option PackageVersion) (e : PackageError) (v : PackageVersion)
    → answer o e ≡ ok (version v)
    → o ≡ some v
answer-ok none e v h = cc
answer-ok (some w) e v h = cc h

answer-err : (o : Option PackageVersion) (e d : PackageError) → answer o e ≡ err d → o ≡ none
answer-err none e d h = refl
answer-err (some w) e d h = cc

abbrev not_found : ConstraintNode → ConstraintView → PackageError
not_found node view =
    version_not_found_error node.id (requested_text node view) node.available_versions

select_available_lem :
    (node : ConstraintNode) (view : ConstraintView) (vs : List PackageVersion)
    → select_available node view vs
      ≡ answer (pick (preference node view) (filter (accepts node view) vs)) (not_found node view)
unfolding select_available
select_available_lem node view vs = refl

chosen_lem :
    (node : ConstraintNode) (view : ConstraintView) (vs : List PackageVersion) (v : PackageVersion)
    → select_available node view vs ≡ ok (version v)
    → pick (preference node view) (filter (accepts node view) vs) ≡ some v
chosen_lem node view vs v h =
    answer-ok (pick (preference node view) (filter (accepts node view) vs)) (not_found node view) v
      (sym (select_available_lem node view vs) ∙ h)

-- The version that is chosen from an enumeration is one of its versions and is accepted.
pub select_available_sound :
    (node : ConstraintNode) (view : ConstraintView) (vs : List PackageVersion) (v : PackageVersion)
    → select_available node view vs ≡ ok (version v)
    → (accepts node view v ≡ true) × Has v vs
select_available_sound node view vs v h = filter-Has (accepts node view) vs (
    pick-Has (preference node view) (filter (accepts node view) vs) v (chosen_lem node view vs v h))

-- Where a floating range is the preference of a node, no accepted version of its enumeration is
-- better by that range than the version that is chosen.
pub select_available_best :
    (node : ConstraintNode) (view : ConstraintView) (vs : List PackageVersion)
    (v w : PackageVersion) (r : VersionRange)
    → select_available node view vs ≡ ok (version v)
    → preference node view ≡ some r
    → Has w vs
    → accepts node view w ≡ true
    → is_better r v w ≡ false
select_available_best node view vs v w r h pref m a =
    let kept = filter (accepts node view) vs in
    All-Has (λ u. is_better r v u ≡ false) kept (Has-filter (accepts node view) vs a m)
      (pick-Unbeaten r kept v
        (subst (λ o. pick o kept ≡ some v) pref (chosen_lem node view vs v h)))

-- An enumeration is refused only where it has no accepted version.
pub select_available_complete :
    (node : ConstraintNode) (view : ConstraintView) (vs : List PackageVersion) (e : PackageError)
    (w : PackageVersion)
    → select_available node view vs ≡ err e
    → Has w vs
    → accepts node view w ≡ false
select_available_complete node view vs e w h m = elim (Bool-cases (accepts node view w)) [
  | inl a ↦ absurd (
      nonempty (filter (accepts node view) vs) (Has-filter (accepts node view) vs a m) (
        answer-err (pick (preference node view) (filter (accepts node view) vs))
          (not_found node view) e (sym (select_available_lem node view vs) ∙ h)))
  | inr no_a ↦ no_a
]
  where
    nonempty : (kept : List PackageVersion) → Has w kept → pick (preference node view) kept ≢ none
    nonempty [] k = elim k [ ]
    nonempty (u ∷ us) k = pick-ne-none (preference node view) u us
