-- ===== src/Package/Graph/Choice.antt =====
-- The versions that `select_node_version_with_constraints` of crates/dv-core/src/package.rs may choose.
use mathlib.Core.Path.{ap₂}
use dv.Common.{
  ◌≡◌, refl, ap, sym, ◌∙◌, Bool, true, false, ◌&&◌, ◌||◌, not, Option, none, some, List, [], ◌∷◌,
  if◌then◌else◌, any, find, All, all→All, Bool-cases, Option-cases, inl, inr, arith,
}
use dv.Common.Result.{ok, err}
use dv.Common.TreeMap.{values}
use dv.Package.Error.{Fallible, PackageError}
use dv.Package.Version.{PackageVersion, prerelease}
use dv.Package.Range.{VersionRange, contains, is_none, allows_prerelease}
use dv.Package.Graph.{
  branch, ConstraintNode, ConstraintView, NodeSelection, version, enumerate, ranges,
  has_empty_intersection, select_pinned, accepts, usable, has_floating, select_from, conflict_error,
  conflict_error, candidate_of, select_lower, select_unpinned, select_node_version_with_constraints,
}
use dv.Package.Graph.Available.{select_available_sound}

-- The prerelease rule: a version with a label only where a range that counts allows one.
abbrev pub Admits : ConstraintNode → ConstraintView → PackageVersion → Type 0
Admits node view v =
    (is_none (prerelease v) || (elim node.direct [
      | some d ↦ allows_prerelease d
      | none ↦ any allows_prerelease (ranges view)
    ]))
    ≡ true

-- The ranges that count: the direct reference alone, else every range of the view.
abbrev pub Meets : ConstraintNode → ConstraintView → PackageVersion → Type 0
Meets node view v = elim node.direct [
  | some d ↦ contains d v ≡ true
  | none ↦ All (λ r. contains r v ≡ true) (ranges view)
]

and_split : (a b : Bool) → (a && b) ≡ true → (a ≡ true) × (b ≡ true)
and_split a b h = ground arith

accepts-Meets :
    (node : ConstraintNode) (view : ConstraintView) (v : PackageVersion)
    → accepts node view v ≡ true
    → Admits node view v × Meets node view v
unfolding accepts
accepts-Meets node view v h = elim (Option-cases node.direct) [
  | inl free ↦
      let (a, m) = and_split _ _ (rw (free, accepts) at h) in
      rw free (a, all→All (λ r. contains r v) (ranges view) m)
  | inr (d, direct) ↦ let (a, m) = and_split _ _ (rw (direct, accepts) at h) in rw direct (a, m)
]

usable-accepts :
    (node : ConstraintNode) (view : ConstraintView) (o : Option PackageVersion) (v : PackageVersion)
    → usable node view o ≡ version v
    → accepts node view v ≡ true
usable-accepts node view none v h = cc
usable-accepts node view (some w) v h = elim (Bool-cases (accepts node view w)) [
  | inl a ↦
      let e : version w ≡ version v = rw a at h in
      let same_v : w ≡ v = cc e in ap (accepts node view) (sym same_v) ∙ a
  | inr no_a ↦ let e : enumerate ≡ version v = rw no_a at h in cc e
]

select_lower_lem :
    (node : ConstraintNode) (view : ConstraintView)
    → select_lower node view
      ≡ (if has_floating node view then enumerate else usable node view (candidate_of node view))
unfolding select_lower
select_lower_lem node view = refl

select_lower-accepts :
    (node : ConstraintNode) (view : ConstraintView) (v : PackageVersion)
    → select_lower node view ≡ version v
    → accepts node view v ≡ true
select_lower-accepts node view v h = elim (Bool-cases (has_floating node view)) [
  | inl f ↦ let e : enumerate ≡ version v = rw f at (sym (select_lower_lem node view) ∙ h) in cc e
  | inr f ↦
      usable-accepts node view (candidate_of node view) v
        (rw f at (sym (select_lower_lem node view) ∙ h))
]

select_from-accepts :
    (node : ConstraintNode) (view : ConstraintView) (o : Option (List PackageVersion))
    (v : PackageVersion)
    → select_from node view o ≡ ok (version v)
    → accepts node view v ≡ true
select_from-accepts node view none v h = select_lower-accepts node view v (cc h)
select_from-accepts node view (some vs) v h = (select_available_sound node view vs v h).0

unblocked :
    (b : Bool) (e : PackageError) (m : Fallible NodeSelection) (v : PackageVersion)
    → (if b then err e else m) ≡ ok (version v)
    → m ≡ ok (version v)
unblocked true e m v h = cc
unblocked false e m v h = h

select_unpinned_lem :
    (node : ConstraintNode) (view : ConstraintView)
    → select_unpinned node view ≡ (
        if is_none node.direct && has_empty_intersection view
        then err (conflict_error node view)
        else select_from node view node.available_versions)
unfolding select_unpinned
select_unpinned_lem node view = refl

select_unpinned-accepts :
    (node : ConstraintNode) (view : ConstraintView) (v : PackageVersion)
    → select_unpinned node view ≡ ok (version v)
    → accepts node view v ≡ true
select_unpinned-accepts node view v h = select_from-accepts node view node.available_versions v (
    unblocked (is_none node.direct && has_empty_intersection view) (conflict_error node view)
      (select_from node view node.available_versions) v (sym (select_unpinned_lem node view) ∙ h))

find-All :
    (pin : PackageVersion) (rs : List VersionRange)
    → find (λ r. not (contains r pin)) rs ≡ none
    → All (λ r. contains r pin ≡ true) rs
find-All pin [] h = tt
find-All pin (r ∷ rs) h = elim (Bool-cases (contains r pin)) [
  | inl c ↦ (c, find-All pin rs (rw c at h))
  | inr c ↦ absurd (ground arith)
]

select_pinned-ok :
    (node : ConstraintNode) (pin v : PackageVersion)
    → select_pinned node pin ≡ ok (version v)
    → (v ≡ pin) × All (λ r. contains r pin ≡ true) (values node.constraints)
unfolding select_pinned
select_pinned-ok node pin v h =
    elim (Option-cases (find (λ r. not (contains r pin)) (values node.constraints))) [
      | inl fits ↦ (ground arith, find-All pin (values node.constraints) fits)
      | inr (r, misfit) ↦ absurd (ground arith)
    ]

-- What a chosen version has to be: for a direct reference or an unpinned node, a version that the
-- ranges that count contain and whose label they allow; for a transitive node with a central pin,
-- the pin, and every range of the node contains it.
abbrev pub IsChoice : ConstraintNode → ConstraintView → PackageVersion → Type 0
IsChoice node view v = elim node.direct [
  | some d ↦ Admits node view v × Meets node view v
  | none ↦ elim node.central_pin [
    | some pin ↦ (v ≡ pin) × All (λ r. contains r pin ≡ true) (values node.constraints)
    | none ↦ Admits node view v × Meets node view v
  ]
]

module _ (node : ConstraintNode) (view : ConstraintView) where
  select_lem :
      (d : Option VersionRange) (p : Option PackageVersion)
      → node.direct ≡ d
      → node.central_pin ≡ p
      → branch d p node view ≡ select_node_version_with_constraints node view
  unfolding select_node_version_with_constraints
  select_lem d p e k = ap₂ (λ x y. branch x y node view) (sym e) (sym k)

-- A version that is chosen for a node is a right choice. Where the node has a direct reference, that
-- range contains the version and, for a prerelease, allows it. Without one, a central pin is the
-- version and lies in every range of the node. Without either, every range of the view contains the
-- version and, for a prerelease, one of them allows it.
pub select_node_version-IsChoice :
    (node : ConstraintNode) (view : ConstraintView) (v : PackageVersion)
    → select_node_version_with_constraints node view ≡ ok (version v)
    → IsChoice node view v
select_node_version-IsChoice node view v h = elim (Option-cases node.direct) [
  | inr (d, direct) ↦
      let a =
        select_unpinned-accepts node view v
          (select_lem node view (some d) node.central_pin direct refl ∙ h) in
      rw direct (rw direct at (accepts-Meets node view v a))
  | inl free ↦ elim (Option-cases node.central_pin) [
    | inr (pin, pinned) ↦
        rw (free, pinned)
          (select_pinned-ok node pin v (select_lem node view none (some pin) free pinned ∙ h))
    | inl unpinned ↦
        let a =
          select_unpinned-accepts node view v (select_lem node view none none free unpinned ∙ h) in
        rw (free, unpinned) (rw free at (accepts-Meets node view v a))
  ]
]
