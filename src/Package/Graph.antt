-- ===== src/Package/Graph.antt =====
-- The dependency graph that the resolver converges, of crates/dv-core/src/package.rs: its nodes and
-- the choice of a version for one node.
pub mod Selection
pub mod Available
pub mod Choice
pub mod Conflict
pub mod Walk
pub mod Ancestry
pub mod Marking
pub mod Stabilize
pub mod Install
use dv.Common.{
  ℕ, Bool, true, false, ◌&&◌, ◌||◌, not, Option, none, some, List, [], ◌∷◌, ◌++◌, if◌then◌else◌,
  any, all, find, filter, length,
}
use dv.Common.Text.{Text, codes, is_empty}
use dv.Common.Decimal.{show}
use dv.Common.TreeMap.{TreeMap, values}
use dv.Common.Result.{ok, err}
use dv.Package.Error.{PackageErrorKind, PackageError, Fallible, new, with_context, with_cause}
use dv.Package.Version.{PackageVersion, prerelease, cmp}
use dv.Package.Range.{
  VersionBound, VersionRange, is_none, is_some_and, is_gt, is_lt, is_eq, contains,
  allows_prerelease, is_floating, is_better, diagnostic_text,
}
use dv.Package.Range.Parse.{crossed}

-- `PackageAssetFlags`: a byte of flags
abbrev pub AssetFlags : Type 0
AssetFlags = ℕ

pub record PackageRequirement : Type 0 where
  pub id : Text
  pub lower_id : Text
  pub range : VersionRange
  pub direct : Bool
  pub include_assets : AssetFlags
  pub suppress_parent : AssetFlags

pub record CentralPackagePin : Type 0 where
  pub lower_id : Text
  pub version : PackageVersion

pub record ConstraintNode : Type 0 where
  pub id : Text
  pub direct : Option VersionRange
  pub central_pin : Option PackageVersion
  pub constraints : TreeMap VersionRange
  pub selected : Option PackageVersion
  pub metadata_version : Option PackageVersion
  pub dependencies : List PackageRequirement
  pub available_versions : Option (List PackageVersion)
  pub pruned : Bool
  pub generation : ℕ

abbrev pub Nodes : Type 0
Nodes = TreeMap ConstraintNode

pub data NodeSelection : Type 0 where
  version : PackageVersion → NodeSelection
  enumerate : NodeSelection

pub data ConstraintView : Type 0 where
  every : TreeMap VersionRange → ConstraintView
  active : List VersionRange → ConstraintView

-- the ranges that a view shows, in its order
abbrev pub ranges : ConstraintView → List VersionRange
ranges (every constraints) = values constraints
ranges (active constraints) = constraints

-- `consider` of `highest_inclusive_lower`, and `consider_lower`
abbrev pub consider : Option PackageVersion → VersionRange → Option PackageVersion
consider candidate range = elim range.lower [
  | none ↦ candidate
  | some lower ↦
      if lower.inclusive
        && (is_none candidate || is_some_and candidate (λ c. is_gt (cmp lower.version c)))
      then some lower.version
      else candidate
]

unfoldable pub consider_all : Option PackageVersion → List VersionRange → Option PackageVersion
consider_all candidate [] = candidate
consider_all candidate (r ∷ rs) = consider_all (consider candidate r) rs

-- `ConstraintView::highest_inclusive_lower`
unfoldable pub highest_inclusive_lower : ConstraintView → Option PackageVersion
unfolding consider_all
highest_inclusive_lower view = consider_all none (ranges view)

-- Does `candidate` tighten the bound found so far?
abbrev tighter :
    (PackageVersion → PackageVersion → Bool) → VersionBound → Option VersionBound → Bool
tighter beyond candidate none = true
tighter beyond candidate (some current) =
    beyond candidate.version current.version
    || is_eq (cmp candidate.version current.version)
      && (not candidate.inclusive && current.inclusive)

abbrev tighten :
    (PackageVersion → PackageVersion → Bool)
    → Option VersionBound
    → Option VersionBound
    → Option VersionBound
tighten beyond current none = current
tighten beyond current (some candidate) =
    if tighter beyond candidate current then some candidate else current

abbrev pub tighten_lower : Option VersionBound → Option VersionBound → Option VersionBound
tighten_lower = tighten (λ a b. is_gt (cmp a b))

abbrev pub tighten_upper : Option VersionBound → Option VersionBound → Option VersionBound
tighten_upper = tighten (λ a b. is_lt (cmp a b))

-- the loop of `inspect`: the tightest lower and upper bound
unfoldable pub tightest :
    Option VersionBound
    → Option VersionBound
    → List VersionRange
    → Option VersionBound × Option VersionBound
tightest lower upper [] = (lower, upper)
tightest lower upper (r ∷ rs) =
    tightest (tighten_lower lower r.lower) (tighten_upper upper r.upper) rs

abbrev pub crossed_options : Option VersionBound × Option VersionBound → Bool
crossed_options (some l, some u) = crossed l u
crossed_options (some l, none) = false
crossed_options (none, u) = false

-- `ConstraintView::has_empty_intersection`
unfoldable pub has_empty_intersection : ConstraintView → Bool
unfolding tightest crossed
has_empty_intersection view = crossed_options (tightest none none (ranges view))

-- `ConstraintView::diagnostic_ranges`
unfoldable pub join_ranges : Text → List VersionRange → Text
join_ranges text [] = text
join_ranges text (r ∷ rs) =
    join_ranges ((if is_empty text then text else text ++ codes "; ") ++ diagnostic_text r) rs

abbrev pub diagnostic_ranges : ConstraintView → Text
diagnostic_ranges view = join_ranges [] (ranges view)

abbrev last_of : List PackageVersion → Option PackageVersion
last_of [] = none
last_of (v ∷ []) = some v
last_of (v ∷ w ∷ vs) = last_of (w ∷ vs)

-- `version_not_found_error`
abbrev pub version_not_found_error : Text → Text → Option (List PackageVersion) → PackageError
version_not_found_error id requested available =
    let e =
      with_context
        (with_context (new PackageErrorKind.version_not_found id) (codes "package_id") id)
        (codes "required_range") requested in
    elim available [
      | none ↦ e
      | some versions ↦
          let counted = with_context e (codes "available_versions") (show (length versions)) in
          elim (last_of versions) [
            | none ↦ counted
            | some nearest ↦ with_context counted (codes "nearest_version") nearest.normalized
          ]
    ]

abbrev downgrade_error : ConstraintNode → PackageVersion → VersionRange → PackageError
downgrade_error node pin required =
    with_cause
      (with_context
        (with_context
          (with_context (new PackageErrorKind.downgrade node.id) (codes "package_id") node.id)
          (codes "selected_version") pin.normalized)
        (codes "required_range") (diagnostic_text required))
      (codes "CentralPackageTransitivePinning forced the selected version")

-- The branch for a central pin. `binary_search` of the sorted versions finds an equal one.
unfoldable pub select_pinned : ConstraintNode → PackageVersion → Fallible NodeSelection
select_pinned node pin = elim (find (λ r. not (contains r pin)) (values node.constraints)) [
  | some required ↦ err (downgrade_error node pin required)
  | none ↦
      if is_some_and node.available_versions (λ vs. not (any (λ v. is_eq (cmp v pin)) vs))
      then err (
          version_not_found_error node.id (b'[' ∷ (pin.normalized ++ (b']' ∷ [])))
            node.available_versions)
      else ok (version pin)
]

abbrev pub conflict_error : ConstraintNode → ConstraintView → PackageError
conflict_error node view =
    with_context
      (with_context (new PackageErrorKind.constraint_conflict node.id) (codes "package_id") node.id)
      (codes "required_ranges") (diagnostic_ranges view)

-- the closure `accepts`
unfoldable pub accepts : ConstraintNode → ConstraintView → PackageVersion → Bool
accepts node view v = elim node.direct [
  | some direct ↦ (is_none (prerelease v) || allows_prerelease direct) && contains direct v
  | none ↦
      (is_none (prerelease v) || any allows_prerelease (ranges view))
      && all (λ r. contains r v) (ranges view)
]

-- the range by which the available versions are weighed, if one floats
unfoldable pub preference : ConstraintNode → ConstraintView → Option VersionRange
preference node view =
    let shared = find is_floating (ranges view) in
    elim node.direct [
      | some direct ↦ if is_floating direct then some direct else shared
      | none ↦ shared
    ]

-- the loop over the accepted versions under a preference
unfoldable pub best_of :
    VersionRange → Option PackageVersion → List PackageVersion → Option PackageVersion
best_of r selected [] = selected
best_of r selected (v ∷ vs) =
    best_of r
      (if is_none selected || is_some_and selected (λ current. is_better r current v)
        then some v
        else selected)
      vs

abbrev pub pick : Option VersionRange → List PackageVersion → Option PackageVersion
pick none [] = none
pick none (v ∷ vs) = some v
pick (some r) vs = best_of r none vs

abbrev pub requested_text : ConstraintNode → ConstraintView → Text
requested_text node view = elim node.direct [
  | some direct ↦ diagnostic_text direct
  | none ↦ diagnostic_ranges view
]

-- `selected.map(NodeSelection::Version).ok_or_else(…)`
abbrev pub answer : Option PackageVersion → PackageError → Fallible NodeSelection
answer none e = err e
answer (some v) e = ok (version v)

-- the branch for a node whose versions have been enumerated
unfoldable pub select_available :
    ConstraintNode → ConstraintView → List PackageVersion → Fallible NodeSelection
unfolding accepts preference best_of
select_available node view versions =
    answer (pick (preference node view) (filter (accepts node view) versions))
      (version_not_found_error node.id (requested_text node view) node.available_versions)

abbrev pub candidate_of : ConstraintNode → ConstraintView → Option PackageVersion
candidate_of node view = elim node.direct [
  | some direct ↦ consider none direct
  | none ↦ highest_inclusive_lower view
]

abbrev pub usable : ConstraintNode → ConstraintView → Option PackageVersion → NodeSelection
usable node view none = enumerate
usable node view (some v) = if accepts node view v then version v else enumerate

abbrev pub has_floating : ConstraintNode → ConstraintView → Bool
has_floating node view = is_some_and node.direct is_floating || any is_floating (ranges view)

-- the branch for a node without an enumeration: a lower bound may do
unfoldable pub select_lower : ConstraintNode → ConstraintView → NodeSelection
unfolding accepts
select_lower node view =
    if has_floating node view then enumerate else usable node view (candidate_of node view)

abbrev pub select_from :
    ConstraintNode → ConstraintView → Option (List PackageVersion) → Fallible NodeSelection
select_from node view none = ok (select_lower node view)
select_from node view (some versions) = select_available node view versions

-- what follows the branch for a central pin
unfoldable pub select_unpinned : ConstraintNode → ConstraintView → Fallible NodeSelection
unfolding select_available select_lower has_empty_intersection
select_unpinned node view =
    if is_none node.direct && has_empty_intersection view
    then err (conflict_error node view)
    else select_from node view node.available_versions

-- which branch is taken for the direct range and the central pin of the node
abbrev pub branch :
    Option VersionRange
    → Option PackageVersion
    → ConstraintNode
    → ConstraintView
    → Fallible NodeSelection
branch (some _) pin node view = select_unpinned node view
branch none (some pin) node view = select_pinned node pin
branch none none node view = select_unpinned node view

-- `select_node_version_with_constraints`
unfoldable pub select_node_version_with_constraints :
    ConstraintNode → ConstraintView → Fallible NodeSelection
unfolding select_pinned select_unpinned
select_node_version_with_constraints node view = branch node.direct node.central_pin node view
