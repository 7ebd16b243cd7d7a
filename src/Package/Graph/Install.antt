-- ===== src/Package/Graph/Install.antt =====
-- `install_node_dependencies` and `concrete_dependencies` of crates/dv-core/src/package.rs.
pub mod Laws
pub mod Queued
use dv.Common.{
  ℕ, Bool, true, false, ◌&&◌, not, Option, none, some, List, [], ◌∷◌, lt, eq, gt, ◌==◌,
  if◌then◌else◌, find,
}
use dv.Common.Text.{Text, text_cmp, text_eq}
use dv.Common.TreeMap.{TreeSet, get, put, modify, add}
use dv.Common.Result.{ok, err}
use dv.Package.Error.{PackageError, Fallible, resolution_error}
use dv.Package.Version.{PackageVersion, cmp}
use dv.Package.Range.{
  VersionFloatBehavior, fixed, prerelease_floats, revision, patch, minor, major, absolute_latest,
  prerelease_revision, prerelease_patch, prerelease_minor, prerelease_major, VersionBound,
  VersionRange, is_none, is_some_and, is_eq,
}
use dv.Package.Graph.{ConstraintNode, Nodes, PackageRequirement, CentralPackagePin}
use dv.Package.Graph.Marking.{mark_descendants}
use dv.Package.Graph.Stabilize.{same_bool}

abbrev code : VersionFloatBehavior → ℕ
code fixed = 0
code prerelease_floats = 1
code revision = 2
code patch = 3
code minor = 4
code major = 5
code absolute_latest = 6
code prerelease_revision = 7
code prerelease_patch = 8
code prerelease_minor = 9
code prerelease_major = 10

-- the derived `==` of `VersionBound`, `Option<VersionBound>` and `VersionRange`
abbrev same_bound : Option VersionBound → Option VersionBound → Bool
same_bound none none = true
same_bound none (some c) = false
same_bound (some b) none = false
same_bound (some b) (some c) =
    is_eq (cmp b.version c.version)
    && (b.float_prefix_len == c.float_prefix_len
        && (same_bool b.inclusive c.inclusive && code b.float_behavior == code c.float_behavior))

abbrev same_range : VersionRange → VersionRange → Bool
same_range r s = same_bound r.lower s.lower && same_bound r.upper s.upper

-- `sort_unstable_by` the identity; it leaves the order of equal identities open, here they keep it
unfoldable pub insert_sorted :
    PackageRequirement → List PackageRequirement → List PackageRequirement
insert_sorted d [] = d ∷ []
insert_sorted d (e ∷ es) =
    let rest = insert_sorted d es in
    elim (text_cmp d.lower_id e.lower_id) [ lt ↦ d ∷ e ∷ es | eq ↦ d ∷ e ∷ es | gt ↦ e ∷ rest ]

unfoldable pub sort : List PackageRequirement → List PackageRequirement
unfolding insert_sorted
sort [] = []
sort (d ∷ ds) = insert_sorted d (sort ds)

-- the loop over `windows(2)`: the second of two equal identities with different ranges
unfoldable pub clash : List PackageRequirement → Option PackageRequirement
clash [] = none
clash (d ∷ []) = none
clash (d ∷ e ∷ es) =
    let rest = clash (e ∷ es) in
    if text_eq d.lower_id e.lower_id && not (same_range d.range e.range) then some e else rest

abbrev pub keep_first : PackageRequirement → List PackageRequirement → List PackageRequirement
keep_first d [] = d ∷ []
keep_first d (e ∷ es) = if text_eq d.lower_id e.lower_id then d ∷ es else d ∷ e ∷ es

-- `dedup_by` the identity: of a run of equal identities the first is kept
unfoldable pub dedup : List PackageRequirement → List PackageRequirement
dedup [] = []
dedup (d ∷ ds) = keep_first d (dedup ds)

-- the node that `or_insert_with` makes
abbrev pub fresh_node : PackageRequirement → Option PackageVersion → ConstraintNode
fresh_node d pin = record {
  id = d.id;
  direct = none;
  central_pin = pin;
  constraints = [];
  selected = none;
  metadata_version = none;
  dependencies = [];
  available_versions = none;
  pruned = false;
  generation = 0;
}

abbrev pinned_version : Option CentralPackagePin → Option PackageVersion
pinned_version none = none
pinned_version (some pin) = some pin.version

-- `binary_search_by` of the sorted pins finds the pin of the identity
unfoldable pub central_pin_of : List CentralPackagePin → Text → Option PackageVersion
central_pin_of pins id = pinned_version (find (λ pin. text_eq pin.lower_id id) pins)

abbrev or_pin : Option PackageVersion → Option PackageVersion → Option PackageVersion
or_pin none pin = pin
or_pin (some v) pin = some v

-- what a dependency changes in the node of its identity
abbrev pub constrain :
    Text → PackageRequirement → Option PackageVersion → ConstraintNode → ConstraintNode
constrain lower_id d pin child = record child {
  central_pin = or_pin child.central_pin pin;
  constraints = put lower_id d.range child.constraints;
}

abbrev pub entry : Option ConstraintNode → ConstraintNode → ConstraintNode
entry none fresh = fresh
entry (some node) fresh = node

abbrev pub has_metadata : Option ConstraintNode → Bool
has_metadata none = false
has_metadata (some node) = not (is_none node.metadata_version)

-- one round of the loop over the dependencies
unfoldable pub install_one :
    Text → List CentralPackagePin → PackageRequirement → Nodes × TreeSet → Nodes × TreeSet
unfolding mark_descendants central_pin_of
install_one lower_id pins d (nodes, dirty) =
    let child = get d.lower_id nodes in
    let pin = central_pin_of pins d.lower_id in
    (
      put d.lower_id (constrain lower_id d pin (entry child (fresh_node d pin))) nodes,
      add d.lower_id
          (if has_metadata child then mark_descendants nodes d.lower_id dirty else dirty),
    )

unfoldable pub install_each :
    Text → List CentralPackagePin → List PackageRequirement → Nodes × TreeSet → Nodes × TreeSet
unfolding install_one
install_each lower_id pins [] s = s
install_each lower_id pins (d ∷ ds) s =
    install_each lower_id pins ds (install_one lower_id pins d s)

abbrev pub with_metadata : ConstraintNode → ConstraintNode
with_metadata node = record node { metadata_version = node.selected }

abbrev pub with_dependencies : List PackageRequirement → ConstraintNode → ConstraintNode
with_dependencies ds node = record node { dependencies = ds }

abbrev pub finish_install : Text → List PackageRequirement → Nodes × TreeSet → Nodes × TreeSet
finish_install lower_id ds (nodes, dirty) = (modify lower_id (with_dependencies ds) nodes, dirty)

-- the part after the check for clashes
unfoldable pub install_deduped :
    Text
    → ℕ
    → List PackageRequirement
    → List CentralPackagePin
    → Option ConstraintNode
    → Nodes × TreeSet
    → Fallible (Nodes × TreeSet)
unfolding install_each
install_deduped lower_id generation ds pins none s = err (resolution_error lower_id)
install_deduped lower_id generation ds pins (some node) (nodes, dirty) =
    if node.generation == generation
    then ok (
        finish_install lower_id ds
          (install_each lower_id pins ds (modify lower_id with_metadata nodes, dirty)))
    else ok (nodes, dirty)

abbrev pub unless_clash :
    Option PackageRequirement → Fallible (Nodes × TreeSet) → Fallible (Nodes × TreeSet)
unless_clash none r = r
unless_clash (some d) r = err (resolution_error d.id)

-- `install_node_dependencies`
unfoldable pub install_node_dependencies :
    Text
    → ℕ
    → List PackageRequirement
    → List CentralPackagePin
    → Nodes × TreeSet
    → Fallible (Nodes × TreeSet)
unfolding sort clash dedup install_deduped
install_node_dependencies lower_id generation dependencies pins (nodes, dirty) =
    unless_clash (clash (sort dependencies)) (
      install_deduped lower_id generation (dedup (sort dependencies)) pins (get lower_id nodes)
        (nodes, dirty))

pub record PackageRequest : Type 0 where
  pub id : Text
  pub lower_id : Text
  pub version : Text
  pub direct : Bool
  pub central_transitive : Bool

abbrev unselected : PackageRequirement → PackageError
unselected d = resolution_error d.id

-- the closure of `filter_map`
abbrev pub request_of :
    PackageRequirement → ConstraintNode → Option PackageVersion → Fallible (Option PackageRequest)
request_of d node none = err (unselected d)
request_of d node (some selected) = ok (
    some (record {
      id = d.id;
      lower_id = d.lower_id;
      version = selected.normalized;
      direct = false;
      central_transitive = is_none node.direct && not (is_none node.central_pin);
    }))

abbrev pub concrete_one :
    PackageRequirement → Option ConstraintNode → Fallible (Option PackageRequest)
concrete_one d none = err (unselected d)
concrete_one d (some node) = if node.pruned then ok none else request_of d node node.selected

-- `collect` of a request and the requests after it
abbrev pub collected :
    Fallible (Option PackageRequest)
    → Fallible (List PackageRequest)
    → Fallible (List PackageRequest)
collected (err e) rest = err e
collected (ok none) rest = rest
collected (ok (some r)) (err e) = err e
collected (ok (some r)) (ok rs) = ok (r ∷ rs)

unfoldable pub concrete_each : Nodes → List PackageRequirement → Fallible (List PackageRequest)
concrete_each nodes [] = ok []
concrete_each nodes (d ∷ ds) =
    collected (concrete_one d (get d.lower_id nodes)) (concrete_each nodes ds)

-- `concrete_dependencies`; `nodes[lower_id]` panics where the node is missing, here it lists nothing
abbrev requirements : Option ConstraintNode → List PackageRequirement
requirements none = []
requirements (some node) = node.dependencies

unfoldable pub concrete_dependencies : Nodes → Text → Fallible (List PackageRequest)
unfolding concrete_each
concrete_dependencies nodes lower_id = concrete_each nodes (requirements (get lower_id nodes))
