-- ===== src/Package/Graph/Ancestry.antt =====
-- The walks by which constraints are found to be dominated, and the downgrades that are left, of
-- crates/dv-core/src/package.rs. A walk has the fuel that the graph needs.
pub mod Laws
pub mod Dominated
use dv.Common.{
  ℕ, ◌≡◌, Bool, true, false, ◌&&◌, ◌||◌, not, Option, none, some, List, [], ◌∷◌, ◌++◌, reverse,
  if◌then◌else◌, any, filter,
}
use dv.Common.Text.{Text, text_eq}
use dv.Common.TreeMap.{TreeMap, get, keys, values}
use dv.Package.Range.{VersionRange, is_none, contains, diagnostic_text}
use dv.Package.Version.{PackageVersion}
use dv.Package.Graph.{ConstraintNode, Nodes, PackageRequirement}
use dv.Package.Graph.Walk.Search.{search_from}

abbrev pub parents_of : Text → Option ConstraintNode → List Text
parents_of target none = []
parents_of target (some node) =
    filter (λ parent. not (text_eq parent target)) (keys node.constraints)

-- the parents that `stack.extend` pushes for a node that is in the graph
unfoldable pub parents : Nodes → Text → Text → List Text
parents nodes target current = parents_of target (get current nodes)

abbrev pub lower_ids : List PackageRequirement → List Text
lower_ids [] = []
lower_ids (d ∷ ds) = d.lower_id ∷ lower_ids ds

abbrev pub children_of : Option ConstraintNode → List Text
children_of none = []
children_of (some node) = lower_ids node.dependencies

-- the dependencies that `stack.extend` pushes
unfoldable pub children : Nodes → Text → List Text
children nodes current = children_of (get current nodes)

-- `constraint_parent_is_ancestor`
unfoldable pub constraint_parent_is_ancestor : Nodes → Text → Text → Text → Bool
unfolding search_from parents
constraint_parent_is_ancestor nodes target ancestor descendant =
    search_from (λ c. text_eq c ancestor) (λ c. text_eq c target) (parents nodes target)
      (keys nodes) (descendant ∷ [])

-- the direct requirements other than the blocked one
unfoldable pub roots_but : Text → Nodes → List Text
roots_but blocked [] = []
roots_but blocked ((id, node) ∷ nodes) =
    let rest = roots_but blocked nodes in
    if not (is_none node.direct) && not (text_eq id blocked) then id ∷ rest else rest

-- `constraint_parent_has_alternate_root_path`: `extend` pushes the roots in order, the last is popped
-- first.
unfoldable pub constraint_parent_has_alternate_root_path : Nodes → Text → Text → Text → Bool
unfolding search_from children roots_but
constraint_parent_has_alternate_root_path nodes target blocked descendant =
    search_from (λ c. text_eq c descendant) (λ c. text_eq c target || text_eq c blocked)
      (children nodes) (keys nodes) (reverse (roots_but blocked nodes))

abbrev pub constraints_of : Option ConstraintNode → TreeMap VersionRange
constraints_of none = []
constraints_of (some node) = node.constraints

-- `constraint_is_dominated`
unfoldable pub constraint_is_dominated : Nodes → Text → Text → Bool
unfolding constraint_parent_is_ancestor constraint_parent_has_alternate_root_path
constraint_is_dominated nodes target parent =
    any
      (λ candidate.
        not (text_eq candidate parent)
        && (constraint_parent_is_ancestor nodes target candidate parent
            && (not (constraint_parent_is_ancestor nodes target parent candidate)
                && not (constraint_parent_has_alternate_root_path nodes target candidate parent))))
      (keys (constraints_of (get target nodes)))

unfoldable pub active_among : Nodes → Text → TreeMap VersionRange → List VersionRange
unfolding constraint_is_dominated
active_among nodes target [] = []
active_among nodes target ((parent, range) ∷ constraints) =
    let rest = active_among nodes target constraints in
    if constraint_is_dominated nodes target parent then rest else range ∷ rest

-- `collect_active_constraints`
unfoldable pub collect_active_constraints : Nodes → Text → List VersionRange
unfolding active_among
collect_active_constraints nodes target =
    active_among nodes target (constraints_of (get target nodes))

pub record ResolvedDowngrade : Type 0 where
  pub package_id : Text
  pub selected_version : Text
  pub requested_range : Text
  pub requesting_package : Text

abbrev named : Text → Option ConstraintNode → Text
named parent none = parent
named parent (some node) = node.id

-- the loop over the constraints of a node
unfoldable pub downgrades_at :
    Nodes → Text → ConstraintNode → PackageVersion → TreeMap VersionRange → List ResolvedDowngrade
unfolding constraint_is_dominated
downgrades_at nodes lower_id node selected [] = []
downgrades_at nodes lower_id node selected ((parent, range) ∷ constraints) =
    let rest = downgrades_at nodes lower_id node selected constraints in
    if contains range selected
    then rest
    else if is_none node.direct && not (constraint_is_dominated nodes lower_id parent)
    then rest
    else record {
      package_id = node.id;
      selected_version = selected.normalized;
      requested_range = diagnostic_text range;
      requesting_package = named parent (get parent nodes);
    }
      ∷ rest

abbrev downgrades_of :
    Nodes → Text → ConstraintNode → Option PackageVersion → List ResolvedDowngrade
downgrades_of nodes lower_id node none = []
downgrades_of nodes lower_id node (some selected) =
    if node.pruned then [] else downgrades_at nodes lower_id node selected node.constraints

unfoldable pub downgrades_among : Nodes → Nodes → List ResolvedDowngrade
unfolding downgrades_at
downgrades_among nodes [] = []
downgrades_among nodes ((lower_id, node) ∷ rest) =
    downgrades_of nodes lower_id node node.selected ++ downgrades_among nodes rest

-- `collect_downgrades`
unfoldable pub collect_downgrades : Nodes → List ResolvedDowngrade
unfolding downgrades_among
collect_downgrades nodes = downgrades_among nodes nodes
