-- ===== src/Package/Graph/Stabilize.antt =====
-- `stabilize_constraint_nodes` of crates/dv-core/src/package.rs: one round of its loop for the first
-- dirty identity, and the loop. `nodes`, `dirty` and `ready` are the state it changes.
pub mod Ends
use dv.Common.{
  ℕ, zero, suc, ◌+◌, ◌^◌, Bool, true, false, ◌&&◌, ◌||◌, not, Option, none, some, List, [], ◌∷◌,
  ltb, leb, if◌then◌else◌,
}
use dv.Common.Text.{Text}
use dv.Common.TreeMap.{TreeMap, TreeSet, get, remove, modify, add, discard}
use dv.Common.Result.{ok, err}
use dv.Package.Error.{Fallible, resolution_error}
use dv.Package.Version.{PackageVersion, cmp}
use dv.Package.Range.{VersionRange, is_none, is_some_and, is_eq}
use dv.Package.Pruning.{PackagePruning, contains}
use dv.Package.Graph.{
  ConstraintNode, Nodes, PackageRequirement, NodeSelection, version, enumerate, ConstraintView,
  every, active, select_node_version_with_constraints,
}
use dv.Package.Graph.Ancestry.{collect_active_constraints}
use dv.Package.Graph.Marking.{mark_each}

abbrev pub max_graph_revisions : ℕ
max_graph_revisions = 64

pub record GraphState : Type 0 where
  pub nodes : Nodes
  pub dirty : TreeSet
  pub ready : TreeSet

abbrev pub drop_constraint : Text → ConstraintNode → ConstraintNode
drop_constraint lower_id child = record child { constraints = remove lower_id child.constraints }

abbrev pub detach_one : Text → Text → Option ConstraintNode → GraphState → GraphState
detach_one lower_id child none s = s
detach_one lower_id child (some node) s = record s {
  nodes = modify child (drop_constraint lower_id) s.nodes;
  dirty = add child s.dirty;
}

-- the loop that takes the constraint of `lower_id` off the former dependencies that are in the graph
unfoldable pub detach : Text → List PackageRequirement → GraphState → GraphState
detach lower_id [] s = s
detach lower_id (d ∷ ds) s =
    detach lower_id ds (detach_one lower_id d.lower_id (get d.lower_id s.nodes) s)

-- a node that nothing requires any more is removed
unfoldable pub drop_node : Text → ConstraintNode → GraphState → GraphState
unfolding mark_each detach
drop_node lower_id node s = detach lower_id node.dependencies (record {
  nodes = remove lower_id s.nodes;
  dirty = mark_each s.nodes node.dependencies s.dirty;
  ready = discard lower_id s.ready;
})

abbrev pub has_several : TreeMap VersionRange → Bool
has_several [] = false
has_several (c ∷ []) = false
has_several (c ∷ d ∷ cs) = true

abbrev pub is_empty_map : TreeMap VersionRange → Bool
is_empty_map [] = true
is_empty_map (c ∷ cs) = false

-- the constraints that the choice of a version sees
unfoldable pub view_of : Nodes → Text → ConstraintNode → ConstraintView
unfolding collect_active_constraints
view_of nodes lower_id node =
    if is_none node.direct && (is_none node.central_pin && has_several node.constraints)
    then active (collect_active_constraints nodes lower_id)
    else every node.constraints

abbrev pub chosen : NodeSelection → Option PackageVersion
chosen (version v) = some v
chosen enumerate = none

abbrev pub same_version : Option PackageVersion → Option PackageVersion → Bool
same_version none none = true
same_version none (some w) = false
same_version (some v) none = false
same_version (some v) (some w) = is_eq (cmp v w)

abbrev pub same_bool : Bool → Bool → Bool
same_bool true b = b
same_bool false b = not b

unfoldable pub is_pruned : PackagePruning → Text → ConstraintNode → Option PackageVersion → Bool
unfolding contains
is_pruned pruning lower_id node next =
    is_some_and next
      (λ v. is_none node.direct && (is_none node.central_pin && contains pruning lower_id v))

-- what `get_mut` changes in a node that gets another selection
abbrev pub revise_node : Option PackageVersion → Bool → ConstraintNode → ConstraintNode
revise_node next pruned node = record node {
  dependencies = [];
  selected = next;
  pruned = pruned;
  metadata_version = none;
  generation = node.generation + 1;
}

-- `checked_add` on `u32` and the limit on revisions
abbrev pub may_revise : ConstraintNode → Bool
may_revise node =
    ltb (node.generation + 1) (2 ^ 32) && leb (node.generation + 1) max_graph_revisions

abbrev pub requeue : Text → Bool → TreeSet → TreeSet
requeue lower_id pruned ready = if pruned then discard lower_id ready else add lower_id ready

unfoldable pub revise :
    Text → ConstraintNode → Option PackageVersion → Bool → GraphState → GraphState
unfolding mark_each detach
revise lower_id node next pruned s = detach lower_id node.dependencies (record {
  nodes = modify lower_id (revise_node next pruned) s.nodes;
  dirty = mark_each s.nodes node.dependencies s.dirty;
  ready = requeue lower_id pruned s.ready;
})

-- Is the node's selection the one it had?
unfoldable pub is_settled : ConstraintNode → Option PackageVersion → Bool → Bool
is_settled node next pruned =
    not (is_none next) && (same_version node.selected next && same_bool node.pruned pruned)

unfoldable pub apply_selection :
    Text → ConstraintNode → Option PackageVersion → Bool → GraphState → Fallible GraphState
unfolding revise is_settled
apply_selection lower_id node next pruned s =
    if is_settled node next pruned
    then ok s
    else if may_revise node
    then ok (revise lower_id node next pruned s)
    else err (resolution_error node.id)

abbrev pub selected_step :
    PackagePruning
    → Text
    → ConstraintNode
    → Fallible NodeSelection
    → GraphState
    → Fallible GraphState
selected_step pruning lower_id node (err e) s = err e
selected_step pruning lower_id node (ok selection) s =
    apply_selection lower_id node (chosen selection)
      (is_pruned pruning lower_id node (chosen selection)) s

-- a round for an identity that was taken off `dirty`
abbrev pub stabilize_node :
    PackagePruning → Text → Option ConstraintNode → GraphState → Fallible GraphState
stabilize_node pruning lower_id none s = ok s
stabilize_node pruning lower_id (some node) s =
    if is_none node.direct && is_empty_map node.constraints
    then ok (drop_node lower_id node s)
    else selected_step pruning lower_id node
        (select_node_version_with_constraints node (view_of s.nodes lower_id node)) s

abbrev pub popped : TreeSet → GraphState → GraphState
popped rest s = record s { dirty = rest }

unfoldable pub stabilize_round : PackagePruning → Text → TreeSet → GraphState → Fallible GraphState
unfolding apply_selection is_pruned drop_node view_of select_node_version_with_constraints
stabilize_round pruning lower_id rest s =
    stabilize_node pruning lower_id (get lower_id s.nodes) (popped rest s)

abbrev pub after :
    (GraphState → Option (Fallible GraphState)) → Fallible GraphState → Option (Fallible GraphState)
after loop (err e) = some (err e)
after loop (ok t) = loop t

abbrev pub rounds :
    (GraphState → Option (Fallible GraphState))
    → PackagePruning
    → TreeSet
    → GraphState
    → Option (Fallible GraphState)
rounds loop pruning [] s = some (ok s)
rounds loop pruning (lower_id ∷ rest) s = after loop (stabilize_round pruning lower_id rest s)

-- the loop; `none` means that the fuel ran out
unfoldable pub stabilize_constraint_nodes :
    ℕ → PackagePruning → GraphState → Option (Fallible GraphState)
unfolding stabilize_round
stabilize_constraint_nodes zero pruning s = none
stabilize_constraint_nodes (suc fuel) pruning s =
    rounds (λ t. stabilize_constraint_nodes fuel pruning t) pruning s.dirty s
