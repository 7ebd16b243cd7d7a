-- ===== src/Package/Graph/Marking.antt =====
-- `mark_descendant_constraint_targets_dirty` of crates/dv-core/src/package.rs.
pub mod Keeps
pub mod Reach
use dv.Common.{ℕ, zero, suc, ◌+◌, true, false, List, [], ◌∷◌, ◌++◌, reverse}
use dv.Common.Text.{Text}
use dv.Common.TreeMap.{TreeSet, keys, add, holds}
use dv.Package.Graph.{Nodes, PackageRequirement}
use dv.Package.Graph.Walk.Fuel.{pending}
use dv.Package.Graph.Ancestry.{children}

unfoldable pub add_all : List Text → TreeSet → TreeSet
unfolding add
add_all [] dirty = dirty
add_all (id ∷ ids) dirty = add_all ids (add id dirty)

-- The loop marks the dependencies of a node while it pushes them; the stack has its top at the head.
unfoldable pub mark_walk : (Text → List Text) → ℕ → List Text → List Text → TreeSet → TreeSet
unfolding add_all
mark_walk edges zero stack visited dirty = dirty
mark_walk edges (suc fuel) [] visited dirty = dirty
mark_walk edges (suc fuel) (current ∷ stack) visited dirty = elim (holds current visited) [
  | true ↦ mark_walk edges fuel stack visited dirty
  | false ↦
      mark_walk edges fuel (reverse (edges current) ++ stack) (current ∷ visited)
        (add_all (edges current) dirty)
]

-- `mark_descendant_constraint_targets_dirty`, with the fuel that the graph needs
unfoldable pub mark_descendants : Nodes → Text → TreeSet → TreeSet
unfolding mark_walk pending children
mark_descendants nodes root dirty =
    mark_walk (children nodes) (2 + pending (children nodes) (keys nodes) []) (root ∷ []) [] dirty

unfoldable pub mark_each : Nodes → List PackageRequirement → TreeSet → TreeSet
unfolding mark_descendants
mark_each nodes [] dirty = dirty
mark_each nodes (d ∷ ds) dirty = mark_each nodes ds (mark_descendants nodes d.lower_id dirty)
