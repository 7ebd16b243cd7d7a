-- ===== src/Package/Graph/Marking/Keeps.antt =====
-- Marking takes nothing off the dirty identities (crates/dv-core/src/package.rs).
use dv.Common.{ℕ, zero, suc, ◌≡◌, true, List, [], ◌∷◌, ◌++◌, reverse, inl, inr, Bool-cases, arith}
use dv.Common.Text.{Text}
use dv.Common.TreeMap.{TreeSet, add, holds, holds-add}
use dv.Package.Graph.{Nodes}
use dv.Package.Graph.Ancestry.{children}
use dv.Package.Graph.Marking.{add_all, mark_walk, mark_descendants}

pub add_all-holds :
    (ids : List Text) (s : TreeSet) (j : Text) → holds j s ≡ true → holds j (add_all ids s) ≡ true
unfolding add_all
add_all-holds [] s j h = h
add_all-holds (id ∷ ids) s j h =
    add_all-holds ids (add id s) j (ground (arith, holds-add id j s, h))

mark_walk-holds :
    (edges : Text → List Text) (fuel : ℕ) (stack visited : List Text) (s : TreeSet) (j : Text)
    → holds j s ≡ true
    → holds j (mark_walk edges fuel stack visited s) ≡ true
unfolding mark_walk
mark_walk-holds edges zero stack visited s j h = h
mark_walk-holds edges (suc fuel) [] visited s j h = h
mark_walk-holds edges (suc fuel) (current ∷ stack) visited s j h =
    elim (Bool-cases (holds current visited)) [
      | inl seen ↦ rw (seen, mark_walk) (mark_walk-holds edges fuel stack visited s j h)
      | inr fresh ↦
          rw (fresh, mark_walk)
            (mark_walk-holds edges fuel (reverse (edges current) ++ stack) (current ∷ visited)
              (add_all (edges current) s) j (add_all-holds (edges current) s j h))
    ]

-- Marking takes nothing off the dirty identities.
pub mark_descendants-holds :
    (nodes : Nodes) (root : Text) (s : TreeSet) (j : Text)
    → holds j s ≡ true
    → holds j (mark_descendants nodes root s) ≡ true
unfolding mark_descendants
mark_descendants-holds nodes root s j h = mark_walk-holds (children nodes) _ (root ∷ []) [] s j h
