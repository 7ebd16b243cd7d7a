-- ===== src/Package/Graph/Marking/Reach.antt =====
-- What `mark_descendant_constraint_targets_dirty` of crates/dv-core/src/package.rs reaches.
use mathlib.Core.Path.{subst}
use dv.Common.{
  ℕ, zero, suc, ◌+◌, ◌≤◌, ◌≡◌, refl, sym, ◌∙◌, true, false, List, [], ◌∷◌, ◌++◌, reverse, length,
  ◌⊎◌, inl, inr, Has, here, there, Has-cons, Bool-cases, arith,
}
use dv.Common.Text.{Text}
use dv.Common.TreeMap.{TreeSet, add, holds, holds-add, keys, text_eq_refl}
use dv.Package.Graph.{Nodes}
use dv.Package.Graph.Walk.{Reaches, arrived, step, holds→Has, Has-left, Has-right, reverse_aux-Has}
use dv.Package.Graph.Walk.Fuel.{pending, expand_pays}
use dv.Package.Graph.Ancestry.{children}
use dv.Package.Graph.Ancestry.Laws.{children-known}
use dv.Package.Graph.Marking.{add_all, mark_walk, mark_descendants}
use dv.Package.Graph.Marking.Keeps.{add_all-holds}

Has-add_all :
    (ids : List Text) (s : TreeSet) (j : Text) → Has j ids → holds j (add_all ids s) ≡ true
unfolding add_all
Has-add_all [] s j m = elim m [ ]
Has-add_all (id ∷ ids) s j m = elim (Has-cons m) [
  | inl same ↦ add_all-holds ids (add id s) j (holds-add id j s ∙ rw (same, text_eq_refl id) refl)
  | inr later ↦ Has-add_all ids (add id s) j later
]

module _ (edges : Text → List Text) (ks : List Text)
    (known : (c : Text) → Has c ks ⊎ (edges c ≡ [])) where
  -- The edges of what was visited are marked, and visited or on the stack.
  abbrev IsMarked : List Text → List Text → TreeSet → Type 0
  IsMarked visited stack dirty =
      (v b : Text)
      → Has v visited
      → Has b (edges v)
      → (Has b visited ⊎ Has b stack) × (holds b dirty ≡ true)

  -- What a whole walk leaves: everything that it visited, closed and marked.
  abbrev Leaves : List Text → List Text → TreeSet → Type 0
  Leaves stack visited dirty =
      (F : List Text) × IsMarked F [] dirty
      × ((s : Text) → Has s stack → Has s F)
      × ((v : Text) → Has v visited → Has v F)

  -- the two rounds of the loop
  mark-seen :
      (fuel : ℕ) (current : Text) (stack visited : List Text) (dirty : TreeSet)
      → holds current visited ≡ true
      → mark_walk edges (suc fuel) (current ∷ stack) visited dirty
        ≡ mark_walk edges fuel stack visited dirty
  unfolding mark_walk
  mark-seen fuel current stack visited dirty h = rw (h, mark_walk) refl

  mark-fresh :
      (fuel : ℕ) (current : Text) (stack visited : List Text) (dirty : TreeSet)
      → holds current visited ≡ false
      → mark_walk edges (suc fuel) (current ∷ stack) visited dirty
        ≡ mark_walk edges fuel
            (reverse (edges current) ++ stack)
            (current ∷ visited)
            (add_all (edges current) dirty)
  unfolding mark_walk
  mark-fresh fuel current stack visited dirty h = rw (h, mark_walk) refl

  seen-IsMarked :
      (current : Text) (stack visited : List Text) (dirty : TreeSet)
      → Has current visited
      → IsMarked visited (current ∷ stack) dirty
      → IsMarked visited stack dirty
  seen-IsMarked current stack visited dirty seen m v b k e =
      let (w, h) = m v b k e in
      (
        elim w [
          | inl old ↦ inl old
          | inr on ↦ elim (Has-cons on) [ inl same ↦ inl (rw same seen) | inr later ↦ inr later ]
        ],
        h,
      )

  fresh-IsMarked :
      (current : Text) (stack visited : List Text) (dirty : TreeSet)
      → IsMarked visited (current ∷ stack) dirty
      → IsMarked
          (current ∷ visited)
          (reverse (edges current) ++ stack)
          (add_all (edges current) dirty)
  fresh-IsMarked current stack visited dirty m v b k e = elim (Has-cons k) [
    | inl same ↦
        let pushed : Has b (edges current) = subst (λ x. Has b (edges x)) same e in
        (
          inr (
              Has-left (reverse (edges current)) stack
                (reverse_aux-Has (edges current) [] (inl pushed))),
          Has-add_all (edges current) dirty b pushed,
        )
    | inr old ↦
        let (w, h) = m v b old e in
        (
          elim w [
            | inl seen ↦ inl (there seen)
            | inr on ↦ elim (Has-cons on) [
              | inl same ↦ inl (rw same here)
              | inr later ↦ inr (Has-right (reverse (edges current)) stack later)
            ]
          ],
          add_all-holds (edges current) dirty b h,
        )
  ]

  walk-IsMarked :
      (fuel : ℕ) (stack visited : List Text) (dirty : TreeSet)
      → length stack + pending edges ks visited + 1 ≤ fuel
      → IsMarked visited stack dirty
      → Leaves stack visited (mark_walk edges fuel stack visited dirty)
  walk-IsMarked zero stack visited dirty enough m = absurd (omega (arith, enough))
  walk-IsMarked (suc fuel) [] visited dirty enough m =
      unfold mark_walk in (visited, m, λ s k. elim k [ ], λ v k. k)
  walk-IsMarked (suc fuel) (current ∷ stack) visited dirty enough m =
      elim (Bool-cases (holds current visited)) [
        | inl seen ↦
            let visited_it = holds→Has current visited seen in
            let (F, c, on, old) =
              walk-IsMarked fuel stack visited dirty (omega (arith, enough))
                (seen-IsMarked current stack visited dirty visited_it m) in
            (
              F,
              subst (IsMarked F []) (sym (mark-seen fuel current stack visited dirty seen)) c,
              λ s k. elim (Has-cons k) [
                | inl same ↦ rw same (old current visited_it)
                | inr later ↦ on s later
              ],
              old,
            )
        | inr fresh ↦
            let (F, c, on, old) =
              walk-IsMarked fuel (reverse (edges current) ++ stack) (current ∷ visited)
                (add_all (edges current) dirty)
                (omega (
                  arith,
                  enough,
                  expand_pays (λ _. false) (λ _. false) edges ks known current stack visited fresh,
                ))
                (fresh-IsMarked current stack visited dirty m) in
            (
              F,
              subst (IsMarked F []) (sym (mark-fresh fuel current stack visited dirty fresh)) c,
              λ s k. elim (Has-cons k) [
                | inl same ↦ rw same (old current here)
                | inr later ↦ on s (Has-right (reverse (edges current)) stack later)
              ],
              λ v k. old v (there k),
            )
      ]

  -- What is reached from a node that was visited was visited.
  reached-Has :
      (F : List Text) (dirty : TreeSet) {a g : Text}
      → IsMarked F [] dirty
      → Has a F
      → Reaches (λ _. false) edges a g
      → Has g F
  reached-Has F dirty c m arrived = m
  reached-Has F dirty c m (step open_a edge path) = elim (c _ _ m edge).0 [
    | inl next ↦ reached-Has F dirty c next path
    | inr none_left ↦ elim none_left [ ]
  ]

-- Marking the descendants of a package makes dirty every dependency of every package that is reached
-- from it by dependencies.
pub mark_descendants_reach :
    (nodes : Nodes) (root v b : Text) (dirty : TreeSet)
    → Reaches (λ _. false) (children nodes) root v
    → Has b (children nodes v)
    → holds b (mark_descendants nodes root dirty) ≡ true
unfolding mark_descendants
mark_descendants_reach nodes root v b dirty path edge =
    let (F, c, on, old) =
      walk-IsMarked (children nodes) (keys nodes) (children-known nodes)
        (2 + pending (children nodes) (keys nodes) []) (root ∷ []) [] dirty (omega arith)
        (λ x y k e. elim k [ ]) in
    (c v b
      (reached-Has (children nodes) (keys nodes) (children-known nodes) F _ c (on root here) path)
      edge).1
