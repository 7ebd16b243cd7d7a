-- ===== src/Package/Graph/Stabilize/Ends.antt =====
-- The loop of `stabilize_constraint_nodes` ends: each round takes one identity off `dirty`, and what
-- puts identities back removes a node or spends one of its revisions.
use mathlib.Core.Path.{subst}
use dv.Common.{
  ℕ, zero, suc, ◌+◌, ◌-◌, ◌≤◌, ◌≡◌, refl, ap, ◌∙◌, Bool, true, Option, none, some, List, [], ◌∷◌,
  ◌⊎◌, inl, inr, Bool-cases, arith, ◌&&◌,
}
use dv.Common.Text.{Text}
use dv.Common.TreeMap.{
  TreeSet, get, total, total-modify, total-modify_lt, total-remove_lt, remove, modify, discard,
}
use dv.Package.Range.{is_none}
use dv.Package.Graph.Marking.{mark_each}
use dv.Common.Result.{ok, err}
use dv.Package.Error.{Fallible}
use dv.Package.Version.{PackageVersion}
use dv.Package.Pruning.{PackagePruning}
use dv.Package.Graph.{
  ConstraintNode, PackageRequirement, NodeSelection, select_node_version_with_constraints,
}
use dv.Package.Graph.Stabilize.{
  max_graph_revisions, GraphState, detach, detach_one, drop_constraint, drop_node, revise,
  revise_node, may_revise, apply_selection, is_settled, selected_step, stabilize_node,
  stabilize_round, popped, stabilize_constraint_nodes, view_of, is_pruned, chosen, requeue,
  is_empty_map, after, rounds,
}

-- the revisions that a node has left, and one for the node
abbrev weight : ConstraintNode → ℕ
weight node = 1 + (max_graph_revisions - node.generation)

abbrev left_in : GraphState → ℕ
left_in s = total weight s.nodes

detach-left_in :
    (lower_id : Text) (ds : List PackageRequirement) (s : GraphState)
    → left_in (detach lower_id ds s) ≤ left_in s
unfolding detach
detach-left_in lower_id [] s = omega arith
detach-left_in lower_id (d ∷ ds) s = omega (
  arith,
  detach-left_in lower_id ds (detach_one lower_id d.lower_id (get d.lower_id s.nodes) s),
  one (get d.lower_id s.nodes),
)
  where
    one : (o : Option ConstraintNode) → left_in (detach_one lower_id d.lower_id o s) ≤ left_in s
    one none = omega arith
    one (some node) =
        total-modify weight d.lower_id (drop_constraint lower_id) s.nodes (λ u. omega arith)

drop-left_in :
    (lower_id : Text) (node : ConstraintNode) (s : GraphState)
    → get lower_id s.nodes ≡ some node
    → left_in (drop_node lower_id node s) + 1 ≤ left_in s
unfolding drop_node
drop-left_in lower_id node s h = omega (
  arith,
  detach-left_in lower_id node.dependencies (record {
    nodes = remove lower_id s.nodes;
    dirty = mark_each s.nodes node.dependencies s.dirty;
    ready = discard lower_id s.ready;
  }),
  total-remove_lt weight lower_id s.nodes h (λ u. omega arith),
)

revise-left_in :
    (lower_id : Text) (node : ConstraintNode) (next : Option PackageVersion) (pruned : Bool)
    (s : GraphState)
    → get lower_id s.nodes ≡ some node
    → may_revise node ≡ true
    → left_in (revise lower_id node next pruned s) + 1 ≤ left_in s
unfolding revise
revise-left_in lower_id node next pruned s h may = omega (
  arith,
  detach-left_in lower_id node.dependencies (record {
    nodes = modify lower_id (revise_node next pruned) s.nodes;
    dirty = mark_each s.nodes node.dependencies s.dirty;
    ready = requeue lower_id pruned s.ready;
  }),
  total-modify_lt weight lower_id (revise_node next pruned) s.nodes h (ground arith)
      (λ u. omega arith),
)

-- What a round gives: an error, the state less the identity, or a state with less to spend.
abbrev Pays : TreeSet → GraphState → Fallible GraphState → Type 0
Pays rest s (err e) = e ≡ e
Pays rest s (ok t) = (t ≡ popped rest s) ⊎ (left_in t + 1 ≤ left_in s)

apply-Pays :
    (lower_id : Text) (node : ConstraintNode) (next : Option PackageVersion) (pruned : Bool)
    (rest : TreeSet) (s : GraphState)
    → get lower_id s.nodes ≡ some node
    → Pays rest s (apply_selection lower_id node next pruned (popped rest s))
unfolding apply_selection
apply-Pays lower_id node next pruned rest s h = elim (Bool-cases (is_settled node next pruned)) [
  | inl settled ↦ rw settled (inl refl)
  | inr changed ↦ elim (Bool-cases (may_revise node)) [
    | inl may ↦
        rw (changed, may) (inr (revise-left_in lower_id node next pruned (popped rest s) h may))
    | inr over ↦ rw (changed, over) refl
  ]
]

node-Pays :
    (pruning : PackagePruning) (lower_id : Text) (rest : TreeSet) (s : GraphState)
    (o : Option ConstraintNode)
    → get lower_id s.nodes ≡ o
    → Pays rest s (stabilize_node pruning lower_id o (popped rest s))
node-Pays pruning lower_id rest s none h = inl refl
node-Pays pruning lower_id rest s (some node) h =
    elim (Bool-cases (is_none node.direct && is_empty_map node.constraints)) [
      | inl unused ↦ rw unused (inr (drop-left_in lower_id node (popped rest s) h))
      | inr used ↦
          rw used
            (choice (select_node_version_with_constraints node (view_of s.nodes lower_id node)))
    ]
  where
    choice :
        (c : Fallible NodeSelection)
        → Pays rest s (selected_step pruning lower_id node c (popped rest s))
    choice (err e) = refl
    choice (ok sel) =
        apply-Pays lower_id node (chosen sel) (is_pruned pruning lower_id node (chosen sel)) rest s
          h

round-Pays :
    (pruning : PackagePruning) (lower_id : Text) (rest : TreeSet) (s : GraphState)
    → Pays rest s (stabilize_round pruning lower_id rest s)
unfolding stabilize_round
round-Pays pruning lower_id rest s = node-Pays pruning lower_id rest s (get lower_id s.nodes) refl

-- The loop has an answer with some fuel.
abbrev Ends : PackagePruning → GraphState → Type 0
Ends pruning s =
    (fuel : ℕ) × (answer : Fallible GraphState) × (stabilize_constraint_nodes fuel pruning s
      ≡ some answer)

module _ (pruning : PackagePruning) where
  abbrev next_rounds : ℕ → GraphState → Option (Fallible GraphState)
  next_rounds fuel t = stabilize_constraint_nodes fuel pruning t

  one_round :
      (fuel : ℕ) (lower_id : Text) (rest : TreeSet) (s : GraphState)
      → s.dirty ≡ lower_id ∷ rest
      → stabilize_constraint_nodes (suc fuel) pruning s
        ≡ after (next_rounds fuel) (stabilize_round pruning lower_id rest s)
  unfolding stabilize_constraint_nodes
  one_round fuel lower_id rest s d = ap (λ x. rounds (next_rounds fuel) pruning x s) d

  loop_after :
      (lower_id : Text) (rest : TreeSet) (s : GraphState) (r : Fallible GraphState)
      → s.dirty ≡ lower_id ∷ rest
      → stabilize_round pruning lower_id rest s ≡ r
      → ((t : GraphState) → r ≡ ok t → Ends pruning t)
      → Ends pruning s
  loop_after lower_id rest s (err e) d h next =
      (1, err e, one_round 0 lower_id rest s d ∙ ap (after (next_rounds 0)) h)
  loop_after lower_id rest s (ok t) d h next =
      let (fuel, answer, e) = next t refl in
      (suc fuel, answer, one_round fuel lower_id rest s d ∙ ap (after (next_rounds fuel)) h ∙ e)

  -- for the states with as much to spend, where states with less to spend end
  loop_dirty :
      (w : ℕ)
      → ((t : GraphState) → left_in t + 1 ≤ w → Ends pruning t)
      → (dirty : TreeSet) (s : GraphState) → left_in s ≤ w
      → s.dirty ≡ dirty
      → Ends pruning s
  unfolding stabilize_constraint_nodes
  loop_dirty w less [] s bound d = (1, ok s, ap (λ x. rounds (next_rounds 0) pruning x s) d)
  loop_dirty w less (lower_id ∷ rest) s bound d =
      loop_after lower_id rest s (stabilize_round pruning lower_id rest s) d refl (λ t e.
        elim (subst (Pays rest s) e (round-Pays pruning lower_id rest s)) [
          | inl same ↦ loop_dirty w less rest t (rw same bound) (rw same refl)
          | inr spent ↦ less t (omega (arith, spent, bound))
        ])

  loop_within : (w : ℕ) (s : GraphState) → left_in s ≤ w → Ends pruning s
  loop_within zero s bound = loop_dirty 0 (λ t b. absurd (omega (arith, b))) s.dirty s bound refl
  loop_within (suc w) s bound =
      loop_dirty (suc w) (λ t b. loop_within w t (omega (arith, b))) s.dirty s bound refl

  -- From every state the loop comes to an end: with some fuel it answers, with a state or an error.
  pub stabilize_ends :
      (s : GraphState)
      → (fuel : ℕ) × (answer : Fallible GraphState) × (stabilize_constraint_nodes fuel pruning s
          ≡ some answer)
  stabilize_ends s = loop_within (left_in s) s (omega arith)
