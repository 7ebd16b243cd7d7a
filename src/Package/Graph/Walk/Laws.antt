-- ===== src/Package/Graph/Walk/Laws.antt =====
-- The walk answers whether the goal can be reached.
use mathlib.Core.Path.{subst}
use dv.Common.{
  ℕ, zero, suc, ◌≡◌, ap, sym, ◌∙◌, Bool, true, false, ◌||◌, some, List, [], ◌∷◌, ◌++◌, reverse, ◌⊎◌,
  inl, inr, Has, here, there, Has-cons, Bool-cases, arith,
}
use dv.Common.Text.{Text}
use dv.Common.TreeMap.{holds}
use dv.Package.Graph.Walk.{
  walk, walk-drop, walk-expand, walk-goal, Reaches, arrived, step, holds→Has, Has-append, Has-left,
  Has-right, Has-reverse_aux, reverse_aux-Has,
}

module _ (goal skip : Text → Bool) (edges : Text → List Text) where
  abbrev pub Found : List Text → Type 0
  Found stack = (s g : Text) × Has s stack × (goal g ≡ true) × Reaches skip edges s g

  -- From the pushed edges of a node back to the node.
  unpush :
      (current : Text) (stack : List Text)
      → skip current ≡ false
      → Found (reverse (edges current) ++ stack)
      → Found (current ∷ stack)
  unpush current stack open_c (s, g, m, at_goal, path) =
      elim (Has-append (reverse (edges current)) stack m) [
        | inl pushed ↦ elim (Has-reverse_aux (edges current) [] pushed) [
          | inl edge ↦ (current, g, here, at_goal, step open_c edge path)
          | inr none_left ↦ elim none_left [ ]
        ]
        | inr old ↦ (s, g, there old, at_goal, path)
      ]

  -- Where the walk answers `true`, a goal is reached from the stack.
  pub walk-Found :
      (fuel : ℕ) (stack visited : List Text)
      → walk goal skip edges fuel stack visited ≡ some true
      → Found stack
  unfolding walk
  walk-Found zero stack visited h = cc
  walk-Found (suc fuel) [] visited h = cc
  walk-Found (suc fuel) (current ∷ stack) visited h = elim (Bool-cases (goal current)) [
    | inl at_goal ↦ (current, current, here, at_goal, arrived)
    | inr no_goal ↦ elim (Bool-cases (skip current || holds current visited)) [
      | inl dropped ↦
          let (s, g, m, at_goal, path) =
            walk-Found fuel stack visited
              (sym (walk-drop goal skip edges fuel current stack visited no_goal dropped) ∙ h) in
          (s, g, there m, at_goal, path)
      | inr expanded ↦ unpush current stack (ground arith) (
          walk-Found fuel (reverse (edges current) ++ stack) (current ∷ visited)
            (sym (walk-expand goal skip edges fuel current stack visited no_goal expanded) ∙ h))
    ]
  ]

  -- `a` is dealt with where it is in `F`, or is skipped and no goal.
  abbrev Done : List Text → Text → Type 0
  Done F a = Has a F ⊎ ((skip a ≡ true) × (goal a ≡ false))

  abbrev IsClosed : List Text → List Text → Type 0
  IsClosed visited stack =
      (v : Text)
      → Has v visited
      → (goal v ≡ false) × ((b : Text) → Has b (edges v) → Done visited b ⊎ Has b stack)

  record IsExplored (stack visited F : List Text) : Type 0 where
    closed : (v : Text) → Has v F → (goal v ≡ false) × ((b : Text) → Has b (edges v) → Done F b)
    stacked : (s : Text) → Has s stack → Done F s
    kept : (v : Text) → Has v visited → Has v F

  drop-IsClosed :
      (current : Text) (stack visited : List Text)
      → goal current ≡ false
      → (skip current || holds current visited) ≡ true
      → IsClosed visited (current ∷ stack)
      → IsClosed visited stack
  drop-IsClosed current stack visited no_goal dropped c v m =
      let (g, f) = c v m in
      (
        g,
        λ b e. elim (f b e) [
          | inl done ↦ inl done
          | inr on_stack ↦ elim (Has-cons on_stack) [
            | inl same_b ↦ inl (rw same_b done_current)
            | inr later ↦ inr later
          ]
        ],
      )
    where
      done_current : Done visited current
      done_current = elim (Bool-cases (skip current)) [
        | inl s ↦ inr (s, no_goal)
        | inr s ↦ inl (holds→Has current visited (ground arith))
      ]

  expand-IsClosed :
      (current : Text) (stack visited : List Text)
      → goal current ≡ false
      → IsClosed visited (current ∷ stack)
      → IsClosed (current ∷ visited) (reverse (edges current) ++ stack)
  expand-IsClosed current stack visited no_goal c v m = elim (Has-cons m) [
    | inl same_v ↦ (
      ap goal same_v ∙ no_goal,
      λ b e. inr (
          Has-left (reverse (edges current)) stack
            (reverse_aux-Has (edges current) [] (inl (subst (λ x. Has b (edges x)) same_v e)))),
    )
    | inr old ↦
        let (g, f) = c v old in
        (
          g,
          λ b e. elim (f b e) [
            | inl (inl seen) ↦ inl (inl (there seen))
            | inl (inr skipped) ↦ inl (inr skipped)
            | inr on_stack ↦ elim (Has-cons on_stack) [
              | inl same_b ↦ inl (inl (rw same_b here))
              | inr later ↦ inr (Has-right (reverse (edges current)) stack later)
            ]
          ],
        )
  ]

  -- Where the walk answers `false`, it has explored what is reached from the stack.
  walk-IsExplored :
      (fuel : ℕ) (stack visited : List Text)
      → walk goal skip edges fuel stack visited ≡ some false
      → IsClosed visited stack
      → (F : List Text) × IsExplored stack visited F
  walk-IsExplored zero stack visited h c = absurd (out h)
    where
      out : walk goal skip edges zero stack visited ≡ some false → ⊥
      out k = unfold walk in cc k
  walk-IsExplored (suc fuel) [] visited h c = (
    visited,
    record {
      closed = λ v m.
          let (g, f) = c v m in
          (g, λ b e. elim (f b e) [ inl done ↦ done | inr on_stack ↦ elim on_stack [ ] ]);
      stacked = λ s m. elim m [ ];
      kept = λ v m. m;
    },
  )
  walk-IsExplored (suc fuel) (current ∷ stack) visited h c = elim (Bool-cases (goal current)) [
    | inl at_goal ↦ absurd (cc (walk-goal goal skip edges fuel current stack visited at_goal, h))
    | inr no_goal ↦ elim (Bool-cases (skip current || holds current visited)) [
      | inl dropped ↦
          let (F, x) =
            walk-IsExplored fuel stack visited
              (sym (walk-drop goal skip edges fuel current stack visited no_goal dropped) ∙ h)
              (drop-IsClosed current stack visited no_goal dropped c) in
          (
            F,
            record {
              closed = x.closed;
              stacked = λ s m. elim (Has-cons m) [
                | inl same_s ↦ rw same_s (dropped_Done F x no_goal dropped)
                | inr later ↦ x.stacked s later
              ];
              kept = x.kept;
            },
          )
      | inr expanded ↦
          let (F, x) =
            walk-IsExplored fuel (reverse (edges current) ++ stack) (current ∷ visited)
              (sym (walk-expand goal skip edges fuel current stack visited no_goal expanded) ∙ h)
              (expand-IsClosed current stack visited no_goal c) in
          (
            F,
            record {
              closed = x.closed;
              stacked = λ s m. elim (Has-cons m) [
                | inl same_s ↦ inl (rw same_s (x.kept current here))
                | inr later ↦ x.stacked s (Has-right (reverse (edges current)) stack later)
              ];
              kept = λ v m. x.kept v (there m);
            },
          )
    ]
  ]
    where
      dropped_Done :
          (F : List Text)
          → IsExplored stack visited F
          → goal current ≡ false
          → (skip current || holds current visited) ≡ true
          → Done F current
      dropped_Done F x no_goal dropped = elim (Bool-cases (skip current)) [
        | inl s ↦ inr (s, no_goal)
        | inr s ↦ inl (x.kept current (holds→Has current visited (ground arith)))
      ]

  -- Nothing that is reached from an explored node is a goal.
  explored_no_goal :
      (F : List Text) (stack visited : List Text) {a g : Text}
      → IsExplored stack visited F
      → Done F a
      → Reaches skip edges a g
      → goal g ≡ false
  explored_no_goal F stack visited x (inl m) arrived = (x.closed _ m).0
  explored_no_goal F stack visited x (inr s) arrived = s.1
  explored_no_goal F stack visited x (inl m) (step open_a edge path) =
      explored_no_goal F stack visited x ((x.closed _ m).1 _ edge) path
  explored_no_goal F stack visited x (inr s) (step open_a edge path) = absurd (cc (s.0, open_a))

  -- Where the walk answers `false`, no goal is reached from its stack.
  pub walk_complete :
      (fuel : ℕ) (stack : List Text) (a g : Text)
      → walk goal skip edges fuel stack [] ≡ some false
      → Has a stack
      → Reaches skip edges a g
      → goal g ≡ false
  walk_complete fuel stack a g h m path =
      let (F, x) = walk-IsExplored fuel stack [] h (λ v k. elim k [ ]) in
      explored_no_goal F stack [] x (x.stacked a m) path
