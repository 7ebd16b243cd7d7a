-- ===== src/Package/Graph/Walk/Fuel.antt =====
-- The fuel that the walk needs: the length of its stack and the edges that were not pushed yet.
use mathlib.Core.Path.{subst}
use dv.Common.{
  ℕ, zero, suc, ◌+◌, ◌≤◌, ◌≡◌, ◌≢◌, ap, sym, ◌∙◌, Bool, false, ◌||◌, none, List, [], ◌∷◌, ◌++◌,
  reverse, ◌⊎◌, inl, inr, Has, Has-cons, Bool-cases, if◌then◌else◌, length, length-append, arith,
}
use dv.Common.Text.{Text}
use dv.Common.TreeMap.{holds, text_eq_refl}
use dv.Package.Graph.Walk.{walk, walk-drop, walk-expand, walk-goal, length-reverse_aux}

module _ (edges : Text → List Text) where
  -- the edges of the keys that were not visited
  unfoldable pub pending : List Text → List Text → ℕ
  pending [] visited = 0
  pending (k ∷ ks) visited = (if holds k visited then 0 else length (edges k)) + pending ks visited

  -- Visiting one more key pushes no edge that was not pending.
  pending_add : (ks visited : List Text) (c : Text) → pending ks (c ∷ visited) ≤ pending ks visited
  unfolding pending holds
  pending_add [] visited c = omega arith
  pending_add (k ∷ ks) visited c = ground (arith, pending_add ks visited c)

  -- The edges of a key are pending until it is visited.
  pending_take :
      (ks visited : List Text) (c : Text)
      → Has c ks
      → holds c visited ≡ false
      → pending ks (c ∷ visited) + length (edges c) ≤ pending ks visited
  unfolding pending holds
  pending_take [] visited c m fresh = elim m [ ]
  pending_take (k ∷ ks) visited c m fresh = elim (Has-cons m) [
    | inl e ↦
        let fresh_k : holds k visited ≡ false = subst (λ x. holds x visited ≡ false) e fresh in
        rw e (rw (text_eq_refl k, fresh_k) (omega (arith, pending_add ks visited k)))
    | inr later ↦ ground (arith, pending_take ks visited c later fresh)
  ]

module _ (goal skip : Text → Bool) (edges : Text → List Text) (ks : List Text)
    (known : (c : Text) → Has c ks ⊎ (edges c ≡ [])) where
  -- Every edge that expanding pushes was pending.
  pub expand_pays :
      (current : Text) (stack visited : List Text)
      → holds current visited ≡ false
      → length (reverse (edges current) ++ stack) + pending edges ks (current ∷ visited)
        ≤ length stack + pending edges ks visited
  expand_pays current stack visited fresh =
      let pushed = length-append (reverse (edges current)) stack in
      let turned = length-reverse_aux (edges current) [] in
      elim (known current) [
        | inl m ↦ omega (arith, pushed, turned, pending_take edges ks visited current m fresh)
        | inr e ↦
            let none_pushed : length (edges current) ≡ 0 = ap length e in
            omega (arith, pushed, turned, none_pushed, pending_add edges ks visited current)
      ]

  -- With more fuel than that the walk does not run out of it.
  pub walk_ends :
      (fuel : ℕ) (stack visited : List Text)
      → length stack + pending edges ks visited + 1 ≤ fuel
      → walk goal skip edges fuel stack visited ≢ none
  unfolding walk
  walk_ends zero stack visited enough = absurd (omega (arith, enough))
  walk_ends (suc fuel) [] visited enough = λ e. cc e
  walk_ends (suc fuel) (current ∷ stack) visited enough = λ e. elim (Bool-cases (goal current)) [
    | inl g ↦ cc (walk-goal goal skip edges fuel current stack visited g, e)
    | inr g ↦ elim (Bool-cases (skip current || holds current visited)) [
      | inl d ↦
          walk_ends fuel stack visited (omega (arith, enough))
            (sym (walk-drop goal skip edges fuel current stack visited g d) ∙ e)
      | inr d ↦
          walk_ends fuel (reverse (edges current) ++ stack) (current ∷ visited)
            (omega (arith, enough, expand_pays current stack visited (ground arith)))
            (sym (walk-expand goal skip edges fuel current stack visited g d) ∙ e)
    ]
  ]
