-- ===== src/Package/Graph/Walk.antt =====
-- The stack walk that the searches of the resolver share: `while let Some(current) = stack.pop()` with
-- a list of visited identities. The stack has its top at the head.
pub mod Laws
pub mod Fuel
pub mod Search
use mathlib.Core.List.{reverse_aux}
use dv.Common.{
  ℕ, zero, suc, ◌+◌, ◌<◌, ◌≤◌, ◌≡◌, ◌≢◌, refl, ap, sym, ◌∙◌, Bool, true, false, ◌&&◌, ◌||◌, not,
  Option, none, some, List, [], ◌∷◌, ◌++◌, reverse, if◌then◌else◌, length, length-append, ◌⊎◌, inl,
  inr, Has, here, there, Has-cons, Bool-cases, arith,
}
use dv.Common.Text.{Text, text_eq}
use dv.Common.TreeMap.{holds, text_eq_iff, text_eq_refl}

module _ (goal skip : Text → Bool) (edges : Text → List Text) where
  -- The walk ends with `true` at the goal. What is skipped or was visited is not expanded. `none`
  -- means that the fuel ran out.
  unfoldable pub walk : ℕ → List Text → List Text → Option Bool
  walk zero stack visited = none
  walk (suc fuel) [] visited = some false
  walk (suc fuel) (current ∷ stack) visited = elim (goal current) [
    | true ↦ some true
    | false ↦ elim (skip current || holds current visited) [
      | true ↦ walk fuel stack visited
      | false ↦ walk fuel (reverse (edges current) ++ stack) (current ∷ visited)
    ]
  ]

-- A path along the edges whose sources are not skipped.
pub data Reaches (skip : Text → Bool) (edges : Text → List Text) : Text → Text → Type 0 where
  arrived : {a : Text} → Reaches skip edges a a
  step :
      {a b c : Text}
      → skip a ≡ false
      → Has b (edges a)
      → Reaches skip edges b c
      → Reaches skip edges a c

pub holds→Has : (k : Text) (s : List Text) → holds k s ≡ true → Has k s
unfolding holds
holds→Has k [] h = cc
holds→Has k (j ∷ s) h = elim (Bool-cases (text_eq j k)) [
  | inl same ↦ rw ((text_eq_iff j k).0 same) here
  | inr other ↦ there (holds→Has k s (rw other at h))
]

module _ {ℓ} {A : Type ℓ} where
  pub Has-append : (xs ys : List A) {a : A} → Has a (xs ++ ys) → Has a xs ⊎ Has a ys
  Has-append [] ys h = inr h
  Has-append (x ∷ xs) ys h = elim (Has-cons h) [
    | inl e ↦ inl (rw e here)
    | inr later ↦ elim (Has-append xs ys later) [ inl m ↦ inl (there m) | inr m ↦ inr m ]
  ]

  pub Has-left : (xs ys : List A) {a : A} → Has a xs → Has a (xs ++ ys)
  Has-left [] ys h = elim h [ ]
  Has-left (x ∷ xs) ys h = elim (Has-cons h) [
    | inl e ↦ rw e here
    | inr later ↦ there (Has-left xs ys later)
  ]

  pub Has-right : (xs ys : List A) {a : A} → Has a ys → Has a (xs ++ ys)
  Has-right [] ys h = h
  Has-right (x ∷ xs) ys h = there (Has-right xs ys h)

  pub length-reverse_aux : (xs ys : List A) → length (reverse_aux xs ys) ≡ length xs + length ys
  length-reverse_aux [] ys = omega arith
  length-reverse_aux (x ∷ xs) ys = omega (arith, length-reverse_aux xs (x ∷ ys))

  pub Has-reverse_aux : (xs ys : List A) {a : A} → Has a (reverse_aux xs ys) → Has a xs ⊎ Has a ys
  Has-reverse_aux [] ys h = inr h
  Has-reverse_aux (x ∷ xs) ys h = elim (Has-reverse_aux xs (x ∷ ys) h) [
    | inl m ↦ inl (there m)
    | inr m ↦ elim (Has-cons m) [ inl e ↦ inl (rw e here) | inr k ↦ inr k ]
  ]

  pub reverse_aux-Has : (xs ys : List A) {a : A} → Has a xs ⊎ Has a ys → Has a (reverse_aux xs ys)
  reverse_aux-Has [] ys h = elim h [ inl m ↦ elim m [ ] | inr m ↦ m ]
  reverse_aux-Has (x ∷ xs) ys h = reverse_aux-Has xs (x ∷ ys) (elim h [
    | inl m ↦ elim (Has-cons m) [ inl e ↦ inr (rw e here) | inr k ↦ inl k ]
    | inr m ↦ inr (there m)
  ])

-- One round of the walk.
module _ (goal skip : Text → Bool) (edges : Text → List Text) (fuel : ℕ) (current : Text)
    (stack visited : List Text) where
  pub walk-drop :
      goal current ≡ false
      → (skip current || holds current visited) ≡ true
      → walk goal skip edges (suc fuel) (current ∷ stack) visited
        ≡ walk goal skip edges fuel stack visited
  unfolding walk
  walk-drop g d = rw (g, walk, d)

  pub walk-expand :
      goal current ≡ false
      → (skip current || holds current visited) ≡ false
      → walk goal skip edges (suc fuel) (current ∷ stack) visited
        ≡ walk goal skip edges fuel (reverse (edges current) ++ stack) (current ∷ visited)
  unfolding walk
  walk-expand g d = rw (g, walk, d)

  pub walk-goal :
      goal current ≡ true → walk goal skip edges (suc fuel) (current ∷ stack) visited ≡ some true
  unfolding walk
  walk-goal g = rw (g, walk)
