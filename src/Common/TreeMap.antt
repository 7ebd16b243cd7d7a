-- ===== src/Common/TreeMap.antt =====
-- `BTreeMap<String, V>` and `BTreeSet<String>`: entries in the order of their keys.
use mathlib.Core.Path.{subst}
use dv.Common.{
  ℕ, ◌+◌, ◌≤◌, ◌≡◌, refl, Bool, true, false, Option, none, some, List, [], ◌∷◌, lt, eq, gt,
  if◌then◌else◌, ◌↔◌, ◌⊎◌, Bool-cases, inl, inr, Has, here, there, arith,
}
use dv.Common.Order.{list_cmp}
use dv.Common.Text.{Text, text_cmp, text_eq}

pub text_eq→≡ : (s t : Text) → text_eq s t ≡ true → s ≡ t
unfolding text_eq
text_eq→≡ [] [] h = refl
text_eq→≡ [] (d ∷ t) h = cc
text_eq→≡ (c ∷ s) [] h = cc
text_eq→≡ (c ∷ s) (d ∷ t) h = ground (arith, text_eq→≡ s t)

pub text_eq_refl : (s : Text) → text_eq s s ≡ true
unfolding text_eq
text_eq_refl [] = refl
text_eq_refl (c ∷ s) = ground (arith, text_eq_refl s)

-- The test of texts for equality decides it.
pub text_eq_iff : (s t : Text) → (text_eq s t ≡ true) ↔ (s ≡ t)
text_eq_iff s t = (text_eq→≡ s t, λ e. rw e (text_eq_refl t))

pub text_cmp-eq : (s t : Text) → text_cmp s t ≡ eq → s ≡ t
unfolding list_cmp
text_cmp-eq [] [] h = refl
text_cmp-eq [] (d ∷ t) h = cc
text_cmp-eq (c ∷ s) [] h = cc
text_cmp-eq (c ∷ s) (d ∷ t) h = ground (arith, text_cmp-eq s t)

pub text_cmp_self : (s : Text) → text_cmp s s ≡ eq
unfolding list_cmp
text_cmp_self [] = refl
text_cmp_self (c ∷ s) = ground (arith, text_cmp_self s)

abbrev pub TreeMap {ℓ} : Type ℓ → Type ℓ
TreeMap V = List (Text × V)

abbrev pub TreeSet : Type 0
TreeSet = List Text

module _ {ℓ} {V : Type ℓ} where
  -- `get`
  unfoldable pub get : Text → TreeMap V → Option V
  get k [] = none
  get k ((j, v) ∷ m) = if text_eq j k then some v else get k m

  -- `insert`
  unfoldable pub put : Text → V → TreeMap V → TreeMap V
  put k v [] = (k, v) ∷ []
  put k v ((j, w) ∷ m) = elim (text_cmp k j) [
    | lt ↦ (k, v) ∷ (j, w) ∷ m
    | eq ↦ (k, v) ∷ m
    | gt ↦ (j, w) ∷ put k v m
  ]

  -- `remove`
  unfoldable pub remove : Text → TreeMap V → TreeMap V
  remove k [] = []
  remove k ((j, w) ∷ m) = let rest = remove k m in if text_eq j k then rest else (j, w) ∷ rest

  -- what `get_mut` changes
  unfoldable pub modify : Text → (V → V) → TreeMap V → TreeMap V
  modify k f [] = []
  modify k f ((j, w) ∷ m) =
      let rest = modify k f m in if text_eq j k then (j, f w) ∷ rest else (j, w) ∷ rest

  abbrev pub keys : TreeMap V → List Text
  keys [] = []
  keys ((j, w) ∷ m) = j ∷ keys m

  abbrev pub values : TreeMap V → List V
  values [] = []
  values ((j, w) ∷ m) = w ∷ values m

-- `BTreeSet::insert`, `remove` and `contains`
unfoldable pub add : Text → TreeSet → TreeSet
add k [] = k ∷ []
add k (j ∷ s) = elim (text_cmp k j) [ lt ↦ k ∷ j ∷ s | eq ↦ j ∷ s | gt ↦ j ∷ add k s ]

unfoldable pub discard : Text → TreeSet → TreeSet
discard k [] = []
discard k (j ∷ s) = let rest = discard k s in if text_eq j k then rest else j ∷ rest

unfoldable pub holds : Text → TreeSet → Bool
holds k [] = false
holds k (j ∷ s) = if text_eq j k then true else holds k s

module _ {ℓ} {V : Type ℓ} where
  pub get-put :
      (k j : Text) (v : V) (m : TreeMap V)
      → get j (put k v m) ≡ (if text_eq k j then some v else get j m)
  unfolding get put
  get-put k j v [] = refl
  get-put k j v ((i, w) ∷ m) =
      ground
        (arith, text_cmp-eq k i, text_eq_iff k j, text_eq_iff i j, text_cmp_self k, get-put k j v m)

  pub get-remove :
      (k j : Text) (m : TreeMap V) → get j (remove k m) ≡ (if text_eq k j then none else get j m)
  unfolding get remove
  get-remove k j [] = ground arith
  get-remove k j ((i, w) ∷ m) =
      ground (arith, text_eq_iff k j, text_eq_iff i j, text_eq_iff i k, get-remove k j m)

  pub get-modify :
      (k j : Text) (f : V → V) (m : TreeMap V)
      → get j (modify k f m)
        ≡ (if text_eq k j then elim (get j m) [ none ↦ none | some v ↦ some (f v) ] else get j m)
  unfolding get modify
  get-modify k j f [] = ground arith
  get-modify k j f ((i, w) ∷ m) =
      ground (arith, text_eq_iff k j, text_eq_iff i j, text_eq_iff i k, get-modify k j f m)

  -- A measure of a map that counts every entry.
  abbrev pub total : (V → ℕ) → TreeMap V → ℕ
  total w [] = 0
  total w ((j, v) ∷ m) = w v + total w m

  pub total-remove : (w : V → ℕ) (k : Text) (m : TreeMap V) → total w (remove k m) ≤ total w m
  unfolding remove
  total-remove w k [] = omega arith
  total-remove w k ((j, v) ∷ m) = ground (arith, total-remove w k m)

  -- Removing a key that is there lowers a measure that counts the key's entry.
  pub total-remove_lt :
      (w : V → ℕ) (k : Text) (m : TreeMap V) {v : V}
      → get k m ≡ some v
      → ((u : V) → 1 ≤ w u)
      → total w (remove k m) + 1 ≤ total w m
  unfolding get remove
  total-remove_lt w k [] h p = cc
  total-remove_lt w k ((j, u) ∷ m) h p = elim (Bool-cases (text_eq j k)) [
    | inl same ↦ rw same (omega (arith, p u, total-remove w k m))
    | inr other ↦ rw other (omega (arith, total-remove_lt w k m (rw other at h) p))
  ]

  pub total-modify :
      (w : V → ℕ) (k : Text) (f : V → V) (m : TreeMap V)
      → ((u : V) → w (f u) ≤ w u)
      → total w (modify k f m) ≤ total w m
  unfolding modify
  total-modify w k f [] p = omega arith
  total-modify w k f ((j, u) ∷ m) p = ground (arith, p u, total-modify w k f m p)

  -- So does changing the key's entry to a lighter one.
  pub total-modify_lt :
      (w : V → ℕ) (k : Text) (f : V → V) (m : TreeMap V) {v : V}
      → get k m ≡ some v
      → w (f v) + 1 ≤ w v
      → ((u : V) → w (f u) ≤ w u)
      → total w (modify k f m) + 1 ≤ total w m
  unfolding get modify
  total-modify_lt w k f [] h q p = cc
  total-modify_lt w k f ((j, u) ∷ m) {v} h q p = elim (Bool-cases (text_eq j k)) [
    | inl same ↦
        let e : some u ≡ some v = rw same at h in
        let e' : v ≡ u = cc e in
        rw same (omega (arith, subst (λ x. w (f x) + 1 ≤ w x) e' q, total-modify w k f m p))
    | inr other ↦ rw other (omega (arith, p u, total-modify_lt w k f m (rw other at h) q p))
  ]

pub holds-add :
    (k j : Text) (s : TreeSet) → holds j (add k s) ≡ (if text_eq k j then true else holds j s)
unfolding holds add
holds-add k j [] = refl
holds-add k j (i ∷ s) =
    ground
      (arith, text_cmp-eq k i, text_eq_iff k j, text_eq_iff i j, text_cmp_self k, holds-add k j s)

pub holds-discard :
    (k j : Text) (s : TreeSet) → holds j (discard k s) ≡ (if text_eq k j then false else holds j s)
unfolding holds discard
holds-discard k j [] = ground arith
holds-discard k j (i ∷ s) =
    ground (arith, text_eq_iff k j, text_eq_iff i j, text_eq_iff i k, holds-discard k j s)

module _ {ℓ} {V : Type ℓ} where
  -- A key is among the keys of a map that has an entry for it.
  pub get-Has : (k : Text) (m : TreeMap V) → Has k (keys m) ⊎ (get k m ≡ none)
  unfolding get
  get-Has k [] = inr refl
  get-Has k ((j, v) ∷ m) = elim (Bool-cases (text_eq j k)) [
    | inl same ↦ rw (text_eq→≡ j k same) (inl here)
    | inr other ↦ elim (get-Has k m) [
      | inl later ↦ inl (there later)
      | inr e ↦ inr (rw (other, e) refl)
    ]
  ]
