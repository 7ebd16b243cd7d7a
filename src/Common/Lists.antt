-- ===== src/Common/Lists.antt =====
-- Lists measured and searched by native numbers and Boolean tests.
use Prim.Native.Nat.{ℕ, zero, suc, ◌+◌}
use mathlib.Core.Path.{◌≡◌, refl}
use mathlib.Core.Bool.{Bool, true, false, ◌&&◌, ◌||◌}
use mathlib.Core.List.{List, [], ◌∷◌, ◌++◌, map}
use mathlib.Core.Option.{Option, none, some}
use native.Mathlib.Omega.{arith}
use mathlib.Core.Path.{sym, ap, ◌∙◌, subst}
use mathlib.Core.Logic.{◌⊎◌, inl, inr}
use dv.Common.Tests.{if◌then◌else◌, Bool-cases}

module _ {ℓ} {A : Type ℓ} where
  abbrev pub length : List A → ℕ
  length [] = 0
  length (x ∷ xs) = suc (length xs)

  abbrev pub get_elem? : List A → ℕ → Option A
  get_elem? [] i = none
  get_elem? (x ∷ xs) zero = some x
  get_elem? (x ∷ xs) (suc i) = get_elem? xs i

  -- A write out of bounds changes nothing.
  abbrev pub set : List A → ℕ → A → List A
  set [] i v = []
  set (x ∷ xs) zero v = v ∷ xs
  set (x ∷ xs) (suc i) v = x ∷ set xs i v

  abbrev pub take : ℕ → List A → List A
  take zero xs = []
  take (suc n) [] = []
  take (suc n) (x ∷ xs) = x ∷ take n xs

  abbrev pub drop : ℕ → List A → List A
  drop zero xs = xs
  drop (suc n) [] = []
  drop (suc n) (x ∷ xs) = drop n xs

  -- `Iterator::any`, `Iterator::all`, `Iterator::find` and `Iterator::filter`
  abbrev pub any : (A → Bool) → List A → Bool
  any p [] = false
  any p (x ∷ xs) = p x || any p xs

  abbrev pub all : (A → Bool) → List A → Bool
  all p [] = true
  all p (x ∷ xs) = p x && all p xs

  abbrev pub find : (A → Bool) → List A → Option A
  find p [] = none
  find p (x ∷ xs) = if p x then some x else find p xs

  abbrev pub filter : (A → Bool) → List A → List A
  filter p [] = []
  filter p (x ∷ xs) = let rest = filter p xs in if p x then x ∷ rest else rest

  pub length-append : (xs ys : List A) → length (xs ++ ys) ≡ length xs + length ys
  length-append [] ys = omega arith
  length-append (x ∷ xs) ys = omega (arith, length-append xs ys)

-- `P` at every entry, and `P` at some entry.
abbrev pub All {ℓ κ} : {A : Type ℓ} → (A → Type κ) → List A → Type κ
All P [] = Unit
All P (x ∷ xs) = P x × All P xs

pub data Has {ℓ} {A : Type ℓ} (a : A) : List A → Type ℓ where
  here : {xs : List A} → Has a (a ∷ xs)
  there : {x : A} {xs : List A} → Has a xs → Has a (x ∷ xs)

module _ {ℓ κ} {A : Type ℓ} (P : A → Type κ) where
  pub All-Has : {a : A} (xs : List A) → Has a xs → All P xs → P a
  All-Has [] m h = elim m [ ]
  All-Has (x ∷ xs) here (p, h) = p
  All-Has (x ∷ xs) (there m) (p, h) = All-Has xs m h

  pub All-of-Has : (xs : List A) → ((a : A) → Has a xs → P a) → All P xs
  All-of-Has [] f = tt
  All-of-Has (x ∷ xs) f = (f x here, All-of-Has xs (λ a m. f a (there m)))

module _ {ℓ} {A : Type ℓ} where
  pub Has-cons : {b x : A} {xs : List A} → Has b (x ∷ xs) → (b ≡ x) ⊎ Has b xs
  Has-cons here = inl refl
  Has-cons (there m) = inr m

  -- The filter keeps what passes the test, and only that.
  pub filter-Has :
      (p : A → Bool) (xs : List A) {b : A} → Has b (filter p xs) → (p b ≡ true) × Has b xs
  filter-Has p [] h = elim h [ ]
  filter-Has p (x ∷ xs) h = elim (Bool-cases (p x)) [
    | inl kept ↦ elim (Has-cons (rw kept at h)) [
      | inl e ↦ (ap p e ∙ kept, rw e here)
      | inr later ↦ let (q, m) = filter-Has p xs later in (q, there m)
    ]
    | inr lost ↦ let (q, m) = filter-Has p xs (rw lost at h) in (q, there m)
  ]

  pub Has-filter :
      (p : A → Bool) (xs : List A) {b : A} → p b ≡ true → Has b xs → Has b (filter p xs)
  Has-filter p [] q h = elim h [ ]
  Has-filter p (x ∷ xs) q h = elim (Has-cons h) [
    | inl e ↦ let k : p x ≡ true = ap p (sym e) ∙ q in rw (k, e) here
    | inr later ↦ elim (Bool-cases (p x)) [
      | inl kept ↦ rw kept (there (Has-filter p xs q later))
      | inr lost ↦ rw lost (Has-filter p xs q later)
    ]
  ]

  -- `all` and `find` as statements about every entry
  pub all→All : (p : A → Bool) (xs : List A) → all p xs ≡ true → All (λ x. p x ≡ true) xs
  all→All p [] h = tt
  all→All p (x ∷ xs) h = (ground arith, all→All p xs (ground arith))

  pub find-none : (p : A → Bool) (xs : List A) → find p xs ≡ none → All (λ x. p x ≡ false) xs
  find-none p [] h = tt
  find-none p (x ∷ xs) h = elim (Bool-cases (p x)) [
    | inl yes_p ↦ absurd (ground arith)
    | inr no_p ↦ (no_p, find-none p xs (rw no_p at h))
  ]

  pub find-some :
      (p : A → Bool) (xs : List A) {r : A} → find p xs ≡ some r → Has r xs × (p r ≡ true)
  find-some p [] h = cc
  find-some p (x ∷ xs) {r} h = elim (Bool-cases (p x)) [
    | inl yes_p ↦
        let e : some x ≡ some r = rw yes_p at h in
        let f : x ≡ r = cc e in subst (λ y. Has y (x ∷ xs) × (p y ≡ true)) f (here, yes_p)
    | inr no_p ↦ let (m, q) = find-some p xs (rw no_p at h) in (there m, q)
  ]

module _ {ℓ κ} {A : Type ℓ} {B : Type κ} (f : A → B) where
  pub Has-map : (xs : List A) {a : A} → Has a xs → Has (f a) (map f xs)
  Has-map [] m = elim m [ ]
  Has-map (x ∷ xs) here = here
  Has-map (x ∷ xs) (there m) = there (Has-map xs m)

  pub map-Has : (xs : List A) {b : B} → Has b (map f xs) → (a : A) × Has a xs × (f a ≡ b)
  map-Has [] h = elim h [ ]
  map-Has (x ∷ xs) h = elim (Has-cons h) [
    | inl e ↦ (x, here, sym e)
    | inr later ↦ let (a, m, e) = map-Has xs later in (a, there m, e)
  ]
