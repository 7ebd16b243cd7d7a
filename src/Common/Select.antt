-- ===== src/Common/Select.antt =====
-- `Iterator::max_by` and `min_by`, and what they choose.
use Prim.Native.Nat.{Ordering}
use Prim.Native.Nat.Ordering.{lt, eq, gt}
use mathlib.Core.Path.{◌≡◌, refl, subst, sym, ap}
use mathlib.Core.Logic.{◌≢◌, ◌⊎◌, inl, inr}
use mathlib.Core.Bool.{Bool, true, false, ◌&&◌}
use mathlib.Core.Option.{Option, none, some}
use mathlib.Core.List.{List, [], ◌∷◌}
use native.Mathlib.Omega.{arith}
use dv.Common.Tests.{if◌then◌else◌, Bool-cases, if_either}
use dv.Common.Lists.{
  All, Has, here, there, filter, filter-Has, Has-filter, find, find-none, find-some, All-Has,
  All-of-Has, Has-cons,
}
use dv.Common.Order.{IsOrder, cmp_refl}

abbrev pub is_gt : Ordering → Bool
is_gt gt = true
is_gt lt = false
is_gt eq = false

-- what `reduce` keeps
unfoldable pub kept {ℓ} : {A : Type ℓ} → (A → A → A) → A → List A → A
kept choose best [] = best
kept choose best (x ∷ xs) = kept choose (choose best x) xs

module _ {ℓ} {A : Type ℓ} (cmp : A → A → Ordering) where
  -- the later of two that compare equal
  abbrev pub later_max : A → A → A
  later_max best x = if is_gt (cmp best x) then best else x

  -- the earlier of two that compare equal
  abbrev pub earlier_min : A → A → A
  earlier_min best x = if is_gt (cmp best x) then x else best

  abbrev pub max_by : List A → Option A
  max_by [] = none
  max_by (x ∷ xs) = some (kept later_max x xs)

  abbrev pub min_by : List A → Option A
  min_by [] = none
  min_by (x ∷ xs) = some (kept earlier_min x xs)

-- The entry that a choice made, or that there is none: it is eligible, and no eligible entry comes
-- before it in the order of preference.
abbrev pub IsBest : {A : Type 0} → (A → Bool) → (A → A → Ordering) → List A → Option A → Type 0
IsBest eligible pref xs none = All (λ x. eligible x ≡ false) xs
IsBest eligible pref xs (some r) =
    Has r xs × (eligible r ≡ true) × All (λ x. (eligible x ≡ false) ⊎ (pref r x ≢ gt)) xs

module _ {A : Type 0} {pref : A → A → Ordering} (h : IsOrder pref) where
  le_trans : (a b c : A) → pref a b ≢ gt → pref b c ≢ gt → pref a c ≢ gt
  le_trans a b c p q e = ground (
    arith,
    h.same a b c,
    h.same b c a,
    h.same c b a,
    h.flip a b,
    h.flip a c,
    h.flip b c,
    h.trans a b c,
  )

  le_self : (a : A) → pref a a ≢ gt
  le_self a = ground (arith, cmp_refl h a)

  pub swap-IsOrder : IsOrder (λ a b. pref b a)
  swap-IsOrder = record {
    flip = λ a b. h.flip b a;
    same = λ a b c. ground (arith, h.flip a b, h.flip a c, h.flip b c, h.same a b c);
    trans = λ a b c p q. h.trans c b a q p;
  }

  module _ (choose : A → A → A) (one : (a b : A) → (choose a b ≡ a) ⊎ (choose a b ≡ b))
      (left : (a b : A) → pref (choose a b) a ≢ gt)
      (right : (a b : A) → pref (choose a b) b ≢ gt) where
    kept-Has : (best : A) (xs : List A) → Has (kept choose best xs) (best ∷ xs)
    unfolding kept
    kept-Has best [] = here
    kept-Has best (x ∷ xs) = elim (Has-cons (kept-Has (choose best x) xs)) [
      | inl e ↦ elim (one best x) [ inl f ↦ rw (e, f) here | inr f ↦ rw (e, f) (there here) ]
      | inr m ↦ there (there m)
    ]

    kept_least :
        (best : A) (xs : List A)
        → (pref (kept choose best xs) best ≢ gt) × All (λ x. pref (kept choose best xs) x ≢ gt) xs
    unfolding kept
    kept_least best [] = (le_self best, tt)
    kept_least best (x ∷ xs) =
        let (p, q) = kept_least (choose best x) xs in
        let m = kept choose (choose best x) xs in
        (
          le_trans m (choose best x) best p (left best x),
          (le_trans m (choose best x) x p (right best x), q),
        )

    kept-Best :
        (p : A → Bool) (xs ys : List A) (r : A)
        → filter p xs ≡ r ∷ ys
        → IsBest p pref xs (some (kept choose r ys))
    kept-Best p xs ys r e =
        let m = kept choose r ys in
        let member : Has m (filter p xs) = subst (Has m) (sym e) (kept-Has r ys) in
        let (q, inside) = filter-Has p xs member in
        (
          inside,
          q,
          All-of-Has (λ x. (p x ≡ false) ⊎ (pref m x ≢ gt)) xs
              (λ x k. elim (Bool-cases (p x)) [
                | inl yes_p ↦
                    let k' : Has x (r ∷ ys) = subst (Has x) e (Has-filter p xs yes_p k) in
                    inr (All-Has (λ y. pref m y ≢ gt) (r ∷ ys) k' (kept_least r ys))
                | inr no_p ↦ inl no_p
              ]),
        )

none-Best :
    {A : Type 0} (pref : A → A → Ordering) (p : A → Bool) (xs : List A)
    → filter p xs ≡ []
    → IsBest p pref xs none
none-Best pref p xs e =
    All-of-Has (λ x. p x ≡ false) xs
      (λ x k. elim (Bool-cases (p x)) [
        | inl yes_p ↦ elim (subst (Has x) e (Has-filter p xs yes_p k)) [ ]
        | inr no_p ↦ no_p
      ])

module _ {A : Type 0} {cmp : A → A → Ordering} (h : IsOrder cmp) where
  earlier_one : (a b : A) → (earlier_min cmp a b ≡ a) ⊎ (earlier_min cmp a b ≡ b)
  earlier_one a b =
      if_either (λ x. (x ≡ a) ⊎ (x ≡ b)) (is_gt (cmp a b)) b a (λ _. inr refl) (λ _. inl refl)

  later_one : (a b : A) → (later_max cmp a b ≡ a) ⊎ (later_max cmp a b ≡ b)
  later_one a b =
      if_either (λ x. (x ≡ a) ⊎ (x ≡ b)) (is_gt (cmp a b)) a b (λ _. inl refl) (λ _. inr refl)

  earlier_left : (a b : A) → cmp (earlier_min cmp a b) a ≢ gt
  earlier_left a b =
      if_either (λ x. cmp x a ≢ gt) (is_gt (cmp a b)) b a (λ e. ground (arith, e, h.flip a b))
        (λ e. ground (arith, cmp_refl h a))

  earlier_right : (a b : A) → cmp (earlier_min cmp a b) b ≢ gt
  earlier_right a b =
      if_either (λ x. cmp x b ≢ gt) (is_gt (cmp a b)) b a (λ e. ground (arith, cmp_refl h b))
        (λ e. ground (arith, e))

  later_left : (a b : A) → cmp a (later_max cmp a b) ≢ gt
  later_left a b =
      if_either (λ x. cmp a x ≢ gt) (is_gt (cmp a b)) a b (λ e. ground (arith, cmp_refl h a))
        (λ e. ground (arith, e))

  later_right : (a b : A) → cmp b (later_max cmp a b) ≢ gt
  later_right a b =
      if_either (λ x. cmp b x ≢ gt) (is_gt (cmp a b)) a b (λ e. ground (arith, e, h.flip a b))
        (λ e. ground (arith, cmp_refl h b))

  -- `filter` and then `min_by` or `max_by` make the best choice.
  pub min_by-Best_of :
      (p : A → Bool) (xs ys : List A) → filter p xs ≡ ys → IsBest p cmp xs (min_by cmp ys)
  min_by-Best_of p xs [] e = none-Best cmp p xs e
  min_by-Best_of p xs (y ∷ ys) e =
      kept-Best h (earlier_min cmp) earlier_one earlier_left earlier_right p xs ys y e

  pub min_by-Best : (p : A → Bool) (xs : List A) → IsBest p cmp xs (min_by cmp (filter p xs))
  min_by-Best p xs = min_by-Best_of p xs (filter p xs) refl

  max_by-Best_of :
      (p : A → Bool) (xs ys : List A)
      → filter p xs ≡ ys
      → IsBest p (λ a b. cmp b a) xs (max_by cmp ys)
  max_by-Best_of p xs [] e = none-Best (λ a b. cmp b a) p xs e
  max_by-Best_of p xs (y ∷ ys) e =
      kept-Best (swap-IsOrder h) (later_max cmp) later_one later_left later_right p xs ys y e

  pub max_by-Best :
      (p : A → Bool) (xs : List A) → IsBest p (λ a b. cmp b a) xs (max_by cmp (filter p xs))
  max_by-Best p xs = max_by-Best_of p xs (filter p xs) refl

  -- Where all that pass the test are alike, the first of them is the best choice.
  pub find-Best :
      (p : A → Bool) (xs : List A)
      → ((a b : A) → p a ≡ true → p b ≡ true → cmp a b ≢ gt)
      → IsBest p cmp xs (find p xs)
  find-Best p xs alike = found (find p xs) refl
    where
      found : (o : Option A) → find p xs ≡ o → IsBest p cmp xs o
      found none e = find-none p xs e
      found (some r) e =
          let (m, q) = find-some p xs e in
          (
            m,
            q,
            All-of-Has (λ x. (p x ≡ false) ⊎ (cmp r x ≢ gt)) xs
                (λ x k. elim (Bool-cases (p x)) [
                  | inl yes_p ↦ inr (alike r x q yes_p)
                  | inr no_p ↦ inl no_p
                ]),
          )

-- Two filters are one.
pub filter-filter :
    {A : Type 0} (p q : A → Bool) (xs : List A)
    → filter p (filter q xs) ≡ filter (λ x. q x && p x) xs
filter-filter p q [] = refl
filter-filter p q (x ∷ xs) = elim (Bool-cases (q x)) [
  | inl kept_q ↦ rw (kept_q, filter-filter p q xs) refl
  | inr lost_q ↦ rw lost_q (filter-filter p q xs)
]

pub filter_all : {A : Type 0} (xs : List A) → filter (λ _. true) xs ≡ xs
filter_all [] = refl
filter_all (x ∷ xs) = ap (λ ys. x ∷ ys) (filter_all xs)

pub find-filter :
    {A : Type 0} (p q : A → Bool) (xs : List A) → find p (filter q xs) ≡ find (λ x. q x && p x) xs
find-filter p q [] = refl
find-filter p q (x ∷ xs) = elim (Bool-cases (q x)) [
  | inl kept_q ↦ rw (kept_q, find-filter p q xs) refl
  | inr lost_q ↦ rw lost_q (find-filter p q xs)
]

-- The best of what passes a test is the best by both tests.
pub Best-filter :
    {A : Type 0} (p q : A → Bool) (pref : A → A → Ordering) (xs : List A) (o : Option A)
    → IsBest p pref (filter q xs) o
    → IsBest (λ x. q x && p x) pref xs o
Best-filter p q pref xs none h =
    All-of-Has (λ x. (q x && p x) ≡ false) xs
      (λ x m. elim (Bool-cases (q x)) [
        | inl kept_q ↦
            ground (arith, All-Has (λ x. p x ≡ false) (filter q xs) (Has-filter q xs kept_q m) h)
        | inr lost_q ↦ ground (arith, lost_q)
      ])
Best-filter p q pref xs (some r) (k, e, h) =
    let (kept_r, m) = filter-Has q xs k in
    (
      m,
      ground (arith, kept_r, e),
      All-of-Has (λ x. ((q x && p x) ≡ false) ⊎ (pref r x ≢ gt)) xs
          (λ x j. elim (Bool-cases (q x)) [
            | inl kept_q ↦
                elim (All-Has (λ x. (p x ≡ false) ⊎ (pref r x ≢ gt)) (filter q xs)
                  (Has-filter q xs kept_q j) h) [
                    | inl no_p ↦ inl (ground (arith, no_p))
                    | inr below ↦ inr below
                  ]
            | inr lost_q ↦ inl (ground (arith, lost_q))
          ]),
    )
