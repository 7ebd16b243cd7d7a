-- ===== src/Common/Order.antt =====
-- Comparison functions into `Ordering`: the laws that `Ord` asks for, and how they carry over to
-- the combinators that the source builds its comparisons from.
use Prim.Native.Nat.{compare, Ordering}
use Prim.Native.Nat.Ordering.{lt, eq, gt}
use mathlib.Core.Path.{◌≡◌, refl}
use mathlib.Core.Bool.{Bool}
use mathlib.Core.Option.{Option, none, some}
use mathlib.Core.List.{List, [], ◌∷◌}
use native.Mathlib.Omega.{arith}
use dv.Common.Tests.{if◌then◌else◌}

-- `Ordering::reverse` and `Ordering::then_with`
abbrev pub swap : Ordering → Ordering
swap lt = gt
swap eq = eq
swap gt = lt

abbrev pub then_with : Ordering → Ordering → Ordering
then_with eq o = o
then_with o _ = o

-- A total preorder: `cmp` may answer `eq` on values that are not the same.
pub record IsOrder {ℓ} {A : Type ℓ} (cmp : A → A → Ordering) : Type ℓ where
  pub flip : (a b : A) → cmp b a ≡ swap (cmp a b)
  pub same : (a b c : A) → cmp a b ≡ eq → cmp a c ≡ cmp b c
  pub trans : (a b c : A) → cmp a b ≡ lt → cmp b c ≡ lt → cmp a c ≡ lt

pub compare-IsOrder : IsOrder compare
compare-IsOrder = record {
  flip = λ a b. ground arith;
  same = λ a b c. ground arith;
  trans = λ a b c. ground arith;
}

module _ {ℓ} {A : Type ℓ} (c d : A → A → Ordering) (hc : IsOrder c) (hd : IsOrder d) where
  pub then_with-IsOrder : IsOrder (λ a b. then_with (c a b) (d a b))
  then_with-IsOrder = record {
    flip = λ x y. ground (arith, hc.flip x y, hd.flip x y);
    same = λ x y z. ground (arith, hc.same x y z, hd.same x y z);
    trans = λ x y z. ground (
      arith,
      hc.same x y z,
      hc.same y z x,
      hc.same z y x,
      hc.flip x y,
      hc.flip x z,
      hc.flip y z,
      hc.trans x y z,
      hd.trans x y z,
    );
  }

-- Two kinds of values, the kind that `p` picks out below the other.
module _ {ℓ} {A : Type ℓ} (p : A → Bool) (c d : A → A → Ordering) where
  abbrev pub graded : A → A → Ordering
  graded a b = if p a then (if p b then c a b else lt) else if p b then gt else d a b

  pub graded-IsOrder : IsOrder c → IsOrder d → IsOrder graded
  graded-IsOrder hc hd = record {
    flip = λ x y. ground (arith, hc.flip x y, hd.flip x y);
    same = λ x y z. ground (arith, hc.same x y z, hd.same x y z);
    trans = λ x y z. ground (arith, hc.trans x y z, hd.trans x y z);
  }

module _ {ℓ κ} {A : Type ℓ} {B : Type κ} (f : A → B) (c : B → B → Ordering) (hc : IsOrder c) where
  -- a comparison by key
  pub key-IsOrder : IsOrder (λ x y. c (f x) (f y))
  key-IsOrder = record {
    flip = λ x y. hc.flip (f x) (f y);
    same = λ x y z. hc.same (f x) (f y) (f z);
    trans = λ x y z. hc.trans (f x) (f y) (f z);
  }

module _ {ℓ} {A : Type ℓ} (c : A → A → Ordering) where
  -- The lexicographic comparison of sequences, where a proper prefix is smaller.
  unfoldable pub list_cmp : List A → List A → Ordering
  list_cmp [] [] = eq
  list_cmp [] (y ∷ ys) = lt
  list_cmp (x ∷ xs) [] = gt
  list_cmp (x ∷ xs) (y ∷ ys) = then_with (c x y) (list_cmp xs ys)

module _ {ℓ} {A : Type ℓ} (c : A → A → Ordering) (hc : IsOrder c) where
  list_cmp-flip : (xs ys : List A) → list_cmp c ys xs ≡ swap (list_cmp c xs ys)
  unfolding list_cmp
  list_cmp-flip [] [] = refl
  list_cmp-flip [] (y ∷ ys) = refl
  list_cmp-flip (x ∷ xs) [] = refl
  list_cmp-flip (x ∷ xs) (y ∷ ys) = ground (arith, hc.flip x y, list_cmp-flip xs ys)

  list_cmp-same : (xs ys zs : List A) → list_cmp c xs ys ≡ eq → list_cmp c xs zs ≡ list_cmp c ys zs
  unfolding list_cmp
  list_cmp-same [] [] zs h = refl
  list_cmp-same [] (y ∷ ys) zs h = cc
  list_cmp-same (x ∷ xs) [] zs h = cc
  list_cmp-same (x ∷ xs) (y ∷ ys) [] h = refl
  list_cmp-same (x ∷ xs) (y ∷ ys) (z ∷ zs) h = ground (arith, hc.same x y z, list_cmp-same xs ys zs)

  list_cmp_trans :
      (xs ys zs : List A) → list_cmp c xs ys ≡ lt → list_cmp c ys zs ≡ lt → list_cmp c xs zs ≡ lt
  unfolding list_cmp
  list_cmp_trans [] [] zs h k = cc
  list_cmp_trans [] (y ∷ ys) [] h k = cc
  list_cmp_trans [] (y ∷ ys) (z ∷ zs) h k = refl
  list_cmp_trans (x ∷ xs) [] zs h k = cc
  list_cmp_trans (x ∷ xs) (y ∷ ys) [] h k = cc
  list_cmp_trans (x ∷ xs) (y ∷ ys) (z ∷ zs) h k = ground (
    arith,
    hc.same x y z,
    hc.same y z x,
    hc.same z y x,
    hc.flip x y,
    hc.flip x z,
    hc.flip y z,
    hc.trans x y z,
    list_cmp_trans xs ys zs,
  )

  pub list_cmp-IsOrder : IsOrder (list_cmp c)
  list_cmp-IsOrder = record { flip = list_cmp-flip; same = list_cmp-same; trans = list_cmp_trans }

module _ {ℓ} {A : Type ℓ} {cmp : A → A → Ordering} (h : IsOrder cmp) where
  pub cmp_refl : (a : A) → cmp a a ≡ eq
  cmp_refl a = ground (arith, h.flip a a)

module _ {ℓ} {A : Type ℓ} (c : A → A → Ordering) where
  -- Nothing is the greatest.
  abbrev pub none_last : Option A → Option A → Ordering
  none_last none none = eq
  none_last none (some b) = gt
  none_last (some a) none = lt
  none_last (some a) (some b) = c a b

module _ {ℓ} {A : Type ℓ} (c : A → A → Ordering) (hc : IsOrder c) where
  none_last-flip : (a b : Option A) → none_last c b a ≡ swap (none_last c a b)
  none_last-flip none none = refl
  none_last-flip none (some b) = refl
  none_last-flip (some a) none = refl
  none_last-flip (some a) (some b) = hc.flip a b

  none_last-same : (a b d : Option A) → none_last c a b ≡ eq → none_last c a d ≡ none_last c b d
  none_last-same none none d h = refl
  none_last-same none (some b) d h = cc
  none_last-same (some a) none d h = cc
  none_last-same (some a) (some b) none h = refl
  none_last-same (some a) (some b) (some d) h = hc.same a b d h

  none_last_trans :
      (a b d : Option A) → none_last c a b ≡ lt → none_last c b d ≡ lt → none_last c a d ≡ lt
  none_last_trans none none d h k = cc
  none_last_trans none (some b) d h k = cc
  none_last_trans (some a) none none h k = cc
  none_last_trans (some a) none (some d) h k = cc
  none_last_trans (some a) (some b) none h k = refl
  none_last_trans (some a) (some b) (some d) h k = hc.trans a b d h k

  pub none_last-IsOrder : IsOrder (none_last c)
  none_last-IsOrder = record {
    flip = none_last-flip;
    same = none_last-same;
    trans = none_last_trans;
  }
