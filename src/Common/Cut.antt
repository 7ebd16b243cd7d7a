-- ===== src/Common/Cut.antt =====
-- Facts on cutting text at a character, on ASCII text and on lower case.
use dv.Common.{
  ℕ, ◌+◌, ◌-◌, ◌≡◌, ◌≢◌, refl, true, false, none, some, List, [], ◌∷◌, ◌++◌, map, ◌==◌, length, All,
  Bool-cases, inl, inr, arith,
}
use dv.Common.Text.{
  Text, utf8_len, len, is_digit, to_lower, to_lowercase, split, split_once, push_head, drop_bytes,
}

abbrev pub Lacks : ℕ → Text → Type 0
Lacks b = All (λ c. c ≢ b)

pub All-imp {ℓ κ μ} :
    {A : Type ℓ} (P : A → Type κ) (Q : A → Type μ)
    → ((a : A) → P a → Q a)
    → (xs : List A) → All P xs
    → All Q xs
All-imp P Q f [] h = tt
All-imp P Q f (x ∷ xs) (p, h) = (f x p, All-imp P Q f xs h)

pub All-append {ℓ κ} :
    {A : Type ℓ} (P : A → Type κ) (xs ys : List A) → All P xs → All P ys → All P (xs ++ ys)
All-append P [] ys h k = k
All-append P (x ∷ xs) ys (p, h) k = (p, All-append P xs ys h k)

pub drop_bytes-zero : (s : Text) → drop_bytes 0 s ≡ s
unfolding drop_bytes
drop_bytes-zero [] = refl
drop_bytes-zero (c ∷ s) = refl

-- Dropping as many bytes as a text has leaves what follows it.
pub drop_bytes-append : (s t : Text) → drop_bytes (len s) (s ++ t) ≡ t
unfolding drop_bytes
drop_bytes-append [] t = drop_bytes-zero t
drop_bytes-append (c ∷ s) t =
    let e : utf8_len c + len s - utf8_len c ≡ len s = omega arith in
    let nonzero : (utf8_len c + len s == 0) ≡ false = ground arith in
    rw (nonzero, e) (drop_bytes-append s t)

pub len-append : (s t : Text) → len (s ++ t) ≡ len s + len t
len-append [] t = omega arith
len-append (c ∷ s) t = omega (arith, len-append s t)

-- Text of digits is as long in bytes as in characters.
pub len-digits : (s : Text) → All (λ c. is_digit c ≡ true) s → len s ≡ length s
len-digits [] h = refl
len-digits (c ∷ s) (p, h) = ground (arith, len-digits s h)

pub split_once-Lacks : (b : ℕ) (s : Text) → Lacks b s → split_once b s ≡ none
unfolding split_once
split_once-Lacks b [] h = refl
split_once-Lacks b (c ∷ s) (p, h) = ground (arith, split_once-Lacks b s h)

pub split_once-append : (b : ℕ) (s t : Text) → Lacks b s → split_once b (s ++ (b ∷ t)) ≡ some (s, t)
unfolding split_once
split_once-append b [] t h = ground arith
split_once-append b (c ∷ s) t (p, h) = ground (arith, split_once-append b s t h)

pub split-Lacks : (b : ℕ) (s : Text) → Lacks b s → split b s ≡ s ∷ []
unfolding split
split-Lacks b [] h = refl
split-Lacks b (c ∷ s) (p, h) = ground (arith, split-Lacks b s h)

pub split-append : (b : ℕ) (s t : Text) → Lacks b s → split b (s ++ (b ∷ t)) ≡ s ∷ split b t
unfolding split
split-append b [] t h = ground arith
split-append b (c ∷ s) t (p, h) = ground (arith, split-append b s t h)

pub to_lower_idem : (c : ℕ) → to_lower (to_lower c) ≡ to_lower c
unfolding to_lower
to_lower_idem c = ground arith

pub to_lowercase_idem : (s : Text) → to_lowercase (to_lowercase s) ≡ to_lowercase s
unfolding to_lowercase
to_lowercase_idem [] = refl
to_lowercase_idem (c ∷ s) = cc (to_lower_idem c, to_lowercase_idem s)

pub len-to_lowercase : (s : Text) → len (to_lowercase s) ≡ len s
unfolding to_lowercase
len-to_lowercase [] = refl
len-to_lowercase (c ∷ s) = ground (arith, len-to_lowercase s)

push_head-map :
    (c : ℕ) (ps : List Text)
    → push_head (to_lower c) (map to_lowercase ps) ≡ map to_lowercase (push_head c ps)
unfolding to_lowercase
push_head-map c [] = refl
push_head-map c (p ∷ ps) = refl

-- Lower case leaves a separator that is no letter where it is.
pub split-to_lowercase : (s : Text) → split b'.' (to_lowercase s) ≡ map to_lowercase (split b'.' s)
unfolding split to_lowercase
split-to_lowercase [] = refl
split-to_lowercase (c ∷ s) = elim (Bool-cases (c == b'.')) [
  | inl sep ↦ rw sep (ground (arith, split-to_lowercase s))
  | inr other ↦ ground (arith, split-to_lowercase s, push_head-map c (split b'.' s))
]
