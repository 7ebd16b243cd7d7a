-- ===== src/Common/Ends.antt =====
-- Facts on the two ends of a text: trimming, the last character, and cutting off the first and the last.
use mathlib.Core.List.{reverse_aux}
use dv.Common.{
  ℕ, ◌+◌, ◌-◌, ◌≡◌, refl, ap, ◌∙◌, true, false, [], ◌∷◌, ◌++◌, ◌==◌, All, reverse, arith, leb,
}
use dv.Common.Text.{
  Text, len, utf8_len, is_whitespace, trim_start, trim, take_bytes, drop_bytes, slice, ends_with,
  contains,
}
use dv.Common.Cut.{drop_bytes-append, len-append}

abbrev pub Tight : Text → Type 0
Tight = All (λ c. is_whitespace c ≡ false)

trim_start-Tight : (s : Text) → Tight s → trim_start is_whitespace s ≡ s
unfolding trim_start
trim_start-Tight [] h = refl
trim_start-Tight (c ∷ s) (p, h) = rw p refl

Tight-reverse_aux : (s t : Text) → Tight s → Tight t → Tight (reverse_aux s t)
Tight-reverse_aux [] t h k = k
Tight-reverse_aux (c ∷ s) t (p, h) k = Tight-reverse_aux s (c ∷ t) h (p, k)

reverse_aux_twice : (s t u : Text) → reverse_aux (reverse_aux s t) u ≡ reverse_aux t (s ++ u)
reverse_aux_twice [] t u = refl
reverse_aux_twice (c ∷ s) t u = reverse_aux_twice s (c ∷ t) u

append_nil : (s : Text) → s ++ [] ≡ s
append_nil [] = refl
append_nil (c ∷ s) = ap (λ r. c ∷ r) (append_nil s)

reverse_twice : (s : Text) → reverse (reverse s) ≡ s
reverse_twice s = reverse_aux_twice s [] [] ∙ append_nil s

pub trim-Tight : (s : Text) → Tight s → trim s ≡ s
unfolding trim
trim-Tight s h =
    ap (λ t. reverse (trim_start is_whitespace (reverse t))) (trim_start-Tight s h)
    ∙ ap reverse (trim_start-Tight (reverse s) (Tight-reverse_aux s [] h tt))
    ∙ reverse_twice s

pub take_bytes-zero : (s : Text) → take_bytes 0 s ≡ []
unfolding take_bytes
take_bytes-zero [] = refl
take_bytes-zero (c ∷ s) = ground arith

-- Taking the bytes of a text and `n` more takes the text and the `n` bytes after it.
pub take_bytes-append : (s t : Text) (n : ℕ) → take_bytes (len s + n) (s ++ t) ≡ s ++ take_bytes n t
unfolding take_bytes
take_bytes-append [] t n = ap (λ k. take_bytes k t) (omega arith)
take_bytes-append (c ∷ s) t n =
    let fits : leb (utf8_len c) (utf8_len c + len s + n) ≡ true = ground arith in
    let left : utf8_len c + len s + n - utf8_len c ≡ len s + n = omega arith in
    rw (fits, left) (ap (λ r. c ∷ r) (take_bytes-append s t n))

pub take_bytes-all : (s : Text) → take_bytes (len s) s ≡ s
unfolding take_bytes
take_bytes-all [] = refl
take_bytes-all (c ∷ s) =
    let fits : leb (utf8_len c) (utf8_len c + len s) ≡ true = ground arith in
    let left : utf8_len c + len s - utf8_len c ≡ len s = omega arith in
    rw (fits, left) (ap (λ r. c ∷ r) (take_bytes-all s))

-- Between the first and the last byte of a text in ASCII brackets is what they enclose.
pub slice-brackets :
    (o c : ℕ) (s : Text)
    → utf8_len o ≡ 1
    → utf8_len c ≡ 1
    → slice 1 (len (o ∷ (s ++ (c ∷ []))) - 1) (o ∷ (s ++ (c ∷ []))) ≡ s
unfolding take_bytes drop_bytes
slice-brackets o c s h k =
    let size : len (o ∷ (s ++ (c ∷ []))) - 1 ≡ len (o ∷ s) + 0 =
      omega (arith, len-append s (c ∷ []), h, k) in
    let one : 1 ≡ len (o ∷ []) = omega (arith, h) in
    ap (λ n. slice 1 n (o ∷ (s ++ (c ∷ [])))) size
    ∙ ap (drop_bytes 1) (take_bytes-append (o ∷ s) (c ∷ []) 0)
    ∙ ap (λ r. drop_bytes 1 ((o ∷ s) ++ r)) (take_bytes-zero (c ∷ []))
    ∙ ap (λ n. drop_bytes n (o ∷ (s ++ []))) one
    ∙ drop_bytes-append (o ∷ []) (s ++ [])
    ∙ append_nil s

pub ends_with-append : (s : Text) (d c : ℕ) → ends_with (s ++ (d ∷ [])) c ≡ (d == c)
unfolding ends_with
ends_with-append [] d c = refl
ends_with-append (x ∷ []) d c = refl
ends_with-append (x ∷ y ∷ s) d c = ends_with-append (y ∷ s) d c

pub contains-append : (s t : Text) (c : ℕ) → contains (s ++ (c ∷ t)) c ≡ true
contains-append [] t c = ground arith
contains-append (x ∷ s) t c = ground (arith, contains-append s t c)
