-- ===== src/Package/Version/RoundTrip.antt =====
-- The normalized text of a `PackageVersion` is parsed back into it.
use mathlib.Core.List.{append_assoc, append-nil}
use mathlib.Core.Path.{subst}
use dv.Common.{
  ℕ, suc, ◌≤◌, ◌≡◌, ◌≢◌, refl, sym, ap, ◌∙◌, true, false, ◌||◌, not, Option, none, some, List, [],
  ◌∷◌, ◌++◌, map, ltb, ◌==◌, if◌then◌else◌, all, any, ◌⊎◌, All, Bool-cases, inl, inr, arith,
}
use dv.Common.Text.{
  Text, len, is_empty, is_digit, to_lower, to_lowercase, split, split_once, push_head, parse_uint,
  parse_digits,
}
use dv.Common.Cut.{
  Lacks, All-imp, All-append, split_once-Lacks, split_once-append, split-Lacks, split-append,
  to_lowercase_idem, split-to_lowercase,
}
use dv.Common.Decimal.{show, show-All, show-cons, parse_digits-show}
use dv.Common.Result.{ok}
use dv.Package.Error.{PackageError, resolution_error}
use dv.Package.Version.{
  u32_max, Numbers, PackageVersion, is_label_char, invalid_label, cut, read_numbers,
  normalized_numbers, no_numbers, is_some_and, assemble, parse,
}
use dv.Package.Version.Parse.{IsBounded, label_of, parse-Parsed}

parse_uint-show : (n : ℕ) → n ≤ u32_max → parse_uint u32_max (show n) ≡ some n
unfolding parse_uint
parse_uint-show n h =
    let (d, s, e) = show-cons n in
    let head : is_digit d ≡ true = (rw e at (show-All n)).0 in
    let read : parse_digits u32_max 0 (d ∷ s) ≡ some n =
      ap (parse_digits u32_max 0) (sym e) ∙ parse_digits-show u32_max n h in
    rw e (ground (arith, head, read))

show-Lacks : (b n : ℕ) → is_digit b ≡ false → Lacks b (show n)
show-Lacks b n h =
    All-imp (λ c. is_digit c ≡ true) (λ c. c ≢ b) (λ c p e. cc (ap is_digit e)) (show n)
      (show-All n)

module _ (b : ℕ) (h : is_digit b ≡ false) (k : b'.' ≢ b) where
  tail-Lacks : (n : ℕ) → Lacks b (if n == 0 then [] else b'.' ∷ show n)
  tail-Lacks n = elim (Bool-cases (n == 0)) [ inl z ↦ rw z tt | inr p ↦ rw p (k, show-Lacks b n h) ]

  numbers-Lacks : (ns : Numbers) → Lacks b (normalized_numbers ns)
  unfolding normalized_numbers
  numbers-Lacks ns = All-append _ (show ns.major) _ (show-Lacks b ns.major h) (
    k,
    All-append _ (show ns.minor) _ (show-Lacks b ns.minor h)
        (k, All-append _ (show ns.patch) _ (show-Lacks b ns.patch h) (tail-Lacks ns.revision)),
  )

abbrev parts_tail : ℕ → List Text
parts_tail n = if n == 0 then [] else show n ∷ []

split-tail :
    (n m : ℕ)
    → split b'.' (show n ++ (if m == 0 then [] else b'.' ∷ show m)) ≡ show n ∷ parts_tail m
split-tail n m = elim (Bool-cases (m == 0)) [
  | inl z ↦ rw (z, append-nil) (split-Lacks b'.' (show n) (show-Lacks b'.' n refl))
  | inr p ↦
      rw (p, split-append b'.' (show n) (show m) (show-Lacks b'.' n refl))
        (ap (λ t. show n ∷ t) (split-Lacks b'.' (show m) (show-Lacks b'.' m refl)))
]

split-normalized_numbers :
    (ns : Numbers)
    → split b'.' (normalized_numbers ns)
      ≡ show ns.major ∷ show ns.minor ∷ show ns.patch ∷ parts_tail ns.revision
unfolding normalized_numbers
split-normalized_numbers ns = rw (
  split-append b'.' (show ns.major) _ (show-Lacks b'.' ns.major refl),
  split-append b'.' (show ns.minor) _ (show-Lacks b'.' ns.minor refl),
  split-tail ns.patch ns.revision,
)

read_numbers-show :
    (e : PackageError) (ns : Numbers)
    → IsBounded ns
    → (count : ℕ) × (read_numbers e no_numbers 0
          (show ns.major ∷ show ns.minor ∷ show ns.patch ∷ parts_tail ns.revision)
        ≡ ok (ns, suc count))
unfolding read_numbers
read_numbers-show e ns h = elim (Bool-cases (ns.revision == 0)) [
  | inl z ↦ (
    2,
    rw z (
        ground
          (arith, parse_uint-show ns.major, parse_uint-show ns.minor, parse_uint-show ns.patch)),
  )
  | inr p ↦ (
    3,
    rw p (
        ground (
          arith,
          parse_uint-show ns.major,
          parse_uint-show ns.minor,
          parse_uint-show ns.patch,
          parse_uint-show ns.revision,
        )),
  )
]

-- A valid label consists of label characters and dots.
abbrev LabelChar : ℕ → Type 0
LabelChar c = (c ≡ b'.') ⊎ (is_label_char c ≡ true)

abbrev IsLabelPart : Text → Type 0
IsLabelPart part = all is_label_char part ≡ true

push_head-All :
    (c : ℕ) (parts : List Text)
    → All IsLabelPart (push_head c parts)
    → (is_label_char c ≡ true) × All IsLabelPart parts
push_head-All c [] h = (ground arith, tt)
push_head-All c (p ∷ ps) h = (ground arith, (ground arith, h.1))

split-LabelChar : (s : Text) → All IsLabelPart (split b'.' s) → All LabelChar s
unfolding split
split-LabelChar [] h = tt
split-LabelChar (c ∷ s) h = elim (Bool-cases (c == b'.')) [
  | inl dot ↦ (inl (ground arith), split-LabelChar s (rw dot at h).1)
  | inr other ↦
      let (p, k) = push_head-All c (split b'.' s) (rw other at h) in (inr p, split-LabelChar s k)
]

valid_parts :
    (parts : List Text)
    → any (λ part. is_empty part || not (all is_label_char part)) parts ≡ false
    → All IsLabelPart parts
valid_parts [] h = tt
valid_parts (p ∷ ps) h = (ground arith, valid_parts ps (ground arith))

valid-LabelChar : (l : Text) → invalid_label l ≡ false → All LabelChar l
unfolding invalid_label
valid-LabelChar l h = split-LabelChar l (valid_parts (split b'.' l) (ground arith))

lower-ne-plus : (c : ℕ) → LabelChar c → to_lower c ≢ b'+'
unfolding to_lower
lower-ne-plus c h = ground arith

lowercase-Lacks : (l : Text) → All LabelChar l → Lacks b'+' (to_lowercase l)
unfolding to_lowercase
lowercase-Lacks [] h = tt
lowercase-Lacks (c ∷ l) (p, h) = (lower-ne-plus c p, lowercase-Lacks l h)

is_label_char-to_lower : (c : ℕ) → is_label_char (to_lower c) ≡ is_label_char c
unfolding to_lower
is_label_char-to_lower c = ground arith

all-lowercase : (s : Text) → all is_label_char (to_lowercase s) ≡ all is_label_char s
unfolding to_lowercase
all-lowercase [] = refl
all-lowercase (c ∷ s) = rw (is_label_char-to_lower c, all-lowercase s)

is_empty-lowercase : (s : Text) → is_empty (to_lowercase s) ≡ is_empty s
unfolding to_lowercase
is_empty-lowercase [] = refl
is_empty-lowercase (c ∷ s) = refl

any-lowercase :
    (parts : List Text)
    → any (λ part. is_empty part || not (all is_label_char part)) (map to_lowercase parts)
      ≡ any (λ part. is_empty part || not (all is_label_char part)) parts
any-lowercase [] = refl
any-lowercase (p ∷ ps) = rw (all-lowercase p, is_empty-lowercase p, any-lowercase ps)

invalid_label-lowercase : (l : Text) → invalid_label (to_lowercase l) ≡ invalid_label l
unfolding invalid_label
invalid_label-lowercase l =
    rw (is_empty-lowercase l, split-to_lowercase l, any-lowercase (split b'.' l))

cut-none : (b : ℕ) (v : Text) → split_once b v ≡ none → cut b v ≡ (v, none)
unfolding cut
cut-none b v h = ground arith

cut-some : (b : ℕ) (v s t : Text) → split_once b v ≡ some (s, t) → cut b v ≡ (s, some t)
unfolding cut
cut-some b v s t h = ground arith

-- A valid text without build metadata, cut into numbers and a label, is parsed into these.
parse-pieces :
    (value : Text) (ns : Numbers) (label : Option Text)
    → is_empty value ≡ false
    → len value ≤ 256
    → IsBounded ns
    → cut b'+' value ≡ (value, none)
    → cut b'-' value ≡ (normalized_numbers ns, label)
    → is_some_and label invalid_label ≡ false
    → parse value ≡ ok (assemble ns label)
parse-pieces value ns label full short h plus dash valid =
    let (count, read) = read_numbers-show (resolution_error value) ns h in
    let short' : ltb 256 (len value) ≡ false = ground arith in
    let read' : read_numbers (resolution_error value) no_numbers 0
          (split b'.' (normalized_numbers ns))
        ≡ ok (ns, suc count) =
      rw (split-normalized_numbers ns) read in
    let some_parts : (suc count == 0) ≡ false = ground arith in
    unfold parse in rw (plus, dash, full, short', valid, read', some_parts) refl

is_empty-numbers : (ns : Numbers) (t : Text) → is_empty (normalized_numbers ns ++ t) ≡ false
unfolding normalized_numbers
is_empty-numbers ns t = let (d, s, e) = show-cons ns.major in rw e

assemble-lowercase :
    (ns : Numbers) (l : Text) → assemble ns (some (to_lowercase l)) ≡ assemble ns (some l)
unfolding assemble
assemble-lowercase ns l = rw (to_lowercase_idem l)

parse-labelled :
    (ns : Numbers) (l : Text)
    → IsBounded ns
    → invalid_label l ≡ false
    → len (normalized_numbers ns ++ (b'-' ∷ to_lowercase l)) ≤ 256
    → parse (normalized_numbers ns ++ (b'-' ∷ to_lowercase l)) ≡ ok (assemble ns (some l))
parse-labelled ns l h valid short =
    let chars = valid-LabelChar l valid in
    let value = normalized_numbers ns ++ (b'-' ∷ to_lowercase l) in
    let plus = cut-none b'+' value (
      split_once-Lacks b'+' value (
        All-append (λ c. c ≢ b'+') (normalized_numbers ns) (b'-' ∷ to_lowercase l)
          (numbers-Lacks b'+' refl (omega arith) ns) (omega arith, lowercase-Lacks l chars))) in
    let dash = cut-some b'-' value (normalized_numbers ns) (to_lowercase l) (
      split_once-append b'-' (normalized_numbers ns) (to_lowercase l)
        (numbers-Lacks b'-' refl (omega arith) ns)) in
    parse-pieces value ns (some (to_lowercase l)) (is_empty-numbers ns (b'-' ∷ to_lowercase l))
      short h plus dash (invalid_label-lowercase l ∙ valid)
    ∙ ap ok (assemble-lowercase ns l)

assembled_text :
    (ns : Numbers) (l : Text)
    → (assemble ns (some l)).normalized ≡ normalized_numbers ns ++ (b'-' ∷ to_lowercase l)
unfolding assemble
assembled_text ns l = append_assoc (normalized_numbers ns) (b'-' ∷ []) (to_lowercase l)

parse-unlabelled :
    (ns : Numbers)
    → IsBounded ns
    → len (normalized_numbers ns) ≤ 256
    → parse (normalized_numbers ns) ≡ ok (assemble ns none)
parse-unlabelled ns h short =
    let value = normalized_numbers ns in
    parse-pieces value ns none (rw append-nil at (is_empty-numbers ns [])) short h
      (cut-none b'+' value (split_once-Lacks b'+' value (numbers-Lacks b'+' refl (omega arith) ns)))
      (cut-none b'-' value (split_once-Lacks b'-' value (numbers-Lacks b'-' refl (omega arith) ns)))
      refl

parse-assemble :
    (ns : Numbers) (label : Option Text)
    → IsBounded ns
    → is_some_and label invalid_label ≡ false
    → len (assemble ns label).normalized ≤ 256
    → parse (assemble ns label).normalized ≡ ok (assemble ns label)
parse-assemble ns none h valid short =
    unfold assemble in unfold assemble in parse-unlabelled ns h short
parse-assemble ns (some l) h valid short =
    let e = assembled_text ns l in
    ap parse e ∙ parse-labelled ns l h valid (subst (λ (t : Text). len t ≤ 256) e short)

-- The normalized text of a parsed version is parsed back into the same version, if it is no longer
-- than the 256 bytes that the parser takes.
pub parse-normalized :
    (value : Text) (v : PackageVersion)
    → parse value ≡ ok v
    → len v.normalized ≤ 256
    → parse v.normalized ≡ ok v
parse-normalized value v h short =
    let p = parse-Parsed value v h in
    let back = parse-assemble p.numbers (label_of value) p.bounded p.label_valid in
    rw p.assembled (back (subst (λ (w : PackageVersion). len w.normalized ≤ 256) p.assembled short))
