-- ===== src/Package/Version/Chars.antt =====
-- The characters of a text that `PackageVersion::parse` of crates/dv-core/src/package.rs accepts.
use mathlib.Core.Option
use dv.Common.{
  ℕ, ◌+◌, ◌*◌, ◌-◌, ◌&&◌, ◌≡◌, refl, Bool, true, false, not, ◌||◌, Option, none, some, List, [],
  ◌∷◌, ◌==◌, leb, any, all, All, Bool-cases, Option-cases, inl, inr, arith,
}
use dv.Common.Text.{
  Text, is_empty, is_digit, is_alphanumeric, split, split_once, push_head, parse_uint, parse_digits,
}
use dv.Common.Result.{ok}
use dv.Package.Error.{PackageError}
use dv.Package.Version.{
  Numbers, PackageVersion, is_label_char, invalid_label, cut, read_numbers, is_some_and, set_number,
  u32_max, parse,
}
use dv.Package.Version.Parse.{parse-Parsed, numbers_text_of}

-- the letters, digits, dots, dashes and pluses of versions
abbrev pub is_version_char : ℕ → Bool
is_version_char c = is_alphanumeric c || c == b'.' || c == b'-' || c == b'+'

abbrev pub VersionChars : Text → Type 0
VersionChars = All (λ c. is_version_char c ≡ true)

-- a text of parts
push_head-VersionChars :
    (c : ℕ) (ps : List Text)
    → All VersionChars (push_head c ps)
    → (is_version_char c ≡ true) × All VersionChars ps
push_head-VersionChars c [] ((p, h), t) = (p, tt)
push_head-VersionChars c (s ∷ ps) ((p, h), t) = (p, (h, t))

split-VersionChars : (s : Text) → All VersionChars (split b'.' s) → VersionChars s
unfolding split
split-VersionChars [] h = tt
split-VersionChars (c ∷ s) h = elim (Bool-cases (c == b'.')) [
  | inl dot ↦ (ground (arith, dot), split-VersionChars s (rw dot at h).1)
  | inr other ↦
      let (p, k) = push_head-VersionChars c (split b'.' s) (rw other at h) in
      (p, split-VersionChars s k)
]

all_label : (s : Text) → all is_label_char s ≡ true → VersionChars s
all_label [] h = tt
all_label (c ∷ s) h = (ground (arith, h), all_label s (ground (arith, h)))

all_parts :
    (ps : List Text)
    → any (λ part. is_empty part || not (all is_label_char part)) ps ≡ false
    → All VersionChars ps
all_parts [] h = tt
all_parts (p ∷ ps) h = (all_label p (ground (arith, h)), all_parts ps (ground (arith, h)))

label-VersionChars : (s : Text) → invalid_label s ≡ false → VersionChars s
unfolding invalid_label
label-VersionChars s h = split-VersionChars s (all_parts (split b'.' s) (ground (arith, h)))

digits-VersionChars :
    (top n : ℕ) (s : Text) (r : ℕ) → parse_digits top n s ≡ some r → VersionChars s
unfolding parse_digits
digits-VersionChars top n [] r h = tt
digits-VersionChars top n (c ∷ s) r h =
    let next = n * 10 + (c - b'0') in
    elim (Bool-cases (is_digit c && leb next top)) [
      | inl fits ↦ (ground (arith, fits), digits-VersionChars top next s r (rw fits at h))
      | inr bad ↦ let e = rw bad at h in cc
    ]

uint-VersionChars : (top : ℕ) (s : Text) (r : ℕ) → parse_uint top s ≡ some r → VersionChars s
unfolding parse_uint
uint-VersionChars top [] r h = tt
uint-VersionChars top (c ∷ []) r h = elim (Bool-cases (c == b'+')) [
  | inl plus ↦ (ground (arith, plus), tt)
  | inr other ↦ digits-VersionChars top 0 (c ∷ []) r (rw other at h)
]
uint-VersionChars top (c ∷ d ∷ s) r h = elim (Bool-cases (c == b'+')) [
  | inl plus ↦ (ground (arith, plus), digits-VersionChars top 0 (d ∷ s) r (rw plus at h))
  | inr other ↦ digits-VersionChars top 0 (c ∷ d ∷ s) r (rw other at h)
]

read_numbers-VersionChars :
    (e : PackageError) (ns : Numbers) (i : ℕ) (parts : List Text) (r : Numbers × ℕ)
    → read_numbers e ns i parts ≡ ok r
    → All VersionChars parts
unfolding read_numbers
read_numbers-VersionChars e ns i [] r p = tt
read_numbers-VersionChars e ns i (part ∷ parts) r p = elim (Bool-cases (leb 4 i)) [
  | inl full ↦ absurd (ground arith)
  | inr room ↦ elim (Option-cases (parse_uint u32_max part)) [
    | inl bad ↦ absurd (ground arith)
    | inr (n, read) ↦ (
      uint-VersionChars u32_max part n read,
      read_numbers-VersionChars e (set_number ns i n) (i + 1) parts r (ground arith),
    )
  ]
]

abbrev Kept : Text → Option (Text × Text) → Type 0
Kept s none = Unit {0}
Kept s (some p) = VersionChars p.0 → VersionChars p.1 → VersionChars s

Kept-cons :
    (c : ℕ) (s : Text) (o : Option (Text × Text))
    → Kept s o
    → Kept (c ∷ s) (Option.map (λ p. (c ∷ p.0, p.1)) o)
Kept-cons c s none f = tt
Kept-cons c s (some q) f = λ (p, h) k. (p, f h k)

split_once-Kept : (sep : ℕ) (s : Text) → is_version_char sep ≡ true → Kept s (split_once sep s)
unfolding split_once
split_once-Kept sep [] v = tt
split_once-Kept sep (c ∷ s) v = elim (Bool-cases (c == sep)) [
  | inl same ↦ rw same (λ h k. (ground (arith, same, v), k))
  | inr other ↦ rw other (Kept-cons c s (split_once sep s) (split_once-Kept sep s v))
]

-- A text is made of version characters if what is cut from it is, and the place of the cut.
cut-VersionChars :
    (sep : ℕ) (s : Text)
    → is_version_char sep ≡ true
    → VersionChars (cut sep s).0
    → is_some_and (cut sep s).1 invalid_label ≡ false
    → VersionChars s
unfolding cut
cut-VersionChars sep s v h k =
    let kept = split_once-Kept sep s v in
    elim (Option-cases (split_once sep s)) [
      | inl e ↦ rw (cut, e) at h
      | inr (p, e) ↦ (rw e at kept) (rw (cut, e) at h) (label-VersionChars p.1 (rw (cut, e) at k))
    ]

-- An accepted text is not empty, and made of letters, digits, dots, dashes and pluses.
pub parse-VersionChars :
    (value : Text) (v : PackageVersion)
    → parse value ≡ ok v
    → (is_empty value ≡ false) × VersionChars value
parse-VersionChars value v h =
    let p = parse-Parsed value v h in
    let numbers =
      split-VersionChars (numbers_text_of value) (read_numbers-VersionChars _ _ 0 _ _ p.read) in
    (
      p.filled,
      cut-VersionChars b'+' value refl
          (cut-VersionChars b'-' (cut b'+' value).0 refl numbers p.label_valid) p.metadata_valid,
    )
