-- ===== src/Package/Version/Parse.antt =====
-- `PackageVersion::parse`, its label and its normalized text.
use dv.Common.{
  ℕ, zero, suc, ◌+◌, ◌%◌, ◌^◌, ◌≤◌, ◌≡◌, refl, false, ◌||◌, Option, none, some, List, [], ◌∷◌, ◌++◌,
  ltb, leb, ◌==◌, if◌then◌else◌, Bool-cases, Option-cases, inl, inr, arith,
}
use dv.Common.Text.{Text, len, is_empty, to_lowercase, split, parse_uint, parse_uint_bound}
use dv.Common.Cut.{drop_bytes-append, len-append, len-digits}
use dv.Common.Decimal.{show, show-All, length-show}
use dv.Common.Result.{ok, ◌>>=◌, ◌>>◌, reject_if, >>=-eq-ok, reject_if-eq-ok}
use dv.Package.Error.{PackageError, Fallible, resolution_error}
use dv.Package.Version.{
  u32_max, Numbers, PackageVersion, invalid_label, cut, read_numbers, normalized_numbers,
  no_numbers, set_number, is_some_and, assemble, parse, prerelease,
}

abbrev pub IsBounded : Numbers → Type 0
IsBounded ns =
    (ns.major ≤ u32_max) × (ns.minor ≤ u32_max) × (ns.patch ≤ u32_max) × (ns.revision ≤ u32_max)

set_number-IsBounded :
    (ns : Numbers) (i n : ℕ) → IsBounded ns → n ≤ u32_max → IsBounded (set_number ns i n)
set_number-IsBounded ns zero n h k = omega arith
set_number-IsBounded ns (suc zero) n h k = omega arith
set_number-IsBounded ns (suc (suc zero)) n h k = omega arith
set_number-IsBounded ns (suc (suc (suc zero))) n h k = omega arith
set_number-IsBounded ns (suc (suc (suc (suc i)))) n h k = h

read_numbers-IsBounded :
    (e : PackageError) (ns : Numbers) (i : ℕ) (parts : List Text) (r : Numbers × ℕ)
    → IsBounded ns
    → read_numbers e ns i parts ≡ ok r
    → IsBounded r.0
unfolding read_numbers
read_numbers-IsBounded e ns i [] r h p = ground arith
read_numbers-IsBounded e ns i (part ∷ parts) r h p = elim (Bool-cases (leb 4 i)) [
  | inl full ↦ absurd (ground arith)
  | inr room ↦ elim (Option-cases (parse_uint u32_max part)) [
    | inl bad ↦ absurd (ground arith)
    | inr (n, read) ↦
        read_numbers-IsBounded e (set_number ns i n) (i + 1) parts r
          (set_number-IsBounded ns i n h (parse_uint_bound u32_max part n read)) (ground arith)
  ]
]

show-len : (n : ℕ) → n ≤ u32_max → len (show n) ≤ 10
show-len n h = omega (arith, len-digits (show n) (show-All n), length-show n (omega arith))

-- The normalized numbers are short, so that no offset into the text wraps.
len-normalized_numbers : (ns : Numbers) → IsBounded ns → len (normalized_numbers ns) ≤ 60
unfolding normalized_numbers
len-normalized_numbers ns h = omega (
  arith,
  len-append (show ns.major) (b'.' ∷ (show ns.minor ++ (b'.' ∷ (show ns.patch ++ tail)))),
  len-append (show ns.minor) (b'.' ∷ (show ns.patch ++ tail)),
  len-append (show ns.patch) tail,
  show-len ns.major h.0,
  show-len ns.minor h.1,
  show-len ns.patch h.2,
  tail_bound,
)
  where
    tail : Text
    tail = if ns.revision == 0 then [] else b'.' ∷ show ns.revision

    tail_bound : len (if ns.revision == 0 then [] else b'.' ∷ show ns.revision) ≤ 11
    tail_bound = ground (arith, show-len ns.revision h.3)

abbrev pub lowered : Option Text → Option Text
lowered none = none
lowered (some l) = some (to_lowercase l)

pub prerelease-assemble :
    (ns : Numbers) (label : Option Text)
    → IsBounded ns
    → prerelease (assemble ns label) ≡ lowered label
unfolding prerelease assemble
prerelease-assemble ns none h = refl
prerelease-assemble ns (some l) h =
    let start = normalized_numbers ns ++ (b'-' ∷ []) in
    let small : len start % 2 ^ 32 ≡ len start =
      omega (arith, len-append (normalized_numbers ns) (b'-' ∷ []), len-normalized_numbers ns h) in
    rw (small, drop_bytes-append start (to_lowercase l))

-- The numeric text and the label of a version text.
abbrev pub numbers_text_of : Text → Text
numbers_text_of value = (cut b'-' (cut b'+' value).0).0

abbrev pub label_of : Text → Option Text
label_of value = (cut b'-' (cut b'+' value).0).1

pub record Parsed (value : Text) (v : PackageVersion) : Type 0 where
  pub numbers : Numbers
  pub count : ℕ
  pub filled : is_empty value ≡ false
  pub metadata_valid : is_some_and (cut b'+' value).1 invalid_label ≡ false
  pub label_valid : is_some_and (label_of value) invalid_label ≡ false
  pub read :
      read_numbers (resolution_error value) no_numbers 0 (split b'.' (numbers_text_of value))
      ≡ ok (numbers, count)
  pub bounded : IsBounded numbers
  pub assembled : v ≡ assemble numbers (label_of value)

-- What a successful parse has done.
pub parse-Parsed : (value : Text) (v : PackageVersion) → parse value ≡ ok v → Parsed value v
unfolding parse
parse-Parsed value v h =
    let e = resolution_error value in
    let metadata = (cut b'+' value).1 in
    let last : Numbers × ℕ → Fallible PackageVersion =
      λ r. reject_if (r.1 == 0) e >> ok (assemble r.0 (label_of value)) in
    let numbers = read_numbers e no_numbers 0 (split b'.' (numbers_text_of value)) in
    let labelled : Fallible PackageVersion =
      reject_if (is_some_and (label_of value) invalid_label) e >> (numbers >>= last) in
    let (size, h₁) =
      reject_if-eq-ok (is_empty value || ltb 256 (len value)) e
        (reject_if (is_some_and metadata invalid_label) e >> labelled) v h in
    let (behind, h₂) = reject_if-eq-ok (is_some_and metadata invalid_label) e labelled v h₁ in
    let (valid, h₃) =
      reject_if-eq-ok (is_some_and (label_of value) invalid_label) e (numbers >>= last) v h₂ in
    let (r, read, h₄) = >>=-eq-ok numbers last v h₃ in
    let (_, h₅) = reject_if-eq-ok (r.1 == 0) e (ok (assemble r.0 (label_of value))) v h₄ in
    record {
      numbers = r.0;
      count = r.1;
      filled = ground (arith, size);
      metadata_valid = behind;
      label_valid = valid;
      read = read;
      bounded =
          read_numbers-IsBounded e no_numbers 0 (split b'.' (numbers_text_of value)) r (omega arith)
            read;
      assembled = cc h₅;
    }

-- The label that a parsed version compares by is the text between the first `-` and the first `+`,
-- in lower case; a text with no `-` there has none.
pub prerelease-parse :
    (value : Text) (v : PackageVersion)
    → parse value ≡ ok v
    → prerelease v ≡ lowered (label_of value)
prerelease-parse value v h =
    let p = parse-Parsed value v h in
    rw p.assembled (prerelease-assemble p.numbers (label_of value) p.bounded)
