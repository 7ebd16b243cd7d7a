-- ===== src/Framework/Versions.antt =====
-- How the version of a framework is written and read (crates/dv-core/src/framework.rs).
use mathlib.Core.Path.{subst}
use dv.Common.{
  ℕ, ◌≤◌, ◌≡◌, refl, ap, sym, ◌∙◌, Bool, true, false, none, some, [], ◌∷◌, ◌++◌, All, ◌==◌, arith,
  any,
}
use dv.Common.Text.{
  Text, codes, is_digit, is_empty, strip_prefix, contains, parse_uint, parse_digits,
}
use dv.Common.Cut.{Lacks, All-imp, split-append, split-Lacks}
use dv.Common.Decimal.{show, show-All, show-cons, parse_digits-show}
use dv.Common.Result.{ok, ok_or, ◌>>=◌}
use dv.Framework.{TargetFramework, u16_max, part, two_parts, dotted_version, framework_version}

abbrev Digits : Text → Type 0
Digits = All (λ c. is_digit c ≡ true)

Digits-Lacks : (s : Text) → Digits s → Lacks b'.' s
Digits-Lacks s h = All-imp _ _ (λ c d. ground arith) s h

parse_uint-show : (n : ℕ) → n ≤ u16_max → parse_uint u16_max (show n) ≡ some n
unfolding parse_uint
parse_uint-show n h =
    let (d, s, e) = show-cons n in
    let digits : Digits (d ∷ s) = subst Digits e (show-All n) in
    let read : parse_digits u16_max 0 (d ∷ s) ≡ some n =
      subst (λ x. parse_digits u16_max 0 x ≡ some n) e (parse_digits-show u16_max n h) in
    let first : (d == b'+') ≡ false = ground (arith, digits.0) in
    subst (λ x. parse_uint u16_max x ≡ some n) (sym e) (rw first read)

part-show : (n : ℕ) → n ≤ u16_max → part (show n) ≡ some n
part-show n h =
    let (d, s, e) = show-cons n in
    let filled : is_empty (show n) ≡ false = rw e refl in rw filled (parse_uint-show n h)

dotted-show :
    (major minor : ℕ) (original : Text)
    → major ≤ u16_max
    → minor ≤ u16_max
    → dotted_version (show major ++ (b'.' ∷ show minor)) original ≡ ok (major, minor)
unfolding dotted_version
dotted-show major minor original h k =
    ap (two_parts original) (
      split-append b'.' (show major) (show minor) (Digits-Lacks (show major) (show-All major))
      ∙ ap (λ t. show major ∷ t)
          (split-Lacks b'.' (show minor) (Digits-Lacks (show minor) (show-All minor))))
    ∙ ap (λ o. ok_or o original >>= λ a. ok_or (part (show minor)) original >>= λ b. ok (a, b))
        (part-show major h)
    ∙ ap (λ o. ok_or o original >>= λ b. ok (major, b)) (part-show minor k)

version-cons :
    (f : TargetFramework)
    → (d : ℕ) × (s : Text) × (framework_version f ≡ d ∷ s) × (is_digit d ≡ true)
unfolding framework_version
version-cons f =
    let (d, s, e) = show-cons f.major in
    let digits : Digits (d ∷ s) = subst Digits e (show-All f.major) in
    (d, s ++ (b'.' ∷ show f.minor), ap (λ x. x ++ (b'.' ∷ show f.minor)) e, digits.0)

any-append : (p : ℕ → Bool) (s t : Text) → any p t ≡ true → any p (s ++ t) ≡ true
any-append p [] t h = h
any-append p (c ∷ s) t h = ground (arith, any-append p s t h)

pub contains-version : (f : TargetFramework) → contains (framework_version f) b'.' ≡ true
unfolding framework_version
contains-version f = any-append (λ d. d == b'.') (show f.major) (b'.' ∷ show f.minor) refl

pub dotted-framework_version :
    (f : TargetFramework) (original : Text)
    → f.major ≤ u16_max
    → f.minor ≤ u16_max
    → dotted_version (framework_version f) original ≡ ok (f.major, f.minor)
unfolding framework_version
dotted-framework_version f original h k = dotted-show f.major f.minor original h k

pub strip_self : (p s : Text) → strip_prefix (p ++ s) p ≡ some s
unfolding strip_prefix
strip_self [] [] = refl
strip_self [] (c ∷ s) = refl
strip_self (c ∷ p) s = ground (arith, strip_self p s)

pub strip_other : (d c : ℕ) (s p : Text) → (d == c) ≡ false → strip_prefix (d ∷ s) (c ∷ p) ≡ none
unfolding strip_prefix
strip_other d c s p h = rw h refl

strip_digit :
    (c : ℕ) (p : Text) (f : TargetFramework)
    → is_digit c ≡ false
    → strip_prefix (framework_version f) (c ∷ p) ≡ none
strip_digit c p f h =
    let (d, s, e, digit) = version-cons f in
    let other : (d == c) ≡ false = ground (arith, digit, h) in
    ap (λ x. strip_prefix x (c ∷ p)) e ∙ strip_other d c s p other

pub net_core_none :
    (f : TargetFramework)
    → strip_prefix (codes "net" ++ framework_version f) (codes "netcoreapp") ≡ none
unfolding strip_prefix
net_core_none f = strip_digit b'c' (codes "oreapp") f refl

pub net_standard_none :
    (f : TargetFramework)
    → strip_prefix (codes "net" ++ framework_version f) (codes "netstandard") ≡ none
unfolding strip_prefix
net_standard_none f = strip_digit b's' (codes "tandard") f refl
