-- ===== src/Package/Range/Intervals.antt =====
-- What an interval in brackets contains that `VersionRange::parse` of crates/dv-core/src/package.rs reads.
use mathlib.Core.Path.{subst}
use dv.Common.{
  ◌≡◌, refl, sym, ◌∙◌, true, false, Bool, Option, none, some, [], ◌∷◌, ◌++◌, if◌then◌else◌, lt, eq,
  ◌⊎◌, ◌↔◌, inl, inr, Bool-cases, arith,
}
use dv.Common.Text.{Text, is_whitespace, trim, trim_start, contains as holds}
use dv.Common.Cut.{Lacks, All-imp, All-append, split_once-append}
use dv.Common.Ends.{Tight, trim-Tight, contains-append}
use dv.Common.Result.{ok, err}
use dv.Package.Error.{resolution_error, Fallible}
use dv.Package.Version.{PackageVersion, parse as parse_version, cmp}
use dv.Package.Version.Chars.{VersionChars, parse-VersionChars}
use dv.Package.Version.Order.{cmp-IsOrder}
use dv.Package.Range.{VersionBound, VersionRange, bound, contains}
use dv.Package.Range.Parse.{
  parse, parse_version_bound, optional_bound, halves, parse_body, check_bounds, crossed,
}
use dv.Package.Range.Brackets.{closing, interval, parse-brackets, parse_interval-body}
use dv.Package.Range.Laws.{crossed-contains}
open cmp-IsOrder use {flip, same, trans}

-- the text of a half of an interval, and the version that it is parsed as: an empty half has none
abbrev pub Half : Text → Option PackageVersion → Type 0
Half text none = text ≡ []
Half text (some v) = parse_version text ≡ ok v

-- The versions behind a lower bound and before an upper bound, which belongs to them where it is inclusive.
abbrev pub Behind : Bool → Option PackageVersion → PackageVersion → Type 0
Behind inclusive none v = Unit {0}
Behind inclusive (some b) v = (cmp b v ≡ lt) ⊎ ((inclusive ≡ true) × (cmp b v ≡ eq))

abbrev pub Before : Bool → Option PackageVersion → PackageVersion → Type 0
Before inclusive none v = Unit {0}
Before inclusive (some b) v = (cmp v b ≡ lt) ⊎ ((inclusive ≡ true) × (cmp v b ≡ eq))

abbrev bound_of : Bool → Option PackageVersion → Option VersionBound
bound_of inclusive none = none
bound_of inclusive (some v) = some (bound v inclusive)

Half-VersionChars : (text : Text) (o : Option PackageVersion) → Half text o → VersionChars text
Half-VersionChars text none h = rw h tt
Half-VersionChars text (some v) e = (parse-VersionChars text v e).1

VersionChars-Tight : (s : Text) → VersionChars s → Tight s
VersionChars-Tight s h = All-imp _ _ (λ c d. ground arith) s h

VersionChars-Lacks : (s : Text) → VersionChars s → Lacks b',' s
VersionChars-Lacks s h = All-imp _ _ (λ c d. ground arith) s h

no_star : (s : Text) → VersionChars s → holds s b'*' ≡ false
no_star [] h = refl
no_star (c ∷ s) (p, h) = ground (arith, no_star s h)

optional_bound-Half :
    (text : Text) (o : Option PackageVersion) (inclusive allow_floating : Bool)
    → Half text o
    → optional_bound text inclusive allow_floating ≡ ok (bound_of inclusive o)
unfolding parse_version_bound
optional_bound-Half text none inclusive allow_floating h = rw h (unfold trim trim_start in refl)
optional_bound-Half text (some v) inclusive allow_floating e =
    let (n, h) = parse-VersionChars text v e in
    rw (trim-Tight text (VersionChars-Tight text h), n, no_star text h, e) refl

Tight-interval :
    (from to : Bool) (a b : Text) (x y : Option PackageVersion)
    → Half a x
    → Half b y
    → Tight (interval from to a b)
Tight-interval from to a b x y h k =
    let behind : is_whitespace (if from then b'[' else b'(') ≡ false = ground arith in
    let before : is_whitespace (if to then b']' else b')') ≡ false = ground arith in
    (
      behind,
      All-append _ (a ++ (b',' ∷ b)) _
          (All-append _ a (b',' ∷ b) (VersionChars-Tight a (Half-VersionChars a x h))
            (refl, VersionChars-Tight b (Half-VersionChars b y k)))
          (before, tt),
    )

abbrev outcome :
    Text → Option PackageVersion → Option PackageVersion → Bool → Bool → Fallible VersionRange
outcome value x y from to = check_bounds value (bound_of from x) (bound_of to y)

halves-append : (a b : Text) → Lacks b',' a → halves (a ++ (b',' ∷ b)) ≡ (a, b)
halves-append a b h = rw (halves, split_once-append b',' a b h) refl

parse_body-Half :
    (value : Text) (from to : Bool) (a b : Text) (x y : Option PackageVersion)
    → Half a x
    → Half b y
    → parse_body value from to (a ++ (b',' ∷ b)) ≡ outcome value x y from to
parse_body-Half value from to a b x y h k =
    rw
      (
        contains-append a b b',',
        halves-append a b (VersionChars-Lacks a (Half-VersionChars a x h)),
        optional_bound-Half a x from true h,
        optional_bound-Half b y to false k,
      )
      refl

contains-Between :
    (from to : Bool) (x y : Option PackageVersion) (v : PackageVersion)
    → (contains (record { lower = bound_of from x; upper = bound_of to y }) v ≡ true)
      ↔ (Behind from x v × Before to y v)
unfolding contains bound
contains-Between from to none none v = ground arith
contains-Between from to (some l) none v = ground (arith, flip l v)
contains-Between from to none (some u) v = ground (arith, flip u v)
contains-Between from to (some l) (some u) v = ground (arith, flip l v, flip u v)

parse-interval :
    (from to : Bool) (a b : Text) (x y : Option PackageVersion)
    → Half a x
    → Half b y
    → parse (interval from to a b) ≡ outcome (interval from to a b) x y from to
parse-interval from to a b x y h k =
    parse-brackets from ((a ++ (b',' ∷ b)) ++ (closing to ∷ []))
      (trim-Tight (interval from to a b) (Tight-interval from to a b x y h k))
    ∙ parse_interval-body from to a b
    ∙ parse_body-Half (interval from to a b) from to a b x y h k

-- an answer of the parser is right for an interval: a range of exactly its versions, or the error for
-- its text where there is no bound, or no version between the bounds
abbrev pub IsRight :
    Text
    → Bool
    → Bool
    → Option PackageVersion
    → Option PackageVersion
    → Fallible VersionRange
    → Type 0
IsRight value from to x y answer =
    ((range : VersionRange) × (answer ≡ ok range)
      × ((v : PackageVersion) → (contains range v ≡ true) ↔ (Behind from x v × Before to y v)))
    ⊎ ((answer ≡ err (resolution_error value))
        × (((x ≡ none) × (y ≡ none))
            ⊎ ((v : PackageVersion) → ¬ (Behind from x v × Before to y v))))

crossed-IsRight :
    (value : Text) (from to : Bool) (l u : PackageVersion)
    → IsRight value from to (some l) (some u) (outcome value (some l) (some u) from to)
crossed-IsRight value from to l u = elim (Bool-cases (crossed (bound l from) (bound u to))) [
  | inl c ↦ inr (
    rw c refl,
    inr (λ v inside.
        let e = crossed-contains (bound l from) (bound u to) v c in
        let m = (contains-Between from to (some l) (some u) v).1 inside in cc),
  )
  | inr n ↦ inl (
    record { lower = some (bound l from); upper = some (bound u to) },
    rw n refl,
    contains-Between from to (some l) (some u),
  )
]

outcome-IsRight :
    (value : Text) (from to : Bool) (x y : Option PackageVersion)
    → IsRight value from to x y (outcome value x y from to)
outcome-IsRight value from to none none = inr (refl, inl (refl, refl))
outcome-IsRight value from to (some l) none = inl (_, refl, contains-Between from to (some l) none)
outcome-IsRight value from to none (some u) = inl (_, refl, contains-Between from to none (some u))
outcome-IsRight value from to (some l) (some u) = crossed-IsRight value from to l u

-- An interval in brackets, each half of which is empty or a version, is read as the range that contains
-- exactly the versions between its bounds, a bound itself where its bracket is square. It is refused only
-- where both halves are empty or no version lies between the bounds.
pub parse-interval-IsRight :
    (from to : Bool) (a b : Text) (x y : Option PackageVersion)
    → Half a x
    → Half b y
    → IsRight (interval from to a b) from to x y (parse (interval from to a b))
parse-interval-IsRight from to a b x y h k =
    subst (IsRight (interval from to a b) from to x y) (sym (parse-interval from to a b x y h k))
      (outcome-IsRight (interval from to a b) from to x y)
