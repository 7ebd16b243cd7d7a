-- ===== src/Package/Range/Brackets.antt =====
-- How `VersionRange::parse` takes an interval out of its brackets, of crates/dv-core/src/package.rs.
use dv.Common.{ℕ, ◌≡◌, refl, true, false, ◌||◌, not, Bool, [], ◌∷◌, ◌++◌, ltb, if◌then◌else◌, arith}
use dv.Common.Text.{Text, len, trim, starts_with, ends_with, utf8_len}
use dv.Common.Cut.{len-append}
use dv.Common.Ends.{slice-brackets, ends_with-append}
use dv.Package.Range.Parse.{parse, parse_interval, parse_body}

abbrev pub opening : Bool → ℕ
opening from = if from then b'[' else b'('

abbrev pub closing : Bool → ℕ
closing to = if to then b']' else b')'

abbrev pub interval : Bool → Bool → Text → Text → Text
interval from to a b = opening from ∷ ((a ++ (b',' ∷ b)) ++ (closing to ∷ []))

starts_square : (from : Bool) (s : Text) → starts_with (opening from ∷ s) (b'[' ∷ []) ≡ from
unfolding starts_with
starts_square true s = refl
starts_square false s = refl

starts_round : (from : Bool) (s : Text) → starts_with (opening from ∷ s) (b'(' ∷ []) ≡ not from
unfolding starts_with
starts_round true s = refl
starts_round false s = refl

-- in brackets, `parse` goes on with `parse_interval`
pub parse-brackets :
    (from : Bool) (s : Text)
    → trim (opening from ∷ s) ≡ opening from ∷ s
    → parse (opening from ∷ s) ≡ parse_interval (opening from ∷ s)
unfolding parse
parse-brackets from s e =
    let bracket : (starts_with (opening from ∷ s) (b'[' ∷ [])
          || starts_with (opening from ∷ s) (b'(' ∷ []))
        ≡ true =
      ground (arith, starts_square from s, starts_round from s) in
    rw (e, bracket) refl

ends_square :
    (from to : Bool) (s : Text) → ends_with (opening from ∷ (s ++ (closing to ∷ []))) b']' ≡ to
ends_square from true s = ends_with-append (opening from ∷ s) (closing true) b']'
ends_square from false s = ends_with-append (opening from ∷ s) (closing false) b']'

ends_round :
    (from to : Bool) (s : Text) → ends_with (opening from ∷ (s ++ (closing to ∷ []))) b')' ≡ not to
ends_round from true s = ends_with-append (opening from ∷ s) (closing true) b')'
ends_round from false s = ends_with-append (opening from ∷ s) (closing false) b')'

one_byte : (b : Bool) → (utf8_len (opening b) ≡ 1) × (utf8_len (closing b) ≡ 1)
one_byte true = (refl, refl)
one_byte false = (refl, refl)

interval_len : (from to : Bool) (a b : Text) → ltb (len (interval from to a b)) 3 ≡ false
interval_len from to a b = ground (
  arith,
  len-append (a ++ (b',' ∷ b)) (closing to ∷ []),
  len-append a (b',' ∷ b),
  one_byte from,
  one_byte to,
)

pub parse_interval-body :
    (from to : Bool) (a b : Text)
    → parse_interval (interval from to a b)
      ≡ parse_body (interval from to a b) from to (a ++ (b',' ∷ b))
unfolding parse_interval
parse_interval-body from to a b =
    let value = interval from to a b in
    let body = a ++ (b',' ∷ b) in
    let guard : (not (ends_with value b']' || ends_with value b')') || ltb (len value) 3) ≡ false =
      ground (arith, ends_square from to body, ends_round from to body, interval_len from to a b) in
    rw
      (
        guard,
        starts_square from (body ++ (closing to ∷ [])),
        ends_square from to body,
        slice-brackets (opening from) (closing to) body (one_byte from).0 (one_byte to).1,
      )
      refl
