-- ===== src/Package/Glob/Component.antt =====
-- What `glob_component_matches` of crates/dv-core/src/package.rs answers.
use mathlib.Core.Path.{subst}
use dv.Common.{
  ℕ, zero, suc, ◌+◌, ◌*◌, ◌≤◌, ◌≡◌, ◌≢◌, refl, sym, ap, Bool, true, false, Option, none, some, [],
  ◌∷◌, ◌==◌, all, length, ◌⊎◌, inl, inr, Bool-cases, arith,
}
use dv.Package.Glob.{Bytes, Star, stands_for, given_up, component_loop, glob_component_matches}
use dv.Package.Glob.Matches.{
  Matches, one, Plain, Matches-nil, Matches-cons, Matches-all, all-Matches, star_stands,
}
use dv.Package.Glob.Progress.{
  Given, Tracks, Given-Meets, Answer, star_join, star_split, Tracks-Plain, after_same, after_star,
  to_star, at_nil, start,
}

-- an answer, and the right one
pub Decides : Type 0 → Option Bool → Type 0
Decides T none = ⊥
Decides T (some true) = T
Decides T (some false) = ¬ T

transfer : (S T : Type 0) → (S → T) → (T → S) → (o : Option Bool) → Decides S o → Decides T o
unfolding Decides
transfer S T f g none d = d
transfer S T f g (some true) d = f d
transfer S T f g (some false) d = λ t. d (g t)

decided : (T : Type 0) (b : Bool) → (b ≡ true → T) → (T → b ≡ true) → Decides T (some b)
unfolding Decides
decided T true f g = f refl
decided T false f g = λ t. let e = g t in cc

transfer_eq : (T : Type 0) {o o' : Option Bool} → o ≡ o' → Decides T o' → Decides T o
transfer_eq T e d = subst (λ o. Decides T o) (sym e) d

-- the loop decides, from every state for which the fuel is enough, whether the pattern matches the value
-- or the star what is behind
abbrev Correct : ℕ → ℕ → Type 0
Correct k fuel =
    (pattern value : Bytes) (star : Star)
    → Tracks k fuel star pattern value
    → Decides (Matches pattern value ⊎ Given star) (component_loop fuel pattern value star)

resume :
    (k fuel : ℕ) (pattern value : Bytes) (star : Star)
    → Correct k fuel
    → Tracks k (suc fuel) star pattern value
    → Decides (Given star) (elim (given_up star) [
      | none ↦ some false
      | some (after, rest) ↦ component_loop fuel after rest (some (after, rest))
    ])
unfolding Decides Given
resume k fuel pattern value none correct t = λ g. g
resume k fuel pattern value (some (after, [])) correct t = λ g. g
resume k fuel pattern value (some (after, v ∷ rest)) correct ((n, ns), t, l, f) =
    transfer (Matches after rest ⊎ Given (some (after, rest))) (Matches (b'*' ∷ after) rest)
      (star_join after rest) (star_split after rest ns)
      (component_loop fuel after rest (some (after, rest)))
      (correct after rest (some (after, rest)) (ns, start, l, omega (arith, f, l)))

same_round :
    (fuel p v : ℕ) (pattern value : Bytes) (star : Star)
    → stands_for p v ≡ true
    → component_loop (suc fuel) (p ∷ pattern) (v ∷ value) star
      ≡ component_loop fuel pattern value star
unfolding component_loop
same_round fuel p v pattern value star h = rw (component_loop, stands_for, h) refl

star_round :
    (fuel p v : ℕ) (pattern value : Bytes) (star : Star)
    → stands_for p v ≡ false
    → p ≡ b'*'
    → component_loop (suc fuel) (p ∷ pattern) (v ∷ value) star
      ≡ component_loop fuel pattern (v ∷ value) (some (pattern, v ∷ value))
unfolding component_loop
star_round fuel p v pattern value star h e =
    let same : (p == b'*') ≡ true = ground (arith, e) in
    rw (component_loop, stands_for, h, same) refl

other_round :
    (fuel p v : ℕ) (pattern value : Bytes) (star : Star)
    → stands_for p v ≡ false
    → p ≢ b'*'
    → component_loop (suc fuel) (p ∷ pattern) (v ∷ value) star ≡ elim (given_up star) [
      | none ↦ some false
      | some (after, rest) ↦ component_loop fuel after rest (some (after, rest))
    ]
unfolding component_loop
other_round fuel p v pattern value star h n =
    let other : (p == b'*') ≡ false = ground arith in rw (component_loop, stands_for, h, other) refl

-- at the end of the value
at_end :
    (k fuel : ℕ) (pattern : Bytes) (star : Star)
    → Tracks k fuel star pattern []
    → Decides (Answer pattern [] star) (some (all (λ p. p == b'*') pattern))
at_end k fuel pattern star t =
    decided (Answer pattern [] star) (all (λ p. p == b'*') pattern)
      (λ h. inl (all-Matches pattern h))
      (λ a. elim a [
        | inl m ↦ Matches-all pattern m
        | inr g ↦ let (s, r, m) = Given-Meets k fuel star t g in Matches-all pattern (at_nil r m)
      ])

when_same :
    (k fuel p v : ℕ) (pattern value : Bytes) (star : Star)
    → Correct k fuel
    → Tracks k (suc fuel) star (p ∷ pattern) (v ∷ value)
    → stands_for p v ≡ true
    → Decides
        (Answer (p ∷ pattern) (v ∷ value) star)
        (component_loop (suc fuel) (p ∷ pattern) (v ∷ value) star)
when_same k fuel p v pattern value star correct t h =
    let (m, ms) = Tracks-Plain k (suc fuel) (p ∷ pattern) (v ∷ value) star t in
    let n : p ≢ b'*' = λ e. let s = star_stands v m in let r = ap (λ q. stands_for q v) e in cc in
    transfer_eq _ (same_round fuel p v pattern value star h) (
      transfer (Answer pattern value star) _ (λ a. elim a [ inl m ↦ inl (one h m) | inr g ↦ inr g ])
        (λ a. elim a [ inl m ↦ inl (Matches-cons n m).1 | inr g ↦ inr g ])
        (component_loop fuel pattern value star)
        (correct pattern value star (after_same k fuel p v pattern value star n t)))

when_star :
    (k fuel v : ℕ) (pattern value : Bytes) (star : Star)
    → Correct k fuel
    → Tracks k (suc fuel) star (b'*' ∷ pattern) (v ∷ value)
    → stands_for b'*' v ≡ false
    → Decides
        (Answer (b'*' ∷ pattern) (v ∷ value) star)
        (component_loop (suc fuel) (b'*' ∷ pattern) (v ∷ value) star)
when_star k fuel v pattern value star correct t h =
    let n = Tracks-Plain k (suc fuel) (b'*' ∷ pattern) (v ∷ value) star t in
    transfer_eq _ (star_round fuel b'*' v pattern value star h refl) (
      transfer (Answer pattern (v ∷ value) (some (pattern, v ∷ value))) _
        (λ a. inl (star_join pattern (v ∷ value) a))
        (λ a. star_split pattern (v ∷ value) n (to_star k (suc fuel) pattern (v ∷ value) star t a))
        (component_loop fuel pattern (v ∷ value) (some (pattern, v ∷ value)))
        (correct pattern (v ∷ value) (some (pattern, v ∷ value))
          (after_star k fuel b'*' v pattern value star t)))

when_other :
    (k fuel p v : ℕ) (pattern value : Bytes) (star : Star)
    → Correct k fuel
    → Tracks k (suc fuel) star (p ∷ pattern) (v ∷ value)
    → stands_for p v ≡ false
    → p ≢ b'*'
    → Decides
        (Answer (p ∷ pattern) (v ∷ value) star)
        (component_loop (suc fuel) (p ∷ pattern) (v ∷ value) star)
unfolding Given
when_other k fuel p v pattern value star correct t h n =
    transfer_eq _ (other_round fuel p v pattern value star h n) (
      transfer (Given star) _ inr
        (λ a. elim a [
          | inl m ↦ let e : stands_for p v ≡ true = (Matches-cons n m).0 in cc
          | inr g ↦ g
        ])
        _ (resume k fuel (p ∷ pattern) (v ∷ value) star correct t))

no_fuel : (k : ℕ) (pattern value : Bytes) (star : Star) → ¬ Tracks k 0 star pattern value
no_fuel k pattern value none (n, l, f) = omega (arith, f)
no_fuel k pattern value (some (after, rest)) (n, t, l, f) = omega (arith, f)

is_star : (p : ℕ) → (p == b'*') ≡ true → p ≡ b'*'
is_star p e = ground (arith, e)

no_star : (p : ℕ) → (p == b'*') ≡ false → p ≢ b'*'
no_star p e h = ground (arith, e, h)

when_star_at :
    (k fuel p v : ℕ) (pattern value : Bytes) (star : Star)
    → Correct k fuel
    → p ≡ b'*'
    → Tracks k (suc fuel) star (p ∷ pattern) (v ∷ value)
    → stands_for p v ≡ false
    → Decides
        (Answer (p ∷ pattern) (v ∷ value) star)
        (component_loop (suc fuel) (p ∷ pattern) (v ∷ value) star)
when_star_at k fuel p v pattern value star correct e =
    subst
      (λ q.
        Tracks k (suc fuel) star (q ∷ pattern) (v ∷ value)
        → stands_for q v ≡ false
        → Decides (Answer (q ∷ pattern) (v ∷ value) star)
            (component_loop (suc fuel) (q ∷ pattern) (v ∷ value) star))
      (sym e) (when_star k fuel v pattern value star correct)

when_nil :
    (k fuel v : ℕ) (value : Bytes) (star : Star)
    → Correct k fuel
    → Tracks k (suc fuel) star [] (v ∷ value)
    → Decides (Answer [] (v ∷ value) star) (component_loop (suc fuel) [] (v ∷ value) star)
unfolding component_loop
when_nil k fuel v value star correct t =
    transfer (Given star) _ inr (λ a. elim a [ inl m ↦ absurd (Matches-nil v value m) | inr g ↦ g ])
      _ (resume k fuel [] (v ∷ value) star correct t)

when_end :
    (k fuel : ℕ) (pattern : Bytes) (star : Star)
    → Tracks k (suc fuel) star pattern []
    → Decides (Answer pattern [] star) (component_loop (suc fuel) pattern [] star)
unfolding component_loop
when_end k fuel [] star t = at_end k (suc fuel) [] star t
when_end k fuel (p ∷ pattern) star t = at_end k (suc fuel) (p ∷ pattern) star t

component_loop-Decides : (k fuel : ℕ) → Correct k fuel
component_loop-Decides k zero pattern value star t = absurd (no_fuel k pattern value star t)
component_loop-Decides k (suc fuel) pattern [] star t = when_end k fuel pattern star t
component_loop-Decides k (suc fuel) [] (v ∷ value) star t =
    when_nil k fuel v value star (component_loop-Decides k fuel) t
component_loop-Decides k (suc fuel) (p ∷ pattern) (v ∷ value) star t =
    elim (Bool-cases (stands_for p v)) [
      | inl h ↦ when_same k fuel p v pattern value star (component_loop-Decides k fuel) t h
      | inr h ↦ elim (Bool-cases (p == b'*')) [
        | inl e ↦
            when_star_at k fuel p v pattern value star (component_loop-Decides k fuel) (is_star p e)
              t h
        | inr e ↦
            when_other k fuel p v pattern value star (component_loop-Decides k fuel) t h
              (no_star p e)
      ]
    ]

enough : (a b : ℕ) → b * (a + 2) + a + 1 ≤ (a + 2) * (b + 2)
enough a b = omega arith

-- For a value without a star of its own, `glob_component_matches` has enough fuel, and it answers true if the
-- pattern matches the value, and false if not: it is enough to give bytes back to the last star.
pub glob_component_matches-Decides :
    (pattern value : Bytes)
    → Plain value
    → Decides (Matches pattern value) (glob_component_matches pattern value)
unfolding glob_component_matches Given
glob_component_matches-Decides pattern value n =
    transfer (Answer pattern value none) _ (λ a. elim a [ inl m ↦ m | inr g ↦ absurd g ]) inl
      (component_loop ((length pattern + 2) * (length value + 2)) pattern value none)
      (component_loop-Decides (length pattern + 2) ((length pattern + 2) * (length value + 2))
        pattern value none (n, omega arith, enough (length pattern) (length value)))
