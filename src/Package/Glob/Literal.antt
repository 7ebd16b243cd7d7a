-- ===== src/Package/Glob/Literal.antt =====
-- Patterns without wildcards, of crates/dv-core/src/package.rs.
use dv.Common.{
  ℕ, zero, suc, ◌+◌, ◌*◌, ◌≤◌, ◌≡◌, ◌≢◌, refl, ap, sym, ◌∙◌, true, false, ◌&&◌, none, some, [], ◌∷◌,
  ◌==◌, all, length, All, Bool-cases, inl, inr, arith,
}
use dv.Common.Text.{to_lower, eq_ignore_case}
use dv.Package.Glob.{Bytes, stands_for, component_loop, glob_component_matches}

-- no star and no question mark
abbrev pub IsLiteral : Bytes → Type 0
IsLiteral = All (λ b. (b ≢ b'*') × (b ≢ b'?'))

literal_round : (p v : ℕ) → p ≢ b'?' → stands_for p v ≡ (to_lower p == to_lower v)
unfolding stands_for
literal_round p v n = ground arith

-- The two rounds without a star, which leave `stands_for` shut.
same_round :
    (fuel p v : ℕ) (pattern value : Bytes)
    → stands_for p v ≡ true
    → component_loop (suc fuel) (p ∷ pattern) (v ∷ value) none
      ≡ component_loop fuel pattern value none
unfolding component_loop
same_round fuel p v pattern value h = rw (component_loop, stands_for, h) refl

other_round :
    (fuel p v : ℕ) (pattern value : Bytes)
    → stands_for p v ≡ false
    → p ≢ b'*'
    → component_loop (suc fuel) (p ∷ pattern) (v ∷ value) none ≡ some false
unfolding component_loop
other_round fuel p v pattern value h n =
    let other : (p == b'*') ≡ false = ground arith in rw (component_loop, stands_for, h, other) refl

enough : (a b : ℕ) → a + 1 ≤ (a + 2) * (b + 2)
enough a b = omega arith

loop_literal :
    (fuel : ℕ) (pattern value : Bytes)
    → IsLiteral pattern
    → length pattern + 1 ≤ fuel
    → component_loop fuel pattern value none ≡ some (eq_ignore_case pattern value)
unfolding component_loop eq_ignore_case
loop_literal zero pattern value h f = absurd (omega (arith, f))
loop_literal (suc fuel) [] [] h f = refl
loop_literal (suc fuel) [] (v ∷ value) h f = refl
loop_literal (suc fuel) (p ∷ pattern) [] ((n, m), h) f =
    let other : (p == b'*') ≡ false = ground arith in
    ap (λ b. some (b && all (λ x. x == b'*') pattern)) other
loop_literal (suc fuel) (p ∷ pattern) (v ∷ value) ((n, m), h) f =
    elim (Bool-cases (to_lower p == to_lower v)) [
      | inl same ↦
          same_round fuel p v pattern value (literal_round p v m ∙ same)
          ∙ loop_literal fuel pattern value h (omega (arith, f))
          ∙ ap (λ b. some (b && eq_ignore_case pattern value)) (sym same)
      | inr other ↦
          other_round fuel p v pattern value (literal_round p v m ∙ other) n
          ∙ ap (λ b. some (b && eq_ignore_case pattern value)) (sym other)
    ]

-- A pattern without wildcards matches exactly the components that are the same but for the case of
-- ASCII letters.
glob_component_literal :
    (pattern value : Bytes)
    → IsLiteral pattern
    → glob_component_matches pattern value ≡ some (eq_ignore_case pattern value)
unfolding glob_component_matches
glob_component_literal pattern value h =
    loop_literal _ pattern value h (enough (length pattern) (length value))
