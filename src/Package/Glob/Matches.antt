-- ===== src/Package/Glob/Matches.antt =====
-- What it is to match a component, for the loop of `glob_component_matches` of
-- crates/dv-core/src/package.rs.
use dv.Common.{
  ℕ, ◌≤◌, ◌≡◌, ◌≢◌, refl, sym, ◌∙◌, true, false, [], ◌∷◌, ◌==◌, all, length, All, ◌⊎◌, inl, inr,
  arith,
}
use dv.Common.Text.{to_lower}
use dv.Package.Glob.{Bytes, stands_for}

-- A star stands for any bytes, and every other byte of the pattern for one byte.
pub data Matches : Bytes → Bytes → Type 0 where
  done : Matches [] []
  one :
      {p v : ℕ} {pattern value : Bytes}
      → stands_for p v ≡ true
      → Matches pattern value
      → Matches (p ∷ pattern) (v ∷ value)
  skip : {pattern value : Bytes} → Matches pattern value → Matches (b'*' ∷ pattern) value
  more :
      {v : ℕ} {pattern value : Bytes}
      → Matches (b'*' ∷ pattern) value
      → Matches (b'*' ∷ pattern) (v ∷ value)

-- the value has no star of its own
abbrev pub Plain : Bytes → Type 0
Plain = All (λ v. v ≢ b'*')

pub star_stands : (v : ℕ) → v ≢ b'*' → stands_for b'*' v ≡ false
unfolding stands_for to_lower
star_stands v n = ground (arith, n)

-- The rests of a value.
pub data Rest (s : Bytes) : Bytes → Type 0 where
  whole : Rest s s
  behind : {v : ℕ} {t : Bytes} → Rest s t → Rest s (v ∷ t)

abbrev Inverse : Bytes → Bytes → Type 0
Inverse [] [] = Unit {0}
Inverse [] (v ∷ value) = ⊥
Inverse (p ∷ pattern) [] = (p ≡ b'*') × Matches pattern []
Inverse (p ∷ pattern) (v ∷ value) =
    ((stands_for p v ≡ true) × Matches pattern value)
    ⊎ ((p ≡ b'*') × Matches pattern (v ∷ value))
    ⊎ ((p ≡ b'*') × Matches (p ∷ pattern) value)

inverse : {pattern value : Bytes} → Matches pattern value → Inverse pattern value
inverse done = tt
inverse (one h m) = inl (h, m)
inverse (skip {value = []} m) = (refl, m)
inverse (skip {value = v ∷ value} m) = inr (inl (refl, m))
inverse (more m) = inr (inr (refl, m))

pub Matches-nil : (v : ℕ) (value : Bytes) → ¬ Matches [] (v ∷ value)
Matches-nil v value m = inverse m

-- A byte that is no star stands for the first byte.
pub Matches-cons :
    {p v : ℕ} {pattern value : Bytes}
    → p ≢ b'*'
    → Matches (p ∷ pattern) (v ∷ value)
    → (stands_for p v ≡ true) × Matches pattern value
Matches-cons n m = elim (inverse m) [
  | inl h ↦ h
  | inr (inl (e, k)) ↦ absurd (n e)
  | inr (inr (e, k)) ↦ absurd (n e)
]

-- A star stands for nothing, or for a byte and what it stands for behind that.
pub Matches-star :
    {v : ℕ} {pattern value : Bytes}
    → v ≢ b'*'
    → Matches (b'*' ∷ pattern) (v ∷ value)
    → Matches pattern (v ∷ value) ⊎ Matches (b'*' ∷ pattern) value
Matches-star n m = elim (inverse m) [
  | inl (h, k) ↦ let e = sym h ∙ star_stands _ n in cc
  | inr (inl (e, k)) ↦ inl k
  | inr (inr (e, k)) ↦ inr k
]

pub Matches-all : (pattern : Bytes) → Matches pattern [] → all (λ p. p == b'*') pattern ≡ true
Matches-all [] m = refl
Matches-all (p ∷ pattern) m =
    let (e, k) = inverse m in
    let star : (p == b'*') ≡ true = ground (arith, e) in ground (arith, star, Matches-all pattern k)

pub all-Matches : (pattern : Bytes) → all (λ p. p == b'*') pattern ≡ true → Matches pattern []
all-Matches [] h = done
all-Matches (p ∷ pattern) h =
    let e : p ≡ b'*' = ground (arith, h) in
    let k : all (λ q. q == b'*') pattern ≡ true = ground (arith, h) in
    rw e (skip (all-Matches pattern k))

-- A star matches whatever has a rest that it matches.
pub star-Rest :
    {pattern s t : Bytes} → Rest s t → Matches (b'*' ∷ pattern) s → Matches (b'*' ∷ pattern) t
star-Rest whole m = m
star-Rest (behind r) m = more (star-Rest r m)

-- What a star leaves is a rest.
pub left_by_star :
    (pattern value : Bytes)
    → Plain value
    → Matches (b'*' ∷ pattern) value
    → (s : Bytes) × Rest s value × Matches pattern s
left_by_star pattern [] n m = ([], whole, (inverse m).1)
left_by_star pattern (v ∷ value) (n, ns) m = elim (Matches-star n m) [
  | inl k ↦ (v ∷ value, whole, k)
  | inr k ↦ let (s, r, j) = left_by_star pattern value ns k in (s, behind r, j)
]

pub length-Rest : {s t : Bytes} → Rest s t → length s ≤ length t
length-Rest whole = omega arith
length-Rest (behind r) = omega (arith, length-Rest r)

behind_tail : {v : ℕ} {s t : Bytes} → Rest (v ∷ s) t → Rest s t
behind_tail whole = behind whole
behind_tail (behind r) = behind (behind_tail r)

-- What a rest of a value behind one byte leaves is a rest behind that byte.
pub Rest-cons : {x v : ℕ} {s t : Bytes} → Rest (x ∷ s) (v ∷ t) → Rest s t
Rest-cons whole = whole
Rest-cons (behind r) = behind_tail r

pub nothing : {p : ℕ} {pattern : Bytes} → p ≢ b'*' → ¬ Matches (p ∷ pattern) []
nothing n m = n (inverse m).0

-- A star in front of a pattern matches what the pattern matches, and what the two match behind a byte.
pub Matches-star-nil : {pattern : Bytes} → Matches (b'*' ∷ pattern) [] → Matches pattern []
Matches-star-nil m = (inverse m).1
