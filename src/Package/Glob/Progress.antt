-- ===== src/Package/Glob/Progress.antt =====
-- How far the loop of `glob_component_matches` of crates/dv-core/src/package.rs has got: what stands behind
-- the last star, and what that star may still match.
use dv.Common.{ℕ, zero, suc, ◌+◌, ◌*◌, ◌≤◌, ◌≢◌, none, some, [], ◌∷◌, length, ◌⊎◌, inl, inr, arith}
use dv.Package.Glob.{Bytes, Star}
use dv.Package.Glob.Matches.{
  Matches, skip, more, Plain, Rest, whole, behind, Matches-cons, Matches-star, star-Rest,
  left_by_star, Rest-cons, nothing, Matches-star-nil,
}

-- The pattern and the value that the loop reaches from behind a star without another one.
pub data Track (after rest : Bytes) : Bytes → Bytes → Type 0 where
  start : Track after rest after rest
  step :
      {p v : ℕ} {pattern value : Bytes}
      → p ≢ b'*'
      → Track after rest (p ∷ pattern) (v ∷ value)
      → Track after rest pattern value

-- a rest of the value that the pattern matches
abbrev pub Meets : Bytes → Bytes → Type 0
Meets pattern value = (s : Bytes) × Rest s value × Matches pattern s

pub behind_one :
    {p v : ℕ} {pattern value : Bytes} (s : Bytes)
    → p ≢ b'*'
    → Rest s (v ∷ value)
    → Matches (p ∷ pattern) s
    → Meets pattern value
behind_one [] n r m = absurd (nothing n m)
behind_one (x ∷ s) n r m = (s, Rest-cons r, (Matches-cons n m).1)

-- A match of a rest behind the star is a match of the pattern with a rest of the value.
pub track :
    {after rest pattern value : Bytes}
    → Track after rest pattern value
    → Meets after rest
    → Meets pattern value
track start m = m
track (step n k) m = let (s, r, j) = track k m in behind_one s n r j

-- the star matches what is behind the byte it stands before
unfoldable pub Given : Star → Type 0
Given none = ⊥
Given (some (after, [])) = ⊥
Given (some (after, v ∷ rest)) = Matches (b'*' ∷ after) rest

-- the state of the loop, with the fuel for all that it may still do
abbrev pub Tracks : ℕ → ℕ → Star → Bytes → Bytes → Type 0
Tracks k fuel none pattern value =
    Plain value × (length pattern + 2 ≤ k) × (length value * k + length pattern + 1 ≤ fuel)
Tracks k fuel (some (after, rest)) pattern value =
    Plain rest
    × Track after rest pattern value
    × (length after + 2 ≤ k)
    × (length rest * k + length pattern + 1 ≤ fuel)

pub Given-Meets :
    (k fuel : ℕ) (star : Star) {pattern value : Bytes}
    → Tracks k fuel star pattern value
    → Given star
    → Meets pattern value
unfolding Given
Given-Meets k fuel none t g = absurd g
Given-Meets k fuel (some (after, [])) t g = absurd g
Given-Meets k fuel (some (after, v ∷ rest)) ((n, ns), t, l, f) g =
    let (s, r, m) = left_by_star after rest ns g in track t (s, behind r, m)

abbrev pub Answer : Bytes → Bytes → Star → Type 0
Answer pattern value star = Matches pattern value ⊎ Given star

pub star_join :
    (after rest : Bytes)
    → Matches after rest ⊎ Given (some (after, rest))
    → Matches (b'*' ∷ after) rest
unfolding Given
star_join after rest (inl m) = skip m
star_join after [] (inr g) = absurd g
star_join after (v ∷ rest) (inr g) = more g

pub star_split :
    (after rest : Bytes)
    → Plain rest
    → Matches (b'*' ∷ after) rest
    → Matches after rest ⊎ Given (some (after, rest))
unfolding Given
star_split after [] n m = inl (Matches-star-nil m)
star_split after (v ∷ rest) (n, ns) m = Matches-star n m

pub scale : (a b k : ℕ) → a ≤ b → a * k ≤ b * k
scale zero b k l = omega arith
scale (suc a) zero k l = omega (arith, l)
scale (suc a) (suc b) k l = omega (arith, scale a b k (omega (arith, l)))

pub Plain-Track :
    {after rest pattern value : Bytes} → Plain rest → Track after rest pattern value → Plain value
Plain-Track n start = n
Plain-Track n (step h t) = (Plain-Track n t).1

pub length-Track :
    {after rest pattern value : Bytes}
    → Track after rest pattern value
    → (length pattern ≤ length after) × (length value ≤ length rest)
length-Track start = (omega arith, omega arith)
length-Track (step h t) = let (a, b) = length-Track t in (omega (arith, a), omega (arith, b))

pub Tracks-Plain :
    (k fuel : ℕ) (pattern value : Bytes) (star : Star)
    → Tracks k fuel star pattern value
    → Plain value
Tracks-Plain k fuel pattern value none (n, l, f) = n
Tracks-Plain k fuel pattern value (some (after, rest)) (n, t, l, f) = Plain-Track n t

pub after_same :
    (k fuel p v : ℕ) (pattern value : Bytes) (star : Star)
    → p ≢ b'*'
    → Tracks k (suc fuel) star (p ∷ pattern) (v ∷ value)
    → Tracks k fuel star pattern value
after_same k fuel p v pattern value none n ((m, ms), l, f) =
    (ms, omega (arith, l), omega (arith, f))
after_same k fuel p v pattern value (some (after, rest)) n (ms, t, l, f) =
    (ms, step n t, l, omega (arith, f))

pub after_star :
    (k fuel p v : ℕ) (pattern value : Bytes) (star : Star)
    → Tracks k (suc fuel) star (p ∷ pattern) (v ∷ value)
    → Tracks k fuel (some (pattern, v ∷ value)) pattern (v ∷ value)
after_star k fuel p v pattern value none (n, l, f) = (n, start, omega (arith, l), omega (arith, f))
after_star k fuel p v pattern value (some (after, rest)) (n, t, l, f) =
    let (a, b) = length-Track t in
    let c = scale _ _ k b in (Plain-Track n t, start, omega (arith, l, a), omega (arith, f, c))

pub to_star :
    (k fuel : ℕ) (pattern value : Bytes) (star : Star)
    → Tracks k fuel star (b'*' ∷ pattern) value
    → Answer (b'*' ∷ pattern) value star
    → Matches (b'*' ∷ pattern) value
to_star k fuel pattern value star t (inl m) = m
to_star k fuel pattern value star t (inr g) =
    let (s, r, m) = Given-Meets k fuel star t g in star-Rest r m

pub at_nil : {s : Bytes} {pattern : Bytes} → Rest s [] → Matches pattern s → Matches pattern []
at_nil whole m = m
