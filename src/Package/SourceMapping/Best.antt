-- ===== src/Package/SourceMapping/Best.antt =====
-- The loops over the ranks of patterns in crates/dv-core/src/package.rs.
use dv.Common.{
  ℕ, ◌≤◌, ◌≡◌, refl, sym, ap, ◌∙◌, max, Option, none, some, List, [], ◌∷◌, ◌++◌, ltb, All, Has,
  here, there, ◌⊎◌, inl, inr, Bool-cases, arith,
}
use dv.Common.Text.{Text}
use dv.Package.SourceMapping.{
  PackageSourceMapping, SourcePattern, SourceMappingEntry, patterns_of, pattern_rank, raised,
  best_of_patterns, best_of_sources,
}

-- All patterns of the sources.
abbrev pub patterns_in : PackageSourceMapping → List SourceMappingEntry → List SourcePattern
patterns_in m [] = []
patterns_in m (s ∷ ss) = patterns_of m s ++ patterns_in m ss

abbrev pub AtMost : ℕ → Option ℕ → Type 0
AtMost best none = Unit {0}
AtMost best (some rank) = rank ≤ best

module _ (m : PackageSourceMapping) (id : Text) where
  best-append :
      (best : ℕ) (ps qs : List SourcePattern)
      → best_of_patterns m id best (ps ++ qs)
        ≡ best_of_patterns m id (best_of_patterns m id best ps) qs
  unfolding best_of_patterns
  best-append best [] qs = refl
  best-append best (p ∷ ps) qs = best-append (raised best (pattern_rank m p id)) ps qs

  pub best_of_sources_flat :
      (best : ℕ) (ss : List SourceMappingEntry)
      → best_of_sources m id best ss ≡ best_of_patterns m id best (patterns_in m ss)
  unfolding best_of_sources
  best_of_sources_flat best [] = refl
  best_of_sources_flat best (s ∷ ss) =
      best_of_sources_flat (best_of_patterns m id best (patterns_of m s)) ss
      ∙ sym (best-append best (patterns_of m s) (patterns_in m ss))

  pub raised_le : (best : ℕ) (r : Option ℕ) → best ≤ raised best r
  raised_le best none = omega arith
  raised_le best (some rank) = omega arith

  AtMost-raised : (best n : ℕ) (r : Option ℕ) → raised best r ≤ n → AtMost n r
  AtMost-raised best n none h = tt
  AtMost-raised best n (some rank) h = omega (arith, h)

  pub best_le : (best : ℕ) (ps : List SourcePattern) → best ≤ best_of_patterns m id best ps
  unfolding best_of_patterns
  best_le best [] = omega arith
  best_le best (p ∷ ps) =
      omega (
        arith,
        raised_le best (pattern_rank m p id),
        best_le (raised best (pattern_rank m p id)) ps,
      )

  pub best-AtMost :
      (best : ℕ) (ps : List SourcePattern)
      → All (λ p. AtMost (best_of_patterns m id best ps) (pattern_rank m p id)) ps
  unfolding best_of_patterns
  best-AtMost best [] = tt
  best-AtMost best (p ∷ ps) =
      let r = pattern_rank m p id in
      (AtMost-raised best _ r (best_le (raised best r) ps), best-AtMost (raised best r) ps)

  raised_one : (best : ℕ) (r : Option ℕ) → (raised best r ≡ best) ⊎ (r ≡ some (raised best r))
  raised_one best none = inl refl
  raised_one best (some rank) = elim (Bool-cases (ltb best rank)) [
    | inl below ↦ let e : max best rank ≡ rank = ground (arith, below) in inr (ap some (sym e))
    | inr above ↦ inl (ground (arith, above))
  ]

  -- The best rank is the first one, or that of a pattern.
  pub best_found :
      (best : ℕ) (ps : List SourcePattern)
      → (best_of_patterns m id best ps ≡ best)
        ⊎ ((p : SourcePattern) × Has p ps
            × (pattern_rank m p id ≡ some (best_of_patterns m id best ps)))
  unfolding best_of_patterns
  best_found best [] = inl refl
  best_found best (p ∷ ps) =
      let r = pattern_rank m p id in
      elim (best_found (raised best r) ps) [
        | inl e ↦ elim (raised_one best r) [
          | inl f ↦ inl (e ∙ f)
          | inr f ↦ inr (p, here, f ∙ ap some (sym e))
        ]
        | inr (q, k, f) ↦ inr (q, there k, f)
      ]
