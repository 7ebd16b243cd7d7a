-- ===== src/Package/SourceMapping/Rank.antt =====
-- Which sources crates/dv-core/src/package.rs lets serve a package: those with a pattern of the greatest
-- rank.
use mathlib.Core.Path.{subst}
use dv.Common.{
  ℕ, ◌+◌, ◌≤◌, ◌≡◌, refl, sym, ap, ◌∙◌, Bool, true, false, ◌||◌, Option, none, some, List, [], ◌∷◌,
  ◌++◌, any, filter, ◌==◌, if◌then◌else◌, All, All-Has, All-of-Has, Has, Has-cons, here, there, ◌⊎◌,
  inl, inr, Bool-cases, if_either, arith,
}
use dv.Common.Text.{Text, len, slice, eq_ignore_case}
use dv.Package.SourceMapping.Best.{
  patterns_in, AtMost, best_of_sources_flat, best_le, best-AtMost, best_found,
}
use dv.Package.SourceMapping.{
  PackageSourceMapping, SourcePattern, SourceMappingEntry, patterns_of, pattern_rank, raised,
  best_of_patterns, best_of_sources, nonzero, required_rank, has_rank, source_has_rank,
  source_matches_rank, rank_of, prefix_of, prefix_rank, both_of_patterns, both_of_sources, allows,
}

module _ (m : PackageSourceMapping) (id : Text) where
  abbrev Positive : Option ℕ → Type 0
  Positive none = Unit {0}
  Positive (some rank) = 1 ≤ rank

  prefix-Positive : (text : Text) (o : Option Text) → Positive (prefix_rank text o)
  prefix-Positive text none = tt
  prefix-Positive text (some c) =
      if_either Positive (eq_ignore_case c text) (some (len text + 1)) none (λ _. omega arith)
        (λ _. tt)

  rank-Positive : (kind : Bool) (text : Text) → Positive (rank_of kind text id)
  rank-Positive true text = prefix-Positive text (prefix_of (len text) id)
  rank-Positive false text =
      if_either Positive (eq_ignore_case text id) (some 18446744073709551615) none
        (λ _. omega arith) (λ _. tt)

  pattern-Positive : (p : SourcePattern) → Positive (pattern_rank m p id)
  unfolding pattern_rank
  pattern-Positive p =
      rank-Positive p.prefix (slice p.text.start (p.text.start + p.text.len) m.text)

  zero_unmatched : (r : Option ℕ) → Positive r → AtMost 0 r → r ≡ none
  zero_unmatched none h k = refl
  zero_unmatched (some rank) h k = absurd (omega (arith, h, k))

  -- Either no pattern of any source matches the package and there is no required rank, or the required
  -- rank is the rank of a pattern, and no pattern has a greater one.
  pub required_rank_greatest :
      ((required_rank m id ≡ none)
        × All (λ p. pattern_rank m p id ≡ none) (patterns_in m m.sources))
      ⊎ ((r : ℕ) × (required_rank m id ≡ some r)
          × All (λ p. AtMost r (pattern_rank m p id)) (patterns_in m m.sources)
          × ((p : SourcePattern) × Has p (patterns_in m m.sources)
              × (pattern_rank m p id ≡ some r)))
  unfolding required_rank
  required_rank_greatest =
      let ps = patterns_in m m.sources in
      rw (best_of_sources_flat m id 0 m.sources)
        (greatest (best_of_patterns m id 0 ps) (best-AtMost m id 0 ps) (best_found m id 0 ps))
    where
      ps : List SourcePattern
      ps = patterns_in m m.sources

      greatest :
          (best : ℕ)
          → All (λ p. AtMost best (pattern_rank m p id)) ps
          → (best ≡ 0) ⊎ ((p : SourcePattern) × Has p ps × (pattern_rank m p id ≡ some best))
          → ((nonzero best ≡ none) × All (λ p. pattern_rank m p id ≡ none) ps)
            ⊎ ((r : ℕ) × (nonzero best ≡ some r)
                × All (λ p. AtMost r (pattern_rank m p id)) ps
                × ((p : SourcePattern) × Has p ps × (pattern_rank m p id ≡ some r)))
      greatest best h (inl e) = inl (
        rw e refl,
        All-of-Has (λ p. pattern_rank m p id ≡ none) ps
            (λ p k. zero_unmatched _ (pattern-Positive p) (
              subst (λ b. AtMost b (pattern_rank m p id)) e
                (All-Has (λ q. AtMost best (pattern_rank m q id)) ps k h))),
      )
      greatest best h (inr (p, k, e)) =
          let pos : 1 ≤ best = subst Positive e (pattern-Positive p) in
          let some_rank : (best == 0) ≡ false = ground arith in
          inr (best, rw some_rank refl, h, (p, k, e))

  both_patterns :
      (is_source : Bool) (b c : ℕ) (ps : List SourcePattern)
      → both_of_patterns m id is_source (b, c) ps
        ≡ (best_of_patterns m id b ps, if is_source then best_of_patterns m id c ps else c)
  unfolding both_of_patterns best_of_patterns
  both_patterns true b c [] = refl
  both_patterns false b c [] = refl
  both_patterns true b c (p ∷ ps) =
      both_patterns true (raised b (pattern_rank m p id)) (raised c (pattern_rank m p id)) ps
  both_patterns false b c (p ∷ ps) = both_patterns false (raised b (pattern_rank m p id)) c ps

  both_sources :
      (index b c : ℕ) (ss : List SourceMappingEntry)
      → both_of_sources m id index (b, c) ss ≡ (
        best_of_sources m id b ss,
        best_of_sources m id c (filter (λ s. s.source_index == index) ss),
      )
  unfolding both_of_sources best_of_sources
  both_sources index b c [] = refl
  both_sources index b c (s ∷ ss) = elim (Bool-cases (s.source_index == index)) [
    | inl own ↦
        rw (own, both_patterns true b c (patterns_of m s))
          (both_sources index (best_of_patterns m id b (patterns_of m s))
            (best_of_patterns m id c (patterns_of m s)) ss)
    | inr other ↦
        rw (other, both_patterns false b c (patterns_of m s))
          (both_sources index (best_of_patterns m id b (patterns_of m s)) c ss)
  ]

  raised_monotone : (b c : ℕ) (r : Option ℕ) → c ≤ b → raised c r ≤ raised b r
  raised_monotone b c none h = h
  raised_monotone b c (some rank) h = omega (arith, h)

  best_monotone :
      (b c : ℕ) (ps : List SourcePattern)
      → c ≤ b
      → best_of_patterns m id c ps ≤ best_of_patterns m id b ps
  unfolding best_of_patterns
  best_monotone b c [] h = h
  best_monotone b c (p ∷ ps) h =
      best_monotone (raised b (pattern_rank m p id)) (raised c (pattern_rank m p id)) ps
        (raised_monotone b c (pattern_rank m p id) h)

  own_le :
      (index b c : ℕ) (ss : List SourceMappingEntry)
      → c ≤ b
      → best_of_sources m id c (filter (λ s. s.source_index == index) ss)
        ≤ best_of_sources m id b ss
  unfolding best_of_sources
  own_le index b c [] h = h
  own_le index b c (s ∷ ss) h = elim (Bool-cases (s.source_index == index)) [
    | inl own ↦ rw own (
        own_le index (best_of_patterns m id b (patterns_of m s))
          (best_of_patterns m id c (patterns_of m s)) ss (best_monotone b c (patterns_of m s) h))
    | inr other ↦ rw other (
        own_le index (best_of_patterns m id b (patterns_of m s)) c ss
          (omega (arith, h, best_le m id b (patterns_of m s))))
  ]

  any-append :
      (f : SourcePattern → Bool) (ps qs : List SourcePattern)
      → any f (ps ++ qs) ≡ (any f ps || any f qs)
  any-append f [] qs = refl
  any-append f (p ∷ ps) qs = ground (arith, any-append f ps qs)

  any_flat :
      (r : ℕ) (ss : List SourceMappingEntry)
      → any (source_has_rank m id r) ss
        ≡ any (λ p. has_rank r (pattern_rank m p id)) (patterns_in m ss)
  any_flat r [] = refl
  any_flat r (s ∷ ss) = ground (
    arith,
    any_flat r ss,
    any-append (λ p. has_rank r (pattern_rank m p id)) (patterns_of m s) (patterns_in m ss),
  )

  any_Has :
      (f : SourcePattern → Bool) (ps : List SourcePattern) {p : SourcePattern}
      → Has p ps
      → f p ≡ true
      → any f ps ≡ true
  any_Has f [] k h = elim k [ ]
  any_Has f (q ∷ ps) k h = elim (Has-cons k) [
    | inl e ↦ let here_true : f q ≡ true = ap f (sym e) ∙ h in ground (arith, here_true)
    | inr later ↦ ground (arith, any_Has f ps later h)
  ]

  any_found :
      (f : SourcePattern → Bool) (ps : List SourcePattern)
      → any f ps ≡ true
      → (p : SourcePattern) × Has p ps × (f p ≡ true)
  any_found f [] h = cc
  any_found f (q ∷ ps) h = elim (Bool-cases (f q)) [
    | inl yes_f ↦ (q, here, yes_f)
    | inr no_f ↦ let (p, k, e) = any_found f ps (rw no_f at h) in (p, there k, e)
  ]

  has_rank→≡ : (r : ℕ) (o : Option ℕ) → has_rank r o ≡ true → o ≡ some r
  has_rank→≡ r none h = cc
  has_rank→≡ r (some rank) h = let e : rank ≡ r = ground (arith, h) in ap some e

  -- Some pattern has the rank `best`, which none exceeds, exactly if the best of them is that rank.
  any_best :
      (best : ℕ) (ps : List SourcePattern)
      → (best == 0) ≡ false
      → best_of_patterns m id 0 ps ≤ best
      → (best_of_patterns m id 0 ps == best) ≡ any (λ p. has_rank best (pattern_rank m p id)) ps
  any_best best ps pos le = elim (Bool-cases (any (λ p. has_rank best (pattern_rank m p id)) ps)) [
    | inl found ↦
        let (p, k, h) = any_found (λ q. has_rank best (pattern_rank m q id)) ps found in
        let e = has_rank→≡ best (pattern_rank m p id) h in
        let ge : best ≤ best_of_patterns m id 0 ps = subst (AtMost (best_of_patterns m id 0 ps)) e (
          All-Has (λ q. AtMost (best_of_patterns m id 0 ps) (pattern_rank m q id)) ps k
            (best-AtMost m id 0 ps)) in
        ground (arith, found, ge, le)
    | inr missing ↦ elim (best_found m id 0 ps) [
      | inl e ↦ ground (arith, missing, e, pos)
      | inr (p, k, e) ↦ elim (Bool-cases (best_of_patterns m id 0 ps == best)) [
        | inl same ↦
            let eq : best_of_patterns m id 0 ps ≡ best = ground (arith, same) in
            let h : has_rank best (pattern_rank m p id) ≡ true = rw (e, eq) (ground arith) in
            let found = any_Has (λ q. has_rank best (pattern_rank m q id)) ps k h in
            ground (arith, missing, found)
        | inr other ↦ ground (arith, missing, other)
      ]
    ]
  ]

  -- The test of one source against all patterns agrees with the two steps that the resolver takes: find
  -- the required rank, and then ask whether the source has a pattern of that rank.
  pub allows_two_steps :
      (index : ℕ)
      → allows m index id
        ≡ elim (required_rank m id) [ none ↦ false | some r ↦ source_matches_rank m index id r ]
  unfolding allows required_rank source_matches_rank
  allows_two_steps index =
      let own = filter (λ s. s.source_index == index) m.sources in
      let all_best = best_of_sources m id 0 m.sources in
      elim (Bool-cases (all_best == 0)) [
        | inl zero_best ↦ rw (both_sources index 0 0 m.sources, zero_best) refl
        | inr positive ↦
            rw
              (
                both_sources index 0 0 m.sources,
                positive,
                any_flat all_best own,
                best_of_sources_flat m id 0 own,
              )
              (any_best all_best (patterns_in m own) positive (
                rw (sym (best_of_sources_flat m id 0 own))
                  (own_le index 0 0 m.sources (omega arith))))
      ]
