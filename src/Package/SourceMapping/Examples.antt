-- ===== src/Package/SourceMapping/Examples.antt =====
-- Source mappings on concrete inputs (crates/dv-core/src/package.rs).
use dv.Common.{ℕ, ◌≡◌, refl, true, false, none, some, [], ◌∷◌, All, Has, ◌⊎◌}
use dv.Common.Text.{Text, codes, take_bytes, drop_bytes, eq_ignore_case}
use dv.Package.SourceMapping.{
  PackageSourceMapping, SourcePattern, pattern_rank, required_rank, source_matches_rank, allows,
}
use dv.Package.SourceMapping.Best.{patterns_in, AtMost}
use dv.Package.SourceMapping.Rank.{required_rank_greatest, allows_two_steps}

-- Source 0 has `Microsoft.*` and source 1 has `Microsoft.Data.*` and `Xunit`.
abbrev mapping : PackageSourceMapping
mapping = record {
  text = codes "Microsoft.Microsoft.Data.Xunit";
  sources =
      record { source_index = 0; patterns = record { start = 0; len = 1 } }
      ∷ record { source_index = 1; patterns = record { start = 1; len = 2 } }
      ∷ [];
  patterns =
      record { text = record { start = 0; len = 10 }; prefix = true }
      ∷ record { text = record { start = 10; len = 15 }; prefix = true }
      ∷ record { text = record { start = 25; len = 5 }; prefix = false }
      ∷ [];
}

abbrev data_client : Text
data_client = codes "microsoft.data.client"

longest_prefix : required_rank mapping data_client ≡ some 16
unfolding required_rank pattern_rank eq_ignore_case take_bytes drop_bytes
longest_prefix = refl

required_rank_greatest_example :
    ((required_rank mapping data_client ≡ none)
      × All (λ p. pattern_rank mapping p data_client ≡ none) (patterns_in mapping mapping.sources))
    ⊎ ((r : ℕ) × (required_rank mapping data_client ≡ some r)
        × All
            (λ p. AtMost r (pattern_rank mapping p data_client))
            (patterns_in mapping mapping.sources)
        × ((p : SourcePattern) × Has p (patterns_in mapping mapping.sources)
            × (pattern_rank mapping p data_client ≡ some r)))
required_rank_greatest_example = required_rank_greatest mapping data_client

allows_two_steps_example : allows mapping 0 data_client ≡ elim (required_rank mapping data_client) [
  | none ↦ false
  | some r ↦ source_matches_rank mapping 0 data_client r
]
allows_two_steps_example = allows_two_steps mapping data_client 0
