-- ===== src/Package/SourceMapping.antt =====
-- `MergedSourceMapping` and `PackageSourceMapping` of crates/dv-core/src/package.rs: which sources may
-- serve a package. The reading of the configuration and `compile` are left out.
pub mod Best
pub mod Rank
mod Examples
use dv.Common.{
  ℕ, ◌+◌, ◌^◌, ◌-◌, max, Bool, true, false, ◌&&◌, not, Option, none, some, List, [], ◌∷◌, ◌++◌, any,
  filter, take, drop, length, ltb, ◌==◌, if◌then◌else◌,
}
use dv.Common.Text.{Text, codes, len, eq_ignore_case, take_bytes, slice}
use dv.Common.Result.{Result, ok, err, ◌>>=◌}
use dv.Package.Error.{PackageErrorKind, PackageError, Fallible, new}

-- `u32::MAX` for a source that is not configured, and `usize::MAX`
abbrev pub no_source : ℕ
no_source = 4294967295

abbrev pub exact_rank : ℕ
exact_rank = 18446744073709551615

pub record TextSpan : Type 0 where
  pub start : ℕ
  pub len : ℕ

pub record ItemRange : Type 0 where
  pub start : ℕ
  pub len : ℕ

pub record SourcePattern : Type 0 where
  pub text : TextSpan
  pub prefix : Bool

pub record SourceMappingEntry : Type 0 where
  pub source_index : ℕ
  pub patterns : ItemRange

pub record PackageSourceMapping : Type 0 where
  pub text : Text
  pub sources : List SourceMappingEntry
  pub patterns : List SourcePattern

-- A slice; a range out of bounds, on which the source panics, is cut short.
abbrev pub items {ℓ} : {A : Type ℓ} → ItemRange → List A → List A
items r xs = take r.len (drop r.start xs)

-- the patterns of a source
abbrev pub patterns_of : PackageSourceMapping → SourceMappingEntry → List SourcePattern
patterns_of m s = items s.patterns m.patterns

-- `get(..n)`: nothing where the text is shorter or the end is inside a character
abbrev pub prefix_of : ℕ → Text → Option Text
prefix_of n s = if len (take_bytes n s) == n then some (take_bytes n s) else none

abbrev pub prefix_rank : Text → Option Text → Option ℕ
prefix_rank text none = none
prefix_rank text (some candidate) =
    if eq_ignore_case candidate text then some (len text + 1) else none

abbrev pub rank_of : Bool → Text → Text → Option ℕ
rank_of true text id = prefix_rank text (prefix_of (len text) id)
rank_of false text id = if eq_ignore_case text id then some exact_rank else none

-- `pattern_rank`
unfoldable pub pattern_rank : PackageSourceMapping → SourcePattern → Text → Option ℕ
pattern_rank m p id = rank_of p.prefix (slice p.text.start (p.text.start + p.text.len) m.text) id

-- `best = best.max(rank)`
abbrev pub raised : ℕ → Option ℕ → ℕ
raised best none = best
raised best (some rank) = max best rank

-- the loop over the patterns of a source, and the loop over the sources
unfoldable pub best_of_patterns : PackageSourceMapping → Text → ℕ → List SourcePattern → ℕ
best_of_patterns m id best [] = best
best_of_patterns m id best (p ∷ ps) = best_of_patterns m id (raised best (pattern_rank m p id)) ps

unfoldable pub best_of_sources : PackageSourceMapping → Text → ℕ → List SourceMappingEntry → ℕ
unfolding best_of_patterns
best_of_sources m id best [] = best
best_of_sources m id best (s ∷ ss) =
    best_of_sources m id (best_of_patterns m id best (patterns_of m s)) ss

abbrev pub nonzero : ℕ → Option ℕ
nonzero best = if best == 0 then none else some best

unfoldable pub required_rank : PackageSourceMapping → Text → Option ℕ
unfolding best_of_sources
required_rank m id = nonzero (best_of_sources m id 0 m.sources)

abbrev pub has_rank : ℕ → Option ℕ → Bool
has_rank required none = false
has_rank required (some rank) = rank == required

abbrev pub source_has_rank : PackageSourceMapping → Text → ℕ → SourceMappingEntry → Bool
source_has_rank m id required s =
    any (λ p. has_rank required (pattern_rank m p id)) (patterns_of m s)

abbrev indices : List SourceMappingEntry → List ℕ
indices [] = []
indices (s ∷ ss) = s.source_index ∷ indices ss

unfoldable pub source_indices_at_rank : PackageSourceMapping → Text → ℕ → List ℕ
unfolding pattern_rank
source_indices_at_rank m id required =
    indices
      (filter (λ s. not (s.source_index == no_source) && source_has_rank m id required s) m.sources)

unfoldable pub source_matches_rank : PackageSourceMapping → ℕ → Text → ℕ → Bool
source_matches_rank m source_index id required =
    any (source_has_rank m id required) (filter (λ s. s.source_index == source_index) m.sources)

abbrev given : Option ℕ → List ℕ → Option ℕ
given none indices = none
given (some required) [] = none
given (some required) (i ∷ is) = some required

unfoldable pub enabled_rank : PackageSourceMapping → Text → Option ℕ
unfolding required_rank source_indices_at_rank
enabled_rank m id = elim (required_rank m id) [
  | none ↦ none
  | some required ↦ given (some required) (source_indices_at_rank m id required)
]

-- the loops of `allows`, with the best rank and the best rank of the source
abbrev pub Best : Type 0
Best = ℕ × ℕ

abbrev pub raised_both : Bool → Best → Option ℕ → Best
raised_both is_source (best, source_best) rank =
    (raised best rank, if is_source then raised source_best rank else source_best)

unfoldable pub both_of_patterns :
    PackageSourceMapping → Text → Bool → Best → List SourcePattern → Best
both_of_patterns m id is_source b [] = b
both_of_patterns m id is_source b (p ∷ ps) =
    both_of_patterns m id is_source (raised_both is_source b (pattern_rank m p id)) ps

unfoldable pub both_of_sources :
    PackageSourceMapping → Text → ℕ → Best → List SourceMappingEntry → Best
unfolding both_of_patterns
both_of_sources m id index b [] = b
both_of_sources m id index b (s ∷ ss) =
    both_of_sources m id index (both_of_patterns m id (s.source_index == index) b (patterns_of m s))
      ss

-- `allows`
unfoldable pub allows : PackageSourceMapping → ℕ → Text → Bool
unfolding both_of_sources
allows m index id =
    let b = both_of_sources m id index (0, 0) m.sources in not (b.0 == 0) && b.1 == b.0

-- `MergedSourceMapping`
pub record MergedSourceMappingEntry : Type 0 where
  pub source : Text
  pub patterns : ItemRange

pub record MergedSourceMapping : Type 0 where
  pub sources : List MergedSourceMappingEntry
  pub patterns : List Text

pub record PendingSourceMapping : Type 0 where
  pub source : Text
  pub pattern_start : ℕ

abbrev pub clear : MergedSourceMapping → MergedSourceMapping
clear m = record { sources = []; patterns = [] }

abbrev pub remove : Text → MergedSourceMapping → MergedSourceMapping
remove key m = record m { sources = filter (λ s. not (eq_ignore_case s.source key)) m.sources }

-- the first entry of the source is overwritten, or a new one is added at the end
unfoldable pub replaced :
    MergedSourceMappingEntry → List MergedSourceMappingEntry → List MergedSourceMappingEntry
replaced e [] = e ∷ []
replaced e (s ∷ ss) =
    let rest = replaced e ss in if eq_ignore_case s.source e.source then e ∷ ss else s ∷ rest

-- `u32_len`
abbrev u32_len : ℕ → Text → Fallible ℕ
u32_len n context =
    if ltb 4294967295 n then err (new PackageErrorKind.text_overflow context) else ok n

-- `finish_source`; the errors of the configuration have the path as context
unfoldable pub finish_source :
    PendingSourceMapping → Text → MergedSourceMapping → Fallible MergedSourceMapping
unfolding replaced
finish_source pending path m =
    if length m.patterns - pending.pattern_start == 0
    then err (new PackageErrorKind.configuration path)
    else u32_len pending.pattern_start (codes "package-source mapping pattern index") >>= λ start.
        u32_len (length m.patterns - pending.pattern_start)
          (codes "package-source mapping pattern count")
        >>= λ size. ok (record m {
          sources =
              replaced
                (record {
                  source = pending.source;
                  patterns = record { start = start; len = size };
                })
                m.sources;
        })
