-- ===== src/Project/Identifiers.antt =====
-- `parse_runtime_identifier` and `parse_runtime_identifiers` of crates/dv-core/src/project.rs.
pub mod Distinct
use dv.Common.{
  Bool, true, false, ◌||◌, not, Option, none, some, List, [], ◌∷◌, ◌++◌, map, filter, any,
  if◌then◌else◌,
}
use dv.Common.Text.{Text, is_empty, contains, split, trim, text_eq}
use dv.Common.Result.{ok, err}
use dv.Project.{ProjectErrorKind, Fallible, has_reference}

unfoldable pub parse_runtime_identifier : Option Text → Fallible (Option Text)
parse_runtime_identifier none = ok none
parse_runtime_identifier (some []) = ok none
parse_runtime_identifier (some (c ∷ value)) =
    if has_reference (c ∷ value) || contains (c ∷ value) b';'
    then err ProjectErrorKind.invalid_property
    else ok (some (c ∷ value))

-- `identifiers.contains`
abbrev pub listed : Text → List Text → Bool
listed id ids = any (λ x. text_eq x id) ids

-- the loop, with the identifiers that were kept so far
unfoldable pub distinct : List Text → List Text → List Text
distinct kept [] = kept
distinct kept (id ∷ ids) = elim (listed id kept) [
  | true ↦ distinct kept ids
  | false ↦ distinct (kept ++ (id ∷ [])) ids
]

abbrev pub entries : Text → List Text
entries value = filter (λ id. not (is_empty id)) (map trim (split b';' value))

unfoldable pub parse_runtime_identifiers : Option Text → Fallible (List Text)
unfolding distinct
parse_runtime_identifiers none = ok []
parse_runtime_identifiers (some value) =
    if has_reference value
    then err ProjectErrorKind.invalid_property
    else ok (distinct [] (entries value))
