-- ===== src/Project.antt =====
-- `ProjectErrorKind` and the plain property readers of crates/dv-core/src/project.rs. Of an error the
-- kind is kept; its path and message are left out.
pub mod Condition
pub mod Identifiers
mod Examples
use dv.Common.{Bool, true, false, ◌&&◌, ◌||◌, not, Option, none, some, List, [], ◌∷◌, if◌then◌else◌}
use dv.Common.Text.{Text, codes, is_empty, eq_ignore_case, starts_with}
use dv.Common.Result.{Result, ok, err}

pub data ProjectErrorKind : Type 0 where
  not_found ambiguous io invalid_xml unsupported : ProjectErrorKind
  invalid_property non_unicode_path unsafe_path : ProjectErrorKind

abbrev pub Fallible {ℓ} : Type ℓ → Type ℓ
Fallible A = Result ProjectErrorKind A

-- `str::contains("$(")`
unfoldable pub has_reference : Text → Bool
unfolding starts_with
has_reference [] = false
has_reference (c ∷ s) = starts_with (c ∷ s) (codes "$(") || has_reference s

abbrev toggle : Text → Bool → Fallible Bool
toggle value only_enable =
    if eq_ignore_case value (codes "enable")
    then ok true
    else if not only_enable && eq_ignore_case value (codes "disable")
    then ok false
    else err ProjectErrorKind.invalid_property

unfoldable pub parse_toggle : Option Text → Bool → Bool → Fallible Bool
parse_toggle none default only_enable = ok default
parse_toggle (some value) default only_enable = toggle value only_enable

unfoldable pub parse_bool : Option Text → Bool → Fallible Bool
parse_bool none default = ok default
parse_bool (some value) default =
    if eq_ignore_case value (codes "true")
    then ok true
    else if eq_ignore_case value (codes "false")
    then ok false
    else err ProjectErrorKind.invalid_property

unfoldable pub validate_optional_version : Option Text → Fallible (Unit {0})
validate_optional_version none = ok tt
validate_optional_version (some value) =
    if is_empty value || has_reference value then err ProjectErrorKind.invalid_property else ok tt

unfoldable pub required_property : Option Text → Fallible Text
required_property none = err ProjectErrorKind.invalid_property
required_property (some value) =
    if not (is_empty value) && not (has_reference value)
    then ok value
    else err ProjectErrorKind.invalid_property
