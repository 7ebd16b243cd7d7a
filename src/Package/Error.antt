-- ===== src/Package/Error.antt =====
-- `PackageErrorKind` and `PackageError` of crates/dv-core/src/package.rs. The human message and the
-- transfer accounting that an error may carry are left out.
use dv.Common.{List, [], ◌∷◌, ◌++◌}
use dv.Common.Text.{Text}
use dv.Common.Result.{Result}

pub data PackageErrorKind : Type 0 where
  configuration resolution constraint_conflict downgrade dependency_cycle : PackageErrorKind
  package_not_found version_not_found incompatible offline_miss network : PackageErrorKind
  integrity archive io non_unicode_path text_overflow : PackageErrorKind
  credential_provider cancelled unmapped_identity : PackageErrorKind

pub record PackageError : Type 0 where
  pub kind : PackageErrorKind
  pub context : Text
  pub fields : List (Text × Text)
  pub causes : List Text

abbrev pub new : PackageErrorKind → Text → PackageError
new kind context = record { kind = kind; context = context; fields = []; causes = [] }

abbrev pub with_context : PackageError → Text → Text → PackageError
with_context e name value = record e { fields = e.fields ++ ((name, value) ∷ []) }

abbrev pub with_cause : PackageError → Text → PackageError
with_cause e cause = record e { causes = e.causes ++ (cause ∷ []) }

abbrev pub Fallible {ℓ} : Type ℓ → Type ℓ
Fallible A = Result PackageError A

abbrev pub resolution_error : Text → PackageError
resolution_error context = new PackageErrorKind.resolution context
