-- ===== src/Package/Acyclic/Examples.antt =====
-- Runs of `validate_acyclic` on concrete inputs (crates/dv-core/src/package.rs).
use dv.Common.{◌≡◌, refl, List, [], ◌∷◌, ◌⊎◌, some, true, false, All}
use dv.Common.Text.{Text, codes, text_eq}
use dv.Common.TreeMap.{TreeMap, get, keys, holds, add, discard}
use dv.Common.Order.{list_cmp}
use dv.Common.Result.{ok, err}
use dv.Package.Graph.Install.{PackageRequest}
use dv.Package.Acyclic.{WorkPackage, Visit, edges, cycle_error, validate_acyclic}
use dv.Package.Acyclic.Chains.{Reach}
use dv.Package.Acyclic.Search.{validate_acyclic-decides}

abbrev request : Text → PackageRequest
request id = record {
  id = id;
  lower_id = id;
  version = codes "1.0.0";
  direct = false;
  central_transitive = false;
}

abbrev needs : List Text → WorkPackage
needs ids = record { dependencies = requests ids }
  where
    requests : List Text → List PackageRequest
    requests [] = []
    requests (d ∷ ds) = request d ∷ requests ds

-- A diamond, and a cycle of two.
abbrev diamond : TreeMap WorkPackage
diamond =
    (codes "a", needs (codes "b" ∷ codes "c" ∷ []))
    ∷ (codes "b", needs (codes "d" ∷ []))
    ∷ (codes "c", needs (codes "d" ∷ []))
    ∷ []

abbrev looped : TreeMap WorkPackage
looped =
    (codes "a", needs (codes "b" ∷ []))
    ∷ (codes "b", needs (codes "c" ∷ []))
    ∷ (codes "c", needs (codes "b" ∷ []))
    ∷ []

diamond_run :
    validate_acyclic diamond
    ≡ some (
        ok (record {
          visiting = [];
          visited = codes "a" ∷ codes "b" ∷ codes "c" ∷ codes "d" ∷ [];
          stack = [];
        }))
unfolding validate_acyclic get text_eq add list_cmp discard holds
diamond_run = refl

looped_run :
    validate_acyclic looped
    ≡ some (err (cycle_error (codes "b") (codes "c" ∷ codes "b" ∷ codes "a" ∷ [])))
unfolding validate_acyclic get text_eq add list_cmp holds
looped_run = refl

validate_acyclic-decides_example :
    ((s : Visit) × (validate_acyclic looped ≡ some (ok s))
      × All (λ id. holds id s.visited ≡ true) (keys looped)
      × ((id : Text) → ¬ Reach (edges looped) id id))
    ⊎ ((id : Text) × (stack : List Text) × (validate_acyclic looped
          ≡ some (err (cycle_error id stack)))
        × Reach (edges looped) id id)
validate_acyclic-decides_example = validate_acyclic-decides looped
