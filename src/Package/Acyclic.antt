-- ===== src/Package/Acyclic.antt =====
-- `validate_acyclic` of crates/dv-core/src/package.rs: a depth-first search that refuses a dependency
-- on a package that is still being visited.
pub mod Chains
pub mod Search
mod Examples
use dv.Common.{
  ℕ, zero, suc, Bool, true, false, Option, none, some, List, [], ◌∷◌, ◌++◌, reverse, length,
  if◌then◌else◌,
}
use dv.Common.Text.{Text, codes, text_eq}
use dv.Common.TreeMap.{TreeMap, TreeSet, get, keys, add, discard, holds}
use dv.Common.Result.{ok, err}
use dv.Package.Error.{PackageErrorKind, PackageError, Fallible, new, with_context, with_cause}
use dv.Package.Graph.Install.{PackageRequest}

-- of `WorkPackage` what the search reads
pub record WorkPackage : Type 0 where
  pub dependencies : List PackageRequest

-- `visiting`, `visited` and `stack`, which has its top at the head
pub record Visit : Type 0 where
  pub visiting : TreeSet
  pub visited : TreeSet
  pub stack : List Text

abbrev lower_ids : List PackageRequest → List Text
lower_ids [] = []
lower_ids (d ∷ ds) = d.lower_id ∷ lower_ids ds

abbrev dependencies_of : Option WorkPackage → List Text
dependencies_of none = []
dependencies_of (some work) = lower_ids work.dependencies

-- the dependencies over which the loop goes; a package that is not there has none
unfoldable pub edges : TreeMap WorkPackage → Text → List Text
edges packages id = dependencies_of (get id packages)

-- `stack[start..]`, from the first entry of the identity on; all of it where there is none
unfoldable pub from_entry : Text → List Text → List Text → List Text
from_entry id whole [] = whole
from_entry id whole (x ∷ xs) = elim (text_eq x id) [
  | true ↦ x ∷ xs
  | false ↦ from_entry id whole xs
]

unfoldable pub join : List Text → Text
join [] = []
join (x ∷ []) = x
join (x ∷ y ∷ xs) = x ++ (codes " -> " ++ join (y ∷ xs))

abbrev cycle_text : Text → List Text → Text
cycle_text id entries = join (from_entry id entries entries) ++ (codes " -> " ++ id)

unfoldable pub cycle_error : Text → List Text → PackageError
unfolding join from_entry
cycle_error id stack =
    with_cause
      (with_context
        (with_context (new PackageErrorKind.dependency_cycle id) (codes "package_id") id)
        (codes "cycle") (cycle_text id (reverse stack)))
      (codes "package metadata contains a circular dependency chain")

-- `visiting.insert(id)` and `stack.push(id)`
abbrev pub entered : Text → Visit → Visit
entered id s = record s { visiting = add id s.visiting; stack = id ∷ s.stack }

abbrev pub rest_of : List Text → List Text
rest_of [] = []
rest_of (x ∷ xs) = xs

-- `stack.pop()`, `visiting.remove(id)` and `visited.insert(id)`
abbrev pub finished : Text → Visit → Visit
finished id s = record {
  visiting = discard id s.visiting;
  visited = add id s.visited;
  stack = rest_of s.stack;
}

-- `?`; `none` means that the fuel ran out
abbrev pub and_then :
    Option (Fallible Visit) → (Visit → Option (Fallible Visit)) → Option (Fallible Visit)
and_then none next = none
and_then (some (err e)) next = some (err e)
and_then (some (ok s)) next = next s

-- the loop over dependencies, and the one over the packages
unfoldable pub visit_each :
    (Text → Visit → Option (Fallible Visit)) → List Text → Visit → Option (Fallible Visit)
visit_each visit [] s = some (ok s)
visit_each visit (d ∷ ds) s = and_then (visit d s) (λ t. visit_each visit ds t)

-- `visit`
unfoldable pub visit : (Text → List Text) → ℕ → Text → Visit → Option (Fallible Visit)
unfolding visit_each
visit edges zero id s = none
visit edges (suc fuel) id s = elim (holds id s.visited) [
  | true ↦ some (ok s)
  | false ↦ elim (holds id s.visiting) [
    | true ↦ some (err (cycle_error id s.stack))
    | false ↦
        and_then (visit_each (λ d t. visit edges fuel d t) (edges id) (entered id s))
          (λ t. some (ok (finished id t)))
  ]
]

abbrev pub unvisited : Visit
unvisited = record { visiting = []; visited = []; stack = [] }

-- `validate_acyclic`; a visit nests at most once for each package
unfoldable pub validate_acyclic : TreeMap WorkPackage → Option (Fallible Visit)
unfolding visit edges
validate_acyclic packages =
    visit_each (λ id t. visit (edges packages) (suc (length (keys packages))) id t) (keys packages)
      unvisited
