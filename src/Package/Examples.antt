-- ===== src/Package/Examples.antt =====
-- Runs of the package resolver's models on concrete inputs (crates/dv-core/src/package.rs).
use dv.Common.{
  ℕ, ◌≡◌, ◌≢◌, ◌↔◌, refl, Bool, true, false, ◌||◌, Option, none, some, List, [], ◌∷◌, ◌++◌, map,
  All, Has, here, there, arith,
}
use dv.Common.Text.{Text, codes, len, text_eq}
use dv.Common.TreeMap.{TreeSet, get, holds, keys}
use dv.Common.Result.{ok}
use dv.Package.Error.{Fallible}
use dv.Package.Version.{PackageVersion, parse, prerelease, cmp, assemble}
use dv.Package.Version.Parse.{prerelease-parse}
use dv.Package.Version.RoundTrip.{parse-normalized}
use dv.Package.Range.{
  VersionBound, VersionFloatBehavior, VersionRange, fixed, prerelease_floats, contains, is_better,
  bound, floating_bound, is_gt,
}
use dv.Package.Range.Parse.{crossed}
use dv.Package.Range.Laws.{crossed-contains, contains-lower, is_better_trans}
use dv.Package.Graph.{
  PackageRequirement, CentralPackagePin, ConstraintNode, Nodes, version, ConstraintView, every,
  active, ranges, has_empty_intersection, accepts, preference, select_available,
  select_node_version_with_constraints, version_not_found_error,
}
use dv.Package.Graph.Available.{
  select_available_sound, select_available_best, select_available_complete,
}
use dv.Package.Graph.Choice.{IsChoice, select_node_version-IsChoice}
use dv.Package.Glob.{glob_component_matches, glob_path_matches}
use dv.Package.Glob.Component.{Decides, glob_component_matches-Decides}
use dv.Package.Glob.Matches.{Matches}
use dv.Package.Graph.Conflict.{conflict_sound}
use dv.Package.Graph.Walk.{Reaches, arrived}
use dv.Package.Graph.Marking.{mark_descendants}
use dv.Package.Graph.Marking.Reach.{mark_descendants_reach}
use dv.Package.Graph.Ancestry.{
  parents, children, roots_but, constraint_parent_is_ancestor,
  constraint_parent_has_alternate_root_path,
}
use dv.Package.Graph.Ancestry.Laws.{constraint_parent_is_ancestor_iff, alternate_root_path_iff}
use dv.Package.Graph.Ancestry.{constraint_is_dominated, constraints_of}
use dv.Package.Graph.Ancestry.Dominated.{Dominates, constraint_is_dominated_iff}
use dv.Package.Graph.Stabilize.{GraphState, stabilize_constraint_nodes}
use dv.Package.Graph.Stabilize.Ends.{stabilize_ends}
use dv.Package.Graph.Install.{sort, dedup, install_node_dependencies}
use dv.Package.Graph.Install.Queued.{IsQueued, install-IsQueued}

abbrev release : ℕ → ℕ → PackageVersion
release major minor =
    assemble (record { major = major; minor = minor; patch = 0; revision = 0 }) none

abbrev beta : PackageVersion
beta = assemble (record { major = 1; minor = 5; patch = 0; revision = 0 }) (some (codes "Beta.1"))

-- `[1.0.0, 2.0.0)`, `[3.0.0, )`, `[2.0.0, 2.0.0)` and `[1.0.0-*, )`
abbrev from_1_below_2 : VersionRange
from_1_below_2 = record {
  lower = some (bound (release 1 0) true);
  upper = some (bound (release 2 0) false);
}

abbrev from_3 : VersionRange
from_3 = record { lower = some (bound (release 3 0) true); upper = none }

abbrev floating : VersionRange
floating = record {
  lower = some (
      floating_bound
        (assemble (record { major = 1; minor = 0; patch = 0; revision = 0 }) (some (codes "0")))
        true prerelease_floats 0);
  upper = none;
}

abbrev node_with : List (Text × VersionRange) → List PackageRequirement → ConstraintNode
node_with constraints dependencies = record {
  id = codes "Lib";
  direct = none;
  central_pin = none;
  constraints = constraints;
  selected = none;
  metadata_version = none;
  dependencies = dependencies;
  available_versions = none;
  pruned = false;
  generation = 0;
}

abbrev requirement : Text → VersionRange → PackageRequirement
requirement id range = record {
  id = id;
  lower_id = id;
  range = range;
  direct = false;
  include_assets = 0;
  suppress_parent = 0;
}

abbrev lib : ConstraintNode
lib = node_with ((codes "app", from_1_below_2) ∷ []) []

abbrev app : ConstraintNode
app = record (node_with [] (requirement (codes "lib") from_1_below_2 ∷ [])) { direct = some from_3 }

abbrev graph : Nodes
graph = (codes "app", app) ∷ (codes "lib", lib) ∷ []

abbrev start : GraphState
start = record { nodes = graph; dirty = codes "lib" ∷ []; ready = [] }

parse-normalized_example : parse (codes "1.5.0-beta.1") ≡ ok beta
unfolding parse assemble dv.Common.Text.parse_uint dv.Common.Decimal.show
    dv.Common.Text.to_lowercase
parse-normalized_example = parse-normalized (codes "1.5-Beta.1+sha") beta refl (omega arith)

prerelease-parse_example : prerelease beta ≡ some (codes "beta.1")
unfolding parse assemble dv.Common.Text.parse_uint dv.Common.Text.to_lowercase
prerelease-parse_example = prerelease-parse (codes "1.5-Beta.1+sha") beta refl

crossed-contains_example :
    contains
      (record { lower = some (bound (release 2 0) true); upper = some (bound (release 2 0) false) })
      (release 2 0)
    ≡ false
unfolding crossed assemble bound cmp
crossed-contains_example =
    crossed-contains (bound (release 2 0) true) (bound (release 2 0) false) (release 2 0) refl

contains-lower_example : contains from_1_below_2 (release 1 0) ≡ true
unfolding crossed assemble bound cmp
contains-lower_example =
    contains-lower (bound (release 1 0) true) (bound (release 2 0) false) refl refl

is_better_trans_example : is_better floating (release 4 0) (release 2 0) ≡ true
unfolding is_better dv.Package.Range.float_satisfies assemble bound floating_bound cmp
is_better_trans_example =
    is_better_trans floating (release 4 0) (release 3 0) (release 2 0) refl refl

-- the versions of `lib` that a source lists
abbrev listed : List PackageVersion
listed = release 1 0 ∷ release 1 5 ∷ release 2 0 ∷ []

abbrev view : ConstraintView
view = every lib.constraints

abbrev minors : VersionRange
minors = record {
  lower = some (floating_bound (release 1 0) true VersionFloatBehavior.minor 0);
  upper = none;
}

abbrev view_minors : ConstraintView
view_minors = active (minors ∷ from_1_below_2 ∷ [])

select_available_sound_example : (accepts lib view (release 1 0) ≡ true) × Has (release 1 0) listed
unfolding select_available contains assemble bound cmp dv.Package.Range.is_floating
select_available_sound_example = select_available_sound lib view listed (release 1 0) refl

select_available_best_example : is_better minors (release 1 5) (release 1 0) ≡ false
unfolding select_available accepts preference dv.Package.Range.is_floating is_better
    dv.Package.Range.float_satisfies contains assemble bound floating_bound cmp
select_available_best_example =
    select_available_best lib view_minors listed (release 1 5) (release 1 0) minors refl refl here
      refl

select_available_complete_example : accepts lib view (release 3 0) ≡ false
unfolding select_available accepts contains assemble bound cmp dv.Package.Range.is_floating
    dv.Package.Graph.join_ranges dv.Package.Range.diagnostic_text dv.Common.Decimal.show
select_available_complete_example =
    select_available_complete lib view (release 3 0 ∷ [])
      (version_not_found_error (codes "Lib") (codes "[1.0.0,2.0.0)") none) (release 3 0) refl here

select_node_version-IsChoice_example : IsChoice lib view (release 1 0)
unfolding select_node_version_with_constraints contains assemble bound cmp
    dv.Package.Range.is_floating dv.Package.Graph.highest_inclusive_lower
select_node_version-IsChoice_example = select_node_version-IsChoice lib view (release 1 0) refl

conflict_sound_example :
    ¬ (All (λ r. contains r (release 3 0) ≡ true) (from_1_below_2 ∷ from_3 ∷ []))
unfolding has_empty_intersection assemble bound cmp
conflict_sound_example = conflict_sound (active (from_1_below_2 ∷ from_3 ∷ [])) refl (release 3 0)

constraint_parent_is_ancestor_iff_example :
    (constraint_parent_is_ancestor graph (codes "core") (codes "app") (codes "lib") ≡ true)
    ↔ Reaches
        (λ c. text_eq c (codes "core"))
        (parents graph (codes "core"))
        (codes "lib")
        (codes "app")
constraint_parent_is_ancestor_iff_example =
    constraint_parent_is_ancestor_iff graph (codes "core") (codes "app") (codes "lib")

alternate_root_path_iff_example :
    (constraint_parent_has_alternate_root_path graph (codes "core") (codes "other") (codes "lib")
      ≡ true)
    ↔ ((root : Text) × Has root (roots_but (codes "other") graph)
        × Reaches
            (λ c. text_eq c (codes "core") || text_eq c (codes "other"))
            (children graph)
            root
            (codes "lib"))
alternate_root_path_iff_example =
    alternate_root_path_iff graph (codes "core") (codes "other") (codes "lib")

stabilize_ends_example :
    (fuel : ℕ) × (answer : Fallible GraphState) × (stabilize_constraint_nodes fuel
        (record { text = []; packages = [] })
        start
      ≡ some answer)
stabilize_ends_example = stabilize_ends (record { text = []; packages = [] }) start

abbrev installed : Nodes × TreeSet
installed = (
  (codes "app", app)
      ∷ (codes "core", record (node_with ((codes "lib", from_3) ∷ []) []) { id = codes "core" })
      ∷ (codes "lib", record lib { dependencies = requirement (codes "core") from_3 ∷ [] })
      ∷ [],
  codes "core" ∷ [],
)

install-IsQueued_example :
    IsQueued
      (codes "lib")
      (dedup (sort (requirement (codes "core") from_3 ∷ [])))
      (codes "core")
      installed
unfolding install_node_dependencies dv.Common.TreeMap.get dv.Common.TreeMap.put
    dv.Common.TreeMap.modify dv.Common.TreeMap.add text_eq dv.Common.Order.list_cmp
install-IsQueued_example =
    install-IsQueued (codes "lib") (requirement (codes "core") from_3 ∷ []) [] lib (graph, [])
      installed (requirement (codes "core") from_3) refl refl here

-- A star of the pattern is taken literally where the value has a star in its place.
glob_component_matches_tests :
    (glob_component_matches (codes "*.c?") (codes "Main.CS") ≡ some true)
    × (glob_component_matches (codes "*a") (codes "ba") ≡ some true)
    × (glob_component_matches (codes "*") (codes "*a") ≡ some false)
    × (glob_path_matches (codes "**/*.cs") (codes "any/net8.0/Main.cs") ≡ some true)
    × (glob_path_matches (codes "any/*.cs") (codes "any/sub/Main.cs") ≡ some false)
unfolding glob_component_matches glob_path_matches text_eq
glob_component_matches_tests = (refl, refl, refl, refl, refl)

glob_component_matches-Decides_example :
    Decides
      (Matches (codes "*.Res?x") (codes "app.resX.resx"))
      (glob_component_matches (codes "*.Res?x") (codes "app.resX.resx"))
glob_component_matches-Decides_example =
    glob_component_matches-Decides (codes "*.Res?x") (codes "app.resX.resx") (ground arith)

constraint_is_dominated_iff_example :
    (constraint_is_dominated graph (codes "lib") (codes "app") ≡ true) ↔ (
      (candidate : Text) × Has candidate (keys (constraints_of (get (codes "lib") graph)))
      × Dominates graph (codes "lib") (codes "app") candidate)
constraint_is_dominated_iff_example = constraint_is_dominated_iff graph (codes "lib") (codes "app")

mark_descendants_reach_example :
    holds (codes "lib") (mark_descendants graph (codes "app") []) ≡ true
unfolding children get text_eq
mark_descendants_reach_example =
    mark_descendants_reach graph (codes "app") (codes "app") (codes "lib") [] arrived here
