-- ===== src/Lib.antt =====
-- A model of the core of dv, a package resolver and build tool for .NET, and what holds of it.
--
-- Every package version, version range, framework and SDK version that dv meets is read from text and
-- compared; the resolver keeps a graph of packages and their constraints and revises it until every
-- node has a version that its constraints allow. The files model these parts:
--   Common: text as Unicode scalar values with UTF-8 lengths, comparison functions, sorted maps,
--     results, decimal printing; Common/Ends the two ends of a text.
--   Package (crates/dv-core/src/package.rs):
--     Error: PackageError and its constructors, without the human message.
--     Version: PackageVersion::parse, prerelease and cmp; Version/Order, Parse,
--       Chars and RoundTrip.
--     Range: VersionBound, VersionRange and floating versions; Range/Parse the interval syntax;
--       Range/Brackets and Intervals the intervals that are read, Range/Laws membership and preference.
--     Pruning: PackagePruning::contains.
--     Graph: ConstraintNode, ConstraintView and select_node_version_with_constraints; Graph/Selection,
--       Available, Choice and Conflict.
--     Graph/Walk: the loop over a stack with a list of visited identities that the searches share;
--       Graph/Ancestry: constraint_parent_is_ancestor, constraint_is_dominated, collect_downgrades.
--     Graph/Marking and Graph/Stabilize: mark_descendant_constraint_targets_dirty and
--       stabilize_constraint_nodes; Graph/Install: install_node_dependencies, concrete_dependencies.
--     Acyclic: validate_acyclic; Acyclic/Chains the chains of dependencies that it is about.
--     SourceMapping: the queries of PackageSourceMapping and finish_source; SourceMapping/Best and Rank
--       the required rank.
--     HttpPolicy: effective_http_policy_with, response_retry_delay; HttpPolicy/Bounds its limits.
--     Glob: glob_component_matches and glob_path_matches on bytes; Glob/Matches what it is to match a
--       component, Glob/Progress the state of the loop, Glob/Component its answer, Glob/Literal patterns
--       without wildcards. The fuel is (pattern + 2) * (value + 2): a star gives up each byte of the value
--       once at most, and between that each round takes a byte of the pattern.
--   Framework (crates/dv-core/src/framework.rs): TargetFramework::parse and the derived defaults;
--     Framework/Versions how a version is written and read, Framework/RoundTrip the monikers.
--   Sdk (crates/dv-core/src/sdk.rs): SdkVersion::parse and cmp; strip_json_comments;
--     Selection: select_from_root and the selection over the roots; Selection/Choice its order.
--   FrameworkReference (crates/dv-core/src/framework_reference.rs): RuntimeVersion, select_by_policy
--     and the choice that select_installed_runtime makes.
--   RuntimeGraph (crates/dv-core/src/runtime_graph.rs): the tables of RuntimeIdentifierGraph, its
--     compatibilities and queries, without the reading of the JSON document.
--   Cancellation (crates/dv-core/src/cancellation.rs): the atomics of CancellationToken;
--     Cancellation/Threads: request, cancel and wait_for as threads that take one atomic operation a
--     turn, in the order of a schedule; Cancellation/Notify: what is relied on of tokio's Notify;
--     Cancellation/Tally, Phases and Wakeups what holds in every schedule. The atomics are taken to be
--     sequentially consistent, and two reads of one call of remaining_child_grace see one state.
--   Project (crates/dv-core/src/project.rs): parse_toggle and the like; Project/Identifiers
--     and Distinct parse_runtime_identifiers; Project/Condition the reading of operands and comparisons of
--     ReferenceConditionParser, and Condition/Evaluation its evaluate and parse_or, parse_and and
--     parse_unary; Condition/Grammar the expressions and their meaning, Condition/Left and Ends that
--     the parser ends, Condition/Compare, Loops and Meaning what it computes.
--   ChildProcess (crates/dv-core/src/child_process.rs): classification of a child's end and exit codes.
--
-- State is passed explicitly: a function that changes the graph takes and returns the nodes and the
-- dirty and ready sets. A function that fails answers with a Result. Numbers are the native naturals;
-- where the source casts to 16 or 32 bits the remainder is written out, and a number that is parsed
-- is bounded by its type. BTreeMap and BTreeSet are lists in the order of their keys.
--
-- Loops without a structural bound run on fuel. A walk over the graph gets the length of its stack, the
-- number of the edges, and one: every round takes an entry off the stack, and a node pushes its edges
-- once. The stabilization loop takes its fuel as an argument: a node is revised at most 64 times. The
-- glob loops run on the product of the lengths of pattern and value, since a star gives up each byte
-- of the value once at most. A traversal of the runtime graph runs on the number of its nodes and one,
-- since a node is queued once.
--
-- A condition nests at most 8 levels deep, so parse_unary has 9 of fuel; its loops run on the length of
-- the text that is left and one, since a keyword leaves less text.
-- The search for cycles runs on the number of packages and one: a visit nests once for each package.
--
-- Not modelled: network, archives, caches, signatures, credential providers, the XML of projects, the
-- compiler, the workspace and the output; messages of errors; the order that an unstable sort gives
-- to equal identities, which is kept here.
pub mod Common
pub mod Package
pub mod Framework
pub mod Sdk
pub mod RuntimeGraph
pub mod Cancellation
pub mod ChildProcess
pub mod Project
pub mod FrameworkReference
