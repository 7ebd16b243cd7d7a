-- ===== src/RuntimeGraph.antt =====
-- `RuntimeIdentifierGraph` of crates/dv-core/src/runtime_graph.rs: its compact tables, the breadth-first
-- compilation of the compatibilities, and the queries. The reading of the JSON document, `load`, is
-- left out.
pub mod Table
mod Examples
use dv.Common.{
  ℕ, zero, suc, ◌+◌, ◌-◌, ◌^◌, ◌≡◌, Bool, true, false, ◌&&◌, ◌||◌, not, Option, none, some, List,
  [], ◌∷◌, ◌++◌, ltb, leb, ◌==◌, if◌then◌else◌, length, get_elem?, set, take, drop, any,
}
use dv.Common.Text.{Text, len, is_empty, slice, text_eq}
use dv.Common.TreeMap.{TreeMap, get, put, keys, values, holds}
use dv.Common.Result.{Result, ok, err, ◌>>=◌, ◌>>◌}

-- Of `RuntimeGraphErrorKind` those that the compilation answers with.
pub data RuntimeGraphError : Type 0 where
  invalid_graph text_overflow : RuntimeGraphError

pub record TextSpan : Type 0 where
  pub start : ℕ
  pub len : ℕ

pub record IndexRange : Type 0 where
  pub start : ℕ
  pub len : ℕ

pub record RuntimeNode : Type 0 where
  pub identifier : TextSpan
  pub imports : IndexRange

pub record RuntimeIdentifierGraph : Type 0 where
  pub text : Text
  pub nodes : List RuntimeNode
  pub imports : List ℕ
  pub compatibility_ranges : List IndexRange
  pub compatibilities : List ℕ

-- `u32_len`
unfoldable pub u32_len : ℕ → Result RuntimeGraphError ℕ
u32_len value = if ltb value (2 ^ 32) then ok value else err text_overflow

-- `validate_identifier`
unfoldable pub validate_identifier : Text → Result RuntimeGraphError (Unit {0})
validate_identifier identifier = if is_empty identifier then err invalid_graph else ok tt

-- `&imports[range(r)]`
unfoldable pub range_of {ℓ} : {A : Type ℓ} → IndexRange → List A → List A
range_of r xs = take r.len (drop r.start xs)

-- `TextTable::push`: the text after it and the span of the value
unfoldable pub push : Text → Text → Result RuntimeGraphError (Text × TextSpan)
unfolding u32_len
push value text = do
  start ← u32_len (len text)
  size ← u32_len (len value)
  end ← u32_len (start + size)
  ok (text ++ value, record { start = start; len = size })

-- `TextTable::get` and `RuntimeIdentifierGraph::get`
unfoldable pub get_text : Text → TextSpan → Text
get_text text span = slice span.start (span.start + span.len) text

-- the loop over the imports of a node: what was not seen by this traversal joins the queue
unfoldable pub enqueue : ℕ → List ℕ → List ℕ × List ℕ → List ℕ × List ℕ
enqueue generation [] (queue, visited) = (queue, visited)
enqueue generation (i ∷ imported) (queue, visited) =
    enqueue generation imported (elim (get_elem? visited i) [
      | none ↦ (queue, visited)
      | some g ↦
          if g == generation
          then (queue, visited)
          else (queue ++ (i ∷ []), set visited i generation)
    ])

abbrev imports_of : List RuntimeNode → List ℕ → ℕ → List ℕ
imports_of nodes imports i = elim (get_elem? nodes i) [
  | none ↦ []
  | some n ↦ range_of n.imports imports
]

-- `while cursor < queue.len()`: the queue from the cursor on, and the compatibilities so far. `none`
-- means that the fuel ran out.
unfoldable pub traverse :
    List RuntimeNode → List ℕ → ℕ → ℕ → List ℕ × List ℕ → List ℕ → Option (List ℕ × List ℕ)
unfolding enqueue range_of
traverse nodes imports generation zero s compatibility = none
traverse nodes imports generation (suc fuel) ([], visited) compatibility =
    some (compatibility, visited)
traverse nodes imports generation (suc fuel) (node ∷ queue, visited) compatibility =
    traverse nodes imports generation fuel
      (enqueue generation (imports_of nodes imports node) (queue, visited))
      (compatibility ++ (node ∷ []))

pub record Compiled : Type 0 where
  pub ranges : List IndexRange
  pub indices : List ℕ

-- the loop over the start nodes, of which `count` are left from `start_node` on; a queue holds each
-- node once, so that the number of nodes and one is fuel enough
unfoldable pub compile_from :
    List RuntimeNode
    → List ℕ
    → ℕ
    → ℕ
    → List ℕ
    → Compiled
    → Option (Result RuntimeGraphError Compiled)
unfolding traverse u32_len
compile_from nodes imports zero start_node visited c = some (ok c)
compile_from nodes imports (suc count) start_node visited c =
    elim (u32_len start_node >>= λ _. u32_len (length c.indices)) [
      | err e ↦ some (err e)
      | ok start ↦
          elim (traverse nodes imports (start_node + 1) (suc (length nodes))
            (start_node ∷ [], set visited start_node (start_node + 1)) c.indices) [
              | none ↦ none
              | some (indices, seen) ↦ elim (u32_len (length indices)) [
                | err e ↦ some (err e)
                | ok end ↦ compile_from nodes imports count (start_node + 1) seen (record {
                  ranges = c.ranges ++ (record { start = start; len = end - start } ∷ []);
                  indices = indices;
                })
              ]
            ]
    ]

abbrev zeros : ℕ → List ℕ
zeros zero = []
zeros (suc n) = 0 ∷ zeros n

-- `compile_compatibility_ranges`
unfoldable pub compile_compatibility_ranges :
    List RuntimeNode → List ℕ → Option (Result RuntimeGraphError Compiled)
unfolding compile_from
compile_compatibility_ranges nodes imports =
    compile_from nodes imports (length nodes) 0 (zeros (length nodes))
      (record { ranges = []; indices = [] })

-- `find_node`: the binary search of the sorted nodes finds the node of the identifier
unfoldable pub find_from : Text → Text → ℕ → List RuntimeNode → Option ℕ
find_from text id i [] = none
find_from text id i (n ∷ ns) =
    if text_eq (get_text text n.identifier) id then some i else find_from text id (i + 1) ns

unfoldable pub find_node : RuntimeIdentifierGraph → Text → Option ℕ
unfolding find_from get_text
find_node graph id = find_from graph.text id 0 graph.nodes

unfoldable pub node_identifier : RuntimeIdentifierGraph → ℕ → Text
unfolding get_text
node_identifier graph i = elim (get_elem? graph.nodes i) [
  | none ↦ []
  | some n ↦ get_text graph.text n.identifier
]

abbrev names_of : RuntimeIdentifierGraph → List ℕ → List Text
names_of graph [] = []
names_of graph (i ∷ is) = node_identifier graph i ∷ names_of graph is

-- `direct_imports`
unfoldable pub direct_imports : RuntimeIdentifierGraph → Text → Option (List Text)
unfolding find_node node_identifier range_of
direct_imports graph id = elim (find_node graph id) [
  | none ↦ none
  | some i ↦ some (names_of graph (imports_of graph.nodes graph.imports i))
]

abbrev compatibility_of : RuntimeIdentifierGraph → ℕ → List ℕ
compatibility_of graph i = elim (get_elem? graph.compatibility_ranges i) [
  | none ↦ []
  | some r ↦ range_of r graph.compatibilities
]

-- `compatible_rids`: the requested identifier, then those of its compatibilities but the first
unfoldable pub compatible_rids : RuntimeIdentifierGraph → Text → List Text
unfolding find_node node_identifier range_of
compatible_rids graph id = elim (find_node graph id) [
  | none ↦ id ∷ []
  | some i ↦ id ∷ names_of graph (drop 1 (compatibility_of graph i))
]

-- `are_compatible`
unfoldable pub are_compatible : RuntimeIdentifierGraph → Text → Text → Bool
unfolding find_node range_of
are_compatible graph requested provided =
    text_eq requested provided || (elim (find_node graph requested) [
      | none ↦ false
      | some r ↦ elim (find_node graph provided) [
        | none ↦ false
        | some p ↦ any (λ i. i == p) (compatibility_of graph r)
      ]
    ])
