-- ===== src/RuntimeGraph/Examples.antt =====
-- Runs of the model of crates/dv-core/src/runtime_graph.rs on concrete inputs.
use dv.Common.{ℕ, ◌≡◌, refl, [], ◌∷◌, some}
use dv.Common.Text.{codes}
use dv.Common.Result.{ok}
use dv.RuntimeGraph.{RuntimeNode, push, get_text, compile_compatibility_ranges}
use dv.RuntimeGraph.Table.{get_text-push}

abbrev edge : ℕ → ℕ → RuntimeNode
edge start len = record {
  identifier = record { start = 0; len = 0 };
  imports = record { start = start; len = len };
}

-- 0 imports 1 and 2, which both import 3
compile_tests :
    compile_compatibility_ranges
      (edge 0 2 ∷ edge 2 1 ∷ edge 3 1 ∷ edge 4 0 ∷ [])
      (1 ∷ 2 ∷ 3 ∷ 3 ∷ [])
    ≡ some (
        ok (record {
          ranges =
              record { start = 0; len = 4 }
              ∷ record { start = 4; len = 2 }
              ∷ record { start = 6; len = 2 }
              ∷ record { start = 8; len = 1 }
              ∷ [];
          indices = 0 ∷ 1 ∷ 2 ∷ 3 ∷ 1 ∷ 3 ∷ 2 ∷ 3 ∷ 3 ∷ [];
        }))
unfolding compile_compatibility_ranges
compile_tests = refl

get_text-push_example : get_text (codes "anylinux") (record { start = 3; len = 5 }) ≡ codes "linux"
unfolding push
get_text-push_example =
    get_text-push (codes "linux") (codes "any") (codes "anylinux") (record { start = 3; len = 5 })
      refl
