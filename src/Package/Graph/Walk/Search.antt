-- ===== src/Package/Graph/Walk/Search.antt =====
-- A whole search over a graph: the walk with the fuel that the graph needs.
use dv.Common.{
  ℕ, suc, ◌+◌, ◌≡◌, refl, ap, sym, ◌∙◌, Bool, true, false, Option, none, some, List, [], ◌⊎◌, Has,
  length, ◌↔◌, arith,
}
use dv.Common.Text.{Text}
use dv.Package.Graph.Walk.{walk}
use dv.Package.Graph.Walk.Laws.{walk-Found, walk_complete, Found}
use dv.Package.Graph.Walk.Fuel.{pending, walk_ends}

-- what the loop answers
abbrev pub answered : Option Bool → Bool
answered none = false
answered (some b) = b

-- The loop from a stack, over a graph whose nodes are `ks`.
unfoldable pub search_from :
    (Text → Bool) → (Text → Bool) → (Text → List Text) → List Text → List Text → Bool
unfolding walk pending
search_from goal skip edges ks stack =
    answered (walk goal skip edges (suc (length stack + pending edges ks [])) stack [])

module _ (goal skip : Text → Bool) (edges : Text → List Text) (ks : List Text)
    (known : (c : Text) → Has c ks ⊎ (edges c ≡ [])) where
  -- The search finds its goal exactly where a goal is reached from the stack.
  pub search_from_iff :
      (stack : List Text)
      → (search_from goal skip edges ks stack ≡ true) ↔ Found goal skip edges stack
  unfolding search_from
  search_from_iff stack = decided (walk goal skip edges fuel stack []) refl
    where
      fuel : ℕ
      fuel = suc (length stack + pending edges ks [])

      decided :
          (o : Option Bool)
          → walk goal skip edges fuel stack [] ≡ o
          → (answered (walk goal skip edges fuel stack []) ≡ true) ↔ Found goal skip edges stack
      decided none e = absurd (walk_ends goal skip edges ks known fuel stack [] (omega arith) e)
      decided (some true) e = (λ h. walk-Found goal skip edges fuel stack [] e, λ f. ap answered e)
      decided (some false) e = (
        λ h. cc (sym (ap answered e) ∙ h),
        λ (s, g, m, at_goal, path).
            cc (walk_complete goal skip edges fuel stack s g e m path, at_goal),
      )
