-- ===== src/Package/Graph/Ancestry/Laws.antt =====
-- What the walks of crates/dv-core/src/package.rs over parents and children decide.
use mathlib.Core.Path.{subst}
use dv.Common.{
  ◌≡◌, ap, Bool, true, ◌||◌, List, [], ◌∷◌, reverse, ◌⊎◌, inl, inr, Has, here, Has-cons, ◌↔◌,
}
use dv.Common.Text.{Text, text_eq}
use dv.Common.TreeMap.{get-Has, keys, text_eq_iff, text_eq_refl}
use dv.Package.Graph.{Nodes}
use dv.Package.Graph.Walk.{Reaches, Has-reverse_aux, reverse_aux-Has}
use dv.Package.Graph.Walk.Search.{search_from, search_from_iff}
use dv.Package.Graph.Ancestry.{
  parents, parents_of, children, children_of, constraint_parent_is_ancestor,
  constraint_parent_has_alternate_root_path, roots_but,
}

parents-known :
    (nodes : Nodes) (target c : Text) → Has c (keys nodes) ⊎ (parents nodes target c ≡ [])
unfolding parents
parents-known nodes target c = elim (get-Has c nodes) [
  | inl m ↦ inl m
  | inr e ↦ inr (ap (parents_of target) e)
]

pub children-known : (nodes : Nodes) (c : Text) → Has c (keys nodes) ⊎ (children nodes c ≡ [])
unfolding children
children-known nodes c = elim (get-Has c nodes) [ inl m ↦ inl m | inr e ↦ inr (ap children_of e) ]

-- The search for one text from the stack.
search-Reaches :
    (skip : Text → Bool) (edges : Text → List Text) (ks stack : List Text) (t : Text)
    → ((c : Text) → Has c ks ⊎ (edges c ≡ []))
    → search_from (λ c. text_eq c t) skip edges ks stack ≡ true
    → (s : Text) × Has s stack × Reaches skip edges s t
search-Reaches skip edges ks stack t known h =
    let (s, g, m, at_goal, path) =
      (search_from_iff (λ c. text_eq c t) skip edges ks known stack).0 h in
    (s, m, subst (Reaches skip edges s) ((text_eq_iff g t).0 at_goal) path)

Reaches-search :
    (skip : Text → Bool) (edges : Text → List Text) (ks stack : List Text) (s t : Text)
    → ((c : Text) → Has c ks ⊎ (edges c ≡ []))
    → Has s stack
    → Reaches skip edges s t
    → search_from (λ c. text_eq c t) skip edges ks stack ≡ true
Reaches-search skip edges ks stack s t known m path =
    (search_from_iff (λ c. text_eq c t) skip edges ks known stack).1 (s, t, m, text_eq_refl t, path)

-- A parent is found to be an ancestor exactly where a path from a node to a parent in its constraints,
-- which does not go on from the target nor enter it, leads from the descendant up to the ancestor.
pub constraint_parent_is_ancestor_iff :
    (nodes : Nodes) (target ancestor descendant : Text)
    → (constraint_parent_is_ancestor nodes target ancestor descendant ≡ true)
      ↔ Reaches (λ c. text_eq c target) (parents nodes target) descendant ancestor
unfolding constraint_parent_is_ancestor
constraint_parent_is_ancestor_iff nodes target ancestor descendant = (
  λ h.
      let (s, m, path) =
        search-Reaches (λ c. text_eq c target) (parents nodes target) (keys nodes) (descendant ∷ [])
          ancestor (parents-known nodes target) h in
      elim (Has-cons m) [
        | inl e ↦
            subst (λ x. Reaches (λ c. text_eq c target) (parents nodes target) x ancestor) e path
        | inr none_left ↦ elim none_left [ ]
      ],
  λ path.
      Reaches-search (λ c. text_eq c target) (parents nodes target) (keys nodes) (descendant ∷ [])
        descendant ancestor (parents-known nodes target) here path,
)

-- A way round the blocked package is found exactly where a path of dependencies leads from a direct
-- requirement other than the blocked one to the descendant, without going on from the target or
-- from the blocked package.
pub alternate_root_path_iff :
    (nodes : Nodes) (target blocked descendant : Text)
    → (constraint_parent_has_alternate_root_path nodes target blocked descendant ≡ true) ↔ (
        (root : Text) × Has root (roots_but blocked nodes)
        × Reaches (λ c. text_eq c target || text_eq c blocked) (children nodes) root descendant)
unfolding constraint_parent_has_alternate_root_path
alternate_root_path_iff nodes target blocked descendant = (
  λ h.
      let (s, m, path) =
        search-Reaches (λ c. text_eq c target || text_eq c blocked) (children nodes) (keys nodes)
          (reverse (roots_but blocked nodes)) descendant (children-known nodes) h in
      elim (Has-reverse_aux (roots_but blocked nodes) [] m) [
        | inl root ↦ (s, root, path)
        | inr none_left ↦ elim none_left [ ]
      ],
  λ (root, m, path).
      Reaches-search (λ c. text_eq c target || text_eq c blocked) (children nodes) (keys nodes)
        (reverse (roots_but blocked nodes)) root descendant (children-known nodes)
        (reverse_aux-Has (roots_but blocked nodes) [] (inl m)) path,
)
