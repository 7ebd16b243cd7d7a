-- ===== src/Package/Graph/Ancestry/Dominated.antt =====
-- `constraint_is_dominated` of crates/dv-core/src/package.rs in terms of paths.
use dv.Common.{
  ◌≡◌, ◌↔◌, refl, ap, sym, ◌∙◌, Bool, true, false, ◌&&◌, ◌||◌, not, List, [], ◌∷◌, Has, here, there,
  Has-cons, Bool-cases, inl, inr, any, arith,
}
use dv.Common.Text.{Text, text_eq}
use dv.Common.TreeMap.{get, keys}
use dv.Package.Graph.{Nodes}
use dv.Package.Graph.Walk.{Reaches}
use dv.Package.Graph.Ancestry.{
  parents, children, roots_but, constraints_of, constraint_parent_is_ancestor,
  constraint_parent_has_alternate_root_path, constraint_is_dominated,
}
use dv.Package.Graph.Ancestry.Laws.{constraint_parent_is_ancestor_iff, alternate_root_path_iff}

any-Has :
    {A : Type 0} (p : A → Bool) (xs : List A)
    → (any p xs ≡ true) ↔ ((x : A) × Has x xs × (p x ≡ true))
any-Has p [] = (λ h. cc h, λ (x, m, h). elim m [ ])
any-Has p (x ∷ xs) = (
  λ h. elim (Bool-cases (p x)) [
    | inl yes_x ↦ (x, here, yes_x)
    | inr no_x ↦ let (y, m, k) = (any-Has p xs).0 (ground arith) in (y, there m, k)
  ],
  λ (y, m, k). elim (Has-cons m) [
    | inl same ↦ let at_x : p x ≡ true = ap p (sym same) ∙ k in ground arith
    | inr later ↦ let rest : any p xs ≡ true = (any-Has p xs).1 (y, later, k) in ground arith
  ],
)

-- A path of constraints up from a package, that does not go on from the target.
abbrev pub Up : Nodes → Text → Text → Text → Type 0
Up nodes target = Reaches (λ c. text_eq c target) (parents nodes target)

-- A path of dependencies from a direct requirement other than the blocked one, that does not go on from
-- the target or from the blocked package.
abbrev pub Around : Nodes → Text → Text → Text → Type 0
Around nodes target blocked descendant =
    (root : Text) × Has root (roots_but blocked nodes)
    × Reaches (λ c. text_eq c target || text_eq c blocked) (children nodes) root descendant

-- what dominates the constraint of `parent` on `target`
abbrev pub Dominates : Nodes → Text → Text → Text → Type 0
Dominates nodes target parent candidate =
    (text_eq candidate parent ≡ false)
    × Up nodes target parent candidate
    × (¬ (Up nodes target candidate parent))
    × (¬ (Around nodes target candidate parent))

four_tests :
    (a b c d : Bool)
    → ((not a && (b && (not c && not d))) ≡ true)
      ↔ ((a ≡ false) × (b ≡ true) × (c ≡ false) × (d ≡ false))
four_tests a b c d = ground arith

false_iff : {A : Type 0} (b : Bool) → (b ≡ true) ↔ A → (b ≡ false) ↔ (¬ A)
false_iff true e = (λ h a. cc h, λ n. absurd (n (e.0 refl)))
false_iff false e = (λ h a. cc (e.1 a), λ n. refl)

-- A constraint is dominated exactly where another parent of the target lies on a path up from its
-- parent, and not the other way round, and the parent is not reached from the direct requirements
-- round that other parent.
pub constraint_is_dominated_iff :
    (nodes : Nodes) (target parent : Text)
    → (constraint_is_dominated nodes target parent ≡ true) ↔ (
        (candidate : Text) × Has candidate (keys (constraints_of (get target nodes)))
        × Dominates nodes target parent candidate)
unfolding constraint_is_dominated
constraint_is_dominated_iff nodes target parent = (
  λ h.
      let (x, m, t) = (any-Has _ (keys (constraints_of (get target nodes)))).0 h in
      let (apart, up, down, round) = (four_tests _ _ _ _).0 t in
      (x, m, (apart, (ups x).0 up, (downs x).0 down, (rounds x).0 round)),
  λ (x, m, (apart, up, down, round)).
      (any-Has _ (keys (constraints_of (get target nodes)))).1
        (x, m, (four_tests _ _ _ _).1 (apart, (ups x).1 up, (downs x).1 down, (rounds x).1 round)),
)
  where
    ups :
        (x : Text)
        → (constraint_parent_is_ancestor nodes target x parent ≡ true) ↔ Up nodes target parent x
    ups x = constraint_parent_is_ancestor_iff nodes target x parent

    downs :
        (x : Text)
        → (constraint_parent_is_ancestor nodes target parent x ≡ false)
          ↔ (¬ (Up nodes target x parent))
    downs x = false_iff _ (constraint_parent_is_ancestor_iff nodes target parent x)

    rounds :
        (x : Text)
        → (constraint_parent_has_alternate_root_path nodes target x parent ≡ false)
          ↔ (¬ (Around nodes target x parent))
    rounds x = false_iff _ (alternate_root_path_iff nodes target x parent)
