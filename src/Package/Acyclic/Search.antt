-- ===== src/Package/Acyclic/Search.antt =====
-- What `validate_acyclic` of crates/dv-core/src/package.rs decides.
use mathlib.Core.Path.{subst}
use dv.Common.{
  ℕ, zero, suc, ◌+◌, ◌≤◌, ◌≡◌, refl, sym, ap, ◌∙◌, true, false, Option, none, some, List, [], ◌∷◌,
  ◌⊎◌, inl, inr, Bool-cases, either, length, if◌then◌else◌, All, All-Has, Has, Has-cons, here,
  there, arith,
}
use dv.Common.Text.{Text, text_eq}
use dv.Common.TreeMap.{
  TreeMap, TreeSet, keys, add, holds, holds-add, holds-discard, text_eq→≡, text_eq_refl, get-Has,
}
use dv.Common.Result.{ok, err}
use dv.Package.Error.{Fallible}
use dv.Package.Acyclic.Chains.{Reach, one, more, Grounded, grounded, first, Grounded→acyclic}
use dv.Package.Acyclic.{
  WorkPackage, Visit, edges, entered, finished, and_then, visit_each, visit, unvisited,
  validate_acyclic, cycle_error,
}

-- How much room the visits have: the identities that are not yet being visited.
abbrev free : TreeSet → List Text → ℕ
free visiting [] = 0
free visiting (k ∷ ks) = (if holds k visiting then 0 else 1) + free visiting ks

abbrev Alike : TreeSet → TreeSet → Type 0
Alike r s = (x : Text) → holds x r ≡ holds x s

free-Alike : (r s : TreeSet) (ks : List Text) → Alike r s → free r ks ≡ free s ks
free-Alike r s [] e = refl
free-Alike r s (k ∷ ks) e = rw (e k, free-Alike r s ks e) refl

free-add_le : (id : Text) (s : TreeSet) (ks : List Text) → free (add id s) ks ≤ free s ks
free-add_le id s [] = omega arith
free-add_le id s (k ∷ ks) = ground (arith, holds-add id k s, free-add_le id s ks)

free-add_lt :
    (id : Text) (s : TreeSet) (ks : List Text)
    → Has id ks
    → holds id s ≡ false
    → free (add id s) ks + 1 ≤ free s ks
free-add_lt id s [] m h = elim m [ ]
free-add_lt id s (k ∷ ks) m h = elim (Has-cons m) [
  | inl e ↦ ground (arith, h, e, holds-add id id s, text_eq_refl id, free-add_le id s ks)
  | inr later ↦ ground (arith, holds-add id k s, free-add_lt id s ks later h)
]

free_unvisited : (ks : List Text) → free [] ks ≡ length ks
unfolding holds
free_unvisited [] = refl
free_unvisited (k ∷ ks) = omega (arith, free_unvisited ks)

module _ (out : Text → List Text) where
  -- What is known of a state: the identities that were finished lead into no cycle.
  abbrev Settled : Visit → Type 0
  Settled s = (x : Text) → holds x s.visited ≡ true → Grounded out x

  -- Every identity that is being visited has a chain to the one at hand.
  abbrev Leads : Visit → Text → Type 0
  Leads s id = (x : Text) → holds x s.visiting ≡ true → Reach out x id

  record Later (s t : Visit) : Type 0 where
    same : Alike t.visiting s.visiting
    grown : (x : Text) → holds x s.visited ≡ true → holds x t.visited ≡ true
    settled : Settled t

  -- The search ends, and it fails only with an identity that leads back to itself.
  abbrev Ends : (Visit → Type 0) → Option (Fallible Visit) → Type 0
  Ends P none = ⊥
  Ends P (some (ok t)) = P t
  Ends P (some (err e)) =
      (a : Text) × (stack : List Text) × (e ≡ cycle_error a stack) × Reach out a a

  Ends-and_then :
      (P Q : Visit → Type 0) (r : Option (Fallible Visit)) (next : Visit → Option (Fallible Visit))
      → Ends P r
      → ((t : Visit) → P t → Ends Q (next t))
      → Ends Q (and_then r next)
  Ends-and_then P Q none next h k = absurd h
  Ends-and_then P Q (some (ok t)) next h k = k t h
  Ends-and_then P Q (some (err e)) next h k = h

  Ends-map :
      (P Q : Visit → Type 0) (r : Option (Fallible Visit))
      → Ends P r
      → ((t : Visit) → P t → Q t)
      → Ends Q r
  Ends-map P Q none h k = absurd h
  Ends-map P Q (some (ok t)) h k = k t h
  Ends-map P Q (some (err e)) h k = h

  Later-trans : (r s t : Visit) → Later r s → Later s t → Later r t
  Later-trans r s t h k = record {
    same = λ x. k.same x ∙ h.same x;
    grown = λ x v. k.grown x (h.grown x v);
    settled = k.settled;
  }

  abbrev Visits : (Text → Visit → Option (Fallible Visit)) → List Text → ℕ → Type 0
  Visits go ks fuel =
      (id : Text) (s : Visit)
      → free s.visiting ks + 1 ≤ fuel
      → Settled s
      → Leads s id
      → Ends (λ t. Later s t × (holds id t.visited ≡ true)) (go id s)

  visit_each-Ends :
      (go : Text → Visit → Option (Fallible Visit)) (ks : List Text) (fuel : ℕ) (ds : List Text)
      (s : Visit)
      → Visits go ks fuel
      → (ds ≡ []) ⊎ (free s.visiting ks + 1 ≤ fuel)
      → Settled s
      → ((d : Text) → Has d ds → Leads s d)
      → Ends (λ t. Later s t × All (λ d. holds d t.visited ≡ true) ds) (visit_each go ds s)
  unfolding visit_each
  visit_each-Ends go ks fuel [] s v room h leads =
      (record { same = λ x. refl; grown = λ x k. k; settled = h }, tt)
  visit_each-Ends go ks fuel (d ∷ ds) s v room h leads = elim room [
    | inl e ↦ cc
    | inr enough ↦
        Ends-and_then _ _ (go d s) (visit_each go ds) (v d s enough h (leads d here)) (λ t (l, k).
          Ends-map _ _ (visit_each go ds t)
            (visit_each-Ends go ks fuel ds t v
              (inr (
                subst (λ n. n + 1 ≤ fuel) (sym (free-Alike t.visiting s.visiting ks l.same))
                  enough))
              l.settled (λ e m x a. leads e (there m) x (sym (l.same x) ∙ a)))
            (λ u (l', ks'). (Later-trans s t u l l', (l'.grown d k, ks'))))
  ]

  -- Entering a dependency that is not being visited.
  entered-Leads :
      (id : Text) (s : Visit) → Leads s id → (d : Text) → Has d (out id) → Leads (entered id s) d
  entered-Leads id s leads d m x h = elim (Bool-cases (text_eq id x)) [
    | inl e ↦ subst (λ y. Reach out y d) (text_eq→≡ id x e) (one m)
    | inr other ↦ more (leads x (rw (holds-add id x s.visiting, other) at h)) m
  ]

  finished-Later :
      (id : Text) (s t : Visit)
      → holds id s.visiting ≡ false
      → Later (entered id s) t
      → All (λ d. holds d t.visited ≡ true) (out id)
      → Later s (finished id t) × (holds id (finished id t).visited ≡ true)
  finished-Later id s t fresh l all = (
    record {
      same = λ x. ground (
        arith,
        l.same x,
        holds-discard id x t.visiting,
        holds-add id x s.visiting,
        fresh,
        text_eq→≡ id x,
      );
      grown = λ x h. ground (arith, l.grown x h, holds-add id x t.visited);
      settled = λ x h. elim (Bool-cases (text_eq id x)) [
        | inl e ↦
            subst (Grounded out) (text_eq→≡ id x e) (
              grounded
                (λ d m. l.settled d (All-Has (λ d. holds d t.visited ≡ true) (out id) m all)))
        | inr other ↦ l.settled x (rw (holds-add id x t.visited, other) at h)
      ];
    },
    ground (arith, holds-add id id t.visited, text_eq_refl id),
  )

  module _ (ks : List Text) (known : (a : Text) → Has a ks ⊎ (out a ≡ [])) where
    visit-Ends : (fuel : ℕ) → Visits (visit out fuel) ks fuel
    unfolding visit
    visit-Ends zero id s enough h leads = omega arith
    visit-Ends (suc fuel) id s enough h leads =
        let P : Visit → Type 0 = λ t. Later s t × (holds id t.visited ≡ true) in
        either (Ends P) (holds id s.visited) _ _
          (λ old. (record { same = λ x. refl; grown = λ x k. k; settled = h }, old))
          (λ new.
            either (Ends P) (holds id s.visiting) _ _ (λ again. (id, s.stack, refl, leads id again))
              (λ fresh.
                Ends-and_then _ P (visit_each (visit out fuel) (out id) (entered id s)) _
                  (visit_each-Ends (visit out fuel) ks fuel (out id) (entered id s)
                    (visit-Ends fuel)
                    (elim (known id) [
                      | inl m ↦ inr (omega (arith, enough, free-add_lt id s.visiting ks m fresh))
                      | inr e ↦ inl e
                    ])
                    h (entered-Leads id s leads))
                  (λ t (l, all). finished-Later id s t fresh l all)))

ends :
    (out : Text → List Text) (P : Visit → Type 0) (r : Option (Fallible Visit))
    → Ends out P r
    → ((t : Visit) × (r ≡ some (ok t)) × P t)
      ⊎ ((a : Text) × (stack : List Text) × (r ≡ some (err (cycle_error a stack))) × Reach out a a)
ends out P none h = absurd h
ends out P (some (ok t)) h = inl (t, refl, h)
ends out P (some (err e)) (a, stack, h, r) = inr (a, stack, ap (λ x. some (err x)) h, r)

pub edges-known :
    (packages : TreeMap WorkPackage) (a : Text) → Has a (keys packages) ⊎ (edges packages a ≡ [])
unfolding edges
edges-known packages a = elim (get-Has a packages) [ inl m ↦ inl m | inr h ↦ inr (rw h refl) ]

validate-Ends :
    (packages : TreeMap WorkPackage)
    → Ends
        (edges packages)
        (λ t.
          Later (edges packages) unvisited t
          × All (λ id. holds id t.visited ≡ true) (keys packages))
        (validate_acyclic packages)
unfolding validate_acyclic holds
validate-Ends packages =
    let ks = keys packages in
    visit_each-Ends (edges packages) _ ks (suc (length ks)) ks unvisited
      (visit-Ends (edges packages) ks (edges-known packages) (suc (length ks)))
      (inr (omega (arith, free_unvisited ks))) (λ x h. cc) (λ d m x h. cc)

-- Where every key was finished, no identity has a chain to itself.
acyclic :
    (packages : TreeMap WorkPackage) (s : Visit)
    → Later (edges packages) unvisited s
    → All (λ id. holds id s.visited ≡ true) (keys packages)
    → (id : Text) → ¬ Reach (edges packages) id id
acyclic packages s l all id r = elim (edges-known packages id) [
  | inl m ↦
      Grounded→acyclic id
        (l.settled id (All-Has (λ x. holds x s.visited ≡ true) (keys packages) m all)) r
  | inr e ↦ let (d, m, rest) = first r in elim (subst (Has d) e m) [ ]
]

-- `validate_acyclic` always ends. Either it succeeds, every package was visited, and no identity
-- has a chain of dependencies that leads back to itself; or it fails with the error for a
-- dependency cycle, and the identity that the error names has such a chain.
pub validate_acyclic-decides :
    (packages : TreeMap WorkPackage)
    → ((s : Visit) × (validate_acyclic packages ≡ some (ok s))
        × All (λ id. holds id s.visited ≡ true) (keys packages)
        × ((id : Text) → ¬ Reach (edges packages) id id))
      ⊎ ((id : Text) × (stack : List Text) × (validate_acyclic packages
            ≡ some (err (cycle_error id stack)))
          × Reach (edges packages) id id)
validate_acyclic-decides packages =
    elim (ends (edges packages) _ (validate_acyclic packages) (validate-Ends packages)) [
      | inl (s, h, (l, all)) ↦ inl (s, h, all, λ id r. acyclic packages s l all id r)
      | inr c ↦ inr c
    ]
