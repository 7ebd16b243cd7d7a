-- ===== src/Package/Graph/Install/Laws.antt =====
-- What `install_node_dependencies` of crates/dv-core/src/package.rs leaves in the graph.
use dv.Common.{
  ◌≡◌, refl, ap, sym, ◌∙◌, List, [], ◌∷◌, Ordering, lt, eq, gt, ◌⊎◌, inl, inr, Has, here, there,
  Has-cons, Bool-cases,
}
use dv.Common.Text.{Text, text_cmp, text_eq}
use dv.Common.TreeMap.{text_eq_iff}
use dv.Package.Graph.{PackageRequirement}
use dv.Package.Graph.Install.{insert_sorted, sort, dedup, keep_first}

insert_sorted-Has :
    (d : PackageRequirement) (es : List PackageRequirement) {x : PackageRequirement}
    → Has x (d ∷ es)
    → Has x (insert_sorted d es)
unfolding insert_sorted
insert_sorted-Has d [] m = m
insert_sorted-Has d (e ∷ es) {x} m =
    by_order
      (elim (Has-cons m) [
        | inl same ↦ there (insert_sorted-Has d es (rw same here))
        | inr k ↦ elim (Has-cons k) [
          | inl same ↦ rw same here
          | inr old ↦ there (insert_sorted-Has d es (there old))
        ]
      ])
      (text_cmp d.lower_id e.lower_id) refl
  where
    by_order :
        Has x (e ∷ insert_sorted d es)
        → (o : Ordering) → text_cmp d.lower_id e.lower_id ≡ o
        → Has x (insert_sorted d (e ∷ es))
    by_order later lt h = rw (h, insert_sorted) m
    by_order later eq h = rw (h, insert_sorted) m
    by_order later gt h = rw (h, insert_sorted) later

pub sort-Has : (ds : List PackageRequirement) {x : PackageRequirement} → Has x ds → Has x (sort ds)
unfolding sort
sort-Has [] m = m
sort-Has (d ∷ ds) m = elim (Has-cons m) [
  | inl same ↦ insert_sorted-Has d (sort ds) (rw same here)
  | inr later ↦ insert_sorted-Has d (sort ds) (there (sort-Has ds later))
]

-- some requirement of the list has the identity
abbrev pub Names : Text → List PackageRequirement → Type 0
Names id ds = (e : PackageRequirement) × Has e ds × (e.lower_id ≡ id)

keep_first-Names :
    (id : Text) (d : PackageRequirement) (es : List PackageRequirement)
    → (d.lower_id ≡ id) ⊎ Names id es
    → Names id (keep_first d es)
keep_first-Names id d [] (inl e) = (d, here, e)
keep_first-Names id d [] (inr (e, m, same)) = elim m [ ]
keep_first-Names id d (e ∷ es) n = elim (Bool-cases (text_eq d.lower_id e.lower_id)) [
  | inl dup ↦ rw dup (elim n [
    | inl own ↦ (d, here, own)
    | inr (f, m, same) ↦ elim (Has-cons m) [
      | inl head ↦ (
        d,
        here,
        (text_eq_iff d.lower_id e.lower_id).0 dup ∙ sym (ap (λ x. x.lower_id) head) ∙ same,
      )
      | inr later ↦ (f, there later, same)
    ]
  ])
  | inr other ↦
      rw other (elim n [ inl own ↦ (d, here, own) | inr (f, m, same) ↦ (f, there m, same) ])
]

pub dedup-Names : (id : Text) (ds : List PackageRequirement) → Names id ds → Names id (dedup ds)
unfolding dedup
dedup-Names id [] n = n
dedup-Names id (d ∷ ds) (e, m, same) = elim (Has-cons m) [
  | inl head ↦ keep_first-Names id d (dedup ds) (inl (sym (ap (λ x. x.lower_id) head) ∙ same))
  | inr later ↦ keep_first-Names id d (dedup ds) (inr (dedup-Names id ds (e, later, same)))
]
