-- ===== src/Package/Graph/Install/Queued.antt =====
-- The constraints that `install_node_dependencies` of crates/dv-core/src/package.rs leaves.
use mathlib.Core.Path.{subst}
use dv.Common.{
  ◌≡◌, refl, ap, sym, ◌∙◌, true, false, Option, none, some, List, [], ◌∷◌, ◌⊎◌, inl, inr, Has, here,
  there, Has-cons, Bool-cases, arith,
}
use dv.Common.Text.{Text, text_eq}
use dv.Common.TreeMap.{
  TreeSet, get, modify, holds, get-put, get-modify, holds-add, text_eq_iff, text_eq_refl,
}
use dv.Common.Result.{ok}
use dv.Package.Error.{Fallible}
use dv.Package.Version.{PackageVersion}
use dv.Package.Graph.{ConstraintNode, Nodes, PackageRequirement, CentralPackagePin}
use dv.Package.Graph.Install.{
  sort, clash, dedup, central_pin_of, constrain, entry, fresh_node, has_metadata, install_one,
  install_each, with_metadata, with_dependencies, finish_install, install_deduped,
  install_node_dependencies, unless_clash,
}
use dv.Package.Graph.Install.Laws.{Names, sort-Has, dedup-Names}
use dv.Package.Graph.Marking.Keeps.{mark_descendants-holds}

-- The node of `id` is there and holds, for the parent, the range of one of the parent's requirements
-- of that identity.
abbrev pub IsConstrained : Text → List PackageRequirement → Text → Nodes → Type 0
IsConstrained lower_id ds id nodes =
    (child : ConstraintNode) × (e : PackageRequirement) × (get id nodes ≡ some child)
    × Has e ds
    × (e.lower_id ≡ id)
    × (get lower_id child.constraints ≡ some e.range)

abbrev pub IsQueued : Text → List PackageRequirement → Text → Nodes × TreeSet → Type 0
IsQueued lower_id ds id (nodes, dirty) =
    IsConstrained lower_id ds id nodes × (holds id dirty ≡ true)

module _ (lower_id : Text) (pins : List CentralPackagePin) (all_ds : List PackageRequirement)
    (id : Text) where
  abbrev pin : PackageRequirement → Option PackageVersion
  pin d = central_pin_of pins d.lower_id

  one-adds :
      (d : PackageRequirement) (s : Nodes × TreeSet)
      → Has d all_ds
      → d.lower_id ≡ id
      → IsQueued lower_id all_ds id (install_one lower_id pins d s)
  unfolding install_one
  one-adds d (nodes, dirty) m same = (
    (
      constrain lower_id d (pin d) (entry (get d.lower_id nodes) (fresh_node d (pin d))),
      d,
      get-put d.lower_id id _ nodes ∙ rw ((text_eq_iff d.lower_id id).1 same) refl,
      m,
      same,
      get-put lower_id lower_id d.range _ ∙ rw (text_eq_refl lower_id) refl,
    ),
    holds-add d.lower_id id _ ∙ rw ((text_eq_iff d.lower_id id).1 same) refl,
  )

  one-keeps :
      (d : PackageRequirement) (s : Nodes × TreeSet)
      → Has d all_ds
      → text_eq d.lower_id id ≡ false
      → IsQueued lower_id all_ds id s
      → IsQueued lower_id all_ds id (install_one lower_id pins d s)
  unfolding install_one
  one-keeps d (nodes, dirty) m other ((child, e, at_child, n, named, held), queued) = (
    (child, e, get-put d.lower_id id _ nodes ∙ rw other at_child, n, named, held),
    holds-add d.lower_id id _
        ∙ rw other (elim (Bool-cases (has_metadata (get d.lower_id nodes))) [
          | inl has ↦ rw has (mark_descendants-holds nodes d.lower_id dirty id queued)
          | inr without ↦ rw without queued
        ]),
  )

  each-IsQueued :
      (ds : List PackageRequirement) (s : Nodes × TreeSet)
      → ((e : PackageRequirement) → Has e ds → Has e all_ds)
      → IsQueued lower_id all_ds id s ⊎ Names id ds
      → IsQueued lower_id all_ds id (install_each lower_id pins ds s)
  unfolding install_each
  each-IsQueued [] s sub (inl q) = q
  each-IsQueued [] s sub (inr (e, m, same)) = elim m [ ]
  each-IsQueued (d ∷ ds) s sub n =
      each-IsQueued ds (install_one lower_id pins d s) (λ e m. sub e (there m))
        (elim (Bool-cases (text_eq d.lower_id id)) [
          | inl same ↦ inl (one-adds d s (sub d here) ((text_eq_iff d.lower_id id).0 same))
          | inr other ↦ elim n [
            | inl q ↦ inl (one-keeps d s (sub d here) other q)
            | inr (e, m, same) ↦ elim (Has-cons m) [
              | inl head ↦ inl (one-adds d s (sub d here) (sym (ap (λ x. x.lower_id) head) ∙ same))
              | inr later ↦ inr (e, later, same)
            ]
          ]
        ])

  finish-IsQueued :
      (ds : List PackageRequirement) (s : Nodes × TreeSet)
      → IsQueued lower_id all_ds id s
      → IsQueued lower_id all_ds id (finish_install lower_id ds s)
  finish-IsQueued ds (nodes, dirty) ((child, e, at_child, n, named, held), queued) = (
    elim (Bool-cases (text_eq lower_id id)) [
      | inl own ↦ (
        with_dependencies ds child,
        e,
        get-modify lower_id id (with_dependencies ds) nodes ∙ rw (own, at_child) refl,
        n,
        named,
        held,
      )
      | inr other ↦ (
        child,
        e,
        get-modify lower_id id (with_dependencies ds) nodes ∙ rw other at_child,
        n,
        named,
        held,
      )
    ],
    queued,
  )

unless_clash-ok :
    (c : Option PackageRequirement) (r : Fallible (Nodes × TreeSet)) {t : Nodes × TreeSet}
    → unless_clash c r ≡ ok t
    → r ≡ ok t
unless_clash-ok none r h = h
unless_clash-ok (some d) r h = cc h

-- the installation for the current generation
deduped-current :
    (lower_id : Text) (node : ConstraintNode) (ds : List PackageRequirement)
    (pins : List CentralPackagePin) (nodes : Nodes) (dirty : TreeSet)
    → install_deduped lower_id node.generation ds pins (some node) (nodes, dirty)
      ≡ ok (
          finish_install lower_id ds
            (install_each lower_id pins ds (modify lower_id with_metadata nodes, dirty)))
unfolding install_deduped
deduped-current lower_id node ds pins nodes dirty = ground arith

-- Where the requirements of a node are installed for its current generation, the identity of each of
-- them has a node that holds, under the installed node, the range of a requirement of that identity,
-- and is dirty.
pub install-IsQueued :
    (lower_id : Text) (dependencies : List PackageRequirement) (pins : List CentralPackagePin)
    (node : ConstraintNode) (s t : Nodes × TreeSet) (d : PackageRequirement)
    → get lower_id s.0 ≡ some node
    → install_node_dependencies lower_id node.generation dependencies pins s ≡ ok t
    → Has d dependencies
    → IsQueued lower_id (dedup (sort dependencies)) d.lower_id t
unfolding install_node_dependencies
install-IsQueued lower_id dependencies pins node (nodes, dirty) t d at_node h m =
    let ds = dedup (sort dependencies) in
    let start : Nodes × TreeSet = (modify lower_id with_metadata nodes, dirty) in
    let installed = install_each lower_id pins ds start in
    let e : install_deduped lower_id node.generation ds pins (some node) (nodes, dirty) ≡ ok t =
      subst (λ o. install_deduped lower_id node.generation ds pins o (nodes, dirty) ≡ ok t) at_node
        (unless_clash-ok (clash (sort dependencies)) _ h) in
    let same : finish_install lower_id ds installed ≡ t =
      cc (sym (deduped-current lower_id node ds pins nodes dirty) ∙ e) in
    subst (IsQueued lower_id ds d.lower_id) same (
      finish-IsQueued lower_id pins ds d.lower_id ds installed (
        each-IsQueued lower_id pins ds d.lower_id ds start (λ x k. k)
          (inr (dedup-Names d.lower_id (sort dependencies) (d, sort-Has dependencies m, refl)))))
