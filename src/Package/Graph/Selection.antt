-- ===== src/Package/Graph/Selection.antt =====
-- What the choice of a version for one node promises.
use mathlib.Core.Path.{subst}
use dv.Common.{
  ◌≡◌, ◌≢◌, refl, true, false, Option, none, some, List, [], ◌∷◌, ◌⊎◌, All, Has, here, there,
  Bool-cases, inl, inr, arith,
}
use dv.Package.Version.{PackageVersion}
use dv.Package.Version.Order.{cmp-IsOrder}
use dv.Package.Range.{VersionRange, is_better}
use dv.Package.Range.Laws.{is_better_trans, is_better_irrefl}
use dv.Package.Graph.{best_of, pick}
open cmp-IsOrder use {flip, same, trans}

-- The scan under a preference

module _ (r : VersionRange) where
  -- nothing in `vs` is preferred to `v`
  abbrev pub Unbeaten : PackageVersion → List PackageVersion → Type 0
  Unbeaten v = All (λ w. is_better r v w ≡ false)

  Unbeaten-trans :
      (u v : PackageVersion) (seen : List PackageVersion)
      → is_better r u v ≡ true
      → Unbeaten u seen
      → Unbeaten v seen
  Unbeaten-trans u v [] h k = tt
  Unbeaten-trans u v (w ∷ ws) h (p, k) =
      (ground (arith, is_better_trans r u v w h), Unbeaten-trans u v ws h k)

  -- The scan ends at a version of the list, or at the one it began with, to which nothing that was
  -- scanned is preferred.
  best_of-Unbeaten :
      (seen vs : List PackageVersion) (s : PackageVersion)
      → Unbeaten s seen
      → (b : PackageVersion) × (best_of r (some s) vs ≡ some b)
        × Unbeaten b seen
        × Unbeaten b vs
        × ((b ≡ s) ⊎ Has b vs)
  unfolding best_of
  best_of-Unbeaten seen [] s h = (s, refl, h, tt, inl refl)
  best_of-Unbeaten seen (v ∷ vs) s h = elim (Bool-cases (is_better r s v)) [
    | inl better ↦
        let (b, e, old, new, from) =
          best_of-Unbeaten (v ∷ seen) vs v
            (is_better_irrefl r v, Unbeaten-trans s v seen better h) in
        (
          b,
          rw better e,
          old.1,
          (old.0, new),
          inr (elim from [ inl same_v ↦ rw same_v here | inr later ↦ there later ]),
        )
    | inr worse ↦
        let (b, e, old, new, from) = best_of-Unbeaten (v ∷ seen) vs s (worse, h) in
        (
          b,
          rw worse e,
          old.1,
          (old.0, new),
          elim from [ inl same_s ↦ inl same_s | inr later ↦ inr (there later) ],
        )
  ]

-- The same for a scan that begins with nothing.
pick-some :
    (r : VersionRange) (v : PackageVersion) (vs : List PackageVersion)
    → (b : PackageVersion) × (pick (some r) (v ∷ vs) ≡ some b)
      × Unbeaten r b (v ∷ vs)
      × Has b (v ∷ vs)
unfolding best_of
pick-some r v vs =
    let (b, e, old, new, from) = best_of-Unbeaten r (v ∷ []) vs v (is_better_irrefl r v, tt) in
    (b, e, (old.0, new), elim from [ inl first ↦ rw first here | inr later ↦ there later ])

-- What `pick` answers for a list of accepted versions.
pub pick-ne-none :
    (o : Option VersionRange) (v : PackageVersion) (vs : List PackageVersion)
    → pick o (v ∷ vs) ≢ none
pick-ne-none none v vs h = cc
pick-ne-none (some r) v vs h = let p = pick-some r v vs in cc (p.1, h)

pub pick-Has :
    (o : Option VersionRange) (vs : List PackageVersion) (b : PackageVersion)
    → pick o vs ≡ some b
    → Has b vs
pick-Has none [] b h = cc
pick-Has none (v ∷ vs) b h = let e : b ≡ v = cc h in rw e here
pick-Has (some r) [] b h = absurd (nothing h)
  where
    nothing : best_of r none [] ≡ some b → ⊥
    nothing k = unfold best_of in cc k
pick-Has (some r) (v ∷ vs) b h =
    let p = pick-some r v vs in let e : p.0 ≡ b = cc (p.1, h) in subst (λ c. Has c (v ∷ vs)) e p.3

pub pick-Unbeaten :
    (r : VersionRange) (vs : List PackageVersion) (b : PackageVersion)
    → pick (some r) vs ≡ some b
    → Unbeaten r b vs
pick-Unbeaten r [] b h = tt
pick-Unbeaten r (v ∷ vs) b h =
    let p = pick-some r v vs in
    let e : p.0 ≡ b = cc (p.1, h) in subst (λ c. Unbeaten r c (v ∷ vs)) e p.2
