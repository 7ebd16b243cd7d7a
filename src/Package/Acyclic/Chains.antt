-- ===== src/Package/Acyclic/Chains.antt =====
-- Chains of dependencies, for `validate_acyclic` of crates/dv-core/src/package.rs.
use mathlib.Core.Path.{subst}
use dv.Common.{◌≡◌, refl, sym, List, ◌⊎◌, inl, inr, Has}
use dv.Common.Text.{Text}

module _ (out : Text → List Text) where
  -- a chain of one dependency or more
  pub data Reach (a : Text) : Text → Type 0 where
    one : {b : Text} → Has b (out a) → Reach a b
    more : {b c : Text} → Reach a b → Has c (out b) → Reach a c

  -- no chain of dependencies goes on for ever
  pub data Grounded : Text → Type 0 where
    grounded : {a : Text} → ((d : Text) → Has d (out a) → Grounded d) → Grounded a

module _ {out : Text → List Text} where
  before : {a b c : Text} → Has b (out a) → Reach out b c → Reach out a c
  before h (one k) = more (one h) k
  before h (more r k) = more (before h r) k

  -- The first dependency of a chain, and what is left of the chain.
  pub first : {a c : Text} → Reach out a c → (d : Text) × Has d (out a) × ((d ≡ c) ⊎ Reach out d c)
  first (one k) = (_, k, inl refl)
  first (more r k) =
      let (d, h, rest) = first r in
      (d, h, elim rest [ inl e ↦ inr (one (rw e k)) | inr s ↦ inr (more s k) ])

  pub Grounded→acyclic : (a : Text) → Grounded out a → ¬ Reach out a a
  Grounded→acyclic a (grounded f) r =
      let (d, h, rest) = first r in
      elim rest [
        | inl e ↦ Grounded→acyclic d (f d h) (one (subst (λ x. Has d (out x)) (sym e) h))
        | inr s ↦ Grounded→acyclic d (f d h) (more s h)
      ]
