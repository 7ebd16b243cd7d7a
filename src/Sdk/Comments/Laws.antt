-- ===== src/Sdk/Comments/Laws.antt =====
-- What `strip_json_comments` of crates/dv-core/src/sdk.rs keeps.
use mathlib.Core.Path.{subst}
use dv.Common.{
  ℕ, ◌≡◌, ◌≢◌, refl, Bool, true, false, Option, none, some, [], ◌∷◌, ◌==◌, Bool-cases, inl, inr,
  arith,
}
use dv.Sdk.Comments.{
  Bytes, Mode, plain, in_string, escaped, line_comment, block_comment, push, blank, pair_is, strip,
  strip_json_comments,
}

-- `Blanked s t`: `t` is `s` with some bytes other than line feeds replaced by a space.
pub data Blanked : Bytes → Bytes → Type 0 where
  done : Blanked [] []
  kept : {s t : Bytes} (b : ℕ) → Blanked s t → Blanked (b ∷ s) (b ∷ t)
  blanked : {s t : Bytes} (b : ℕ) → b ≢ b'\n' → Blanked s t → Blanked (b ∷ s) (b' ' ∷ t)

-- what is shown of a result of the pass, where there is one
abbrev Fine : Bytes → Option Bytes → Type 0
Fine s none = Bytes
Fine s (some t) = Blanked s t

push-kept : (b : ℕ) (s : Bytes) (o : Option Bytes) → Fine s o → Fine (b ∷ s) (push b o)
push-kept b s none f = []
push-kept b s (some t) f = kept b f

push-blanked :
    (b : ℕ) (s : Bytes) (o : Option Bytes) → b ≢ b'\n' → Fine s o → Fine (b ∷ s) (push b' ' o)
push-blanked b s none n f = []
push-blanked b s (some t) n f = blanked b n f

push-blank : (b : ℕ) (s : Bytes) (o : Option Bytes) → Fine s o → Fine (b ∷ s) (push (blank b) o)
push-blank b s o f = elim (Bool-cases (b == b'\n')) [
  | inl feed ↦
      let e : b ≡ b'\n' = ground arith in
      rw feed (subst (λ x. Fine (b ∷ s) (push x o)) e (push-kept b s o f))
  | inr other ↦ rw other (push-blanked b s o (ground arith) f)
]

-- A branch of the pass is fine where each side is, given the answer of the test.
branch :
    (test : Bool) (s : Bytes) (x y : Option Bytes)
    → (test ≡ true → Fine s x)
    → (test ≡ false → Fine s y)
    → Fine s (elim test [ true ↦ x | false ↦ y ])
branch true s x y f g = f refl
branch false s x y f g = g refl

-- the two bytes of a delimiter and what follows them in the mode `m`
delimiter :
    (x y b c : ℕ) (s : Bytes) (o : Option Bytes)
    → x ≢ b'\n'
    → y ≢ b'\n'
    → Fine s o
    → pair_is x y b c ≡ true
    → Fine (b ∷ c ∷ s) (push b' ' (push b' ' o))
unfolding pair_is
delimiter x y b c s o n m f h =
    push-blanked b (c ∷ s) (push b' ' o) (ground arith) (push-blanked c s o (ground arith) f)

strip-Fine : (m : Mode) (s : Bytes) → Fine s (strip m s)
unfolding strip
strip-Fine block_comment [] = []
strip-Fine plain [] = done
strip-Fine in_string [] = done
strip-Fine escaped [] = done
strip-Fine line_comment [] = done
strip-Fine in_string (b ∷ s) =
    branch (b == b'\\') (b ∷ s) _ _ (λ h. push-kept b s (strip escaped s) (strip-Fine escaped s))
      (λ h.
        branch (b == b'"') (b ∷ s) _ _ (λ k. push-kept b s (strip plain s) (strip-Fine plain s))
          (λ k. push-kept b s (strip in_string s) (strip-Fine in_string s)))
strip-Fine escaped (b ∷ s) = push-kept b s (strip in_string s) (strip-Fine in_string s)
strip-Fine line_comment (b ∷ s) =
    branch (b == b'\n') (b ∷ s) _ _ (λ h. push-kept b s (strip plain s) (strip-Fine plain s))
      (λ h. push-blanked b s (strip line_comment s) (ground arith) (strip-Fine line_comment s))
strip-Fine block_comment (b ∷ []) = []
strip-Fine block_comment (b ∷ c ∷ s) =
    branch (pair_is b'*' b'/' b c) (b ∷ c ∷ s) _ _
      (delimiter b'*' b'/' b c s (strip plain s) (omega arith) (omega arith) (strip-Fine plain s))
      (λ h. push-blank b (c ∷ s) (strip block_comment (c ∷ s)) (strip-Fine block_comment (c ∷ s)))
strip-Fine plain (b ∷ []) = kept b done
strip-Fine plain (b ∷ c ∷ s) =
    branch (b == b'"') (b ∷ c ∷ s) _ _
      (λ h. push-kept b (c ∷ s) (strip in_string (c ∷ s)) (strip-Fine in_string (c ∷ s)))
      (λ h.
        branch (pair_is b'/' b'/' b c) (b ∷ c ∷ s) _ _
          (delimiter b'/' b'/' b c s (strip line_comment s) (omega arith) (omega arith)
            (strip-Fine line_comment s))
          (λ k.
            branch (pair_is b'/' b'*' b c) (b ∷ c ∷ s) _ _
              (delimiter b'/' b'*' b c s (strip block_comment s) (omega arith) (omega arith)
                (strip-Fine block_comment s))
              (λ l. push-kept b (c ∷ s) (strip plain (c ∷ s)) (strip-Fine plain (c ∷ s)))))

-- Where the comments of a text are stripped, the output has the bytes of the text in their places, but
-- that some of them, none a line feed, are spaces.
pub strip-Blanked :
    (input output : Bytes) → strip_json_comments input ≡ some output → Blanked input output
unfolding strip_json_comments
strip-Blanked input output h = subst (Fine input) h (strip-Fine plain input)
