-- ===== src/Project/Condition/Ends.antt =====
-- The evaluation of conditions in crates/dv-core/src/project.rs comes to an end.
use dv.Common.{
  ℕ, zero, suc, ◌+◌, ◌-◌, ◌≤◌, ◌≡◌, ◌≢◌, refl, Bool, true, false, ◌&&◌, ◌||◌, Option, none, some,
  [], ◌∷◌, length, take, drop, ◌==◌, if◌then◌else◌, if_either, option_either, ◌∙◌, ltb, not, arith,
}
use mathlib.Core.Path.{subst}
use dv.Common.Text.{Text, codes, is_empty, len, trim_start, eq_ignore_case}
use dv.Common.Result.{ok, err, Holds, Holds-map}
use dv.Project.{Fallible}
use dv.Project.Condition.{
  ReferenceConditionContext, Parser, moved, skip_whitespace, consume_text, consume_keyword,
  is_space, word_ends, parse_comparison, enter_nested, unsupported,
}
use dv.Project.Condition.Left.{
  length-trim_start, length-drop, LeftState, consume_text-LeftState, Within, parse_comparison-Holds,
}
use dv.Project.Condition.Evaluation.{
  and_then, Rule, operands, chain, parse_and, parse_or, leave, closed, nested, parse_unary,
  complete, evaluate, is_ascii,
}

-- The parser answers.
abbrev Answers : {A : Type 0} → (A → Type 0) → Option (Fallible A) → Type 0
Answers P none = ⊥
Answers P (some r) = Holds P r

Answers-and_then :
    {A B : Type 0} (P : A → Type 0) (Q : B → Type 0) (m : Option (Fallible A))
    (f : A → Option (Fallible B))
    → Answers P m
    → ((a : A) → P a → Answers Q (f a))
    → Answers Q (and_then m f)
Answers-and_then P Q none f h k = absurd h
Answers-and_then P Q (some (ok a)) f h k = k a h
Answers-and_then P Q (some (err e)) f h k = tt

Answers-map :
    {A : Type 0} (P Q : A → Type 0) (m : Option (Fallible A))
    → Answers P m
    → ((a : A) → P a → Q a)
    → Answers Q m
Answers-map P Q none h k = absurd h
Answers-map P Q (some (ok a)) h k = k a h
Answers-map P Q (some (err e)) h k = tt

-- A rule that answers on every state of a depth, and leaves no more text.
abbrev Fine : ℕ → Rule → Type 0
Fine d rule = (s : Parser) → s.depth ≡ d → Answers (Within (length s.rest) d) (rule s)

-- A word that is consumed leaves less text.
abbrev Shorter : ℕ → ℕ → Option Parser → Type 0
Shorter n d none = Unit {0}
Shorter n d (some t) = (length t.rest + 1 ≤ n) × (t.depth ≡ d)

cut :
    (c : ℕ) (word : Text) (s : Parser) (n : ℕ) (r : Text)
    → length r ≤ n
    → Shorter n s.depth (
        if eq_ignore_case (take (suc (length word)) r) (c ∷ word)
          && word_ends (drop (suc (length word)) r)
        then some (moved s (drop (suc (length word)) r))
        else none)
unfolding eq_ignore_case
cut c word s n [] h = tt
cut c word s n (x ∷ r) h =
    if_either (Shorter n s.depth) _ (some (moved s (drop (length word) r))) none
      (λ _. (omega (arith, h, length-drop (length word) r), refl)) (λ _. tt)

consume_keyword-LeftState :
    (c : ℕ) (word : Text) (s : Parser) (n : ℕ)
    → length s.rest ≤ n
    → Shorter n s.depth (consume_keyword (c ∷ word) s)
unfolding consume_keyword
consume_keyword-LeftState c word s n h =
    cut c word s n (trim_start is_space s.rest)
      (omega (arith, h, length-trim_start is_space s.rest))

operands-Fine :
    (c : ℕ) (word : Text) (combine : Bool → Bool → Bool) (d : ℕ) (item : Rule)
    → Fine d item
    → (fuel : ℕ) (value : Bool) (s : Parser) → s.depth ≡ d
    → length s.rest + 1 ≤ fuel
    → Answers (Within (length s.rest) d) (operands (c ∷ word) combine item fuel value s)
unfolding operands
operands-Fine c word combine d item fine zero value s e enough = omega (arith, enough)
operands-Fine c word combine d item fine (suc fuel) value s e enough =
    let n = length s.rest in
    option_either (Answers (Within n d)) (consume_keyword (c ∷ word) s) _ _ (λ _. (omega arith, e))
      (λ t h.
        let (l, k) =
          subst (Shorter n s.depth) h (consume_keyword-LeftState c word s n (omega arith)) in
        Answers-and_then (Within (length t.rest) d) (Within n d) (item t) _ (fine t (k ∙ e))
          (λ (right, u) (m, q).
            Answers-map (Within (length u.rest) d) (Within n d) _
              (operands-Fine c word combine d item fine fuel (combine value right) u q
                (omega (arith, m, l, enough)))
              (λ (v, x) (a, b). (omega (arith, a, m, l), b))))

chain-Fine :
    (c : ℕ) (word : Text) (combine : Bool → Bool → Bool) (d : ℕ) (item : Rule)
    → Fine d item
    → Fine d (chain (c ∷ word) combine item)
chain-Fine c word combine d item fine s e =
    Answers-and_then (Within (length s.rest) d) (Within (length s.rest) d) (item s) _ (fine s e)
      (λ (value, t) (h, k).
        Answers-map (Within (length t.rest) d) (Within (length s.rest) d) _
          (operands-Fine c word combine d item fine (suc (length t.rest)) value t k (omega arith))
          (λ (v, x) (a, b). (omega (arith, a, h), b)))

nested-Answers :
    (rule : Rule) (d n : ℕ) (t : Parser)
    → ((s : Parser)
        → d + 1 ≤ 8
        → s.depth ≡ d + 1
        → Answers (Within (length s.rest) (d + 1)) (rule s))
    → length t.rest ≤ n
    → t.depth ≡ d
    → d ≤ 8
    → Answers (Within n (d + 1)) (nested rule (enter_nested t))
nested-Answers rule d n t h l e k = rested (t.depth == 8) refl
  where
    rested :
        (b : Bool)
        → (t.depth == 8) ≡ b
        → Answers
            (Within n (d + 1))
            (nested rule (if b then unsupported else ok (record t { depth = t.depth + 1 })))
    rested true q = tt
    rested false q =
        Answers-map (Within (length t.rest) (d + 1)) (Within n (d + 1))
          (rule (record t { depth = t.depth + 1 }))
          (h (record t { depth = t.depth + 1 }) (ground (arith, q, e, k)) (omega (arith, e)))
          (λ (v, x) (a, b). (omega (arith, a, l), b))

-- `closed` after the state that a nested expression leaves
closed-Holds :
    (value : Bool) (n d : ℕ) (o : Option Parser)
    → LeftState n d o
    → Holds (Within n d) (closed value o)
closed-Holds value n d none h = tt
closed-Holds value n d (some t) h = h

LeftState-weaker :
    (m n d d' : ℕ) (o : Option Parser) → LeftState m d o → m ≤ n → d ≡ d' → LeftState n d' o
LeftState-weaker m n d d' none h l e = tt
LeftState-weaker m n d d' (some t) (h, k) l e = (omega (arith, h, l), k ∙ e)

consumed :
    (value : Text) (s t : Parser)
    → consume_text value (skip_whitespace s) ≡ some t
    → (length t.rest ≤ length s.rest) × (t.depth ≡ s.depth)
consumed value s t h =
    let (a, b) =
      subst (LeftState (length (skip_whitespace s).rest) s.depth) h
        (consume_text-LeftState value (skip_whitespace s)) in
    (omega (arith, a, length-trim_start is_space s.rest), b)

-- Enough fuel: the nesting that is left.
parse_unary-Fine :
    (context : ReferenceConditionContext) (fuel d : ℕ)
    → d ≤ 8
    → 9 ≤ fuel + d
    → Fine d (parse_unary context fuel)
unfolding parse_unary
parse_unary-Fine context zero d h k s e = omega (arith, h, k)
parse_unary-Fine context (suc fuel) d h k s e =
    let n = length s.rest in
    let w = skip_whitespace s in
    let deeper : (r : Parser)
        → d + 1 ≤ 8
        → r.depth ≡ d + 1
        → Answers (Within (length r.rest) (d + 1)) (parse_unary context fuel r) =
      λ r l m. parse_unary-Fine context fuel (d + 1) l (omega (arith, k)) r m in
    option_either (Answers (Within n d)) (consume_text (codes "!") w) _ _
      (λ _.
        option_either (Answers (Within n d)) (consume_text (codes "(") w) _ _
          (λ _.
            Holds-map (Within (length w.rest) s.depth) (Within n d) (parse_comparison context w)
              (parse_comparison-Holds context w)
              (λ (v, x) (a, b). (omega (arith, a, length-trim_start is_space s.rest), b ∙ e)))
          (λ t q.
            let (l, m) = consumed (codes "(") s t q in
            Answers-and_then (Within n (d + 1)) (Within n d) _ _
              (nested-Answers (parse_or (parse_unary context fuel)) d n t (or_deeper deeper) l
                (m ∙ e) h)
              (λ (value, u) (a, b).
                closed-Holds value n d (consume_text (codes ")") (skip_whitespace (leave u))) (
                  LeftState-weaker (length (skip_whitespace (leave u)).rest) n (u.depth - 1) d _
                    (consume_text-LeftState (codes ")") (skip_whitespace (leave u)))
                    (omega (arith, a, length-trim_start is_space u.rest)) (omega (arith, b))))))
      (λ t q.
        let (l, m) = consumed (codes "!") s t q in
        Answers-and_then (Within n (d + 1)) (Within n d) _ _
          (nested-Answers (parse_unary context fuel) d n t deeper l (m ∙ e) h)
          (λ (value, u) (a, b). (a, omega (arith, b))))
  where
    or_deeper :
        ((r : Parser)
          → d + 1 ≤ 8
          → r.depth ≡ d + 1
          → Answers (Within (length r.rest) (d + 1)) (parse_unary context fuel r))
        → (r : Parser) → d + 1 ≤ 8
        → r.depth ≡ d + 1
        → Answers (Within (length r.rest) (d + 1)) (parse_or (parse_unary context fuel) r)
    or_deeper g r l m =
        chain-Fine b'O' (codes "r") (λ v w. v || w) (d + 1) (parse_and (parse_unary context fuel))
          (chain-Fine b'A' (codes "nd") (λ v w. v && w) (d + 1) (parse_unary context fuel)
            (λ x y. g x l y))
          r m

top :
    (context : ReferenceConditionContext) (input : Text)
    → Answers
        (Within (length input) 0)
        (parse_or (parse_unary context 9) (record { rest = input; comparisons = 0; depth = 0 }))
top context input =
    chain-Fine b'O' (codes "r") (λ v w. v || w) 0 (parse_and (parse_unary context 9))
      (chain-Fine b'A' (codes "nd") (λ v w. v && w) 0 (parse_unary context 9)
        (parse_unary-Fine context 9 0 (omega arith) (omega arith)))
      (record { rest = input; comparisons = 0; depth = 0 }) refl

-- The evaluation of a condition always comes to an end, for every text and context.
pub evaluate_total :
    (context : ReferenceConditionContext) (input : Text) → evaluate context input ≢ none
unfolding evaluate
evaluate_total context input = answers→≢ _ (
    if_either (Answers (λ _. Unit {0})) (ltb 1024 (len input)) _ _ (λ h. tt)
      (λ h.
        if_either (Answers (λ _. Unit {0})) (not (is_ascii input)) _ _ (λ k. tt)
          (λ k.
            Answers-and_then (Within (length input) 0) (λ _. Unit {0}) _ _ (top context input)
              (λ (v, t) m. done (v, t)))))
  where
    answers→≢ : (m : Option (Fallible Bool)) → Answers (λ _. Unit {0}) m → m ≢ none
    answers→≢ none h e = h
    answers→≢ (some r) h e = cc

    done : (r : Bool × Parser) → Answers (λ _. Unit {0}) (some (complete r))
    done (v, t) =
        if_either (Holds (λ _. Unit {0})) (is_empty (skip_whitespace t).rest) (ok v) unsupported
          (λ h. tt) (λ h. tt)
