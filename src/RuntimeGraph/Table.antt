-- ===== src/RuntimeGraph/Table.antt =====
-- The text table of crates/dv-core/src/runtime_graph.rs keeps what is pushed.
use mathlib.Core.Path.{ap₂}
use dv.Common.{ℕ, ◌+◌, ◌≡◌, ap, sym, ◌∙◌, ◌++◌, arith}
use dv.Common.Text.{Text, len, drop_bytes}
use dv.Common.Cut.{drop_bytes-append}
use dv.Common.Ends.{take_bytes-append, take_bytes-all}
use dv.Common.Result.{Result, ok, >>=-eq-ok}
use dv.RuntimeGraph.{RuntimeGraphError, TextSpan, u32_len, push, get_text}

u32_len-ok : (n m : ℕ) → u32_len n ≡ ok m → n ≡ m
unfolding u32_len
u32_len-ok n m h = ground arith

ok_pair :
    (p q : Text × TextSpan)
    → ◌≡◌ {A = Result RuntimeGraphError (Text × TextSpan)} (ok p) (ok q)
    → p ≡ q
ok_pair p q h = cc h

pushed :
    (value text : Text) (start size : ℕ) (r : Text × TextSpan)
    → len text ≡ start
    → len value ≡ size
    → (text ++ value, record { start = start; len = size }) ≡ r
    → (r.0 ≡ text ++ value) × (r.1 ≡ record { start = len text; len = len value })
pushed value text start size r e f h = (
  sym (ap (λ p. p.0) h),
  sym (ap (λ p. p.1) h) ∙ ap₂ (λ a b. record { start = a; len = b }) (sym e) (sym f),
)

-- What a push gives, where it gives something.
push-ok :
    (value text after : Text) (span : TextSpan)
    → push value text ≡ ok (after, span)
    → (after ≡ text ++ value) × (span ≡ record { start = len text; len = len value })
unfolding push
push-ok value text after span h =
    let (start, e, h2) = >>=-eq-ok (u32_len (len text)) _ (after, span) h in
    let (size, e2, h3) = >>=-eq-ok (u32_len (len value)) _ (after, span) h2 in
    let (end, e3, h4) = >>=-eq-ok (u32_len (start + size)) _ (after, span) h3 in
    pushed value text start size (after, span) (u32_len-ok (len text) start e)
      (u32_len-ok (len value) size e2) (ok_pair _ (after, span) h4)

-- What is pushed on the table is read back by its span.
pub get_text-push :
    (value text after : Text) (span : TextSpan)
    → push value text ≡ ok (after, span)
    → get_text after span ≡ value
unfolding get_text
get_text-push value text after span h =
    let (at_end, spanned) = push-ok value text after span h in
    ap₂ get_text at_end spanned
    ∙ ap (drop_bytes (len text))
        (take_bytes-append text value (len value) ∙ ap (λ t. text ++ t) (take_bytes-all value))
    ∙ drop_bytes-append text value
