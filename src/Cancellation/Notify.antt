-- ===== src/Cancellation/Notify.antt =====
-- What crates/dv-core/src/cancellation.rs relies on of `tokio::sync::Notify`.
use dv.Common.{ℕ, suc, ◌≤◌, ◌≡◌, Bool, true, ltb, arith}

-- A ticket stands for a `Notified` future: `notify_waiters` wakes every future that was made before it.
pub record Notify : Type 1 where
  pub State : Type 0
  pub Ticket : Type 0
  pub fresh : State
  pub notified : State → Ticket
  pub notify_waiters : State → State
  pub woken : State → Ticket → Bool
  -- the ticket was made in this state or in an earlier one
  pub Issued : State → Ticket → Type 0
  pub issued_now : (n : State) → Issued n (notified n)
  pub issued_later : (n : State) (t : Ticket) → Issued n t → Issued (notify_waiters n) t
  pub wakes : (n : State) (t : Ticket) → Issued n t → woken (notify_waiters n) t ≡ true

pub counter_wakes : (n t : ℕ) → t ≤ n → ltb t (suc n) ≡ true
counter_wakes n t h = ground (arith, h)

-- An instance: the number of the calls so far.
abbrev pub counter : Notify
counter = record {
  State = ℕ;
  Ticket = ℕ;
  fresh = 0;
  notified = λ n. n;
  notify_waiters = suc;
  woken = λ n t. ltb t n;
  Issued = λ n t. t ≤ n;
  issued_now = λ n. omega arith;
  issued_later = λ n t h. omega (arith, h);
  wakes = counter_wakes;
}
