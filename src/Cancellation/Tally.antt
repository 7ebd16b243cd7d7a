-- ===== src/Cancellation/Tally.antt =====
-- Where the threads of crates/dv-core/src/cancellation.rs stand, counted, and what the counts keep to
-- in every schedule.
use dv.Common.{
  ℕ, zero, suc, ◌+◌, ◌≤◌, ◌<◌, ◌≡◌, true, false, some, List, [], ◌∷◌, get_elem?, set, if◌then◌else◌,
  ◌⊎◌, inl, inr, Option-cases, arith,
}
use dv.Cancellation.{no_request, CancellationState, elapsed_us}
use dv.Cancellation.Notify.{Notify}
use dv.Cancellation.Threads.{
  Thread, exchanging, raising, escalating, notifying, ended, checking, registering, rechecking,
  awaiting, returned, System, act, turn, run,
}

pub elapsed_us_lt : (micros : ℕ) → elapsed_us micros < no_request
unfolding elapsed_us
elapsed_us_lt micros = omega arith

module _ {A : Type 0} where
  abbrev pub count : (A → ℕ) → List A → ℕ
  count w [] = 0
  count w (t ∷ ts) = w t + count w ts

  pub count-set :
      (w : A → ℕ) (ts : List A) (i : ℕ) (t u : A)
      → get_elem? ts i ≡ some t
      → count w (set ts i u) + w t ≡ count w ts + w u
  count-set w [] i t u h = cc
  count-set w (x ∷ ts) zero t u h = let e : x ≡ t = cc h in rw e (omega arith)
  count-set w (x ∷ ts) (suc i) t u h = omega (arith, count-set w ts i t u h)

module _ (notify : Notify) where
  -- `request` calls and all signals that have not started, and threads at a place.
  abbrev pub requests : Thread notify → ℕ
  requests (exchanging escalates micros) = if escalates then 1 else 0
  requests t = 0

  abbrev pub signals : Thread notify → ℕ
  signals (exchanging escalates micros) = 1
  signals t = 0

  abbrev pub raisers : Thread notify → ℕ
  raisers raising = 1
  raisers t = 0

  abbrev pub escalators : Thread notify → ℕ
  escalators escalating = 1
  escalators t = 0

  abbrev pub notifiers : Thread notify → ℕ
  notifiers notifying = 1
  notifiers t = 0

  abbrev pub ends : Thread notify → ℕ
  ends ended = 1
  ends t = 0

pub record Places : Type 0 where
  pub pend : ℕ
  pub sig : ℕ
  pub raising : ℕ
  pub escalating : ℕ
  pub notifying : ℕ
  pub ended : ℕ

module _ (notify : Notify) where
  abbrev pub places : List (Thread notify) → Places
  places ts = record {
    pend = count (requests notify) ts;
    sig = count (signals notify) ts;
    raising = count (raisers notify) ts;
    escalating = count (escalators notify) ts;
    notifying = count (notifiers notify) ts;
    ended = count (ends notify) ts;
  }

-- The state and the numbers of threads at each place, for `r` calls of `request` among `s` signals.
pub record Tallied (r s q p : ℕ) (n : Places) : Type 0 where
  pub phase_le : p ≤ 2
  pub requested_le : q ≤ no_request
  pub total : n.sig + n.raising + n.escalating + n.notifying + n.ended ≡ s
  pub unset : (q < no_request) ⊎ (p + n.raising + n.escalating + n.notifying + n.ended ≤ 0)
  pub raised : (q ≡ no_request) ⊎ (1 ≤ p + n.raising)
  pub pending :
      (r ≤ n.pend) ⊎ ((q < no_request) × (r ≤ n.pend + 1)) ⊎ (2 ≤ p + n.escalating + n.escalating)
  pub when_forced : (p + n.escalating + n.escalating ≤ 1) ⊎ ((n.sig + 2 ≤ s) × (n.pend + 1 ≤ r))
  pub left : (q ≡ no_request) ⊎ (n.sig + 1 ≤ s)
  pub within : n.pend ≤ r

module _ (notify : Notify) (r s : ℕ) where
  abbrev pub Tally : CancellationState → List (Thread notify) → Type 0
  Tally c ts = Tallied r s c.requested_elapsed_us c.phase (places notify ts)

  kept :
      (c : CancellationState) (w : notify.State) (t : Thread notify) (n m : Places)
      → m.pend + requests notify t ≡ n.pend + requests notify (act notify c w t).next
      → m.sig + signals notify t ≡ n.sig + signals notify (act notify c w t).next
      → m.raising + raisers notify t ≡ n.raising + raisers notify (act notify c w t).next
      → m.escalating + escalators notify t
        ≡ n.escalating + escalators notify (act notify c w t).next
      → m.notifying + notifiers notify t ≡ n.notifying + notifiers notify (act notify c w t).next
      → m.ended + ends notify t ≡ n.ended + ends notify (act notify c w t).next
      → Tallied r s c.requested_elapsed_us c.phase n
      → Tallied r s (act notify c w t).state.requested_elapsed_us (act notify c w t).state.phase m
  unfolding act
  kept c w (exchanging true micros) n m e1 e2 e3 e4 e5 e6 k = ground (arith, elapsed_us_lt micros)
  kept c w (exchanging false micros) n m e1 e2 e3 e4 e5 e6 k = ground (arith, elapsed_us_lt micros)
  kept c w raising n m e1 e2 e3 e4 e5 e6 k = ground arith
  kept c w escalating n m e1 e2 e3 e4 e5 e6 k = ground arith
  kept c w notifying n m e1 e2 e3 e4 e5 e6 k = ground arith
  kept c w ended n m e1 e2 e3 e4 e5 e6 k = ground arith
  kept c w (checking x) n m e1 e2 e3 e4 e5 e6 k = ground arith
  kept c w (registering x) n m e1 e2 e3 e4 e5 e6 k = ground arith
  kept c w (rechecking x tk) n m e1 e2 e3 e4 e5 e6 k = ground arith
  kept c w (awaiting x tk) n m e1 e2 e3 e4 e5 e6 k = ground arith
  kept c w (returned x) n m e1 e2 e3 e4 e5 e6 k = ground arith

  act-Tally :
      (c : CancellationState) (w : notify.State) (ts : List (Thread notify)) (i : ℕ)
      (t : Thread notify)
      → get_elem? ts i ≡ some t
      → Tally c ts
      → Tally (act notify c w t).state (set ts i (act notify c w t).next)
  unfolding act
  act-Tally c w ts i t h k =
      let u = (act notify c w t).next in
      kept c w t (places notify ts) (places notify (set ts i u))
        (count-set (requests notify) ts i t u h) (count-set (signals notify) ts i t u h)
        (count-set (raisers notify) ts i t u h) (count-set (escalators notify) ts i t u h)
        (count-set (notifiers notify) ts i t u h) (count-set (ends notify) ts i t u h) k

  pub run-Tally :
      (is : List ℕ) (x : System notify)
      → Tally x.state x.threads
      → Tally (run notify is x).state (run notify is x).threads
  unfolding run turn
  run-Tally [] x k = k
  run-Tally (i ∷ is) x k =
      run-Tally is (turn notify i x) (elim (Option-cases (get_elem? x.threads i)) [
        | inl e ↦ rw e k
        | inr (t, e) ↦ rw e (act-Tally x.state x.waiters x.threads i t e k)
      ])
