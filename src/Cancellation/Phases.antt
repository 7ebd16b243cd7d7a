-- ===== src/Cancellation/Phases.antt =====
-- What the signals of crates/dv-core/src/cancellation.rs add up to, in every order of their operations.
use dv.Common.{
  ℕ, ◌+◌, ◌≤◌, ◌<◌, ◌≡◌, refl, true, false, List, [], ◌∷◌, All, get_elem?, leb, ◌⊎◌, inl, inr,
  Option-cases, arith,
}
use dv.Cancellation.{no_request, CancellationState, new, is_cancelled, is_forced}
use dv.Cancellation.Notify.{Notify}
use dv.Cancellation.Threads.{
  Thread, exchanging, raising, escalating, notifying, ended, checking, registering, rechecking,
  awaiting, returned, System, act, turn, run, start, is_call,
}
use dv.Cancellation.Tally.{
  count, requests, signals, raisers, escalators, notifiers, ends, Tally, run-Tally,
}

module _ (notify : Notify) where
  -- Threads that have made nothing but their calls.
  abbrev pub AllCalls : List (Thread notify) → Type 0
  AllCalls ts = All (λ t. is_call notify t ≡ true) ts

  -- the operations of signals that are left
  abbrev pub signalling : Thread notify → ℕ
  signalling t = signals notify t + raisers notify t + escalators notify t + notifiers notify t

  call_places :
      (t : Thread notify)
      → is_call notify t ≡ true
      → raisers notify t + escalators notify t + notifiers notify t + ends notify t ≡ 0
  call_places (exchanging escalates micros) h = refl
  call_places raising h = cc
  call_places escalating h = cc
  call_places notifying h = cc
  call_places ended h = cc
  call_places (checking x) h = refl
  call_places (registering x) h = cc
  call_places (rechecking x tk) h = cc
  call_places (awaiting x tk) h = cc
  call_places (returned x) h = cc

  start_places :
      (ts : List (Thread notify))
      → AllCalls ts
      → count (raisers notify) ts
          + count (escalators notify) ts
          + count (notifiers notify) ts
          + count (ends notify) ts
        ≡ 0
  start_places [] h = refl
  start_places (t ∷ ts) (h, hs) = omega (arith, call_places t h, start_places ts hs)

  start-Tally :
      (ts : List (Thread notify))
      → AllCalls ts
      → Tally notify (count (requests notify) ts) (count (signals notify) ts) new ts
  start-Tally ts h =
      let e = start_places ts h in
      record {
        phase_le = omega arith;
        requested_le = omega arith;
        total = omega (arith, e);
        unset = inr (omega (arith, e));
        raised = inl refl;
        pending = inl (omega arith);
        when_forced = inl (omega (arith, e));
        left = inl refl;
        within = omega arith;
      }

  settled :
      (ts : List (Thread notify))
      → count signalling ts
        ≡ count (signals notify) ts
          + count (raisers notify) ts
          + count (escalators notify) ts
          + count (notifiers notify) ts
  settled [] = refl
  settled (t ∷ ts) = omega (arith, settled ts)

  requests_le_one : (t : Thread notify) → requests notify t ≤ signals notify t
  requests_le_one (exchanging true micros) = omega arith
  requests_le_one (exchanging false micros) = omega arith
  requests_le_one raising = omega arith
  requests_le_one escalating = omega arith
  requests_le_one notifying = omega arith
  requests_le_one ended = omega arith
  requests_le_one (checking x) = omega arith
  requests_le_one (registering x) = omega arith
  requests_le_one (rechecking x tk) = omega arith
  requests_le_one (awaiting x tk) = omega arith
  requests_le_one (returned x) = omega arith

  requests_le : (ts : List (Thread notify)) → count (requests notify) ts ≤ count (signals notify) ts
  requests_le [] = omega arith
  requests_le (t ∷ ts) = omega (arith, requests_le_one t, requests_le ts)

  -- Where threads only call `request`, `cancel` and `wait_for`, then after any schedule that leaves no
  -- signal under way, the token is cancelled exactly if there was a signal, it is forced if
  -- there were two calls of `request`, and it is forced only if there was a call of `request` and
  -- another signal.
  pub signals_settle :
      (calls : List (Thread notify)) (schedule : List ℕ)
      → AllCalls calls
      → count signalling (run notify schedule (start notify calls)).threads ≡ 0
      → (is_cancelled (run notify schedule (start notify calls)).state
          ≡ leb 1 (count (signals notify) calls))
        × ((count (requests notify) calls ≤ 1)
            ⊎ (is_forced (run notify schedule (start notify calls)).state ≡ true))
        × ((is_forced (run notify schedule (start notify calls)).state ≡ false)
            ⊎ ((2 ≤ count (signals notify) calls) × (1 ≤ count (requests notify) calls)))
  signals_settle calls schedule h quiet =
      let k = run-Tally notify _ _ schedule (start notify calls) (start-Tally calls h) in
      let ts = (run notify schedule (start notify calls)).threads in
      ground (arith, k, settled ts, requests_le ts, quiet)

  -- At every moment: the token is cancelled only where the time of a request was stored, and it is
  -- forced only where there was a call of `request` and another signal.
  pub phase_safe :
      (calls : List (Thread notify)) (schedule : List ℕ)
      → AllCalls calls
      → ((is_cancelled (run notify schedule (start notify calls)).state ≡ false)
          ⊎ ((run notify schedule (start notify calls)).state.requested_elapsed_us < no_request))
        × ((is_forced (run notify schedule (start notify calls)).state ≡ false)
            ⊎ ((2 ≤ count (signals notify) calls) × (1 ≤ count (requests notify) calls)))
  phase_safe calls schedule h =
      let k = run-Tally notify _ _ schedule (start notify calls) (start-Tally calls h) in
      ground (arith, k)

  act_monotone :
      (c : CancellationState) (w : notify.State) (t : Thread notify)
      → (c.phase ≤ (act notify c w t).state.phase)
        × ((c.requested_elapsed_us ≡ no_request)
            ⊎ ((act notify c w t).state.requested_elapsed_us ≡ c.requested_elapsed_us))
  unfolding act
  act_monotone c w (exchanging escalates micros) = ground arith
  act_monotone c w raising = ground arith
  act_monotone c w escalating = ground arith
  act_monotone c w notifying = ground arith
  act_monotone c w ended = ground arith
  act_monotone c w (checking x) = ground arith
  act_monotone c w (registering x) = ground arith
  act_monotone c w (rechecking x tk) = ground arith
  act_monotone c w (awaiting x tk) = ground arith
  act_monotone c w (returned x) = ground arith

  abbrev pub Monotone : System notify → System notify → Type 0
  Monotone x y =
      (x.state.phase ≤ y.state.phase)
      × ((x.state.requested_elapsed_us ≡ no_request)
          ⊎ (y.state.requested_elapsed_us ≡ x.state.requested_elapsed_us))

  turn-Monotone : (i : ℕ) (x : System notify) → Monotone x (turn notify i x)
  unfolding turn
  turn-Monotone i x = elim (Option-cases (get_elem? x.threads i)) [
    | inl e ↦ rw e (omega arith, inr refl)
    | inr (t, e) ↦ rw e (act_monotone x.state x.waiters t)
  ]

  -- In every schedule the phase never falls, and the time of the first request is never changed.
  pub run-Monotone : (schedule : List ℕ) (x : System notify) → Monotone x (run notify schedule x)
  unfolding run
  run-Monotone [] x = (omega arith, inr refl)
  run-Monotone (i ∷ is) x = ground (arith, turn-Monotone i x, run-Monotone is (turn notify i x))
