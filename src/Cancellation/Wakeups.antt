-- ===== src/Cancellation/Wakeups.antt =====
-- No call of `wait_for` of crates/dv-core/src/cancellation.rs misses the signal that it waits for.
use mathlib.Core.Path.{subst}
use dv.Common.{
  ℕ, zero, suc, ◌+◌, ◌≤◌, ◌<◌, ◌≡◌, refl, sym, true, some, List, [], ◌∷◌, All, get_elem?, set, leb,
  if◌then◌else◌, ◌⊎◌, inl, inr, Option-cases, if_either, arith,
}
use dv.Cancellation.{CancellationState, is_first}
use dv.Cancellation.Notify.{Notify}
use dv.Cancellation.Threads.{
  Thread, exchanging, raising, escalating, notifying, ended, checking, registering, rechecking,
  awaiting, returned, System, act, turn, run, start, is_call,
}
use dv.Cancellation.Tally.{count, count-set, notifiers}
use dv.Cancellation.Phases.{AllCalls}

module _ {A : Type 0} (P : A → Type 0) where
  All-get : (ts : List A) (i : ℕ) {t : A} → get_elem? ts i ≡ some t → All P ts → P t
  All-get [] i e h = cc
  All-get (x ∷ ts) zero e (h, hs) = subst P (cc e) h
  All-get (x ∷ ts) (suc i) e (h, hs) = All-get ts i e hs

  All-set : (ts : List A) (i : ℕ) (u : A) → P u → All P ts → All P (set ts i u)
  All-set [] i u p h = tt
  All-set (x ∷ ts) zero u p (h, hs) = (p, hs)
  All-set (x ∷ ts) (suc i) u p (h, hs) = (h, All-set ts i u p hs)

All-map :
    {A : Type 0} (P Q : A → Type 0) → ((a : A) → P a → Q a) → (ts : List A) → All P ts → All Q ts
All-map P Q f [] h = tt
All-map P Q f (x ∷ ts) (h, hs) = (f x h, All-map P Q f ts hs)

module _ (notify : Notify) where
  -- Where `n` threads are about to notify, a thread that waits in vain for a phase that is reached
  -- has been woken, or is about to be.
  abbrev Attended : ℕ → notify.State → ℕ → Thread notify → Type 0
  Attended phase w n (rechecking expected ticket) = notify.Issued w ticket
  Attended phase w n (awaiting expected ticket) =
      notify.Issued w ticket × ((phase < expected) ⊎ (notify.woken w ticket ≡ true) ⊎ (1 ≤ n))
  Attended phase w n t = Unit {0}

  -- What an operation of another thread may do.
  abbrev Elsewhere : ℕ → notify.State → ℕ → ℕ → notify.State → ℕ → Type 0
  Elsewhere phase w n phase' w' n' =
      ((w' ≡ w) × (n ≤ n') × ((phase' ≤ phase) ⊎ (1 ≤ n'))) ⊎ (w' ≡ notify.notify_waiters w)

  still :
      (phase n phase' n' : ℕ) (w w' : notify.State)
      → Elsewhere phase w n phase' w' n'
      → (t : Thread notify) → Attended phase w n t
      → Attended phase' w' n' t
  still phase n phase' n' w w' (inl (e, le, up)) (rechecking x tk) h =
      subst (λ v. notify.Issued v tk) (sym e) h
  still phase n phase' n' w w' (inl (e, le, up)) (awaiting x tk) (h, k) = (
    subst (λ v. notify.Issued v tk) (sym e) h,
    elim k [
      | inl low ↦ elim up [
        | inl same ↦ inl (omega (arith, low, same))
        | inr some_one ↦ inr (inr some_one)
      ]
      | inr (inl woken) ↦ inr (inl (subst (λ v. notify.woken v tk ≡ true) (sym e) woken))
      | inr (inr one) ↦ inr (inr (omega (arith, one, le)))
    ],
  )
  still phase n phase' n' w w' (inr e) (rechecking x tk) h =
      subst (λ v. notify.Issued v tk) (sym e) (notify.issued_later w tk h)
  still phase n phase' n' w w' (inr e) (awaiting x tk) (h, k) = (
    subst (λ v. notify.Issued v tk) (sym e) (notify.issued_later w tk h),
    inr (inl (subst (λ v. notify.woken v tk ≡ true) (sym e) (notify.wakes w tk h))),
  )
  still phase n phase' n' w w' d (exchanging escalates micros) h = tt
  still phase n phase' n' w w' d raising h = tt
  still phase n phase' n' w w' d escalating h = tt
  still phase n phase' n' w w' d notifying h = tt
  still phase n phase' n' w w' d ended h = tt
  still phase n phase' n' w w' d (checking x) h = tt
  still phase n phase' n' w w' d (registering x) h = tt
  still phase n phase' n' w w' d (returned x) h = tt

  act-Elsewhere :
      (c : CancellationState) (w : notify.State) (t : Thread notify) (n n' : ℕ)
      → n' + notifiers notify t ≡ n + notifiers notify (act notify c w t).next
      → Elsewhere c.phase w n (act notify c w t).state.phase (act notify c w t).waiters n'
  unfolding act
  act-Elsewhere c w (exchanging escalates micros) n n' e =
      inl (refl, ground arith, inl (omega arith))
  act-Elsewhere c w raising n n' e = inl (refl, omega (arith, e), inr (omega (arith, e)))
  act-Elsewhere c w escalating n n' e = inl (refl, omega (arith, e), inr (omega (arith, e)))
  act-Elsewhere c w notifying n n' e = inr refl
  act-Elsewhere c w ended n n' e = inl (refl, omega (arith, e), inl (omega arith))
  act-Elsewhere c w (checking x) n n' e = inl (refl, ground arith, inl (omega arith))
  act-Elsewhere c w (registering x) n n' e = inl (refl, omega (arith, e), inl (omega arith))
  act-Elsewhere c w (rechecking x tk) n n' e = inl (refl, ground arith, inl (omega arith))
  act-Elsewhere c w (awaiting x tk) n n' e = inl (refl, ground arith, inl (omega arith))
  act-Elsewhere c w (returned x) n n' e = inl (refl, omega (arith, e), inl (omega arith))

  act-Attended :
      (c : CancellationState) (w : notify.State) (t : Thread notify) (n n' : ℕ)
      → Attended c.phase w n t
      → n' + notifiers notify t ≡ n + notifiers notify (act notify c w t).next
      → Attended
          (act notify c w t).state.phase
          (act notify c w t).waiters
          n'
          (act notify c w t).next
  unfolding act
  act-Attended c w (exchanging escalates micros) n n' h e =
      if_either (Attended c.phase w n') (is_first c) raising
        (if escalates then escalating else notifying) (λ k. tt)
        (λ k. if_either (Attended c.phase w n') escalates escalating notifying (λ l. tt) (λ l. tt))
  act-Attended c w raising n n' h e = tt
  act-Attended c w escalating n n' h e = tt
  act-Attended c w notifying n n' h e = tt
  act-Attended c w ended n n' h e = tt
  act-Attended c w (checking x) n n' h e =
      if_either (Attended c.phase w n') (leb x c.phase) (returned x) (registering x) (λ k. tt)
        (λ k. tt)
  act-Attended c w (registering x) n n' h e = notify.issued_now w
  act-Attended c w (rechecking x tk) n n' h e =
      if_either (Attended c.phase w n') (leb x c.phase) (returned x) (awaiting x tk) (λ k. tt)
        (λ k. (h, inl (ground arith)))
  act-Attended c w (awaiting x tk) n n' (h, k) e =
      if_either (Attended c.phase w n') (notify.woken w tk) (checking x) (awaiting x tk) (λ l. tt)
        (λ l. (h, ground arith))
  act-Attended c w (returned x) n n' h e = tt

  abbrev AllAttended : System notify → Type 0
  AllAttended x =
      All (Attended x.state.phase x.waiters (count (notifiers notify) x.threads)) x.threads

  turn-AllAttended : (i : ℕ) (x : System notify) → AllAttended x → AllAttended (turn notify i x)
  unfolding turn
  turn-AllAttended i x h = elim (Option-cases (get_elem? x.threads i)) [
    | inl e ↦ rw e h
    | inr (t, e) ↦
        let o = act notify x.state x.waiters t in
        let n = count (notifiers notify) x.threads in
        let n' = count (notifiers notify) (set x.threads i o.next) in
        let P = Attended x.state.phase x.waiters n in
        let c = count-set (notifiers notify) x.threads i t o.next e in
        rw e (
          All-set (Attended o.state.phase o.waiters n') x.threads i o.next
            (act-Attended x.state x.waiters t n n' (All-get P x.threads i e h) c)
            (All-map P (Attended o.state.phase o.waiters n')
              (still x.state.phase n o.state.phase n' x.waiters o.waiters
                (act-Elsewhere x.state x.waiters t n n' c))
              x.threads h))
  ]

  run-AllAttended :
      (schedule : List ℕ) (x : System notify) → AllAttended x → AllAttended (run notify schedule x)
  unfolding run
  run-AllAttended [] x h = h
  run-AllAttended (i ∷ is) x h = run-AllAttended is (turn notify i x) (turn-AllAttended i x h)

  call-Attended : (t : Thread notify) → is_call notify t ≡ true → Attended 0 notify.fresh 0 t
  call-Attended (exchanging escalates micros) h = tt
  call-Attended raising h = tt
  call-Attended escalating h = tt
  call-Attended notifying h = tt
  call-Attended ended h = tt
  call-Attended (checking x) h = tt
  call-Attended (registering x) h = tt
  call-Attended (rechecking x tk) h = cc
  call-Attended (awaiting x tk) h = cc
  call-Attended (returned x) h = tt

  call-notifiers : (t : Thread notify) → is_call notify t ≡ true → notifiers notify t ≡ 0
  call-notifiers (exchanging escalates micros) h = refl
  call-notifiers raising h = refl
  call-notifiers escalating h = refl
  call-notifiers notifying h = cc
  call-notifiers ended h = refl
  call-notifiers (checking x) h = refl
  call-notifiers (registering x) h = refl
  call-notifiers (rechecking x tk) h = refl
  call-notifiers (awaiting x tk) h = refl
  call-notifiers (returned x) h = refl

  calls-notifiers :
      (ts : List (Thread notify)) → AllCalls notify ts → count (notifiers notify) ts ≡ 0
  calls-notifiers [] h = refl
  calls-notifiers (t ∷ ts) (h, hs) = omega (arith, call-notifiers t h, calls-notifiers ts hs)

  -- Where threads only call `request`, `cancel` and `wait_for`, then after any schedule that leaves no
  -- thread about to notify, a thread that still waits for a phase that is reached has been woken: no
  -- wake-up is lost.
  pub no_lost_wakeup :
      (calls : List (Thread notify)) (schedule : List ℕ) (i expected : ℕ) (ticket : notify.Ticket)
      → AllCalls notify calls
      → get_elem? (run notify schedule (start notify calls)).threads i
        ≡ some (awaiting expected ticket)
      → expected ≤ (run notify schedule (start notify calls)).state.phase
      → count (notifiers notify) (run notify schedule (start notify calls)).threads ≡ 0
      → notify.woken (run notify schedule (start notify calls)).waiters ticket ≡ true
  no_lost_wakeup calls schedule i expected ticket h e reached quiet =
      let x = run notify schedule (start notify calls) in
      let k = run-AllAttended schedule (start notify calls) (
        rw (calls-notifiers calls h) (
          All-map (λ t. is_call notify t ≡ true) (Attended 0 notify.fresh 0) call-Attended calls
            h)) in
      elim (All-get (Attended x.state.phase x.waiters (count (notifiers notify) x.threads))
        x.threads i e k).1 [
          | inl low ↦ absurd (omega (arith, low, reached))
          | inr (inl woken) ↦ woken
          | inr (inr one) ↦ absurd (omega (arith, one, quiet))
        ]
