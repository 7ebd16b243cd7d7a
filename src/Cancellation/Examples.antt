-- ===== src/Cancellation/Examples.antt =====
-- Schedules of threads, on concrete inputs (crates/dv-core/src/cancellation.rs).
use dv.Common.{ℕ, ◌≤◌, ◌<◌, ◌≡◌, refl, true, false, List, [], ◌∷◌, ◌⊎◌, leb, arith, get_elem?, some}
use dv.Cancellation.{
  no_request, CancellationState, elapsed_us, is_cancelled, is_forced, remaining_child_grace,
}
use dv.Cancellation.Notify.{counter}
use dv.Cancellation.Threads.{Thread, awaiting, System, run, turn, act, start, request, wait_for}
use dv.Cancellation.Tally.{count, notifiers, requests, signals}
use dv.Cancellation.Phases.{
  signalling, AllCalls, Monotone, signals_settle, phase_safe, run-Monotone,
}
use dv.Cancellation.Wakeups.{no_lost_wakeup}

-- Two signals and a thread that waits for the second.
abbrev calls : List (Thread counter)
calls = request counter 5 ∷ request counter 9 ∷ wait_for counter 2 ∷ []

-- the thread waits, then both signals run with their operations mixed
abbrev mixed : List ℕ
mixed = 2 ∷ 2 ∷ 2 ∷ 1 ∷ 0 ∷ 1 ∷ 0 ∷ 1 ∷ 0 ∷ []

abbrev after : System counter
after = run counter mixed (start counter calls)

after_state : after.state ≡ record { requested_elapsed_us = 9; phase = 2 }
unfolding run turn act elapsed_us
after_state = refl

calls-AllCalls : AllCalls counter calls
calls-AllCalls = (refl, (refl, (refl, tt)))

quiet : count (signalling counter) after.threads ≡ 0
unfolding run turn act
quiet = refl

signals_settle_example :
    (is_cancelled after.state ≡ leb 1 (count (signals counter) calls))
    × ((count (requests counter) calls ≤ 1) ⊎ (is_forced after.state ≡ true))
    × ((is_forced after.state ≡ false)
        ⊎ ((2 ≤ count (signals counter) calls) × (1 ≤ count (requests counter) calls)))
signals_settle_example = signals_settle counter calls mixed calls-AllCalls quiet

phase_safe_example :
    ((is_cancelled after.state ≡ false) ⊎ (after.state.requested_elapsed_us < no_request))
    × ((is_forced after.state ≡ false)
        ⊎ ((2 ≤ count (signals counter) calls) × (1 ≤ count (requests counter) calls)))
phase_safe_example = phase_safe counter calls mixed calls-AllCalls

run-Monotone_example : Monotone counter (start counter calls) after
run-Monotone_example = run-Monotone counter mixed (start counter calls)

waits : get_elem? after.threads 2 ≡ some (awaiting 2 0)
unfolding run turn act
waits = refl

reached : 2 ≤ after.state.phase
unfolding run turn act elapsed_us
reached = omega arith

all_notified : count (notifiers counter) after.threads ≡ 0
unfolding run turn act
all_notified = refl

no_lost_wakeup_example : counter.woken after.waiters 0 ≡ true
no_lost_wakeup_example =
    no_lost_wakeup counter calls mixed 2 2 0 calls-AllCalls waits reached all_notified

abbrev under_way : CancellationState
under_way = record { requested_elapsed_us = 1000; phase = 1 }

-- 1.5 seconds are left half a second after the first request, and none after it was forced.
remaining_child_grace_tests :
    (remaining_child_grace 9000000 501000 under_way ≡ 1500000)
    × (remaining_child_grace 9000000 2001000 under_way ≡ 0)
    × (remaining_child_grace 9000000 501000 (record under_way { phase = 2 }) ≡ 0)
unfolding remaining_child_grace dv.Cancellation.child_deadline
remaining_child_grace_tests = (refl, refl, refl)
