-- ===== src/Cancellation.antt =====
-- `CancellationToken` of crates/dv-core/src/cancellation.rs. Instants are counted in microseconds from
-- the epoch of the token. The atomics are taken to be sequentially consistent.
pub mod Notify
pub mod Threads
pub mod Tally
pub mod Phases
pub mod Wakeups
mod Examples
use dv.Common.{
  true, false, ℕ, ◌+◌, ◌-◌, ◌^◌, min, max, Bool, Option, none, some, leb, ◌==◌, if◌then◌else◌,
}

abbrev pub running : ℕ
running = 0

abbrev pub cancelling : ℕ
cancelling = 1

abbrev pub forced : ℕ
forced = 2

-- `u64::MAX`
abbrev pub no_request : ℕ
no_request = 18446744073709551615

abbrev pub child_grace : ℕ
child_grace = 2000000

-- The two atomics of `CancellationState`.
pub record CancellationState : Type 0 where
  pub requested_elapsed_us : ℕ
  pub phase : ℕ

abbrev pub new : CancellationState
new = record { requested_elapsed_us = no_request; phase = running }

-- what `record_first_request` makes of the time that has passed
unfoldable pub elapsed_us : ℕ → ℕ
elapsed_us micros = min micros (no_request - 1)

-- `compare_exchange(NO_REQUEST, elapsed_us)` where it succeeds, and its `is_ok`
abbrev pub exchange : ℕ → CancellationState → CancellationState
exchange us s = record s {
  requested_elapsed_us =
      if s.requested_elapsed_us == no_request then us else s.requested_elapsed_us;
}

abbrev pub is_first : CancellationState → Bool
is_first s = s.requested_elapsed_us == no_request

-- `fetch_max`
abbrev pub fetch_max : ℕ → CancellationState → CancellationState
fetch_max p s = record s { phase = max s.phase p }

abbrev pub is_cancelled : CancellationState → Bool
is_cancelled s = leb cancelling s.phase

abbrev pub is_forced : CancellationState → Bool
is_forced s = leb forced s.phase

-- `Instant::checked_add`, where the latest instant is `latest`
abbrev pub checked_add : ℕ → ℕ → ℕ → Option ℕ
checked_add latest a d = if leb (a + d) latest then some (a + d) else none

abbrev and_then : Option ℕ → (ℕ → Option ℕ) → Option ℕ
and_then none f = none
and_then (some a) f = f a

unfoldable pub child_deadline : ℕ → CancellationState → Option ℕ
child_deadline latest s =
    if s.requested_elapsed_us == no_request
    then none
    else and_then (checked_add latest 0 s.requested_elapsed_us)
        (λ requested. checked_add latest requested child_grace)

-- `map_or` with `saturating_duration_since`
abbrev time_left : ℕ → Option ℕ → ℕ
time_left now none = child_grace
time_left now (some deadline) = deadline - now

unfoldable pub remaining_child_grace : ℕ → ℕ → CancellationState → ℕ
unfolding child_deadline
remaining_child_grace latest now s =
    if is_forced s then 0 else time_left now (child_deadline latest s)
