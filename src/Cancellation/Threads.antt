-- ===== src/Cancellation/Threads.antt =====
-- `request`, `cancel` and `wait_for` of crates/dv-core/src/cancellation.rs, one atomic operation at a
-- time, by any number of threads in any order.
use dv.Common.{
  ℕ, Bool, true, false, Option, none, some, List, [], ◌∷◌, get_elem?, set, leb, if◌then◌else◌,
}
use dv.Cancellation.{
  cancelling, forced, CancellationState, new, elapsed_us, exchange, is_first, fetch_max,
}
use dv.Cancellation.Notify.{Notify}

module _ (notify : Notify) where
  -- Where a thread stands, before the operation of its name. A signal is a call of `request`, which
  -- escalates, or of `cancel`, at a time in microseconds.
  pub data Thread : Type 0 where
    exchanging : Bool → ℕ → Thread
    raising : Thread
    escalating : Thread
    notifying : Thread
    ended : Thread
    checking : ℕ → Thread
    registering : ℕ → Thread
    rechecking : ℕ → notify.Ticket → Thread
    awaiting : ℕ → notify.Ticket → Thread
    returned : ℕ → Thread

  pub record System : Type 0 where
    pub state : CancellationState
    pub waiters : notify.State
    pub threads : List Thread

  -- What the operation leaves behind, and where the thread stands after it.
  pub record Outcome : Type 0 where
    pub state : CancellationState
    pub waiters : notify.State
    pub next : Thread

  -- after `compare_exchange`
  abbrev pub after_exchange : Bool → Bool → Thread
  after_exchange first escalates =
      if first then raising else if escalates then escalating else notifying

  unfoldable pub act : CancellationState → notify.State → Thread → Outcome
  unfolding elapsed_us
  act s w (exchanging escalates micros) = record {
    state = exchange (elapsed_us micros) s;
    waiters = w;
    next = after_exchange (is_first s) escalates;
  }
  act s w raising = record { state = fetch_max cancelling s; waiters = w; next = notifying }
  act s w escalating = record { state = fetch_max forced s; waiters = w; next = notifying }
  act s w notifying = record { state = s; waiters = notify.notify_waiters w; next = ended }
  act s w ended = record { state = s; waiters = w; next = ended }
  act s w (checking expected) = record {
    state = s;
    waiters = w;
    next = if leb expected s.phase then returned expected else registering expected;
  }
  act s w (registering expected) = record {
    state = s;
    waiters = w;
    next = rechecking expected (notify.notified w);
  }
  act s w (rechecking expected ticket) = record {
    state = s;
    waiters = w;
    next = if leb expected s.phase then returned expected else awaiting expected ticket;
  }
  act s w (awaiting expected ticket) = record {
    state = s;
    waiters = w;
    next = if notify.woken w ticket then checking expected else awaiting expected ticket;
  }
  act s w (returned expected) = record { state = s; waiters = w; next = returned expected }

  abbrev moved : ℕ → List Thread → Outcome → System
  moved i threads o = record {
    state = o.state;
    waiters = o.waiters;
    threads = set threads i o.next;
  }

  -- The thread with the index takes its next operation.
  abbrev act_of : ℕ → System → Option Thread → System
  act_of i s none = s
  act_of i s (some t) = moved i s.threads (act s.state s.waiters t)

  unfoldable pub turn : ℕ → System → System
  unfolding act
  turn i s = act_of i s (get_elem? s.threads i)

  -- A schedule names the thread of each turn.
  unfoldable pub run : List ℕ → System → System
  run [] s = s
  run (i ∷ is) s = run is (turn i s)

  -- The calls that threads start with.
  abbrev pub request : ℕ → Thread
  request micros = exchanging true micros

  abbrev pub cancel : ℕ → Thread
  cancel micros = exchanging false micros

  abbrev pub wait_for : ℕ → Thread
  wait_for expected = checking expected

  abbrev pub is_call : Thread → Bool
  is_call (exchanging escalates micros) = true
  is_call (checking expected) = true
  is_call t = false

  abbrev pub start : List Thread → System
  start calls = record { state = new; waiters = notify.fresh; threads = calls }
