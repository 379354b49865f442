-- ===== src/Wake/Invariant.antt =====
-- What holds of the sleeping and waking in every reachable state.
use solo.Base.{ℕ, ◌^◌, ◌<◌, ◌≡◌, ◌≢◌, ◌⊎◌, Bool, true, false, arith}
use solo.Wake.{
  Guest, outside, published, kicking, halting, joining, Thread, loop, poll, arm, check, block,
  disarm, snap, serving, ended, System, GuestStep, ThreadStep, publish, needs, polls, kick, stop,
  wake, begin, quit, found, empty, give_up, armed, idle, busy, woken, interrupted, broken, disarmed,
  snapped, serve, served, Reach, start, by_guest, by_thread,
}

-- The thread has asked for a kick.
abbrev pub asks : Thread → Bool
asks check = true
asks block = true
asks disarm = true
asks loop = false
asks (poll n) = false
asks arm = false
asks snap = false
asks (serving e) = false
asks ended = false

-- The thread is past the test of `io_thread_stop` and has not been woken since.
abbrev pub waits : Thread → Bool
waits check = true
waits block = true
waits (poll n) = true
waits arm = true
waits loop = false
waits disarm = false
waits snap = false
waits (serving e) = false
waits ended = false

-- The guest is between its submission and its kick.
abbrev pub kicks_next : Guest → Bool
kicks_next outside = false
kicks_next published = true
kicks_next kicking = true
kicks_next halting = false
kicks_next joining = false

abbrev pub stopping : Guest → Bool
stopping outside = false
stopping published = false
stopping kicking = false
stopping halting = true
stopping joining = true

pub record Inv (s : System) : Type 0 where
  pub head : s.ent_head < 2 ^ 32
  pub tail : s.ent_tail < 2 ^ 32
  pub asked : asks s.thread ≡ true → s.needs_kick ≡ true
  pub kicked :
      s.thread ≡ block → s.kicks ≡ 0 → (s.ent_head ≡ s.ent_tail) ⊎ (kicks_next s.guest ≡ true)
  pub stopped : stopping s.guest ≡ true → s.io_thread_stop ≡ true
  pub bounded : (e : ℕ) → s.thread ≡ serving e → e < 2 ^ 32
  pub over : s.thread ≡ ended → (s.io_thread_stop ≡ true) ⊎ (s.failed ≡ true)
  pub joined : s.guest ≡ joining → waits s.thread ≡ true → 0 < s.kicks

pub GuestStep-Inv : {s t : System} → GuestStep s t → Inv s → Inv t
GuestStep-Inv {s} (publish at few) inv = grind arith
GuestStep-Inv {s} (needs at on) inv = grind arith
GuestStep-Inv {s} (polls at off) inv = grind arith
GuestStep-Inv {s} (kick at) inv = grind arith
GuestStep-Inv {s} (stop at) inv = grind arith
GuestStep-Inv {s} (wake at) inv = grind arith

pub ThreadStep-Inv : {s t : System} → ThreadStep s t → Inv s → Inv t
ThreadStep-Inv (begin at go) inv = grind arith
ThreadStep-Inv (quit at halt) inv = grind arith
ThreadStep-Inv (found n at ne) inv = grind arith
ThreadStep-Inv (empty n at same) inv = grind arith
ThreadStep-Inv (give_up at) inv = grind arith
ThreadStep-Inv (armed at) inv = grind arith
ThreadStep-Inv (idle at same) inv = grind arith
ThreadStep-Inv (busy at ne) inv = grind arith
ThreadStep-Inv (woken at some_kick) inv = grind arith
ThreadStep-Inv (interrupted at) inv = grind arith
ThreadStep-Inv (broken at) inv = grind arith
ThreadStep-Inv (disarmed at) inv = grind arith
ThreadStep-Inv (snapped at) inv = grind arith
ThreadStep-Inv (serve e at ne) inv = grind arith
ThreadStep-Inv (served e at same) inv = grind arith

pub Reach-Inv : {s : System} → Reach s → Inv s
Reach-Inv start = record {
  head = omega arith;
  tail = omega arith;
  asked = λ e. absurd (ground (arith, e));
  kicked = λ e. absurd (ground (arith, e));
  stopped = λ e. absurd (ground (arith, e));
  bounded = λ e at. absurd (ground (arith, at));
  over = λ e. absurd (ground (arith, e));
  joined = λ e. absurd (ground (arith, e));
}
Reach-Inv (by_guest r step) = GuestStep-Inv step (Reach-Inv r)
Reach-Inv (by_thread r step) = ThreadStep-Inv step (Reach-Inv r)

-- No wake-up is lost: when the I/O thread is about to block in `read` with nothing to read while entries
-- are pending, the guest's thread is in `ring_submit` between its store and its kick, and it
-- will read `needs_kick` as set.
pub Reach-wakes :
    {s : System}
    → Reach s
    → s.thread ≡ block
    → s.kicks ≡ 0
    → s.ent_head ≢ s.ent_tail
    → (kicks_next s.guest ≡ true) × (s.needs_kick ≡ true)
Reach-wakes r at none ne = grind (arith, Reach-Inv r)
