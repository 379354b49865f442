-- ===== src/Wake.antt =====
-- tenders/hvt/hvt_module_net.c and bindings/hvt/net.c: when the tender's I/O thread polls, sleeps and
-- is woken, one shared access at a time. The guest's thread and the I/O thread are interleaved in any
-- order; the full barriers after the store to `ent_tail` and after the store to `needs_kick` make
-- each of these two stores visible before the load that follows it. `kicks` is the counter of the
-- notification descriptor, an eventfd as on Linux: the number of writes since it was last read. The
-- serving of an entry is one step.
pub mod Invariant
pub mod Progress
use solo.Base.{ℕ, zero, suc, ◌+◌, ◌^◌, ◌%◌, ◌<◌, ◌≡◌, ◌≢◌, Bool, true, false}
use solo.Ring.{add32}
use solo.NetGuest.{sub32}

abbrev pub hvt_ring_poll_iters : ℕ
hvt_ring_poll_iters = 4096

-- Where the guest's thread stands: before a submission, after the store in `ring_submit`, before the
-- kick, in `kill_net_pthread` after the store to `io_thread_stop`, and in `pthread_join`.
pub data Guest : Type 0 where
  outside : Guest
  published : Guest
  kicking : Guest
  halting : Guest
  joining : Guest

-- Where the I/O thread stands in `io_thread_net_fn`, with the rounds that polling has left and with
-- the snapshot that `process_ring_commits` serves up to.
pub data Thread : Type 0 where
  loop : Thread
  poll : ℕ → Thread
  arm : Thread
  check : Thread
  block : Thread
  disarm : Thread
  snap : Thread
  serving : ℕ → Thread
  ended : Thread

-- `failed` is whether a `read` of the I/O thread has failed.
pub record System : Type 0 where
  pub ent_head : ℕ
  pub ent_tail : ℕ
  pub needs_kick : Bool
  pub kicks : ℕ
  pub io_thread_stop : Bool
  pub guest : Guest
  pub thread : Thread
  pub failed : Bool

-- A step of the guest's thread.
pub data GuestStep (s : System) : System → Type 0 where
  -- A submission, which flow control allows.
  publish :
      s.guest ≡ outside
      → sub32 s.ent_tail s.ent_head < 1023
      → GuestStep s (record s { guest = published; ent_tail = add32 s.ent_tail 1 })
  needs : s.guest ≡ published → s.needs_kick ≡ true → GuestStep s (record s { guest = kicking })
  polls : s.guest ≡ published → s.needs_kick ≡ false → GuestStep s (record s { guest = outside })
  kick : s.guest ≡ kicking → GuestStep s (record s { guest = outside; kicks = s.kicks + 1 })
  stop : s.guest ≡ outside → GuestStep s (record s { guest = halting; io_thread_stop = true })
  wake : s.guest ≡ halting → GuestStep s (record s { guest = joining; kicks = s.kicks + 1 })

-- A step of the I/O thread. `interrupted` is EINTR, and `broken` any other failure of `read`.
pub data ThreadStep (s : System) : System → Type 0 where
  begin :
      s.thread ≡ loop
      → s.io_thread_stop ≡ false
      → ThreadStep s (record s { thread = poll hvt_ring_poll_iters })
  quit : s.thread ≡ loop → s.io_thread_stop ≡ true → ThreadStep s (record s { thread = ended })
  found :
      (n : ℕ)
      → s.thread ≡ poll (suc n)
      → s.ent_head ≢ s.ent_tail
      → ThreadStep s (record s { thread = snap })
  empty :
      (n : ℕ)
      → s.thread ≡ poll (suc n)
      → s.ent_head ≡ s.ent_tail
      → ThreadStep s (record s { thread = poll n })
  give_up : s.thread ≡ poll 0 → ThreadStep s (record s { thread = arm })
  armed : s.thread ≡ arm → ThreadStep s (record s { thread = check; needs_kick = true })
  idle : s.thread ≡ check → s.ent_head ≡ s.ent_tail → ThreadStep s (record s { thread = block })
  busy : s.thread ≡ check → s.ent_head ≢ s.ent_tail → ThreadStep s (record s { thread = disarm })
  woken : s.thread ≡ block → 0 < s.kicks → ThreadStep s (record s { thread = disarm; kicks = 0 })
  interrupted : s.thread ≡ block → ThreadStep s (record s { thread = loop })
  broken : s.thread ≡ block → ThreadStep s (record s { thread = ended; failed = true })
  disarmed : s.thread ≡ disarm → ThreadStep s (record s { thread = snap; needs_kick = false })
  snapped : s.thread ≡ snap → ThreadStep s (record s { thread = serving s.ent_tail })
  serve :
      (e : ℕ)
      → s.thread ≡ serving e
      → s.ent_head ≢ e
      → ThreadStep s (record s { ent_head = add32 s.ent_head 1 })
  served :
      (e : ℕ) → s.thread ≡ serving e → s.ent_head ≡ e → ThreadStep s (record s { thread = loop })

abbrev pub init : System
init = record {
  ent_head = 0;
  ent_tail = 0;
  needs_kick = false;
  kicks = 0;
  io_thread_stop = false;
  guest = outside;
  thread = loop;
  failed = false;
}

pub data Reach : System → Type 0 where
  start : Reach init
  by_guest : {s t : System} → Reach s → GuestStep s t → Reach t
  by_thread : {s t : System} → Reach s → ThreadStep s t → Reach t
