-- ===== src/Examples/Wake.antt =====
-- Schedules of the guest's thread and the I/O thread.
use solo.Base.{ℕ, zero, suc, ◌≤◌, ◌≡◌, ◌⊎◌, refl, arith, true}
use solo.Wake.{
  hvt_ring_poll_iters, interrupted, System, published, joining, poll, block, ended, publish, stop,
  wake, begin, quit, empty, give_up, armed, idle, init, Reach, start, by_guest, by_thread,
}
use solo.Wake.Invariant.{kicks_next, Reach-wakes}
use solo.Wake.Progress.{Run, here, thread, left, GoesOn, OwnStep, Run-serves, Run-joins}

-- The guest has published an entry, and the I/O thread is at the head of its loop.
abbrev published_one : System
published_one = record init { guest = published; ent_tail = 1 }

published_one-Reach : Reach published_one
published_one-Reach = by_guest start (publish refl (omega arith))

-- All rounds of polling find nothing.
abbrev polling : ℕ → System
polling n = record init { thread = poll n }

polls_out : (n : ℕ) → Reach (polling n) → Reach (polling 0)
polls_out zero r = r
polls_out (suc n) r = polls_out n (by_thread r (empty n refl refl))

-- The I/O thread blocks, and the guest publishes.
abbrev asleep : System
asleep = record init { thread = block; needs_kick = true; guest = published; ent_tail = 1 }

asleep-Reach : Reach asleep
asleep-Reach =
    by_guest
      (by_thread
        (by_thread (by_thread (polls_out 4096 (by_thread start (begin refl refl))) (give_up refl))
          (armed refl))
        (idle refl refl))
      (publish refl (omega arith))

Reach-wakes_example : (kicks_next published ≡ true) × (asleep.needs_kick ≡ true)
Reach-wakes_example = Reach-wakes asleep-Reach refl refl (λ e. omega (arith, e))

-- A signal ends the sleep, and the thread polls.
abbrev roused : System
roused = record asleep { thread = poll hvt_ring_poll_iters }

two_steps : Run asleep roused 2 0
two_steps = thread (thread here (interrupted refl)) (begin refl refl)

Run-serves_example : (2 ≤ 7) × GoesOn roused
Run-serves_example = Run-serves asleep-Reach (λ e. omega (arith, e)) two_steps refl

-- The guest shuts down at once.
abbrev shut : System
shut = record init { guest = joining; io_thread_stop = true; kicks = 1 }

shut-Reach : Reach shut
shut-Reach = by_guest (by_guest start (stop refl)) (wake refl)

abbrev over : System
over = record shut { thread = ended }

Run-joins_example : (1 ≤ left shut shut.thread) × ((over.thread ≡ ended) ⊎ OwnStep over)
Run-joins_example = Run-joins shut-Reach refl (thread {t = shut} {u = over} here (quit refl refl))
