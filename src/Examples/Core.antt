-- ===== src/Examples/Core.antt =====
-- Two halt hooks that log the exit status, and a kernel in which one device and the timer are ready after
-- one interruption.
use solo.Base.{
  ℕ, zero, suc, ◌+◌, ◌≤◌, ◌<◌, ◌≡◌, ◌⊎◌, inl, inr, refl, List, [], ◌∷◌, length, true, leb,
  if◌then◌else◌, Bool-cases, subst, arith, some, none, pos, Run, done, ◌>>=◌,
}
use solo.Hvt.{load32}
use solo.Core.{
  Core, HaltFn, World, Kernel, Wait, events, eintr, internal_timerfd, no_core, hypercall_halt,
  hypercall_poll,
}
use solo.Core.Halt.{register_all, halts, in_order, register_all-halts}
use solo.Core.Poll.{AreEvents, KernelLaws, Polls, hypercall_poll-Polls}

abbrev logs : ℕ → HaltFn (List (ℕ × ℕ))
logs n w status cookie = done (record w { rest = (n, status) ∷ w.rest })

abbrev world : World (List (ℕ × ℕ))
world = record {
  hvt = record { mem = λ k. if leb 8 k then 2 else 0; guest_mem_size = 4096 };
  rest = [];
}

abbrev hooks : List (HaltFn (List (ℕ × ℕ)))
hooks = logs 7 ∷ logs 8 ∷ []

register_all-halts_example :
    ((2 ≤ 8)
      × (c : Core (Unit {0}) (Unit {0}) (List (ℕ × ℕ))) × (register_all hooks no_core ≡ some c)
      × (hypercall_halt c world 64 ≡ halts hooks world 64))
    ⊎ ((8 < 2) × (register_all {F = Unit {0}} {V = Unit {0}} hooks no_core ≡ none))
register_all-halts_example = register_all-halts hooks world 64

abbrev order : Run (List (ℕ × ℕ))
order = in_order hooks 64 none world >>= λ w. done w.rest

order_test : order ≡ done ((8, 33686018) ∷ (7, 33686018) ∷ [])
unfolding in_order load32
order_test = refl

-- The state counts the signals that are pending.
abbrev ready_events : ℕ → List ℕ
ready_events n = if leb 2 n then 3 ∷ internal_timerfd ∷ [] else []

abbrev pwait : ℕ → ℕ → ℕ × Wait
pwait zero n = (0, events (ready_events n))
pwait (suc s) n = (s, eintr)

abbrev kernel : Kernel ℕ
kernel = record {
  clock_gettime = λ s. (s, none);
  write = λ s bs. (s, pos (length bs));
  timerfd_settime = λ s a b. (s, true);
  epoll_pwait = pwait;
}

ready_events-AreEvents : (n : ℕ) → AreEvents (ready_events n) × (length (ready_events n) ≤ n)
ready_events-AreEvents n = elim (Bool-cases (leb 2 n)) [
  | inl two ↦ rw two ((inr (omega arith), (inl refl, tt)), ground (arith, two))
  | inr few ↦ rw few (tt, omega arith)
]

events_inj : {a b : List ℕ} → events a ≡ events b → a ≡ b
events_inj e = cc

abbrev kernel-laws : KernelLaws kernel
kernel-laws = record {
  signals = λ s. s;
  timerfd_settime_signals = λ s a b. omega arith;
  epoll_pwait_eintr = interrupted;
  epoll_pwait_events = given;
}
  where
    interrupted : (s n : ℕ) → (pwait s n).1 ≡ eintr → (pwait s n).0 + 1 ≤ s
    interrupted zero n h = absurd (ground (arith, h))
    interrupted (suc s) n h = omega arith

    given : (s n : ℕ) (ds : List ℕ) → (pwait s n).1 ≡ events ds → AreEvents ds × (length ds ≤ n)
    given zero n ds h =
        subst (λ (t : List ℕ). AreEvents t × (length t ≤ n)) (events_inj h)
          (ready_events-AreEvents n)
    given (suc s) n ds h = absurd (ground (arith, h))

abbrev polling : World ℕ
polling = record { hvt = record { mem = λ k. 0; guest_mem_size = 4096 }; rest = 1 }

hypercall_poll-Polls_example : Polls kernel 1 polling 64 (hypercall_poll kernel 5 1 polling 64)
hypercall_poll-Polls_example =
    hypercall_poll-Polls kernel kernel-laws 5 1 polling 64 (omega arith) (omega arith)
