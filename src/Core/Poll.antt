-- ===== src/Core/Poll.antt =====
-- tenders/hvt/hvt_core.c: what the poll hypercall answers.
use solo.Base.{
  ℕ, zero, suc, ◌+◌, ◌-◌, ◌*◌, ◌/◌, ◌%◌, ◌^◌, ◌≤◌, ◌<◌, ◌≡◌, ◌⊎◌, inl, inr, refl, ap, ◌∙◌,
  Bool-cases, Bool, true, false, ◌||◌, ◌==◌, ◌!=◌, leb, if◌then◌else◌, List, [], ◌∷◌, length,
  Option, none, some, Run, done, exits, aborts, arith, bit_or,
}
use solo.Base.Digits.{digit, digit-zero, digit-bit_or, bit_or_one}
use solo.Hvt.{checked_gpa_p, load64, store64, store32}
use solo.Hvt.Memory.{checked_gpa_p-cases}
use solo.Core.{
  World, Kernel, Wait, events, eintr, failed, nsecs_per_sec, internal_timerfd, collect, wait_loop,
  poll_answer, hypercall_poll,
}

-- The events that are those of a device, and whether a device is among them.
unfoldable pub devices : List ℕ → List ℕ
devices [] = []
devices (d ∷ ds) = if d == internal_timerfd then devices ds else d ∷ devices ds

unfoldable pub among : ℕ → List ℕ → Bool
among k [] = false
among k (d ∷ ds) = (k == d) || among k ds

-- The data of an event: the timer's, or a handle.
abbrev pub AreEvents : List ℕ → Type 0
AreEvents [] = Unit {0}
AreEvents (d ∷ ds) = ((d ≡ internal_timerfd) ⊎ (d < 64)) × AreEvents ds

-- The word has the digits of `before`, and those of the devices.
abbrev pub IsReadySet : ℕ → List ℕ → ℕ → Type 0
IsReadySet before ds r = (k : ℕ) → digit r k ≡ (if among k ds then 1 else digit before k)

abbrev answer : ℕ → ℕ → Run (ℕ × ℕ)
answer r n = done (n, r)

collect_lem :
    (ds : List ℕ) (n before : ℕ)
    → AreEvents ds
    → length ds ≤ n
    → (r : ℕ) × (collect ds n before ≡ done (n - length ds + length (devices ds), r))
      × IsReadySet before (devices ds) r
unfolding collect devices among
collect_lem [] n before are le = (before, ap (answer before) (omega arith), λ k. refl)
collect_lem (d ∷ ds) n before (is, are) le = elim (Bool-cases (d == internal_timerfd)) [
  | inl timer ↦
      let (r, ends, ready) = collect_lem ds (n - 1) before are (omega (arith, le)) in
      (r, rw timer (ends ∙ ap (answer r) (omega (arith, le))), rw timer ready)
  | inr device ↦
      let (r, ends, ready) = collect_lem ds n (bit_or before (2 ^ d)) are (omega (arith, le)) in
      (
        r,
        rw (device, small device is) (ends ∙ ap (answer r) (omega (arith, le))),
        rw device (λ k. ready k ∙ joined k (among k (devices ds))),
      )
]
  where
    small : (d == internal_timerfd) ≡ false → (d ≡ internal_timerfd) ⊎ (d < 64) → leb 64 d ≡ false
    small device is = ground (arith, device, is)

    joined :
        (k : ℕ) (b : Bool)
        → (if b then 1 else digit (bit_or before (2 ^ d)) k)
          ≡ (if (k == d) || b then 1 else digit before k)
    joined k b = ground (arith, digit-bit_or k d before)

collect_all :
    (ds : List ℕ)
    → AreEvents ds
    → (r : ℕ) × (collect ds (length ds) 0 ≡ done (length (devices ds), r))
      × IsReadySet 0 (devices ds) r
collect_all ds are =
    let (r, went, ready) = collect_lem ds (length ds) 0 are (omega arith) in
    (r, went ∙ ap (answer r) (omega arith), ready)

-- What the wait relies on: an event is the timer's or a registered handle's, there are no more of them than
-- asked for, and only the signals that are pending interrupt it.
pub record KernelLaws {W : Type 0} (os : Kernel W) : Type 0 where
  pub signals : W → ℕ
  pub timerfd_settime_signals : (s : W) (a b : ℕ) → signals (os.timerfd_settime s a b).0 ≤ signals s
  pub epoll_pwait_eintr :
      (s : W) (n : ℕ)
      → (os.epoll_pwait s n).1 ≡ eintr
      → signals (os.epoll_pwait s n).0 + 1 ≤ signals s
  pub epoll_pwait_events :
      (s : W) (n : ℕ) (ds : List ℕ)
      → (os.epoll_pwait s n).1 ≡ events ds
      → AreEvents ds × (length ds ≤ n)

Wait-cases : (r : Wait) → ((ds : List ℕ) × (r ≡ events ds)) ⊎ ((r ≡ eintr) ⊎ (r ≡ failed))
Wait-cases (events ds) = inl (ds, refl)
Wait-cases eintr = inr (inl refl)
Wait-cases failed = inr (inr refl)

module _ {W : Type 0} (os : Kernel W) where
  -- The wait, repeated while it is interrupted, gives these events.
  pub data Waits (nevents : ℕ) : W → List ℕ → W → Type 0 where
    given :
        {s : W} {ds : List ℕ}
        → (os.epoll_pwait s nevents).1 ≡ events ds
        → Waits nevents s ds (os.epoll_pwait s nevents).0
    repeated :
        {s s' : W} {ds : List ℕ}
        → (os.epoll_pwait s nevents).1 ≡ eintr
        → Waits nevents (os.epoll_pwait s nevents).0 ds s'
        → Waits nevents s ds s'

  -- The wait, repeated while it is interrupted, fails.
  pub data FailsWait (nevents : ℕ) : W → Type 0 where
    now : {s : W} → (os.epoll_pwait s nevents).1 ≡ failed → FailsWait nevents s
    again :
        {s : W}
        → (os.epoll_pwait s nevents).1 ≡ eintr
        → FailsWait nevents (os.epoll_pwait s nevents).0
        → FailsWait nevents s

  -- The end of the loop around the wait.
  data Loops (nevents : ℕ) (s : W) : Run (W × Option (List ℕ)) → Type 0 where
    fails :
        {r : Run (W × Option (List ℕ))} (s' : W)
        → r ≡ done (s', none)
        → FailsWait nevents s
        → Loops nevents s r
    gives :
        {r : Run (W × Option (List ℕ))} (s' : W) (ds : List ℕ)
        → r ≡ done (s', some ds)
        → AreEvents ds
        → length ds ≤ nevents
        → Waits nevents s ds s'
        → Loops nevents s r

  module _ (laws : KernelLaws os) where
    open laws use {signals}

    wait_loop-Loops :
        (fuel nevents : ℕ) (s : W)
        → signals s < fuel
        → Loops nevents s (wait_loop os fuel nevents s)
    unfolding wait_loop
    wait_loop-Loops zero nevents s enough = absurd (omega (arith, enough))
    wait_loop-Loops (suc f) nevents s enough = elim (Wait-cases (os.epoll_pwait s nevents).1) [
      | inl (ds, e) ↦
          let (are, few) = laws.epoll_pwait_events s nevents ds e in
          gives (os.epoll_pwait s nevents).0 ds (rw (wait_loop, e) refl) are few (given e)
      | inr (inl e) ↦
          elim (wait_loop-Loops f nevents (os.epoll_pwait s nevents).0
            (omega (arith, enough, laws.epoll_pwait_eintr s nevents e))) [
              | fails s' ends bad ↦ fails s' (rw (wait_loop, e) ends) (again e bad)
              | gives s' ds ends are few waits ↦
                  gives s' ds (rw (wait_loop, e) ends) are few (repeated e waits)
            ]
      | inr (inr e) ↦ fails (os.epoll_pwait s nevents).0 (rw (wait_loop, e) refl) (now e)
    ]

  -- What the timer is set to for a timeout: a time that is not zero, the timeout or a nanosecond more.
  pub record IsTimer (timeout seconds nanoseconds : ℕ) : Type 0 where
    pub normal : nanoseconds < nsecs_per_sec
    pub at_least : timeout ≤ seconds * nsecs_per_sec + nanoseconds
    pub at_most : seconds * nsecs_per_sec + nanoseconds ≤ timeout + 1
    pub armed : 0 < seconds * nsecs_per_sec + nanoseconds

  -- What the poll hypercall has done when it returns, for an argument at `t`.
  pub record Answers (npollfds : ℕ) (w : World W) (t : ℕ) (r : Run (World W)) : Type 0 where
    pub seconds : ℕ
    pub nanoseconds : ℕ
    pub timer : IsTimer (load64 w.hvt.mem t) seconds nanoseconds
    pub timed : (os.timerfd_settime w.rest seconds nanoseconds).1 ≡ true
    pub ready : List ℕ
    pub few : length ready ≤ npollfds + 1
    pub waited : W
    pub waits :
        Waits
          (if npollfds != 0 then npollfds + 1 else 1)
          (os.timerfd_settime w.rest seconds nanoseconds).0
          ready
          waited
    pub ready_set : ℕ
    pub digits : (k : ℕ) → digit ready_set k ≡ (if among k (devices ready) then 1 else 0)
    pub ends :
        r
        ≡ done (record {
          hvt = record (w.hvt) {
            mem = store32 (store64 w.hvt.mem (t + 8) ready_set) (t + 16) (length (devices ready));
          };
          rest = waited;
        })

  pub data Polls (npollfds : ℕ) (w : World W) (gpa : ℕ) (r : Run (World W)) : Type 0 where
    refused : checked_gpa_p w.hvt gpa 24 ≡ exits 1 → r ≡ exits 1 → Polls npollfds w gpa r
    no_timer :
        (seconds nanoseconds : ℕ)
        → checked_gpa_p w.hvt gpa 24 ≡ done gpa
        → IsTimer (load64 w.hvt.mem gpa) seconds nanoseconds
        → (os.timerfd_settime w.rest seconds nanoseconds).1 ≡ false
        → r ≡ exits 1
        → Polls npollfds w gpa r
    no_wait :
        (seconds nanoseconds : ℕ)
        → checked_gpa_p w.hvt gpa 24 ≡ done gpa
        → IsTimer (load64 w.hvt.mem gpa) seconds nanoseconds
        → (os.timerfd_settime w.rest seconds nanoseconds).1 ≡ true
        → FailsWait
            (if npollfds != 0 then npollfds + 1 else 1)
            (os.timerfd_settime w.rest seconds nanoseconds).0
        → r ≡ aborts
        → Polls npollfds w gpa r
    answers :
        checked_gpa_p w.hvt gpa 24 ≡ done gpa → Answers npollfds w gpa r → Polls npollfds w gpa r

  module _ (laws : KernelLaws os) where
    open laws use {signals}

    -- For guest memory of fewer than 2^64 bytes and with more fuel than signals are pending, the poll hypercall ends: the
    -- tender exits with status 1 on a bad address or if the timer
    -- cannot be set, an assertion stops it if the wait fails otherwise than by a signal, or it answers. Then the timer was set to a time
    -- that is not zero, has a normal number of nanoseconds and is the time asked for or a nanosecond
    -- more; the wait was repeated while it was interrupted; the bit of a handle is set in the ready
    -- set exactly if an event of its device came, and the result is the number of such events.
    -- Events of the internal timer count for neither.
    pub hypercall_poll-Polls :
        (fuel npollfds : ℕ) (w : World W) (gpa : ℕ)
        → w.hvt.guest_mem_size < 2 ^ 64
        → signals w.rest < fuel
        → Polls npollfds w gpa (hypercall_poll os fuel npollfds w gpa)
    unfolding hypercall_poll poll_answer
    hypercall_poll-Polls fuel npollfds w gpa size enough =
        elim (checked_gpa_p-cases w.hvt gpa 24 size) [
          | inr (out, bad) ↦ refused bad (rw bad refl)
          | inl (inside, ok) ↦ elim (Bool-cases (os.timerfd_settime w.rest seconds nanoseconds).1) [
            | inr unset ↦ no_timer seconds nanoseconds ok is_timer unset (rw (ok, unset) refl)
            | inl timer ↦
                elim (wait_loop-Loops laws fuel nevents
                  (os.timerfd_settime w.rest seconds nanoseconds).0
                  (omega
                    (arith, enough, laws.timerfd_settime_signals w.rest seconds nanoseconds))) [
                      | fails s' ends bad ↦
                          no_wait seconds nanoseconds ok is_timer timer bad
                            (rw (ok, timer, ends) refl)
                      | gives s' ds ends are few waits ↦
                          let (ready_set, went, ready) = collect_all ds are in
                          answers ok (record {
                            seconds = seconds;
                            nanoseconds = nanoseconds;
                            timer = is_timer;
                            timed = timer;
                            ready = ds;
                            few = ground (arith, few);
                            waited = s';
                            waits = waits;
                            ready_set = ready_set;
                            digits = λ k. ready k ∙ blank k (among k (devices ds));
                            ends = rw (ok, timer, ends, went) refl;
                          })
                    ]
          ]
        ]
      where
        timeout : ℕ
        timeout = load64 w.hvt.mem gpa

        nevents : ℕ
        nevents = if npollfds != 0 then npollfds + 1 else 1

        seconds : ℕ
        seconds = timeout / nsecs_per_sec

        nanoseconds : ℕ
        nanoseconds = bit_or (timeout % nsecs_per_sec) 1

        timed : nanoseconds ≡ timeout % nsecs_per_sec / 2 * 2 + 1
        timed = bit_or_one (timeout % nsecs_per_sec)

        is_timer : IsTimer timeout seconds nanoseconds
        is_timer = record {
          normal = omega (arith, timed);
          at_least = omega (arith, timed);
          at_most = omega (arith, timed);
          armed = omega (arith, timed);
        }

        blank : (k : ℕ) (b : Bool) → (if b then 1 else digit 0 k) ≡ (if b then 1 else 0)
        blank k b = ap (λ (n : ℕ). if b then 1 else n) (digit-zero k)
