-- ===== src/Wake/Progress.antt =====
-- How long an entry can wait, and how long a shutdown can.
use solo.Base.{
  ℕ, zero, suc, ◌+◌, ◌≤◌, ◌<◌, ◌≡◌, ◌≢◌, ◌⊎◌, inl, inr, refl, ◌∙◌, Bool, Bool-cases, true, false,
  ◌==◌, if◌then◌else◌, arith,
}
use native.Mathlib.Decide.{ℕ_discrete}
use solo.NetGuest.{sub32}
use solo.Wake.{
  Guest, outside, published, kicking, halting, joining, Thread, loop, poll, arm, check, block,
  disarm, snap, serving, ended, System, GuestStep, ThreadStep, publish, needs, polls, kick, stop,
  wake, begin, quit, found, empty, give_up, armed, idle, busy, woken, interrupted, broken, disarmed,
  snapped, serve, served, Reach,
}
use solo.Wake.Invariant.{kicks_next, Inv, GuestStep-Inv, ThreadStep-Inv, Reach-Inv}

-- The entries that a step takes from the ring.
abbrev pub taken : {s t : System} → ThreadStep s t → ℕ
taken (begin _ _) = 0
taken (quit _ _) = 0
taken (found _ _ _) = 0
taken (empty _ _ _) = 0
taken (give_up _) = 0
taken (armed _) = 0
taken (idle _ _) = 0
taken (busy _ _) = 0
taken (woken _ _) = 0
taken (interrupted _) = 0
taken (broken _) = 0
taken (disarmed _) = 0
taken (snapped _) = 0
taken (serve _ _ _) = 1
taken (served _ _ _) = 0

-- Any interleaving from `s` on, with the steps of the I/O thread and the entries it has served.
pub data Run (s : System) : System → ℕ → ℕ → Type 0 where
  here : Run s s 0 0
  guest : {t u : System} {n k : ℕ} → Run s t n k → GuestStep t u → Run s u n k
  thread :
      {t u : System} {n k : ℕ}
      → Run s t n k
      → (step : ThreadStep t u) → Run s u (n + 1) (k + taken step)

-- The steps that the I/O thread needs to serve an entry while one is pending.
abbrev distance : ℕ → Thread → ℕ
distance h ended = 0
distance h snap = 1
distance h disarm = 2
distance h check = 3
distance h block = 7
distance h arm = 4
distance h (poll n) = 5
distance h loop = 6
distance h (serving e) = if h == e then 7 else 0

distance-ThreadStep :
    {s t : System} (step : ThreadStep s t)
    → s.ent_head ≢ s.ent_tail
    → taken step ≡ 0
    → (distance t.ent_head t.thread < distance s.ent_head s.thread)
      × (t.ent_head ≡ s.ent_head)
      × (t.ent_tail ≡ s.ent_tail)
distance-ThreadStep (begin at go) ne none = grind arith
distance-ThreadStep (quit at halt) ne none = grind arith
distance-ThreadStep (found n at other) ne none = grind arith
distance-ThreadStep (empty n at same) ne none = grind arith
distance-ThreadStep (give_up at) ne none = grind arith
distance-ThreadStep (armed at) ne none = grind arith
distance-ThreadStep (idle at same) ne none = grind arith
distance-ThreadStep (busy at other) ne none = grind arith
distance-ThreadStep (woken at some_kick) ne none = grind arith
distance-ThreadStep (interrupted at) ne none = grind arith
distance-ThreadStep (broken at) ne none = grind arith
distance-ThreadStep (disarmed at) ne none = grind arith
distance-ThreadStep (snapped at) ne none = grind arith
distance-ThreadStep (serve e at other) ne none = grind arith
distance-ThreadStep (served e at same) ne none = grind arith

distance-le : (h : ℕ) (t : Thread) → distance h t ≤ 7
distance-le h loop = omega arith
distance-le h (poll n) = omega arith
distance-le h arm = omega arith
distance-le h check = omega arith
distance-le h block = omega arith
distance-le h disarm = omega arith
distance-le h snap = omega arith
distance-le h (serving e) = ground arith
distance-le h ended = omega arith

-- The guest's steps leave a pending entry pending, and the I/O thread where it is.
waiting-GuestStep :
    {s t : System}
    → GuestStep s t
    → Inv s
    → s.ent_head ≢ s.ent_tail
    → (t.ent_head ≢ t.ent_tail) × (t.ent_head ≡ s.ent_head) × (t.thread ≡ s.thread)
waiting-GuestStep {s} (publish at few) inv ne =
    (λ e. ne (omega (arith, e, few, inv.head, inv.tail)), refl, refl)
waiting-GuestStep (needs at on) inv ne = (ne, refl, refl)
waiting-GuestStep (polls at off) inv ne = (ne, refl, refl)
waiting-GuestStep (kick at) inv ne = (ne, refl, refl)
waiting-GuestStep (stop at) inv ne = (ne, refl, refl)
waiting-GuestStep (wake at) inv ne = (ne, refl, refl)

unserved :
    {s t : System} {n k : ℕ}
    → Inv s
    → s.ent_head ≢ s.ent_tail
    → Run s t n k
    → k ≡ 0
    → Inv t
      × (t.ent_head ≢ t.ent_tail)
      × (n + distance t.ent_head t.thread ≤ distance s.ent_head s.thread)
unserved inv ne here none = (inv, ne, omega arith)
unserved inv ne (guest r step) none =
    let (inv', ne', le) = unserved inv ne r none in
    let (still, head, same) = waiting-GuestStep step inv' ne' in
    (GuestStep-Inv step inv', still, rw (head, same) le)
unserved inv ne (thread r step) none =
    let (inv', ne', le) = unserved inv ne r (omega arith) in
    let (lt, head, tail) = distance-ThreadStep step ne' (omega arith) in
    (ThreadStep-Inv step inv', rw (head, tail) ne', omega arith)

-- A step that nobody else has to make happen: not the end of a sleep by a signal or by a failure.
abbrev pub is_own : {s t : System} → ThreadStep s t → Bool
is_own (begin _ _) = true
is_own (quit _ _) = true
is_own (found _ _ _) = true
is_own (empty _ _ _) = true
is_own (give_up _) = true
is_own (armed _) = true
is_own (idle _ _) = true
is_own (busy _ _) = true
is_own (woken _ _) = true
is_own (interrupted _) = false
is_own (broken _) = false
is_own (disarmed _) = true
is_own (snapped _) = true
is_own (serve _ _ _) = true
is_own (served _ _ _) = true

abbrev pub OwnStep : System → Type 0
OwnStep s = (u : System) × (step : ThreadStep s u) × (is_own step ≡ true)

-- The guest's thread is in `ring_submit` between its store and its kick, and its next step goes on with the kick.
abbrev pub IsSubmitting : System → Type 0
IsSubmitting s =
    ((s.guest ≡ published) × GuestStep s (record s { guest = kicking }))
    ⊎ ((s.guest ≡ kicking) × GuestStep s (record s { guest = outside; kicks = s.kicks + 1 }))

-- The thread can go on by itself; it sleeps and the guest is about to kick it; or it has ended, since
-- it was told to or since a `read` failed.
pub data GoesOn (s : System) : Type 0 where
  goes : OwnStep s → GoesOn s
  kicked_next : s.thread ≡ block → IsSubmitting s → GoesOn s
  over : s.thread ≡ ended → (s.io_thread_stop ≡ true) ⊎ (s.failed ≡ true) → GoesOn s

submitting :
    {s : System} (g : Guest)
    → s.guest ≡ g
    → kicks_next g ≡ true
    → s.needs_kick ≡ true
    → IsSubmitting s
submitting outside at e on = absurd (ground (arith, e))
submitting published at e on = inl (at, needs at on)
submitting kicking at e on = inr (at, kick at)
submitting halting at e on = absurd (ground (arith, e))
submitting joining at e on = absurd (ground (arith, e))

goes_on : {s : System} → Inv s → s.ent_head ≢ s.ent_tail → (t : Thread) → s.thread ≡ t → GoesOn s
goes_on {s} inv ne loop e = elim (Bool-cases s.io_thread_stop) [
  | inl halt ↦ goes (_, quit e halt, refl)
  | inr run ↦ goes (_, begin e run, refl)
]
goes_on {s} inv ne (poll zero) e = goes (_, give_up e, refl)
goes_on {s} inv ne (poll (suc n)) e = goes (_, found n e ne, refl)
goes_on {s} inv ne arm e = goes (_, armed e, refl)
goes_on {s} inv ne check e = goes (_, busy e ne, refl)
goes_on {s} inv ne block e = elim (ℕ_discrete s.kicks 0) [
  | no kicks ↦ goes (_, woken e (omega (arith, kicks)), refl)
  | yes none ↦ elim (inv.kicked e none) [
    | inl same ↦ absurd (ne same)
    | inr next ↦ kicked_next e (submitting s.guest refl next (inv.asked (rw e refl)))
  ]
]
goes_on {s} inv ne disarm e = goes (_, disarmed e, refl)
goes_on {s} inv ne snap e = goes (_, snapped e, refl)
goes_on {s} inv ne (serving x) e = elim (ℕ_discrete s.ent_head x) [
  | yes same ↦ goes (_, served x e same, refl)
  | no other ↦ goes (_, serve x e other, refl)
]
goes_on {s} inv ne ended e = over e (inv.over e)

-- Progress: from any reachable state in which an entry is pending, however the guest's steps fall in between and
-- whatever interrupts the sleep, as long as the I/O thread has not served an entry it has taken seven steps at most,
-- and it is not stuck: it can take a step that is not the end of a sleep by a signal or a failure, or it sleeps while
-- the guest's thread is between the store and the kick of a submission and goes on with the kick, or it has ended, since
-- it was told to stop or since a `read` failed.
pub Run-serves :
    {s t : System} {n k : ℕ}
    → Reach s
    → s.ent_head ≢ s.ent_tail
    → Run s t n k
    → k ≡ 0
    → (n ≤ 7) × GoesOn t
Run-serves {s} {t} r ne path none =
    let (inv, ne', le) = unserved (Reach-Inv r) ne path none in
    (omega (arith, distance-le s.ent_head s.thread, le), goes_on inv ne' t.thread refl)

-- The steps that the I/O thread has left once the guest waits in `pthread_join`.
abbrev pub left : System → Thread → ℕ
left s ended = 0
left s loop = 1
left s (serving e) = 2 + sub32 e s.ent_head
left s snap = 3 + sub32 s.ent_tail s.ent_head
left s disarm = 4 + sub32 s.ent_tail s.ent_head
left s block = 5 + sub32 s.ent_tail s.ent_head
left s check = 6 + sub32 s.ent_tail s.ent_head
left s arm = 7 + sub32 s.ent_tail s.ent_head
left s (poll n) = 8 + n + sub32 s.ent_tail s.ent_head

left-ThreadStep :
    {s t : System}
    → ThreadStep s t
    → Inv s
    → s.io_thread_stop ≡ true
    → (left t t.thread < left s s.thread) × (t.io_thread_stop ≡ true) × (t.guest ≡ s.guest)
left-ThreadStep (begin at go) inv halt = grind arith
left-ThreadStep (quit at halt') inv halt = grind arith
left-ThreadStep (found n at other) inv halt = grind arith
left-ThreadStep (empty n at same) inv halt = grind arith
left-ThreadStep (give_up at) inv halt = grind arith
left-ThreadStep (armed at) inv halt = grind arith
left-ThreadStep (idle at same) inv halt = grind arith
left-ThreadStep (busy at other) inv halt = grind arith
left-ThreadStep (woken at some_kick) inv halt = grind arith
left-ThreadStep (interrupted at) inv halt = grind arith
left-ThreadStep (broken at) inv halt = grind arith
left-ThreadStep (disarmed at) inv halt = grind arith
left-ThreadStep (snapped at) inv halt = grind arith
left-ThreadStep {s} (serve e at other) inv halt = grind (arith, inv.bounded e at)
left-ThreadStep (served e at same) inv halt = grind arith

no-GuestStep : {s t : System} → GuestStep s t → s.guest ≡ joining → ⊥
no-GuestStep (publish at few) e = ground (arith, at, e)
no-GuestStep (needs at on) e = ground (arith, at, e)
no-GuestStep (polls at off) e = ground (arith, at, e)
no-GuestStep (kick at) e = ground (arith, at, e)
no-GuestStep (stop at) e = ground (arith, at, e)
no-GuestStep (wake at) e = ground (arith, at, e)

-- A thread that has not ended can take a step, other than by an interruption.
enabled :
    {s : System}
    → Inv s
    → s.guest ≡ joining
    → (t : Thread) → s.thread ≡ t
    → (s.thread ≡ ended) ⊎ OwnStep s
enabled {s} inv joins loop e = inr (_, quit e (inv.stopped (rw joins refl)), refl)
enabled {s} inv joins (poll zero) e = inr (_, give_up e, refl)
enabled {s} inv joins (poll (suc n)) e = elim (ℕ_discrete s.ent_head s.ent_tail) [
  | yes same ↦ inr (_, empty n e same, refl)
  | no other ↦ inr (_, found n e other, refl)
]
enabled {s} inv joins arm e = inr (_, armed e, refl)
enabled {s} inv joins check e = elim (ℕ_discrete s.ent_head s.ent_tail) [
  | yes same ↦ inr (_, idle e same, refl)
  | no other ↦ inr (_, busy e other, refl)
]
enabled {s} inv joins block e = inr (_, woken e (inv.joined joins (rw e refl)), refl)
enabled {s} inv joins disarm e = inr (_, disarmed e, refl)
enabled {s} inv joins snap e = inr (_, snapped e, refl)
enabled {s} inv joins (serving x) e = elim (ℕ_discrete s.ent_head x) [
  | yes same ↦ inr (_, served x e same, refl)
  | no other ↦ inr (_, serve x e other, refl)
]
enabled {s} inv joins ended e = inl e

joining_run :
    {s t : System} {n k : ℕ}
    → Inv s
    → s.guest ≡ joining
    → Run s t n k
    → Inv t × (t.guest ≡ joining) × (n + left t t.thread ≤ left s s.thread)
joining_run inv joins here = (inv, joins, omega arith)
joining_run inv joins (guest r step) =
    let (inv', joins', le) = joining_run inv joins r in absurd (no-GuestStep step joins')
joining_run inv joins (thread r step) =
    let (inv', joins', le) = joining_run inv joins r in
    let (lt, halt, same) = left-ThreadStep step inv' (inv'.stopped (rw joins' refl)) in
    (ThreadStep-Inv step inv', same ∙ joins', omega arith)

-- A shutdown does not hang: in any run from a reachable state in which the guest waits in `pthread_join`, the I/O thread
-- takes no more than a bounded number of steps, and as long as it has not ended it can take one that is not the end of
-- a sleep by a signal or a failure.
pub Run-joins :
    {s t : System} {n k : ℕ}
    → Reach s
    → s.guest ≡ joining
    → Run s t n k
    → (n ≤ left s s.thread) × ((t.thread ≡ ended) ⊎ OwnStep t)
Run-joins {t = t} r joins path =
    let (inv, joins', le) = joining_run (Reach-Inv r) joins path in
    (omega arith, enabled inv joins' t.thread refl)
