-- ===== src/Core.antt =====
-- tenders/hvt/hvt_core.c: the tables of hypercalls, halt hooks and exit handlers, the halt hypercall,
-- and the hypercalls of the core module, with poll as it is on Linux. A table's entries are taken as
-- they are registered; the number of a hypercall is not negative. The calls of the host kernel
-- are a parameter; the loop that repeats an interrupted wait is recursion on fuel.
pub mod Halt
pub mod Poll
use solo.Base.{
  ℕ, zero, suc, ◌+◌, ◌-◌, ◌*◌, ◌/◌, ◌%◌, ◌^◌, Bool, not, ◌==◌, ◌!=◌, ltb, leb, if◌then◌else◌, List,
  [], ◌∷◌, length, get_elem?, set, replicate, Option, none, some, Run, done, exits, aborts, faults,
  out_of_fuel, ◌>>=◌, ◌>>◌, read_at, c_assert, bit_or, ℤ, pos, negsuc,
}
use solo.Hvt.{Memory, Hvt, checked_gpa_p, load_bytes, load64, load32, store64, store32}

abbrev pub hvt_hypercall_max : ℕ
hvt_hypercall_max = 9

abbrev pub hvt_halt_hooks_max : ℕ
hvt_halt_hooks_max = 8

abbrev pub num_modules : ℕ
num_modules = 8

abbrev pub hvt_halt_cookie_max : ℕ
hvt_halt_cookie_max = 512

-- Guest memory, with what else the hooks may change.
pub record World (W : Type 0) : Type 0 where
  pub hvt : Hvt
  pub rest : W

-- `hvt_halt_fn_t`: the exit status and the cookie, `none` for NULL. A hook may end the process.
abbrev pub HaltFn : Type 0 → Type 0
HaltFn W = World W → ℕ → Option ℕ → Run (World W)

-- The tables, with an F for a hypercall's function and a V for an exit handler.
pub record Core (F V W : Type 0) : Type 0 where
  pub hypercalls : List (Option F)
  pub halt_hooks : List (Option (HaltFn W))
  pub nr_halt_hooks : ℕ
  pub vmexits : List (Option V)
  pub nvmexits : ℕ

abbrev pub no_core : {F V W : Type 0} → Core F V W
no_core = record {
  hypercalls = replicate hvt_hypercall_max none;
  halt_hooks = replicate hvt_halt_hooks_max none;
  nr_halt_hooks = 0;
  vmexits = replicate (num_modules + 1) none;
  nvmexits = 0;
}

-- The calls of the host kernel: the time of day, the terminal, the timer and the wait. A wait gives the data of
-- the events that are ready.
pub data Wait : Type 0 where
  events : List ℕ → Wait
  eintr : Wait
  failed : Wait

pub record Kernel (W : Type 0) : Type 1 where
  pub clock_gettime : W → W × Option (ℕ × ℕ)
  pub write : W → List ℕ → W × ℤ
  pub timerfd_settime : W → ℕ → ℕ → W × Bool
  pub epoll_pwait : W → ℕ → W × Wait

abbrev pub nsecs_per_sec : ℕ
nsecs_per_sec = 1000000000

-- `~1U`
abbrev pub internal_timerfd : ℕ
internal_timerfd = 2 ^ 32 - 2

-- The loop over the events, with `nrevents` and `ready_set`. A shift by the word's width or more is undefined.
unfoldable pub collect : List ℕ → ℕ → ℕ → Run (ℕ × ℕ)
collect [] nrevents ready_set = done (nrevents, ready_set)
collect (d ∷ ds) nrevents ready_set =
    if d == internal_timerfd
    then collect ds (nrevents - 1) ready_set
    else if leb 64 d
    then faults
    else collect ds nrevents (bit_or ready_set (2 ^ d))

module _ {W : Type 0} where
  -- The loop over the hooks from the index `idx` on, with the rounds that are left.
  unfoldable pub run_hooks :
      List (Option (HaltFn W)) → ℕ → ℕ → ℕ → Option ℕ → World W → Run (World W)
  run_hooks hooks idx zero t cookie w = done w
  run_hooks hooks idx (suc n) t cookie w = read_at (get_elem? hooks idx) >>= λ o. elim o [
    | none ↦ aborts
    | some fn ↦
        fn w (load32 w.hvt.mem (t + 8)) cookie >>= λ w'. run_hooks hooks (idx + 1) n t cookie w'
  ]

module _ {F V W : Type 0} where
  -- `none` is the result -1.
  unfoldable pub register_hypercall : ℕ → F → Core F V W → Option (Core F V W)
  register_hypercall nr fn c =
      if leb hvt_hypercall_max nr then none else elim (get_elem? c.hypercalls nr) [
        | some none ↦ some (record c { hypercalls = set c.hypercalls nr (some fn) })
        | _ ↦ none
      ]

  unfoldable pub register_halt_hook : HaltFn W → Core F V W → Option (Core F V W)
  register_halt_hook fn c =
      if c.nr_halt_hooks == hvt_halt_hooks_max
      then none
      else some (record c {
        halt_hooks = set c.halt_hooks c.nr_halt_hooks (some fn);
        nr_halt_hooks = c.nr_halt_hooks + 1;
      })

  unfoldable pub register_vmexit : V → Core F V W → Option (Core F V W)
  register_vmexit fn c =
      if c.nvmexits == num_modules
      then none
      else some
          (record c { vmexits = set c.vmexits c.nvmexits (some fn); nvmexits = c.nvmexits + 1 })

  -- `hvt_core_hypercall_halt`: the argument has the cookie first, and behind it the exit status.
  unfoldable pub hypercall_halt : Core F V W → World W → ℕ → Run (World W × ℕ)
  hypercall_halt c w gpa = checked_gpa_p w.hvt gpa 16 >>= λ t.
      (if load64 w.hvt.mem t != 0
        then (checked_gpa_p w.hvt (load64 w.hvt.mem t) hvt_halt_cookie_max >>= λ p. done (some p))
        else done none)
      >>= λ cookie. run_hooks c.halt_hooks 0 c.nr_halt_hooks t cookie w >>= λ w'.
          done (w', load32 w'.hvt.mem (t + 8))

module _ {W : Type 0} (os : Kernel W) where
  open os use {clock_gettime, write, timerfd_settime, epoll_pwait}

  unfoldable pub hypercall_walltime : World W → ℕ → Run (World W)
  hypercall_walltime w gpa = checked_gpa_p w.hvt gpa 8 >>= λ t.
      let (rest, r) = clock_gettime w.rest in
      elim r [
        | none ↦ aborts
        | some (tv_sec, tv_nsec) ↦ done (record {
          hvt = record (w.hvt) {
            mem = store64 w.hvt.mem t ((tv_sec * nsecs_per_sec + tv_nsec) % 2 ^ 64);
          };
          rest = rest;
        })
      ]

  unfoldable pub hypercall_puts : World W → ℕ → Run (World W)
  hypercall_puts w gpa = checked_gpa_p w.hvt gpa 16 >>= λ p.
      let len = load64 w.hvt.mem (p + 8) in
      checked_gpa_p w.hvt (load64 w.hvt.mem p) len >>= λ q.
      let (rest, rc) = write w.rest (load_bytes w.hvt.mem q len) in
      elim rc [ pos _ ↦ done (record w { rest = rest }) | negsuc _ ↦ aborts ]

  -- The loop around `epoll_pwait`: the events, or `none` for another error than EINTR.
  unfoldable pub wait_loop : ℕ → ℕ → W → Run (W × Option (List ℕ))
  wait_loop zero nevents s = out_of_fuel
  wait_loop (suc f) nevents s =
      let (s', r) = epoll_pwait s nevents in
      let again = wait_loop f nevents s' in
      elim r [ events ds ↦ done (s', some ds) | eintr ↦ again | failed ↦ done (s', none) ]

  -- What follows the wait: the words `ready_set` and `ret` of the argument at `t`.
  unfoldable pub poll_answer : World W → ℕ → W → Option (List ℕ) → Run (World W)
  poll_answer w t s none = aborts
  poll_answer w t s (some ds) = collect ds (length ds) 0 >>= λ q.
      let (nrevents, ready_set) = q in
      done (record {
        hvt = record (w.hvt) {
          mem = store32 (store64 w.hvt.mem (t + 8) ready_set) (t + 16) nrevents;
        };
        rest = s;
      })

  -- `hypercall_poll`, with `npollfds` device descriptors in the wait set.
  unfoldable pub hypercall_poll : ℕ → ℕ → World W → ℕ → Run (World W)
  hypercall_poll fuel npollfds w gpa = checked_gpa_p w.hvt gpa 24 >>= λ t.
      let timeout_nsecs = load64 w.hvt.mem t in
      let nevents = if npollfds != 0 then npollfds + 1 else 1 in
      let (s, ok) =
        timerfd_settime w.rest (timeout_nsecs / nsecs_per_sec)
          (bit_or (timeout_nsecs % nsecs_per_sec) 1) in
      if not ok
      then exits 1
      else (wait_loop fuel nevents s >>= λ q. let (s', r) = q in poll_answer w t s' r)
