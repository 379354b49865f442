-- ===== src/Tsc.antt =====
-- bindings/hvt/tscclock.c, with `mul64_32` of bindings/cpu_x86_64.h: monotonic time from the
-- time-stamp counter, whose readings are arguments. The loop of `tscclock_init` is recursion on fuel.
pub mod Scale
pub mod Time
use solo.Base.{
  ℕ, zero, suc, ◌+◌, ◌-◌, ◌*◌, ◌/◌, ◌%◌, ◌^◌, Bool, ◌==◌, ◌!=◌, ◌&&◌, ltb, if◌then◌else◌, Run, done,
  faults, out_of_fuel, ◌>>=◌, ◌>>◌, c_assert,
}

abbrev pub nsec_per_sec : ℕ
nsec_per_sec = 10 ^ 9

pub record Clock : Type 0 where
  pub time_base : ℕ
  pub tsc_base : ℕ
  pub tsc_shift : ℕ
  pub tsc_mult : ℕ

-- The low 64 bits of the shifted 128-bit product.
unfoldable pub mul64_32 : ℕ → ℕ → ℕ → ℕ
mul64_32 a b s = a * b / 2 ^ s % 2 ^ 64

unfoldable pub tscclock_monotonic : Clock → ℕ → Clock
tscclock_monotonic c tsc_now =
    let tsc_delta = (tsc_now + 2 ^ 64 - c.tsc_base) % 2 ^ 64 in
    record c {
      time_base = (c.time_base + mul64_32 tsc_delta c.tsc_mult c.tsc_shift) % 2 ^ 64;
      tsc_base = tsc_now;
    }

-- The loop of `tscclock_init`, with `tsc_shift` and `tsc_mult`.
unfoldable pub scale_loop : ℕ → ℕ → ℕ → ℕ → Run (ℕ × ℕ)
scale_loop zero tsc_freq shift mult = out_of_fuel
scale_loop (suc f) tsc_freq shift mult =
    let tmp = nsec_per_sec * 2 ^ shift / tsc_freq in
    let fits = tmp / 2 ^ 32 == 0 in
    let shift = if fits then shift else shift - 1 in
    let mult = if fits then tmp else mult in
    let again = scale_loop f tsc_freq shift mult in
    if ltb 0 shift && (mult == 0) then again else done (shift, mult)

-- `tscclock_init`, with a reading of the counter. The variables are zero before it.
unfoldable pub tscclock_init : ℕ → ℕ → ℕ → Run Clock
tscclock_init fuel tsc_freq tsc_base =
    if tsc_freq == 0
    then faults
    else (scale_loop fuel tsc_freq 32 0 >>= λ q.
        let (shift, mult) = q in
        c_assert (mult != 0)
        >> done (record {
          time_base = mul64_32 tsc_base mult shift;
          tsc_base = tsc_base;
          tsc_shift = shift;
          tsc_mult = mult;
        }))
