-- ===== src/Tsc/Scale.antt =====
-- bindings/hvt/tscclock.c: the multiplier and the shift.
use native.Mathlib.Nat.{pow-suc, le-div_iff_mul-le, div-le_self, div-eq_of_lt}
use native.Mathlib.Decide.{dec_lt}
use solo.Base.{
  ℕ, zero, suc, ◌-◌, ◌*◌, ◌/◌, ◌^◌, ◌≤◌, ◌<◌, ◌≡◌, ◌≢◌, refl, ap, ◌∙◌, subst, true, false, ◌==◌,
  ◌!=◌, ◌&&◌, ltb, done, out_of_fuel, arith,
}
use solo.Tsc.{Clock, nsec_per_sec, mul64_32, scale_loop, tscclock_init}

abbrev quotient : ℕ → ℕ → ℕ
quotient freq s = nsec_per_sec * 2 ^ s / freq

-- The largest shift up to 32 whose multiplier fits 32 bits, with that multiplier, which is not zero.
pub record IsScale (freq shift mult : ℕ) : Type 0 where
  pub min : 1 ≤ shift
  pub max : shift ≤ 32
  pub is : mult ≡ nsec_per_sec * 2 ^ shift / freq
  pub nonzero : mult ≢ 0
  pub fits : mult < 2 ^ 32
  pub largest : (s : ℕ) → shift < s → s ≤ 32 → 2 ^ 32 ≤ nsec_per_sec * 2 ^ s / freq

half : (freq s : ℕ) → 0 < freq → 2 ^ 32 ≤ quotient freq (suc s) → 2 ^ 31 ≤ quotient freq s
half freq s pos_freq ge = (le-div_iff_mul-le pos_freq).1 (
    omega (
      arith,
      (le-div_iff_mul-le {x = 2 ^ 32} pos_freq).0 ge,
      ap (λ (t : ℕ). nsec_per_sec * t) (pow-suc 2 s),
    ))

-- With a shift of one the quotient fits already.
low_fits : (freq : ℕ) → quotient freq 1 < 2 ^ 32
low_fits freq = omega (arith, div-le_self (nsec_per_sec * 2 ^ 1) freq)

loop_fits :
    (f freq s : ℕ)
    → quotient freq (suc s) < 2 ^ 32
    → quotient freq (suc s) ≢ 0
    → scale_loop (suc f) freq (suc s) 0 ≡ done (suc s, quotient freq (suc s))
unfolding scale_loop
loop_fits f freq s fits nonzero = rw (low, stays) refl
  where
    low : (quotient freq (suc s) / 2 ^ 32 == 0) ≡ true
    low = ground arith

    stays : (ltb 0 (suc s) && (quotient freq (suc s) == 0)) ≡ false
    stays = ground (arith, nonzero)

loop_shifts :
    (f freq s : ℕ)
    → 2 ^ 32 ≤ quotient freq (suc (suc s))
    → scale_loop (suc f) freq (suc (suc s)) 0 ≡ scale_loop f freq (suc s) 0
unfolding scale_loop
loop_shifts f freq s big = rw (high, less, goes_on) refl
  where
    high : (quotient freq (suc (suc s)) / 2 ^ 32 == 0) ≡ false
    high = ground arith

    less : suc (suc s) - 1 ≡ suc s
    less = omega arith

    goes_on : (ltb 0 (suc s) && (0 == 0)) ≡ true
    goes_on = ground arith

below :
    (freq s : ℕ)
    → ((r : ℕ) → suc (suc s) < r → r ≤ 32 → 2 ^ 32 ≤ quotient freq r)
    → 2 ^ 32 ≤ quotient freq (suc (suc s))
    → (r : ℕ) → suc s < r
    → r ≤ 32
    → 2 ^ 32 ≤ quotient freq r
below freq s above big r gt le = elim (dec_lt (suc (suc s)) r) [
  | yes more ↦ above r more le
  | no not_more ↦ subst (λ t. 2 ^ 32 ≤ quotient freq t) (equal not_more) big
]
  where
    equal : ¬ (suc (suc s) < r) → suc (suc s) ≡ r
    equal not_more = omega (arith, not_more)

loop_returns :
    (freq s : ℕ)
    → 0 < freq
    → s ≤ 31
    → (quotient freq (suc s) < 2 ^ 32)
    → quotient freq (suc s) ≢ 0
    → ((r : ℕ) → suc s < r → r ≤ 32 → 2 ^ 32 ≤ quotient freq r)
    → IsScale freq (suc s) (quotient freq (suc s))
loop_returns freq s pos_freq small fits nonzero above = record {
  min = omega arith;
  max = omega (arith, small);
  is = refl;
  nonzero = nonzero;
  fits = fits;
  largest = above;
}

-- The loop from a shift of `s + 1` with a multiplier of zero.
scale_loop-IsScale :
    (f freq s : ℕ)
    → 0 < freq
    → s ≤ f
    → s ≤ 31
    → quotient freq (suc s) ≢ 0
    → ((r : ℕ) → suc s < r → r ≤ 32 → 2 ^ 32 ≤ quotient freq r)
    → (shift mult : ℕ) × (scale_loop (suc f) freq (suc s) 0 ≡ done (shift, mult))
      × IsScale freq shift mult
scale_loop-IsScale f freq zero pos_freq le small nonzero above = (
  1,
  quotient freq 1,
  loop_fits f freq 0 (low_fits freq) nonzero,
  loop_returns freq 0 pos_freq small (low_fits freq) nonzero above,
)
scale_loop-IsScale zero freq (suc s) pos_freq le small nonzero above = absurd (omega (arith, le))
scale_loop-IsScale (suc f) freq (suc s) pos_freq le small nonzero above =
    let shifts = λ (big : 2 ^ 32 ≤ quotient freq (suc (suc s))).
      scale_loop-IsScale f freq s pos_freq (omega (arith, le)) (omega (arith, small))
        (omega (arith, half freq (suc s) pos_freq big)) (below freq s above big) in
    elim (dec_lt (quotient freq (suc (suc s))) (2 ^ 32)) [
      | yes fits ↦ (
        suc (suc s),
        quotient freq (suc (suc s)),
        loop_fits (suc f) freq (suc s) fits nonzero,
        loop_returns freq (suc s) pos_freq small fits nonzero above,
      )
      | no big ↦
          let rest = shifts (omega (arith, big)) in
          (rest.0, rest.1, loop_shifts (suc f) freq s (omega (arith, big)) ∙ rest.2, rest.3)
    ]

first_nonzero : (freq : ℕ) → 0 < freq → freq ≤ nsec_per_sec * 2 ^ 32 → quotient freq 32 ≢ 0
first_nonzero freq pos_freq le =
    omega (
      arith,
      (le-div_iff_mul-le {x = 1} {y = nsec_per_sec * 2 ^ 32} pos_freq).1 (omega (arith, le)),
    )

-- For a frequency from 1 to 10^9 · 2^32, which includes every frequency that hardware has, the
-- set-up returns within 32 rounds of its loop. The shift it leaves is the largest from 1 to 32 for
-- which the multiplier 10^9 · 2^shift / frequency fits 32 bits; the multiplier is that quotient
-- and is not zero; the clock's TSC base is the reading that the set-up took.
pub tscclock_init-IsScale :
    (freq tsc_now : ℕ)
    → 0 < freq
    → freq ≤ nsec_per_sec * 2 ^ 32
    → (c : Clock) × (tscclock_init 32 freq tsc_now ≡ done c)
      × IsScale freq c.tsc_shift c.tsc_mult
      × (c.tsc_base ≡ tsc_now)
      × (c.time_base ≡ mul64_32 tsc_now c.tsc_mult c.tsc_shift)
unfolding tscclock_init
tscclock_init-IsScale freq tsc_now pos_freq le =
    let loop =
      scale_loop-IsScale 31 freq 31 pos_freq (omega arith) (omega arith)
        (first_nonzero freq pos_freq le) (λ r gt small. omega (arith, gt, small)) in
    (
      record {
        time_base = mul64_32 tsc_now loop.1 loop.0;
        tsc_base = tsc_now;
        tsc_shift = loop.0;
        tsc_mult = loop.1;
      },
      rw (positive, loop.2, used loop.1 loop.3.nonzero) refl,
      loop.3,
      refl,
      refl,
    )
  where
    positive : (freq == 0) ≡ false
    positive = ground arith

    used : (m : ℕ) → m ≢ 0 → (m != 0) ≡ true
    used m nonzero = ground (arith, nonzero)

-- Above 10^9 · 2^32 the quotient is zero at the shift the loop starts with. It fits, so the shift
-- stays as it is: whatever the fuel, the loop has not ended.
pub scale_loop-endless :
    (f freq : ℕ) → nsec_per_sec * 2 ^ 32 < freq → scale_loop f freq 32 0 ≡ out_of_fuel
unfolding scale_loop
scale_loop-endless zero freq high = refl
scale_loop-endless (suc f) freq high = rw (none_left, scale_loop-endless f freq high) refl
  where
    none_left : nsec_per_sec * 2 ^ 32 / freq ≡ 0
    none_left = div-eq_of_lt high
