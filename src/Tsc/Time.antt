-- ===== src/Tsc/Time.antt =====
-- bindings/hvt/tscclock.c: the time of readings in order. It never runs ahead of the counter.
use native.Mathlib.Nat.{
  mul_assoc, mul_comm, add-mul, mul-le-mul_left, mul-le-mul_right, div-mul-le_self, one-le-pow,
  le_trans, le_of_mul-le-mul_right,
}
use native.Mathlib.Decide.{dec_lt}
use solo.Base.{
  ℕ, ◌+◌, ◌-◌, ◌*◌, ◌/◌, ◌%◌, ◌^◌, ◌≤◌, ◌<◌, ◌≡◌, refl, sym, ap, ◌∙◌, subst, List, [], ◌∷◌, arith,
}
use solo.Tsc.{Clock, nsec_per_sec, mul64_32, tscclock_monotonic}
use solo.Tsc.Scale.{IsScale}

-- The clock after a call of `tscclock_monotonic` at each reading of the counter.
unfoldable pub after_readings : Clock → List ℕ → Clock
after_readings c [] = c
after_readings c (tsc_now ∷ readings) = after_readings (tscclock_monotonic c tsc_now) readings

-- Readings that do not go back, from one of `first` to one of `last`.
pub data Ordered : ℕ → List ℕ → ℕ → Type 0 where
  at_end : {t : ℕ} → Ordered t [] t
  next :
      {t u last : ℕ} {readings : List ℕ}
      → t ≤ u
      → Ordered u readings last
      → Ordered t (u ∷ readings) last

Ordered-le : {first last : ℕ} {readings : List ℕ} → Ordered first readings last → first ≤ last
Ordered-le at_end = omega arith
Ordered-le (next le rest) = omega (arith, le, Ordered-le rest)

cancelled :
    (q p ticks mult freq nsec : ℕ)
    → 0 < p
    → q * p ≤ ticks * mult
    → mult * freq ≤ nsec * p
    → q * freq ≤ ticks * nsec
cancelled q p ticks mult freq nsec pos le_mult le_nsec =
    le_of_mul-le-mul_right
      (subst (λ t. t ≤ ticks * nsec * p) swapped
        (le_trans (mul-le-mul_right freq le_mult) (
          subst (λ t. t ≤ ticks * nsec * p) (sym (mul_assoc ticks mult freq))
            (subst (λ t. ticks * (mult * freq) ≤ t) (sym (mul_assoc ticks nsec p))
              (mul-le-mul_left ticks le_nsec)))))
      pos
  where
    swapped : q * p * freq ≡ q * freq * p
    swapped = mul_assoc q p freq ∙ ap (λ t. q * t) (mul_comm p freq) ∙ sym (mul_assoc q freq p)

lt_of_mul : {a b : ℕ} (k : ℕ) → a * k < b * k → a < b
lt_of_mul {a = a} {b = b} k lt = elim (dec_lt a b) [
  | yes is ↦ is
  | no not_lt ↦
      absurd (omega (arith, lt, mul-le-mul_right {m = b} {n = a} k (omega (arith, not_lt))))
]

-- The nanoseconds of some ticks are not more than their true duration.
scaled_le :
    (freq shift mult ticks : ℕ)
    → 0 < freq
    → IsScale freq shift mult
    → ticks * mult / 2 ^ shift * freq ≤ ticks * nsec_per_sec
scaled_le freq shift mult ticks pos_freq scale =
    cancelled (ticks * mult / 2 ^ shift) (2 ^ shift) ticks mult freq nsec_per_sec
      (one-le-pow shift 2 (omega arith)) (div-mul-le_self (ticks * mult) (2 ^ shift))
      (subst (λ t. t * freq ≤ nsec_per_sec * 2 ^ shift) (sym scale.is)
        (div-mul-le_self (nsec_per_sec * 2 ^ shift) freq))

-- One reading, with its product and its sum written without the remainders.
tscclock_monotonic_lem :
    (c : Clock) (freq tsc_now : ℕ)
    → 0 < freq
    → IsScale freq c.tsc_shift c.tsc_mult
    → c.tsc_base ≤ tsc_now
    → tsc_now < 2 ^ 64
    → c.time_base * freq + (tsc_now - c.tsc_base) * nsec_per_sec < 2 ^ 64 * freq
    → (elapsed : ℕ) × ((tscclock_monotonic c tsc_now).time_base ≡ c.time_base + elapsed)
      × (elapsed * freq ≤ (tsc_now - c.tsc_base) * nsec_per_sec)
unfolding mul64_32 tscclock_monotonic
tscclock_monotonic_lem c freq tsc_now pos_freq scale le small room =
    (elapsed, rw (delta, no_wrap, no_wrap_sum) refl, slow)
  where
    elapsed : ℕ
    elapsed = (tsc_now - c.tsc_base) * c.tsc_mult / 2 ^ c.tsc_shift

    slow : elapsed * freq ≤ (tsc_now - c.tsc_base) * nsec_per_sec
    slow = scaled_le freq c.tsc_shift c.tsc_mult (tsc_now - c.tsc_base) pos_freq scale

    sum_small : c.time_base + elapsed < 2 ^ 64
    sum_small = lt_of_mul freq (omega (arith, room, slow, add-mul c.time_base elapsed freq))

    delta : (tsc_now + 2 ^ 64 - c.tsc_base) % 2 ^ 64 ≡ tsc_now - c.tsc_base
    delta = omega (arith, le, small)

    no_wrap : elapsed % 2 ^ 64 ≡ elapsed
    no_wrap = omega (arith, sum_small)

    no_wrap_sum : (c.time_base + elapsed) % 2 ^ 64 ≡ c.time_base + elapsed
    no_wrap_sum = omega (arith, sum_small)

-- For a clock with the set-up's shift and multiplier, for readings of the counter in order that
-- stay below 2^64, and as long as the true time they span still fits 64 bits of nanoseconds: the
-- time never goes back, it never runs ahead of the counter (nanoseconds times frequency are at
-- most ticks times 10^9, over all the readings together), and the TSC base is the last reading.
pub after_readings-Slow :
    (readings : List ℕ) (c : Clock) (freq last : ℕ)
    → 0 < freq
    → IsScale freq c.tsc_shift c.tsc_mult
    → Ordered c.tsc_base readings last
    → last < 2 ^ 64
    → c.time_base * freq + (last - c.tsc_base) * nsec_per_sec < 2 ^ 64 * freq
    → (c.time_base ≤ (after_readings c readings).time_base)
      × ((after_readings c readings).time_base * freq
          ≤ c.time_base * freq + (last - c.tsc_base) * nsec_per_sec)
      × ((after_readings c readings).tsc_base ≡ last)
unfolding after_readings tscclock_monotonic
after_readings-Slow [] c freq last pos_freq scale at_end small room =
    (omega arith, omega arith, refl)
after_readings-Slow (t ∷ ts) c freq last pos_freq scale (next le rest) small room =
    let step =
      tscclock_monotonic_lem c freq t pos_freq scale le (omega (arith, Ordered-le rest, small))
        (omega (arith, Ordered-le rest, room)) in
    let product = ap (λ x. x * freq) step.1 ∙ add-mul c.time_base step.0 freq in
    let tail =
      after_readings-Slow ts (tscclock_monotonic c t) freq last pos_freq scale rest small
        (omega (arith, Ordered-le rest, room, product, step.2)) in
    (
      omega (arith, tail.0, step.1),
      omega (arith, tail.1, product, step.2, le, Ordered-le rest),
      tail.2,
    )
