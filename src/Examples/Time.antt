-- ===== src/Examples/Time.antt =====
-- Dates, and a counter of 1 GHz.
use solo.Base.{ℕ, ◌+◌, ◌*◌, ◌^◌, ◌/◌, ◌≤◌, ◌≡◌, [], ◌∷◌, refl, arith, done}
use solo.Clock.{ClockYmdhms, clock_ymdhms_to_secs}
use solo.Clock.Seconds.{IsDate, calendar_secs, clock_ymdhms_to_secs-calendar}
use solo.Tsc.{Clock, mul64_32, tscclock_init}
use solo.Tsc.Scale.{IsScale, tscclock_init-IsScale}
use solo.Tsc.Time.{at_end, next, after_readings, after_readings-Slow}

-- The first of March 2100.
abbrev march : ClockYmdhms
march = record { dt_year = 2100; dt_mon = 3; dt_day = 1; dt_hour = 12; dt_min = 30; dt_sec = 59 }

march-IsDate : IsDate march
march-IsDate = record {
  base = omega arith;
  year = omega arith;
  month_min = omega arith;
  month_max = omega arith;
  day_min = omega arith;
  day_max = omega arith;
  hour = omega arith;
  minute = omega arith;
  second = omega arith;
}

clock_ymdhms_to_secs-calendar_example : clock_ymdhms_to_secs march + 86400 ≡ calendar_secs march
clock_ymdhms_to_secs-calendar_example = clock_ymdhms_to_secs-calendar march march-IsDate

tscclock_init-IsScale_example :
    (c : Clock) × (tscclock_init 32 2500000000 1000 ≡ done c)
    × IsScale 2500000000 c.tsc_shift c.tsc_mult
    × (c.tsc_base ≡ 1000)
    × (c.time_base ≡ mul64_32 1000 c.tsc_mult c.tsc_shift)
tscclock_init-IsScale_example = tscclock_init-IsScale 2500000000 1000 (omega arith) (omega arith)

abbrev ghz : Clock
ghz = record { time_base = 50; tsc_base = 50; tsc_shift = 31; tsc_mult = 2 ^ 31 }

ghz-IsScale : IsScale (10 ^ 9) 31 (2 ^ 31)
ghz-IsScale = record {
  min = omega arith;
  max = omega arith;
  is = refl;
  nonzero = omega arith;
  fits = omega arith;
  largest = λ s gt le. at_32 s (omega (arith, gt, le));
}
  where
    at_32 : (s : ℕ) → s ≡ 32 → 2 ^ 32 ≤ 10 ^ 9 * 2 ^ s / 10 ^ 9
    at_32 s is = rw is (omega arith)

after_readings-Slow_example :
    (50 ≤ (after_readings ghz (70 ∷ 95 ∷ [])).time_base)
    × ((after_readings ghz (70 ∷ 95 ∷ [])).time_base * 10 ^ 9 ≤ 50 * 10 ^ 9 + 45 * 10 ^ 9)
    × ((after_readings ghz (70 ∷ 95 ∷ [])).tsc_base ≡ 95)
after_readings-Slow_example =
    after_readings-Slow (70 ∷ 95 ∷ []) ghz (10 ^ 9) 95 (omega arith) ghz-IsScale
      (next (omega arith) (next (omega arith) at_end)) (omega arith) (omega arith)
