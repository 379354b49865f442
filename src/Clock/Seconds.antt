-- ===== src/Clock/Seconds.antt =====
-- bindings/virtio/clock_subr.c: the seconds of a date, against the calendar.
use solo.Base.{
  ℕ, zero, suc, ◌+◌, ◌-◌, ◌*◌, ◌^◌, ◌≤◌, ◌<◌, ◌≡◌, refl, ap, ◌%◌, ◌!=◌, ◌||◌, Bool, ◌==◌, ◌&&◌, ltb,
  if◌then◌else◌, arith, Bool-cases, inl, inr,
}
use solo.Base.Bits.{bit_and_mask}
use solo.Clock.{
  days_per_year, ClockYmdhms, days_in_month, is_leap_year, sum_months, add_years, add64,
  clock_ymdhms_to_secs,
}
use solo.Clock.Years.{elapsed, elapsed_lem, is_short, add_years_lem}

-- The Gregorian calendar: the leap years, the days of a month, and those of the first `m` months.
unfoldable pub leap_year : ℕ → Bool
leap_year y = (y % 4 == 0) && ((y % 100 != 0) || (y % 400 == 0))

unfoldable pub month_length : ℕ → ℕ → ℕ
month_length y m =
    if m == 1
    then 31
    else if m == 2
    then (if leap_year y then 29 else 28)
    else if m == 3
    then 31
    else if m == 4
    then 30
    else if m == 5
    then 31
    else if m == 6
    then 30
    else if m == 7
    then 31
    else if m == 8
    then 31
    else if m == 9
    then 30
    else if m == 10
    then 31
    else if m == 11
    then 30
    else if m == 12
    then 31
    else 0

-- The days of the `n` years from 1970 on.
unfoldable pub years : ℕ → ℕ
years zero = 0
years (suc n) = years n + (if leap_year (1970 + n) then 366 else 365)

is_leap_year-leap_year : (y : ℕ) → is_leap_year y ≡ leap_year y
unfolding is_leap_year leap_year
is_leap_year-leap_year y = ground (arith, bit_and_mask 2 y)

years-elapsed : (n : ℕ) → years n ≡ elapsed n
unfolding years elapsed days_per_year
years-elapsed zero = refl
years-elapsed (suc n) = rw (is_leap_year-leap_year (1970 + n), years-elapsed n) refl

month_length-days :
    (y m : ℕ)
    → 1 ≤ m
    → m ≤ 12
    → month_length y m ≡ (if (m == 2) && is_leap_year y then 29 else days_in_month m)
unfolding month_length days_in_month
month_length-days y m ge le = ground (arith, is_leap_year-leap_year y)

unfoldable pub months : ℕ → ℕ → ℕ
months y zero = 0
months y (suc m) = months y m + month_length y (suc m)

common_months : ℕ → ℕ
common_months zero = 0
common_months (suc m) = common_months m + days_in_month (suc m)

leap_day : ℕ → ℕ → ℕ
leap_day y m = if is_leap_year y && ltb 1 m then 1 else 0

months-common : (y m : ℕ) → m ≤ 12 → months y m ≡ common_months m + leap_day y m
unfolding months common_months leap_day days_in_month
months-common y zero le = ground arith
months-common y (suc m) le = elim (Bool-cases (is_leap_year y)) [
  | inl leap ↦ ground (
    arith,
    leap,
    months-common y m (omega (arith, le)),
    month_length-days y (suc m) (omega arith) le,
  )
  | inr common ↦ ground (
    arith,
    common,
    months-common y m (omega (arith, le)),
    month_length-days y (suc m) (omega arith) le,
  )
]

days_in_month-le : (m : ℕ) → 1 ≤ m → m ≤ 12 → days_in_month m ≤ 31
unfolding days_in_month
days_in_month-le m ge le = ground arith

months-le : (y m : ℕ) → m ≤ 12 → months y m ≤ 31 * m
unfolding months
months-le y zero le = omega arith
months-le y (suc m) le =
    ground
      (arith, months-le y m, days_in_month-le (suc m), month_length-days y (suc m) (omega arith) le)

sum_months_lem :
    (n i j s days : ℕ)
    → j ≡ i + n
    → s ≡ suc i
    → j ≤ 12
    → days + 31 * n < 2 ^ 64
    → sum_months n s days + common_months i ≡ days + common_months j
unfolding sum_months common_months
sum_months_lem zero i j s days end start le small = ap (λ (k : ℕ). days + common_months k) same
  where
    same : i ≡ j
    same = omega arith
sum_months_lem (suc n) i j s days end start le small = omega (
  arith,
  days_in_month-le s (omega arith) (omega arith),
  ap days_in_month start,
  sum_months_lem n (suc i) j (s + 1) (add64 days (days_in_month s)) (omega arith) (omega arith) le
      (omega (arith, days_in_month-le s (omega arith) (omega arith))),
)

-- A date from 1970 on whose year fits 32 bits.
pub record IsDate (dt : ClockYmdhms) : Type 0 where
  pub base : 1970 ≤ dt.dt_year
  pub year : dt.dt_year < 2 ^ 32
  pub month_min : 1 ≤ dt.dt_mon
  pub month_max : dt.dt_mon ≤ 12
  pub day_min : 1 ≤ dt.dt_day
  pub day_max : dt.dt_day < 2 ^ 8
  pub hour : dt.dt_hour < 2 ^ 8
  pub minute : dt.dt_min < 2 ^ 8
  pub second : dt.dt_sec < 2 ^ 8

-- The seconds from the beginning of 1970 to the date, by the lengths of the calendar's years and months.
abbrev pub calendar_secs : ClockYmdhms → ℕ
calendar_secs dt =
    (((years (dt.dt_year - 1970) + months dt.dt_year (dt.dt_mon - 1) + (dt.dt_day - 1)) * 24
            + dt.dt_hour)
          * 60
        + dt.dt_min)
      * 60
    + dt.dt_sec

-- `clock_ymdhms_to_secs` counts the seconds of a date as the Gregorian calendar does, for a year from 1970 on that is
-- below 2^32, a month from 1 to 12, a day from 1 on, and fields of one byte as the structure has them, but for the years
-- 2100 to 2103, 2200 to 2203, 2300 to 2303 and those a multiple of 400 years later, where its result is
-- one day short.
pub clock_ymdhms_to_secs-calendar :
    (dt : ClockYmdhms)
    → IsDate dt
    → clock_ymdhms_to_secs dt + (if is_short dt.dt_year then 86400 else 0) ≡ calendar_secs dt
unfolding clock_ymdhms_to_secs leap_day common_months
clock_ymdhms_to_secs-calendar dt v = ground (
  arith,
  elapsed_lem (dt.dt_year - 1970),
  years-elapsed (dt.dt_year - 1970),
  add_years_lem dt.dt_year leap v.base v.year few,
  sum_months_lem (dt.dt_mon - 1) 0 (dt.dt_mon - 1) 1 (add_years dt.dt_year leap) (omega arith) refl
      (omega (arith, v.month_max)) room,
  months-common dt.dt_year (dt.dt_mon - 1) (omega (arith, v.month_max)),
  months-le dt.dt_year (dt.dt_mon - 1) (omega (arith, v.month_max)),
  same,
)
  where
    leap : ℕ
    leap = if is_leap_year dt.dt_year && ltb 2 dt.dt_mon then 1 else 0

    few : leap < 2
    few = ground arith

    same : leap ≡ leap_day dt.dt_year (dt.dt_mon - 1)
    same = ground (arith, v.month_min)

    room : add_years dt.dt_year leap + 31 * (dt.dt_mon - 1) < 2 ^ 64
    room = omega (
      arith,
      few,
      elapsed_lem (dt.dt_year - 1970),
      add_years_lem dt.dt_year leap v.base v.year few,
      v.month_max,
      v.year,
    )
