-- ===== src/Clock.antt =====
-- bindings/virtio/clock_subr.c and clock_subr.h: from a calendar date to seconds since 1970.
-- Unsigned 64-bit sums wrap around; `days_in_month` answers -1 for a number that is no month.
pub mod Years
pub mod Seconds
use solo.Base.{
  ℕ, zero, suc, ◌+◌, ◌-◌, ◌*◌, ◌/◌, ◌%◌, ◌^◌, Bool, true, false, ◌==◌, ◌!=◌, ◌&&◌, ◌||◌, ltb,
  if◌then◌else◌, bit_and,
}

-- `struct bmk_clock_ymdhms`
pub record ClockYmdhms : Type 0 where
  pub dt_year : ℕ
  pub dt_mon : ℕ
  pub dt_day : ℕ
  pub dt_hour : ℕ
  pub dt_min : ℕ
  pub dt_sec : ℕ

abbrev pub posix_base_year : ℕ
posix_base_year = 1970

abbrev pub days_to_2000 : ℕ
days_to_2000 = 365 * 30 + 7

abbrev pub days_4_years : ℕ
days_4_years = 365 * 4 + 1

abbrev pub days_100_years : ℕ
days_100_years = 365 * 100 + 24

abbrev pub days_400_years : ℕ
days_400_years = 365 * 400 + 97

-- `uint64_t` addition
abbrev pub add64 : ℕ → ℕ → ℕ
add64 a b = (a + b) % 2 ^ 64

-- `days_in_month`, as it is added to a `uint64_t`.
unfoldable pub days_in_month : ℕ → ℕ
days_in_month m =
    if m == 2
    then 28
    else if (m == 4) || ((m == 6) || ((m == 9) || (m == 11)))
    then 30
    else if (m == 1)
        || ((m == 3) || ((m == 5) || ((m == 7) || ((m == 8) || ((m == 10) || (m == 12))))))
    then 31
    else 2 ^ 64 - 1

unfoldable pub is_leap_year : ℕ → Bool
is_leap_year year =
    if bit_and year 3 != 0 then false else if year % 100 != 0 then true else year % 400 == 0

unfoldable pub days_per_year : ℕ → ℕ
days_per_year year = if is_leap_year year then 366 else 365

-- The loops over the years and over the months from `i` on, with the rounds that are left.
unfoldable pub sum_years : ℕ → ℕ → ℕ → ℕ
sum_years zero i days = days
sum_years (suc n) i days = sum_years n (i + 1) (add64 days (days_per_year i))

unfoldable pub sum_months : ℕ → ℕ → ℕ → ℕ
sum_months zero i days = days
sum_months (suc n) i days = sum_months n (i + 1) (add64 days (days_in_month i))

-- The days of the years, added to `days`.
unfoldable pub add_years : ℕ → ℕ → ℕ
add_years dt_year days =
    if ltb dt_year 2000
    then sum_years (dt_year - posix_base_year) posix_base_year days
    else let days = add64 days days_to_2000 in
      let year = dt_year - 2000 in
      let i = year / 400 in
      let days = add64 days (i * days_400_years) in
      let year = year - i * 400 in
      let i = year / 100 in
      let days = add64 days (i * days_100_years) in
      let year = year - i * 100 in
      let i = year / 4 in
      let days = add64 days (i * days_4_years) in
      let year = year - i * 4 in sum_years year (dt_year - year) days

unfoldable pub clock_ymdhms_to_secs : ClockYmdhms → ℕ
clock_ymdhms_to_secs dt =
    let leap = if is_leap_year dt.dt_year && ltb 2 dt.dt_mon then 1 else 0 in
    let days = sum_months (dt.dt_mon - 1) 1 (add_years dt.dt_year leap) in
    let days = (days + dt.dt_day + 2 ^ 64 - 1) % 2 ^ 64 in
    if ltb dt.dt_year posix_base_year
    then 0
    else (((days * 24 + dt.dt_hour) * 60 + dt.dt_min) * 60 + dt.dt_sec) % 2 ^ 64

unfoldable pub bcdtobin : ℕ → ℕ
bcdtobin bcd = bit_and (bcd / 2 ^ 4) 0x0f * 10 + bit_and bcd 0x0f
