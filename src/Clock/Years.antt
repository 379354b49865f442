-- ===== src/Clock/Years.antt =====
-- bindings/virtio/clock_subr.c: the days of whole years, against a count of the years one by one.
use solo.Base.{
  ℕ, zero, suc, ◌+◌, ◌-◌, ◌*◌, ◌/◌, ◌%◌, ◌^◌, ◌≤◌, ◌<◌, ◌≡◌, refl, ap, Bool, true, false, ◌==◌,
  ◌&&◌, ltb, leb, if◌then◌else◌, arith, Bool-cases, inl, inr,
}
use solo.Base.Bits.{bit_and_mask}
use solo.Clock.{
  days_to_2000, days_400_years, days_100_years, days_4_years, is_leap_year, days_per_year,
  sum_years, add_years, add64,
}

-- The days of the `n` years from 1970 on.
unfoldable pub elapsed : ℕ → ℕ
elapsed zero = 0
elapsed (suc n) = elapsed n + days_per_year (1970 + n)

abbrev pub leap_days : ℕ → ℕ
leap_days y = y / 4 - y / 100 + y / 400

pub elapsed_lem : (n : ℕ) → elapsed n + 477 ≡ 365 * n + leap_days (1969 + n)
unfolding elapsed days_per_year is_leap_year
elapsed_lem zero = omega arith
elapsed_lem (suc n) = ground (arith, elapsed_lem n, bit_and_mask 2 (1970 + n))

days_per_year-le : (y : ℕ) → days_per_year y ≤ 366
unfolding days_per_year
days_per_year-le y = ground arith

-- The loop adds what `elapsed` counts.
sum_years_lem :
    (n i j y days : ℕ)
    → j ≡ i + n
    → y ≡ 1970 + i
    → days + 366 * n < 2 ^ 64
    → sum_years n y days + elapsed i ≡ days + elapsed j
unfolding sum_years elapsed
sum_years_lem zero i j y days end start small = ap (λ (k : ℕ). days + elapsed k) same
  where
    same : i ≡ j
    same = omega arith
sum_years_lem (suc n) i j y days end start small = omega (
  arith,
  days_per_year-le y,
  ap days_per_year start,
  sum_years_lem n (suc i) j (y + 1) (add64 days (days_per_year y)) (omega arith) (omega arith)
      (omega (arith, days_per_year-le y)),
)

-- The years whose days `add_years` counts one short: the first four of a century but for the first of
-- four, from 2100 on.
abbrev pub is_short : ℕ → Bool
is_short y = leb 2000 y && (leb 100 ((y - 2000) % 400) && ltb ((y - 2000) % 100) 4)

-- Four centuries, centuries, groups of four years and single years after 2000.
abbrev year_of : ℕ → ℕ → ℕ → ℕ
year_of i j k = 2000 + (400 * i + (100 * j + 4 * k))

groups_lem :
    (i j k : ℕ)
    → j ≤ 3
    → k ≤ 24
    → elapsed (year_of i j k - 1970)
      ≡ days_to_2000
        + i * days_400_years
        + j * days_100_years
        + k * days_4_years
        + (if leb 1 j && (k == 0) then 1 else 0)
groups_lem i j k lj lk = ground (arith, elapsed_lem (year_of i j k - 1970))

late_lem :
    (i j k r days : ℕ)
    → i < 2 ^ 24
    → j ≤ 3
    → k ≤ 24
    → r ≤ 3
    → days < 2
    → sum_years r (year_of i j k) (
          add64
            (add64 (add64 (add64 days days_to_2000) (i * days_400_years)) (j * days_100_years))
            (k * days_4_years))
        + (if leb 1 j && (k == 0) then 1 else 0)
      ≡ days + elapsed (year_of i j k + r - 1970)
late_lem i j k r days li lj lk lr few = omega (
  arith,
  groups_lem i j k lj lk,
  sum_years_lem r (year_of i j k - 1970) (year_of i j k + r - 1970) (year_of i j k)
      (add64 (add64 (add64 (add64 days days_to_2000) (i * days_400_years)) (j * days_100_years))
        (k * days_4_years))
      (omega arith) (omega arith) (omega arith),
)

shape_lem :
    (y i j k r days : ℕ)
    → y ≡ year_of i j k + r
    → i < 2 ^ 24
    → j ≤ 3
    → k ≤ 24
    → r ≤ 3
    → days < 2
    → sum_years r (y - r) (
          add64
            (add64 (add64 (add64 days days_to_2000) (i * days_400_years)) (j * days_100_years))
            (k * days_4_years))
        + (if is_short y then 1 else 0)
      ≡ days + elapsed (y - 1970)
shape_lem y i j k r days e li lj lk lr few = omega (
  arith,
  late_lem i j k r days li lj lk lr few,
  ap
      (λ (t : ℕ). sum_years r t (
        add64 (add64 (add64 (add64 days days_to_2000) (i * days_400_years)) (j * days_100_years))
          (k * days_4_years)))
      first,
  ap elapsed last,
  ap one short,
)
  where
    first : y - r ≡ year_of i j k
    first = omega arith

    last : y - 1970 ≡ year_of i j k + r - 1970
    last = omega arith

    one : Bool → ℕ
    one b = if b then 1 else 0

    short : is_short y ≡ (leb 1 j && (k == 0))
    short = ground arith

-- For a year from 1970 on `add_years` adds the days of the years before it, less one in the
-- first four years of a century that does not begin with a leap year.
pub add_years_lem :
    (y days : ℕ)
    → 1970 ≤ y
    → y < 2 ^ 32
    → days < 2
    → add_years y days + (if is_short y then 1 else 0) ≡ days + elapsed (y - 1970)
unfolding add_years elapsed
add_years_lem y days ge lt few = elim (Bool-cases (ltb y 2000)) [
  | inl early ↦
      rw (early, not_short early) (omega (arith, zero_years, from_1970 (ground (arith, early))))
  | inr late ↦ rw late (
      shape_lem y ((y - 2000) / 400) (century / 100) (group / 4) (group - group / 4 * 4) days
        (ground (arith, late)) (omega arith) (omega arith) (omega arith) (omega arith) few)
]
  where
    century : ℕ
    century = y - 2000 - (y - 2000) / 400 * 400

    group : ℕ
    group = century - century / 100 * 100

    zero_years : elapsed 0 ≡ 0
    zero_years = refl

    not_short : ltb y 2000 ≡ true → is_short y ≡ false
    not_short early = ground (arith, early)

    from_1970 : y < 2000 → sum_years (y - 1970) 1970 days + elapsed 0 ≡ days + elapsed (y - 1970)
    from_1970 early =
        sum_years_lem (y - 1970) 0 (y - 1970) 1970 days (omega arith) (omega arith) (omega arith)
