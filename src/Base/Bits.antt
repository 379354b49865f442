-- ===== src/Base/Bits.antt =====
-- The mask arithmetic of C at variables: `x & -align`, `x & (align - 1)`, and the test for a power
-- of two, by the digit recursion of `bit_and`.
use Prim.Native.Nat.{
  ℕ, zero, suc, ◌+◌, ◌-◌, ◌*◌, ◌/◌, ◌%◌, ◌^◌, ◌≤◌, ◌<◌, min, bit_and, digits, bit_and-bitwise,
}
use mathlib.Core.Logic.{◌≢◌}
use mathlib.Core.Path.{◌≡◌, refl, sym, ap, ◌∙◌}
use native.Mathlib.Nat.{
  mod-mod_of_dvd, dvd_of_mod-eq-zero, pow-suc, mod-lt, mod-eq_of_lt, mod_self, div-add-mod,
  mul-add-mod_self_left,
}
use native.Mathlib.Decide.{ℕ_discrete}
use native.Mathlib.Omega.{arith}

-- Induction by halves.
by_halves_fuel {ℓ} :
    (P : ℕ → Type ℓ) → P 0 → ((a : ℕ) → P (suc a / 2) → P (suc a)) → (n a : ℕ) → a ≤ n → P a
by_halves_fuel P base step n zero le = base
by_halves_fuel P base step zero (suc a) le = absurd (omega arith)
by_halves_fuel P base step (suc n) (suc a) le =
    step a (by_halves_fuel P base step n (suc a / 2) (omega arith))

pub by_halves {ℓ} : (P : ℕ → Type ℓ) → P 0 → ((a : ℕ) → P (suc a / 2) → P (suc a)) → (a : ℕ) → P a
by_halves P base step a = by_halves_fuel P base step a a (omega arith)

-- The definition that `bit_and` stands for, with `n` rounds; rounds beyond the first number's
-- digits change nothing.
abbrev rounds : ℕ → ℕ → ℕ → ℕ
rounds = digits (λ b. zero) min

rounds-none : (n b : ℕ) → rounds n 0 b ≡ 0
rounds-none zero b = refl
rounds-none (suc n) b = refl

rounds-enough : (n m a b : ℕ) → a ≤ n → n ≤ m → rounds m a b ≡ rounds n a b
rounds-enough n m zero b le more = rounds-none m b ∙ sym (rounds-none n b)
rounds-enough zero m (suc a) b le more = absurd (omega arith)
rounds-enough (suc n) zero (suc a) b le more = absurd (omega arith)
rounds-enough (suc n) (suc m) (suc a) b le more =
    ap (λ (t : ℕ). t * 2 + min (suc a % 2) (b % 2))
      (rounds-enough n m (suc a / 2) (b / 2) (omega arith) (omega arith))

-- The last binary digit of a conjunction, and the rest of it.
pub bit_and_step : (a b : ℕ) → bit_and a b ≡ bit_and (a / 2) (b / 2) * 2 + min (a % 2) (b % 2)
bit_and_step zero b = omega (arith, bit_and-bitwise 0 b, bit_and-bitwise 0 (b / 2))
bit_and_step (suc a) b =
    bit_and-bitwise (suc a) b ∙ ap (λ (t : ℕ). t * 2 + min (suc a % 2) (b % 2)) enough
  where
    half : ℕ
    half = suc a / 2

    enough : rounds a half (b / 2) ≡ bit_and half (b / 2)
    enough =
        rounds-enough half a half (b / 2) (omega arith) (omega arith)
        ∙ sym (bit_and-bitwise half (b / 2))

-- `a & a` and `a & 0`
pub bit_and_self : (a : ℕ) → bit_and a a ≡ a
bit_and_self =
    by_halves (λ a. bit_and a a ≡ a) (bit_and-bitwise 0 0)
      (λ a rec. omega (arith, rec, bit_and_step (suc a) (suc a)))

pub bit_and-none : (a : ℕ) → bit_and a 0 ≡ 0
bit_and-none =
    by_halves (λ a. bit_and a 0 ≡ 0) (bit_and-bitwise 0 0)
      (λ a rec. omega (arith, rec, bit_and_step (suc a) 0))

pub pow_pos : (k : ℕ) → 0 < 2 ^ k
pow_pos zero = omega arith
pow_pos (suc k) = omega (arith, pow-suc 2 k, pow_pos k)

-- The remainder by an even number, digit by digit.
mod_double : (p a : ℕ) → 0 < p → a % (2 * p) ≡ a / 2 % p * 2 + a % 2
mod_double p a h =
    ap (λ (t : ℕ). t % (2 * p)) split
    ∙ mul-add-mod_self_left (2 * p) (a / 2 / p) (a / 2 % p * 2 + a % 2)
    ∙ mod-eq_of_lt (omega (arith, mod-lt (a / 2) h))
  where
    split : a ≡ 2 * p * (a / 2 / p) + (a / 2 % p * 2 + a % 2)
    split = omega (arith, div-add-mod (a / 2) p)

pub pow_mono : (k w : ℕ) → k ≤ w → 2 ^ k ≤ 2 ^ w
pow_mono zero w h = pow_pos w
pow_mono (suc k) zero h = absurd (omega arith)
pow_mono (suc k) (suc w) h = omega (arith, pow-suc 2 k, pow-suc 2 w, pow_mono k w (omega arith))

pow-mod-pow : (k w : ℕ) → k ≤ w → 2 ^ w % 2 ^ k ≡ 0
pow-mod-pow zero w h = omega arith
pow-mod-pow (suc k) zero h = absurd (omega arith)
pow-mod-pow (suc k) (suc w) h =
    ap (λ (t : ℕ). 2 ^ suc w % t) (doubled k)
    ∙ mod_double (2 ^ k) (2 ^ suc w) (pow_pos k)
    ∙ omega (arith, doubled w, ap (λ (t : ℕ). t % 2 ^ k) halved, pow-mod-pow k w (omega arith))
  where
    doubled : (n : ℕ) → 2 ^ suc n ≡ 2 * 2 ^ n
    doubled n = omega (arith, pow-suc 2 n)

    halved : 2 ^ suc w / 2 ≡ 2 ^ w
    halved = omega (arith, doubled w)

-- A remainder by a power of two keeps the remainder by a smaller one.
pub mod-mod_pow : (k w a : ℕ) → k ≤ w → a % 2 ^ w % 2 ^ k ≡ a % 2 ^ k
mod-mod_pow k w a h = mod-mod_of_dvd (2 ^ k) a (dvd_of_mod-eq-zero (2 ^ k) (pow-mod-pow k w h))

-- `a & (2^k - 1)` is the remainder.
pub bit_and_mask : (k a : ℕ) → bit_and a (2 ^ k - 1) ≡ a % 2 ^ k
bit_and_mask zero a = omega (arith, bit_and-none a)
bit_and_mask (suc k) a = omega (
  arith,
  pow_pos k,
  pow-suc 2 k,
  ap (λ (t : ℕ). bit_and (a / 2) t) halved,
  ap (λ (t : ℕ). a % t) doubled,
  bit_and_step a (2 ^ suc k - 1),
  bit_and_mask k (a / 2),
  mod_double (2 ^ k) a (pow_pos k),
)
  where
    doubled : 2 ^ suc k ≡ 2 * 2 ^ k
    doubled = omega (arith, pow-suc 2 k)

    halved : (2 ^ suc k - 1) / 2 ≡ 2 ^ k - 1
    halved = omega (arith, pow-suc 2 k, pow_pos k)

-- `a & -(2^k)` at the width `w` rounds down to a multiple of `2^k`.
pub bit_and_high : (k w a : ℕ) → k ≤ w → a < 2 ^ w → bit_and a (2 ^ w - 2 ^ k) ≡ a - a % 2 ^ k
bit_and_high zero w a le h = omega (arith, bit_and_mask w a, mod-eq_of_lt h)
bit_and_high (suc k) zero a le h = absurd (omega arith)
bit_and_high (suc k) (suc w) a le h = omega (
  arith,
  doubled k,
  doubled w,
  pow_mono k w (omega arith),
  ap (λ (t : ℕ). bit_and (a / 2) t) halved,
  ap (λ (t : ℕ). a % t) (doubled k),
  bit_and_step a (2 ^ suc w - 2 ^ suc k),
  bit_and_high k w (a / 2) (omega arith) (omega (arith, doubled w)),
  mod_double (2 ^ k) a (pow_pos k),
)
  where
    doubled : (n : ℕ) → 2 ^ suc n ≡ 2 * 2 ^ n
    doubled n = omega (arith, pow-suc 2 n)

    halved : (2 ^ suc w - 2 ^ suc k) / 2 ≡ 2 ^ w - 2 ^ k
    halved = omega (arith, doubled w, doubled k)

-- The test `a & (a - 1)` for a power of two.
pub mask_of_pow : (k : ℕ) → bit_and (2 ^ k) (2 ^ k - 1) ≡ 0
mask_of_pow k = bit_and_mask k (2 ^ k) ∙ mod_self (2 ^ k)

even_step : (a : ℕ) → bit_and a (a - 1) ≡ 0 → 0 < a → a % 2 ≡ 0 → bit_and (a / 2) (a / 2 - 1) ≡ 0
even_step a e p even =
    omega (arith, bit_and_step a (a - 1), ap (λ (t : ℕ). bit_and (a / 2) t) halved)
  where
    halved : (a - 1) / 2 ≡ a / 2 - 1
    halved = omega arith

odd_step : (a : ℕ) → bit_and a (a - 1) ≡ 0 → a % 2 ≢ 0 → a ≡ 1
odd_step a e odd =
    omega (
      arith,
      bit_and_step a (a - 1),
      ap (λ (t : ℕ). bit_and (a / 2) t) halved,
      bit_and_self (a / 2),
    )
  where
    halved : (a - 1) / 2 ≡ a / 2
    halved = omega arith

pub pow_of_mask : (a : ℕ) → 0 < a → bit_and a (a - 1) ≡ 0 → (k : ℕ) × (a ≡ 2 ^ k)
pow_of_mask =
    by_halves (λ a. 0 < a → bit_and a (a - 1) ≡ 0 → (k : ℕ) × (a ≡ 2 ^ k))
      (λ p e. absurd (omega arith))
      (λ a rec p e. elim (ℕ_discrete (suc a % 2) 0) [
        | yes even ↦
            let (k, q) = rec (omega arith) (even_step (suc a) e p even) in
            (suc k, omega (arith, pow-suc 2 k))
        | no odd ↦ (0, odd_step (suc a) e odd)
      ])
