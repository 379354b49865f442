-- ===== src/Base/Digits.antt =====
-- The binary digits of numbers, for C's `x | 1 << d` at variables.
use Prim.Native.Nat.{
  ℕ, zero, suc, ◌+◌, ◌*◌, ◌/◌, ◌%◌, ◌^◌, ◌≤◌, max, bit_or, digits, bit_or-bitwise, bit_and,
}
use mathlib.Core.Path.{◌≡◌, refl, sym, ap, ◌∙◌}
use native.Mathlib.Nat.{pow-suc}
use native.Mathlib.Omega.{arith}
use mathlib.Core.Logic.{◌≢◌, ◌⊎◌, inl, inr}
use native.Mathlib.Decide.{ℕ_discrete}
use solo.Base.Bits.{by_halves, bit_and_step, bit_and-none}
use solo.Base.Tests.{◌==◌, if◌then◌else◌}

-- A binary digit of a number, the lowest at zero.
abbrev pub digit : ℕ → ℕ → ℕ
digit n zero = n % 2
digit n (suc k) = digit (n / 2) k

pub digit-zero : (k : ℕ) → digit 0 k ≡ 0
digit-zero zero = refl
digit-zero (suc k) = digit-zero k

-- The definition that `bit_or` stands for, with `n` rounds.
abbrev rounds : ℕ → ℕ → ℕ → ℕ
rounds = digits (λ b. b) max

rounds-none : (n b : ℕ) → rounds n 0 b ≡ b
rounds-none zero b = refl
rounds-none (suc n) b = refl

rounds-enough : (n m a b : ℕ) → a ≤ n → n ≤ m → rounds m a b ≡ rounds n a b
rounds-enough n m zero b le more = rounds-none m b ∙ sym (rounds-none n b)
rounds-enough zero m (suc a) b le more = absurd (omega arith)
rounds-enough (suc n) zero (suc a) b le more = absurd (omega arith)
rounds-enough (suc n) (suc m) (suc a) b le more =
    ap (λ (t : ℕ). t * 2 + max (suc a % 2) (b % 2))
      (rounds-enough n m (suc a / 2) (b / 2) (omega arith) (omega arith))

-- The last binary digit of a disjunction, and the rest of it.
bit_or_step : (a b : ℕ) → bit_or a b ≡ bit_or (a / 2) (b / 2) * 2 + max (a % 2) (b % 2)
bit_or_step zero b = omega (arith, bit_or-bitwise 0 b, bit_or-bitwise 0 (b / 2))
bit_or_step (suc a) b =
    bit_or-bitwise (suc a) b ∙ ap (λ (t : ℕ). t * 2 + max (suc a % 2) (b % 2)) enough
  where
    half : ℕ
    half = suc a / 2

    enough : rounds a half (b / 2) ≡ bit_or half (b / 2)
    enough =
        rounds-enough half a half (b / 2) (omega arith) (omega arith)
        ∙ sym (bit_or-bitwise half (b / 2))

bit_or_last : (a b : ℕ) → bit_or a b % 2 ≡ max (a % 2) (b % 2)
bit_or_last a b = omega (arith, bit_or_step a b)

bit_or_rest : (a b : ℕ) → bit_or a b / 2 ≡ bit_or (a / 2) (b / 2)
bit_or_rest a b = omega (arith, bit_or_step a b)

bit_or-none : (a k : ℕ) → digit (bit_or a 0) k ≡ digit a k
bit_or-none a zero = omega (arith, bit_or_last a 0)
bit_or-none a (suc k) = ap (λ (t : ℕ). digit t k) (bit_or_rest a 0) ∙ bit_or-none (a / 2) k

-- `x | 1 << d` has the digit `d` besides those of `x`.
pub digit-bit_or : (k d x : ℕ) → digit (bit_or x (2 ^ d)) k ≡ (if k == d then 1 else digit x k)
digit-bit_or zero zero x = omega (arith, bit_or_last x 1)
digit-bit_or zero (suc d) x = ground (arith, bit_or_last x (2 ^ suc d), pow-suc 2 d)
digit-bit_or (suc k) zero x =
    ap (λ (t : ℕ). digit t k) (bit_or_rest x 1) ∙ bit_or-none (x / 2) k ∙ ground arith
digit-bit_or (suc k) (suc d) x =
    ap (λ (t : ℕ). digit t k) (bit_or_rest x (2 ^ suc d) ∙ ap (λ (t : ℕ). bit_or (x / 2) t) halved)
    ∙ digit-bit_or k d (x / 2)
    ∙ ground arith
  where
    halved : 2 ^ suc d / 2 ≡ 2 ^ d
    halved = omega (arith, pow-suc 2 d)

rounds-right : (n a : ℕ) → a ≤ n → rounds n a 0 ≡ a
rounds-right zero zero le = refl
rounds-right zero (suc a) le = absurd (omega arith)
rounds-right (suc n) zero le = refl
rounds-right (suc n) (suc a) le = omega (arith, rounds-right n (suc a / 2) (omega arith))

-- `x | 1`
pub bit_or_one : (x : ℕ) → bit_or x 1 ≡ x / 2 * 2 + 1
bit_or_one x =
    omega
      (arith, bit_or_step x 1, bit_or-bitwise (x / 2) 0, rounds-right (x / 2) (x / 2) (omega arith))

-- `1 | x`
pub one_bit_or : (x : ℕ) → bit_or 1 x ≡ x / 2 * 2 + 1
one_bit_or x = omega (arith, bit_or_step 1 x, bit_or-bitwise 0 (x / 2))

-- `x & 1 << d`
pub bit_and-pow : (d x : ℕ) → bit_and x (2 ^ d) ≡ digit x d * 2 ^ d
bit_and-pow zero x = omega (arith, bit_and_step x 1, bit_and-none (x / 2))
bit_and-pow (suc d) x = omega (
  arith,
  bit_and_step x (2 ^ suc d),
  ap (λ (t : ℕ). bit_and (x / 2) t) halved,
  bit_and-pow d (x / 2),
  mul_twice,
  pow-suc 2 d,
)
  where
    halved : 2 ^ suc d / 2 ≡ 2 ^ d
    halved = omega (arith, pow-suc 2 d)

    mul_twice : digit (x / 2) d * 2 ^ suc d ≡ digit (x / 2) d * 2 ^ d * 2
    mul_twice = grind (arith, pow-suc 2 d)

pub digit-cases : (k x : ℕ) → (digit x k ≡ 0) ⊎ (digit x k ≡ 1)
digit-cases zero x = elim (ℕ_discrete (x % 2) 0) [
  | yes even ↦ inl even
  | no odd ↦ inr (omega (arith, odd))
]
digit-cases (suc k) x = digit-cases k (x / 2)

-- A number that is not zero has a digit.
pub some_digit : (x : ℕ) → x ≢ 0 → (k : ℕ) × (digit x k ≡ 1)
some_digit =
    by_halves (λ x. x ≢ 0 → (k : ℕ) × (digit x k ≡ 1)) (λ ne. absurd (ne refl))
      (λ x rec ne. elim (ℕ_discrete (suc x % 2) 1) [
        | yes odd ↦ (0, odd)
        | no even ↦ let (k, e) = rec (omega (arith, even)) in (suc k, e)
      ])
