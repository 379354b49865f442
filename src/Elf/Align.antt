-- ===== src/Elf/Align.antt =====
-- tenders/common/elf.c: `align_down` and `align_up` in plain arithmetic.
use native.Mathlib.Nat.{
  mod-lt, pow-suc, mul_assoc, mul-suc, mul-le-mul_left, mul-mod_right, div-add-mod,
}
use solo.Base.{
  ℕ, zero, suc, ◌+◌, ◌-◌, ◌*◌, ◌^◌, ◌/◌, ◌%◌, ◌≤◌, ◌<◌, ◌≡◌, ◌⊎◌, inl, inr, sym, ap, ◌∙◌, subst,
  Bool-cases, true, false, none, some, arith, bit_and, leb,
}
use native.Mathlib.Decide.{dec_lt}
use mathlib.Core.Bool.{true≢false}
use solo.Base.Bits.{bit_and_high, pow_of_mask, mask_of_pow, pow_mono, pow_pos}
use solo.Elf.{align_down, align_up, is_alignment}

abbrev pub IsPower : ℕ → Type 0
IsPower align = (k : ℕ) × (align ≡ 2 ^ k)

-- The last multiple of `align` at `a` or before it, and the first at `a` or behind it.
pub record Below (a align r : ℕ) : Type 0 where
  pub power : IsPower align
  pub multiple : r % align ≡ 0
  pub le : r ≤ a
  pub near : a < r + align

pub record Above (a align r : ℕ) : Type 0 where
  pub power : IsPower align
  pub multiple : r % align ≡ 0
  pub le : a ≤ r
  pub near : r < a + align
  pub fits : r < 2 ^ 64

is_alignment→IsPower : (align : ℕ) → is_alignment align ≡ true → IsPower align
is_alignment→IsPower align h = pow_of_mask align (ground (arith, h)) (ground (arith, h))

IsPower→is_alignment : (align : ℕ) → IsPower align → is_alignment align ≡ true
IsPower→is_alignment align (k, e) =
    ground (arith, e, pow_pos k, mask_of_pow k, ap (λ (t : ℕ). bit_and t (t - 1)) e)

exponent : (k : ℕ) → 2 ^ k < 2 ^ 64 → k ≤ 64
exponent k lt = ground (arith, pow_mono 65 k, lt)

floor : (a k : ℕ) → a < 2 ^ 64 → 2 ^ k < 2 ^ 64 → bit_and a (2 ^ 64 - 2 ^ k) ≡ a - a % 2 ^ k
floor a k la lk = bit_and_high k 64 a (exponent k lk) la

floor_multiple : (a n : ℕ) → (a - a % n) % n ≡ 0
floor_multiple a n =
    ap (λ (t : ℕ). t % n) (omega (arith, div-add-mod a n)) ∙ mul-mod_right n (a / n)

positive : (k : ℕ) {align : ℕ} → align ≡ 2 ^ k → 0 < align
positive k e = omega (arith, pow_pos k)

-- `align_down` fails exactly on an alignment that is no power of two; otherwise its result is the
-- last multiple at the address or before it.
pub align_down-Below :
    (a align : ℕ)
    → a < 2 ^ 64
    → align < 2 ^ 64
    → ((align_down a align ≡ none) × (IsPower align → ⊥))
      ⊎ ((r : ℕ) × (align_down a align ≡ some r) × Below a align r)
unfolding align_down
align_down-Below a align la lal = elim (Bool-cases (is_alignment align)) [
  | inr other ↦
      inl (rw other, λ power. absurd (true≢false (sym (IsPower→is_alignment align power) ∙ other)))
  | inl aligned ↦
      let (k, e) = is_alignment→IsPower align aligned in
      inr (
        a - a % align,
        rw aligned (ap some (floored k e)),
        record {
          power = (k, e);
          multiple = floor_multiple a align;
          le = omega arith;
          near = remains k e;
        },
      )
]
  where
    remains : (k : ℕ) → align ≡ 2 ^ k → a < a - a % align + align
    remains k e = omega (arith, mod-lt a (positive k e))

    floored : (k : ℕ) → align ≡ 2 ^ k → bit_and a (2 ^ 64 - align) ≡ a - a % align
    floored k e = rw e (floor a k la (subst (λ (t : ℕ). t < 2 ^ 64) e lal))

power_sum : (k d w : ℕ) → w ≡ k + d → 2 ^ w ≡ 2 ^ k * 2 ^ d
power_sum k zero w e = ap (λ (t : ℕ). 2 ^ t) same ∙ omega arith
  where
    same : w ≡ k
    same = omega arith
power_sum k (suc d) zero e = absurd (omega arith)
power_sum k (suc d) (suc w) e =
    pow-suc 2 w
    ∙ ap (λ (t : ℕ). t * 2) (power_sum k d w (omega arith))
    ∙ mul_assoc (2 ^ k) (2 ^ d) 2
    ∙ ap (λ (t : ℕ). 2 ^ k * t) (sym (pow-suc 2 d))

no_multiple :
    (k a m : ℕ) → 2 ^ k < 2 ^ 64 → 2 ^ 64 ≤ a + (2 ^ k - 1) → m % 2 ^ k ≡ 0 → a ≤ m → 2 ^ 64 ≤ m
no_multiple k a m lk over mult le = elim (dec_lt m (2 ^ 64)) [
  | no high ↦ omega arith
  | yes low ↦ elim (dec_lt (m / 2 ^ k) (2 ^ (64 - k))) [
    | yes lt ↦ omega (
      arith,
      whole,
      mul-suc (2 ^ k) (m / 2 ^ k),
      div-add-mod m (2 ^ k),
      pow_pos k,
      mul-le-mul_left (2 ^ k) (suc_le lt),
    )
    | no ge ↦ omega (arith, whole, div-add-mod m (2 ^ k), mul-le-mul_left (2 ^ k) (not_lt ge))
  ]
]
  where
    whole : 2 ^ 64 ≡ 2 ^ k * 2 ^ (64 - k)
    whole = power_sum k (64 - k) 64 (omega (arith, exponent k lk))

    suc_le : m / 2 ^ k < 2 ^ (64 - k) → suc (m / 2 ^ k) ≤ 2 ^ (64 - k)
    suc_le lt = omega arith

    not_lt : (m / 2 ^ k < 2 ^ (64 - k) → ⊥) → 2 ^ (64 - k) ≤ m / 2 ^ k
    not_lt ge = omega arith

-- `align_up` fails exactly on an alignment that is no power of two, or if no 64-bit multiple is at the
-- address or behind it; otherwise its result is the first one there.
pub align_up-Above :
    (a align : ℕ)
    → a < 2 ^ 64
    → align < 2 ^ 64
    → ((align_up a align ≡ none) × ((r : ℕ) → Above a align r → ⊥))
      ⊎ ((r : ℕ) × (align_up a align ≡ some r) × Above a align r)
unfolding align_up
align_up-Above a align la lal = elim (Bool-cases (is_alignment align)) [
  | inr other ↦
      inl (rw other, λ r above. true≢false (sym (IsPower→is_alignment align (above.power)) ∙ other))
  | inl aligned ↦
      let (k, e) = is_alignment→IsPower align aligned in
      elim (Bool-cases (leb (2 ^ 64) (a + (align - 1)))) [
        | inl over ↦ inl (rw (aligned, over), λ r above. absurd (unfit k e over r above))
        | inr fits ↦ inr (
          a + (align - 1) - (a + (align - 1)) % align,
          rw (aligned, fits) (ap some (floored k e fits)),
          record {
            power = (k, e);
            multiple = floor_multiple (a + (align - 1)) align;
            le = omega (arith, mod-lt (a + (align - 1)) (positive k e));
            near = omega (arith, positive k e);
            fits = ground (arith, fits);
          },
        )
      ]
]
  where
    unfit :
        (k : ℕ)
        → align ≡ 2 ^ k
        → leb (2 ^ 64) (a + (align - 1)) ≡ true
        → (r : ℕ) → Above a align r
        → ⊥
    unfit k e over r above = omega (
      arith,
      above.fits,
      no_multiple k a r (omega arith) (ground (arith, over, e))
          (subst (λ (t : ℕ). r % t ≡ 0) e above.multiple) above.le,
    )

    floored :
        (k : ℕ)
        → align ≡ 2 ^ k
        → leb (2 ^ 64) (a + (align - 1)) ≡ false
        → bit_and (a + (align - 1)) (2 ^ 64 - align) ≡ a + (align - 1) - (a + (align - 1)) % align
    floored k e fits = rw e (
        floor (a + (2 ^ k - 1)) k (subst (λ (t : ℕ). a + (t - 1) < 2 ^ 64) e (ground (arith, fits)))
          (subst (λ (t : ℕ). t < 2 ^ 64) e lal))
