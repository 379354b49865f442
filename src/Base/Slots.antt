-- ===== src/Base/Slots.antt =====
-- The slots of a ring: numbers less than a turn apart have different ones.
use Prim.Native.Nat.{ℕ, suc, ◌+◌, ◌/◌, ◌%◌, ◌<◌}
use mathlib.Core.Logic.{◌≢◌}
use native.Mathlib.Nat.{div-add-mod, mul-suc, mul-le-mul_left}
use native.Mathlib.Decide.{dec_lt}
use native.Mathlib.Omega.{arith}

pub slots_apart : (n i w : ℕ) → i < w → w < i + n → i % n ≢ w % n
slots_apart n i w lt near same = elim (dec_lt (i / n) (w / n)) [
  | yes less ↦ omega (
    arith,
    lt,
    near,
    same,
    div-add-mod i n,
    div-add-mod w n,
    mul-suc n (i / n),
    mul-le-mul_left {m = suc (i / n)} {n = w / n} n (omega (arith, less)),
  )
  | no not_less ↦ omega (
    arith,
    lt,
    same,
    div-add-mod i n,
    div-add-mod w n,
    mul-le-mul_left {m = w / n} {n = i / n} n (omega (arith, not_less)),
  )
]
