-- ===== src/BlockGuest/Call.antt =====
-- bindings/hvt/block.c: a well-formed call on a block device, and its way through the tests.
use native.Mathlib.Nat.{mod-eq_of_lt}
use solo.Base.{
  ℕ, zero, suc, ◌+◌, ◌-◌, ◌^◌, ◌%◌, ◌≤◌, ◌<◌, ◌≡◌, ◌⊎◌, inl, inr, refl, ap, ◌∙◌, subst, true, false,
  leb, some, Run, done, arith, bit_and, signed64, pos,
}
use solo.Base.Bits.{bit_and_mask, pow_pos}
use solo.Mft.{Mft, MftEntry, mft_get_by_index, mft_dev_block_basic}
use solo.Mft.Lookup.{IsUsable, Holds, mft_get_by_index-Holds}
use solo.Hvt.{Hvt, Memory, checked_gpa_p, load_bytes}
use solo.Hvt.Memory.{checked_gpa_p-cases}
use solo.Block.{Tender, range_check}
use solo.Block.Check.{IsReady, range_check_iff}
use solo.BlockGuest.{fill_args, is_refused, hvt_do_hypercall}
use solo.BlockGuest.Args.{Args, fill_args-Args, fill_args-outside}

-- A call for one block of the attached device `x`, with the block size a power of two as `setup`
-- checks it. The argument and the buffer lie in guest memory and do not overlap.
pub record IsCall {D : Type 0} (t : Tender D) (x : MftEntry) (sp handle offset buf size : ℕ)
    : Type 0 where
  pub ready : IsReady t
  pub holds : Holds t.host_mft (handle % 2 ^ 32) mft_dev_block_basic x
  pub power : (k : ℕ) × (x.block_basic.block_size ≡ 2 ^ k)
  pub block_max : x.block_basic.block_size < 2 ^ 16
  pub handle_max : handle < 2 ^ 64
  pub aligned : offset % x.block_basic.block_size ≡ 0
  pub size_is : size ≡ x.block_basic.block_size
  pub inside : offset + size ≤ x.block_basic.capacity
  pub stack : sp + 40 < t.hvt.guest_mem_size
  pub stack_max : sp < 2 ^ 32
  pub buffer : buf + size < t.hvt.guest_mem_size
  pub apart : (sp + 40 ≤ buf) ⊎ (buf + size ≤ sp)

pub lookup :
    (m : Mft) (handle type : ℕ) (x : MftEntry)
    → IsUsable m
    → Holds m (handle % 2 ^ 32) type x
    → mft_get_by_index m handle type ≡ done (some x)
lookup m handle type x usable holds =
    let (o, found, is) = mft_get_by_index-Holds m handle type usable in
    found ∙ ap done ((is x).1 holds)

pub checked_inside :
    (hvt : Hvt) (gpa sz : ℕ)
    → hvt.guest_mem_size < 2 ^ 64
    → gpa + sz < hvt.guest_mem_size
    → checked_gpa_p hvt gpa sz ≡ done gpa
checked_inside hvt gpa sz small lt = elim (checked_gpa_p-cases hvt gpa sz small) [
  | inl (_, good) ↦ good
  | inr (le, _) ↦ absurd (omega arith)
]

-- A hypercall with a 32-bit argument reaches its handler.
pub reaches {ℓ} :
    {S : Type ℓ} (handler : S → ℕ → Run S) (s : S) (arg : ℕ)
    → arg < 2 ^ 32
    → hvt_do_hypercall handler s arg ≡ handler s arg
unfolding hvt_do_hypercall
reaches handler s arg lt = rw (low, mod-eq_of_lt lt) refl
  where
    low : leb arg (2 ^ 32 - 1) ≡ true
    low = ground (arith, lt)

pub load_bytes-same :
    (n : ℕ) (m m' : Memory) (a : ℕ)
    → ((k : ℕ) → a ≤ k → k < a + n → m' k ≡ m k)
    → load_bytes m' a n ≡ load_bytes m a n
unfolding load_bytes
load_bytes-same zero m m' a same = refl
load_bytes-same (suc n) m m' a same =
    rw
      (
        same a (omega arith) (omega arith),
        load_bytes-same n m m' (a + 1) (λ k le lt. same k (omega arith) (omega arith)),
      )
      refl

module _ {D : Type 0} (t : Tender D) (x : MftEntry) (sp handle offset buf size : ℕ)
    (c : IsCall t x sp handle offset buf size) where
  block_pos : 0 < x.block_basic.block_size
  block_pos = let (k, e) = c.power in omega (arith, pow_pos k)

  capacity_max : x.block_basic.capacity < 2 ^ 63
  capacity_max = c.ready.capacities (handle % 2 ^ 32) x c.holds.1

  pub accepted : is_refused x offset size ≡ false
  unfolding is_refused
  accepted =
      let (k, e) = c.power in
      ground (
        arith,
        c.size_is,
        ap (bit_and offset) (mask k e),
        bit_and_mask k offset,
        subst (λ (n : ℕ). offset % n ≡ 0) e c.aligned,
      )
    where
      mask :
          (k : ℕ)
          → x.block_basic.block_size ≡ 2 ^ k
          → (x.block_basic.block_size + 2 ^ 64 - 1) % 2 ^ 64 ≡ 2 ^ k - 1
      mask k e = omega (arith, block_pos, c.block_max)

  pub in_range : range_check x.block_basic.capacity offset size ≡ true
  in_range =
      (range_check_iff x.block_basic.capacity offset size capacity_max).1
        (omega (arith, block_pos, c.inside, c.size_is), c.inside)

  pub plain : signed64 offset ≡ pos offset
  plain = ground (arith, capacity_max, c.inside)

  -- The argument in the memory that the tender is given.
  pub given : Args (fill_args t.hvt.mem sp handle offset buf size) sp handle offset buf size
  given =
      fill_args-Args t.hvt.mem sp handle offset buf size c.handle_max
        (omega (arith, capacity_max, c.inside)) (omega (arith, c.buffer, c.ready.mem_size))
        (omega (arith, c.buffer, c.ready.mem_size))

  pub same_buffer :
      load_bytes (fill_args t.hvt.mem sp handle offset buf size) buf size
      ≡ load_bytes t.hvt.mem buf size
  same_buffer =
      load_bytes-same size t.hvt.mem (fill_args t.hvt.mem sp handle offset buf size) buf (λ k le lt.
        fill_args-outside t.hvt.mem sp handle offset buf size k (ground (arith, c.apart)))
