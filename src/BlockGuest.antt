-- ===== src/BlockGuest.antt =====
-- bindings/hvt/block.c: the guest's side of the block device, down to the tender's handlers.
-- `sp` is the address of the hypercall's argument on the guest's stack. A hypercall is taken to reach
-- the handler that is registered for it.
pub mod Args
pub mod Call
pub mod RoundTrip
use solo.Base.{
  ℕ, ◌+◌, ◌-◌, ◌^◌, ◌%◌, Bool, ◌==◌, ◌!=◌, ◌||◌, leb, if◌then◌else◌, List, Option, none, some, Run,
  done, ◌>>=◌, ◌>>◌, c_assert, bit_and,
}
use solo.Mft.{Mft, MftEntry, mft_get_by_index, mft_get_by_name, mft_dev_block_basic}
use solo.Hvt.{Memory, load32, store32, store64}
use solo.Block.{
  Files, Tender, set_mem, at_offset, at_data, at_len, at_ret, solo5_r_ok, solo5_r_einval,
  hypercall_block_write, hypercall_block_read,
}

-- `struct hvt_hc_block_write` and `struct hvt_hc_block_read`, filled in.
unfoldable pub fill_args : Memory → ℕ → ℕ → ℕ → ℕ → ℕ → Memory
fill_args m p handle offset buf size =
    let m = store64 m p handle in
    let m = store64 m (at_offset p) offset in
    let m = store64 m (at_data p) buf in let m = store64 m (at_len p) size in store32 m (at_ret p) 0

-- `hvt_do_hypercall`: the argument is passed in 32 bits.
unfoldable pub hvt_do_hypercall {ℓ} : {S : Type ℓ} → (S → ℕ → Run S) → S → ℕ → Run S
hvt_do_hypercall handler s arg = c_assert (leb arg (2 ^ 32 - 1)) >> handler s (arg % 2 ^ 32)

-- The tests on the offset and on the size.
unfoldable pub is_refused : MftEntry → ℕ → ℕ → Bool
is_refused x offset size =
    (bit_and offset ((x.block_basic.block_size + 2 ^ 64 - 1) % 2 ^ 64) != 0)
    || (size != x.block_basic.block_size)

unfoldable pub solo5_block_write :
    (os : Files) → Mft → Tender os.Disk → ℕ → ℕ → ℕ → ℕ → ℕ → Run (Tender os.Disk × ℕ)
solo5_block_write os mft t sp handle offset buf size =
    mft_get_by_index mft handle mft_dev_block_basic >>= λ e. elim e [
      | none ↦ done (t, solo5_r_einval)
      | some x ↦
          if is_refused x offset size
          then done (t, solo5_r_einval)
          else (hvt_do_hypercall (hypercall_block_write os)
                (set_mem t (fill_args t.hvt.mem sp handle offset buf size)) sp
              >>= λ t'. done (t', load32 t'.hvt.mem (at_ret sp)))
    ]

unfoldable pub solo5_block_read :
    (os : Files) → Mft → Tender os.Disk → ℕ → ℕ → ℕ → ℕ → ℕ → Run (Tender os.Disk × ℕ)
solo5_block_read os mft t sp handle offset buf size =
    mft_get_by_index mft handle mft_dev_block_basic >>= λ e. elim e [
      | none ↦ done (t, solo5_r_einval)
      | some x ↦
          if is_refused x offset size
          then done (t, solo5_r_einval)
          else (hvt_do_hypercall (hypercall_block_read os)
                (set_mem t (fill_args t.hvt.mem sp handle offset buf size)) sp
              >>= λ t'. done (t', load32 t'.hvt.mem (at_ret sp)))
    ]

-- `struct solo5_block_info`
pub record BlockInfo : Type 0 where
  pub capacity : ℕ
  pub block_size : ℕ

-- `none` is SOLO5_R_EINVAL; otherwise the handle and the device's description.
unfoldable pub solo5_block_acquire : Mft → List ℕ → Run (Option (ℕ × BlockInfo))
solo5_block_acquire mft name = mft_get_by_name mft name mft_dev_block_basic >>= λ r. elim r [
  | none ↦ done none
  | some (index, e) ↦
      c_assert e.attached
      >> done (
          some (
            index,
            record { capacity = e.block_basic.capacity; block_size = e.block_basic.block_size },
          ))
]
