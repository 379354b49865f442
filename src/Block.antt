-- ===== src/Block.antt =====
-- tenders/hvt/hvt_module_blk.c: the hypercalls of the block device. The host's files are a parameter
-- of the model, with the results of `pwrite` and `pread`.
pub mod Check
pub mod Write
pub mod Read
use solo.Base.{
  ℕ, ◌+◌, ◌-◌, ◌^◌, Bool, true, false, not, ◌||◌, ◌!=◌, ltb, leb, if◌then◌else◌, List, Option, none,
  some, Run, done, exits, ◌>>=◌, ℤ, pos, negsuc, signed64, add_ℕ, ltbℤ, overflows64,
}
use solo.Mft.{Mft, MftEntry, mft_get_by_index, mft_dev_block_basic}
use solo.Hvt.{Hvt, Memory, checked_gpa_p, load_bytes, store_bytes, load64, store32}

-- The host's files. `pwrite` takes the descriptor, the offset and the bytes, and gives its result;
-- `pread` takes the count, and gives the bytes that it put into the buffer with its result.
pub record Files : Type 1 where
  pub Disk : Type 0
  pub pwrite : Disk → ℕ → ℤ → List ℕ → Disk × ℤ
  pub pread : Disk → ℕ → ℤ → ℕ → List ℕ × ℤ

pub record Tender (D : Type 0) : Type 0 where
  pub hvt : Hvt
  pub host_mft : Mft
  pub disk : D

abbrev pub solo5_r_ok : ℕ
solo5_r_ok = 0

abbrev pub solo5_r_einval : ℕ
solo5_r_einval = 2

-- `struct hvt_hc_block_write` and `struct hvt_hc_block_read`: the offsets of their fields.
abbrev pub at_offset : ℕ → ℕ
at_offset p = p + 8

abbrev pub at_data : ℕ → ℕ
at_data p = p + 16

abbrev pub at_len : ℕ → ℕ
at_len p = p + 24

abbrev pub at_ret : ℕ → ℕ
at_ret p = p + 32

abbrev pub sizeof_hc_block : ℕ
sizeof_hc_block = 40

-- The range test of both handlers: `wr->len > SSIZE_MAX`, the test of the offset, and the signed
-- addition with its test against the capacity.
unfoldable pub range_check : ℕ → ℕ → ℕ → Bool
range_check capacity offset len =
    if ltb (2 ^ 63 - 1) len || leb capacity offset
    then false
    else let end = add_ℕ (signed64 offset) len in
      not (overflows64 end || ltbℤ (signed64 capacity) end)

-- `(size_t)ret`
abbrev pub to_size : ℤ → ℕ
to_size (pos n) = n
to_size (negsuc n) = 2 ^ 64 - (n + 1)

abbrev pub is_minus_one : ℤ → Bool
is_minus_one (pos n) = false
is_minus_one (negsuc n) = if ltb 0 n then false else true

abbrev pub set_mem : {D : Type 0} → Tender D → Memory → Tender D
set_mem t m = record t { hvt = record (t.hvt) { mem = m } }

-- `wr->ret = r`
abbrev pub set_ret : {D : Type 0} → Tender D → ℕ → ℕ → Tender D
set_ret t p r = set_mem t (store32 t.hvt.mem (at_ret p) r)

module _ (os : Files) where
  open os use {Disk, pwrite, pread}

  -- The transfer at the end of `hypercall_block_write`, with the argument at `p`.
  unfoldable pub write_out : Tender Disk → ℕ → MftEntry → Run (Tender Disk)
  write_out t p x =
      let m = t.hvt.mem in
      checked_gpa_p t.hvt (load64 m (at_data p)) (load64 m (at_len p)) >>= λ q.
      let (d, ret) =
        pwrite t.disk x.hostfd (signed64 (load64 m (at_offset p)))
          (load_bytes m q (load64 m (at_len p))) in
      if is_minus_one ret
      then exits 1
      else if to_size ret != load64 m (at_len p)
      then exits 1
      else done (set_ret (record t { disk = d }) p solo5_r_ok)

  unfoldable pub hypercall_block_write : Tender Disk → ℕ → Run (Tender Disk)
  hypercall_block_write t gpa = checked_gpa_p t.hvt gpa sizeof_hc_block >>= λ p.
      let m = t.hvt.mem in
      mft_get_by_index t.host_mft (load64 m p) mft_dev_block_basic >>= λ e. elim e [
        | none ↦ done (set_ret t p solo5_r_einval)
        | some x ↦
            if range_check x.block_basic.capacity (load64 m (at_offset p)) (load64 m (at_len p))
            then write_out t p x
            else done (set_ret t p solo5_r_einval)
      ]

  -- The transfer at the end of `hypercall_block_read`. `rd->len` is read again after the bytes have
  -- arrived.
  unfoldable pub read_in : Tender Disk → ℕ → MftEntry → Run (Tender Disk)
  read_in t p x =
      let m = t.hvt.mem in
      checked_gpa_p t.hvt (load64 m (at_data p)) (load64 m (at_len p)) >>= λ q.
      let (bytes, ret) =
        pread t.disk x.hostfd (signed64 (load64 m (at_offset p))) (load64 m (at_len p)) in
      let m' = store_bytes m q bytes in
      if is_minus_one ret
      then exits 1
      else if to_size ret != load64 m' (at_len p)
      then exits 1
      else done (set_ret (set_mem t m') p solo5_r_ok)

  unfoldable pub hypercall_block_read : Tender Disk → ℕ → Run (Tender Disk)
  hypercall_block_read t gpa = checked_gpa_p t.hvt gpa sizeof_hc_block >>= λ p.
      let m = t.hvt.mem in
      mft_get_by_index t.host_mft (load64 m p) mft_dev_block_basic >>= λ e. elim e [
        | none ↦ done (set_ret t p solo5_r_einval)
        | some x ↦
            if range_check x.block_basic.capacity (load64 m (at_offset p)) (load64 m (at_len p))
            then read_in t p x
            else done (set_ret t p solo5_r_einval)
      ]
