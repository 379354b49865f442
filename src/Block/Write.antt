-- ===== src/Block/Write.antt =====
-- tenders/hvt/hvt_module_blk.c: what `hypercall_block_write` may change.
use solo.Base.{
  ℕ, ◌+◌, ◌%◌, ◌^◌, ◌≤◌, ◌<◌, ◌≡◌, ◌≢◌, ◌⊎◌, inl, inr, true, List, length, done, ℤ, pos, arith,
  signed64, refl, ap, Bool-cases, Option-cases, ◌!=◌,
}
use native.Mathlib.Decide.{ℕ_discrete, dec_lt}
use solo.Mft.{MftEntry, mft_dev_block_basic}
use solo.Mft.Lookup.{Holds, mft_get_by_index-Holds}
use solo.Hvt.{Memory, load_bytes, load64}
use solo.Hvt.Memory.{checked_gpa_p-cases, length-load_bytes}
use solo.Block.{
  Files, Tender, range_check, write_out, hypercall_block_write, sizeof_hc_block, at_offset, at_len,
  at_data, at_ret, set_ret, solo5_r_ok, solo5_r_einval, is_minus_one, to_size,
}
use solo.Block.Check.{
  range_check_iff, FilesLaws, IsReady, EndsWith, returns, stops, StopsFor, SameOutside,
  store32-SameOutside,
}

module _ (os : Files) (laws : FilesLaws os) where
  open os use {Disk, pwrite}
  open laws use {byte, file}

  -- A byte of a file may differ only if the argument at `p` names a block device with a descriptor
  -- of that file, and the byte is in the requested range, below the capacity.
  abbrev pub Confined : Tender Disk → ℕ → Disk → Type 0
  Confined t p d' =
      (fd k : ℕ)
      → byte d' fd k ≢ byte t.disk fd k
      → (x : MftEntry) × Holds t.host_mft (load64 t.hvt.mem p % 2 ^ 32) mft_dev_block_basic x
        × (fd ≡ file x.hostfd)
        × (load64 t.hvt.mem (at_offset p) ≤ k)
        × (k < load64 t.hvt.mem (at_offset p) + load64 t.hvt.mem (at_len p))
        × (k < x.block_basic.capacity)

  -- What a write may do, with its argument inside guest memory: the files are confined and change only by a write
  -- from a buffer inside guest memory, and of guest memory only `ret` changes.
  abbrev pub WriteEffect : Tender Disk → ℕ → Tender Disk → Type 0
  WriteEffect t p t' =
      (p + sizeof_hc_block < t.hvt.guest_mem_size)
      × Confined t p t'.disk
      × ((t'.disk ≡ t.disk)
          ⊎ (load64 t.hvt.mem (at_data p) + load64 t.hvt.mem (at_len p) < t.hvt.guest_mem_size))
      × SameOutside t.hvt.mem t'.hvt.mem (at_ret p) 4
      × (t'.hvt.guest_mem_size ≡ t.hvt.guest_mem_size)
      × (t'.host_mft ≡ t.host_mft)

  -- The transfer to the device of the handle was not complete.
  abbrev pub WriteFails : Tender Disk → ℕ → Type 0
  WriteFails t p =
      (x : MftEntry) × Holds t.host_mft (load64 t.hvt.mem p % 2 ^ 32) mft_dev_block_basic x
      × ((pwrite t.disk x.hostfd (pos (load64 t.hvt.mem (at_offset p)))
            (load_bytes t.hvt.mem (load64 t.hvt.mem (at_data p)) (load64 t.hvt.mem (at_len p)))).1
          ≢ pos (load64 t.hvt.mem (at_len p)))

  refused :
      (t : Tender Disk) (p : ℕ)
      → p + sizeof_hc_block < t.hvt.guest_mem_size
      → EndsWith
          (WriteEffect t p)
          (StopsFor t p (WriteFails t p))
          (done (set_ret t p solo5_r_einval))
  refused t p within = returns refl (
    within,
    (λ fd k ne. absurd (ne refl)),
    inl refl,
    store32-SameOutside t.hvt.mem (at_ret p) solo5_r_einval,
    refl,
    refl,
  )

  written_Confined :
      (t : Tender Disk) (p : ℕ) (x : MftEntry) (bytes : List ℕ)
      → Holds t.host_mft (load64 t.hvt.mem p % 2 ^ 32) mft_dev_block_basic x
      → length bytes ≡ load64 t.hvt.mem (at_len p)
      → load64 t.hvt.mem (at_offset p) + load64 t.hvt.mem (at_len p) ≤ x.block_basic.capacity
      → Confined t p (pwrite t.disk x.hostfd (pos (load64 t.hvt.mem (at_offset p))) bytes).0
  written_Confined t p x bytes holds len fits fd k ne = elim (ℕ_discrete fd (file x.hostfd)) [
    | no other ↦ absurd (ne (outside (inl other)))
    | yes same ↦ elim (dec_lt k o) [
      | yes below ↦ absurd (ne (outside (inr (inl below))))
      | no le ↦ elim (dec_lt k (o + length bytes)) [
        | no above ↦ absurd (ne (outside (inr (inr (omega arith)))))
        | yes lt ↦ (x, holds, same, omega arith, omega arith, omega arith)
      ]
    ]
  ]
    where
      o : ℕ
      o = load64 t.hvt.mem (at_offset p)

      outside :
          (fd ≢ file x.hostfd) ⊎ ((k < o) ⊎ (o + length bytes ≤ k))
          → byte (pwrite t.disk x.hostfd (pos o) bytes).0 fd k ≡ byte t.disk fd k
      outside = laws.pwrite_outside t.disk x.hostfd o bytes fd k

  write_out-EndsWith :
      (t : Tender Disk) (p : ℕ) (x : MftEntry)
      → IsReady t
      → p + sizeof_hc_block < t.hvt.guest_mem_size
      → Holds t.host_mft (load64 t.hvt.mem p % 2 ^ 32) mft_dev_block_basic x
      → range_check x.block_basic.capacity
          (load64 t.hvt.mem (at_offset p))
          (load64 t.hvt.mem (at_len p))
        ≡ true
      → EndsWith (WriteEffect t p) (StopsFor t p (WriteFails t p)) (write_out os t p x)
  unfolding write_out
  write_out-EndsWith t p x ready within holds check =
      elim (checked_gpa_p-cases t.hvt buf len ready.mem_size) [
        | inr (out, bad) ↦ stops (rw bad) (inr (inl out))
        | inl (inside, good) ↦ elim (Bool-cases (is_minus_one ret)) [
          | inl failed ↦ stops (rw (good, plain, failed)) (inr (inr (x, holds, minus failed)))
          | inr went ↦ elim (Bool-cases (to_size ret != len)) [
            | inl partial ↦
                stops (rw (good, plain, went, partial)) (inr (inr (x, holds, short partial)))
            | inr whole ↦ returns (rw (good, plain, went, whole)) (
              within,
              written_Confined t p x (load_bytes m buf len) holds (length-load_bytes len m buf)
                  range.1,
              inr inside,
              store32-SameOutside m (at_ret p) solo5_r_ok,
              refl,
              refl,
            )
          ]
        ]
      ]
    where
      m : Memory
      m = t.hvt.mem

      o : ℕ
      o = load64 m (at_offset p)

      len : ℕ
      len = load64 m (at_len p)

      buf : ℕ
      buf = load64 m (at_data p)

      ret : ℤ
      ret = (pwrite t.disk x.hostfd (pos o) (load_bytes m buf len)).1

      minus : is_minus_one ret ≡ true → ret ≢ pos (len)
      minus failed e = absurd (ground (arith, failed, ap is_minus_one e))

      short : (to_size ret != len) ≡ true → ret ≢ pos (len)
      short partial e = absurd (ground (arith, partial, ap to_size e))

      capacity : x.block_basic.capacity < 2 ^ 63
      capacity = ready.capacities (load64 t.hvt.mem p % 2 ^ 32) x holds.1

      range : (o < x.block_basic.capacity) × (o + len ≤ x.block_basic.capacity)
      range = (range_check_iff x.block_basic.capacity o len capacity).0 check

      plain : signed64 o ≡ pos o
      plain = ground (arith, range.0, capacity)

  -- For a manifest in which the lookups work, with capacities that an `off_t` holds, and guest memory of fewer than
  -- 2^64 bytes: a block write that returns to the guest had its argument inside guest memory, and it changes only
  -- bytes of the file of the device that the handle names, in the requested range and below the device's capacity,
  -- and those only from a buffer inside guest memory; of guest memory only `ret` changes. The only other outcome is
  -- that the tender stops with status 1, since the argument or the buffer does not lie inside guest memory or the
  -- transfer was not complete.
  pub hypercall_block_write-EndsWith :
      (t : Tender Disk) (gpa : ℕ)
      → IsReady t
      → EndsWith
          (WriteEffect t gpa)
          (StopsFor t gpa (WriteFails t gpa))
          (hypercall_block_write os t gpa)
  unfolding hypercall_block_write
  hypercall_block_write-EndsWith t gpa ready =
      let (o, found, holds) =
        mft_get_by_index-Holds t.host_mft (load64 m gpa) mft_dev_block_basic ready.usable in
      elim (checked_gpa_p-cases t.hvt gpa sizeof_hc_block ready.mem_size) [
        | inr (out, bad) ↦ stops (rw bad) (inl out)
        | inl (within, good) ↦ elim (Option-cases o) [
          | inl nothing ↦ rw (good, found, nothing) (refused t gpa within)
          | inr (x, e) ↦
              elim (Bool-cases (
                range_check x.block_basic.capacity (load64 m (at_offset gpa))
                  (load64 m (at_len gpa)))) [
                    | inl ok ↦
                        rw (good, found, e, ok)
                          (write_out-EndsWith t gpa x ready within ((holds x).0 e) ok)
                    | inr out ↦ rw (good, found, e, out) (refused t gpa within)
                  ]
        ]
      ]
    where
      m : Memory
      m = t.hvt.mem
