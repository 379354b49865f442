-- ===== src/Block/Read.antt =====
-- tenders/hvt/hvt_module_blk.c: what `hypercall_block_read` may change.
use solo.Base.{
  ℕ, ◌+◌, ◌%◌, ◌^◌, ◌≤◌, ◌<◌, ◌≡◌, ◌≢◌, ◌⊎◌, inl, inr, true, List, length, done, ℤ, pos, arith,
  signed64, refl, ap, ◌∙◌, Bool-cases, Option-cases, ◌!=◌,
}
use solo.Mft.{MftEntry, mft_dev_block_basic}
use solo.Mft.Lookup.{Holds, mft_get_by_index-Holds}
use solo.Hvt.{Memory, load64, store32, store_bytes}
use solo.Hvt.Memory.{checked_gpa_p-cases, store_bytes-outside}
use solo.Block.{
  Files, Tender, range_check, read_in, hypercall_block_read, sizeof_hc_block, at_offset, at_len,
  at_data, at_ret, set_ret, solo5_r_ok, solo5_r_einval, is_minus_one, to_size,
}
use solo.Block.Check.{
  range_check_iff, FilesLaws, IsReady, EndsWith, returns, stops, StopsFor, store32-SameOutside,
}

module _ (os : Files) (laws : FilesLaws os) where
  open os use {Disk, pread}

  -- A byte of guest memory that differs is one of `ret`, or one of a buffer inside guest memory.
  abbrev pub Reached : Tender Disk → ℕ → Memory → Type 0
  Reached t p m' =
      (k : ℕ)
      → m' k ≢ t.hvt.mem k
      → ((at_ret p ≤ k) × (k < at_ret p + 4))
        ⊎ ((load64 t.hvt.mem (at_data p) ≤ k)
            × (k < load64 t.hvt.mem (at_data p) + load64 t.hvt.mem (at_len p))
            × (load64 t.hvt.mem (at_data p) + load64 t.hvt.mem (at_len p) < t.hvt.guest_mem_size))

  abbrev pub ReadEffect : Tender Disk → ℕ → Tender Disk → Type 0
  ReadEffect t p t' =
      (p + sizeof_hc_block < t.hvt.guest_mem_size)
      × Reached t p t'.hvt.mem
      × (t'.disk ≡ t.disk)
      × (t'.hvt.guest_mem_size ≡ t.hvt.guest_mem_size)
      × (t'.host_mft ≡ t.host_mft)

  -- The transfer from the device of the handle was not as long as the argument says once the bytes have arrived.
  abbrev pub ReadFails : Tender Disk → ℕ → Type 0
  ReadFails t p =
      (x : MftEntry) × Holds t.host_mft (load64 t.hvt.mem p % 2 ^ 32) mft_dev_block_basic x
      × (let got =
            pread t.disk x.hostfd (pos (load64 t.hvt.mem (at_offset p)))
              (load64 t.hvt.mem (at_len p)) in
          got.1
          ≢ pos (load64 (store_bytes t.hvt.mem (load64 t.hvt.mem (at_data p)) got.0) (at_len p)))

  -- A place is in a range, before it or behind it.
  place : (k a n : ℕ) → ((k < a) ⊎ (a + n ≤ k)) ⊎ ((a ≤ k) × (k < a + n))
  place k a n = grind arith

  ret_Reached : (t : Tender Disk) (p r : ℕ) → Reached t p (store32 t.hvt.mem (at_ret p) r)
  ret_Reached t p r k ne = elim (place k (at_ret p) 4) [
    | inl out ↦ absurd (ne (store32-SameOutside t.hvt.mem (at_ret p) r k out))
    | inr h ↦ inl h
  ]

  data_Reached :
      (t : Tender Disk) (p r : ℕ) (bytes : List ℕ)
      → length bytes ≤ load64 t.hvt.mem (at_len p)
      → load64 t.hvt.mem (at_data p) + load64 t.hvt.mem (at_len p) < t.hvt.guest_mem_size
      → Reached t p
          (store32 (store_bytes t.hvt.mem (load64 t.hvt.mem (at_data p)) bytes) (at_ret p) r)
  data_Reached t p r bytes fits inside k ne = elim (place k (at_ret p) 4) [
    | inr h ↦ inl h
    | inl out ↦ elim (place k buf (length bytes)) [
      | inr (lo, hi) ↦ inr (lo, omega arith, inside)
      | inl off ↦ absurd (
          ne (
            store32-SameOutside (store_bytes t.hvt.mem buf bytes) (at_ret p) r k out
            ∙ store_bytes-outside bytes t.hvt.mem buf k off))
    ]
  ]
    where
      buf : ℕ
      buf = load64 t.hvt.mem (at_data p)

  read_in-EndsWith :
      (t : Tender Disk) (p : ℕ) (x : MftEntry)
      → IsReady t
      → p + sizeof_hc_block < t.hvt.guest_mem_size
      → Holds t.host_mft (load64 t.hvt.mem p % 2 ^ 32) mft_dev_block_basic x
      → range_check x.block_basic.capacity
          (load64 t.hvt.mem (at_offset p))
          (load64 t.hvt.mem (at_len p))
        ≡ true
      → EndsWith (ReadEffect t p) (StopsFor t p (ReadFails t p)) (read_in os t p x)
  unfolding read_in
  read_in-EndsWith t p x ready within holds check =
      elim (checked_gpa_p-cases t.hvt buf len ready.mem_size) [
        | inr (out, bad) ↦ stops (rw bad) (inr (inl out))
        | inl (inside, good) ↦ elim (Bool-cases (is_minus_one ret)) [
          | inl failed ↦ stops (rw (good, plain, failed)) (inr (inr (x, holds, minus failed)))
          | inr went ↦
              elim (Bool-cases (to_size ret != load64 (store_bytes m buf bytes) (at_len p))) [
                | inl partial ↦
                    stops (rw (good, plain, went, partial)) (inr (inr (x, holds, short partial)))
                | inr whole ↦ returns (rw (good, plain, went, whole)) (
                  within,
                  data_Reached t p solo5_r_ok bytes (laws.pread_fits t.disk x.hostfd o len) inside,
                  refl,
                  refl,
                  refl,
                )
              ]
        ]
      ]
    where
      m : Memory
      m = t.hvt.mem

      o : ℕ
      o = load64 m (at_offset p)

      len : ℕ
      len = load64 m (at_len p)

      buf : ℕ
      buf = load64 m (at_data p)

      bytes : List ℕ
      bytes = (pread t.disk x.hostfd (pos o) len).0

      ret : ℤ
      ret = (pread t.disk x.hostfd (pos o) len).1

      minus : is_minus_one ret ≡ true → ret ≢ pos (load64 (store_bytes m buf bytes) (at_len p))
      minus failed e = absurd (ground (arith, failed, ap is_minus_one e))

      short :
          (to_size ret != load64 (store_bytes m buf bytes) (at_len p)) ≡ true
          → ret ≢ pos (load64 (store_bytes m buf bytes) (at_len p))
      short partial e = absurd (ground (arith, partial, ap to_size e))

      capacity : x.block_basic.capacity < 2 ^ 63
      capacity = ready.capacities (load64 t.hvt.mem p % 2 ^ 32) x holds.1

      range : (o < x.block_basic.capacity) × (o + len ≤ x.block_basic.capacity)
      range = (range_check_iff x.block_basic.capacity o len capacity).0 check

      plain : signed64 o ≡ pos o
      plain = ground (arith, range.0, capacity)

  -- For a manifest in which the lookups work, with capacities that an `off_t` holds, and guest memory of fewer than
  -- 2^64 bytes: a block read that returns to the guest had its argument inside guest memory, leaves the files alone,
  -- and changes in guest memory only `ret` of that argument and bytes of the requested buffer, which lies inside guest
  -- memory. The only other outcome is that the tender stops with status 1, since the argument or the buffer does
  -- not lie inside guest memory or the transfer was not as long as asked for.
  pub hypercall_block_read-EndsWith :
      (t : Tender Disk) (gpa : ℕ)
      → IsReady t
      → EndsWith
          (ReadEffect t gpa)
          (StopsFor t gpa (ReadFails t gpa))
          (hypercall_block_read os t gpa)
  unfolding hypercall_block_read
  hypercall_block_read-EndsWith t gpa ready =
      let (o, found, holds) =
        mft_get_by_index-Holds t.host_mft (load64 m gpa) mft_dev_block_basic ready.usable in
      elim (checked_gpa_p-cases t.hvt gpa sizeof_hc_block ready.mem_size) [
        | inr (out, bad) ↦ stops (rw bad) (inl out)
        | inl (within, good) ↦ elim (Option-cases o) [
          | inl nothing ↦ rw (good, found, nothing) (refused within)
          | inr (x, e) ↦
              elim (Bool-cases (
                range_check x.block_basic.capacity (load64 m (at_offset gpa))
                  (load64 m (at_len gpa)))) [
                    | inl ok ↦
                        rw (good, found, e, ok)
                          (read_in-EndsWith t gpa x ready within ((holds x).0 e) ok)
                    | inr out ↦ rw (good, found, e, out) (refused within)
                  ]
        ]
      ]
    where
      m : Memory
      m = t.hvt.mem

      refused :
          gpa + sizeof_hc_block < t.hvt.guest_mem_size
          → EndsWith
              (ReadEffect t gpa)
              (StopsFor t gpa (ReadFails t gpa))
              (done (set_ret t gpa solo5_r_einval))
      refused within = returns refl (within, ret_Reached t gpa solo5_r_einval, refl, refl, refl)
