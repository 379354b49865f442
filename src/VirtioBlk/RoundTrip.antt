-- ===== src/VirtioBlk/RoundTrip.antt =====
-- bindings/virtio/virtio_blk.c: `solo5_block_write` and `solo5_block_read` on devices that are disks.
use native.Mathlib.Decide.{ℕ_discrete}
use solo.Base.{
  ℕ, ◌*◌, ◌/◌, ◌%◌, ◌^◌, ◌≤◌, ◌<◌, ◌≡◌, ◌≢◌, ◌⊎◌, inl, inr, refl, sym, ap, ◌∙◌, true, false, ◌==◌,
  ltb, if◌then◌else◌, List, [], length, get_elem?, get_elem?-lt, get_elem?-set_self, Option, some,
  some_inj, done, arith,
}
use solo.Mft.{Mft, MftEntry, mft_dev_block_basic, mft_max_entries, mft_get_by_index}
use solo.Mft.Lookup.{IsUsable, Holds, mft_get_by_index-Holds}
use solo.Block.{solo5_r_ok, solo5_r_einval}
use solo.VirtioBlk.{
  BlkDevice, Disks, VirtioBlkDesc, is_refused, put_disk, block_call, solo5_block_write,
  solo5_block_read, virtio_blk_t_in, virtio_blk_t_out, virtio_blk_sector_size,
}
use solo.Virtq.{Virtq}
use solo.VirtioBlk.Fill.{Idle, Transfer}
use solo.VirtioBlk.Sync.{IsDisk, OneSector, Transferred, virtio_blk_op_sync-Transferred}

module _ {D : Type 0} (dev : BlkDevice D) (is_disk : IsDisk dev) (m : Mft) (usable : IsUsable m)
    (h : ℕ) (e : MftEntry) (holds : Holds m (h % 2 ^ 32) mft_dev_block_basic e)
    (attached : e.attached ≡ true) (small : e.hostfd < mft_max_entries) where
  open dev use {used_idx}
  open is_disk use {disk, sectors, patience}

  -- The device of the handle has no request, and the manifest has its size, for which 64 bits of offset are enough.
  pub record Ready (s : Disks D) : Type 0 where
    pub bd : VirtioBlkDesc
    pub at : get_elem? s.bd_table e.hostfd ≡ some bd
    pub idle : Idle bd.blkq
    pub used : used_idx (s.states e.hostfd) ≡ bd.blkq.avail_idx
    pub word : e.block_basic.capacity * virtio_blk_sector_size ≤ 2 ^ 64
    pub capacity : e.block_basic.capacity ≡ sectors (s.states e.hostfd)

  -- The disk behind the handle.
  abbrev pub disk_of : Disks D → ℕ → List ℕ
  disk_of s = disk (s.states e.hostfd)

  found : mft_get_by_index m h mft_dev_block_basic ≡ done (some e)
  found =
      let (o, went, iff) = mft_get_by_index-Holds m h mft_dev_block_basic usable in
      rw went (ap done ((iff e).1 holds))

  -- The device is not looked at for a call that the tests refuse.
  pub block_call_refused :
      (fuel : ℕ) (s : Disks D) (type offset : ℕ) (buf : List ℕ) (size : ℕ)
      → is_refused e offset size ≡ true
      → block_call dev fuel m s type h offset buf size ≡ done (s, solo5_r_einval, [])
  unfolding block_call
  block_call_refused fuel s type offset buf size refused =
      rw (found, attached, inside, refused) refl
    where
      inside : ltb e.hostfd mft_max_entries ≡ true
      inside = ground (arith, small)

  -- A call on a sector that the device has: what the transfer has done, and the state.
  call_lem :
      (fuel : ℕ) (s : Disks D) (type sector : ℕ) (buf : List ℕ)
      → Ready s
      → ((d : D) → patience d < fuel)
      → 2 ≤ fuel
      → sector < e.block_basic.capacity
      → ((type ≡ virtio_blk_t_out) × (length buf ≡ virtio_blk_sector_size))
        ⊎ (type ≡ virtio_blk_t_in)
      → (s' : Disks D) × (bytes : List ℕ) × (block_call dev fuel m s type h
            (sector * virtio_blk_sector_size)
            buf
            virtio_blk_sector_size
          ≡ done (s', solo5_r_ok, bytes))
        × Ready s'
        × (type ≡ virtio_blk_t_out
            → (bytes ≡ [])
              × (disk_of s' sector ≡ buf)
              × ((k : ℕ) → k ≢ sector → disk_of s' k ≡ disk_of s k))
        × (type ≡ virtio_blk_t_in
            → (bytes ≡ disk_of s sector) × ((k : ℕ) → disk_of s' k ≡ disk_of s k))
  unfolding block_call
  call_lem fuel s type sector buf ready enough two inside kind =
      let (d', q', o, went, t) =
        virtio_blk_op_sync-Transferred dev is_disk fuel (s.states e.hostfd) ready.bd.blkq r
          ready.idle ready.used one (enough (s.states e.hostfd)) two in
      let (bytes, is) = answered d' q' o t in
      (
        after d' q',
        bytes,
        rw (found, attached, in_table, accepted, ready.at, same_sector, went, is) refl,
        record {
          bd = record (ready.bd) { blkq = q' };
          at =
              get_elem?-set_self s.bd_table e.hostfd (record (ready.bd) { blkq = q' })
                (get_elem?-lt s.bd_table e.hostfd ready.bd ready.at);
          idle = t.idle;
          used = ap used_idx (state d' q') ∙ t.used;
          word = ready.word;
          capacity = ready.capacity ∙ sym t.sectors_same ∙ ap sectors (sym (state d' q'));
        },
        λ write.
            let (nothing, stored, others) = t.wrote write in_range in
            (
              some_inj (sym is ∙ nothing),
              ap (λ (d : D). disk d sector) (state d' q') ∙ stored,
              λ k ne. ap (λ (d : D). disk d k) (state d' q') ∙ others k ne,
            ),
        λ read.
            let (got, others) = t.read read in_range in
            (some_inj (sym is ∙ got), λ k. ap (λ (d : D). disk d k) (state d' q') ∙ others k),
      )
    where
      r : Transfer
      r = record { type = type; sector = sector; buf = buf; len = virtio_blk_sector_size }

      one : OneSector r
      one = record { len = refl; word = omega (arith, inside, ready.word); kind = kind }

      after : D → Virtq → Disks D
      after d' q' = put_disk s e.hostfd (record (ready.bd) { blkq = q' }) d'

      state : (d' : D) (q' : Virtq) → (after d' q').states e.hostfd ≡ d'
      state d' q' = ground arith

      in_range : sector < sectors (s.states e.hostfd)
      in_range = omega (arith, inside, ready.capacity)

      in_table : ltb e.hostfd mft_max_entries ≡ true
      in_table = ground (arith, small)

      accepted : is_refused e (sector * virtio_blk_sector_size) virtio_blk_sector_size ≡ false
      accepted = ground (arith, inside)

      same_sector : sector * virtio_blk_sector_size / virtio_blk_sector_size ≡ sector
      same_sector = omega arith

      answered :
          (d' : D) (q' : Virtq) (o : Option (List ℕ))
          → Transferred dev is_disk (s.states e.hostfd) ready.bd.blkq r d' q' o
          → (bytes : List ℕ) × (o ≡ some bytes)
      answered d' q' o t = elim kind [
        | inl (write, _) ↦ ([], (t.wrote write in_range).0)
        | inr read ↦ (disk_of s sector, (t.read read in_range).0)
      ]

  -- For a block device of the manifest that is attached to a disk without a request, with enough fuel: a write of a sector's bytes
  -- in range returns SOLO5_R_OK, and a read of any sector in range after it returns SOLO5_R_OK and the bytes that were written, if
  -- it is the same sector, and otherwise what the disk had before. The device is ready for the next call.
  pub virtio_block_write-read :
      (fuel : ℕ) (s : Disks D) (sector other : ℕ) (buf : List ℕ)
      → Ready s
      → ((d : D) → patience d < fuel)
      → 2 ≤ fuel
      → sector < e.block_basic.capacity
      → other < e.block_basic.capacity
      → length buf ≡ virtio_blk_sector_size
      → (s' : Disks D) × (s'' : Disks D) × (solo5_block_write dev fuel m s h
            (sector * virtio_blk_sector_size)
            buf
          ≡ done (s', solo5_r_ok, []))
        × (solo5_block_read dev fuel m s' h (other * virtio_blk_sector_size) virtio_blk_sector_size
            ≡ done (s'', solo5_r_ok, (if other == sector then buf else disk_of s other)))
        × Ready s''
  virtio_block_write-read fuel s sector other buf ready enough two inside inside' whole =
      let (s', none_read, wrote, ready', stored, _) =
        call_lem fuel s virtio_blk_t_out sector buf ready enough two inside (inl (refl, whole)) in
      let (s'', bytes, went, ready'', _, got) =
        call_lem fuel s' virtio_blk_t_in other [] ready' enough two inside' (inr refl) in
      let (nothing, same, others) = stored refl in
      (
        s',
        s'',
        rw whole (wrote ∙ ap (λ (b : List ℕ). done (s', solo5_r_ok, b)) nothing),
        went
            ∙ ap (λ (b : List ℕ). done (s'', solo5_r_ok, b))
                ((got refl).0 ∙ held (disk_of s') same others),
        ready'',
      )
    where
      held :
          (disk' : ℕ → List ℕ)
          → disk' sector ≡ buf
          → ((k : ℕ) → k ≢ sector → disk' k ≡ disk_of s k)
          → disk' other ≡ (if other == sector then buf else disk_of s other)
      held disk' same others = elim (ℕ_discrete other sector) [
        | yes here ↦ ap disk' here ∙ same ∙ ground (arith, here)
        | no away ↦ others other away ∙ ground (arith, away)
      ]
