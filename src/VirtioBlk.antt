-- ===== src/VirtioBlk.antt =====
-- bindings/virtio/virtio_blk.c: the block driver. The device is a parameter: what it does between two looks of the driver at
-- its rings, the index and the entries of its used ring, and the bytes that it leaves in the buffers. The loops are
-- recursion on fuel. The bytes of a write are a list, and so are those that a read leaves in the caller's buffer.
pub mod Fill
pub mod Request
pub mod Sync
pub mod RoundTrip
use solo.Base.{
  ℕ, zero, suc, ◌+◌, ◌-◌, ◌*◌, ◌/◌, ◌%◌, ◌^◌, Bool, true, ◌==◌, ◌!=◌, ◌||◌, ltb, leb, if◌then◌else◌,
  List, [], ◌∷◌, ◌++◌, length, get_elem?, set, Option, none, some, Run, done, out_of_fuel, ◌>>=◌,
  ◌>>◌, read_at, c_assert, bit_and,
}
use solo.Mft.{
  Mft, MftEntry, mft_get_by_index, mft_get_by_name, mft_dev_block_basic, mft_max_entries,
}
use solo.Hvt.{Memory, load_bytes, store_bytes, store32, store64}
use solo.Block.{solo5_r_ok, solo5_r_einval}
use solo.Virtq.{
  Virtq, IoBuffer, put_buf, add16, mask_of, virtq_add_descriptor_chain, virtq_notify_needed,
}
use solo.VirtioNet.Receive.{VirtqUsedElem, virtq_desc_f_write}

abbrev pub virtio_blk_t_in : ℕ
virtio_blk_t_in = 0

abbrev pub virtio_blk_t_out : ℕ
virtio_blk_t_out = 1

abbrev pub virtio_blk_s_ok : ℕ
virtio_blk_s_ok = 0

abbrev pub virtio_blk_sector_size : ℕ
virtio_blk_sector_size = 512

abbrev pub sizeof_virtio_blk_hdr : ℕ
sizeof_virtio_blk_hdr = 16

abbrev pub solo5_r_eunspec : ℕ
solo5_r_eunspec = 3

-- `struct virtio_blk_hdr` at the front of a buffer.
abbrev pub put_header : Memory → ℕ → ℕ → Memory
put_header m type sector = store64 (store32 (store32 m 0 type) 4 0) 8 sector

-- The three buffers of a request.
unfoldable pub fill_request : Virtq → ℕ → ℕ → ℕ → List ℕ → ℕ → Virtq
fill_request q head type sector buf len =
    let second = bit_and (add16 head 1) (mask_of q) in
    let third = bit_and (add16 head 2) (mask_of q) in
    let q1 = put_buf q head (record {
      contents = put_header (q.bufs head).contents type sector;
      len = sizeof_virtio_blk_hdr;
      extra_flags = 0;
    }) in
    let is_write = type == virtio_blk_t_out in
    let q2 = put_buf q1 second (record {
      contents =
          if is_write
          then store_bytes (q1.bufs second).contents 0 buf
          else (q1.bufs second).contents;
      len = len;
      extra_flags = if is_write then 0 else virtq_desc_f_write;
    }) in
    put_buf q2 third (record (q2.bufs third) { len = 1; extra_flags = virtq_desc_f_write })

-- The result is the head, with whether the device is notified.
unfoldable pub virtio_blk_op : ℕ → ℕ → Virtq → ℕ → ℕ → List ℕ → ℕ → Run (Virtq × ℕ × Bool)
virtio_blk_op avail_event used_flags q type sector buf len =
    let head = bit_and q.next_avail (mask_of q) in
    c_assert (leb len virtio_blk_sector_size)
    >> (virtq_add_descriptor_chain (fill_request q head type sector buf len) head 3 >>= λ r.
        let (q', added) = r in
        c_assert added
        >> (let (q'', notified) = virtq_notify_needed avail_event used_flags q' in
            done (q'', head, notified)))

-- The device: its work on the queue gives the contents of the buffers behind it.
pub record BlkDevice (D : Type 0) : Type 0 where
  pub work : D → Virtq → D × (ℕ → ℕ → ℕ)
  pub used_idx : D → ℕ
  pub used_ring : D → ℕ → VirtqUsedElem
  pub avail_event : D → ℕ
  pub used_flags : D → ℕ

abbrev pub with_contents : Virtq → (ℕ → ℕ → ℕ) → Virtq
with_contents q contents = record q { bufs = λ i. record (q.bufs i) { contents = contents i } }

module _ {D : Type 0} (dev : BlkDevice D) where
  open dev use {work, used_idx, used_ring, avail_event, used_flags}

  -- The loop that waits for the device.
  unfoldable pub wait_used : ℕ → D → Virtq → Run (D × Virtq)
  wait_used zero d q = out_of_fuel
  wait_used (suc f) d q =
      let (d', contents) = work d q in
      let rest = wait_used f d' (with_contents q contents) in
      if used_idx d' != q.avail_idx then rest else done (d', with_contents q contents)

  -- The loop that consumes used descriptors, three for each chain.
  unfoldable pub consume_used : ℕ → D → ℕ → Virtq → Run Virtq
  consume_used zero d head q = out_of_fuel
  consume_used (suc f) d head q =
      let e = used_ring d (bit_and q.last_used (mask_of q)) in
      let rest =
        consume_used f d head
          (record q { last_used = add16 q.last_used 1; num_avail = add16 q.num_avail 3 }) in
      if used_idx d != q.last_used then c_assert (head == e.id) >> rest else done q

  -- `none` is the result -1; otherwise the bytes that a read has copied to the caller.
  unfoldable pub virtio_blk_op_sync :
      ℕ → D → Virtq → ℕ → ℕ → List ℕ → ℕ → Run (D × Virtq × Option (List ℕ))
  virtio_blk_op_sync fuel d q type sector buf len =
      virtio_blk_op (avail_event d) (used_flags d) q type sector buf len >>= λ r.
      let (q1, head, notified) = r in
      wait_used fuel d q1 >>= λ s.
      let (d', q2) = s in
      consume_used fuel d' head q2 >>= λ q3.
      let second = bit_and (add16 head 1) (mask_of q3) in
      let third = bit_and (add16 head 2) (mask_of q3) in
      let bytes =
        if type == virtio_blk_t_in then load_bytes (q3.bufs second).contents 0 len else [] in
      if (q3.bufs third).contents 0 != virtio_blk_s_ok
      then done (d', q3, none)
      else done (d', q3, some bytes)

-- `struct virtio_blk_desc`, without the port's address.
pub record VirtioBlkDesc : Type 0 where
  pub blkq : Virtq
  pub sectors : ℕ
  pub sector_size : ℕ

-- `virtio_config_block`, with the configured devices as a list and the descriptor that `virtio_blk_config` fills in;
-- `none` is the result -1.
unfoldable pub virtio_config_block :
    Mft → List VirtioBlkDesc → VirtioBlkDesc → ℕ → Run (Option (Mft × List VirtioBlkDesc))
virtio_config_block m bds bd mft_index =
    let bd_index = length bds in
    if leb mft_max_entries bd_index
    then done none
    else (mft_get_by_index m mft_index mft_dev_block_basic >>= λ e. elim e [
      | none ↦ done none
      | some x ↦
          let x' = record x {
            block_basic = record { capacity = bd.sectors; block_size = bd.sector_size };
            hostfd = bd_index;
            attached = true;
          } in
          let m' = record m { e = set m.e (mft_index % 2 ^ 32) x' } in
          done (some (m', bds ++ (bd ∷ [])))
    ])

-- `none` is SOLO5_R_EINVAL; otherwise the handle, the capacity in bytes and the block size.
unfoldable pub solo5_block_acquire : Mft → List ℕ → Run (Option (ℕ × ℕ × ℕ))
solo5_block_acquire m name = mft_get_by_name m name mft_dev_block_basic >>= λ r. elim r [
  | none ↦ done none
  | some (mft_index, e) ↦
      let capacity = e.block_basic.capacity * virtio_blk_sector_size % 2 ^ 64 in
      c_assert e.attached
      >> (c_assert (ltb e.hostfd mft_max_entries)
          >> done (some (mft_index, capacity, virtio_blk_sector_size)))
]

-- The tests on the offset and on the size.
abbrev pub is_refused : MftEntry → ℕ → ℕ → Bool
is_refused e offset size =
    (offset % virtio_blk_sector_size != 0)
    || leb e.block_basic.capacity (offset / virtio_blk_sector_size)
    || (size != virtio_blk_sector_size)

-- The devices' queues, and what the devices are in.
pub record Disks (D : Type 0) : Type 0 where
  pub bd_table : List VirtioBlkDesc
  pub states : ℕ → D

abbrev pub put_disk : {D : Type 0} → Disks D → ℕ → VirtioBlkDesc → D → Disks D
put_disk s i bd d = record {
  bd_table = set s.bd_table i bd;
  states = λ j. if j == i then d else s.states j;
}

-- What `solo5_block_write` and `solo5_block_read` share: the type and the bytes tell them apart. The result has the bytes that
-- were read.
unfoldable pub block_call :
    {D : Type 0}
    → BlkDevice D
    → ℕ
    → Mft
    → Disks D
    → ℕ
    → ℕ
    → ℕ
    → List ℕ
    → ℕ
    → Run (Disks D × ℕ × List ℕ)
block_call dev fuel m s type h offset buf size = mft_get_by_index m h mft_dev_block_basic >>= λ r.
    elim r [
      | none ↦ done (s, solo5_r_einval, [])
      | some e ↦
          let sector = offset / virtio_blk_sector_size in
          let i = e.hostfd in
          c_assert e.attached
          >> (c_assert (ltb i mft_max_entries)
              >> (if is_refused e offset size
                  then done (s, solo5_r_einval, [])
                  else (read_at (get_elem? s.bd_table i) >>= λ bd.
                      virtio_blk_op_sync dev fuel (s.states i) bd.blkq type sector buf size >>= λ q.
                      let (d', blkq', o) = q in
                      let s' = put_disk s i (record bd { blkq = blkq' }) d' in
                      elim o [
                        | none ↦ done (s', solo5_r_eunspec, [])
                        | some bytes ↦ done (s', solo5_r_ok, bytes)
                      ])))
    ]

abbrev pub solo5_block_write :
    {D : Type 0} → BlkDevice D → ℕ → Mft → Disks D → ℕ → ℕ → List ℕ → Run (Disks D × ℕ × List ℕ)
solo5_block_write dev fuel m s h offset buf =
    block_call dev fuel m s virtio_blk_t_out h offset buf (length buf)

abbrev pub solo5_block_read :
    {D : Type 0} → BlkDevice D → ℕ → Mft → Disks D → ℕ → ℕ → ℕ → Run (Disks D × ℕ × List ℕ)
solo5_block_read dev fuel m s h offset size =
    block_call dev fuel m s virtio_blk_t_in h offset [] size
