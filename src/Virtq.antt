-- ===== src/Virtq.antt =====
-- bindings/virtio/virtio_ring.c and virtio_ring.h: the driver's side of a virtqueue, with the transmit path of
-- bindings/virtio/virtio_net.c. The arrays of a queue are functions from indices; `bufs_at` is the
-- address of the buffers. What the device does is the value of `used_idx` when it is read.
pub mod Written
pub mod Chain
use solo.Base.{
  ℕ, zero, suc, ◌+◌, ◌-◌, ◌*◌, ◌/◌, ◌%◌, ◌^◌, Bool, true, false, not, ◌&&◌, ◌||◌, ◌==◌, ◌!=◌, ltb,
  leb, if◌then◌else◌, List, [], ◌∷◌, length, Run, done, aborts, out_of_fuel, ◌>>=◌, ◌>>◌, c_assert,
  bit_and, bit_or,
}

abbrev pub virtq_desc_f_next : ℕ
virtq_desc_f_next = 1

abbrev pub max_buffer_len : ℕ
max_buffer_len = 1526

-- The size of `struct io_buffer`, with its padding.
abbrev pub sizeof_io_buffer : ℕ
sizeof_io_buffer = 1536

pub record VirtqDesc : Type 0 where
  pub addr : ℕ
  pub len : ℕ
  pub flags : ℕ
  pub next : ℕ

pub record IoBuffer : Type 0 where
  pub contents : ℕ → ℕ
  pub len : ℕ
  pub extra_flags : ℕ

pub record Virtq : Type 0 where
  pub num : ℕ
  pub desc : ℕ → VirtqDesc
  pub avail_idx : ℕ
  pub avail_ring : ℕ → ℕ
  pub bufs : ℕ → IoBuffer
  pub bufs_at : ℕ
  pub num_avail : ℕ
  pub last_used : ℕ
  pub next_avail : ℕ
  pub uses_event_idx : Bool
  pub last_notified_idx : ℕ

abbrev pub add16 : ℕ → ℕ → ℕ
add16 a b = (a + b) % 2 ^ 16

abbrev pub sub16 : ℕ → ℕ → ℕ
sub16 a b = (a + 2 ^ 16 - b) % 2 ^ 16

-- `mask`
abbrev pub mask_of : Virtq → ℕ
mask_of vq = (vq.num + 2 ^ 32 - 1) % 2 ^ 16

-- The descriptor that the loop writes for the buffer `i`. The data is the buffer's first field.
abbrev pub desc_of : Virtq → ℕ → VirtqDesc
desc_of vq i = record {
  addr = vq.bufs_at + i * sizeof_io_buffer;
  len = (vq.bufs i).len;
  flags = bit_or virtq_desc_f_next (vq.bufs i).extra_flags;
  next = bit_and (add16 i 1) (mask_of vq);
}

abbrev pub put_desc : Virtq → ℕ → VirtqDesc → Virtq
put_desc vq i d = record vq { desc = λ q. if q == i then d else vq.desc q }

abbrev pub put_buf : Virtq → ℕ → IoBuffer → Virtq
put_buf vq i b = record vq { bufs = λ q. if q == i then b else vq.bufs q }

-- The loop, from the index `i` on, with one more round than `n`; the index of the last descriptor is returned.
unfoldable pub add_descs : ℕ → ℕ → Virtq → Run (Virtq × ℕ)
add_descs zero i vq =
    c_assert (leb (vq.bufs i).len max_buffer_len) >> done (put_desc vq i (desc_of vq i), i)
add_descs (suc n) i vq =
    c_assert (leb (vq.bufs i).len max_buffer_len)
    >> add_descs n (bit_and (add16 i 1) (mask_of vq)) (put_desc vq i (desc_of vq i))

-- What follows the loop.
unfoldable pub publish_chain : Virtq → ℕ → ℕ → ℕ → Virtq
publish_chain vq last head num =
    let d = vq.desc last in
    let ended =
      put_desc vq last
        (record d { next = 0; flags = bit_and d.flags (2 ^ 16 - 1 - virtq_desc_f_next) }) in
    record ended {
      num_avail = sub16 vq.num_avail num;
      avail_ring = λ q. if q == bit_and vq.avail_idx (mask_of vq) then head else vq.avail_ring q;
      avail_idx = add16 vq.avail_idx 1;
      next_avail = add16 vq.next_avail num;
    }

-- The result is 0 for `true` and -1 for `false`.
unfoldable pub virtq_add_descriptor_chain : Virtq → ℕ → ℕ → Run (Virtq × Bool)
virtq_add_descriptor_chain vq head num =
    if ltb vq.num_avail num
    then done (vq, false)
    else (c_assert (ltb 0 num)
        >> (add_descs (num - 1) head vq >>= λ q.
            let (vq', last) = q in done (publish_chain vq' last head num, true)))

unfoldable pub virtq_need_event : ℕ → ℕ → ℕ → Bool
virtq_need_event event_idx new_idx old_idx =
    ltb (sub16 (sub16 new_idx event_idx) 1) (sub16 new_idx old_idx)

-- With the device's `avail_event` and the flags of its used ring.
unfoldable pub virtq_notify_needed : ℕ → ℕ → Virtq → Virtq × Bool
virtq_notify_needed avail_event used_flags vq =
    if vq.uses_event_idx
    then (
      record vq { last_notified_idx = vq.avail_idx },
      virtq_need_event avail_event vq.avail_idx vq.last_notified_idx,
    )
    else (vq, not (bit_and used_flags 1 != 0))
