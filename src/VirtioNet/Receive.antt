-- ===== src/VirtioNet/Receive.antt =====
-- bindings/virtio/virtio_net.c: the receive path of the network driver. The device's used ring is an argument, and so is
-- each read of its index `used->idx`. What the device writes to a buffer is in the buffer when it is
-- read. The do-while loop of `recv_setup` is recursion on fuel.
pub mod Posted
pub mod Given
pub mod Pending
pub mod First
pub mod Received
use solo.Base.{
  ℕ, zero, suc, ◌+◌, ◌-◌, ◌*◌, ◌/◌, ◌%◌, ◌^◌, Bool, ◌==◌, ◌!=◌, ◌&&◌, ltb, leb, if◌then◌else◌, List,
  Option, none, some, Run, done, faults, out_of_fuel, ◌>>=◌, ◌>>◌, c_assert, bit_and, bit_or,
}
use solo.Hvt.{load_bytes}
use solo.Virtq.{
  put_buf, Virtq, VirtqDesc, IoBuffer, add16, sub16, mask_of, sizeof_io_buffer,
  virtq_add_descriptor_chain, virtq_notify_needed,
}
use solo.VirtioNet.{pkt_buffer_len, sizeof_virtio_net_hdr}

abbrev pub virtq_desc_f_write : ℕ
virtq_desc_f_write = 2

abbrev pub virtq_avail_f_no_interrupt : ℕ
virtq_avail_f_no_interrupt = 1

pub record VirtqUsedElem : Type 0 where
  pub id : ℕ
  pub len : ℕ

-- The receive queue, with the words of its available ring that tell the device when to interrupt.
pub record RecvQueue : Type 0 where
  pub recvq : Virtq
  pub avail_flags : ℕ
  pub used_event : ℕ

-- What the driver reads of the device in one call: `used->idx` at three times, the used ring, `avail_event`
-- and the used ring's flags.
pub record UsedReads : Type 0 where
  pub idx_first : ℕ
  pub idx_seen : ℕ
  pub idx_last : ℕ
  pub ring : ℕ → VirtqUsedElem
  pub avail_event : ℕ
  pub flags : ℕ

-- The next buffer, cleared.
abbrev pub clear_buf : Virtq → IoBuffer
clear_buf q = record {
  contents = λ k.
      if ltb k pkt_buffer_len then 0 else (q.bufs (bit_and q.next_avail (mask_of q))).contents k;
  len = pkt_buffer_len;
  extra_flags = virtq_desc_f_write;
}

-- The notification that follows the loop always takes place.
unfoldable pub recv_setup : ℕ → Virtq → Run Virtq
recv_setup zero q = out_of_fuel
recv_setup (suc f) q =
    let i = bit_and q.next_avail (mask_of q) in
    virtq_add_descriptor_chain (put_buf q i (clear_buf q)) i 1 >>= λ r.
    let (q', added) = r in
    let rest = recv_setup f q' in
    c_assert added >> (if bit_and q'.next_avail (mask_of q) != 0 then rest else done q')

-- The buffer of the queue that a descriptor's address is the address of.
unfoldable pub buffer_at : Virtq → ℕ → Run ℕ
buffer_at q addr =
    let i = (addr - q.bufs_at) / sizeof_io_buffer in
    if (addr == q.bufs_at + i * sizeof_io_buffer) && ltb i q.num then done i else faults

-- `buf->len = e->len`
abbrev pub set_len : Virtq → ℕ → ℕ → Virtq
set_len q i len = put_buf q i (record (q.bufs i) { len = len })

-- `none` for NULL; otherwise the queue, the buffer's index and `*size`. The packet begins behind the header.
unfoldable pub virtio_net_recv_pkt_get :
    Virtq → ℕ → (ℕ → VirtqUsedElem) → Run (Option (Virtq × ℕ × ℕ))
virtio_net_recv_pkt_get q used_idx used_ring =
    let e = used_ring (bit_and q.last_used (mask_of q)) in
    let desc_idx = e.id % 2 ^ 16 in
    if q.last_used == used_idx
    then done none
    else if leb q.num desc_idx
    then faults
    else (buffer_at q (q.desc desc_idx).addr >>= λ i.
        done (some (set_len q i e.len, i, (e.len + 2 ^ 64 - sizeof_virtio_net_hdr) % 2 ^ 64)))

-- The next buffer, ready for another packet.
abbrev pub returned_buf : Virtq → IoBuffer
returned_buf q = record (q.bufs (bit_and q.next_avail (mask_of q))) {
  len = pkt_buffer_len;
  extra_flags = virtq_desc_f_write;
}

-- The result says whether the device is notified.
unfoldable pub virtio_net_recv_pkt_put : ℕ → ℕ → Virtq → Run (Virtq × Bool)
virtio_net_recv_pkt_put avail_event used_flags q =
    let i = bit_and q.next_avail (mask_of q) in
    virtq_add_descriptor_chain (put_buf q i (returned_buf q)) i 1 >>= λ r.
    let (q', added) = r in c_assert added >> done (virtq_notify_needed avail_event used_flags q')

-- The two settings of the device's interrupts.
abbrev pub suppress_interrupts : RecvQueue → ℕ → RecvQueue
suppress_interrupts nd used_idx =
    let events = nd.recvq.uses_event_idx in
    record nd {
      used_event = if events then sub16 used_idx 1 else nd.used_event;
      avail_flags =
          if events then nd.avail_flags else bit_or nd.avail_flags virtq_avail_f_no_interrupt;
    }

abbrev pub allow_interrupts : RecvQueue → ℕ → RecvQueue
allow_interrupts nd used_idx =
    let events = nd.recvq.uses_event_idx in
    record nd {
      used_event = if events then used_idx else nd.used_event;
      avail_flags =
          if events
          then nd.avail_flags
          else bit_and nd.avail_flags (2 ^ 16 - 1 - virtq_avail_f_no_interrupt);
    }

-- The copy of `len` bytes behind the header; a read past the end of the buffer's array is undefined.
unfoldable pub copy_packet : IoBuffer → ℕ → Run (List ℕ)
copy_packet b len =
    if ltb pkt_buffer_len (sizeof_virtio_net_hdr + len)
    then faults
    else done (load_bytes b.contents sizeof_virtio_net_hdr len)

-- The used descriptor is taken back.
abbrev pub consume : Virtq → Virtq
consume q = record q { last_used = add16 q.last_used 1; num_avail = add16 q.num_avail 1 }

-- What follows a packet that has been found.
unfoldable pub take_packet :
    RecvQueue → UsedReads → ℕ → Virtq × ℕ × ℕ → Run (RecvQueue × Option (List ℕ × Bool))
take_packet nd dev size (q, i, len) =
    c_assert (leb len size)
    >> (c_assert (leb len pkt_buffer_len)
        >> (copy_packet (q.bufs i) len >>= λ packet.
            virtio_net_recv_pkt_put dev.avail_event dev.flags (consume q) >>= λ r.
            let (q', notified) = r in
            done
              (allow_interrupts (record nd { recvq = q' }) dev.idx_last, some (packet, notified))))

-- `none` is the result -1; otherwise the bytes that `buf` and `*read_size` show, and whether the device is notified.
unfoldable pub virtio_net_recv :
    RecvQueue → UsedReads → ℕ → Run (RecvQueue × Option (List ℕ × Bool))
virtio_net_recv nd dev size =
    let nd' = suppress_interrupts nd dev.idx_first in
    virtio_net_recv_pkt_get nd'.recvq dev.idx_seen dev.ring >>= λ r. elim r [
      | none ↦ done (allow_interrupts nd' dev.idx_last, none)
      | some p ↦ take_packet nd' dev size p
    ]
