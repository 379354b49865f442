-- ===== src/VirtioNet/Transmit.antt =====
-- bindings/virtio/virtio_net.c: a packet that is given to the device.
use native.Mathlib.Nat.{mod-lt}
use solo.Base.{
  ℕ, ◌%◌, ◌^◌, ◌≤◌, ◌<◌, ◌≡◌, ◌≢◌, inl, inr, refl, sym, ap, ◌∙◌, subst, Bool-cases, Bool, true,
  false, ltb, leb, if◌then◌else◌, List, length, Run, done, ◌>>=◌, ◌>>◌, c_assert, bit_and, arith,
}
use solo.Hvt.{load_bytes, store_bytes}
use solo.Hvt.Memory.{load_bytes-store_bytes}
use solo.Virtq.{
  put_buf, Virtq, IoBuffer, add16, mask_of, virtq_add_descriptor_chain, virtq_notify_needed,
}
use solo.Virtq.Written.{
  put_buf_at, put_buf_other, IsQueue, slot, num_bounds, masked, next_slot, first_slot,
}
use solo.Virtq.Chain.{Chained, Chained-IsQueue, slots_differ, virtq_add_descriptor_chain-Chained}
use solo.VirtioNet.{pkt_buffer_len, sizeof_virtio_net_hdr, fill_packet, virtio_net_xmit_packet}
use solo.VirtioNet.Balanced.{reclaimed, Balanced, IsUsed, reclaim-Balanced, fill_packet-IsQueue}

-- A packet has been given to the device, on the queue `start` with what the device has given back taken from it.
pub record Sent (start : Virtq) (used used_later avail_event used_flags : ℕ) (packet : List ℕ)
    (r : Run (Virtq × Bool × Bool)) : Type 0 where
  pub waited : Bool
  pub waits : waited ≡ ltb (reclaimed start used).num_avail 2
  pub before : Virtq
  pub is_before :
      before
      ≡ (if waited then reclaimed (reclaimed start used) used_later else reclaimed start used)
  pub head : ℕ
  pub at : head ≡ before.next_avail % before.num
  pub filled : Virtq
  pub is : filled ≡ fill_packet before head packet
  pub header_len : (filled.bufs head).len ≡ sizeof_virtio_net_hdr
  pub header : (k : ℕ) → k < sizeof_virtio_net_hdr → (filled.bufs head).contents k ≡ 0
  pub packet_len : (filled.bufs (slot before head 1)).len ≡ length packet
  pub packet_is : load_bytes (filled.bufs (slot before head 1)).contents 0 (length packet) ≡ packet
  pub after : Virtq
  pub chained : Chained filled head 2 after
  pub balanced : Balanced after
  pub ends :
      r
      ≡ done (
        (virtq_notify_needed avail_event used_flags after).0,
        waited,
        (virtq_notify_needed avail_event used_flags after).1,
      )

-- The end of the transmission, with two descriptors free.
send : Bool → ℕ → ℕ → List ℕ → Virtq → Run (Virtq × Bool × Bool)
send waited avail_event used_flags packet q =
    c_assert (leb (length packet) pkt_buffer_len)
    >> (virtq_add_descriptor_chain (fill_packet q (bit_and q.next_avail (mask_of q)) packet)
          (bit_and q.next_avail (mask_of q)) 2
        >>= λ r. let n = virtq_notify_needed avail_event used_flags r.0 in done (n.0, waited, n.1))

Chained-Balanced :
    (q filled after : Virtq) (head : ℕ)
    → Balanced q
    → IsQueue filled
    → filled.num ≡ q.num
    → filled.num_avail ≡ q.num_avail
    → filled.avail_idx ≡ q.avail_idx
    → filled.last_used ≡ q.last_used
    → Chained filled head 2 after
    → Balanced after
Chained-Balanced q filled after head b ok num num_avail avail_idx last_used c = record {
  ok = Chained-IsQueue filled after head 2 ok c;
  two = omega (arith, c.size, num, b.two);
  last_used = omega (arith, c.last_used, last_used, b.last_used);
  balance = omega (
    arith,
    c.size,
    c.num_avail,
    c.avail_idx,
    c.last_used,
    num,
    num_avail,
    avail_idx,
    last_used,
    b.balance,
    b.last_used,
    b.ok.avail_idx,
    num_bounds q b.ok,
  );
}

send-Sent :
    (start : Virtq) (used used_later avail_event used_flags : ℕ) (packet : List ℕ) (waited : Bool)
    (q : Virtq)
    → waited ≡ ltb (reclaimed start used).num_avail 2
    → q ≡ (if waited then reclaimed (reclaimed start used) used_later else reclaimed start used)
    → Balanced q
    → 2 ≤ q.num_avail
    → length packet ≤ pkt_buffer_len
    → Sent start used used_later avail_event used_flags packet
        (send waited avail_event used_flags packet q)
unfolding send fill_packet
send-Sent start used used_later avail_event used_flags packet waited q waits is_before b free fits =
    elim (virtq_add_descriptor_chain-Chained filled head 2 filled_ok in_queue (omega arith)) [
      | inl (full, went) ↦ absurd (omega (arith, free, full))
      | inr (after, went, c) ↦ record {
        waited = waited;
        waits = waits;
        before = q;
        is_before = is_before;
        head = head;
        at = masked q q.next_avail b.ok;
        filled = filled;
        is = refl;
        header_len = ap (λ (d : IoBuffer). d.len) at_head;
        header = λ k lt. ap (λ (d : IoBuffer). d.contents k) at_head ∙ zeros k lt;
        packet_len = ap (λ (d : IoBuffer). d.len) at_second;
        packet_is =
            ap (λ (d : IoBuffer). load_bytes d.contents 0 (length packet)) at_second
            ∙ load_bytes-store_bytes packet (with_header.bufs second).contents 0;
        after = after;
        chained = c;
        balanced = Chained-Balanced q filled after head b filled_ok refl refl refl refl c;
        ends = rw (short, went) refl;
      }
    ]
  where
    head : ℕ
    head = bit_and q.next_avail (mask_of q)

    second : ℕ
    second = bit_and (add16 head 1) (mask_of q)

    header_buf : IoBuffer
    header_buf = record {
      contents = λ k. if ltb k sizeof_virtio_net_hdr then 0 else (q.bufs head).contents k;
      len = sizeof_virtio_net_hdr;
      extra_flags = 0;
    }

    with_header : Virtq
    with_header = put_buf q head header_buf

    packet_buf : IoBuffer
    packet_buf = record {
      contents = store_bytes (with_header.bufs second).contents 0 packet;
      len = length packet;
      extra_flags = 0;
    }

    zeros : (k : ℕ) → k < sizeof_virtio_net_hdr → header_buf.contents k ≡ 0
    zeros k lt = ground (arith, lt)

    filled : Virtq
    filled = fill_packet q head packet

    filled_ok : IsQueue filled
    filled_ok = fill_packet-IsQueue q head packet b.ok fits

    in_queue : head < q.num
    in_queue =
        subst (λ (t : ℕ). t < q.num) (sym (masked q q.next_avail b.ok))
          (mod-lt q.next_avail (num_bounds q b.ok).0)

    next : second ≡ slot q head 1
    next = next_slot q head b.ok in_queue

    apart : head ≢ second
    apart e =
        slots_differ q head 0 1 (omega arith) (omega (arith, b.two))
          (first_slot q head in_queue ∙ e ∙ next)

    at_head : filled.bufs head ≡ header_buf
    at_head = put_buf_other with_header second head packet_buf apart ∙ put_buf_at q head header_buf

    at_second : filled.bufs (slot q head 1) ≡ packet_buf
    at_second =
        subst (λ (t : ℕ). filled.bufs t ≡ packet_buf) next
          (put_buf_at with_header second packet_buf)

    short : leb (length packet) pkt_buffer_len ≡ true
    short = ground (arith, fits)

-- For a queue in which the chains that the device has not given back are of two descriptors each and all others are
-- free, a device that gives back chains that it was given, and that gives back one at least when
-- the driver waits for it, and a packet that fits a buffer: with enough fuel the transmission returns. It has taken back
-- what the device has given back; if that left fewer than two descriptors free, and only then, it has notified the
-- device, waited and taken back once more. It has put a
-- header of zeros and the packet into the two buffers from the queue's next place on, has given the device their
-- chain, and has left the queue with the same balance. It never finds the queue full.
pub virtio_net_xmit_packet-Sent :
    (fuel used used_later avail_event used_flags : ℕ) (q : Virtq) (packet : List ℕ)
    → 2 ^ 16 ≤ fuel
    → Balanced q
    → IsUsed q used
    → ((reclaimed q used).num_avail < 2
        → IsUsed (reclaimed q used) used_later × (used_later ≢ used))
    → length packet ≤ pkt_buffer_len
    → Sent q used used_later avail_event used_flags packet
        (virtio_net_xmit_packet fuel used used_later avail_event used_flags q packet)
unfolding virtio_net_xmit_packet send
virtio_net_xmit_packet-Sent fuel used used_later avail_event used_flags q packet enough b given
      later fits =
    let (went, b') = reclaim-Balanced fuel used q b given enough in
    elim (Bool-cases (ltb (reclaimed q used).num_avail 2)) [
      | inr free ↦
          rw (went, free)
            (send-Sent q used used_later avail_event used_flags packet false (reclaimed q used)
              (sym free) refl b' (ground (arith, free)) fits)
      | inl full ↦
          let (given', more) = later (ground (arith, full)) in
          let (went', b'') = reclaim-Balanced fuel used_later (reclaimed q used) b' given' enough in
          rw (went, full, went')
            (send-Sent q used used_later avail_event used_flags packet true
              (reclaimed (reclaimed q used) used_later) (sym full) refl b''
              (omega (arith, more, given'.0, given.0)) fits)
    ]
