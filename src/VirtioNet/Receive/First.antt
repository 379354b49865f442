-- ===== src/VirtioNet/Receive/First.antt =====
-- bindings/virtio/virtio_net.c: what the receive function does with the first packet.
use native.Mathlib.Nat.{add-mod_right}
use solo.Base.{
  ℕ, suc, ◌+◌, ◌-◌, ◌%◌, ◌^◌, ◌≤◌, ◌<◌, ◌≡◌, ◌≢◌, refl, sym, ap, ◌∙◌, subst, Bool, true, false,
  ◌==◌, ltb, leb, if◌then◌else◌, List, [], ◌∷◌, length, get_elem?-lt, Option, none, some, Run, done,
  aborts, bit_and, arith,
}
use solo.Base.Bits.{bit_and_step}
use solo.Base.Slots.{slots_apart}
use solo.Hvt.{load_bytes}
use solo.Virtq.{put_buf, Virtq, IoBuffer, add16}
use solo.Virtq.Written.{num_bounds}
use solo.VirtioNet.{pkt_buffer_len, sizeof_virtio_net_hdr}
use solo.VirtioNet.Receive.{
  VirtqUsedElem, RecvQueue, UsedReads, set_len, virtio_net_recv_pkt_get, returned_buf,
  allow_interrupts, copy_packet, consume, take_packet,
}
use solo.VirtioNet.Receive.Pending.{
  IsPending, Holds, IsListening, consume-Posted, set_len-Posted, put_pending, next_place_of,
}
use solo.VirtioNet.Receive.Posted.{next_place, place, Posted, PostedOne}

-- What the receive function did for the packets that were pending. `r` is its result.
pub data Received (nd : RecvQueue) (dev : UsedReads) (size : ℕ)
    (r : Run (RecvQueue × Option (List ℕ × Bool))) : List (List ℕ) → Type 0 where
  none_pending :
      (nd' : RecvQueue)
      → r ≡ done (nd', none)
      → nd'.recvq ≡ nd.recvq
      → IsListening nd' dev.idx_last
      → Received nd dev size r []
  too_long :
      (packet : List ℕ) (packets : List (List ℕ))
      → size < length packet
      → r ≡ aborts
      → Received nd dev size r (packet ∷ packets)
  received :
      (packet : List ℕ) (packets : List (List ℕ)) (nd' : RecvQueue) (notified : Bool)
      → length packet ≤ size
      → r ≡ done (nd', some (packet, notified))
      → Holds nd'.recvq dev.ring dev.idx_seen packets
      → nd'.recvq.num ≡ nd.recvq.num
      → IsListening nd' dev.idx_last
      → Received nd dev size r (packet ∷ packets)

pub listens :
    (events : Bool) (used_event flags used_idx : ℕ)
    → if events
      then (if events then used_idx else used_event) ≡ used_idx
      else (if events then flags else bit_and flags (2 ^ 16 - 1 - 1)) % 2 ≡ 0
listens true used_event flags used_idx = refl
listens false used_event flags used_idx = omega (arith, bit_and_step flags (2 ^ 16 - 1 - 1))

moved-IsPending :
    (q q' : Virtq) (used_ring : ℕ → VirtqUsedElem) (j k : ℕ) (packet : List ℕ)
    → place q' j ≡ place q k
    → q'.bufs (place q k) ≡ q.bufs (place q k)
    → IsPending q used_ring k packet
    → IsPending q' used_ring j packet
moved-IsPending q q' used_ring j k packet e same p = record {
  id = subst (λ (t : ℕ). (used_ring t).id ≡ t) (sym e) p.id;
  len = subst (λ (t : ℕ). (used_ring t).len ≡ sizeof_virtio_net_hdr + length packet) (sym e) p.len;
  fits = p.fits;
  bytes = ap (λ (t : ℕ). packet_in (q'.bufs t)) e ∙ ap packet_in same ∙ p.bytes;
}
  where
    packet_in : IoBuffer → List ℕ
    packet_in b = load_bytes b.contents sizeof_virtio_net_hdr (length packet)

-- What the packets behind the first look like once the first one's buffer is back with the device.
rest_pending :
    (q q' : Virtq) (b : IoBuffer) (used_idx len : ℕ) (used_ring : ℕ → VirtqUsedElem)
    (packet : List ℕ) (packets : List (List ℕ))
    → Holds q used_ring used_idx (packet ∷ packets)
    → PostedOne (consume (set_len q (place q 0) len)) b q'
    → Holds q' used_ring used_idx packets
rest_pending q q' b used_idx len used_ring packet packets h one = record {
  posted = one.posted;
  none_free = omega (arith, one.num_avail, h.none_free);
  idx = omega (arith, h.idx, one.last_used, h.posted.last_used);
  few = omega (arith, h.few, one.num);
  each = λ j p at.
      moved-IsPending q q' used_ring j (suc j) p (same_place j)
        (same_buf j (omega (arith, h.few, get_elem?-lt packets j p at))) (h.each (suc j) p at);
}
  where
    head : ℕ
    head = place q 0

    again : q.next_avail % q.num ≡ head
    again =
        next_place q h.posted
        ∙ ap (λ (n : ℕ). (q.last_used + n) % q.num) (omega (arith, h.posted.balance, h.none_free))
        ∙ add-mod_right q.last_used q.num
        ∙ ap (λ (a : ℕ). a % q.num) (omega arith)

    same_place : (j : ℕ) → place q' j ≡ place q (suc j)
    same_place j =
        ap (λ (a : ℕ). (a + j) % q'.num) one.last_used
        ∙ ap (λ (n : ℕ). (add16 q.last_used 1 + j) % n) one.num
        ∙ next_place_of q j h.posted.ok

    apart : (j : ℕ) → suc j < q.num → place q (suc j) ≢ head
    apart j lt e =
        slots_apart q.num (q.last_used + 0) (q.last_used + suc j) (omega arith) (omega (arith, lt))
          (sym e)

    same_buf : (j : ℕ) → suc j < q.num → q'.bufs (place q (suc j)) ≡ q.bufs (place q (suc j))
    same_buf j lt =
        ap (λ (bufs : ℕ → IoBuffer). bufs (place q (suc j))) one.bufs
        ∙ ap (λ (i : ℕ). (put_buf (set_len q head len) i b).bufs (place q (suc j))) again
        ∙ ground (arith, apart j lt)

-- The packet that was found is copied, and its buffer goes back.
pub take_first :
    (nd : RecvQueue) (dev : UsedReads) (size : ℕ) (packet : List ℕ) (packets : List (List ℕ))
    → Holds nd.recvq dev.ring dev.idx_seen (packet ∷ packets)
    → length packet ≤ size
    → (nd' : RecvQueue) × (notified : Bool) × (take_packet nd dev size (
      set_len nd.recvq (place nd.recvq 0) (sizeof_virtio_net_hdr + length packet),
      place nd.recvq 0,
      length packet,
    )
        ≡ done (nd', some (packet, notified)))
      × Holds nd'.recvq dev.ring dev.idx_seen packets
      × (nd'.recvq.num ≡ nd.recvq.num)
      × IsListening nd' dev.idx_last
unfolding take_packet copy_packet
take_first nd dev size packet packets h fits =
    let ((q', notified), went, one) =
      put_pending dev.avail_event dev.flags (consume q) p (omega (arith, h.none_free)) in
    (
      allow_interrupts (record nd { recvq = q' }) dev.idx_last,
      notified,
      rw (within, short, inside, went)
          (ap
            (λ (bytes : List ℕ).
              done
                (allow_interrupts (record nd { recvq = q' }) dev.idx_last, some (bytes, notified)))
            (ap (λ (b : IoBuffer). load_bytes b.contents sizeof_virtio_net_hdr (length packet))
                same_buf
              ∙ first.bytes)),
      rest_pending nd.recvq q' (returned_buf (consume q)) dev.idx_seen
          (sizeof_virtio_net_hdr + length packet) dev.ring packet packets h one,
      one.num,
      listens q'.uses_event_idx nd.used_event nd.avail_flags dev.idx_last,
    )
  where
    first : IsPending nd.recvq dev.ring 0 packet
    first = h.each 0 packet refl

    q : Virtq
    q = set_len nd.recvq (place nd.recvq 0) (sizeof_virtio_net_hdr + length packet)

    same_buf :
        q.bufs (place nd.recvq 0)
        ≡ record (nd.recvq.bufs (place nd.recvq 0)) { len = sizeof_virtio_net_hdr + length packet }
    same_buf = ground arith

    p : Posted (consume q)
    p =
        (consume-Posted q
          (set_len-Posted nd.recvq (place nd.recvq 0) (sizeof_virtio_net_hdr + length packet)
            h.posted first.fits)
          (omega (arith, h.posted.balance, h.none_free, num_bounds nd.recvq h.posted.ok))).0

    within : leb (length packet) size ≡ true
    within = ground (arith, fits)

    short : leb (length packet) pkt_buffer_len ≡ true
    short = ground (arith, first.fits)

    inside : ltb pkt_buffer_len (sizeof_virtio_net_hdr + length packet) ≡ false
    inside = ground (arith, first.fits)

pub take_too_long :
    (nd : RecvQueue) (dev : UsedReads) (size i len : ℕ) (q : Virtq)
    → size < len
    → take_packet nd dev size (q, i, len) ≡ aborts
unfolding take_packet
take_too_long nd dev size i len q lt = ground (arith, lt)

pub get_none :
    (q : Virtq) (used_idx : ℕ) (used_ring : ℕ → VirtqUsedElem)
    → Holds q used_ring used_idx []
    → virtio_net_recv_pkt_get q used_idx used_ring ≡ done none
unfolding virtio_net_recv_pkt_get
get_none q used_idx used_ring h = rw none_more refl
  where
    none_more : (q.last_used == used_idx) ≡ true
    none_more = ground (arith, h.idx, h.posted.last_used)
