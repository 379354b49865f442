-- ===== src/VirtioNet/Receive/Received.antt =====
-- bindings/virtio/virtio_net.c: what a call of the receive function gives, and many calls.
use native.Mathlib.Decide.{dec_le}
use solo.Base.{
  ℕ, zero, suc, ◌+◌, ◌≤◌, ◌≡◌, refl, sym, subst, Bool, List, [], ◌∷◌, length, get_elem?, Option,
  none, some, Run, done, ◌>>=◌, arith,
}
use solo.Virtq.{Virtq}
use solo.VirtioNet.{sizeof_virtio_net_hdr}
use solo.VirtioNet.Receive.{
  RecvQueue, UsedReads, set_len, virtio_net_recv_pkt_get, suppress_interrupts, allow_interrupts,
  virtio_net_recv,
}
use solo.VirtioNet.Receive.Pending.{Holds, get_pending}
use solo.VirtioNet.Receive.Posted.{place}
use solo.VirtioNet.Receive.First.{
  none_pending, too_long, received, Received, listens, take_first, take_too_long, get_none,
}

-- For a queue of which the device has every buffer, and has put packets into the first of them in order: if there is no
-- packet, the result is -1 and the queue is as it was. A first packet longer than the caller's buffer fails an
-- assertion. Otherwise the caller gets the first packet's bytes without the header, its buffer goes
-- back to the device, and the queue holds the packets behind it. In both results the device is asked to interrupt again.
pub virtio_net_recv-Received :
    (nd : RecvQueue) (dev : UsedReads) (size : ℕ) (packets : List (List ℕ))
    → Holds nd.recvq dev.ring dev.idx_seen packets
    → Received nd dev size (virtio_net_recv nd dev size) packets
unfolding virtio_net_recv
virtio_net_recv-Received nd dev size [] h =
    none_pending (allow_interrupts (suppress_interrupts nd dev.idx_first) dev.idx_last)
      (rw (get_none nd.recvq dev.idx_seen dev.ring h) refl) refl
      (listens nd.recvq.uses_event_idx quiet.used_event quiet.avail_flags dev.idx_last)
  where
    quiet : RecvQueue
    quiet = suppress_interrupts nd dev.idx_first
virtio_net_recv-Received nd dev size (packet ∷ packets) h = elim (dec_le (length packet) size) [
  | yes fits ↦
      let (nd', notified, went, holds, num, listening) =
        take_first quiet dev size packet packets h fits in
      received packet packets nd' notified fits (rw found went) holds num listening
  | no long ↦ too_long packet packets (omega (arith, long)) (
      rw found (
        take_too_long quiet dev size (place nd.recvq 0) (length packet)
          (set_len nd.recvq (place nd.recvq 0) (sizeof_virtio_net_hdr + length packet))
          (omega (arith, long))))
]
  where
    quiet : RecvQueue
    quiet = suppress_interrupts nd dev.idx_first

    found :
        virtio_net_recv_pkt_get nd.recvq dev.idx_seen dev.ring
        ≡ done (
            some (
              set_len nd.recvq (place nd.recvq 0) (sizeof_virtio_net_hdr + length packet),
              place nd.recvq 0,
              length packet,
            ))
    found = get_pending nd.recvq dev.idx_seen dev.ring packet packets h

received_none :
    (nd : RecvQueue) (dev : UsedReads) (size : ℕ) (r : Run (RecvQueue × Option (List ℕ × Bool)))
    → Received nd dev size r []
    → (nd' : RecvQueue) × (r ≡ done (nd', none)) × (nd'.recvq ≡ nd.recvq)
received_none nd dev size r (none_pending nd' went kept listening) = (nd', went, kept)

received_first :
    (nd : RecvQueue) (dev : UsedReads) (size : ℕ) (r : Run (RecvQueue × Option (List ℕ × Bool)))
    (packet : List ℕ) (packets : List (List ℕ))
    → length packet ≤ size
    → Received nd dev size r (packet ∷ packets)
    → (nd' : RecvQueue) × (notified : Bool) × (r ≡ done (nd', some (packet, notified)))
      × Holds nd'.recvq dev.ring dev.idx_seen packets
received_first nd dev size r packet packets le (too_long _ _ long went) =
    absurd (omega (arith, long, le))
received_first nd dev size r packet packets le
      (received _ _ nd' notified fits went holds num listening) =
    (nd', notified, went, holds)

-- Calls one after the other, while the device does not change its rings: the packets that they give.
unfoldable pub recv_times : ℕ → RecvQueue → UsedReads → ℕ → Run (RecvQueue × List (List ℕ))
recv_times zero nd dev size = done (nd, [])
recv_times (suc n) nd dev size = virtio_net_recv nd dev size >>= λ r.
    let (nd', o) = r in
    elim o [
      | none ↦ done (nd', [])
      | some (packet, _) ↦ recv_times n nd' dev size >>= λ q. done (q.0, packet ∷ q.1)
    ]

abbrev pub AllFit : ℕ → List (List ℕ) → Type 0
AllFit size packets =
    (j : ℕ) (packet : List ℕ) → get_elem? packets j ≡ some packet → length packet ≤ size

-- For a buffer that every pending packet fits: calls of the receive function, as many as there are packets, or
-- more, give just the packets, in the order in which the device put them, and leave none.
pub recv_times-Holds :
    (n : ℕ) (nd : RecvQueue) (dev : UsedReads) (size : ℕ) (packets : List (List ℕ))
    → Holds nd.recvq dev.ring dev.idx_seen packets
    → AllFit size packets
    → length packets ≤ n
    → (nd' : RecvQueue) × (recv_times n nd dev size ≡ done (nd', packets))
      × Holds nd'.recvq dev.ring dev.idx_seen []
unfolding recv_times
recv_times-Holds zero nd dev size [] h fit enough = (nd, refl, h)
recv_times-Holds zero nd dev size (packet ∷ packets) h fit enough = absurd (omega (arith, enough))
recv_times-Holds (suc n) nd dev size [] h fit enough =
    let (nd', went, kept) =
      received_none nd dev size (virtio_net_recv nd dev size)
        (virtio_net_recv-Received nd dev size [] h) in
    (nd', rw went refl, subst (λ (q : Virtq). Holds q dev.ring dev.idx_seen []) (sym kept) h)
recv_times-Holds (suc n) nd dev size (packet ∷ packets) h fit enough =
    let (nd', notified, went, holds) =
      received_first nd dev size (virtio_net_recv nd dev size) packet packets (fit 0 packet refl)
        (virtio_net_recv-Received nd dev size (packet ∷ packets) h) in
    let (last, went', holds') =
      recv_times-Holds n nd' dev size packets holds (λ j. fit (suc j)) (omega (arith, enough)) in
    (last, rw (went, went') refl, holds')
