-- ===== src/VirtioNet/Receive/Pending.antt =====
-- bindings/virtio/virtio_net.c: the packets that are pending on the receive queue, as a list, and what the steps of a receive do to it.
use native.Mathlib.Nat.{mod-lt}
use solo.Base.{
  ℕ, suc, ◌+◌, ◌%◌, ◌^◌, ◌≤◌, ◌<◌, ◌≡◌, refl, sym, ap, ◌∙◌, subst, Bool, true, false, ◌==◌, leb,
  if◌then◌else◌, List, ◌∷◌, length, get_elem?, Option, some, Run, done, bit_and, arith,
}
use solo.Hvt.{load_bytes}
use solo.Virtq.{Virtq, IoBuffer, add16, mask_of, virtq_notify_needed}
use solo.Virtq.Written.{IsQueue, num_bounds, masked}
use solo.VirtioNet.{pkt_buffer_len, sizeof_virtio_net_hdr}
use solo.VirtioNet.Receive.{
  VirtqUsedElem, RecvQueue, buffer_at, set_len, virtio_net_recv_pkt_get, returned_buf,
  virtio_net_recv_pkt_put, consume,
}
use solo.VirtioNet.Receive.Posted.{
  place, posted, recv_desc, Posted, PostedOne, wraps, put_buf-IsQueue, post_buf,
}

-- The device has used the `j`-th buffer for the packet, and has listed it in order.
pub record IsPending (q : Virtq) (used_ring : ℕ → VirtqUsedElem) (j : ℕ) (packet : List ℕ)
    : Type 0 where
  pub id : (used_ring (place q j)).id ≡ place q j
  pub len : (used_ring (place q j)).len ≡ sizeof_virtio_net_hdr + length packet
  pub fits : sizeof_virtio_net_hdr + length packet ≤ pkt_buffer_len
  pub bytes :
      load_bytes (q.bufs (place q j)).contents sizeof_virtio_net_hdr (length packet) ≡ packet

-- The device has every buffer, and has put these packets into the first of them.
pub record Holds (q : Virtq) (used_ring : ℕ → VirtqUsedElem) (used_idx : ℕ)
    (packets : List (List ℕ)) : Type 0 where
  pub posted : Posted q
  pub none_free : q.num_avail ≡ 0
  pub idx : used_idx ≡ (q.last_used + length packets) % 2 ^ 16
  pub few : length packets ≤ q.num
  pub each :
      (j : ℕ) (packet : List ℕ) → get_elem? packets j ≡ some packet → IsPending q used_ring j packet

-- The device interrupts for the next packet.
abbrev pub IsListening : RecvQueue → ℕ → Type 0
IsListening nd used_idx =
    if nd.recvq.uses_event_idx then nd.used_event ≡ used_idx else nd.avail_flags % 2 ≡ 0

pub next_place_of : (q : Virtq) (j : ℕ) → IsQueue q → place (consume q) j ≡ place q (suc j)
next_place_of q j ok =
    sym (wraps q (add16 q.last_used 1 + j) ok)
    ∙ ap (λ (a : ℕ). a % q.num) (omega arith)
    ∙ wraps q (q.last_used + suc j) ok

-- A buffer that the device has used is taken back.
pub consume-Posted :
    (q : Virtq) → Posted q → 0 < posted q → Posted (consume q) × (posted (consume q) + 1 ≡ posted q)
consume-Posted q p some_posted = (
  record {
    ok = record {
      exponent = p.ok.exponent;
      power = p.ok.power;
      max = p.ok.max;
      free = omega (arith, p.balance, some_posted, num_bounds q p.ok);
      avail_idx = p.ok.avail_idx;
      len = p.ok.len;
      extra_flags = p.ok.extra_flags;
    };
    last_used = omega arith;
    next_avail = p.next_avail;
    balance = omega (arith, p.balance, fewer, num_bounds q p.ok, some_posted);
    desc = λ j lt.
        subst (λ (t : ℕ). q.desc t ≡ recv_desc q.bufs_at t) (sym (next_place_of q j p.ok))
          (p.desc (suc j) (omega (arith, lt, fewer)));
    ring = λ j lt.
        subst (λ (t : ℕ). q.avail_ring t ≡ t) (sym (next_place_of q j p.ok))
          (p.ring (suc j) (omega (arith, lt, fewer)));
  },
  fewer,
)
  where
    fewer : posted (consume q) + 1 ≡ posted q
    fewer = omega (arith, some_posted, p.last_used, p.ok.avail_idx)

pub set_len-Posted :
    (q : Virtq) (i len : ℕ) → Posted q → len ≤ pkt_buffer_len → Posted (set_len q i len)
set_len-Posted q i len p le = record {
  ok = put_buf-IsQueue q i (record (q.bufs i) { len = len }) p.ok le (p.ok.extra_flags i);
  last_used = p.last_used;
  next_avail = p.next_avail;
  balance = p.balance;
  desc = p.desc;
  ring = p.ring;
}

buffer_at_desc : (q : Virtq) (i : ℕ) → i < q.num → buffer_at q (recv_desc q.bufs_at i).addr ≡ done i
unfolding buffer_at
buffer_at_desc q i lt = ground (arith, lt)

-- The first pending packet is found in its buffer.
pub get_pending :
    (q : Virtq) (used_idx : ℕ) (used_ring : ℕ → VirtqUsedElem) (packet : List ℕ)
    (packets : List (List ℕ))
    → Holds q used_ring used_idx (packet ∷ packets)
    → virtio_net_recv_pkt_get q used_idx used_ring
      ≡ done (
          some (
            set_len q (place q 0) (sizeof_virtio_net_hdr + length packet),
            place q 0,
            length packet,
          ))
unfolding virtio_net_recv_pkt_get
get_pending q used_idx used_ring packet packets h =
    rw
      (more, at, first.id, small, inside, at_desc, buffer_at_desc q (place q 0) in_queue, first.len)
      (ap result (omega (arith, first.fits)))
  where
    first : IsPending q used_ring 0 packet
    first = h.each 0 packet refl

    more : (q.last_used == used_idx) ≡ false
    more = ground (arith, h.idx, h.posted.last_used, h.few, num_bounds q h.posted.ok)

    at : bit_and q.last_used (mask_of q) ≡ place q 0
    at = masked q q.last_used h.posted.ok ∙ ap (λ (a : ℕ). a % q.num) (omega arith)

    in_queue : place q 0 < q.num
    in_queue = mod-lt (q.last_used + 0) (num_bounds q h.posted.ok).0

    small : place q 0 % 2 ^ 16 ≡ place q 0
    small = omega (arith, in_queue, num_bounds q h.posted.ok)

    inside : leb q.num (place q 0) ≡ false
    inside = ground (arith, in_queue)

    at_desc : q.desc (place q 0) ≡ recv_desc q.bufs_at (place q 0)
    at_desc =
        h.posted.desc 0 (omega (arith, h.posted.balance, h.none_free, num_bounds q h.posted.ok))

    result : ℕ → Run (Option (Virtq × ℕ × ℕ))
    result size =
        done (some (set_len q (place q 0) (sizeof_virtio_net_hdr + length packet), place q 0, size))

renotified-PostedOne :
    (q q' : Virtq) (b : IoBuffer) (idx : ℕ)
    → PostedOne q b q'
    → PostedOne q b (record q' { last_notified_idx = idx })
renotified-PostedOne q q' b idx one = record {
  posted = record {
    ok = record {
      exponent = one.posted.ok.exponent;
      power = one.posted.ok.power;
      max = one.posted.ok.max;
      free = one.posted.ok.free;
      avail_idx = one.posted.ok.avail_idx;
      len = one.posted.ok.len;
      extra_flags = one.posted.ok.extra_flags;
    };
    last_used = one.posted.last_used;
    next_avail = one.posted.next_avail;
    balance = one.posted.balance;
    desc = one.posted.desc;
    ring = one.posted.ring;
  };
  num = one.num;
  num_avail = one.num_avail;
  last_used = one.last_used;
  avail_idx = one.avail_idx;
  bufs_at = one.bufs_at;
  bufs = one.bufs;
  uses_event_idx = one.uses_event_idx;
}

either-PostedOne :
    (q : Virtq) (b : IoBuffer) (t : Bool) (x y : Virtq × Bool)
    → PostedOne q b x.0
    → PostedOne q b y.0
    → PostedOne q b (if t then x else y).0
either-PostedOne q b true x y px py = px
either-PostedOne q b false x y px py = py

notify-PostedOne :
    (avail_event used_flags : ℕ) (q q' : Virtq) (b : IoBuffer)
    → PostedOne q b q'
    → PostedOne q b (virtq_notify_needed avail_event used_flags q').0
unfolding virtq_notify_needed
notify-PostedOne avail_event used_flags q q' b one =
    either-PostedOne q b q'.uses_event_idx _ _ (renotified-PostedOne q q' b q'.avail_idx one) one

-- The buffer goes back to the device.
pub put_pending :
    (avail_event used_flags : ℕ) (q : Virtq)
    → Posted q
    → 0 < q.num_avail
    → (r : Virtq × Bool) × (virtio_net_recv_pkt_put avail_event used_flags q ≡ done r)
      × PostedOne q (returned_buf q) r.0
unfolding virtio_net_recv_pkt_put
put_pending avail_event used_flags q p free =
    let (q', went, one) = post_buf q (returned_buf q) p free refl refl in
    (
      virtq_notify_needed avail_event used_flags q',
      rw went refl,
      notify-PostedOne avail_event used_flags q q' (returned_buf q) one,
    )
