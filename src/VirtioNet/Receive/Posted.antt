-- ===== src/VirtioNet/Receive/Posted.antt =====
-- bindings/virtio/virtio_net.c: one more buffer that the driver gives to the device on the receive queue.
use native.Mathlib.Nat.{mod-lt}
use native.Mathlib.Decide.{dec_lt}
use solo.Base.{
  ℕ, ◌+◌, ◌*◌, ◌%◌, ◌^◌, ◌≤◌, ◌<◌, ◌≡◌, ◌≢◌, inl, inr, refl, sym, ap, ◌∙◌, subst, true, done,
  bit_and, arith,
}
use solo.Base.Bits.{mod-mod_pow}
use solo.Base.Slots.{slots_apart}
use solo.Virtq.{
  put_buf, Virtq, VirtqDesc, IoBuffer, sub16, mask_of, sizeof_io_buffer, virtq_add_descriptor_chain,
  max_buffer_len,
}
use solo.Virtq.Written.{IsQueue, num_bounds, masked, slot, first_slot}
use solo.Virtq.Chain.{Chained, Chained-IsQueue, last_desc, virtq_add_descriptor_chain-Chained}
use solo.VirtioNet.{pkt_buffer_len}
use solo.VirtioNet.Receive.{virtq_desc_f_write}

-- The place of the `j`-th buffer that the device still has, in both rings.
abbrev pub place : Virtq → ℕ → ℕ
place q j = (q.last_used + j) % q.num

-- How many buffers the device has.
abbrev pub posted : Virtq → ℕ
posted q = sub16 q.avail_idx q.last_used

-- The descriptor of a buffer that waits for a packet.
abbrev pub recv_desc : ℕ → ℕ → VirtqDesc
recv_desc bufs_at i = record {
  addr = bufs_at + i * sizeof_io_buffer;
  len = pkt_buffer_len;
  flags = virtq_desc_f_write;
  next = 0;
}

-- A receive queue: the device has the buffers from `last_used` on, each as a chain of one writable
-- descriptor of the full length, and the available ring lists them in order.
pub record Posted (q : Virtq) : Type 0 where
  pub ok : IsQueue q
  pub last_used : q.last_used < 2 ^ 16
  pub next_avail : q.next_avail ≡ q.avail_idx
  pub balance : q.num_avail + posted q ≡ q.num
  pub desc : (j : ℕ) → j < posted q → q.desc (place q j) ≡ recv_desc q.bufs_at (place q j)
  pub ring : (j : ℕ) → j < posted q → q.avail_ring (place q j) ≡ place q j

-- One more buffer, with the contents and the length of `b`, has been given to the device.
pub record PostedOne (q : Virtq) (b : IoBuffer) (q' : Virtq) : Type 0 where
  pub posted : Posted q'
  pub num : q'.num ≡ q.num
  pub num_avail : q'.num_avail + 1 ≡ q.num_avail
  pub last_used : q'.last_used ≡ q.last_used
  pub avail_idx : q'.avail_idx ≡ (q.avail_idx + 1) % 2 ^ 16
  pub bufs_at : q'.bufs_at ≡ q.bufs_at
  pub bufs : q'.bufs ≡ (put_buf q (q.next_avail % q.num) b).bufs
  pub uses_event_idx : q'.uses_event_idx ≡ q.uses_event_idx

-- An index of 16 bits stands for the same place after it has wrapped around.
pub wraps : (q : Virtq) (a : ℕ) → IsQueue q → a % 2 ^ 16 % q.num ≡ a % q.num
wraps q a ok =
    ap (λ (n : ℕ). a % 2 ^ 16 % n) ok.power
    ∙ mod-mod_pow ok.exponent 16 a (omega (arith, ok.max))
    ∙ ap (λ (n : ℕ). a % n) (sym ok.power)

pub put_buf-IsQueue :
    (q : Virtq) (i : ℕ) (b : IoBuffer)
    → IsQueue q
    → b.len ≤ max_buffer_len
    → (b.extra_flags % 2 ≡ 0) × (b.extra_flags < 2 ^ 16)
    → IsQueue (put_buf q i b)
put_buf-IsQueue q i b ok short even = record {
  exponent = ok.exponent;
  power = ok.power;
  max = ok.max;
  free = ok.free;
  avail_idx = ok.avail_idx;
  len = λ k. ground (arith, ok.len k, short);
  extra_flags = λ k. ground (arith, ok.extra_flags k, even);
}

-- The next place is the one behind the buffers that the device has.
pub next_place : (q : Virtq) → Posted q → q.next_avail % q.num ≡ place q (posted q)
next_place q p =
    ap (λ (a : ℕ). a % q.num) (p.next_avail ∙ omega (arith, p.ok.avail_idx, p.last_used))
    ∙ wraps q (q.last_used + posted q) p.ok

chain_kept :
    (q q' : Virtq) (b : IoBuffer) (j : ℕ)
    → Posted q
    → Chained (put_buf q (q.next_avail % q.num) b) (q.next_avail % q.num) 1 q'
    → 0 < q.num_avail
    → j < posted q
    → (q'.desc (place q j) ≡ recv_desc q.bufs_at (place q j))
      × (q'.avail_ring (place q j) ≡ place q j)
chain_kept q q' b j p c free lt = (
  c.others (place q j) (λ i first e.
        away (e ∙ ap (λ (t : ℕ). slot q (q.next_avail % q.num) t) (omega (arith, first)) ∙ at_head))
      ∙ p.desc j lt,
  c.earlier (place q j) (λ e. away (e ∙ sym (ap (λ (a : ℕ). a % q.num) p.next_avail)))
      ∙ p.ring j lt,
)
  where
    at_head : slot q (q.next_avail % q.num) 0 ≡ q.next_avail % q.num
    at_head = first_slot q (q.next_avail % q.num) (mod-lt q.next_avail (num_bounds q p.ok).0)

    away : place q j ≢ q.next_avail % q.num
    away e =
        slots_apart q.num (q.last_used + j) (q.last_used + posted q) (omega (arith, lt))
          (omega (arith, p.balance, free)) (e ∙ next_place q p)

chain-PostedOne :
    (q q' : Virtq) (b : IoBuffer)
    → Posted q
    → IsQueue (put_buf q (q.next_avail % q.num) b)
    → b.len ≡ pkt_buffer_len
    → b.extra_flags ≡ virtq_desc_f_write
    → 0 < q.num_avail
    → Chained (put_buf q (q.next_avail % q.num) b) (q.next_avail % q.num) 1 q'
    → PostedOne q b q'
chain-PostedOne q q' b p ok len flags free c = record {
  posted = record {
    ok = Chained-IsQueue (put_buf q head b) q' head 1 ok c;
    last_used = omega (arith, c.last_used, p.last_used);
    next_avail = c.next_avail ∙ ap (λ (a : ℕ). (a + 1) % 2 ^ 16) p.next_avail ∙ sym c.avail_idx;
    balance = omega (arith, count, c.num_avail, c.size, p.balance);
    desc =
        λ j lt. subst (λ (t : ℕ). q'.desc t ≡ recv_desc q'.bufs_at t) (sym (same j)) (each j lt).0;
    ring = λ j lt. subst (λ (t : ℕ). q'.avail_ring t ≡ t) (sym (same j)) (each j lt).1;
  };
  num = c.size;
  num_avail = c.num_avail;
  last_used = c.last_used;
  avail_idx = c.avail_idx;
  bufs_at = c.bufs_at;
  bufs = c.bufs;
  uses_event_idx = c.uses_event_idx;
}
  where
    head : ℕ
    head = q.next_avail % q.num

    at_head : slot q head 0 ≡ head
    at_head = first_slot q head (mod-lt q.next_avail (num_bounds q p.ok).0)

    count : posted q' ≡ posted q + 1
    count = omega (
      arith,
      c.avail_idx,
      c.last_used,
      p.balance,
      num_bounds q p.ok,
      free,
      p.last_used,
      p.ok.avail_idx,
    )

    same : (j : ℕ) → place q' j ≡ place q j
    same j = cc

    filled : (put_buf q head b).bufs head ≡ b
    filled = ground arith

    ready : last_desc (put_buf q head b) head ≡ recv_desc q.bufs_at head
    ready = rw (filled, len, flags) refl

    new_desc : q'.desc head ≡ recv_desc q.bufs_at head
    new_desc =
        subst (λ (t : ℕ). q'.desc t ≡ last_desc (put_buf q head b) t) at_head (c.last 0 refl)
        ∙ ready

    moved : (i : ℕ) → recv_desc q.bufs_at i ≡ recv_desc q'.bufs_at i
    moved i = ap (λ (a : ℕ). recv_desc a i) (sym c.bufs_at)

    IsReady : ℕ → Type 0
    IsReady i = (q'.desc i ≡ recv_desc q'.bufs_at i) × (q'.avail_ring i ≡ i)

    new_ring : q'.avail_ring head ≡ head
    new_ring = subst (λ (t : ℕ). q'.avail_ring (t % q.num) ≡ head) (sym p.next_avail) c.given

    each : (j : ℕ) → j < posted q' → IsReady (place q j)
    each j lt = elim (dec_lt j (posted q)) [
      | yes earlier ↦
          let (kept, listed) = chain_kept q q' b j p c free earlier in
          (kept ∙ moved (place q j), listed)
      | no last ↦
          subst IsReady (next_place q p ∙ ap (place q) (omega (arith, lt, last, count)))
            (new_desc ∙ moved head, new_ring)
    ]

-- The driver gives the buffer of the next place to the device.
pub post_buf :
    (q : Virtq) (b : IoBuffer)
    → Posted q
    → 0 < q.num_avail
    → b.len ≡ pkt_buffer_len
    → b.extra_flags ≡ virtq_desc_f_write
    → (q' : Virtq) × (virtq_add_descriptor_chain
          (put_buf q (bit_and q.next_avail (mask_of q)) b)
          (bit_and q.next_avail (mask_of q))
          1
        ≡ done (q', true))
      × PostedOne q b q'
post_buf q b p free len flags =
    elim (virtq_add_descriptor_chain-Chained filled head 1 ok
      (mod-lt q.next_avail (num_bounds q p.ok).0) (omega arith)) [
        | inl (full, went) ↦ absurd (omega (arith, free, full))
        | inr (q', went, c) ↦
            (q', rw (masked q q.next_avail p.ok) went, chain-PostedOne q q' b p ok len flags free c)
      ]
  where
    head : ℕ
    head = q.next_avail % q.num

    filled : Virtq
    filled = put_buf q head b

    ok : IsQueue filled
    ok =
        put_buf-IsQueue q head b p.ok (omega (arith, len))
          (omega (arith, flags), omega (arith, flags))
