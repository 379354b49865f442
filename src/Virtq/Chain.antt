-- ===== src/Virtq/Chain.antt =====
-- bindings/virtio/virtio_ring.c: the chain that `virtq_add_descriptor_chain` makes.
use native.Mathlib.Nat.{mod-lt, mod-add-mod}
use solo.Base.{
  ℕ, zero, suc, ◌+◌, ◌-◌, ◌*◌, ◌%◌, ◌^◌, ◌≤◌, ◌<◌, ◌≡◌, ◌≢◌, ◌⊎◌, inl, inr, refl, sym, ap, ◌∙◌,
  subst, Bool-cases, true, false, ◌==◌, ltb, if◌then◌else◌, done, bit_and, bit_or, arith,
}
use solo.Base.Bits.{bit_and_high}
use solo.Base.Digits.{one_bit_or}
use solo.Base.Slots.{slots_apart}
use solo.Virtq.{
  Virtq, VirtqDesc, IoBuffer, desc_of, put_desc, publish_chain, virtq_add_descriptor_chain,
  max_buffer_len, sizeof_io_buffer,
}
use solo.Virtq.Written.{
  IsQueue, slot, num_bounds, masked, next_slot, Written, put_at, put_not_at, with_desc,
  add_descs-Written,
}

-- The descriptor of a buffer with a next one, and of a chain's last buffer.
abbrev pub linked_desc : Virtq → ℕ → ℕ → VirtqDesc
linked_desc vq q next = record {
  addr = vq.bufs_at + q * sizeof_io_buffer;
  len = (vq.bufs q).len;
  flags = (vq.bufs q).extra_flags + 1;
  next = next;
}

abbrev pub last_desc : Virtq → ℕ → VirtqDesc
last_desc vq q = record {
  addr = vq.bufs_at + q * sizeof_io_buffer;
  len = (vq.bufs q).len;
  flags = (vq.bufs q).extra_flags;
  next = 0;
}

-- A chain of `num` descriptors from the slot `head` on has been made and given to the device.
pub record Chained (vq : Virtq) (head num : ℕ) (vq' : Virtq) : Type 0 where
  pub linked :
      (j : ℕ)
      → suc j < num
      → vq'.desc (slot vq head j) ≡ linked_desc vq (slot vq head j) (slot vq head (suc j))
  pub last : (j : ℕ) → suc j ≡ num → vq'.desc (slot vq head j) ≡ last_desc vq (slot vq head j)
  pub others : (q : ℕ) → ((j : ℕ) → j < num → q ≢ slot vq head j) → vq'.desc q ≡ vq.desc q
  pub given : vq'.avail_ring (vq.avail_idx % vq.num) ≡ head
  pub earlier : (q : ℕ) → q ≢ vq.avail_idx % vq.num → vq'.avail_ring q ≡ vq.avail_ring q
  pub avail_idx : vq'.avail_idx ≡ (vq.avail_idx + 1) % 2 ^ 16
  pub num_avail : vq'.num_avail + num ≡ vq.num_avail
  pub next_avail : vq'.next_avail ≡ (vq.next_avail + num) % 2 ^ 16
  pub size : vq'.num ≡ vq.num
  pub bufs : vq'.bufs ≡ vq.bufs
  pub last_used : vq'.last_used ≡ vq.last_used
  pub bufs_at : vq'.bufs_at ≡ vq.bufs_at
  pub uses_event_idx : vq'.uses_event_idx ≡ vq.uses_event_idx

pub Chained-IsQueue :
    (vq vq' : Virtq) (head num : ℕ) → IsQueue vq → Chained vq head num vq' → IsQueue vq'
Chained-IsQueue vq vq' head num ok c = record {
  exponent = ok.exponent;
  power = c.size ∙ ok.power;
  max = ok.max;
  free = omega (arith, c.num_avail, c.size, ok.free);
  avail_idx = omega (arith, c.avail_idx);
  len = λ i. subst (λ (bufs : ℕ → IoBuffer). (bufs i).len ≤ max_buffer_len) (sym c.bufs) (ok.len i);
  extra_flags = λ i.
      subst
        (λ (bufs : ℕ → IoBuffer). ((bufs i).extra_flags % 2 ≡ 0) × ((bufs i).extra_flags < 2 ^ 16))
        (sym c.bufs) (ok.extra_flags i);
}

-- The descriptor of a slot, in plain arithmetic.
desc_of_slot :
    (vq : Virtq) (q : ℕ)
    → IsQueue vq
    → q < vq.num
    → desc_of vq q ≡ linked_desc vq q ((q + 1) % vq.num)
desc_of_slot vq q ok lt = rw (next_slot vq q ok lt, flags) refl
  where
    flags : bit_or 1 (vq.bufs q).extra_flags ≡ (vq.bufs q).extra_flags + 1
    flags = omega (arith, one_bit_or (vq.bufs q).extra_flags, (ok.extra_flags q).0)

unflagged :
    (vq : Virtq) (q : ℕ)
    → IsQueue vq
    → bit_and ((vq.bufs q).extra_flags + 1) (2 ^ 16 - 1 - 1) ≡ (vq.bufs q).extra_flags
unflagged vq q ok = omega (
  arith,
  ok.extra_flags q,
  bit_and_high 1 16 ((vq.bufs q).extra_flags + 1) (omega arith) (omega (arith, ok.extra_flags q)),
)

-- In one chain the slots differ.
pub slots_differ :
    (vq : Virtq) (head i j : ℕ) → i < j → j < vq.num → slot vq head i ≢ slot vq head j
slots_differ vq head i j lt small =
    slots_apart vq.num (head + i) (head + j) (omega (arith, lt)) (omega (arith, small))

chain :
    (vq : Virtq) (head n : ℕ) (desc : ℕ → VirtqDesc)
    → IsQueue vq
    → head < vq.num
    → suc n ≤ vq.num_avail
    → vq.num_avail < 2 ^ 16
    → Written vq head n desc
    → Chained vq head (suc n) (publish_chain (with_desc vq desc) (slot vq head n) head (suc n))
unfolding publish_chain with_desc
chain vq head n desc ok lt few small w = record {
  linked = λ j more.
      put_not_at (with_desc vq desc) (slot vq head n) (slot vq head j) ended
        (slots_differ vq head j n (omega (arith, more)) (omega (arith, few, ok.free)))
      ∙ w.inside j (omega (arith, more))
      ∙ desc_of_slot vq (slot vq head j) ok (mod-lt (head + j) (num_bounds vq ok).0)
      ∙ ap (linked_desc vq (slot vq head j)) (following j);
  last = λ j e.
      subst (λ (t : ℕ). ends_with t) (omega (arith, e))
        (put_at (with_desc vq desc) (slot vq head n) ended ∙ unlinked);
  others = λ q away.
      put_not_at (with_desc vq desc) (slot vq head n) q ended (away n (omega arith))
      ∙ w.outside q (λ j le. away j (omega (arith, le)));
  given = rw (masked vq vq.avail_idx ok) (at_same (vq.avail_idx % vq.num));
  earlier = λ q ne. rw (masked vq vq.avail_idx ok) (not_at q ne);
  avail_idx = refl;
  num_avail = omega (arith, few, small);
  next_avail = refl;
  size = refl;
  bufs = refl;
  last_used = refl;
  bufs_at = refl;
  uses_event_idx = refl;
}
  where
    ended : VirtqDesc
    ended = record (desc (slot vq head n)) {
      next = 0;
      flags = bit_and (desc (slot vq head n)).flags (2 ^ 16 - 1 - 1);
    }

    ends_with : ℕ → Type 0
    ends_with t =
        (put_desc (with_desc vq desc) (slot vq head n) ended).desc (slot vq head t)
        ≡ last_desc vq (slot vq head t)

    ending : VirtqDesc → VirtqDesc
    ending d = record d { next = 0; flags = bit_and d.flags (2 ^ 16 - 1 - 1) }

    unlinked : ended ≡ last_desc vq (slot vq head n)
    unlinked =
        ap ending (
          w.inside n (omega arith)
          ∙ desc_of_slot vq (slot vq head n) ok (mod-lt (head + n) (num_bounds vq ok).0))
        ∙ rw (unflagged vq (slot vq head n) ok) refl

    following : (j : ℕ) → (slot vq head j + 1) % vq.num ≡ slot vq head (suc j)
    following j = mod-add-mod (head + j) vq.num 1 ∙ ap (λ (a : ℕ). a % vq.num) (omega arith)

    at_same : (q : ℕ) → (if q == q then head else vq.avail_ring q) ≡ head
    at_same q = ground arith

    not_at :
        (q : ℕ)
        → q ≢ vq.avail_idx % vq.num
        → (if q == vq.avail_idx % vq.num then head else vq.avail_ring q) ≡ vq.avail_ring q
    not_at q ne = ground (arith, ne)

-- For a queue as `virtq_init_rings` leaves it, of a size that is a power of two and at most 8192, with at most so many
-- free descriptors; for buffers that all satisfy the two assertions of the function, which are at most 1526 bytes long
-- and have no flag NEXT of their own; for a head in the queue, and for one buffer at least:
-- `virtq_add_descriptor_chain` returns. If fewer
-- descriptors are free than asked for, the queue is as it was and the result is -1. Otherwise the descriptors from the head
-- on, around the end of the ring, are the buffers' in order, each linked to the next and the last to none; the
-- head is in the next place of the available ring, whose index is one higher; so many fewer descriptors are
-- free; and the other descriptors and places are as they were.
pub virtq_add_descriptor_chain-Chained :
    (vq : Virtq) (head num : ℕ)
    → IsQueue vq
    → head < vq.num
    → 0 < num
    → ((vq.num_avail < num) × (virtq_add_descriptor_chain vq head num ≡ done (vq, false)))
      ⊎ ((vq' : Virtq) × (virtq_add_descriptor_chain vq head num ≡ done (vq', true))
          × Chained vq head num vq')
unfolding virtq_add_descriptor_chain
virtq_add_descriptor_chain-Chained vq head zero ok lt some = absurd (omega (arith, some))
virtq_add_descriptor_chain-Chained vq head (suc n) ok lt some =
    elim (Bool-cases (ltb vq.num_avail (suc n))) [
      | inl full ↦ inl (ground (arith, full), rw full refl)
      | inr room ↦
          let (desc, went, written) = add_descs-Written n head vq ok lt in
          inr (
            publish_chain (with_desc vq desc) (slot vq head n) head (suc n),
            rw (room, positive, less, went) refl,
            chain vq head n desc ok lt (ground (arith, room))
                (omega (arith, ok.free, num_bounds vq ok)) written,
          )
    ]
  where
    positive : ltb 0 (suc n) ≡ true
    positive = ground arith

    less : suc n - 1 ≡ n
    less = omega arith
