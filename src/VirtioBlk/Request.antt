-- ===== src/VirtioBlk/Request.antt =====
-- bindings/virtio/virtio_blk.c: what `virtio_blk_op` puts before the device.
use native.Mathlib.Nat.{mod-lt}
use solo.Base.{
  ℕ, ◌+◌, ◌*◌, ◌%◌, ◌^◌, ◌≤◌, ◌<◌, ◌≡◌, inl, inr, refl, sym, ap, ◌∙◌, subst, Bool, true, false, not,
  ◌!=◌, leb, if◌then◌else◌, length, done, bit_and, arith,
}
use solo.Hvt.{Memory, load_bytes}
use solo.Virtq.{
  Virtq, VirtqDesc, IoBuffer, sub16, mask_of, virtq_notify_needed, virtq_need_event,
  sizeof_io_buffer,
}
use solo.Virtq.Written.{IsQueue, num_bounds, masked, slot, first_slot}
use solo.Virtq.Chain.{Chained, Chained-IsQueue, linked_desc, virtq_add_descriptor_chain-Chained}
use solo.VirtioNet.Receive.{virtq_desc_f_write}
use solo.VirtioBlk.{virtio_blk_sector_size, sizeof_virtio_blk_hdr, fill_request, virtio_blk_op}
use solo.VirtioBlk.Fill.{
  Idle, Transfer, data_flags, Asked, Busy, same_header, Filled, fill_request-Filled,
}

-- What the chain of three puts before the device, whatever the driver notes of its notification.
chain-Asked :
    (q filled q' : Virtq) (head n : ℕ) (r : Transfer)
    → Filled q filled head r
    → head < filled.num
    → Chained filled head 3 q'
    → Asked (record q' { last_notified_idx = n }) head r
chain-Asked q filled q' head n r f in_queue c = record {
  listed =
      ap q'.avail_ring
        (ap (λ (m : ℕ). sub16 q'.avail_idx 1 % m) c.size ∙ ap (λ (a : ℕ). a % filled.num) last_idx)
      ∙ c.given;
  header_desc =
      moved (λ (m b : ℕ). q'.desc head ≡ desc_at b head sizeof_virtio_blk_hdr 1 ((head + 1) % m))
        (subst (λ (t : ℕ). q'.desc t ≡ linked_desc filled t (slot filled head 1))
            (first_slot filled head in_queue) (c.linked 0 (omega arith))
          ∙ rw (f.header_len, f.header_flags) refl);
  data_desc =
      moved
        (λ (m b : ℕ).
          q'.desc ((head + 1) % m)
          ≡ desc_at b ((head + 1) % m) r.len (data_flags r.type + 1) ((head + 2) % m))
        (c.linked 1 (omega arith) ∙ rw (f.buf_len, f.buf_flags) refl);
  status_desc =
      moved
        (λ (m b : ℕ). q'.desc ((head + 2) % m) ≡ desc_at b ((head + 2) % m) 1 virtq_desc_f_write 0)
        (c.last 2 refl ∙ rw (f.status_len, f.status_flags) refl);
  header =
      ap (λ (bufs : ℕ → IoBuffer). load_bytes (bufs head).contents 0 sizeof_virtio_blk_hdr) c.bufs
      ∙ ap (λ (m : Memory). load_bytes m 0 sizeof_virtio_blk_hdr) f.header
      ∙ same_header (q.bufs head).contents r.type r.sector;
  bytes = λ write.
      ap (λ (bufs : ℕ → IoBuffer). load_bytes (bufs (slot q' head 1)).contents 0 (length r.buf))
        c.bufs
      ∙ ap (λ (m : ℕ). load_bytes (filled.bufs ((head + 1) % m)).contents 0 (length r.buf)) c.size
      ∙ f.bytes write;
}
  where
    last_idx : sub16 q'.avail_idx 1 ≡ filled.avail_idx
    last_idx = omega (arith, c.avail_idx, f.ok.avail_idx)

    desc_at : ℕ → ℕ → ℕ → ℕ → ℕ → VirtqDesc
    desc_at b i len flags next = record {
      addr = b + i * sizeof_io_buffer;
      len = len;
      flags = flags;
      next = next;
    }

    moved : (P : ℕ → ℕ → Type 0) → P filled.num filled.bufs_at → P q'.num q'.bufs_at
    moved P p =
        subst (λ (m : ℕ). P m q'.bufs_at) (sym c.size)
          (subst (λ (b : ℕ). P filled.num b) (sym c.bufs_at) p)

chain-Busy :
    (q filled q' : Virtq) (head n : ℕ)
    → Idle q
    → IsQueue filled
    → head < q.num
    → filled.num ≡ q.num
    → filled.num_avail ≡ q.num_avail
    → filled.last_used ≡ q.last_used
    → filled.avail_idx ≡ q.avail_idx
    → Chained filled head 3 q'
    → Busy q (record q' { last_notified_idx = n }) head
chain-Busy q filled q' head n idle ok in_queue num num_avail last_used avail_idx c = record {
  ok = record {
    exponent = made.exponent;
    power = made.power;
    max = made.max;
    free = made.free;
    avail_idx = made.avail_idx;
    len = made.len;
    extra_flags = made.extra_flags;
  };
  num = c.size ∙ num;
  num_avail = omega (arith, c.num_avail, c.size, num, num_avail, idle.free);
  last_used = c.last_used ∙ last_used ∙ idle.seen;
  avail_idx = c.avail_idx ∙ ap (λ (a : ℕ). (a + 1) % 2 ^ 16) avail_idx;
  in_queue = omega (arith, c.size, num, in_queue);
}
  where
    made : IsQueue q'
    made = Chained-IsQueue filled q' head 3 ok c

-- What `virtq_notify_needed` changes.
notify_changes :
    (avail_event used_flags : ℕ) (q : Virtq)
    → (n : ℕ) × ((virtq_notify_needed avail_event used_flags q).0
        ≡ record q { last_notified_idx = n })
unfolding virtq_notify_needed
notify_changes avail_event used_flags q = pick q.uses_event_idx
  where
    quiet : Bool
    quiet = not (bit_and used_flags 1 != 0)

    answer : Bool → Virtq × Bool
    answer t =
        if t
        then (
          record q { last_notified_idx = q.avail_idx },
          virtq_need_event avail_event q.avail_idx q.last_notified_idx,
        )
        else (q, quiet)

    pick : (t : Bool) → (n : ℕ) × ((answer t).0 ≡ record q { last_notified_idx = n })
    pick true = (q.avail_idx, refl)
    pick false = (q.last_notified_idx, refl)

pub virtio_blk_op-Asked :
    (avail_event used_flags : ℕ) (q : Virtq) (r : Transfer)
    → Idle q
    → r.len ≤ virtio_blk_sector_size
    → (q' : Virtq) × (head : ℕ) × (notified : Bool) × (virtio_blk_op avail_event used_flags q r.type
          r.sector r.buf r.len
        ≡ done (q', head, notified))
      × Asked q' head r
      × Busy q q' head
unfolding virtio_blk_op fill_request
virtio_blk_op-Asked avail_event used_flags q r idle short =
    elim (virtq_add_descriptor_chain-Chained filled head 3 f.ok in_queue (omega arith)) [
      | inl (full, went) ↦ absurd (omega (arith, full, idle.free, idle.three))
      | inr (q', went, c) ↦
          let (n, changed) = notify_changes avail_event used_flags q' in
          (
            (virtq_notify_needed avail_event used_flags q').0,
            head,
            (virtq_notify_needed avail_event used_flags q').1,
            rw (fits, went) refl,
            subst (λ (v : Virtq). Asked v head r) (sym changed)
                (chain-Asked q filled q' head n r f in_queue c),
            subst (λ (v : Virtq). Busy q v head) (sym changed)
                (chain-Busy q filled q' head n idle f.ok in_queue refl refl refl refl c),
          )
    ]
  where
    head : ℕ
    head = bit_and q.next_avail (mask_of q)

    in_queue : head < q.num
    in_queue =
        subst (λ (t : ℕ). t < q.num) (sym (masked q q.next_avail idle.ok))
          (mod-lt q.next_avail (num_bounds q idle.ok).0)

    filled : Virtq
    filled = fill_request q head r.type r.sector r.buf r.len

    f : Filled q filled head r
    f = fill_request-Filled q head r idle in_queue short

    fits : leb r.len virtio_blk_sector_size ≡ true
    fits = ground (arith, short)
