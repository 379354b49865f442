-- ===== src/NetGuest/Flow.antt =====
-- bindings/hvt/net.c: flow control.
use native.Mathlib.Decide.{dec_lt}
use solo.Base.{
  lt→ltb, ℕ, ◌+◌, ◌-◌, ◌*◌, ◌^◌, ◌%◌, ◌≤◌, ◌<◌, ◌≡◌, ◌≢◌, ◌⊎◌, inl, inr, Bool, Bool-cases, leb, ltb,
  List, length, done, aborts, arith, bit_and,
}
use solo.Base.Bits.{bit_and_mask}
use solo.Hvt.{load_bytes}
use solo.Hvt.Memory.{load_bytes-store_outside}
use solo.Ring.{NetTender, add32, entry_at, hvt_ring_mask}
use solo.Ring.Serve.{pending}
use solo.NetGuest.{
  NetWrite, submitted, solo5_net_write, slot_buffer, after_read, after_write, ring_submit,
  net_read_submit, sub32, hvt_ring_buf_size,
}

-- The ring's mask is a remainder.
pub mask_lem : (a : ℕ) → bit_and a hvt_ring_mask ≡ a % 1024
mask_lem a = bit_and_mask 10 a

-- The slots of distinct indices that are less than a whole ring apart are distinct.
pub slots-ne :
    (tail head i : ℕ)
    → tail < 2 ^ 32
    → head < 2 ^ 32
    → (tail + 2 ^ 32 - head) % 2 ^ 32 < 1024
    → i < (tail + 2 ^ 32 - head) % 2 ^ 32
    → bit_and (add32 head i) hvt_ring_mask ≢ bit_and tail hvt_ring_mask
slots-ne tail head i ht hh few lt e = omega (arith, mask_lem (add32 head i), mask_lem tail, e)

net_write-inv :
    {N : Type 0} (write_bufs : ℕ) (t t' : NetTender N) (id id' handle : ℕ) (buf : List ℕ)
    (kick : Bool)
    → solo5_net_write write_bufs t id handle buf ≡ submitted t' id' kick
    → (pending t.ring < 1023)
      × (length buf ≤ hvt_ring_buf_size)
      × (t' ≡ after_write write_bufs t id handle buf)
unfolding solo5_net_write
net_write-inv {N} write_bufs t t' id id' handle buf kick e =
    elim (Bool-cases (leb 1023 (sub32 t.ring.ent_tail t.ring.ent_head))) [
      | inl full ↦ absurd (ground (arith, e, full))
      | inr room ↦ elim (Bool-cases (ltb hvt_ring_buf_size (length buf))) [
        | inl long ↦ absurd (ground (arith, e, room, long))
        | inr fits ↦ (ground (arith, room), ground (arith, fits), same (rw (room, fits) at e))
      ]
    ]
  where
    same :
        {s : NetTender N} {j : ℕ} {k : Bool}
        → ◌≡◌ {A = NetWrite N} (submitted s j k) (submitted t' id' kick)
        → t' ≡ s
    same h = cc

kept :
    {N : Type 0} (write_bufs : ℕ) (t : NetTender N) (id handle i : ℕ) (buf : List ℕ)
    → t.ring.ent_tail < 2 ^ 32
    → t.ring.ent_head < 2 ^ 32
    → pending t.ring < 1023
    → length buf ≤ hvt_ring_buf_size
    → i < pending t.ring
    → let t' = after_write write_bufs t id handle buf in
      let slot = bit_and (add32 t.ring.ent_head i) hvt_ring_mask in
      (t'.ring.entries slot ≡ t.ring.entries slot)
      × (load_bytes t'.hvt.mem (write_bufs + slot * hvt_ring_buf_size) hvt_ring_buf_size
          ≡ load_bytes t.hvt.mem (write_bufs + slot * hvt_ring_buf_size) hvt_ring_buf_size)
unfolding ring_submit
kept write_bufs t id handle i buf ht hh few len lt = (
  ground (arith, ne),
  load_bytes-store_outside hvt_ring_buf_size buf t.hvt.mem (slot_buffer write_bufs t.ring)
      (write_bufs + slot * hvt_ring_buf_size) (ground (arith, ne, len)),
)
  where
    slot : ℕ
    slot = bit_and (add32 t.ring.ent_head i) hvt_ring_mask

    ne : slot ≢ bit_and t.ring.ent_tail hvt_ring_mask
    ne = slots-ne t.ring.ent_tail t.ring.ent_head i ht hh (omega arith) lt

-- A write that is submitted publishes one more entry, at most 1023 in all, and neither an entry that
-- was pending nor a byte of its buffer slot changes.
pub solo5_net_write-keeps :
    {N : Type 0} (write_bufs : ℕ) (t t' : NetTender N) (id id' handle : ℕ) (buf : List ℕ)
    (kick : Bool)
    → t.ring.ent_tail < 2 ^ 32
    → t.ring.ent_head < 2 ^ 32
    → solo5_net_write write_bufs t id handle buf ≡ submitted t' id' kick
    → (pending t'.ring ≡ pending t.ring + 1)
      × (pending t'.ring ≤ 1023)
      × ((i : ℕ)
          → i < pending t.ring
          → (entry_at t'.ring (add32 t.ring.ent_head i) ≡ entry_at t.ring (add32 t.ring.ent_head i))
            × (load_bytes t'.hvt.mem
                  (write_bufs + bit_and (add32 t.ring.ent_head i) hvt_ring_mask * hvt_ring_buf_size)
                  hvt_ring_buf_size
                ≡ load_bytes t.hvt.mem
                    (write_bufs
                      + bit_and (add32 t.ring.ent_head i) hvt_ring_mask * hvt_ring_buf_size)
                    hvt_ring_buf_size))
unfolding solo5_net_write ring_submit
solo5_net_write-keeps write_bufs t t' id id' handle buf kick ht hh e =
    let (few, len, same) = net_write-inv write_bufs t t' id id' handle buf kick e in
    rw same (omega arith, omega arith, λ i lt. kept write_bufs t id handle i buf ht hh few len lt)

-- With fewer than 1023 entries pending a read is submitted: it publishes one more entry and leaves the
-- pending ones alone. With 1023 pending its assertion fails.
net_read_submit-cases :
    {N : Type 0} (t : NetTender N) (id handle buf size : ℕ)
    → t.ring.ent_tail < 2 ^ 32
    → t.ring.ent_head < 2 ^ 32
    → ((pending t.ring < 1023)
        × (s : NetTender N × ℕ × Bool) × (net_read_submit t id handle buf size ≡ done s)
        × (pending s.0.ring ≡ pending t.ring + 1)
        × ((i : ℕ)
            → i < pending t.ring
            → entry_at s.0.ring (add32 t.ring.ent_head i)
              ≡ entry_at t.ring (add32 t.ring.ent_head i)))
      ⊎ ((1023 ≤ pending t.ring) × (net_read_submit t id handle buf size ≡ aborts))
unfolding net_read_submit ring_submit
net_read_submit-cases t id handle buf size ht hh = elim (dec_lt (pending t.ring) 1023) [
  | yes room ↦ inl (
    room,
    (after_read t id handle buf size, add32 id 1, (ring_submit t.ring).1),
    rw (lt→ltb _ 1023 room),
    omega arith,
    λ i lt.
        let ne = slots-ne t.ring.ent_tail t.ring.ent_head i ht hh (omega arith) lt in
        ground (arith, ne),
  )
  | no full ↦ inr (omega arith, ground (arith, full))
]

-- A full ring is reached by writes alone: from 1022 pending entries a write of a frame that fits a
-- slot returns to the caller with 1023 pending, and a read that follows before the tender has advanced
-- `ent_head` fails its assertion.
pub net_read_after_full-aborts :
    {N : Type 0} (write_bufs : ℕ) (t : NetTender N) (id handle handle' buf' size : ℕ) (buf : List ℕ)
    → t.ring.ent_tail < 2 ^ 32
    → t.ring.ent_head < 2 ^ 32
    → pending t.ring ≡ 1022
    → length buf ≤ hvt_ring_buf_size
    → (t' : NetTender N) × (id' : ℕ) × (kick : Bool) × (solo5_net_write write_bufs t id handle buf
        ≡ submitted t' id' kick)
      × (net_read_submit t' id' handle' buf' size ≡ aborts)
unfolding solo5_net_write net_read_submit ring_submit
net_read_after_full-aborts write_bufs t id handle handle' buf' size buf ht hh full len = (
  after_write write_bufs t id handle buf,
  add32 id 1,
  (ring_submit t.ring).1,
  ground (arith, full, len),
  ground (arith, full, ht, hh),
)
