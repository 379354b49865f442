-- ===== src/NetGuest/Delivery.antt =====
-- bindings/hvt/net.c and tenders/hvt/hvt_module_net.c: the guest's side and the tender's side together: what a call on the guest does at the tap device.
use native.Mathlib.Nat.{mod-mod}
use solo.Base.{
  ℕ, ◌+◌, ◌*◌, ◌^◌, ◌%◌, ◌≤◌, ◌<◌, ◌≡◌, inl, inr, refl, ap, ◌∙◌, true, List, length, done, arith,
  bit_and, some, pos, ◌==◌, ◌!=◌, ◌⊎◌, ◌-◌, [], ◌∷◌, leb, ltb, ==_iff, false,
}
use solo.Mft.{Mft, MftEntry, mft_get_by_index, mft_dev_net_basic}
use solo.Mft.Lookup.{IsUsable, Holds, mft_get_by_index-Holds}
use solo.Hvt.{Memory, checked_gpa_p, load_bytes, store_bytes}
use solo.Hvt.Memory.{checked_gpa_p-cases, load_bytes-store_bytes}
use solo.Ring.{
  Entry, Taps, NetTender, add32, advance, entry_at, hvt_ring_mask, hvt_ring_net_write,
  hvt_ring_net_read, write_entry, process_read_entry, process_ring_commits, post, reply,
  frame_bytes, TapRead, frame, eagain, failed, hvt_ring_size,
}
use solo.Ring.Serve.{pending, serve, serve_one}
use solo.Ring.Refine.{process_ring_commits-serve}
use solo.Ring.Counts.{IsServable}
use solo.Block.{solo5_r_ok, solo5_r_einval}
use solo.VirtioNet.Devices.{solo5_r_again}
use solo.NetGuest.{
  solo5_net_write, submitted, net_read_submit, sub32, slot_buffer, after_read, after_write,
  ring_submit, net_read_finish, hvt_ring_buf_size, write_request, read_request,
}
use solo.NetGuest.Flow.{mask_lem}

-- The result and the size that the device's answer stands for.
pub data ReadResult (got : TapRead) (ret len : ℕ) : Type 0 where
  packet :
      (bytes : List ℕ)
      → got ≡ frame bytes
      → 0 < length bytes
      → ret ≡ solo5_r_ok
      → len ≡ length bytes
      → ReadResult got ret len
  nothing :
      (got ≡ eagain) ⊎ (got ≡ frame []) → ret ≡ solo5_r_again → len ≡ 0 → ReadResult got ret len
  broken : got ≡ failed → ret ≡ solo5_r_einval → len ≡ 0 → ReadResult got ret len

reply-ReadResult : (id : ℕ) (got : TapRead) → ReadResult got (reply id got).ret (reply id got).len
unfolding reply
reply-ReadResult id (frame []) = nothing (inr refl) refl refl
reply-ReadResult id (frame (b ∷ bs)) = packet (b ∷ bs) refl (omega arith) refl refl
reply-ReadResult id eagain = nothing (inl refl) refl refl
reply-ReadResult id failed = broken refl refl refl

found_at :
    (m : Mft) (handle : ℕ) (x : MftEntry)
    → IsUsable m
    → Holds m (handle % 2 ^ 32) mft_dev_net_basic x
    → mft_get_by_index m (handle % 2 ^ 32) mft_dev_net_basic ≡ done (some x)
found_at m handle x u h =
    let (o, found, holds) = mft_get_by_index-Holds m (handle % 2 ^ 32) mft_dev_net_basic u in
    found ∙ ap done ((holds x).1 (rw mod-mod h))

checked_at :
    (t : Memory) (size gpa sz : ℕ)
    → size < 2 ^ 64
    → gpa + sz < size
    → checked_gpa_p (record { mem = t; guest_mem_size = size }) gpa sz ≡ done gpa
checked_at t size gpa sz small inside =
    (elim (checked_gpa_p-cases (record { mem = t; guest_mem_size = size }) gpa sz small) [
      | inl (_, good) ↦ good
      | inr (out, _) ↦ absurd (omega arith)
    ])

module _ (taps : Taps) where
  open taps use {Net}

  one_served :
      (fuel : ℕ) (t u : NetTender Net)
      → t.ring.ent_tail < 2 ^ 32
      → t.ring.ent_head < 2 ^ 32
      → pending t.ring ≡ 1
      → 2 < fuel
      → serve_one taps t ≡ done u
      → process_ring_commits taps fuel t ≡ done u
  unfolding serve
  one_served fuel t u ht hh one lt e =
      process_ring_commits-serve taps fuel t ht hh (omega arith)
      ∙ ap (λ (n : ℕ). serve taps n t) one
      ∙ rw e

  -- The write of an entry whose data lie in guest memory.
  write_entry-done :
      (t : NetTender Net) (ent : Entry) (handle : ℕ) (buf : List ℕ) (x : MftEntry)
      → IsServable t
      → ent.handle ≡ handle % 2 ^ 32
      → Holds t.host_mft (handle % 2 ^ 32) mft_dev_net_basic x
      → ent.address + ent.len < t.hvt.guest_mem_size
      → load_bytes t.hvt.mem ent.address ent.len ≡ buf
      → ent.len ≡ length buf
      → (taps.write t.net x.hostfd buf).1 ≡ pos (length buf)
      → write_entry taps t ent ≡ done (taps.write t.net x.hostfd buf).0
  unfolding write_entry
  write_entry-done t ent handle buf x s eh holds inside bytes len whole = rw (
    eh,
    found_at t.host_mft handle x s.usable holds,
    checked_at t.hvt.mem t.hvt.guest_mem_size ent.address ent.len s.mem_size inside,
    bytes,
    whole,
    len,
    (==_iff (length buf) (length buf)).1 refl,
  )

  serve_one_write :
      (t : NetTender Net) (n : Net)
      → ((entry_at t.ring t.ring.ent_head).operation == hvt_ring_net_write) ≡ true
      → write_entry taps t (entry_at t.ring t.ring.ent_head) ≡ done n
      → serve_one taps t ≡ done (advance (record t { net = n }) 1)
  unfolding serve_one
  serve_one_write t n op e = rw (op, e)

  -- On an idle ring, for a handle that names a network device of the manifest, a frame of at most 2048 bytes, buffers
  -- inside guest memory, a device that takes the frame whole, and fuel above two: `solo5_net_write` submits the frame,
  -- with the next id and with a kick as the tender has asked for, and when the tender has processed the ring, the
  -- device has been given exactly the frame, once, and the entry is consumed.
  pub net_write-delivers :
      (write_bufs fuel : ℕ) (t : NetTender Net) (id handle : ℕ) (buf : List ℕ) (x : MftEntry)
      → IsServable t
      → t.ring.ent_tail ≡ t.ring.ent_head
      → length buf ≤ hvt_ring_buf_size
      → write_bufs + 1024 * hvt_ring_buf_size < t.hvt.guest_mem_size
      → Holds t.host_mft (handle % 2 ^ 32) mft_dev_net_basic x
      → (taps.write t.net x.hostfd buf).1 ≡ pos (length buf)
      → 2 < fuel
      → (t' : NetTender Net) × (solo5_net_write write_bufs t id handle buf
          ≡ submitted t' (add32 id 1) (t.ring.needs_kick != 0))
        × (process_ring_commits taps fuel t'
            ≡ done (advance (record t' { net = (taps.write t.net x.hostfd buf).0 }) 1))
  unfolding ring_submit solo5_net_write
  net_write-delivers write_bufs fuel t id handle buf x s idle len room holds whole lt = (
    t',
    rw (solo5_net_write, not_full, short) refl,
    one_served fuel t' _ (omega arith) s.head (omega (arith, idle)) lt (
        serve_one_write t' _ (rw at_head) (
          rw at_head (
            write_entry-done t' request handle buf x served refl holds
              (omega (arith, mask_lem t.ring.ent_tail))
              (load_bytes-store_bytes buf t.hvt.mem (slot_buffer write_bufs t.ring)) refl whole))),
  )
    where
      not_full : leb (hvt_ring_size - 1) (sub32 t.ring.ent_tail t.ring.ent_head) ≡ false
      not_full = ground (arith, idle, s.head)

      short : ltb hvt_ring_buf_size (length buf) ≡ false
      short = ground (arith, len)

      t' : NetTender Net
      t' = after_write write_bufs t id handle buf

      request : Entry
      request = write_request write_bufs t.ring id handle buf

      at_head : entry_at t'.ring t.ring.ent_head ≡ request
      at_head = ground (arith, idle)

      served : IsServable t'
      served = record {
        usable = s.usable;
        mem_size = s.mem_size;
        head = s.head;
        com_tail = s.com_tail;
      }

  serve_one_read :
      (t u : NetTender Net)
      → ((entry_at t.ring t.ring.ent_head).operation == hvt_ring_net_write) ≡ false
      → ((entry_at t.ring t.ring.ent_head).operation == hvt_ring_net_read) ≡ true
      → process_read_entry taps t (entry_at t.ring t.ring.ent_head) ≡ done u
      → serve_one taps t ≡ done u
  unfolding serve_one
  serve_one_read t u op op' e = rw (op, op', e)

  -- The state after the tender has served a read request.
  answered : NetTender Net → Entry → MftEntry → NetTender Net
  answered t ent x =
      let (n, got) = taps.read t.net x.hostfd ent.len in
      post t (store_bytes t.hvt.mem ent.address (frame_bytes got)) n (reply ent.id got)

  process_read_entry-done :
      (t : NetTender Net) (ent : Entry) (handle : ℕ) (x : MftEntry)
      → IsServable t
      → ent.handle ≡ handle % 2 ^ 32
      → Holds t.host_mft (handle % 2 ^ 32) mft_dev_net_basic x
      → ent.address + ent.len < t.hvt.guest_mem_size
      → process_read_entry taps t ent ≡ done (answered t ent x)
  unfolding process_read_entry answered
  process_read_entry-done t ent handle x s eh holds inside = rw (
    eh,
    found_at t.host_mft handle x s.usable holds,
    checked_at t.hvt.mem t.hvt.guest_mem_size ent.address ent.len s.mem_size inside,
  )

  -- On an idle ring without commits, for a handle that names a network device of the manifest, a buffer inside guest
  -- memory, and fuel above two: `solo5_net_read` submits its request, and once the tender has processed the ring, it
  -- finds a commit. It returns SOLO5_R_OK with the length of the frame that the device gave; SOLO5_R_AGAIN and no
  -- bytes, if the device had none or an empty one; or SOLO5_R_EINVAL and no bytes, if the device failed. The buffer
  -- holds the frame. The device is asked for as many bytes as the low 32 bits of the size say.
  pub net_read-delivers :
      (fuel : ℕ) (t : NetTender Net) (id handle buf size : ℕ) (x : MftEntry)
      → IsServable t
      → t.ring.ent_tail ≡ t.ring.ent_head
      → t.ring.com_head ≡ t.ring.com_tail
      → buf + size % 2 ^ 32 < t.hvt.guest_mem_size
      → Holds t.host_mft (handle % 2 ^ 32) mft_dev_net_basic x
      → 2 < fuel
      → let got = (taps.read t.net x.hostfd (size % 2 ^ 32)).1 in
        (t' u v : NetTender Net) × (ret : ℕ) × (len : ℕ) × (net_read_submit t id handle buf size
          ≡ done (t', add32 id 1, (t.ring.needs_kick != 0)))
        × (process_ring_commits taps fuel t' ≡ done u)
        × (net_read_finish u ≡ some (v, ret, len))
        × ReadResult got ret len
        × (load_bytes v.hvt.mem buf (length (frame_bytes got)) ≡ frame_bytes got)
  unfolding ring_submit net_read_finish answered net_read_submit
  net_read-delivers fuel t id handle buf size x s idle quiet inside holds lt = (
    t',
    answered t' request x,
    record u { ring = record (u.ring) { com_head = add32 t.ring.com_head 1 } },
    (reply id got).ret,
    (reply id got).len,
    rw room refl,
    one_served fuel t' _ (omega arith) s.head (omega (arith, idle)) lt (
        serve_one_read t' _ (rw at_head) (rw at_head)
          (rw at_head (process_read_entry-done t' request handle x served refl holds inside))),
    rw (more, hit),
    reply-ReadResult id got,
    load_bytes-store_bytes (frame_bytes got) t.hvt.mem buf,
  )
    where
      room : ltb (sub32 t.ring.ent_tail t.ring.ent_head) (hvt_ring_size - 1) ≡ true
      room = ground (arith, idle, s.head)

      more : (t.ring.com_head == add32 t.ring.com_tail 1) ≡ false
      more = ground (arith, quiet, s.com_tail)

      hit : (bit_and t.ring.com_head hvt_ring_mask == bit_and t.ring.com_tail hvt_ring_mask) ≡ true
      hit = ground (arith, quiet)

      got : TapRead
      got = (taps.read t.net x.hostfd (size % 2 ^ 32)).1

      t' : NetTender Net
      t' = after_read t id handle buf size

      request : Entry
      request = read_request id handle buf size

      u : NetTender Net
      u = answered t' request x

      at_head : entry_at t'.ring t.ring.ent_head ≡ request
      at_head = ground (arith, idle)

      served : IsServable t'
      served = record {
        usable = s.usable;
        mem_size = s.mem_size;
        head = s.head;
        com_tail = s.com_tail;
      }
