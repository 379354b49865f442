-- ===== src/NetGuest.antt =====
-- bindings/hvt/net.c: the guest's side of the network ring. The guest's memory and the ring are those
-- of the tender's state; `write_bufs` is the address of the static buffers, and `ring_req_id` is passed
-- along. A wait (`cpu_relax` in a loop) is a result of its own: the guest tries again.
pub mod Flow
pub mod Delivery
use solo.Base.{
  ℕ, ◌+◌, ◌-◌, ◌*◌, ◌^◌, ◌%◌, Bool, ◌==◌, ◌!=◌, ltb, leb, if◌then◌else◌, List, length, Option, none,
  some, Run, done, ◌>>=◌, ◌>>◌, c_assert, bit_and,
}
use solo.Hvt.{Memory, load_bytes, store_bytes}
use solo.Ring.{
  Entry, Commit, Ring, NetTender, add32, hvt_ring_size, hvt_ring_mask, hvt_ring_net_write,
  hvt_ring_net_read,
}

abbrev pub hvt_ring_buf_size : ℕ
hvt_ring_buf_size = 2048

-- `uint32_t` subtraction
abbrev pub sub32 : ℕ → ℕ → ℕ
sub32 a b = (a + 2 ^ 32 - b) % 2 ^ 32

-- The store of an entry into its slot.
abbrev pub put_entry : Ring → Entry → (ℕ → Entry)
put_entry r e k = if k == bit_and r.ent_tail hvt_ring_mask then e else r.entries k

-- `ring_submit`; the result says whether the tender is kicked.
unfoldable pub ring_submit : Ring → Ring × Bool
ring_submit r = (record r { ent_tail = add32 r.ent_tail 1 }, r.needs_kick != 0)

pub data NetWrite (N : Type 0) : Type 0 where
  waits : NetWrite N
  hypercall : NetWrite N
  submitted : NetTender N → ℕ → Bool → NetWrite N

-- The slot's buffer, `write_bufs[idx]`.
abbrev pub slot_buffer : ℕ → Ring → ℕ
slot_buffer write_bufs r = write_bufs + bit_and r.ent_tail hvt_ring_mask * hvt_ring_buf_size

abbrev pub write_request : ℕ → Ring → ℕ → ℕ → List ℕ → Entry
write_request write_bufs r ring_req_id handle buf = record {
  operation = hvt_ring_net_write;
  handle = handle % 2 ^ 32;
  address = slot_buffer write_bufs r;
  len = length buf;
  id = ring_req_id;
}

-- The state after the copy into the buffer, the fill of the entry and `ring_submit`.
abbrev pub after_write : {N : Type 0} → ℕ → NetTender N → ℕ → ℕ → List ℕ → NetTender N
after_write write_bufs t ring_req_id handle buf =
    let r = t.ring in
    let filled = record r {
      entries = put_entry r (write_request write_bufs r ring_req_id handle buf);
    } in
    record t {
      hvt = record (t.hvt) { mem = store_bytes t.hvt.mem (slot_buffer write_bufs r) buf };
      ring = (ring_submit filled).0;
    }

-- `solo5_net_write` on the ring, from one test of the flow control on; `buf` holds `size` bytes.
unfoldable pub solo5_net_write : {N : Type 0} → ℕ → NetTender N → ℕ → ℕ → List ℕ → NetWrite N
solo5_net_write write_bufs t ring_req_id handle buf =
    if leb (hvt_ring_size - 1) (sub32 t.ring.ent_tail t.ring.ent_head)
    then waits
    else if ltb hvt_ring_buf_size (length buf)
    then hypercall
    else submitted (after_write write_bufs t ring_req_id handle buf) (add32 ring_req_id 1)
        (ring_submit t.ring).1

abbrev pub read_request : ℕ → ℕ → ℕ → ℕ → Entry
read_request ring_req_id handle buf size = record {
  operation = hvt_ring_net_read;
  handle = handle % 2 ^ 32;
  address = buf;
  len = size % 2 ^ 32;
  id = ring_req_id;
}

-- The state after the fill of the entry and `ring_submit`.
abbrev pub after_read : {N : Type 0} → NetTender N → ℕ → ℕ → ℕ → ℕ → NetTender N
after_read t ring_req_id handle buf size =
    let r = t.ring in
    let filled = record r { entries = put_entry r (read_request ring_req_id handle buf size) } in
    record t { ring = (ring_submit filled).0 }

-- `solo5_net_read` on the ring, up to the submission: the new state, the next id and the kick.
pub net_read_submit : {N : Type 0} → NetTender N → ℕ → ℕ → ℕ → ℕ → Run (NetTender N × ℕ × Bool)
net_read_submit t ring_req_id handle buf size =
    c_assert (ltb (sub32 t.ring.ent_tail t.ring.ent_head) (hvt_ring_size - 1))
    >> done (after_read t ring_req_id handle buf size, add32 ring_req_id 1, (ring_submit t.ring).1)

-- The rest of `solo5_net_read`: `none` while no commit is there, and then the state, the result and
-- the size read.
unfoldable pub net_read_finish : {N : Type 0} → NetTender N → Option (NetTender N × ℕ × ℕ)
net_read_finish t =
    let r = t.ring in
    let commit = r.commits (bit_and r.com_head hvt_ring_mask) in
    if r.com_head == r.com_tail
    then none
    else some
        (record t { ring = record r { com_head = add32 r.com_head 1 } }, commit.ret, commit.len)
