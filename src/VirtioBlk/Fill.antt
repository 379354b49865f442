-- ===== src/VirtioBlk/Fill.antt =====
-- bindings/virtio/virtio_blk.c: the three buffers of a request.
use solo.Base.{
  ℕ, ◌+◌, ◌*◌, ◌%◌, ◌^◌, ◌≤◌, ◌<◌, ◌≡◌, ◌≢◌, refl, sym, ap, ◌∙◌, subst, Bool, true, ◌==◌,
  if◌then◌else◌, List, length, bit_and, arith,
}
use solo.Hvt.{Memory, load_bytes, store_bytes, store32, store64, le_bytes}
use solo.Hvt.Memory.{load_bytes-store_bytes}
use solo.Virtq.{Virtq, IoBuffer, put_buf, add16, sub16, mask_of, sizeof_io_buffer}
use solo.Virtq.Written.{put_buf_at, put_buf_other, IsQueue, masked, slot, first_slot, next_slot}
use solo.Virtq.Chain.{slots_differ}
use solo.VirtioNet.Receive.{virtq_desc_f_write}
use solo.VirtioNet.Receive.Posted.{wraps, put_buf-IsQueue}
use solo.VirtioBlk.{
  virtio_blk_t_out, virtio_blk_sector_size, sizeof_virtio_blk_hdr, put_header, fill_request,
}

-- A queue without a request: all descriptors are free, and the driver has seen the end of every chain.
pub record Idle (q : Virtq) : Type 0 where
  pub ok : IsQueue q
  pub three : 3 ≤ q.num
  pub free : q.num_avail ≡ q.num
  pub seen : q.last_used ≡ q.avail_idx

-- A read or a write of the bytes `buf`, or of `len` bytes.
pub record Transfer : Type 0 where
  pub type : ℕ
  pub sector : ℕ
  pub buf : List ℕ
  pub len : ℕ

-- The flag of the data buffer: the device writes to it on a read.
abbrev pub data_flags : ℕ → ℕ
data_flags type = if type == virtio_blk_t_out then 0 else virtq_desc_f_write

abbrev pub buffer_addr : Virtq → ℕ → ℕ
buffer_addr q i = q.bufs_at + i * sizeof_io_buffer

-- One chain of three is before the device: a header that it reads, the data, and a byte for the status.
pub record Asked (q : Virtq) (head : ℕ) (r : Transfer) : Type 0 where
  pub listed : q.avail_ring (sub16 q.avail_idx 1 % q.num) ≡ head
  pub header_desc : q.desc head ≡ record {
    addr = buffer_addr q head;
    len = sizeof_virtio_blk_hdr;
    flags = 1;
    next = slot q head 1;
  }
  pub data_desc : q.desc (slot q head 1) ≡ record {
    addr = buffer_addr q (slot q head 1);
    len = r.len;
    flags = data_flags r.type + 1;
    next = slot q head 2;
  }
  pub status_desc : q.desc (slot q head 2) ≡ record {
    addr = buffer_addr q (slot q head 2);
    len = 1;
    flags = virtq_desc_f_write;
    next = 0;
  }
  pub header :
      load_bytes (q.bufs head).contents 0 sizeof_virtio_blk_hdr
      ≡ load_bytes (put_header (λ k. 0) r.type r.sector) 0 sizeof_virtio_blk_hdr
  pub bytes :
      r.type ≡ virtio_blk_t_out
      → load_bytes (q.bufs (slot q head 1)).contents 0 (length r.buf) ≡ r.buf

-- The queue while the request is with the device.
pub record Busy (before q : Virtq) (head : ℕ) : Type 0 where
  pub ok : IsQueue q
  pub num : q.num ≡ before.num
  pub num_avail : q.num_avail + 3 ≡ q.num
  pub last_used : q.last_used ≡ before.avail_idx
  pub avail_idx : q.avail_idx ≡ (before.avail_idx + 1) % 2 ^ 16
  pub in_queue : head < q.num

pub same_header :
    (m : Memory) (type sector : ℕ)
    → load_bytes (put_header m type sector) 0 sizeof_virtio_blk_hdr
      ≡ load_bytes (put_header (λ k. 0) type sector) 0 sizeof_virtio_blk_hdr
unfolding load_bytes store64 store32 store_bytes le_bytes
same_header m type sector = refl

-- The three buffers of a request, in three different places.
pub record Filled (q filled : Virtq) (head : ℕ) (r : Transfer) : Type 0 where
  pub is : filled ≡ fill_request q head r.type r.sector r.buf r.len
  pub header : (filled.bufs head).contents ≡ put_header (q.bufs head).contents r.type r.sector
  pub header_len : (filled.bufs head).len ≡ sizeof_virtio_blk_hdr
  pub header_flags : (filled.bufs head).extra_flags ≡ 0
  pub buf_len : (filled.bufs (slot filled head 1)).len ≡ r.len
  pub buf_flags : (filled.bufs (slot filled head 1)).extra_flags ≡ data_flags r.type
  pub bytes :
      r.type ≡ virtio_blk_t_out
      → load_bytes (filled.bufs (slot filled head 1)).contents 0 (length r.buf) ≡ r.buf
  pub status_len : (filled.bufs (slot filled head 2)).len ≡ 1
  pub status_flags : (filled.bufs (slot filled head 2)).extra_flags ≡ virtq_desc_f_write
  pub ok : IsQueue filled

pub fill_request-Filled :
    (q : Virtq) (head : ℕ) (r : Transfer)
    → Idle q
    → head < q.num
    → r.len ≤ virtio_blk_sector_size
    → Filled q (fill_request q head r.type r.sector r.buf r.len) head r
unfolding fill_request
fill_request-Filled q head r idle in_queue short = record {
  is = refl;
  header = ap (λ (b : IoBuffer). b.contents) at_header;
  header_len = ap (λ (b : IoBuffer). b.len) at_header;
  header_flags = ap (λ (b : IoBuffer). b.extra_flags) at_header;
  buf_len = ap (λ (b : IoBuffer). b.len) at_data;
  buf_flags = ap (λ (b : IoBuffer). b.extra_flags) at_data;
  bytes =
      λ write. ap (λ (b : IoBuffer). load_bytes b.contents 0 (length r.buf)) at_data ∙ stored write;
  status_len = ap (λ (b : IoBuffer). b.len) at_status;
  status_flags = ap (λ (b : IoBuffer). b.extra_flags) at_status;
  ok =
      put_buf-IsQueue q2 third status_buf
        (put_buf-IsQueue q1 second data_buf
          (put_buf-IsQueue q head header_buf idle.ok (omega arith) (refl, omega arith))
          (omega (arith, short)) even)
        (omega arith) (refl, omega arith);
}
  where
    second : ℕ
    second = bit_and (add16 head 1) (mask_of q)

    third : ℕ
    third = bit_and (add16 head 2) (mask_of q)

    second_is : second ≡ slot q head 1
    second_is = next_slot q head idle.ok in_queue

    third_is : third ≡ slot q head 2
    third_is = masked q (add16 head 2) idle.ok ∙ wraps q (head + 2) idle.ok

    differ : (i j : ℕ) → i < j → j < 3 → slot q head i ≢ slot q head j
    differ i j lt small = slots_differ q head i j lt (omega (arith, small, idle.three))

    header_buf : IoBuffer
    header_buf = record {
      contents = put_header (q.bufs head).contents r.type r.sector;
      len = sizeof_virtio_blk_hdr;
      extra_flags = 0;
    }

    q1 : Virtq
    q1 = put_buf q head header_buf

    data_buf : IoBuffer
    data_buf = record {
      contents =
          if r.type == virtio_blk_t_out
          then store_bytes (q1.bufs second).contents 0 r.buf
          else (q1.bufs second).contents;
      len = r.len;
      extra_flags = data_flags r.type;
    }

    q2 : Virtq
    q2 = put_buf q1 second data_buf

    status_buf : IoBuffer
    status_buf = record (q2.bufs third) { len = 1; extra_flags = virtq_desc_f_write }

    filled : Virtq
    filled = put_buf q2 third status_buf

    head_second : head ≢ second
    head_second e =
        differ 0 1 (omega arith) (omega arith) (first_slot q head in_queue ∙ e ∙ second_is)

    head_third : head ≢ third
    head_third e =
        differ 0 2 (omega arith) (omega arith) (first_slot q head in_queue ∙ e ∙ third_is)

    second_third : second ≢ third
    second_third e = differ 1 2 (omega arith) (omega arith) (sym second_is ∙ e ∙ third_is)

    at_header : filled.bufs head ≡ header_buf
    at_header =
        put_buf_other q2 third head status_buf head_third
        ∙ put_buf_other q1 second head data_buf head_second
        ∙ put_buf_at q head header_buf

    at_data : filled.bufs (slot q head 1) ≡ data_buf
    at_data =
        subst (λ (t : ℕ). filled.bufs t ≡ data_buf) second_is
          (put_buf_other q2 third second status_buf second_third ∙ put_buf_at q1 second data_buf)

    at_status : filled.bufs (slot q head 2) ≡ status_buf
    at_status =
        subst (λ (t : ℕ). filled.bufs t ≡ status_buf) third_is (put_buf_at q2 third status_buf)

    even : (data_flags r.type % 2 ≡ 0) × (data_flags r.type < 2 ^ 16)
    even = ground arith

    is_write : r.type ≡ virtio_blk_t_out → (r.type == virtio_blk_t_out) ≡ true
    is_write write = ground (arith, write)

    stored : r.type ≡ virtio_blk_t_out → load_bytes data_buf.contents 0 (length r.buf) ≡ r.buf
    stored write =
        ap
          (λ (t : Bool).
            load_bytes
              (if t
                then store_bytes (q1.bufs second).contents 0 r.buf
                else (q1.bufs second).contents)
              0 (length r.buf))
          (is_write write)
        ∙ load_bytes-store_bytes r.buf (q1.bufs second).contents 0
