-- ===== src/VirtioNet.antt =====
-- bindings/virtio/virtio_net.c: the transmit path of the network driver; Receive has the receive path. The device's `used->idx` is read as the
-- argument `used` up to the first test for a full queue, and as `used_later` when the driver has waited for the device.
-- A loop that consumes used descriptors is recursion on fuel.
pub mod Balanced
pub mod Transmit
pub mod Receive
pub mod Devices
use solo.Base.{
  ℕ, zero, suc, ◌+◌, ◌-◌, ◌%◌, ◌^◌, Bool, ◌==◌, ltb, leb, if◌then◌else◌, List, length, Run, done,
  out_of_fuel, ◌>>=◌, ◌>>◌, c_assert, bit_and,
}
use solo.Hvt.{store_bytes}
use solo.Virtq.{
  put_buf, Virtq, IoBuffer, add16, mask_of, virtq_add_descriptor_chain, virtq_notify_needed,
}

abbrev pub pkt_buffer_len : ℕ
pkt_buffer_len = 1526

abbrev pub sizeof_virtio_net_hdr : ℕ
sizeof_virtio_net_hdr = 10

-- The loop that consumes used descriptors, two for each chain.
unfoldable pub reclaim : ℕ → ℕ → Virtq → Run Virtq
reclaim zero used xmitq = out_of_fuel
reclaim (suc f) used xmitq =
    let rest =
      reclaim f used (record xmitq {
        last_used = add16 xmitq.last_used 1;
        num_avail = add16 xmitq.num_avail 2;
      }) in
    if xmitq.last_used == used then done xmitq else rest

-- The header buffer and the data buffer.
unfoldable pub fill_packet : Virtq → ℕ → List ℕ → Virtq
fill_packet xmitq head packet =
    let second = bit_and (add16 head 1) (mask_of xmitq) in
    let with_header = put_buf xmitq head (record {
      contents = λ k. if ltb k sizeof_virtio_net_hdr then 0 else (xmitq.bufs head).contents k;
      len = sizeof_virtio_net_hdr;
      extra_flags = 0;
    }) in
    put_buf with_header second (record {
      contents = store_bytes (with_header.bufs second).contents 0 packet;
      len = length packet;
      extra_flags = 0;
    })

-- `virtio_net_xmit_packet`, with whether it has notified the device because the queue was full, to wait for it, and
-- whether it does so in the end.
unfoldable pub virtio_net_xmit_packet :
    ℕ → ℕ → ℕ → ℕ → ℕ → Virtq → List ℕ → Run (Virtq × Bool × Bool)
virtio_net_xmit_packet fuel used used_later avail_event used_flags xmitq packet =
    reclaim fuel used xmitq >>= λ q.
    let full = ltb q.num_avail 2 in
    (if full then reclaim fuel used_later q else done q) >>= λ q.
    let head = bit_and q.next_avail (mask_of q) in
    c_assert (leb (length packet) pkt_buffer_len)
    >> (virtq_add_descriptor_chain (fill_packet q head packet) head 2 >>= λ r.
        let n = virtq_notify_needed avail_event used_flags r.0 in done (n.0, full, n.1))
