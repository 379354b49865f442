-- ===== src/VirtioNet/Devices.antt =====
-- bindings/virtio/virtio_net.c: the table of network devices and the calls of the application. The table lists the configured
-- devices, so that `nd_num_entries` is its length. What the devices have put into `used->idx`, the clock
-- and `cpu_block` are the interface Cpu of the world; the loop of `solo5_yield` is recursion on fuel.
pub mod Sets
pub mod Ready
pub mod Table
pub mod Reading
use solo.Base.{
  ℕ, zero, suc, ◌+◌, ◌-◌, ◌*◌, ◌/◌, ◌%◌, ◌^◌, Bool, true, false, ◌==◌, ◌!=◌, ltb, leb,
  if◌then◌else◌, List, [], ◌∷◌, ◌++◌, length, get_elem?, set, Option, none, some, Run, done, faults,
  out_of_fuel, ◌>>=◌, ◌>>◌, read_at, c_assert, bit_and, bit_or,
}
use solo.Mft.{Mft, MftEntry, mft_get_by_index, mft_get_by_name, mft_dev_net_basic, mft_max_entries}
use solo.Block.{solo5_r_ok, solo5_r_einval}
use solo.Virtq.{Virtq}
use solo.VirtioNet.{virtio_net_xmit_packet}
use solo.VirtioNet.Receive.{RecvQueue, UsedReads, virtio_net_recv}

abbrev pub solo5_r_again : ℕ
solo5_r_again = 1

-- `struct virtio_net_desc`, without the port's address.
pub record VirtioNetDesc : Type 0 where
  pub xmitq : Virtq
  pub recv : RecvQueue
  pub net_mac : List ℕ
  pub mtu : ℕ
  pub handle : ℕ

pub record NetTable : Type 0 where
  pub nd_table : List VirtioNetDesc
  pub net_configured : Bool

-- The loop of `virtio_net_pkt_poll` from the device `idx` on, for the indices that the devices show.
unfoldable pub poll_from : List VirtioNetDesc → (ℕ → ℕ) → ℕ → ℕ → ℕ
poll_from [] used_idx idx ready_set = ready_set
poll_from (nd ∷ nds) used_idx idx ready_set =
    poll_from nds used_idx (idx + 1)
      (if nd.recv.recvq.last_used != used_idx idx then bit_or ready_set (2 ^ idx) else ready_set)

unfoldable pub virtio_net_pkt_poll : NetTable → (ℕ → ℕ) → Run ℕ
virtio_net_pkt_poll t used_idx =
    if t.net_configured
    then (c_assert (ltb (length t.nd_table) mft_max_entries)
        >> done (poll_from t.nd_table used_idx 0 0))
    else done 0

-- The loop of `virtio_to_handle_set`. A shift by the word's width or more is undefined.
unfoldable pub handles_from : List VirtioNetDesc → ℕ → ℕ → ℕ → Run ℕ
handles_from [] virtio_set idx handle_set = done handle_set
handles_from (nd ∷ nds) virtio_set idx handle_set =
    let skipped = handles_from nds virtio_set (idx + 1) handle_set in
    let taken = handles_from nds virtio_set (idx + 1) (bit_or handle_set (2 ^ nd.handle)) in
    if bit_and virtio_set (2 ^ idx) != 0
    then if leb 64 nd.handle then faults else taken
    else skipped

unfoldable pub virtio_to_handle_set : NetTable → ℕ → Run ℕ
virtio_to_handle_set t virtio_set =
    c_assert (ltb (length t.nd_table) mft_max_entries) >> handles_from t.nd_table virtio_set 0 0

-- The world: `used->idx` of each device's receive queue, the time, and what changes them.
pub record Cpu (W : Type 0) : Type 0 where
  pub used_idx : W → ℕ → ℕ
  pub solo5_clock_monotonic : W → W × ℕ
  pub cpu_block : W → ℕ → W

module _ {W : Type 0} (cpu : Cpu W) where
  open cpu use {used_idx, solo5_clock_monotonic, cpu_block}

  -- The loop of `solo5_yield`.
  unfoldable pub yield_loop : ℕ → NetTable → ℕ → W → Run (W × ℕ)
  yield_loop zero t deadline w = out_of_fuel
  yield_loop (suc f) t deadline w = virtio_net_pkt_poll t (used_idx w) >>= λ virtio_set.
      let (w', now) = solo5_clock_monotonic (cpu_block w deadline) in
      let rest = yield_loop f t deadline w' in
      if virtio_set != 0
      then done (w, virtio_set)
      else if ltb now deadline
      then rest
      else done (w', 0)

  -- The result is the set that the caller gets.
  unfoldable pub solo5_yield : ℕ → NetTable → ℕ → W → Run (W × ℕ)
  solo5_yield fuel t deadline w = yield_loop fuel t deadline w >>= λ r.
      let (w', seen) = r in
      (if seen == 0 then virtio_net_pkt_poll t (used_idx w') else done seen) >>= λ virtio_set.
      (if virtio_set != 0 then virtio_to_handle_set t virtio_set else done 0) >>= λ ready_set.
      done (w', ready_set)

-- `virtio_config_network`, with the descriptor that `virtio_net_config` fills in; `none` is the result -1.
unfoldable pub virtio_config_network :
    Mft → NetTable → VirtioNetDesc → ℕ → Run (Option (Mft × NetTable))
virtio_config_network m t nd mft_index =
    let nd_index = length t.nd_table in
    if leb mft_max_entries nd_index
    then done none
    else (mft_get_by_index m mft_index mft_dev_net_basic >>= λ e. elim e [
      | none ↦ done none
      | some x ↦
          let x' = record x {
            net_basic = record { mac = nd.net_mac; mtu = nd.mtu };
            hostfd = nd_index;
            attached = true;
          } in
          let m' = record m { e = set m.e (mft_index % 2 ^ 32) x' } in
          let nds = t.nd_table ++ (record nd { handle = mft_index } ∷ []) in
          done (some (m', record t { nd_table = nds; net_configured = true }))
    ])

pub record NetInfo : Type 0 where
  pub mac_address : List ℕ
  pub mtu : ℕ

pub data Acquired : Type 0 where
  unconfigured : Acquired
  unknown : Acquired
  acquired : ℕ → NetInfo → Acquired

-- SOLO5_R_EUNSPEC, SOLO5_R_EINVAL, or the handle and the device's description.
unfoldable pub solo5_net_acquire : Mft → NetTable → List ℕ → Run Acquired
solo5_net_acquire m t name =
    if t.net_configured
    then (mft_get_by_name m name mft_dev_net_basic >>= λ r. elim r [
      | none ↦ done unknown
      | some (mft_index, e) ↦
          let info : NetInfo = record { mac_address = e.net_basic.mac; mtu = e.net_basic.mtu } in
          done (acquired mft_index info)
    ])
    else done unconfigured

-- The device of a handle: `none` for a handle that is not a network device's, and otherwise `hostfd` and the descriptor.
unfoldable pub device_of : Mft → NetTable → ℕ → Run (Option (ℕ × VirtioNetDesc))
device_of m t h = mft_get_by_index m h mft_dev_net_basic >>= λ r. elim r [
  | none ↦ done none
  | some e ↦
      c_assert e.attached
      >> (c_assert (ltb e.hostfd mft_max_entries)
          >> (read_at (get_elem? t.nd_table e.hostfd) >>= λ nd. done (some (e.hostfd, nd))))
]

abbrev pub put_device : NetTable → ℕ → VirtioNetDesc → NetTable
put_device t i nd = record t { nd_table = set t.nd_table i nd }

-- The table, the result, and the bytes that `buf` and `*read_size` show. `dev` is what the device's rings show.
unfoldable pub solo5_net_read :
    Mft → NetTable → (ℕ → UsedReads) → ℕ → ℕ → Run (NetTable × ℕ × List ℕ)
solo5_net_read m t dev h size = device_of m t h >>= λ r. elim r [
  | none ↦ done (t, solo5_r_einval, [])
  | some (i, nd) ↦ virtio_net_recv nd.recv (dev i) size >>= λ q.
      let (recv, o) = q in
      let t' = put_device t i (record nd { recv = recv }) in
      elim o [
        | none ↦ done (t', solo5_r_again, [])
        | some (packet, _) ↦ done (t', solo5_r_ok, packet)
      ]
]

-- `virtio_net_xmit_packet` always returns 0.
unfoldable pub solo5_net_write :
    ℕ → ℕ → ℕ → ℕ → ℕ → Mft → NetTable → ℕ → List ℕ → Run (NetTable × ℕ)
solo5_net_write fuel used used_later avail_event used_flags m t h buf = device_of m t h >>= λ r.
    elim r [
      | none ↦ done (t, solo5_r_einval)
      | some (i, nd) ↦
          virtio_net_xmit_packet fuel used used_later avail_event used_flags nd.xmitq buf >>= λ q.
          done (put_device t i (record nd { xmitq = q.0 }), solo5_r_ok)
    ]
