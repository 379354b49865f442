-- ===== src/Examples/Receive.antt =====
-- A receive queue of four buffers around the end of the index, with two packets pending, as the one device of a table.
use solo.Base.{
  ℕ, zero, suc, ◌+◌, ◌-◌, ◌<◌, ◌≤◌, ◌≡◌, refl, sym, ap, subst, List, [], ◌∷◌, length, get_elem?,
  some, some_inj, true, ◌==◌, leb, if◌then◌else◌, done, arith,
}
use solo.CString.Compare.{IsTerminated}
use solo.Mft.{Mft, MftEntry, mft_dev_net_basic, mft_name_max}
use solo.Mft.Lookup.{Holds}
use solo.Hvt.{load_bytes}
use solo.Virtq.{Virtq}
use solo.VirtioNet.Receive.{RecvQueue, UsedReads, recv_setup, virtio_net_recv}
use solo.VirtioNet.Receive.Posted.{recv_desc, Posted}
use solo.VirtioNet.Receive.Given.{IsEmpty, AllPosted, recv_setup-AllPosted}
use solo.VirtioNet.Receive.Pending as Packets
use solo.VirtioNet.Receive.Pending.{IsPending}
use solo.VirtioNet.Receive.First.{Received}
use solo.VirtioNet.Receive.Received.{virtio_net_recv-Received, recv_times, recv_times-Holds}
use solo.VirtioNet.Devices.{
  yield_loop, virtio_net_pkt_poll, poll_from, virtio_to_handle_set, handles_from, VirtioNetDesc,
  NetTable, Cpu, virtio_config_network, solo5_net_read, solo5_yield,
}
use solo.VirtioNet.Devices.Sets.{AreHandles}
use solo.VirtioNet.Devices.Ready.{IsTicking, Yielded, solo5_yield-Yielded}
use solo.VirtioNet.Devices.Table.{Linked, Configured, virtio_config_network-Configured}
use solo.VirtioNet.Devices.Reading.{AllHold, Read, solo5_net_read-Read}
use solo.Examples.{first, disk, tap, sample, sample-IsUsable}

abbrev queue : Virtq
queue = record {
  num = 4;
  desc = λ q. recv_desc 0x10000 q;
  avail_idx = 2;
  avail_ring = λ q. q;
  bufs = λ q. record { contents = λ k. if q == 2 then k - 3 else 9; len = 1526; extra_flags = 2 };
  bufs_at = 0x10000;
  num_avail = 0;
  last_used = 65534;
  next_avail = 2;
  uses_event_idx = true;
  last_notified_idx = 0;
}

abbrev empty : Virtq
empty = record queue { avail_idx = 0; num_avail = 4; last_used = 0; next_avail = 0 }

empty-IsEmpty : IsEmpty empty
empty-IsEmpty = record {
  ok = record {
    exponent = 2;
    power = refl;
    max = omega arith;
    free = omega arith;
    avail_idx = omega arith;
    len = λ q. omega arith;
    extra_flags = λ q. (refl, omega arith);
  };
  all = refl;
  next_avail = refl;
  avail_idx = refl;
  last_used = refl;
}

recv_setup-AllPosted_example : (q' : Virtq) × (recv_setup 4 empty ≡ done q') × AllPosted empty q'
recv_setup-AllPosted_example = recv_setup-AllPosted 4 empty empty-IsEmpty (omega arith)

queue-Posted : Posted queue
queue-Posted = record {
  ok = record {
    exponent = 2;
    power = refl;
    max = omega arith;
    free = omega arith;
    avail_idx = omega arith;
    len = λ q. omega arith;
    extra_flags = λ q. (refl, omega arith);
  };
  last_used = omega arith;
  next_avail = refl;
  balance = refl;
  desc = λ j lt. refl;
  ring = λ j lt. refl;
}

abbrev packets : List (List ℕ)
packets = (7 ∷ 8 ∷ []) ∷ (9 ∷ []) ∷ []

abbrev reads : UsedReads
reads = record {
  idx_first = 65535;
  idx_seen = 0;
  idx_last = 0;
  ring = λ q. record { id = q; len = if q == 2 then 12 else 11 };
  avail_event = 0;
  flags = 0;
}

queue-IsPending :
    (j : ℕ) (packet : List ℕ)
    → get_elem? packets j ≡ some packet
    → IsPending queue reads.ring j packet
unfolding load_bytes
queue-IsPending zero packet e =
    subst (IsPending queue reads.ring 0) (some_inj e)
      (record { id = refl; len = refl; fits = omega arith; bytes = refl })
queue-IsPending (suc zero) packet e =
    subst (IsPending queue reads.ring 1) (some_inj e)
      (record { id = refl; len = refl; fits = omega arith; bytes = refl })
queue-IsPending (suc (suc j)) packet e = absurd (ground (arith, e))

queue-Holds : Packets.Holds queue reads.ring reads.idx_seen packets
queue-Holds = record {
  posted = queue-Posted;
  none_free = refl;
  idx = refl;
  few = omega arith;
  each = queue-IsPending;
}

abbrev receiver : RecvQueue
receiver = record { recvq = queue; avail_flags = 0; used_event = 0 }

virtio_net_recv-Received_example :
    Received receiver reads 1514 (virtio_net_recv receiver reads 1514) packets
virtio_net_recv-Received_example = virtio_net_recv-Received receiver reads 1514 packets queue-Holds

packets_fit : (j : ℕ) (packet : List ℕ) → get_elem? packets j ≡ some packet → length packet ≤ 1514
packets_fit zero packet e = ground (arith, some_inj e)
packets_fit (suc zero) packet e = ground (arith, some_inj e)
packets_fit (suc (suc j)) packet e = absurd (ground (arith, e))

recv_times-Holds_example :
    (nd' : RecvQueue) × (recv_times 3 receiver reads 1514 ≡ done (nd', packets))
    × Packets.Holds nd'.recvq reads.ring reads.idx_seen []
recv_times-Holds_example =
    recv_times-Holds 3 receiver reads 1514 packets queue-Holds packets_fit (omega arith)

abbrev device : VirtioNetDesc
device = record {
  xmitq = empty;
  recv = receiver;
  net_mac = 2 ∷ 0 ∷ 0 ∷ 0 ∷ 0 ∷ 1 ∷ [];
  mtu = 1500;
  handle = 2;
}

abbrev no_devices : NetTable
no_devices = record { nd_table = []; net_configured = true }

sample-Linked : Linked sample no_devices
sample-Linked = record {
  usable = sample-IsUsable;
  devices = λ k x (lt, at, type) on. absurd (detached k x at on);
  few = omega arith;
  handles = λ j nd e. absurd (ground (arith, e));
}
  where
    detached : (k : ℕ) (x : MftEntry) → get_elem? sample.e k ≡ some x → x.attached ≡ true → ⊥
    detached zero x at on = ground (arith, ap (λ (y : MftEntry). y.attached) (some_inj at), on)
    detached (suc zero) x at on =
        ground (arith, ap (λ (y : MftEntry). y.attached) (some_inj at), on)
    detached (suc (suc zero)) x at on =
        ground (arith, ap (λ (y : MftEntry). y.attached) (some_inj at), on)
    detached (suc (suc (suc k))) x at on = ground (arith, at)

virtio_config_network-Configured_example :
    Configured sample no_devices device 2 (virtio_config_network sample no_devices device 2)
virtio_config_network-Configured_example =
    virtio_config_network-Configured sample no_devices device 2 sample-Linked (omega arith)

-- The table with the device, and the manifest whose network entry is attached to it.
abbrev one_device : NetTable
one_device = record { nd_table = device ∷ []; net_configured = true }

abbrev wired_tap : MftEntry
wired_tap = record tap { hostfd = 0; attached = true }

abbrev wired : Mft
wired = record sample { e = first ∷ disk ∷ wired_tap ∷ [] }

of_wired :
    (P : MftEntry → Type 0)
    → P first
    → P disk
    → P wired_tap
    → (i : ℕ) (x : MftEntry) → get_elem? wired.e i ≡ some x
    → P x
of_wired P a b c zero x h = subst P (some_inj h) a
of_wired P a b c (suc zero) x h = subst P (some_inj h) b
of_wired P a b c (suc (suc zero)) x h = subst P (some_inj h) c
of_wired P a b c (suc (suc (suc i))) x h = absurd (ground (arith, h))

the_device : (i : ℕ) (nd : VirtioNetDesc) → get_elem? one_device.nd_table i ≡ some nd → device ≡ nd
the_device zero nd e = some_inj e
the_device (suc i) nd e = absurd (ground (arith, e))

wired-Linked : Linked wired one_device
wired-Linked = record {
  usable = record {
    fits = omega arith;
    few = omega arith;
    named = λ k x _ h. of_wired (λ y. IsTerminated mft_name_max y.name) tt tt tt k x h;
  };
  devices = devices;
  few = omega arith;
  handles = handles;
}
  where
    handles : AreHandles one_device.nd_table
    handles j nd e = subst (λ (d : VirtioNetDesc). d.handle < 64) (the_device j nd e) (omega arith)

    devices :
        (k : ℕ) (x : MftEntry)
        → Holds wired k mft_dev_net_basic x
        → x.attached ≡ true
        → (nd : VirtioNetDesc) × (get_elem? one_device.nd_table x.hostfd ≡ some nd)
          × (nd.handle ≡ k)
    devices zero x (lt, at, type) on =
        absurd (ground (arith, ap (λ (y : MftEntry). y.attached) (some_inj at), on))
    devices (suc zero) x (lt, at, type) on =
        absurd (ground (arith, ap (λ (y : MftEntry). y.attached) (some_inj at), on))
    devices (suc (suc zero)) x (lt, at, type) on = (
      device,
      ap (λ (y : MftEntry). get_elem? one_device.nd_table y.hostfd) (sym (some_inj at)),
      refl,
    )
    devices (suc (suc (suc k))) x (lt, at, type) on = absurd (ground (arith, at))

one_device-AllHold : AllHold one_device (λ i. reads) (λ i. packets)
one_device-AllHold i nd e =
    subst (λ (d : VirtioNetDesc). Packets.Holds d.recv.recvq reads.ring reads.idx_seen packets)
      (the_device i nd e) queue-Holds

solo5_net_read-Read_example :
    Read wired one_device
      (λ i. reads)
      (λ i. packets)
      2
      1514
      (solo5_net_read wired one_device (λ i. reads) 2 1514)
solo5_net_read-Read_example =
    solo5_net_read-Read wired one_device (λ i. reads) (λ i. packets) 2 1514 wired-Linked
      one_device-AllHold

-- A world that is its time: the device has a packet from the time 7 on.
abbrev arriving : Cpu ℕ
arriving = record {
  used_idx = λ w i. if leb 7 w then 65535 else 65534;
  solo5_clock_monotonic = λ w. (w, w);
  cpu_block = λ w deadline. w + 3;
}

arriving-IsTicking : IsTicking arriving (λ w. w)
arriving-IsTicking = record { reads = λ w. refl; runs = λ w deadline. omega arith }

solo5_yield-Yielded_example :
    (w' : ℕ) × (ready_set : ℕ) × (solo5_yield arriving 10 one_device 9 0 ≡ done (w', ready_set))
    × Yielded arriving (λ w. w) one_device 9 w' ready_set
solo5_yield-Yielded_example =
    solo5_yield-Yielded arriving (λ w. w) arriving-IsTicking one_device (omega arith) 10 9 0
      wired-Linked.handles (omega arith)

-- The device wakes the application at the time 9, with the handle 2.
yield_test : solo5_yield arriving 10 one_device 20 0 ≡ done (9, 4)
unfolding solo5_yield yield_loop virtio_net_pkt_poll poll_from virtio_to_handle_set handles_from
yield_test = refl
