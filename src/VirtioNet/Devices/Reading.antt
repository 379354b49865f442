-- ===== src/VirtioNet/Devices/Reading.antt =====
-- bindings/virtio/virtio_net.c: `solo5_net_read` on a table of devices with pending packets.
use native.Mathlib.Decide.{ℕ_discrete}
use solo.Base.{
  ℕ, ◌%◌, ◌^◌, ◌<◌, ◌≡◌, ◌≢◌, ◌⊎◌, inl, inr, refl, sym, ap, ◌∙◌, subst, false, ◌==◌, if◌then◌else◌,
  List, [], ◌∷◌, length, length-set, get_elem?, set, get_elem?-lt, get_elem?-set_self,
  get_elem?-set_ne, some, some_inj, Run, done, aborts, arith,
}
use solo.Mft.{Mft, MftEntry, mft_dev_net_basic}
use solo.Mft.Lookup.{Holds}
use solo.Block.{solo5_r_ok, solo5_r_einval}
use solo.Virtq.{Virtq}
use solo.VirtioNet.Receive.{UsedReads, virtio_net_recv}
use solo.VirtioNet.Receive.Pending as Packets
use solo.VirtioNet.Receive.First.{Received, none_pending, too_long, received}
use solo.VirtioNet.Receive.Received.{virtio_net_recv-Received}
use solo.VirtioNet.Devices.{
  VirtioNetDesc, NetTable, device_of, put_device, solo5_net_read, solo5_r_again,
}
use solo.VirtioNet.Devices.Table.{Linked, no_device, detached, device, device_of-Looked}

-- Each device of the table holds its packets.
abbrev pub AllHold : NetTable → (ℕ → UsedReads) → (ℕ → List (List ℕ)) → Type 0
AllHold t dev pending =
    (i : ℕ) (nd : VirtioNetDesc)
    → get_elem? t.nd_table i ≡ some nd
    → Packets.Holds nd.recv.recvq (dev i).ring (dev i).idx_seen (pending i)

-- The device at `i` has been replaced.
put_cases :
    (t : NetTable) (i : ℕ) (nd : VirtioNetDesc) (j : ℕ) (d : VirtioNetDesc)
    → get_elem? (put_device t i nd).nd_table j ≡ some d
    → ((j ≡ i) × (d ≡ nd)) ⊎ ((j ≢ i) × (get_elem? t.nd_table j ≡ some d))
put_cases t i nd j d e = elim (ℕ_discrete i j) [
  | yes same ↦ inl (
    sym same,
    some_inj (
        sym e
        ∙ ap (get_elem? (put_device t i nd).nd_table) (sym same)
        ∙ get_elem?-set_self t.nd_table i nd (
            omega
              (arith, same, get_elem?-lt (set t.nd_table i nd) j d e, length-set t.nd_table i nd))),
  )
  | no other ↦ inr ((λ p. other (sym p)), sym (get_elem?-set_ne t.nd_table i j nd other) ∙ e)
]

put_device-Linked :
    (m : Mft) (t : NetTable) (i : ℕ) (nd nd' : VirtioNetDesc)
    → Linked m t
    → get_elem? t.nd_table i ≡ some nd
    → nd'.handle ≡ nd.handle
    → Linked m (put_device t i nd')
put_device-Linked m t i nd nd' l at same = record {
  usable = l.usable;
  devices = λ k x h on.
      let (d, found, handle) = l.devices k x h on in
      elim (ℕ_discrete i x.hostfd) [
        | yes here ↦ (
          nd',
          ap (get_elem? (set t.nd_table i nd')) (sym here)
              ∙ get_elem?-set_self t.nd_table i nd' (get_elem?-lt t.nd_table i nd at),
          same
              ∙ ap (λ (z : VirtioNetDesc). z.handle)
                  (some_inj (sym at ∙ ap (get_elem? t.nd_table) here ∙ found))
              ∙ handle,
        )
        | no other ↦ (d, get_elem?-set_ne t.nd_table i x.hostfd nd' other ∙ found, handle)
      ];
  few = omega (arith, length-set t.nd_table i nd', l.few);
  handles = λ j d e. elim (put_cases t i nd' j d e) [
    | inl (here, is) ↦
        subst (λ (z : VirtioNetDesc). z.handle < 64) (sym is)
          (omega (arith, same, l.handles i nd at))
    | inr (other, old) ↦ l.handles j d old
  ];
}

-- The first packet of the device `i` is gone.
abbrev pub without_first : (ℕ → List (List ℕ)) → ℕ → List (List ℕ) → (ℕ → List (List ℕ))
without_first pending i packets j = if j == i then packets else pending j

put_device-AllHold :
    (t : NetTable) (dev : ℕ → UsedReads) (pending : ℕ → List (List ℕ)) (i : ℕ) (nd' : VirtioNetDesc)
    (packets : List (List ℕ))
    → AllHold t dev pending
    → Packets.Holds nd'.recv.recvq (dev i).ring (dev i).idx_seen packets
    → AllHold (put_device t i nd') dev (without_first pending i packets)
put_device-AllHold t dev pending i nd' packets all h j d e = elim (put_cases t i nd' j d e) [
  | inl (here, is) ↦
      subst
        (λ (z : VirtioNetDesc).
          Packets.Holds z.recv.recvq (dev j).ring (dev j).idx_seen
            (without_first pending i packets j))
        (sym is)
        (subst
          (λ (n : ℕ).
            Packets.Holds nd'.recv.recvq (dev n).ring (dev n).idx_seen
              (without_first pending i packets n))
          (sym here)
          (subst (Packets.Holds nd'.recv.recvq (dev i).ring (dev i).idx_seen) (sym at_same) h))
  | inr (other, old) ↦
      subst (Packets.Holds d.recv.recvq (dev j).ring (dev j).idx_seen) (sym (at_other other))
        (all j d old)
]
  where
    at_same : without_first pending i packets i ≡ packets
    at_same = ground arith

    at_other : j ≢ i → without_first pending i packets j ≡ pending j
    at_other other = ground (arith, other)

put_same-AllHold :
    (t : NetTable) (dev : ℕ → UsedReads) (pending : ℕ → List (List ℕ)) (i : ℕ)
    (nd nd' : VirtioNetDesc)
    → get_elem? t.nd_table i ≡ some nd
    → nd'.recv.recvq ≡ nd.recv.recvq
    → AllHold t dev pending
    → AllHold (put_device t i nd') dev pending
put_same-AllHold t dev pending i nd nd' at same all j d e = elim (put_cases t i nd' j d e) [
  | inl (here, is) ↦
      subst (λ (q : Virtq). Packets.Holds q (dev j).ring (dev j).idx_seen (pending j))
        (sym same ∙ ap (λ (z : VirtioNetDesc). z.recv.recvq) (sym is))
        (all j nd (ap (get_elem? t.nd_table) here ∙ at))
  | inr (other, old) ↦ all j d old
]

-- How a read of the handle `h` ends.
pub data Read (m : Mft) (t : NetTable) (dev : ℕ → UsedReads) (pending : ℕ → List (List ℕ))
    (h size : ℕ) (r : Run (NetTable × ℕ × List ℕ)) : Type 0 where
  invalid :
      ((x : MftEntry) → ¬ Holds m (h % 2 ^ 32) mft_dev_net_basic x)
      → r ≡ done (t, solo5_r_einval, [])
      → Read m t dev pending h size r
  unattached :
      (x : MftEntry)
      → Holds m (h % 2 ^ 32) mft_dev_net_basic x
      → x.attached ≡ false
      → r ≡ aborts
      → Read m t dev pending h size r
  again :
      (i : ℕ) (nd : VirtioNetDesc) (t' : NetTable)
      → get_elem? t.nd_table i ≡ some nd
      → nd.handle ≡ h % 2 ^ 32
      → pending i ≡ []
      → r ≡ done (t', solo5_r_again, [])
      → Linked m t'
      → AllHold t' dev pending
      → Read m t dev pending h size r
  long :
      (i : ℕ) (nd : VirtioNetDesc) (packet : List ℕ) (packets : List (List ℕ))
      → get_elem? t.nd_table i ≡ some nd
      → nd.handle ≡ h % 2 ^ 32
      → pending i ≡ packet ∷ packets
      → size < length packet
      → r ≡ aborts
      → Read m t dev pending h size r
  read :
      (i : ℕ) (nd : VirtioNetDesc) (packet : List ℕ) (packets : List (List ℕ)) (t' : NetTable)
      → get_elem? t.nd_table i ≡ some nd
      → nd.handle ≡ h % 2 ^ 32
      → pending i ≡ packet ∷ packets
      → r ≡ done (t', solo5_r_ok, packet)
      → Linked m t'
      → AllHold t' dev (without_first pending i packets)
      → Read m t dev pending h size r

-- The device has been found.
answer :
    (m : Mft) (t : NetTable) (dev : ℕ → UsedReads) (pending : ℕ → List (List ℕ)) (h size i : ℕ)
    (nd : VirtioNetDesc) (packets : List (List ℕ))
    → Linked m t
    → AllHold t dev pending
    → get_elem? t.nd_table i ≡ some nd
    → nd.handle ≡ h % 2 ^ 32
    → pending i ≡ packets
    → device_of m t h ≡ done (some (i, nd))
    → Received nd.recv (dev i) size (virtio_net_recv nd.recv (dev i) size) packets
    → Read m t dev pending h size (solo5_net_read m t dev h size)
unfolding solo5_net_read
answer m t dev pending h size i nd packets l all at handle p went
      (none_pending nd' gone kept listening) =
    again i nd (put_device t i (record nd { recv = nd' })) at handle p (rw (went, gone) refl)
      (put_device-Linked m t i nd (record nd { recv = nd' }) l at refl)
      (put_same-AllHold t dev pending i nd (record nd { recv = nd' }) at kept all)
answer m t dev pending h size i nd packets l all at handle p went
      (too_long packet rest long_packet gone) =
    long i nd packet rest at handle p long_packet (rw (went, gone) refl)
answer m t dev pending h size i nd packets l all at handle p went
      (received packet rest nd' notified fits gone holds num listening) =
    read i nd packet rest (put_device t i (record nd { recv = nd' })) at handle p
      (rw (went, gone) refl) (put_device-Linked m t i nd (record nd { recv = nd' }) l at refl)
      (put_device-AllHold t dev pending i (record nd { recv = nd' }) rest all holds)

-- For a manifest and a table that belong together, and devices that hold packets, `solo5_net_read` ends in one of
-- five ways. A handle that is no network device's gives SOLO5_R_EINVAL, and nothing changes; an entry with no device fails an
-- assertion. A device without packets gives SOLO5_R_AGAIN, and all devices hold the same packets. A first packet that
-- is longer than the buffer fails an assertion. Otherwise the caller gets the first packet of the device whose handle it
-- is, that device holds the packets behind it, and the other devices hold theirs.
pub solo5_net_read-Read :
    (m : Mft) (t : NetTable) (dev : ℕ → UsedReads) (pending : ℕ → List (List ℕ)) (h size : ℕ)
    → Linked m t
    → AllHold t dev pending
    → Read m t dev pending h size (solo5_net_read m t dev h size)
unfolding solo5_net_read
solo5_net_read-Read m t dev pending h size l all = elim (device_of-Looked m t h l) [
  | no_device went none_there ↦ invalid none_there (rw went refl)
  | detached x holds off went ↦ unattached x holds off (rw went refl)
  | device i nd went at handle ↦
      answer m t dev pending h size i nd (pending i) l all at handle refl went
        (virtio_net_recv-Received nd.recv (dev i) size (pending i) (all i nd at))
]
