-- ===== src/VirtioNet/Devices/Ready.antt =====
-- bindings/virtio/virtio_net.c: what `solo5_yield` gives, and that it comes to an end.
use solo.Base.{
  ℕ, zero, suc, ◌-◌, ◌≤◌, ◌<◌, ◌≡◌, ◌≢◌, ◌⊎◌, inl, inr, refl, sym, ap, ◌∙◌, subst, Bool-cases, true,
  false, ◌==◌, ◌!=◌, ltb, if◌then◌else◌, length, get_elem?, some, some_inj, Run, done, done_inj,
  arith,
}
use solo.Base.Digits.{digit, digit-zero, some_digit}
use solo.Mft.{mft_max_entries}
use solo.VirtioNet.Devices.{
  VirtioNetDesc, NetTable, Cpu, poll_from, virtio_net_pkt_poll, virtio_to_handle_set, yield_loop,
  solo5_yield,
}
use solo.VirtioNet.Devices.Sets.{
  from_zero, poll-has, poll-only, AreHandles, handles_from-Translated,
}

-- A device that is in the table, and has used a buffer that the driver has not seen.
abbrev pub HasPacket : NetTable → (ℕ → ℕ) → ℕ → VirtioNetDesc → Type 0
HasPacket t used_idx i nd =
    (t.net_configured ≡ true)
    × (get_elem? t.nd_table i ≡ some nd)
    × (nd.recv.recvq.last_used ≢ used_idx i)

-- The set has the handles of the devices that have a packet, and no other.
pub record IsReadySet (t : NetTable) (used_idx : ℕ → ℕ) (ready_set : ℕ) : Type 0 where
  pub has : (i : ℕ) (nd : VirtioNetDesc) → HasPacket t used_idx i nd → digit ready_set nd.handle ≡ 1
  pub only :
      (h : ℕ)
      → digit ready_set h ≡ 1
      → (i : ℕ) × (nd : VirtioNetDesc) × HasPacket t used_idx i nd × (nd.handle ≡ h)

-- What a poll gives: the devices' digits.
record Polled (t : NetTable) (used_idx : ℕ → ℕ) (virtio_set : ℕ) : Type 0 where
  has : (i : ℕ) (nd : VirtioNetDesc) → HasPacket t used_idx i nd → digit virtio_set i ≡ 1
  only : (i : ℕ) → digit virtio_set i ≡ 1 → (nd : VirtioNetDesc) × HasPacket t used_idx i nd

poll-Polled :
    (t : NetTable) (used_idx : ℕ → ℕ)
    → length t.nd_table < mft_max_entries
    → (s : ℕ) × (virtio_net_pkt_poll t used_idx ≡ done s) × Polled t used_idx s
unfolding virtio_net_pkt_poll
poll-Polled t used_idx few = elim (Bool-cases t.net_configured) [
  | inl on ↦ (
    poll_from t.nd_table used_idx 0 0,
    rw (on, room) refl,
    record {
      has = λ i nd (_, at, new).
          ap (digit (poll_from t.nd_table used_idx 0 0)) (from_zero i)
          ∙ poll-has t.nd_table used_idx 0 0 i nd
              (at, subst (λ (k : ℕ). nd.recv.recvq.last_used ≢ used_idx k) (from_zero i) new);
      only = λ i e. elim (poll-only t.nd_table used_idx 0 0 i e) [
        | inl none_yet ↦ absurd (omega (arith, none_yet, digit-zero i))
        | inr (j, nd, same, (at, new)) ↦ (
          nd,
          (
            on,
            ap (get_elem? t.nd_table) (same ∙ sym (from_zero j)) ∙ at,
            subst (λ (k : ℕ). nd.recv.recvq.last_used ≢ used_idx k) (sym same) new,
          ),
        )
      ];
    },
  )
  | inr off ↦ (
    0,
    rw off refl,
    record {
      has = λ i nd (on, _, _). absurd (ground (arith, on, off));
      only = λ i e. absurd (omega (arith, e, digit-zero i));
    },
  )
]
  where
    room : ltb (length t.nd_table) mft_max_entries ≡ true
    room = ground (arith, few)

to_handles :
    (t : NetTable) (used_idx : ℕ → ℕ) (virtio_set : ℕ)
    → length t.nd_table < mft_max_entries
    → AreHandles t.nd_table
    → Polled t used_idx virtio_set
    → (r : ℕ) × (virtio_to_handle_set t virtio_set ≡ done r) × IsReadySet t used_idx r
unfolding virtio_to_handle_set
to_handles t used_idx virtio_set few ok p =
    let (r, went, tr) = handles_from-Translated t.nd_table virtio_set 0 0 ok in
    (
      r,
      rw (room, went) refl,
      record {
        has = λ i nd packet.
            tr.has i nd packet.1 (ap (digit virtio_set) (sym (from_zero i)) ∙ p.has i nd packet);
        only = λ h e. elim (tr.only h e) [
          | inl none_yet ↦ absurd (omega (arith, none_yet, digit-zero h))
          | inr (i, nd, at, on, same) ↦
              let (nd', packet) = p.only i (ap (digit virtio_set) (from_zero i) ∙ on) in
              (
                i,
                nd',
                packet,
                ap (λ (x : VirtioNetDesc). x.handle) (some_inj (sym packet.1 ∙ at)) ∙ same,
              )
        ];
      },
    )
  where
    room : ltb (length t.nd_table) mft_max_entries ≡ true
    room = ground (arith, few)

-- What follows the polls: an empty set of devices has no handles.
handles_of : NetTable → ℕ → Run ℕ
handles_of t s = if s != 0 then virtio_to_handle_set t s else done 0

handles_of-IsReadySet :
    (t : NetTable) (used_idx : ℕ → ℕ) (s : ℕ)
    → length t.nd_table < mft_max_entries
    → AreHandles t.nd_table
    → Polled t used_idx s
    → (r : ℕ) × (handles_of t s ≡ done r) × IsReadySet t used_idx r
unfolding handles_of
handles_of-IsReadySet t used_idx s few ok p = elim (Bool-cases (s != 0)) [
  | inl some_set ↦
      let (r, went, ready) = to_handles t used_idx s few ok p in (r, rw some_set went, ready)
  | inr no_set ↦ (
    0,
    rw no_set refl,
    record {
      has = λ i nd packet. absurd (
          omega (arith, ap (λ (x : ℕ). digit x i) (empty no_set), digit-zero i, p.has i nd packet));
      only = λ h e. absurd (omega (arith, digit-zero h, e));
    },
  )
]
  where
    empty : (s != 0) ≡ false → s ≡ 0
    empty no_set = ground (arith, no_set)

-- The clock's readings, and that it runs: a round of the loop takes time.
pub record IsTicking {W : Type 0} (cpu : Cpu W) (time : W → ℕ) : Type 0 where
  pub reads : (w : W) → (cpu.solo5_clock_monotonic w).1 ≡ time (cpu.solo5_clock_monotonic w).0
  pub runs :
      (w : W) (deadline : ℕ)
      → time w < time (cpu.solo5_clock_monotonic (cpu.cpu_block w deadline)).0

-- The caller has got the set of handles as it is in the world `w`, and if it is empty, the deadline has come.
pub record Yielded {W : Type 0} (cpu : Cpu W) (time : W → ℕ) (t : NetTable) (deadline : ℕ) (w : W)
    (ready_set : ℕ) : Type 0 where
  pub ready : IsReadySet t (cpu.used_idx w) ready_set
  pub woken :
      ((i : ℕ) × (nd : VirtioNetDesc) × HasPacket t (cpu.used_idx w) i nd) ⊎ (deadline ≤ time w)

module _ {W : Type 0} (cpu : Cpu W) (time : W → ℕ) (ticking : IsTicking cpu time) (t : NetTable)
    (few : length t.nd_table < mft_max_entries) where
  open cpu use {used_idx, solo5_clock_monotonic, cpu_block}

  Waited : W → ℕ → ℕ → Type 0
  Waited w deadline s =
      ((s ≢ 0) × (virtio_net_pkt_poll t (used_idx w) ≡ done s)) ⊎ ((s ≡ 0) × (deadline ≤ time w))

  yield_loop-Waited :
      (f deadline : ℕ) (w : W)
      → deadline - time w < f
      → (w' : W) × (s : ℕ) × (yield_loop cpu f t deadline w ≡ done (w', s)) × Waited w' deadline s
  unfolding yield_loop Waited
  yield_loop-Waited zero deadline w enough = absurd (omega (arith, enough))
  yield_loop-Waited (suc f) deadline w enough =
      let (s, polled, _) = poll-Polled t (used_idx w) few in
      elim (Bool-cases (s != 0)) [
        | inl new ↦ (w, s, rw (polled, new) refl, inl (ground (arith, new), polled))
        | inr nothing ↦
            elim (Bool-cases (ltb (solo5_clock_monotonic (cpu_block w deadline)).1 deadline)) [
              | inl early ↦
                  let (w', s', went, waited) =
                    yield_loop-Waited f deadline (solo5_clock_monotonic (cpu_block w deadline)).0
                      (sooner early) in
                  (w', s', rw (polled, nothing, early) went, waited)
              | inr late ↦ (
                (solo5_clock_monotonic (cpu_block w deadline)).0,
                0,
                rw (polled, nothing, late) refl,
                inr (refl, ground (arith, late, ticking.reads (cpu_block w deadline))),
              )
            ]
      ]
    where
      sooner :
          ltb (solo5_clock_monotonic (cpu_block w deadline)).1 deadline ≡ true
          → deadline - time (solo5_clock_monotonic (cpu_block w deadline)).0 < f
      sooner early =
          ground
            (arith, early, enough, ticking.reads (cpu_block w deadline), ticking.runs w deadline)

  -- With a clock that runs, at most 63 devices in the table and a handle below 64 for each, and with fuel for every
  -- nanosecond up to the deadline, `solo5_yield` returns. The caller gets the set of the handles of just the
  -- devices that have a packet at the time of the return; there is one, or the deadline has come.
  pub solo5_yield-Yielded :
      (f deadline : ℕ) (w : W)
      → AreHandles t.nd_table
      → deadline - time w < f
      → (w' : W) × (ready_set : ℕ) × (solo5_yield cpu f t deadline w ≡ done (w', ready_set))
        × Yielded cpu time t deadline w' ready_set
  unfolding solo5_yield Waited handles_of
  solo5_yield-Yielded f deadline w ok enough =
      let (w', seen, waits, waited) = yield_loop-Waited f deadline w enough in
      let (s, polled, p) = poll-Polled t (used_idx w') few in
      let (r, translated, ready) = handles_of-IsReadySet t (used_idx w') s few ok p in
      elim waited [
        | inl (some_seen, polled') ↦
            let same : seen ≡ s = done_inj (sym polled' ∙ polled) in
            let (i, on) = some_digit s (λ e. some_seen (same ∙ e)) in
            let (nd, packet) = p.only i on in
            (
              w',
              r,
              rw (waits, nonzero seen some_seen, same, translated) refl,
              record { ready = ready; woken = inl (i, nd, packet) },
            )
        | inr (none_seen, late) ↦ (
          w',
          r,
          rw (waits, none_seen, polled, translated) refl,
          record { ready = ready; woken = inr late },
        )
      ]
    where
      nonzero : (n : ℕ) → n ≢ 0 → (n == 0) ≡ false
      nonzero n ne = ground (arith, ne)
