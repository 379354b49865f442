-- ===== src/Examples/Network.antt =====
-- The network ring's theorems at the sample.
use solo.Base.{
  ℕ, ◌+◌, ◌-◌, ◌*◌, ◌≡◌, ◌<◌, ◌≤◌, ◌^◌, refl, true, List, [], ◌∷◌, Bool, done, aborts, arith, some,
  bit_and, ◌!=◌,
}
use solo.Hvt.{load_bytes}
use solo.Ring.{
  frame, Ring, Entry, Commit, NetTender, add32, advance, entry_at, process_ring_commits,
  hvt_ring_mask,
}
use solo.Ring.Serve.{pending, serve}
use solo.Ring.Refine.{process_ring_commits-serve}
use solo.Ring.Counts.{IsServable, Ends, Served, process_ring_commits-Ends}
use solo.NetGuest.{
  ring_submit, solo5_net_write, submitted, after_write, net_read_submit, net_read_finish,
  hvt_ring_buf_size,
}
use solo.NetGuest.Flow.{solo5_net_write-keeps, net_read_after_full-aborts}
use solo.NetGuest.Delivery.{ReadResult, net_write-delivers, net_read-delivers}
use solo.Examples.{sample, sample-IsUsable, tap, taps}

abbrev some_entry : Entry
some_entry = record { operation = 1; handle = 2; address = 64; len = 3; id = 0 }

abbrev no_commit : Commit
no_commit = record { id = 0; ret = 0; len = 0 }

-- An idle ring whose indices are about to wrap around.
abbrev idle : Ring
idle = record {
  ent_tail = 2 ^ 32 - 1;
  com_head = 6;
  ent_head = 2 ^ 32 - 1;
  com_tail = 6;
  needs_kick = 1;
  entries = λ _. some_entry;
  commits = λ _. no_commit;
}

abbrev system : Ring → NetTender (List (ℕ × List ℕ))
system r = record {
  hvt = record { mem = λ k. 0; guest_mem_size = 2 ^ 24 };
  host_mft = sample;
  net = [];
  ring = r;
}

-- Two frames are pending.
abbrev busy : Ring
busy = record idle { ent_tail = 1 }

abbrev nearly_full : Ring
nearly_full = record idle { ent_tail = 1021 }

idle-IsServable : IsServable (system idle)
idle-IsServable = record {
  usable = sample-IsUsable;
  mem_size = omega arith;
  head = omega arith;
  com_tail = omega arith;
}

busy-IsServable : IsServable (system busy)
busy-IsServable = record {
  usable = sample-IsUsable;
  mem_size = omega arith;
  head = omega arith;
  com_tail = omega arith;
}

process_ring_commits-serve_example :
    process_ring_commits taps 4 (system busy) ≡ serve taps 2 (system busy)
process_ring_commits-serve_example =
    process_ring_commits-serve taps 4 (system busy) (omega arith) (omega arith) (omega arith)

process_ring_commits-Ends_example :
    Ends
      (λ t'. Served 2 (system busy) t' × (t'.ring.ent_head ≡ 1))
      (process_ring_commits taps 4 (system busy))
process_ring_commits-Ends_example =
    process_ring_commits-Ends taps 4 (system busy) busy-IsServable (omega arith) (omega arith)

net_write-delivers_example :
    (t' : NetTender (List (ℕ × List ℕ))) × (solo5_net_write 65536 (system idle) 0 2 (8 ∷ 9 ∷ [])
      ≡ submitted t' 1 (idle.needs_kick != 0))
    × (process_ring_commits taps 3 t' ≡ done (advance (record t' { net = (7, 8 ∷ 9 ∷ []) ∷ [] }) 1))
net_write-delivers_example =
    net_write-delivers taps 65536 3 (system idle) 0 2 (8 ∷ 9 ∷ []) tap idle-IsServable refl
      (omega arith) (omega arith) (omega arith, refl, refl) refl (omega arith)

net_read-delivers_example :
    (t' u v : NetTender (List (ℕ × List ℕ))) × (ret : ℕ) × (len : ℕ) × (net_read_submit
        (system idle)
        0
        2
        4096
        1514
      ≡ done (t', 1, (idle.needs_kick != 0)))
    × (process_ring_commits taps 3 t' ≡ done u)
    × (net_read_finish u ≡ some (v, ret, len))
    × ReadResult (frame (1 ∷ 2 ∷ 3 ∷ [])) ret len
    × (load_bytes v.hvt.mem 4096 3 ≡ 1 ∷ 2 ∷ 3 ∷ [])
net_read-delivers_example =
    net_read-delivers taps 3 (system idle) 0 2 4096 1514 tap idle-IsServable refl refl (omega arith)
      (omega arith, refl, refl) (omega arith)

abbrev written : NetTender (List (ℕ × List ℕ))
written = after_write 65536 (system busy) 5 2 (8 ∷ [])

solo5_net_write-keeps_example :
    (pending written.ring ≡ 3)
    × (pending written.ring ≤ 1023)
    × ((i : ℕ)
        → i < 2
        → (entry_at written.ring (add32 (2 ^ 32 - 1) i) ≡ entry_at busy (add32 (2 ^ 32 - 1) i))
          × (load_bytes written.hvt.mem
                (65536 + bit_and (add32 (2 ^ 32 - 1) i) hvt_ring_mask * hvt_ring_buf_size)
                hvt_ring_buf_size
              ≡ load_bytes
                  (λ _. 0)
                  (65536 + bit_and (add32 (2 ^ 32 - 1) i) hvt_ring_mask * hvt_ring_buf_size)
                  hvt_ring_buf_size))
unfolding solo5_net_write ring_submit
solo5_net_write-keeps_example =
    solo5_net_write-keeps 65536 (system busy) written 5 6 2 (8 ∷ []) true (omega arith)
      (omega arith) refl

net_read_after_full-aborts_example :
    (t' : NetTender (List (ℕ × List ℕ))) × (id' : ℕ) × (kick : Bool) × (solo5_net_write 65536
        (system nearly_full)
        9
        2
        (8 ∷ [])
      ≡ submitted t' id' kick)
    × (net_read_submit t' id' 2 4096 1514 ≡ aborts)
net_read_after_full-aborts_example =
    net_read_after_full-aborts 65536 (system nearly_full) 9 2 2 4096 1514 (8 ∷ []) (omega arith)
      (omega arith) refl (omega arith)
