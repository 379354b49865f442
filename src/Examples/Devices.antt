-- ===== src/Examples/Devices.antt =====
-- The block device's theorems at the sample.
use solo.BlockGuest.{solo5_block_write, solo5_block_read}
use solo.BlockGuest.Call.{IsCall}
use solo.BlockGuest.RoundTrip.{block_write-read}
use solo.Hvt.Memory.{length-load_bytes}
use solo.Mft.{Mft, MftEntry}
use solo.BlockSetup.{setup_entries}
use solo.BlockSetup.Devices.{Sets, After, HasOdd, Widths, setup_entries-Sets_all}
use solo.Base.{
  zero, suc, subst, some_inj, [], ◌∷◌, ◌+◌, ap, pos, inl, ℕ, ◌≡◌, ◌<◌, ◌≤◌, ◌^◌, refl, true, false,
  done, arith,
}
use solo.Hvt.{Memory, store64}
use solo.Block.{Tender, range_check, hypercall_block_write, hypercall_block_read}
use solo.Block.Check.{IsReady, EndsWith, StopsFor}
use solo.Block.Write.{WriteEffect, WriteFails, hypercall_block_write-EndsWith}
use solo.Block.Read.{ReadEffect, ReadFails, hypercall_block_read-EndsWith}
use solo.Examples.{first, sample, disk, sample-IsUsable, sample-Capacities, files, files-laws}

abbrev empty : Memory
empty k = 0

-- An argument at 4096 for one sector at the offset 1024, from the buffer at 8192.
request : Memory
request = store64 (store64 (store64 (store64 empty 4096 1) 4104 1024) 4112 8192) 4120 512

guest : Tender (ℕ → ℕ → ℕ)
guest = record {
  hvt = record { mem = request; guest_mem_size = 2 ^ 20 };
  host_mft = sample;
  disk = λ fd k. 9;
}

guest-IsReady : IsReady guest
unfolding guest
guest-IsReady = record {
  usable = sample-IsUsable;
  capacities = sample-Capacities;
  mem_size = omega arith;
}

-- The range of the device ends at its capacity.
range_ends : (range_check 4096 3584 512 ≡ true) × (range_check 4096 4096 0 ≡ false)
unfolding range_check
range_ends = (refl, refl)

hypercall_block_write-EndsWith_example :
    EndsWith
      (WriteEffect files files-laws guest 4096)
      (StopsFor guest 4096 (WriteFails files files-laws guest 4096))
      (hypercall_block_write files guest 4096)
hypercall_block_write-EndsWith_example =
    hypercall_block_write-EndsWith files files-laws guest 4096 guest-IsReady

hypercall_block_read-EndsWith_example :
    EndsWith
      (ReadEffect files files-laws guest 4096)
      (StopsFor guest 4096 (ReadFails files files-laws guest 4096))
      (hypercall_block_read files guest 4096)
hypercall_block_read-EndsWith_example =
    hypercall_block_read-EndsWith files files-laws guest 4096 guest-IsReady

-- A call for the third sector of the disk, with the buffer at `buf`.
guest-IsCall : (buf : ℕ) → 4136 ≤ buf → buf < 2 ^ 16 → IsCall guest disk 4096 1 1024 buf 512
unfolding guest
guest-IsCall buf above below = record {
  ready = guest-IsReady;
  holds = (omega arith, refl, refl);
  power = (9, omega arith);
  block_max = omega arith;
  handle_max = omega arith;
  aligned = omega arith;
  size_is = refl;
  inside = omega arith;
  stack = omega arith;
  stack_max = omega arith;
  buffer = omega arith;
  apart = inl (omega arith);
}

block_write-read_example :
    (t' t'' : Tender (ℕ → ℕ → ℕ)) × (solo5_block_write files sample guest 4096 1 1024 8192 512
      ≡ done (t', 0))
    × (solo5_block_read files t'.host_mft t' 4096 1 1024 16384 512 ≡ done (t'', 0))
    × ((i : ℕ) → i < 512 → t''.hvt.mem (16384 + i) ≡ guest.hvt.mem (8192 + i))
unfolding guest
block_write-read_example =
    block_write-read files files-laws guest disk 4096 1 1024 8192 512 4096 16384
      (guest-IsCall 8192 (omega arith) (omega arith))
      (guest-IsCall 16384 (omega arith) (omega arith)) (ap pos (length-load_bytes 512 request 8192))
      (λ d. refl)

-- The sample with its disk attached.
abbrev attached_disk : MftEntry
attached_disk = record disk { attached = true }

abbrev with_disk : Mft
with_disk = record { version = 1; entries = 2; e = first ∷ attached_disk ∷ [] }

with_disk-Widths : Widths with_disk 0
with_disk-Widths zero x ge h =
    subst (λ (y : MftEntry). y.block_basic.capacity < 2 ^ 64) (some_inj h) (omega arith)
with_disk-Widths (suc zero) x ge h =
    subst (λ (y : MftEntry). y.block_basic.capacity < 2 ^ 64) (some_inj h) (omega arith)
with_disk-Widths (suc (suc k)) x ge h = absurd (ground (arith, h))

setup_entries-Sets_all_example :
    Sets (After with_disk 0 2) (HasOdd with_disk 0) (setup_entries 2 0 with_disk)
setup_entries-Sets_all_example = setup_entries-Sets_all with_disk (omega arith) with_disk-Widths
