-- ===== src/Block/Check.antt =====
-- tenders/hvt/hvt_module_blk.c: the range test of the block hypercalls in plain arithmetic, and what
-- the host's files promise.
use solo.Base.{
  ℕ, ◌+◌, ◌^◌, ◌≤◌, ◌<◌, ◌≡◌, ◌≢◌, ◌↔◌, ◌⊎◌, true, List, length, pos, arith, Run, done, exits,
  get_elem?, some,
}
use solo.Mft.{Mft, MftEntry}
use solo.Mft.Lookup.{IsUsable}
use solo.Hvt.{load64, Memory, store32, le_bytes}
use solo.Hvt.Memory.{store_bytes-outside}
use solo.Block.{Files, Tender, range_check, sizeof_hc_block, at_data, at_len}

-- For a capacity that an `off_t` holds the test accepts exactly the requests that start below the
-- capacity and end at it or below, for every offset and length.
pub range_check_iff :
    (capacity offset len : ℕ)
    → capacity < 2 ^ 63
    → (range_check capacity offset len ≡ true) ↔ ((offset < capacity) × (offset + len ≤ capacity))
unfolding range_check
range_check_iff capacity offset len h = (ground arith, ground arith)

-- The attached capacities came from `lseek`, so an `off_t` holds them.
abbrev pub Capacities : Mft → Type 0
Capacities m = (k : ℕ) (x : MftEntry) → get_elem? m.e k ≡ some x → x.block_basic.capacity < 2 ^ 63

-- What POSIX says of `pwrite` and `pread`, over a view of the files' bytes. Two descriptors may be of one file.
pub record FilesLaws (os : Files) : Type 0 where
  -- The file of a descriptor, and the bytes of a file.
  pub file : ℕ → ℕ
  pub byte : os.Disk → ℕ → ℕ → ℕ
  -- `pwrite` changes no other file's bytes, and none outside the range.
  pub pwrite_outside :
      (d : os.Disk) (fd o : ℕ) (bytes : List ℕ) (f k : ℕ)
      → (f ≢ file fd) ⊎ ((k < o) ⊎ (o + length bytes ≤ k))
      → byte (os.pwrite d fd (pos o) bytes).0 f k ≡ byte d f k
  -- A complete `pwrite` has written all bytes.
  pub pwrite_all :
      (d : os.Disk) (fd o : ℕ) (bytes : List ℕ) (i b : ℕ)
      → (os.pwrite d fd (pos o) bytes).1 ≡ pos (length bytes)
      → get_elem? bytes i ≡ some b
      → byte (os.pwrite d fd (pos o) bytes).0 (file fd) (o + i) ≡ b
  -- `pread` puts no more than `n` bytes into the buffer.
  pub pread_fits : (d : os.Disk) (fd o n : ℕ) → length (os.pread d fd (pos o) n).0 ≤ n
  -- A complete `pread` has read the bytes of the range.
  pub pread_all :
      (d : os.Disk) (fd o n i : ℕ)
      → (os.pread d fd (pos o) n).1 ≡ pos n
      → i < n
      → get_elem? (os.pread d fd (pos o) n).0 i ≡ some (byte d (file fd) (o + i))

-- The tender's state before a block hypercall.
pub record IsReady {D : Type 0} (t : Tender D) : Type 0 where
  pub usable : IsUsable t.host_mft
  pub capacities : Capacities t.host_mft
  pub mem_size : t.hvt.guest_mem_size < 2 ^ 64

-- The run returns to the guest with a state that satisfies `P`, or ends the tender with status 1 for a reason.
pub data EndsWith {D : Type 0} (P : Tender D → Type 0) (Stopped : Type 0)
    : Run (Tender D) → Type 0 where
  returns : {t : Tender D} {r : Run (Tender D)} → r ≡ done t → P t → EndsWith P Stopped r
  stops : {r : Run (Tender D)} → r ≡ exits 1 → Stopped → EndsWith P Stopped r

-- The argument or the buffer does not lie inside guest memory, or the transfer has failed.
abbrev pub StopsFor : {D : Type 0} → Tender D → ℕ → Type 0 → Type 0
StopsFor t p Failed =
    (t.hvt.guest_mem_size ≤ p + sizeof_hc_block)
    ⊎ ((t.hvt.guest_mem_size ≤ load64 t.hvt.mem (at_data p) + load64 t.hvt.mem (at_len p)) ⊎ Failed)

-- The bytes of guest memory outside `[a, a + n)` are the same.
abbrev pub SameOutside : Memory → Memory → ℕ → ℕ → Type 0
SameOutside m m' a n = (k : ℕ) → (k < a) ⊎ (a + n ≤ k) → m' k ≡ m k

pub store32-SameOutside : (m : Memory) (a v : ℕ) → SameOutside m (store32 m a v) a 4
unfolding store32 le_bytes
store32-SameOutside m a v k h = store_bytes-outside (le_bytes 4 v) m a k h
