-- ===== src/Examples.antt =====
-- A manifest with a block device and a network device, and simple host devices, for the tests.
mod Manifest
mod Devices
mod Network
mod Program
mod Setup
mod Calls
mod Wake
mod Time
mod Note
mod Core
mod Channel
mod Virtq
mod Heap
mod Receive
mod Disk
mod Muen
use solo.Base.{
  ℕ, zero, suc, ◌+◌, ◌-◌, ◌^◌, ◌%◌, ◌<◌, ◌≤◌, ◌≡◌, ◌≢◌, ◌⊎◌, inl, inr, refl, sym, ap, subst, List,
  [], ◌∷◌, ◌++◌, length, replicate, get_elem?, some, some_inj, false, true, ◌==◌, if◌then◌else◌, ℤ,
  pos, negsuc, arith, ==_iff, Bool-cases,
}
use solo.CString.Compare.{IsTerminated}
use solo.Mft.{
  Mft, MftEntry, BlockBasic, NetBasic, mft_name_max, mft_name_size, mft_reserved_first,
  mft_dev_block_basic, mft_dev_net_basic,
}
use solo.Mft.Validate.{IsBuffer}
use solo.Mft.Lookup.{IsUsable}
use solo.Hvt.{Memory, Hvt, load_bytes, store_bytes}
use solo.Hvt.Memory.{
  store_bytes-outside, store_bytes-inside, get_elem?-load_bytes, length-load_bytes,
}
use solo.Block.{Files}
use solo.Block.Check.{FilesLaws, Capacities}
use solo.Ring.{Taps, TapRead, frame, eagain}

-- A name's array, filled up with NUL.
abbrev pub padded : List ℕ → List ℕ
padded s = s ++ replicate (mft_name_size - length s) 0

abbrev pub disk_name : List ℕ
disk_name = b'd' ∷ b'i' ∷ b's' ∷ b'k' ∷ []

abbrev pub no_block : BlockBasic
no_block = record { capacity = 0; block_size = 0 }

abbrev pub no_net : NetBasic
no_net = record { mac = []; mtu = 0 }

abbrev pub first : MftEntry
first = record {
  name = padded [];
  type = mft_reserved_first;
  block_basic = no_block;
  net_basic = no_net;
  hostfd = 0;
  attached = false;
}

abbrev pub disk : MftEntry
disk = record {
  name = padded disk_name;
  type = mft_dev_block_basic;
  block_basic = record { capacity = 4096; block_size = 512 };
  net_basic = no_net;
  hostfd = 5;
  attached = false;
}

abbrev pub tap : MftEntry
tap = record {
  name = padded (b'n' ∷ []);
  type = mft_dev_net_basic;
  block_basic = no_block;
  net_basic = record { mac = 2 ∷ 0 ∷ 0 ∷ 0 ∷ 0 ∷ 1 ∷ []; mtu = 1500 };
  hostfd = 7;
  attached = false;
}

abbrev pub sample : Mft
sample = record { version = 1; entries = 3; e = first ∷ disk ∷ tap ∷ [] }

-- A property of an entry that the three entries have.
pub of_entries :
    (P : MftEntry → Type 0)
    → P first
    → P disk
    → P tap
    → (i : ℕ) (x : MftEntry) → get_elem? sample.e i ≡ some x
    → P x
of_entries P a b c zero x h = subst P (some_inj h) a
of_entries P a b c (suc zero) x h = subst P (some_inj h) b
of_entries P a b c (suc (suc zero)) x h = subst P (some_inj h) c
of_entries P a b c (suc (suc (suc i))) x h = absurd (ground arith)

pub sample-IsBuffer : IsBuffer sample 320
sample-IsBuffer = record {
  holds = refl;
  names = of_entries (λ x. length x.name ≡ mft_name_size) refl refl refl;
}

pub sample-IsUsable : IsUsable sample
sample-IsUsable = record {
  fits = omega arith;
  few = omega arith;
  named = λ k x _ h. of_entries (λ y. IsTerminated mft_name_max y.name) tt tt tt k x h;
}

pub sample-Capacities : Capacities sample
sample-Capacities =
    of_entries (λ x. x.block_basic.capacity < 2 ^ 63) (omega arith) (omega arith) (omega arith)

-- Files in memory, each without an end; a transfer is always complete.
abbrev pub files : Files
files = record {
  Disk = ℕ → ℕ → ℕ;
  pwrite = λ d fd o bytes. elim o [
    | pos k ↦ (λ f. if f == fd then store_bytes (d f) k bytes else d f, pos (length bytes))
    | negsuc _ ↦ (d, negsuc 0)
  ];
  pread = λ d fd o n. elim o [ pos k ↦ (load_bytes (d fd) k n, pos n) | negsuc _ ↦ ([], negsuc 0) ];
}

files_outside :
    (d : ℕ → ℕ → ℕ) (fd o : ℕ) (bytes : List ℕ) (fd' k : ℕ)
    → (fd' ≢ fd) ⊎ ((k < o) ⊎ (o + length bytes ≤ k))
    → (if fd' == fd then store_bytes (d fd') o bytes else d fd') k ≡ d fd' k
files_outside d fd o bytes fd' k (inl ne) = ground (arith, ne)
files_outside d fd o bytes fd' k (inr out) = elim (Bool-cases (fd' == fd)) [
  | inl same ↦ rw same (store_bytes-outside bytes (d fd') o k out)
  | inr other ↦ rw other
]

files_inside :
    (d : ℕ → ℕ → ℕ) (fd o : ℕ) (bytes : List ℕ) (i b : ℕ)
    → get_elem? bytes i ≡ some b
    → (if fd == fd then store_bytes (d fd) o bytes else d fd) (o + i) ≡ b
files_inside d fd o bytes i b h =
    rw ((==_iff fd fd).1 refl) (store_bytes-inside bytes (d fd) o i b h)

pub files-laws : FilesLaws files
files-laws = record {
  file = λ fd. fd;
  byte = λ d fd k. d fd k;
  pwrite_outside = files_outside;
  pwrite_all = λ d fd o bytes i b _ h. files_inside d fd o bytes i b h;
  pread_fits = λ d fd o n. omega (arith, length-load_bytes n (d fd) o);
  pread_all = λ d fd o n i _ lt. get_elem?-load_bytes n (d fd) o i lt;
}

-- Tap devices that log what they are given, and that have the frame 1, 2, 3 to give.
abbrev pub taps : Taps
taps = record {
  Net = List (ℕ × List ℕ);
  write = λ n fd bytes. ((fd, bytes) ∷ n, pos (length bytes));
  read = λ n fd len. (n, frame (1 ∷ 2 ∷ 3 ∷ []));
}
