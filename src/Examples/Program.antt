-- ===== src/Examples/Program.antt =====
-- A file with one segment of four bytes, and a host that reads it two bytes at a time after one
-- interruption.
use native.Mathlib.Nat.{zero-add}
use solo.Base.{
  subst, sym, ℕ, zero, suc, ◌+◌, ◌≤◌, ◌≡◌, refl, true, List, [], ◌∷◌, length, take, drop, get_elem?,
  some, ReturnsOrExits, arith, min, Run, done, ◌>>=◌,
}
use solo.Hvt.{Memory, store_bytes, load_bytes}
use solo.Elf.{
  ElfAbi, PRead, got, eintr, Host, Target, elf_load, read_exactly, load_program, ehdr_is_valid,
  pread_in_full, pread_loop, load_segments, load_segment, check_segment, protect, align_up,
  align_down,
}
use solo.Elf.Read.{HostLaws, Exactly, bytes_of, interruptions, read_exactly-Exactly}
use solo.Elf.Place.{AbiLaws}
use solo.Elf.Program.{IsProgram, elf_load-IsProgram}

-- Two bytes of header, one of program header, four of the segment.
abbrev file : List ℕ
file = 7 ∷ 1 ∷ 9 ∷ 21 ∷ 22 ∷ 23 ∷ 24 ∷ []

abbrev pub byte_abi : ElfAbi
byte_abi = record {
  ehdr_of = λ bs. record {
    e_ident = λ i. 7;
    e_type = 2;
    e_machine = 62;
    e_version = 1;
    e_entry = 0x1000;
    e_phoff = 2;
    e_ehsize = 2;
    e_phentsize = 1;
    e_phnum = 1;
  };
  phdr_of = λ bs i. record {
    p_type = 1;
    p_flags = 5;
    p_offset = 3;
    p_vaddr = 0x1000;
    p_filesz = 4;
    p_memsz = 6;
    p_align = 0x1000;
  };
  sizeof_ehdr = 2;
  sizeof_phdr = 1;
  ei_magic = λ i. i;
  elfmag = λ i. 7;
  ei_class = 4;
  elfclass64 = 7;
  ei_data = 5;
  ei_data_target = 7;
  ev_current = 1;
  et_exec = 2;
  em_target = 62;
  pt_load = 1;
  pf_r = 4;
  pf_w = 2;
  pf_x = 1;
}

abbrev pub byte_abi-laws : AbiLaws byte_abi
byte_abi-laws = record {
  p_vaddr = λ bs i. omega arith;
  p_align = λ bs i. omega arith;
  e_phnum = λ bs. omega arith;
}

-- The state counts the signals that are pending.
abbrev pub read_some : List ℕ → ℕ → ℕ → ℕ → ℕ × PRead
read_some bytes zero n o = (0, got (take (min n 2) (drop o bytes)))
read_some bytes (suc s) n o = (s, eintr)

abbrev pub host : List ℕ → Host
host bytes = record {
  State = ℕ;
  pread = read_some bytes;
  malloc = λ s n. (s, true);
  mprotect = λ s a b p. (s, true);
}

pub length-take_le : (n : ℕ) (xs : List ℕ) → length (take n xs) ≤ n
length-take_le zero xs = omega arith
length-take_le (suc n) [] = omega arith
length-take_le (suc n) (x ∷ xs) = omega (arith, length-take_le n xs)

get_elem?-take :
    (n : ℕ) (xs : List ℕ) (i b : ℕ) → get_elem? (take n xs) i ≡ some b → get_elem? xs i ≡ some b
get_elem?-take zero xs i b h = absurd (ground (arith, h))
get_elem?-take (suc n) [] i b h = absurd (ground (arith, h))
get_elem?-take (suc n) (x ∷ xs) zero b h = h
get_elem?-take (suc n) (x ∷ xs) (suc i) b h = get_elem?-take n xs i b h

get_elem?-take-drop :
    (n o : ℕ) (xs : List ℕ) (i b : ℕ)
    → get_elem? (take n (drop o xs)) i ≡ some b
    → get_elem? xs (o + i) ≡ some b
get_elem?-take-drop n zero xs i b h =
    subst (λ (t : ℕ). get_elem? xs t ≡ some b) (sym (zero-add i)) (get_elem?-take n xs i b h)
get_elem?-take-drop n (suc o) [] i b h = absurd (ground (arith, get_elem?-take n [] i b h))
get_elem?-take-drop n (suc o) (x ∷ xs) i b h =
    subst (λ (t : ℕ). get_elem? (x ∷ xs) t ≡ some b) shift (get_elem?-take-drop n o xs i b h)
  where
    shift : suc (o + i) ≡ suc o + i
    shift = omega arith

pub read_some-file :
    (bytes : List ℕ) (s n o i b : ℕ)
    → get_elem? (bytes_of (read_some bytes s n o).1) i ≡ some b
    → get_elem? bytes (o + i) ≡ some b
read_some-file bytes zero n o i b h = get_elem?-take-drop (min n 2) o bytes i b h
read_some-file bytes (suc s) n o i b h = absurd (ground (arith, h))

abbrev pub host-laws : (bytes : List ℕ) → HostLaws (host bytes)
host-laws bytes = record {
  contents = bytes;
  signals = λ s. s;
  fits = fits;
  reads = read_some-file bytes;
  pread_signals = spent;
  malloc_signals = λ s n. omega arith;
  mprotect_signals = λ s a b p. omega arith;
}
  where
    fits : (s n o : ℕ) → length (bytes_of (read_some bytes s n o).1) ≤ n
    fits zero n o = omega (arith, length-take_le (min n 2) (drop o bytes))
    fits (suc s) n o = omega arith

    spent : (s n o : ℕ) → (read_some bytes s n o).0 + interruptions (read_some bytes s n o).1 ≤ s
    spent zero n o = omega arith
    spent (suc s) n o = omega arith

abbrev target : Target
target = record { base = 0x100000; mem_size = 0x4000; p_min_loadaddr = 0x1000 }

abbrev blank : Memory
blank k = 3

elf_load-IsProgram_example :
    ReturnsOrExits
      (IsProgram byte_abi file target blank)
      (elf_load (host file) byte_abi 100000 target 1 blank)
elf_load-IsProgram_example =
    elf_load-IsProgram (host file) byte_abi (host-laws file) byte_abi-laws target blank 100000 1
      (omega arith)

read_exactly-Exactly_example : Exactly (host-laws file) 1 4 3 (read_exactly (host file) 9 1 4 3)
read_exactly-Exactly_example =
    read_exactly-Exactly (host file) (host-laws file) 9 1 4 3 (omega arith)

-- The loaded program's entry point, end and first bytes.
abbrev loaded : Run (ℕ × ℕ × List ℕ)
loaded = elf_load (host file) byte_abi 40 target 1 blank >>= λ r.
    done (r.0, r.1.e_end, load_bytes r.1.mem 0xfff 8)

loaded_test : loaded ≡ done (0x1000, 0x2000, 3 ∷ 21 ∷ 22 ∷ 23 ∷ 24 ∷ 0 ∷ 0 ∷ 3 ∷ [])
unfolding elf_load load_program ehdr_is_valid read_exactly pread_in_full pread_loop load_segments
    load_segment check_segment align_down align_up protect store_bytes load_bytes
loaded_test = refl
