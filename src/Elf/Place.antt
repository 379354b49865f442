-- ===== src/Elf/Place.antt =====
-- tenders/common/elf.c: what a loaded segment is, in guest memory and among the mappings.
use solo.Base.{
  ℕ, zero, suc, ◌+◌, ◌-◌, ◌^◌, ◌%◌, ◌≤◌, ◌<◌, ◌≡◌, ◌≢◌, ◌⊎◌, inl, refl, sym, ap, ◌∙◌, false, ◌&&◌,
  List, [], ◌∷◌, length, get_elem?, get_elem?-total, some, arith,
}
use solo.Hvt.{Memory, store_bytes}
use solo.Hvt.Memory.{store_bytes-outside, store_bytes-inside}
use solo.Elf.{Phdr, ElfAbi, Target, Mapping, Loading, zeros}
use solo.Elf.Read.{AreAt}

-- The widths of the headers' fields.
pub record AbiLaws (abi : ElfAbi) : Type 0 where
  pub p_vaddr : (bs : List ℕ) (i : ℕ) → (abi.phdr_of bs i).p_vaddr < 2 ^ 64
  pub p_align : (bs : List ℕ) (i : ℕ) → (abi.phdr_of bs i).p_align < 2 ^ 64
  pub e_phnum : (bs : List ℕ) → (abi.ehdr_of bs).e_phnum < 2 ^ 16

-- The mappings are whole pages inside guest memory, from the last one down without overlap, and
-- none is both writable and executable.
pub record IsMapping (g : Target) (bound : ℕ) (x : Mapping) : Type 0 where
  pub min : g.p_min_loadaddr ≤ x.start
  pub nonempty : x.start < x.end
  pub max : x.end ≤ bound
  pub start_page : x.start % 2 ^ 12 ≡ 0
  pub end_page : x.end % 2 ^ 12 ≡ 0
  pub exclusive : (x.prot.write && x.prot.exec) ≡ false

abbrev pub AreMappings : Target → ℕ → List Mapping → Type 0
AreMappings g bound [] = Unit
AreMappings g bound (x ∷ xs) = IsMapping g bound x × AreMappings g x.start xs

abbrev pub IsLoadable : ElfAbi → Phdr → Type 0
IsLoadable abi ph = (ph.p_filesz ≢ 0) × (ph.p_type ≡ abi.pt_load)

-- A segment is in memory: its bytes of the file, and zeros behind them.
pub record IsPlaced (file : List ℕ) (mem : Memory) (ph : Phdr) : Type 0 where
  pub file_part :
      (j : ℕ) → j < ph.p_filesz → get_elem? file (ph.p_offset + j) ≡ some (mem (ph.p_vaddr + j))
  pub sizes : ph.p_filesz ≤ ph.p_memsz
  pub bss : (j : ℕ) → ph.p_filesz ≤ j → j < ph.p_memsz → mem (ph.p_vaddr + j) ≡ 0

-- The state after the first `i` program headers.
pub record IsLoaded {S : Type 0} (abi : ElfAbi) (file phdr : List ℕ) (g : Target) (mem : Memory)
    (i : ℕ) (t : Loading S) : Type 0 where
  pub max : t.e_end ≤ g.mem_size
  pub outside : (k : ℕ) → (k < g.p_min_loadaddr) ⊎ (t.e_end ≤ k) → t.mem k ≡ mem k
  pub mappings : AreMappings g t.e_end t.mapped
  pub placed :
      (n : ℕ)
      → n < i
      → IsLoadable abi (abi.phdr_of phdr n)
      → IsPlaced file t.mem (abi.phdr_of phdr n)
        × ((abi.phdr_of phdr n).p_vaddr + (abi.phdr_of phdr n).p_memsz ≤ t.e_end)

length-zeros : (n : ℕ) → length (zeros n) ≡ n
length-zeros zero = refl
length-zeros (suc n) = ap suc (length-zeros n)

get_elem?-zeros : (n j : ℕ) → j < n → get_elem? (zeros n) j ≡ some 0
get_elem?-zeros zero j lt = absurd (omega arith)
get_elem?-zeros (suc n) zero lt = refl
get_elem?-zeros (suc n) (suc j) lt = get_elem?-zeros n j (omega arith)

-- Memory after the two stores of a segment.
abbrev pub filled : Memory → Phdr → List ℕ → Memory
filled m ph bytes =
    store_bytes (store_bytes m ph.p_vaddr bytes) (ph.p_vaddr + ph.p_filesz)
      (zeros (ph.p_memsz - ph.p_filesz))

pub filled-outside :
    (m : Memory) (ph : Phdr) (bytes : List ℕ) (k : ℕ)
    → length bytes ≡ ph.p_filesz
    → ph.p_filesz ≤ ph.p_memsz
    → (k < ph.p_vaddr) ⊎ (ph.p_vaddr + ph.p_memsz ≤ k)
    → filled m ph bytes k ≡ m k
filled-outside m ph bytes k len le out =
    store_bytes-outside (zeros (ph.p_memsz - ph.p_filesz)) (store_bytes m ph.p_vaddr bytes)
      (ph.p_vaddr + ph.p_filesz) k (ground (arith, out, length-zeros (ph.p_memsz - ph.p_filesz)))
    ∙ store_bytes-outside bytes m ph.p_vaddr k (ground (arith, out))

pub filled-IsPlaced :
    (file : List ℕ) (m : Memory) (ph : Phdr) (bytes : List ℕ)
    → length bytes ≡ ph.p_filesz
    → ph.p_filesz ≤ ph.p_memsz
    → AreAt file bytes ph.p_offset
    → IsPlaced file (filled m ph bytes) ph
filled-IsPlaced file m ph bytes len le at = record {
  sizes = le;
  file_part = λ j lt.
      let (b, e) = get_elem?-total bytes j (omega arith) in
      at j b e ∙ ap some (sym (kept j lt ∙ store_bytes-inside bytes m ph.p_vaddr j b e));
  bss = λ j ge lt.
      ap (filled m ph bytes) (behind j ge)
      ∙ store_bytes-inside (zeros (ph.p_memsz - ph.p_filesz)) (store_bytes m ph.p_vaddr bytes)
          (ph.p_vaddr + ph.p_filesz) (j - ph.p_filesz) 0
          (get_elem?-zeros (ph.p_memsz - ph.p_filesz) (j - ph.p_filesz) (omega arith));
}
  where
    kept :
        (j : ℕ)
        → j < ph.p_filesz
        → filled m ph bytes (ph.p_vaddr + j) ≡ store_bytes m ph.p_vaddr bytes (ph.p_vaddr + j)
    kept j lt =
        store_bytes-outside (zeros (ph.p_memsz - ph.p_filesz)) (store_bytes m ph.p_vaddr bytes)
          (ph.p_vaddr + ph.p_filesz) (ph.p_vaddr + j) (inl (omega arith))

    behind :
        (j : ℕ) → ph.p_filesz ≤ j → ph.p_vaddr + j ≡ ph.p_vaddr + ph.p_filesz + (j - ph.p_filesz)
    behind j ge = omega arith

-- A segment stays in memory while its bytes do.
pub IsPlaced-same :
    (file : List ℕ) (m m' : Memory) (ph : Phdr)
    → ((k : ℕ) → k < ph.p_vaddr + ph.p_memsz → m' k ≡ m k)
    → IsPlaced file m ph
    → IsPlaced file m' ph
IsPlaced-same file m m' ph same old = record {
  sizes = old.sizes;
  file_part =
      λ j lt. old.file_part j lt ∙ ap some (sym (same (ph.p_vaddr + j) (omega (arith, old.sizes))));
  bss = λ j ge lt. same (ph.p_vaddr + j) (omega arith) ∙ old.bss j ge lt;
}

pub AreMappings-mono :
    (g : Target) (b c : ℕ) (xs : List Mapping) → b ≤ c → AreMappings g b xs → AreMappings g c xs
AreMappings-mono g b c [] le old = old
AreMappings-mono g b c (x ∷ xs) le (old, rest) = (
  record {
    min = old.min;
    nonempty = old.nonempty;
    max = omega (arith, old.max);
    start_page = old.start_page;
    end_page = old.end_page;
    exclusive = old.exclusive;
  },
  rest,
)
