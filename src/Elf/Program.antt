-- ===== src/Elf/Program.antt =====
-- tenders/common/elf.c: `elf_load` as a whole.
use solo.Base.{
  [], ℕ, zero, suc, ◌+◌, ◌*◌, ◌^◌, ◌≤◌, ◌<◌, ◌≡◌, refl, ap, subst, Bool-cases, inl, inr, sym, ◌∙◌,
  true, ◌==◌, ◌!=◌, ◌||◌, ltb, leb, List, length, ReturnsOrExits, stops, returns, arith,
}
use native.Mathlib.Nat.{mul-le-mul_right, zero-add}
use solo.Hvt.{Memory}
use solo.Elf.{
  Ehdr, ElfAbi, Host, Target, Loading, load_segments, load_program, elf_load, ehdr_is_valid,
}
use solo.Elf.Read.{HostLaws, AreAt, stops, reads, read_exactly-Exactly}
use solo.Elf.Place.{AbiLaws, IsLoadable, IsLoaded}
use solo.Elf.Load.{Before, skip_segment, load_segment-Before}

pub phentsize :
    (abi : ElfAbi) (h : Ehdr) → ehdr_is_valid abi h ≡ true → h.e_phentsize ≡ abi.sizeof_phdr
unfolding ehdr_is_valid
phentsize abi h e = ground (arith, e)

-- What `elf_load` has done when it returns: `r` is the entry point with the final state.
pub record IsProgram {S : Type 0} (abi : ElfAbi) (file : List ℕ) (g : Target) (mem : Memory)
    (r : ℕ × Loading S) : Type 0 where
  pub header : List ℕ
  pub header_at : AreAt file header 0
  pub header_size : length header ≡ abi.sizeof_ehdr
  pub valid : ehdr_is_valid abi (abi.ehdr_of header) ≡ true
  pub entry : r.0 ≡ (abi.ehdr_of header).e_entry
  pub entry_min : g.p_min_loadaddr ≤ r.0
  pub entry_max : r.0 < g.mem_size
  pub phdr : List ℕ
  pub phdr_at : AreAt file phdr (abi.ehdr_of header).e_phoff
  pub phdr_size : length phdr ≡ (abi.ehdr_of header).e_phnum * abi.sizeof_phdr
  pub loaded : IsLoaded abi file phdr g mem (abi.ehdr_of header).e_phnum r.1

-- Fuel for the longest of the loader's reads.
abbrev pub longest_read : ElfAbi → Target → ℕ
longest_read abi g = abi.sizeof_ehdr + (2 ^ 16 * abi.sizeof_phdr + g.mem_size)

module _ (os : Host) (abi : ElfAbi) (laws : HostLaws os) (fields : AbiLaws abi) (g : Target)
    (mem : Memory) where
  open laws use {signals, contents}

  load_segments-Before :
      (fuel : ℕ) (phdr : List ℕ) (i n : ℕ) (t : Loading os.State)
      → Before os abi laws fields g mem phdr fuel i t
      → ReturnsOrExits
          (Before os abi laws fields g mem phdr fuel (i + n))
          (load_segments os abi fuel g phdr i n t)
  unfolding load_segments
  load_segments-Before fuel phdr i zero t before =
      returns t refl
        (subst (λ (k : ℕ). Before os abi laws fields g mem phdr fuel k t) (zeroth) before)
    where
      zeroth : i ≡ i + 0
      zeroth = omega arith
  load_segments-Before fuel phdr i (suc n) t before =
      subst
        (λ (k : ℕ).
          ReturnsOrExits (Before os abi laws fields g mem phdr fuel k)
            (load_segments os abi fuel g phdr i (suc n) t))
        shift
        (elim (Bool-cases
          (((abi.phdr_of phdr i).p_filesz == 0) || ((abi.phdr_of phdr i).p_type != abi.pt_load))) [
            | inl other ↦ rw other (
                load_segments-Before fuel phdr (i + 1) n t (
                  skip_segment os abi laws fields g mem phdr fuel i t
                    (λ loadable. absurd (ground (arith, other, loadable.0, loadable.1))) before))
            | inr load ↦
                let ready : IsLoadable abi (abi.phdr_of phdr i) =
                  (λ e. absurd (ground (arith, load, e)), ground (arith, load)) in
                elim (load_segment-Before os abi laws fields g mem phdr fuel i t ready before) [
                  | stops bad ↦ stops (rw (load, bad) refl)
                  | returns t' went before' ↦
                      rw (load, went) (load_segments-Before fuel phdr (i + 1) n t' before')
                ]
          ])
    where
      shift : i + 1 + n ≡ i + suc n
      shift = omega arith

  load_program-IsProgram :
      (fuel : ℕ) (s : os.State) (header : List ℕ)
      → AreAt contents header 0
      → length header ≡ abi.sizeof_ehdr
      → signals s + longest_read abi g < fuel
      → ReturnsOrExits
          (IsProgram abi contents g mem)
          (load_program os abi fuel g s mem (abi.ehdr_of header))
  unfolding load_program
  load_program-IsProgram fuel s header at size enough = elim (Bool-cases (ehdr_is_valid abi h)) [
    | inr bad ↦ stops (rw bad refl)
    | inl valid ↦ elim (Bool-cases (ltb h.e_entry g.p_min_loadaddr || leb g.mem_size h.e_entry)) [
      | inl out ↦ stops (rw (valid, out) refl)
      | inr inside ↦ elim (Bool-cases (os.malloc s ph_size).1) [
        | inr refused ↦ stops (rw (valid, inside, refused) refl)
        | inl given ↦ elim (read_exactly-Exactly os laws fuel s' ph_size h.e_phoff (room valid)) [
          | stops bad ↦ stops (rw (valid, inside, given, bad) refl)
          | reads s'' phdr ends calm len phdr_at ↦
              elim (load_segments-Before fuel phdr 0 h.e_phnum (first s'') (start s'' phdr calm)) [
                | stops bad ↦ stops (rw (valid, inside, given, ends, bad) refl)
                | returns t went (loaded, left) ↦
                    returns (h.e_entry, t) (rw (valid, inside, given, ends, went) refl)
                      (record {
                        header = header;
                        header_at = at;
                        header_size = size;
                        valid = valid;
                        entry = refl;
                        entry_min = ground (arith, inside);
                        entry_max = ground (arith, inside);
                        phdr = phdr;
                        phdr_at = phdr_at;
                        phdr_size = len ∙ ap (λ (n : ℕ). h.e_phnum * n) (phentsize abi h valid);
                        loaded =
                            subst (λ (n : ℕ). IsLoaded abi contents phdr g mem n t)
                              (zero-add h.e_phnum) loaded;
                      })
              ]
        ]
      ]
    ]
  ]
    where
      h : Ehdr
      h = abi.ehdr_of header

      ph_size : ℕ
      ph_size = h.e_phnum * h.e_phentsize

      s' : os.State
      s' = (os.malloc s ph_size).0

      first : os.State → Loading os.State
      first s'' = record { host = s''; mem = mem; plast_vaddr = 0; e_end = 0; mapped = [] }

      few : h.e_phnum < 2 ^ 16 → h.e_phnum ≤ 2 ^ 16
      few lt = omega arith

      table : ehdr_is_valid abi h ≡ true → ph_size ≤ 2 ^ 16 * abi.sizeof_phdr
      table valid =
          subst (λ (n : ℕ). h.e_phnum * n ≤ 2 ^ 16 * abi.sizeof_phdr) (sym (phentsize abi h valid))
            (mul-le-mul_right abi.sizeof_phdr (few (fields.e_phnum header)))

      room : ehdr_is_valid abi h ≡ true → signals s' + ph_size < fuel
      room valid = omega (arith, table valid, enough, laws.malloc_signals s ph_size)

      start :
          (s'' : os.State) (phdr : List ℕ)
          → signals s'' ≤ signals s'
          → Before os abi laws fields g mem phdr fuel 0 (first s'')
      start s'' phdr calm = (
        record {
          max = omega arith;
          outside = λ k out. refl;
          mappings = tt;
          placed = λ n lt. absurd (omega arith);
        },
        omega (arith, calm, enough, laws.malloc_signals s ph_size),
      )

  -- With enough fuel, and whatever file and host it meets, `elf_load` ends: with the end of the process, or
  -- with a loaded program. Then the header is valid and the entry point inside guest memory. Each
  -- segment to load lies in memory as it is in the file, with zeros behind it. No byte of guest memory
  -- below the least load address, or from `*p_end` on, has changed. The page protections
  -- asked for are of whole pages in between, disjoint and in ascending order, and none is both
  -- writable and executable.
  pub elf_load-IsProgram :
      (fuel : ℕ) (s : os.State)
      → signals s + longest_read abi g < fuel
      → ReturnsOrExits (IsProgram abi contents g mem) (elf_load os abi fuel g s mem)
  unfolding elf_load
  elf_load-IsProgram fuel s enough = elim (Bool-cases (os.malloc s abi.sizeof_ehdr).1) [
    | inr refused ↦ stops (rw refused refl)
    | inl given ↦
        elim (read_exactly-Exactly os laws fuel s' abi.sizeof_ehdr 0
          (omega (arith, laws.malloc_signals s abi.sizeof_ehdr))) [
            | stops bad ↦ stops (rw (given, bad) refl)
            | reads s'' header ends calm size at ↦
                rw (given, ends)
                  (load_program-IsProgram fuel s'' header at size
                    (omega (arith, calm, laws.malloc_signals s abi.sizeof_ehdr)))
          ]
  ]
    where
      s' : os.State
      s' = (os.malloc s abi.sizeof_ehdr).0
