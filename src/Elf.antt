-- ===== src/Elf.antt =====
-- tenders/common/elf.c: the loader of guest executables. The layout of the file's headers and the
-- constants of <elf.h> are a parameter, and so is the host: the descriptor of the file with the
-- results of `pread`, `malloc`, and the tender's callback for page protections. A 64-bit target with
-- pages of 4096 bytes is taken.
pub mod Align
pub mod Read
pub mod Segment
pub mod Place
pub mod Load
pub mod Program
pub mod Note
use mathlib.Core.Option
use solo.Base.{
  ℕ, zero, suc, ◌+◌, ◌-◌, ◌*◌, ◌^◌, ◌%◌, Bool, true, false, not, ◌&&◌, ◌||◌, ◌==◌, ◌!=◌, ltb, leb,
  if◌then◌else◌, List, [], ◌∷◌, ◌++◌, length, Option, none, some, Run, done, exits, out_of_fuel,
  ◌>>=◌, bit_and,
}
use solo.Hvt.{Memory, store_bytes}

pub record Ehdr : Type 0 where
  pub e_ident : ℕ → ℕ
  pub e_type : ℕ
  pub e_machine : ℕ
  pub e_version : ℕ
  pub e_entry : ℕ
  pub e_phoff : ℕ
  pub e_ehsize : ℕ
  pub e_phentsize : ℕ
  pub e_phnum : ℕ

pub record Phdr : Type 0 where
  pub p_type : ℕ
  pub p_flags : ℕ
  pub p_offset : ℕ
  pub p_vaddr : ℕ
  pub p_filesz : ℕ
  pub p_memsz : ℕ
  pub p_align : ℕ

-- <elf.h>: the structures, as they are read from a file's bytes, and the constants. `ei_magic` and
-- `elfmag` are the four of EI_MAG0 and ELFMAG0.
pub record ElfAbi : Type 0 where
  pub ehdr_of : List ℕ → Ehdr
  pub phdr_of : List ℕ → ℕ → Phdr
  pub sizeof_ehdr : ℕ
  pub sizeof_phdr : ℕ
  pub ei_magic : ℕ → ℕ
  pub elfmag : ℕ → ℕ
  pub ei_class : ℕ
  pub elfclass64 : ℕ
  pub ei_data : ℕ
  pub ei_data_target : ℕ
  pub ev_current : ℕ
  pub et_exec : ℕ
  pub em_target : ℕ
  pub pt_load : ℕ
  pub pf_r : ℕ
  pub pf_w : ℕ
  pub pf_x : ℕ

-- The result of `pread`: bytes, none of them at the end of the file, EINTR, or another error.
pub data PRead : Type 0 where
  got : List ℕ → PRead
  eintr : PRead
  failed : PRead

pub record Prot : Type 0 where
  pub read : Bool
  pub write : Bool
  pub exec : Bool

pub record Host : Type 1 where
  pub State : Type 0
  pub pread : State → ℕ → ℕ → State × PRead
  pub malloc : State → ℕ → State × Bool
  pub mprotect : State → ℕ → ℕ → Prot → State × Bool

abbrev pub em_page_size : ℕ
em_page_size = 4096

abbrev pub ssize_max : ℕ
ssize_max = 2 ^ 63 - 1

-- `align > 0 && (align & (align - 1)) == 0`
abbrev pub is_alignment : ℕ → Bool
is_alignment align = ltb 0 align && (bit_and align (align - 1) == 0)

-- `none` is the result 1.
unfoldable pub align_down : ℕ → ℕ → Option ℕ
align_down addr align = if is_alignment align then some (bit_and addr (2 ^ 64 - align)) else none

unfoldable pub align_up : ℕ → ℕ → Option ℕ
align_up addr align =
    if is_alignment align
    then (if leb (2 ^ 64) (addr + (align - 1))
        then none
        else some (bit_and (addr + (align - 1)) (2 ^ 64 - align)))
    else none

unfoldable pub ehdr_is_valid : ElfAbi → Ehdr → Bool
ehdr_is_valid abi hdr =
    (hdr.e_ident (abi.ei_magic 0) == abi.elfmag 0)
    && ((hdr.e_ident (abi.ei_magic 1) == abi.elfmag 1)
        && ((hdr.e_ident (abi.ei_magic 2) == abi.elfmag 2)
            && ((hdr.e_ident (abi.ei_magic 3) == abi.elfmag 3)
                && ((hdr.e_ident abi.ei_class == abi.elfclass64)
                    && ((hdr.e_ident abi.ei_data == abi.ei_data_target)
                        && ((hdr.e_version == abi.ev_current)
                            && ((hdr.e_ehsize == abi.sizeof_ehdr)
                                && (not (ltb hdr.e_phnum 1)
                                    && ((hdr.e_phentsize == abi.sizeof_phdr)
                                        && ((hdr.e_type == abi.et_exec)
                                            && (hdr.e_machine == abi.em_target)))))))))))

-- What `elf_load` is called with, less the file: `base` is the address of `mem`.
pub record Target : Type 0 where
  pub base : ℕ
  pub mem_size : ℕ
  pub p_min_loadaddr : ℕ

-- `(mem + a) < (mem + p_min_loadaddr)`, for pointers
abbrev pub wraps : Target → ℕ → Bool
wraps g a = ltb ((g.base + a) % 2 ^ 64) ((g.base + g.p_min_loadaddr) % 2 ^ 64)

-- `p_vaddr_end`: the end of a segment in memory, aligned, with its tests.
abbrev pub segment_end : Target → Phdr → Option ℕ
segment_end g ph =
    if ltb ph.p_memsz ph.p_filesz || leb (2 ^ 64) (ph.p_vaddr + ph.p_memsz)
    then none
    else align_up (ph.p_vaddr + ph.p_memsz) ph.p_align

-- The tests of the loop in `elf_load` before anything of the segment is loaded, with `plast_vaddr`
-- and `e_end`: `p_vaddr_start` and `p_vaddr_end`, or `none` where one fails.
unfoldable pub check_segment : Target → ℕ → ℕ → Phdr → Option (ℕ × ℕ)
unfolding Option.bind
check_segment g plast_vaddr e_end ph =
    if ltb ph.p_vaddr g.p_min_loadaddr || ltb ph.p_vaddr plast_vaddr
    then none
    else Option.bind (align_down ph.p_vaddr ph.p_align) (λ start.
      if ltb start g.p_min_loadaddr || ltb start e_end
      then none
      else if leb g.mem_size ph.p_vaddr
          || (leb (2 ^ 64) (ph.p_vaddr + ph.p_filesz) || ltb g.mem_size (ph.p_vaddr + ph.p_filesz))
      then none
      else Option.bind (segment_end g ph) (λ end.
        if ltb g.mem_size end || ((ltb e_end end && wraps g end) || wraps g ph.p_vaddr)
        then none
        else some (start, end)))

abbrev pub zeros : ℕ → List ℕ
zeros zero = []
zeros (suc n) = 0 ∷ zeros n

-- `prot`, from `p_flags`
abbrev pub prot_of : ElfAbi → Phdr → Prot
prot_of abi ph = record {
  read = bit_and ph.p_flags abi.pf_r != 0;
  write = bit_and ph.p_flags abi.pf_w != 0;
  exec = bit_and ph.p_flags abi.pf_x != 0;
}

-- A page protection that has been asked for.
pub record Mapping : Type 0 where
  pub start : ℕ
  pub end : ℕ
  pub prot : Prot

-- The state of the loop: `mapped` lists the mappings, the last one first.
pub record Loading (S : Type 0) : Type 0 where
  pub host : S
  pub mem : Memory
  pub plast_vaddr : ℕ
  pub e_end : ℕ
  pub mapped : List Mapping

module _ (os : Host) where
  open os use {State, pread}

  -- The loop of `pread_in_full`: the bytes in the buffer, and `none` for the result -1.
  unfoldable pub pread_loop : ℕ → State → ℕ → ℕ → Run (State × Option (List ℕ))
  pread_loop zero s count offset = out_of_fuel
  pread_loop (suc f) s count offset =
      let (s', r) = pread s count offset in
      let again = pread_loop f s' count offset in
      let round : Run (State × Option (List ℕ)) = elim r [
        | got bs ↦
            let more = pread_loop f s' (count - length bs) (offset + length bs) >>= λ q.
            let (s'', rest) = q in done (s'', Option.map (λ cs. bs ++ cs) rest) in
            if length bs == 0 then done (s', some []) else more
        | eintr ↦ again
        | failed ↦ done (s', none)
      ] in
      if count == 0 then done (s, some []) else round

  unfoldable pub pread_in_full : ℕ → State → ℕ → ℕ → Run (State × Option (List ℕ))
  pread_in_full fuel s count offset =
      if ltb ssize_max count then done (s, none) else pread_loop fuel s count offset

  -- `pread_in_full` into a buffer, with the two tests on its result that follow each call.
  unfoldable pub read_exactly : ℕ → State → ℕ → ℕ → Run (State × List ℕ)
  read_exactly fuel s count offset = pread_in_full fuel s count offset >>= λ q.
      let (s', r) = q in
      elim r [ none ↦ exits 1 | some bs ↦ if length bs != count then exits 1 else done (s', bs) ]

module _ (os : Host) (abi : ElfAbi) where
  open os use {State, malloc, mprotect}

  -- The end of the loop's body: the page tests and the protection.
  unfoldable pub protect : Loading State → ℕ → ℕ → Phdr → Run (Loading State)
  protect t start end ph =
      let prot = prot_of abi ph in
      let (s, ok) = mprotect t.host start end prot in
      if (bit_and start (em_page_size - 1) != 0) || (bit_and end (em_page_size - 1) != 0)
      then exits 1
      else if prot.write && prot.exec
      then exits 1
      else if ok
      then done (record t {
        host = s;
        mapped = record { start = start; end = end; prot = prot } ∷ t.mapped;
      })
      else exits 1

  -- The loop's body for a segment that is loaded.
  unfoldable pub load_segment : ℕ → Target → Loading State → Phdr → Run (Loading State)
  load_segment fuel g t ph = elim (check_segment g t.plast_vaddr t.e_end ph) [
    | none ↦ exits 1
    | some (start, end) ↦ read_exactly os fuel t.host ph.p_filesz ph.p_offset >>= λ q.
        let (s, bytes) = q in
        let loaded = store_bytes t.mem ph.p_vaddr bytes in
        protect
          (record {
            host = s;
            mem = store_bytes loaded (ph.p_vaddr + ph.p_filesz) (zeros (ph.p_memsz - ph.p_filesz));
            plast_vaddr = ph.p_vaddr;
            e_end = if ltb t.e_end end then end else t.e_end;
            mapped = t.mapped;
          })
          start end ph
  ]

  -- The loop over the program headers from the index `i`, with the rounds that are left.
  unfoldable pub load_segments : ℕ → Target → List ℕ → ℕ → ℕ → Loading State → Run (Loading State)
  load_segments fuel g phdr i zero t = done t
  load_segments fuel g phdr i (suc n) t =
      let ph = abi.phdr_of phdr i in
      let skipped = load_segments fuel g phdr (i + 1) n t in
      let loaded = load_segment fuel g t ph >>= load_segments fuel g phdr (i + 1) n in
      if (ph.p_filesz == 0) || (ph.p_type != abi.pt_load) then skipped else loaded

  -- `elf_load` from the header on: the entry point and the state after the loop, whose `e_end` is
  -- `*p_end`.
  unfoldable pub load_program : ℕ → Target → State → Memory → Ehdr → Run (ℕ × Loading State)
  load_program fuel g s mem ehdr =
      let ph_size = ehdr.e_phnum * ehdr.e_phentsize in
      let (s', ok) = malloc s ph_size in
      if not (ehdr_is_valid abi ehdr)
      then exits 1
      else if ltb ehdr.e_entry g.p_min_loadaddr || leb g.mem_size ehdr.e_entry
      then exits 1
      else if not ok
      then exits 1
      else (read_exactly os fuel s' ph_size ehdr.e_phoff >>= λ q.
          let (s'', phdr) = q in
          load_segments fuel g phdr 0 ehdr.e_phnum
            (record { host = s''; mem = mem; plast_vaddr = 0; e_end = 0; mapped = [] })
          >>= λ t. done (ehdr.e_entry, t))

  unfoldable pub elf_load : ℕ → Target → State → Memory → Run (ℕ × Loading State)
  elf_load fuel g s mem =
      let (s', ok) = malloc s abi.sizeof_ehdr in
      if not ok
      then exits 1
      else (read_exactly os fuel s' abi.sizeof_ehdr 0 >>= λ q.
          let (s'', ehdr) = q in load_program fuel g s'' mem (abi.ehdr_of ehdr))
