-- ===== src/Elf/Note.antt =====
-- tenders/common/elf.c: `elf_load_note`, which finds a note of Solo5's in an executable and reads
-- its content. What <elf.h> says of notes is a parameter.
pub mod Find
pub mod Content
pub mod Load
use mathlib.Core.Option
use solo.Base.{
  ℕ, zero, suc, ◌+◌, ◌-◌, ◌*◌, ◌^◌, ◌%◌, Bool, not, ◌||◌, ◌==◌, ◌!=◌, ltb, leb, if◌then◌else◌, List,
  [], ◌∷◌, length, take, drop, false, Option, none, some, Run, done, exits, ◌>>=◌, ◌>>◌, c_assert,
  bit_and, is_zero,
}
use solo.CString.{strncmp}
use solo.Elf.{Host, ElfAbi, Ehdr, Phdr, ehdr_is_valid, is_alignment, read_exactly}

pub record Nhdr : Type 0 where
  pub n_namesz : ℕ
  pub n_descsz : ℕ
  pub n_type : ℕ

pub record NoteAbi : Type 0 where
  pub nhdr_of : List ℕ → Nhdr
  pub pt_note : ℕ

-- `SOLO5_NOTE_NAME`, with its NUL.
abbrev pub solo5_note_name : List ℕ
solo5_note_name = b'S' ∷ b'o' ∷ b'l' ∷ b'o' ∷ b'5' ∷ 0 ∷ []

-- The sizes of `Elf64_Nhdr`, of `n_name` and of `struct solo5_nhdr`, as the static assertion has them.
abbrev pub sizeof_nhdr : ℕ
sizeof_nhdr = 12

abbrev pub sizeof_solo5_nhdr : ℕ
sizeof_solo5_nhdr = 20

abbrev pub n_name_of : List ℕ → List ℕ
n_name_of nhdr = take 8 (drop sizeof_nhdr nhdr)

-- What `elf_load_note` is called with, less the file.
pub record Wanted : Type 0 where
  pub note_type : ℕ
  pub note_align : ℕ
  pub max_note_size : ℕ

-- The tests on a note of the wanted type.
unfoldable pub check_size : Wanted → Phdr → Nhdr → Run (Option Nhdr)
check_size w ph h =
    if ltb h.n_descsz 1 || ltb w.max_note_size h.n_descsz
    then exits 1
    else if ltb ph.p_filesz (sizeof_solo5_nhdr + h.n_descsz)
    then exits 1
    else done (some h)

-- `note_offset`, with the wrap-around of `size_t`.
abbrev pub note_offset : ℕ → ℕ
note_offset note_align =
    bit_and ((sizeof_solo5_nhdr + (note_align - 1)) % 2 ^ 64) (2 ^ 64 - note_align)

module _ (os : Host) (abi : ElfAbi) (notes : NoteAbi) (w : Wanted) where
  open os use {State, malloc}

  -- The loop's body: the note's header, or `none` for a program header that is passed over.
  unfoldable pub check_note : ℕ → State → Phdr → Run (State × Option Nhdr)
  check_note fuel s ph =
      if ph.p_type != notes.pt_note
      then done (s, none)
      else if ltb ph.p_filesz sizeof_nhdr
      then exits 1
      else if ltb ph.p_filesz sizeof_solo5_nhdr
      then done (s, none)
      else (read_exactly os fuel s sizeof_solo5_nhdr ph.p_offset >>= λ q.
          let (s', nhdr) = q in
          let h = notes.nhdr_of nhdr in
          if h.n_namesz != length solo5_note_name
          then done (s', none)
          else (strncmp (n_name_of nhdr) solo5_note_name (length solo5_note_name) >>= λ z.
              if not (is_zero z)
              then done (s', none)
              else if h.n_type != w.note_type
              then done (s', none)
              else (check_size w ph h >>= λ found. done (s', found))))

  -- The loop over the program headers from the index `i`, with the rounds that are left: the program
  -- header and the note header that end it, or `none` where `note_found` stays false.
  unfoldable pub find_note : ℕ → List ℕ → ℕ → ℕ → State → Run (State × Option (Phdr × Nhdr))
  find_note fuel phdr i zero s = done (s, none)
  find_note fuel phdr i (suc n) s =
      let ph = abi.phdr_of phdr i in
      check_note fuel s ph >>= λ q.
      let (s', found) = q in
      elim found [ none ↦ find_note fuel phdr (i + 1) n s' | some h ↦ done (s', some (ph, h)) ]

  -- What follows the loop for a note that is found.
  unfoldable pub read_note : ℕ → State → Phdr → Nhdr → Run (State × List ℕ)
  read_note fuel s ph h =
      let offset = note_offset w.note_align in
      let note_pad = offset - sizeof_solo5_nhdr in
      let note_size = (h.n_descsz + 2 ^ 64 - note_pad) % 2 ^ 64 in
      c_assert (is_alignment w.note_align)
      >> (c_assert (leb sizeof_solo5_nhdr offset)
          >> (if (note_size == 0) || ltb h.n_descsz note_size
              then exits 1
              else let (s', ok) = malloc s note_size in
                if not ok
                then exits 1
                else read_exactly os fuel s' note_size ((ph.p_offset + offset) % 2 ^ 64)))

  -- From the header on.
  unfoldable pub load_note : ℕ → State → Ehdr → Run (State × Option (List ℕ))
  load_note fuel s ehdr =
      let ph_size = ehdr.e_phnum * ehdr.e_phentsize in
      let (s', ok) = malloc s ph_size in
      if not (ehdr_is_valid abi ehdr)
      then exits 1
      else if not ok
      then exits 1
      else (read_exactly os fuel s' ph_size ehdr.e_phoff >>= λ q.
          let (s'', phdr) = q in
          find_note fuel phdr 0 ehdr.e_phnum s'' >>= λ r.
          let (t, found) = r in
          elim found [
            | none ↦ done (t, none)
            | some (ph, h) ↦ read_note fuel t ph h >>= λ q. done (q.0, some q.1)
          ])

  -- `none` is the result -1; otherwise the note's content, in `*out_note_data` and `*out_note_size`.
  unfoldable pub elf_load_note : ℕ → State → Run (State × Option (List ℕ))
  elf_load_note fuel s =
      let (s', ok) = malloc s abi.sizeof_ehdr in
      if not ok
      then exits 1
      else (read_exactly os fuel s' abi.sizeof_ehdr 0 >>= λ q.
          let (s'', ehdr) = q in load_note fuel s'' (abi.ehdr_of ehdr))
