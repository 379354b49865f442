-- ===== src/Elf/Note/Load.antt =====
-- tenders/common/elf.c: `elf_load_note` as a whole.
use native.Mathlib.Nat.{mul-le-mul_right}
use solo.Base.{
  ℕ, ◌+◌, ◌-◌, ◌*◌, ◌^◌, ◌%◌, ◌≤◌, ◌<◌, ◌≡◌, inl, inr, refl, sym, ap, ◌∙◌, subst, Bool-cases, true,
  false, ◌||◌, ◌==◌, ltb, leb, List, length, Option, none, some, done, ◌>>=◌, ReturnsOrExits, stops,
  returns, arith,
}
use solo.Elf.{Host, ElfAbi, Ehdr, Phdr, ehdr_is_valid}
use solo.Elf.Align.{Above}
use solo.Elf.Read.{HostLaws, AreAt, stops, reads, read_exactly-Exactly}
use solo.Elf.Place.{AbiLaws}
use solo.Elf.Program.{phentsize}
use solo.Elf.Note.{
  NoteAbi, Nhdr, Wanted, sizeof_solo5_nhdr, note_offset, read_note, load_note, elf_load_note,
}
use solo.Elf.Note.Find.{IsNote}
use solo.Elf.Note.Content.{IsWanted, NoteLaws, First, find_note-Finds, note_offset-Above}

-- The bytes are the note's content: from the first aligned place behind the note's header on, and up to the
-- end of the descriptor.
pub record IsContent (file : List ℕ) (w : Wanted) (ph : Phdr) (h : Nhdr) (bytes : List ℕ)
    : Type 0 where
  pub offset : ℕ
  pub aligned : Above sizeof_solo5_nhdr w.note_align offset
  pub size : offset + length bytes ≡ sizeof_solo5_nhdr + h.n_descsz
  pub nonempty : 1 ≤ length bytes
  pub at : AreAt file bytes ((ph.p_offset + offset) % 2 ^ 64)

module _ (os : Host) (abi : ElfAbi) (notes : NoteAbi) (w : Wanted) (laws : HostLaws os) where
  open laws use {signals, contents}

  unfoldable pub Contents : Option (Phdr × Nhdr) → Option (List ℕ) → Type 0
  Contents none none = Unit {0}
  Contents none (some bytes) = ⊥
  Contents (some (ph, h)) none = ⊥
  Contents (some (ph, h)) (some bytes) = IsContent contents w ph h bytes

  -- What `elf_load_note` has found out when it returns.
  pub record IsNoteOf (out : Option (List ℕ)) : Type 0 where
    pub header : List ℕ
    pub header_at : AreAt contents header 0
    pub header_size : length header ≡ abi.sizeof_ehdr
    pub valid : ehdr_is_valid abi (abi.ehdr_of header) ≡ true
    pub phdr : List ℕ
    pub phdr_at : AreAt contents phdr (abi.ehdr_of header).e_phoff
    pub phdr_size : length phdr ≡ (abi.ehdr_of header).e_phnum * abi.sizeof_phdr
    pub found : Option (Phdr × Nhdr)
    pub first : First os abi notes w laws phdr 0 (abi.ehdr_of header).e_phnum found
    pub content : Contents found out

  read_note-IsContent :
      (fuel : ℕ) (s : os.State) (ph : Phdr) (h : Nhdr)
      → IsWanted w
      → h.n_descsz < 2 ^ 32
      → signals s + h.n_descsz < fuel
      → ReturnsOrExits
          (λ (q : os.State × List ℕ). IsContent contents w ph h q.1)
          (read_note os abi notes w fuel s ph h)
  unfolding read_note
  read_note-IsContent fuel s ph h ok small enough =
      elim (Bool-cases ((note_size == 0) || ltb h.n_descsz note_size)) [
        | inl bad ↦ stops (rw (ok.power, behind, bad) refl)
        | inr sized ↦ elim (Bool-cases (os.malloc s note_size).1) [
          | inr refused ↦ stops (rw (ok.power, behind, sized, refused) refl)
          | inl given ↦
              elim (read_exactly-Exactly os laws fuel (os.malloc s note_size).0 note_size
                ((ph.p_offset + offset) % 2 ^ 64) (room sized)) [
                  | stops bad ↦ stops (rw (ok.power, behind, sized, given, bad) refl)
                  | reads s' bytes ends calm size at ↦
                      returns (s', bytes) (rw (ok.power, behind, sized, given, ends) refl)
                        (record {
                          offset = offset;
                          aligned = above;
                          size = ground (arith, size, sized, above.le, above.near, ok.small, small);
                          nonempty = ground (arith, size, sized);
                          at = at;
                        })
                ]
        ]
      ]
    where
      offset : ℕ
      offset = note_offset w.note_align

      above : Above sizeof_solo5_nhdr w.note_align offset
      above = note_offset-Above w ok

      note_size : ℕ
      note_size = (h.n_descsz + 2 ^ 64 - (offset - sizeof_solo5_nhdr)) % 2 ^ 64

      behind : leb sizeof_solo5_nhdr offset ≡ true
      behind = ground (arith, above.le)

      room :
          ((note_size == 0) || ltb h.n_descsz note_size) ≡ false
          → signals (os.malloc s note_size).0 + note_size < fuel
      room sized = ground (arith, sized, enough, laws.malloc_signals s note_size)

  module _ (fields : AbiLaws abi) (sizes : NoteLaws notes) (ok : IsWanted w) where
    descsz_small : (ph : Phdr) (h : Nhdr) → IsNote contents notes w ph h → h.n_descsz < 2 ^ 32
    descsz_small ph h note =
        subst (λ (t : Nhdr). t.n_descsz < 2 ^ 32) (sym note.is) (sizes.n_descsz note.nhdr)

    note-Contents :
        (fuel : ℕ) (s : os.State) (phdr : List ℕ) (i n : ℕ) (found : Option (Phdr × Nhdr))
        → signals s + w.max_note_size < fuel
        → First os abi notes w laws phdr i n found
        → ReturnsOrExits
            (λ (q : os.State × Option (List ℕ)). Contents found q.1)
            (elim found [
              | none ↦ done (s, none)
              | some (ph, h) ↦ read_note os abi notes w fuel s ph h >>= λ q. done (q.0, some q.1)
            ])
    unfolding First Contents
    note-Contents fuel s phdr i n none enough first = returns (s, none) refl tt
    note-Contents fuel s phdr i n (some (ph, h)) enough (k, ge, lt, is, note, before) =
        elim (read_note-IsContent fuel s ph h ok (descsz_small ph h note)
          (omega (arith, note.descsz_max, enough))) [
            | stops bad ↦ stops (rw bad refl)
            | returns q went content ↦ returns (q.0, some q.1) (rw went refl) content
          ]

    load_note-IsNoteOf :
        (fuel : ℕ) (s : os.State) (header : List ℕ)
        → AreAt contents header 0
        → length header ≡ abi.sizeof_ehdr
        → signals s + (2 ^ 16 * abi.sizeof_phdr + sizeof_solo5_nhdr + w.max_note_size) < fuel
        → ReturnsOrExits
            (λ (q : os.State × Option (List ℕ)). IsNoteOf q.1)
            (load_note os abi notes w fuel s (abi.ehdr_of header))
    unfolding load_note
    load_note-IsNoteOf fuel s header at size enough = elim (Bool-cases (ehdr_is_valid abi h)) [
      | inr bad ↦ stops (rw bad refl)
      | inl valid ↦ elim (Bool-cases (os.malloc s ph_size).1) [
        | inr refused ↦ stops (rw (valid, refused) refl)
        | inl given ↦ elim (read_exactly-Exactly os laws fuel s' ph_size h.e_phoff (room valid)) [
          | stops bad ↦ stops (rw (valid, given, bad) refl)
          | reads s'' phdr ends calm len phdr_at ↦
              elim (find_note-Finds os abi notes w laws fuel phdr 0 h.e_phnum s''
                (omega (arith, calm, enough, laws.malloc_signals s ph_size))) [
                  | stops bad ↦ stops (rw (valid, given, ends, bad) refl)
                  | returns (t, found) went (calm', first) ↦
                      elim (note-Contents fuel t phdr 0 h.e_phnum found
                        (omega (arith, calm, calm', enough, laws.malloc_signals s ph_size)) first) [
                          | stops bad ↦ stops (rw (valid, given, ends, went, bad) refl)
                          | returns q went' content ↦
                              returns q (rw (valid, given, ends, went, went') refl) (record {
                                header = header;
                                header_at = at;
                                header_size = size;
                                valid = valid;
                                phdr = phdr;
                                phdr_at = phdr_at;
                                phdr_size =
                                    len ∙ ap (λ (n : ℕ). h.e_phnum * n) (phentsize abi h valid);
                                found = found;
                                first = first;
                                content = content;
                              })
                        ]
                ]
        ]
      ]
    ]
      where
        h : Ehdr
        h = abi.ehdr_of header

        ph_size : ℕ
        ph_size = h.e_phnum * h.e_phentsize

        s' : os.State
        s' = (os.malloc s ph_size).0

        few : h.e_phnum ≤ 2 ^ 16
        few = omega (arith, fields.e_phnum header)

        table : ehdr_is_valid abi h ≡ true → ph_size ≤ 2 ^ 16 * abi.sizeof_phdr
        table valid =
            subst (λ (n : ℕ). h.e_phnum * n ≤ 2 ^ 16 * abi.sizeof_phdr)
              (sym (phentsize abi h valid)) (mul-le-mul_right abi.sizeof_phdr few)

        room : ehdr_is_valid abi h ≡ true → signals s' + ph_size < fuel
        room valid = omega (arith, table valid, enough, laws.malloc_signals s ph_size)

    -- For an alignment that is a power of two below 2^32, and whatever file and host it meets,
    -- `elf_load_note` with enough fuel ends the process or returns. When it returns, the header is
    -- valid; it has found the first of the program headers that is of a note of Solo5's and of the wanted
    -- type, or has returned -1, and there is none. The content of the note that is found lies inside
    -- the segment and in the limit of the caller; what is returned are its bytes in the file from the first
    -- aligned place behind the note's header up to its end, and there is at least one.
    pub elf_load_note-IsNoteOf :
        (fuel : ℕ) (s : os.State)
        → signals s
            + (abi.sizeof_ehdr + 2 ^ 16 * abi.sizeof_phdr + sizeof_solo5_nhdr + w.max_note_size)
          < fuel
        → ReturnsOrExits
            (λ (q : os.State × Option (List ℕ)). IsNoteOf q.1)
            (elf_load_note os abi notes w fuel s)
    unfolding elf_load_note
    elf_load_note-IsNoteOf fuel s enough = elim (Bool-cases (os.malloc s abi.sizeof_ehdr).1) [
      | inr refused ↦ stops (rw refused refl)
      | inl given ↦
          elim (read_exactly-Exactly os laws fuel s' abi.sizeof_ehdr 0
            (omega (arith, laws.malloc_signals s abi.sizeof_ehdr, enough))) [
              | stops bad ↦ stops (rw (given, bad) refl)
              | reads s'' header ends calm size at ↦
                  rw (given, ends)
                    (load_note-IsNoteOf fuel s'' header at size
                      (omega (arith, calm, laws.malloc_signals s abi.sizeof_ehdr, enough)))
            ]
    ]
      where
        s' : os.State
        s' = (os.malloc s abi.sizeof_ehdr).0
