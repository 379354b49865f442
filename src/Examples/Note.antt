-- ===== src/Examples/Note.antt =====
-- An executable with a note of the ABI, aligned to eight bytes.
use solo.Base.{ℕ, ◌≡◌, List, [], ◌∷◌, ◌++◌, refl, arith, Option, some, done, ReturnsOrExits}
use solo.Elf.{ElfAbi, read_exactly, pread_in_full, pread_loop, ehdr_is_valid}
use solo.Elf.Place.{AbiLaws}
use solo.Elf.Note.{
  NoteAbi, Wanted, elf_load_note, solo5_note_name, load_note, find_note, check_note, check_size,
  read_note,
}
use solo.Elf.Note.Content.{IsWanted, NoteLaws}
use solo.Elf.Note.Load.{IsNoteOf, elf_load_note-IsNoteOf}
use solo.CString.{strncmp, strncmp_loop}
use solo.Examples.Program.{byte_abi, host, host-laws}

-- Two bytes of header, one of program header, twelve of note header, the name with its padding, the
-- content's padding and the content.
abbrev noted : List ℕ
noted =
    7
    ∷ 1
    ∷ 9
    ∷ 6
    ∷ 0
    ∷ 0
    ∷ 0
    ∷ 7
    ∷ 0
    ∷ 0
    ∷ 0
    ∷ 1
    ∷ 0
    ∷ 0
    ∷ 0
    ∷ (solo5_note_name ++ (0 ∷ 0 ∷ 0 ∷ 0 ∷ 0 ∷ 0 ∷ 31 ∷ 32 ∷ 33 ∷ []))

abbrev note_abi : ElfAbi
note_abi = record byte_abi {
  phdr_of = λ bs i. record {
    p_type = 4;
    p_flags = 4;
    p_offset = 3;
    p_vaddr = 0;
    p_filesz = 27;
    p_memsz = 27;
    p_align = 4;
  };
}

note_abi-laws : AbiLaws note_abi
note_abi-laws = record {
  p_vaddr = λ bs i. omega arith;
  p_align = λ bs i. omega arith;
  e_phnum = λ bs. omega arith;
}

abbrev notes : NoteAbi
notes = record { nhdr_of = λ bs. record { n_namesz = 6; n_descsz = 7; n_type = 1 }; pt_note = 4 }

notes-laws : NoteLaws notes
notes-laws = record { n_descsz = λ bs. omega arith }

abbrev wanted : Wanted
wanted = record { note_type = 1; note_align = 8; max_note_size = 64 }

wanted-IsWanted : IsWanted wanted
wanted-IsWanted = record { power = refl; small = omega arith }

elf_load_note-IsNoteOf_example :
    ReturnsOrExits
      (λ (q : ℕ × Option (List ℕ)).
        IsNoteOf (host noted) note_abi notes wanted (host-laws noted) q.1)
      (elf_load_note (host noted) note_abi notes wanted 100000 1)
elf_load_note-IsNoteOf_example =
    elf_load_note-IsNoteOf (host noted) note_abi notes wanted (host-laws noted) note_abi-laws
      notes-laws wanted-IsWanted 100000 1 (omega arith)

note_test :
    elf_load_note (host noted) note_abi notes wanted 40 1 ≡ done (0, some (31 ∷ 32 ∷ 33 ∷ []))
unfolding elf_load_note load_note find_note check_note check_size read_note read_exactly
    pread_in_full pread_loop ehdr_is_valid strncmp strncmp_loop
note_test = refl
