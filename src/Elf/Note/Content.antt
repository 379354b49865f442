-- ===== src/Elf/Note/Content.antt =====
-- tenders/common/elf.c: `elf_load_note` as a whole.
use solo.Base.{
  ℕ, zero, suc, ◌+◌, ◌-◌, ◌^◌, ◌%◌, ◌≤◌, ◌<◌, ◌≡◌, inl, inr, refl, sym, ◌∙◌, subst, Bool-cases,
  true, false, ◌==◌, leb, List, Option, none, some, some_inj, ReturnsOrExits, stops, returns, arith,
}
use solo.Elf.{Host, ElfAbi, Phdr, is_alignment, align_up}
use solo.Elf.Align.{Above, align_up-Above}
use solo.Elf.Read.{HostLaws, stops}
use solo.Elf.Note.{NoteAbi, Nhdr, Wanted, sizeof_solo5_nhdr, find_note, note_offset}
use solo.Elf.Note.Find.{IsNote, NoNote, Checked, Found, check_note-Checked}

-- An alignment that a caller may ask for, and the range of the size field.
pub record IsWanted (w : Wanted) : Type 0 where
  pub power : is_alignment w.note_align ≡ true
  pub small : w.note_align < 2 ^ 32

pub record NoteLaws (notes : NoteAbi) : Type 0 where
  pub n_descsz : (nhdr : List ℕ) → (notes.nhdr_of nhdr).n_descsz < 2 ^ 32

pub note_offset-Above :
    (w : Wanted) → IsWanted w → Above sizeof_solo5_nhdr w.note_align (note_offset w.note_align)
unfolding align_up
note_offset-Above w ok =
    elim (align_up-Above sizeof_solo5_nhdr w.note_align (omega arith) (omega (arith, ok.small))) [
      | inl (fails, none_at) ↦ absurd (ground (arith, sym computed ∙ fails))
      | inr (r, is, above) ↦
          subst (λ t. Above sizeof_solo5_nhdr w.note_align t) (some_inj (sym is ∙ computed)) above
    ]
  where
    computed : align_up sizeof_solo5_nhdr w.note_align ≡ some (note_offset w.note_align)
    computed = rw (ok.power, fits, whole) refl
      where
        fits : leb (2 ^ 64) (sizeof_solo5_nhdr + (w.note_align - 1)) ≡ false
        fits = ground (arith, ok.small)

        whole :
            (sizeof_solo5_nhdr + (w.note_align - 1)) % 2 ^ 64
            ≡ sizeof_solo5_nhdr + (w.note_align - 1)
        whole = omega (arith, ok.small)

module _ (os : Host) (abi : ElfAbi) (notes : NoteAbi) (w : Wanted) (laws : HostLaws os) where
  open laws use {signals, contents}

  -- The program header at the index `j` of the table is not of a wanted note.
  abbrev NoneAt : List ℕ → ℕ → Type 0
  NoneAt phdr j = NoNote contents notes w (abi.phdr_of phdr j)

  -- The first program header of a wanted note from the index `i` on, and before `i + n`; or none is.
  unfoldable pub First : List ℕ → ℕ → ℕ → Option (Phdr × Nhdr) → Type 0
  First phdr i n none = (j : ℕ) → i ≤ j → j < i + n → NoneAt phdr j
  First phdr i n (some (ph, h)) =
      (k : ℕ) × (i ≤ k)
      × (k < i + n)
      × (ph ≡ abi.phdr_of phdr k)
      × IsNote contents notes w ph h
      × ((j : ℕ) → i ≤ j → j < k → NoneAt phdr j)

  abbrev Finds : List ℕ → ℕ → ℕ → os.State → os.State × Option (Phdr × Nhdr) → Type 0
  Finds phdr i n s q = (signals q.0 ≤ signals s) × First phdr i n q.1

  from_here :
      (phdr : List ℕ) (i b : ℕ)
      → NoneAt phdr i
      → ((j : ℕ) → i + 1 ≤ j → j < b → NoneAt phdr j)
      → (j : ℕ) → i ≤ j
      → j < b
      → NoneAt phdr j
  from_here phdr i b no_note rest j ge lt = elim (Bool-cases (j == i)) [
    | inl same ↦ subst (λ t. NoneAt phdr t) (equal same) no_note
    | inr other ↦ rest j (ground (arith, other)) lt
  ]
    where
      equal : (j == i) ≡ true → i ≡ j
      equal same = ground (arith, same)

  one_more :
      (phdr : List ℕ) (i n : ℕ) (o : Option (Phdr × Nhdr))
      → NoneAt phdr i
      → First phdr (i + 1) n o
      → First phdr i (suc n) o
  unfolding First
  one_more phdr i n none no_note rest =
      from_here phdr i (i + suc n) no_note (λ j ge lt. rest j ge (omega (arith, lt)))
  one_more phdr i n (some (ph, h)) no_note (k, ge, lt, is, note, before) =
      (k, omega (arith, ge), omega (arith, lt), is, note, from_here phdr i k no_note before)

  pub find_note-Finds :
      (fuel : ℕ) (phdr : List ℕ) (i n : ℕ) (s : os.State)
      → signals s + sizeof_solo5_nhdr < fuel
      → ReturnsOrExits (Finds phdr i n s) (find_note os abi notes w fuel phdr i n s)
  unfolding find_note Checked Found First
  find_note-Finds fuel phdr i zero s enough =
      returns (s, none) refl (omega arith, λ j ge lt. absurd (omega (arith, ge, lt)))
  find_note-Finds fuel phdr i (suc n) s enough =
      elim (check_note-Checked os notes w laws fuel abi s (abi.phdr_of phdr i) enough) [
        | stops bad ↦ stops (rw bad refl)
        | returns (s', none) went (calm, no_note) ↦
            elim (find_note-Finds fuel phdr (i + 1) n s' (omega (arith, enough, calm))) [
              | stops bad ↦ stops (rw (went, bad) refl)
              | returns r went' (calm', first) ↦
                  returns r (rw (went, went') refl)
                    (omega (arith, calm, calm'), one_more phdr i n r.1 no_note first)
            ]
        | returns (s', some h) went (calm, note) ↦
            returns (s', some (abi.phdr_of phdr i, h)) (rw went refl)
              (
                calm,
                (
                  i,
                  omega arith,
                  omega arith,
                  refl,
                  note,
                  λ j ge lt. absurd (omega (arith, ge, lt)),
                ),
              )
      ]
