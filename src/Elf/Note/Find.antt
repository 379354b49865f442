-- ===== src/Elf/Note/Find.antt =====
-- tenders/common/elf.c: the loop of `elf_load_note` over the program headers.
use mathlib.Core.Bool.{true≢false}
use solo.Base.{
  ℕ, zero, suc, ◌+◌, ◌-◌, ◌≤◌, ◌<◌, ◌≡◌, ◌≢◌, ◌↔◌, inl, inr, refl, sym, ap, ◌∙◌, Bool-cases, true,
  false, not, ◌||◌, ◌&&◌, ◌==◌, ◌!=◌, ltb, if◌then◌else◌, List, [], ◌∷◌, length, take, drop, Option,
  none, some, Run, done, ◌>>=◌, ReturnsOrExits, stops, returns, arith, ℤ, sub_ℕ, is_zero,
}
use solo.CString.{strncmp, strncmp_loop}
use solo.Elf.{Host, ElfAbi, Phdr}
use solo.Elf.Read.{HostLaws, AreAt, stops, reads, read_exactly-Exactly}
use solo.Elf.Note.{
  NoteAbi, Nhdr, Wanted, solo5_note_name, sizeof_nhdr, sizeof_solo5_nhdr, n_name_of, check_size,
  check_note,
}

-- Bytes up to the NUL that ends them.
IsString : List ℕ → Type 0
IsString [] = ⊥
IsString (c ∷ []) = c ≡ 0
IsString (c ∷ d ∷ s) = (c ≢ 0) × IsString (d ∷ s)

MatchesPrefix : List ℕ → List ℕ → Run ℤ → Type 0
MatchesPrefix l r x = (z : ℤ) × (x ≡ done z) × ((is_zero z ≡ true) ↔ (take (length r) l ≡ r))

sub_zero : (a b : ℕ) → (is_zero (sub_ℕ a b) ≡ true) ↔ (a ≡ b)
sub_zero a b = ground arith

strncmp_loop-prefix :
    (r l : List ℕ) (n : ℕ)
    → IsString r
    → length r ≡ suc n
    → length r ≤ length l
    → MatchesPrefix l r (strncmp_loop l r n)
unfolding strncmp_loop MatchesPrefix IsString
strncmp_loop-prefix [] l n str len le = absurd str
strncmp_loop-prefix (c ∷ r) [] n str len le = absurd (omega (arith, le))
strncmp_loop-prefix (c ∷ []) (a ∷ l) n str len le =
    (sub_ℕ a c, ground (arith, str), (ground (arith, str), ground (arith, str)))
strncmp_loop-prefix (c ∷ d ∷ s) (a ∷ l) zero (ne, str) len le = absurd (omega (arith, len))
strncmp_loop-prefix (c ∷ d ∷ s) (a ∷ l) (suc n) (ne, str) len le = elim (Bool-cases (a == c)) [
  | inl same ↦
      let rest = strncmp_loop-prefix (d ∷ s) l n str (omega (arith, len)) (omega (arith, le)) in
      (
        rest.0,
        rw (goes_on same, less) rest.1,
        (λ e. both (ground (arith, same)) (rest.2.0 e), λ e. rest.2.1 (tail e)),
      )
  | inr other ↦ (
    sub_ℕ a c,
    rw (stops other) refl,
    (λ e. absurd (ground (arith, e, other)), λ e. absurd (ground (arith, e, other))),
  )
]
  where
    less : suc n - 1 ≡ n
    less = omega arith

    both : a ≡ c → take (suc (length s)) l ≡ d ∷ s → a ∷ take (suc (length s)) l ≡ c ∷ d ∷ s
    both e f = cc

    tail : a ∷ take (suc (length s)) l ≡ c ∷ d ∷ s → take (suc (length s)) l ≡ d ∷ s
    tail e = cc

    goes_on : (a == c) ≡ true → ((a != 0) && ((c != 0) && ((suc n != 0) && (a == c)))) ≡ true
    goes_on same = ground (arith, same, ne)

    stops : (a == c) ≡ false → ((a != 0) && ((c != 0) && ((suc n != 0) && (a == c)))) ≡ false
    stops other = ground (arith, other)

-- The bytes of a note's header name Solo5 as the owner, and the wanted type.
pub record Matches (notes : NoteAbi) (w : Wanted) (nhdr : List ℕ) : Type 0 where
  pub namesz : (notes.nhdr_of nhdr).n_namesz ≡ 6
  pub name : take 6 (n_name_of nhdr) ≡ solo5_note_name
  pub type : (notes.nhdr_of nhdr).n_type ≡ w.note_type

-- The program header is of the wanted note, with the note's header `h` and a content of a size in the limits.
pub record IsNote (file : List ℕ) (notes : NoteAbi) (w : Wanted) (ph : Phdr) (h : Nhdr)
    : Type 0 where
  pub nhdr : List ℕ
  pub nhdr_at : AreAt file nhdr ph.p_offset
  pub nhdr_size : length nhdr ≡ sizeof_solo5_nhdr
  pub is : h ≡ notes.nhdr_of nhdr
  pub note : ph.p_type ≡ notes.pt_note
  pub matches : Matches notes w nhdr
  pub descsz_min : 1 ≤ h.n_descsz
  pub descsz_max : h.n_descsz ≤ w.max_note_size
  pub inside : sizeof_solo5_nhdr + h.n_descsz ≤ ph.p_filesz

-- The program header is of no note, or of one that is not wanted.
abbrev pub NoNote : List ℕ → NoteAbi → Wanted → Phdr → Type 0
NoNote file notes w ph =
    ph.p_type ≡ notes.pt_note
    → sizeof_solo5_nhdr ≤ ph.p_filesz
    → (nhdr : List ℕ) × (AreAt file nhdr ph.p_offset)
      × (length nhdr ≡ sizeof_solo5_nhdr)
      × (Matches notes w nhdr → ⊥)

length-drop : (n : ℕ) (xs : List ℕ) → length (drop n xs) ≡ length xs - n
length-drop zero xs = omega arith
length-drop (suc n) [] = omega arith
length-drop (suc n) (x ∷ xs) = omega (arith, length-drop n xs)

length-take : (n : ℕ) (xs : List ℕ) → n ≤ length xs → length (take n xs) ≡ n
length-take zero xs le = refl
length-take (suc n) [] le = absurd (omega arith)
length-take (suc n) (x ∷ xs) le = ap suc (length-take n xs (omega (arith, le)))

solo5_note_name-IsString : IsString solo5_note_name
unfolding IsString
solo5_note_name-IsString =
    (omega arith, (omega arith, (omega arith, (omega arith, (omega arith, refl)))))

name_test :
    (nhdr : List ℕ)
    → length nhdr ≡ sizeof_solo5_nhdr
    → MatchesPrefix (n_name_of nhdr) solo5_note_name (strncmp (n_name_of nhdr) solo5_note_name 6)
unfolding strncmp
name_test nhdr size =
    strncmp_loop-prefix solo5_note_name (n_name_of nhdr) 5 solo5_note_name-IsString refl (
      omega (
        arith,
        length-take 8 (drop sizeof_nhdr nhdr) (omega (arith, length-drop sizeof_nhdr nhdr, size)),
        size,
      ))

module _ (os : Host) (notes : NoteAbi) (w : Wanted) (laws : HostLaws os) where
  open laws use {signals, contents}

  unfoldable pub Found : Phdr → Option Nhdr → Type 0
  Found ph none = NoNote contents notes w ph
  Found ph (some h) = IsNote contents notes w ph h

  -- What the loop's body has found out when it does not end the process.
  unfoldable pub Checked : os.State → Phdr → os.State × Option Nhdr → Type 0
  Checked s ph q = (signals q.0 ≤ signals s) × Found ph q.1

  not_wanted :
      (s s' : os.State) (ph : Phdr) (nhdr : List ℕ)
      → signals s' ≤ signals s
      → length nhdr ≡ sizeof_solo5_nhdr
      → AreAt contents nhdr ph.p_offset
      → (Matches notes w nhdr → ⊥)
      → Checked s ph (s', none)
  unfolding Checked Found
  not_wanted s s' ph nhdr calm size at other = (calm, λ note room. (nhdr, at, size, other))

  check_size-Checked :
      (s s' : os.State) (ph : Phdr) (nhdr : List ℕ)
      → signals s' ≤ signals s
      → length nhdr ≡ sizeof_solo5_nhdr
      → AreAt contents nhdr ph.p_offset
      → ph.p_type ≡ notes.pt_note
      → Matches notes w nhdr
      → ReturnsOrExits
          (Checked s ph)
          (check_size w ph (notes.nhdr_of nhdr) >>= λ found. done (s', found))
  unfolding check_size Checked Found
  check_size-Checked s s' ph nhdr calm size at note matches =
      elim (Bool-cases (ltb h.n_descsz 1 || ltb w.max_note_size h.n_descsz)) [
        | inl bad ↦ stops (rw bad refl)
        | inr sized ↦ elim (Bool-cases (ltb ph.p_filesz (sizeof_solo5_nhdr + h.n_descsz))) [
          | inl out ↦ stops (rw (sized, out) refl)
          | inr inside ↦
              returns (s', some h) (rw (sized, inside) refl)
                (
                  calm,
                  record {
                    nhdr = nhdr;
                    nhdr_at = at;
                    nhdr_size = size;
                    is = refl;
                    note = note;
                    matches = matches;
                    descsz_min = ground (arith, sized);
                    descsz_max = ground (arith, sized);
                    inside = ground (arith, inside);
                  },
                )
        ]
      ]
    where
      h : Nhdr
      h = notes.nhdr_of nhdr

  -- The tests on a header that has been read.
  header-Checked :
      (s s' : os.State) (ph : Phdr) (nhdr : List ℕ)
      → signals s' ≤ signals s
      → length nhdr ≡ sizeof_solo5_nhdr
      → AreAt contents nhdr ph.p_offset
      → ph.p_type ≡ notes.pt_note
      → ReturnsOrExits (Checked s ph) (
          if (notes.nhdr_of nhdr).n_namesz != 6
          then done (s', none)
          else (strncmp (n_name_of nhdr) solo5_note_name 6 >>= λ z.
              if not (is_zero z)
              then done (s', none)
              else if (notes.nhdr_of nhdr).n_type != w.note_type
              then done (s', none)
              else (check_size w ph (notes.nhdr_of nhdr) >>= λ found. done (s', found))))
  unfolding MatchesPrefix
  header-Checked s s' ph nhdr calm size at note =
      let (z, ends, same) = name_test nhdr size in
      elim (Bool-cases ((notes.nhdr_of nhdr).n_namesz != 6)) [
        | inl other ↦
            returns (s', none) (rw other refl)
              (no_match (λ m. absurd (ground (arith, m.namesz, other))))
        | inr namesz ↦ elim (Bool-cases (is_zero z)) [
          | inr other ↦
              returns (s', none) (rw (namesz, ends, other) refl)
                (no_match (λ m. absurd (true≢false (sym (same.1 m.name) ∙ other))))
          | inl name ↦ elim (Bool-cases ((notes.nhdr_of nhdr).n_type != w.note_type)) [
            | inl other ↦
                returns (s', none) (rw (namesz, ends, name, other) refl)
                  (no_match (λ m. absurd (ground (arith, m.type, other))))
            | inr type ↦
                rw (namesz, ends, name, type)
                  (check_size-Checked s s' ph nhdr calm size at note (record {
                    namesz = ground (arith, namesz);
                    name = same.0 name;
                    type = ground (arith, type);
                  }))
          ]
        ]
      ]
    where
      no_match : (Matches notes w nhdr → ⊥) → Checked s ph (s', none)
      no_match = not_wanted s s' ph nhdr calm size at

  pub check_note-Checked :
      (fuel : ℕ) (abi : ElfAbi) (s : os.State) (ph : Phdr)
      → signals s + sizeof_solo5_nhdr < fuel
      → ReturnsOrExits (Checked s ph) (check_note os abi notes w fuel s ph)
  unfolding check_note Checked Found
  check_note-Checked fuel abi s ph enough = elim (Bool-cases (ph.p_type != notes.pt_note)) [
    | inl other ↦
        returns (s, none) (rw other refl) (omega arith, λ e room. absurd (ground (arith, e, other)))
    | inr note ↦ elim (Bool-cases (ltb ph.p_filesz sizeof_nhdr)) [
      | inl short ↦ stops (rw (note, short) refl)
      | inr long ↦ elim (Bool-cases (ltb ph.p_filesz sizeof_solo5_nhdr)) [
        | inl short ↦
            returns (s, none) (rw (note, long, short) refl)
              (omega arith, λ e room. absurd (ground (arith, room, short)))
        | inr whole ↦
            elim (read_exactly-Exactly os laws fuel s sizeof_solo5_nhdr ph.p_offset enough) [
              | stops bad ↦ stops (rw (note, long, whole, bad) refl)
              | reads s' nhdr ends calm size at ↦
                  rw (note, long, whole, ends)
                    (header-Checked s s' ph nhdr calm size at (ground (arith, note)))
            ]
      ]
    ]
  ]
