-- ===== src/Elf/Load.antt =====
-- tenders/common/elf.c: one round of the loop in `elf_load`.
use solo.Base.{
  ℕ, zero, suc, ◌+◌, ◌-◌, ◌^◌, ◌%◌, ◌≤◌, ◌<◌, ◌≡◌, ◌≢◌, inl, inr, refl, sym, ap, ◌∙◌, subst,
  Bool-cases, false, ◌!=◌, ◌||◌, ◌&&◌, ltb, if◌then◌else◌, List, ◌∷◌, length, Option-cases,
  ReturnsOrExits, stops, returns, arith, bit_and,
}
use solo.Base.Bits.{bit_and_mask}
use solo.Hvt.{Memory}
use native.Mathlib.Decide.{ℕ_discrete}
use solo.Elf.{
  Phdr, ElfAbi, Host, Target, Loading, prot_of, check_segment, protect, load_segment, em_page_size,
}
use solo.Elf.Read.{HostLaws, AreAt, stops, reads, read_exactly-Exactly}
use solo.Elf.Segment.{Fits, check_segment-Fits}
use solo.Elf.Place.{
  AbiLaws, IsLoadable, IsPlaced, IsLoaded, filled, filled-outside, filled-IsPlaced, IsPlaced-same,
  AreMappings-mono,
}

-- The page test.
on_page : (a : ℕ) → (bit_and a (em_page_size - 1) != 0) ≡ false → a % 2 ^ 12 ≡ 0
on_page a e = ground (arith, e, bit_and_mask 12 a)

nonzero : {n : ℕ} → n ≢ 0 → 0 < n
nonzero {n = zero} ne = absurd (ne refl)
nonzero {n = suc n} ne = omega arith

module _ (os : Host) (abi : ElfAbi) (laws : HostLaws os) where
  open laws use {signals, contents}

  -- What `protect` adds.
  record Protects (t : Loading os.State) (start end : ℕ) (ph : Phdr) (t' : Loading os.State)
      : Type 0 where
    mem : t'.mem ≡ t.mem
    e_end : t'.e_end ≡ t.e_end
    calm : signals t'.host ≤ signals t.host
    mapped : t'.mapped ≡ record { start = start; end = end; prot = prot_of abi ph } ∷ t.mapped
    start_page : start % 2 ^ 12 ≡ 0
    end_page : end % 2 ^ 12 ≡ 0
    exclusive : ((prot_of abi ph).write && (prot_of abi ph).exec) ≡ false

  protect-Protects :
      (t : Loading os.State) (start end : ℕ) (ph : Phdr)
      → ReturnsOrExits (Protects t start end ph) (protect os abi t start end ph)
  unfolding protect
  protect-Protects t start end ph =
      elim (Bool-cases
        ((bit_and start (em_page_size - 1) != 0) || (bit_and end (em_page_size - 1) != 0))) [
          | inl off ↦ stops (rw off refl)
          | inr pages ↦ elim (Bool-cases ((prot_of abi ph).write && (prot_of abi ph).exec)) [
            | inl both ↦ stops (rw (pages, both) refl)
            | inr one ↦ elim (Bool-cases (os.mprotect t.host start end (prot_of abi ph)).1) [
              | inr refused ↦ stops (rw (pages, one, refused) refl)
              | inl ok ↦ returns after (rw (pages, one, ok) refl) (record {
                mem = refl;
                e_end = refl;
                calm = laws.mprotect_signals t.host start end (prot_of abi ph);
                mapped = refl;
                start_page = on_page start (ground (arith, pages));
                end_page = on_page end (ground (arith, pages));
                exclusive = one;
              })
            ]
          ]
        ]
    where
      after : Loading os.State
      after = record t {
        host = (os.mprotect t.host start end (prot_of abi ph)).0;
        mapped = record { start = start; end = end; prot = prot_of abi ph } ∷ t.mapped;
      }

  module _ (fields : AbiLaws abi) (g : Target) (mem : Memory) (phdr : List ℕ) where
    -- The state before the `i`th header, with fuel for a segment of any size.
    abbrev pub Before : ℕ → ℕ → Loading os.State → Type 0
    Before fuel i t = IsLoaded abi contents phdr g mem i t × (signals t.host + g.mem_size < fuel)

    pub skip_segment :
        (fuel i : ℕ) (t : Loading os.State)
        → (IsLoadable abi (abi.phdr_of phdr i) → ⊥)
        → Before fuel i t
        → Before fuel (i + 1) t
    skip_segment fuel i t other (old, enough) = (
      record {
        max = old.max;
        outside = old.outside;
        mappings = old.mappings;
        placed = λ n lt loadable. elim (ℕ_discrete n i) [
          | yes same ↦
              absurd (other (subst (λ (n : ℕ). IsLoadable abi (abi.phdr_of phdr n)) same loadable))
          | no ne ↦ old.placed n (omega arith) loadable
        ];
      },
      enough,
    )

    -- The state that `protect` is given.
    abbrev stored : Loading os.State → Phdr → os.State → ℕ → List ℕ → Loading os.State
    stored t ph s end bytes = record {
      host = s;
      mem = filled t.mem ph bytes;
      plast_vaddr = ph.p_vaddr;
      e_end = if ltb t.e_end end then end else t.e_end;
      mapped = t.mapped;
    }

    loaded_one :
        (fuel i : ℕ) (t : Loading os.State) (start end : ℕ) (s : os.State) (bytes : List ℕ)
        (t' : Loading os.State)
        → IsLoadable abi (abi.phdr_of phdr i)
        → Before fuel i t
        → Fits g t.plast_vaddr t.e_end (abi.phdr_of phdr i) start end
        → signals s ≤ signals t.host
        → length bytes ≡ (abi.phdr_of phdr i).p_filesz
        → AreAt contents bytes (abi.phdr_of phdr i).p_offset
        → Protects (stored t (abi.phdr_of phdr i) s end bytes) start end (abi.phdr_of phdr i) t'
        → Before fuel (i + 1) t'
    loaded_one fuel i t start end s bytes t' loadable (old, enough) fits calm len at protects = (
      record {
        max = rw grown fits.max;
        outside = λ k h.
            ap (λ (m : Memory). m k) protects.mem
            ∙ filled-outside t.mem ph bytes k len fits.file_part
                (ground (arith, h, grown, fits.min, fits.covers_start, fits.covers_end))
            ∙ old.outside k (ground (arith, h, grown, lower, fits.covers_end));
        mappings =
            rw (protects.mapped, grown)
              (
                record {
                  min = fits.min;
                  nonempty = omega (arith, upper, fits.covers_start);
                  max = omega arith;
                  start_page = protects.start_page;
                  end_page = protects.end_page;
                  exclusive = protects.exclusive;
                },
                AreMappings-mono g t.e_end start t.mapped fits.disjoint old.mappings,
              );
        placed = λ n lt ready. elim (ℕ_discrete n i) [
          | yes same ↦ subst Placed (sym same) (here, rw grown fits.covers_end)
          | no ne ↦
              let (there, le) = old.placed n (omega arith) ready in
              (
                subst (λ (m : Memory). IsPlaced contents m (abi.phdr_of phdr n)) (sym protects.mem)
                    (IsPlaced-same contents t.mem (filled t.mem ph bytes) (abi.phdr_of phdr n)
                      (λ k below.
                        filled-outside t.mem ph bytes k len fits.file_part
                          (inl (omega (arith, fits.disjoint, fits.covers_start))))
                      there),
                omega (arith, grown, lower, le),
              )
        ];
      },
      omega (arith, protects.calm),
    )
      where
        ph : Phdr
        ph = abi.phdr_of phdr i

        upper : ph.p_vaddr < end
        upper = omega (arith, nonzero loadable.0, fits.file_part, fits.covers_end)

        lower : t.e_end ≤ end
        lower = omega (arith, upper, fits.disjoint, fits.covers_start)

        grown : t'.e_end ≡ end
        grown = protects.e_end ∙ ground (arith, upper, fits.disjoint, fits.covers_start)

        here : IsPlaced contents t'.mem ph
        here =
            subst (λ (m : Memory). IsPlaced contents m ph) (sym protects.mem)
              (filled-IsPlaced contents t.mem ph bytes len fits.file_part at)

        Placed : ℕ → Type 0
        Placed n =
            IsPlaced contents t'.mem (abi.phdr_of phdr n)
            × ((abi.phdr_of phdr n).p_vaddr + (abi.phdr_of phdr n).p_memsz ≤ t'.e_end)

    pub load_segment-Before :
        (fuel i : ℕ) (t : Loading os.State)
        → IsLoadable abi (abi.phdr_of phdr i)
        → Before fuel i t
        → ReturnsOrExits (Before fuel (i + 1)) (load_segment os abi fuel g t (abi.phdr_of phdr i))
    unfolding load_segment
    load_segment-Before fuel i t loadable (old, enough) =
        elim (Option-cases (check_segment g t.plast_vaddr t.e_end ph)) [
          | inl bad ↦ stops (rw (bad, load_segment) refl)
          | inr ((start, end), good) ↦
              let fits =
                check_segment-Fits g t.plast_vaddr t.e_end ph start end (fields.p_vaddr phdr i)
                  (fields.p_align phdr i) good in
              elim (read_exactly-Exactly os laws fuel t.host ph.p_filesz ph.p_offset
                (omega (arith, fits.file_part, fits.covers_end, fits.max))) [
                  | stops bad ↦ stops (rw (good, load_segment, bad) refl)
                  | reads s bytes ends calm len at ↦
                      elim (protect-Protects (stored t ph s end bytes) start end ph) [
                        | stops bad ↦ stops (rw (good, load_segment, ends) bad)
                        | returns t' went protects ↦
                            returns t' (rw (good, load_segment, ends) went) (
                              loaded_one fuel i t start end s bytes t' loadable (old, enough) fits
                                calm len at protects)
                      ]
                ]
        ]
      where
        ph : Phdr
        ph = abi.phdr_of phdr i
