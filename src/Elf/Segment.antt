-- ===== src/Elf/Segment.antt =====
-- tenders/common/elf.c: the tests on one segment in plain arithmetic.
use mathlib.Core.Option
use solo.Base.{
  ℕ, ◌+◌, ◌^◌, ◌≤◌, ◌<◌, ◌≡◌, inl, inr, refl, sym, ap, ◌∙◌, Bool, true, false, ◌||◌, ◌&&◌, ltb, leb,
  if◌then◌else◌, Option, none, some, some_inj, arith, subst,
}
use solo.Elf.{Phdr, Target, align_down, align_up, segment_end, check_segment, wraps}
use solo.Elf.Align.{align_down-Below, align_up-Above}

-- What the tests promise of a segment and its aligned range.
pub record Fits (g : Target) (plast_vaddr e_end : ℕ) (ph : Phdr) (start end : ℕ) : Type 0 where
  pub ascending : plast_vaddr ≤ ph.p_vaddr
  pub min : g.p_min_loadaddr ≤ start
  pub disjoint : e_end ≤ start
  pub covers_start : start ≤ ph.p_vaddr
  pub file_part : ph.p_filesz ≤ ph.p_memsz
  pub covers_end : ph.p_vaddr + ph.p_memsz ≤ end
  pub max : end ≤ g.mem_size

down_le : (a align r : ℕ) → a < 2 ^ 64 → align < 2 ^ 64 → align_down a align ≡ some r → r ≤ a
down_le a align r la lal e = elim (align_down-Below a align la lal) [
  | inl (bad, other) ↦ absurd (ground (arith, bad, e))
  | inr (x, good, below) ↦ subst (λ (t : ℕ). t ≤ a) (some_inj (sym good ∙ e)) below.le
]

up_le : (a align r : ℕ) → a < 2 ^ 64 → align < 2 ^ 64 → align_up a align ≡ some r → a ≤ r
up_le a align r la lal e = elim (align_up-Above a align la lal) [
  | inl (bad, other) ↦ absurd (ground (arith, bad, e))
  | inr (x, good, above) ↦ subst (λ (t : ℕ). a ≤ t) (some_inj (sym good ∙ e)) above.le
]

-- A test before an optional result.
unless_some {ℓ} :
    {A : Type ℓ} (b : Bool) {o : Option A} {a : A}
    → (if b then none else o) ≡ some a
    → (b ≡ false) × (o ≡ some a)
unless_some true e = absurd (ground (arith, e))
unless_some false e = (refl, e)

end_facts :
    (g : Target) (ph : Phdr) (end : ℕ)
    → ph.p_align < 2 ^ 64
    → segment_end g ph ≡ some end
    → (ph.p_filesz ≤ ph.p_memsz) × (ph.p_vaddr + ph.p_memsz ≤ end)
end_facts g ph end la e =
    let (fine, aligned) =
      unless_some (ltb ph.p_memsz ph.p_filesz || leb (2 ^ 64) (ph.p_vaddr + ph.p_memsz)) e in
    (
      ground (arith, fine),
      up_le (ph.p_vaddr + ph.p_memsz) ph.p_align end (ground (arith, fine)) la aligned,
    )

-- The tests on a segment.
pub check_segment-Fits :
    (g : Target) (plast_vaddr e_end : ℕ) (ph : Phdr) (start end : ℕ)
    → ph.p_vaddr < 2 ^ 64
    → ph.p_align < 2 ^ 64
    → check_segment g plast_vaddr e_end ph ≡ some (start, end)
    → Fits g plast_vaddr e_end ph start end
unfolding check_segment
check_segment-Fits g plast_vaddr e_end ph start end lv la e =
    let (sorted, e₁) =
      unless_some (ltb ph.p_vaddr g.p_min_loadaddr || ltb ph.p_vaddr plast_vaddr) e in
    let (start', down, e₂) = (Option.bind-eq-some_iff (align_down ph.p_vaddr ph.p_align) _).0 e₁ in
    let (above, e₃) = unless_some (ltb start' g.p_min_loadaddr || ltb start' e_end) e₂ in
    let (file, e₄) =
      unless_some
        (leb g.mem_size ph.p_vaddr
          || (leb (2 ^ 64) (ph.p_vaddr + ph.p_filesz) || ltb g.mem_size (ph.p_vaddr + ph.p_filesz)))
        e₃ in
    let (end', up, e₅) = (Option.bind-eq-some_iff (segment_end g ph) _).0 e₄ in
    let (below, e₆) =
      unless_some (ltb g.mem_size end' || ((ltb e_end end' && wraps g end') || wraps g ph.p_vaddr))
        e₅ in
    let same : (start' ≡ start) × (end' ≡ end) = pair_eq (some_inj e₆) in
    let ends = end_facts g ph end' la up in
    let low = down_le ph.p_vaddr ph.p_align start' lv la down in
    record {
      ascending = ground (arith, sorted);
      min = ground (arith, above, same.0);
      disjoint = ground (arith, above, same.0);
      covers_start = ground (arith, low, same.0);
      file_part = ends.0;
      covers_end = ground (arith, ends, same.1);
      max = ground (arith, below, same.1);
    }
  where
    pair_eq : {u v x y : ℕ} → ◌≡◌ {A = ℕ × ℕ} (u, v) (x, y) → (u ≡ x) × (v ≡ y)
    pair_eq p = (ap (λ (q : ℕ × ℕ). q.0) p, ap (λ (q : ℕ × ℕ). q.1) p)
