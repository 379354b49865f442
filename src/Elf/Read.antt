-- ===== src/Elf/Read.antt =====
-- tenders/common/elf.c: `pread_in_full`, whatever pieces `pread` returns.
use mathlib.Core.Option
use solo.Base.{
  Option-cases, Option-cases, ltb, ◌!=◌, some_inj, length-append, ℕ, zero, suc, ◌+◌, ◌-◌, ◌≤◌, ◌<◌,
  ◌≡◌, ◌⊎◌, inl, inr, refl, sym, ◌∙◌, subst, false, Bool-cases, ◌==◌, List, [], ◌∷◌, ◌++◌, length,
  Option, none, some, Run, done, exits, ◌>>=◌, arith, get_elem?,
}
use native.Mathlib.Nat.{add-zero}
use solo.Elf.{
  Host, PRead, got, eintr, failed, Prot, pread_loop, pread_in_full, read_exactly, ssize_max,
}

-- The bytes that a `pread` has put into the buffer, and the interruptions that it stands for.
abbrev pub bytes_of : PRead → List ℕ
bytes_of (got bs) = bs
bytes_of eintr = []
bytes_of failed = []

abbrev pub interruptions : PRead → ℕ
interruptions (got bs) = 0
interruptions eintr = 1
interruptions failed = 0

-- What the loader relies on. `contents` is the file's bytes, which nothing changes meanwhile. `pread` gives
-- no more bytes than it is asked for, and they are the file's; only the signals that are
-- pending, and they are finitely many, interrupt it.
pub record HostLaws (os : Host) : Type 0 where
  pub contents : List ℕ
  pub signals : os.State → ℕ
  pub fits : (s : os.State) (n o : ℕ) → length (bytes_of (os.pread s n o).1) ≤ n
  pub reads :
      (s : os.State) (n o i b : ℕ)
      → get_elem? (bytes_of (os.pread s n o).1) i ≡ some b
      → get_elem? contents (o + i) ≡ some b
  pub pread_signals :
      (s : os.State) (n o : ℕ)
      → signals (os.pread s n o).0 + interruptions (os.pread s n o).1 ≤ signals s
  pub malloc_signals : (s : os.State) (n : ℕ) → signals (os.malloc s n).0 ≤ signals s
  pub mprotect_signals :
      (s : os.State) (a b : ℕ) (p : Prot) → signals (os.mprotect s a b p).0 ≤ signals s

-- The run of a read ends: it has failed, or the bytes, at most `count` of them, are the file's.
abbrev pub AreAt : List ℕ → List ℕ → ℕ → Type 0
AreAt file bs o = (i b : ℕ) → get_elem? bs i ≡ some b → get_elem? file (o + i) ≡ some b

pub record Reads {os : Host} (laws : HostLaws os) (s : os.State) (count offset : ℕ)
    (r : Run (os.State × Option (List ℕ))) : Type 0 where
  pub state : os.State
  pub bytes : Option (List ℕ)
  pub ends : r ≡ done (state, bytes)
  pub calm : laws.signals state ≤ laws.signals s
  pub holds : (bs : List ℕ) → bytes ≡ some bs → (length bs ≤ count) × AreAt laws.contents bs offset

append-AreAt :
    (file bs cs : List ℕ) (o : ℕ)
    → AreAt file bs o
    → AreAt file cs (o + length bs)
    → AreAt file (bs ++ cs) o
append-AreAt file [] cs o first rest i b h =
    subst (λ (t : ℕ). get_elem? file (t + i) ≡ some b) (add-zero o) (rest i b h)
append-AreAt file (x ∷ bs) cs o first rest zero b h = first zero b h
append-AreAt file (x ∷ bs) cs o first rest (suc j) b h =
    shift (o + 1 + j) (o + suc j) (omega arith) (
      append-AreAt file bs cs (o + 1)
        (λ k c e. shift (o + suc k) (o + 1 + k) (omega arith) (first (suc k) c e))
        (λ k c e.
          shift (o + suc (length bs) + k) (o + 1 + length bs + k) (omega arith) (rest k c e))
        j b h)
  where
    shift : (u v : ℕ) {c : ℕ} → u ≡ v → get_elem? file u ≡ some c → get_elem? file v ≡ some c
    shift u v {c = c} e = subst (λ (t : ℕ). get_elem? file t ≡ some c) e

PRead-cases : (r : PRead) → ((bs : List ℕ) × (r ≡ got bs)) ⊎ ((r ≡ eintr) ⊎ (r ≡ failed))
PRead-cases (got bs) = inl (bs, refl)
PRead-cases eintr = inr (inl refl)
PRead-cases failed = inr (inr refl)

module _ (os : Host) (laws : HostLaws os) where
  open laws use {signals, contents}

  got_what :
      (s : os.State) (n o : ℕ) (bs : List ℕ)
      → (os.pread s n o).1 ≡ got bs
      → (length bs ≤ n) × AreAt contents bs o
  got_what s n o bs e = (
    subst (λ (x : PRead). length (bytes_of x) ≤ n) e (laws.fits s n o),
    λ i b h.
        laws.reads s n o i b (subst (λ (x : PRead). get_elem? (bytes_of x) i ≡ some b) (sym e) h),
  )

  spent :
      (s : os.State) (n o : ℕ) (r : PRead)
      → (os.pread s n o).1 ≡ r
      → signals (os.pread s n o).0 + interruptions r ≤ signals s
  spent s n o r e =
      subst (λ (x : PRead). signals (os.pread s n o).0 + interruptions x ≤ signals s) e
        (laws.pread_signals s n o)

  nothing :
      (s : os.State) (count offset : ℕ) (s' : os.State)
      → signals s' ≤ signals s
      → {r : Run (os.State × Option (List ℕ))} → r ≡ done (s', some [])
      → Reads laws s count offset r
  nothing s count offset s' calm ends = record {
    state = s';
    bytes = some [];
    ends = ends;
    calm = calm;
    holds = λ bs e.
        subst (λ (t : List ℕ). (length t ≤ count) × AreAt contents t offset) (some_inj e)
          (omega arith, λ i b h. absurd (ground (arith, h)));
  }

  later :
      (s : os.State) (count offset : ℕ) (s' : os.State)
      → signals s' ≤ signals s
      → {r q : Run (os.State × Option (List ℕ))} → Reads laws s' count offset q
      → r ≡ q
      → Reads laws s count offset r
  later s count offset s' calm rest same = record {
    state = rest.state;
    bytes = rest.bytes;
    ends = same ∙ rest.ends;
    calm = omega (arith, rest.calm);
    holds = rest.holds;
  }

  one_more :
      (s : os.State) (count offset : ℕ) (s' : os.State) (bs : List ℕ)
      → (length bs ≤ count) × AreAt contents bs offset
      → signals s' ≤ signals s
      → {r q : Run (os.State × Option (List ℕ))}
      → Reads laws s' (count - length bs) (offset + length bs) q
      → r ≡ (q >>= λ (x : os.State × Option (List ℕ)). done (x.0, Option.map (λ cs. bs ++ cs) x.1))
      → Reads laws s count offset r
  one_more s count offset s' bs (fit, first) calm rest same = record {
    state = rest.state;
    bytes = Option.map (λ cs. bs ++ cs) rest.bytes;
    ends = same ∙ rw (rest.ends) refl;
    calm = omega (arith, rest.calm);
    holds = joined rest.bytes rest.holds;
  }
    where
      joined :
          (o : Option (List ℕ))
          → ((cs : List ℕ)
              → o ≡ some cs
              → (length cs ≤ count - length bs) × AreAt contents cs (offset + length bs))
          → (ds : List ℕ) → Option.map (λ cs. bs ++ cs) o ≡ some ds
          → (length ds ≤ count) × AreAt contents ds offset
      joined none holds ds e = absurd (ground (arith, e))
      joined (some cs) holds ds e =
          subst (λ (t : List ℕ). (length t ≤ count) × AreAt contents t offset) (some_inj e)
            (
              omega (arith, length-append bs cs, (holds cs refl).0, fit),
              append-AreAt contents bs cs offset first (holds cs refl).1,
            )

  pread_loop-Reads :
      (fuel : ℕ) (s : os.State) (count offset : ℕ)
      → signals s + count < fuel
      → Reads laws s count offset (pread_loop os fuel s count offset)
  unfolding pread_loop
  pread_loop-Reads zero s count offset enough = absurd (omega arith)
  pread_loop-Reads (suc f) s count offset enough = elim (Bool-cases (count == 0)) [
    | inl stop ↦ nothing s count offset s (omega arith) (rw stop)
    | inr more ↦ elim (PRead-cases (os.pread s count offset).1) [
      | inl (bs, e) ↦ elim (Bool-cases (length bs == 0)) [
        | inl ended ↦ nothing s count offset s' (calm (got bs) e) (rw (more, e, ended))
        | inr going ↦
            one_more s count offset s' bs (got_what s count offset bs e) (calm (got bs) e)
              (pread_loop-Reads f s' (count - length bs) (offset + length bs) (shorter bs e going))
              (rw (more, e, going))
      ]
      | inr (inl e) ↦
          later s count offset s' (calm eintr e)
            (pread_loop-Reads f s' count offset (omega (arith, spent s count offset eintr e)))
            (rw (more, e))
      | inr (inr e) ↦ record {
        state = s';
        bytes = none;
        ends = rw (more, e);
        calm = calm failed e;
        holds = λ bs h. absurd (ground (arith, h));
      }
    ]
  ]
    where
      s' : os.State
      s' = (os.pread s count offset).0

      shorter :
          (bs : List ℕ)
          → (os.pread s count offset).1 ≡ got bs
          → (length bs == 0) ≡ false
          → signals s' + (count - length bs) < f
      shorter bs e going =
          ground (
            arith,
            enough,
            spent s count offset (got bs) e,
            (got_what s count offset bs e).0,
            going,
          )

      calm : (r : PRead) → (os.pread s count offset).1 ≡ r → signals s' ≤ signals s
      calm r e = omega (arith, spent s count offset r e)

-- The outcome of `read_exactly`: the process ends with status 1, or the bytes are the next `count` of
-- the file.
pub data Exactly {os : Host} (laws : HostLaws os) (s : os.State) (count offset : ℕ)
    : Run (os.State × List ℕ) → Type 0 where
  stops : {r : Run (os.State × List ℕ)} → r ≡ exits 1 → Exactly laws s count offset r
  reads :
      {r : Run (os.State × List ℕ)} (s' : os.State) (bs : List ℕ)
      → r ≡ done (s', bs)
      → laws.signals s' ≤ laws.signals s
      → length bs ≡ count
      → AreAt laws.contents bs offset
      → Exactly laws s count offset r

module _ (os : Host) (laws : HostLaws os) where
  open laws use {signals}

  -- Whatever pieces `pread` returns, and however often a pending signal interrupts it, with enough fuel
  -- a read of `count` bytes ends: with all of the file's `count` bytes from the offset on, or with the
  -- end of the process.
  pub read_exactly-Exactly :
      (fuel : ℕ) (s : os.State) (count offset : ℕ)
      → signals s + count < fuel
      → Exactly laws s count offset (read_exactly os fuel s count offset)
  unfolding read_exactly pread_in_full
  read_exactly-Exactly fuel s count offset enough = elim (Bool-cases (ltb ssize_max count)) [
    | inl big ↦ stops (rw big refl)
    | inr small ↦
        let r = pread_loop-Reads os laws fuel s count offset enough in
        elim (Option-cases r.bytes) [
          | inl e ↦ stops (rw (small, r.ends, e) refl)
          | inr (bs, e) ↦ elim (Bool-cases (length bs != count)) [
            | inl short ↦ stops (rw (small, r.ends, e, short) refl)
            | inr whole ↦
                reads r.state bs (rw (small, r.ends, e, whole) refl) r.calm (ground (arith, whole))
                  (r.holds bs e).1
          ]
        ]
  ]
