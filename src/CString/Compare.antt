-- ===== src/CString/Compare.antt =====
-- bindings/lib.c: `strncmp` on the strings that two buffers hold.
use solo.Base.{
  ℕ, zero, suc, ◌≡◌, ◌≢◌, ◌↔◌, inl, inr, true, ◌==◌, ◌!=◌, if◌then◌else◌, List, [], ◌∷◌, get_elem?,
  some, Run, done, ℤ, pos, sub_ℕ, arith, Bool-cases,
}
use solo.CString.{strncmp, strncmp_loop}

-- The string that a buffer holds: its bytes before the first NUL.
abbrev pub c_str : List ℕ → List ℕ
c_str [] = []
c_str (c ∷ s) = if c == 0 then [] else c ∷ c_str s

-- The buffer has a NUL at the index `n` or before it.
abbrev pub IsTerminated : ℕ → List ℕ → Type 0
IsTerminated n [] = ⊥
IsTerminated zero (c ∷ s) = c ≡ 0
IsTerminated (suc n) (c ∷ s) = if c == 0 then Unit {0} else IsTerminated n s

pub IsTerminated-nul : (n : ℕ) (s : List ℕ) → get_elem? s n ≡ some 0 → IsTerminated n s
IsTerminated-nul n [] h = ground arith
IsTerminated-nul zero (c ∷ s) h = ground arith
IsTerminated-nul (suc n) (c ∷ s) h = ground (arith, IsTerminated-nul n s h)

-- It ends, with the difference of the first bytes that differ: zero exactly for equal strings.
Compares : List ℕ → List ℕ → Run ℤ → Type 0
Compares l r x = (z : ℤ) × (x ≡ done z) × ((z ≡ pos 0) ↔ (c_str l ≡ c_str r))

stops :
    (a b : ℕ) (l r : List ℕ)
    → (if a == 0 then true else if b == 0 then true else a != b) ≡ true
    → (sub_ℕ a b ≡ pos 0) ↔ (c_str (a ∷ l) ≡ c_str (b ∷ r))
stops a b l r h = (ground arith, ground arith)

goes_on :
    (a b : ℕ) (l r : List ℕ)
    → (a ≢ 0)
    → a ≡ b
    → (c_str l ≡ c_str r) ↔ (c_str (a ∷ l) ≡ c_str (b ∷ r))
goes_on a b l r h e = (ground arith, ground arith)

strncmp_loop-Compares :
    (n : ℕ) (l r : List ℕ) → IsTerminated n l → IsTerminated n r → Compares l r (strncmp_loop l r n)
unfolding strncmp_loop Compares
strncmp_loop-Compares n [] r hl hr = absurd hl
strncmp_loop-Compares n (a ∷ l) [] hl hr = absurd hr
strncmp_loop-Compares zero (a ∷ l) (b ∷ r) hl hr =
    (sub_ℕ a b, ground arith, stops a b l r (ground arith))
strncmp_loop-Compares (suc n) (a ∷ l) (b ∷ r) hl hr =
    elim (Bool-cases (if a == 0 then true else if b == 0 then true else a != b)) [
      | inl t ↦ (sub_ℕ a b, ground arith, stops a b l r t)
      | inr t ↦
          let (z, p, q) = strncmp_loop-Compares n l r (ground arith) (ground arith) in
          let w = goes_on a b l r (ground arith) (ground arith) in
          (z, ground (arith, p), (λ e. w.0 (q.0 e), λ e. q.1 (w.1 e)))
    ]

-- On two buffers that are terminated within `n` bytes `strncmp` returns without reading past
-- either, and it returns zero exactly when they hold the same string.
pub strncmp_lem :
    (n : ℕ) (l r : List ℕ)
    → IsTerminated n l
    → IsTerminated n r
    → (z : ℤ) × (strncmp l r (suc n) ≡ done z) × ((z ≡ pos 0) ↔ (c_str l ≡ c_str r))
unfolding strncmp Compares
strncmp_lem n l r hl hr = strncmp_loop-Compares n l r hl hr
