-- ===== src/CString.antt =====
-- bindings/lib.c: `strncmp` over NUL-terminated strings. A pointer to characters is the list of the
-- bytes from it to the end of its object, so a read past the object faults.
pub mod Compare
use solo.Base.{
  ℕ, zero, suc, ◌-◌, Bool, true, false, ◌&&◌, ◌!=◌, ◌==◌, if◌then◌else◌, List, [], ◌∷◌, Run, done,
  faults, ℤ, pos, sub_ℕ,
}

-- The `for` loop of `strncmp`, at `n` already decremented once.
unfoldable pub strncmp_loop : List ℕ → List ℕ → ℕ → Run ℤ
strncmp_loop [] r n = faults
strncmp_loop (a ∷ l) [] n = faults
strncmp_loop (a ∷ l) (b ∷ r) n =
    if (a != 0) && ((b != 0) && ((n != 0) && (a == b)))
    then strncmp_loop l r (n - 1)
    else done (sub_ℕ a b)

unfoldable pub strncmp : List ℕ → List ℕ → ℕ → Run ℤ
strncmp l r zero = done (pos 0)
strncmp l r (suc n) = strncmp_loop l r n
