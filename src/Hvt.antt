-- ===== src/Hvt.antt =====
-- tenders/hvt/hvt.h: guest memory as the tender sees it, with the check on guest addresses, and the
-- fields of a hypercall's argument, which lie in guest memory in little-endian order.
pub mod Memory
use solo.Base.{
  ℕ, zero, suc, ◌+◌, ◌-◌, ◌*◌, ◌/◌, ◌%◌, ◌^◌, Bool, ◌==◌, ◌||◌, ltb, leb, if◌then◌else◌, List, [],
  ◌∷◌, length, get_elem?, Option, none, some, Run, done, exits,
}

abbrev pub Memory : Type 0
Memory = ℕ → ℕ

pub record Hvt : Type 0 where
  pub mem : Memory
  pub guest_mem_size : ℕ

-- `HVT_CHECKED_GPA_P`: the offset of the pointer in `mem`; a bad access ends the tender by `errx`.
unfoldable pub checked_gpa_p : Hvt → ℕ → ℕ → Run ℕ
checked_gpa_p hvt gpa sz =
    if leb hvt.guest_mem_size gpa || (leb (2 ^ 64) (gpa + sz) || leb hvt.guest_mem_size (gpa + sz))
    then exits 1
    else done gpa

-- Reads and writes through a checked pointer.
unfoldable pub load_bytes : Memory → ℕ → ℕ → List ℕ
load_bytes m a zero = []
load_bytes m a (suc n) = m a ∷ load_bytes m (a + 1) n

unfoldable pub store_bytes : Memory → ℕ → List ℕ → Memory
store_bytes m a [] = m
store_bytes m a (b ∷ bs) = store_bytes (λ k. if k == a then b else m k) (a + 1) bs

-- Little-endian numbers: the `w` low bytes of a value, lowest first, and back.
unfoldable pub le_bytes : ℕ → ℕ → List ℕ
le_bytes zero v = []
le_bytes (suc w) v = v % 2 ^ 8 ∷ le_bytes w (v / 2 ^ 8)

unfoldable pub of_bytes : List ℕ → ℕ
of_bytes [] = 0
of_bytes (b ∷ bs) = b + 2 ^ 8 * of_bytes bs

-- The accesses to a `uint64_t`, `size_t` or pointer field, and to an `int` or `uint32_t` field.
unfoldable pub load64 : Memory → ℕ → ℕ
unfolding load_bytes of_bytes
load64 m a = of_bytes (load_bytes m a 8)

unfoldable pub load32 : Memory → ℕ → ℕ
unfolding load_bytes of_bytes
load32 m a = of_bytes (load_bytes m a 4)

unfoldable pub store64 : Memory → ℕ → ℕ → Memory
unfolding store_bytes le_bytes
store64 m a v = store_bytes m a (le_bytes 8 v)

unfoldable pub store32 : Memory → ℕ → ℕ → Memory
unfolding store_bytes le_bytes
store32 m a v = store_bytes m a (le_bytes 4 v)
