-- ===== src/Hvt/Memory.antt =====
-- tenders/hvt/hvt.h: the check on guest addresses, and the laws of loads and stores.
use solo.Base.{
  get_elem?, some, ℕ, zero, suc, ◌+◌, ◌/◌, ◌^◌, ◌≤◌, ◌<◌, ◌≡◌, ◌⊎◌, refl, ap, ◌∙◌, ◌==◌,
  if◌then◌else◌, List, [], ◌∷◌, length, done, exits, arith,
}
use solo.Hvt.{
  Hvt, Memory, checked_gpa_p, load_bytes, store_bytes, load64, store64, load32, store32, le_bytes,
  of_bytes,
}

-- The check passes exactly for accesses that end below the last byte of guest memory, without
-- wrap-around; all others end the tender.
pub checked_gpa_p-cases :
    (hvt : Hvt) (gpa sz : ℕ)
    → hvt.guest_mem_size < 2 ^ 64
    → ((gpa + sz < hvt.guest_mem_size) × (checked_gpa_p hvt gpa sz ≡ done gpa))
      ⊎ ((hvt.guest_mem_size ≤ gpa + sz) × (checked_gpa_p hvt gpa sz ≡ exits 1))
unfolding checked_gpa_p
checked_gpa_p-cases hvt gpa sz h = ground arith

-- A store changes its bytes only.
pub store_bytes-outside :
    (bs : List ℕ) (m : Memory) (a k : ℕ)
    → (k < a) ⊎ (a + length bs ≤ k)
    → store_bytes m a bs k ≡ m k
unfolding store_bytes
store_bytes-outside [] m a k h = refl
store_bytes-outside (b ∷ bs) m a k h =
    ground (arith, store_bytes-outside bs (λ k. if k == a then b else m k) (a + 1) k)

-- What was stored is loaded again.
pub load_bytes-store_bytes :
    (bs : List ℕ) (m : Memory) (a : ℕ) → load_bytes (store_bytes m a bs) a (length bs) ≡ bs
unfolding load_bytes store_bytes
load_bytes-store_bytes [] m a = refl
load_bytes-store_bytes (b ∷ bs) m a = ground (
  arith,
  store_bytes-outside bs (λ k. if k == a then b else m k) (a + 1) a,
  load_bytes-store_bytes bs (λ k. if k == a then b else m k) (a + 1),
)

-- A load that a store does not overlap.
pub load_bytes-store_outside :
    (n : ℕ) (bs : List ℕ) (m : Memory) (a k : ℕ)
    → (k + n ≤ a) ⊎ (a + length bs ≤ k)
    → load_bytes (store_bytes m a bs) k n ≡ load_bytes m k n
unfolding load_bytes
load_bytes-store_outside zero bs m a k h = refl
load_bytes-store_outside (suc n) bs m a k h =
    ground (arith, store_bytes-outside bs m a k, load_bytes-store_outside n bs m a (k + 1))

pub length-load_bytes : (n : ℕ) (m : Memory) (a : ℕ) → length (load_bytes m a n) ≡ n
unfolding load_bytes
length-load_bytes zero m a = refl
length-load_bytes (suc n) m a = ap suc (length-load_bytes n m (a + 1))

pub length-le_bytes : (w v : ℕ) → length (le_bytes w v) ≡ w
unfolding le_bytes
length-le_bytes zero v = refl
length-le_bytes (suc w) v = ap suc (length-le_bytes w (v / 2 ^ 8))

-- Fields of 8 and of 4 bytes, stored and loaded again.
pub load64-store64 : (m : Memory) (a v : ℕ) → v < 2 ^ 64 → load64 (store64 m a v) a ≡ v
unfolding load64 store64 of_bytes le_bytes
load64-store64 m a v h = ap of_bytes (load_bytes-store_bytes (le_bytes 8 v) m a) ∙ omega arith

pub load32-store32 : (m : Memory) (a v : ℕ) → v < 2 ^ 32 → load32 (store32 m a v) a ≡ v
unfolding load32 store32 of_bytes le_bytes
load32-store32 m a v h = ap of_bytes (load_bytes-store_bytes (le_bytes 4 v) m a) ∙ omega arith

pub load64-store64_outside :
    (m : Memory) (a k v : ℕ) → (k + 8 ≤ a) ⊎ (a + 8 ≤ k) → load64 (store64 m a v) k ≡ load64 m k
unfolding load64 store64
load64-store64_outside m a k v h = ap of_bytes (load_bytes-store_outside 8 (le_bytes 8 v) m a k h)

-- Each byte that was stored, and each byte of a load.
pub store_bytes-inside :
    (bs : List ℕ) (m : Memory) (a i b : ℕ)
    → get_elem? bs i ≡ some b
    → store_bytes m a bs (a + i) ≡ b
unfolding store_bytes
store_bytes-inside [] m a i b h = absurd (ground arith)
store_bytes-inside (c ∷ bs) m a zero b h =
    ap (store_bytes (λ k. if k == a then c else m k) (a + 1) bs) here
    ∙ ground (arith, h, store_bytes-outside bs (λ k. if k == a then c else m k) (a + 1) a)
  where
    here : a + 0 ≡ a
    here = omega arith
store_bytes-inside (c ∷ bs) m a (suc i) b h =
    ap (store_bytes (λ k. if k == a then c else m k) (a + 1) bs) shift
    ∙ store_bytes-inside bs (λ k. if k == a then c else m k) (a + 1) i b h
  where
    shift : a + suc i ≡ a + 1 + i
    shift = omega arith

pub get_elem?-load_bytes :
    (n : ℕ) (m : Memory) (a i : ℕ) → i < n → get_elem? (load_bytes m a n) i ≡ some (m (a + i))
unfolding load_bytes
get_elem?-load_bytes zero m a i h = absurd (omega arith)
get_elem?-load_bytes (suc n) m a zero h = ap (λ (k : ℕ). some (m k)) (omega arith)
get_elem?-load_bytes (suc n) m a (suc i) h =
    get_elem?-load_bytes n m (a + 1) i (omega arith) ∙ ap (λ (k : ℕ). some (m k)) (omega arith)
