-- ===== src/Mem/Areas.antt =====
-- bindings/mem.c: what is taken before the heap is locked, and the heap.
use solo.Base.{
  ℕ, ◌+◌, ◌-◌, ◌*◌, ◌%◌, ◌^◌, ◌≤◌, ◌<◌, ◌≡◌, inl, inr, refl, ap, ◌∙◌, Bool-cases, true, false, ltb,
  List, [], ◌∷◌, Run, done, aborts, exits, ◌>>=◌, arith, bit_and,
}
use solo.Base.Bits.{bit_and_high}
use solo.Mem.{Mem, page_size, mem_init, mem_ialloc_pages, mem_lock_heap}

-- Areas one behind the other, each of whole pages and below the stack, from `a` to `b`.
pub data Areas (stack : ℕ) : ℕ → List ℕ → List ℕ → ℕ → Type 0 where
  end : {a : ℕ} → Areas stack a [] [] a
  area :
      {a n b : ℕ} {ns addrs : List ℕ}
      → a % page_size ≡ 0
      → a + n * page_size < stack
      → Areas stack (a + n * page_size) ns addrs b
      → Areas stack a (n ∷ ns) (a ∷ addrs) b

-- Requests for pages, one after another.
unfoldable pub ialloc_all : ℕ → List ℕ → Mem → Run (Mem × List ℕ)
ialloc_all stack [] m = done (m, [])
ialloc_all stack (n ∷ ns) m =
    mem_ialloc_pages stack n m >>= λ q. ialloc_all stack ns q.0 >>= λ r. done (r.0, q.1 ∷ r.1)

abbrev pub AreSmall : List ℕ → Type 0
AreSmall [] = Unit {0}
AreSmall (n ∷ ns) = (n < 2 ^ 50) × AreSmall ns

unfoldable pub total : List ℕ → ℕ
total [] = 0
total (n ∷ ns) = n + total ns

unlocked : ℕ → Mem
unlocked a = record { heap_start = a; mem_locked = false }

-- Start-up: the set-up, requests for pages, and the lock.
unfoldable pub start_up : ℕ → ℕ → ℕ → List ℕ → Run (Mem × List ℕ × ℕ × ℕ)
start_up image_end mem_size stack ns = mem_init image_end mem_size >>= λ m.
    ialloc_all stack ns m >>= λ q. mem_lock_heap mem_size q.0 >>= λ r. done (r.0, q.1, r.1, r.2)

data Allocates (stack a : ℕ) (ns : List ℕ) (r : Run (Mem × List ℕ)) : Type 0 where
  refused : stack ≤ a + total ns * page_size → r ≡ aborts → Allocates stack a ns r
  given :
      (b : ℕ) (addrs : List ℕ)
      → r ≡ done (unlocked b, addrs)
      → Areas stack a ns addrs b
      → b < stack
      → Allocates stack a ns r

ialloc_all-Allocates :
    (stack : ℕ) (ns : List ℕ) (a : ℕ)
    → a % page_size ≡ 0
    → a < stack
    → stack ≤ 2 ^ 62
    → AreSmall ns
    → Allocates stack a ns (ialloc_all stack ns (unlocked a))
unfolding ialloc_all mem_ialloc_pages unlocked total
ialloc_all-Allocates stack [] a aligned below small few = given a [] refl end below
ialloc_all-Allocates stack (n ∷ ns) a aligned below small (few, more) =
    elim (Bool-cases (ltb (a + n * page_size) stack)) [
      | inr over ↦ refused (ground (arith, over)) (rw (no_wrap, over) refl)
      | inl fits ↦
          elim (ialloc_all-Allocates stack ns (a + n * page_size) (omega (arith, aligned))
            (ground (arith, fits)) small more) [
              | refused much bad ↦ refused (omega (arith, much)) (rw (no_wrap, fits, bad) refl)
              | given b addrs went areas under ↦
                  given b (a ∷ addrs) (rw (no_wrap, fits, went) refl)
                    (area aligned (ground (arith, fits)) areas) under
            ]
    ]
  where
    no_wrap : (a + n * page_size) % 2 ^ 64 ≡ a + n * page_size
    no_wrap = omega (arith, below, small, few)

-- The first address of a page from the end of the image on.
abbrev pub IsPageBehind : ℕ → ℕ → Type 0
IsPageBehind image_end a = (a % page_size ≡ 0) × (image_end ≤ a) × (a < image_end + page_size)

-- The outcome of the start-up.
pub data Starts (image_end mem_size stack : ℕ) (ns : List ℕ) (r : Run (Mem × List ℕ × ℕ × ℕ))
    : Type 0 where
  no_memory :
      (a : ℕ)
      → IsPageBehind image_end a
      → mem_size < a + 0x80000
      → r ≡ exits 255
      → Starts image_end mem_size stack ns r
  too_many :
      (a : ℕ)
      → IsPageBehind image_end a
      → stack ≤ a + total ns * page_size
      → r ≡ aborts
      → Starts image_end mem_size stack ns r
  starts :
      (a b : ℕ) (addrs : List ℕ)
      → IsPageBehind image_end a
      → a + 0x80000 ≤ mem_size
      → Areas stack a ns addrs b
      → b < stack
      → r ≡ done (record { heap_start = b; mem_locked = true }, addrs, b, mem_size - b)
      → ((n : ℕ) → mem_ialloc_pages stack n (record { heap_start = b; mem_locked = true }) ≡ aborts)
      → Starts image_end mem_size stack ns r

-- For memory of at most 2^62 bytes, a stack inside it and at least a page behind the end of the image, and requests of
-- fewer than 2^50 pages each, start-up ends: in a panic with status 255, if fewer than 512 KiB are left from the
-- first page behind the image on; in a failed assertion, if the pages asked for would reach the
-- stack; or, with 512 KiB left at least, with an area for each request. The areas
-- follow each other from the first page behind the image on, so that none overlaps another,
-- and end below the stack; the heap is what is left of memory behind the last; from then on a
-- request fails.
pub start_up-Starts :
    (image_end mem_size stack : ℕ) (ns : List ℕ)
    → mem_size ≤ 2 ^ 62
    → stack ≤ mem_size
    → image_end + page_size ≤ stack
    → AreSmall ns
    → Starts image_end mem_size stack ns (start_up image_end mem_size stack ns)
unfolding start_up mem_init mem_lock_heap unlocked mem_ialloc_pages
start_up-Starts image_end mem_size stack ns small inside room few =
    elim (Bool-cases (ltb mem_size ((heap + 0x80000) % 2 ^ 64))) [
      | inl short ↦
          no_memory heap behind (ground (arith, short, rounded, inside, small, room))
            (rw short refl)
      | inr enough ↦
          elim (ialloc_all-Allocates stack ns heap aligned (omega (arith, rounded, room))
            (omega (arith, small, inside)) few) [
              | refused much bad ↦ too_many heap behind much (rw (enough, bad) refl)
              | given b addrs went areas below ↦
                  starts heap b addrs behind (ground (arith, enough, rounded, inside, small, room))
                    areas below (rw (enough, went, left b below) refl) (λ n. refl)
            ]
    ]
  where
    heap : ℕ
    heap = bit_and ((image_end + page_size - 1) % 2 ^ 64) (2 ^ 64 - page_size)

    sum : (image_end + page_size - 1) % 2 ^ 64 ≡ image_end + page_size - 1
    sum = omega (arith, room, inside, small)

    rounded : heap ≡ (image_end + page_size - 1) - (image_end + page_size - 1) % page_size
    rounded =
        ap (λ (t : ℕ). bit_and t (2 ^ 64 - page_size)) sum
        ∙ bit_and_high 12 64 (image_end + page_size - 1) (omega arith)
            (omega (arith, room, inside, small))

    aligned : heap % page_size ≡ 0
    aligned = omega (arith, rounded)

    behind : IsPageBehind image_end heap
    behind = (aligned, omega (arith, rounded), omega (arith, rounded))

    left : (b : ℕ) → b < stack → (mem_size + 2 ^ 64 - b) % 2 ^ 64 ≡ mem_size - b
    left b below = omega (arith, below, inside, small)
