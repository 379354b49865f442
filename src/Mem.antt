-- ===== src/Mem.antt =====
-- bindings/mem.c: the guest's memory above its image, from which pages are taken until the heap is locked. The end of the
-- image, the size of memory and the address of the stack are arguments. A panic ends the guest with status 255.
pub mod Areas
use solo.Base.{
  ℕ, ◌+◌, ◌-◌, ◌*◌, ◌%◌, ◌^◌, Bool, true, false, not, ltb, if◌then◌else◌, Run, done, exits, ◌>>◌,
  c_assert, bit_and,
}

abbrev pub page_size : ℕ
page_size = 4096

pub record Mem : Type 0 where
  pub heap_start : ℕ
  pub mem_locked : Bool

unfoldable pub mem_init : ℕ → ℕ → Run Mem
mem_init image_end mem_size =
    let heap_start = bit_and ((image_end + page_size - 1) % 2 ^ 64) (2 ^ 64 - page_size) in
    if ltb mem_size ((heap_start + 0x80000) % 2 ^ 64)
    then exits 255
    else done (record { heap_start = heap_start; mem_locked = false })

-- With the stack's address; the pages' address is returned.
unfoldable pub mem_ialloc_pages : ℕ → ℕ → Mem → Run (Mem × ℕ)
mem_ialloc_pages stack num m =
    let heap_start = (m.heap_start + num * page_size) % 2 ^ 64 in
    c_assert (not m.mem_locked)
    >> (c_assert (ltb heap_start stack)
        >> done (record m { heap_start = heap_start }, m.heap_start))

-- The start and the size of the heap are returned.
unfoldable pub mem_lock_heap : ℕ → Mem → Run (Mem × ℕ × ℕ)
mem_lock_heap mem_size m =
    c_assert (not m.mem_locked)
    >> done
        (record m { mem_locked = true }, m.heap_start, (mem_size + 2 ^ 64 - m.heap_start) % 2 ^ 64)
