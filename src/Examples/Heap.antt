-- ===== src/Examples/Heap.antt =====
-- A guest with 16 MB of memory that asks for two areas before its heap is locked.
use solo.Base.{◌-◌, ◌^◌, [], ◌∷◌, ◌≡◌, refl, true, done, arith}
use solo.Mem.{mem_init, mem_ialloc_pages, mem_lock_heap}
use solo.Mem.Areas.{Starts, start_up, start_up-Starts, ialloc_all}

start_up-Starts_example :
    Starts 0x123456
      (2 ^ 24)
      (2 ^ 24 - 256)
      (2 ∷ 3 ∷ [])
      (start_up 0x123456 (2 ^ 24) (2 ^ 24 - 256) (2 ∷ 3 ∷ []))
start_up-Starts_example =
    start_up-Starts 0x123456 (2 ^ 24) (2 ^ 24 - 256) (2 ∷ 3 ∷ []) (omega arith) (omega arith)
      (omega arith) (omega arith, (omega arith, tt))

start_up_test :
    start_up 0x123456 (2 ^ 24) (2 ^ 24 - 256) (2 ∷ 3 ∷ [])
    ≡ done (
      record { heap_start = 0x129000; mem_locked = true },
      0x124000 ∷ 0x126000 ∷ [],
      0x129000,
      0xed7000,
    )
unfolding start_up mem_init mem_ialloc_pages mem_lock_heap ialloc_all
start_up_test = refl
