-- ===== src/Kheap/Tests.antt =====
-- The heap behind a kernel that ends a little above 1 MiB.
use acharya_os.Base.{
  ◌+◌, ◌%◌, ◌^◌, ◌≤◌, ◌≡◌, arith, some, none, true, [], ◌∷◌, All, ◌==◌, ltb, ◌||◌, if◌then◌else◌,
}
use acharya_os.Kheap.{Heap, Memory, init, kmalloc, self_test}
use acharya_os.Kheap.Bounds.{IsValid, cursor, bumped, init_lem, kmalloc_lem}
use acharya_os.Kheap.Disjoint.{blocks, Within, Separate, blocks-Separate}
use acharya_os.Kheap.Selftest.{self_test_passes}

abbrev fresh : Heap
fresh = init 1100000

abbrev noise : Memory
noise a = a % 256

fresh-IsValid : IsValid fresh
fresh-IsValid = (init_lem 1100000 (omega arith)).0

fresh_room : fresh.heap_current + 4096 ≤ fresh.heap_end
fresh_room = let i = init_lem 1100000 (omega arith) in omega (arith, i)

kmalloc_lem_example : kmalloc 100 fresh ≡ (
    if 100 == 0 || ltb fresh.heap_end (cursor fresh + 100)
    then (none, fresh)
    else (some (cursor fresh), bumped 100 fresh))
kmalloc_lem_example = kmalloc_lem 100 fresh fresh-IsValid (omega arith)

blocks-Separate_example :
    All (Within fresh.heap_current fresh.heap_end) (blocks (3 ∷ 2 ^ 30 ∷ 0 ∷ 50 ∷ []) fresh)
    × Separate (blocks (3 ∷ 2 ^ 30 ∷ 0 ∷ 50 ∷ []) fresh)
blocks-Separate_example =
    blocks-Separate (3 ∷ 2 ^ 30 ∷ 0 ∷ 50 ∷ []) fresh
      (omega arith, (omega arith, (omega arith, (omega arith, tt)))) fresh-IsValid

self_test_passes_example : (self_test fresh noise).0 ≡ true
self_test_passes_example = self_test_passes fresh noise fresh-IsValid (omega (arith, fresh_room))
