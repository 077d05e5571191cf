-- ===== src/Kheap/Selftest.antt =====
-- `kzalloc` clears its block, and `kheap_self_test` passes.
use acharya_os.Base.{
  ℕ, zero, suc, ◌+◌, ◌%◌, ◌^◌, ◌≤◌, ◌<◌, ◌≡◌, ◌≢◌, refl, arith, some, true, ltb, leb, ◌&&◌,
  if◌then◌else◌,
}
use acharya_os.Kheap.{Heap, Memory, kmalloc, kzalloc, zero_range, all_zero, check_blocks, self_test}
use acharya_os.Kheap.Bounds.{IsValid, cursor, bumped, kmalloc-fits, kmalloc-IsValid}

kzalloc-fits :
    (size : ℕ) (h : Heap) (m : Memory)
    → IsValid h
    → size < 2 ^ 64
    → size ≢ 0
    → cursor h + size ≤ h.heap_end
    → kzalloc size h m ≡ (some (cursor h), bumped size h, zero_range (cursor h) size m)
unfolding kzalloc
kzalloc-fits size h m v w ne fits = rw (kmalloc-fits size h v w ne fits)

-- Where there is room, a block of `kzalloc` reads as zero, no byte outside it changes, and the heap moves on as for
-- `kmalloc`.
pub kzalloc_lem :
    (size : ℕ) (h : Heap) (m : Memory) (a : ℕ)
    → IsValid h
    → size < 2 ^ 64
    → size ≢ 0
    → cursor h + size ≤ h.heap_end
    → let (ptr, h', m') = kzalloc size h m in
      (ptr ≡ some (cursor h))
      × (h' ≡ (kmalloc size h).1)
      × (m' a ≡ (if leb (cursor h) a && ltb a (cursor h + size) then 0 else m a))
kzalloc_lem size h m a v w ne fits =
    rw (kzalloc-fits size h m v w ne fits, kmalloc-fits size h v w ne fits) (refl, refl, refl)

all_zero_range :
    (left b p n : ℕ) (m : Memory)
    → p ≤ b
    → b + left ≤ p + n
    → all_zero left b (zero_range p n m) ≡ true
unfolding all_zero
all_zero_range zero b p n m lo hi = refl
all_zero_range (suc left) b p n m lo hi = ground (arith, all_zero_range left (b + 1) p n m)

check_blocks_pass :
    (a b : ℕ) (m : Memory)
    → a % 16 ≡ 0
    → b % 16 ≡ 0
    → a < b
    → all_zero 64 b m ≡ true
    → (check_blocks (some a) (some b) m).0 ≡ true
unfolding check_blocks
check_blocks_pass a b m ha hb lt z = ground arith

-- On a heap that keeps the invariant and has 128 bytes free, `kheap_self_test` passes, whatever the memory holds.
pub self_test_passes :
    (h : Heap) (m : Memory)
    → IsValid h
    → h.heap_current + 128 ≤ h.heap_end
    → (self_test h m).0 ≡ true
unfolding self_test
self_test_passes h m v room =
    let e1 = kmalloc-fits 32 h v (omega arith) (omega arith) (omega arith) in
    let h1 = bumped 32 h in
    let v1 : IsValid h1 = rw e1 at (kmalloc-IsValid 32 (omega arith) v) in
    let e2 = kzalloc-fits 64 h1 m v1 (omega arith) (omega arith) (omega arith) in
    rw (e1, e2)
      (check_blocks_pass (cursor h) (cursor h1) (zero_range (cursor h1) 64 m) (omega arith)
        (omega arith) (omega arith)
        (all_zero_range 64 (cursor h1) (cursor h1) 64 m (omega arith) (omega arith)))
