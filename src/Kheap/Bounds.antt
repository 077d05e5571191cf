-- ===== src/Kheap/Bounds.antt =====
-- What `kmalloc` hands out lies in the heap.
use native.Mathlib.Decide.{dec_le, ℕ_discrete}
use acharya_os.Base.{
  ℕ, ◌+◌, ◌*◌, ◌/◌, ◌%◌, ◌^◌, ◌≤◌, ◌<◌, ◌≡◌, ◌≢◌, ◌∙◌, arith, u64, none, some, true, false, ◌==◌,
  ltb, ◌||◌, if◌then◌else◌,
}
use acharya_os.Kheap.{Heap, align_up, init, kmalloc}
use acharya_os.Kheap.Align.{align_up-heap, align_up-page}

pub record IsValid (h : Heap) : Type 0 where
  pub above : h.heap_start ≤ h.heap_current
  pub below : h.heap_current ≤ h.heap_end
  pub no_wrap : h.heap_end + 16 ≤ 2 ^ 64

-- The cursor, rounded up to 16 bytes.
abbrev pub cursor : Heap → ℕ
cursor h = (h.heap_current + 15) / 16 * 16

abbrev pub bumped : ℕ → Heap → Heap
bumped size h = record h {
  heap_current = cursor h + size;
  allocation_count = u64 (h.allocation_count + 1);
}

-- Below the last megabyte of the address space the heap starts empty, on a page behind the kernel,
-- with 1 MiB of room.
pub init_lem :
    (kernel_end : ℕ)
    → kernel_end + 2 ^ 21 ≤ 2 ^ 64
    → IsValid (init kernel_end)
      × ((init kernel_end).heap_start % 4096 ≡ 0)
      × (kernel_end ≤ (init kernel_end).heap_start)
      × ((init kernel_end).heap_current ≡ (init kernel_end).heap_start)
      × ((init kernel_end).heap_end ≡ (init kernel_end).heap_start + 2 ^ 20)
unfolding init
init_lem kernel_end h = omega (arith, align_up-page kernel_end (omega arith))

module _ (size : ℕ) (h : Heap) (v : IsValid h) (word : size < 2 ^ 64) where
  pub kmalloc-zero : size ≡ 0 → kmalloc size h ≡ (none, h)
  unfolding kmalloc
  kmalloc-zero e = let t : (size == 0) ≡ true = ground arith in rw t

  pub kmalloc-fits :
      size ≢ 0 → cursor h + size ≤ h.heap_end → kmalloc size h ≡ (some (cursor h), bumped size h)
  unfolding kmalloc
  kmalloc-fits ne fits =
      let t : (size == 0) ≡ false = ground arith in
      let al : align_up h.heap_current 16 ≡ cursor h =
        align_up-heap h.heap_current (omega (arith, v.below, v.no_wrap)) in
      let sum : (cursor h + size) % 2 ^ 64 ≡ cursor h + size = omega (arith, v.no_wrap) in
      let a : ltb (cursor h + size) (cursor h) ≡ false = ground arith in
      let b : ltb h.heap_end (cursor h + size) ≡ false = ground arith in rw (t, al, sum, a, b)

  pub kmalloc-full : size ≢ 0 → h.heap_end < cursor h + size → kmalloc size h ≡ (none, h)
  unfolding kmalloc
  kmalloc-full ne full =
      let t : (size == 0) ≡ false = ground arith in
      let al : align_up h.heap_current 16 ≡ cursor h =
        align_up-heap h.heap_current (omega (arith, v.below, v.no_wrap)) in
      let n = (cursor h + size) % 2 ^ 64 in
      let bad : (ltb n (cursor h) || ltb h.heap_end n) ≡ true =
        ground (arith, v.below, v.no_wrap) in
      rw (t, al, bad)

-- On a heap that keeps the invariant, `kmalloc` fails exactly on a size of 0 or when the heap has no room behind the aligned cursor,
-- whatever the size, also where the sum of pointer and size wraps; it then changes nothing.
-- Otherwise it returns the cursor rounded up to 16, moves the cursor behind the block and counts.
pub kmalloc_lem :
    (size : ℕ) (h : Heap)
    → IsValid h
    → size < 2 ^ 64
    → kmalloc size h ≡ (
        if size == 0 || ltb h.heap_end (cursor h + size)
        then (none, h)
        else (some (cursor h), bumped size h))
kmalloc_lem size h v w = elim (ℕ_discrete size 0) [
  | yes e ↦ kmalloc-zero size h v w e ∙ ground arith
  | no ne ↦ elim (dec_le (cursor h + size) h.heap_end) [
    | yes fits ↦ kmalloc-fits size h v w ne fits ∙ ground arith
    | no full ↦ kmalloc-full size h v w ne (omega arith) ∙ ground arith
  ]
]

-- `kmalloc` keeps the invariant.
pub kmalloc-IsValid : (size : ℕ) {h : Heap} → size < 2 ^ 64 → IsValid h → IsValid (kmalloc size h).1
kmalloc-IsValid size {h} w v = elim (ℕ_discrete size 0) [
  | yes e ↦ rw (kmalloc-zero size h v w e) v
  | no ne ↦ elim (dec_le (cursor h + size) h.heap_end) [
    | yes fits ↦
        rw (kmalloc-fits size h v w ne fits)
          (record { above = omega (arith, v.above); below = fits; no_wrap = v.no_wrap })
    | no full ↦ rw (kmalloc-full size h v w ne (omega arith)) v
  ]
]
