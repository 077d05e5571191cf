-- ===== src/Kheap.antt =====
-- memory/kheap.c: the bump allocator. Memory itself is a function from addresses to bytes.
pub mod Align
pub mod Bounds
pub mod Disjoint
pub mod Selftest
mod Tests
use acharya_os.Base.{
  ℕ, zero, suc, ◌+◌, ◌-◌, ◌*◌, ◌%◌, ◌^◌, Bool, true, false, not, Option, none, some, ◌==◌, ◌||◌,
  ◌&&◌, leb, ltb, if◌then◌else◌, u64, bit_and,
}

pub record Heap : Type 0 where
  pub heap_start : ℕ
  pub heap_current : ℕ
  pub heap_end : ℕ
  pub allocation_count : ℕ

pub record Stats : Type 0 where
  pub heap_start : ℕ
  pub heap_current : ℕ
  pub heap_end : ℕ
  pub bytes_used : ℕ
  pub allocation_count : ℕ

abbrev pub heap_size_bytes : ℕ
heap_size_bytes = 1024 * 1024

abbrev pub heap_alignment : ℕ
heap_alignment = 16

-- (value + alignment - 1) & ~(alignment - 1) on 64-bit words, for alignments from 1 on.
pub align_up : ℕ → ℕ → ℕ
align_up value alignment =
    bit_and (u64 (u64 (value + alignment) + (2 ^ 64 - 1))) (2 ^ 64 - 1 - (alignment - 1))

-- `kernel_end` is the address of the linker's symbol `__kernel_end`.
pub init : ℕ → Heap
init kernel_end =
    let start = align_up kernel_end 4096 in
    record {
      heap_start = start;
      heap_current = start;
      heap_end = u64 (start + heap_size_bytes);
      allocation_count = 0;
    }

-- `none` is the null pointer.
pub kmalloc : ℕ → Heap → Option ℕ × Heap
kmalloc size h =
    if size == 0
    then (none, h)
    else let allocation = align_up h.heap_current heap_alignment in
      let next = u64 (allocation + size) in
      if ltb next allocation || ltb h.heap_end next then (none, h) else (
        some allocation,
        record h { heap_current = next; allocation_count = u64 (h.allocation_count + 1) },
      )

abbrev pub Memory : Type 0
Memory = ℕ → ℕ

-- memset(ptr, 0, size)
abbrev pub zero_range : ℕ → ℕ → Memory → Memory
zero_range ptr size m a = if leb ptr a && ltb a (ptr + size) then 0 else m a

clear_block : ℕ → Option ℕ → Memory → Memory
clear_block size none m = m
clear_block size (some ptr) m = zero_range ptr size m

pub kzalloc : ℕ → Heap → Memory → Option ℕ × Heap × Memory
unfolding clear_block
kzalloc size h m = let (ptr, h') = kmalloc size h in (ptr, h', clear_block size ptr m)

-- Freeing does nothing.
pub kfree : Option ℕ → Heap → Heap
kfree ptr h = h

pub get_stats : Heap → Stats
get_stats h = record {
  heap_start = h.heap_start;
  heap_current = h.heap_current;
  heap_end = h.heap_end;
  bytes_used = u64 (h.heap_current + 2 ^ 64 - h.heap_start);
  allocation_count = h.allocation_count;
}

-- p[i] = v
abbrev pub store : ℕ → ℕ → Memory → Memory
store p v m a = if a == p then v else m a

-- for (i = 0; i < left; i++) if (b[i] != 0) return 0;
pub all_zero : ℕ → ℕ → Memory → Bool
all_zero zero b m = true
all_zero (suc left) b m = let rest = all_zero left (b + 1) m in if m b == 0 then rest else false

-- The checks of `kheap_self_test` on the two pointers, and its stores.
pub check_blocks : Option ℕ → Option ℕ → Memory → Bool × Memory
check_blocks none b m = (false, m)
check_blocks (some a) none m = (false, m)
check_blocks (some a) (some b) m =
    if not (a % heap_alignment == 0) || not (b % heap_alignment == 0)
    then (false, m)
    else if leb b a
    then (false, m)
    else if not (all_zero 64 b m)
    then (false, m)
    else let m' = store (a + 31) 0x5A (store a 0xA5 m) in (m' a == 0xA5 && m' (a + 31) == 0x5A, m')

pub self_test : Heap → Memory → Bool × Heap × Memory
unfolding check_blocks all_zero
self_test h0 m0 =
    let (a, h1) = kmalloc 32 h0 in
    let (b, h2, m1) = kzalloc 64 h1 m0 in let (passed, m2) = check_blocks a b m1 in (passed, h2, m2)
