-- ===== src/Kheap/Disjoint.antt =====
-- The blocks that a series of allocations hands out.
use native.Mathlib.Decide.{ℕ_discrete, dec_le}
use acharya_os.Base.{
  ℕ, ◌+◌, ◌%◌, ◌^◌, ◌≤◌, ◌<◌, ◌≡◌, arith, Option, none, some, List, [], ◌∷◌, ◌⊎◌, inl, All,
}
use acharya_os.Kheap.{Heap, kmalloc}
use acharya_os.Kheap.Bounds.{
  IsValid, cursor, bumped, kmalloc-zero, kmalloc-full, kmalloc-fits, kmalloc-IsValid,
}

-- A pointer and the size that was asked for.
abbrev pub Block : Type 0
Block = ℕ × ℕ

abbrev keep : Option ℕ → ℕ → List Block → List Block
keep none n bs = bs
keep (some p) n bs = (p, n) ∷ bs

-- The blocks handed out for these sizes, one call after the other; a failed call gives none.
pub blocks : List ℕ → Heap → List Block
blocks [] h = []
blocks (n ∷ ns) h = let (p, h') = kmalloc n h in keep p n (blocks ns h')

-- The block lies between the two addresses, is aligned and not empty.
abbrev pub Within : ℕ → ℕ → Block → Type 0
Within lo hi (p, n) = (lo ≤ p) × (p + n ≤ hi) × (p % 16 ≡ 0) × (0 < n)

abbrev pub Apart : Block → Block → Type 0
Apart (p, n) (q, m) = (p + n ≤ q) ⊎ (q + m ≤ p)

-- No two blocks of the list overlap.
abbrev pub Separate : List Block → Type 0
Separate [] = Unit
Separate (b ∷ bs) = All (Apart b) bs × Separate bs

widen :
    (lo lo' hi : ℕ) (bs : List Block) → lo ≤ lo' → All (Within lo' hi) bs → All (Within lo hi) bs
widen lo lo' hi [] h w = tt
widen lo lo' hi ((p, n) ∷ bs) h (b, w) = (omega arith, widen lo lo' hi bs h w)

Apart-below :
    (p n lo hi : ℕ) (bs : List Block) → p + n ≤ lo → All (Within lo hi) bs → All (Apart (p, n)) bs
Apart-below p n lo hi [] h w = tt
Apart-below p n lo hi ((q, m) ∷ bs) h (b, w) = (inl (omega arith), Apart-below p n lo hi bs h w)

abbrev Laid : Heap → List Block → Type 0
Laid h bs = All (Within h.heap_current h.heap_end) bs × Separate bs

blocks_from : (ns : List ℕ) (h : Heap) → All (λ n. n < 2 ^ 64) ns → IsValid h → Laid h (blocks ns h)
unfolding blocks
blocks_from [] h w v = (tt, tt)
blocks_from (n ∷ ns) h w v = elim (ℕ_discrete n 0) [
  | yes e ↦ rw (kmalloc-zero n h v w.0 e) (blocks_from ns h w.1 v)
  | no ne ↦ elim (dec_le (cursor h + n) h.heap_end) [
    | no full ↦ rw (kmalloc-full n h v w.0 ne (omega arith)) (blocks_from ns h w.1 v)
    | yes fits ↦
        let e = kmalloc-fits n h v w.0 ne fits in
        let v' : IsValid (bumped n h) = rw e at (kmalloc-IsValid n w.0 v) in
        let rest = blocks_from ns (bumped n h) w.1 v' in
        rw e (
          (omega arith, widen _ (cursor h + n) _ (blocks ns (bumped n h)) (omega arith) rest.0),
          (
            Apart-below (cursor h) n (cursor h + n) h.heap_end (blocks ns (bumped n h))
                (omega arith) rest.0,
            rest.1,
          ),
        )
  ]
]

-- On a heap that keeps the invariant, whatever sizes are asked for, in whatever order, the blocks handed out lie in the unused part of
-- the heap, start at multiples of 16, are not empty, and no two of them overlap.
pub blocks-Separate :
    (sizes : List ℕ) (h : Heap)
    → All (λ n. n < 2 ^ 64) sizes
    → IsValid h
    → All (Within h.heap_current h.heap_end) (blocks sizes h) × Separate (blocks sizes h)
blocks-Separate sizes h w v = blocks_from sizes h w v
