-- ===== src/Kheap/Align.antt =====
-- Rounding up to an alignment, as arithmetic.
use acharya_os.Base.{ℕ, ◌+◌, ◌-◌, ◌*◌, ◌/◌, ◌^◌, ◌≤◌, ◌≡◌, ◌∙◌, arith, u64}
use acharya_os.Base.Bits.{bit_and_high}
use acharya_os.Kheap.{align_up}

pub align_up-heap : (v : ℕ) → v + 16 ≤ 2 ^ 64 → align_up v 16 ≡ (v + 15) / 16 * 16
unfolding align_up
align_up-heap v h = bit_and_high 4 60 (u64 (u64 (v + 16) + (2 ^ 64 - 1))) ∙ omega arith

pub align_up-page : (v : ℕ) → v + 4096 ≤ 2 ^ 64 → align_up v 4096 ≡ (v + 4095) / 4096 * 4096
unfolding align_up
align_up-page v h = bit_and_high 12 52 (u64 (u64 (v + 4096) + (2 ^ 64 - 1))) ∙ omega arith
