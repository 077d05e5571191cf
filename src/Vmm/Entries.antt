-- ===== src/Vmm/Entries.antt =====
-- What the bits of an entry say.
use acharya_os.Base.{ℕ, ◌+◌, ◌*◌, ◌/◌, ◌%◌, ◌^◌, ◌<◌, ◌≡◌, ap, ◌∙◌, arith, bit_and, bit_or}
use acharya_os.Base.Bits.{bit_or_field, bit_and_low, bit_and_high}
use acharya_os.Vmm.{frame, index}

-- An address of a page, and flags in the bits below it.
module _ (a f : ℕ) (aligned : a % 4096 ≡ 0) (small : a < 2 ^ 52) (flags : f < 4096) where
  pub bit_or-flags : bit_or a f ≡ a + f
  bit_or-flags =
      let e : a ≡ (a / 4096) * 2 ^ 12 = omega arith in
      ap (λ (x : ℕ). bit_or x f) e ∙ bit_or_field 12 (a / 4096) f (omega arith) ∙ omega arith

  pub frame-flags : frame (a + f) ≡ a
  frame-flags = bit_and_high 12 40 (a + f) ∙ omega arith

  pub present-flags : bit_and (a + f) 1 ≡ f % 2
  present-flags = bit_and_low 1 (a + f) ∙ omega arith

  pub user-flags : bit_and (a + f) 4 ≡ (f / 4 % 2) * 4
  user-flags = bit_and_high 2 1 (a + f) ∙ omega arith

  pub huge-flags : bit_and (a + f) 128 ≡ (f / 128 % 2) * 128
  huge-flags = bit_and_high 7 1 (a + f) ∙ omega arith

pub index_lem : (shift va : ℕ) → index shift va ≡ va / 2 ^ shift % 512
index_lem shift va = bit_and_low 9 (va / 2 ^ shift)
