-- ===== src/Vmm/Identity.antt =====
-- The kernel's own look at its tables.
use acharya_os.Base.{
  ℕ, ◌+◌, ◌-◌, ◌*◌, ◌/◌, ◌%◌, ◌^◌, ◌≤◌, ◌<◌, ◌≡◌, refl, ◌∙◌, arith, List, true, false, Option, none,
  inl, inr, Bool-cases, ◌==◌, ltb, if◌then◌else◌, bit_and,
}
use acharya_os.Base.Bits.{bit_and_low}
use acharya_os.Vmm.{Places, Paging, index, init, translate_identity, get_stats, self_test}
use acharya_os.Vmm.Entries.{frame-flags, present-flags, huge-flags, index_lem}
use acharya_os.Vmm.Holds.{ArePlaced, Holds}
use acharya_os.Vmm.Calls.{init-Holds}
use acharya_os.Vmm.Refine.{map_all, pages_of, AreSmall, map_all-Holds}

module _ (A : Places) (t : Paging) (users : ℕ → Option ℕ) (h : Holds A t users) where
  translate_low : (va : ℕ) → va < 2 ^ 30 → translate_identity va t ≡ va
  unfolding translate_identity
  translate_low va low =
      let i = va / 2 ^ 21 in
      let a : ltb va (1024 * 1024 * 1024) ≡ true = ground arith in
      let i2 : index 21 va ≡ i = index_lem 21 va ∙ omega arith in
      let e = h.pd i (omega arith) in
      let p = present-flags (i * 2 ^ 21) 131 (omega arith) (omega arith) (omega arith) in
      let q = huge-flags (i * 2 ^ 21) 131 (omega arith) (omega arith) (omega arith) in
      let present : (bit_and (i * 2 ^ 21 + 131) 1 == 0) ≡ false = ground (arith, p) in
      let huge : (bit_and (i * 2 ^ 21 + 131) 128 == 0) ≡ false = ground (arith, q) in
      let f = frame-flags (i * 2 ^ 21) 131 (omega arith) (omega arith) (omega arith) in
      let low_bits : bit_and va (0x200000 - 1) ≡ va % 2 ^ 21 = bit_and_low 21 va in
      rw (a, i2, e, present, huge, f, low_bits) (omega arith)

  translate_high : (va : ℕ) → 2 ^ 30 ≤ va → translate_identity va t ≡ 0
  unfolding translate_identity
  translate_high va high = let a : ltb va (1024 * 1024 * 1024) ≡ false = ground arith in rw a refl

  self_test_Holds : self_test A t ≡ true
  unfolding self_test get_stats
  self_test_Holds =
      let root : (t.cr3 == A.pml4_at) ≡ true = ground (arith, h.root) in
      rw
        (
          root,
          translate_low 0x100000 (omega arith),
          translate_low 0xB8000 (omega arith),
          translate_high (1024 * 1024 * 1024) (omega arith),
        )
        refl

-- With the tables on pages of their own, after the start and any calls of `vmm_map_user_2m` with
-- physical addresses below 2^52: `vmm_translate_identity` gives each address below one GiB itself
-- and for all others 0, and the self test passes.
pub identity_stays :
    (A : Places) (calls : List (ℕ × ℕ)) (va : ℕ)
    → ArePlaced A
    → AreSmall calls
    → (translate_identity va (map_all A calls (init A)) ≡ (if ltb va (2 ^ 30) then va else 0))
      × (self_test A (map_all A calls (init A)) ≡ true)
identity_stays A calls va placed small =
    let users = pages_of calls (λ i. none) in
    let h = map_all-Holds A placed calls (init A) (λ i. none) small (init-Holds A placed) in
    let t = map_all A calls (init A) in
    (
      elim (Bool-cases (ltb va (2 ^ 30))) [
        | inl e ↦ rw e (translate_low A t users h va (ground arith))
        | inr e ↦ rw e (translate_high A t users h va (ground arith))
      ],
      self_test_Holds A t users h,
    )
