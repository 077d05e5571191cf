-- ===== src/Vmm/Mapped.antt =====
-- The tables map what they are to map.
use native.Mathlib.Decide.{ℕ_discrete}
use acharya_os.Base.{
  ℕ, ◌+◌, ◌*◌, ◌/◌, ◌%◌, ◌^◌, ◌<◌, ◌≡◌, ◌≢◌, refl, ◌∙◌, arith, true, false, Option, none, some,
  Option-cases, inl, inr, Bool-cases, ◌==◌, get_or, maybe, bit_and,
}
use acharya_os.Vmm.{Places, Paging, index}
use acharya_os.Vmm.Walk.{table_at, walk, mapped}
use acharya_os.Vmm.Entries.{frame-flags, user-flags, index_lem}
use acharya_os.Vmm.Holds.{IsPage, ArePlaced, Holds, entry_in-page, entry_in-zero, leaf}

module _ (A : Places) (t : Paging) (users : ℕ → Option ℕ) (placed : ArePlaced A)
    (h : Holds A t users) where
  at_root : table_at A t t.cr3 ≡ some t.kernel_pml4
  at_root = let e : (t.cr3 == A.pml4_at) ≡ true = ground (arith, h.root) in rw e refl

  at_pdpt : table_at A t A.pdpt_at ≡ some t.kernel_pdpt
  at_pdpt =
      let a : (A.pdpt_at == A.pml4_at) ≡ false = ground (arith, placed.first) in
      let b : (A.pdpt_at == A.pdpt_at) ≡ true = ground arith in rw (a, b) refl

  at_pd : table_at A t A.pd_at ≡ some t.kernel_pd
  at_pd =
      let a : (A.pd_at == A.pml4_at) ≡ false = ground (arith, placed.first) in
      let b : (A.pd_at == A.pdpt_at) ≡ false = ground (arith, placed.second) in
      let c : (A.pd_at == A.pd_at) ≡ true = ground arith in rw (a, b, c) refl

  at_user_pdpt : table_at A t A.user_pdpt_at ≡ some t.user_pdpt
  at_user_pdpt =
      let a : (A.user_pdpt_at == A.pml4_at) ≡ false = ground (arith, placed.first) in
      let b : (A.user_pdpt_at == A.pdpt_at) ≡ false = ground (arith, placed.second) in
      let c : (A.user_pdpt_at == A.pd_at) ≡ false = ground (arith, placed.third) in
      let d : (A.user_pdpt_at == A.user_pdpt_at) ≡ true = ground arith in rw (a, b, c, d) refl

  at_user_pd : table_at A t A.user_pd_at ≡ some t.user_pd
  at_user_pd =
      let a : (A.user_pd_at == A.pml4_at) ≡ false = ground (arith, placed.first) in
      let b : (A.user_pd_at == A.pdpt_at) ≡ false = ground (arith, placed.second) in
      let c : (A.user_pd_at == A.pd_at) ≡ false = ground (arith, placed.third) in
      let d : (A.user_pd_at == A.user_pdpt_at) ≡ false = ground (arith, placed.third) in
      let e : (A.user_pd_at == A.user_pd_at) ≡ true = ground arith in rw (a, b, c, d, e) refl

  walk_kernel : (va : ℕ) → va / 2 ^ 30 ≡ 0 → walk A t va ≡ some (va, false)
  unfolding walk
  walk_kernel va low =
      let i4 : index 39 va ≡ 0 = index_lem 39 va ∙ omega arith in
      let i3 : index 30 va ≡ 0 = index_lem 30 va ∙ omega arith in
      let i = va / 2 ^ 21 in
      let small : i < 512 = omega arith in
      let i2 : index 21 va ≡ i = index_lem 21 va ∙ omega arith in
      let e4 =
        entry_in-page t.kernel_pml4 0 A.pdpt_at 3 (h.pml4 0) placed.pdpt (omega arith)
          (omega arith) in
      let e3 =
        entry_in-page t.kernel_pdpt 0 A.pd_at 3 (h.pdpt 0) placed.pd (omega arith) (omega arith) in
      let page : IsPage (i * 2 ^ 21) = (omega arith, omega arith) in
      let e2 =
        entry_in-page t.kernel_pd i (i * 2 ^ 21) 131 (h.pd i small) page (omega arith)
          (omega arith) in
      let f4 = frame-flags A.pdpt_at 3 placed.pdpt.0 placed.pdpt.1 (omega arith) in
      let f3 = frame-flags A.pd_at 3 placed.pd.0 placed.pd.1 (omega arith) in
      let u4 : (bit_and (A.pdpt_at + 3) 4 == 0) ≡ true =
        let u = user-flags A.pdpt_at 3 placed.pdpt.0 placed.pdpt.1 (omega arith) in
        ground (arith, u) in
      let whole : i * 2 ^ 21 + va % 2 ^ 21 ≡ va = omega arith in
      rw (i4, i3, i2, at_root, e4, f4, at_pdpt, e3, f3, at_pd, e2, u4)
        (leaf (i * 2 ^ 21) 131 va false page (omega arith) (omega arith) ∙ rw whole refl)

  walk_user :
      (va : ℕ)
      → va / 2 ^ 30 ≡ 512
      → walk A t va ≡ maybe (users (va / 2 ^ 21 % 512)) none (λ p. some (p + va % 2 ^ 21, true))
  unfolding walk
  walk_user va part =
      let i4 : index 39 va ≡ 1 = index_lem 39 va ∙ omega arith in
      let i3 : index 30 va ≡ 0 = index_lem 30 va ∙ omega arith in
      let i = va / 2 ^ 21 % 512 in
      let small : i < 512 = omega arith in
      let i2 : index 21 va ≡ i = index_lem 21 va in
      let e4 =
        entry_in-page t.kernel_pml4 1 A.user_pdpt_at 7 (h.pml4 1) placed.user_pdpt (omega arith)
          (omega arith) in
      let f4 = frame-flags A.user_pdpt_at 7 placed.user_pdpt.0 placed.user_pdpt.1 (omega arith) in
      let u4 : (bit_and (A.user_pdpt_at + 7) 4 == 0) ≡ false =
        let u = user-flags A.user_pdpt_at 7 placed.user_pdpt.0 placed.user_pdpt.1 (omega arith) in
        ground (arith, u) in
      elim (Bool-cases h.is_open) [
        | inr shut ↦
            let z : get_or t.user_pdpt 0 0 ≡ 0 = h.user_pdpt 0 ∙ rw shut refl in
            rw
              (
                i4,
                i3,
                at_root,
                e4,
                f4,
                at_user_pdpt,
                entry_in-zero t.user_pdpt 0 z,
                h.closed shut i,
              )
              refl
        | inl opened ↦
            let there : get_or t.user_pdpt 0 0 ≡ A.user_pd_at + 7 =
              h.user_pdpt 0 ∙ rw opened refl in
            let e3 =
              entry_in-page t.user_pdpt 0 A.user_pd_at 7 there placed.user_pd (omega arith)
                (omega arith) in
            let f3 = frame-flags A.user_pd_at 7 placed.user_pd.0 placed.user_pd.1 (omega arith) in
            let u3 : (bit_and (A.user_pd_at + 7) 4 == 0) ≡ false =
              let u = user-flags A.user_pd_at 7 placed.user_pd.0 placed.user_pd.1 (omega arith) in
              ground (arith, u) in
            elim (Option-cases (users i)) [
              | inl e ↦
                  let z : get_or t.user_pd i 0 ≡ 0 = h.user_pd i small ∙ rw e refl in
                  rw
                    (
                      i4,
                      i3,
                      i2,
                      at_root,
                      e4,
                      f4,
                      at_user_pdpt,
                      e3,
                      f3,
                      at_user_pd,
                      entry_in-zero t.user_pd i z,
                      e,
                    )
                    refl
              | inr (p, e) ↦
                  let z : get_or t.user_pd i 0 ≡ p + 135 = h.user_pd i small ∙ rw e refl in
                  let q = h.pages i p e in
                  let page : IsPage p = (omega (arith, q), q.1) in
                  let e2 = entry_in-page t.user_pd i p 135 z page (omega arith) (omega arith) in
                  let u2 : (bit_and (p + 135) 4 == 0) ≡ false =
                    let u = user-flags p 135 page.0 page.1 (omega arith) in ground (arith, u) in
                  rw
                    (
                      i4, i3, i2, at_root, e4, f4, at_user_pdpt, e3, f3, at_user_pd, e2, u4, u3, u2,
                      e,
                    )
                    (leaf p 135 va true page (omega arith) (omega arith))
            ]
      ]

  walk_nothing : (va : ℕ) → va < 2 ^ 48 → va / 2 ^ 30 ≢ 0 → va / 2 ^ 30 ≢ 512 → walk A t va ≡ none
  unfolding walk
  walk_nothing va small a b =
      let i4 = va / 2 ^ 39 in
      let i3 = va / 2 ^ 30 % 512 in
      let at4 : index 39 va ≡ i4 = index_lem 39 va ∙ omega arith in
      let at3 : index 30 va ≡ i3 = index_lem 30 va in
      elim (ℕ_discrete i4 0) [
        | yes e ↦
            let here : index 39 va ≡ 0 = at4 ∙ e in
            let ne : (i3 == 0) ≡ false = ground (arith, a, e) in
            let z : get_or t.kernel_pdpt i3 0 ≡ 0 = h.pdpt i3 ∙ rw ne refl in
            let e4 =
              entry_in-page t.kernel_pml4 0 A.pdpt_at 3 (h.pml4 0) placed.pdpt (omega arith)
                (omega arith) in
            let f4 = frame-flags A.pdpt_at 3 placed.pdpt.0 placed.pdpt.1 (omega arith) in
            rw (here, at3, at_root, e4, f4, at_pdpt, entry_in-zero t.kernel_pdpt i3 z) refl
        | no not_first ↦ elim (ℕ_discrete i4 1) [
          | yes e ↦
              let here : index 39 va ≡ 1 = at4 ∙ e in
              let ne : (i3 == 0) ≡ false = ground (arith, b, e) in
              let z : get_or t.user_pdpt i3 0 ≡ 0 = h.user_pdpt i3 ∙ rw ne refl in
              let e4 =
                entry_in-page t.kernel_pml4 1 A.user_pdpt_at 7 (h.pml4 1) placed.user_pdpt
                  (omega arith) (omega arith) in
              let f4 =
                frame-flags A.user_pdpt_at 7 placed.user_pdpt.0 placed.user_pdpt.1 (omega arith) in
              rw (here, at3, at_root, e4, f4, at_user_pdpt, entry_in-zero t.user_pdpt i3 z) refl
          | no not_second ↦
              let c : (i4 == 0) ≡ false = ground (arith, not_first) in
              let d : (i4 == 1) ≡ false = ground (arith, not_second) in
              let z : get_or t.kernel_pml4 i4 0 ≡ 0 = h.pml4 i4 ∙ rw (c, d) refl in
              rw (at4, at_root, entry_in-zero t.kernel_pml4 i4 z) refl
        ]
      ]

  -- The tables map each address of 48 bits as they are to.
  pub walk-mapped : (va : ℕ) → va < 2 ^ 48 → walk A t va ≡ mapped users va
  walk-mapped va small = elim (ℕ_discrete (va / 2 ^ 30) 0) [
    | yes e ↦ let a : (va / 2 ^ 30 == 0) ≡ true = ground (arith, e) in rw a (walk_kernel va e)
    | no ne ↦
        let a : (va / 2 ^ 30 == 0) ≡ false = ground (arith, ne) in
        elim (ℕ_discrete (va / 2 ^ 30) 512) [
          | yes e ↦
              let b : (va / 2 ^ 30 == 512) ≡ true = ground (arith, e) in rw (a, b) (walk_user va e)
          | no nf ↦
              let b : (va / 2 ^ 30 == 512) ≡ false = ground (arith, nf) in
              rw (a, b) (walk_nothing va small ne nf)
        ]
  ]
