-- ===== src/Vmm/Calls.antt =====
-- From the start of the kernel on, whatever is mapped.
use native.Mathlib.Decide.{ℕ_discrete}
use acharya_os.Base.{
  ℕ, zero, suc, ◌+◌, ◌*◌, ◌^◌, ◌≤◌, ◌<◌, ◌≡◌, refl, ap, sym, ◌∙◌, arith, List, true, false, ◌&&◌,
  none, inl, inr, Bool-cases, ◌==◌, ltb, leb, if◌then◌else◌, get_or, set, length, bit_or, u64,
  get_or-replicate, get_or-set_self, get_or-set_ne, length-replicate, length-set,
}
use acharya_os.Vmm.{Places, init, map_pages, no_entries}
use acharya_os.Vmm.Entries.{bit_or-flags}
use acharya_os.Vmm.Holds.{ArePlaced, IsPage, Holds, at_first}

get_or-zeros : (i : ℕ) → get_or no_entries i 0 ≡ 0
get_or-zeros i = get_or-replicate {A = ℕ} 512 i 0

length-zeros : length no_entries ≡ 512
length-zeros = length-replicate {A = ℕ} 512 0

length-map_pages : (left i : ℕ) (pd : List ℕ) → length (map_pages left i pd) ≡ length pd
unfolding map_pages
length-map_pages zero i pd = refl
length-map_pages (suc left) i pd =
    let entry = bit_or (u64 (i * 0x200000)) 131 in
    length-map_pages left (i + 1) (set pd i entry) ∙ length-set pd i entry

-- The pages that the loop has mapped, and those that it leaves.
map_pages_lem :
    (left i : ℕ) (pd : List ℕ) (j : ℕ)
    → length pd ≡ 512
    → i + left ≤ 512
    → get_or (map_pages left i pd) j 0
      ≡ (if leb i j && ltb j (i + left) then j * 2 ^ 21 + 131 else get_or pd j 0)
unfolding map_pages
map_pages_lem zero i pd j size fits =
    let past : (leb i j && ltb j (i + 0)) ≡ false = ground arith in rw past refl
map_pages_lem (suc left) i pd j size fits =
    let entry = bit_or (u64 (i * 0x200000)) 131 in
    let width : u64 (i * 0x200000) ≡ i * 2 ^ 21 = omega arith in
    let value : entry ≡ i * 2 ^ 21 + 131 =
      ap (λ (x : ℕ). bit_or x 131) width
      ∙ bit_or-flags (i * 2 ^ 21) 131 (omega arith) (omega arith) (omega arith) in
    let rest =
      map_pages_lem left (i + 1) (set pd i entry) j (length-set pd i entry ∙ size) (omega arith) in
    elim (ℕ_discrete i j) [
      | yes e ↦
          let a : (leb (i + 1) j && ltb j (i + 1 + left)) ≡ false = ground arith in
          let b : (leb i j && ltb j (i + suc left)) ≡ true = ground arith in
          let whole : i * 2 ^ 21 + 131 ≡ j * 2 ^ 21 + 131 = omega (arith, e) in
          rw b (
            rest
            ∙ rw a (rw (← e) (get_or-set_self pd i entry 0 (omega (arith, size))))
            ∙ value
            ∙ whole)
      | no ne ↦
          let other = get_or-set_ne pd i j entry 0 ne in
          let same : (leb (i + 1) j && ltb j (i + 1 + left)) ≡ (leb i j && ltb j (i + suc left)) =
            ground arith in
          rest ∙ rw (same, other) refl
    ]

module _ (A : Places) (placed : ArePlaced A) where
  -- The kernel's first table.
  init_pml4 :
      (i : ℕ)
      → get_or (init A).kernel_pml4 i 0
        ≡ (if i == 0 then A.pdpt_at + 3 else if i == 1 then A.user_pdpt_at + 7 else 0)
  unfolding init
  init_pml4 i =
      let first = set no_entries 0 (bit_or A.pdpt_at 3) in
      let e3 = bit_or-flags A.pdpt_at 3 placed.pdpt.0 placed.pdpt.1 (omega arith) in
      let e7 = bit_or-flags A.user_pdpt_at 7 placed.user_pdpt.0 placed.user_pdpt.1 (omega arith) in
      let size = length-set no_entries 0 (bit_or A.pdpt_at 3) ∙ length-zeros in
      elim (ℕ_discrete 1 i) [
        | yes e ↦
            rw (← e)
              (get_or-set_self first 1 (bit_or A.user_pdpt_at 7) 0 (omega (arith, size)) ∙ e7)
        | no ne ↦
            let other = get_or-set_ne first 1 i (bit_or A.user_pdpt_at 7) 0 ne in
            elim (ℕ_discrete 0 i) [
              | yes e ↦
                  other
                  ∙ rw (← e) (
                      get_or-set_self no_entries 0 (bit_or A.pdpt_at 3) 0
                        (omega (arith, length-zeros))
                      ∙ e3)
              | no nz ↦
                  let a : (i == 0) ≡ false = ground (arith, nz) in
                  let b : (i == 1) ≡ false = ground (arith, ne) in
                  other
                  ∙ get_or-set_ne no_entries 0 i (bit_or A.pdpt_at 3) 0 nz
                  ∙ get_or-zeros i
                  ∙ rw (a, b) refl
            ]
      ]

  -- A table with an entry in its first place only.
  pub first_only :
      (table : List ℕ) (a f : ℕ)
      → length table ≡ 512
      → ((i : ℕ) → get_or table i 0 ≡ at_first i 0)
      → IsPage a
      → f < 4096
      → (i : ℕ) → get_or (set table 0 (bit_or a f)) i 0 ≡ at_first i (a + f)
  first_only table a f size zeros page small i = elim (ℕ_discrete 0 i) [
    | yes e ↦ rw (← e) (
        get_or-set_self table 0 (bit_or a f) 0 (omega (arith, size))
        ∙ bit_or-flags a f page.0 page.1 small)
    | no ne ↦
        let b : (i == 0) ≡ false = ground (arith, ne) in
        get_or-set_ne table 0 i (bit_or a f) 0 ne ∙ zeros i ∙ rw b refl
  ]

  at_first-zero : (i : ℕ) → at_first i 0 ≡ 0
  at_first-zero i = elim (Bool-cases (i == 0)) [ inl e ↦ rw e refl | inr e ↦ rw e refl ]

  zeros_first : (i : ℕ) → get_or no_entries i 0 ≡ at_first i 0
  zeros_first i = get_or-zeros i ∙ sym (at_first-zero i)

  pub init-Holds : Holds A (init A) (λ i. none)
  unfolding init
  init-Holds = record {
    root = refl;
    pml4 = init_pml4;
    pdpt = first_only no_entries A.pd_at 3 length-zeros zeros_first placed.pd (omega arith);
    pd = λ i small.
        let inside : (leb 0 i && ltb i (0 + 512)) ≡ true = ground arith in
        map_pages_lem 512 0 no_entries i length-zeros (omega arith) ∙ rw inside refl;
    user_sizes = (length-zeros, length-zeros);
    is_open = false;
    user_pdpt = zeros_first;
    user_pd = λ i small. get_or-zeros i;
    closed = λ e i. refl;
    pages = λ i p e. cc;
  }
