-- ===== src/Vmm/Refine.antt =====
-- The tables after any calls, as a map from addresses to addresses.
use native.Mathlib.Decide.{ℕ_discrete}
use acharya_os.Base.{
  ℕ, ◌+◌, ◌*◌, ◌/◌, ◌%◌, ◌^◌, ◌<◌, ◌≡◌, refl, ap, ◌∙◌, arith, List, [], ◌∷◌, Bool, true, false,
  ◌&&◌, Option, none, some, inl, inr, Bool-cases, ◌==◌, ltb, if◌then◌else◌, get_or, length, maybe,
  bit_and, bit_or, ok, fail, get_or-set_self, get_or-set_ne, length-set,
}
use acharya_os.Vmm.{
  Places, Paging, index, is_present, init, map_user_2m, open_pml4, open_pdpt, put_page,
}
use acharya_os.Vmm.Walk.{walk, mapped}
use acharya_os.Vmm.Entries.{bit_or-flags, present-flags, index_lem}
use acharya_os.Vmm.Holds.{ArePlaced, Holds, at_first}
use acharya_os.Vmm.Mapped.{walk-mapped}
use acharya_os.Vmm.Calls.{first_only, init-Holds}

-- A page that is mapped: both addresses are those of pages of 2 MiB, and the virtual one lies in the
-- first GiB of the second part of the address space.
abbrev pub is_accepted : ℕ → ℕ → Bool
is_accepted virtual physical =
    virtual % 2 ^ 21 == 0 && (physical % 2 ^ 21 == 0 && virtual / 2 ^ 30 % 2 ^ 18 == 512)

abbrev pub add_page : ℕ → ℕ → (ℕ → Option ℕ) → ℕ → Option ℕ
add_page virtual physical users i = if i == virtual / 2 ^ 21 % 512 then some physical else users i

module _ (A : Places) (t : Paging) (users : ℕ → Option ℕ) (placed : ArePlaced A)
    (h : Holds A t users) (virtual physical : ℕ) where
  refused : is_accepted virtual physical ≡ false → map_user_2m A virtual physical t ≡ (fail, t)
  unfolding map_user_2m
  refused no_page = elim (Bool-cases (virtual % 0x200000 == 0)) [
    | inr a ↦ rw a refl
    | inl a ↦ elim (Bool-cases (physical % 0x200000 == 0)) [
      | inr b ↦ rw (a, b) refl
      | inl b ↦ elim (Bool-cases (ltb virtual (1024 * 1024 * 1024))) [
        | inl c ↦ rw (a, b, c) refl
        | inr c ↦ elim (Bool-cases (index 39 virtual == 1)) [
          | inr d ↦ rw (a, b, c, d) refl
          | inl d ↦ elim (Bool-cases (index 30 virtual == 0)) [
            | inr e ↦ rw (a, b, c, d, e) refl
            | inl e ↦
                let x = index_lem 39 virtual in
                let y = index_lem 30 virtual in absurd (ground (arith, no_page, a, b, d, e, x, y))
          ]
        ]
      ]
    ]
  ]

  abbrev slot : ℕ
  slot = virtual / 2 ^ 21 % 512

  opened_pml4 : open_pml4 A 1 t ≡ t
  opened_pml4 =
      let p = present-flags A.user_pdpt_at 7 placed.user_pdpt.0 placed.user_pdpt.1 (omega arith) in
      let there : (bit_and (get_or t.kernel_pml4 1 0) 1 == 0) ≡ false =
        rw (h.pml4 1) (ground (arith, p)) in
      rw there refl

  abbrev after : Paging
  after = put_page A slot physical (open_pdpt A 0 t)

  taken : is_accepted virtual physical ≡ true → map_user_2m A virtual physical t ≡ (ok, after)
  unfolding map_user_2m
  taken page =
      let a : (virtual % 0x200000 == 0) ≡ true = ground (arith, page) in
      let b : (physical % 0x200000 == 0) ≡ true = ground (arith, page) in
      let part : virtual / 2 ^ 30 % 2 ^ 18 ≡ 512 = ground (arith, page) in
      let c : ltb virtual (1024 * 1024 * 1024) ≡ false = ground (arith, part) in
      let d : index 39 virtual ≡ 1 = index_lem 39 virtual ∙ omega (arith, part) in
      let e : index 30 virtual ≡ 0 = index_lem 30 virtual ∙ omega (arith, part) in
      let f : index 21 virtual ≡ slot = index_lem 21 virtual in
      rw (a, b, c, d, e, f, opened_pml4) refl

  -- The second table has its entry then.
  opened_pdpt :
      (length (open_pdpt A 0 t).user_pdpt ≡ 512)
      × ((i : ℕ) → get_or (open_pdpt A 0 t).user_pdpt i 0 ≡ at_first i (A.user_pd_at + 7))
  opened_pdpt = elim (Bool-cases h.is_open) [
    | inl opened ↦
        let here : (i : ℕ) → get_or t.user_pdpt i 0 ≡ at_first i (A.user_pd_at + 7) =
          λ i. h.user_pdpt i ∙ rw opened refl in
        let p = present-flags A.user_pd_at 7 placed.user_pd.0 placed.user_pd.1 (omega arith) in
        let there : (bit_and (get_or t.user_pdpt 0 0) 1 == 0) ≡ false =
          rw (here 0) (ground (arith, p)) in
        rw there (h.user_sizes.0, here)
    | inr shut ↦
        let here : (i : ℕ) → get_or t.user_pdpt i 0 ≡ at_first i 0 =
          λ i. h.user_pdpt i ∙ rw shut refl in
        let there : (bit_and (get_or t.user_pdpt 0 0) 1 == 0) ≡ true = rw (here 0) refl in
        rw there (
          length-set t.user_pdpt 0 (bit_or A.user_pd_at 7) ∙ h.user_sizes.0,
          first_only A placed t.user_pdpt A.user_pd_at 7 h.user_sizes.0 here placed.user_pd
              (omega arith),
        )
  ]

  -- The other tables stay.
  others :
      ((open_pdpt A 0 t).cr3 ≡ t.cr3)
      × ((open_pdpt A 0 t).kernel_pml4 ≡ t.kernel_pml4)
      × ((open_pdpt A 0 t).kernel_pdpt ≡ t.kernel_pdpt)
      × ((open_pdpt A 0 t).kernel_pd ≡ t.kernel_pd)
      × ((open_pdpt A 0 t).user_pd ≡ t.user_pd)
  others = elim (Bool-cases (is_present (get_or t.user_pdpt 0 0))) [
    | inl e ↦ rw e (refl, refl, refl, refl, refl)
    | inr e ↦ rw e (refl, refl, refl, refl, refl)
  ]

  page_put :
      physical % 2 ^ 21 ≡ 0
      → physical < 2 ^ 52
      → (i : ℕ) → i < 512
      → get_or after.user_pd i 0 ≡ maybe (add_page virtual physical users i) 0 (λ p. p + 135)
  page_put aligned small i inside =
      let entry = bit_or physical 135 in
      let table = (open_pdpt A 0 t).user_pd in
      let size = ap (λ (x : List ℕ). length x) others.4 ∙ h.user_sizes.1 in
      elim (ℕ_discrete slot i) [
        | yes e ↦
            let here : (i == slot) ≡ true = ground (arith, e) in
            rw here (
              rw (← e) (
                get_or-set_self table slot entry 0 (omega (arith, size, inside, e))
                ∙ bit_or-flags physical 135 (omega arith) small (omega arith)))
        | no ne ↦
            let away : (i == slot) ≡ false = ground (arith, ne) in
            rw away (
              get_or-set_ne table slot i entry 0 ne
              ∙ ap (λ (x : List ℕ). get_or x i 0) others.4
              ∙ h.user_pd i inside)
      ]

  after-Holds :
      physical % 2 ^ 21 ≡ 0 → physical < 2 ^ 52 → Holds A after (add_page virtual physical users)
  after-Holds aligned small = record {
    root = others.0 ∙ h.root;
    pml4 = λ i. ap (λ (x : List ℕ). get_or x i 0) others.1 ∙ h.pml4 i;
    pdpt = λ i. ap (λ (x : List ℕ). get_or x i 0) others.2 ∙ h.pdpt i;
    pd = λ i inside. ap (λ (x : List ℕ). get_or x i 0) others.3 ∙ h.pd i inside;
    user_sizes = (
      opened_pdpt.0,
      length-set (open_pdpt A 0 t).user_pd slot (bit_or physical 135)
          ∙ ap (λ (x : List ℕ). length x) others.4
          ∙ h.user_sizes.1,
    );
    is_open = true;
    user_pdpt = opened_pdpt.1;
    user_pd = page_put aligned small;
    closed = λ e i. cc;
    pages = λ i p e. elim (Bool-cases (i == slot)) [
      | inl here ↦
          let same : some physical ≡ some p = rw here at e in
          let q : physical ≡ p = cc in (omega (arith, q, aligned), omega (arith, q, small))
      | inr away ↦ let old : users i ≡ some p = rw away at e in h.pages i p old
    ];
  }

  -- A call either maps its page or is refused and changes nothing.
  pub call_lem :
      physical < 2 ^ 52
      → ((map_user_2m A virtual physical t).0 ≡ (if is_accepted virtual physical then ok else fail))
        × Holds A
            (map_user_2m A virtual physical t).1
            (if is_accepted virtual physical then add_page virtual physical users else users)
  call_lem small = elim (Bool-cases (is_accepted virtual physical)) [
    | inr no_page ↦ rw (refused no_page, no_page) (refl, h)
    | inl page ↦
        let aligned : physical % 2 ^ 21 ≡ 0 = ground (arith, page) in
        rw (taken page, page) (refl, after-Holds aligned small)
  ]

-- A series of calls of `vmm_map_user_2m`, and the pages that they map: of those for one place, the
-- last.
abbrev pub map_all : Places → List (ℕ × ℕ) → Paging → Paging
map_all A [] t = t
map_all A ((virtual, physical) ∷ calls) t = map_all A calls (map_user_2m A virtual physical t).1

abbrev pub pages_of : List (ℕ × ℕ) → (ℕ → Option ℕ) → ℕ → Option ℕ
pages_of [] users = users
pages_of ((virtual, physical) ∷ calls) users =
    pages_of calls (if is_accepted virtual physical then add_page virtual physical users else users)

abbrev pub AreSmall : List (ℕ × ℕ) → Type 0
AreSmall [] = Unit
AreSmall ((virtual, physical) ∷ calls) = (physical < 2 ^ 52) × AreSmall calls

pub map_all-Holds :
    (A : Places) (placed : ArePlaced A) (calls : List (ℕ × ℕ)) (t : Paging) (users : ℕ → Option ℕ)
    → AreSmall calls
    → Holds A t users
    → Holds A (map_all A calls t) (pages_of calls users)
map_all-Holds A placed [] t users small h = h
map_all-Holds A placed ((virtual, physical) ∷ calls) t users small h =
    map_all-Holds A placed calls (map_user_2m A virtual physical t).1
      (if is_accepted virtual physical then add_page virtual physical users else users) small.1
      (call_lem A t users placed h virtual physical small.0).1

-- With the tables on pages of their own: after the start and any calls of `vmm_map_user_2m` with
-- physical addresses below 2^52, the processor's walk of the tables maps each address of 48 bits as
-- it should: the first GiB to itself, for the kernel only, a mapped user page to the physical page
-- that was last given for it, and nothing else.
pub paging_maps :
    (A : Places) (calls : List (ℕ × ℕ)) (va : ℕ)
    → ArePlaced A
    → AreSmall calls
    → va < 2 ^ 48
    → walk A (map_all A calls (init A)) va ≡ mapped (pages_of calls (λ i. none)) va
paging_maps A calls va placed small inside =
    walk-mapped A (map_all A calls (init A)) (pages_of calls (λ i. none)) placed
      (map_all-Holds A placed calls (init A) (λ i. none) small (init-Holds A placed)) va inside
