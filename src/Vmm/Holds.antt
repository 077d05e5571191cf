-- ===== src/Vmm/Holds.antt =====
-- What the tables hold, at any time.
use acharya_os.Base.{
  ℕ, ◌+◌, ◌*◌, ◌/◌, ◌%◌, ◌^◌, ◌<◌, ◌≡◌, ◌≢◌, refl, arith, List, Bool, false, Option, none, some,
  ◌==◌, if◌then◌else◌, get_or, length, maybe, bit_and,
}
use acharya_os.Vmm.{Places, Paging, is_huge, frame}
use acharya_os.Vmm.Walk.{entry_in}
use acharya_os.Vmm.Entries.{frame-flags, present-flags, huge-flags}

abbrev pub IsPage : ℕ → Type 0
IsPage a = (a % 4096 ≡ 0) × (a < 2 ^ 52)

-- The tables lie on pages of their own.
pub record ArePlaced (A : Places) : Type 0 where
  pub pml4 : IsPage A.pml4_at
  pub pdpt : IsPage A.pdpt_at
  pub pd : IsPage A.pd_at
  pub user_pdpt : IsPage A.user_pdpt_at
  pub user_pd : IsPage A.user_pd_at
  pub first :
      (A.pdpt_at ≢ A.pml4_at)
      × (A.pd_at ≢ A.pml4_at)
      × (A.user_pdpt_at ≢ A.pml4_at)
      × (A.user_pd_at ≢ A.pml4_at)
  pub second : (A.pd_at ≢ A.pdpt_at) × (A.user_pdpt_at ≢ A.pdpt_at) × (A.user_pd_at ≢ A.pdpt_at)
  pub third :
      (A.user_pdpt_at ≢ A.pd_at) × (A.user_pd_at ≢ A.pd_at) × (A.user_pd_at ≢ A.user_pdpt_at)

abbrev pub at_first : ℕ → ℕ → ℕ
at_first i entry = if i == 0 then entry else 0

-- What the tables hold. `users` has the pages that were mapped for users.
pub record Holds (A : Places) (t : Paging) (users : ℕ → Option ℕ) : Type 0 where
  pub root : t.cr3 ≡ A.pml4_at
  pub pml4 :
      (i : ℕ)
      → get_or t.kernel_pml4 i 0
        ≡ (if i == 0 then A.pdpt_at + 3 else if i == 1 then A.user_pdpt_at + 7 else 0)
  pub pdpt : (i : ℕ) → get_or t.kernel_pdpt i 0 ≡ at_first i (A.pd_at + 3)
  pub pd : (i : ℕ) → i < 512 → get_or t.kernel_pd i 0 ≡ i * 2 ^ 21 + 131
  pub user_sizes : (length t.user_pdpt ≡ 512) × (length t.user_pd ≡ 512)
  pub is_open : Bool
  pub user_pdpt :
      (i : ℕ) → get_or t.user_pdpt i 0 ≡ at_first i (if is_open then A.user_pd_at + 7 else 0)
  pub user_pd : (i : ℕ) → i < 512 → get_or t.user_pd i 0 ≡ maybe (users i) 0 (λ p. p + 135)
  pub closed : is_open ≡ false → (i : ℕ) → users i ≡ none
  pub pages : (i p : ℕ) → users i ≡ some p → (p % 2 ^ 21 ≡ 0) × (p < 2 ^ 52)

pub entry_in-page :
    (tb : List ℕ) (i a f : ℕ)
    → get_or tb i 0 ≡ a + f
    → IsPage a
    → f < 4096
    → f % 2 ≡ 1
    → entry_in (some tb) i ≡ some (a + f)
entry_in-page tb i a f e page flags odd =
    let p = present-flags a f page.0 page.1 flags in
    let q : (bit_and (a + f) 1 == 0) ≡ false = ground (arith, p, odd) in rw (e, q) refl

pub entry_in-zero : (tb : List ℕ) (i : ℕ) → get_or tb i 0 ≡ 0 → entry_in (some tb) i ≡ none
entry_in-zero tb i e = rw e refl

-- The last level: a page of 2 MiB.
pub leaf :
    (a f va : ℕ) (user : Bool)
    → IsPage a
    → f < 4096
    → f / 128 % 2 ≡ 1
    → if◌then◌else◌ {A = Option (ℕ × Bool)}
        (is_huge (a + f))
        (some (frame (a + f) + va % 2 ^ 21, user))
        none
      ≡ some (a + va % 2 ^ 21, user)
leaf a f va user page flags huge =
    let p = huge-flags a f page.0 page.1 flags in
    let q : (bit_and (a + f) 128 == 0) ≡ false = ground (arith, p, huge) in
    rw (q, frame-flags a f page.0 page.1 flags) refl
