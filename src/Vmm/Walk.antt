-- ===== src/Vmm/Walk.antt =====
-- What the processor makes of the tables: an address is looked up through the four levels, of which
-- the third maps pages of 2 MiB.
use acharya_os.Base.{
  ℕ, ◌+◌, ◌/◌, ◌%◌, ◌^◌, List, Bool, true, false, not, ◌&&◌, Option, none, some, ◌==◌,
  if◌then◌else◌, get_or, bit_and, maybe,
}
use acharya_os.Vmm.{Places, Paging, index, is_present, is_huge, frame}

-- The table at an address.
abbrev pub table_at : Places → Paging → ℕ → Option (List ℕ)
table_at A t a =
    if a == A.pml4_at
    then some t.kernel_pml4
    else if a == A.pdpt_at
    then some t.kernel_pdpt
    else if a == A.pd_at
    then some t.kernel_pd
    else if a == A.user_pdpt_at
    then some t.user_pdpt
    else if a == A.user_pd_at
    then some t.user_pd
    else none

-- The entry for an address, if it is present.
abbrev pub entry_in : Option (List ℕ) → ℕ → Option ℕ
entry_in table i =
    maybe table none
      λ entries. if is_present (get_or entries i 0) then some (get_or entries i 0) else none

abbrev pub is_user : ℕ → Bool
is_user entry = not (bit_and entry 4 == 0)

-- The physical address, and whether a user may use it.
unfoldable pub walk : Places → Paging → ℕ → Option (ℕ × Bool)
walk A t va = maybe (entry_in (table_at A t t.cr3) (index 39 va)) none λ e4.
    maybe (entry_in (table_at A t (frame e4)) (index 30 va)) none λ e3.
      maybe (entry_in (table_at A t (frame e3)) (index 21 va)) none λ e2.
        if is_huge e2
        then some (frame e2 + va % 2 ^ 21, is_user e4 && (is_user e3 && is_user e2))
        else none

-- What the tables are to map: the first GiB to itself, for the kernel, and pages of the first GiB of
-- the second part of the address space as `users` has them.
abbrev pub mapped : (ℕ → Option ℕ) → ℕ → Option (ℕ × Bool)
mapped users va =
    if va / 2 ^ 30 == 0
    then some (va, false)
    else if va / 2 ^ 30 == 512
    then maybe (users (va / 2 ^ 21 % 512)) none (λ p. some (p + va % 2 ^ 21, true))
    else none
