-- ===== src/Vmm.antt =====
-- memory/vmm.c: the page tables of the kernel. Where the tables lie in memory is decided when the
-- kernel is linked; their addresses are a parameter.
pub mod Walk
pub mod Entries
pub mod Holds
pub mod Mapped
pub mod Calls
pub mod Refine
pub mod Identity
mod Tests
use acharya_os.Base.{
  ℕ, zero, suc, ◌+◌, ◌-◌, ◌*◌, ◌/◌, ◌%◌, ◌^◌, List, Bool, true, false, not, ◌&&◌, ◌||◌, Status, ok,
  fail, ◌==◌, ltb, if◌then◌else◌, get_or, set, replicate, bit_and, bit_or, u64,
}

abbrev pub page_entries : ℕ
page_entries = 512

abbrev pub page_present : ℕ
page_present = 1

abbrev pub page_writable : ℕ
page_writable = 2

abbrev pub page_user : ℕ
page_user = 4

abbrev pub page_huge_2m : ℕ
page_huge_2m = 128

-- VMM_PAGE_SIZE_2M
abbrev pub page_size_2m : ℕ
page_size_2m = 0x200000

-- VMM_IDENTITY_MAP_SIZE
abbrev pub identity_map_size : ℕ
identity_map_size = 1024 * 1024 * 1024

-- Where the tables lie.
pub record Places : Type 0 where
  pub pml4_at : ℕ
  pub pdpt_at : ℕ
  pub pd_at : ℕ
  pub user_pdpt_at : ℕ
  pub user_pd_at : ℕ

-- The tables, `mapped_pages`, and the register cr3.
pub record Paging : Type 0 where
  pub kernel_pml4 : List ℕ
  pub kernel_pdpt : List ℕ
  pub kernel_pd : List ℕ
  pub user_pdpt : List ℕ
  pub user_pd : List ℕ
  pub mapped_pages : ℕ
  pub cr3 : ℕ

pub record Stats : Type 0 where
  pub pml4_address : ℕ
  pub mapped_start : ℕ
  pub mapped_end : ℕ
  pub mapped_2m_pages : ℕ

abbrev pub no_entries : List ℕ
no_entries = replicate page_entries 0

abbrev pub kernel_flags : ℕ
kernel_flags = bit_or page_present page_writable

abbrev pub user_flags : ℕ
user_flags = bit_or kernel_flags page_user

-- The loop of `vmm_init`, from page `i` on.
unfoldable pub map_pages : ℕ → ℕ → List ℕ → List ℕ
map_pages zero i pd = pd
map_pages (suc left) i pd =
    map_pages left (i + 1)
      (set pd i (bit_or (u64 (i * page_size_2m)) (bit_or kernel_flags page_huge_2m)))

-- Where a level of the tables is read for an address.
abbrev pub index : ℕ → ℕ → ℕ
index shift address = bit_and (address / 2 ^ shift) 0x1FF

abbrev pub is_present : ℕ → Bool
is_present entry = not (bit_and entry page_present == 0)

abbrev pub is_huge : ℕ → Bool
is_huge entry = not (bit_and entry page_huge_2m == 0)

abbrev pub frame : ℕ → ℕ
frame entry = bit_and entry 0x000FFFFFFFFFF000

module _ (A : Places) where
  pub init : Paging
  init = record {
    kernel_pml4 =
        set (set no_entries 0 (bit_or A.pdpt_at kernel_flags)) 1 (bit_or A.user_pdpt_at user_flags);
    kernel_pdpt = set no_entries 0 (bit_or A.pd_at kernel_flags);
    kernel_pd = map_pages (identity_map_size / page_size_2m) 0 no_entries;
    user_pdpt = no_entries;
    user_pd = no_entries;
    mapped_pages = identity_map_size / page_size_2m;
    cr3 = A.pml4_at;
  }

  -- The entry of the first level, if it is not there.
  abbrev open_pml4 : ℕ → Paging → Paging
  open_pml4 i t =
      if is_present (get_or t.kernel_pml4 i 0)
      then t
      else record t { kernel_pml4 = set t.kernel_pml4 i (bit_or A.user_pdpt_at user_flags) }

  abbrev open_pdpt : ℕ → Paging → Paging
  open_pdpt i t =
      if is_present (get_or t.user_pdpt i 0)
      then t
      else record t { user_pdpt = set t.user_pdpt i (bit_or A.user_pd_at user_flags) }

  abbrev put_page : ℕ → ℕ → Paging → Paging
  put_page i physical t = record t {
    user_pd = set t.user_pd i (bit_or physical (bit_or user_flags page_huge_2m));
  }

  pub map_user_2m : ℕ → ℕ → Paging → Status × Paging
  map_user_2m virtual physical t =
      if not (virtual % page_size_2m == 0) || not (physical % page_size_2m == 0)
      then (fail, t)
      else if ltb virtual identity_map_size
      then (fail, t)
      else if not (index 39 virtual == 1)
      then (fail, t)
      else if not (index 30 virtual == 0)
      then (fail, t)
      else (
        ok,
        put_page (index 21 virtual) physical
            (open_pdpt (index 30 virtual) (open_pml4 (index 39 virtual) t)),
      )

pub translate_identity : ℕ → Paging → ℕ
translate_identity virtual t =
    if not (ltb virtual identity_map_size)
    then 0
    else let entry = get_or t.kernel_pd (index 21 virtual) 0 in
      if not (is_present entry) || not (is_huge entry)
      then 0
      else u64 (frame entry + bit_and virtual (page_size_2m - 1))

pub get_stats : Paging → Stats
get_stats t = record {
  pml4_address = t.cr3;
  mapped_start = 0;
  mapped_end = identity_map_size;
  mapped_2m_pages = t.mapped_pages;
}

pub self_test : Places → Paging → Bool
self_test A t =
    if not ((get_stats t).pml4_address == A.pml4_at)
    then false
    else if not (translate_identity 0x100000 t == 0x100000)
    then false
    else if not (translate_identity 0xB8000 t == 0xB8000)
    then false
    else translate_identity identity_map_size t == 0
