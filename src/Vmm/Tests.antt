-- ===== src/Vmm/Tests.antt =====
-- Tables one behind the other, and two pages for users.
use acharya_os.Base.{ℕ, ◌+◌, ◌^◌, ◌≡◌, refl, arith, List, [], ◌∷◌, true, some, none}
use acharya_os.Vmm.{Places, init, translate_identity, self_test}
use acharya_os.Vmm.Walk.{walk, mapped}
use acharya_os.Vmm.Holds.{ArePlaced}
use acharya_os.Vmm.Refine.{map_all, pages_of, AreSmall, paging_maps}
use acharya_os.Vmm.Identity.{identity_stays}

abbrev places : Places
places = record {
  pml4_at = 0x200000;
  pdpt_at = 0x201000;
  pd_at = 0x202000;
  user_pdpt_at = 0x203000;
  user_pd_at = 0x204000;
}

places-ArePlaced : ArePlaced places
places-ArePlaced = record {
  pml4 = (omega arith, omega arith);
  pdpt = (omega arith, omega arith);
  pd = (omega arith, omega arith);
  user_pdpt = (omega arith, omega arith);
  user_pd = (omega arith, omega arith);
  first =
      (λ e. omega (arith, e), λ e. omega (arith, e), λ e. omega (arith, e), λ e. omega (arith, e));
  second = (λ e. omega (arith, e), λ e. omega (arith, e), λ e. omega (arith, e));
  third = (λ e. omega (arith, e), λ e. omega (arith, e), λ e. omega (arith, e));
}

-- A page, another one for the same place, and one that is refused.
abbrev calls : List (ℕ × ℕ)
calls = (2 ^ 39, 0x400000) ∷ (2 ^ 39, 0x600000) ∷ (0x600000, 0x600000) ∷ []

calls-AreSmall : AreSmall calls
calls-AreSmall = (omega arith, (omega arith, (omega arith, tt)))

last_page : mapped (pages_of calls (λ i. none)) (2 ^ 39 + 5) ≡ some (0x600005, true)
last_page = refl

paging_maps_example :
    walk places (map_all places calls (init places)) (2 ^ 39 + 5)
    ≡ mapped (pages_of calls (λ i. none)) (2 ^ 39 + 5)
paging_maps_example =
    paging_maps places calls (2 ^ 39 + 5) places-ArePlaced calls-AreSmall (omega arith)

identity_stays_example :
    (translate_identity 0x123456 (map_all places calls (init places)) ≡ 0x123456)
    × (self_test places (map_all places calls (init places)) ≡ true)
identity_stays_example = identity_stays places calls 0x123456 places-ArePlaced calls-AreSmall
