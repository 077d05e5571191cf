-- ===== src/Net/Arp/Full.antt =====
-- A full cache gives up its first slot, where `arp_init` put the local address.
use native.Mathlib.Decide.{ℕ_discrete}
use acharya_os.Base.{
  ℕ, ◌<◌, ◌≡◌, arith, List, false, not, none, Option-cases, inl, inr, length, get_or, modify,
  get_or-modify_self, get_or-modify_ne, find_index, find_index-some, find_index-none,
}
use acharya_os.Net.Arp.{Arp, blank, is_valid, is_for, find_slot, seen, insert_entry}

module _ (ip : ℕ) (mac : List ℕ) (permanent now : ℕ) (arp : Arp) where
  abbrev after : Arp
  after = insert_entry ip mac permanent now arp

  -- When all 32 slots are valid and none has the address, its entry takes slot 0, whatever is there,
  -- also a permanent entry: the address that was in slot 0, and in no other slot, is gone.
  pub full_evicts_first :
      length arp.cache ≡ 32
      → find_index (λ e. not (is_valid e)) arp.cache ≡ none
      → find_index (is_for ip) arp.cache ≡ none
      → ((j : ℕ) → 0 < j → is_for (get_or arp.cache 0 blank).ip (get_or arp.cache j blank) ≡ false)
      → (find_index (is_for (get_or arp.cache 0 blank).ip) after.cache ≡ none)
        × (get_or after.cache 0 blank ≡ seen ip mac permanent now)
  unfolding insert_entry find_slot
  full_evicts_first full busy unknown alone =
      let old = get_or arp.cache 0 blank in
      let first =
        get_or-modify_self 0 (λ e. seen ip mac permanent now) arp.cache blank (omega arith) in
      let valid = find_index-none (λ e. not (is_valid e)) blank arp.cache 0 busy (omega arith) in
      let other = find_index-none (is_for ip) blank arp.cache 0 unknown (omega arith) in
      let gone : is_for old.ip (seen ip mac permanent now) ≡ false = ground (arith, valid, other) in
      rw (unknown, busy)
        (
          elim (Option-cases
              (find_index (is_for old.ip) (modify 0 (λ e. seen ip mac permanent now) arp.cache))) [
                | inl e ↦ e
                | inr (i, e) ↦
                    let f =
                      find_index-some (is_for old.ip) blank
                        (modify 0 (λ e. seen ip mac permanent now) arp.cache) i e in
                    elim (ℕ_discrete 0 i) [
                      | yes z ↦
                          let no : is_for old.ip (
                                get_or (modify 0 (λ e. seen ip mac permanent now) arp.cache) i
                                  blank)
                              ≡ false =
                            rw (← z, first) gone in
                          cc
                      | no nz ↦
                          let no : is_for old.ip (
                                get_or (modify 0 (λ e. seen ip mac permanent now) arp.cache) i
                                  blank)
                              ≡ false =
                            rw
                              (get_or-modify_ne 0 i (λ e. seen ip mac permanent now) arp.cache blank
                                nz)
                              (alone i (omega arith)) in
                          cc
                    ]
              ],
          first,
        )
