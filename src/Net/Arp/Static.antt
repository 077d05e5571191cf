-- ===== src/Net/Arp/Static.antt =====
-- A static entry is found, and stays.
use acharya_os.Base.{
  ℕ, zero, suc, ◌<◌, ◌≡◌, refl, ap, ◌∙◌, arith, List, [], ◌∷◌, false, not, some, Option-cases, inl,
  inr, length, get_or, modify, map, take, take-all, length-modify, get_or-modify_self,
  get_or-modify_ne, find_index, find_index-some, find_index-none, find_index_of_first, u32,
}
use acharya_os.Net.Arp.{
  Arp, Entry, blank, is_valid, is_for, find_slot, seen, insert_entry, age, poll, resolve,
  add_static, count_hit,
}

module _ (ip : ℕ) (mac : List ℕ) (now : ℕ) (cache : List Entry) (full : length cache ≡ 32) where
  abbrev fresh : Entry
  fresh = seen ip mac 1 now

  -- The slot is in the cache, and no slot before it is for the address.
  slot-first :
      (find_slot ip cache < 32)
      × ((j : ℕ) → j < find_slot ip cache → is_for ip (get_or cache j blank) ≡ false)
  unfolding find_slot
  slot-first = elim (Option-cases (find_index (is_for ip) cache)) [
    | inr (i, e) ↦
        let f = find_index-some (is_for ip) blank cache i e in rw e (omega (arith, f.0), f.2)
    | inl e ↦
        let nowhere : (j : ℕ) → j < 32 → is_for ip (get_or cache j blank) ≡ false =
          λ j lt. find_index-none (is_for ip) blank cache j e (omega arith) in
        elim (Option-cases (find_index (λ x. not (is_valid x)) cache)) [
          | inl f ↦ rw (e, f) (omega arith, λ j lt. absurd (omega arith))
          | inr (i, f) ↦
              let g = find_index-some (λ x. not (is_valid x)) blank cache i f in
              rw (e, f) (omega (arith, g.0), λ j lt. nowhere j (omega (arith, g.0)))
        ]
  ]

  abbrev inserted : List Entry
  inserted = modify (find_slot ip cache) (λ e. fresh) cache

  inserted-first : find_index (is_for ip) inserted ≡ some (find_slot ip cache)
  inserted-first =
      let s = slot-first in
      let at =
        get_or-modify_self (find_slot ip cache) (λ e. fresh) cache blank (omega (arith, s.0)) in
      find_index_of_first (is_for ip) blank inserted (find_slot ip cache)
        (omega (arith, s.0, length-modify (find_slot ip cache) (λ e. fresh) cache))
        (rw at (ground arith))
        (λ j lt.
          rw (get_or-modify_ne (find_slot ip cache) j (λ e. fresh) cache blank (omega arith))
            (s.1 j lt))

get_or-map :
    (g : Entry → Entry) (xs : List Entry) (i : ℕ)
    → i < length xs
    → get_or (map g xs) i blank ≡ g (get_or xs i blank)
get_or-map g [] i h = absurd (omega arith)
get_or-map g (x ∷ xs) zero h = refl
get_or-map g (x ∷ xs) (suc i) h = get_or-map g xs i (omega arith)

length-map : (g : Entry → Entry) (xs : List Entry) → length (map g xs) ≡ length xs
length-map g [] = refl
length-map g (x ∷ xs) = ap suc (length-map g xs)

-- Slot `i` is the first for the address, and holds this hardware address for good.
record Kept (ip : ℕ) (mac : List ℕ) (i : ℕ) (cache : List Entry) : Type 0 where
  first : find_index (is_for ip) cache ≡ some i
  lasting : (get_or cache i blank).permanent ≡ 1
  address : (get_or cache i blank).mac ≡ take 6 mac

age-stranger : (now ip : ℕ) (e : Entry) → is_for ip e ≡ false → is_for ip (age now e) ≡ false
age-stranger now ip e h = ground arith

age-permanent : (now : ℕ) (e : Entry) → e.permanent ≡ 1 → age now e ≡ e
age-permanent now e h = ground arith

age-Kept :
    (now ip : ℕ) (mac : List ℕ) (i : ℕ) (cache : List Entry)
    → Kept ip mac i cache
    → Kept ip mac i (map (age now) cache)
age-Kept now ip mac i cache k =
    let f = find_index-some (is_for ip) blank cache i k.first in
    let same : get_or (map (age now) cache) i blank ≡ get_or cache i blank =
      get_or-map (age now) cache i f.0 ∙ age-permanent now (get_or cache i blank) k.lasting in
    record {
      first =
          find_index_of_first (is_for ip) blank (map (age now) cache) i
            (rw (length-map (age now) cache) f.0) (ap (is_for ip) same ∙ f.1)
            (λ j lt.
              ap (is_for ip) (get_or-map (age now) cache j (omega (arith, f.0)))
              ∙ age-stranger now ip (get_or cache j blank) (f.2 j lt));
      lasting = ap (λ (e : Entry). e.permanent) same ∙ k.lasting;
      address = ap (λ (e : Entry). e.mac) same ∙ k.address;
    }

-- `arp_poll` at each of these ticks.
abbrev pub polls : List ℕ → Arp → Arp
polls [] arp = arp
polls (now ∷ times) arp = polls times (poll now arp)

polls-Kept :
    (times : List ℕ) (ip : ℕ) (mac : List ℕ) (i : ℕ) (arp : Arp)
    → Kept ip mac i arp.cache
    → Kept ip mac i (polls times arp).cache
unfolding poll
polls-Kept [] ip mac i arp k = k
polls-Kept (now ∷ times) ip mac i arp k =
    polls-Kept times ip mac i (poll now arp) (age-Kept (u32 now) ip mac i arp.cache k)

insert-Kept :
    (ip : ℕ) (mac : List ℕ) (now : ℕ) (arp : Arp)
    → length arp.cache ≡ 32
    → Kept ip mac (find_slot ip arp.cache) (insert_entry ip mac 1 now arp).cache
unfolding insert_entry
insert-Kept ip mac now arp full =
    let at =
      get_or-modify_self (find_slot ip arp.cache) (λ e. fresh ip mac now arp.cache full) arp.cache
        blank (omega (arith, (slot-first ip mac now arp.cache full).0)) in
    record {
      first = inserted-first ip mac now arp.cache full;
      lasting = ap (λ (e : Entry). e.permanent) at;
      address = ap (λ (e : Entry). e.mac) at;
    }

resolve-Kept :
    (ip : ℕ) (mac : List ℕ) (i : ℕ) (arp : Arp)
    → length mac ≡ 6
    → Kept ip mac i arp.cache
    → resolve ip arp ≡ (some mac, count_hit arp)
unfolding resolve
resolve-Kept ip mac i arp six k =
    rw (k.first, k.address, take-all 6 mac (omega arith), take-all 6 mac (omega arith)) refl

-- An address that was added as a static entry is resolved to its hardware address, whatever the
-- cache held before, also a full one, and whenever and however often the cache was polled since;
-- the lookup is counted as a hit, and no request is sent.
pub static_resolves :
    (ip : ℕ) (mac : List ℕ) (now : ℕ) (times : List ℕ) (arp : Arp)
    → length arp.cache ≡ 32
    → length mac ≡ 6
    → let arp' = polls times (add_static ip (some mac) now arp) in
      resolve ip arp' ≡ (some mac, count_hit arp')
unfolding add_static
static_resolves ip mac now times arp full six =
    let arp' = insert_entry ip mac 1 now arp in
    resolve-Kept ip mac (find_slot ip arp.cache) (polls times arp') six
      (polls-Kept times ip mac (find_slot ip arp.cache) arp' (insert-Kept ip mac now arp full))
