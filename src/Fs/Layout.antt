-- ===== src/Fs/Layout.antt =====
-- Where files lie: no two of them share a block.
use native.Mathlib.Decide.{ℕ_discrete}
use acharya_os.Base.{
  ℕ, zero, suc, ◌+◌, ◌/◌, ◌^◌, ◌≤◌, ◌<◌, ◌≡◌, ◌≢◌, ◌⊎◌, refl, ap, sym, ◌∙◌, arith, List, [], ◌∷◌,
  true, not, ◌&&◌, ltb, some, none, Bool-cases, inl, inr, length, modify, length-modify,
  get_or-modify_self, get_or-modify_ne, find_index-some, u32,
}
use acharya_os.Kstring.{CString, copy_text}
use acharya_os.Fs.Table.{DiskEntry, blank_entry}
use acharya_os.Fs.{
  is_used, blocks_for_bytes, end_lba, entry_at, next_from, name_equals, claim, find_entry,
  find_free_entry,
}

-- The number of blocks, with no width.
abbrev pub blocks_of : DiskEntry → ℕ
blocks_of e = (e.size_bytes + 511) / 512

-- The blocks of a file, below `top`.
pub record IsFile (lo top : ℕ) (e : DiskEntry) : Type 0 where
  pub size_small : e.size_bytes ≤ 131072
  pub above : lo ≤ e.start_lba
  pub below : e.start_lba + blocks_of e ≤ top

-- The blocks of one file lie behind those of the other.
abbrev pub AreApart : DiskEntry → DiskEntry → Type 0
AreApart a b = (a.start_lba + blocks_of a ≤ b.start_lba) ⊎ (b.start_lba + blocks_of b ≤ a.start_lba)

pub record IsLaid (lo top : ℕ) (entries : List DiskEntry) : Type 0 where
  pub slots : length entries ≡ 32
  pub file : (i : ℕ) → is_used (entry_at entries i) ≡ true → IsFile lo top (entry_at entries i)
  -- A slot that is not in use would not hide blocks either.
  pub spare : (i : ℕ) → IsFile 0 top (entry_at entries i)
  pub apart :
      (i j : ℕ)
      → is_used (entry_at entries i) ≡ true
      → is_used (entry_at entries j) ≡ true
      → i ≢ j
      → AreApart (entry_at entries i) (entry_at entries j)

pub blocks_for_bytes_lem : (n : ℕ) → n ≤ 131072 → blocks_for_bytes n ≡ (n + 511) / 512
unfolding blocks_for_bytes
blocks_for_bytes_lem n h = let e : u32 (n + 511) ≡ n + 511 = omega arith in rw e

-- The end of a file's blocks does not wrap.
end_lba_lem :
    (lo top : ℕ) (e : DiskEntry)
    → top < 2 ^ 32
    → IsFile lo top e
    → end_lba e ≡ e.start_lba + blocks_of e
end_lba_lem lo top e small f =
    omega (arith, blocks_for_bytes_lem e.size_bytes f.size_small, f.below)

-- What the search for free blocks returns is behind all files, and at most `top`.
pub next_from-above :
    (next top : ℕ) (entries : List DiskEntry)
    → top < 2 ^ 32
    → next ≤ top
    → ((i : ℕ) → is_used (entry_at entries i) ≡ true → IsFile 0 top (entry_at entries i))
    → (next ≤ next_from next entries)
      × (next_from next entries ≤ top)
      × ((i : ℕ)
          → is_used (entry_at entries i) ≡ true
          → (entry_at entries i).start_lba + blocks_of (entry_at entries i)
            ≤ next_from next entries)
unfolding next_from
next_from-above next top [] small le files = (omega arith, le, λ i u. cc)
next_from-above next top (e ∷ es) small le files = elim (Bool-cases (is_used e)) [
  | inr off ↦
      let r = next_from-above next top es small le (λ i. files (suc i)) in
      rw off (r.0, r.1, behind r.2 (λ u. let no = off in cc))
  | inl on ↦
      let f = files 0 on in
      let fin = end_lba_lem 0 top e small f in
      elim (Bool-cases (ltb next (end_lba e))) [
        | inl later ↦
            let r =
              next_from-above (end_lba e) top es small (omega (arith, fin, f.below))
                (λ i. files (suc i)) in
            rw (on, later) (ground (arith, r.0), r.1, behind r.2 (λ u. omega (arith, fin, r.0)))
        | inr same ↦
            let r = next_from-above next top es small le (λ i. files (suc i)) in
            rw (on, same) (r.0, r.1, behind r.2 (λ u. ground (arith, fin, r.0)))
      ]
]
  where
    behind :
        {bound : ℕ}
        → ((i : ℕ)
            → is_used (entry_at es i) ≡ true
            → (entry_at es i).start_lba + blocks_of (entry_at es i) ≤ bound)
        → (is_used e ≡ true → e.start_lba + blocks_of e ≤ bound)
        → (i : ℕ) → is_used (entry_at (e ∷ es) i) ≡ true
        → (entry_at (e ∷ es) i).start_lba + blocks_of (entry_at (e ∷ es) i) ≤ bound
    behind rest first zero u = first u
    behind rest first (suc i) u = rest i u

-- An entry was claimed for the name: it is in use, and lies where it did before.
pub record Claimed (entries : List DiskEntry) (i : ℕ) (entries' : List DiskEntry) : Type 0 where
  pub inside : i < length entries
  pub slots : length entries' ≡ length entries
  pub used : is_used (entry_at entries' i) ≡ true
  pub start : (entry_at entries' i).start_lba ≡ (entry_at entries i).start_lba
  pub size : (entry_at entries' i).size_bytes ≡ (entry_at entries i).size_bytes
  pub others : (j : ℕ) → i ≢ j → entry_at entries' j ≡ entry_at entries j

abbrev pub renamed : CString → DiskEntry → DiskEntry
renamed name e = record e { name = copy_text e.name 16 name; used = 1 }

pub claim-old :
    (name : CString) (entries : List DiskEntry) (i : ℕ)
    → find_entry name entries ≡ some i
    → (claim name entries ≡ some (i, entries)) × Claimed entries i entries
unfolding claim find_entry
claim-old name entries i e =
    let f = find_index-some (λ x. is_used x && name_equals x.name name) blank_entry entries i e in
    (
      rw e,
      record {
        inside = f.0;
        slots = refl;
        used = ground (arith, f.1);
        start = refl;
        size = refl;
        others = λ j ne. refl;
      },
    )

pub claim-new :
    (name : CString) (entries : List DiskEntry) (i : ℕ)
    → find_entry name entries ≡ none
    → find_free_entry entries ≡ some i
    → (claim name entries ≡ some (i, modify i (renamed name) entries))
      × Claimed entries i (modify i (renamed name) entries)
unfolding claim find_free_entry
claim-new name entries i e free =
    let f = find_index-some (λ x. not (is_used x)) blank_entry entries i free in
    let at = get_or-modify_self i (renamed name) entries blank_entry f.0 in
    (
      rw (e, free),
      record {
        inside = f.0;
        slots = length-modify i (renamed name) entries;
        used = ap is_used at;
        start = ap (λ (x : DiskEntry). x.start_lba) at;
        size = ap (λ (x : DiskEntry). x.size_bytes) at;
        others = λ j ne. get_or-modify_ne i j (renamed name) entries blank_entry ne;
      },
    )

-- The claimed entry with its new place.
abbrev pub placed : ℕ → ℕ → DiskEntry → DiskEntry
placed start size e = record e { start_lba = start; size_bytes = u32 size }

module _ (lo top : ℕ) (entries entries' : List DiskEntry) (i size start : ℕ)
    (laid : IsLaid lo top entries) (c : Claimed entries i entries') (lo_le : lo ≤ start)
    (behind : (j : ℕ)
      → is_used (entry_at entries' j) ≡ true
      → (entry_at entries' j).start_lba + blocks_of (entry_at entries' j) ≤ start)
    (small : size ≤ 131072) where
  abbrev written : List DiskEntry
  written = modify i (placed start size) entries'

  pub written_self : entry_at written i ≡ placed start size (entry_at entries' i)
  written_self =
      get_or-modify_self i (placed start size) entries' blank_entry
        (omega (arith, c.slots, c.inside))

  pub written_other : (j : ℕ) → i ≢ j → entry_at written j ≡ entry_at entries j
  written_other j ne =
      get_or-modify_ne i j (placed start size) entries' blank_entry ne ∙ c.others j ne

  new_blocks : blocks_of (entry_at written i) ≡ (size + 511) / 512
  new_blocks = ap blocks_of written_self ∙ omega arith

  new_file :
      (from top' : ℕ)
      → from ≤ start
      → start + (size + 511) / 512 ≤ top'
      → IsFile from top' (entry_at written i)
  new_file from top' le fits =
      rw written_self (record { size_small = omega arith; above = le; below = omega arith })

  older : (from top' : ℕ) (e : DiskEntry) → top ≤ top' → IsFile from top e → IsFile from top' e
  older from top' e le f = record {
    size_small = f.size_small;
    above = f.above;
    below = omega (arith, f.below);
  }

  new_behind :
      (j : ℕ)
      → i ≢ j
      → is_used (entry_at written j) ≡ true
      → (entry_at written j).start_lba + blocks_of (entry_at written j)
        ≤ (entry_at written i).start_lba
  new_behind j ne u =
      let same = written_other j ne in
      let there = c.others j ne in
      let b = behind j (rw there (rw same at u)) in rw (same, written_self) (rw there at b)

  pub written-IsLaid :
      (top' : ℕ) → top ≤ top' → start + (size + 511) / 512 ≤ top' → IsLaid lo top' written
  written-IsLaid top' le fits = record {
    slots = length-modify i (placed start size) entries' ∙ c.slots ∙ laid.slots;
    file = λ j u. elim (ℕ_discrete i j) [
      | yes e ↦ rw (← e) (new_file lo top' lo_le fits)
      | no ne ↦
          rw (written_other j ne)
            (older lo top' (entry_at entries j) le (laid.file j (rw (written_other j ne) at u)))
    ];
    spare = λ j. elim (ℕ_discrete i j) [
      | yes e ↦ rw (← e) (new_file 0 top' (omega arith) fits)
      | no ne ↦ rw (written_other j ne) (older 0 top' (entry_at entries j) le (laid.spare j))
    ];
    apart = λ j k u w ne. elim (ℕ_discrete i j) [
      | yes e ↦ inr (rw (← e) (new_behind k (λ f. ne (sym e ∙ f)) w))
      | no nj ↦ elim (ℕ_discrete i k) [
        | yes e ↦ inl (rw (← e) (new_behind j nj u))
        | no nk ↦
            rw (written_other j nj, written_other k nk)
              (laid.apart j k (rw (written_other j nj) at u) (rw (written_other k nk) at w) ne)
      ]
    ];
  }
