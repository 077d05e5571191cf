-- ===== src/Fs/Finding.antt =====
-- The entry that a file has after it was written.
use acharya_os.Base.{
  ℕ, zero, suc, ◌*◌, ◌≤◌, ◌≡◌, refl, ap, ◌∙◌, arith, List, [], ◌∷◌, Bool, true, not, ◌&&◌, some,
  none, Option-cases, inl, inr, length, modify, length-append, find_index-some, find_index-none,
  find_index_of_first, find_index-modify_same, get_or-modify_self, get_or-modify_ne, length-modify,
  take-all,
}
use acharya_os.Kstring.{CString, text, copy_text}
use acharya_os.Kstring.Laws.{text-copy_text, length-copy_text}
use acharya_os.Fs.Table.{DiskEntry, blank_entry, encode_table, encode_entry}
use acharya_os.Fs.{is_used, name_equals, entry_at, claim, find_entry, find_free_entry}
use acharya_os.Fs.Names.{name_equals_iff}
use acharya_os.Fs.Layout.{Claimed, claim-old, claim-new, renamed, placed}

-- The arrays of an entry have their sizes.
pub record IsShaped (e : DiskEntry) : Type 0 where
  pub name_size : length e.name ≡ 16
  pub reserved_size : length e.reserved ≡ 11

abbrev pub AreShaped : List DiskEntry → Type 0
AreShaped entries = (i : ℕ) → IsShaped (entry_at entries i)

pub length-encode_table :
    (es : List DiskEntry) → AreShaped es → length (encode_table es) ≡ 36 * length es
length-encode_table [] h = omega arith
length-encode_table (e ∷ es) h =
    let first = h 0 in
    omega (
      arith,
      length-append (encode_entry e) (encode_table es),
      length-append e.name _,
      first.name_size,
      first.reserved_size,
      length-encode_table es (λ i. h (suc i)),
    )

-- How a claim succeeds.
pub data Claims (name : CString) (entries : List DiskEntry) (i : ℕ) (entries' : List DiskEntry)
    : Type 0 where
  old : find_entry name entries ≡ some i → entries' ≡ entries → Claims name entries i entries'
  new :
      find_entry name entries ≡ none
      → find_free_entry entries ≡ some i
      → entries' ≡ modify i (renamed name) entries
      → Claims name entries i entries'

pub claim-Claims :
    (name : CString) (entries : List DiskEntry) (i : ℕ) (entries' : List DiskEntry)
    → claim name entries ≡ some (i, entries')
    → Claims name entries i entries'
unfolding claim
claim-Claims name entries i entries' h = elim (Option-cases (find_entry name entries)) [
  | inr (k, e) ↦ let c = (claim-old name entries k e).0 in old (cc) (cc)
  | inl e ↦ elim (Option-cases (find_free_entry entries)) [
    | inl f ↦ let c : claim name entries ≡ none = rw (e, f) in cc
    | inr (k, f) ↦
        let c = (claim-new name entries k e f).0 in
        let same : i ≡ k = cc in
        let tables : entries' ≡ modify k (renamed name) entries = cc in rw same (new e f tables)
  ]
]

pub Claims-Claimed :
    {name : CString} {entries : List DiskEntry} {i : ℕ} {entries' : List DiskEntry}
    → Claims name entries i entries'
    → Claimed entries i entries'
Claims-Claimed {name} {entries} {i} (old e same) = rw same (claim-old name entries i e).1
Claims-Claimed {name} {entries} {i} (new e free same) = rw same (claim-new name entries i e free).1

pub modify-AreShaped :
    (i : ℕ) (f : DiskEntry → DiskEntry) (es : List DiskEntry)
    → ((x : DiskEntry) → IsShaped x → IsShaped (f x))
    → AreShaped es
    → AreShaped (modify i f es)
modify-AreShaped i f [] keep h j = h j
modify-AreShaped zero f (x ∷ es) keep h zero = keep x (h 0)
modify-AreShaped zero f (x ∷ es) keep h (suc j) = h (suc j)
modify-AreShaped (suc i) f (x ∷ es) keep h zero = h 0
modify-AreShaped (suc i) f (x ∷ es) keep h (suc j) = modify-AreShaped i f es keep (λ k. h (suc k)) j

-- The shapes stay.
pub Claims-AreShaped :
    {name : CString} {entries : List DiskEntry} {i : ℕ} {entries' : List DiskEntry}
    → Claims name entries i entries'
    → AreShaped entries
    → AreShaped entries'
Claims-AreShaped (old e same) h = rw same h
Claims-AreShaped {name} {entries} {i} (new e free same) h = rw same (
    modify-AreShaped i (renamed name) entries
      (λ x s. record {
        name_size = length-copy_text x.name 16 name ∙ s.name_size;
        reserved_size = s.reserved_size;
      })
      h)

abbrev is_for : CString → DiskEntry → Bool
is_for name e = is_used e && name_equals e.name name

renamed-is_for :
    (name : CString) (e : DiskEntry)
    → IsShaped e
    → length (text name) ≤ 15
    → is_for name (renamed name e) ≡ true
renamed-is_for name e s short =
    let copied =
      text-copy_text e.name 16 name (omega arith) (omega (arith, s.name_size))
      ∙ take-all 15 (text name) short in
    (name_equals_iff (copy_text e.name 16 name) name
        (omega (arith, ap (λ (t : List ℕ). length t) copied))).1
      copied

find-renamed :
    (name : CString) (entries : List DiskEntry) (i : ℕ)
    → AreShaped entries
    → length (text name) ≤ 15
    → find_entry name entries ≡ none
    → find_free_entry entries ≡ some i
    → find_entry name (modify i (renamed name) entries) ≡ some i
unfolding find_entry find_free_entry
find-renamed name entries i shaped short none_yet free =
    let f = find_index-some (λ x. not (is_used x)) blank_entry entries i free in
    let at = get_or-modify_self i (renamed name) entries blank_entry f.0 in
    find_index_of_first (is_for name) blank_entry (modify i (renamed name) entries) i
      (rw (length-modify i (renamed name) entries) f.0)
      (ap (is_for name) at ∙ renamed-is_for name (entry_at entries i) (shaped i) short)
      (λ j lt.
        ap (is_for name) (get_or-modify_ne i j (renamed name) entries blank_entry (omega arith))
        ∙ find_index-none (is_for name) blank_entry entries j none_yet (omega (arith, f.0)))

-- After the claim, a search by the name finds the entry, also when it was given its place.
pub find-placed :
    {name : CString} {entries : List DiskEntry} {i : ℕ} {entries' : List DiskEntry} (start size : ℕ)
    → Claims name entries i entries'
    → AreShaped entries
    → length (text name) ≤ 15
    → find_entry name (modify i (placed start size) entries') ≡ some i
unfolding find_entry
find-placed {name} {entries} {i} {entries'} start size c shaped short =
    find_index-modify_same (is_for name) blank_entry i (placed start size) entries' (λ e. refl)
    ∙ elim c as (λ c. find_entry name entries' ≡ some i) [
      | old e same ↦ rw same e
      | new e free same ↦ rw same (find-renamed name entries i shaped short e free)
    ]
