-- ===== src/Config/Survive.antt =====
-- The settings of a table, set in turn in another one: all of them are there.
use acharya_os.Base.{
  ℕ, ◌+◌, ◌≤◌, ◌<◌, ◌≡◌, ◌≢◌, refl, ap, sym, ◌∙◌, arith, List, [], ◌∷◌, Bool, true, false, not,
  Option, inl, inr, ok, if◌then◌else◌, ◌==◌, Bool-cases, maybe, length, take, take-all, count,
  weight,
}
use acharya_os.Kstring.{CString, text, has_text}
use acharya_os.Config.Table.{Entry, is_used, set_entry}
use acharya_os.Config.Laws.{AreShaped, value_of, Says, set_entry_lem}
use acharya_os.Config.Lines.{AreClean, IsClean, set_all}
use acharya_os.Config.Room.{text-text, is_set, is_set-value_of, set_entry-IsBound}

-- No entry in use has the key.
abbrev pub IsMissing : List ℕ → List Entry → Type 0
IsMissing key [] = Unit
IsMissing key (e ∷ es) = (is_used e ≡ true → text e.key ≢ key) × IsMissing key es

-- No two entries in use have the same key.
abbrev pub AreDistinct : List Entry → Type 0
AreDistinct [] = Unit
AreDistinct (e ∷ es) = (is_used e ≡ true → IsMissing (text e.key) es) × AreDistinct es

-- How many of the entries in use have a key that the table has not.
abbrev pub new_keys : List Entry → List Entry → ℕ
new_keys [] table = 0
new_keys (e ∷ es) table =
    if is_used e
    then weight (not (is_set (text e.key) table)) + new_keys es table
    else new_keys es table

-- The table says each entry in use.
abbrev pub AllSaid : List Entry → List Entry → Type 0
AllSaid [] table = Unit
AllSaid (e ∷ es) table =
    (is_used e ≡ true → Says (text e.key) table (text e.value)) × AllSaid es table

-- A setting of another key does not change which keys are new.
new_keys-set :
    (es : List Entry) (key value : CString) (table : List Entry)
    → AreShaped table
    → length (text key) ≤ 31
    → (set_entry key value table).0 ≡ ok
    → IsMissing (text key) es
    → new_keys es (set_entry key value table).1 ≡ new_keys es table
new_keys-set [] key value table shaped short worked missing = refl
new_keys-set (e ∷ es) key value table shaped short worked missing =
    let rest = new_keys-set es key value table shaped short worked missing.1 in
    elim (Bool-cases (is_used e)) [
      | inr off ↦ rw (off, rest) refl
      | inl on ↦
          let other =
            (set_entry_lem key value table shaped short worked).1 (text e.key)
              (λ q. missing.0 on (sym (text-text e.key) ∙ sym q)) in
          let same : is_set (text e.key) (set_entry key value table).1 ≡ is_set (text e.key) table =
            is_set-value_of (text e.key) (set_entry key value table).1
            ∙ ap (λ (o : Option CString). maybe o false (λ v. true)) other
            ∙ sym (is_set-value_of (text e.key) table) in
          rw (on, rest) (ap (λ (b : Bool). weight (not b) + new_keys es table) same)
    ]

some_text : (s : CString) → 0 < length (text s) → has_text (text s) ≡ true
some_text [] h = absurd (omega arith)
some_text (c ∷ cs) h = elim (Bool-cases (c == 0)) [
  | inl z ↦ let none_there : 0 < 0 = rw z at h in absurd (omega (arith, none_there))
  | inr z ↦ rw (z, z) refl
]

-- A setting, and room for the further ones.
abbrev Fits : List Entry → List Entry → Type 0
Fits es table = count is_used table + new_keys es table ≤ length table

set_one :
    (e : Entry) (es table : List Entry)
    → is_used e ≡ true
    → IsClean e
    → AreShaped table
    → IsMissing (text e.key) es
    → Fits (e ∷ es) table
    → ((set_entry (text e.key) (text e.value) table).0 ≡ ok)
      × AreShaped (set_entry (text e.key) (text e.value) table).1
      × Fits es (set_entry (text e.key) (text e.value) table).1
set_one e es table on c shaped missing fits =
    let fits' : count is_used table + (weight (not (is_set (text e.key) table)) + new_keys es table)
        ≤ length table =
      rw on at fits in
    let r =
      set_entry-IsBound (text e.key) (text e.value) table shaped (some_text e.key c.key_there)
        (omega (arith, fits')) in
    let short : length (text (text e.key)) ≤ 31 = rw (text-text e.key) c.key_short in
    let same =
      new_keys-set es (text e.key) (text e.value) table shaped short r.0
        (rw (text-text e.key) missing) in
    (r.0, r.1.shaped, omega (arith, fits', same, r.1.used, r.1.slots))

-- What is set later does not change another key.
set_all-other :
    (es table : List Entry) (other : CString)
    → AreClean es
    → AreDistinct es
    → AreShaped table
    → Fits es table
    → IsMissing (text other) es
    → value_of other (set_all es table) ≡ value_of other table
set_all-other [] table other clean apart shaped fits missing = refl
set_all-other (e ∷ es) table other clean apart shaped fits missing = elim (Bool-cases (is_used e)) [
  | inr off ↦
      rw off (set_all-other es table other clean.1 apart.1 shaped (rw off at fits) missing.1)
  | inl on ↦
      let one = set_one e es table on (clean.0 on) shaped (apart.0 on) fits in
      let short : length (text (text e.key)) ≤ 31 = rw (text-text e.key) (clean.0 on).key_short in
      let r = set_entry_lem (text e.key) (text e.value) table shaped short one.0 in
      rw on (
        set_all-other es (set_entry (text e.key) (text e.value) table).1 other clean.1 apart.1 one.1
          one.2 missing.1
        ∙ r.1 other (λ q. missing.0 on (sym (text-text e.key) ∙ q)))
]

pub set_all-AllSaid :
    (es table : List Entry)
    → AreClean es
    → AreDistinct es
    → AreShaped table
    → Fits es table
    → AllSaid es (set_all es table)
set_all-AllSaid [] table clean apart shaped fits = tt
set_all-AllSaid (e ∷ es) table clean apart shaped fits = elim (Bool-cases (is_used e)) [
  | inr off ↦
      rw off
        (λ u. let no = off in cc, set_all-AllSaid es table clean.1 apart.1 shaped (rw off at fits))
  | inl on ↦
      let c = clean.0 on in
      let one = set_one e es table on c shaped (apart.0 on) fits in
      let short : length (text (text e.key)) ≤ 31 = rw (text-text e.key) c.key_short in
      let r = set_entry_lem (text e.key) (text e.value) table shaped short one.0 in
      let table' = (set_entry (text e.key) (text e.value) table).1 in
      let kept =
        set_all-other es table' (text e.key) clean.1 apart.1 one.1 one.2
          (rw (text-text e.key) (apart.0 on)) in
      rw on (
        λ u. (
          r.0.0,
          kept ∙ r.0.1,
          r.0.2 ∙ ap (take 95) (text-text e.value) ∙ take-all 95 (text e.value) c.value_short,
        ),
        set_all-AllSaid es table' clean.1 apart.1 one.1 one.2,
      )
]
