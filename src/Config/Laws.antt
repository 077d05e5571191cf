-- ===== src/Config/Laws.antt =====
-- What a setting changes: its key says the value, and the other keys say what they did.
use acharya_os.Base.{
  ℕ, ◌-◌, ◌≤◌, ◌<◌, ◌≡◌, ◌≢◌, refl, ap, sym, ◌∙◌, arith, List, true, false, not, Option, none, some,
  Option-cases, inl, inr, ok, fail, ◌==◌, Bool-cases, maybe, length, take, take-all, modify,
  find_index, find_index-some, find_index-none, find_index_of_first, find_index-modify_same,
  find_index-modify_at, get_or-modify_self, get_or-modify_ne, length-modify,
}
use acharya_os.Kstring.{CString, text, has_text, copy_text, str_eq}
use acharya_os.Kstring.Laws.{text-copy_text, copy_text-eq, str_eq_iff}
use acharya_os.Config.{Config, get, set}
use acharya_os.Config.Table.{
  Entry, no_entry, is_used, has_key, entry_at, find_key, find_free, with_value, filled, set_entry,
}

-- The arrays of an entry have their sizes.
pub record IsShaped (e : Entry) : Type 0 where
  pub key_size : length e.key ≡ 32
  pub value_size : length e.value ≡ 96

abbrev pub AreShaped : List Entry → Type 0
AreShaped entries = (i : ℕ) → IsShaped (entry_at entries i)

-- What a key is set to.
abbrev pub value_of : CString → List Entry → Option CString
value_of key entries = maybe (find_key key entries) none λ i. some (entry_at entries i).value

-- What a key is set to says this.
abbrev pub Says : CString → List Entry → List ℕ → Type 0
Says key entries said = (v : CString) × (value_of key entries ≡ some v) × (text v ≡ said)

text-with_value :
    (value : CString) (e : Entry)
    → IsShaped e
    → text (copy_text e.value 96 value) ≡ take 95 (text value)
text-with_value value e s =
    text-copy_text e.value 96 value (omega arith) (omega (arith, s.value_size))

-- A filled entry is found by the keys that say the same, and no others.
filled-has_key :
    (key value : CString) (e : Entry)
    → IsShaped e
    → length (text key) ≤ 31
    → has_key key (filled key value e) ≡ true
filled-has_key key value e s short =
    (copy_text-eq e.key 32 key key (omega arith) (omega (arith, s.key_size))).1
      (take-all 31 (text key) short)

filled-other :
    (key value other : CString) (e : Entry)
    → IsShaped e
    → length (text key) ≤ 31
    → text key ≢ text other
    → has_key other (filled key value e) ≡ false
filled-other key value other e s short ne =
    elim (Bool-cases (str_eq (copy_text e.key 32 key) other)) [
      | inr f ↦ f
      | inl t ↦ absurd (
          ne (
            sym (take-all 31 (text key) short)
            ∙ (copy_text-eq e.key 32 key other (omega arith) (omega (arith, s.key_size))).0 t))
    ]

module _ (key value : CString) (entries : List Entry) (shaped : AreShaped entries) where
  -- The key has an entry.
  value_of-replaced :
      (i : ℕ)
      → find_key key entries ≡ some i
      → Says key (modify i (with_value value) entries) (take 95 (text value))
  unfolding find_key
  value_of-replaced i found =
      let f = find_index-some (has_key key) no_entry entries i found in
      let same =
        find_index-modify_same (has_key key) no_entry i (with_value value) entries (λ e. refl) in
      rw (same, found, get_or-modify_self i (with_value value) entries no_entry f.0)
        (_, refl, text-with_value value (entry_at entries i) (shaped i))

  other_replaced :
      (i : ℕ) (other : CString)
      → find_key key entries ≡ some i
      → text key ≢ text other
      → value_of other (modify i (with_value value) entries) ≡ value_of other entries
  unfolding find_key
  other_replaced i other found ne =
      let f = find_index-some (has_key key) no_entry entries i found in
      let same =
        find_index-modify_same (has_key other) no_entry i (with_value value) entries (λ e. refl) in
      elim (Option-cases (find_index (has_key other) entries)) [
        | inl g ↦ rw (same, g) refl
        | inr (j, g) ↦
            let there = find_index-some (has_key other) no_entry entries j g in
            rw
              (
                same,
                g,
                get_or-modify_ne i j (with_value value) entries no_entry
                    (λ e. ne (same_text i j e f.1 there.1)),
              )
              refl
      ]
    where
      same_text :
          (i j : ℕ)
          → i ≡ j
          → has_key key (entry_at entries i) ≡ true
          → has_key other (entry_at entries j) ≡ true
          → text key ≡ text other
      same_text i j e a b =
          let a' : str_eq (entry_at entries i).key key ≡ true = ground arith in
          let b' : str_eq (entry_at entries j).key other ≡ true = ground arith in
          sym ((str_eq_iff (entry_at entries i).key key).0 a')
          ∙ ap (λ (k : ℕ). text (entry_at entries k).key) e
          ∙ (str_eq_iff (entry_at entries j).key other).0 b'

  -- The key is new.
  value_of-added :
      (i : ℕ)
      → find_key key entries ≡ none
      → find_free entries ≡ some i
      → length (text key) ≤ 31
      → Says key (modify i (filled key value) entries) (take 95 (text value))
  unfolding find_key find_free
  value_of-added i missing free short =
      let f = find_index-some (λ e. not (is_used e)) no_entry entries i free in
      let at = get_or-modify_self i (filled key value) entries no_entry f.0 in
      let found : find_index (has_key key) (modify i (filled key value) entries) ≡ some i =
        find_index_of_first (has_key key) no_entry (modify i (filled key value) entries) i
          (rw (length-modify i (filled key value) entries) f.0)
          (ap (has_key key) at ∙ filled-has_key key value (entry_at entries i) (shaped i) short)
          (λ j lt.
            ap (has_key key)
              (get_or-modify_ne i j (filled key value) entries no_entry (omega arith))
            ∙ find_index-none (has_key key) no_entry entries j missing (omega (arith, f.0))) in
      rw (found, at) (_, refl, text-with_value value (entry_at entries i) (shaped i))

  other_added :
      (i : ℕ) (other : CString)
      → find_free entries ≡ some i
      → length (text key) ≤ 31
      → text key ≢ text other
      → value_of other (modify i (filled key value) entries) ≡ value_of other entries
  unfolding find_key find_free
  other_added i other free short ne =
      let f = find_index-some (λ e. not (is_used e)) no_entry entries i free in
      let off : has_key other (entry_at entries i) ≡ false = ground (arith, f.1) in
      let same =
        find_index-modify_at (has_key other) no_entry i (filled key value) entries
          (filled-other key value other (entry_at entries i) (shaped i) short ne ∙ sym off) in
      elim (Option-cases (find_index (has_key other) entries)) [
        | inl g ↦ rw (same, g) refl
        | inr (j, g) ↦
            let there = find_index-some (has_key other) no_entry entries j g in
            rw
              (
                same,
                g,
                get_or-modify_ne i j (filled key value) entries no_entry
                    (λ e. let t = ap (λ (k : ℕ). has_key other (entry_at entries k)) e in cc),
              )
              refl
      ]

-- What is set: either case of the code.
pub set_entry_lem :
    (key value : CString) (entries : List Entry)
    → AreShaped entries
    → length (text key) ≤ 31
    → (set_entry key value entries).0 ≡ ok
    → Says key (set_entry key value entries).1 (take 95 (text value))
      × ((other : CString)
          → text key ≢ text other
          → value_of other (set_entry key value entries).1 ≡ value_of other entries)
unfolding set_entry
set_entry_lem key value entries shaped short worked = elim (Bool-cases (has_text key)) [
  | inr e ↦ let f : (set_entry key value entries).0 ≡ fail = rw e refl in cc
  | inl e ↦ elim (Option-cases (find_key key entries)) [
    | inr (i, found) ↦
        rw (e, found)
          (
            value_of-replaced key value entries shaped i found,
            λ other ne. other_replaced key value entries shaped i other found ne,
          )
    | inl missing ↦ elim (Option-cases (find_free entries)) [
      | inl full ↦ let f : (set_entry key value entries).0 ≡ fail = rw (e, missing, full) refl in cc
      | inr (i, free) ↦
          rw (e, missing, free)
            (
              value_of-added key value entries shaped i missing free short,
              λ other ne. other_added key value entries shaped i other free short ne,
            )
    ]
  ]
]

-- `get` by what the key is set to.
get-value_of :
    (key out : CString) (out_size : ℕ) (c : Config)
    → 0 < out_size
    → get (some key) (some out) out_size c
      ≡ maybe (value_of key c.entries) none (λ v. some (copy_text out out_size v))
unfolding get
get-value_of key out out_size c h =
    let some_room : (out_size == 0) ≡ false = ground arith in
    elim (Option-cases (find_key key c.entries)) [
      | inl e ↦ rw (some_room, e) refl
      | inr (i, e) ↦ rw (some_room, e) refl
    ]

-- In a table whose arrays have their sizes, with a key of at most 31 characters: after a
-- `config_set` that succeeds, `config_get` of the key into an array of `out_size` characters gives an
-- array that says the value, cut to 95 and to `out_size - 1` characters; and `config_get` of a key
-- that says something else gives what it gave before.
pub set-get :
    (key value out : CString) (out_size : ℕ) (c : Config)
    → AreShaped c.entries
    → length (text key) ≤ 31
    → 0 < out_size
    → out_size ≤ length out
    → (set (some key) (some value) c).0 ≡ ok
    → ((v : CString) × (get (some key) (some out) out_size (set (some key) (some value) c).1
          ≡ some v)
        × (text v ≡ take (out_size - 1) (take 95 (text value))))
      × ((other : CString)
          → text key ≢ text other
          → get (some other) (some out) out_size (set (some key) (some value) c).1
            ≡ get (some other) (some out) out_size c)
unfolding set
set-get key value out out_size c shaped short room fits worked =
    let r = set_entry_lem key value c.entries shaped short worked in
    let c' = (set (some key) (some value) c).1 in
    (
      (
        copy_text out out_size r.0.0,
        get-value_of key out out_size c' room
            ∙ ap (λ (o : Option CString). maybe o none (λ v. some (copy_text out out_size v)))
                r.0.1,
        text-copy_text out out_size r.0.0 room fits ∙ ap (take (out_size - 1)) r.0.2,
      ),
      λ other ne.
          get-value_of other out out_size c' room
          ∙ ap (λ (o : Option CString). maybe o none (λ v. some (copy_text out out_size v)))
              (r.1 other ne)
          ∙ sym (get-value_of other out out_size c room),
    )
