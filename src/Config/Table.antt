-- ===== src/Config/Table.antt =====
-- The table of settings.
use acharya_os.Base.{
  ℕ, List, [], ◌∷◌, Bool, not, ◌&&◌, Option, Status, ok, fail, ◌==◌, if◌then◌else◌, get_or,
  replicate, modify, find_index, maybe,
}
use acharya_os.Kstring.{CString, codes, copy_text, str_eq, has_text}

abbrev pub key_max : ℕ
key_max = 32

abbrev pub value_max : ℕ
value_max = 96

abbrev pub entry_max : ℕ
entry_max = 16

-- `config_entry_t`.
pub record Entry : Type 0 where
  pub key : CString
  pub value : CString
  pub used : ℕ

abbrev pub no_entry : Entry
no_entry = record { key = replicate 32 0; value = replicate 96 0; used = 0 }

-- `config_defaults`.
abbrev pub defaults : List (CString × CString)
defaults =
    (codes "prompt", codes "acharyaos> ")
    ∷ (codes "loglevel", codes "info")
    ∷ (codes "browser_filter", codes "")
    ∷ (codes "editor_tabwidth", codes "4")
    ∷ []

abbrev pub is_used : Entry → Bool
is_used e = not (e.used == 0)

abbrev pub has_key : CString → Entry → Bool
has_key key e = is_used e && str_eq e.key key

abbrev pub entry_at : List Entry → ℕ → Entry
entry_at entries i = get_or entries i no_entry

unfoldable pub find_key : CString → List Entry → Option ℕ
find_key key entries = find_index (has_key key) entries

unfoldable pub find_free : List Entry → Option ℕ
find_free entries = find_index (λ e. not (is_used e)) entries

-- The value of an entry is replaced.
abbrev pub with_value : CString → Entry → Entry
with_value value e = record e { value = copy_text e.value value_max value }

-- An entry is taken for a key and its value.
abbrev pub filled : CString → CString → Entry → Entry
filled key value e = record {
  key = copy_text e.key key_max key;
  value = copy_text e.value value_max value;
  used = 1;
}

-- `config_set` on valid pointers.
unfoldable pub set_entry : CString → CString → List Entry → Status × List Entry
set_entry key value entries =
    if not (has_text key)
    then (fail, entries)
    else maybe (find_key key entries)
        (maybe (find_free entries) (fail, entries) λ i. (ok, modify i (filled key value) entries))
        λ i. (ok, modify i (with_value value) entries)

-- The loop of `config_reset_defaults`.
unfoldable pub add_defaults : List (CString × CString) → List Entry → List Entry
add_defaults [] entries = entries
add_defaults ((key, value) ∷ rest) entries =
    maybe (find_free entries) entries λ i. add_defaults rest (modify i (filled key value) entries)

unfoldable pub reset_defaults : List Entry
reset_defaults = add_defaults defaults (replicate entry_max no_entry)
