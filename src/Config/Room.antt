-- ===== src/Config/Room.antt =====
-- A setting has its slot: what `config_set` does to the table, and when it succeeds.
use acharya_os.Base.{
  ℕ, zero, suc, ◌+◌, ◌≤◌, ◌≡◌, refl, ap, ◌∙◌, arith, List, [], ◌∷◌, Bool, true, false, not, none,
  Option-cases, inl, inr, ok, ◌==◌, Bool-cases, maybe, length, modify, find_index-some, count,
  weight, count-modify, length-modify,
}
use acharya_os.Kstring.{CString, text, has_text}
use acharya_os.Kstring.Laws.{length-copy_text}
use acharya_os.Config.Table.{
  Entry, no_entry, is_used, has_key, entry_at, find_key, find_free, with_value, filled, set_entry,
}
use acharya_os.Config.Laws.{IsShaped, AreShaped, value_of}

pub text-text : (s : CString) → text (text s) ≡ text s
text-text [] = refl
text-text (c ∷ cs) = elim (Bool-cases (c == 0)) [
  | inl e ↦ rw e refl
  | inr e ↦ rw (e, e) (ap (λ (t : List ℕ). c ∷ t) (text-text cs))
]

modify-AreShaped :
    (i : ℕ) (f : Entry → Entry) (es : List Entry)
    → ((x : Entry) → IsShaped x → IsShaped (f x))
    → AreShaped es
    → AreShaped (modify i f es)
modify-AreShaped i f [] keep h j = h j
modify-AreShaped zero f (x ∷ es) keep h zero = keep x (h 0)
modify-AreShaped zero f (x ∷ es) keep h (suc j) = h (suc j)
modify-AreShaped (suc i) f (x ∷ es) keep h zero = h 0
modify-AreShaped (suc i) f (x ∷ es) keep h (suc j) = modify-AreShaped i f es keep (λ k. h (suc k)) j

pub filled-AreShaped :
    (key value : CString) (i : ℕ) (es : List Entry)
    → AreShaped es
    → AreShaped (modify i (filled key value) es)
filled-AreShaped key value i es h =
    modify-AreShaped i (filled key value) es
      (λ x s. record {
        key_size = length-copy_text x.key 32 key ∙ s.key_size;
        value_size = length-copy_text x.value 96 value ∙ s.value_size;
      })
      h

with_value-AreShaped :
    (value : CString) (i : ℕ) (es : List Entry)
    → AreShaped es
    → AreShaped (modify i (with_value value) es)
with_value-AreShaped value i es h =
    modify-AreShaped i (with_value value) es
      (λ x s. record {
        key_size = s.key_size;
        value_size = length-copy_text x.value 96 value ∙ s.value_size;
      })
      h

abbrev pub is_set : CString → List Entry → Bool
is_set key entries = maybe (find_key key entries) false λ i. true

pub is_set-value_of :
    (key : CString) (entries : List Entry)
    → is_set key entries ≡ maybe (value_of key entries) false (λ v. true)
is_set-value_of key entries = elim (Option-cases (find_key key entries)) [
  | inl e ↦ rw e refl
  | inr (i, e) ↦ rw e refl
]

-- With no free slot, all are in use.
all_used : (es : List Entry) → find_free es ≡ none → count is_used es ≡ length es
unfolding find_free
all_used [] h = omega arith
all_used (e ∷ es) h = ground (arith, all_used es)

-- What `config_set` does to a table with room: it succeeds, and a slot more is in use if the key is
-- new.
pub record IsBound (key value : CString) (before after : List Entry) : Type 0 where
  pub shaped : AreShaped after
  pub slots : length after ≡ length before
  pub used : count is_used after ≡ count is_used before + weight (not (is_set key before))

pub set_entry-IsBound :
    (key value : CString) (entries : List Entry)
    → AreShaped entries
    → has_text key ≡ true
    → count is_used entries + weight (not (is_set key entries)) ≤ length entries
    → ((set_entry key value entries).0 ≡ ok)
      × IsBound key value entries (set_entry key value entries).1
unfolding set_entry find_key find_free
set_entry-IsBound key value entries shaped some_text room =
    elim (Option-cases (find_key key entries)) [
      | inr (i, found) ↦
          let f = find_index-some (has_key key) no_entry entries i found in
          let n = count-modify is_used no_entry i (with_value value) entries f.0 in
          rw (some_text, found)
            (
              refl,
              record {
                shaped = with_value-AreShaped value i entries shaped;
                slots = length-modify i (with_value value) entries;
                used = rw found (omega (arith, n));
              },
            )
      | inl missing ↦
          let room' : count is_used entries + 1 ≤ length entries = rw missing at room in
          elim (Option-cases (find_free entries)) [
            | inl full ↦ absurd (omega (arith, all_used entries full, room'))
            | inr (i, free) ↦
                let f = find_index-some (λ e. not (is_used e)) no_entry entries i free in
                let n = count-modify is_used no_entry i (filled key value) entries f.0 in
                let off : is_used (entry_at entries i) ≡ false = ground (arith, f.1) in
                let n' : count is_used (modify i (filled key value) entries) + 0
                    ≡ count is_used entries + 1 =
                  rw off at n in
                rw (some_text, missing, free)
                  (
                    refl,
                    record {
                      shaped = filled-AreShaped key value i entries shaped;
                      slots = length-modify i (filled key value) entries;
                      used = rw missing (omega (arith, n'));
                    },
                  )
          ]
    ]
