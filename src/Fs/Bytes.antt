-- ===== src/Fs/Bytes.antt =====
-- The bytes of the file table say its entries.
use acharya_os.Base.{
  ℕ, zero, suc, ◌+◌, ◌*◌, ◌^◌, ◌<◌, ◌≡◌, refl, ap, sym, ◌∙◌, arith, List, [], ◌∷◌, ◌++◌, u8, get_or,
  take, drop, length, length-append, take-all, take-append, drop-append_all, drop-drop,
  append_assoc,
}
use acharya_os.Fs.Table.{
  DiskEntry, word_bytes, word_at, encode_entry, decode_entry, encode_table, decode_table,
}
use acharya_os.Fs.Finding.{IsShaped}

-- An entry whose fields fit their widths.
pub record IsEntry (e : DiskEntry) : Type 0 where
  pub shape : IsShaped e
  pub start_small : e.start_lba < 2 ^ 32
  pub size_small : e.size_bytes < 2 ^ 32
  pub used_small : e.used < 2 ^ 8

abbrev pub AreEntries : List DiskEntry → Type 0
AreEntries [] = Unit
AreEntries (e ∷ es) = IsEntry e × AreEntries es

get_or-behind :
    (xs ys : List ℕ) (i k : ℕ) → i ≡ length xs + k → get_or (xs ++ ys) i 0 ≡ get_or ys k 0
get_or-behind [] ys i k h = let e : i ≡ k = omega arith in rw e
get_or-behind (x ∷ xs) ys zero k h = absurd (omega arith)
get_or-behind (x ∷ xs) ys (suc i) k h = get_or-behind xs ys i k (omega arith)

word_at-behind :
    (xs ys : List ℕ) (i k : ℕ) → i ≡ length xs + k → word_at (xs ++ ys) i ≡ word_at ys k
word_at-behind xs ys i k h =
    rw
      (
        get_or-behind xs ys i k h,
        get_or-behind xs ys (i + 1) (k + 1) (omega arith),
        get_or-behind xs ys (i + 2) (k + 2) (omega arith),
        get_or-behind xs ys (i + 3) (k + 3) (omega arith),
      )
      refl

word_there : (n : ℕ) (rest : List ℕ) → n < 2 ^ 32 → word_at (word_bytes n ++ rest) 0 ≡ n
word_there n rest small = omega arith

module _ (e : DiskEntry) (rest : List ℕ) (h : IsEntry e) where
  -- What follows the name.
  abbrev tail : List ℕ
  tail = (word_bytes e.start_lba ++ (word_bytes e.size_bytes ++ (u8 e.used ∷ e.reserved))) ++ rest

  split_name : encode_entry e ++ rest ≡ e.name ++ tail
  split_name = append_assoc e.name _ rest

  behind_name : drop 16 (e.name ++ tail) ≡ tail
  behind_name =
      ap (λ (n : ℕ). drop n (e.name ++ tail)) (sym h.shape.name_size) ∙ drop-append_all e.name tail

  reserved_there : take 11 (drop 25 (e.name ++ tail)) ≡ e.reserved
  reserved_there =
      ap (take 11)
        (sym (drop-drop 9 16 (e.name ++ tail)) ∙ ap (λ (t : List ℕ). drop 9 t) behind_name)
      ∙ take-append 11 e.reserved rest (omega (arith, h.shape.reserved_size))
      ∙ take-all 11 e.reserved (omega (arith, h.shape.reserved_size))

  name_there : take 16 (e.name ++ tail) ≡ e.name
  name_there =
      take-append 16 e.name tail (omega (arith, h.shape.name_size))
      ∙ take-all 16 e.name (omega (arith, h.shape.name_size))

  start_there : word_at (e.name ++ tail) 16 ≡ e.start_lba
  start_there =
      word_at-behind e.name tail 16 0 (omega (arith, h.shape.name_size))
      ∙ word_there e.start_lba ((word_bytes e.size_bytes ++ (u8 e.used ∷ e.reserved)) ++ rest)
          h.start_small

  size_there : word_at (e.name ++ tail) 20 ≡ e.size_bytes
  size_there =
      word_at-behind e.name tail 20 4 (omega (arith, h.shape.name_size))
      ∙ word_there e.size_bytes (u8 e.used ∷ (e.reserved ++ rest)) h.size_small

  used_there : get_or (e.name ++ tail) 24 0 ≡ e.used
  used_there =
      get_or-behind e.name tail 24 8 (omega (arith, h.shape.name_size))
      ∙ omega (arith, h.used_small)

  pub decode_entry-encode : decode_entry (encode_entry e ++ rest) ≡ e
  decode_entry-encode =
      rw (split_name, name_there, start_there, size_there, used_there, reserved_there) refl

  pub behind_entry : drop 36 (encode_entry e ++ rest) ≡ rest
  behind_entry =
      let len : length (encode_entry e) ≡ 36 = omega (
        arith,
        length-append e.name
            (word_bytes e.start_lba ++ (word_bytes e.size_bytes ++ (u8 e.used ∷ e.reserved))),
        h.shape.name_size,
        h.shape.reserved_size,
      ) in
      ap (λ (n : ℕ). drop n (encode_entry e ++ rest)) (sym len)
      ∙ drop-append_all (encode_entry e) rest

-- Entries are read back from their bytes, whatever follows.
pub decode_table-encode :
    (es : List DiskEntry) (n : ℕ) (rest : List ℕ)
    → AreEntries es
    → take (length es) (decode_table (length es + n) (encode_table es ++ rest)) ≡ es
decode_table-encode [] n rest h = refl
decode_table-encode (e ∷ es) n rest h =
    let count : suc (length es) + n ≡ suc (length es + n) = omega arith in
    rw
      (
        count,
        append_assoc (encode_entry e) (encode_table es) rest,
        decode_entry-encode e (encode_table es ++ rest) h.0,
        behind_entry e (encode_table es ++ rest) h.0,
      )
      (ap (λ (t : List DiskEntry). e ∷ t) (decode_table-encode es n rest h.1))

pub decode_table-encode_all :
    (es : List DiskEntry) → AreEntries es → decode_table (length es) (encode_table es) ≡ es
decode_table-encode_all [] h = refl
decode_table-encode_all (e ∷ es) h =
    rw (decode_entry-encode e (encode_table es) h.0, behind_entry e (encode_table es) h.0)
      (ap (λ (t : List DiskEntry). e ∷ t) (decode_table-encode_all es h.1))

-- The later entries are those of the later bytes.
pub drop-decode_table :
    (k n : ℕ) (bytes : List ℕ)
    → drop k (decode_table (k + n) bytes) ≡ decode_table n (drop (36 * k) bytes)
drop-decode_table zero n bytes = let a : 0 + n ≡ n = omega arith in rw a refl
drop-decode_table (suc k) n bytes =
    let a : suc k + n ≡ suc (k + n) = omega arith in
    let b : 36 * suc k ≡ 36 + 36 * k = omega arith in
    rw (a, b)
      (drop-decode_table k n (drop 36 bytes)
        ∙ ap (λ (t : List ℕ). decode_table n t) (drop-drop (36 * k) 36 bytes))
