-- ===== src/Fs/Remount.antt =====
-- The table that is stored on the disk, and the table that is loaded from it.
use acharya_os.Base.{
  ℕ, zero, suc, ◌+◌, ◌*◌, ◌≤◌, ◌≡◌, subst, refl, ap, sym, ◌∙◌, arith, List, [], ◌∷◌, ◌++◌, take,
  drop, length, length-append, length-take, length-drop, take-all, take-append_more, take-drop,
  drop-append_all, drop-drop, append_assoc, some, ok,
}
use acharya_os.Ata.{Drive, Disk}
use acharya_os.Ata.Lawful.{IsLawful, Good}
use acharya_os.Ata.Single.{stored_at, write-ok, stays, holds, read-ok}
use acharya_os.Fs.Table.{DiskEntry, encode_entry, encode_table, decode_table}
use acharya_os.Fs.{store_table, load_table}
use acharya_os.Fs.Bytes.{
  AreEntries, decode_table-encode, decode_table-encode_all, drop-decode_table,
}

encode_table-append :
    (xs ys : List DiskEntry) → encode_table (xs ++ ys) ≡ encode_table xs ++ encode_table ys
encode_table-append [] ys = refl
encode_table-append (x ∷ xs) ys =
    ap (λ (t : List ℕ). encode_entry x ++ t) (encode_table-append xs ys)
    ∙ sym (append_assoc (encode_entry x) (encode_table xs) (encode_table ys))

length-encode : (es : List DiskEntry) → AreEntries es → length (encode_table es) ≡ 36 * length es
length-encode [] h = omega arith
length-encode (e ∷ es) h = omega (
  arith,
  length-append (encode_entry e) (encode_table es),
  length-append e.name _,
  h.0.shape.name_size,
  h.0.shape.reserved_size,
  length-encode es h.1,
)

take-AreEntries : (n : ℕ) (es : List DiskEntry) → AreEntries es → AreEntries (take n es)
take-AreEntries zero es h = tt
take-AreEntries (suc n) [] h = tt
take-AreEntries (suc n) (e ∷ es) h = (h.0, take-AreEntries n es h.1)

drop-AreEntries : (n : ℕ) (es : List DiskEntry) → AreEntries es → AreEntries (drop n es)
drop-AreEntries zero es h = h
drop-AreEntries (suc n) [] h = tt
drop-AreEntries (suc n) (e ∷ es) h = drop-AreEntries n es h.1

module _ (es old : List DiskEntry) (h : AreEntries es) (g : AreEntries old) (n : length es ≡ 32)
    (m : length old ≡ 32) where
  abbrev first : List DiskEntry
  first = take 14 es

  length-first : length first ≡ 14
  length-first = omega (arith, length-take 14 es)

  -- What the sector holds: 14 entries, and 8 bytes of the next.
  sector_holds :
      take 512 (encode_table es) ≡ encode_table first ++ take 8 (encode_table (drop 14 es))
  sector_holds =
      let len : 512 ≡ length (encode_table first) + 8 =
        omega (arith, length-encode first (take-AreEntries 14 es h), length-first) in
      ap (λ (t : List DiskEntry). take 512 (encode_table t)) (sym (take-drop 14 es))
      ∙ ap (take 512) (encode_table-append first (drop 14 es))
      ∙ ap (λ (k : ℕ). take k (encode_table first ++ encode_table (drop 14 es))) len
      ∙ take-append_more 8 (encode_table first) (encode_table (drop 14 es))

  -- The bytes from which a table is read.
  abbrev pub read_bytes : List ℕ
  read_bytes = take 512 (encode_table es) ++ drop 512 (encode_table old)

  pub first_kept : take 14 (decode_table 32 read_bytes) ≡ take 14 es
  first_kept =
      ap (λ (t : List ℕ). take 14 (decode_table 32 (t ++ drop 512 (encode_table old)))) sector_holds
      ∙ ap (λ (t : List ℕ). take 14 (decode_table 32 t))
          (append_assoc (encode_table first) (take 8 (encode_table (drop 14 es)))
            (drop 512 (encode_table old)))
      ∙ subst
          (λ (k : ℕ).
            (rest : List ℕ) → take k (decode_table (k + 18) (encode_table first ++ rest)) ≡ first)
          length-first (λ rest. decode_table-encode first 18 rest (take-AreEntries 14 es h)) _

  abbrev lasts : List DiskEntry
  lasts = drop 15 old

  length-lasts : length lasts ≡ 17
  length-lasts = omega (arith, length-drop 15 old)

  behind_lasts : drop 540 (encode_table old) ≡ encode_table lasts
  behind_lasts =
      let len : 540 ≡ length (encode_table (take 15 old)) =
        omega (arith, length-encode (take 15 old) (take-AreEntries 15 old g), length-take 15 old) in
      ap (λ (t : List DiskEntry). drop 540 (encode_table t)) (sym (take-drop 15 old))
      ∙ ap (drop 540) (encode_table-append (take 15 old) lasts)
      ∙ ap (λ (k : ℕ). drop k (encode_table (take 15 old) ++ encode_table lasts)) len
      ∙ drop-append_all (encode_table (take 15 old)) (encode_table lasts)

  behind_read : drop 540 read_bytes ≡ encode_table lasts
  behind_read =
      let len : 512 ≡ length (take 512 (encode_table es)) =
        omega (arith, length-take 512 (encode_table es), length-encode es h) in
      sym (drop-drop 28 512 read_bytes)
      ∙ ap (λ (k : ℕ). drop 28 (drop k read_bytes)) len
      ∙ ap (drop 28) (drop-append_all (take 512 (encode_table es)) (drop 512 (encode_table old)))
      ∙ drop-drop 28 512 (encode_table old)
      ∙ behind_lasts

  pub lasts_old : drop 15 (decode_table 32 read_bytes) ≡ drop 15 old
  lasts_old =
      drop-decode_table 15 17 read_bytes
      ∙ ap (λ (t : List ℕ). decode_table 17 t) behind_read
      ∙ ap (λ (k : ℕ). decode_table k (encode_table lasts)) (sym length-lasts)
      ∙ decode_table-encode_all lasts (drop-AreEntries 15 old g)

-- On a drive that works and has 4354 sectors or more, a table of 32 entries whose fields fit their
-- widths is stored, and then loaded over another such table: the first 14 entries are those stored,
-- and the entries from number 15 on are those of the table that was there.
pub store_load :
    (D : Drive) (L : IsLawful D) (s : Disk D) (es old : List DiskEntry)
    → Good L s
    → 4354 ≤ L.sectors
    → AreEntries es
    → AreEntries old
    → length es ≡ 32
    → length old ≡ 32
    → ((store_table D es s).0 ≡ ok)
      × (loaded : List DiskEntry) × ((load_table D old (store_table D es s).1).0 ≡ some loaded)
      × (take 14 loaded ≡ take 14 es)
      × (drop 15 loaded ≡ drop 15 old)
unfolding store_table load_table
store_load D L s es old good big h g n m =
    let bytes = take 512 (encode_table es) in
    let full : length bytes ≡ 512 =
      omega (arith, length-take 512 (encode_table es), length-encode es h) in
    let w = write-ok D L s good 4097 (omega arith) bytes full in
    let good' = stays D L s good 4097 (omega arith) bytes full in
    let r = read-ok D L (stored_at D 4097 bytes s) good' 4097 (omega arith) in
    let there = holds D L s good 4097 (omega arith) bytes full in
    let whole = take-all 512 bytes (omega (arith, full)) in
    rw (w, r, there, whole)
      (
        refl,
        decode_table 32 (read_bytes es old h g n m),
        refl,
        first_kept es old h g n m,
        lasts_old es old h g n m,
      )
