-- ===== src/Fs/RoundTrip.antt =====
-- What was written to a file is read back.
use native.Mathlib.Decide.{ℕ_discrete}
use acharya_os.Base.{
  ℕ, ◌+◌, ◌-◌, ◌*◌, ◌/◌, ◌≤◌, ◌<◌, ◌≡◌, ◌≢◌, inl, inr, refl, ap, sym, ◌∙◌, arith, List, true, false,
  ltb, ◌==◌, some, if◌then◌else◌, Bool-cases, length, take, length-take, Status, ok, u32, modify,
}
use acharya_os.Kstring.{CString, text}
use acharya_os.Ata.{Drive, Disk}
use acharya_os.Ata.Lawful.{IsLawful, Good, sector}
use acharya_os.Ata.Single.{stored_at, read-ok, write-ok, stays, keeps, read_sectors-none}
use acharya_os.Fs.Table.{DiskEntry, encode_table}
use acharya_os.Fs.{
  Fs, not_read, past_buffer, loaded, is_used, entry_at, claim, find_entry, next_free_lba, next_from,
  read_file, write_file, write_entry, write_blocks, store_table, blocks_for_bytes, count_used,
  sync_cache, block_bytes,
}
use acharya_os.Fs.Layout.{
  IsLaid, IsFile, Claimed, blocks_of, blocks_for_bytes_lem, next_from-above, placed, written_self,
  written-IsLaid,
}
use acharya_os.Fs.Blocks.{Stored, write_blocks-Stored, length-block_bytes, last_block}
use acharya_os.Fs.Finding.{
  AreShaped, Claims, claim-Claims, Claims-Claimed, Claims-AreShaped, modify-AreShaped,
  length-encode_table, find-placed,
}

-- A mounted volume, with files below block `top` and room for one more behind it.
pub record IsReady {D : Drive} (L : IsLawful D) (fs : Fs) (top : ℕ) : Type 0 where
  pub mounted : fs.info.mounted ≢ 0
  pub laid : IsLaid fs.info.data_start_lba top fs.entries
  pub shaped : AreShaped fs.entries
  pub behind_table : (4098 ≤ fs.info.data_start_lba) × (fs.info.data_start_lba ≤ top)
  pub room : top + 256 ≤ L.sectors

-- A slot that was claimed lies where it did before.
claimed-IsFile :
    {lo top : ℕ} {entries : List DiskEntry} {i : ℕ} {entries' : List DiskEntry}
    → IsLaid lo top entries
    → Claimed entries i entries'
    → (j : ℕ) → IsFile 0 top (entry_at entries' j)
claimed-IsFile {entries = entries} {i} laid c j = elim (ℕ_discrete i j) [
  | yes e ↦
      let f = laid.spare i in
      rw (← e) (record {
        size_small = omega (arith, c.size, f.size_small);
        above = omega arith;
        below = omega (arith, c.size, c.start, f.below);
      })
  | no ne ↦ rw (c.others j ne) (laid.spare j)
]

module _ (D : Drive) (L : IsLawful D) (fs : Fs) (top : ℕ) (s : Disk D) (name : CString)
    (bytes : List ℕ) (size i : ℕ) (entries' : List DiskEntry) (good : Good L s)
    (ready : IsReady L fs top) (claimed : claim name fs.entries ≡ some (i, entries'))
    (all : length bytes ≡ size) (small : size ≤ 131072) where
  abbrev claims : Claims name fs.entries i entries'
  claims = claim-Claims name fs.entries i entries' claimed

  abbrev entry_claimed : Claimed fs.entries i entries'
  entry_claimed = Claims-Claimed claims

  -- Where the new blocks begin.
  abbrev start : ℕ
  start = next_from fs.info.data_start_lba entries'

  abbrev blocks : ℕ
  blocks = (size + 511) / 512

  -- The table with the entry of the file.
  abbrev pub table : List DiskEntry
  table = modify i (placed start size) entries'

  above :
      (fs.info.data_start_lba ≤ start)
      × (start ≤ top)
      × ((j : ℕ)
          → is_used (entry_at entries' j) ≡ true
          → (entry_at entries' j).start_lba + blocks_of (entry_at entries' j) ≤ start)
  above =
      next_from-above fs.info.data_start_lba top entries' (omega (arith, ready.room))
        (ready.behind_table.1) (λ j u. claimed-IsFile ready.laid entry_claimed j)

  pub table-IsLaid : IsLaid fs.info.data_start_lba (top + 256) table
  table-IsLaid =
      written-IsLaid fs.info.data_start_lba top fs.entries entries' i size start ready.laid
        entry_claimed above.0 above.2 small (top + 256) (omega arith) (omega (arith, above.1))

  table-AreShaped : AreShaped table
  table-AreShaped =
      modify-AreShaped i (placed start size) entries'
        (λ x h. record { name_size = h.name_size; reserved_size = h.reserved_size })
        (Claims-AreShaped claims ready.shaped)

  abbrev table_bytes : List ℕ
  table_bytes = take 512 (encode_table table)

  length-table_bytes : length table_bytes ≡ 512
  length-table_bytes = omega (
    arith,
    length-take 512 (encode_table table),
    length-encode_table table table-AreShaped,
    table-IsLaid.slots,
  )

  -- The drive after the blocks, and after the table.
  abbrev after_blocks : Disk D
  after_blocks = (write_blocks D blocks 0 start bytes size s).1

  abbrev pub after_table : Disk D
  after_table = stored_at D 4097 table_bytes after_blocks

  written_blocks :
      ((write_blocks D blocks 0 start bytes size s).0 ≡ ok)
      × Stored D L start 0 blocks bytes size s after_blocks
  written_blocks =
      write_blocks-Stored D L start bytes size blocks 0 s (omega (arith, above.1, ready.room)) good

  -- What the volume is after the write.
  abbrev pub after : Fs
  after =
      sync_cache
        (record fs { entries = table; info = record (fs.info) { used_files = count_used table } })

  free_start : next_free_lba (record fs { entries = entries' }) ≡ start
  unfolding next_free_lba
  free_start = refl

  stored_table : store_table D table after_blocks ≡ (ok, after_table)
  unfolding store_table
  stored_table =
      write-ok D L after_blocks written_blocks.1.good 4097 (omega arith) table_bytes
        length-table_bytes

  pub write_file-ok : write_file D (some name) (some bytes) size fs s ≡ (ok, after, after_table)
  unfolding write_file write_entry
  write_file-ok =
      let on : (fs.info.mounted == 0) ≡ false = ground (arith, ready.mounted) in
      let fits : ltb 131072 size ≡ false = ground arith in
      let width : u32 size ≡ size = omega arith in
      let count : blocks_for_bytes (u32 size) ≡ blocks =
        ap blocks_for_bytes width ∙ blocks_for_bytes_lem size small in
      let w : write_blocks D blocks 0 start bytes size s ≡ (ok, after_blocks) =
        ap (λ (x : Status). (x, after_blocks)) written_blocks.0 in
      rw (on, fits, claimed, count, free_start, w, stored_table) refl

  after_table-Good : Good L after_table
  after_table-Good =
      stays D L after_blocks written_blocks.1.good 4097 (omega arith) table_bytes length-table_bytes

  -- The sectors of the file, after all.
  file_sectors : (k : ℕ) → k < blocks → sector L after_table (start + k) ≡ block_bytes bytes size k
  file_sectors k lt =
      keeps D L after_blocks written_blocks.1.good 4097 (omega arith) table_bytes length-table_bytes
        (start + k) (λ e. omega (arith, e, above.0, ready.behind_table.0))
      ∙ written_blocks.1.blocks k (omega arith) (omega arith)

  -- The sectors of the other files, and of what lies before the files, are those they were.
  pub other_sectors :
      (lba : ℕ) → lba < start → lba ≢ 4097 → sector L after_table lba ≡ sector L s lba
  other_sectors lba lt ne =
      keeps D L after_blocks written_blocks.1.good 4097 (omega arith) table_bytes length-table_bytes
        lba (λ e. ne (sym e))
      ∙ written_blocks.1.others lba (inl (omega arith))

  found : length (text name) ≤ 15 → find_entry name table ≡ some i
  found short = find-placed start size claims ready.shaped short

  entry_there : entry_at table i ≡ placed start size (entry_at entries' i)
  entry_there =
      written_self fs.info.data_start_lba top fs.entries entries' i size start ready.laid
        entry_claimed above.0 above.2 small

  -- A file of one block: the whole block is put into the buffer, or past its end.
  pub read_small :
      (buffer_len : ℕ)
      → length (text name) ≤ 15
      → 0 < size
      → size ≤ 512
      → size ≤ buffer_len
      → (read_file D (some name) (some buffer_len) after after_table).0
        ≡ (if ltb buffer_len 512 then past_buffer else loaded (block_bytes bytes size 0) size)
  unfolding read_file sync_cache
  read_small buffer_len short more few room =
      let on : (fs.info.mounted == 0) ≡ false = ground (arith, ready.mounted) in
      let width : u32 size ≡ size = omega arith in
      let count : blocks_for_bytes size ≡ 1 = blocks_for_bytes_lem size small ∙ omega arith in
      let fits : ltb buffer_len size ≡ false = ground arith in
      let first : start ≡ start + 0 = omega arith in
      let block : sector L after_table start ≡ block_bytes bytes size 0 =
        ap (λ (k : ℕ). sector L after_table k) first ∙ file_sectors 0 (omega arith) in
      let read =
        read-ok D L after_table after_table-Good start (omega (arith, above.1, ready.room)) in
      rw
        (
          on,
          found short,
          entry_there,
          width,
          count,
          fits,
          read,
          block,
          length-block_bytes bytes size 0,
        )
        refl

  -- The number of blocks is passed on in 8 bits: 256 of them are none.
  pub read_large :
      (buffer_len : ℕ)
      → length (text name) ≤ 15
      → 255 * 512 < size
      → (read_file D (some name) (some buffer_len) after after_table).0 ≡ not_read
  unfolding read_file sync_cache
  read_large buffer_len short many =
      let on : (fs.info.mounted == 0) ≡ false = ground (arith, ready.mounted) in
      let width : u32 size ≡ size = omega arith in
      let count : blocks_for_bytes size ≡ 256 = blocks_for_bytes_lem size small ∙ omega arith in
      elim (Bool-cases (ltb buffer_len size)) [
        | inl e ↦ rw (on, found short, entry_there, width, count, e) refl
        | inr e ↦
            rw
              (on, found short, entry_there, width, count, e, read_sectors-none D start after_table)
              refl
      ]

-- A volume that is mounted and laid out, on a drive that works: a file of 1 to 512 bytes, with a name of
-- at most 15 characters for which there is an entry, is written. A read with a buffer that is not
-- shorter than the file puts 512 bytes into it: with room for them it gives the file's length and
-- bytes that begin with the file, and with less the bytes go past the end of the buffer.
pub write_read :
    (D : Drive) (L : IsLawful D) (fs : Fs) (top : ℕ) (s : Disk D) (name : CString) (bytes : List ℕ)
    (i : ℕ) (entries' : List DiskEntry) (buffer_len : ℕ)
    → Good L s
    → IsReady L fs top
    → claim name fs.entries ≡ some (i, entries')
    → 0 < length bytes
    → length bytes ≤ 512
    → length (text name) ≤ 15
    → length bytes ≤ buffer_len
    → ((write_file D (some name) (some bytes) (length bytes) fs s).0 ≡ ok)
      × (stored : List ℕ) × ((read_file D
            (some name)
            (some buffer_len)
            (write_file D (some name) (some bytes) (length bytes) fs s).1
            (write_file D (some name) (some bytes) (length bytes) fs s).2).0
          ≡ (if ltb buffer_len 512 then past_buffer else loaded stored (length bytes)))
      × (length stored ≡ 512)
      × (take (length bytes) stored ≡ bytes)
write_read D L fs top s name bytes i entries' buffer_len good ready claimed more small short room =
    let size = length bytes in
    let w =
      write_file-ok D L fs top s name bytes size i entries' good ready claimed refl (omega arith) in
    let r =
      read_small D L fs top s name bytes size i entries' good ready claimed refl (omega arith)
        buffer_len short more small room in
    let whole : size ≡ size - 0 * 512 = omega arith in
    rw w (
      refl,
      block_bytes bytes size 0,
      r,
      length-block_bytes bytes size 0,
      ap (λ (k : ℕ). take k (block_bytes bytes size 0)) whole
          ∙ last_block bytes size refl 0 (omega arith) small,
    )

-- On such a volume, a file of at most 256 blocks for which there is an entry is written, and then
-- again no two files share a block, and no file lies before the start of the files.
pub write_file-IsLaid :
    (D : Drive) (L : IsLawful D) (fs : Fs) (top : ℕ) (s : Disk D) (name : CString) (bytes : List ℕ)
    (i : ℕ) (entries' : List DiskEntry)
    → Good L s
    → IsReady L fs top
    → claim name fs.entries ≡ some (i, entries')
    → length bytes ≤ 131072
    → ((write_file D (some name) (some bytes) (length bytes) fs s).0 ≡ ok)
      × IsLaid fs.info.data_start_lba
          (top + 256)
          (write_file D (some name) (some bytes) (length bytes) fs s).1.entries
unfolding sync_cache
write_file-IsLaid D L fs top s name bytes i entries' good ready claimed small =
    let w =
      write_file-ok D L fs top s name bytes (length bytes) i entries' good ready claimed refl
        small in
    rw w (
      refl,
      table-IsLaid D L fs top s name bytes (length bytes) i entries' good ready claimed refl small,
    )

-- On such a volume, a file of 256 blocks, the most that `fs_write_file` takes, with a name of at most
-- 15 characters and an entry for it, is written, and a read of it then fails, whatever the buffer.
pub write_unreadable :
    (D : Drive) (L : IsLawful D) (fs : Fs) (top : ℕ) (s : Disk D) (name : CString) (bytes : List ℕ)
    (i : ℕ) (entries' : List DiskEntry) (buffer_len : ℕ)
    → Good L s
    → IsReady L fs top
    → claim name fs.entries ≡ some (i, entries')
    → 255 * 512 < length bytes
    → length bytes ≤ 131072
    → length (text name) ≤ 15
    → ((write_file D (some name) (some bytes) (length bytes) fs s).0 ≡ ok)
      × ((read_file D
            (some name)
            (some buffer_len)
            (write_file D (some name) (some bytes) (length bytes) fs s).1
            (write_file D (some name) (some bytes) (length bytes) fs s).2).0
          ≡ not_read)
write_unreadable D L fs top s name bytes i entries' buffer_len good ready claimed large small
      short =
    let w =
      write_file-ok D L fs top s name bytes (length bytes) i entries' good ready claimed refl
        small in
    rw w (
      refl,
      read_large D L fs top s name bytes (length bytes) i entries' good ready claimed refl small
          buffer_len short large,
    )
