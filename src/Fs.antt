-- ===== src/Fs.antt =====
-- fs/fs.c: files stored as contiguous blocks, over the disk driver. The table of files is kept as
-- records; `Table` has its bytes on the disk.
pub mod Table
pub mod Names
pub mod Layout
pub mod Blocks
pub mod Finding
pub mod RoundTrip
pub mod Format
pub mod Bytes
pub mod Remount
mod Tests
use acharya_os.Base.{
  ℕ, zero, suc, ◌+◌, ◌-◌, ◌*◌, ◌/◌, List, [], ◌∷◌, ◌++◌, Bool, true, false, not, ◌&&◌, ◌||◌, Option,
  none, some, Status, ok, fail, ◌==◌, ltb, if◌then◌else◌, u8, u32, get_or, replicate, take, drop,
  find_index, count, length, modify, map, is_ok, maybe, set,
}
use acharya_os.Kstring.{CString, codes, copy_text, memcpy}
use acharya_os.Ata.{Drive, Disk, read_sectors, write_sectors}
use acharya_os.Fs.Table.{
  Superblock, DiskEntry, blank_entry, name_max, files_max, block_size, encode_superblock,
  decode_superblock, encode_table, decode_table,
}

-- `fs_info_t`.
pub record Info : Type 0 where
  pub present : ℕ
  pub mounted : ℕ
  pub total_files : ℕ
  pub used_files : ℕ
  pub data_start_lba : ℕ
  pub volume_label : CString

-- `fs_file_entry_t`.
pub record FileEntry : Type 0 where
  pub name : CString
  pub start_lba : ℕ
  pub size_bytes : ℕ
  pub used : ℕ

-- The static variables.
pub record Fs : Type 0 where
  pub info : Info
  pub cache : List FileEntry
  pub entries : List DiskEntry

abbrev pub magic_value : ℕ
magic_value = 0x53485341

abbrev pub version : ℕ
version = 1

abbrev pub superblock_lba : ℕ
superblock_lba = 4096

abbrev pub table_lba : ℕ
table_lba = 4097

abbrev pub data_lba : ℕ
data_lba = 4098

abbrev pub max_file_bytes : ℕ
max_file_bytes = 256 * 512

abbrev pub no_info : Info
no_info = record {
  present = 0;
  mounted = 0;
  total_files = 0;
  used_files = 0;
  data_start_lba = 0;
  volume_label = replicate 17 0;
}

abbrev pub no_file : FileEntry
no_file = record { name = replicate name_max 0; start_lba = 0; size_bytes = 0; used = 0 }

pub clear_cache : Fs
clear_cache = record {
  info = no_info;
  cache = replicate files_max no_file;
  entries = replicate files_max blank_entry;
}

-- The loop of `fs_name_equals`; `last` is its result after the last round.
unfoldable pub name_loop : ℕ → CString → CString → Bool → Bool
name_loop zero a b last = last
name_loop (suc left) [] [] last = true
name_loop (suc left) [] (y ∷ ys) last = y == 0
name_loop (suc left) (x ∷ xs) [] last = x == 0
name_loop (suc left) (x ∷ xs) (y ∷ ys) last =
    let rest = name_loop left xs ys last in
    if not (x == y) then false else if x == 0 then true else rest

pub name_equals : CString → CString → Bool
name_equals a b = name_loop name_max a b (get_or b (name_max - 1) 0 == 0)

abbrev pub is_used : DiskEntry → Bool
is_used e = not (e.used == 0)

-- One round of `fs_sync_cache`.
abbrev pub cached : DiskEntry → FileEntry
cached e = record {
  name = set (take name_max e.name) (name_max - 1) 0;
  start_lba = e.start_lba;
  size_bytes = e.size_bytes;
  used = e.used;
}

pub sync_cache : Fs → Fs
sync_cache fs = record fs { cache = map cached fs.entries }

pub blocks_for_bytes : ℕ → ℕ
blocks_for_bytes size_bytes = u32 (size_bytes + 511) / block_size

abbrev pub label : CString
label = copy_text (replicate 17 0) 17 (codes "ACHARYAOS_FS")

-- The superblock that `fs_format` writes.
abbrev pub fresh_superblock : Superblock
fresh_superblock = record {
  magic = magic_value;
  version = version;
  volume_label = label;
  total_files = files_max;
  data_start_lba = data_lba;
}

abbrev pub count_used : List DiskEntry → ℕ
count_used entries = count is_used entries

-- volume_label[16] = '\0' behind the first 16 characters.
abbrev pub info_label : CString → CString
info_label l = take 16 l ++ (0 ∷ [])

-- The information on a mounted volume.
abbrev pub mounted_info : Superblock → ℕ → Info
mounted_info sb used = record {
  present = 1;
  mounted = 1;
  total_files = sb.total_files;
  used_files = used;
  data_start_lba = sb.data_start_lba;
  volume_label = info_label sb.volume_label;
}

pub find_entry : CString → List DiskEntry → Option ℕ
find_entry name entries = find_index (λ e. is_used e && name_equals e.name name) entries

pub find_free_entry : List DiskEntry → Option ℕ
find_free_entry entries = find_index (λ e. not (is_used e)) entries

-- The first block behind an entry's.
abbrev pub end_lba : DiskEntry → ℕ
end_lba e = u32 (e.start_lba + blocks_for_bytes e.size_bytes)

-- The loop of `fs_next_free_lba`.
pub next_from : ℕ → List DiskEntry → ℕ
next_from next [] = next
next_from next (e ∷ es) =
    let later = next_from (end_lba e) es in
    let same = next_from next es in
    if not (is_used e) then same else if ltb next (end_lba e) then later else same

pub next_free_lba : Fs → ℕ
next_free_lba fs = next_from fs.info.data_start_lba fs.entries

abbrev pub entry_at : List DiskEntry → ℕ → DiskEntry
entry_at entries i = get_or entries i blank_entry

-- Where the file goes: its own entry, or the first free one under the name.
pub claim : CString → List DiskEntry → Option (ℕ × List DiskEntry)
claim name entries =
    maybe (find_entry name entries)
      (maybe (find_free_entry entries) none λ i.
        some
          (i, modify i (λ e. record e { name = copy_text e.name name_max name; used = 1 }) entries))
      λ i. some (i, entries)

-- What block `i` of the file is written as: the rest of the sector is 0.
pub block_bytes : List ℕ → ℕ → ℕ → List ℕ
block_bytes bytes size i =
    let chunk = if ltb size ((i + 1) * block_size) then size - i * block_size else block_size in
    memcpy (replicate block_size 0) (drop (i * block_size) bytes) chunk

-- What `fs_read_file` ends with: -1; whole blocks that went past the end of the buffer, after which the
-- memory of the kernel is no longer what it should be; or 0, with the bytes put into the buffer and
-- the size.
pub data ReadResult : Type 0 where
  not_read past_buffer : ReadResult
  loaded : List ℕ → ℕ → ReadResult

abbrev pub list_files : ℕ → List DiskEntry → List FileEntry → List FileEntry
list_files zero es cs = []
list_files (suc room) [] cs = []
list_files (suc room) (e ∷ es) [] = []
list_files (suc room) (e ∷ es) (c ∷ cs) = elim (is_used e) [
  | true ↦ c ∷ list_files room es cs
  | false ↦ list_files (suc room) es cs
]

module _ (D : Drive) where
  pub load_superblock : Disk D → Option Superblock × Disk D
  load_superblock s =
      let (read, s') = read_sectors D superblock_lba 1 s in
      (maybe read none λ b. some (decode_superblock b), s')

  -- One sector is read over the start of the table; what lies behind it stays.
  pub load_table : List DiskEntry → Disk D → Option (List DiskEntry) × Disk D
  load_table entries s =
      let (read, s') = read_sectors D table_lba 1 s in
      (
        maybe read none
            λ b. some (decode_table files_max (take 512 b ++ drop 512 (encode_table entries))),
        s',
      )

  pub store_superblock : Superblock → Disk D → Status × Disk D
  store_superblock sb s = write_sectors D superblock_lba 1 (take 512 (encode_superblock sb)) s

  -- One sector is written: the first 512 bytes of the table.
  pub store_table : List DiskEntry → Disk D → Status × Disk D
  store_table entries s = write_sectors D table_lba 1 (take 512 (encode_table entries)) s

  pub format : Fs → Disk D → Status × Fs × Disk D
  format fs s =
      let entries = replicate files_max blank_entry in
      let (stored, s') = store_superblock fresh_superblock s in
      let (written, s'') = store_table entries s' in
      if not (is_ok stored)
      then (fail, record fs { entries = entries }, s')
      else if not (is_ok written)
      then (fail, record fs { entries = entries }, s'')
      else (
        ok,
        sync_cache (record fs { info = mounted_info fresh_superblock 0; entries = entries }),
        s'',
      )

  -- The end of `fs_init`, on a superblock that is right.
  pub mount : Superblock → Disk D → Fs × Disk D
  mount sb s =
      let (read, s') = load_table clear_cache.entries s in
      (
        maybe read clear_cache λ entries. sync_cache (record {
          info = mounted_info sb (count_used entries);
          cache = clear_cache.cache;
          entries = entries;
        }),
        s',
      )

  abbrev pub is_right : Superblock → Bool
  is_right sb = sb.magic == magic_value && sb.version == version

  pub init : Disk D → Fs × Disk D
  init s =
      let (read, s1) = load_superblock s in
      let (done, fs, s2) = format clear_cache s1 in
      if not s.present
      then (clear_cache, s)
      else maybe read (fs, s2) λ sb. if is_right sb then mount sb s1 else (fs, s2)

  -- What the drive gave for the file, in a buffer of `buffer_len` bytes.
  abbrev pub read_into : ℕ → ℕ → Option (List ℕ) → ReadResult
  read_into buffer_len size none = not_read
  read_into buffer_len size (some bytes) =
      if ltb buffer_len (length bytes) then past_buffer else loaded bytes size

  -- The buffer, if there is one, is given by its length.
  pub read_file : Option CString → Option ℕ → Fs → Disk D → ReadResult × Disk D
  read_file none buffer_len fs s = (not_read, s)
  read_file (some name) none fs s = (not_read, s)
  read_file (some name) (some buffer_len) fs s =
      if fs.info.mounted == 0
      then (not_read, s)
      else maybe (find_entry name fs.entries) (not_read, s)
          λ i.
            let e = entry_at fs.entries i in
            let blocks = blocks_for_bytes e.size_bytes in
            let (read, s') = read_sectors D e.start_lba (u8 blocks) s in
            if ltb buffer_len e.size_bytes
            then (not_read, s)
            else if blocks == 0
            then (loaded [] 0, s)
            else (read_into buffer_len e.size_bytes read, s')

  -- The rounds of the loop of `fs_write_file` from block `i` on, with `left` to go.
  pub write_blocks : ℕ → ℕ → ℕ → List ℕ → ℕ → Disk D → Status × Disk D
  write_blocks zero i start_lba bytes size s = (ok, s)
  write_blocks (suc left) i start_lba bytes size s =
      let (written, s') = write_sectors D (u32 (start_lba + i)) 1 (block_bytes bytes size i) s in
      let rest = write_blocks left (i + 1) start_lba bytes size s' in
      if not (is_ok written) then (fail, s') else rest

  -- From the claimed entry on.
  pub write_entry : List ℕ → ℕ → ℕ × List DiskEntry → Fs → Disk D → Status × Fs × Disk D
  write_entry bytes size (i, entries) fs s =
      let start_lba = next_free_lba (record fs { entries = entries }) in
      let fs1 = record fs {
        entries = modify i (λ e. record e { start_lba = start_lba; size_bytes = u32 size }) entries;
      } in
      let (written, s1) = write_blocks (blocks_for_bytes (u32 size)) 0 start_lba bytes size s in
      let (stored, s2) = store_table fs1.entries s1 in
      if not (is_ok written)
      then (fail, fs1, s1)
      else if not (is_ok stored)
      then (fail, fs1, s2)
      else (
        ok,
        sync_cache
            (record fs1 { info = record (fs1.info) { used_files = count_used fs1.entries } }),
        s2,
      )

  pub write_file : Option CString → Option (List ℕ) → ℕ → Fs → Disk D → Status × Fs × Disk D
  write_file none source size fs s = (fail, fs, s)
  write_file (some name) none size fs s = (fail, fs, s)
  write_file (some name) (some bytes) size fs s =
      if fs.info.mounted == 0 || ltb max_file_bytes size
      then (fail, fs, s)
      else maybe (claim name fs.entries) (fail, fs, s) λ c. write_entry bytes size c fs s

  pub delete_file : CString → Fs → Disk D → Status × Fs × Disk D
  delete_file name fs s =
      maybe (find_entry name fs.entries) (fail, fs, s)
        λ i.
          let fs1 = record fs { entries = modify i (λ e. blank_entry) fs.entries } in
          let (stored, s1) = store_table fs1.entries s in
          if not (is_ok stored) then (fail, fs1, s1) else (
            ok,
            sync_cache
                (record fs1 { info = record (fs1.info) { used_files = fs1.info.used_files - 1 } }),
            s1,
          )

  -- A check that passes has read the table again.
  pub fsck : Fs → Disk D → Status × Fs × Disk D
  fsck fs s =
      let (read, s1) = load_superblock s in
      let (table, s2) = load_table fs.entries s1 in
      maybe read (fail, fs, s1)
        λ sb.
          if not (is_right sb)
          then (fail, fs, s1)
          else maybe table (fail, fs, s2) λ entries. (ok, record fs { entries = entries }, s2)
