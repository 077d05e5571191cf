-- ===== src/Fs/Table.antt =====
-- The bytes of the superblock and of the file table on the disk: packed structures, numbers with
-- the low byte first.
use acharya_os.Base.{
  ℕ, zero, suc, ◌+◌, ◌*◌, ◌/◌, ◌^◌, List, [], ◌∷◌, ◌++◌, u8, get_or, replicate, take, drop,
}
use acharya_os.Kstring.{CString}

abbrev pub name_max : ℕ
name_max = 16

abbrev pub files_max : ℕ
files_max = 32

abbrev pub block_size : ℕ
block_size = 512

-- `fs_superblock_t`, without the reserved words, which are 0.
pub record Superblock : Type 0 where
  pub magic : ℕ
  pub version : ℕ
  pub volume_label : CString
  pub total_files : ℕ
  pub data_start_lba : ℕ

-- `fs_disk_entry_t`.
pub record DiskEntry : Type 0 where
  pub name : CString
  pub start_lba : ℕ
  pub size_bytes : ℕ
  pub used : ℕ
  pub reserved : List ℕ

abbrev pub blank_entry : DiskEntry
blank_entry = record {
  name = replicate name_max 0;
  start_lba = 0;
  size_bytes = 0;
  used = 0;
  reserved = replicate 11 0;
}

abbrev pub word_bytes : ℕ → List ℕ
word_bytes n = u8 n ∷ u8 (n / 2 ^ 8) ∷ u8 (n / 2 ^ 16) ∷ u8 (n / 2 ^ 24) ∷ []

abbrev pub word_at : List ℕ → ℕ → ℕ
word_at bytes i =
    get_or bytes i 0
    + get_or bytes (i + 1) 0 * 2 ^ 8
    + get_or bytes (i + 2) 0 * 2 ^ 16
    + get_or bytes (i + 3) 0 * 2 ^ 24

abbrev pub encode_superblock : Superblock → List ℕ
encode_superblock sb =
    word_bytes sb.magic
    ++ (word_bytes sb.version
        ++ (sb.volume_label
            ++ (word_bytes sb.total_files ++ (word_bytes sb.data_start_lba ++ replicate 488 0))))

abbrev pub decode_superblock : List ℕ → Superblock
decode_superblock bytes = record {
  magic = word_at bytes 0;
  version = word_at bytes 4;
  volume_label = take 17 (drop 8 bytes);
  total_files = word_at bytes 25;
  data_start_lba = word_at bytes 29;
}

abbrev pub encode_entry : DiskEntry → List ℕ
encode_entry e =
    e.name ++ (word_bytes e.start_lba ++ (word_bytes e.size_bytes ++ (u8 e.used ∷ e.reserved)))

-- An entry from its 36 bytes.
abbrev pub decode_entry : List ℕ → DiskEntry
decode_entry bytes = record {
  name = take name_max bytes;
  start_lba = word_at bytes 16;
  size_bytes = word_at bytes 20;
  used = get_or bytes 24 0;
  reserved = take 11 (drop 25 bytes);
}

abbrev pub encode_table : List DiskEntry → List ℕ
encode_table [] = []
encode_table (e ∷ es) = encode_entry e ++ encode_table es

abbrev pub decode_table : ℕ → List ℕ → List DiskEntry
decode_table zero bytes = []
decode_table (suc n) bytes = decode_entry bytes ∷ decode_table n (drop 36 bytes)
