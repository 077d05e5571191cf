-- ===== src/Fs/Tests.antt =====
-- A empty_disk of empty sectors that was formatted, and files of different sizes.
use acharya_os.Base.{
  ℕ, zero, suc, drop, ◌≤◌, ◌≡◌, refl, arith, List, [], ◌∷◌, some, length, length-replicate,
  replicate, take, ok, modify,
}
use acharya_os.Kstring.{CString, codes, text}
use acharya_os.Ata.Memory.{
  memory_drive, memory_drive-IsLawful, empty_disk, empty_disk-Good, big_disk,
}
use acharya_os.Fs.Table.{DiskEntry, blank_entry}
use acharya_os.Fs.{
  Fs, not_read, past_buffer, loaded, store_table, load_table, clear_cache, claim, find_entry,
  find_free_entry, format, entry_at, read_file, write_file, sync_cache,
}
use acharya_os.Fs.Layout.{IsLaid, renamed}
use acharya_os.Fs.RoundTrip.{IsReady, write_read, write_file-IsLaid, write_unreadable}
use acharya_os.Fs.Bytes.{IsEntry, AreEntries}
use acharya_os.Fs.Remount.{store_load}
use acharya_os.Fs.Format.{formatted, formatted-IsReady, IsFresh, format-IsReady}
use acharya_os.Ata.Lawful.{Good}

abbrev volume : Fs
volume = formatted clear_cache

abbrev file : CString
file = codes "a.txt"

abbrev file_table : List DiskEntry
file_table = modify 0 (renamed file) volume.entries

file_claimed : claim file volume.entries ≡ some (0, file_table)
unfolding claim find_entry find_free_entry sync_cache
file_claimed = refl

short_name : length (text file) ≤ 15
short_name = omega arith

abbrev long_file : List ℕ
long_file = replicate 131000 7

format-IsReady_example :
    ((format memory_drive clear_cache empty_disk).0 ≡ ok)
    × Good memory_drive-IsLawful (format memory_drive clear_cache empty_disk).2
    × IsReady memory_drive-IsLawful (format memory_drive clear_cache empty_disk).1 4098
    × IsFresh memory_drive-IsLawful empty_disk (format memory_drive clear_cache empty_disk).2
    × ((i : ℕ) → entry_at (format memory_drive clear_cache empty_disk).1.entries i ≡ blank_entry)
format-IsReady_example =
    format-IsReady memory_drive memory_drive-IsLawful clear_cache empty_disk empty_disk-Good
      big_disk

abbrev hello : List ℕ
hello = 72 ∷ 105 ∷ []

write_read_example :
    ((write_file memory_drive (some file) (some hello) 2 volume empty_disk).0 ≡ ok)
    × (stored : List ℕ) × ((read_file memory_drive
          (some file)
          (some 1024)
          (write_file memory_drive (some file) (some hello) 2 volume empty_disk).1
          (write_file memory_drive (some file) (some hello) 2 volume empty_disk).2).0
        ≡ loaded stored 2)
    × (length stored ≡ 512)
    × (take 2 stored ≡ hello)
write_read_example =
    write_read memory_drive memory_drive-IsLawful volume 4098 empty_disk file hello 0 file_table
      1024 empty_disk-Good (formatted-IsReady memory_drive-IsLawful clear_cache big_disk)
      file_claimed (omega arith) (omega arith) short_name (omega arith)

-- A buffer of the size of the file.
read_past_buffer :
    ((write_file memory_drive (some file) (some hello) 2 volume empty_disk).0 ≡ ok)
    × (stored : List ℕ) × ((read_file memory_drive
          (some file)
          (some 2)
          (write_file memory_drive (some file) (some hello) 2 volume empty_disk).1
          (write_file memory_drive (some file) (some hello) 2 volume empty_disk).2).0
        ≡ past_buffer)
    × (length stored ≡ 512)
    × (take 2 stored ≡ hello)
read_past_buffer =
    write_read memory_drive memory_drive-IsLawful volume 4098 empty_disk file hello 0 file_table 2
      empty_disk-Good (formatted-IsReady memory_drive-IsLawful clear_cache big_disk) file_claimed
      (omega arith) (omega arith) short_name (omega arith)

write_file-IsLaid_example :
    ((write_file memory_drive (some file) (some hello) 2 volume empty_disk).0 ≡ ok)
    × IsLaid volume.info.data_start_lba 4354
        (write_file memory_drive (some file) (some hello) 2 volume empty_disk).1.entries
write_file-IsLaid_example =
    write_file-IsLaid memory_drive memory_drive-IsLawful volume 4098 empty_disk file hello 0
      file_table empty_disk-Good (formatted-IsReady memory_drive-IsLawful clear_cache big_disk)
      file_claimed (omega arith)

write_unreadable_example :
    ((write_file memory_drive (some file) (some long_file) (length long_file) volume empty_disk).0
      ≡ ok)
    × ((read_file memory_drive
          (some file)
          (some 140000)
          (write_file memory_drive
            (some file)
            (some long_file)
            (length long_file)
            volume
            empty_disk).1
          (write_file memory_drive
            (some file)
            (some long_file)
            (length long_file)
            volume
            empty_disk).2).0
        ≡ not_read)
write_unreadable_example =
    write_unreadable memory_drive memory_drive-IsLawful volume 4098 empty_disk file long_file 0
      file_table 140000 empty_disk-Good
      (formatted-IsReady memory_drive-IsLawful clear_cache big_disk) file_claimed
      (omega (arith, length-replicate {A = ℕ} 131000 7))
      (omega (arith, length-replicate {A = ℕ} 131000 7)) short_name

-- An entry that is in use.
abbrev full_entry : DiskEntry
full_entry = record blank_entry { start_lba = 4098; size_bytes = 1; used = 1 }

replicate-AreEntries : (n : ℕ) (e : DiskEntry) → IsEntry e → AreEntries (replicate n e)
replicate-AreEntries zero e h = tt
replicate-AreEntries (suc n) e h = (h, replicate-AreEntries n e h)

full_entry-IsEntry : IsEntry full_entry
full_entry-IsEntry = record {
  shape = record { name_size = refl; reserved_size = refl };
  start_small = omega arith;
  size_small = omega arith;
  used_small = omega arith;
}

blank-IsEntry : IsEntry blank_entry
blank-IsEntry = record {
  shape = record { name_size = refl; reserved_size = refl };
  start_small = omega arith;
  size_small = omega arith;
  used_small = omega arith;
}

-- A full table is stored, and loaded when the volume is mounted again.
store_load_example :
    ((store_table memory_drive (replicate 32 full_entry) empty_disk).0 ≡ ok)
    × (table : List DiskEntry) × ((load_table memory_drive
          (replicate 32 blank_entry)
          (store_table memory_drive (replicate 32 full_entry) empty_disk).1).0
        ≡ some table)
    × (take 14 table ≡ replicate 14 full_entry)
    × (drop 15 table ≡ replicate 17 blank_entry)
store_load_example =
    store_load memory_drive memory_drive-IsLawful empty_disk (replicate 32 full_entry)
      (replicate 32 blank_entry) empty_disk-Good big_disk
      (replicate-AreEntries 32 full_entry full_entry-IsEntry)
      (replicate-AreEntries 32 blank_entry blank-IsEntry) refl refl
