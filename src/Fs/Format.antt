-- ===== src/Fs/Format.antt =====
-- A volume after `fs_format`: a file can be written to it.
use acharya_os.Base.{
  ℕ, some, modify, zero, suc, ◌≤◌, ◌≡◌, ◌≢◌, refl, sym, drop, ap, ◌∙◌, arith, List, ◌++◌, replicate,
  length, length-replicate, length-append, length-take, take, ok,
}
use acharya_os.Kstring.{CString, codes, text, copy_text, copy_loop}
use acharya_os.Kstring.Laws.{length-copy_text}
use acharya_os.Ata.{Drive, Disk}
use acharya_os.Ata.Lawful.{IsLawful, Good, sector}
use acharya_os.Ata.Single.{stored_at, write-ok, stays, holds, keeps}
use acharya_os.Fs.Table.{
  DiskEntry, blank_entry, encode_superblock, encode_table, word_bytes, word_at,
}
use acharya_os.Fs.{
  Fs, entry_at, is_used, format, fresh_superblock, label, mounted_info, store_superblock,
  store_table, sync_cache, claim, find_entry, find_free_entry,
}
use acharya_os.Fs.Layout.{IsLaid, renamed}
use acharya_os.Fs.Finding.{AreShaped, IsShaped, length-encode_table}
use acharya_os.Fs.RoundTrip.{IsReady}

abbrev blanks : List DiskEntry
blanks = replicate 32 blank_entry

blank_at : (n i : ℕ) → entry_at (replicate n blank_entry) i ≡ blank_entry
blank_at zero i = refl
blank_at (suc n) zero = refl
blank_at (suc n) (suc i) = blank_at n i

blank-IsShaped : IsShaped blank_entry
blank-IsShaped = record { name_size = refl; reserved_size = refl }

blanks-AreShaped : AreShaped blanks
blanks-AreShaped i = rw (blank_at 32 i) blank-IsShaped

blanks-IsLaid : IsLaid 4098 4098 blanks
blanks-IsLaid = record {
  slots = refl;
  file = λ i u. let t = ap is_used (blank_at 32 i) in cc;
  spare = λ i.
      rw (blank_at 32 i)
        (record { size_small = omega arith; above = omega arith; below = omega arith });
  apart = λ i j u w ne. let t = ap is_used (blank_at 32 i) in cc;
}

-- What the volume is after `fs_format`.
abbrev pub formatted : Fs → Fs
formatted fs = sync_cache (record fs { info = mounted_info fresh_superblock 0; entries = blanks })

pub formatted-IsReady :
    {D : Drive} (L : IsLawful D) (fs : Fs) → 4354 ≤ L.sectors → IsReady L (formatted fs) 4098
unfolding sync_cache
formatted-IsReady L fs big = record {
  mounted = omega arith;
  laid = blanks-IsLaid;
  shaped = blanks-AreShaped;
  behind_table = (omega arith, omega arith);
  room = omega arith;
}

-- Any name gets the first entry.
pub blank_claim :
    (fs : Fs) (name : CString)
    → claim name (formatted fs).entries ≡ some (0, modify 0 (renamed name) (formatted fs).entries)
unfolding claim find_entry find_free_entry sync_cache
blank_claim fs name = refl

length-label : length label ≡ 17
length-label =
    length-copy_text (replicate 17 0) 17 (codes "ACHARYAOS_FS") ∙ length-replicate {A = ℕ} 17 0

superblock_size : length (take 512 (encode_superblock fresh_superblock)) ≡ 512
superblock_size = omega (
  arith,
  length-take 512 (encode_superblock fresh_superblock),
  length-append label (word_bytes 32 ++ (word_bytes 4098 ++ replicate 488 0)),
  length-label,
  length-append (word_bytes 32) (word_bytes 4098 ++ replicate 488 0),
  length-append (word_bytes 4098) (replicate 488 0),
  length-replicate {A = ℕ} 488 0,
)

blanks_size : length (take 512 (encode_table blanks)) ≡ 512
blanks_size =
    omega
      (arith, length-take 512 (encode_table blanks), length-encode_table blanks blanks-AreShaped)

module _ (D : Drive) (L : IsLawful D) (fs : Fs) (s : Disk D) (good : Good L s)
    (big : 4354 ≤ L.sectors) where
  abbrev superblock_bytes : List ℕ
  superblock_bytes = take 512 (encode_superblock fresh_superblock)

  abbrev labelled : Disk D
  labelled = stored_at D 4096 superblock_bytes s

  abbrev wiped : Disk D
  wiped = stored_at D 4097 (take 512 (encode_table blanks)) labelled

  labelled-Good : Good L labelled
  labelled-Good = stays D L s good 4096 (omega arith) superblock_bytes superblock_size

  superblock_stored : store_superblock D fresh_superblock s ≡ (ok, labelled)
  unfolding store_superblock
  superblock_stored = write-ok D L s good 4096 (omega arith) superblock_bytes superblock_size

  blanks_stored : store_table D blanks labelled ≡ (ok, wiped)
  unfolding store_table
  blanks_stored =
      write-ok D L labelled labelled-Good 4097 (omega arith) (take 512 (encode_table blanks))
        blanks_size

  format-ok : format D fs s ≡ (ok, formatted fs, wiped)
  unfolding format
  format-ok = rw (superblock_stored, blanks_stored) refl

  wiped-Good : Good L wiped
  wiped-Good =
      stays D L labelled labelled-Good 4097 (omega arith) (take 512 (encode_table blanks))
        blanks_size

-- What a freshly formatted drive holds: the superblock, with the magic number, the version, the label,
-- the number of files and the first block for them; a sector of zeros for the table; and else what
-- it held.
pub record IsFresh {D : Drive} (L : IsLawful D) (before now : Disk D) : Type 0 where
  magic : word_at (sector L now 4096) 0 ≡ 0x53485341
  version : word_at (sector L now 4096) 4 ≡ 1
  name : text (take 17 (drop 8 (sector L now 4096))) ≡ codes "ACHARYAOS_FS"
  files : word_at (sector L now 4096) 25 ≡ 32
  first_block : word_at (sector L now 4096) 29 ≡ 4098
  table : sector L now 4097 ≡ replicate 512 0
  others : (lba : ℕ) → lba ≢ 4096 → lba ≢ 4097 → sector L now lba ≡ sector L before lba

superblock_says :
    (word_at (take 512 (encode_superblock fresh_superblock)) 0 ≡ 0x53485341)
    × (word_at (take 512 (encode_superblock fresh_superblock)) 4 ≡ 1)
    × (text (take 17 (drop 8 (take 512 (encode_superblock fresh_superblock))))
        ≡ codes "ACHARYAOS_FS")
    × (word_at (take 512 (encode_superblock fresh_superblock)) 25 ≡ 32)
    × (word_at (take 512 (encode_superblock fresh_superblock)) 29 ≡ 4098)
unfolding copy_text copy_loop
superblock_says = (refl, refl, refl, refl, refl)

blanks_zero : take 512 (encode_table blanks) ≡ replicate 512 0
blanks_zero = refl

wiped-IsFresh :
    (D : Drive) (L : IsLawful D) (fs : Fs) (s : Disk D) (good : Good L s) (big : 4354 ≤ L.sectors)
    → IsFresh L s (wiped D L fs s good big)
wiped-IsFresh D L fs s good big =
    let after = labelled-Good D L fs s good big in
    let superblock =
      keeps D L (labelled D L fs s good big) after 4097 (omega arith)
        (take 512 (encode_table blanks)) blanks_size 4096 (λ e. omega (arith, e))
      ∙ holds D L s good 4096 (omega arith) (take 512 (encode_superblock fresh_superblock))
          superblock_size in
    let says = superblock_says in
    record {
      magic = rw superblock says.0;
      version = rw superblock says.1;
      name = rw superblock says.2;
      files = rw superblock says.3;
      first_block = rw superblock says.4;
      table =
          holds D L (labelled D L fs s good big) after 4097 (omega arith)
            (take 512 (encode_table blanks)) blanks_size
          ∙ blanks_zero;
      others = λ lba no_superblock no_table.
          keeps D L (labelled D L fs s good big) after 4097 (omega arith)
            (take 512 (encode_table blanks)) blanks_size lba (λ e. no_table (sym e))
          ∙ keeps D L s good 4096 (omega arith) (take 512 (encode_superblock fresh_superblock))
              superblock_size lba (λ e. no_superblock (sym e));
    }

-- On a drive that works and has 4354 sectors or more, `fs_format` succeeds, and the drive still works.
-- It then holds a superblock with the magic number, the version, the label, 32 files and the first
-- block 4098, a sector of zeros for the table, and else what it held. The volume is mounted, with all
-- entries blank, ready for a file to be written to it.
pub format-IsReady :
    (D : Drive) (L : IsLawful D) (fs : Fs) (s : Disk D)
    → Good L s
    → 4354 ≤ L.sectors
    → ((format D fs s).0 ≡ ok)
      × Good L (format D fs s).2
      × IsReady L (format D fs s).1 4098
      × IsFresh L s (format D fs s).2
      × ((i : ℕ) → entry_at (format D fs s).1.entries i ≡ blank_entry)
unfolding sync_cache
format-IsReady D L fs s good big = rw (format-ok D L fs s good big) (
  refl,
  wiped-Good D L fs s good big,
  formatted-IsReady L fs big,
  wiped-IsFresh D L fs s good big,
  blank_at 32,
)
