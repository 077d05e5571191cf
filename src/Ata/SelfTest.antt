-- ===== src/Ata/SelfTest.antt =====
-- `ata_disk_self_test` on a drive that works.
use native.Mathlib.Decide.{ℕ_discrete}
use acharya_os.Base.{
  ℕ, ◌<◌, ◌≡◌, refl, ◌∙◌, arith, true, false, ok, leb, length, is_zero, not, ◌||◌,
}
use acharya_os.Kstring.{memcmp}
use acharya_os.Ata.{Drive, Disk, pattern_bytes, disk_self_test, check_pattern, write_pattern}
use acharya_os.Ata.Lawful.{IsLawful, Good, sector}
use acharya_os.Ata.Single.{
  read_at, stored_at, read-ok, read_at-Good, sector-read_at, write-ok, stays, holds, keeps,
}

length-pattern_bytes : length pattern_bytes ≡ 512
unfolding pattern_bytes
length-pattern_bytes = refl

pattern_same : is_zero (memcmp pattern_bytes pattern_bytes 512) ≡ true
unfolding pattern_bytes memcmp
pattern_same = refl

-- On a drive that works, `ata_disk_self_test` passes, and every sector then holds what it held
-- before.
pub self_test_restores :
    (D : Drive) (L : IsLawful D) (s : Disk D) (lba : ℕ)
    → Good L s
    → 2048 < s.total_sectors
    → ((disk_self_test D s).0 ≡ ok) × (sector L (disk_self_test D s).1 lba ≡ sector L s lba)
unfolding disk_self_test check_pattern write_pattern
self_test_restores D L s lba good big =
    let original = sector L s 2048 in
    let there : 2048 < L.sectors = omega (arith, big, good.1) in
    let s1 = read_at D 2048 s in
    let good1 = read_at-Good D L s good 2048 there in
    let full : length original ≡ 512 = L.sized good.3 2048 in
    let s2 = stored_at D 2048 pattern_bytes s1 in
    let good2 = stays D L s1 good1 2048 there pattern_bytes length-pattern_bytes in
    let s3 = read_at D 2048 s2 in
    let good3 = read_at-Good D L s2 good2 2048 there in
    let size : leb s.total_sectors 2048 ≡ false = ground arith in
    let test : (not s.present || leb s.total_sectors 2048) ≡ false = rw (good.0, size) refl in
    let r = read-ok D L s good 2048 there in
    let w = write-ok D L s1 good1 2048 there pattern_bytes length-pattern_bytes in
    let pattern_there = holds D L s1 good1 2048 there pattern_bytes length-pattern_bytes in
    let v = read-ok D L s2 good2 2048 there in
    let back = write-ok D L s3 good3 2048 there original full in
    rw (r, test, w, v, pattern_there, pattern_same, back)
      (
        refl,
        elim (ℕ_discrete 2048 lba) [
          | yes e ↦ rw (← e) (holds D L s3 good3 2048 there original full)
          | no ne ↦
              keeps D L s3 good3 2048 there original full lba ne
              ∙ sector-read_at D L s2 good2 2048 there lba
              ∙ keeps D L s1 good1 2048 there pattern_bytes length-pattern_bytes lba ne
              ∙ sector-read_at D L s good 2048 there lba
        ],
      )
