-- ===== src/Ata/Tests.antt =====
-- A drive of empty sectors.
use acharya_os.Base.{◌≡◌, arith, ok}
use acharya_os.Ata.{disk_self_test}
use acharya_os.Ata.Lawful.{sector}
use acharya_os.Ata.SelfTest.{self_test_restores}
use acharya_os.Ata.Memory.{memory_drive, memory_drive-IsLawful, empty_disk, empty_disk-Good}

self_test_restores_example :
    ((disk_self_test memory_drive empty_disk).0 ≡ ok)
    × (sector memory_drive-IsLawful (disk_self_test memory_drive empty_disk).1 2048
        ≡ sector memory_drive-IsLawful empty_disk 2048)
self_test_restores_example =
    self_test_restores memory_drive memory_drive-IsLawful empty_disk 2048 empty_disk-Good
      (omega arith)
