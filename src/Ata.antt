-- ===== src/Ata.antt =====
-- drivers/disk/ata.c: the driver down to its accesses to the ports, which are a parameter, with the
-- drive behind them. All callers pass a buffer; the test for a null one is left out.
pub mod Lawful
pub mod Single
pub mod SelfTest
pub mod Memory
mod Tests
use acharya_os.Base.{
  ℕ, zero, suc, ◌+◌, ◌*◌, ◌/◌, ◌^◌, List, [], ◌∷◌, Bool, true, false, not, ◌||◌, Option, none, some,
  Status, ok, fail, ◌==◌, leb, ltb, if◌then◌else◌, u8, bit_xor, bit_and, bit_or, is_ok, is_zero,
  map,
}
use acharya_os.Kstring.{memcmp}

abbrev pub sector_size : ℕ
sector_size = 512

-- ATA_LBA28_MASK
abbrev pub lba28_mask : ℕ
lba28_mask = 0x0FFFFFFF

-- ATA_STATUS_PORT, which is also ATA_COMMAND_PORT
abbrev pub status_port : ℕ
status_port = 0x1F7

abbrev pub timeout : ℕ
timeout = 100000

-- The ports: `insw` reads words as the bytes that they put into the buffer, `outsw` writes the words
-- that the bytes of a buffer make. What is behind the ports changes with each access.
pub record Drive : Type 1 where
  pub State : Type 0
  pub inb : ℕ → State → ℕ × State
  pub outb : ℕ → ℕ → State → State
  pub insw : ℕ → ℕ → State → List ℕ × State
  pub outsw : ℕ → ℕ → List ℕ → State → State

-- `ata_info`, less what the driver does not read, and the ports.
pub record Disk (D : Drive) : Type 0 where
  pub present : Bool
  pub total_sectors : ℕ
  pub ports : D.State

-- ATA_STATUS_ERR | ATA_STATUS_DF
abbrev pub has_error : ℕ → Bool
has_error status = not (bit_and status 0x21 == 0)

abbrev pub is_busy : ℕ → Bool
is_busy status = not (bit_and status 0x80 == 0)

abbrev pub has_data : ℕ → Bool
has_data status = not (bit_and status 0x08 == 0)

-- 0, 1, ..., 511
abbrev upto : ℕ → ℕ → List ℕ
upto i zero = []
upto i (suc n) = i ∷ upto (i + 1) n

-- The self test's pattern.
pub pattern_bytes : List ℕ
pattern_bytes = map (λ i. u8 (bit_xor 0xA5 (u8 i))) (upto 0 sector_size)

module _ (D : Drive) where
  abbrev pub io_wait : D.State → D.State
  io_wait p = D.outb 0x80 0 p

  unfoldable pub wait_not_busy : ℕ → D.State → Status × D.State
  wait_not_busy zero p = (fail, p)
  wait_not_busy (suc left) p =
      let (status, p') = D.inb status_port p in
      let rest = wait_not_busy left (io_wait p') in
      if not (is_busy status) then (if has_error status then fail else ok, p') else rest

  unfoldable pub wait_drq : ℕ → D.State → Status × D.State
  wait_drq zero p = (fail, p)
  wait_drq (suc left) p =
      let (status, p') = D.inb status_port p in
      let rest = wait_drq left (io_wait p') in
      if has_error status then (fail, p') else if has_data status then (ok, p') else rest

  -- What is written to the port of the drive and head, with the top 4 bits of the address.
  abbrev pub drive_head : ℕ → ℕ
  drive_head lba = u8 (bit_or 0xE0 (bit_and (lba / 2 ^ 24) 0x0F))

  -- The ports before the command is written.
  abbrev pub set_registers : ℕ → ℕ → D.State → D.State
  set_registers lba count p =
      let p1 = D.outb 0x1F6 (drive_head lba) p in
      let p2 = D.outb 0x1F2 count p1 in
      let p3 = D.outb 0x1F3 (u8 lba) p2 in
      let p4 = D.outb 0x1F4 (u8 (lba / 2 ^ 8)) p3 in D.outb 0x1F5 (u8 (lba / 2 ^ 16)) p4

  pub select_lba : ℕ → ℕ → ℕ → D.State → D.State
  select_lba lba count command p = D.outb status_port command (set_registers lba count p)

  -- The bytes stored into the buffer; `none` is the result -1. There is one wait for data, for all
  -- of the sectors.
  pub read_sectors : ℕ → ℕ → Disk D → Option (List ℕ) × Disk D
  read_sectors lba count s =
      let (free, p) = wait_not_busy timeout s.ports in
      let (offered, p') = wait_drq timeout (select_lba lba count 0x20 p) in
      let (bytes, p'') = D.insw 0x1F0 (count * 256) p' in
      if not s.present || count == 0
      then (none, s)
      else if ltb lba28_mask lba
      then (none, s)
      else if not (is_ok free)
      then (none, record s { ports = p })
      else if not (is_ok offered)
      then (none, record s { ports = p' })
      else (some bytes, record s { ports = p'' })

  pub write_sectors : ℕ → ℕ → List ℕ → Disk D → Status × Disk D
  write_sectors lba count bytes s =
      let (free, p) = wait_not_busy timeout s.ports in
      let (asked, p') = wait_drq timeout (select_lba lba count 0x30 p) in
      let (flushed, p'') =
        wait_not_busy timeout (D.outb status_port 0xE7 (D.outsw 0x1F0 (count * 256) bytes p')) in
      if not s.present || count == 0
      then (fail, s)
      else if ltb lba28_mask lba
      then (fail, s)
      else if not (is_ok free)
      then (fail, record s { ports = p })
      else if not (is_ok asked)
      then (fail, record s { ports = p' })
      else (flushed, record s { ports = p'' })

  -- The part of the self test after the pattern was written.
  pub check_pattern : List ℕ → Option (List ℕ) → Disk D → Status × Disk D
  check_pattern original none s = (fail, (write_sectors 2048 1 original s).1)
  check_pattern original (some verify) s =
      if not (is_zero (memcmp pattern_bytes verify sector_size))
      then (fail, (write_sectors 2048 1 original s).1)
      else write_sectors 2048 1 original s

  -- The part after the sector was read.
  pub write_pattern : Option (List ℕ) → Disk D → Status × Disk D
  write_pattern none s = (fail, s)
  write_pattern (some original) s =
      let (written, s') = write_sectors 2048 1 pattern_bytes s in
      let (verify, s'') = read_sectors 2048 1 s' in
      if not (is_ok written) then (fail, s') else check_pattern original verify s''

  pub disk_self_test : Disk D → Status × Disk D
  disk_self_test s =
      let (original, s') = read_sectors 2048 1 s in
      if not s.present || leb s.total_sectors 2048 then (fail, s) else write_pattern original s'
