-- ===== src/Ata/Lawful.antt =====
-- A drive that works, seen from the ports: registers, status, and the transfer of one sector, as an ATA
-- drive does it, and the waits of the driver.
use acharya_os.Base.{
  ℕ, zero, suc, ◌+◌, ◌*◌, ◌/◌, ◌%◌, ◌^◌, ◌≤◌, ◌<◌, ◌≡◌, ◌≢◌, refl, arith, List, Bool, true, false,
  not, ◌&&◌, ok, ◌==◌, if◌then◌else◌, length,
}
use acharya_os.Ata.{
  Drive, Disk, status_port, has_error, is_busy, has_data, io_wait, wait_not_busy, wait_drq,
}

-- What was last written to each port of the drive.
abbrev pub Registers : Type 0
Registers = ℕ → ℕ

abbrev pub written : ℕ → ℕ → Registers → Registers
written port value regs p = if p == port then value else regs p

-- The sector that the registers name, of 28 bits.
abbrev pub address : Registers → ℕ
address regs = regs 0x1F3 + regs 0x1F4 * 2 ^ 8 + regs 0x1F5 * 2 ^ 16 + (regs 0x1F6 % 2 ^ 4) * 2 ^ 24

-- One sector, by its number, of the first drive.
abbrev pub IsSingle : Registers → Type 0
IsSingle regs = (regs 0x1F2 ≡ 1) × (regs 0x1F6 / 2 ^ 4 ≡ 0xE)

-- No longer busy, and no error.
abbrev pub is_free : ℕ → Bool
is_free status = not (is_busy status) && not (has_error status)

-- Data, and no error.
abbrev pub offers : ℕ → Bool
offers status = not (has_error status) && has_data status

-- Neither data nor an error.
abbrev pub is_late : ℕ → Bool
is_late status = not (has_error status) && not (has_data status)

module _ (D : Drive) where
  -- After `n` times that the status is to be waited for, it is the right one.
  abbrev pub After : (ℕ → Bool) → (ℕ → Bool) → (D.State → Type 0) → ℕ → D.State → Type 0
  After wait right P zero p = (right (D.inb status_port p).0 ≡ true) × P (D.inb status_port p).1
  After wait right P (suc n) p =
      (wait (D.inb status_port p).0 ≡ true)
      × After wait right P n (io_wait D (D.inb status_port p).1)

-- It is the right one in time.
pub record Settles (D : Drive) (wait right : ℕ → Bool) (P : D.State → Type 0) (p : D.State)
    : Type 0 where
  pub rounds : ℕ
  pub in_time : rounds < 100000
  pub after : After D wait right P rounds p

module _ (D : Drive) where
  wait_free :
      (P : D.State → Type 0) (n left : ℕ) (p : D.State)
      → n < left
      → After D is_busy is_free P n p
      → (p' : D.State) × (wait_not_busy D left p ≡ (ok, p')) × P p'
  unfolding wait_not_busy
  wait_free P n zero p lt h = absurd (omega arith)
  wait_free P zero (suc left) p lt h =
      let free : is_busy (D.inb status_port p).0 ≡ false = ground arith in
      let right : has_error (D.inb status_port p).0 ≡ false = ground arith in
      rw (free, right) ((D.inb status_port p).1, refl, h.1)
  wait_free P (suc n) (suc left) p lt h =
      rw (h.0) (wait_free P n left (io_wait D (D.inb status_port p).1) (omega arith) h.1)

  wait_data :
      (P : D.State → Type 0) (n left : ℕ) (p : D.State)
      → n < left
      → After D is_late offers P n p
      → (p' : D.State) × (wait_drq D left p ≡ (ok, p')) × P p'
  unfolding wait_drq
  wait_data P n zero p lt h = absurd (omega arith)
  wait_data P zero (suc left) p lt h =
      let right : has_error (D.inb status_port p).0 ≡ false = ground arith in
      let there : has_data (D.inb status_port p).0 ≡ true = ground arith in
      rw (right, there) ((D.inb status_port p).1, refl, h.1)
  wait_data P (suc n) (suc left) p lt h =
      let right : has_error (D.inb status_port p).0 ≡ false = ground arith in
      let late : has_data (D.inb status_port p).0 ≡ false = ground arith in
      rw (right, late) (wait_data P n left (io_wait D (D.inb status_port p).1) (omega arith) h.1)

  pub settled_free :
      {P : D.State → Type 0} (p : D.State)
      → Settles D is_busy is_free P p
      → (p' : D.State) × (wait_not_busy D 100000 p ≡ (ok, p')) × P p'
  settled_free {P} p h = wait_free P h.rounds 100000 p h.in_time h.after

  pub settled_data :
      {P : D.State → Type 0} (p : D.State)
      → Settles D is_late offers P p
      → (p' : D.State) × (wait_drq D 100000 p ≡ (ok, p')) × P p'
  settled_data {P} p h = wait_data P h.rounds 100000 p h.in_time h.after

pub record IsLawful (D : Drive) : Type 1 where
  -- What the sectors hold, and how many there are: no more than a number of 28 bits reaches.
  pub sector : D.State → ℕ → List ℕ
  pub sectors : ℕ
  pub few : sectors ≤ 2 ^ 28
  -- The drive waits for a command, with these registers; has a sector for the host; waits for the
  -- bytes of a sector.
  pub Idle : Registers → D.State → Type 0
  pub Sends : List ℕ → D.State → Type 0
  pub Takes : ℕ → D.State → Type 0
  pub sized :
      {regs : Registers} {p : D.State} → Idle regs p → (lba : ℕ) → length (sector p lba) ≡ 512
  -- A register is written.
  pub sets :
      {regs : Registers} {p : D.State} (port value : ℕ)
      → Idle regs p
      → 0x1F2 ≤ port
      → port ≤ 0x1F6
      → value < 2 ^ 8
      → Idle (written port value regs) (D.outb port value p)
        × ((lba : ℕ) → sector (D.outb port value p) lba ≡ sector p lba)
  -- An idle drive says that it is not busy.
  pub rests :
      {regs : Registers} {p : D.State}
      → Idle regs p
      → Settles D is_busy is_free
          (λ p'. Idle regs p' × ((lba : ℕ) → sector p' lba ≡ sector p lba))
          p
  -- READ SECTORS of one sector: the drive asks for its transfer, and 256 words are its bytes.
  pub reads :
      {regs : Registers} {p : D.State}
      → Idle regs p
      → IsSingle regs
      → address regs < sectors
      → Settles D is_late offers
          (λ p'. Sends (sector p (address regs)) p' × ((lba : ℕ) → sector p' lba ≡ sector p lba))
          (D.outb 0x1F7 0x20 p)
  pub sends :
      {bytes : List ℕ} {p : D.State}
      → Sends bytes p
      → ((D.insw 0x1F0 256 p).0 ≡ bytes)
        × (regs : Registers) × Idle regs (D.insw 0x1F0 256 p).1
        × ((lba : ℕ) → sector (D.insw 0x1F0 256 p).1 lba ≡ sector p lba)
  -- WRITE SECTORS of one sector: the drive asks for its bytes.
  pub asks :
      {regs : Registers} {p : D.State}
      → Idle regs p
      → IsSingle regs
      → address regs < sectors
      → Settles D is_late offers
          (λ p'. Takes (address regs) p' × ((lba : ℕ) → sector p' lba ≡ sector p lba))
          (D.outb 0x1F7 0x30 p)
  -- 256 words and the command FLUSH CACHE, which a drive that is busy with the words leaves aside:
  -- when it is no longer busy, the sector is stored.
  pub stores :
      {lba : ℕ} {p : D.State} (bytes : List ℕ)
      → Takes lba p
      → length bytes ≡ 512
      → Settles D is_busy is_free
          (λ p'.
            (regs : Registers) × Idle regs p'
            × (sector p' lba ≡ bytes)
            × ((other : ℕ) → lba ≢ other → sector p' other ≡ sector p other))
          (D.outb 0x1F7 0xE7 (D.outsw 0x1F0 256 bytes p))

-- The drive was found, and is idle.
abbrev pub Good : {D : Drive} → IsLawful D → Disk D → Type 0
Good L s =
    (s.present ≡ true) × (s.total_sectors ≡ L.sectors) × (regs : Registers) × L.Idle regs s.ports

abbrev pub sector : {D : Drive} → IsLawful D → Disk D → ℕ → List ℕ
sector L s = L.sector s.ports
