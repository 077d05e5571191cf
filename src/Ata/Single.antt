-- ===== src/Ata/Single.antt =====
-- One sector, read or written on a drive that works.
use acharya_os.Base.{
  ℕ, ◌+◌, ◌-◌, ◌*◌, ◌/◌, ◌%◌, ◌^◌, ◌<◌, ◌≡◌, ◌≢◌, subst, sym, Option, none, Bool-cases, inl, inr,
  refl, ap, ◌∙◌, arith, List, true, false, some, none, ok, ltb, length, Status, u8, bit_and, bit_or,
}
use acharya_os.Base.Bits.{bit_or_field, bit_and_low}
use acharya_os.Ata.{Drive, Disk, drive_head, set_registers, select_lba, read_sectors, write_sectors}
use acharya_os.Ata.Lawful.{
  Registers, address, IsSingle, IsLawful, Good, sector, settled_free, settled_data,
}

drive_head_lem :
    (lba : ℕ) → lba < 2 ^ 28 → u8 (bit_or 0xE0 (bit_and (lba / 2 ^ 24) 0x0F)) ≡ 0xE0 + lba / 2 ^ 24
drive_head_lem lba small =
    let low : bit_and (lba / 2 ^ 24) (2 ^ 4 - 1) ≡ lba / 2 ^ 24 % 2 ^ 4 =
      bit_and_low 4 (lba / 2 ^ 24) in
    let field : bit_or (14 * 2 ^ 4) (lba / 2 ^ 24 % 2 ^ 4) ≡ 14 * 2 ^ 4 + lba / 2 ^ 24 % 2 ^ 4 =
      bit_or_field 4 14 (lba / 2 ^ 24 % 2 ^ 4) (omega arith) in
    rw (low, field) (omega arith)

module _ (D : Drive) (L : IsLawful D) where
  -- The registers that `ata_select_lba` writes name the sector.
  selected :
      (regs : Registers) (lba : ℕ) (p : D.State)
      → lba < L.sectors
      → L.Idle regs p
      → (regs' : Registers) × L.Idle regs' (set_registers D lba 1 p)
        × IsSingle regs'
        × (address regs' ≡ lba)
        × ((other : ℕ) → L.sector (set_registers D lba 1 p) other ≡ L.sector p other)
  selected regs lba p fits idle =
      let head = drive_head_lem lba (omega (arith, L.few)) in
      let a =
        L.sets 0x1F6 (drive_head D lba) idle (omega arith) (omega arith)
          (omega (arith, head, L.few)) in
      let b = L.sets 0x1F2 1 a.0 (omega arith) (omega arith) (omega arith) in
      let c = L.sets 0x1F3 (u8 lba) b.0 (omega arith) (omega arith) (omega arith) in
      let d = L.sets 0x1F4 (u8 (lba / 2 ^ 8)) c.0 (omega arith) (omega arith) (omega arith) in
      let e = L.sets 0x1F5 (u8 (lba / 2 ^ 16)) d.0 (omega arith) (omega arith) (omega arith) in
      (
        _,
        e.0,
        (refl, omega (arith, head, L.few)),
        omega (arith, head, L.few),
        λ other. e.1 other ∙ d.1 other ∙ c.1 other ∙ b.1 other ∙ a.1 other,
      )

  module _ (s : Disk D) (good : Good L s) (lba : ℕ) (fits : lba < L.sectors) where
    there : (s.present ≡ true) × (ltb 0x0FFFFFFF lba ≡ false)
    there = (good.0, ground (arith, L.few))

    -- One sector is read, and the drive is as it was.
    read-one :
        (s' : Disk D) × (read_sectors D lba 1 s ≡ (some (sector L s lba), s'))
        × Good L s'
        × ((other : ℕ) → sector L s' other ≡ sector L s other)
    unfolding read_sectors select_lba
    read-one =
        let free = settled_free D s.ports (L.rests (good.3)) in
        let select = selected good.2 lba free.0 fits (free.2.0) in
        let call = L.reads select.1 select.2 (omega (arith, select.3, fits)) in
        let offer = settled_data D _ call in
        let sent = L.sends offer.2.0 in
        let bytes : (D.insw 0x1F0 256 offer.0).0 ≡ sector L s lba =
          sent.0
          ∙ ap (λ (k : ℕ). L.sector (set_registers D lba 1 free.0) k) select.3
          ∙ select.4 lba
          ∙ free.2.1 lba in
        rw (there.0, there.1, free.1, offer.1, bytes)
          (
            record {
              present = true;
              total_sectors = s.total_sectors;
              ports = (D.insw 0x1F0 256 offer.0).1;
            },
            refl,
            (refl, good.1, sent.1, sent.2),
            λ other. sent.3 other ∙ offer.2.1 other ∙ select.4 other ∙ free.2.1 other,
          )

    -- One sector is written, and the others are as they were.
    write-one :
        (bytes : List ℕ)
        → length bytes ≡ 512
        → (s' : Disk D) × (write_sectors D lba 1 bytes s ≡ (ok, s'))
          × Good L s'
          × (sector L s' lba ≡ bytes)
          × ((other : ℕ) → lba ≢ other → sector L s' other ≡ sector L s other)
    unfolding write_sectors select_lba
    write-one bytes full =
        let free = settled_free D s.ports (L.rests (good.3)) in
        let select = selected good.2 lba free.0 fits (free.2.0) in
        let call = L.asks select.1 select.2 (omega (arith, select.3, fits)) in
        let asked = settled_data D _ call in
        let place : L.Takes lba asked.0 = subst (λ (k : ℕ). L.Takes k asked.0) select.3 asked.2.0 in
        let stored = settled_free D _ (L.stores bytes place full) in
        rw (there.0, there.1, free.1, asked.1, stored.1)
          (
            record { present = true; total_sectors = s.total_sectors; ports = stored.0 },
            refl,
            (refl, good.1, stored.2.0, stored.2.1),
            stored.2.2,
            λ other ne. stored.2.3 other ne ∙ asked.2.1 other ∙ select.4 other ∙ free.2.1 other,
          )

-- The drive after one sector was read, and after one was stored.
pub read_at : (D : Drive) → ℕ → Disk D → Disk D
read_at D lba s = (read_sectors D lba 1 s).1

pub stored_at : (D : Drive) → ℕ → List ℕ → Disk D → Disk D
stored_at D lba bytes s = (write_sectors D lba 1 bytes s).1

module _ (D : Drive) (L : IsLawful D) (s : Disk D) (good : Good L s) (lba : ℕ)
    (fits : lba < L.sectors) where
  pub read-ok : read_sectors D lba 1 s ≡ (some (sector L s lba), read_at D lba s)
  unfolding read_at
  read-ok =
      let r = read-one D L s good lba fits in
      r.1
      ∙ ap (λ (x : Disk D). (some (sector L s lba), x))
          (sym (ap (λ (x : Option (List ℕ) × Disk D). x.1) r.1))

  pub read_at-Good : Good L (read_at D lba s)
  unfolding read_at
  read_at-Good =
      let r = read-one D L s good lba fits in
      subst (λ (x : Disk D). Good L x) (sym (ap (λ (x : Option (List ℕ) × Disk D). x.1) r.1)) r.2

  pub sector-read_at : (other : ℕ) → sector L (read_at D lba s) other ≡ sector L s other
  unfolding read_at
  sector-read_at other =
      let r = read-one D L s good lba fits in
      ap (λ (x : Option (List ℕ) × Disk D). sector L x.1 other) r.1 ∙ r.3 other

  module _ (bytes : List ℕ) (full : length bytes ≡ 512) where
    pub write-ok : write_sectors D lba 1 bytes s ≡ (ok, stored_at D lba bytes s)
    unfolding stored_at
    write-ok =
        let r = write-one D L s good lba fits bytes full in
        r.1 ∙ ap (λ (x : Disk D). (ok, x)) (sym (ap (λ (x : Status × Disk D). x.1) r.1))

    pub stays : Good L (stored_at D lba bytes s)
    unfolding stored_at
    stays =
        let r = write-one D L s good lba fits bytes full in
        subst (λ (x : Disk D). Good L x) (sym (ap (λ (x : Status × Disk D). x.1) r.1)) r.2

    pub holds : sector L (stored_at D lba bytes s) lba ≡ bytes
    unfolding stored_at
    holds =
        let r = write-one D L s good lba fits bytes full in
        ap (λ (x : Status × Disk D). sector L x.1 lba) r.1 ∙ r.3

    pub keeps :
        (other : ℕ) → lba ≢ other → sector L (stored_at D lba bytes s) other ≡ sector L s other
    unfolding stored_at
    keeps other ne =
        let r = write-one D L s good lba fits bytes full in
        ap (λ (x : Status × Disk D). sector L x.1 other) r.1 ∙ r.4 other ne

-- No sectors are not read.
pub read_sectors-none : (D : Drive) (lba : ℕ) (s : Disk D) → read_sectors D lba 0 s ≡ (none, s)
unfolding read_sectors
read_sectors-none D lba s = elim (Bool-cases s.present) [ inl e ↦ rw e refl | inr e ↦ rw e refl ]
