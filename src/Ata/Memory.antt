-- ===== src/Ata/Memory.antt =====
-- A drive that always works, in memory: its sectors and its registers. It is never busy, and always
-- has data.
use native.Mathlib.Decide.{ℕ_discrete}
use acharya_os.Base.{
  ℕ, ◌≤◌, ◌≡◌, ◌≢◌, refl, ap, List, true, false, ◌==◌, if◌then◌else◌, length, length-replicate,
  replicate, arith,
}
use acharya_os.Ata.{Drive, Disk}
use acharya_os.Ata.Lawful.{Registers, IsLawful, Good, written, address}

abbrev put : ℕ → List ℕ → (ℕ → List ℕ) → ℕ → List ℕ
put lba bytes disk other = if lba == other then bytes else disk other

pub record Memory : Type 0 where
  pub disk : ℕ → List ℕ
  pub registers : Registers

abbrev pub memory_drive : Drive
memory_drive = record {
  State = Memory;
  inb = λ port p. (0x58, p);
  outb = λ port value p. record p { registers = written port value p.registers };
  insw = λ port count p. (p.disk (address p.registers), p);
  outsw = λ port count bytes p. record p { disk = put (address p.registers) bytes p.disk };
}

abbrev AreSectors : Memory → Type 0
AreSectors p = (lba : ℕ) → length (p.disk lba) ≡ 512

pub memory_drive-IsLawful : IsLawful memory_drive
memory_drive-IsLawful = record {
  sector = λ p. p.disk;
  sectors = 8192;
  few = omega arith;
  Idle = λ regs p. (p.registers ≡ regs) × AreSectors p;
  Sends = λ bytes p. (p.disk (address p.registers) ≡ bytes) × AreSectors p;
  Takes = λ lba p. (address p.registers ≡ lba) × AreSectors p;
  sized = λ idle. idle.1;
  sets = λ port value idle lo hi byte. ((ap (written port value) idle.0, idle.1), λ lba. refl);
  rests = λ idle. record { rounds = 0; in_time = omega arith; after = (refl, (idle, λ lba. refl)) };
  reads = λ {regs} {p} idle single fits. record {
    rounds = 0;
    in_time = omega arith;
    after = (refl, ((ap (λ (r : Registers). p.disk (address r)) idle.0, idle.1), λ lba. refl));
  };
  sends = λ {bytes} {p} sent. (sent.0, p.registers, (refl, sent.1), λ lba. refl);
  asks = λ idle single fits. record {
    rounds = 0;
    in_time = omega arith;
    after = (refl, ((ap address idle.0, idle.1), λ lba. refl));
  };
  stores = λ {lba} {p} bytes takes full. record {
    rounds = 0;
    in_time = omega arith;
    after = (
      refl,
      (
        written 0x1F7 0xE7 p.registers,
        (refl, all_sectors (address p.registers) bytes p takes.1 full),
        stored lba (address p.registers) bytes p takes.0,
        λ other ne. kept lba (address p.registers) bytes p other takes.0 ne,
      ),
    );
  };
}
  where
    all_sectors :
        (lba : ℕ) (bytes : List ℕ) (p : Memory)
        → AreSectors p
        → length bytes ≡ 512
        → (other : ℕ) → length (put lba bytes p.disk other) ≡ 512
    all_sectors lba bytes p whole full other = elim (ℕ_discrete lba other) [
      | yes e ↦ let t : (lba == other) ≡ true = ground arith in rw t full
      | no ne ↦ let t : (lba == other) ≡ false = ground arith in rw t (whole other)
    ]

    stored :
        (lba there : ℕ) (bytes : List ℕ) (p : Memory)
        → there ≡ lba
        → put there bytes p.disk lba ≡ bytes
    stored lba there bytes p e = let t : (there == lba) ≡ true = ground arith in rw t refl

    kept :
        (lba there : ℕ) (bytes : List ℕ) (p : Memory) (other : ℕ)
        → there ≡ lba
        → lba ≢ other
        → put there bytes p.disk other ≡ p.disk other
    kept lba there bytes p other e ne = let t : (there == other) ≡ false = ground arith in rw t refl

-- A drive of empty sectors, that was found.
abbrev pub empty_disk : Disk memory_drive
empty_disk = record {
  present = true;
  total_sectors = 8192;
  ports = record { disk = λ lba. replicate 512 0; registers = λ port. 0 };
}

pub empty_disk-Good : Good memory_drive-IsLawful empty_disk
unfolding memory_drive-IsLawful
empty_disk-Good = (refl, refl, (λ port. 0), (refl, λ lba. length-replicate {A = ℕ} 512 0))

pub big_disk : 4354 ≤ memory_drive-IsLawful.sectors
unfolding memory_drive-IsLawful
big_disk = omega arith
