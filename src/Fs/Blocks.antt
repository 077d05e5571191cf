-- ===== src/Fs/Blocks.antt =====
-- The blocks of a file on a drive that works: what the loop of `fs_write_file` stores, and what the
-- last block says.
use native.Mathlib.Decide.{ℕ_discrete}
use acharya_os.Base.{
  ℕ, zero, suc, ◌+◌, ◌-◌, ◌*◌, ◌≤◌, ◌<◌, ◌≡◌, ◌⊎◌, inl, refl, ap, ◌∙◌, arith, List, [], ◌∷◌, ltb,
  if◌then◌else◌, length, take, drop, replicate, length-replicate, take-all, length-drop, ok, u32,
}
use acharya_os.Kstring.{memcpy}
use acharya_os.Ata.{Drive, Disk}
use acharya_os.Ata.Lawful.{IsLawful, Good, sector}
use acharya_os.Ata.Single.{stored_at, write-ok, stays, holds, keeps}
use acharya_os.Fs.{block_bytes, write_blocks}

length-memcpy : (dest src : List ℕ) (n : ℕ) → length (memcpy dest src n) ≡ length dest
unfolding memcpy
length-memcpy dest src zero = refl
length-memcpy [] src (suc n) = refl
length-memcpy (d ∷ ds) [] (suc n) = ap suc (length-memcpy ds [] n)
length-memcpy (d ∷ ds) (s ∷ ss) (suc n) = ap suc (length-memcpy ds ss n)

take-memcpy :
    (dest src : List ℕ) (n : ℕ)
    → n ≤ length dest
    → n ≤ length src
    → take n (memcpy dest src n) ≡ take n src
unfolding memcpy
take-memcpy dest src zero h k = refl
take-memcpy [] src (suc n) h k = absurd (omega arith)
take-memcpy (d ∷ ds) [] (suc n) h k = absurd (omega arith)
take-memcpy (d ∷ ds) (s ∷ ss) (suc n) h k =
    ap (λ (t : List ℕ). s ∷ t) (take-memcpy ds ss n (omega arith) (omega arith))

pub length-block_bytes : (bytes : List ℕ) (size i : ℕ) → length (block_bytes bytes size i) ≡ 512
unfolding block_bytes
length-block_bytes bytes size i =
    length-memcpy (replicate 512 0) _ _ ∙ length-replicate {A = ℕ} 512 0

module _ (bytes : List ℕ) (size : ℕ) (all : length bytes ≡ size) where
  -- Of the last block, the part that belongs to the file.
  pub last_block :
      (i : ℕ)
      → i * 512 ≤ size
      → size ≤ i * 512 + 512
      → take (size - i * 512) (block_bytes bytes size i) ≡ drop (i * 512) bytes
  unfolding block_bytes
  last_block i lo hi =
      let chunk : (if ltb size ((i + 1) * 512) then size - i * 512 else 512) ≡ size - i * 512 =
        ground arith in
      let rest = length-drop (i * 512) bytes in
      rw chunk (
        take-memcpy (replicate 512 0) (drop (i * 512) bytes) (size - i * 512)
          (omega (arith, length-replicate {A = ℕ} 512 0)) (omega (arith, rest))
        ∙ take-all (size - i * 512) (drop (i * 512) bytes) (omega (arith, rest)))

-- The drive holds blocks `i` to `i + left` of the file from `start + i` on, and else what it held.
pub record Stored (D : Drive) (L : IsLawful D) (start i left : ℕ) (bytes : List ℕ) (size : ℕ)
    (s t : Disk D) : Type 0 where
  pub good : Good L t
  pub blocks : (k : ℕ) → i ≤ k → k < i + left → sector L t (start + k) ≡ block_bytes bytes size k
  pub others :
      (lba : ℕ) → (lba < start + i) ⊎ (start + i + left ≤ lba) → sector L t lba ≡ sector L s lba

module _ (D : Drive) (L : IsLawful D) (start : ℕ) (bytes : List ℕ) (size : ℕ) where
  Stored-suc :
      (i left : ℕ) (s t : Disk D)
      → start + i < L.sectors
      → Good L s
      → Stored D L start
          (i + 1)
          left
          bytes
          size
          (stored_at D (start + i) (block_bytes bytes size i) s)
          t
      → Stored D L start i (suc left) bytes size s t
  Stored-suc i left s t fits good r =
      let full = length-block_bytes bytes size i in
      record {
        good = r.good;
        blocks = λ k lo hi. elim (ℕ_discrete i k) [
          | yes e ↦ rw (← e) (
              r.others (start + i) (inl (omega arith))
              ∙ holds D L s good (start + i) fits (block_bytes bytes size i) full)
          | no ne ↦ r.blocks k (omega arith) (omega arith)
        ];
        others = λ lba away.
            r.others lba (ground arith)
            ∙ keeps D L s good (start + i) fits (block_bytes bytes size i) full lba (ground arith);
      }

  -- On a drive that works the loop stores all blocks.
  pub write_blocks-Stored :
      (left i : ℕ) (s : Disk D)
      → start + i + left ≤ L.sectors
      → Good L s
      → ((write_blocks D left i start bytes size s).0 ≡ ok)
        × Stored D L start i left bytes size s (write_blocks D left i start bytes size s).1
  unfolding write_blocks
  write_blocks-Stored zero i s fits good = (
    refl,
    record { good = good; blocks = λ k lo hi. absurd (omega arith); others = λ lba away. refl },
  )
  write_blocks-Stored (suc left) i s fits good =
      let full = length-block_bytes bytes size i in
      let place : u32 (start + i) ≡ start + i = omega (arith, L.few, fits) in
      let w = write-ok D L s good (start + i) (omega arith) (block_bytes bytes size i) full in
      let good' = stays D L s good (start + i) (omega arith) (block_bytes bytes size i) full in
      let r =
        write_blocks-Stored left (i + 1) (stored_at D (start + i) (block_bytes bytes size i) s)
          (omega arith) good' in
      rw (place, w) (r.0, Stored-suc i left s _ (omega arith) good r.1)
