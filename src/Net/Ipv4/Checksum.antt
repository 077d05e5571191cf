-- ===== src/Net/Ipv4/Checksum.antt =====
-- The Internet checksum: the carry loop ends, and a packet that carries its checksum sums to 0.
use native.Mathlib.Decide.{dec_lt}
use acharya_os.Base.{
  ℕ, zero, suc, ◌+◌, ◌-◌, ◌*◌, ◌/◌, ◌%◌, ◌^◌, ◌≤◌, ◌<◌, ◌≡◌, refl, ◌∙◌, arith, List, [], ◌∷◌, ◌++◌,
  All, length, ◌==◌, true, false, u32, u8, bit_and, bit_or,
}
use acharya_os.Base.Bits.{bit_and_low, bit_or_field}
use acharya_os.Net.Ipv4.{sum_words, fold_carry, checksum}

-- All items are bytes.
abbrev pub AreBytes : List ℕ → Type 0
AreBytes bytes = All (λ b. b < 256) bytes

-- Whether the length is even.
abbrev pub IsEven : List ℕ → Type 0
IsEven bytes = length bytes % 2 ≡ 0

-- The sum of the words, with no width.
abbrev pub total : List ℕ → ℕ
total [] = 0
total (a ∷ []) = a * 256
total (a ∷ b ∷ bytes) = a * 256 + b + total bytes

total-small : (bytes : List ℕ) → AreBytes bytes → total bytes ≤ 65536 * length bytes
total-small [] s = omega arith
total-small (a ∷ []) s = omega (arith, s)
total-small (a ∷ b ∷ bytes) s = omega (arith, s, total-small bytes (s.1.1))

sum_words-total :
    (bytes : List ℕ) (sum : ℕ)
    → AreBytes bytes
    → sum + total bytes < 2 ^ 32
    → sum_words sum bytes ≡ sum + total bytes
unfolding sum_words
sum_words-total [] sum s h = omega arith
sum_words-total (a ∷ []) sum s h = omega arith
sum_words-total (a ∷ b ∷ bytes) sum s h =
    let e : u32 (sum + bit_or (a * 2 ^ 8) b) ≡ sum + (a * 256 + b) =
      omega (arith, bit_or_field 8 a b (omega (arith, s))) in
    rw e (sum_words-total bytes (sum + (a * 256 + b)) s.1.1 (omega arith) ∙ omega arith)

-- Sums that agree as sums with end-around carry.
record Carried (s t : ℕ) : Type 0 where
  word : t < 65536
  residue : t % 65535 ≡ s % 65535
  nonzero : 0 < s → 0 < t
  vanishes : s ≡ 0 → t ≡ 0

carry_step : (s : ℕ) → s < 2 ^ 32 → u32 (bit_and s 0xFFFF + s / 2 ^ 16) ≡ s % 65536 + s / 65536
carry_step s h = omega (arith, bit_and_low 16 s)

Carried-word : (s : ℕ) → s < 65536 → Carried s s
Carried-word s h = record { word = h; residue = refl; nonzero = λ p. p; vanishes = λ p. p }

Carried-step : (s t : ℕ) → Carried (s % 65536 + s / 65536) t → Carried s t
Carried-step s t c = record {
  word = c.word;
  residue = omega (arith, c.residue);
  nonzero = λ p. c.nonzero (omega arith);
  vanishes = λ p. c.vanishes (omega arith);
}

fold_word : (rounds s : ℕ) → s < 65536 → fold_carry rounds s ≡ s
unfolding fold_carry
fold_word zero s h = refl
fold_word (suc rounds) s h = let e : (s / 2 ^ 16 == 0) ≡ true = ground arith in rw e

fold_more :
    (rounds s : ℕ)
    → s < 2 ^ 32
    → 65536 ≤ s
    → fold_carry (suc rounds) s ≡ fold_carry rounds (s % 65536 + s / 65536)
unfolding fold_carry
fold_more rounds s h big =
    let e : (s / 2 ^ 16 == 0) ≡ false = ground arith in rw (e, carry_step s h)

-- Below 2 ^ 17 - 1 one round is enough, below 2 ^ 32 two are.
fold_one : (rounds s : ℕ) → s < 131071 → Carried s (fold_carry (suc rounds) s)
fold_one rounds s h = elim (dec_lt s 65536) [
  | yes small ↦ rw (fold_word (suc rounds) s small) (Carried-word s small)
  | no big ↦
      rw
        (
          fold_more rounds s (omega arith) (omega arith),
          fold_word rounds (s % 65536 + s / 65536) (omega arith),
        )
        (Carried-step s _ (Carried-word _ (omega arith)))
]

-- From any 32-bit sum the loop ends after two rounds at most.
fold_two : (rounds s : ℕ) → s < 2 ^ 32 → Carried s (fold_carry (suc (suc rounds)) s)
fold_two rounds s h = elim (dec_lt s 65536) [
  | yes small ↦ rw (fold_word (suc (suc rounds)) s small) (Carried-word s small)
  | no big ↦
      rw (fold_more (suc rounds) s h (omega arith))
        (Carried-step s _ (fold_one rounds (s % 65536 + s / 65536) (omega arith)))
]

checksum-total :
    (bytes : List ℕ)
    → AreBytes bytes
    → total bytes < 2 ^ 32
    → (t : ℕ) × Carried (total bytes) t × (checksum bytes ≡ 65535 - t)
unfolding checksum
checksum-total bytes s h =
    let e : sum_words 0 bytes ≡ total bytes =
      sum_words-total bytes 0 s (omega arith) ∙ omega arith in
    let c = fold_two 1 (total bytes) h in
    (fold_carry 3 (total bytes), c, rw e (omega (arith, c.word)))

total-append :
    (front back : List ℕ) → IsEven front → total (front ++ back) ≡ total front + total back
total-append [] back e = omega arith
total-append (a ∷ []) back e = absurd (omega arith)
total-append (a ∷ b ∷ front) back e = omega (arith, total-append front back (omega arith))

AreBytes-append : (front back : List ℕ) → AreBytes front → AreBytes back → AreBytes (front ++ back)
AreBytes-append [] back f b = b
AreBytes-append (a ∷ front) back (p, f) b = (p, AreBytes-append front back f b)

-- A sum with the complement of its carried sum added carries to all ones.
complement : (s n t u : ℕ) → n ≡ s + (65535 - t) → Carried s t → Carried n u → 65535 - u ≡ 0
complement s n t u sum before after = elim (dec_lt 0 s) [
  | yes pos ↦
      let some_u = after.nonzero (omega arith) in
      omega (arith, before.word, before.residue, after.word, after.residue)
  | no none ↦
      let no_t = before.vanishes (omega arith) in
      let some_u = after.nonzero (omega arith) in omega (arith, after.word, after.residue)
]

-- A packet of bytes, fewer than 60002 in all, with a 16-bit checksum at an even place: computed with 0 in that place and stored there,
-- high byte first, it makes the checksum of the whole packet 0.
pub checksum_stored :
    (front back : List ℕ)
    → AreBytes front
    → AreBytes back
    → IsEven front
    → length front + length back < 60000
    → let c = checksum (front ++ (0 ∷ 0 ∷ back)) in
      checksum (front ++ (u8 (c / 2 ^ 8) ∷ u8 (bit_and c 0xFF) ∷ back)) ≡ 0
checksum_stored front back f b even short =
    let c = checksum (front ++ (0 ∷ 0 ∷ back)) in
    let hi = u8 (c / 2 ^ 8) in
    let lo = u8 (bit_and c 0xFF) in
    let empty_sum : total (front ++ (0 ∷ 0 ∷ back)) ≡ total front + total back =
      omega (arith, total-append front (0 ∷ 0 ∷ back) even) in
    let full_sum : total (front ++ (hi ∷ lo ∷ back)) ≡ total front + (hi * 256 + lo + total back) =
      total-append front (hi ∷ lo ∷ back) even in
    let small_front = total-small front f in
    let small_back = total-small back b in
    let (t, before, is_c) =
      checksum-total (front ++ (0 ∷ 0 ∷ back))
        (AreBytes-append front _ f (omega arith, (omega arith, b))) (omega arith) in
    let low = bit_and_low 8 c in
    let stored : hi * 256 + lo ≡ 65535 - t = omega (arith, before.word) in
    let (u, after, is_zero) =
      checksum-total (front ++ (hi ∷ lo ∷ back))
        (AreBytes-append front _ f (omega arith, (omega arith, b))) (omega arith) in
    let sums : total (front ++ (hi ∷ lo ∷ back)) ≡ total (front ++ (0 ∷ 0 ∷ back)) + (65535 - t) =
      omega arith in
    is_zero ∙ complement (total (front ++ (0 ∷ 0 ∷ back))) _ t u sums before after
