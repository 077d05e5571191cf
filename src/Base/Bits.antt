-- ===== src/Base/Bits.antt =====
-- The bit operations at variables: fields joined by `|`, and masks of low and of high ones.
use Prim.Native.Nat.{
  ℕ, zero, suc, ◌+◌, ◌-◌, ◌*◌, ◌/◌, ◌%◌, ◌^◌, ◌≤◌, ◌<◌, min, max, bit_and, bit_or, digits, bitwise,
  bit_and-bitwise, bit_or-bitwise,
}
use mathlib.Core.Path.{◌≡◌, refl, ap}
use native.Mathlib.Nat.{pow-suc, one-le-pow}
use native.Mathlib.Omega.{arith}

-- The digit recursion needs no more fuel than the number is big.
module _ (rest : ℕ → ℕ) (join : ℕ → ℕ → ℕ) where
  more_fuel : (n m a b : ℕ) → a ≤ n → a ≤ m → digits rest join n a b ≡ digits rest join m a b
  more_fuel zero zero a b p q = refl
  more_fuel (suc n) zero zero b p q = refl
  more_fuel (suc n) zero (suc a) b p q = absurd (omega arith)
  more_fuel zero (suc m) zero b p q = refl
  more_fuel zero (suc m) (suc a) b p q = absurd (omega arith)
  more_fuel (suc n) (suc m) zero b p q = refl
  more_fuel (suc n) (suc m) (suc a) b p q =
      rw (more_fuel n m (suc a / 2) (b / 2) (omega arith) (omega arith))

  lowest_digit :
      (a b : ℕ)
      → bitwise rest join (suc a) b
        ≡ bitwise rest join (suc a / 2) (b / 2) * 2 + join (suc a % 2) (b % 2)
  lowest_digit a b =
      ap (λ (x : ℕ). x * 2 + join (suc a % 2) (b % 2))
        (more_fuel a (suc a / 2) (suc a / 2) (b / 2) (omega arith) (omega arith))

pub or_digit : (a b : ℕ) → bit_or a b ≡ bit_or (a / 2) (b / 2) * 2 + max (a % 2) (b % 2)
or_digit zero b = simp bit_or-bitwise (omega arith)
or_digit (suc a) b = simp bit_or-bitwise (lowest_digit (λ y. y) max a b)

pub and_digit : (a b : ℕ) → bit_and a b ≡ bit_and (a / 2) (b / 2) * 2 + min (a % 2) (b % 2)
and_digit zero b = simp bit_and-bitwise (omega arith)
and_digit (suc a) b = simp bit_and-bitwise (lowest_digit (λ y. 0) min a b)

or_zero_below : (n a : ℕ) → a ≤ n → bit_or a 0 ≡ a
or_zero_below n zero h = refl
or_zero_below zero (suc a) h = absurd (omega arith)
or_zero_below (suc n) (suc a) h =
    omega (arith, or_digit (suc a) 0, or_zero_below n (suc a / 2) (omega arith))

and_zero_below : (n a : ℕ) → a ≤ n → bit_and a 0 ≡ 0
and_zero_below n zero h = refl
and_zero_below zero (suc a) h = absurd (omega arith)
and_zero_below (suc n) (suc a) h =
    omega (arith, and_digit (suc a) 0, and_zero_below n (suc a / 2) (omega arith))

double_pow : (q k : ℕ) → q * 2 ^ suc k ≡ 2 * (q * 2 ^ k)
double_pow q k = omega (arith, ap (λ (t : ℕ). q * t) (pow-suc 2 k))

-- (q << k) | r is a sum when r fits in k bits.
pub bit_or_field : (k q r : ℕ) → r < 2 ^ k → bit_or (q * 2 ^ k) r ≡ q * 2 ^ k + r
bit_or_field zero q r h = ground (arith, or_zero_below q q)
bit_or_field (suc k) q r h =
    ground
      (arith, or_digit (q * 2 ^ suc k) r, double_pow q k, bit_or_field k q (r / 2) (omega arith))

-- A mask of k low ones is the remainder by 2 ^ k.
low_part : (k q r : ℕ) → r < 2 ^ k → bit_and (q * 2 ^ k + r) (2 ^ k - 1) ≡ r
low_part zero q r h = omega (arith, and_zero_below (q * 1 + r) (q * 1 + r))
low_part (suc k) q r h = ground (
  arith,
  and_digit (q * 2 ^ suc k + r) (2 ^ suc k - 1),
  double_pow q k,
  pow-suc 2 k,
  low_part k q (r / 2) (omega arith),
)

pub bit_and_low : (k a : ℕ) → bit_and a (2 ^ k - 1) ≡ a % 2 ^ k
bit_and_low k a = ground (arith, one-le-pow k 2, low_part k (a / 2 ^ k) (a % 2 ^ k))

-- A mask of m ones above k zeros clears the k low bits, and what lies above.
high_part :
    (k m q r : ℕ) → r < 2 ^ k → bit_and (q * 2 ^ k + r) ((2 ^ m - 1) * 2 ^ k) ≡ (q % 2 ^ m) * 2 ^ k
high_part zero m q r h =
    let e : q * 2 ^ 0 + r ≡ q = omega arith in
    let f : (2 ^ m - 1) * 2 ^ 0 ≡ 2 ^ m - 1 = omega arith in
    let g : q % 2 ^ m * 2 ^ 0 ≡ q % 2 ^ m = omega arith in rw (e, f, g) (bit_and_low m q)
high_part (suc k) m q r h = ground (
  arith,
  and_digit (q * 2 ^ suc k + r) ((2 ^ m - 1) * 2 ^ suc k),
  double_pow q k,
  double_pow (2 ^ m - 1) k,
  double_pow (q % 2 ^ m) k,
  high_part k m q (r / 2) (omega arith),
)

pub bit_and_high : (k m a : ℕ) → bit_and a ((2 ^ m - 1) * 2 ^ k) ≡ (a / 2 ^ k % 2 ^ m) * 2 ^ k
bit_and_high k m a = ground (arith, one-le-pow k 2, high_part k m (a / 2 ^ k) (a % 2 ^ k))
