-- ===== src/Calc/Words.antt =====
-- The operators of calc.c on 64 bits, and those of the integers.
use native.Mathlib.Nat.{mul-add, mul_comm, mod-le, div-le_self}
use acharya_os.Base.{
  ℕ, ◌+◌, ◌-◌, ◌*◌, ◌/◌, ◌%◌, ◌^◌, ◌<◌, ◌≤◌, ◌≡◌, refl, ap, sym, ◌∙◌, arith, true, false, ◌&&◌,
  ◌==◌, leb, ltb, Bool-cases, inl, inr, u64, ℤ, pos, negsuc, sub_ℕ,
}
use acharya_os.Calc.{quotient, remainder, traps, negate}
use acharya_os.Calc.Outcomes.{Outcome, done, failed, trapped, out_of_fuel, bind, Ensures}
use acharya_os.Calc.Value.{bits, of_bits, wrap, neg, add, mul, quot, rem, is_least, is_minus_one}

abbrev pub InRange : ℤ → Type 0
InRange (pos n) = n < 2 ^ 63
InRange (negsuc n) = n < 2 ^ 63

bits_small : (z : ℤ) → bits z < 2 ^ 64
bits_small (pos n) = omega arith
bits_small (negsuc n) = omega arith

of_bits-InRange : (b : ℕ) → b < 2 ^ 64 → InRange (of_bits b)
of_bits-InRange b h = elim (Bool-cases (ltb b (2 ^ 63))) [
  | inl e ↦ let lt : b < 2 ^ 63 = ground arith in rw e lt
  | inr e ↦ let ge : 2 ^ 64 - 1 - b < 2 ^ 63 = ground arith in rw e ge
]

bits-of_bits : (b : ℕ) → b < 2 ^ 64 → bits (of_bits b) ≡ b
bits-of_bits b h = elim (Bool-cases (ltb b (2 ^ 63))) [
  | inl e ↦ let same : b % 2 ^ 64 ≡ b = omega arith in rw e same
  | inr e ↦ let same : 2 ^ 64 - 1 - (2 ^ 64 - 1 - b) % 2 ^ 64 ≡ b = omega arith in rw e same
]

-- What the code has computed, and the integer.
abbrev pub Agrees : Outcome ℕ → Outcome ℤ → Type 0
Agrees x y = (x ≡ bind y (λ z. done (bits z))) × Ensures InRange y

pub wrap-Agrees : (v : ℕ) (z : ℤ) → v ≡ bits z → Agrees (done v) (done (wrap z))
wrap-Agrees v z e = (
  ap done (e ∙ sym (bits-of_bits (bits z) (bits_small z))),
  of_bits-InRange (bits z) (bits_small z),
)

pub Agrees-bind :
    (x : Outcome ℕ) (y : Outcome ℤ) (f : ℕ → Outcome ℕ) (g : ℤ → Outcome ℤ)
    → Agrees x y
    → ((z : ℤ) → InRange z → Agrees (f (bits z)) (g z))
    → Agrees (bind x f) (bind y g)
Agrees-bind x (done z) f g h k = rw h.0 (k z h.1)
Agrees-bind x failed f g h k = rw h.0 (refl, tt)
Agrees-bind x trapped f g h k = rw h.0 (refl, tt)
Agrees-bind x out_of_fuel f g h k = absurd h.1

bits-sub_ℕ : (a b : ℕ) → bits (sub_ℕ a b) ≡ (a + (2 ^ 64 - b % 2 ^ 64)) % 2 ^ 64
bits-sub_ℕ a b = elim (Bool-cases (leb b a)) [
  | inl e ↦
      let le : b ≤ a = ground arith in
      let same : (a - b) % 2 ^ 64 ≡ (a + (2 ^ 64 - b % 2 ^ 64)) % 2 ^ 64 = omega arith in rw e same
  | inr e ↦
      let gt : a < b = ground arith in
      let same : 2 ^ 64 - 1 - (b - a - 1) % 2 ^ 64 ≡ (a + (2 ^ 64 - b % 2 ^ 64)) % 2 ^ 64 =
        omega arith in
      rw e same
]

pub bits-neg : (z : ℤ) → negate (bits z) ≡ bits (neg z)
bits-neg (pos n) = omega (arith, bits-sub_ℕ 0 n)
bits-neg (negsuc n) = omega arith

pub bits-add : (a b : ℤ) → u64 (bits a + bits b) ≡ bits (add a b)
bits-add (pos a) (pos b) = omega arith
bits-add (pos a) (negsuc b) = omega (arith, bits-sub_ℕ a (b + 1))
bits-add (negsuc a) (pos b) = omega (arith, bits-sub_ℕ b (a + 1))
bits-add (negsuc a) (negsuc b) = omega arith

pub bits-subtract : (a b : ℤ) → u64 (bits a + (2 ^ 64 - bits b)) ≡ bits (add a (neg b))
bits-subtract a b = omega (arith, bits-add a (neg b), bits-neg b, bits_small b)

-- A product by what is left of 2^64.
complement : (a p : ℕ) → p ≤ 2 ^ 64 → a * (2 ^ 64 - p) + a * p ≡ a * 2 ^ 64
complement a p h =
    let whole : 2 ^ 64 - p + p ≡ 2 ^ 64 = omega arith in
    sym (mul-add a (2 ^ 64 - p) p) ∙ ap (λ (k : ℕ). a * k) whole

pub bits-mul : (a b : ℤ) → InRange a → InRange b → u64 (bits a * bits b) ≡ bits (mul a b)
bits-mul (pos a) (pos b) h k =
    let x : a % 2 ^ 64 ≡ a = omega arith in let y : b % 2 ^ 64 ≡ b = omega arith in rw (x, y) refl
bits-mul (pos a) (negsuc b) h k =
    let x : a % 2 ^ 64 ≡ a = omega arith in
    let y : 2 ^ 64 - 1 - b % 2 ^ 64 ≡ 2 ^ 64 - (b + 1) = omega arith in
    rw (x, y) (omega (arith, complement a (b + 1) (omega arith), bits-sub_ℕ 0 (a * (b + 1))))
bits-mul (negsuc a) (pos b) h k =
    let x : 2 ^ 64 - 1 - a % 2 ^ 64 ≡ 2 ^ 64 - (a + 1) = omega arith in
    let y : b % 2 ^ 64 ≡ b = omega arith in
    rw (x, y, mul_comm (2 ^ 64 - (a + 1)) b, mul_comm (a + 1) b)
      (omega (arith, complement b (a + 1) (omega arith), bits-sub_ℕ 0 (b * (a + 1))))
bits-mul (negsuc a) (negsuc b) h k =
    let x : 2 ^ 64 - 1 - a % 2 ^ 64 ≡ 2 ^ 64 - (a + 1) = omega arith in
    let y : 2 ^ 64 - 1 - b % 2 ^ 64 ≡ 2 ^ 64 - (b + 1) = omega arith in
    let both = complement (2 ^ 64 - (a + 1)) (b + 1) (omega arith) in
    let one = complement (b + 1) (a + 1) (omega arith) in
    let swap = mul_comm (2 ^ 64 - (a + 1)) (b + 1) in
    let swap' = mul_comm (a + 1) (b + 1) in rw (x, y) (omega (arith, both, one, swap, swap'))

-- The 64 bits of a number that is not negative, and of one that is.
pub pos_bits : (n : ℕ) → InRange (pos n) → (n % 2 ^ 64 ≡ n) × (leb (2 ^ 63) n ≡ false)
pos_bits n h = (omega arith, ground arith)

neg_bits :
    (n : ℕ)
    → InRange (negsuc n)
    → (2 ^ 64 - 1 - n % 2 ^ 64 ≡ 2 ^ 64 - (n + 1))
      × (leb (2 ^ 63) (2 ^ 64 - (n + 1)) ≡ true)
      × (2 ^ 64 - (2 ^ 64 - (n + 1)) ≡ n + 1)
neg_bits n h = (omega arith, ground arith, omega arith)

pub quotient_lem : (a b : ℤ) → InRange a → InRange b → quotient (bits a) (bits b) ≡ bits (quot a b)
quotient_lem (pos a) (pos b) h k =
    let x = pos_bits a h in
    let y = pos_bits b k in
    let same : a / b % 2 ^ 64 ≡ a / b = omega (arith, div-le_self a b) in
    rw (x.0, x.1, y.0, y.1, same) refl
quotient_lem (pos a) (negsuc b) h k =
    let x = pos_bits a h in
    let y = neg_bits b k in
    rw (x.0, x.1, y.0, y.1, y.2) (omega (arith, div-le_self a (b + 1), bits-sub_ℕ 0 (a / (b + 1))))
quotient_lem (negsuc a) (pos b) h k =
    let x = neg_bits a h in
    let y = pos_bits b k in
    rw (x.0, x.1, x.2, y.0, y.1) (omega (arith, div-le_self (a + 1) b, bits-sub_ℕ 0 ((a + 1) / b)))
quotient_lem (negsuc a) (negsuc b) h k =
    let x = neg_bits a h in let y = neg_bits b k in rw (x.0, x.1, x.2, y.0, y.1, y.2) refl

pub remainder_lem : (a b : ℤ) → InRange a → InRange b → remainder (bits a) (bits b) ≡ bits (rem a b)
remainder_lem (pos a) (pos b) h k =
    let x = pos_bits a h in
    let y = pos_bits b k in
    let same : a % b % 2 ^ 64 ≡ a % b = omega (arith, mod-le a b) in
    rw (x.0, x.1, y.0, y.1, same) refl
remainder_lem (pos a) (negsuc b) h k =
    let x = pos_bits a h in
    let y = neg_bits b k in
    let same : a % (b + 1) % 2 ^ 64 ≡ a % (b + 1) = omega (arith, mod-le a (b + 1)) in
    rw (x.0, x.1, y.0, y.1, y.2, same) refl
remainder_lem (negsuc a) (pos b) h k =
    let x = neg_bits a h in
    let y = pos_bits b k in
    rw (x.0, x.1, x.2, y.0, y.1) (omega (arith, mod-le (a + 1) b, bits-sub_ℕ 0 ((a + 1) % b)))
remainder_lem (negsuc a) (negsuc b) h k =
    let x = neg_bits a h in
    let y = neg_bits b k in
    rw (x.0, x.1, x.2, y.0, y.1, y.2)
      (omega (arith, mod-le (a + 1) (b + 1), bits-sub_ℕ 0 ((a + 1) % (b + 1))))

pub traps_lem :
    (a : ℤ) (b : ℕ)
    → InRange a
    → InRange (negsuc b)
    → traps (bits a) (bits (negsuc b)) ≡ is_least a && is_minus_one (negsuc b)
traps_lem (pos a) b h k =
    let no_least : (a % 2 ^ 64 == 2 ^ 63) ≡ false = ground arith in rw no_least refl
traps_lem (negsuc a) b h k = elim (Bool-cases (a == 2 ^ 63 - 1)) [
  | inl e ↦
      let least : (2 ^ 64 - 1 - a % 2 ^ 64 == 2 ^ 63) ≡ true = ground arith in
      rw (e, least) (minus_one b k)
  | inr e ↦
      let no_least : (2 ^ 64 - 1 - a % 2 ^ 64 == 2 ^ 63) ≡ false = ground arith in
      rw (e, no_least) refl
]
  where
    minus_one : (b : ℕ) → b < 2 ^ 63 → (2 ^ 64 - 1 - b % 2 ^ 64 == 2 ^ 64 - 1) ≡ (b == 0)
    minus_one b k = elim (Bool-cases (b == 0)) [
      | inl e ↦
          let whole : (2 ^ 64 - 1 - b % 2 ^ 64 == 2 ^ 64 - 1) ≡ true = ground arith in
          rw (e, whole) refl
      | inr e ↦
          let less : (2 ^ 64 - 1 - b % 2 ^ 64 == 2 ^ 64 - 1) ≡ false = ground arith in
          rw (e, less) refl
    ]
