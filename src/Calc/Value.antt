-- ===== src/Calc/Value.antt =====
-- What an expression is worth: a calculation with integers, whose results are brought into the range
-- of an int64_t.
use acharya_os.Base.{
  ℕ, ◌+◌, ◌-◌, ◌*◌, ◌/◌, ◌%◌, ◌^◌, List, [], ◌∷◌, Bool, false, ◌&&◌, ◌==◌, ltb, if◌then◌else◌, ℤ,
  pos, negsuc, sub_ℕ,
}
use acharya_os.Calc.Outcomes.{Outcome, done, failed, trapped, bind}
use acharya_os.Calc.Grammar.{
  MulOp, AddOp, times, over, modulo, plus, minus, Factor, Factors, Term, Terms, Expr, number,
  signed, paren, no_factors, more_factors, term, no_terms, more_terms, expr,
}

-- The 64 bits of an integer.
abbrev pub bits : ℤ → ℕ
bits (pos n) = n % 2 ^ 64
bits (negsuc n) = 2 ^ 64 - 1 - n % 2 ^ 64

-- The integer that 64 bits say as an int64_t.
abbrev pub of_bits : ℕ → ℤ
of_bits b = if ltb b (2 ^ 63) then pos b else negsuc (2 ^ 64 - 1 - b)

-- Brought into the range from -2^63 to 2^63 - 1, by a multiple of 2^64.
abbrev pub wrap : ℤ → ℤ
wrap z = of_bits (bits z)

abbrev pub neg : ℤ → ℤ
neg (pos n) = sub_ℕ 0 n
neg (negsuc n) = pos (n + 1)

abbrev pub add : ℤ → ℤ → ℤ
add (pos a) (pos b) = pos (a + b)
add (pos a) (negsuc b) = sub_ℕ a (b + 1)
add (negsuc a) (pos b) = sub_ℕ b (a + 1)
add (negsuc a) (negsuc b) = negsuc (a + b + 1)

abbrev pub mul : ℤ → ℤ → ℤ
mul (pos a) (pos b) = pos (a * b)
mul (pos a) (negsuc b) = sub_ℕ 0 (a * (b + 1))
mul (negsuc a) (pos b) = sub_ℕ 0 ((a + 1) * b)
mul (negsuc a) (negsuc b) = pos ((a + 1) * (b + 1))

-- The quotient, cut towards 0.
abbrev pub quot : ℤ → ℤ → ℤ
quot (pos a) (pos b) = pos (a / b)
quot (pos a) (negsuc b) = sub_ℕ 0 (a / (b + 1))
quot (negsuc a) (pos b) = sub_ℕ 0 ((a + 1) / b)
quot (negsuc a) (negsuc b) = pos ((a + 1) / (b + 1))

-- The remainder, with the sign of the left operand.
abbrev pub rem : ℤ → ℤ → ℤ
rem (pos a) (pos b) = pos (a % b)
rem (pos a) (negsuc b) = pos (a % (b + 1))
rem (negsuc a) (pos b) = sub_ℕ 0 ((a + 1) % b)
rem (negsuc a) (negsuc b) = sub_ℕ 0 ((a + 1) % (b + 1))

-- The least int64_t and -1.
abbrev pub is_least : ℤ → Bool
is_least (pos n) = false
is_least (negsuc n) = n == 2 ^ 63 - 1

abbrev pub is_minus_one : ℤ → Bool
is_minus_one (pos n) = false
is_minus_one (negsuc n) = n == 0

-- A division: none by 0, and that of the least int64_t by -1 traps.
abbrev pub divided : (ℤ → ℤ → ℤ) → ℤ → ℤ → Outcome ℤ
divided f a (pos b) = if b == 0 then failed else done (wrap (f a (pos b)))
divided f a (negsuc b) =
    if is_least a && is_minus_one (negsuc b) then trapped else done (wrap (f a (negsuc b)))

abbrev pub mul_result : MulOp → ℤ → ℤ → Outcome ℤ
mul_result times a b = done (wrap (mul a b))
mul_result over a b = divided quot a b
mul_result modulo a b = divided rem a b

abbrev pub add_result : AddOp → ℤ → ℤ → ℤ
add_result plus a b = wrap (add a b)
add_result minus a b = wrap (add a (neg b))

abbrev pub signed_as : AddOp → ℤ → ℤ
signed_as plus a = a
signed_as minus a = wrap (neg a)

-- The number that decimal digits say, with `acc` in front of them.
abbrev pub decimal : ℕ → List ℕ → ℕ
decimal acc [] = acc
decimal acc (c ∷ cs) = decimal (acc * 10 + (c - b'0')) cs

unfoldable mutual
  pub factor_value : Factor → Outcome ℤ
  factor_value (number gap c cs h) = done (wrap (pos (decimal 0 (c ∷ cs))))
  factor_value (signed gap op f) = bind (factor_value f) λ a. done (signed_as op a)
  factor_value (paren gap e end_gap) = expr_value e

  -- Operators of one level are applied from the left.
  pub factors_value : ℤ → Factors → Outcome ℤ
  factors_value a no_factors = done a
  factors_value a (more_factors gap op f fs) =
      bind (factor_value f) λ b. bind (mul_result op a b) λ c. factors_value c fs

  pub term_value : Term → Outcome ℤ
  term_value (term f fs) = bind (factor_value f) λ a. factors_value a fs

  pub terms_value : ℤ → Terms → Outcome ℤ
  terms_value a no_terms = done a
  terms_value a (more_terms gap op t ts) =
      bind (term_value t) λ b. terms_value (add_result op a b) ts

  pub expr_value : Expr → Outcome ℤ
  expr_value (expr t ts) = bind (term_value t) λ a. terms_value a ts
