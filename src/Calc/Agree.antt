-- ===== src/Calc/Agree.antt =====
-- What the code computes are the 64 bits of the integers that the expression is worth.
use acharya_os.Base.{
  ℕ, ◌+◌, ◌-◌, ◌*◌, ◌%◌, ◌^◌, ◌≡◌, refl, sym, ◌∙◌, arith, List, [], ◌∷◌, true, false, ◌&&◌, ◌==◌,
  if◌then◌else◌, Bool-cases, inl, inr, u64, ℤ, pos, negsuc,
}
use acharya_os.Calc.{with_sign, apply_op, quotient, remainder, traps}
use acharya_os.Calc.Outcomes.{Outcome, done, failed, trapped, out_of_fuel, bind}
use acharya_os.Calc.Grammar.{
  MulOp, AddOp, times, over, modulo, plus, minus, mul_code, add_code, Factor, Factors, Term, Terms,
  Expr, number, signed, paren, no_factors, more_factors, term, no_terms, more_terms, expr,
  number_from, factor_word, factors_word, term_word, terms_word, expr_word,
}
use acharya_os.Calc.Value.{
  bits, neg, add, mul, quot, rem, is_least, is_minus_one, divided, mul_result, add_result,
  signed_as, decimal, factor_value, factors_value, term_value, terms_value, expr_value,
}
use acharya_os.Calc.Words.{
  InRange, Agrees, wrap-Agrees, Agrees-bind, bits-neg, bits-add, bits-subtract, bits-mul, pos_bits,
  quotient_lem, remainder_lem, traps_lem,
}

-- A division of the code, and that of integers that it stands for.
division_Agrees :
    (f : ℤ → ℤ → ℤ) (word : ℕ → ℕ → ℕ) (a b : ℤ)
    → InRange a
    → InRange b
    → word (bits a) (bits b) ≡ bits (f a b)
    → Agrees
        (if bits b == 0
          then failed
          else if traps (bits a) (bits b)
          then trapped
          else done (word (bits a) (bits b)))
        (divided f a b)
division_Agrees f word a (pos b) h k e =
    let y = pos_bits b k in
    let no_trap : traps (bits a) (b % 2 ^ 64) ≡ false = ground arith in
    elim (Bool-cases (b == 0)) [
      | inl z ↦
          let zero_bits : (b % 2 ^ 64 == 0) ≡ true = ground arith in rw (z, zero_bits) (refl, tt)
      | inr nz ↦
          let some_bits : (b % 2 ^ 64 == 0) ≡ false = ground arith in
          rw (nz, some_bits, no_trap) (wrap-Agrees _ (f a (pos b)) e)
    ]
division_Agrees f word a (negsuc b) h k e =
    let some_bits : (2 ^ 64 - 1 - b % 2 ^ 64 == 0) ≡ false = ground arith in
    let same = traps_lem a b h k in
    elim (Bool-cases (is_least a && is_minus_one (negsuc b))) [
      | inl z ↦ rw (some_bits, same, z) (refl, tt)
      | inr nz ↦ rw (some_bits, same, nz) (wrap-Agrees _ (f a (negsuc b)) e)
    ]

mul_Agrees :
    (op : MulOp) (a b : ℤ)
    → InRange a
    → InRange b
    → Agrees (apply_op (bits a) (bits b) (mul_code op)) (mul_result op a b)
unfolding apply_op
mul_Agrees times a b h k = wrap-Agrees _ (mul a b) (bits-mul a b h k)
mul_Agrees over a b h k = division_Agrees quot quotient a b h k (quotient_lem a b h k)
mul_Agrees modulo a b h k = division_Agrees rem remainder a b h k (remainder_lem a b h k)

add_Agrees :
    (op : AddOp) (a b : ℤ)
    → Agrees (apply_op (bits a) (bits b) (add_code op)) (done (add_result op a b))
unfolding apply_op
add_Agrees plus a b = wrap-Agrees _ (add a b) (bits-add a b)
add_Agrees minus a b = wrap-Agrees _ (add a (neg b)) (bits-subtract a b)

sign_Agrees :
    (op : AddOp) (a : ℤ)
    → InRange a
    → Agrees (done (with_sign (add_code op) (bits a))) (done (signed_as op a))
sign_Agrees plus a h = (refl, h)
sign_Agrees minus a h = wrap-Agrees _ (neg a) (bits-neg a)

number_from-decimal : (cs : List ℕ) (v : ℕ) → number_from (u64 v) cs ≡ u64 (decimal v cs)
number_from-decimal [] v = refl
number_from-decimal (c ∷ cs) v =
    let step : u64 (u64 v * 10 + (c - b'0')) ≡ u64 (v * 10 + (c - b'0')) = omega arith in
    rw step (number_from-decimal cs (v * 10 + (c - b'0')))

mutual
  unfolding factor_value factor_word

  factor_Agrees : (f : Factor) → Agrees (factor_word f) (factor_value f)
  factor_Agrees (number gap c cs h) =
      wrap-Agrees _ (pos (decimal 0 (c ∷ cs))) (number_from-decimal (c ∷ cs) 0)
  factor_Agrees (signed gap op f) =
      Agrees-bind (factor_word f) (factor_value f) _ _ (factor_Agrees f) (λ a h. sign_Agrees op a h)
  factor_Agrees (paren gap e end_gap) = expr_Agrees e

  factors_Agrees :
      (fs : Factors) (a : ℤ) → InRange a → Agrees (factors_word (bits a) fs) (factors_value a fs)
  factors_Agrees no_factors a h = (refl, h)
  factors_Agrees (more_factors gap op f fs) a h =
      Agrees-bind (factor_word f) (factor_value f) _ _ (factor_Agrees f) (λ b k.
        Agrees-bind (apply_op (bits a) (bits b) (mul_code op)) (mul_result op a b) _ _
          (mul_Agrees op a b h k) (λ c g. factors_Agrees fs c g))

  term_Agrees : (t : Term) → Agrees (term_word t) (term_value t)
  term_Agrees (term f fs) =
      Agrees-bind (factor_word f) (factor_value f) _ _ (factor_Agrees f)
        (λ a h. factors_Agrees fs a h)

  terms_Agrees :
      (ts : Terms) (a : ℤ) → InRange a → Agrees (terms_word (bits a) ts) (terms_value a ts)
  terms_Agrees no_terms a h = (refl, h)
  terms_Agrees (more_terms gap op t ts) a h =
      Agrees-bind (term_word t) (term_value t) _ _ (term_Agrees t) (λ b k.
        Agrees-bind (apply_op (bits a) (bits b) (add_code op)) (done (add_result op a b)) _
          (λ c. terms_value c ts) (add_Agrees op a b) (λ c g. terms_Agrees ts c g))

  pub expr_Agrees : (e : Expr) → Agrees (expr_word e) (expr_value e)
  expr_Agrees (expr t ts) =
      Agrees-bind (term_word t) (term_value t) _ _ (term_Agrees t) (λ a h. terms_Agrees ts a h)

-- A result that the code computes is that of an integer.
pub done_value :
    (e : Expr) (v : ℕ) → expr_word e ≡ done v → (z : ℤ) × (expr_value e ≡ done z) × (bits z ≡ v)
done_value e v h = from_value (expr_value e) (sym (expr_Agrees e).0 ∙ h)
  where
    from_value :
        (y : Outcome ℤ)
        → bind y (λ z. done (bits z)) ≡ done v
        → (z : ℤ) × (y ≡ done z) × (bits z ≡ v)
    from_value (done z) g = (z, refl, cc)
    from_value failed g = absurd cc
    from_value trapped g = absurd cc
    from_value out_of_fuel g = absurd cc
