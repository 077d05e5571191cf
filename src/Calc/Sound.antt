-- ===== src/Calc/Sound.antt =====
-- The evaluator always ends, and what it accepts is an expression of the grammar.
use acharya_os.Base.{
  ℕ, zero, suc, ◌+◌, ◌*◌, ◌<◌, ◌≡◌, ◌≢◌, refl, ap, subst, sym, ◌∙◌, arith, ◌∷◌, ◌++◌, ◌==◌, ℤ,
  Option, some, none, Bool-cases, inl, inr, length, append_assoc, drop,
}
use acharya_os.Kstring.{CString}
use acharya_os.Calc.{
  char_at, skip_spaces, apply_op, is_mul_op, is_add_op, close, with_sign, parse_factor, parse_term,
  term_loop, parse_expr, expr_loop, finish, evaluate,
}
use acharya_os.Calc.Outcomes.{done, out_of_fuel, Ensures, Ensures-bind, Ensures-map}
use acharya_os.Calc.Grammar.{
  mul_code, add_code, Expr, signed, no_factors, no_terms, spaces, factor_text, expr_text,
  factor_word,
}
use acharya_os.Calc.Value.{bits, expr_value}
use acharya_os.Calc.Agree.{done_value}
use acharya_os.Calc.Reads.{
  skipped, ReadsFactor, ReadsFactors, ReadsTerm, ReadsTerms, ReadsExpr, spaces-add, number_sound,
  apply_ends, mul_op, add_op, mul_nonzero, add_nonzero, read_sign, paren_sound,
}
use acharya_os.Calc.Rounds.{
  factors_more, term_start, terms_more, expr_start, factor_shorter, term_shorter,
}

mutual
  unfolding parse_factor factor_text factor_word

  factor_sound :
      (n : ℕ) (s : CString) → 4 * length s < n → Ensures (ReadsFactor s) (parse_factor n s)
  factor_sound zero s fuel = absurd (omega arith)
  factor_sound (suc n) s fuel =
      let p = skip_spaces s in
      elim (Bool-cases (char_at p == 40)) [
        | inl shut ↦
            let r = read_sign s 40 (ground arith) (λ z. omega (arith, z)) in
            rw shut (
              Ensures-bind (ReadsFactor s) (parse_expr n (drop 1 p)) (λ (v, q). close v q)
                (expr_sound n (drop 1 p) (omega (arith, fuel, r.2)))
                (λ (v, q) e read. paren_sound s (drop 1 p) r.0 v q r.1 read))
        | inr no_paren ↦ elim (Bool-cases (is_add_op (char_at p))) [
          | inl sign ↦
              let op = add_op (char_at p) sign in
              let r = read_sign s (add_code op.0) op.1 (add_nonzero op.0) in
              rw (no_paren, sign)
                (Ensures-bind (ReadsFactor s) (parse_factor n (drop 1 p))
                  (λ (v, q). done (with_sign (char_at p) v, q))
                  (factor_sound n (drop 1 p) (omega (arith, fuel, r.2)))
                  (λ (v, q) e read. (
                    signed r.0 op.0 read.0,
                    r.1
                        ∙ ap (λ (t : CString). spaces r.0 ++ (add_code op.0 ∷ t)) read.1
                        ∙ sym (append_assoc (spaces r.0) (add_code op.0 ∷ factor_text read.0) q),
                    rw read.2 (ap (λ (c : ℕ). done (with_sign c v)) (sym op.1)),
                  )))
          | inr no_sign ↦ rw (no_paren, no_sign) (number_sound s)
        ]
      ]

  factors_sound :
      (n left : ℕ) (s : CString)
      → 4 * length s < n
      → Ensures (ReadsFactors left s) (term_loop n left s)
  factors_sound zero left s fuel = absurd (omega arith)
  factors_sound (suc n) left s fuel =
      let p = skip_spaces s in
      elim (Bool-cases (is_mul_op (char_at p))) [
        | inr ends ↦ let k = skipped s in rw ends (no_factors, k.0, k.1, refl)
        | inl goes_on ↦
            let op = mul_op (char_at p) goes_on in
            let r = read_sign s (mul_code op.0) op.1 (mul_nonzero op.0) in
            rw goes_on (
              Ensures-bind (ReadsFactors left s) (parse_factor n (drop 1 p)) _
                (factor_sound n (drop 1 p) (omega (arith, fuel, r.2)))
                (λ (right, q) e read.
                  Ensures-bind (ReadsFactors left s) (apply_op left right (char_at p)) _
                    (apply_ends left right (char_at p))
                    (λ v applied _.
                      Ensures-map (ReadsFactors v q) (ReadsFactors left s) (term_loop n v q)
                        (factors_sound n v q
                          (omega (arith, fuel, r.2, factor_shorter (drop 1 p) right q read)))
                        (λ x more.
                          factors_more left s r.0 op.0 (drop 1 p) right q v x r.1 read
                            (rw op.1 at applied) more))))
      ]

  term_sound : (n : ℕ) (s : CString) → 4 * length s + 1 < n → Ensures (ReadsTerm s) (parse_term n s)
  term_sound zero s fuel = absurd (omega arith)
  term_sound (suc n) s fuel =
      Ensures-bind (ReadsTerm s) (parse_factor n s) _ (factor_sound n s (omega (arith, fuel)))
        (λ (v, q) e read.
          Ensures-map (ReadsFactors v q) (ReadsTerm s) (term_loop n v q)
            (factors_sound n v q (omega (arith, fuel, factor_shorter s v q read)))
            (λ x more. term_start s v q x read more))

  terms_sound :
      (n left : ℕ) (s : CString)
      → 4 * length s < n
      → Ensures (ReadsTerms left s) (expr_loop n left s)
  terms_sound zero left s fuel = absurd (omega arith)
  terms_sound (suc n) left s fuel =
      let p = skip_spaces s in
      elim (Bool-cases (is_add_op (char_at p))) [
        | inr ends ↦ let k = skipped s in rw ends (no_terms, k.0, k.1, refl)
        | inl goes_on ↦
            let op = add_op (char_at p) goes_on in
            let r = read_sign s (add_code op.0) op.1 (add_nonzero op.0) in
            rw goes_on (
              Ensures-bind (ReadsTerms left s) (parse_term n (drop 1 p)) _
                (term_sound n (drop 1 p) (omega (arith, fuel, r.2)))
                (λ (right, q) e read.
                  Ensures-bind (ReadsTerms left s) (apply_op left right (char_at p)) _
                    (apply_ends left right (char_at p))
                    (λ v applied _.
                      Ensures-map (ReadsTerms v q) (ReadsTerms left s) (expr_loop n v q)
                        (terms_sound n v q
                          (omega (arith, fuel, r.2, term_shorter (drop 1 p) right q read)))
                        (λ x more.
                          terms_more left s r.0 op.0 (drop 1 p) right q v x r.1 read
                            (rw op.1 at applied) more))))
      ]

  expr_sound : (n : ℕ) (s : CString) → 4 * length s + 2 < n → Ensures (ReadsExpr s) (parse_expr n s)
  expr_sound zero s fuel = absurd (omega arith)
  expr_sound (suc n) s fuel =
      Ensures-bind (ReadsExpr s) (parse_term n s) _ (term_sound n s (omega (arith, fuel)))
        (λ (v, q) e read.
          Ensures-map (ReadsTerms v q) (ReadsExpr s) (expr_loop n v q)
            (terms_sound n v q (omega (arith, fuel, term_shorter s v q read)))
            (λ x more. expr_start s v q x read more))

-- What `evaluate` accepts.
abbrev pub IsExpression : CString → ℕ → Type 0
IsExpression s v =
    (e : Expr) × (m : ℕ) × (tail : CString) × (s ≡ expr_text e ++ (spaces m ++ tail))
    × (char_at tail ≡ 0)
    × (z : ℤ) × (expr_value e ≡ done z)
    × (v ≡ bits z)

finish_sound :
    (s : CString) (v : ℕ) (p : CString) → ReadsExpr s (v, p) → Ensures (IsExpression s) (finish v p)
finish_sound s v p (e, k, text, value) = elim (Bool-cases (char_at (skip_spaces p) == 0)) [
  | inr wrong ↦ rw wrong tt
  | inl stop ↦
      let m = skipped p in
      let r = done_value e v value in
      rw stop (
        e,
        k + m.0,
        skip_spaces p,
        text
            ∙ ap (λ (t : CString). expr_text e ++ t)
                (ap (λ (t : CString). spaces k ++ t) m.1 ∙ spaces-add k m.0 (skip_spaces p)),
        ground arith,
        r.0,
        r.1,
        sym r.2,
      )
]

evaluate-Ensures : (s : CString) → Ensures (IsExpression s) (evaluate (some s))
unfolding evaluate
evaluate-Ensures s =
    Ensures-bind (IsExpression s) (parse_expr (4 * length s + 3) s) (λ (v, p). finish v p)
      (expr_sound (4 * length s + 3) s (omega arith)) (λ (v, p) e read. finish_sound s v p read)

-- For every text, or none, the evaluation ends: the fuel never runs out.
pub evaluate_ends : (s : Option CString) → evaluate s ≢ out_of_fuel
unfolding evaluate
evaluate_ends none e = cc
evaluate_ends (some s) e = subst (Ensures (IsExpression s)) e (evaluate-Ensures s)

-- A text that is evaluated to a number is that of an expression, with spaces and the end of the text
-- behind it, and the number is the 64 bits of the integer that the expression is worth.
pub evaluate_sound : (s : CString) (v : ℕ) → evaluate (some s) ≡ done v → IsExpression s v
evaluate_sound s v e = subst (Ensures (IsExpression s)) e (evaluate-Ensures s)
