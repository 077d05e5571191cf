-- ===== src/Calc/Complete.antt =====
-- Every expression of the grammar is evaluated to its value.
use acharya_os.Base.{
  ℕ, zero, suc, ◌+◌, ◌*◌, ◌<◌, ◌≡◌, refl, ap, sym, ◌∙◌, arith, [], ◌∷◌, ◌++◌, true, false, ◌==◌,
  some, length, length-append, append_assoc,
}
use acharya_os.Kstring.{CString}
use acharya_os.Calc.{
  char_at, skip_spaces, is_digit, parse_number, apply_op, is_mul_op, is_add_op, close, with_sign,
  parse_factor, parse_term, term_loop, parse_expr, expr_loop, finish, evaluate,
}
use acharya_os.Calc.Outcomes.{Outcome, done, failed, trapped, out_of_fuel, bind, bind-bind}
use acharya_os.Calc.Grammar.{
  mul_code, add_code, Factor, Factors, Term, Terms, Expr, number, signed, paren, no_factors,
  more_factors, term, no_terms, more_terms, expr, spaces, factor_text, factors_text, term_text,
  terms_text, expr_text, factor_word, factors_word, term_word, terms_word, expr_word,
}
use acharya_os.Calc.Value.{bits, expr_value}
use acharya_os.Calc.Agree.{expr_Agrees}
use acharya_os.Calc.Scan.{
  skip-skip, skip-append, skip_sign, digits_loop-append, ends_term, ends_expr, mul_sign, add_sign,
  add_no_paren, mul_is_mul, add_is_add, sign_ends_number, factors_end_number, terms_end_term,
  expr_loop-skip,
}

-- One round of a loop, and then the further rounds.
module _ (step : ℕ → CString → Outcome (ℕ × CString)) (value : ℕ → Outcome ℕ) (q end : CString)
    (h : (v : ℕ) → step v q ≡ bind (value v) (λ w. done (w, end))) where
  applied_round :
      (r : Outcome ℕ) → bind r (λ v. step v q) ≡ bind (bind r value) (λ w. done (w, end))
  applied_round (done v) = h v
  applied_round failed = refl
  applied_round trapped = refl
  applied_round out_of_fuel = refl

  first_round :
      (x : Outcome ℕ)
      → bind (bind x (λ v. done (v, q))) (λ (v, p). step v p)
        ≡ bind (bind x value) (λ w. done (w, end))
  first_round (done v) = h v
  first_round failed = refl
  first_round trapped = refl
  first_round out_of_fuel = refl

  loop_round :
      (x : Outcome ℕ) (op : ℕ → Outcome ℕ)
      → bind (bind x (λ v. done (v, q))) (λ (right, p). bind (op right) λ v. step v p)
        ≡ bind (bind x (λ right. bind (op right) value)) (λ w. done (w, end))
  loop_round (done v) op = applied_round (op v)
  loop_round failed op = refl
  loop_round trapped op = refl
  loop_round out_of_fuel op = refl

mutual
  unfolding parse_factor factor_text factor_word parse_number skip_spaces

  pub factor_complete :
      (n : ℕ) (f : Factor) (rest : CString)
      → 4 * length (factor_text f) < n
      → is_digit (char_at rest) ≡ false
      → parse_factor n (factor_text f ++ rest) ≡ bind (factor_word f) (λ v. done (v, rest))
  factor_complete zero f rest fuel stop = absurd (omega arith)
  factor_complete (suc n) (number k c cs h) rest fuel stop =
      let digit : is_digit c ≡ true = ground arith in
      let a : (c == 40) ≡ false = ground arith in
      let b : is_add_op c ≡ false = ground arith in
      let d : (c == 32) ≡ false = ground arith in
      let r = digits_loop-append (c ∷ cs) rest 0 h stop in
      rw (skip_sign k c cs rest d, a, b, d, digit, r) refl
  factor_complete (suc n) (signed k op f) rest fuel stop =
      let a = add_no_paren op in
      let size = length-append (spaces k) (add_code op ∷ factor_text f) in
      let r = factor_complete n f rest (omega (arith, fuel, size)) stop in
      rw (skip_sign k (add_code op) (factor_text f) rest (add_sign op), a, add_is_add op, r)
        (bind-bind (factor_word f) (λ v. done (v, rest))
            (λ (v, q). done (with_sign (add_code op) v, q))
          ∙ sym (
              bind-bind (factor_word f) (λ v. done (with_sign (add_code op) v))
                (λ v. done (v, rest))))
  factor_complete (suc n) (paren k e m) rest fuel stop =
      let inner = expr_text e ++ (spaces m ++ (41 ∷ [])) in
      let size = length-append (spaces k) (40 ∷ inner) in
      let size' = length-append (expr_text e) (spaces m ++ (41 ∷ [])) in
      let size'' = length-append (spaces m) (41 ∷ []) in
      let behind = skip_sign m 41 [] rest refl in
      let r =
        expr_complete n e ((spaces m ++ (41 ∷ [])) ++ rest)
          (omega (arith, fuel, size, size', size''))
          (rw (sign_ends_number m 41 [] rest refl, behind) refl) in
      rw
        (
          skip_sign k 40 inner rest refl,
          append_assoc (expr_text e) (spaces m ++ (41 ∷ [])) rest,
          r,
          behind,
        )
        (bind-bind (expr_word e) (λ v. done (v, 41 ∷ rest)) (λ (v, q). close v q))

  pub factors_complete :
      (n left : ℕ) (fs : Factors) (rest : CString)
      → 4 * length (factors_text fs) < n
      → ends_term rest ≡ true
      → term_loop n left (factors_text fs ++ rest)
        ≡ bind (factors_word left fs) (λ v. done (v, skip_spaces rest))
  factors_complete zero left fs rest fuel stop = absurd (omega arith)
  factors_complete (suc n) left no_factors rest fuel stop =
      let a : is_mul_op (char_at (skip_spaces rest)) ≡ false = ground arith in rw a refl
  factors_complete (suc n) left (more_factors k op f fs) rest fuel stop =
      let inner = factor_text f ++ factors_text fs in
      let size = length-append (spaces k) (mul_code op ∷ inner) in
      let size' = length-append (factor_text f) (factors_text fs) in
      let number_ends : is_digit (char_at rest) ≡ false = ground arith in
      let r =
        factor_complete n f (factors_text fs ++ rest) (omega (arith, fuel, size, size'))
          (factors_end_number fs rest number_ends) in
      rw
        (
          skip_sign k (mul_code op) inner rest (mul_sign op),
          mul_is_mul op,
          append_assoc (factor_text f) (factors_text fs) rest,
          r,
        )
        (loop_round (term_loop n) (λ v. factors_word v fs) (factors_text fs ++ rest)
          (skip_spaces rest)
          (λ v. factors_complete n v fs rest (omega (arith, fuel, size, size')) stop)
          (factor_word f) (λ right. apply_op left right (mul_code op)))

  pub term_complete :
      (n : ℕ) (t : Term) (rest : CString)
      → 4 * length (term_text t) + 1 < n
      → ends_term rest ≡ true
      → parse_term n (term_text t ++ rest) ≡ bind (term_word t) (λ v. done (v, skip_spaces rest))
  term_complete zero t rest fuel stop = absurd (omega arith)
  term_complete (suc n) (term f fs) rest fuel stop =
      let size = length-append (factor_text f) (factors_text fs) in
      let number_ends : is_digit (char_at rest) ≡ false = ground arith in
      let r =
        factor_complete n f (factors_text fs ++ rest) (omega (arith, fuel, size))
          (factors_end_number fs rest number_ends) in
      rw (append_assoc (factor_text f) (factors_text fs) rest, r)
        (first_round (term_loop n) (λ v. factors_word v fs) (factors_text fs ++ rest)
          (skip_spaces rest) (λ v. factors_complete n v fs rest (omega (arith, fuel, size)) stop)
          (factor_word f))

  pub terms_complete :
      (n left : ℕ) (ts : Terms) (rest : CString)
      → 4 * length (terms_text ts) < n
      → ends_expr rest ≡ true
      → expr_loop n left (terms_text ts ++ rest)
        ≡ bind (terms_word left ts) (λ v. done (v, skip_spaces rest))
  terms_complete zero left ts rest fuel stop = absurd (omega arith)
  terms_complete (suc n) left no_terms rest fuel stop =
      let a : is_add_op (char_at (skip_spaces rest)) ≡ false = ground arith in rw a refl
  terms_complete (suc n) left (more_terms k op t ts) rest fuel stop =
      let inner = term_text t ++ terms_text ts in
      let size = length-append (spaces k) (add_code op ∷ inner) in
      let size' = length-append (term_text t) (terms_text ts) in
      let term_ends : ends_term rest ≡ true = ground arith in
      let r =
        term_complete n t (terms_text ts ++ rest) (omega (arith, fuel, size, size'))
          (terms_end_term ts rest term_ends) in
      rw
        (
          skip_sign k (add_code op) inner rest (add_sign op),
          add_is_add op,
          append_assoc (term_text t) (terms_text ts) rest,
          r,
        )
        (loop_round (expr_loop n) (λ v. terms_word v ts) (skip_spaces (terms_text ts ++ rest))
          (skip_spaces rest)
          (λ v.
            expr_loop-skip n v (terms_text ts ++ rest)
            ∙ terms_complete n v ts rest (omega (arith, fuel, size, size')) stop)
          (term_word t) (λ right. apply_op left right (add_code op)))

  pub expr_complete :
      (n : ℕ) (e : Expr) (rest : CString)
      → 4 * length (expr_text e) + 2 < n
      → ends_expr rest ≡ true
      → parse_expr n (expr_text e ++ rest) ≡ bind (expr_word e) (λ v. done (v, skip_spaces rest))
  expr_complete zero e rest fuel stop = absurd (omega arith)
  expr_complete (suc n) (expr t ts) rest fuel stop =
      let size = length-append (term_text t) (terms_text ts) in
      let term_ends : ends_term rest ≡ true = ground arith in
      let r =
        term_complete n t (terms_text ts ++ rest) (omega (arith, fuel, size))
          (terms_end_term ts rest term_ends) in
      rw (append_assoc (term_text t) (terms_text ts) rest, r)
        (first_round (expr_loop n) (λ v. terms_word v ts) (skip_spaces (terms_text ts ++ rest))
          (skip_spaces rest)
          (λ v.
            expr_loop-skip n v (terms_text ts ++ rest)
            ∙ terms_complete n v ts rest (omega (arith, fuel, size)) stop)
          (term_word t))

-- The end of the text, with spaces before it, ends an expression.
skip_end :
    (m : ℕ) (tail : CString) → char_at tail ≡ 0 → char_at (skip_spaces (spaces m ++ tail)) ≡ 0
unfolding skip_spaces
skip_end m [] h = ap char_at (skip-append m []) ∙ refl
skip_end m (c ∷ cs) h =
    let no_space : (c == 32) ≡ false = ground arith in rw (skip-append m (c ∷ cs), no_space) h

gap_no_digit :
    (m : ℕ) (tail : CString) → char_at tail ≡ 0 → is_digit (char_at (spaces m ++ tail)) ≡ false
gap_no_digit zero tail h = rw h refl
gap_no_digit (suc m) tail h = refl

-- The text of any expression, with spaces and the end of the text behind it, is evaluated to the 64
-- bits of the integer that the expression is worth in a calculation that brings each result into the
-- range of an int64_t, or to the error of this calculation: a division by 0, or the division of the
-- least int64_t by -1. The fuel suffices.
pub evaluate_complete :
    (e : Expr) (m : ℕ) (tail : CString)
    → char_at tail ≡ 0
    → evaluate (some (expr_text e ++ (spaces m ++ tail))) ≡ bind (expr_value e) (λ z. done (bits z))
unfolding evaluate
evaluate_complete e m tail h =
    let rest = spaces m ++ tail in
    let nul = skip_end m tail h in
    let size = length-append (expr_text e) rest in
    let digit = gap_no_digit m tail h in
    let r =
      expr_complete (4 * length (expr_text e ++ rest) + 3) e rest (omega (arith, size))
        (rw (digit, nul) refl) in
    rw r (
      ended (expr_word e) (skip_spaces rest) (ap char_at (skip-skip rest) ∙ nul)
      ∙ (expr_Agrees e).0)
  where
    ended :
        (x : Outcome ℕ) (p : CString)
        → char_at (skip_spaces p) ≡ 0
        → bind (bind x (λ v. done (v, p))) (λ (v, q). finish v q) ≡ x
    ended (done v) p g = rw g refl
    ended failed p g = refl
    ended trapped p g = refl
    ended out_of_fuel p g = refl
