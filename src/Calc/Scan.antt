-- ===== src/Calc/Scan.antt =====
-- The text that calc.c reads sign by sign.
use acharya_os.Base.{
  ℕ, zero, suc, ◌+◌, ◌-◌, ◌*◌, ◌≡◌, refl, ◌∙◌, arith, [], ◌∷◌, ◌++◌, Bool, true, false, not, ◌&&◌,
  ◌==◌, Bool-cases, inl, inr, append_assoc, u64,
}
use acharya_os.Kstring.{CString}
use acharya_os.Calc.{char_at, skip_spaces, is_digit, digits_loop, is_mul_op, is_add_op, expr_loop}
use acharya_os.Calc.Grammar.{
  MulOp, AddOp, times, over, modulo, plus, minus, mul_code, add_code, all_digits, Factors, Terms,
  no_factors, more_factors, no_terms, more_terms, spaces, factors_text, term_text, terms_text,
  number_from,
}

pub skip-skip : (s : CString) → skip_spaces (skip_spaces s) ≡ skip_spaces s
unfolding skip_spaces
skip-skip [] = refl
skip-skip (c ∷ cs) = elim (Bool-cases (c == 32)) [
  | inl e ↦ rw e (skip-skip cs)
  | inr e ↦ rw (e, e) refl
]

pub skip-append : (k : ℕ) (s : CString) → skip_spaces (spaces k ++ s) ≡ skip_spaces s
unfolding skip_spaces
skip-append zero s = refl
skip-append (suc k) s = skip-append k s

-- Behind the spaces stands a sign.
pub skip_sign :
    (k c : ℕ) (cs rest : CString)
    → (c == 32) ≡ false
    → skip_spaces ((spaces k ++ (c ∷ cs)) ++ rest) ≡ c ∷ (cs ++ rest)
unfolding skip_spaces
skip_sign k c cs rest h =
    rw (append_assoc (spaces k) (c ∷ cs) rest) (skip-append k (c ∷ (cs ++ rest)) ∙ rw h refl)

pub digits_loop-append :
    (cs rest : CString) (value : ℕ)
    → all_digits cs ≡ true
    → is_digit (char_at rest) ≡ false
    → digits_loop value (cs ++ rest) ≡ (number_from value cs, rest)
unfolding digits_loop
digits_loop-append [] [] value h stop = refl
digits_loop-append [] (c ∷ cs) value h stop = rw stop refl
digits_loop-append (c ∷ cs) rest value h stop =
    let first : is_digit c ≡ true = ground arith in
    let others : all_digits cs ≡ true = ground arith in
    rw first (digits_loop-append cs rest (u64 (value * 10 + (c - 48))) others stop)

-- Where a number cannot go on, and a term cannot, and an expression cannot.
abbrev pub ends_number : CString → Bool
ends_number s = not (is_digit (char_at s))

abbrev pub ends_term : CString → Bool
ends_term s = not (is_digit (char_at s)) && not (is_mul_op (char_at (skip_spaces s)))

abbrev pub ends_expr : CString → Bool
ends_expr s =
    not (is_digit (char_at s))
    && (not (is_mul_op (char_at (skip_spaces s))) && not (is_add_op (char_at (skip_spaces s))))

pub mul_sign : (op : MulOp) → (mul_code op == 32) ≡ false
mul_sign times = refl
mul_sign over = refl
mul_sign modulo = refl

pub add_sign : (op : AddOp) → (add_code op == 32) ≡ false
add_sign plus = refl
add_sign minus = refl

pub add_no_paren : (op : AddOp) → (add_code op == 40) ≡ false
add_no_paren plus = refl
add_no_paren minus = refl

pub mul_is_mul : (op : MulOp) → is_mul_op (mul_code op) ≡ true
mul_is_mul times = refl
mul_is_mul over = refl
mul_is_mul modulo = refl

pub add_is_add : (op : AddOp) → is_add_op (add_code op) ≡ true
add_is_add plus = refl
add_is_add minus = refl

-- Before a sign no number goes on.
pub sign_ends_number :
    (k c : ℕ) (cs rest : CString)
    → is_digit c ≡ false
    → is_digit (char_at ((spaces k ++ (c ∷ cs)) ++ rest)) ≡ false
sign_ends_number zero c cs rest h = h
sign_ends_number (suc k) c cs rest h = refl

pub factors_end_number :
    (fs : Factors) (rest : CString)
    → is_digit (char_at rest) ≡ false
    → is_digit (char_at (factors_text fs ++ rest)) ≡ false
unfolding factors_text
factors_end_number no_factors rest h = h
factors_end_number (more_factors k times f fs) rest h = sign_ends_number k 42 _ rest refl
factors_end_number (more_factors k over f fs) rest h = sign_ends_number k 47 _ rest refl
factors_end_number (more_factors k modulo f fs) rest h = sign_ends_number k 37 _ rest refl

pub terms_end_term :
    (ts : Terms) (rest : CString) → ends_term rest ≡ true → ends_term (terms_text ts ++ rest) ≡ true
unfolding terms_text
terms_end_term no_terms rest h = h
terms_end_term (more_terms k plus t ts) rest h =
    rw
      (
        sign_ends_number k 43 (term_text t ++ terms_text ts) rest refl,
        skip_sign k 43 (term_text t ++ terms_text ts) rest refl,
      )
      refl
terms_end_term (more_terms k minus t ts) rest h =
    rw
      (
        sign_ends_number k 45 (term_text t ++ terms_text ts) rest refl,
        skip_sign k 45 (term_text t ++ terms_text ts) rest refl,
      )
      refl

pub expr_loop-skip :
    (n left : ℕ) (s : CString) → expr_loop n left (skip_spaces s) ≡ expr_loop n left s
unfolding expr_loop
expr_loop-skip zero left s = refl
expr_loop-skip (suc n) left s = rw (skip-skip s) refl
