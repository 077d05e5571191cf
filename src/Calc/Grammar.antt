-- ===== src/Calc/Grammar.antt =====
-- The expressions that calc.c is for: their text, with any number of spaces before each sign, and
-- what the code computes for them.
use acharya_os.Base.{ℕ, ◌*◌, ◌+◌, ◌-◌, List, [], ◌∷◌, ◌++◌, Bool, true, ◌≡◌, ◌&&◌, u64, replicate}
use acharya_os.Calc.{apply_op, is_digit, with_sign}
use acharya_os.Calc.Outcomes.{Outcome, done, bind}

pub data MulOp : Type 0 where
  times : MulOp
  over : MulOp
  modulo : MulOp

abbrev pub mul_code : MulOp → ℕ
mul_code times = 42
mul_code over = 47
mul_code modulo = 37

pub data AddOp : Type 0 where
  plus : AddOp
  minus : AddOp

abbrev pub add_code : AddOp → ℕ
add_code plus = 43
add_code minus = 45

abbrev pub all_digits : List ℕ → Bool
all_digits [] = true
all_digits (c ∷ cs) = is_digit c && all_digits cs

mutual
  pub data Factor : Type 0 where
    number : (gap c : ℕ) → (cs : List ℕ) → all_digits (c ∷ cs) ≡ true → Factor
    signed : (gap : ℕ) → AddOp → Factor → Factor
    paren : (gap : ℕ) → Expr → (end_gap : ℕ) → Factor

  -- The further factors of a term.
  pub data Factors : Type 0 where
    no_factors : Factors
    more_factors : (gap : ℕ) → MulOp → Factor → Factors → Factors

  pub data Term : Type 0 where
    term : Factor → Factors → Term

  pub data Terms : Type 0 where
    no_terms : Terms
    more_terms : (gap : ℕ) → AddOp → Term → Terms → Terms

  pub data Expr : Type 0 where
    expr : Term → Terms → Expr

abbrev pub spaces : ℕ → List ℕ
spaces n = replicate n 32

unfoldable mutual
  pub factor_text : Factor → List ℕ
  factor_text (number gap c cs h) = spaces gap ++ (c ∷ cs)
  factor_text (signed gap op f) = spaces gap ++ (add_code op ∷ factor_text f)
  factor_text (paren gap e end_gap) =
      spaces gap ++ (40 ∷ (expr_text e ++ (spaces end_gap ++ (41 ∷ []))))

  pub factors_text : Factors → List ℕ
  factors_text no_factors = []
  factors_text (more_factors gap op f fs) =
      spaces gap ++ (mul_code op ∷ (factor_text f ++ factors_text fs))

  pub term_text : Term → List ℕ
  term_text (term f fs) = factor_text f ++ factors_text fs

  pub terms_text : Terms → List ℕ
  terms_text no_terms = []
  terms_text (more_terms gap op t ts) = spaces gap ++ (add_code op ∷ (term_text t ++ terms_text ts))

  pub expr_text : Expr → List ℕ
  expr_text (expr t ts) = term_text t ++ terms_text ts

-- What the code makes of a row of decimal digits.
abbrev pub number_from : ℕ → List ℕ → ℕ
number_from value [] = value
number_from value (c ∷ cs) = number_from (u64 (value * 10 + (c - 48))) cs

unfoldable mutual
  pub factor_word : Factor → Outcome ℕ
  factor_word (number gap c cs h) = done (number_from 0 (c ∷ cs))
  factor_word (signed gap op f) = bind (factor_word f) λ v. done (with_sign (add_code op) v)
  factor_word (paren gap e end_gap) = expr_word e

  -- Operators of one level are applied from the left.
  pub factors_word : ℕ → Factors → Outcome ℕ
  factors_word left no_factors = done left
  factors_word left (more_factors gap op f fs) =
      bind (factor_word f) λ right. bind (apply_op left right (mul_code op)) λ v. factors_word v fs

  pub term_word : Term → Outcome ℕ
  term_word (term f fs) = bind (factor_word f) λ v. factors_word v fs

  pub terms_word : ℕ → Terms → Outcome ℕ
  terms_word left no_terms = done left
  terms_word left (more_terms gap op t ts) =
      bind (term_word t) λ right. bind (apply_op left right (add_code op)) λ v. terms_word v ts

  pub expr_word : Expr → Outcome ℕ
  expr_word (expr t ts) = bind (term_word t) λ v. terms_word v ts
