-- ===== src/Calc/Rounds.antt =====
-- How what the parts of an expression have read makes up a whole.
use acharya_os.Base.{ℕ, ◌≤◌, ◌≡◌, ap, ◌∙◌, arith, ◌∷◌, ◌++◌, length, length-append, append_assoc}
use acharya_os.Kstring.{CString}
use acharya_os.Calc.{apply_op}
use acharya_os.Calc.Outcomes.{done}
use acharya_os.Calc.Grammar.{
  MulOp, AddOp, mul_code, add_code, more_factors, term, more_terms, expr, spaces, factor_text,
  factors_text, term_text, terms_text, expr_text, factors_word, term_word, terms_word, expr_word,
}
use acharya_os.Calc.Reads.{ReadsFactor, ReadsFactors, ReadsTerm, ReadsTerms, ReadsExpr, terms_gap}

-- An operator and a factor before further factors.
pub factors_more :
    (left : ℕ) (s : CString) (g : ℕ) (op : MulOp) (p : CString) (right : ℕ) (q : CString) (v : ℕ)
    (x : ℕ × CString)
    → s ≡ spaces g ++ (mul_code op ∷ p)
    → ReadsFactor p (right, q)
    → apply_op left right (mul_code op) ≡ done v
    → ReadsFactors v q x
    → ReadsFactors left s x
unfolding factors_text factors_word
factors_more left s g op p right q v (w, rest) there (f, text, value) applied
      (fs, k, texts, values) =
    (
      more_factors g op f fs,
      k,
      there
          ∙ ap (λ (t : CString). spaces g ++ (mul_code op ∷ t))
              (text ∙ ap (λ (t : CString). factor_text f ++ t) texts)
          ∙ simp (append_assoc),
      rw (value, applied) values,
    )

pub term_start :
    (s : CString) (v : ℕ) (q : CString) (x : ℕ × CString)
    → ReadsFactor s (v, q)
    → ReadsFactors v q x
    → ReadsTerm s x
unfolding term_text term_word
term_start s v q (w, rest) (f, text, value) (fs, k, texts, values) = (
  term f fs,
  k,
  text ∙ ap (λ (t : CString). factor_text f ++ t) texts ∙ simp (append_assoc),
  rw value values,
)

pub terms_more :
    (left : ℕ) (s : CString) (g : ℕ) (op : AddOp) (p : CString) (right : ℕ) (q : CString) (v : ℕ)
    (x : ℕ × CString)
    → s ≡ spaces g ++ (add_code op ∷ p)
    → ReadsTerm p (right, q)
    → apply_op left right (add_code op) ≡ done v
    → ReadsTerms v q x
    → ReadsTerms left s x
unfolding terms_text terms_word
terms_more left s g op p right q v (w, rest) there (t, k, text, value) applied
      (ts, m, texts, values) =
    let gap = terms_gap k ts m rest in
    (
      more_terms g op t gap.0,
      gap.1,
      there
          ∙ ap (λ (r : CString). spaces g ++ (add_code op ∷ r))
              (text
                ∙ ap (λ (r : CString). term_text t ++ r)
                    (ap (λ (r : CString). spaces k ++ r) texts ∙ gap.2))
          ∙ simp (append_assoc),
      rw (value, applied) (gap.3 v ∙ values),
    )

pub expr_start :
    (s : CString) (v : ℕ) (q : CString) (x : ℕ × CString)
    → ReadsTerm s (v, q)
    → ReadsTerms v q x
    → ReadsExpr s x
unfolding expr_text expr_word
expr_start s v q (w, rest) (t, k, text, value) (ts, m, texts, values) =
    let gap = terms_gap k ts m rest in
    (
      expr t gap.0,
      gap.1,
      text
          ∙ ap (λ (r : CString). term_text t ++ r)
              (ap (λ (r : CString). spaces k ++ r) texts ∙ gap.2)
          ∙ simp (append_assoc),
      rw value (gap.3 v ∙ values),
    )

pub factor_shorter :
    (s : CString) (v : ℕ) (q : CString) → ReadsFactor s (v, q) → length q ≤ length s
factor_shorter s v q (f, text, value) =
    omega (arith, ap (λ (t : CString). length t) text, length-append (factor_text f) q)

pub term_shorter : (s : CString) (v : ℕ) (q : CString) → ReadsTerm s (v, q) → length q ≤ length s
term_shorter s v q (t, k, text, value) = omega (
  arith,
  ap (λ (r : CString). length r) text,
  length-append (term_text t) (spaces k ++ q),
  length-append (spaces k) q,
)
