-- ===== src/Calc/Reads.antt =====
-- What a function of calc.c has read when it succeeds.
use acharya_os.Base.{
  ℕ, zero, suc, ◌+◌, ◌-◌, ◌*◌, ◌<◌, ◌≡◌, ◌≢◌, refl, ap, sym, ◌∙◌, arith, List, [], ◌∷◌, ◌++◌, Bool,
  true, ◌==◌, if◌then◌else◌, Bool-cases, inl, inr, length, length-append, append_assoc, drop, u64,
}
use acharya_os.Kstring.{CString}
use acharya_os.Calc.{
  char_at, skip_spaces, is_digit, digits_loop, parse_number, apply_op, is_mul_op, is_add_op, close,
  traps, quotient, remainder,
}
use acharya_os.Calc.Outcomes.{done, failed, trapped, Ensures, Ensures-if}
use acharya_os.Calc.Scan.{skip-skip}
use acharya_os.Calc.Grammar.{
  MulOp, AddOp, times, over, modulo, plus, minus, mul_code, add_code, all_digits, Factor, Factors,
  Term, Terms, Expr, number, paren, no_terms, more_terms, spaces, factor_text, factors_text,
  term_text, terms_text, expr_text, number_from, factor_word, factors_word, term_word, terms_word,
  expr_word,
}

-- What is skipped is spaces.
pub skipped : (s : CString) → (k : ℕ) × (s ≡ spaces k ++ skip_spaces s)
unfolding skip_spaces
skipped [] = (0, refl)
skipped (c ∷ cs) =
    let r = skipped cs in
    elim (Bool-cases (c == 32)) [
      | inl e ↦
          let space : c ≡ 32 = ground arith in
          rw e (suc r.0, ap (λ (x : ℕ). x ∷ cs) space ∙ ap (λ (t : CString). 32 ∷ t) r.1)
      | inr e ↦ rw e (0, refl)
    ]

-- A sign that was read stands there.
pub sign_there : (p : CString) → char_at p ≢ 0 → p ≡ char_at p ∷ drop 1 p
sign_there [] h = absurd (h refl)
sign_there (c ∷ cs) h = refl

pub digits_sound :
    (p : CString) (value : ℕ)
    → (cs : List ℕ) × (all_digits cs ≡ true)
      × (p ≡ cs ++ (digits_loop value p).1)
      × ((digits_loop value p).0 ≡ number_from value cs)
unfolding digits_loop
digits_sound [] value = ([], refl, refl, refl)
digits_sound (c ∷ ps) value =
    let r = digits_sound ps (u64 (value * 10 + (c - 48))) in
    elim (Bool-cases (is_digit c)) [
      | inl e ↦ rw e (c ∷ r.0, rw (e, r.1) refl, ap (λ (t : CString). c ∷ t) r.2, r.3)
      | inr e ↦ rw e ([], refl, refl, refl)
    ]

abbrev pub ReadsFactor : CString → ℕ × CString → Type 0
ReadsFactor s (v, rest) = (f : Factor) × (s ≡ factor_text f ++ rest) × (factor_word f ≡ done v)

abbrev pub ReadsFactors : ℕ → CString → ℕ × CString → Type 0
ReadsFactors left s (v, rest) =
    (fs : Factors) × (k : ℕ) × (s ≡ factors_text fs ++ (spaces k ++ rest))
    × (factors_word left fs ≡ done v)

abbrev pub ReadsTerm : CString → ℕ × CString → Type 0
ReadsTerm s (v, rest) =
    (t : Term) × (k : ℕ) × (s ≡ term_text t ++ (spaces k ++ rest)) × (term_word t ≡ done v)

abbrev pub ReadsTerms : ℕ → CString → ℕ × CString → Type 0
ReadsTerms left s (v, rest) =
    (ts : Terms) × (k : ℕ) × (s ≡ terms_text ts ++ (spaces k ++ rest))
    × (terms_word left ts ≡ done v)

abbrev pub ReadsExpr : CString → ℕ × CString → Type 0
ReadsExpr s (v, rest) =
    (e : Expr) × (k : ℕ) × (s ≡ expr_text e ++ (spaces k ++ rest)) × (expr_word e ≡ done v)

pub spaces-add : (k m : ℕ) (s : CString) → spaces k ++ (spaces m ++ s) ≡ spaces (k + m) ++ s
spaces-add zero m s = let e : 0 + m ≡ m = omega arith in rw e refl
spaces-add (suc k) m s =
    let e : suc k + m ≡ suc (k + m) = omega arith in
    rw e (ap (λ (t : CString). 32 ∷ t) (spaces-add k m s))

-- Spaces before further terms belong to them, or to the end.
pub terms_gap :
    (k : ℕ) (ts : Terms) (m : ℕ) (rest : CString)
    → (ts' : Terms) × (m' : ℕ) × (spaces k ++ (terms_text ts ++ (spaces m ++ rest))
        ≡ terms_text ts' ++ (spaces m' ++ rest))
      × ((left : ℕ) → terms_word left ts' ≡ terms_word left ts)
unfolding terms_text terms_word
terms_gap k no_terms m rest = (no_terms, k + m, spaces-add k m rest, λ left. refl)
terms_gap k (more_terms gap op t ts) m rest =
    let inner = add_code op ∷ (term_text t ++ terms_text ts) in
    (
      more_terms (k + gap) op t ts,
      m,
      sym (append_assoc (spaces k) (spaces gap ++ inner) (spaces m ++ rest))
          ∙ ap (λ (x : CString). x ++ (spaces m ++ rest)) (spaces-add k gap inner),
      λ left. refl,
    )

pub number_at :
    (s p : CString) (k : ℕ)
    → s ≡ spaces k ++ p
    → is_digit (char_at p) ≡ true
    → ReadsFactor s (digits_loop 0 p)
unfolding factor_text factor_word digits_loop
number_at s [] k e digit = cc
number_at s (c ∷ ps) k e digit =
    let value = u64 (0 * 10 + (c - 48)) in
    let r = digits_sound ps value in
    rw digit (
      number k c (r.0) (rw (digit, r.1) refl),
      e
          ∙ ap (λ (t : CString). spaces k ++ (c ∷ t)) r.2
          ∙ sym (append_assoc (spaces k) (c ∷ r.0) (digits_loop value ps).1),
      ap done (sym r.3),
    )

pub number_sound : (s : CString) → Ensures (ReadsFactor s) (parse_number (skip_spaces s))
unfolding parse_number
number_sound s = elim (Bool-cases (is_digit (char_at (skip_spaces s)))) [
  | inl e ↦ let k = skipped s in rw (skip-skip s, e) (number_at s (skip_spaces s) k.0 k.1 e)
  | inr e ↦ rw (skip-skip s, e) tt
]

pub division :
    (by_zero too_large : Bool) (x : ℕ)
    → Ensures (λ v. Unit) (if by_zero then failed else if too_large then trapped else done x)
division by_zero too_large x =
    Ensures-if (λ v. Unit) by_zero failed (if too_large then trapped else done x) tt
      (Ensures-if (λ v. Unit) too_large trapped (done x) tt tt)

pub apply_ends : (left right c : ℕ) → Ensures (λ v. Unit) (apply_op left right c)
unfolding apply_op
apply_ends left right c = elim (Bool-cases (c == 43)) [
  | inl a ↦ rw a tt
  | inr a ↦ elim (Bool-cases (c == 45)) [
    | inl b ↦ rw (a, b) tt
    | inr b ↦ elim (Bool-cases (c == 42)) [
      | inl d ↦ rw (a, b, d) tt
      | inr d ↦ elim (Bool-cases (c == 47)) [
        | inl e ↦ rw (a, b, d, e) (division (right == 0) (traps left right) (quotient left right))
        | inr e ↦ elim (Bool-cases (c == 37)) [
          | inl f ↦
              rw (a, b, d, e, f) (division (right == 0) (traps left right) (remainder left right))
          | inr f ↦ rw (a, b, d, e, f) tt
        ]
      ]
    ]
  ]
]

pub mul_op : (c : ℕ) → is_mul_op c ≡ true → (op : MulOp) × (c ≡ mul_code op)
mul_op c h = elim (Bool-cases (c == 42)) [
  | inl a ↦ (times, ground arith)
  | inr a ↦ elim (Bool-cases (c == 47)) [
    | inl b ↦ (over, ground arith)
    | inr b ↦ (modulo, ground arith)
  ]
]

pub add_op : (c : ℕ) → is_add_op c ≡ true → (op : AddOp) × (c ≡ add_code op)
add_op c h = elim (Bool-cases (c == 43)) [
  | inl a ↦ (plus, ground arith)
  | inr a ↦ (minus, ground arith)
]

pub mul_nonzero : (op : MulOp) → mul_code op ≢ 0
mul_nonzero times e = omega (arith, e)
mul_nonzero over e = omega (arith, e)
mul_nonzero modulo e = omega (arith, e)

pub add_nonzero : (op : AddOp) → add_code op ≢ 0
add_nonzero plus e = omega (arith, e)
add_nonzero minus e = omega (arith, e)

-- The sign that was read, with the spaces before it.
pub read_sign :
    (s : CString) (c : ℕ)
    → char_at (skip_spaces s) ≡ c
    → c ≢ 0
    → (k : ℕ) × (s ≡ spaces k ++ (c ∷ drop 1 (skip_spaces s)))
      × (length (drop 1 (skip_spaces s)) < length s)
read_sign s c e ne =
    let k = skipped s in
    let there = sign_there (skip_spaces s) (λ z. ne (sym e ∙ z)) in
    let whole =
      k.1
      ∙ ap (λ (t : CString). spaces k.0 ++ t)
          (there ∙ ap (λ (x : ℕ). x ∷ drop 1 (skip_spaces s)) e) in
    (
      k.0,
      whole,
      omega (
        arith,
        ap (λ (t : CString). length t) whole,
        length-append (spaces k.0) (c ∷ drop 1 (skip_spaces s)),
      ),
    )

-- The end of a factor in parentheses.
pub paren_sound :
    (s inner : CString) (k v : ℕ) (q : CString)
    → s ≡ spaces k ++ (40 ∷ inner)
    → ReadsExpr inner (v, q)
    → Ensures (ReadsFactor s) (close v q)
unfolding factor_text factor_word
paren_sound s inner k v q there (e, m, text, value) =
    elim (Bool-cases (char_at (skip_spaces q) == 41)) [
      | inr wrong ↦ rw wrong tt
      | inl shut ↦
          let r = read_sign q 41 (ground arith) (λ z. omega (arith, z)) in
          rw shut (
            paren k e (m + r.0),
            there
                ∙ ap (λ (t : CString). spaces k ++ (40 ∷ t))
                    (text
                      ∙ ap (λ (t : CString). expr_text e ++ t)
                          (ap (λ (t : CString). spaces m ++ t) r.1
                            ∙ spaces-add m r.0 (41 ∷ drop 1 (skip_spaces q))))
                ∙ simp (append_assoc),
            value,
          )
    ]
