-- ===== src/Calc.antt =====
-- kernel/calc/calc.c: the evaluator of integer expressions. An int64_t is its 64 bits, as a number
-- below 2^64. Where the result does not fit, the machine wraps it around, but its division traps.
pub mod Outcomes
pub mod Grammar
pub mod Value
pub mod Words
pub mod Agree
pub mod Scan
pub mod Complete
pub mod Reads
pub mod Rounds
pub mod Sound
mod Tests
use acharya_os.Base.{
  ℕ, zero, suc, ◌+◌, ◌-◌, ◌*◌, ◌/◌, ◌%◌, ◌^◌, List, [], ◌∷◌, Bool, true, false, not, ◌&&◌, ◌||◌,
  Option, some, none, ◌==◌, leb, if◌then◌else◌, u64, get_or, drop, length,
}
use acharya_os.Kstring.{CString}
use acharya_os.Calc.Outcomes.{Outcome, done, failed, trapped, out_of_fuel, bind}

abbrev pub Parsed : Type 0
Parsed = Outcome (ℕ × CString)

-- *s
abbrev pub char_at : CString → ℕ
char_at s = get_or s 0 0

unfoldable pub skip_spaces : CString → CString
skip_spaces [] = []
skip_spaces (c ∷ cs) = let rest = skip_spaces cs in if c == 32 then rest else c ∷ cs

abbrev pub is_digit : ℕ → Bool
is_digit c = leb 48 c && leb c 57

-- The loop of `calc_parse_number`: the value and what is left.
unfoldable pub digits_loop : ℕ → CString → ℕ × CString
digits_loop value [] = (value, [])
digits_loop value (c ∷ cs) =
    let rest = digits_loop (u64 (value * 10 + (c - 48))) cs in
    if is_digit c then rest else (value, c ∷ cs)

-- The loop reads at least one digit, so the count of digits is never 0 behind it.
unfoldable pub parse_number : CString → Parsed
parse_number s =
    let p = skip_spaces s in if is_digit (char_at p) then done (digits_loop 0 p) else failed

abbrev pub is_negative : ℕ → Bool
is_negative v = leb (2 ^ 63) v

abbrev pub negate : ℕ → ℕ
negate v = u64 (2 ^ 64 - v)

abbrev pub magnitude : ℕ → ℕ
magnitude v = if is_negative v then 2 ^ 64 - v else v

-- The quotient is cut towards 0, and the remainder has the sign of the left operand.
abbrev pub quotient : ℕ → ℕ → ℕ
quotient left right =
    let q = magnitude left / magnitude right in
    if is_negative left
    then (if is_negative right then u64 q else negate q)
    else if is_negative right
    then negate q
    else q

abbrev pub remainder : ℕ → ℕ → ℕ
remainder left right =
    let r = magnitude left % magnitude right in if is_negative left then negate r else r

-- The one quotient that does not fit: the least number by -1.
abbrev pub traps : ℕ → ℕ → Bool
traps left right = left == 2 ^ 63 && right == 2 ^ 64 - 1

pub apply_op : ℕ → ℕ → ℕ → Outcome ℕ
apply_op left right op =
    if op == 43
    then done (u64 (left + right))
    else if op == 45
    then done (u64 (left + (2 ^ 64 - right)))
    else if op == 42
    then done (u64 (left * right))
    else if op == 47
    then (if right == 0
        then failed
        else if traps left right
        then trapped
        else done (quotient left right))
    else if op == 37
    then (if right == 0
        then failed
        else if traps left right
        then trapped
        else done (remainder left right))
    else failed

abbrev pub is_mul_op : ℕ → Bool
is_mul_op c = c == 42 || c == 47 || c == 37

abbrev pub is_add_op : ℕ → Bool
is_add_op c = c == 43 || c == 45

-- The end of a factor in parentheses.
abbrev pub close : ℕ → CString → Parsed
close inner q = let p = skip_spaces q in if char_at p == 41 then done (inner, drop 1 p) else failed

abbrev pub with_sign : ℕ → ℕ → ℕ
with_sign sign value = if sign == 45 then negate value else value

-- Each call costs a unit of fuel; the loops are functions of their own.
unfoldable mutual
  pub parse_factor : ℕ → CString → Parsed
  parse_factor zero s = out_of_fuel
  parse_factor (suc n) s =
      let p = skip_spaces s in
      let inner = bind (parse_expr n (drop 1 p)) λ (v, q). close v q in
      let signed = bind (parse_factor n (drop 1 p)) λ (v, q). done (with_sign (char_at p) v, q) in
      if char_at p == 40 then inner else if is_add_op (char_at p) then signed else parse_number p

  pub parse_term : ℕ → CString → Parsed
  parse_term zero s = out_of_fuel
  parse_term (suc n) s = bind (parse_factor n s) λ (v, p). term_loop n v p

  pub term_loop : ℕ → ℕ → CString → Parsed
  term_loop zero left s = out_of_fuel
  term_loop (suc n) left s =
      let p = skip_spaces s in
      let more =
        bind (parse_factor n (drop 1 p))
          λ (right, q). bind (apply_op left right (char_at p)) λ v. term_loop n v q in
      if is_mul_op (char_at p) then more else done (left, p)

  pub parse_expr : ℕ → CString → Parsed
  parse_expr zero s = out_of_fuel
  parse_expr (suc n) s = bind (parse_term n s) λ (v, p). expr_loop n v p

  pub expr_loop : ℕ → ℕ → CString → Parsed
  expr_loop zero left s = out_of_fuel
  expr_loop (suc n) left s =
      let p = skip_spaces s in
      let more =
        bind (parse_term n (drop 1 p))
          λ (right, q). bind (apply_op left right (char_at p)) λ v. expr_loop n v q in
      if is_add_op (char_at p) then more else done (left, p)

-- What stands behind the expression must be the end of the text.
abbrev pub finish : ℕ → CString → Outcome ℕ
finish value p = if char_at (skip_spaces p) == 0 then done value else failed

pub evaluate : Option CString → Outcome ℕ
evaluate none = failed
evaluate (some s) = bind (parse_expr (4 * length s + 3) s) λ (v, p). finish v p
