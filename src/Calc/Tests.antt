-- ===== src/Calc/Tests.antt =====
-- Texts and their values.
use acharya_os.Base.{◌≡◌, ◌≢◌, ◌-◌, ◌^◌, refl, some, [], ◌++◌, pos}
use acharya_os.Kstring.{codes}
use acharya_os.Calc.{evaluate, apply_op, skip_spaces, parse_expr, digits_loop, parse_number}
use acharya_os.Calc.Outcomes.{bind, done, failed, trapped, out_of_fuel}
use acharya_os.Calc.Grammar.{
  Expr, expr, term, number, no_terms, more_terms, no_factors, more_factors, plus, times, spaces,
  expr_text,
}
use acharya_os.Calc.Value.{bits, expr_value}
use acharya_os.Calc.Complete.{evaluate_complete}
use acharya_os.Calc.Sound.{IsExpression, evaluate_sound, evaluate_ends}

precedence : evaluate (some (codes "2 + 3*4")) ≡ done 14
unfolding evaluate apply_op parse_expr skip_spaces parse_number digits_loop
precedence = refl

left_to_right : evaluate (some (codes "-7/2 - (1+1)")) ≡ done (2 ^ 64 - 5)
unfolding evaluate apply_op parse_expr skip_spaces parse_number digits_loop
left_to_right = refl

by_zero : evaluate (some (codes "1/0")) ≡ failed
unfolding evaluate apply_op parse_expr skip_spaces parse_number digits_loop
by_zero = refl

-- The least number by -1.
least_by_minus_one : evaluate (some (codes "(-9223372036854775807-1)/-1")) ≡ trapped
unfolding evaluate apply_op parse_expr skip_spaces parse_number digits_loop
least_by_minus_one = refl

-- 2 + 3*4
abbrev sum : Expr
sum = expr (term (number 0 50 [] refl) no_factors) (
    more_terms 1 plus
      (term (number 1 51 [] refl) (more_factors 0 times (number 0 52 [] refl) no_factors)) no_terms)

sum_value : expr_value sum ≡ done (pos 14)
unfolding expr_value
sum_value = refl

evaluate_complete_example :
    evaluate (some (expr_text sum ++ (spaces 2 ++ []))) ≡ bind (expr_value sum) (λ z. done (bits z))
evaluate_complete_example = evaluate_complete sum 2 [] refl

evaluate_sound_example : IsExpression (codes "2 + 3*4") 14
evaluate_sound_example = evaluate_sound (codes "2 + 3*4") 14 precedence

evaluate_ends_example : evaluate (some (codes "((1+")) ≢ out_of_fuel
evaluate_ends_example = evaluate_ends (some (codes "((1+"))
