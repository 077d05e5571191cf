-- ===== src/Log/Format/Message.antt =====
-- What a format and its arguments stand for, and the digits of a number.
use native.Mathlib.Nat.{pow-suc}
use acharya_os.Base.{
  get_or, append_assoc, append_nil, refl, sym, ℕ, zero, suc, ◌+◌, ◌-◌, ◌*◌, ◌/◌, ◌%◌, ◌^◌, ◌<◌, ◌≡◌,
  ap, ◌∙◌, arith, List, [], ◌∷◌, ◌++◌, false, true, ltb, not, ◌==◌, Bool-cases, inl, inr,
  if◌then◌else◌, u8, pos, negsuc, ℤ,
}
use acharya_os.Kstring.{CString, codes, text}
use acharya_os.Log.Format.{
  Arg, next_string, next_int, next_uint, next_char, others, takes_arg, uint_digits,
}

-- The character for a digit.
abbrev pub digit_char : ℕ → ℕ
digit_char d = get_or (codes "0123456789abcdef") d 0

-- A number written with `digits` digits at most, without zeros in front.
unfoldable pub numeral : ℕ → ℕ → ℕ → List ℕ
numeral zero base n = []
numeral (suc digits) base n =
    let front = numeral digits base (n / base) in
    if n == 0 then [] else front ++ (digit_char (n % base) ∷ [])

-- A number of 64 bits, as it is written to a base.
abbrev pub numeral_of : ℕ → ℕ → List ℕ
numeral_of n base = if n == 0 then b'0' ∷ [] else numeral 32 base n

-- The digits that the formatter writes.
abbrev pub digits_of : ℕ → ℕ → List ℕ
digits_of value base = if value == 0 then b'0' ∷ [] else uint_digits 32 value base false []

abbrev pub int_text : ℤ → List ℕ
int_text (pos n) = numeral_of n 10
int_text (negsuc n) = b'-' ∷ numeral_of (n + 1) 10

digit_char_lem : (d : ℕ) → d < 16 → (if ltb d 10 then b'0' + d else b'a' + (d - 10)) ≡ digit_char d
digit_char_lem zero h = refl
digit_char_lem (suc zero) h = refl
digit_char_lem (suc (suc zero)) h = refl
digit_char_lem (suc (suc (suc zero))) h = refl
digit_char_lem (suc (suc (suc (suc zero)))) h = refl
digit_char_lem (suc (suc (suc (suc (suc zero))))) h = refl
digit_char_lem (suc (suc (suc (suc (suc (suc zero)))))) h = refl
digit_char_lem (suc (suc (suc (suc (suc (suc (suc zero))))))) h = refl
digit_char_lem (suc (suc (suc (suc (suc (suc (suc (suc zero)))))))) h = refl
digit_char_lem (suc (suc (suc (suc (suc (suc (suc (suc (suc zero))))))))) h = refl
digit_char_lem (suc (suc (suc (suc (suc (suc (suc (suc (suc (suc zero)))))))))) h = refl
digit_char_lem (suc (suc (suc (suc (suc (suc (suc (suc (suc (suc (suc zero))))))))))) h = refl
digit_char_lem (suc (suc (suc (suc (suc (suc (suc (suc (suc (suc (suc (suc zero)))))))))))) h = refl
digit_char_lem (suc (suc (suc (suc (suc (suc (suc (suc (suc (suc (suc (suc (suc zero)))))))))))))
      h =
    refl
digit_char_lem
      (suc (suc (suc (suc (suc (suc (suc (suc (suc (suc (suc (suc (suc (suc zero)))))))))))))) h =
    refl
digit_char_lem
      (suc (suc (suc (suc (suc (suc (suc (suc (suc (suc (suc (suc (suc (suc (suc zero)))))))))))))))
      h =
    refl
digit_char_lem
      (suc
        (suc (suc (suc (suc (suc (suc (suc (suc (suc (suc (suc (suc (suc (suc (suc d))))))))))))))))
      h =
    absurd (omega arith)

uint_digits_lem :
    (room n base : ℕ) (tmp : List ℕ)
    → n % base < 16
    → ((k : ℕ) → k % base < 16)
    → uint_digits room n base false tmp ≡ numeral room base n ++ tmp
unfolding uint_digits numeral
uint_digits_lem zero n base tmp h k = refl
uint_digits_lem (suc room) n base tmp h k = elim (Bool-cases (ltb 0 n)) [
  | inr z ↦ let none_left : (n == 0) ≡ true = ground arith in rw (z, none_left) refl
  | inl more ↦
      let some_left : (n == 0) ≡ false = ground arith in
      rw (more, some_left, digit_char_lem (n % base) h)
        (uint_digits_lem room (n / base) base (digit_char (n % base) ∷ tmp) (k (n / base)) k
          ∙ sym (append_assoc (numeral room base (n / base)) (digit_char (n % base) ∷ []) tmp))
]

-- To base 10 and to base 16, the formatter writes the number.
pub digits_of_lem : (n base : ℕ) → ((k : ℕ) → k % base < 16) → digits_of n base ≡ numeral_of n base
digits_of_lem n base small = elim (Bool-cases (n == 0)) [
  | inl z ↦ rw z refl
  | inr nz ↦ rw nz (uint_digits_lem 32 n base [] (small n) small ∙ append_nil (numeral 32 base n))
]

-- What a percent sign with this character stands for.
abbrev pub spec_text : ℕ → List Arg → List ℕ
spec_text c args =
    if c == b's'
    then text (next_string args)
    else if c == b'd'
    then int_text (next_int args)
    else if c == b'x'
    then numeral_of (next_uint args) 16
    else if c == b'c'
    then u8 (next_char args) ∷ []
    else if c == b'%'
    then b'%' ∷ []
    else b'%' ∷ c ∷ []

-- The whole message.
unfoldable pub rendered : CString → List Arg → List ℕ
rendered [] args = []
rendered (c ∷ []) args = if c == 0 then [] else c ∷ []
rendered (c ∷ d ∷ fmt) args =
    let plain = c ∷ rendered (d ∷ fmt) args in
    let spec = spec_text d args ++ rendered fmt (if takes_arg d then others args else args) in
    if c == 0 then [] else if not (c == b'%') then plain else if d == 0 then b'%' ∷ [] else spec

-- The number that decimal digits say, with `acc` in front of them.
abbrev pub number_from : ℕ → List ℕ → ℕ
number_from acc [] = acc
number_from acc (c ∷ cs) = number_from (acc * 10 + (c - b'0')) cs

number_from-uint_digits :
    (room value : ℕ) (tmp : List ℕ)
    → value < 10 ^ room
    → number_from 0 (uint_digits room value 10 false tmp) ≡ number_from value tmp
unfolding uint_digits
number_from-uint_digits zero value tmp h = let none_left : value ≡ 0 = omega arith in rw none_left
number_from-uint_digits (suc room) value tmp h = elim (Bool-cases (ltb 0 value)) [
  | inr z ↦ let none_left : value ≡ 0 = ground arith in rw none_left
  | inl more ↦
      let digit : ltb (value % 10) 10 ≡ true = ground arith in
      let whole : value / 10 * 10 + (b'0' + value % 10 - b'0') ≡ value = omega arith in
      rw (more, digit)
        (number_from-uint_digits room (value / 10) ((b'0' + value % 10) ∷ tmp)
            (omega (arith, pow-suc 10 room))
          ∙ ap (λ k. number_from k tmp) whole)
]

-- The decimal digits that the formatter writes of a 64-bit number say this number: the room for 32
-- digits is always enough.
pub number_from-digits_of :
    (value : ℕ) → value < 2 ^ 64 → number_from 0 (digits_of value 10) ≡ value
number_from-digits_of value h = elim (Bool-cases (value == 0)) [
  | inl z ↦ let e : value ≡ 0 = ground arith in rw (z, e)
  | inr nz ↦ rw nz (number_from-uint_digits 32 value [] (omega arith))
]
