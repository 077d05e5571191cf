-- ===== src/Kstring/Laws.antt =====
-- The string functions by what the arrays say.
use acharya_os.Base.{
  ℕ, zero, suc, ◌-◌, ◌≤◌, ◌<◌, ◌≡◌, refl, ap, ◌↔◌, List, [], ◌∷◌, true, false, arith, ◌==◌, length,
  take, Bool-cases, inl, inr, sym, ◌∙◌, length-take,
}
use acharya_os.Kstring.{CString, text, has_text, strlen, strcmp, str_eq, copy_loop, copy_text}

-- A string is as long as what it says.
pub strlen-eq-length : (s : CString) → strlen s ≡ length (text s)
unfolding strlen
strlen-eq-length [] = refl
strlen-eq-length (c ∷ cs) = ground (arith, strlen-eq-length cs)

-- Two strings compare equal exactly when they say the same.
pub str_eq_iff : (a b : CString) → (str_eq a b ≡ true) ↔ (text a ≡ text b)
unfolding str_eq strcmp
str_eq_iff [] [] = ground arith
str_eq_iff [] (b ∷ bs) = ground arith
str_eq_iff (a ∷ xs) [] = ground arith
str_eq_iff (a ∷ xs) (b ∷ bs) = ground (arith, str_eq_iff xs bs)

pub length-copy_loop :
    (room : ℕ) (dest src : CString) → length (copy_loop room dest src) ≡ length dest
unfolding copy_loop
length-copy_loop room [] src = refl
length-copy_loop zero (d ∷ ds) src = refl
length-copy_loop (suc room) (d ∷ ds) [] = refl
length-copy_loop (suc room) (d ∷ ds) (c ∷ cs) = ground (arith, length-copy_loop room ds cs)

pub text-copy_loop :
    (room : ℕ) (dest src : CString)
    → room < length dest
    → text (copy_loop room dest src) ≡ take room (text src)
unfolding copy_loop
text-copy_loop room [] src h = absurd (omega arith)
text-copy_loop zero (d ∷ ds) src h = refl
text-copy_loop (suc room) (d ∷ ds) [] h = refl
text-copy_loop (suc room) (d ∷ ds) (c ∷ cs) h = elim (Bool-cases (c == 0)) [
  | inl e ↦ ground arith
  | inr e ↦ ground (arith, text-copy_loop room ds cs)
]

pub length-copy_text :
    (dest : CString) (size : ℕ) (src : CString) → length (copy_text dest size src) ≡ length dest
unfolding copy_text
length-copy_text dest size src = ground (arith, length-copy_loop (size - 1) dest src)

-- The bounded copy never writes past the array, ends what it writes by a NUL, and makes the array
-- say the source's text, cut to one less than the size.
pub text-copy_text :
    (dest : CString) (size : ℕ) (src : CString)
    → 0 < size
    → size ≤ length dest
    → text (copy_text dest size src) ≡ take (size - 1) (text src)
unfolding copy_text
text-copy_text dest size src h fits = ground (arith, text-copy_loop (size - 1) dest src)

has_text-copy_loop :
    (room : ℕ) (dest src : CString)
    → 0 < room
    → 0 < length dest
    → has_text (copy_loop room dest src) ≡ has_text src
unfolding copy_loop
has_text-copy_loop zero dest src h k = absurd (omega arith)
has_text-copy_loop (suc n) [] src h k = absurd (omega arith)
has_text-copy_loop (suc n) (d ∷ ds) [] h k = refl
has_text-copy_loop (suc n) (d ∷ ds) (c ∷ cs) h k = elim (Bool-cases (c == 0)) [
  | inl z ↦ rw z
  | inr z ↦ rw (z, z)
]

-- A copy into two characters or more is empty exactly when its source is.
pub has_text-copy_text :
    (dest : CString) (size : ℕ) (src : CString)
    → 2 ≤ size
    → size ≤ length dest
    → has_text (copy_text dest size src) ≡ has_text src
unfolding copy_text
has_text-copy_text dest size src h fits =
    let some_room : (size == 0) ≡ false = ground arith in
    rw some_room (has_text-copy_loop (size - 1) dest src (omega arith) (omega arith))

-- What a copy says is shorter than the size.
pub copy_text-lt :
    (dest : CString) (size : ℕ) (src : CString)
    → 0 < size
    → size ≤ length dest
    → length (text (copy_text dest size src)) < size
copy_text-lt dest size src h fits =
    let e = ap (λ (t : List ℕ). length t) (text-copy_text dest size src h fits) in
    omega (arith, e, length-take (size - 1) (text src))

-- A copy compares equal to exactly the strings that say what fits of its source.
pub copy_text-eq :
    (dest : CString) (size : ℕ) (src other : CString)
    → 0 < size
    → size ≤ length dest
    → (str_eq (copy_text dest size src) other ≡ true) ↔ (take (size - 1) (text src) ≡ text other)
copy_text-eq dest size src other h fits =
    let e = text-copy_text dest size src h fits in
    let i = str_eq_iff (copy_text dest size src) other in (λ q. sym e ∙ i.0 q, λ q. i.1 (e ∙ q))
