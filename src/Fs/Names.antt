-- ===== src/Fs/Names.antt =====
-- The comparison of names in the file table.
use acharya_os.Base.{
  ℕ, zero, suc, ◌≤◌, ◌<◌, ◌≡◌, arith, [], ◌∷◌, Bool, true, ◌↔◌, ◌==◌, length, get_or,
}
use acharya_os.Kstring.{CString, text}
use acharya_os.Fs.{name_loop, name_equals}

name_loop_iff :
    (left : ℕ) (a b : CString) (last : Bool)
    → length (text a) < left
    → (name_loop left a b last ≡ true) ↔ (text a ≡ text b)
unfolding name_loop
name_loop_iff zero a b last h = absurd (omega arith)
name_loop_iff (suc left) [] [] last h = ground arith
name_loop_iff (suc left) [] (y ∷ ys) last h = ground arith
name_loop_iff (suc left) (x ∷ xs) [] last h = ground arith
name_loop_iff (suc left) (x ∷ xs) (y ∷ ys) last h = ground (arith, name_loop_iff left xs ys last)

-- A name that is ended in its 16 characters equals exactly the strings that say the same.
pub name_equals_iff :
    (a b : CString) → length (text a) ≤ 15 → (name_equals a b ≡ true) ↔ (text a ≡ text b)
unfolding name_equals
name_equals_iff a b h = name_loop_iff 16 a b (get_or b 15 0 == 0) (omega arith)
