-- ===== src/Kstring.antt =====
-- kernel/lib/kstring.c, and the bounded copy that the registries share. A pointer into a char
-- array is the rest of the array from there on; what lies beyond the list reads as NUL, so a
-- string literal is the list of its characters.
pub mod Laws
mod Tests
use Prim.Native.Char.{code}
use Prim.Native.String.{String}
use Prim.Native.String
use acharya_os.Base.{
  ℕ, zero, suc, ◌-◌, List, [], ◌∷◌, Bool, true, not, ◌&&◌, ◌==◌, if◌then◌else◌, u8, ℤ, sub_ℕ,
  is_zero,
}

-- A char array, or what a `const char *` points to.
abbrev pub CString : Type 0
CString = List ℕ

-- The characters of a string literal.
abbrev pub codes : String → CString
codes String.[] = []
codes (String.◌∷◌ c s) = code c ∷ codes s

-- The characters before the first NUL: what the array says.
abbrev pub text : CString → List ℕ
text [] = []
text (c ∷ cs) = if c == 0 then [] else c ∷ text cs

-- s[0] != '\0'
abbrev pub has_text : CString → Bool
has_text [] = not true
has_text (c ∷ cs) = not (c == 0)

unfoldable pub strlen : CString → ℕ
strlen [] = 0
strlen (c ∷ cs) = let rest = suc (strlen cs) in if c == 0 then 0 else rest

unfoldable pub strcmp : CString → CString → ℤ
strcmp [] [] = sub_ℕ 0 0
strcmp [] (b ∷ bs) = sub_ℕ 0 b
strcmp (a ∷ xs) [] = sub_ℕ a 0
strcmp (a ∷ xs) (b ∷ bs) =
    let rest = strcmp xs bs in if not (a == 0) && a == b then rest else sub_ℕ a b

-- strcmp(a, b) == 0
unfoldable pub str_eq : CString → CString → Bool
str_eq a b = is_zero (strcmp a b)

-- `count` bytes of `dest` set to `value`.
unfoldable pub memset : List ℕ → ℕ → ℕ → List ℕ
memset dest value zero = dest
memset [] value (suc count) = []
memset (d ∷ ds) value (suc count) = u8 value ∷ memset ds value count

-- A source that is too short reads as zero bytes.
unfoldable pub memcpy : List ℕ → List ℕ → ℕ → List ℕ
memcpy dest src zero = dest
memcpy [] src (suc count) = []
memcpy (d ∷ ds) [] (suc count) = 0 ∷ memcpy ds [] count
memcpy (d ∷ ds) (s ∷ ss) (suc count) = s ∷ memcpy ds ss count

unfoldable pub memcmp : List ℕ → List ℕ → ℕ → ℤ
memcmp a b zero = sub_ℕ 0 0
memcmp [] [] (suc count) = sub_ℕ 0 0
memcmp [] (b ∷ bs) (suc count) = let rest = memcmp [] bs count in if 0 == b then rest else sub_ℕ 0 b
memcmp (a ∷ xs) [] (suc count) = let rest = memcmp xs [] count in if a == 0 then rest else sub_ℕ a 0
memcmp (a ∷ xs) (b ∷ bs) (suc count) =
    let rest = memcmp xs bs count in if a == b then rest else sub_ℕ a b

-- The loop of the `*_copy_text` functions: `room` characters may still be written before the NUL.
unfoldable pub copy_loop : ℕ → CString → CString → CString
copy_loop room [] src = []
copy_loop zero (d ∷ ds) src = 0 ∷ ds
copy_loop (suc room) (d ∷ ds) [] = 0 ∷ ds
copy_loop (suc room) (d ∷ ds) (c ∷ cs) =
    let rest = c ∷ copy_loop room ds cs in if c == 0 then 0 ∷ ds else rest

unfoldable pub copy_text : CString → ℕ → CString → CString
copy_text dest size src = if size == 0 then dest else copy_loop (size - 1) dest src
