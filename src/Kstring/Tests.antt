-- ===== src/Kstring/Tests.antt =====
-- The string functions on concrete arrays.
use acharya_os.Base.{◌∷◌, ◌++◌, ◌≡◌, ◌↔◌, refl, true, replicate}
use acharya_os.Kstring.{CString, codes, text, str_eq, copy_text, copy_loop, strlen, memset, memcpy}
use acharya_os.Kstring.Laws.{str_eq_iff}

abbrev field : CString
field = replicate 5 7

-- A copy that has to cut.
copy_cuts : text (copy_text field 4 (codes "kernel")) ≡ codes "ker"
unfolding copy_text copy_loop
copy_cuts = refl

strlen_stops : strlen (codes "ab" ++ (0 ∷ codes "cd")) ≡ 2
unfolding strlen
strlen_stops = refl

memcpy_prefix : memcpy field (codes "os") 2 ≡ codes "os" ++ replicate 3 7
unfolding memcpy
memcpy_prefix = refl

memset_prefix : memset field 256 2 ≡ replicate 2 0 ++ replicate 3 7
unfolding memset
memset_prefix = refl

str_eq_iff_example :
    (str_eq (codes "root" ++ replicate 3 0) (codes "root") ≡ true)
    ↔ (text (codes "root" ++ replicate 3 0) ≡ text (codes "root"))
str_eq_iff_example = str_eq_iff (codes "root" ++ replicate 3 0) (codes "root")
