-- ===== src/Config/Lines.antt =====
-- What `config_save` writes, `config_load` reads.
use acharya_os.Base.{
  ℕ, zero, suc, ◌+◌, ◌-◌, ◌≤◌, ◌<◌, ◌≡◌, refl, ap, sym, ◌∙◌, arith, List, [], ◌∷◌, ◌++◌, Bool, true,
  false, not, ◌&&◌, some, ◌==◌, ltb, if◌then◌else◌, Bool-cases, inl, inr, length, length-append,
  append_assoc, append_nil,
}
use acharya_os.Kstring.{CString, text}
use acharya_os.Config.{
  skip_breaks, line_loop, skip_line, next_line, split_line, read_line, read_lines, read_text,
  put_text, is_full, save_loop, save_text,
}
use acharya_os.Config.Table.{Entry, is_used, set_entry}

-- A character that stands in a line, and one that stands in a key.
abbrev pub is_plain : ℕ → Bool
is_plain c = not (c == 0) && (not (c == 10) && not (c == 13))

abbrev pub all_plain : List ℕ → Bool
all_plain [] = true
all_plain (c ∷ cs) = is_plain c && all_plain cs

abbrev pub all_in_key : List ℕ → Bool
all_in_key [] = true
all_in_key (c ∷ cs) = (is_plain c && not (c == 61)) && all_in_key cs

-- An entry that one line of text can say.
pub record IsClean (e : Entry) : Type 0 where
  pub key_there : 0 < length (text e.key)
  pub key_plain : all_in_key (text e.key) ≡ true
  pub value_plain : all_plain (text e.value) ≡ true
  pub key_short : length (text e.key) ≤ 31
  pub value_short : length (text e.value) ≤ 95

-- The entries in use are clean.
abbrev pub AreClean : List Entry → Type 0
AreClean [] = Unit
AreClean (e ∷ es) = (is_used e ≡ true → IsClean e) × AreClean es

abbrev line : Entry → List ℕ
line e = text e.key ++ (61 ∷ text e.value)

-- The lines of the entries in use.
abbrev pub lines : List Entry → List ℕ
lines [] = []
lines (e ∷ es) = if is_used e then line e ++ (10 ∷ lines es) else lines es

-- Each entry in use is set in turn.
abbrev pub set_all : List Entry → List Entry → List Entry
set_all [] table = table
set_all (e ∷ es) table =
    if is_used e
    then set_all es (set_entry (text e.key) (text e.value) table).1
    else set_all es table

put_text-lines :
    (cs : CString) (buffer : List ℕ)
    → length buffer + length (text cs) < 1024
    → put_text cs buffer ≡ buffer ++ text cs
unfolding put_text
put_text-lines [] buffer h = sym (append_nil buffer)
put_text-lines (c ∷ cs) buffer h = elim (Bool-cases (c == 0)) [
  | inl e ↦ rw e (sym (append_nil buffer))
  | inr e ↦
      let more : length buffer + suc (length (text cs)) < 1024 = rw e at h in
      let room : ltb (length buffer + 1) 1024 ≡ true = ground arith in
      rw (e, room)
        (put_text-lines cs (buffer ++ (c ∷ [])) (omega (arith, more, length-append buffer (c ∷ [])))
          ∙ append_assoc buffer (c ∷ []) (text cs))
]

not_full : (buffer : List ℕ) → length buffer + 1 < 1024 → is_full buffer ≡ false
not_full buffer h = let room : ltb (length buffer + 1) 1024 ≡ true = ground arith in rw room refl

save_loop-lines :
    (es : List Entry) (buffer : List ℕ)
    → length buffer + length (lines es) < 1024
    → save_loop es buffer ≡ buffer ++ lines es
unfolding save_loop
save_loop-lines [] buffer h = sym (append_nil buffer)
save_loop-lines (e ∷ es) buffer h = elim (Bool-cases (is_used e)) [
  | inr off ↦ rw off (save_loop-lines es buffer (rw off at h))
  | inl on ↦
      let fits : length buffer + length (line e ++ (10 ∷ lines es)) < 1024 = rw on at h in
      let size = length-append (line e) (10 ∷ lines es) in
      let size' = length-append (text e.key) (61 ∷ text e.value) in
      let keyed = buffer ++ text e.key in
      let key_size = length-append buffer (text e.key) in
      let k = put_text-lines e.key buffer (omega (arith, fits, size, size')) in
      let valued = (keyed ++ (61 ∷ [])) ++ text e.value in
      let eq_size = length-append keyed (61 ∷ []) in
      let value_size = length-append (keyed ++ (61 ∷ [])) (text e.value) in
      let v =
        put_text-lines e.value (keyed ++ (61 ∷ []))
          (omega (arith, fits, size, size', key_size, eq_size)) in
      let a : is_full keyed ≡ false = not_full keyed (omega (arith, fits, size, size', key_size)) in
      let b : is_full valued ≡ false =
        not_full valued (omega (arith, fits, size, size', key_size, eq_size, value_size)) in
      let end_size = length-append valued (10 ∷ []) in
      rw (on, k, v, a, b)
        (save_loop-lines es (valued ++ (10 ∷ []))
            (omega (arith, fits, size, size', key_size, eq_size, value_size, end_size))
          ∙ simp (append_assoc))
]

line_loop-line :
    (xs : List ℕ) (room : ℕ) (rest : CString)
    → all_plain xs ≡ true
    → length xs ≤ room
    → line_loop room (xs ++ (10 ∷ rest)) ≡ (xs, 10 ∷ rest)
unfolding line_loop
line_loop-line [] zero rest h fits = refl
line_loop-line [] (suc room) rest h fits = refl
line_loop-line (x ∷ xs) zero rest h fits = absurd (omega arith)
line_loop-line (x ∷ xs) (suc room) rest h fits =
    let a : (x == 0) ≡ false = ground arith in
    let b : (x == 10) ≡ false = ground arith in
    let c : (x == 13) ≡ false = ground arith in
    let more : all_plain xs ≡ true = ground arith in
    rw (a, b, c, line_loop-line xs room rest more (omega arith)) refl

split_line-line :
    (ks vs : List ℕ) → all_in_key ks ≡ true → split_line (ks ++ (61 ∷ vs)) ≡ some (ks, vs)
unfolding split_line
split_line-line [] vs h = refl
split_line-line (k ∷ ks) vs h =
    let a : (k == 0) ≡ false = ground arith in
    let b : (k == 61) ≡ false = ground arith in
    let more : all_in_key ks ≡ true = ground arith in rw (a, b, split_line-line ks vs more) refl

all_plain-line :
    (ks vs : List ℕ)
    → all_in_key ks ≡ true
    → all_plain vs ≡ true
    → all_plain (ks ++ (61 ∷ vs)) ≡ true
all_plain-line [] vs h g = g
all_plain-line (k ∷ ks) vs h g =
    let a : is_plain k ≡ true = ground arith in
    let more : all_in_key ks ≡ true = ground arith in rw (a, all_plain-line ks vs more g) refl

skip_breaks-plain :
    (xs rest : List ℕ) → 0 < length xs → all_plain xs ≡ true → skip_breaks (xs ++ rest) ≡ xs ++ rest
unfolding skip_breaks
skip_breaks-plain [] rest h g = absurd (omega arith)
skip_breaks-plain (x ∷ xs) rest h g =
    let b : (x == 10) ≡ false = ground arith in
    let c : (x == 13) ≡ false = ground arith in rw (b, c) refl

next_line-line :
    (xs rest : List ℕ)
    → 0 < length xs
    → length xs ≤ 129
    → all_plain xs ≡ true
    → next_line (xs ++ (10 ∷ rest)) 130 ≡ (xs, rest)
unfolding next_line skip_line
next_line-line xs rest some_text fits h =
    rw (skip_breaks-plain xs (10 ∷ rest) some_text h, line_loop-line xs 129 rest h fits) refl

read_line-line :
    (ks vs : List ℕ) (table : List Entry)
    → 0 < length ks
    → all_in_key ks ≡ true
    → read_line (ks ++ (61 ∷ vs)) table ≡ (set_entry ks vs table).1
unfolding read_line
read_line-line [] vs table some_text h = absurd (omega arith)
read_line-line (k ∷ ks) vs table some_text h =
    let a : (k == 0) ≡ false = ground arith in rw (a, split_line-line (k ∷ ks) vs h) refl

-- One line is read, and then the further text.
read_lines-line :
    (n : ℕ) (ks vs rest : List ℕ) (table : List Entry)
    → 0 < length ks
    → all_in_key ks ≡ true
    → all_plain vs ≡ true
    → length ks + length vs ≤ 128
    → read_lines (suc n) ((ks ++ (61 ∷ vs)) ++ (10 ∷ rest)) table
      ≡ read_lines n rest (set_entry ks vs table).1
unfolding read_lines
read_lines-line n [] vs rest table some_text h g short = absurd (omega arith)
read_lines-line n (k ∷ ks) vs rest table some_text h g short =
    let xs = (k ∷ ks) ++ (61 ∷ vs) in
    let a : (k == 0) ≡ false = ground arith in
    let l =
      next_line-line xs rest (omega arith) (omega (arith, short, length-append (k ∷ ks) (61 ∷ vs)))
        (all_plain-line (k ∷ ks) vs h g) in
    rw (a, l, read_line-line (k ∷ ks) vs table some_text h) refl

read_lines-lines :
    (es : List Entry) (n : ℕ) (table : List Entry)
    → AreClean es
    → length (lines es) ≤ n
    → read_lines n (lines es) table ≡ set_all es table
unfolding read_lines
read_lines-lines [] zero table clean fuel = refl
read_lines-lines [] (suc n) table clean fuel = refl
read_lines-lines (e ∷ es) n table clean fuel = elim (Bool-cases (is_used e)) [
  | inr off ↦ rw off (read_lines-lines es n table clean.1 (rw off at fuel))
  | inl on ↦
      let c = clean.0 on in
      let enough : length (line e ++ (10 ∷ lines es)) ≤ n = rw on at fuel in
      let size = length-append (line e) (10 ∷ lines es) in
      let n' = n - 1 in
      let one : n ≡ suc n' = omega (arith, enough, size) in
      rw (on, one)
        (read_lines-line n' (text e.key) (text e.value) (lines es) table c.key_there c.key_plain
            c.value_plain (omega (arith, c.key_short, c.value_short))
          ∙ read_lines-lines es n' (set_entry (text e.key) (text e.value) table).1 clean.1
              (omega (arith, enough, size)))
]

pub length-save_text :
    (es : List Entry) (most : ℕ)
    → 0 < most
    → most < 1024
    → length (lines es) ≤ most
    → (0 < length (save_text es)) × (length (save_text es) ≤ most)
unfolding save_text
length-save_text es most room small fits =
    let saved = save_loop-lines es [] (omega (arith, fits)) in
    elim (Bool-cases (length (lines es) == 0)) [
      | inr some_text ↦
          let more : 0 < length (lines es) = ground arith in rw (saved, some_text) (more, fits)
      | inl e ↦ rw (saved, e) (omega arith, omega arith)
    ]

-- An empty line says nothing.
no_settings : (table : List Entry) → read_lines 1 (10 ∷ []) table ≡ table
unfolding read_lines next_line skip_breaks read_line skip_line line_loop
no_settings table = refl

-- A table whose entries in use can each be said in one line, and whose lines fit the buffer: what
-- `config_save` writes, `config_load` reads as the same settings, each set in turn.
pub read_text-save_text :
    (es table : List Entry)
    → AreClean es
    → length (lines es) < 1024
    → read_text (save_text es) table ≡ set_all es table
unfolding save_text read_lines
read_text-save_text es table clean fits =
    let saved = save_loop-lines es [] (omega (arith, fits)) in
    elim (Bool-cases (length (lines es) == 0)) [
      | inr some_text ↦
          rw (saved, some_text) (read_lines-lines es (length (lines es)) table clean (omega arith))
      | inl e ↦
          let none_left : lines es ≡ [] = empty (lines es) (ground arith) in
          rw (saved, e)
            (no_settings table
              ∙ sym (ap (λ (t : List ℕ). read_lines 0 t table) none_left)
              ∙ read_lines-lines es 0 table clean
                  (omega (arith, ap (λ (t : List ℕ). length t) none_left)))
    ]
  where
    empty : (xs : List ℕ) → length xs ≡ 0 → xs ≡ []
    empty [] h = refl
    empty (x ∷ xs) h = absurd (omega arith)
