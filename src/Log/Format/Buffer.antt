-- ===== src/Log/Format/Buffer.antt =====
-- A formatted message is what its format says, cut to the buffer.
use native.Mathlib.Decide.{dec_lt}
use acharya_os.Base.{
  append_assoc, append_nil, take-append, take-set, ℕ, zero, suc, ◌+◌, ◌-◌, ◌%◌, ◌^◌, ◌<◌, ◌≡◌, refl,
  ap, sym, ◌∙◌, arith, List, [], ◌∷◌, ◌++◌, true, false, ◌==◌, ltb, leb, min, Bool-cases, inl, inr,
  if◌then◌else◌, length, take, take-all, take-nil, set, length-set, length-append, u8, u64, pos,
  negsuc, ℤ,
}
use acharya_os.Kstring.{CString, text}
use acharya_os.Log.Format.{
  Arg, Writer, next_string, next_int, next_uint, next_char, others, takes_arg, append_char,
  append_str, append_all, append_uint, append_int, append_spec, uint_digits, format_loop,
  format_message,
}
use acharya_os.Log.Format.Message.{
  digits_of, digits_of_lem, numeral_of, int_text, spec_text, rendered,
}

text-set : (n : ℕ) (xs : CString) → n < length xs → text (set xs n 0) ≡ text (take n xs)
text-set n [] h = absurd (omega arith)
text-set zero (x ∷ xs) h = refl
text-set (suc n) (x ∷ xs) h = ap (λ t. if x == 0 then [] else x ∷ t) (text-set n xs (omega arith))

-- The writer has taken these characters, and the buffer holds those that fit.
record Holds (size : ℕ) (out : List ℕ) (w : Writer) : Type 0 where
  room : length w.buffer ≡ size
  counted : w.position ≡ length out
  written : take (min (length out) (size - 1)) w.buffer ≡ take (size - 1) out

module _ (size : ℕ) (some_room : 0 < size) (word : size < 2 ^ 64) where
  Holds-char :
      (c : ℕ) (out : List ℕ) (w : Writer)
      → length out + 1 < 2 ^ 64
      → Holds size out w
      → Holds size (out ++ (c ∷ [])) (append_char size c w)
  unfolding append_char
  Holds-char c out w small h =
      let len = length-append out (c ∷ []) in
      let position : u64 (w.position + 1) ≡ length out + 1 = omega (arith, h.counted) in
      elim (dec_lt (length out + 1) size) [
        | yes fits ↦
            let cond : ltb (length out + 1) size ≡ true = ground arith in
            let m' : min (length (out ++ (c ∷ []))) (size - 1) ≡ suc (length out) =
              omega (arith, len) in
            let m : min (length out) (size - 1) ≡ length out = omega arith in
            let whole : take (length out) w.buffer ≡ out =
              ap (λ k. take k w.buffer) (sym m)
              ∙ h.written
              ∙ take-all (size - 1) out (omega arith) in
            rw (position, cond, h.counted)
              (record {
                room = length-set w.buffer (length out) c ∙ h.room;
                counted = omega (arith, len);
                written = rw m' (
                    take-set (length out) w.buffer c (omega (arith, h.room))
                    ∙ ap (λ t. t ++ (c ∷ [])) whole
                    ∙ sym (take-all (size - 1) (out ++ (c ∷ [])) (omega (arith, len))));
              })
        | no full ↦
            let cond : ltb (length out + 1) size ≡ false = ground arith in
            let m' : min (length (out ++ (c ∷ []))) (size - 1) ≡ min (length out) (size - 1) =
              omega (arith, len) in
            rw (position, cond)
              (record {
                room = h.room;
                counted = omega (arith, len);
                written =
                    rw m' (h.written ∙ sym (take-append (size - 1) out (c ∷ []) (omega arith)));
              })
      ]

  Holds-all :
      (cs out : List ℕ) (w : Writer)
      → length out + length cs < 2 ^ 64
      → Holds size out w
      → Holds size (out ++ cs) (append_all size cs w)
  unfolding append_all
  Holds-all [] out w small h = rw (append_nil out) h
  Holds-all (c ∷ cs) out w small h = rw (← append_assoc out (c ∷ []) cs) (
      Holds-all cs (out ++ (c ∷ [])) (append_char size c w)
        (omega (arith, length-append out (c ∷ []))) (Holds-char c out w (omega arith) h))

  Holds-str :
      (cs out : List ℕ) (w : Writer)
      → length out + length (text cs) < 2 ^ 64
      → Holds size out w
      → Holds size (out ++ text cs) (append_str size cs w)
  unfolding append_str
  Holds-str [] out w small h = rw (append_nil out) h
  Holds-str (c ∷ cs) out w small h = elim (Bool-cases (c == 0)) [
    | inl z ↦ rw (z, append_nil out) h
    | inr nz ↦
        let small' : length out + suc (length (text cs)) < 2 ^ 64 = rw nz at small in
        rw (nz, ← append_assoc out (c ∷ []) (text cs))
          (Holds-str cs (out ++ (c ∷ [])) (append_char size c w)
            (omega (arith, length-append out (c ∷ []))) (Holds-char c out w (omega arith) h))
  ]

  Holds-uint :
      (value base : ℕ) (out : List ℕ) (w : Writer)
      → length out + length (digits_of value base) < 2 ^ 64
      → Holds size out w
      → Holds size (out ++ digits_of value base) (append_uint size value base false w)
  unfolding append_uint
  Holds-uint value base out w small h = elim (Bool-cases (value == 0)) [
    | inl z ↦
        let small' : length out + 1 < 2 ^ 64 = rw z at small in
        rw z (Holds-char b'0' out w small' h)
    | inr nz ↦
        let small' : length out + length (uint_digits 32 value base false []) < 2 ^ 64 =
          rw nz at small in
        rw nz (Holds-all (uint_digits 32 value base false []) out w small' h)
  ]

  Holds-numeral :
      (value base : ℕ) (out : List ℕ) (w : Writer)
      → ((k : ℕ) → k % base < 16)
      → length out + length (numeral_of value base) < 2 ^ 64
      → Holds size out w
      → Holds size (out ++ numeral_of value base) (append_uint size value base false w)
  Holds-numeral value base out w digit small h =
      let same = digits_of_lem value base digit in
      rw (← same) (Holds-uint value base out w (rw (← same) at small) h)

  Holds-int :
      (n : ℤ) (out : List ℕ) (w : Writer)
      → length out + length (int_text n) < 2 ^ 64
      → Holds size out w
      → Holds size (out ++ int_text n) (append_int size n w)
  unfolding append_int
  Holds-int (pos n) out w small h = Holds-numeral n 10 out w (λ k. omega arith) small h
  Holds-int (negsuc n) out w small h = rw (← append_assoc out (b'-' ∷ []) (numeral_of (n + 1) 10)) (
      Holds-numeral (n + 1) 10 (out ++ (b'-' ∷ [])) (append_char size b'-' w) (λ k. omega arith)
        (omega (arith, length-append out (b'-' ∷ []))) (Holds-char b'-' out w (omega arith) h))

  Holds-two :
      (c : ℕ) (out : List ℕ) (w : Writer)
      → length out + 2 < 2 ^ 64
      → Holds size out w
      → Holds size (out ++ (b'%' ∷ c ∷ [])) (append_char size c (append_char size b'%' w))
  Holds-two c out w small h = rw (← append_assoc out (b'%' ∷ []) (c ∷ [])) (
      Holds-char c (out ++ (b'%' ∷ [])) (append_char size b'%' w)
        (omega (arith, length-append out (b'%' ∷ []))) (Holds-char b'%' out w (omega arith) h))

  Holds-spec :
      (c : ℕ) (args : List Arg) (out : List ℕ) (w : Writer)
      → length out + length (spec_text c args) < 2 ^ 64
      → Holds size out w
      → Holds size (out ++ spec_text c args) (append_spec size c args w)
  unfolding append_spec
  Holds-spec c args out w small h = elim (Bool-cases (c == b's')) [
    | inl e ↦ rw e (Holds-str (next_string args) out w (rw e at small) h)
    | inr n1 ↦ elim (Bool-cases (c == b'd')) [
      | inl e ↦ rw (n1, e) (Holds-int (next_int args) out w (rw (n1, e) at small) h)
      | inr n2 ↦ elim (Bool-cases (c == b'x')) [
        | inl e ↦
            rw (n1, n2, e)
              (Holds-numeral (next_uint args) 16 out w (λ k. omega arith) (rw (n1, n2, e) at small)
                h)
        | inr n3 ↦ elim (Bool-cases (c == b'c')) [
          | inl e ↦
              rw (n1, n2, n3, e)
                (Holds-char (u8 (next_char args)) out w (rw (n1, n2, n3, e) at small) h)
          | inr n4 ↦ elim (Bool-cases (c == b'%')) [
            | inl e ↦
                rw (n1, n2, n3, n4, e) (Holds-char b'%' out w (rw (n1, n2, n3, n4, e) at small) h)
            | inr n5 ↦
                rw (n1, n2, n3, n4, n5) (Holds-two c out w (rw (n1, n2, n3, n4, n5) at small) h)
          ]
        ]
      ]
    ]
  ]

  Holds-loop :
      (fmt : CString) (args : List Arg) (out : List ℕ) (w : Writer)
      → length out + length (rendered fmt args) < 2 ^ 64
      → Holds size out w
      → Holds size (out ++ rendered fmt args) (format_loop size fmt args w)
  unfolding format_loop rendered
  Holds-loop [] args out w small h = rw (append_nil out) h
  Holds-loop (c ∷ []) args out w small h = elim (Bool-cases (c == 0)) [
    | inl z ↦ rw (z, append_nil out) h
    | inr nz ↦ rw nz (Holds-char c out w (rw nz at small) h)
  ]
  Holds-loop (c ∷ d ∷ fmt) args out w small h = elim (Bool-cases (c == 0)) [
    | inl z ↦ rw (z, append_nil out) h
    | inr nz ↦ elim (Bool-cases (c == b'%')) [
      | inr plain ↦
          let small' : length out + suc (length (rendered (d ∷ fmt) args)) < 2 ^ 64 =
            rw (nz, plain) at small in
          rw (nz, plain, ← append_assoc out (c ∷ []) (rendered (d ∷ fmt) args))
            (Holds-loop (d ∷ fmt) args (out ++ (c ∷ [])) (append_char size c w)
              (omega (arith, length-append out (c ∷ []))) (Holds-char c out w (omega arith) h))
      | inl percent ↦ elim (Bool-cases (d == 0)) [
        | inl ends ↦
            rw (nz, percent, ends) (Holds-char b'%' out w (rw (nz, percent, ends) at small) h)
        | inr more ↦
            let args' = if takes_arg d then others args else args in
            let small' : length out + length (spec_text d args ++ rendered fmt args') < 2 ^ 64 =
              rw (nz, percent, more) at small in
            let parts = length-append (spec_text d args) (rendered fmt args') in
            rw (nz, percent, more, ← append_assoc out (spec_text d args) (rendered fmt args'))
              (Holds-loop fmt args' (out ++ spec_text d args) (append_spec size d args w)
                (omega (arith, length-append out (spec_text d args)))
                (Holds-spec d args out w (omega arith) h))
      ]
    ]
  ]

start-Holds :
    (buffer : CString) (size : ℕ)
    → length buffer ≡ size
    → Holds size [] (record { buffer = buffer; position = 0 })
start-Holds buffer size room = record {
  room = room;
  counted = refl;
  written = let e : min 0 (size - 1) ≡ 0 = omega arith in rw e (sym (take-nil ℕ (size - 1)));
}

-- The end of a message, in the place behind it or in the last one.
finished :
    (size : ℕ) (out : List ℕ) (w : Writer)
    → 0 < size
    → Holds size out w
    → text (if leb size w.position then set w.buffer (size - 1) 0 else set w.buffer w.position 0)
      ≡ text (take (size - 1) out)
finished size out w some_room h = elim (Bool-cases (leb size w.position)) [
  | inl long ↦
      let m : min (length out) (size - 1) ≡ size - 1 = ground (arith, h.counted) in
      rw long (
        text-set (size - 1) w.buffer (omega (arith, h.room))
        ∙ ap text (ap (λ k. take k w.buffer) (sym m) ∙ h.written))
  | inr short ↦
      let m : min (length out) (size - 1) ≡ w.position = ground (arith, h.counted) in
      rw short (
        text-set w.position w.buffer (ground (arith, h.room))
        ∙ ap text (ap (λ k. take k w.buffer) (sym m) ∙ h.written))
]

-- The buffer of a formatted message says what the format and the arguments stand for, cut to one
-- character less than the buffer has, and to what stands before a NUL that a `%c` wrote. The buffer
-- and the whole message are smaller than the address space.
pub text-format_message :
    (buffer : CString) (size : ℕ) (fmt : CString) (args : List Arg)
    → 0 < size
    → size < 2 ^ 64
    → length buffer ≡ size
    → length (rendered fmt args) < 2 ^ 64
    → text (format_message buffer size fmt args) ≡ text (take (size - 1) (rendered fmt args))
unfolding format_message
text-format_message buffer size fmt args some_room word room small =
    let start : Writer = record { buffer = buffer; position = 0 } in
    let given : (size == 0) ≡ false = ground arith in
    let h =
      Holds-loop size some_room word fmt args [] start (omega arith)
        (start-Holds buffer size room) in
    rw given (finished size (rendered fmt args) (format_loop size fmt args start) some_room h)
