-- ===== src/Log/Format.antt =====
-- The format strings of `log_writef`, in kernel/debug/log.c. The variadic arguments are a list, and
-- have the types that the format asks for; where they do not, the code reads garbage, and the model
-- an empty string or 0.
pub mod Message
pub mod Buffer
mod Tests
use acharya_os.Base.{
  ℕ, zero, suc, ◌+◌, ◌-◌, ◌/◌, ◌%◌, List, [], ◌∷◌, ◌++◌, Bool, true, false, not, ◌&&◌, ◌||◌, ◌==◌,
  ltb, leb, if◌then◌else◌, u8, u64, set, replicate, ℤ, pos, negsuc,
}
use acharya_os.Kstring.{CString}
use acharya_os.Log.{Log, Level, write, message_max}

pub data Arg : Type 0 where
  string : CString → Arg
  int : ℤ → Arg
  uint : ℕ → Arg
  char : ℕ → Arg

-- va_arg: the next argument as the type asked for, and the other ones.
abbrev pub next_string : List Arg → CString
next_string [] = []
next_string (string s ∷ args) = s
next_string (_ ∷ args) = []

abbrev pub next_int : List Arg → ℤ
next_int [] = pos 0
next_int (int n ∷ args) = n
next_int (_ ∷ args) = pos 0

abbrev pub next_uint : List Arg → ℕ
next_uint [] = 0
next_uint (uint n ∷ args) = n
next_uint (_ ∷ args) = 0

abbrev pub next_char : List Arg → ℕ
next_char [] = 0
next_char (char c ∷ args) = c
next_char (_ ∷ args) = 0

abbrev pub others : List Arg → List Arg
others [] = []
others (a ∷ args) = args

-- The buffer, and `position`, which counts also what did not fit.
pub record Writer : Type 0 where
  pub buffer : CString
  pub position : ℕ

pub append_char : ℕ → ℕ → Writer → Writer
append_char size c w = record {
  buffer = if ltb (u64 (w.position + 1)) size then set w.buffer w.position c else w.buffer;
  position = u64 (w.position + 1);
}

pub append_str : ℕ → CString → Writer → Writer
append_str size [] w = w
append_str size (c ∷ cs) w =
    let rest = append_str size cs (append_char size c w) in if c == 0 then w else rest

-- The first loop of `log_append_uint`, with the room that `tmp` has left; what the second loop
-- writes, in that order.
pub uint_digits : ℕ → ℕ → ℕ → Bool → List ℕ → List ℕ
uint_digits zero value base uppercase tmp = tmp
uint_digits (suc room) value base uppercase tmp =
    let digit = value % base in
    let letter_a = if uppercase then b'A' else b'a' in
    let rest =
      uint_digits room (value / base) base uppercase
        ((if ltb digit 10 then b'0' + digit else letter_a + (digit - 10)) ∷ tmp) in
    if ltb 0 value then rest else tmp

-- while (len > 0) log_append_char(..., tmp[--len]);
pub append_all : ℕ → List ℕ → Writer → Writer
append_all size [] w = w
append_all size (c ∷ cs) w = append_all size cs (append_char size c w)

pub append_uint : ℕ → ℕ → ℕ → Bool → Writer → Writer
append_uint size value base uppercase w =
    if value == 0
    then append_char size b'0' w
    else append_all size (uint_digits 32 value base uppercase []) w

pub append_int : ℕ → ℤ → Writer → Writer
append_int size (pos n) w = append_uint size n 10 false w
append_int size (negsuc n) w = append_uint size (n + 1) 10 false (append_char size b'-' w)

-- The switch on the character behind a percent sign.
pub append_spec : ℕ → ℕ → List Arg → Writer → Writer
append_spec size c args w =
    if c == b's'
    then append_str size (next_string args) w
    else if c == b'd'
    then append_int size (next_int args) w
    else if c == b'x'
    then append_uint size (next_uint args) 16 false w
    else if c == b'c'
    then append_char size (u8 (next_char args)) w
    else if c == b'%'
    then append_char size b'%' w
    else append_char size c (append_char size b'%' w)

-- Whether the character takes an argument.
abbrev pub takes_arg : ℕ → Bool
takes_arg c = c == b's' || (c == b'd' || (c == b'x' || c == b'c'))

-- The loop of `log_format_message`.
pub format_loop : ℕ → CString → List Arg → Writer → Writer
format_loop size [] args w = w
format_loop size (c ∷ []) args w = if c == 0 then w else append_char size c w
format_loop size (c ∷ d ∷ fmt) args w =
    let plain = format_loop size (d ∷ fmt) args (append_char size c w) in
    let spec =
      format_loop size fmt (if takes_arg d then others args else args)
        (append_spec size d args w) in
    if c == 0
    then w
    else if not (c == b'%')
    then plain
    else if d == 0
    then append_char size b'%' w
    else spec

pub format_message : CString → ℕ → CString → List Arg → CString
format_message buffer size fmt args =
    let w = format_loop size fmt args (record { buffer = buffer; position = 0 }) in
    if size == 0
    then buffer
    else if leb size w.position
    then set w.buffer (size - 1) 0
    else set w.buffer w.position 0

-- `buffer` is what the stack holds.
pub writef : Level → CString → List Arg → CString → ℕ → Log → Log
writef level fmt args buffer now log =
    write level (format_message (set buffer 0 0) message_max fmt args) now log
