-- ===== src/Keyboard.antt =====
-- drivers/keyboard/keyboard.c: the scancode decoder and the ring of typed characters. The byte that
-- the interrupt handler reads from the port is an argument; the echo and the end of interrupt are
-- left out.
pub mod Fifo
mod Tests
use acharya_os.Base.{
  ℕ, ◌+◌, ◌%◌, List, [], ◌∷◌, ◌++◌, Bool, true, false, not, ◌||◌, Option, none, some, ◌==◌,
  if◌then◌else◌, u8, u32, bit_and, get_or, set, replicate,
}
use acharya_os.Kstring.{CString, codes}

pub record Keyboard : Type 0 where
  pub keybuf : List ℕ
  pub head : ℕ
  pub tail : ℕ
  pub shift_down : Bool

abbrev pub buf_size : ℕ
buf_size = 128

-- The static variables before the first interrupt.
abbrev pub boot : Keyboard
boot = record { keybuf = replicate buf_size 0; head = 0; tail = 0; shift_down = false }

-- Behind their ends the tables are 0.
abbrev pub scancode_ascii : List ℕ
scancode_ascii =
    (0 ∷ 27 ∷ codes "1234567890-=")
    ++ ((8 ∷ 9 ∷ codes "qwertyuiop[]")
        ++ ((10 ∷ 0 ∷ codes "asdfghjkl;'`")
            ++ ((0 ∷ 92 ∷ codes "zxcvbnm,./") ++ (0 ∷ b'*' ∷ 0 ∷ b' ' ∷ []))))

abbrev pub scancode_ascii_shift : List ℕ
scancode_ascii_shift =
    (0 ∷ 27 ∷ codes "!@#$%^&*()_+")
    ++ ((8 ∷ 9 ∷ codes "QWERTYUIOP{}")
        ++ ((10 ∷ 0 ∷ (codes "ASDFGHJKL:" ++ (34 ∷ codes "~")))
            ++ ((0 ∷ b'|' ∷ codes "ZXCVBNM<>?") ++ (0 ∷ b'*' ∷ 0 ∷ b' ' ∷ []))))

pub buffer_push : ℕ → Keyboard → Keyboard
buffer_push c kb =
    let next_head = u32 (kb.head + 1) % buf_size in
    if next_head == kb.tail
    then kb
    else record kb { keybuf = set kb.keybuf kb.head c; head = next_head }

abbrev pub key_of : ℕ → ℕ
key_of scancode = u8 (bit_and scancode 0x7F)

abbrev pub is_released : ℕ → Bool
is_released scancode = not (bit_and scancode 0x80 == 0)

abbrev pub is_shift : ℕ → Bool
is_shift key = key == 0x2A || key == 0x36

-- 0 where the key has no character.
abbrev pub char_of : Bool → ℕ → ℕ
char_of shift_down key =
    if shift_down then get_or scancode_ascii_shift key 0 else get_or scancode_ascii key 0

pub on_interrupt : ℕ → Keyboard → Keyboard
on_interrupt scancode kb =
    let key = key_of scancode in
    let c = char_of kb.shift_down key in
    if is_shift key
    then record kb { shift_down = not (is_released scancode) }
    else if is_released scancode
    then kb
    else if c == 0
    then kb
    else buffer_push c kb

-- `none` is the result -1.
pub getchar : Keyboard → Option ℕ × Keyboard
getchar kb =
    if kb.head == kb.tail
    then (none, kb)
    else (some (get_or kb.keybuf kb.tail 0), record kb { tail = u32 (kb.tail + 1) % buf_size })
