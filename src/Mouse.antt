-- ===== src/Mouse.antt =====
-- drivers/mouse/mouse.c: packets of three bytes, and what they say of the mouse. An int8_t and an
-- int32_t are their bits; sums wrap. An interrupt takes the byte from the port as an argument.
pub mod Packets
mod Tests
use acharya_os.Base.{
  ℕ, ◌+◌, ◌-◌, ◌^◌, List, [], ◌∷◌, Bool, ◌&&◌, Option, none, some, ◌==◌, leb, ltb, if◌then◌else◌,
  u8, u32, bit_and, get_or, set, replicate,
}

-- `mouse_state_t`.
pub record MouseState : Type 0 where
  pub ready : ℕ
  pub packet_ready : ℕ
  pub x : ℕ
  pub y : ℕ
  pub dx : ℕ
  pub dy : ℕ
  pub buttons : ℕ
  pub packet_count : ℕ

-- The static variables.
pub record Mouse : Type 0 where
  pub state : MouseState
  pub packet : List ℕ
  pub index : ℕ
  pub has_packet : ℕ

-- An int8_t as an int32_t.
abbrev pub widen : ℕ → ℕ
widen b = if leb 128 b then 2 ^ 32 - 2 ^ 8 + b else b

-- What a whole packet changes.
pub decode : MouseState → List ℕ → MouseState
decode s packet = record s {
  buttons = bit_and (get_or packet 0 0) 0x07;
  dx = get_or packet 1 0;
  dy = get_or packet 2 0;
  x = u32 (s.x + widen (get_or packet 1 0));
  y = u32 (s.y + (2 ^ 32 - widen (get_or packet 2 0)));
  packet_count = u32 (s.packet_count + 1);
  packet_ready = 1;
}

-- A byte is stored, and the third one ends a packet.
abbrev store : ℕ → Mouse → Mouse
store byte m =
    let packet = set m.packet m.index byte in
    let index = u8 (m.index + 1) in
    if leb 3 index
    then record { state = decode m.state packet; packet = packet; index = 0; has_packet = 1 }
    else record m { packet = packet; index = index }

pub on_interrupt : ℕ → Mouse → Mouse
on_interrupt byte m = if m.index == 0 && bit_and byte 0x08 == 0 then m else store byte m

-- The registers of the controller are left out.
pub init : Mouse → Mouse
init m = record m {
  state = record {
    ready = 1;
    packet_ready = 0;
    x = 0;
    y = 0;
    dx = 0;
    dy = 0;
    buttons = 0;
    packet_count = 0;
  };
  index = 0;
  has_packet = 0;
}

-- The packet, if there is an array for it and one that was not polled yet.
pub poll_packet : Bool → Mouse → Option (List ℕ) × Mouse
poll_packet has_array m =
    if has_array && ltb 0 m.has_packet
    then (some m.packet, record m { has_packet = 0; state = record (m.state) { packet_ready = 0 } })
    else (none, m)
