-- ===== src/Mouse/Packets.antt =====
-- The packets that the mouse sends, and the driver behind lost bytes.
use acharya_os.Base.{
  ℕ, ◌+◌, ◌-◌, ◌^◌, ◌≤◌, ◌<◌, ◌≡◌, refl, ap, ◌∙◌, arith, List, [], ◌∷◌, ◌++◌, true, false, ◌&&◌,
  ◌==◌, leb, length, u8, u32, bit_and, set, length-set, Bool-cases, inl, inr,
}
use native.Mathlib.Decide.{ℕ_discrete}
use acharya_os.Mouse.{Mouse, MouseState, widen, decode, on_interrupt, init}

-- The bytes of one packet; bit 3 of the first one is set.
pub record Packet : Type 0 where
  pub flags : ℕ
  pub across : ℕ
  pub up : ℕ
  pub in_step : (bit_and flags 0x08 == 0) ≡ false

abbrev pub bytes_of : Packet → List ℕ
bytes_of p = p.flags ∷ p.across ∷ p.up ∷ []

abbrev pub receive : List ℕ → Mouse → Mouse
receive [] m = m
receive (b ∷ bs) m = receive bs (on_interrupt b m)

abbrev pub stream : List Packet → List ℕ
stream [] = []
stream (p ∷ ps) = bytes_of p ++ stream ps

-- Each packet is decoded in turn.
abbrev pub decode_all : MouseState → List Packet → MouseState
decode_all s [] = s
decode_all s (p ∷ ps) = decode_all (decode s (bytes_of p)) ps

-- Between two packets.
pub record IsAtStart (m : Mouse) : Type 0 where
  pub index : m.index ≡ 0
  pub packet : length m.packet ≡ 3

set_three :
    (xs : List ℕ) (a b c : ℕ) → length xs ≡ 3 → set (set (set xs 0 a) 1 b) 2 c ≡ a ∷ b ∷ c ∷ []
set_three [] a b c h = absurd (omega arith)
set_three (x ∷ []) a b c h = absurd (omega arith)
set_three (x ∷ y ∷ []) a b c h = absurd (omega arith)
set_three (x ∷ y ∷ z ∷ []) a b c h = refl
set_three (x ∷ y ∷ z ∷ w ∷ ws) a b c h = absurd (omega arith)

receive_packet :
    (p : Packet) (m : Mouse)
    → IsAtStart m
    → receive (bytes_of p) m ≡ record {
      state = decode m.state (bytes_of p);
      packet = bytes_of p;
      index = 0;
      has_packet = 1;
    }
unfolding on_interrupt
receive_packet p m h =
    rw (h.index, p.in_step, set_three m.packet p.flags p.across p.up h.packet) refl

-- Whatever bytes came: less than a packet is stored, and the numbers fit their widths.
pub record IsSound (m : Mouse) : Type 0 where
  pub index_small : m.index ≤ 2
  pub packet_size : length m.packet ≡ 3
  pub x_small : m.state.x < 2 ^ 32
  pub y_small : m.state.y < 2 ^ 32
  pub count_small : m.state.packet_count < 2 ^ 32

on_interrupt-IsSound : (b : ℕ) (m : Mouse) → IsSound m → IsSound (on_interrupt b m)
unfolding on_interrupt decode
on_interrupt-IsSound b m h = elim (Bool-cases (m.index == 0 && bit_and b 0x08 == 0)) [
  | inl e ↦ rw e h
  | inr e ↦
      let width : u8 (m.index + 1) ≡ m.index + 1 = omega (arith, h.index_small) in
      let size = length-set m.packet m.index b ∙ h.packet_size in
      elim (Bool-cases (leb 3 (m.index + 1))) [
        | inl f ↦
            rw (e, width, f)
              (record {
                index_small = omega arith;
                packet_size = size;
                x_small = omega arith;
                y_small = omega arith;
                count_small = omega arith;
              })
        | inr f ↦
            rw (e, width, f)
              (record {
                index_small = ground (arith, f);
                packet_size = size;
                x_small = h.x_small;
                y_small = h.y_small;
                count_small = h.count_small;
              })
      ]
]

receive-IsSound : (bs : List ℕ) (m : Mouse) → IsSound m → IsSound (receive bs m)
receive-IsSound [] m h = h
receive-IsSound (b ∷ bs) m h = receive-IsSound bs (on_interrupt b m) (on_interrupt-IsSound b m h)

receive-append : (bs cs : List ℕ) (m : Mouse) → receive (bs ++ cs) m ≡ receive cs (receive bs m)
receive-append [] cs m = refl
receive-append (b ∷ bs) cs m = receive-append bs cs (on_interrupt b m)

-- Two bytes that cannot begin a packet end what had begun.
two_bytes :
    (a b : ℕ) (m : Mouse)
    → IsSound m
    → (bit_and a 0x08 == 0) ≡ true
    → (bit_and b 0x08 == 0) ≡ true
    → (on_interrupt b (on_interrupt a m)).index ≡ 0
unfolding on_interrupt
two_bytes a b m h p q = elim (ℕ_discrete m.index 0) [
  | yes e ↦ rw (e, p, q) refl
  | no nz ↦ elim (ℕ_discrete m.index 1) [
    | yes e ↦ rw e refl
    | no ne ↦ let e : m.index ≡ 2 = omega (arith, h.index_small, nz, ne) in rw (e, q) refl
  ]
]

-- How far the mouse was moved.
abbrev pub across_all : List Packet → ℕ
across_all [] = 0
across_all (p ∷ ps) = widen p.across + across_all ps

abbrev pub down_all : List Packet → ℕ
down_all [] = 0
down_all (p ∷ ps) = (2 ^ 32 - widen p.up) + down_all ps

-- The packets are added up.
pub record AddsUp (before after : MouseState) (ps : List Packet) : Type 0 where
  pub x : after.x ≡ u32 (before.x + across_all ps)
  pub y : after.y ≡ u32 (before.y + down_all ps)
  pub packet_count : after.packet_count ≡ u32 (before.packet_count + length ps)

receive-stream :
    (ps : List Packet) (m : Mouse)
    → IsSound m
    → m.index ≡ 0
    → AddsUp m.state (receive (stream ps) m).state ps
unfolding decode
receive-stream [] m h e = record {
  x = omega (arith, h.x_small);
  y = omega (arith, h.y_small);
  packet_count = omega (arith, h.count_small);
}
receive-stream (p ∷ ps) m h e =
    let next = receive (bytes_of p) m in
    let r = receive_packet p m (record { index = e; packet = h.packet_size }) in
    let rest =
      receive-stream ps next (receive-IsSound (bytes_of p) m h) (ap (λ (n : Mouse). n.index) r) in
    let x = ap (λ (n : Mouse). n.state.x) r in
    let y = ap (λ (n : Mouse). n.state.y) r in
    let count = ap (λ (n : Mouse). n.state.packet_count) r in
    record {
      x = omega (arith, rest.x, x);
      y = omega (arith, rest.y, y);
      packet_count = omega (arith, rest.packet_count, count);
    }

-- From any state that the driver can be in: after any bytes, and then two that cannot begin a packet,
-- the packets that follow are all counted, and move the position by what they say.
pub regains_step :
    (m : Mouse) (bytes : List ℕ) (a b : ℕ) (ps : List Packet)
    → IsSound m
    → (bit_and a 0x08 == 0) ≡ true
    → (bit_and b 0x08 == 0) ≡ true
    → AddsUp
        (receive (bytes ++ (a ∷ b ∷ [])) m).state
        (receive ((bytes ++ (a ∷ b ∷ [])) ++ stream ps) m).state
        ps
regains_step m bytes a b ps h p q =
    let before = receive bytes m in
    let sound = receive-IsSound bytes m h in
    let there = receive-append bytes (a ∷ b ∷ []) m in
    let start : (receive (bytes ++ (a ∷ b ∷ [])) m).index ≡ 0 =
      ap (λ (n : Mouse). n.index) there ∙ two_bytes a b before sound p q in
    rw (receive-append (bytes ++ (a ∷ b ∷ [])) (stream ps) m) (
      receive-stream ps (receive (bytes ++ (a ∷ b ∷ [])) m)
        (receive-IsSound (bytes ++ (a ∷ b ∷ [])) m h) start)

-- After `mouse_init` the driver is in such a state.
pub init-IsSound : (m : Mouse) → length m.packet ≡ 3 → IsSound (init m)
unfolding init
init-IsSound m size = record {
  index_small = omega arith;
  packet_size = size;
  x_small = omega arith;
  y_small = omega arith;
  count_small = omega arith;
}
