-- ===== src/Mouse/Tests.antt =====
-- A packet, of which the first byte was lost, two stray bytes, and then two packets.
use acharya_os.Base.{refl, [], ◌∷◌, ◌++◌, replicate}
use acharya_os.Mouse.{Mouse, init}
use acharya_os.Mouse.Packets.{Packet, stream, receive, AddsUp, init-IsSound, regains_step}

abbrev off : Mouse
off = record {
  state = record {
    ready = 0;
    packet_ready = 0;
    x = 0;
    y = 0;
    dx = 0;
    dy = 0;
    buttons = 0;
    packet_count = 0;
  };
  packet = replicate 3 0;
  index = 0;
  has_packet = 0;
}

abbrev right : Packet
right = record { flags = 8; across = 5; up = 0; in_step = refl }

abbrev down : Packet
down = record { flags = 9; across = 0; up = 254; in_step = refl }

regains_step_example :
    AddsUp
      (receive ((9 ∷ 8 ∷ []) ++ (0 ∷ 0 ∷ [])) (init off)).state
      (receive (((9 ∷ 8 ∷ []) ++ (0 ∷ 0 ∷ [])) ++ stream (right ∷ down ∷ [])) (init off)).state
      (right ∷ down ∷ [])
regains_step_example =
    regains_step (init off) (9 ∷ 8 ∷ []) 0 0 (right ∷ down ∷ []) (init-IsSound off refl) refl refl
