-- ===== src/Net/Icmp.antt =====
-- kernel/net/icmp.c, over the IPv4 layer. The printing of `cmd_ping` is left out.
use acharya_os.Base.{ℕ, ◌+◌, ◌/◌, ◌^◌, List, [], ◌∷◌, some, Status, ok, fail, u8, u32, bit_and}
use acharya_os.Net.Ipv4
use acharya_os.Net.Ipv4.{Ipv4, checksum}

-- `icmp_stats_t`.
pub record Stats : Type 0 where
  pub sent : ℕ
  pub received : ℕ
  pub replied : ℕ
  pub dropped : ℕ

abbrev pub type_echo_request : ℕ
type_echo_request = 8

pub init : Stats
init = record { sent = 0; received = 0; replied = 0; dropped = 0 }

-- The echo request with `hi` and `lo` in the checksum's place.
abbrev pub echo_with : ℕ → ℕ → List ℕ
echo_with hi lo = type_echo_request ∷ 0 ∷ hi ∷ lo ∷ 0x12 ∷ 0x34 ∷ 0x00 ∷ 0x01 ∷ []

unfoldable pub echo_request : List ℕ
echo_request = let c = checksum (echo_with 0 0) in echo_with (u8 (c / 2 ^ 8)) (u8 (bit_and c 0xFF))

-- After `ipv4_send`.
pub after_send : Status → Stats → Status × Stats
after_send ok stats = (ok, record stats { sent = u32 (stats.sent + 1) })
after_send fail stats = (fail, record stats { dropped = u32 (stats.dropped + 1) })

pub ping : ℕ → Stats → Ipv4 → Status × Stats × Ipv4
ping dst_ip stats net =
    let (sent, net') = Ipv4.send dst_ip 1 (some echo_request) 8 net in
    let (result, stats') = after_send sent stats in (result, stats', net')

pub reset_stats : Stats → Stats
reset_stats stats = init
