-- ===== src/Net/Udp.antt =====
-- kernel/net/udp.c, over the IPv4 layer. `none` is UDP_NO_SOCKET; a callback is its address.

pub mod Ports
pub mod Auto
pub mod Packet
use acharya_os.Base.{
  ℕ, zero, suc, ◌+◌, ◌-◌, ◌/◌, ◌^◌, List, [], ◌∷◌, ◌++◌, Bool, not, ◌&&◌, ◌||◌, Option, none, some,
  Status, ok, fail, ◌==◌, leb, ltb, if◌then◌else◌, u8, u16, u32, bit_and, get_or, replicate, take,
  find_index, modify, maybe,
}
use acharya_os.Net.Ipv4
use acharya_os.Net.Ipv4.{Ipv4, checksum}

-- `udp_socket_t`.
pub record Socket : Type 0 where
  pub used : ℕ
  pub local_port : ℕ
  pub callback : ℕ

-- `udp_stats_t`.
pub record Stats : Type 0 where
  pub bound_sockets : ℕ
  pub tx_packets : ℕ
  pub rx_packets : ℕ
  pub dropped_packets : ℕ

pub record Udp : Type 0 where
  pub sockets : List Socket
  pub stats : Stats
  pub ready : ℕ
  pub next_ephemeral : ℕ

abbrev pub max_sockets : ℕ
max_sockets = 8

abbrev pub max_payload : ℕ
max_payload = 1472

abbrev pub proto_udp : ℕ
proto_udp = 17

abbrev pub blank : Socket
blank = record { used = 0; local_port = 0; callback = 0 }

abbrev pub no_stats : Stats
no_stats = record { bound_sockets = 0; tx_packets = 0; rx_packets = 0; dropped_packets = 0 }

-- The static variables before `udp_init`.
abbrev pub boot : Udp
boot = record {
  sockets = replicate max_sockets blank;
  stats = no_stats;
  ready = 0;
  next_ephemeral = 49152;
}

abbrev pub is_used : Socket → Bool
is_used s = not (s.used == 0)

abbrev pub has_port : ℕ → Socket → Bool
has_port port s = is_used s && s.local_port == port

-- g_sockets[i]
abbrev pub socket_at : Udp → ℕ → Socket
socket_at udp i = get_or udp.sockets i blank

unfoldable pub init : Udp → Udp
init udp = record udp { sockets = replicate max_sockets blank; stats = no_stats; ready = 1 }

abbrev pub find_socket_index : ℕ → Udp → Option ℕ
find_socket_index port udp = find_index (has_port port) udp.sockets

abbrev pub alloc_socket_slot : Udp → Option ℕ
alloc_socket_slot udp = find_index (λ s. not (is_used s)) udp.sockets

abbrev pub bound : ℕ → ℕ → ℕ → Udp → Udp
bound slot port cb udp = record udp {
  sockets = modify slot (λ s. record { used = 1; local_port = port; callback = cb }) udp.sockets;
  stats = record (udp.stats) { bound_sockets = u32 (udp.stats.bound_sockets + 1) };
}

-- The end of `udp_bind`, on a port that is not in use.
abbrev pub bind_free : ℕ → ℕ → Udp → Option ℕ × Udp
bind_free port cb udp =
    maybe (alloc_socket_slot udp) (none, udp) λ slot. (some slot, bound slot port cb udp)

unfoldable pub bind : ℕ → ℕ → Udp → Option ℕ × Udp
bind port cb udp =
    if udp.ready == 0 || port == 0
    then (none, udp)
    else maybe (find_socket_index port udp) (bind_free port cb udp) λ taken. (none, udp)

-- The loop of `udp_auto_bind` at `port`; `left` bounds its rounds.
pub auto_loop : ℕ → ℕ → ℕ → Udp → Option ℕ × Udp
auto_loop zero port cb udp = (none, udp)
auto_loop (suc left) port cb udp =
    let rest = auto_loop left (port + 1) cb udp in
    if port == 0
    then (none, udp)
    else maybe (bind port cb udp).0 (if port == 65535 then (none, udp) else rest) λ id. (
      some id,
      record (bind port cb udp).1 {
        next_ephemeral = if port == 65535 then 49152 else u16 (port + 1);
      },
    )

-- From any port there are at most 65536 rounds.
pub auto_bind : ℕ → Udp → Option ℕ × Udp
auto_bind cb udp = auto_loop (65536 - udp.next_ephemeral) udp.next_ephemeral cb udp

-- A negative socket number is `none`.
pub unbind : Option ℕ → Udp → Udp
unbind none udp = udp
unbind (some id) udp =
    if leb max_sockets id
    then udp
    else if is_used (socket_at udp id)
    then record udp { sockets = modify id (λ s. blank) udp.sockets }
    else udp

-- The header with `hi` and `lo` in the checksum's place, and the bytes behind it.
abbrev pub packet_with : ℕ → ℕ → ℕ → ℕ → List ℕ → ℕ → List ℕ
packet_with hi lo src_port dst_port bytes udp_len =
    u8 (src_port / 2 ^ 8)
    ∷ u8 (bit_and src_port 0xFF)
    ∷ u8 (dst_port / 2 ^ 8)
    ∷ u8 (bit_and dst_port 0xFF)
    ∷ u8 (udp_len / 2 ^ 8)
    ∷ u8 (bit_and udp_len 0xFF)
    ∷ hi
    ∷ lo
    ∷ bytes

-- What `udp_send` hands on: `bytes` is the `length` bytes.
pub packet : ℕ → ℕ → List ℕ → ℕ → List ℕ
packet src_port dst_port bytes len =
    let c = checksum (packet_with 0 0 src_port dst_port bytes (u16 (8 + len))) in
    packet_with (u8 (c / 2 ^ 8)) (u8 (bit_and c 0xFF)) src_port dst_port bytes (u16 (8 + len))

abbrev pub count_drop : Udp → Udp
count_drop udp = record udp {
  stats = record (udp.stats) { dropped_packets = u32 (udp.stats.dropped_packets + 1) };
}

-- After `ipv4_send`.
pub after_send : Status → Udp → Status × Udp
after_send ok udp =
    (ok, record udp { stats = record (udp.stats) { tx_packets = u32 (udp.stats.tx_packets + 1) } })
after_send fail udp = (fail, count_drop udp)

-- `len` is the length of the bytes in bytes.
pub send : Option ℕ → ℕ → ℕ → Option (List ℕ) → ℕ → Udp → Ipv4 → Status × Udp × Ipv4
send none dst_ip dst_port bytes len udp net = (fail, count_drop udp, net)
send (some id) dst_ip dst_port none len udp net = (fail, count_drop udp, net)
send (some id) dst_ip dst_port (some bytes) len udp net =
    if leb max_sockets id || not (is_used (socket_at udp id)) || ltb max_payload len
    then (fail, count_drop udp, net)
    else let p = packet (socket_at udp id).local_port dst_port (take len bytes) len in
      let (sent, net') = Ipv4.send dst_ip proto_udp (some p) (u16 (8 + len)) net in
      let (result, udp') = after_send sent udp in (result, udp', net')
