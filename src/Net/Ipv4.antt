-- ===== src/Net/Ipv4.antt =====
-- kernel/net/ipv4.c, over the ARP layer. `now` is what `timer_get_ticks` returns.

pub mod Checksum
use acharya_os.Base.{
  ℕ, zero, suc, ◌+◌, ◌-◌, ◌*◌, ◌/◌, ◌%◌, ◌^◌, List, [], ◌∷◌, Bool, true, false, not, ◌&&◌, ◌||◌,
  Option, none, some, Status, ok, fail, ◌==◌, leb, ltb, if◌then◌else◌, u16, u32, bit_and, bit_or,
  get_or, replicate, find_index, maybe,
}
use acharya_os.Kstring.{CString}
use acharya_os.Net.Eth
use acharya_os.Net.Arp
use acharya_os.Net.Arp.{Arp}

-- `ipv4_route_t`.
pub record Route : Type 0 where
  pub valid : ℕ
  pub dest : ℕ
  pub mask : ℕ
  pub gateway : ℕ

-- `ipv4_stats_t`.
pub record Stats : Type 0 where
  pub ip : ℕ
  pub gateway : ℕ
  pub subnet : ℕ
  pub route_count : ℕ
  pub send_count : ℕ
  pub drop_count : ℕ

pub record Ipv4 : Type 0 where
  pub routes : List Route
  pub stats : Stats
  pub ip : ℕ
  pub gateway : ℕ
  pub subnet : ℕ
  pub arp : Arp

abbrev pub max_routes : ℕ
max_routes = 8

abbrev pub max_payload : ℕ
max_payload = 1400

abbrev pub no_route : Route
no_route = record { valid = 0; dest = 0; mask = 0; gateway = 0 }

pub route_init_defaults : Ipv4 → Ipv4
route_init_defaults net = record net {
  routes =
      record { valid = 1; dest = net.ip; mask = net.subnet; gateway = 0 }
      ∷ record { valid = 1; dest = 0; mask = 0; gateway = net.gateway }
      ∷ replicate 6 no_route;
  stats = record (net.stats) { route_count = 2 };
}

pub init : Ipv4 → Ipv4
init net =
    let cleared = record net {
      stats = record {
        ip = 0;
        gateway = 0;
        subnet = 0;
        route_count = 0;
        send_count = 0;
        drop_count = 0;
      };
    } in
    let routed = route_init_defaults cleared in
    record routed {
      stats = record (routed.stats) { ip = net.ip; gateway = net.gateway; subnet = net.subnet };
    }

pub poll : ℕ → Ipv4 → Ipv4
poll now net = record net { arp = Arp.poll now net.arp }

pub set_ip : ℕ → Ipv4 → Ipv4
set_ip ip net =
    let n = route_init_defaults (record net { ip = ip }) in
    record n { stats = record (n.stats) { ip = ip } }

pub set_gateway : ℕ → Ipv4 → Ipv4
set_gateway gw net =
    let n = route_init_defaults (record net { gateway = gw }) in
    record n { stats = record (n.stats) { gateway = gw } }

pub set_subnet : ℕ → Ipv4 → Ipv4
set_subnet subnet net =
    let n = route_init_defaults (record net { subnet = subnet }) in
    record n { stats = record (n.stats) { subnet = subnet } }

pub is_loopback : ℕ → Bool
is_loopback ip = ip / 2 ^ 24 == 127

pub is_broadcast : ℕ → Bool
is_broadcast ip = ip == 0xFFFFFFFF

pub is_local : ℕ → Ipv4 → Bool
is_local ip net = bit_and ip net.subnet == bit_and net.ip net.subnet

abbrev pub is_digit : ℕ → Bool
is_digit c = leb b'0' c && leb c b'9'

-- The loop of `parse_octet` with its end: the value and the rest of the string, if there was a
-- digit and the value never passed 255.
unfoldable pub octet_loop : ℕ → ℕ → CString → Option (ℕ × CString)
octet_loop value digits [] = if digits == 0 then none else some (value, [])
octet_loop value digits (c ∷ cs) =
    let value' = u32 (value * 10 + (c - b'0')) in
    let rest = octet_loop value' (digits + 1) cs in
    if is_digit c
    then (if ltb 255 value' then none else rest)
    else if digits == 0
    then none
    else some (value, c ∷ cs)

unfoldable pub parse_octet : CString → Option (ℕ × CString)
parse_octet s = octet_loop 0 0 s

-- *s++ == '.'
unfoldable pub expect_dot : CString → Option CString
expect_dot [] = none
expect_dot (c ∷ cs) = if c == b'.' then some cs else none

-- *s == '\0'
abbrev pub at_end : CString → Bool
at_end [] = true
at_end (c ∷ cs) = c == 0

-- An octet and the dot behind it.
abbrev pub octet_dot : CString → Option (ℕ × CString)
octet_dot s = maybe (parse_octet s) none λ r. maybe (expect_dot r.1) none λ rest. some (r.0, rest)

-- 0 where the string is not an address.
unfoldable pub from_str : Option CString → ℕ
from_str none = 0
from_str (some s) = maybe (octet_dot s) 0 λ a. maybe (octet_dot a.1) 0 λ b.
    maybe (octet_dot b.1) 0 λ c. maybe (parse_octet c.1) 0 λ d.
      if at_end d.1
      then bit_or (bit_or (bit_or (u32 (a.0 * 2 ^ 24)) (u32 (b.0 * 2 ^ 16))) (u32 (c.0 * 2 ^ 8)))
          d.0
      else 0

-- The loop over the 16-bit words, a last odd byte taken as a high one.
unfoldable pub sum_words : ℕ → List ℕ → ℕ
sum_words sum [] = sum
sum_words sum (a ∷ []) = u32 (sum + a * 2 ^ 8)
sum_words sum (a ∷ b ∷ bytes) = sum_words (u32 (sum + bit_or (a * 2 ^ 8) b)) bytes

-- while (sum >> 16) sum = (sum & 0xFFFF) + (sum >> 16);
-- `rounds` bounds the rounds: `Checksum` shows that three are enough.
unfoldable pub fold_carry : ℕ → ℕ → ℕ
fold_carry zero sum = sum
fold_carry (suc rounds) sum =
    let rest = fold_carry rounds (u32 (bit_and sum 0xFFFF + sum / 2 ^ 16)) in
    if sum / 2 ^ 16 == 0 then sum else rest

-- (uint16_t) ~sum
unfoldable pub checksum : List ℕ → ℕ
checksum bytes = u16 (2 ^ 32 - 1 - fold_carry 3 (sum_words 0 bytes))

abbrev pub matches : ℕ → Route → Bool
matches dst_ip r = not (r.valid == 0) && bit_and dst_ip r.mask == bit_and r.dest r.mask

-- gateway ? gateway : dst_ip
abbrev pub via : ℕ → ℕ → ℕ
via gateway dst_ip = if not (gateway == 0) then gateway else dst_ip

pub route_lookup : ℕ → Ipv4 → ℕ
route_lookup dst_ip net =
    maybe (find_index (matches dst_ip) net.routes) (via net.gateway dst_ip)
      λ i. via (get_or net.routes i no_route).gateway dst_ip

abbrev pub count_drop : Ipv4 → Ipv4
count_drop net = record net {
  stats = record (net.stats) { drop_count = u32 (net.stats.drop_count + 1) };
}

abbrev pub count_send : Ipv4 → Ipv4
count_send net = record net {
  stats = record (net.stats) { send_count = u32 (net.stats.send_count + 1) };
}

-- After `eth_send`.
pub after_eth : Status → Ipv4 → Status × Ipv4
after_eth ok net = (ok, count_send net)
after_eth fail net = (fail, count_drop net)

-- After `arp_resolve`.
pub after_arp : Option (List ℕ) → Option (List ℕ) → ℕ → Ipv4 → Status × Ipv4
after_arp none payload payload_len net = (fail, count_drop net)
after_arp (some mac) payload payload_len net =
    let (sent, eth) = Eth.send mac Eth.type_ipv4 payload payload_len net.arp.eth in
    after_eth sent (record net { arp = record (net.arp) { eth = eth } })

-- The protocol number is not used.
unfoldable pub send : ℕ → ℕ → Option (List ℕ) → ℕ → Ipv4 → Status × Ipv4
send dst_ip protocol none payload_len net = (fail, count_drop net)
send dst_ip protocol (some payload) payload_len net =
    if payload_len == 0 || ltb max_payload payload_len
    then (fail, count_drop net)
    else let (mac, arp) = Arp.resolve (route_lookup dst_ip net) net.arp in
      after_arp mac (some payload) payload_len (record net { arp = arp })
