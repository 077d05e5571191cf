-- ===== src/Net/Tests.antt =====
-- The network layers on concrete states.
use acharya_os.Base.{
  zero, suc, ◌<◌, false, get_or, find_index, ℕ, ◌+◌, ◌/◌, ◌^◌, ◌≡◌, ◌≢◌, refl, arith, List, [], ◌∷◌,
  ◌++◌, replicate, some, none, fail, true, u8, bit_and,
}
use acharya_os.Kstring.{codes}
use acharya_os.Net.Eth
use acharya_os.Net.Eth.{Eth}
use acharya_os.Net.Arp
use acharya_os.Net.Arp.{Arp, resolve, add_static, count_hit}
use acharya_os.Net.Arp.Full.{full_evicts_first}
use acharya_os.Net.Arp.Static.{polls, static_resolves}
use acharya_os.Net.Ipv4
use acharya_os.Net.Ipv4.{Ipv4, checksum, sum_words, fold_carry}
use acharya_os.Net.Ipv4.Checksum.{checksum_stored}
use acharya_os.Net.Icmp
use acharya_os.Net.Udp
use acharya_os.Net.Udp.{Udp, boot, bind, auto_bind, packet, find_socket_index, alloc_socket_slot}
use acharya_os.Net.Udp.Ports.{
  IsValid, Call, bind_port, bind_any, unbind_id, perform_all, ports-IsValid,
}
use acharya_os.Net.Udp.Auto.{auto_bind_lem, auto_bound}
use acharya_os.Net.Udp.Packet.{send_long}

abbrev bare_arp : Arp
bare_arp = record {
  cache = replicate 32 Arp.blank;
  stats = Arp.no_stats;
  local_ip = 0xC0A80164;
  local_mac = replicate 6 0;
  eth = Eth.init;
}

abbrev bare_ip : Ipv4
bare_ip = record {
  routes = replicate 8 Ipv4.no_route;
  stats = record {
    ip = 0;
    gateway = 0;
    subnet = 0;
    route_count = 0;
    send_count = 0;
    drop_count = 0;
  };
  ip = 0xC0A80164;
  gateway = 0xC0A80101;
  subnet = 0xFFFFFF00;
  arp = bare_arp;
}

abbrev router_mac : List ℕ
router_mac = 2 ∷ 0 ∷ 0 ∷ 0 ∷ 0 ∷ 1 ∷ []

local_address : Ipv4.from_str (some (codes "192.168.1.100")) ≡ 0xC0A80164
unfolding Ipv4.from_str Ipv4.parse_octet Ipv4.octet_loop Ipv4.expect_dot
local_address = refl

not_an_address : Ipv4.from_str (some (codes "192.168.1.256")) ≡ 0
unfolding Ipv4.from_str Ipv4.parse_octet Ipv4.octet_loop Ipv4.expect_dot
not_an_address = refl

echo_sums_to_zero : checksum Icmp.echo_request ≡ 0
unfolding Icmp.echo_request checksum sum_words fold_carry
echo_sums_to_zero = refl

static_resolves_example :
    let arp' = polls (400 ∷ 5000 ∷ []) (add_static 0xC0A80101 (some router_mac) 3 bare_arp) in
    resolve 0xC0A80101 arp' ≡ (some router_mac, count_hit arp')
static_resolves_example =
    static_resolves 0xC0A80101 router_mac 3 (400 ∷ 5000 ∷ []) bare_arp refl refl

checksum_stored_example :
    let c = checksum ((8 ∷ 0 ∷ []) ++ (0 ∷ 0 ∷ (0xFF ∷ 0x34 ∷ 7 ∷ []))) in
    checksum ((8 ∷ 0 ∷ []) ++ (u8 (c / 2 ^ 8) ∷ u8 (bit_and c 0xFF) ∷ (0xFF ∷ 0x34 ∷ 7 ∷ []))) ≡ 0
checksum_stored_example =
    checksum_stored (8 ∷ 0 ∷ []) (0xFF ∷ 0x34 ∷ 7 ∷ []) (omega arith, (omega arith, tt))
      (omega arith, (omega arith, (omega arith, tt))) (omega arith) (omega arith)

-- Two ephemeral ports in use, and one below them.
abbrev calls : List Call
calls = bind_any 1 ∷ bind_port 49153 2 ∷ bind_port 53 3 ∷ unbind_id (some 2) ∷ []

ports-IsValid_example : IsValid (perform_all calls (Udp.init boot))
ports-IsValid_example = ports-IsValid calls

abbrev one_taken : Udp
one_taken = perform_all (bind_port 49152 1 ∷ []) (Udp.init boot)

one_taken-IsValid : IsValid one_taken
one_taken-IsValid = ports-IsValid (bind_port 49152 1 ∷ [])

second_slot : alloc_socket_slot one_taken ≡ some 1
unfolding Udp.init bind
second_slot = refl

starts_at : one_taken.next_ephemeral ≡ 49152
unfolding Udp.init bind
starts_at = refl

second_free : find_socket_index 49153 one_taken ≡ none
unfolding Udp.init bind
second_free = refl

first_taken : find_socket_index 49152 one_taken ≢ none
unfolding Udp.init bind
first_taken e = cc

auto_bind_lem_example :
    auto_bind 9 one_taken ≡ auto_bound 1 (one_taken.next_ephemeral + 1) 9 one_taken
unfolding Udp.init bind
auto_bind_lem_example =
    auto_bind_lem 1 9 1 one_taken one_taken-IsValid second_slot (omega (arith, starts_at))
      second_free (λ e l. let first : e ≡ 0 = omega arith in rw first first_taken)

first_used : Udp.is_used (Udp.socket_at one_taken 0) ≡ true
unfolding Udp.init bind
first_used = refl

send_long_example :
    Udp.send (some 0) 0xC0A80101 53 (some (replicate 1400 0)) 1400 one_taken bare_ip
    ≡ (fail, Udp.count_drop one_taken, Ipv4.count_drop bare_ip)
send_long_example =
    send_long 0 0xC0A80101 53 (replicate 1400 0) 1400 one_taken bare_ip (omega arith) first_used
      (omega arith) (omega arith)

-- The local address in slot 0, and another one in all other slots.
abbrev full_arp : Arp
full_arp = record bare_arp {
  cache = Arp.seen 0xC0A80164 router_mac 1 0 ∷ replicate 31 (Arp.seen 7 router_mac 0 0);
}

others_differ :
    (n j : ℕ)
    → Arp.is_for 0xC0A80164 (get_or (replicate n (Arp.seen 7 router_mac 0 0)) j Arp.blank) ≡ false
others_differ zero j = refl
others_differ (suc n) zero = refl
others_differ (suc n) (suc j) = others_differ n j

behind_first : (j : ℕ) → 0 < j → Arp.is_for 0xC0A80164 (get_or full_arp.cache j Arp.blank) ≡ false
behind_first zero h = absurd (omega arith)
behind_first (suc j) h = others_differ 31 j

full_evicts_first_example :
    (find_index (Arp.is_for 0xC0A80164) (Arp.insert_entry 9 router_mac 0 50 full_arp).cache ≡ none)
    × (get_or (Arp.insert_entry 9 router_mac 0 50 full_arp).cache 0 Arp.blank
        ≡ Arp.seen 9 router_mac 0 50)
full_evicts_first_example = full_evicts_first 9 router_mac 0 50 full_arp refl refl refl behind_first
