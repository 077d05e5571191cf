-- ===== src/Net/Arp.antt =====
-- kernel/net/arp.c, over the Ethernet layer. `now` is what `timer_get_ticks` returns.
pub mod Static
pub mod Full
use acharya_os.Base.{
  ℕ, ◌+◌, ◌-◌, ◌/◌, ◌^◌, List, [], ◌∷◌, ◌++◌, Bool, not, ◌&&◌, ◌||◌, Option, none, some, ◌==◌, ltb,
  if◌then◌else◌, u8, u32, get_or, replicate, take, find_index, count, modify, map, maybe,
}
use acharya_os.Net.Eth
use acharya_os.Net.Eth.{Eth, addr_len, default_mac, type_arp}

-- `arp_entry_t`.
pub record Entry : Type 0 where
  pub ip : ℕ
  pub mac : List ℕ
  pub last_seen : ℕ
  pub valid : ℕ
  pub permanent : ℕ

-- `arp_stats_t`.
pub record Stats : Type 0 where
  pub total : ℕ
  pub valid : ℕ
  pub hits : ℕ
  pub misses : ℕ
  pub requests : ℕ
  pub replies : ℕ

pub record Arp : Type 0 where
  pub cache : List Entry
  pub stats : Stats
  pub local_ip : ℕ
  pub local_mac : List ℕ
  pub eth : Eth

abbrev pub cache_max : ℕ
cache_max = 32

abbrev pub timeout_ticks : ℕ
timeout_ticks = 300

abbrev pub blank : Entry
blank = record { ip = 0; mac = replicate addr_len 0; last_seen = 0; valid = 0; permanent = 0 }

abbrev pub no_stats : Stats
no_stats = record { total = 0; valid = 0; hits = 0; misses = 0; requests = 0; replies = 0 }

abbrev pub is_valid : Entry → Bool
is_valid e = not (e.valid == 0)

abbrev pub is_for : ℕ → Entry → Bool
is_for ip e = is_valid e && e.ip == ip

-- A full cache without the address gives up slot 0.
pub find_slot : ℕ → List Entry → ℕ
find_slot ip cache =
    maybe (find_index (is_for ip) cache) (maybe (find_index (λ e. not (is_valid e)) cache) 0 λ i. i)
      λ i. i

abbrev pub seen : ℕ → List ℕ → ℕ → ℕ → Entry
seen ip mac permanent now = record {
  ip = ip;
  mac = take addr_len mac;
  last_seen = u32 now;
  valid = 1;
  permanent = permanent;
}

pub insert_entry : ℕ → List ℕ → ℕ → ℕ → Arp → Arp
insert_entry ip mac permanent now arp = record arp {
  cache = modify (find_slot ip arp.cache) (λ e. seen ip mac permanent now) arp.cache;
}

pub init : ℕ → Arp → Arp
init now arp =
    let arp' = record arp {
      cache = replicate cache_max blank;
      stats = no_stats;
      local_mac = take addr_len default_mac;
      eth = Eth.set_mac (some (take addr_len default_mac)) arp.eth;
    } in
    insert_entry arp'.local_ip arp'.local_mac 1 now arp'

-- One round of the loop of `arp_poll`.
abbrev pub age : ℕ → Entry → Entry
age now e =
    if not (is_valid e) || not (e.permanent == 0)
    then e
    else if ltb timeout_ticks (u32 (now + 2 ^ 32 - e.last_seen))
    then record e { valid = 0 }
    else e

pub poll : ℕ → Arp → Arp
poll now arp = record arp { cache = map (age (u32 now)) arp.cache }

-- The four bytes of an address, the high one first.
abbrev pub ip_bytes : ℕ → List ℕ
ip_bytes ip = u8 (ip / 2 ^ 24) ∷ u8 (ip / 2 ^ 16) ∷ u8 (ip / 2 ^ 8) ∷ u8 ip ∷ []

-- The 28 bytes of an ARP request; the target's hardware address is 0.
pub request : Arp → ℕ → List ℕ
request arp target_ip =
    (0x00 ∷ 0x01 ∷ 0x08 ∷ 0x00 ∷ 0x06 ∷ 0x04 ∷ 0x00 ∷ 0x01 ∷ [])
    ++ (arp.local_mac ++ (ip_bytes arp.local_ip ++ (replicate 6 0 ++ ip_bytes target_ip)))

pub send_request : ℕ → Arp → Arp
send_request target_ip arp = record arp {
  eth = (Eth.send (replicate addr_len 0xff) type_arp (some (request arp target_ip)) 28 arp.eth).1;
  stats = record (arp.stats) { requests = u32 (arp.stats.requests + 1) };
}

abbrev pub count_hit : Arp → Arp
count_hit arp = record arp { stats = record (arp.stats) { hits = u32 (arp.stats.hits + 1) } }

abbrev pub count_miss : Arp → Arp
count_miss arp = record arp { stats = record (arp.stats) { misses = u32 (arp.stats.misses + 1) } }

-- The hardware address, if the cache knows it; `none` is the result 0.
pub resolve : ℕ → Arp → Option (List ℕ) × Arp
resolve ip arp =
    maybe (find_index (is_for ip) arp.cache) (none, send_request ip (count_miss arp))
      λ i. (some (take addr_len (get_or arp.cache i blank).mac), count_hit arp)

pub add_static : ℕ → Option (List ℕ) → ℕ → Arp → Arp
add_static ip mac now arp = maybe mac arp λ m. insert_entry ip m 1 now arp

pub get_stats : Arp → Stats
get_stats arp = record (arp.stats) { total = cache_max; valid = count is_valid arp.cache }
