-- ===== src/Net/Eth.antt =====
-- kernel/net/eth.c. A frame that is sent is only counted: there is no network card.
use acharya_os.Base.{
  ℕ, ◌+◌, List, [], ◌∷◌, Option, none, some, Status, ok, fail, ◌==◌, ◌||◌, ltb, if◌then◌else◌, u64,
  replicate, take,
}

-- `eth_stats_t`.
pub record Stats : Type 0 where
  pub ready : ℕ
  pub mac : List ℕ
  pub tx_frames : ℕ
  pub rx_frames : ℕ
  pub dropped_frames : ℕ
  pub mtu : ℕ

-- The handler is its address, 0 for none.
pub record Eth : Type 0 where
  pub stats : Stats
  pub rx_handler : ℕ

abbrev pub addr_len : ℕ
addr_len = 6

abbrev pub payload_max : ℕ
payload_max = 1500

abbrev pub type_arp : ℕ
type_arp = 0x0806

abbrev pub type_ipv4 : ℕ
type_ipv4 = 0x0800

-- 52:54:00:12:34:56
abbrev pub default_mac : List ℕ
default_mac = 0x52 ∷ 0x54 ∷ 0x00 ∷ 0x12 ∷ 0x34 ∷ 0x56 ∷ []

-- What `dest` holds afterwards.
pub copy_mac : Option (List ℕ) → List ℕ
copy_mac none = replicate addr_len 0
copy_mac (some src) = take addr_len src

pub init : Eth
init = record {
  stats = record {
    ready = 1;
    mac = copy_mac (some default_mac);
    tx_frames = 0;
    rx_frames = 0;
    dropped_frames = 0;
    mtu = payload_max;
  };
  rx_handler = 0;
}

pub set_rx_handler : ℕ → Eth → Eth
set_rx_handler handler eth = record eth { rx_handler = handler }

pub set_mac : Option (List ℕ) → Eth → Eth
set_mac mac eth = record eth { stats = record (eth.stats) { mac = copy_mac mac } }

abbrev pub count_tx : Eth → Eth
count_tx eth = record eth {
  stats = record (eth.stats) { tx_frames = u64 (eth.stats.tx_frames + 1) };
}

abbrev pub count_drop : Eth → Eth
count_drop eth = record eth {
  stats = record (eth.stats) { dropped_frames = u64 (eth.stats.dropped_frames + 1) };
}

-- `dest_mac` and `ethertype` are not used.
pub send : List ℕ → ℕ → Option (List ℕ) → ℕ → Eth → Status × Eth
send dest_mac ethertype none payload_len eth = (fail, count_drop eth)
send dest_mac ethertype (some payload) payload_len eth =
    if eth.stats.ready == 0 || ltb payload_max payload_len
    then (fail, count_drop eth)
    else (ok, count_tx eth)
