-- ===== src/Log.antt =====
-- kernel/debug/log.c: the logger's ring of entries.
pub mod Window
pub mod History
pub mod Store
pub mod Refine
pub mod Format
mod Tests
use acharya_os.Base.{
  ℕ, zero, suc, ◌+◌, ◌-◌, ◌%◌, ◌^◌, List, [], ◌∷◌, ◌++◌, Bool, true, false, ◌==◌, leb, ltb,
  if◌then◌else◌, u32, get_or, set, replicate, min,
}
use acharya_os.Kstring.{CString, codes, copy_loop}

pub data Level : Type 0 where
  trace debug info warn error panic : Level

-- The values of `log_level_t`.
abbrev pub rank : Level → ℕ
rank trace = 0
rank debug = 1
rank info = 2
rank warn = 3
rank error = 4
rank panic = 5

pub record Entry : Type 0 where
  pub tick : ℕ
  pub level : Level
  pub message : CString

-- What `log_write` hands to `kprintf`: the letter, the tick cut to 32 bits, the message.
pub record Line : Type 0 where
  pub letter : ℕ
  pub tick : ℕ
  pub message : CString

-- `printed` is what went to the console so far, the newest line first.
pub record Log : Type 0 where
  pub buffer : List Entry
  pub head : ℕ
  pub count : ℕ
  pub total : ℕ
  pub dropped : ℕ
  pub minimum_level : Level
  pub printed : List Line

pub record Stats : Type 0 where
  pub total_entries : ℕ
  pub stored_entries : ℕ
  pub dropped_entries : ℕ
  pub minimum_level : Level

abbrev pub buffer_max : ℕ
buffer_max = 64

abbrev pub message_max : ℕ
message_max = 128

-- Static storage starts as zero bytes.
abbrev pub blank : Entry
blank = record { tick = 0; level = trace; message = replicate message_max 0 }

pub level_letter : Level → ℕ
level_letter trace = b'T'
level_letter debug = b'D'
level_letter info = b'I'
level_letter warn = b'W'
level_letter error = b'E'
level_letter panic = b'P'

pub level_name : Level → CString
level_name trace = codes "trace"
level_name debug = codes "debug"
level_name info = codes "info"
level_name warn = codes "warn"
level_name error = codes "error"
level_name panic = codes "panic"

-- The static variables before `log_init`.
abbrev pub boot : Log
boot = record {
  buffer = replicate buffer_max blank;
  head = 0;
  count = 0;
  total = 0;
  dropped = 0;
  minimum_level = info;
  printed = [];
}

pub init : Log → Log
init log = record log { head = 0; count = 0; total = 0; dropped = 0; minimum_level = info }

pub set_minimum_level : Level → Log → Log
set_minimum_level level log = record log { minimum_level = level }

-- The slot `entry` after the stores of `log_store_entry`.
abbrev pub filled : Entry → Level → CString → ℕ → Entry
filled entry level message now = record {
  tick = now;
  level = level;
  message = copy_loop (message_max - 1) entry.message message;
}

-- `now` is what `timer_get_ticks` returns.
pub store_entry : Level → CString → ℕ → Log → Log
store_entry level message now log =
    let has_room = ltb log.count buffer_max in
    record log {
      buffer =
          set log.buffer log.head (filled (get_or log.buffer log.head blank) level message now);
      head = u32 (log.head + 1) % buffer_max;
      count = if has_room then u32 (log.count + 1) else log.count;
      total = u32 (log.total + 1);
      dropped = if has_room then log.dropped else u32 (log.dropped + 1);
    }

pub write : Level → CString → ℕ → Log → Log
write level message now log =
    if ltb (rank level) (rank log.minimum_level)
    then log
    else let log' = store_entry level message now log in
      record log' {
        printed =
            record { letter = level_letter level; tick = u32 now; message = message }
            ∷ log'.printed;
      }

-- The loop of `log_copy_entries` from index `copied` on, with `left` rounds to go.
pub copy_from : ℕ → ℕ → ℕ → List Entry → List Entry
copy_from zero start copied buffer = []
copy_from (suc left) start copied buffer =
    get_or buffer ((start + copied) % buffer_max) blank ∷ copy_from left start (copied + 1) buffer

pub copy_entries : ℕ → Log → List Entry
copy_entries max log =
    if max == 0
    then []
    else if log.count == 0
    then []
    else let start = u32 (log.head + buffer_max + 2 ^ 32 - log.count) % buffer_max in
      copy_from (min log.count max) start 0 log.buffer

pub get_stats : Log → Stats
get_stats log = record {
  total_entries = log.total;
  stored_entries = log.count;
  dropped_entries = log.dropped;
  minimum_level = log.minimum_level;
}
