-- ===== src/Log/History.antt =====
-- What the logger promises: of the messages that pass the level it remembers the newest 64.
use acharya_os.Base.{ℕ, List, [], ◌∷◌, ◌++◌, take, ltb, if◌then◌else◌, newest}
use acharya_os.Log.{Level, rank, info}
use acharya_os.Log.Window.{View}
use acharya_os.Kstring.{CString, text}

-- All accepted messages, the oldest first, each cut to 127 characters.
pub record History : Type 0 where
  pub entries : List View
  pub minimum_level : Level

abbrev pub empty : History
empty = record { entries = []; minimum_level = info }

abbrev pub record_of : Level → CString → ℕ → View
record_of level message now = record {
  tick = now;
  level = level;
  message = take 127 (text message);
}

unfoldable pub accept : Level → CString → ℕ → History → History
accept level message now h =
    if ltb (rank level) (rank h.minimum_level)
    then h
    else record h { entries = h.entries ++ (record_of level message now ∷ []) }

-- What a caller may do to the logger after `log_init`.
pub data Call : Type 0 where
  write : Level → CString → ℕ → Call
  set_level : Level → Call

abbrev pub step : Call → History → History
step (write level message now) h = accept level message now h
step (set_level level) h = record h { minimum_level = level }

abbrev pub after : List Call → History → History
after [] h = h
after (c ∷ cs) h = after cs (step c h)

-- What the ring should hold.
abbrev pub remembered : History → List View
remembered h = newest 64 h.entries
