-- ===== src/Config/Tests.antt =====
-- Two settings, saved to a formatted disk and loaded again.
use acharya_os.Base.{
  ℕ, ◌≤◌, ◌≡◌, ◌≢◌, refl, ap, arith, List, [], ◌∷◌, Bool, true, false, some, take, replicate,
  get_or, ok, weight, not,
}
use acharya_os.Kstring.{CString, codes, text}
use acharya_os.Ata.Memory.{
  memory_drive, memory_drive-IsLawful, empty_disk, empty_disk-Good, big_disk,
}
use acharya_os.Fs.{Fs, clear_cache}
use acharya_os.Fs.Format.{formatted, formatted-IsReady, blank_claim}
use acharya_os.Config.{Config, set, get, save, load}
use acharya_os.Config.Table.{Entry, no_entry, reset_defaults, set_entry, find_key, find_free}
use acharya_os.Config.Laws.{set-get}
use acharya_os.Config.Lines.{IsClean}
use acharya_os.Config.Survive.{AreDistinct, AllSaid, new_keys}
use acharya_os.Config.Room.{is_set}
use acharya_os.Config.Restore.{blank-AreShaped, settings_survive}

abbrev blank_config : Config
blank_config = record { entries = replicate 16 no_entry; file_name = codes "acharyaos.cfg" }

set_worked : (set (some (codes "loglevel")) (some (codes "debug")) blank_config).0 ≡ ok
unfolding set set_entry find_key find_free
set_worked = refl

set-get_example :
    ((v : CString) × (get
          (some (codes "loglevel"))
          (some (replicate 64 0))
          64
          (set (some (codes "loglevel")) (some (codes "debug")) blank_config).1
        ≡ some v)
      × (text v ≡ take 63 (take 95 (text (codes "debug")))))
    × ((other : CString)
        → text (codes "loglevel") ≢ text other
        → get
            (some other)
            (some (replicate 64 0))
            64
            (set (some (codes "loglevel")) (some (codes "debug")) blank_config).1
          ≡ get (some other) (some (replicate 64 0)) 64 blank_config)
set-get_example =
    set-get (codes "loglevel") (codes "debug") (replicate 64 0) 64 blank_config (blank-AreShaped 16)
      (omega arith) (omega arith) (omega arith) set_worked

abbrev prompt : Entry
prompt = record { key = codes "prompt"; value = codes "> "; used = 1 }

abbrev theme : Entry
theme = record { key = codes "theme"; value = codes "dark"; used = 1 }

abbrev changed : Config
changed = record { entries = prompt ∷ theme ∷ []; file_name = codes "acharyaos.cfg" }

prompt-IsClean : IsClean prompt
prompt-IsClean = record {
  key_there = omega arith;
  key_plain = refl;
  value_plain = refl;
  key_short = omega arith;
  value_short = omega arith;
}

theme-IsClean : IsClean theme
theme-IsClean = record {
  key_there = omega arith;
  key_plain = refl;
  value_plain = refl;
  key_short = omega arith;
  value_short = omega arith;
}

changed-AreDistinct : AreDistinct changed.entries
changed-AreDistinct =
    (λ u. (λ v e. absurd (omega (arith, ap (λ (t : List ℕ). get_or t 0 0) e)), tt), ((λ u. tt), tt))

weight-le : (b : Bool) → weight b ≤ 1
weight-le true = omega arith
weight-le false = omega arith

few_new : new_keys changed.entries reset_defaults ≤ 12
few_new = omega (
  arith,
  weight-le (not (is_set (text prompt.key) reset_defaults)),
  weight-le (not (is_set (text theme.key) reset_defaults)),
)

abbrev volume : Fs
volume = formatted clear_cache

settings_survive_example :
    ((save memory_drive changed volume empty_disk).0 ≡ ok)
    × AllSaid
        (prompt ∷ theme ∷ [])
        (load memory_drive changed
          (save memory_drive changed volume empty_disk).1
          (save memory_drive changed volume empty_disk).2).0.entries
settings_survive_example =
    settings_survive memory_drive memory_drive-IsLawful changed volume 4098 empty_disk 0 _
      empty_disk-Good (formatted-IsReady memory_drive-IsLawful clear_cache big_disk)
      (blank_claim clear_cache changed.file_name) (omega arith)
      (λ u. prompt-IsClean, (λ u. theme-IsClean, tt)) changed-AreDistinct (omega arith) few_new
