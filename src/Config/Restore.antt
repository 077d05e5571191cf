-- ===== src/Config/Restore.antt =====
-- The settings, saved to a file and loaded again.
use acharya_os.Base.{
  ℕ, zero, suc, modify, count, replicate, Option-cases, inl, inr, ◌≤◌, ◌<◌, ◌≡◌, refl, ap, ◌∙◌,
  arith, List, [], ◌∷◌, true, some, length, take, ltb, ok,
}
use acharya_os.Kstring.{CString, text}
use acharya_os.Ata.{Drive, Disk}
use acharya_os.Ata.Lawful.{IsLawful, Good}
use acharya_os.Fs.{Fs, loaded, claim, read_file}
use acharya_os.Fs.Table.{DiskEntry}
use acharya_os.Fs.RoundTrip.{IsReady, write_read}
use acharya_os.Config.{Config, save, load, save_text, read_text}
use acharya_os.Config.Table.{
  Entry, no_entry, defaults, is_used, find_free, filled, add_defaults, reset_defaults,
}
use acharya_os.Config.Laws.{AreShaped}
use acharya_os.Config.Room.{filled-AreShaped}
use acharya_os.Config.Survive.{AllSaid, AreDistinct, new_keys, set_all-AllSaid}
use acharya_os.Config.Lines.{AreClean, lines, set_all, read_text-save_text, length-save_text}

load_read :
    (D : Drive) (c : Config) (fs : Fs) (s : Disk D) (stored : List ℕ) (bytes : List ℕ)
    → length bytes < 1024
    → (read_file D (some c.file_name) (some 1024) fs s).0 ≡ loaded stored (length bytes)
    → take (length bytes) stored ≡ bytes
    → (load D c fs s).0 ≡ record c { entries = read_text bytes reset_defaults }
unfolding load
load_read D c fs s stored bytes small found same =
    let fits : ltb (length bytes) 1024 ≡ true = ground arith in rw (found, fits, same) refl

-- A load of the saved file gives the defaults, with each of the settings set in turn.
pub save-load :
    (D : Drive) (L : IsLawful D) (c : Config) (fs : Fs) (top : ℕ) (s : Disk D) (i : ℕ)
    (files : List DiskEntry)
    → Good L s
    → IsReady L fs top
    → claim c.file_name fs.entries ≡ some (i, files)
    → length (text c.file_name) ≤ 15
    → AreClean c.entries
    → length (lines c.entries) ≤ 512
    → ((save D c fs s).0 ≡ ok)
      × ((load D c (save D c fs s).1 (save D c fs s).2).0
          ≡ record c { entries = set_all c.entries reset_defaults })
unfolding save
save-load D L c fs top s i files good ready claimed short clean fits =
    let bytes = save_text c.entries in
    let small = length-save_text c.entries 512 (omega arith) (omega arith) fits in
    let w =
      write_read D L fs top s c.file_name bytes i files 1024 good ready claimed small.0 small.1
        short (omega (arith, small.1)) in
    (
      w.0,
      load_read D c _ _ w.1 bytes (omega (arith, small.1)) w.2 w.4
          ∙ ap (λ (t : List Entry). record c { entries = t })
              (read_text-save_text c.entries reset_defaults clean (omega (arith, fits))),
    )

add_defaults-AreShaped :
    (ds : List (CString × CString)) (es : List Entry)
    → AreShaped es
    → AreShaped (add_defaults ds es)
unfolding add_defaults
add_defaults-AreShaped [] es h = h
add_defaults-AreShaped ((key, value) ∷ ds) es h = elim (Option-cases (find_free es)) [
  | inl e ↦ rw e h
  | inr (i, e) ↦ rw e (
      add_defaults-AreShaped ds (modify i (filled key value) es)
        (filled-AreShaped key value i es h))
]

pub blank-AreShaped : (n : ℕ) → AreShaped (replicate n no_entry)
blank-AreShaped zero i = record { key_size = refl; value_size = refl }
blank-AreShaped (suc n) zero = record { key_size = refl; value_size = refl }
blank-AreShaped (suc n) (suc i) = blank-AreShaped n i

defaults-AreShaped : AreShaped reset_defaults
unfolding reset_defaults
defaults-AreShaped = add_defaults-AreShaped defaults (replicate 16 no_entry) (blank-AreShaped 16)

defaults_used : (count is_used reset_defaults ≡ 4) × (length reset_defaults ≡ 16)
unfolding reset_defaults add_defaults find_free
defaults_used = (refl, refl)

-- On a volume that is mounted and laid out, and a drive that works, with an entry for the file of the
-- settings, whose name has at most 15 characters. Settings in use with different keys, not empty and
-- of at most 31 characters without '=', with values of at most 95 characters, and no line breaks in
-- either, of which at most 12 have a key that is not one of the defaults, and whose lines are at
-- most 512 characters, one block: they are saved with success, and after a load each key has its value again.
pub settings_survive :
    (D : Drive) (L : IsLawful D) (c : Config) (fs : Fs) (top : ℕ) (s : Disk D) (i : ℕ)
    (files : List DiskEntry)
    → Good L s
    → IsReady L fs top
    → claim c.file_name fs.entries ≡ some (i, files)
    → length (text c.file_name) ≤ 15
    → AreClean c.entries
    → AreDistinct c.entries
    → length (lines c.entries) ≤ 512
    → new_keys c.entries reset_defaults ≤ 12
    → ((save D c fs s).0 ≡ ok)
      × AllSaid c.entries (load D c (save D c fs s).1 (save D c fs s).2).0.entries
settings_survive D L c fs top s i files good ready claimed short clean apart fits few =
    let r = save-load D L c fs top s i files good ready claimed short clean fits in
    (
      r.0,
      rw r.1 (
          set_all-AllSaid c.entries reset_defaults clean apart defaults-AreShaped
            (omega (arith, few, defaults_used.0, defaults_used.1))),
    )
