-- ===== src/Log/Tests.antt =====
-- A logger that stores two of three messages.
use acharya_os.Base.{
  ◌-◌, ◌≡◌, refl, List, [], ◌∷◌, length, take, map, min, u32, get_or-replicate, ap,
}
use acharya_os.Kstring.{codes}
use acharya_os.Log
use acharya_os.Log.{Log, boot, info, debug, error, copy_entries, get_stats, blank}
use acharya_os.Log.Window.{view}
use acharya_os.Log.History.{Call, write, set_level, after, empty, remembered, accept}
use acharya_os.Log.Refine.{perform_all, log_remembers}

abbrev calls : List Call
calls =
    write info (codes "boot") 1
    ∷ write debug (codes "noise") 2
    ∷ set_level error
    ∷ write error (codes "disk") 3
    ∷ []

log_remembers_example :
    let log' = perform_all calls (Log.init boot) in
    let h = after calls empty in
    (map view (copy_entries 5 log') ≡ take 5 (remembered h))
    × (get_stats log' ≡ record {
      total_entries = u32 (length h.entries);
      stored_entries = min 64 (length h.entries);
      dropped_entries = u32 (length h.entries - 64);
      minimum_level = h.minimum_level;
    })
log_remembers_example =
    log_remembers calls 5 boot refl
      (λ i. ap (λ (e : Log.Entry). length e.message) (get_or-replicate 64 i blank))

two_remembered : length (remembered (after calls empty)) ≡ 2
unfolding accept
two_remembered = refl
