-- ===== src/Log/Refine.antt =====
-- Any series of calls on the ring, against the history.
use acharya_os.Base.{
  ℕ, zero, suc, ◌+◌, ◌-◌, ◌%◌, ◌^◌, ◌≡◌, refl, ◌∙◌, sym, ap, arith, List, [], ◌∷◌, length, get_or,
  take, min, u32, Bool-cases, inl, inr, ◌==◌, ==_iff, map, take-nil,
}
use acharya_os.Log
use acharya_os.Log.{
  Log, Level, Line, set_minimum_level, Entry, blank, filled, rank, store_entry, copy_from,
  copy_entries, get_stats,
}
use acharya_os.Log.Window.{View, view, window, entry_at, window_round}
use acharya_os.Log.History.{History, Call, write, set_level, step, after, empty, remembered}
use acharya_os.Log.Store.{Refines, oldest, write-Refines}

set_level-Refines :
    (lv : Level) {log : Log} {h : History}
    → Refines log h
    → Refines (set_minimum_level lv log) (step (set_level lv) h)
unfolding set_minimum_level
set_level-Refines lv r = record {
  slots = r.slots;
  head_in = r.head_in;
  counted = r.counted;
  roomy = r.roomy;
  contents = r.contents;
  total = r.total;
  dropped = r.dropped;
  level = refl;
}

-- The same calls on the logger.
abbrev pub perform : Call → Log → Log
perform (write lv message now) log = Log.write lv message now log
perform (set_level lv) log = set_minimum_level lv log

abbrev pub perform_all : List Call → Log → Log
perform_all [] log = log
perform_all (c ∷ cs) log = perform_all cs (perform c log)

perform-Refines :
    (c : Call) {log : Log} {h : History} → Refines log h → Refines (perform c log) (step c h)
perform-Refines (write lv message now) {log} {h} r = write-Refines lv message now log h r
perform-Refines (set_level lv) r = set_level-Refines lv r

perform_all-Refines :
    (cs : List Call) {log : Log} {h : History}
    → Refines log h
    → Refines (perform_all cs log) (after cs h)
perform_all-Refines [] r = r
perform_all-Refines (c ∷ cs) r = perform_all-Refines cs (perform-Refines c r)

init-Refines :
    (log : Log)
    → length log.buffer ≡ 64
    → ((i : ℕ) → length (get_or log.buffer i blank).message ≡ 128)
    → Refines (Log.init log) empty
unfolding Log.init
init-Refines log slots roomy = record {
  slots = slots;
  head_in = omega arith;
  counted = refl;
  roomy = roomy;
  contents = refl;
  total = refl;
  dropped = refl;
  level = refl;
}

take-window : (buf : List Entry) (i n m : ℕ) → take m (window buf i n) ≡ window buf i (min n m)
take-window buf i zero zero = refl
take-window buf i zero (suc m) = let e : min 0 (suc m) ≡ 0 = omega arith in rw e
take-window buf i (suc n) zero = let e : min (suc n) 0 ≡ 0 = omega arith in rw e
take-window buf i (suc n) (suc m) =
    let e : min (suc n) (suc m) ≡ suc (min n m) = omega arith in
    rw e (ap (λ t. view (entry_at buf i) ∷ t) (take-window buf (i + 1) n m))

view-copy_from :
    (left start copied : ℕ) (buf : List Entry)
    → map view (copy_from left start copied buf) ≡ window buf (start + copied) left
unfolding copy_from
view-copy_from zero start copied buf = refl
view-copy_from (suc left) start copied buf =
    let e : start + (copied + 1) ≡ start + copied + 1 = omega arith in
    ap (λ t. view (entry_at buf (start + copied)) ∷ t)
      (view-copy_from left start (copied + 1) buf ∙ rw e)

-- What `log_copy_entries` gives is the oldest entries first, at most as many as asked for.
copy_entries-Refines :
    (max : ℕ) {log : Log} {h : History}
    → Refines log h
    → map view (copy_entries max log) ≡ take max (remembered h)
unfolding copy_entries
copy_entries-Refines max {log} {h} r = elim (Bool-cases (max == 0)) [
  | inl e ↦ let none_asked : max ≡ 0 = (==_iff max 0).0 e in rw none_asked
  | inr e ↦ elim (Bool-cases (log.count == 0)) [
    | inl c ↦
        let nothing : window log.buffer (oldest log) log.count ≡ [] =
          ap (window log.buffer (oldest log)) ((==_iff log.count 0).0 c) in
        rw (e, c) (sym (ap (take max) (sym r.contents ∙ nothing) ∙ take-nil View max))
    | inr c ↦
        let start = u32 (log.head + 64 + 2 ^ 32 - log.count) % 64 in
        rw (e, c)
          (view-copy_from (min log.count max) start 0 log.buffer
            ∙ window_round log.buffer (start + 0) (oldest log) (min log.count max)
                (omega (arith, r.head_in, r.counted))
            ∙ sym (take-window log.buffer (oldest log) log.count max)
            ∙ ap (take max) r.contents)
  ]
]

-- The logger's contract. Start `log_init` on a table whose entries have room for 128 characters,
-- then call `log_write` and `log_set_minimum_level` in any order. `log_copy_entries` then returns
-- the newest 64 of the messages that passed the level in force, oldest first, each with its tick
-- and level and cut to 127 characters, as many of them as the caller asked for; the statistics
-- count the accepted messages, those still stored, and those overwritten.
pub log_remembers :
    (calls : List Call) (max : ℕ) (log : Log)
    → length log.buffer ≡ 64
    → ((i : ℕ) → length (get_or log.buffer i blank).message ≡ 128)
    → let log' = perform_all calls (Log.init log) in
      let h = after calls empty in
      (map view (copy_entries max log') ≡ take max (remembered h))
      × (get_stats log' ≡ record {
        total_entries = u32 (length h.entries);
        stored_entries = min 64 (length h.entries);
        dropped_entries = u32 (length h.entries - 64);
        minimum_level = h.minimum_level;
      })
unfolding get_stats
log_remembers calls max log slots roomy =
    let r = perform_all-Refines calls (init-Refines log slots roomy) in
    (copy_entries-Refines max r, rw (r.total, r.counted, r.dropped, r.level))
