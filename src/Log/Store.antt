-- ===== src/Log/Store.antt =====
-- `log_store_entry` and `log_write` keep the ring in step with the history.
use native.Mathlib.Decide.{ℕ_discrete, dec_lt}
use acharya_os.Base.{
  ℕ, suc, ◌+◌, ◌-◌, ◌%◌, ◌<◌, ◌≡◌, ◌∙◌, sym, ap, arith, List, [], ◌∷◌, ◌++◌, length, get_or, set,
  drop, get_or-set_self, get_or-set_ne, length-set, length-append, newest-grow, newest-shift, min,
  u32, ltb, true, false, Bool-cases, inl, inr,
}
use acharya_os.Kstring.{CString}
use acharya_os.Kstring.Laws.{length-copy_loop, text-copy_loop}
use acharya_os.Log
use acharya_os.Log.{
  Log, Level, Line, set_minimum_level, Entry, blank, filled, rank, store_entry, copy_from,
  copy_entries, get_stats,
}
use acharya_os.Log.Window.{View, view, window, window_round, window_extend}
use acharya_os.Log.History.{History, accept, remembered, record_of}

-- Where the oldest entry stands, up to a round.
abbrev pub oldest : Log → ℕ
oldest log = log.head + 64 - log.count

pub record Refines (log : Log) (h : History) : Type 0 where
  pub slots : length log.buffer ≡ 64
  pub head_in : log.head < 64
  pub counted : log.count ≡ min 64 (length h.entries)
  pub roomy : (i : ℕ) → length (get_or log.buffer i blank).message ≡ 128
  pub contents : window log.buffer (oldest log) log.count ≡ remembered h
  pub total : log.total ≡ u32 (length h.entries)
  pub dropped : log.dropped ≡ u32 (length h.entries - 64)
  pub level : log.minimum_level ≡ h.minimum_level

Refines-printed :
    (lines : List Line) {log : Log} {h : History}
    → Refines log h
    → Refines (record log { printed = lines }) h
Refines-printed lines r = record {
  slots = r.slots;
  head_in = r.head_in;
  counted = r.counted;
  roomy = r.roomy;
  contents = r.contents;
  total = r.total;
  dropped = r.dropped;
  level = r.level;
}

module _ (lv : Level) (message : CString) (now : ℕ) (log : Log) (h : History)
    (r : Refines log h) where
  abbrev stored : Entry
  stored = filled (get_or log.buffer log.head blank) lv message now

  abbrev appended : History
  appended = record h { entries = h.entries ++ (record_of lv message now ∷ []) }

  view-stored : view stored ≡ record_of lv message now
  view-stored =
      let e =
        text-copy_loop 127 (get_or log.buffer log.head blank).message message
          (omega (arith, r.roomy log.head)) in
      ap (λ (m : List ℕ). let v : View = record { tick = now; level = lv; message = m } in v) e

  roomy-stored : (i : ℕ) → length (get_or (set log.buffer log.head stored) i blank).message ≡ 128
  roomy-stored i = elim (ℕ_discrete log.head i) [
    | yes e ↦
        rw
          (
            ← e,
            get_or-set_self log.buffer log.head stored blank (omega (arith, r.slots, r.head_in)),
          )
          (length-copy_loop 127 (get_or log.buffer log.head blank).message message
            ∙ r.roomy log.head)
    | no ne ↦ rw (get_or-set_ne log.buffer log.head i stored blank ne) (r.roomy i)
  ]

  contents-grow :
      log.count < 64
      → window (set log.buffer log.head stored) (oldest log) (suc log.count) ≡ remembered appended
  contents-grow lt =
      window_extend log.buffer log.head stored (oldest log) log.count r.slots lt
        (omega (arith, r.head_in))
      ∙ rw (r.contents, view-stored)
          (sym (newest-grow 64 h.entries (record_of lv message now) (omega (arith, r.counted))))

  contents-full : log.count ≡ 64 → window log.buffer log.head 64 ≡ remembered h
  contents-full e =
      window_round log.buffer log.head (oldest log) 64 (omega arith)
      ∙ ap (window log.buffer (oldest log)) (sym e)
      ∙ r.contents

  contents-shift :
      log.count ≡ 64
      → window (set log.buffer log.head stored) (log.head + 1) 64 ≡ remembered appended
  contents-shift e =
      window_extend log.buffer log.head stored (log.head + 1) 63 r.slots (omega arith)
        (omega (arith, r.head_in))
      ∙ rw view-stored (
          ap (λ (t : List View). drop 1 t ++ (record_of lv message now ∷ [])) (contents-full e)
          ∙ sym (
              newest-shift 64 h.entries (record_of lv message now) (omega arith)
                (omega (arith, r.counted))))

  appended-length : length appended.entries ≡ length h.entries + 1
  appended-length = length-append h.entries (record_of lv message now ∷ [])

  store-grow : log.count < 64 → Refines (store_entry lv message now log) appended
  unfolding store_entry
  store-grow lt =
      let room : ltb log.count 64 ≡ true = ground arith in
      rw room (record {
        slots = length-set log.buffer log.head stored ∙ r.slots;
        head_in = omega arith;
        counted = omega (arith, r.counted, appended-length);
        roomy = roomy-stored;
        contents =
            let c : u32 (log.count + 1) ≡ suc log.count = omega arith in
            rw c (
              window_round _ (u32 (log.head + 1) % 64 + 64 - suc log.count) (oldest log)
                (suc log.count) (omega (arith, r.head_in))
              ∙ contents-grow lt);
        total = omega (arith, r.total, appended-length);
        dropped = omega (arith, r.dropped, r.counted, appended-length);
        level = r.level;
      })

  store-shift : log.count ≡ 64 → Refines (store_entry lv message now log) appended
  unfolding store_entry
  store-shift e =
      let full : ltb log.count 64 ≡ false = ground arith in
      rw full (record {
        slots = length-set log.buffer log.head stored ∙ r.slots;
        head_in = omega arith;
        counted = omega (arith, r.counted, appended-length);
        roomy = roomy-stored;
        contents = rw e (
            window_round _ (u32 (log.head + 1) % 64 + 64 - 64) (log.head + 1) 64
              (omega (arith, r.head_in))
            ∙ contents-shift e);
        total = omega (arith, r.total, appended-length);
        dropped = omega (arith, r.dropped, r.counted, appended-length);
        level = r.level;
      })

  store-Refines : Refines (store_entry lv message now log) appended
  store-Refines = elim (dec_lt log.count 64) [
    | yes lt ↦ store-grow lt
    | no ge ↦ store-shift (omega (arith, r.counted))
  ]

  -- Printing does not touch the ring.
  pub write-Refines : Refines (Log.write lv message now log) (accept lv message now h)
  unfolding Log.write accept
  write-Refines =
      let same : ltb (rank lv) (rank log.minimum_level) ≡ ltb (rank lv) (rank h.minimum_level) =
        ap (λ l. ltb (rank lv) (rank l)) r.level in
      elim (Bool-cases (ltb (rank lv) (rank h.minimum_level))) [
        | inl low ↦ rw (same ∙ low, low) r
        | inr high ↦ rw (same ∙ high, high) (Refines-printed _ store-Refines)
      ]
