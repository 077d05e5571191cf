-- ===== src/Service/Steps.antt =====
-- What a start, a stop and a restart do to the table.
use acharya_os.Base.{
  ℕ, ◌+◌, ◌<◌, ◌≡◌, ◌≢◌, refl, ◌∙◌, ap, arith, true, false, ◌&&◌, none, some, Status, ok, fail, u32,
  length, get_or-modify_self, get_or-modify_ne, find_index-some, find_index-modify_same, Bool-cases,
  inl, inr, if◌then◌else◌,
}
use acharya_os.Kstring.{CString, has_text, str_eq}
use acharya_os.Log.{Log}
use acharya_os.Service.{
  Entry, Registry, blank, service_at, update, is_named, find, run_hook, stop_hook, mark_running,
  mark_stopped, finish_start, finish_stop, start, stop, restart, is_running,
}

-- What a search by name finds.
pub find-some :
    (name : CString) (r : Registry) (i : ℕ)
    → find name r ≡ some i
    → (i < length r.services) × (has_text (service_at r i).name ≡ true)
unfolding find
find-some name r i e =
    let f = find_index-some (is_named name) blank r.services i e in (f.0, ground (arith, f.1))

module _ (r : Registry) (i : ℕ) (f : Entry → Entry) where
  pub at_self : i < length r.services → service_at (update i f r) i ≡ f (service_at r i)
  at_self lt = get_or-modify_self i f r.services blank lt

  pub at_other : (j : ℕ) → i ≢ j → service_at (update i f r) j ≡ service_at r j
  at_other j ne = get_or-modify_ne i j f r.services blank ne

  -- A change that keeps the names changes no search.
  pub find-update :
      (name : CString)
      → ((e : Entry) → (f e).name ≡ e.name)
      → find name (update i f r) ≡ find name r
  unfolding find
  find-update name keeps =
      find_index-modify_same (is_named name) blank i f r.services
        (λ e. ap (λ (n : CString). has_text n && str_eq n name) (keeps e))

run_hook-ok : (name : CString) (now : ℕ) (log : Log) → (run_hook name now log).0 ≡ ok
unfolding run_hook
run_hook-ok name now log = ground arith

stop_hook-ok : (name : CString) (now : ℕ) (log : Log) → (stop_hook name now log).0 ≡ ok
unfolding stop_hook
stop_hook-ok name now log = ground arith

finish_start-ok :
    (i now : ℕ) (h : Status × Log) (r : Registry)
    → h.0 ≡ ok
    → finish_start i now h r ≡ (ok, update i (mark_running now) (record r { log = h.1 }))
unfolding finish_start
finish_start-ok i now (ok, log) r e = refl
finish_start-ok i now (fail, log) r e = cc

finish_stop-ok :
    (i now : ℕ) (h : Status × Log) (r : Registry)
    → h.0 ≡ ok
    → finish_stop i now h r ≡ (ok, update i (mark_stopped now) (record r { log = h.1 }))
unfolding finish_stop
finish_stop-ok i now (ok, log) r e = refl
finish_stop-ok i now (fail, log) r e = cc

-- The log with the hook's message.
abbrev pub logged : ℕ → ℕ → Registry → Registry
logged i now r = record r { log = (run_hook (service_at r i).name now r.log).1 }

abbrev pub stop_logged : ℕ → ℕ → Registry → Registry
stop_logged i now r = record r { log = (stop_hook (service_at r i).name now r.log).1 }

module _ (name : CString) (now : ℕ) (r : Registry) where
  pub start-none : find name r ≡ none → start name now r ≡ (fail, r)
  unfolding start
  start-none e = rw e

  pub stop-none : find name r ≡ none → stop name now r ≡ (fail, r)
  unfolding stop
  stop-none e = rw e

  pub restart-none : find name r ≡ none → restart name now r ≡ (fail, r)
  unfolding restart
  restart-none e = rw (stop-none e)

  module _ (i : ℕ) (e : find name r ≡ some i) where
    pub start-some : start name now r ≡ (ok, update i (mark_running now) (logged i now r))
    unfolding start
    start-some = rw e (
        finish_start-ok i now (run_hook (service_at r i).name now r.log) r
          (run_hook-ok (service_at r i).name now r.log))

    pub stop-idle : is_running (service_at r i) ≡ false → stop name now r ≡ (ok, r)
    unfolding stop
    stop-idle off = rw (e, off)

    pub stop-running :
        is_running (service_at r i) ≡ true
        → stop name now r ≡ (ok, update i (mark_stopped now) (stop_logged i now r))
    unfolding stop
    stop-running on =
        rw (e, on)
          (finish_stop-ok i now (stop_hook (service_at r i).name now r.log) r
            (stop_hook-ok (service_at r i).name now r.log))

-- Restarting a service that is known: it succeeds, the service then runs and was started once
-- more, just now; it was stopped once more if it was running; no other slot changes.
pub restart_lem :
    (name : CString) (now : ℕ) (r : Registry) (i j : ℕ)
    → find name r ≡ some i
    → i ≢ j
    → let (result, r') = restart name now r in
      let e = service_at r' i in
      (result ≡ ok)
      × (is_running e ≡ true)
      × (e.start_count ≡ u32 ((service_at r i).start_count + 1))
      × (e.last_started_tick ≡ now)
      × (e.stop_count ≡ (
          if is_running (service_at r i)
          then u32 ((service_at r i).stop_count + 1)
          else (service_at r i).stop_count))
      × (service_at r' j ≡ service_at r j)
unfolding restart is_running find
restart_lem name now r i j e ne =
    let lt = (find-some name r i e).0 in
    elim (Bool-cases (is_running (service_at r i))) [
      | inl on ↦
          let s = stop_logged i now r in
          let t = update i (mark_stopped now) s in
          let e' : find name t ≡ some i = find-update s i (mark_stopped now) name (λ _. refl) ∙ e in
          let lt' = (find-some name t i e').0 in
          rw (stop-running name now r i e on, start-some name now t i e')
            (rw
              (
                at_self (logged i now t) i (mark_running now) lt',
                at_other (logged i now t) i (mark_running now) j ne,
                at_self s i (mark_stopped now) lt,
                at_other s i (mark_stopped now) j ne,
                on,
              )
              (refl, refl, refl, refl, refl, refl))
      | inr off ↦
          rw (stop-idle name now r i e off, start-some name now r i e)
            (rw
              (
                at_self (logged i now r) i (mark_running now) lt,
                at_other (logged i now r) i (mark_running now) j ne,
                off,
              )
              (refl, refl, refl, refl, refl, refl))
    ]
