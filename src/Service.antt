-- ===== src/Service.antt =====
-- kernel/service/service.c: the startup services. The hooks write to the logger, so a step takes
-- and gives back the logger too. `now` is what `timer_get_ticks` returns; no timer interrupt falls
-- within a call.
pub mod Steps
pub mod Startup
pub mod Counts
mod Tests
use acharya_os.Base.{
  ℕ, zero, suc, ◌+◌, List, Bool, true, false, not, ◌&&◌, ◌||◌, Option, none, some, Status, ok, fail,
  ◌==◌, if◌then◌else◌, u32, get_or, replicate, find_index, count, collect, modify, is_ok, maybe,
}
use acharya_os.Kstring.{CString, codes, has_text, str_eq, copy_text}
use acharya_os.Log
use acharya_os.Log.{Log}

pub data ServiceState : Type 0 where
  stopped running failed : ServiceState

-- `service_entry_t`.
pub record Entry : Type 0 where
  pub name : CString
  pub description : CString
  pub enabled : ℕ
  pub state : ServiceState
  pub last_started_tick : ℕ
  pub last_stopped_tick : ℕ
  pub start_count : ℕ
  pub stop_count : ℕ

pub record Registry : Type 0 where
  pub services : List Entry
  pub log : Log

pub record Stats : Type 0 where
  pub total_services : ℕ
  pub enabled_services : ℕ
  pub running_services : ℕ

abbrev pub entry_max : ℕ
entry_max = 16

abbrev pub name_max : ℕ
name_max = 32

abbrev pub desc_max : ℕ
desc_max = 64

-- What `memset` to 0 leaves.
abbrev pub blank : Entry
blank = record {
  name = replicate name_max 0;
  description = replicate desc_max 0;
  enabled = 0;
  state = stopped;
  last_started_tick = 0;
  last_stopped_tick = 0;
  start_count = 0;
  stop_count = 0;
}

-- services[i]
abbrev pub service_at : Registry → ℕ → Entry
service_at r i = get_or r.services i blank

abbrev pub update : ℕ → (Entry → Entry) → Registry → Registry
update i f r = record r { services = modify i f r.services }

abbrev pub is_named : CString → Entry → Bool
is_named name e = has_text e.name && str_eq e.name name

-- `none` is the result -1.
pub find : CString → Registry → Option ℕ
find name r = find_index (is_named name) r.services

-- The slot that `service_register` fills in.
abbrev pub registered : CString → CString → ℕ → Entry → Entry
registered name description enabled e = record {
  name = copy_text e.name name_max name;
  description = copy_text e.description desc_max description;
  enabled = enabled;
  state = stopped;
  last_started_tick = 0;
  last_stopped_tick = 0;
  start_count = 0;
  stop_count = 0;
}

pub register : CString → CString → ℕ → Registry → Registry
register name description enabled r =
    maybe (find_index (λ e. not (has_text e.name)) r.services) r
      λ i. update i (registered name description enabled) r

pub run_hook : CString → ℕ → Log → Status × Log
run_hook name now log =
    if str_eq name (codes "logger")
    then (ok, Log.write Log.info (codes "service logger started") now log)
    else if str_eq name (codes "clock")
    then (ok, Log.write Log.info (codes "service clock started") now log)
    else if str_eq name (codes "shell-ready")
    then (ok, Log.write Log.info (codes "service shell-ready started") now log)
    else (ok, log)

pub stop_hook : CString → ℕ → Log → Status × Log
stop_hook name now log =
    if str_eq name (codes "logger")
    then (ok, Log.write Log.info (codes "service logger stopped") now log)
    else if str_eq name (codes "clock")
    then (ok, Log.write Log.info (codes "service clock stopped") now log)
    else if str_eq name (codes "shell-ready")
    then (ok, Log.write Log.info (codes "service shell-ready stopped") now log)
    else (ok, log)

pub state_name : ServiceState → CString
state_name stopped = codes "stopped"
state_name running = codes "running"
state_name failed = codes "failed"

pub init : Log → Registry
init log =
    let r0 : Registry = record { services = replicate entry_max blank; log = log } in
    let r1 = register (codes "logger") (codes "kernel logging hook") 1 r0 in
    let r2 = register (codes "clock") (codes "timer bookkeeping hook") 1 r1 in
    register (codes "shell-ready") (codes "shell readiness marker") 1 r2

abbrev pub mark_running : ℕ → Entry → Entry
mark_running now e = record e {
  state = running;
  last_started_tick = now;
  start_count = u32 (e.start_count + 1);
}

abbrev pub mark_stopped : ℕ → Entry → Entry
mark_stopped now e = record e {
  state = stopped;
  last_stopped_tick = now;
  stop_count = u32 (e.stop_count + 1);
}

abbrev pub mark_failed : Entry → Entry
mark_failed e = record e { state = failed }

-- The rest of `service_start` after the hook.
pub finish_start : ℕ → ℕ → Status × Log → Registry → Status × Registry
finish_start i now (ok, log) r = (ok, update i (mark_running now) (record r { log = log }))
finish_start i now (fail, log) r = (fail, update i mark_failed (record r { log = log }))

pub start : CString → ℕ → Registry → Status × Registry
start name now r =
    maybe (find name r) (fail, r)
      λ i. finish_start i now (run_hook (service_at r i).name now r.log) r

pub is_running : Entry → Bool
is_running e = elim (e.state) [ running ↦ true | stopped ↦ false | failed ↦ false ]

-- The rest of `service_stop` after the hook.
pub finish_stop : ℕ → ℕ → Status × Log → Registry → Status × Registry
finish_stop i now (ok, log) r = (ok, update i (mark_stopped now) (record r { log = log }))
finish_stop i now (fail, log) r = (fail, update i mark_failed (record r { log = log }))

pub stop : CString → ℕ → Registry → Status × Registry
stop name now r =
    maybe (find name r) (fail, r)
      λ i.
        if not (is_running (service_at r i))
        then (ok, r)
        else finish_stop i now (stop_hook (service_at r i).name now r.log) r

pub restart : CString → ℕ → Registry → Status × Registry
restart name now r =
    let (result, r') = stop name now r in
    if not (is_ok result) then (fail, r') else start name now r'

pub enable : CString → Registry → Status × Registry
enable name r = maybe (find name r) (fail, r) λ i. (ok, update i (λ e. record e { enabled = 1 }) r)

pub disable : CString → Registry → Status × Registry
disable name r = maybe (find name r) (fail, r) λ i. (ok, update i (λ e. record e { enabled = 0 }) r)

-- One round of the loop of `service_startup_all`.
pub startup_one : ℕ → ℕ → Registry → Registry
startup_one i now r =
    if not (has_text (service_at r i).name) || (service_at r i).enabled == 0
    then r
    else (start (service_at r i).name now r).1

-- The rounds from slot `i` on, with `left` of them to go.
pub startup_from : ℕ → ℕ → ℕ → Registry → Registry
startup_from zero i now r = r
startup_from (suc left) i now r = startup_from left (i + 1) now (startup_one i now r)

pub startup_all : ℕ → Registry → Registry
startup_all now r = startup_from entry_max 0 now r

pub list : ℕ → Registry → List Entry
list max r = collect (λ e. has_text e.name) max r.services

pub info : CString → Registry → Option Entry
info name r = maybe (find name r) none λ i. some (service_at r i)

pub get_stats : Registry → Stats
get_stats r = record {
  total_services = count (λ e. has_text e.name) r.services;
  enabled_services = count (λ e. has_text e.name && not (e.enabled == 0)) r.services;
  running_services = count (λ e. has_text e.name && is_running e) r.services;
}
