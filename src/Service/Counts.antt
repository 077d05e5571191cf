-- ===== src/Service/Counts.antt =====
-- How often the services were started and stopped, over any series of calls.
use native.Mathlib.Decide.{ℕ_discrete}
use acharya_os.Base.{
  ℕ, zero, suc, ◌+◌, ◌^◌, ◌≤◌, ◌<◌, ◌≡◌, refl, arith, false, not, ◌||◌, ◌==◌, some, Option-cases,
  Bool-cases, inl, inr, List, [], ◌∷◌, weight, get_or-replicate, length, is_ok,
}
use acharya_os.Kstring.{CString, has_text, copy_text, copy_loop}
use acharya_os.Log.{Log}
use acharya_os.Service.{
  Entry, Registry, blank, service_at, update, mark_running, mark_stopped, is_running, find, start,
  stop, restart, enable, disable, startup_one, startup_from, startup_all, register, init,
}
use acharya_os.Service.Steps.{
  find-some, at_self, at_other, logged, stop_logged, start-none, start-some, stop-none, stop-idle,
  stop-running,
}

-- Over at most `n` starts: each stop had a start before it, and a running service one more.
pub record IsCounted (n : ℕ) (e : Entry) : Type 0 where
  pub ordered : e.stop_count + weight (is_running e) ≤ e.start_count
  pub bounded : e.start_count ≤ n

abbrev pub AllCounted : ℕ → Registry → Type 0
AllCounted n r = (i : ℕ) → IsCounted n (service_at r i)

IsCounted-more : (n m : ℕ) (e : Entry) → n ≤ m → IsCounted n e → IsCounted m e
IsCounted-more n m e le c = record { ordered = c.ordered; bounded = omega (arith, c.bounded) }

update-AllCounted :
    (n m i : ℕ) (f : Entry → Entry) (r : Registry)
    → n ≤ m
    → i < length r.services
    → IsCounted m (f (service_at r i))
    → AllCounted n r
    → AllCounted m (update i f r)
update-AllCounted n m i f r le lt here c j = elim (ℕ_discrete i j) [
  | yes e ↦ rw (← e, at_self r i f lt) here
  | no ne ↦ rw (at_other r i f j ne) (IsCounted-more n m (service_at r j) le (c j))
]

module _ (n : ℕ) (name : CString) (now : ℕ) (r : Registry) (c : AllCounted n r) where
  pub start-AllCounted : n + 1 < 2 ^ 32 → AllCounted (n + 1) (start name now r).1
  unfolding is_running
  start-AllCounted small = elim (Option-cases (find name r)) [
    | inl e ↦
        rw (start-none name now r e)
          (λ i. IsCounted-more n (n + 1) (service_at r i) (omega arith) (c i))
    | inr (i, e) ↦ rw (start-some name now r i e) (
        update-AllCounted n (n + 1) i (mark_running now) (logged i now r) (omega arith)
          (find-some name r i e).0
          (record {
            ordered = omega (arith, (c i).ordered, (c i).bounded);
            bounded = omega (arith, (c i).bounded);
          })
          c)
  ]

  pub stop-AllCounted : n < 2 ^ 32 → AllCounted n (stop name now r).1
  unfolding is_running
  stop-AllCounted small = elim (Option-cases (find name r)) [
    | inl e ↦ rw (stop-none name now r e) c
    | inr (i, e) ↦ elim (Bool-cases (is_running (service_at r i))) [
      | inr off ↦ rw (stop-idle name now r i e off) c
      | inl on ↦
          let used : weight (is_running (service_at r i)) ≡ 1 = rw on in
          rw (stop-running name now r i e on) (
            update-AllCounted n n i (mark_stopped now) (stop_logged i now r) (omega arith)
              (find-some name r i e).0
              (record {
                ordered = omega (arith, (c i).ordered, (c i).bounded, used);
                bounded = (c i).bounded;
              })
              c)
    ]
  ]

  switch-AllCounted :
      (f : Entry → Entry) (i : ℕ)
      → find name r ≡ some i
      → IsCounted n (f (service_at r i))
      → AllCounted n (update i f r)
  switch-AllCounted f i e here =
      update-AllCounted n n i f r (omega arith) (find-some name r i e).0 here c

  pub enable-AllCounted : AllCounted n (enable name r).1
  unfolding enable is_running
  enable-AllCounted = elim (Option-cases (find name r)) [
    | inl e ↦ rw e c
    | inr (i, e) ↦
        rw e (switch-AllCounted _ i e (record { ordered = (c i).ordered; bounded = (c i).bounded }))
  ]

  pub disable-AllCounted : AllCounted n (disable name r).1
  unfolding disable is_running
  disable-AllCounted = elim (Option-cases (find name r)) [
    | inl e ↦ rw e c
    | inr (i, e) ↦
        rw e (switch-AllCounted _ i e (record { ordered = (c i).ordered; bounded = (c i).bounded }))
  ]

restart-AllCounted :
    (n : ℕ) (name : CString) (now : ℕ) (r : Registry)
    → AllCounted n r
    → n + 1 < 2 ^ 32
    → AllCounted (n + 1) (restart name now r).1
unfolding restart
restart-AllCounted n name now r c small =
    let r' = (stop name now r).1 in
    let c' = stop-AllCounted n name now r c (omega arith) in
    elim (Bool-cases (is_ok (stop name now r).0)) [
      | inl good ↦ rw good (start-AllCounted n name now r' c' small)
      | inr bad ↦ rw bad (λ i. IsCounted-more n (n + 1) (service_at r' i) (omega arith) (c' i))
    ]

startup_one-AllCounted :
    (n i now : ℕ) (r : Registry)
    → AllCounted n r
    → n + 1 < 2 ^ 32
    → AllCounted (n + 1) (startup_one i now r)
unfolding startup_one
startup_one-AllCounted n i now r c small =
    elim (Bool-cases (not (has_text (service_at r i).name) || (service_at r i).enabled == 0)) [
      | inl skip ↦ rw skip (λ j. IsCounted-more n (n + 1) (service_at r j) (omega arith) (c j))
      | inr go ↦ rw go (start-AllCounted n (service_at r i).name now r c small)
    ]

startup_from-AllCounted :
    (left n i now : ℕ) (r : Registry)
    → AllCounted n r
    → n + left < 2 ^ 32
    → AllCounted (n + left) (startup_from left i now r)
unfolding startup_from
startup_from-AllCounted zero n i now r c small = let e : n + 0 ≡ n = omega arith in rw e c
startup_from-AllCounted (suc left) n i now r c small =
    let e : n + suc left ≡ n + 1 + left = omega arith in
    rw e (
      startup_from-AllCounted left (n + 1) (i + 1) now (startup_one i now r)
        (startup_one-AllCounted n i now r c (omega arith)) (omega arith))

-- What the shell and the boot do with the services after `service_init`.
pub data Call : Type 0 where
  start_one stop_one restart_one : CString → ℕ → Call
  enable_one disable_one : CString → Call
  start_all : ℕ → Call

abbrev pub perform : Call → Registry → Registry
perform (start_one name now) r = (start name now r).1
perform (stop_one name now) r = (stop name now r).1
perform (restart_one name now) r = (restart name now r).1
perform (enable_one name) r = (enable name r).1
perform (disable_one name) r = (disable name r).1
perform (start_all now) r = startup_all now r

-- The starts that a call may make, at most.
abbrev pub starts : Call → ℕ
starts (start_one name now) = 1
starts (stop_one name now) = 0
starts (restart_one name now) = 1
starts (enable_one name) = 0
starts (disable_one name) = 0
starts (start_all now) = 16

abbrev pub all_starts : List Call → ℕ
all_starts [] = 0
all_starts (c ∷ cs) = starts c + all_starts cs

abbrev pub perform_all : List Call → Registry → Registry
perform_all [] r = r
perform_all (c ∷ cs) r = perform_all cs (perform c r)

perform-AllCounted :
    (c : Call) (n : ℕ) (r : Registry)
    → n + starts c < 2 ^ 32
    → AllCounted n r
    → AllCounted (n + starts c) (perform c r)
unfolding startup_all
perform-AllCounted (start_one name now) n r small c = start-AllCounted n name now r c small
perform-AllCounted (stop_one name now) n r small c =
    let e : n + 0 ≡ n = omega arith in rw e (stop-AllCounted n name now r c (omega arith))
perform-AllCounted (restart_one name now) n r small c = restart-AllCounted n name now r c small
perform-AllCounted (enable_one name) n r small c =
    let e : n + 0 ≡ n = omega arith in rw e (enable-AllCounted n name 0 r c)
perform-AllCounted (disable_one name) n r small c =
    let e : n + 0 ≡ n = omega arith in rw e (disable-AllCounted n name 0 r c)
perform-AllCounted (start_all now) n r small c = startup_from-AllCounted 16 n 0 now r c small

perform_all-AllCounted :
    (cs : List Call) (n : ℕ) (r : Registry)
    → n + all_starts cs < 2 ^ 32
    → AllCounted n r
    → AllCounted (n + all_starts cs) (perform_all cs r)
perform_all-AllCounted [] n r small c = let e : n + 0 ≡ n = omega arith in rw e c
perform_all-AllCounted (k ∷ cs) n r small c =
    let e : n + (starts k + all_starts cs) ≡ n + starts k + all_starts cs = omega arith in
    rw e (
      perform_all-AllCounted cs (n + starts k) (perform k r) (omega arith)
        (perform-AllCounted k n r (omega arith) c))

idle-IsCounted :
    (e : Entry) → e.start_count ≡ 0 → e.stop_count ≡ 0 → is_running e ≡ false → IsCounted 0 e
idle-IsCounted e a b off =
    let none_running : weight (is_running e) ≡ 0 = rw off in
    record { ordered = omega arith; bounded = omega arith }

init-AllCounted : (log : Log) → AllCounted 0 (init log)
unfolding init register find is_running copy_text copy_loop
init-AllCounted log zero = idle-IsCounted _ refl refl refl
init-AllCounted log (suc zero) = idle-IsCounted _ refl refl refl
init-AllCounted log (suc (suc zero)) = idle-IsCounted _ refl refl refl
init-AllCounted log (suc (suc (suc i))) =
    let e : service_at (init log) (suc (suc (suc i))) ≡ blank = get_or-replicate 13 i blank in
    rw e (idle-IsCounted blank refl refl refl)

-- After `service_init` and any series of calls that can make fewer than 2^32 starts, every service
-- was stopped at most as often as it was started, and a running one strictly less often; no
-- service was started more often than the calls allow.
pub calls-AllCounted :
    (calls : List Call) (log : Log)
    → all_starts calls < 2 ^ 32
    → AllCounted (all_starts calls) (perform_all calls (init log))
calls-AllCounted calls log small =
    let e : 0 + all_starts calls ≡ all_starts calls = omega arith in
    rw e at (perform_all-AllCounted calls 0 (init log) (omega arith) (init-AllCounted log))
