-- ===== src/Service/Startup.antt =====
-- `service_startup_all`: the loop starts each enabled service once.
use native.Mathlib.Decide.{ℕ_discrete}
use acharya_os.Base.{
  ℕ, zero, suc, ◌+◌, ◌≤◌, ◌<◌, ◌≡◌, refl, ◌∙◌, sym, ap, arith, Bool, true, false, not, ◌&&◌, ◌||◌,
  ◌==◌, some, Status, if◌then◌else◌, u32, Bool-cases, inl, inr,
}
use acharya_os.Kstring.{CString, has_text}
use acharya_os.Service.{
  Entry, Registry, running, service_at, update, find, mark_running, startup_one, startup_from,
  startup_all,
}
use acharya_os.Service.Steps.{find-some, at_self, at_other, find-update, logged, start-some}

-- The slot is to be started.
abbrev pub wanted : Entry → Bool
wanted e = has_text e.name && not (e.enabled == 0)

-- The slot after the startup: one start more is counted, and it is at the present tick.
abbrev pub after_startup : ℕ → Entry → Entry
after_startup now e =
    if wanted e
    then record e {
      state = running;
      last_started_tick = now;
      start_count = u32 (e.start_count + 1);
    }
    else e

-- Every service in use is the first of its name.
abbrev pub HasOwnNames : Registry → Type 0
HasOwnNames r =
    (i : ℕ) → has_text (service_at r i).name ≡ true → find (service_at r i).name r ≡ some i

-- The slots before `k` have had their round, the others have not.
record Started (now k : ℕ) (r t : Registry) : Type 0 where
  past : (i : ℕ) → i < k → service_at t i ≡ after_startup now (service_at r i)
  rest : (i : ℕ) → k ≤ i → service_at t i ≡ service_at r i
  names : (name : CString) → find name t ≡ find name r

module _ (now k : ℕ) (r t : Registry) (own : HasOwnNames r) (s : Started now k r t) where
  this : service_at t k ≡ service_at r k
  this = s.rest k (omega arith)

  skip-Started : wanted (service_at r k) ≡ false → Started now (suc k) r (startup_one k now t)
  unfolding startup_one
  skip-Started off =
      let skip : (not (has_text (service_at r k).name) || (service_at r k).enabled == 0) ≡ true =
        ground arith in
      let same : startup_one k now t ≡ t = rw (this, skip) in
      rw same (record {
        past = λ i lt. elim (ℕ_discrete i k) [
          | yes e ↦ rw (e, off) this
          | no ne ↦ s.past i (omega arith)
        ];
        rest = λ i le. s.rest i (omega arith);
        names = s.names;
      })

  start-Started : wanted (service_at r k) ≡ true → Started now (suc k) r (startup_one k now t)
  unfolding startup_one find
  start-Started on =
      let go : (not (has_text (service_at r k).name) || (service_at r k).enabled == 0) ≡ false =
        ground arith in
      let named : has_text (service_at r k).name ≡ true = ground arith in
      let e : find (service_at t k).name t ≡ some k =
        ap (λ (x : Entry). find x.name t) this ∙ s.names (service_at r k).name ∙ own k named in
      let lt = (find-some (service_at t k).name t k e).0 in
      let go_there : (not (has_text (service_at t k).name) || (service_at t k).enabled == 0)
          ≡ false =
        rw this go in
      let stepped : startup_one k now t ≡ update k (mark_running now) (logged k now t) =
        rw go_there
          (ap (λ (x : Status × Registry). x.1) (start-some (service_at t k).name now t k e)) in
      rw stepped (record {
        past = λ i l. elim (ℕ_discrete i k) [
          | yes same ↦
              rw (same, at_self (logged k now t) k (mark_running now) lt, on)
                (ap (mark_running now) this)
          | no ne ↦
              at_other (logged k now t) k (mark_running now) i (λ c. ne (sym c))
              ∙ s.past i (omega arith)
        ];
        rest = λ i le.
            at_other (logged k now t) k (mark_running now) i (omega arith) ∙ s.rest i (omega arith);
        names = λ name.
            find-update (logged k now t) k (mark_running now) name (λ _. refl) ∙ s.names name;
      })

  Started-suc : Started now (suc k) r (startup_one k now t)
  Started-suc = elim (Bool-cases (wanted (service_at r k))) [
    | inl on ↦ start-Started on
    | inr off ↦ skip-Started off
  ]

Started-from :
    (left k now : ℕ) (r t : Registry)
    → HasOwnNames r
    → Started now k r t
    → Started now (k + left) r (startup_from left k now t)
unfolding startup_from
Started-from zero k now r t own s = let e : k + 0 ≡ k = omega arith in rw e s
Started-from (suc left) k now r t own s =
    let e : k + suc left ≡ k + 1 + left = omega arith in
    let f : k + 1 ≡ suc k = omega arith in
    rw e (
      Started-from left (k + 1) now r (startup_one k now t) own
        (rw f (Started-suc now k r t own s)))

-- When the services have different names, `service_startup_all` starts each one that is enabled
-- exactly once: the service then runs, was last started at the present tick, and its count of starts
-- is one more, in 32 bits. Each other slot of the table stays as it was.
pub startup_all_lem :
    (now : ℕ) (r : Registry) (i : ℕ)
    → HasOwnNames r
    → i < 16
    → service_at (startup_all now r) i ≡ after_startup now (service_at r i)
unfolding startup_all
startup_all_lem now r i own lt =
    (Started-from 16 0 now r r own (record {
      past = λ j l. absurd (omega arith);
      rest = λ j l. refl;
      names = λ name. refl;
    })).past
      i lt
