-- ===== src/Scheduler/Round.antt =====
-- A whole round: every task gets its time slice, once.
use native.Mathlib.Decide.{ℕ_discrete, dec_lt}
use native.Mathlib.Nat.{mod-eq_of_lt, mod-eq-sub-mod, mod-add-mod}
use acharya_os.Base.{
  ℕ, zero, suc, ◌+◌, ◌-◌, ◌%◌, ◌≤◌, ◌<◌, ◌≡◌, refl, ap, subst, ◌∙◌, sym, arith, ◌≢◌, u64,
}
use acharya_os.Scheduler.{Scheduler}
use acharya_os.Scheduler.Invariant.{IsValid}
use acharya_os.Scheduler.Turn.{ticks, seen, slice, Gave, turn_ends}

-- As many ticks as the current task's time slice has, `k` times.
abbrev pub turns : ℕ → Scheduler → Scheduler
turns zero s = s
turns (suc k) s = let t = turns k s in ticks (slice t t.current_index) t

-- Places on a ring of `n`.
wrap : (x n : ℕ) → x < n → x % n ≡ x
wrap x n h = mod-eq_of_lt h

wrap_once : (x n : ℕ) → n ≤ x → x < n + n → x % n ≡ x - n
wrap_once x n p q = mod-eq-sub-mod {n = x} {m = n} p ∙ mod-eq_of_lt (omega arith)

places_ne : (c j k n : ℕ) → c < n → j < n → k < n → j ≢ k → (c + j) % n ≢ (c + k) % n
places_ne c j k n hc hj hk ne = elim (dec_lt (c + j) n) [
  | yes p ↦ elim (dec_lt (c + k) n) [
    | yes q ↦ omega (arith, wrap (c + j) n p, wrap (c + k) n q)
    | no q ↦ omega (arith, wrap (c + j) n p, wrap_once (c + k) n (omega arith) (omega arith))
  ]
  | no p ↦ elim (dec_lt (c + k) n) [
    | yes q ↦ omega (arith, wrap_once (c + j) n (omega arith) (omega arith), wrap (c + k) n q)
    | no q ↦ omega (
      arith,
      wrap_once (c + j) n (omega arith) (omega arith),
      wrap_once (c + k) n (omega arith) (omega arith),
    )
  ]
]

-- Every place is some number of steps ahead.
steps_to : (c i n : ℕ) → c < n → i < n → (j : ℕ) × (j < n) × ((c + j) % n ≡ i)
steps_to c i n hc hi = elim (dec_lt i c) [
  | yes p ↦ (
    i + n - c,
    omega arith,
    wrap_once (c + (i + n - c)) n (omega arith) (omega arith) ∙ omega arith,
  )
  | no p ↦ (i - c, omega arith, wrap (c + (i - c)) n (omega arith) ∙ omega arith)
]

-- What `k` turns have done.
record Rotated (k : ℕ) (s t : Scheduler) : Type 0 where
  valid : IsValid t
  same_count : t.task_count ≡ s.task_count
  place : t.current_index ≡ (s.current_index + k) % s.task_count
  fresh : t.slice_progress ≡ 0
  slices : (i : ℕ) → slice t i ≡ slice s i
  served :
      (j : ℕ)
      → j < k
      → let i = (s.current_index + j) % s.task_count in seen t i ≡ u64 (seen s i + slice s i)
  waiting :
      (j : ℕ)
      → k ≤ j
      → j < s.task_count
      → let i = (s.current_index + j) % s.task_count in seen t i ≡ seen s i

-- One whole slice, from its start.
full_turn :
    (t : Scheduler)
    → IsValid t
    → 0 < t.task_count
    → t.slice_progress ≡ 0
    → let n = slice t t.current_index in
      Gave n t (ticks n t)
      × ((ticks n t).current_index ≡ (t.current_index + 1) % t.task_count)
      × ((ticks n t).slice_progress ≡ 0)
full_turn t v h start =
    let pos = (v.registered t.current_index (omega (arith, v.inside))).slice_pos in
    let e : suc (slice t t.current_index - 1) ≡ slice t t.current_index = omega arith in
    subst
      (λ n.
        Gave n t (ticks n t)
        × ((ticks n t).current_index ≡ (t.current_index + 1) % t.task_count)
        × ((ticks n t).slice_progress ≡ 0))
      e (turn_ends t v h (slice t t.current_index - 1) (omega arith))

next_place : (c k n : ℕ) → ((c + k) % n + 1) % n ≡ (c + suc k) % n
next_place c k n = rw mod-add-mod (ap (λ x. x % n) (omega arith))

-- A turn more.
module _ (k : ℕ) (s t u : Scheduler) (lt : k < s.task_count)
    (inside : s.current_index < s.task_count) (r : Rotated k s t)
    (g : Gave (slice t t.current_index) t u)
    (moved : u.current_index ≡ (t.current_index + 1) % t.task_count)
    (anew : u.slice_progress ≡ 0) where
  here_or_later :
      (j : ℕ) → j < s.task_count → j ≢ k → t.current_index ≢ (s.current_index + j) % s.task_count
  here_or_later j lj ne e =
      places_ne s.current_index j k s.task_count inside lj lt ne (sym e ∙ r.place)

  serve_one : let i = (s.current_index + k) % s.task_count in seen u i ≡ u64 (seen s i + slice s i)
  serve_one = rw (← r.place) (
      omega (
        arith,
        g.mine,
        r.slices t.current_index,
        ap (seen t) r.place,
        ap (seen s) r.place,
        r.waiting k (omega arith) lt,
      ))

  Rotated-suc : Rotated (suc k) s u
  Rotated-suc = record {
    valid = g.valid;
    same_count = g.same_count ∙ r.same_count;
    place = moved ∙ rw (r.place, r.same_count) (next_place s.current_index k s.task_count);
    fresh = anew;
    slices = λ i. g.slices i ∙ r.slices i;
    served = λ j lj. elim (ℕ_discrete j k) [
      | yes e ↦ rw e serve_one
      | no ne ↦ g.others _ (here_or_later j (omega arith) ne) ∙ r.served j (omega arith)
    ];
    waiting =
        λ j le lj. g.others _ (here_or_later j lj (omega arith)) ∙ r.waiting j (omega arith) lj;
  }

module _ (s : Scheduler) (v : IsValid s) (h : 0 < s.task_count) (start : s.slice_progress ≡ 0) where
  starts : s.current_index ≡ (s.current_index + 0) % s.task_count
  starts = omega (arith, wrap (s.current_index + 0) s.task_count (omega (arith, v.inside)))

  rotate : (k : ℕ) → k ≤ s.task_count → Rotated k s (turns k s)
  rotate zero le = record {
    valid = v;
    same_count = refl;
    place = starts;
    fresh = start;
    slices = λ i. refl;
    served = λ j lt. absurd (omega arith);
    waiting = λ j _ lt. refl;
  }
  rotate (suc k) le =
      let r = rotate k (omega arith) in
      let (g, moved, anew) = full_turn (turns k s) r.valid (omega (arith, r.same_count)) r.fresh in
      Rotated-suc k s (turns k s) (turns (suc k) s) (omega arith) (omega (arith, v.inside)) r g
        moved anew

  -- From the start of a slice, a round of as many turns as there are tasks comes back to the task
  -- it started at, keeps the invariant, and has charged each task `i` exactly its own time slice.
  pub round_robin :
      (i : ℕ)
      → i < s.task_count
      → IsValid (turns s.task_count s)
        × ((turns s.task_count s).current_index ≡ s.current_index)
        × (seen (turns s.task_count s) i ≡ u64 (seen s i + slice s i))
  round_robin i lt =
      let r = rotate s.task_count (omega arith) in
      let (j, lj, e) = steps_to s.current_index i s.task_count (omega (arith, v.inside)) lt in
      (
        r.valid,
        r.place
            ∙ wrap_once (s.current_index + s.task_count) s.task_count (omega arith)
                (omega (arith, v.inside))
            ∙ omega arith,
        rw e at (r.served j lj),
      )
