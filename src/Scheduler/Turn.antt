-- ===== src/Scheduler/Turn.antt =====
-- Round robin: what whole time slices, and a whole round of them, do.
use acharya_os.Base.{
  ℕ, zero, suc, ◌+◌, ◌%◌, ◌<◌, ◌≡◌, refl, ap, ◌∙◌, sym, arith, ◌≢◌, u64, List, get_or,
}
use acharya_os.Scheduler.{Scheduler, Task, task_at, on_timer_tick, empty_task}
use acharya_os.Scheduler.Invariant.{IsValid}
use acharya_os.Scheduler.Tick.{
  charged, passed_on, charged_self, charged_other, charged-slices, tick_inside, tick_last,
  tick-IsValid,
}

-- `k` timer interrupts in a row.
abbrev pub ticks : ℕ → Scheduler → Scheduler
ticks zero s = s
ticks (suc k) s = on_timer_tick (ticks k s)

abbrev pub seen : Scheduler → ℕ → ℕ
seen s i = (task_at s i).ticks_seen

abbrev pub slice : Scheduler → ℕ → ℕ
slice s i = (task_at s i).time_slice_ticks

-- `t` has given `k` ticks more than `s` to the task that is current in `s`, and none to another.
pub record Gave (k : ℕ) (s t : Scheduler) : Type 0 where
  pub valid : IsValid t
  pub same_count : t.task_count ≡ s.task_count
  pub mine : seen t s.current_index ≡ u64 (seen s s.current_index + k)
  pub others : (i : ℕ) → s.current_index ≢ i → seen t i ≡ seen s i
  pub slices : (i : ℕ) → slice t i ≡ slice s i

-- One charge more.
module _ (k : ℕ) {s t : Scheduler} (g : Gave k s t) (same : t.current_index ≡ s.current_index)
    (h : 0 < s.task_count) where
  running : 0 < t.task_count
  running = rw g.same_count h

  charged-mine : seen (charged t) s.current_index ≡ u64 (seen s s.current_index + suc k)
  charged-mine =
      ap (seen (charged t)) (sym same)
      ∙ ap (λ (a : Task). a.ticks_seen) (charged_self g.valid running)
      ∙ omega (arith, g.mine, ap (seen t) same)

  charged-others : (i : ℕ) → s.current_index ≢ i → seen (charged t) i ≡ seen s i
  charged-others i ne =
      ap (λ (a : Task). a.ticks_seen) (charged_other g.valid i (λ e. ne (sym same ∙ e)))
      ∙ g.others i ne

  -- After a further tick, which leaves a valid state.
  Gave-charged :
      (u : Scheduler)
      → IsValid u
      → u.tasks ≡ (charged t).tasks
      → u.task_count ≡ t.task_count
      → Gave (suc k) s u
  Gave-charged u v e n = record {
    valid = v;
    same_count = n ∙ g.same_count;
    mine =
        ap (λ (ts : List Task). (get_or ts s.current_index empty_task).ticks_seen) e ∙ charged-mine;
    others = λ i ne.
        ap (λ (ts : List Task). (get_or ts i empty_task).ticks_seen) e ∙ charged-others i ne;
    slices = λ i.
        ap (λ (ts : List Task). (get_or ts i empty_task).time_slice_ticks) e
        ∙ charged-slices g.valid i running
        ∙ g.slices i;
  }

  slice_now : slice t t.current_index ≡ slice s s.current_index
  slice_now = ap (slice t) same ∙ g.slices s.current_index

  step_inside :
      t.slice_progress + 1 < slice s s.current_index
      → Gave (suc k) s (on_timer_tick t)
        × ((on_timer_tick t).current_index ≡ s.current_index)
        × ((on_timer_tick t).slice_progress ≡ t.slice_progress + 1)
  step_inside lt =
      let small =
        (g.valid.registered t.current_index (omega (arith, g.valid.inside, running))).slice_small in
      let e : on_timer_tick t ≡ charged t =
        tick_inside g.valid running (omega (arith, slice_now)) in
      (
        Gave-charged (on_timer_tick t) (tick-IsValid g.valid) (rw e) (rw e),
        ap (λ (u : Scheduler). u.current_index) e ∙ same,
        ap (λ (u : Scheduler). u.slice_progress) e ∙ omega (arith, slice_now),
      )

  step_last :
      t.slice_progress + 1 ≡ slice s s.current_index
      → Gave (suc k) s (on_timer_tick t)
        × ((on_timer_tick t).current_index ≡ (s.current_index + 1) % s.task_count)
        × ((on_timer_tick t).slice_progress ≡ 0)
  step_last eq =
      let e : on_timer_tick t ≡ passed_on (charged t) =
        tick_last g.valid running (omega (arith, slice_now)) in
      (
        Gave-charged (on_timer_tick t) (tick-IsValid g.valid) (rw e) (rw e),
        ap (λ (u : Scheduler). u.current_index) e ∙ rw (same, g.same_count),
        ap (λ (u : Scheduler). u.slice_progress) e,
      )

module _ (s : Scheduler) (v : IsValid s) (h : 0 < s.task_count) where
  -- Short of a whole slice the task stays the current one.
  stays :
      (k : ℕ)
      → s.slice_progress + k < slice s s.current_index
      → Gave k s (ticks k s)
        × ((ticks k s).current_index ≡ s.current_index)
        × ((ticks k s).slice_progress ≡ s.slice_progress + k)
  stays zero lt = (
    record {
      valid = v;
      same_count = refl;
      mine = omega (arith, (v.registered s.current_index (omega (arith, v.inside))).seen_small);
      others = λ i ne. refl;
      slices = λ i. refl;
    },
    refl,
    omega arith,
  )
  stays (suc k) lt =
      let (g, same, used) = stays k (omega arith) in
      let (g', same', used') = step_inside k g same h (omega arith) in (g', same', omega arith)

  -- When the slice is full, the turn goes to the next task.
  pub turn_ends :
      (k : ℕ)
      → s.slice_progress + suc k ≡ slice s s.current_index
      → Gave (suc k) s (ticks (suc k) s)
        × ((ticks (suc k) s).current_index ≡ (s.current_index + 1) % s.task_count)
        × ((ticks (suc k) s).slice_progress ≡ 0)
  turn_ends k e = let (g, same, used) = stays k (omega arith) in step_last k g same h (omega arith)
