-- ===== src/Scheduler/Tick.antt =====
-- `scheduler_on_timer_tick`: what one tick does.
use native.Mathlib.Decide.{ℕ_discrete, dec_lt}
use acharya_os.Base.{
  ℕ, ◌+◌, ◌%◌, ◌<◌, ◌≡◌, refl, ap, ◌∙◌, arith, true, false, ◌==◌, leb, if◌then◌else◌, length-set,
  get_or-set_self, get_or-set_ne, ◌≢◌, u32, u64,
}
use acharya_os.Scheduler.{
  Scheduler, Task, task_at, current, empty_task, runnable_count_now, charge, on_timer_tick,
  advance_to_next_runnable,
}
use acharya_os.Scheduler.Invariant.{IsTask, IsValid, runnable_count-pos, advance_next}

-- The tick counted and charged to the current task, before the slice is looked at.
abbrev pub charged : Scheduler → Scheduler
charged s = charge (record s { total_ticks = u64 (s.total_ticks + 1) })

-- The turn passed on.
abbrev pub passed_on : Scheduler → Scheduler
passed_on s = record s { current_index = (s.current_index + 1) % s.task_count; slice_progress = 0 }

module _ {s : Scheduler} (v : IsValid s) where
  pub charged_self :
      0 < s.task_count
      → task_at (charged s) s.current_index
        ≡ record (current s) { ticks_seen = u64 ((current s).ticks_seen + 1) }
  charged_self h =
      get_or-set_self s.tasks s.current_index _ empty_task
        (omega (arith, v.slots, v.fits, v.inside))

  pub charged_other : (i : ℕ) → s.current_index ≢ i → task_at (charged s) i ≡ task_at s i
  charged_other i ne = get_or-set_ne s.tasks s.current_index i _ empty_task ne

  pub charged-registered : (i : ℕ) → i < s.task_count → IsTask (task_at (charged s) i)
  charged-registered i h = elim (ℕ_discrete s.current_index i) [
    | yes e ↦
        let t = v.registered s.current_index (omega arith) in
        rw (← e, charged_self (omega arith))
          (record {
            runs = t.runs;
            slice_pos = t.slice_pos;
            slice_small = t.slice_small;
            seen_small = omega arith;
          })
    | no ne ↦ rw (charged_other i ne) (v.registered i h)
  ]

  charged-ids : (i : ℕ) → 0 < s.task_count → (task_at (charged s) i).id ≡ (task_at s i).id
  charged-ids i h = elim (ℕ_discrete s.current_index i) [
    | yes e ↦ rw (← e) (ap (λ (t : Task). t.id) (charged_self h))
    | no ne ↦ ap (λ (t : Task). t.id) (charged_other i ne)
  ]

  pub charged-slices :
      (i : ℕ)
      → 0 < s.task_count
      → (task_at (charged s) i).time_slice_ticks ≡ (task_at s i).time_slice_ticks
  charged-slices i h = elim (ℕ_discrete s.current_index i) [
    | yes e ↦ rw (← e) (ap (λ (t : Task). t.time_slice_ticks) (charged_self h))
    | no ne ↦ ap (λ (t : Task). t.time_slice_ticks) (charged_other i ne)
  ]

  charged-slice :
      0 < s.task_count → (current (charged s)).time_slice_ticks ≡ (current s).time_slice_ticks
  charged-slice h = charged-slices s.current_index h

  -- One tick, with a task registered.
  module _ (h : 0 < s.task_count) where
    some_run : (runnable_count_now s == 0) ≡ false
    some_run = ground (arith, runnable_count-pos v h)

    tick-charged : on_timer_tick s ≡ (
        if leb (current (charged s)).time_slice_ticks (charged s).slice_progress
        then advance_to_next_runnable (charged s)
        else charged s)
    unfolding on_timer_tick runnable_count_now
    tick-charged =
        let busy : (s.task_count == 0) ≡ false = ground arith in
        rw (busy, some_run, (v.registered s.current_index (omega (arith, v.inside))).runs)

    -- Inside a slice a tick is counted, charged to the current task, and that is all.
    pub tick_inside :
        s.slice_progress + 1 < (current s).time_slice_ticks → on_timer_tick s ≡ charged s
    tick_inside k =
        let small = (v.registered s.current_index (omega (arith, v.inside))).slice_small in
        let on : leb (current (charged s)).time_slice_ticks (u32 (s.slice_progress + 1)) ≡ false =
          rw (charged-slice h) (ground arith) in
        tick-charged ∙ rw on

    -- The last tick of a slice passes the turn to the next task round the table.
    pub tick_last :
        s.slice_progress + 1 ≡ (current s).time_slice_ticks
        → on_timer_tick s ≡ passed_on (charged s)
    tick_last k =
        let small = (v.registered s.current_index (omega (arith, v.inside))).slice_small in
        let over : leb (current (charged s)).time_slice_ticks (u32 (s.slice_progress + 1)) ≡ true =
          rw (charged-slice h) (ground arith) in
        tick-charged
        ∙ rw over (advance_next (charged s) (omega (arith, v.inside)) v.fits charged-registered)

  charged-IsValid :
      s.slice_progress + 1 < (current s).time_slice_ticks → 0 < s.task_count → IsValid (charged s)
  charged-IsValid k h = record {
    slots = length-set s.tasks s.current_index _ ∙ v.slots;
    fits = v.fits;
    inside = v.inside;
    registered = charged-registered;
    progress = λ _. rw (charged-slice h) (omega arith);
    idle = λ e. absurd (omega arith);
  }

  passed_on-IsValid : 0 < s.task_count → IsValid (passed_on (charged s))
  passed_on-IsValid h = record {
    slots = length-set s.tasks s.current_index _ ∙ v.slots;
    fits = v.fits;
    inside = omega arith;
    registered = charged-registered;
    progress =
        λ _. (charged-registered ((s.current_index + 1) % s.task_count) (omega arith)).slice_pos;
    idle = λ _. refl;
  }

-- With no task, a tick is only counted.
pub tick_none :
    (s : Scheduler)
    → s.task_count ≡ 0
    → on_timer_tick s ≡ record s { total_ticks = u64 (s.total_ticks + 1) }
unfolding on_timer_tick
tick_none s e = let none_yet : (s.task_count == 0) ≡ true = ground arith in rw none_yet

-- A tick changes neither who the tasks are nor how many.
pub tick_same :
    {s : Scheduler}
    → IsValid s
    → ((on_timer_tick s).task_count ≡ s.task_count)
      × ((on_timer_tick s).next_task_id ≡ s.next_task_id)
      × ((i : ℕ) → (task_at (on_timer_tick s) i).id ≡ (task_at s i).id)
tick_same {s} v = elim (dec_lt 0 s.task_count) [
  | no e ↦ rw (tick_none s (omega arith)) (refl, refl, λ i. refl)
  | yes h ↦ elim (dec_lt (s.slice_progress + 1) (current s).time_slice_ticks) [
    | yes k ↦ rw (tick_inside v h k) (refl, refl, λ i. charged-ids v i h)
    | no k ↦ rw (tick_last v h (omega (arith, v.progress h))) (refl, refl, λ i. charged-ids v i h)
  ]
]

-- A tick keeps the invariant.
pub tick-IsValid : {s : Scheduler} → IsValid s → IsValid (on_timer_tick s)
tick-IsValid {s} v = elim (dec_lt 0 s.task_count) [
  | no e ↦ rw (tick_none s (omega arith)) (record {
    slots = v.slots;
    fits = v.fits;
    inside = v.inside;
    registered = v.registered;
    progress = v.progress;
    idle = v.idle;
  })
  | yes h ↦ elim (dec_lt (s.slice_progress + 1) (current s).time_slice_ticks) [
    | yes k ↦ rw (tick_inside v h k) (charged-IsValid v k h)
    | no k ↦ rw (tick_last v h (omega (arith, v.progress h))) (passed_on-IsValid v h)
  ]
]
