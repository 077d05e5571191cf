-- ===== src/Scheduler/Invariant.antt =====
-- The state that the scheduler keeps: every task below `task_count` is runnable and has a time
-- slice, and the current task has not used its slice up.
use native.Mathlib.Decide.{ℕ_discrete, dec_lt}
use acharya_os.Base.{
  ℕ, zero, suc, ◌+◌, ◌-◌, ◌%◌, ◌^◌, ◌≤◌, ◌<◌, ◌≡◌, refl, ◌∙◌, sym, arith, true, false, leb, List,
  [], ◌∷◌, length, take, set, get_or, count, length-set, get_or-set_self, get_or-set_ne, ◌≢◌, none,
  some, u32,
}
use acharya_os.Kstring.{CString}
use acharya_os.Scheduler.{
  Scheduler, Task, is_runnable, task_at, current, empty_task, runnable_count_now, init,
  register_task, advance_to_next_runnable, new_task,
}
use acharya_os.Scheduler.Advance.{advance_stops}

-- A registered task that may run.
pub record IsTask (t : Task) : Type 0 where
  pub runs : is_runnable t ≡ true
  pub slice_pos : 0 < t.time_slice_ticks
  pub slice_small : t.time_slice_ticks < 2 ^ 32
  pub seen_small : t.ticks_seen < 2 ^ 64

pub record IsValid (s : Scheduler) : Type 0 where
  pub slots : length s.tasks ≡ 8
  pub fits : s.task_count ≤ 8
  pub inside : s.current_index ≤ s.task_count - 1
  pub registered : (i : ℕ) → i < s.task_count → IsTask (task_at s i)
  pub progress : (0 < s.task_count → s.slice_progress < (current s).time_slice_ticks)
  pub idle : s.task_count ≡ 0 → s.slice_progress ≡ 0

pub init-IsValid : IsValid init
unfolding init
init-IsValid = record {
  slots = refl;
  fits = omega arith;
  inside = omega arith;
  registered = λ i h. absurd (omega arith);
  progress = λ h. absurd (omega arith);
  idle = λ _. refl;
}

-- With a task registered, something is runnable.
pub runnable_count-pos : {s : Scheduler} → IsValid s → 0 < s.task_count → 0 < runnable_count_now s
unfolding runnable_count_now
runnable_count-pos {s} v h = go s.task_count s.tasks h v.slots v.fits (v.registered 0 h).runs
  where
    go :
        (n : ℕ) (ts : List Task)
        → 0 < n
        → length ts ≡ 8
        → n ≤ 8
        → is_runnable (get_or ts 0 empty_task) ≡ true
        → 0 < count is_runnable (take n ts)
    go zero ts p e k r = absurd (omega arith)
    go (suc n) [] p e k r = absurd (omega arith)
    go (suc n) (t ∷ ts) p e k r = ground arith

-- Where every registered task is runnable, the search stops at the next one round the table.
pub advance_next :
    (s : Scheduler)
    → s.current_index < s.task_count
    → s.task_count ≤ 8
    → ((i : ℕ) → i < s.task_count → IsTask (task_at s i))
    → advance_to_next_runnable s
      ≡ record s { current_index = (s.current_index + 1) % s.task_count; slice_progress = 0 }
advance_next s h small registered =
    advance_stops 0 s (omega arith) h small
      (registered ((s.current_index + 1) % s.task_count) (omega arith)).runs
      (λ e k. absurd (omega arith))

pub new_task-IsTask :
    (id : ℕ) (name : CString) (slice : ℕ) → slice < 2 ^ 32 → IsTask (new_task id name slice)
new_task-IsTask id name slice h = ground arith

-- The state with the first free slot filled in.
abbrev pub with_task : CString → ℕ → Scheduler → Scheduler
with_task name slice s = record s {
  tasks = set s.tasks s.task_count (new_task s.next_task_id name slice);
  task_count = s.task_count + 1;
  next_task_id = u32 (s.next_task_id + 1);
}

module _ (name : CString) (slice : ℕ) (s : Scheduler) where
  pub register-full : 8 ≤ s.task_count → register_task name slice s ≡ (none, s)
  unfolding register_task
  register-full e = ground arith

  pub register-room :
      s.task_count < 8 → register_task name slice s ≡ (some s.next_task_id, with_task name slice s)
  unfolding register_task
  register-room h =
      let room : leb 8 s.task_count ≡ false = ground arith in
      let e : (s.task_count + 1) % 2 ^ 64 ≡ s.task_count + 1 = omega arith in rw (room, e)

  module _ (v : IsValid s) (h : s.task_count < 8) (w : slice < 2 ^ 32) where
    pub with_task-old :
        (i : ℕ) → i ≢ s.task_count → task_at (with_task name slice s) i ≡ task_at s i
    with_task-old i ne = get_or-set_ne s.tasks s.task_count i _ empty_task (λ e. ne (sym e))

    pub with_task-new :
        task_at (with_task name slice s) s.task_count ≡ new_task s.next_task_id name slice
    with_task-new =
        get_or-set_self s.tasks s.task_count _ empty_task (omega (arith, v.slots, v.fits))

    with_task-registered :
        (i : ℕ) → i < s.task_count + 1 → IsTask (task_at (with_task name slice s) i)
    with_task-registered i k = elim (ℕ_discrete i s.task_count) [
      | yes e ↦ rw (e, with_task-new) (new_task-IsTask s.next_task_id name slice w)
      | no ne ↦ rw (with_task-old i ne) (v.registered i (omega arith))
    ]

    with_task-progress : s.slice_progress < (current (with_task name slice s)).time_slice_ticks
    with_task-progress = elim (ℕ_discrete s.task_count 0) [
      | yes e ↦
          let first : s.current_index ≡ s.task_count = omega (arith, v.inside) in
          rw (first, with_task-new, v.idle e)
            (new_task-IsTask s.next_task_id name slice w).slice_pos
      | no ne ↦
          rw (with_task-old s.current_index (omega (arith, v.inside))) (v.progress (omega arith))
    ]

    with_task-IsValid : IsValid (with_task name slice s)
    with_task-IsValid = record {
      slots = length-set s.tasks s.task_count _ ∙ v.slots;
      fits = omega arith;
      inside = omega (arith, v.inside);
      registered = with_task-registered;
      progress = λ _. with_task-progress;
      idle = λ e. absurd (omega arith);
    }

-- Registration keeps the invariant, whether there is room or not.
pub register-IsValid :
    (name : CString) (slice : ℕ) {s : Scheduler}
    → slice < 2 ^ 32
    → IsValid s
    → IsValid (register_task name slice s).1
register-IsValid name slice {s} w v = elim (dec_lt s.task_count 8) [
  | yes h ↦ rw (register-room name slice s h) (with_task-IsValid name slice s v h w)
  | no h ↦ rw (register-full name slice s (omega arith)) v
]
