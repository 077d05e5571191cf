-- ===== src/Scheduler/Advance.antt =====
-- Where `advance_to_next_runnable` of scheduler/scheduler.c stops.
use native.Mathlib.Nat.{mod-add-mod}
use acharya_os.Base.{ℕ, zero, suc, ◌+◌, ◌%◌, ◌^◌, ◌≤◌, ◌<◌, ◌≡◌, ap, ◌∙◌, arith, true, false, ◌==◌}
use acharya_os.Scheduler.{Scheduler, is_runnable, task_at, advance_loop, advance_to_next_runnable}

-- One round of the loop.
advance_loop-found :
    (left : ℕ) (s : Scheduler)
    → s.current_index < s.task_count
    → s.task_count ≤ 8
    → is_runnable (task_at s ((s.current_index + 1) % s.task_count)) ≡ true
    → advance_loop (suc left) s
      ≡ record s { current_index = (s.current_index + 1) % s.task_count; slice_progress = 0 }
unfolding advance_loop
advance_loop-found left s h small run =
    let e : (s.current_index + 1) % 2 ^ 64 ≡ s.current_index + 1 = omega arith in rw (e, run)

advance_loop-skip :
    (left : ℕ) (s : Scheduler)
    → s.current_index < s.task_count
    → s.task_count ≤ 8
    → is_runnable (task_at s ((s.current_index + 1) % s.task_count)) ≡ false
    → advance_loop (suc left) s
      ≡ advance_loop left (record s { current_index = (s.current_index + 1) % s.task_count })
unfolding advance_loop
advance_loop-skip left s h small run =
    let e : (s.current_index + 1) % 2 ^ 64 ≡ s.current_index + 1 = omega arith in rw (e, run)

-- Going on by `e` from one place further is going on by `e + 1`.
shift_index : (cur e n : ℕ) → ((cur + 1) % n + e) % n ≡ (cur + suc e) % n
shift_index cur e n = rw mod-add-mod (ap (λ k. k % n) (omega arith))

advance_loop_stops :
    (left d : ℕ) (s : Scheduler)
    → d < left
    → s.current_index < s.task_count
    → s.task_count ≤ 8
    → is_runnable (task_at s ((s.current_index + suc d) % s.task_count)) ≡ true
    → ((e : ℕ) → e < d → is_runnable (task_at s ((s.current_index + suc e) % s.task_count)) ≡ false)
    → advance_loop left s
      ≡ record s { current_index = (s.current_index + suc d) % s.task_count; slice_progress = 0 }
advance_loop_stops zero d s lt h small run skip = absurd (omega arith)
advance_loop_stops (suc left) zero s lt h small run skip = advance_loop-found left s h small run
advance_loop_stops (suc left) (suc d) s lt h small run skip =
    let n = s.task_count in
    let s' : Scheduler = record s { current_index = (s.current_index + 1) % n } in
    let shift : (e : ℕ)
        → ((s.current_index + 1) % n + suc e) % n ≡ (s.current_index + suc (suc e)) % n =
      λ e. shift_index s.current_index (suc e) n in
    advance_loop-skip left s h small (skip 0 (omega arith))
    ∙ advance_loop_stops left d s' (omega arith) (omega arith) small (rw (shift d) run)
        (λ e k. rw (shift e) (skip (suc e) (omega arith)))
    ∙ ap (λ (k : ℕ). record s { current_index = k; slice_progress = 0 }) (shift d)

-- In a table of at most 8 tasks, one of them runnable, the search starts behind the current task, goes round the table, and stops at the first runnable
-- task; the time slice starts anew, and nothing else changes. If only the current task is runnable,
-- that is the one found.
pub advance_stops :
    (d : ℕ) (s : Scheduler)
    → d < s.task_count
    → s.current_index < s.task_count
    → s.task_count ≤ 8
    → is_runnable (task_at s ((s.current_index + suc d) % s.task_count)) ≡ true
    → ((e : ℕ) → e < d → is_runnable (task_at s ((s.current_index + suc e) % s.task_count)) ≡ false)
    → advance_to_next_runnable s
      ≡ record s { current_index = (s.current_index + suc d) % s.task_count; slice_progress = 0 }
unfolding advance_to_next_runnable
advance_stops d s lt h small run skip =
    let busy : (s.task_count == 0) ≡ false = ground arith in
    rw busy (advance_loop_stops s.task_count d s lt h small run skip)
