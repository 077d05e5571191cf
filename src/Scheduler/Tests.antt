-- ===== src/Scheduler/Tests.antt =====
-- The scheduler with two and with three tasks.
use acharya_os.Base.{◌+◌, ◌≡◌, refl, arith, ◌∷◌, replicate, u64}
use acharya_os.Kstring.{codes}
use acharya_os.Scheduler.{
  Scheduler, Task, init, register_task, on_timer_tick, advance_to_next_runnable, empty_task,
  blocked, runnable, runnable_count_now, advance_loop,
}
use acharya_os.Scheduler.Invariant.{IsValid, init-IsValid, register-IsValid}
use acharya_os.Scheduler.Turn.{ticks, seen, slice}
use acharya_os.Scheduler.Round.{round_robin, turns}

-- A shell with 5 ticks and an idle task with 2.
abbrev two_tasks : Scheduler
two_tasks = (register_task (codes "idle") 2 (register_task (codes "shell") 5 init).1).1

two_tasks-IsValid : IsValid two_tasks
two_tasks-IsValid =
    register-IsValid (codes "idle") 2 (omega arith)
      (register-IsValid (codes "shell") 5 (omega arith) init-IsValid)

two_registered : two_tasks.task_count ≡ 2
unfolding register_task init
two_registered = refl

two_start : two_tasks.slice_progress ≡ 0
unfolding register_task init
two_start = refl

-- After five ticks the idle task is the current one, after seven the shell again.
seven_ticks : (ticks 5 two_tasks).current_index ≡ 1
unfolding register_task init on_timer_tick advance_to_next_runnable runnable_count_now advance_loop
seven_ticks = refl

round_robin_example :
    IsValid (turns two_tasks.task_count two_tasks)
    × ((turns two_tasks.task_count two_tasks).current_index ≡ two_tasks.current_index)
    × (seen (turns two_tasks.task_count two_tasks) 1 ≡ u64 (seen two_tasks 1 + slice two_tasks 1))
round_robin_example =
    round_robin two_tasks two_tasks-IsValid (omega (arith, two_registered)) two_start 1
      (omega (arith, two_registered))

-- Three tasks, the middle one blocked, the first one current.
abbrev blocked_task : Task
blocked_task = record empty_task { state = blocked }

abbrev ready_task : Task
ready_task = record empty_task { state = runnable }

abbrev with_blocked : Scheduler
with_blocked = record {
  tasks = ready_task ∷ blocked_task ∷ ready_task ∷ replicate 5 empty_task;
  task_count = 3;
  current_index = 0;
  total_ticks = 9;
  next_task_id = 4;
  slice_progress = 2;
}
