-- ===== src/Process/Tests.antt =====
-- The kernel's two processes, and a third one from the shell.
use acharya_os.Base.{◌+◌, ◌≡◌, ◌≤◌, refl, arith, some, none, ◌==◌, if◌then◌else◌}
use acharya_os.Kstring.{codes}
use acharya_os.Scheduler
use acharya_os.Process.{Kernel, init, create_kernel, empty_table, bind_task}
use acharya_os.Process.Binding.{IsBound}
use acharya_os.Process.Reach.{Reach, boot, next, spawn, tick, Reach-IsBound, create_result}

-- After boot, one spawned process and one tick.
abbrev spawned : Kernel
spawned = (create_kernel (codes "job") 3 40 (init 0)).1

abbrev running : Kernel
running = record spawned { scheduler = Scheduler.on_timer_tick spawned.scheduler }

running-Reach : Reach 0 running
running-Reach = next (next boot (spawn (codes "job") 3 40 (omega arith))) tick

two_at_boot : (init 0).table.process_count ≡ 2
unfolding init create_kernel bind_task empty_table Scheduler.register_task Scheduler.init
two_at_boot = refl

spawned_third : (create_kernel (codes "job") 3 40 (init 0)).0 ≡ some 3
unfolding init create_kernel bind_task empty_table Scheduler.register_task Scheduler.init
spawned_third = refl

Reach-IsBound_example : IsBound running
Reach-IsBound_example = Reach-IsBound running-Reach

create_result_example :
    let n = running.table.process_count in
    let (pid, k') = create_kernel (codes "job") 1 41 running in
    (n ≤ 8)
    × (pid ≡ (if n == 8 then none else some (n + 1)))
    × (k'.table.process_count ≡ (if n == 8 then n else n + 1))
create_result_example = create_result (codes "job") 1 41 running-Reach
