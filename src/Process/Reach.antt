-- ===== src/Process/Reach.antt =====
-- Everything that the kernel does with these tables after boot: the shell's `spawn` command creates
-- a process, and the timer interrupts.
use acharya_os.Base.{
  ℕ, ◌+◌, ◌≤◌, ◌<◌, ◌^◌, ◌≡◌, ◌≢◌, refl, arith, none, some, ◌==◌, if◌then◌else◌, Bool-cases, inl,
  inr,
}
use acharya_os.Kstring.{CString}
use acharya_os.Scheduler.{on_timer_tick}
use acharya_os.Process.{Kernel, create_kernel, init}
use acharya_os.Process.Binding.{
  IsBound, process_at, init-IsBound, create-IsBound, tick-IsBound, create-room, create-full,
}

pub data Step (k : Kernel) : Kernel → Type 0 where
  spawn :
      (name : CString) (slice now : ℕ) → slice < 2 ^ 32 → Step k (create_kernel name slice now k).1
  tick : Step k (record k { scheduler = on_timer_tick k.scheduler })

pub data Reach (now : ℕ) : Kernel → Type 0 where
  boot : Reach now (init now)
  next : {k k' : Kernel} → Reach now k → Step k k' → Reach now k'

Step-IsBound : {k k' : Kernel} → Step k k' → IsBound k → IsBound k'
Step-IsBound {k} (spawn name slice now w) b = create-IsBound name slice now k w b
Step-IsBound {k} tick b = tick-IsBound k b

-- In every state that the kernel reaches after boot, the process table and the scheduler's table
-- have the same number of entries, at most 8, process `i` has PID `i + 1`, may run and is bound to
-- task `i`, whose id is `i + 1`, and the scheduler's own invariant holds.
pub Reach-IsBound : {now : ℕ} {k : Kernel} → Reach now k → IsBound k
Reach-IsBound {now} boot = init-IsBound now
Reach-IsBound (next r s) = Step-IsBound s (Reach-IsBound r)

-- No two processes of a reachable kernel share a PID or a task.
pub Reach-distinct :
    {now : ℕ} {k : Kernel} (i j : ℕ)
    → Reach now k
    → i < k.table.process_count
    → j < k.table.process_count
    → i ≢ j
    → ((process_at k.table i).pid ≢ (process_at k.table j).pid)
      × ((process_at k.table i).scheduler_task_id ≢ (process_at k.table j).scheduler_task_id)
Reach-distinct {now} {k} i j r hi hj ne =
    let b = Reach-IsBound r in
    let bi = b.bound i hi in
    let bj = b.bound j hj in (omega (arith, bi.pid, bj.pid), omega (arith, bi.task_id, bj.task_id))

-- A reachable kernel has at most 8 processes. `process_create_kernel` fails exactly when there are
-- 8, although the process table has 16 slots: the scheduler's table is full first. Otherwise its
-- result is the new process's PID, one more than the number of processes so far, and there is one
-- process more.
pub create_result :
    {now : ℕ} {k : Kernel} (name : CString) (slice tick_now : ℕ)
    → Reach now k
    → let n = k.table.process_count in
      let (pid, k') = create_kernel name slice tick_now k in
      (n ≤ 8)
      × (pid ≡ (if n == 8 then none else some (n + 1)))
      × (k'.table.process_count ≡ (if n == 8 then n else n + 1))
create_result {now} {k} name slice tick_now r =
    let b = Reach-IsBound r in
    let small : k.table.process_count ≤ 8 = omega (arith, b.together, b.scheduler_valid.fits) in
    elim (Bool-cases (k.table.process_count == 8)) [
      | inl e ↦ rw (create-full name slice tick_now k b (ground arith), e) (small, refl, refl)
      | inr e ↦
          rw (create-room name slice tick_now k b (ground arith), e) (small, refl, omega arith)
    ]
