-- ===== src/Process/Binding.antt =====
-- The process table and the scheduler's table stay in step.
use native.Mathlib.Decide.{ℕ_discrete, dec_lt}
use acharya_os.Base.{
  ℕ, ◌+◌, ◌^◌, ◌≤◌, ◌<◌, ◌≡◌, refl, ap, ◌∙◌, sym, arith, true, false, none, some, leb, length,
  get_or, length-set, get_or-set_self, get_or-set_ne, ◌≢◌, Bool-cases, inl, inr,
}
use acharya_os.Kstring.{CString, codes}
use acharya_os.Scheduler
use acharya_os.Scheduler.{Scheduler, task_at, on_timer_tick}
use acharya_os.Scheduler.Invariant.{
  IsValid, init-IsValid, register-IsValid, register-room, register-full, with_task, with_task-old,
  with_task-new,
}
use acharya_os.Scheduler.Tick.{tick-IsValid, tick_same}
use acharya_os.Process.{
  Process, Table, Kernel, empty_process, empty_table, is_ready, create_kernel, bind_task, init,
  new_process, with_process,
}

abbrev pub process_at : Table → ℕ → Process
process_at t i = get_or t.processes i empty_process

-- Process `i` is numbered `i + 1`, may run, and is bound to task `i`, which has the same number.
pub record IsBoundAt (k : Kernel) (i : ℕ) : Type 0 where
  pub pid : (process_at k.table i).pid ≡ i + 1
  pub task_id : (process_at k.table i).scheduler_task_id ≡ i + 1
  pub task : (task_at k.scheduler i).id ≡ i + 1
  pub may_run : is_ready (process_at k.table i) ≡ true

pub record IsBound (k : Kernel) : Type 0 where
  pub scheduler_valid : IsValid k.scheduler
  pub slots : length k.table.processes ≡ 16
  pub together : k.table.process_count ≡ k.scheduler.task_count
  pub pids : k.table.next_pid ≡ k.table.process_count + 1
  pub task_ids : k.scheduler.next_task_id ≡ k.scheduler.task_count + 1
  pub bound : (i : ℕ) → i < k.table.process_count → IsBoundAt k i

module _ (name : CString) (slice now : ℕ) (k : Kernel) (b : IsBound k) where
  -- The kernel after a process was created.
  abbrev created : Kernel
  created = record {
    table = with_process k.table k.scheduler.next_task_id name now;
    scheduler = with_task name slice k.scheduler;
  }

  -- While the scheduler has a free slot a process is created, and its PID is the next one.
  pub create-room :
      k.table.process_count < 8
      → create_kernel name slice now k ≡ (some (k.table.process_count + 1), created)
  unfolding create_kernel
  create-room h =
      let room : leb 16 k.table.process_count ≡ false = ground arith in
      let id_small : leb (2 ^ 31) k.scheduler.next_task_id ≡ false =
        ground (arith, b.task_ids, b.together) in
      let r = register-room name slice k.scheduler (omega (arith, b.together)) in
      rw (room, r, bind_task, id_small, b.pids)

  -- When the scheduler's table is full no process is created, though the process table has room.
  pub create-full : 8 ≤ k.table.process_count → create_kernel name slice now k ≡ (none, k)
  unfolding create_kernel
  create-full h =
      let r = register-full name slice k.scheduler (omega (arith, b.together)) in
      elim (Bool-cases (leb 16 k.table.process_count)) [
        | inl e ↦ rw e
        | inr e ↦ rw (e, r, bind_task)
      ]

  module _ (w : slice < 2 ^ 32) (h : k.table.process_count < 8) where
    created-old :
        (i : ℕ) → i ≢ k.table.process_count → process_at created.table i ≡ process_at k.table i
    created-old i ne =
        get_or-set_ne k.table.processes k.table.process_count i _ empty_process (λ e. ne (sym e))

    created-new :
        process_at created.table k.table.process_count
        ≡ new_process k.table k.scheduler.next_task_id name now
    created-new =
        get_or-set_self k.table.processes k.table.process_count _ empty_process
          (omega (arith, b.slots))

    bound-old : (i : ℕ) → i < k.table.process_count → IsBoundAt created i
    bound-old i lt =
        let o = b.bound i lt in
        let e = created-old i (omega arith) in
        let f =
          with_task-old name slice k.scheduler b.scheduler_valid (omega (arith, b.together)) w i
            (omega (arith, b.together)) in
        record {
          pid = rw e o.pid;
          task_id = rw e o.task_id;
          task = rw f o.task;
          may_run = rw e o.may_run;
        }

    bound-new : IsBoundAt created k.table.process_count
    bound-new =
        let f =
          with_task-new name slice k.scheduler b.scheduler_valid (omega (arith, b.together)) w in
        record {
          pid = rw created-new b.pids;
          task_id = rw created-new (omega (arith, b.task_ids, b.together));
          task = rw (b.together, f) (omega (arith, b.task_ids));
          may_run = rw created-new (ground arith);
        }

    created-IsBound : IsBound created
    created-IsBound = record {
      scheduler_valid =
          rw (register-room name slice k.scheduler (omega (arith, b.together))) at
            (register-IsValid name slice w b.scheduler_valid);
      slots = length-set k.table.processes k.table.process_count _ ∙ b.slots;
      together = omega (arith, b.together);
      pids = omega (arith, b.pids);
      task_ids = omega (arith, b.task_ids, b.together);
      bound = λ i lt. elim (ℕ_discrete i k.table.process_count) [
        | yes e ↦ rw e bound-new
        | no ne ↦ bound-old i (omega arith)
      ];
    }

-- Creating a process keeps the tables in step.
pub create-IsBound :
    (name : CString) (slice now : ℕ) (k : Kernel)
    → slice < 2 ^ 32
    → IsBound k
    → IsBound (create_kernel name slice now k).1
create-IsBound name slice now k w b = elim (dec_lt k.table.process_count 8) [
  | yes h ↦ rw (create-room name slice now k b h) (created-IsBound name slice now k b w h)
  | no h ↦ rw (create-full name slice now k b (omega arith)) b
]

-- So does the timer's interrupt.
pub tick-IsBound :
    (k : Kernel) → IsBound k → IsBound (record k { scheduler = on_timer_tick k.scheduler })
tick-IsBound k b =
    let (count_same, id_same, ids_same) = tick_same b.scheduler_valid in
    record {
      scheduler_valid = tick-IsValid b.scheduler_valid;
      slots = b.slots;
      together = b.together ∙ sym count_same;
      pids = b.pids;
      task_ids = id_same ∙ b.task_ids ∙ ap (λ n. n + 1) (sym count_same);
      bound = λ i lt.
          let o = b.bound i lt in
          record {
            pid = o.pid;
            task_id = o.task_id;
            task = ids_same i ∙ o.task;
            may_run = o.may_run;
          };
    }

empty-IsBound : IsBound (record { table = empty_table; scheduler = Scheduler.init })
unfolding empty_table Scheduler.init
empty-IsBound = record {
  scheduler_valid = init-IsValid;
  slots = refl;
  together = refl;
  pids = refl;
  task_ids = refl;
  bound = λ i lt. absurd (omega arith);
}

-- `process_init` leaves the tables in step.
pub init-IsBound : (now : ℕ) → IsBound (init now)
unfolding init
init-IsBound now =
    let k0 : Kernel = record { table = empty_table; scheduler = Scheduler.init } in
    let k1 = (create_kernel (codes "kernel-shell") 5 now k0).1 in
    let b1 : IsBound k1 =
      create-IsBound (codes "kernel-shell") 5 now k0 (omega arith) empty-IsBound in
    let b2 = create-IsBound (codes "idle") 5 now k1 (omega arith) b1 in
    record {
      scheduler_valid = b2.scheduler_valid;
      slots = b2.slots;
      together = b2.together;
      pids = b2.pids;
      task_ids = b2.task_ids;
      bound = λ i lt.
          let o = b2.bound i lt in
          record { pid = o.pid; task_id = o.task_id; task = o.task; may_run = o.may_run };
    }
