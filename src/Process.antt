-- ===== src/Process.antt =====
-- process/process.c: the process table, each process bound to a task of the scheduler.
pub mod Binding
pub mod Reach
mod Tests
use acharya_os.Base.{
  ℕ, ◌+◌, ◌^◌, List, Bool, true, false, Option, none, some, ◌==◌, leb, ltb, if◌then◌else◌, u32, u64,
  set, take, replicate, count,
}
use acharya_os.Kstring.{CString, codes}
use acharya_os.Scheduler
use acharya_os.Scheduler.{Scheduler}

pub data ProcessState : Type 0 where
  unused ready running blocked zombie : ProcessState

pub record Process : Type 0 where
  pub pid : ℕ
  pub scheduler_task_id : ℕ
  pub name : Option CString
  pub state : ProcessState
  pub created_at_tick : ℕ

pub record Table : Type 0 where
  pub processes : List Process
  pub process_count : ℕ
  pub next_pid : ℕ
  pub current_pid : ℕ

pub record Stats : Type 0 where
  pub process_count : ℕ
  pub ready_count : ℕ
  pub next_pid : ℕ

-- The process table beside the scheduler that it registers its tasks with.
pub record Kernel : Type 0 where
  pub table : Table
  pub scheduler : Scheduler

abbrev pub process_max : ℕ
process_max = 16

abbrev pub empty_process : Process
empty_process = record {
  pid = 0;
  scheduler_task_id = 0;
  name = none;
  state = unused;
  created_at_tick = 0;
}

abbrev pub is_ready : Process → Bool
is_ready p = elim (p.state) [ ready ↦ true | running ↦ true | _ ↦ false ]

pub ready_count_now : Table → ℕ
ready_count_now t = count is_ready (take t.process_count t.processes)

-- The slot that `process_create_kernel` fills in.
abbrev pub new_process : Table → ℕ → CString → ℕ → Process
new_process t task_id name now = record {
  pid = t.next_pid;
  scheduler_task_id = u32 task_id;
  name = some name;
  state = if t.process_count == 0 then running else ready;
  created_at_tick = now;
}

abbrev pub with_process : Table → ℕ → CString → ℕ → Table
with_process t task_id name now = record t {
  processes = set t.processes t.process_count (new_process t task_id name now);
  process_count = u64 (t.process_count + 1);
  next_pid = u32 (t.next_pid + 1);
}

-- After the scheduler's answer. A task id that does not fit an `int` reads as negative.
bind_task : Option ℕ → Scheduler → CString → ℕ → Table → Option ℕ × Kernel
bind_task none s name now t = (none, record { table = t; scheduler = s })
bind_task (some id) s name now t =
    if leb (2 ^ 31) id
    then (none, record { table = t; scheduler = s })
    else (some t.next_pid, record { table = with_process t id name now; scheduler = s })

-- `now` is what `timer_get_ticks` returns; `none` is the result -1.
pub create_kernel : CString → ℕ → ℕ → Kernel → Option ℕ × Kernel
unfolding bind_task
create_kernel name time_slice_ticks now k =
    if leb process_max k.table.process_count
    then (none, k)
    else let (id, s) = Scheduler.register_task name time_slice_ticks k.scheduler in
      bind_task id s name now k.table

pub empty_table : Table
empty_table = record {
  processes = replicate process_max empty_process;
  process_count = 0;
  next_pid = 1;
  current_pid = 0;
}

-- `scheduler_init` and then `process_init`, as `kernel_main` calls them.
pub init : ℕ → Kernel
init now =
    let k0 : Kernel = record { table = empty_table; scheduler = Scheduler.init } in
    let k1 = (create_kernel (codes "kernel-shell") 5 now k0).1 in
    let k2 = (create_kernel (codes "idle") 5 now k1).1 in
    record k2 { table = record (k2.table) { current_pid = 1 } }

pub get_stats : Table → Stats
get_stats t = record {
  process_count = t.process_count;
  ready_count = ready_count_now t;
  next_pid = t.next_pid;
}

pub copy_table : ℕ → Table → List Process
copy_table max t = take (if ltb t.process_count max then t.process_count else max) t.processes

pub state_name : ProcessState → CString
state_name unused = codes "unused"
state_name ready = codes "ready"
state_name running = codes "running"
state_name blocked = codes "blocked"
state_name zombie = codes "zombie"
