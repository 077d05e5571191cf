-- ===== src/Scheduler.antt =====
-- scheduler/scheduler.c: the table of tasks and the accounting of the timer's ticks.
pub mod Advance
pub mod Invariant
pub mod Tick
pub mod Turn
pub mod Round
mod Tests
use acharya_os.Base.{
  ℕ, zero, suc, ◌+◌, ◌%◌, List, Bool, true, false, ◌||◌, not, Option, none, some, ◌==◌, leb, ltb,
  if◌then◌else◌, u32, u64, get_or, set, take, replicate, count, min,
}
use acharya_os.Kstring.{CString}

pub data TaskState : Type 0 where
  unused runnable blocked : TaskState

pub record Task : Type 0 where
  pub id : ℕ
  pub name : Option CString
  pub state : TaskState
  pub ticks_seen : ℕ
  pub time_slice_ticks : ℕ

pub record Scheduler : Type 0 where
  pub tasks : List Task
  pub task_count : ℕ
  pub current_index : ℕ
  pub total_ticks : ℕ
  pub next_task_id : ℕ
  pub slice_progress : ℕ

pub record Stats : Type 0 where
  pub total_ticks : ℕ
  pub current_task_id : ℕ
  pub task_count : ℕ
  pub runnable_count : ℕ

abbrev pub max_tasks : ℕ
max_tasks = 8

-- What `scheduler_init` writes into every slot.
abbrev pub empty_task : Task
empty_task = record { id = 0; name = none; state = unused; ticks_seen = 0; time_slice_ticks = 0 }

abbrev pub is_runnable_state : TaskState → Bool
is_runnable_state runnable = true
is_runnable_state unused = false
is_runnable_state blocked = false

abbrev pub is_runnable : Task → Bool
is_runnable t = is_runnable_state t.state

-- tasks[i]. `Invariant` shows that every read is inside the table.
abbrev pub task_at : Scheduler → ℕ → Task
task_at s i = get_or s.tasks i empty_task

-- tasks[current_index]
abbrev pub current : Scheduler → Task
current s = task_at s s.current_index

pub runnable_count_now : Scheduler → ℕ
runnable_count_now s = count is_runnable (take s.task_count s.tasks)

-- The `for` loop, with `left` rounds to go.
pub advance_loop : ℕ → Scheduler → Scheduler
advance_loop zero s = s
advance_loop (suc left) s =
    let s' = record s { current_index = u64 (s.current_index + 1) % s.task_count } in
    let rest = advance_loop left s' in
    if is_runnable (current s') then record s' { slice_progress = 0 } else rest

pub advance_to_next_runnable : Scheduler → Scheduler
advance_to_next_runnable s = if s.task_count == 0 then s else advance_loop s.task_count s

unfoldable pub init : Scheduler
init = record {
  tasks = replicate max_tasks empty_task;
  task_count = 0;
  current_index = 0;
  total_ticks = 0;
  next_task_id = 1;
  slice_progress = 0;
}

-- The slot that `scheduler_register_task` fills in; a slice of 0 ticks becomes 1.
abbrev pub new_task : ℕ → CString → ℕ → Task
new_task id name time_slice_ticks = record {
  id = id;
  name = some name;
  state = runnable;
  ticks_seen = 0;
  time_slice_ticks = if time_slice_ticks == 0 then 1 else time_slice_ticks;
}

-- `none` is the result -1.
unfoldable pub register_task : CString → ℕ → Scheduler → Option ℕ × Scheduler
register_task name time_slice_ticks s = if leb max_tasks s.task_count then (none, s) else (
  some s.next_task_id,
  record s {
    tasks = set s.tasks s.task_count (new_task s.next_task_id name time_slice_ticks);
    task_count = u64 (s.task_count + 1);
    next_task_id = u32 (s.next_task_id + 1);
  },
)

-- tasks[current_index].ticks_seen++; slice_progress++;
abbrev pub charge : Scheduler → Scheduler
charge s = record s {
  tasks =
      set s.tasks s.current_index
        (record (current s) { ticks_seen = u64 ((current s).ticks_seen + 1) });
  slice_progress = u32 (s.slice_progress + 1);
}

pub on_timer_tick : Scheduler → Scheduler
on_timer_tick s0 =
    let s1 = record s0 { total_ticks = u64 (s0.total_ticks + 1) } in
    if s1.task_count == 0 || runnable_count_now s1 == 0
    then s1
    else let s2 = if not (is_runnable (current s1)) then advance_to_next_runnable s1 else s1 in
      let s3 = charge s2 in
      if leb (current s3).time_slice_ticks s3.slice_progress
      then advance_to_next_runnable s3
      else s3

pub get_stats : Scheduler → Stats
get_stats s = record {
  total_ticks = s.total_ticks;
  current_task_id = if ltb 0 s.task_count then (current s).id else 0;
  task_count = s.task_count;
  runnable_count = runnable_count_now s;
}

pub copy_tasks : ℕ → Scheduler → List Task
copy_tasks max s = take (if ltb s.task_count max then s.task_count else max) s.tasks
