-- ===== src/Sched.antt =====
-- The scheduler of source/kernel/core/task.c: the ready and the sleep queue, the choice of the
-- next task, the time slice and the clock tick.
-- A task is known by its address; its `run_node` stands in `run_nodes` under that address, and is
-- in the ready queue or in the sleep queue. Interrupts are off from the first to the last
-- statement of each function, so a call is one step. `task_switch_from_to` is a far jump of the
-- processor; what the kernel keeps of it is `curr_task`.
pub mod Queues
pub mod Yield
pub mod Sleep
pub mod Sleepers
pub mod Tick
use os_training.Base.{
  ℕ, zero, suc, ◌+◌, ◌-◌, ◌/◌, ◌%◌, ◌^◌, ℤ, pos, negsuc, dec, is_zero, Bool, true, false, ltb, ◌==◌,
  if◌then◌else◌, Option, none, some, List,
}
use os_training.LinkedList.{
  Nodes, ListHead, null, list_init, list_count, list_first, list_insert_last, list_remove,
}

-- The states of `task_t`.
pub data TaskState : Type 0 where
  created running sleep ready waiting zombie : TaskState

-- `task_t`, without its other nodes and the registers of the processor but `cr3` and `esp0`. The
-- name is a string; an entry of `file_table` is the address of an open file, or null.
pub record Task : Type 0 where
  pub state : TaskState
  pub name : List ℕ
  pub pid : ℕ
  pub parent : ℕ
  pub heap_start : ℕ
  pub heap_end : ℕ
  pub sleep_ticks : ℤ
  pub time_ticks : ℤ
  pub slice_ticks : ℤ
  pub status : ℤ
  pub file_table : List ℕ
  pub cr3 : ℕ
  pub esp0 : ℕ
  pub tss_sel : ℕ

-- `task_manager_t`, with the tasks that its pointers lead to.
pub record Manager : Type 0 where
  pub curr_task : ℕ
  pub idle_task : ℕ
  pub ready_list : ListHead
  pub sleep_list : ListHead
  pub run_nodes : Nodes
  pub tasks : ℕ → Task

abbrev pub os_tick_ms : ℕ
os_tick_ms = 10

-- The tasks after a write to the task at `t`.
abbrev pub put_task : (ℕ → Task) → ℕ → Task → ℕ → Task
put_task tasks t v a = if a == t then v else tasks a

abbrev pub set_state : Manager → ℕ → TaskState → Manager
set_state s t st = record s { tasks = put_task s.tasks t (record (s.tasks t) { state = st }) }

unfoldable pub task_set_ready : Manager → ℕ → Manager
task_set_ready s t =
    let (h, l) = list_insert_last s.run_nodes s.ready_list t in
    let s1 : Manager = record s { run_nodes = h; ready_list = l } in
    if t == s.idle_task then s else set_state s1 t ready

unfoldable pub task_set_block : Manager → ℕ → Manager
task_set_block s t =
    let (h, l) = list_remove s.run_nodes s.ready_list t in
    if t == s.idle_task then s else record s { run_nodes = h; ready_list = l }

abbrev pub task_current : Manager → ℕ
task_current s = s.curr_task

unfoldable pub task_next_run : Manager → ℕ
task_next_run s = if is_zero (list_count s.ready_list) then s.idle_task else list_first s.ready_list

unfoldable pub task_dispatch : Manager → Manager
task_dispatch s =
    let to = task_next_run s in
    if to == s.curr_task then s else set_state (record s { curr_task = to }) to running

-- `n > 1`
abbrev pub above_one : ℤ → Bool
above_one (pos n) = ltb 1 n
above_one (negsuc n) = false

-- `sys_yield`, and `sys_sched_yield`, which has the same body.
unfoldable pub sys_yield : Manager → Manager
sys_yield s =
    let curr = task_current s in
    if above_one (list_count s.ready_list)
    then task_dispatch (task_set_ready (task_set_block s curr) curr)
    else s

-- `ticks` is a `uint32_t`, so `ticks <= 0` is a test for 0.
unfoldable pub task_set_sleep : Manager → (t ticks : ℕ) → Manager
task_set_sleep s t ticks =
    let (h, l) = list_insert_last s.run_nodes s.sleep_list t in
    if ticks == 0 then s else record s {
      run_nodes = h;
      sleep_list = l;
      tasks = put_task s.tasks t (record (s.tasks t) { sleep_ticks = pos ticks; state = sleep });
    }

unfoldable pub task_set_wakeup : Manager → ℕ → Manager
task_set_wakeup s t =
    let (h, l) = list_remove s.run_nodes s.sleep_list t in
    record s { run_nodes = h; sleep_list = l }

-- `(ms + (OS_TICK_MS - 1)) / OS_TICK_MS` on `uint32_t`, with at least one tick.
unfoldable pub ticks_of_ms : ℕ → ℕ
ticks_of_ms ms =
    let ms' = if ltb ms os_tick_ms then os_tick_ms else ms in
    (ms' + (os_tick_ms - 1)) % 2 ^ 32 / os_tick_ms

unfoldable pub sys_msleep : Manager → ℕ → Manager
sys_msleep s ms =
    task_dispatch (task_set_sleep (task_set_block s s.curr_task) s.curr_task (ticks_of_ms ms))

-- The task `t` with its slice at `left` ticks.
abbrev pub put_slice : Manager → ℕ → ℤ → Manager
put_slice s t left = record s {
  tasks = put_task s.tasks t (record (s.tasks t) { slice_ticks = left });
}

-- The first part of `task_time_tick`: the slice of the running task `curr`.
unfoldable pub tick_slice : Manager → (curr : ℕ) → Manager
tick_slice s curr =
    let left = dec (s.tasks curr).slice_ticks in
    let reloaded = put_slice s curr (s.tasks curr).time_ticks in
    if is_zero left
    then task_set_ready (task_set_block reloaded curr) curr
    else put_slice s curr left

-- One round of its loop over the sleep queue.
unfoldable pub tick_sleeper : Manager → ℕ → Manager
tick_sleeper s t =
    let task = s.tasks t in
    let left = dec task.sleep_ticks in
    let counted : Manager = record s {
      tasks = put_task s.tasks t (record task { sleep_ticks = left });
    } in
    if is_zero left then task_set_ready (task_set_wakeup counted t) t else counted

-- The loop on fuel; `none` is out of fuel. The next node is read before the round.
unfoldable pub tick_loop : (fuel : ℕ) → Manager → (curr : ℕ) → Option Manager
tick_loop zero s curr = none
tick_loop (suc fuel) s curr =
    let rest = tick_loop fuel (tick_sleeper s curr) (s.run_nodes curr).next in
    if curr == null then some s else rest

abbrev pub dispatched : Option Manager → Option Manager
dispatched none = none
dispatched (some s) = some (task_dispatch s)

-- One round for each node of the sleep queue, and one to see its end.
abbrev pub tick_fuel : ℤ → ℕ
tick_fuel (pos n) = n + 1
tick_fuel (negsuc n) = 1

unfoldable pub task_time_tick : Manager → Option Manager
task_time_tick s =
    let s1 = tick_slice s (task_current s) in
    dispatched (tick_loop (tick_fuel (list_count s1.sleep_list)) s1 (list_first s1.sleep_list))
