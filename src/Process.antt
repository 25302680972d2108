-- ===== src/Process.antt =====
-- The life of a task in source/kernel/core/task.c: its place in `task_table`, the files of a new
-- task, `sys_wait` and `sys_exit`. `task_table` is the list of the addresses of its entries, and a
-- search of it under `task_table_mutex` is one step. What belongs to the memory of tasks is an
-- interface over an unknown state `M`.
pub mod Reap
pub mod Children
pub mod Exit
pub mod Missed
pub mod Share
use os_training.Base.{
  ◌%◌, ◌^◌, ℕ, zero, suc, ◌+◌, ◌-◌, ℤ, pos, Bool, true, false, ◌&&◌, ◌||◌, not, ◌==◌, if◌then◌else◌,
  Option, none, some, List, [], ◌∷◌, replicate,
}
use os_training.LinkedList.{null, list_node_init}
use os_training.Memory.Tables.{mem_page_size}
use os_training.Sched.{
  Manager, Task, TaskState, created, running, sleep, ready, waiting, zombie, task_current, put_task,
  set_state, task_set_ready, task_set_block, task_dispatch,
}
use os_training.Files.{File, file_inc_ref, task_ofile_nr}
use os_training.Fs.{index_of}

-- `memory_destroy_uvm` and `memory_free_page`.
pub record UserMemory (M : Type 0) : Type 0 where
  pub memory_destroy_uvm : (page_dir : ℕ) → M → M
  pub memory_free_page : (addr : ℕ) → M → M

-- All bytes 0.
abbrev pub no_task : Task
no_task = record {
  state = created;
  name = [];
  pid = 0;
  parent = null;
  heap_start = 0;
  heap_end = 0;
  sleep_ticks = pos 0;
  time_ticks = pos 0;
  slice_ticks = pos 0;
  status = pos 0;
  file_table = replicate task_ofile_nr null;
  cr3 = 0;
  esp0 = 0;
  tss_sel = 0;
}

abbrev pub is_unnamed : List ℕ → Bool
is_unnamed [] = true
is_unnamed (c ∷ cs) = false

-- The first entry with no name, or null.
unfoldable pub alloc_task : Manager → (task_table : List ℕ) → ℕ
alloc_task s [] = null
alloc_task s (t ∷ ts) =
    let rest = alloc_task s ts in if is_unnamed (s.tasks t).name then t else rest

unfoldable pub free_task : Manager → ℕ → Manager
free_task s t = record s { tasks = put_task s.tasks t (record (s.tasks t) { name = [] }) }

unfoldable pub sys_getpid : Manager → ℕ
sys_getpid s = (s.tasks (task_current s)).pid

-- The loop of `copy_opened_files` over the two tables: the child's, and the open files.
unfoldable pub copy_files : (parent child : List ℕ) → List File → List ℕ × List File
copy_files [] child files = (child, files)
copy_files (p ∷ parent) [] files = ([], files)
copy_files (p ∷ parent) (c ∷ child) files =
    let (child', files') =
      copy_files parent child (if p == null then files else file_inc_ref files (index_of p)) in
    ((if p == null then c else p) ∷ child', files')

unfoldable pub copy_opened_files : Manager → (child_task : ℕ) → List File → Manager × List File
copy_opened_files s child_task files =
    let child = s.tasks child_task in
    let (table, files') = copy_files (s.tasks (task_current s)).file_table child.file_table files in
    (record s { tasks = put_task s.tasks child_task (record child { file_table = table }) }, files')

abbrev pub is_zombie : TaskState → Bool
is_zombie zombie = true
is_zombie created = false
is_zombie running = false
is_zombie sleep = false
is_zombie ready = false
is_zombie waiting = false

abbrev pub is_waiting : TaskState → Bool
is_waiting waiting = true
is_waiting created = false
is_waiting running = false
is_waiting sleep = false
is_waiting ready = false
is_waiting zombie = false

-- The search of `sys_wait`: the first child that is a zombie, or null.
unfoldable pub find_zombie : Manager → (curr_task : ℕ) → (task_table : List ℕ) → ℕ
find_zombie s curr_task [] = null
find_zombie s curr_task (t ∷ ts) =
    let rest = find_zombie s curr_task ts in
    if not ((s.tasks t).parent == curr_task)
    then rest
    else if is_zombie (s.tasks t).state
    then t
    else rest

-- The number and the status that `sys_wait` gives, and what is left.
pub record Reaped (M : Type 0) : Type 0 where
  pub pid : ℕ
  pub status : ℤ
  pub manager : Manager
  pub memory : M

-- `esp0 - MEM_PAGE_SIZE`
abbrev pub stack_page : (esp0 : ℕ) → ℕ
stack_page esp0 = (esp0 + (2 ^ 32 - mem_page_size)) % 2 ^ 32

unfoldable pub reap : {M : Type 0} → UserMemory M → Manager → M → ℕ → Reaped M
reap ops s m t =
    let task = s.tasks t in
    record {
      pid = task.pid;
      status = task.status;
      manager = record s {
        tasks = put_task s.tasks t no_task;
        run_nodes = list_node_init s.run_nodes t;
      };
      memory = ops.memory_free_page (stack_page task.esp0) (ops.memory_destroy_uvm task.cr3 m);
    }

-- The first part of a round of `sys_wait`, which holds `task_table_mutex`; `none` is no zombie.
unfoldable pub wait_scan :
    {M : Type 0} → UserMemory M → Manager → M → (task_table : List ℕ) → Option (Reaped M)
wait_scan ops s m task_table =
    let t = find_zombie s (task_current s) task_table in
    if t == null then none else some (reap ops s m t)

-- The second part, with interrupts off, for the task that waits.
unfoldable pub wait_block : Manager → (curr_task : ℕ) → Manager
wait_block s curr_task = task_dispatch (set_state (task_set_block s curr_task) curr_task waiting)

-- The loop of `sys_exit` over the tasks: the children go to the first task. It runs to
-- `TASK_OFILE_NR`, which is `TASK_NR`. The flag tells whether one of them is a zombie.
unfoldable pub move_children :
    Manager → (curr_task first_task : ℕ) → (task_table : List ℕ) → Bool → Manager × Bool
move_children s curr_task first_task [] move_child = (s, move_child)
move_children s curr_task first_task (t ∷ ts) move_child =
    let moved : Manager = record s {
      tasks = put_task s.tasks t (record (s.tasks t) { parent = first_task });
    } in
    let is_child = (s.tasks t).parent == curr_task in
    move_children (if is_child then moved else s) curr_task first_task ts
      (if is_child && is_zombie (s.tasks t).state then true else move_child)

-- The last part, with interrupts off.
abbrev pub wake_waiting : Manager → ℕ → Manager
wake_waiting s t = if is_waiting (s.tasks t).state then task_set_ready s t else s

unfoldable pub exit_end : Manager → (first_task : ℕ) → (move_child : Bool) → (status : ℤ) → Manager
exit_end s first_task move_child status =
    let curr = task_current s in
    let parent = (s.tasks curr).parent in
    let s1 = if move_child && not (parent == first_task) then wake_waiting s first_task else s in
    let s2 = wake_waiting s1 parent in
    let ended : Manager = record s2 {
      tasks = put_task s2.tasks curr (record (s2.tasks curr) { status = status; state = zombie });
    } in
    task_dispatch (task_set_block ended curr)
