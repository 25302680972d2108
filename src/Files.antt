-- ===== src/Files.antt =====
-- The open files: the table of source/kernel/fs/file.c, and the descriptors of a task in
-- source/kernel/core/task.c. The functions of file.c run under `file_alloc_mutex` from their first
-- to their last statement, so a call is one step. A file is its index in the table; a descriptor
-- holds the address of a file, or null.
pub mod Search
pub mod Table
pub mod Descriptors
use os_training.Base.{
  ℕ, zero, suc, ◌+◌, ◌<◌, ℤ, pos, negsuc, inc, dec, is_zero, Bool, ◌==◌, ltb, if◌then◌else◌, Option,
  none, some, List, [], ◌∷◌, get_or, set, take, replicate,
}
use os_training.LinkedList.{null}
use os_training.Sched.{Manager, Task, task_current, put_task}

abbrev pub file_name_size : ℕ
file_name_size = 32

abbrev pub task_ofile_nr : ℕ
task_ofile_nr = 128

-- `file_t`; `type` is the number of the enumerator, `fs` the address of the file system.
pub record File : Type 0 where
  pub file_name : List ℕ
  pub type : ℕ
  pub size : ℕ
  pub ref : ℤ
  pub dev_id : ℤ
  pub pos : ℤ
  pub sblk : ℤ
  pub cblk : ℤ
  pub p_index : ℤ
  pub mode : ℤ
  pub fs : ℕ

-- All bytes 0.
abbrev pub zeroed : File
zeroed = record {
  file_name = replicate file_name_size 0;
  type = 0;
  size = 0;
  ref = pos 0;
  dev_id = pos 0;
  pos = pos 0;
  sblk = pos 0;
  cblk = pos 0;
  p_index = pos 0;
  mode = pos 0;
  fs = null;
}

abbrev pub next_index : Option ℕ → Option ℕ
next_index none = none
next_index (some i) = some (suc i)

-- The loop `for (i = 0; …; i++)` that breaks at the first entry that passes the test.
pub first_index {ℓ} : {A : Type ℓ} → (A → Bool) → List A → Option ℕ
first_index test [] = none
first_index test (x ∷ xs) =
    let rest = first_index test xs in if test x then some 0 else next_index rest

-- `ref == 0`
abbrev pub is_unused : File → Bool
is_unused f = is_zero f.ref

-- The file and the table, or none.
abbrev pub opened : List File → Option ℕ → Option (ℕ × List File)
opened table none = none
opened table (some i) = some (i, set table i (record zeroed { ref = pos 1 }))

unfoldable pub file_alloc : List File → Option (ℕ × List File)
file_alloc table = opened table (first_index is_unused table)

unfoldable pub file_free : List File → ℕ → List File
file_free table i =
    let f = get_or table i zeroed in
    if is_zero f.ref then table else set table i (record f { ref = dec f.ref })

unfoldable pub file_inc_ref : List File → ℕ → List File
file_inc_ref table i = let f = get_or table i zeroed in set table i (record f { ref = inc f.ref })

-- `task_file(fd)`; null out of range.
unfoldable pub task_file : Manager → ℤ → ℕ
task_file s (pos fd) =
    if ltb fd task_ofile_nr then get_or (s.tasks (task_current s)).file_table fd null else null
task_file s (negsuc n) = null

-- The running task with another table.
abbrev pub put_files : Manager → List ℕ → Manager
put_files s table =
    let t = task_current s in
    record s { tasks = put_task s.tasks t (record (s.tasks t) { file_table = table }) }

abbrev pub is_null : ℕ → Bool
is_null p = p == null

abbrev pub fd_taken : Manager → ℕ → Option ℕ → Option (ℕ × Manager)
fd_taken s file none = none
fd_taken s file (some i) = some (i, put_files s (set (s.tasks (task_current s)).file_table i file))

-- `none` is -1.
unfoldable pub task_alloc_fd : Manager → (file : ℕ) → Option (ℕ × Manager)
task_alloc_fd s file =
    fd_taken s file (first_index is_null (take task_ofile_nr (s.tasks (task_current s)).file_table))

unfoldable pub task_remove_fd : Manager → ℤ → Manager
task_remove_fd s (pos fd) =
    let removed = put_files s (set (s.tasks (task_current s)).file_table fd null) in
    if ltb fd task_ofile_nr then removed else s
task_remove_fd s (negsuc n) = s
