-- ===== src/Files/Descriptors.antt =====
-- The descriptors of the running task.
use os_training.Base.{
  ℕ, ◌<◌, ◌≡◌, ◌≢◌, sym, ◌∙◌, pos, true, ◌==◌, ==_iff, ltb, if◌then◌else◌, Option, none, some,
  length, get_or, set, take, get_or-set, length-set, arith,
}
use mathlib.Core.Path.{subst}
use os_training.LinkedList.{null}
use os_training.Sched.{Manager}
use os_training.Files.{
  task_ofile_nr, first_index, is_null, fd_taken, put_files, task_file, task_alloc_fd,
  task_remove_fd,
}
use os_training.Files.Search.{Found, found, nowhere, first_index-Found, get_or-take, length-take}

-- The running task's table has its full length.
abbrev pub HasTable : Manager → Type 0
HasTable s = length (s.tasks s.curr_task).file_table ≡ task_ofile_nr

-- What `task_alloc_fd` gives.
pub data FdResult (s : Manager) (file : ℕ) : Option (ℕ × Manager) → Type 0 where
  -- The first free descriptor, which leads to the file now; no other descriptor changes.
  taken :
      (fd : ℕ) (s' : Manager)
      → fd < task_ofile_nr
      → task_file s (pos fd) ≡ null
      → ((j : ℕ) → j < fd → task_file s (pos j) ≢ null)
      → ((j : ℕ) → task_file s' (pos j) ≡ (if fd == j then file else task_file s (pos j)))
      → FdResult s file (some (fd, s'))
  all_taken : ((j : ℕ) → j < task_ofile_nr → task_file s (pos j) ≢ null) → FdResult s file none

-- A descriptor in range is an entry of the table.
task_file-eq :
    (s : Manager) (fd : ℕ)
    → fd < task_ofile_nr
    → task_file s (pos fd) ≡ get_or (take task_ofile_nr (s.tasks s.curr_task).file_table) fd null
unfolding task_file
task_file-eq s fd h =
    let inside : ltb fd task_ofile_nr ≡ true = ground arith in
    rw inside (sym (get_or-take task_ofile_nr (s.tasks s.curr_task).file_table fd h))

task_file-put_files :
    (s : Manager) (fd file j : ℕ)
    → HasTable s
    → fd < task_ofile_nr
    → task_file (put_files s (set (s.tasks s.curr_task).file_table fd file)) (pos j)
      ≡ (if fd == j then file else task_file s (pos j))
unfolding task_file
task_file-put_files s fd file j full h =
    ground (arith, get_or-set (s.tasks s.curr_task).file_table fd j file null)

fd_taken-FdResult :
    (s : Manager) (file : ℕ) {o : Option ℕ}
    → HasTable s
    → Found is_null null (take task_ofile_nr (s.tasks s.curr_task).file_table) o
    → FdResult s file (fd_taken s file o)
fd_taken-FdResult s file full (found i lt hit before) =
    let size = length-take task_ofile_nr (s.tasks s.curr_task).file_table (omega (arith, full)) in
    let inside : i < task_ofile_nr = omega (arith, size) in
    taken i (put_files s (set (s.tasks s.curr_task).file_table i file)) inside
      (task_file-eq s i inside ∙ (==_iff _ null).0 hit)
      (λ j l e. ground (arith, before j l, task_file-eq s j (omega arith)))
      (λ j. task_file-put_files s i file j full inside)
fd_taken-FdResult s file full (nowhere miss) =
    let size = length-take task_ofile_nr (s.tasks s.curr_task).file_table (omega (arith, full)) in
    all_taken (λ j l e. ground (arith, miss j (omega (arith, size)), task_file-eq s j l))

-- For a running task whose table has its 128 entries, `task_alloc_fd` gives the first free
-- descriptor, which `task_file` then leads to the file; no other descriptor changes. It fails only
-- if none is free.
pub task_alloc_fd-FdResult :
    (s : Manager) (file : ℕ) → HasTable s → FdResult s file (task_alloc_fd s file)
unfolding task_alloc_fd
task_alloc_fd-FdResult s file full =
    fd_taken-FdResult s file full
      (first_index-Found is_null null (take task_ofile_nr (s.tasks s.curr_task).file_table))

-- After `task_remove_fd` the descriptor is free, and all others are as before.
pub task_file-task_remove_fd :
    (s : Manager) (fd j : ℕ)
    → HasTable s
    → fd < task_ofile_nr
    → task_file (task_remove_fd s (pos fd)) (pos j)
      ≡ (if fd == j then null else task_file s (pos j))
unfolding task_remove_fd
task_file-task_remove_fd s fd j full h =
    let inside : ltb fd task_ofile_nr ≡ true = ground arith in
    rw inside (task_file-put_files s fd null j full h)

-- The running task keeps its full table.
pub task_alloc_fd-HasTable :
    (s : Manager) (file fd : ℕ) (s' : Manager)
    → HasTable s
    → task_alloc_fd s file ≡ some (fd, s')
    → HasTable s'
unfolding task_alloc_fd
task_alloc_fd-HasTable s file fd s' full e =
    go (first_index is_null (take task_ofile_nr (s.tasks s.curr_task).file_table)) e
  where
    go : (o : Option ℕ) → fd_taken s file o ≡ some (fd, s') → HasTable s'
    go none h = cc
    go (some i) h =
        let same : put_files s (set (s.tasks s.curr_task).file_table i file) ≡ s' = cc in
        subst HasTable same (ground (arith, length-set (s.tasks s.curr_task).file_table i file))
