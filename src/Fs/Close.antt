-- ===== src/Fs/Close.antt =====
-- `sys_close` and `sys_dup` of source/kernel/fs/fs.c.
pub mod References
pub mod Outcome
pub mod Duplicate
use os_training.Base.{
  ℕ, zero, suc, ◌+◌, ◌-◌, ◌<◌, ◌≤◌, ℤ, pos, negsuc, inc, dec, is_zero, is_neg, is_pos, minus_one,
  Bool, true, false, ◌==◌, ◌&&◌, ◌||◌, if◌then◌else◌, Option, none, some, List, [], ◌∷◌, get_or,
  set,
}
use os_training.LinkedList.{null}
use os_training.Sched.{Manager}
use os_training.Text.Strings.{kernel_strncpy, bytes_from}
use os_training.Paths.{path_next_child}
use os_training.Files.{
  File, zeroed, file_name_size, task_ofile_nr, file_alloc, file_free, file_inc_ref, task_file,
  task_alloc_fd, task_remove_fd,
}
use os_training.Fs.{
  FsOps, MountedFs, Kernel, address, index_of, is_fd_bad, file_at, put_file, op_of, stored,
  mount_of,
}

abbrev pub is_one : ℤ → Bool
is_one (pos n) = n == 1
is_one (negsuc n) = false

module _ {S : Type 0} where
  -- The last reference is gone: `f` is the file with its count at 0.
  unfoldable pub close_last : Kernel S → (p : ℕ) → File → Kernel S
  close_last k p f =
      let (f', s') = (op_of k f.fs).close f k.inner in
      let k1 = put_file k p f' in
      record k1 { file_table = file_free k1.file_table (index_of p); inner = s' }

  unfoldable pub drop_reference : Kernel S → (p : ℕ) → Kernel S
  drop_reference k p =
      let f = file_at k p in
      let less : File = record f { ref = dec f.ref } in
      if is_one f.ref then close_last (put_file k p less) p less else put_file k p less

  -- `none` is the assertion `ref > 0` that fails.
  unfoldable pub sys_close : Kernel S → (file : ℤ) → Option (ℤ × Kernel S)
  sys_close k file =
      let p = task_file k.manager file in
      let k1 = drop_reference k p in
      if is_fd_bad file
      then some (minus_one, k)
      else if p == null
      then some (minus_one, k)
      else if is_pos (file_at k p).ref
      then some (pos 0, record k1 { manager = task_remove_fd k1.manager file })
      else none

  unfoldable pub dup_to : Kernel S → (p : ℕ) → Option (ℕ × Manager) → ℤ × Kernel S
  dup_to k p none = (minus_one, k)
  dup_to k p (some (fd, m)) =
      (pos fd, record k { manager = m; file_table = file_inc_ref k.file_table (index_of p) })

  unfoldable pub sys_dup : Kernel S → (file : ℤ) → ℤ × Kernel S
  sys_dup k file =
      let p = task_file k.manager file in
      if is_fd_bad file
      then (minus_one, k)
      else if p == null
      then (minus_one, k)
      else dup_to k p (task_alloc_fd k.manager p)
