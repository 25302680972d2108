-- ===== src/Fs/Transfer.antt =====
-- `sys_read`, `sys_write`, `sys_lseek`, `sys_ioctl` and `sys_isatty` of source/kernel/fs/fs.c.
pub mod Modes
use os_training.Base.{
  ℕ, zero, suc, ◌+◌, ◌-◌, ◌<◌, ◌≤◌, ℤ, pos, negsuc, inc, dec, is_zero, is_neg, is_pos, minus_one,
  Bool, true, false, ◌==◌, ◌&&◌, ◌||◌, if◌then◌else◌, Option, none, some, List, [], ◌∷◌, get_or,
  set,
}
use os_training.LinkedList.{null}
use os_training.Sched.{Manager}
use os_training.Text.Strings.{kernel_strncpy, bytes_from}
use os_training.Paths.{path_next_child}
use os_training.Files.{
  File, zeroed, file_name_size, task_ofile_nr, file_alloc, file_free, file_inc_ref, task_file,
  task_alloc_fd, task_remove_fd,
}
use os_training.Fs.{
  FsOps, MountedFs, Kernel, address, index_of, is_fd_bad, file_at, put_file, op_of, stored,
  mount_of,
}

-- `mode == O_WRONLY` and `mode == O_RDONLY`.
abbrev pub is_wronly : (mode : ℤ) → Bool
is_wronly (pos n) = n == 1
is_wronly (negsuc n) = false

abbrev pub is_rdonly : (mode : ℤ) → Bool
is_rdonly mode = is_zero mode

module _ {S : Type 0} where
  unfoldable pub sys_read : Kernel S → (file : ℤ) → (ptr : ℕ) → (len : ℤ) → ℤ × Kernel S
  sys_read k file ptr len =
      let p = task_file k.manager file in
      let f = file_at k p in
      if is_fd_bad file || ptr == null || is_zero len
      then (pos 0, k)
      else if p == null
      then (minus_one, k)
      else if is_wronly f.mode
      then (minus_one, k)
      else stored k p ((op_of k f.fs).read ptr len f k.inner)

  unfoldable pub sys_write : Kernel S → (file : ℤ) → (ptr : ℕ) → (len : ℤ) → ℤ × Kernel S
  sys_write k file ptr len =
      let p = task_file k.manager file in
      let f = file_at k p in
      if is_fd_bad file || ptr == null || is_zero len
      then (pos 0, k)
      else if p == null
      then (minus_one, k)
      else if is_rdonly f.mode
      then (minus_one, k)
      else stored k p ((op_of k f.fs).write ptr len f k.inner)

  unfoldable pub sys_lseek : Kernel S → (file ptr dir : ℤ) → ℤ × Kernel S
  sys_lseek k file ptr dir =
      let p = task_file k.manager file in
      let f = file_at k p in
      if is_fd_bad file
      then (minus_one, k)
      else if p == null
      then (minus_one, k)
      else stored k p ((op_of k f.fs).seek f ptr dir k.inner)

  unfoldable pub sys_ioctl : Kernel S → (fd cmd arg0 arg1 : ℤ) → ℤ × Kernel S
  sys_ioctl k fd cmd arg0 arg1 =
      let p = task_file k.manager fd in
      let f = file_at k p in
      if is_fd_bad fd
      then (pos 0, k)
      else if p == null
      then (pos 0, k)
      else stored k p ((op_of k f.fs).ioctl f cmd arg0 arg1 k.inner)

  -- `type == FILE_TTY`
  unfoldable pub sys_isatty : Kernel S → (file : ℤ) → Bool
  sys_isatty k file =
      let p = task_file k.manager file in
      if is_fd_bad file then false else if p == null then false else (file_at k p).type == 1
