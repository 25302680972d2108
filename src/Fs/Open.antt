-- ===== src/Fs/Open.antt =====
-- `sys_open` of source/kernel/fs/fs.c.
pub mod Outcome
pub mod Leak
use os_training.Base.{
  ℕ, zero, suc, ◌+◌, ◌-◌, ◌<◌, ◌≤◌, ℤ, pos, negsuc, inc, dec, is_zero, is_neg, is_pos, minus_one,
  Bool, true, false, ◌==◌, ◌&&◌, ◌||◌, if◌then◌else◌, Option, none, some, List, [], ◌∷◌, get_or,
  set,
}
use os_training.LinkedList.{null}
use os_training.Sched.{Manager}
use os_training.Text.Strings.{kernel_strncpy, bytes_from}
use os_training.Paths.{path_next_child}
use os_training.Files.{
  File, zeroed, file_name_size, task_ofile_nr, file_alloc, file_free, file_inc_ref, task_file,
  task_alloc_fd, task_remove_fd,
}
use os_training.Fs.{
  FsOps, MountedFs, Kernel, address, index_of, is_fd_bad, file_at, put_file, op_of, stored,
  mount_of,
}

-- The 32 bytes of `file_name` after the copy, as if at the addresses from 1 on. A 0 that the copy
-- writes behind them falls on `type`, which is 0 then.
abbrev pub name_copied : (old : List ℕ) → (name : Option (List ℕ)) → List ℕ
name_copied old name =
    bytes_from (kernel_strncpy (λ a. get_or old (a - 1) 0) 1 name file_name_size) 1 file_name_size

module _ {S : Type 0} where
  -- The last part of `sys_open`, for the chosen file system. A failure leaves the file and the
  -- descriptor as they are.
  unfoldable pub open_on :
      Kernel S → (fs : ℕ) → (name : Option (List ℕ)) → (flags : ℤ) → (p fd : ℕ) → ℤ × Kernel S
  open_on k fs name flags p fd =
      let f : File = record (file_at k p) {
        dev_id = minus_one;
        fs = fs;
        mode = flags;
        file_name = name_copied (file_at k p).file_name name;
      } in
      let (err, k') = stored k p ((op_of k fs).open_file fs name f k.inner) in
      if is_neg err then (minus_one, k') else (pos fd, k')

  -- The choice of the file system; a file system of its own gets the path below its mount point.
  unfoldable pub open_chosen :
      Kernel S → (name : List ℕ) → (flags : ℤ) → (p fd : ℕ) → Option ℕ → Option (ℤ × Kernel S)
  open_chosen k name flags p fd none = none
  open_chosen k name flags p fd (some fs) =
      if fs == null
      then some (open_on k k.root_fs (some name) flags p fd)
      else some (open_on k fs (path_next_child name) flags p fd)

  unfoldable pub open_with_fd :
      Kernel S
      → (name : List ℕ) → (flags : ℤ) → (p : ℕ) → Option (ℕ × Manager)
      → Option (ℤ × Kernel S)
  open_with_fd k name flags p none =
      some (minus_one, record k { file_table = file_free k.file_table (index_of p) })
  open_with_fd k name flags p (some (fd, m)) =
      let k1 : Kernel S = record k { manager = m } in
      open_chosen k1 name flags p fd (mount_of k1 name)

  unfoldable pub open_with_file :
      Kernel S → (name : List ℕ) → (flags : ℤ) → Option (ℕ × List File) → Option (ℤ × Kernel S)
  open_with_file k name flags none = some (minus_one, k)
  open_with_file k name flags (some (i, table)) =
      open_with_fd (record k { file_table = table }) name flags (address i)
        (task_alloc_fd k.manager (address i))

  -- `none` is out of fuel in the loop over the mounted file systems.
  unfoldable pub sys_open : Kernel S → (name : List ℕ) → (flags : ℤ) → Option (ℤ × Kernel S)
  sys_open k name flags = open_with_file k name flags (file_alloc k.file_table)
