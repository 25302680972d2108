-- ===== src/Fs.antt =====
-- source/kernel/fs/fs.c: the file systems that are mounted, and the system calls on files. What a
-- mounted file system does is an interface, `FsOps`, over an unknown state `S`, which holds what
-- the file systems, their devices and the memory of the tasks keep; FAT16 and the devices fill
-- it. A call is one step: the lock of a file system is held while it works, and no other task
-- closes the same file in between.
-- A file is at index `i` of the file table, at the address `i + 1`.
pub mod Mount
pub mod Find
pub mod Open
pub mod Close
pub mod Transfer
use os_training.Base.{
  ℕ, zero, suc, ◌+◌, ◌-◌, ◌<◌, ◌≤◌, ℤ, pos, negsuc, inc, dec, is_zero, is_neg, is_pos, minus_one,
  Bool, true, false, ◌==◌, ◌&&◌, ◌||◌, if◌then◌else◌, Option, none, some, List, [], ◌∷◌, get_or,
  set, map, leb,
}
use os_training.LinkedList.{
  Nodes, ListHead, null, list_init, list_first, list_count, list_node_next, list_insert_first,
  list_insert_last, list_node_init, list_remove_first,
}
use os_training.Text.Strings.{kernel_strncpy, kernel_strncmp, string_at, bytes_from}
use os_training.Paths.{path_begin_with, path_next_child}
use os_training.Sched.{Manager}
use os_training.Files.{
  File, zeroed, file_name_size, task_ofile_nr, file_alloc, file_free, file_inc_ref, task_file,
  task_alloc_fd, task_remove_fd,
}

abbrev pub fs_mountp_size : ℕ
fs_mountp_size = 512

abbrev pub fs_table_size : ℕ
fs_table_size = 10

-- `fs_op_t`, without what is done to a directory. An operation that takes a file may write all of it.
pub record FsOps (S : Type 0) : Type 0 where
  pub do_mount : (fs major minor : ℕ) → S → ℤ × S
  pub open_file : (fs : ℕ) → (path : Option (List ℕ)) → File → S → ℤ × File × S
  pub read : (buf : ℕ) → (size : ℤ) → File → S → ℤ × File × S
  pub write : (buf : ℕ) → (size : ℤ) → File → S → ℤ × File × S
  pub close : File → S → File × S
  pub seek : File → (offset dir : ℤ) → S → ℤ × File × S
  pub stat : File → (st : ℕ) → S → ℤ × File × S
  pub ioctl : File → (cmd arg0 arg1 : ℤ) → S → ℤ × File × S

-- The operations that the kernel has, `fatfs_op` and `devfs_op`.
pub record Kinds (S : Type 0) : Type 0 where
  pub fatfs : FsOps S
  pub devfs : FsOps S

-- `fs_t`; its type, data and device belong to the operations, and so to `S`.
pub record MountedFs (S : Type 0) : Type 0 where
  pub mount_point : List ℕ
  pub op : FsOps S

-- The variables of fs.c, the file table and the tasks. `fs_nodes` are the nodes of the file
-- systems, whose addresses are those of `fs_tbl`.
pub record Kernel (S : Type 0) : Type 0 where
  pub manager : Manager
  pub file_table : List File
  pub fs_nodes : Nodes
  pub mounted_list : ListHead
  pub free_list : ListHead
  pub fs_tbl : ℕ → MountedFs S
  pub root_fs : ℕ
  pub inner : S

abbrev pub address : (i : ℕ) → ℕ
address i = suc i

abbrev pub index_of : (p : ℕ) → ℕ
index_of zero = 0
index_of (suc i) = i

-- `file < 0 && file >= TASK_OFILE_NR`
unfoldable pub is_fd_bad : (file : ℤ) → Bool
is_fd_bad (pos fd) = false && leb task_ofile_nr fd
is_fd_bad (negsuc n) = true && false

-- One round for each file system, and one to see the end.
abbrev pub mount_fuel : ℤ → ℕ
mount_fuel (pos n) = n + 1
mount_fuel (negsuc n) = 1

module _ {S : Type 0} where
  abbrev pub file_at : Kernel S → (p : ℕ) → File
  file_at k p = get_or k.file_table (index_of p) zeroed

  abbrev pub put_file : Kernel S → (p : ℕ) → File → Kernel S
  put_file k p f = record k { file_table = set k.file_table (index_of p) f }

  abbrev pub op_of : Kernel S → (fs : ℕ) → FsOps S
  op_of k fs = (k.fs_tbl fs).op

  -- The result of an operation on the file at `p`.
  abbrev pub stored : Kernel S → (p : ℕ) → ℤ × File × S → ℤ × Kernel S
  stored k p (err, f, s) = (err, record (put_file k p f) { inner = s })

  -- The loop over the mounted file systems on fuel: the address of the first whose mount point the
  -- name begins with, or null. `none` is out of fuel.
  unfoldable pub find_mount : (fuel : ℕ) → Kernel S → (name : List ℕ) → (node : ℕ) → Option ℕ
  find_mount zero k name node = none
  find_mount (suc fuel) k name node =
      let rest = find_mount fuel k name (list_node_next k.fs_nodes node) in
      if node == null
      then some null
      else if path_begin_with name (k.fs_tbl node).mount_point
      then some node
      else rest

  abbrev pub mount_of : Kernel S → (name : List ℕ) → Option ℕ
  mount_of k name =
      find_mount (mount_fuel (list_count k.mounted_list)) k name (list_first k.mounted_list)
