-- ===== src/Fs/Mount.antt =====
-- `mount` and `mount_list_init` of source/kernel/fs/fs.c.
pub mod Lists
pub mod Outcome
pub mod Init
use os_training.Base.{
  ℕ, zero, suc, ◌+◌, ℤ, pos, negsuc, is_zero, is_neg, Bool, true, false, ◌==◌, if◌then◌else◌,
  Option, none, some, List,
}
use os_training.LinkedList.{
  Nodes, ListHead, null, list_init, list_first, list_count, list_node_init, list_node_next,
  list_insert_first, list_insert_last, list_remove_first,
}
use os_training.Text.Strings.{kernel_strncmp, kernel_strncpy, string_at}
use os_training.Fs.{
  FsOps, Kinds, MountedFs, Kernel, fs_mountp_size, fs_table_size, address, mount_fuel,
}

-- The place of a file system in `fs_tbl` is its index plus 1, its address.
unfoldable pub free_loop : (n i : ℕ) → Nodes → ListHead → Nodes × ListHead
free_loop zero i h l = (h, l)
free_loop (suc n) i h l =
    let (h', l') = list_insert_first h l (address i) in free_loop n (suc i) h' l'

-- The nodes, the free list and the list of the mounted.
unfoldable pub mount_list_init : Nodes → Nodes × ListHead × ListHead
mount_list_init h = let (h', l) = free_loop fs_table_size 0 h list_init in (h', l, list_init)

-- `get_fs_op`: 0 is FS_FAT16, 1 is FS_DEVFS.
unfoldable pub get_fs_op : {S : Type 0} → Kinds S → (type : ℕ) → Option (FsOps S)
get_fs_op kinds type =
    if type == 0 then some kinds.fatfs else if type == 1 then some kinds.devfs else none

-- What the buffer of a mount point holds after the copy into zeros.
unfoldable pub point_copied : (mount_point : List ℕ) → List ℕ
point_copied mount_point =
    string_at (kernel_strncpy (λ a. 0) 1 (some mount_point) fs_mountp_size) 1 fs_mountp_size

module _ {S : Type 0} where
  -- The loop over the mounted file systems on fuel: does one have this mount point? `none` is out
  -- of fuel.
  unfoldable pub is_mounted : (fuel : ℕ) → Kernel S → List ℕ → (curr : ℕ) → Option Bool
  is_mounted zero k mount_point curr = none
  is_mounted (suc fuel) k mount_point curr =
      let rest = is_mounted fuel k mount_point (list_node_next k.fs_nodes curr) in
      let same =
        is_zero
          (kernel_strncmp (some (k.fs_tbl curr).mount_point) (some mount_point) fs_mountp_size) in
      if curr == null then some false else if same then some true else rest

  abbrev pub put_fs : (ℕ → MountedFs S) → ℕ → MountedFs S → ℕ → MountedFs S
  put_fs tbl fs m a = if a == fs then m else tbl a

  -- `mount_failed` with a file system taken.
  abbrev pub release_fs : Kernel S → (fs : ℕ) → ℕ × Kernel S
  release_fs k fs =
      let (h, l) = list_insert_first k.fs_nodes k.free_list fs in
      (null, record k { fs_nodes = h; free_list = l })

  -- The file system is cleared, filled and mounted by its own operation.
  unfoldable pub mount_with :
      Kernel S → (fs : ℕ) → FsOps S → List ℕ → (dev_major dev_minor : ℕ) → ℕ × Kernel S
  mount_with k fs op mount_point dev_major dev_minor =
      let m : MountedFs S = record { mount_point = point_copied mount_point; op = op } in
      let (err, s) = op.do_mount fs dev_major dev_minor k.inner in
      let k1 : Kernel S = record k {
        fs_nodes = list_node_init k.fs_nodes fs;
        fs_tbl = put_fs k.fs_tbl fs m;
        inner = s;
      } in
      let (h, l) = list_insert_last k1.fs_nodes k1.mounted_list fs in
      let mounted : Kernel S = record k1 { fs_nodes = h; mounted_list = l } in
      if is_neg err then release_fs k1 fs else (fs, mounted)

  unfoldable pub mount_op :
      Kernel S → (fs : ℕ) → Option (FsOps S) → List ℕ → (dev_major dev_minor : ℕ) → ℕ × Kernel S
  mount_op k fs none mount_point dev_major dev_minor = release_fs k fs
  mount_op k fs (some op) mount_point dev_major dev_minor =
      mount_with k fs op mount_point dev_major dev_minor

  unfoldable pub mount_unless :
      Kernel S
      → Kinds S
      → (type : ℕ) → List ℕ
      → (dev_major dev_minor : ℕ) → Option Bool
      → Option (ℕ × Kernel S)
  mount_unless k kinds type mount_point dev_major dev_minor none = none
  mount_unless k kinds type mount_point dev_major dev_minor (some true) = some (null, k)
  mount_unless k kinds type mount_point dev_major dev_minor (some false) =
      let (fs, h, l) = list_remove_first k.fs_nodes k.free_list in
      let k1 : Kernel S = record k { fs_nodes = h; free_list = l } in
      if fs == null
      then some (null, k1)
      else some (mount_op k1 fs (get_fs_op kinds type) mount_point dev_major dev_minor)

  -- The address of the file system, or null; `none` is out of fuel.
  unfoldable pub mount :
      Kernel S → Kinds S → (type : ℕ) → List ℕ → (dev_major dev_minor : ℕ) → Option (ℕ × Kernel S)
  mount k kinds type mount_point dev_major dev_minor =
      mount_unless k kinds type mount_point dev_major dev_minor (
        is_mounted (mount_fuel (list_count k.mounted_list)) k mount_point
          (list_first k.mounted_list))
