-- ===== src/Devfs.antt =====
-- source/kernel/fs/devfs/devfs.c: the file system of the devices, which fills the interface of
-- the file systems over the device table and the drivers. `devfs_type_list` has one entry, the
-- terminals.
pub mod Terminal
use os_training.Base.{
  ℕ, ◌+◌, ◌<◌, ℤ, pos, negsuc, is_zero, minus_one, Bool, true, false, ltb, if◌then◌else◌, Option,
  none, some, List, [], ◌∷◌, drop,
}
use os_training.Text.Strings.{kernel_strncmp, kernel_strlen}
use os_training.Paths.{path_to_num}
use os_training.Files.{File}
use os_training.Fs.{FsOps}
use os_training.Device.{DeviceEntry, Drivers, dev_open, dev_close, dev_read, dev_write, dev_control}

-- The device table and the drivers' state.
abbrev pub Devices : Type 0 → Type 0
Devices S = (ℕ → DeviceEntry) × S

-- "tty"
abbrev pub tty_name : List ℕ
tty_name = 116 ∷ 116 ∷ 121 ∷ []

abbrev pub dev_tty : ℕ
dev_tty = 1

abbrev pub file_tty : ℕ
file_tty = 1

-- A `dev_id` below 0 names no device.
abbrev pub with_id {ℓ} : {A : Type ℓ} → (dev_id : ℤ) → A → (ℕ → A) → A
with_id (pos d) refused call = call d
with_id (negsuc n) refused call = refused

-- `path + type_name_len`
abbrev pub number_part : Option (List ℕ) → List ℕ
number_part none = []
number_part (some path) = drop 3 path

-- `minor`, which the code leaves as it finds it, `stale`, if nothing follows the name.
abbrev pub minor_of : (stale : ℕ) → (path : Option (List ℕ)) → ℕ
minor_of stale path = if ltb 3 (kernel_strlen path) then path_to_num (number_part path) else stale

module _ {S : Type 0} (ds : Drivers S) where
  -- What `devfs_open` does with the result of `dev_open`.
  abbrev pub open_device_file :
      (fs : ℕ) → File → Option ℕ × (ℕ → DeviceEntry) × S → ℤ × File × Devices S
  open_device_file fs f (none, tbl, s) = (minus_one, f, (tbl, s))
  open_device_file fs f (some dev_id, tbl, s) = (
    pos 0,
    record f { dev_id = pos dev_id; fs = fs; pos = pos 0; size = 0; type = file_tty },
    (tbl, s),
  )

  unfoldable pub devfs_open :
      (stale fs : ℕ) → (path : Option (List ℕ)) → File → Devices S → ℤ × File × Devices S
  devfs_open stale fs path f (tbl, s) =
      if is_zero (kernel_strncmp path (some tty_name) 3)
      then open_device_file fs f (dev_open ds tbl s dev_tty (minor_of stale path) 0)
      else (minus_one, f, (tbl, s))

  unfoldable pub devfs_read : (buf : ℕ) → (size : ℤ) → File → Devices S → ℤ × File × Devices S
  devfs_read buf size f (tbl, s) =
      let (err, s') = with_id f.dev_id (minus_one, s) (λ d. dev_read ds tbl s d f.pos buf size) in
      (err, f, (tbl, s'))

  unfoldable pub devfs_write : (buf : ℕ) → (size : ℤ) → File → Devices S → ℤ × File × Devices S
  devfs_write buf size f (tbl, s) =
      let (err, s') = with_id f.dev_id (minus_one, s) (λ d. dev_write ds tbl s d f.pos buf size) in
      (err, f, (tbl, s'))

  unfoldable pub devfs_close : File → Devices S → File × Devices S
  devfs_close f (tbl, s) = (f, with_id f.dev_id (tbl, s) (dev_close ds tbl s))

  unfoldable pub devfs_seek : File → (offset dir : ℤ) → Devices S → ℤ × File × Devices S
  devfs_seek f offset dir s = (minus_one, f, s)

  unfoldable pub devfs_stat : File → (st : ℕ) → Devices S → ℤ × File × Devices S
  devfs_stat f st s = (minus_one, f, s)

  unfoldable pub devfs_ioctl : File → (cmd arg0 arg1 : ℤ) → Devices S → ℤ × File × Devices S
  devfs_ioctl f cmd arg0 arg1 (tbl, s) =
      let (err, s') = with_id f.dev_id (minus_one, s) (λ d. dev_control ds tbl s d cmd arg0 arg1) in
      (err, f, (tbl, s'))

  -- `devfs_mount` only notes the type.
  unfoldable pub devfs_mount : (fs major minor : ℕ) → Devices S → ℤ × Devices S
  devfs_mount fs major minor s = (pos 0, s)

  abbrev pub devfs_op : (stale : ℕ) → FsOps (Devices S)
  devfs_op stale = record {
    do_mount = devfs_mount;
    open_file = devfs_open stale;
    read = devfs_read;
    write = devfs_write;
    close = devfs_close;
    seek = devfs_seek;
    stat = devfs_stat;
    ioctl = devfs_ioctl;
  }
