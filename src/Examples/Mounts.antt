-- ===== src/Examples/Mounts.antt =====
-- The devices mounted on "/dev" and on "/home", one free file system, and the files and the task of
-- the example of open files.
use os_training.Base.{
  ℕ, ◌≡◌, refl, ap, pos, is_neg, minus_one, false, ◌==◌, if◌then◌else◌, some, List, [], ◌∷◌,
  replicate, arith,
}
use os_training.LinkedList.{Nodes, ListNode, null}
use os_training.Text.{kernel_itoa}
use os_training.Sched.{Manager}
use os_training.Files.{task_file}
use os_training.Files.Table.{entry}
use os_training.Device.{dev_open, find_device, find_desc}
use os_training.Fs.{Kinds, MountedFs, Kernel, address}
use os_training.Fs.Find.{Chosen, here}
use os_training.Text.Strings.{kernel_strncmp, same_start}
use os_training.Paths.{path_next_child, skip_name, skip_slashes}
use os_training.Paths.Prefix.{path_begin_with-append}
use os_training.Fs.Open.{sys_open}
use os_training.Fs.Open.Outcome.{OpenResult, request, call_of, asked_path, sys_open-OpenResult}
use os_training.Fs.Open.Leak.{sys_open-leaks}
use os_training.Fs.Close.{sys_close, sys_dup}
use os_training.Fs.Close.Outcome.{CloseResult, sys_close-CloseResult}
use os_training.Fs.Close.Duplicate.{sys_dup-sys_close}
use os_training.Fs.Transfer.{sys_read, sys_write, sys_lseek, sys_ioctl, sys_isatty}
use os_training.Fs.Transfer.Modes.{calls-OutOfRange}
use os_training.Fs.Mount.{mount}
use os_training.Fs.Mount.Outcome.{IsMounts, MountResult, mount-MountResult}
use os_training.Devfs.{Devices, devfs_open, devfs_op, dev_tty}
use os_training.Devfs.Terminal.{dev_name, tty_path, Reaches, sys_open-terminal}
use os_training.Examples.Devices.{drivers, devices}
use os_training.Examples.Open.{table, with_files}

abbrev node : ℕ → ℕ → ListNode
node p n = record { pre = p; next = n }

abbrev fs_nodes : Nodes
fs_nodes a = if a == 1 then node 0 2 else if a == 2 then node 1 0 else node 0 0

-- "/home"
abbrev home_name : List ℕ
home_name = 47 ∷ 104 ∷ 111 ∷ 109 ∷ 101 ∷ []

abbrev fs_tbl : ℕ → MountedFs (Devices ℕ)
fs_tbl a = record { mount_point = if a == 1 then dev_name else home_name; op = devfs_op drivers 0 }

-- Descriptor 0 leads to the file at 1, which has two references.
abbrev manager : Manager
manager = record with_files {
  tasks = λ a. record (with_files.tasks a) { file_table = 1 ∷ replicate 127 0 };
}

abbrev kernel : Kernel (Devices ℕ)
kernel = record {
  manager = manager;
  file_table = table;
  fs_nodes = fs_nodes;
  mounted_list = record { first = 1; last = 2; count = pos 2 };
  free_list = record { first = 3; last = 3; count = pos 1 };
  fs_tbl = fs_tbl;
  root_fs = 2;
  inner = (devices, 0);
}

kernel-IsMounts : IsMounts kernel (1 ∷ 2 ∷ []) (3 ∷ [])
kernel-IsMounts = record {
  mounted = record {
    distinct = ((λ e. omega (arith, e), tt), (tt, tt));
    chain = (refl, λ e. omega (arith, e), refl, (refl, λ e. omega (arith, e), refl, (refl, refl)));
    counted = refl;
  };
  unused = record {
    distinct = (tt, tt);
    chain = (refl, λ e. omega (arith, e), refl, (refl, refl));
    counted = refl;
  };
  apart = ((λ e. omega (arith, e), (λ e. omega (arith, e), tt)), tt);
}

-- Terminal 3 is opened at place 127 of the device table.
opens_three : dev_open drivers devices 0 dev_tty 3 0 ≡ (
  some 127,
  (dev_open drivers devices 0 dev_tty 3 0).1,
  (dev_open drivers devices 0 dev_tty 3 0).2,
)
unfolding dev_open find_device find_desc
opens_three = refl

at_one : task_file manager (pos 1) ≡ null
unfolding task_file
at_one = refl

sys_open-terminal_example :
    (cs : List ℕ) × (kernel_itoa (pos 3) 10 ≡ some cs)
    × Reaches
        (sys_open kernel (tty_path cs) (pos 2))
        127
        ((dev_open drivers devices 0 dev_tty 3 0).1, (dev_open drivers devices 0 dev_tty 3 0).2)
sys_open-terminal_example =
    sys_open-terminal drivers kernel (pos 2) 0 1 127 (dev_open drivers devices 0 dev_tty 3 0).1
      (dev_open drivers devices 0 dev_tty 3 0).2 (2 ∷ []) 3 1 1 kernel-IsMounts.mounted refl refl
      refl (omega arith) refl (omega arith) (at_one) (omega arith) opens_three

sys_open-OpenResult_example :
    OpenResult kernel
      (tty_path (51 ∷ []))
      (pos 2)
      (1 ∷ 2 ∷ [])
      (sys_open kernel (tty_path (51 ∷ [])) (pos 2))
sys_open-OpenResult_example =
    sys_open-OpenResult kernel (tty_path (51 ∷ [])) (pos 2) (1 ∷ 2 ∷ []) kernel-IsMounts.mounted
      refl

at_zero : task_file manager (pos 0) ≡ 1
unfolding task_file
at_zero = refl

sys_close-CloseResult_example : CloseResult kernel 0 (sys_close kernel (pos 0))
sys_close-CloseResult_example =
    sys_close-CloseResult kernel 0 refl (omega arith) (λ i e. omega (arith, at_zero, e))

sys_dup-sys_close_example :
    (fd' : ℕ) × (k1 : Kernel (Devices ℕ)) × (k2 : Kernel (Devices ℕ)) × (sys_dup kernel (pos 0)
      ≡ (pos fd', k1))
    × (sys_close k1 (pos fd') ≡ some (pos 0, k2))
    × (k2.inner ≡ kernel.inner)
    × ((j : ℕ) → entry k2.file_table j ≡ entry kernel.file_table j)
    × ((j : ℕ) → task_file k2.manager (pos j) ≡ task_file kernel.manager (pos j))
sys_dup-sys_close_example =
    sys_dup-sys_close kernel 0 0 1 1 refl at_zero (omega arith) refl (omega arith) at_one

-- "/dev/a", which names no device.
abbrev unnamed_path : List ℕ
unnamed_path = 47 ∷ 100 ∷ 101 ∷ 118 ∷ 47 ∷ 97 ∷ []

dev-Chosen : Chosen fs_tbl unnamed_path (1 ∷ 2 ∷ []) 1
dev-Chosen = here 1 (2 ∷ []) ((path_begin_with-append unnamed_path dev_name).1 (47 ∷ 97 ∷ [], refl))

-- `devfs_open` refuses the name `a`.
refused :
    call_of kernel 1 (asked_path unnamed_path 1) (pos 0)
    ≡ (minus_one, request 1 (asked_path unnamed_path 1) (pos 0), kernel.inner)
unfolding devfs_open kernel_strncmp same_start path_next_child skip_slashes skip_name
refused = refl

sys_open-leaks_example :
    (k' : Kernel (Devices ℕ)) × (i : ℕ) × (fd : ℕ) × (sys_open kernel unnamed_path (pos 0)
      ≡ some (minus_one, k'))
    × (task_file manager (pos fd) ≡ null)
    × (task_file k'.manager (pos fd) ≡ address i)
    × ((entry table i).ref ≡ pos 0)
    × ((entry k'.file_table i).ref ≡ pos 1)
sys_open-leaks_example =
    sys_open-leaks kernel unnamed_path (pos 0) (1 ∷ 2 ∷ []) 1 1 1 kernel-IsMounts.mounted refl
      dev-Chosen (ap (λ c. is_neg c.0) refused) (ap (λ c. c.1.ref) refused) (omega arith) refl
      (omega arith) at_one

calls-OutOfRange_example :
    (sys_read kernel (pos 128) 64 (pos 5) ≡ (minus_one, kernel))
    × (sys_write kernel (pos 128) 64 (pos 5) ≡ (minus_one, kernel))
    × (sys_lseek kernel (pos 128) (pos 0) (pos 0) ≡ (minus_one, kernel))
    × (sys_ioctl kernel (pos 128) (pos 5) (pos 0) (pos 0) ≡ (pos 0, kernel))
    × (sys_isatty kernel (pos 128) ≡ false)
    × (sys_close kernel (pos 128) ≡ some (minus_one, kernel))
    × (sys_dup kernel (pos 128) ≡ (minus_one, kernel))
calls-OutOfRange_example =
    calls-OutOfRange kernel (pos 128) 64 (pos 5) (pos 0) (pos 0) (λ e. omega (arith, e)) refl
      (omega arith)

abbrev kinds : Kinds (Devices ℕ)
kinds = record { fatfs = devfs_op drivers 0; devfs = devfs_op drivers 0 }

-- "/mnt"
abbrev mnt_name : List ℕ
mnt_name = 47 ∷ 109 ∷ 110 ∷ 116 ∷ []

mount-MountResult_example :
    MountResult kernel kinds 1 mnt_name 0 0
      (1 ∷ 2 ∷ [])
      (3 ∷ [])
      (mount kernel kinds 1 mnt_name 0 0)
mount-MountResult_example =
    mount-MountResult kernel kinds 1 mnt_name 0 0 (1 ∷ 2 ∷ []) (3 ∷ []) kernel-IsMounts
