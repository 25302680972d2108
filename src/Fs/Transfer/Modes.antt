-- ===== src/Fs/Transfer/Modes.antt =====
-- Which calls on a descriptor reach a file system.
use os_training.Base.{
  ℕ, ◌≤◌, ◌≡◌, ◌≢◌, refl, ℤ, pos, negsuc, is_zero, minus_one, false, ◌==◌, some, arith,
}
use os_training.LinkedList.{null}
use os_training.Sched.{Manager}
use os_training.Files.{task_file, task_ofile_nr}
use os_training.Fs.{Kernel, is_fd_bad}
use os_training.Fs.Close.{sys_close, sys_dup}
use os_training.Fs.Transfer.{sys_read, sys_write, sys_lseek, sys_ioctl, sys_isatty}

-- The descriptor is below 0, or not below the size of the table.
abbrev pub OutOfRange : (file : ℤ) → Type 0
OutOfRange (pos fd) = task_ofile_nr ≤ fd
OutOfRange (negsuc n) = Unit {0}

is_fd_bad-false : (file : ℤ) → is_fd_bad file ≡ false
unfolding is_fd_bad
is_fd_bad-false (pos fd) = refl
is_fd_bad-false (negsuc n) = refl

task_file-OutOfRange : (s : Manager) (file : ℤ) → OutOfRange file → task_file s file ≡ null
unfolding task_file
task_file-OutOfRange s (pos fd) h = ground arith
task_file-OutOfRange s (negsuc n) h = refl

module _ {S : Type 0} (k : Kernel S) (file : ℤ) where
  -- A descriptor below 0, or not below 128, is refused by `sys_read` and `sys_write` with some
  -- bytes and a buffer, by `sys_lseek`, `sys_ioctl`, `sys_isatty`, `sys_close` and `sys_dup`, and
  -- nothing changes: the result is 0 for `sys_ioctl` and `sys_isatty`, and -1 for the others.
  pub calls-OutOfRange :
      (ptr : ℕ) (len offset dir : ℤ)
      → ptr ≢ null
      → is_zero len ≡ false
      → OutOfRange file
      → (sys_read k file ptr len ≡ (minus_one, k))
        × (sys_write k file ptr len ≡ (minus_one, k))
        × (sys_lseek k file offset dir ≡ (minus_one, k))
        × (sys_ioctl k file len offset dir ≡ (pos 0, k))
        × (sys_isatty k file ≡ false)
        × (sys_close k file ≡ some (minus_one, k))
        × (sys_dup k file ≡ (minus_one, k))
  unfolding sys_read sys_write sys_lseek sys_ioctl sys_isatty sys_close sys_dup
  calls-OutOfRange ptr len offset dir there some_bytes out =
      let closed = task_file-OutOfRange k.manager file out in
      let fine = is_fd_bad-false file in
      let p : (ptr == null) ≡ false = ground arith in
      (
        rw (fine, closed, p, some_bytes) refl,
        rw (fine, closed, p, some_bytes) refl,
        rw (fine, closed) refl,
        rw (fine, closed) refl,
        rw (fine, closed) refl,
        rw (fine, closed) refl,
        rw (fine, closed) refl,
      )
