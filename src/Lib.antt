-- ===== src/Lib.antt =====
-- Verification of the kernel of this repository, a small operating system for the 80386: its
-- data structures, its scheduler with semaphores and mutexes, its memory, the character devices
-- from the keyboard to the screen, its file systems, and the life of its tasks.
--
-- The parts and their files. Each operation has the name of the C function.
--   * LinkedList: source/kernel/tools/list.c and include/tools/list.h. A node is an address, and
--     the nodes stand in a store; a list is its head, its tail and its count. Chain says which
--     sequence a list holds, Relink what a write of one pointer leaves alone, Insert and Remove
--     are about the operations, Frame about two lists over one store.
--   * Bitmap: source/kernel/tools/bitmap.c, an array of bytes. Bits has the tables of one byte,
--     Access reads and writes, Alloc the search for free bits.
--   * Memory: the functions addr_alloc_* of source/kernel/core/memory.c over the bitmap; Pages
--     has its invariant and its operations. Tables has the page tables of that file over the words
--     of the memory; Bits is about the words of their entries, Lookup about a page that is mapped.
--   * Sched: the queues of source/kernel/core/task.c, the choice of the next task, sys_yield,
--     sys_msleep and task_time_tick. A task is its address; the state is the task manager with
--     the tasks. Queues says which tasks are ready and asleep; Yield, Sleep, Sleepers and Tick
--     are about the calls.
--   * Ipc: source/kernel/ipc/sem.c and mutex.c over the scheduler and the wait nodes. Waiters
--     is about one wait list, Semaphore and Locking about the branches of each call;
--     Refinement sets the calls against an abstract semaphore, LockRefinement against an
--     abstract mutex.
--   * Console: source/kernel/dev/console.c. The display memory is a function of the offset, so
--     a write behind the screen is seen. Display, Cursor and Escape are the code; Scroll, Bounds,
--     Command, Machine, Params and Text are about it.
--   * Tty: source/kernel/dev/tty.c. Ring is the queue of characters, Input is what the
--     keyboard interrupt does with the input queue and its semaphore, Line is `tty_read`.
--   * Keyboard: source/kernel/dev/kbd.c, the interrupt handler as a step from a scan code to the
--     next state and an event.
--   * Files: source/kernel/fs/file.c, and the descriptors of a task in source/kernel/core/task.c.
--     Search is the loop that both have; Table and Descriptors are about the two tables.
--   * Fat: source/kernel/fs/fatfs/fatfs.c. The state is `fat_t` with its device; the device, its
--     sectors and which of them it reads and writes, is a parameter. Fat.antt is the cluster table:
--     Table and Write are about one entry, Chain and Free about chains that are given back, Alloc,
--     Run, Loop, Grant, Outcome and Wrap about the search for free clusters. Name has the short
--     names, Dir the packed directory entries (Codec: their bytes), Root the directory and its
--     operations (Entries: one entry, Scan: the search, Create and Close: the calls). File and Save
--     have the reading, writing and seeking; Kept, Seek, Division, Volume, Read and Contents are about
--     them. The flags of `<sys/fcntl.h>` are a parameter.
--   * Device: source/kernel/dev/dev.c, the table of open devices over a record of drivers. Unique is
--     about the places of the table.
--   * Text: source/kernel/tools/klib.c. `kernel_itoa`, with Numerals about the digits that it
--     writes, and in Strings the functions on strings, with Copy, Compare and FileName about them.
--   * Paths: the functions on paths of source/kernel/fs/fs.c. Prefix, Child and Numbers are about
--     them.
--   * Fs: the rest of source/kernel/fs/fs.c over a record of operations of a file system, FsOps.
--     Mount is `mount` over the two lists of file systems (Lists, Outcome and Init are about it),
--     Find the search for a mount point, Open `sys_open` (Outcome, Leak), Close `sys_close` and
--     `sys_dup` (References, Outcome, Duplicate), Transfer the other calls on a descriptor (Modes).
--   * Devfs: source/kernel/fs/devfs/devfs.c, which fills FsOps over the device table. Terminal is
--     about the way from the path of a terminal to its driver.
--   * Process: the life of a task in source/kernel/core/task.c. Share is about the files of a new
--     task, Reap and Missed about `sys_wait`, Children and Exit about `sys_exit`.
--   * Base: numbers, tests and lists that all parts share. Examples: runs at concrete inputs.
-- How they interact: the page allocator calls the bitmap; the scheduler, the semaphores and the
-- mutexes call the lists; the semaphores and mutexes call the scheduler; `tty_in` calls the ring
-- buffer and `sem_notify`; an event of the keyboard is a call of `tty_in` or of `tty_select`; the
-- page tables take their pages from the page allocator; the operations on files call those on the
-- directory and on the cluster table; `sys_open` calls the file table, the descriptors of the task,
-- the list of the mounted file systems and, through FsOps, the device table; `sys_wait` and
-- `sys_exit` call the scheduler.
--
-- Conventions. Interrupts are off, or a mutex is held, from the first to the last statement of the
-- modelled functions, so a call is one step. A call that blocks ends, for the kernel's data, with
-- the dispatch of another task; the calls of fs.c are one step too, so no other task closes the same
-- file in between, and `sys_wait` is two, its search and its block. An address is a number and 0 is null. `int` is ℤ where the code
-- can go below 0 and ℕ elsewhere; `uint32_t` arithmetic has its
-- `% 2 ^ 32`. An `int` that a user's text can make too large, an escape parameter or the column that
-- it asks for, ends the model of the console, as an access out of bounds does; elsewhere overflow of
-- an `int` is not modelled. The buffer of a FAT volume is a page: a transfer notes that a cluster
-- was read past it, and what that does to the memory behind the page is not modelled.
--
-- Fuel. The search of `bitmap_alloc_nbits` has one round more than the bitmap has bits, since
-- each round goes on by a bit at least. The loop of `task_time_tick` has
-- one round for each node of the sleep queue and one to see its end. `cluster_free_chain` has 3
-- rounds more than the table has entries, the search of `cluster_alloc_free` one for each cluster
-- of a table of fewer than 256 sectors, `fatfs_read` one for each byte and one more, `fatfs_seek`
-- one for each cluster it goes past and one more, `kernel_itoa` 32, one for each bit; the loops over
-- the mounted file systems have one for each and one to see the end.
--
-- Not modelled: port I/O and assembly (the boot code, the loader, the interrupt controller, the
-- disk driver, the timer), the copy and the removal of page tables, fork and execve, the mount of
-- a FAT volume, the calls on a directory in fs.c, which only hand over their arguments, a transfer of
-- sectors that stops part of the way, `tty_write`, the shell and the programs, and what CMake generates.
pub mod Base
pub mod LinkedList
pub mod Bitmap
pub mod Memory
pub mod Sched
pub mod Ipc
pub mod Console
pub mod Tty
pub mod Keyboard
pub mod Files
pub mod Fs
pub mod Fat
pub mod Device
pub mod Devfs
pub mod Process
pub mod Paths
pub mod Text
pub mod Examples
