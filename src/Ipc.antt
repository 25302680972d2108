-- ===== src/Ipc.antt =====
-- source/kernel/ipc/sem.c and mutex.c: the counting semaphore and the recursive mutex over the
-- scheduler.
-- A task waits through its `wait_node`; those nodes stand in `wait_nodes` under the task's address.
-- Interrupts are off from the first to the last statement of each function. A call that blocks
-- ends, for the kernel's data, with `task_dispatch`: when the task runs again it only returns.
pub mod Waiters
pub mod Semaphore
pub mod Locking
pub mod Refinement
pub mod LockRefinement
use os_training.Base.{
  ℕ, ℤ, pos, inc, dec, is_zero, is_pos, Bool, true, false, not, ◌==◌, if◌then◌else◌,
}
use os_training.LinkedList.{
  Nodes, ListHead, null, list_init, list_count, list_insert_last, list_remove_first,
}
use os_training.Sched.{Manager, task_current, task_set_block, task_set_ready, task_dispatch}

-- The kernel's data that an operation reads and writes: the scheduler and the wait nodes.
pub record Kernel : Type 0 where
  pub sched : Manager
  pub wait_nodes : Nodes

-- `sem_t`; the count is an `int`.
pub record Sem : Type 0 where
  pub count : ℤ
  pub wait_list : ListHead

-- `mutex_t`
pub record Mutex : Type 0 where
  pub owner : ℕ
  pub locked_count : ℤ
  pub wait_list : ListHead

-- The running task `curr` blocks on a wait list: the three calls that `sem_wait` and `mutex_lock` share.
unfoldable pub wait_on : Kernel → ListHead → (curr : ℕ) → Kernel × ListHead
wait_on k l curr =
    let (h, l') = list_insert_last k.wait_nodes l curr in
    (record { sched = task_dispatch (task_set_block k.sched curr); wait_nodes = h }, l')

-- The first waiter becomes ready, and is handed back.
unfoldable pub wake_first : Kernel → ListHead → ℕ × Kernel × ListHead
wake_first k l =
    let (t, h, l') = list_remove_first k.wait_nodes l in
    (t, record { sched = task_set_ready k.sched t; wait_nodes = h }, l')

abbrev pub dispatch : Kernel → Kernel
dispatch k = record k { sched = task_dispatch k.sched }

abbrev pub sem_init : ℤ → Sem
sem_init init_count = record { count = init_count; wait_list = list_init }

unfoldable pub sem_wait : Kernel → Sem → Kernel × Sem
sem_wait k s =
    let (k', l) = wait_on k s.wait_list (task_current k.sched) in
    if is_pos s.count
    then (k, record s { count = dec s.count })
    else (k', record s { wait_list = l })

unfoldable pub sem_notify : Kernel → Sem → Kernel × Sem
sem_notify k s =
    let (t, k', l) = wake_first k s.wait_list in
    if is_zero (list_count s.wait_list)
    then (k, record s { count = inc s.count })
    else (dispatch k', record s { wait_list = l })

abbrev pub sem_count : Sem → ℤ
sem_count s = s.count

abbrev pub mutex_init : Mutex
mutex_init = record { owner = null; locked_count = pos 0; wait_list = list_init }

unfoldable pub mutex_lock : Kernel → Mutex → Kernel × Mutex
mutex_lock k m =
    let curr = task_current k.sched in
    let (k', l) = wait_on k m.wait_list curr in
    if is_zero m.locked_count
    then (k, record m { locked_count = pos 1; owner = curr })
    else if m.owner == curr
    then (k, record m { locked_count = inc m.locked_count })
    else (k', record m { wait_list = l })

-- The lock is handed to the first waiter before that task runs.
unfoldable pub mutex_unlock : Kernel → Mutex → Kernel × Mutex
mutex_unlock k m =
    let curr = task_current k.sched in
    let left = dec m.locked_count in
    let (t, k', l) = wake_first k m.wait_list in
    if not (m.owner == curr)
    then (k, m)
    else if not (is_zero left)
    then (k, record m { locked_count = left })
    else if is_zero (list_count m.wait_list)
    then (k, record m { locked_count = left; owner = null })
    else (dispatch k', record { locked_count = pos 1; owner = t; wait_list = l })
