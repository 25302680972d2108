-- ===== src/Examples/Family.antt =====
-- The tasks of the example of tasks as a family: the running task 5 is a child of 7, or of 12, and
-- 12 and 13 wait.
use os_training.Base.{
  ℕ, ◌+◌, ◌≡◌, ◌≢◌, refl, pos, true, false, ◌==◌, if◌then◌else◌, List, [], ◌∷◌, ◌++◌, replicate,
  arith,
}
use os_training.LinkedList.{null}
use os_training.LinkedList.Chain.{NotIn}
use os_training.Sched.{Manager, running, waiting, zombie}
use os_training.Sched.Queues.{Queues, Loose, next_of}
use os_training.Files.Table.{entry}
use os_training.Fs.{address}
use os_training.Process.{
  UserMemory, wait_scan, move_children, exit_end, wait_block, find_zombie, copy_files,
}
use os_training.Process.Reap.{WaitResult, wait_scan-WaitResult}
use os_training.Process.Children.{listed, adopted, any_zombie, move_children-adopted}
use os_training.Process.Exit.{woken, exit_end-Queues}
use os_training.Process.Missed.{wait_block-misses}
use os_training.Process.Share.{uses, copy_files-shares}
use os_training.Examples.Tasks.{manager, manager-Queues}
use os_training.Examples.Open.{table}

-- 5 is a child of `parent`, and 9 a zombie child of 5.
abbrev family : (parent : ℕ) → Manager
family parent = record manager {
  tasks = λ a. record (manager.tasks a) {
    parent = if a == 5 then parent else if a == 9 then 5 else 0;
    state =
        if a == 12
        then waiting
        else if a == 13
        then waiting
        else if a == 9
        then zombie
        else running;
  };
}

family-Queues : (parent : ℕ) → Queues (family parent) (5 ∷ 7 ∷ []) (9 ∷ 11 ∷ [])
family-Queues parent = record {
  ready = manager-Queues.ready;
  asleep = manager-Queues.asleep;
  apart = manager-Queues.apart;
  idle_ready = manager-Queues.idle_ready;
  idle_asleep = manager-Queues.idle_asleep;
}

abbrev task_table : List ℕ
task_table = 5 ∷ 7 ∷ 9 ∷ 11 ∷ []

-- The memory counts what is given back.
abbrev user_memory : UserMemory ℕ
user_memory = record {
  memory_destroy_uvm = λ page_dir m. m + 1;
  memory_free_page = λ addr m. m + 1;
}

wait_scan-WaitResult_example :
    WaitResult user_memory (family 7) 0 task_table (wait_scan user_memory (family 7) 0 task_table)
wait_scan-WaitResult_example = wait_scan-WaitResult user_memory (family 7) 0 task_table (
  λ e. omega (arith, e),
  (λ e. omega (arith, e), (λ e. omega (arith, e), (λ e. omega (arith, e), tt))),
)

move_children-adopted_example :
    let (s', moved) = move_children (family 7) 5 13 task_table false in
    ((a : ℕ)
      → s'.tasks a
        ≡ (if listed a task_table then adopted 13 5 ((family 7).tasks a) else (family 7).tasks a))
    × ((a : ℕ) → listed a task_table ≡ true → (s'.tasks a).parent ≢ 5)
    × (moved ≡ any_zombie (family 7) 5 task_table)
move_children-adopted_example =
    move_children-adopted 5 13 (λ e. omega (arith, e)) (family 7) task_table

-- A task that is in no queue.
loose :
    (t : ℕ)
    → t ≢ 0
    → t ≢ 100
    → t ≢ 5
    → t ≢ 7
    → t ≢ 9
    → t ≢ 11
    → Loose (family 12) t (5 ∷ 7 ∷ []) (9 ∷ 11 ∷ [])
loose t a b c d e f = (a, b, (c, (d, tt)), (e, (f, tt)))

exit_end-Queues_example :
    let s' = exit_end (family 12) 13 true (pos 3) in
    let rs = (7 ∷ []) ++ woken (family 12) 13 true in
    Queues s' rs (9 ∷ 11 ∷ [])
    × (s'.curr_task ≡ next_of 100 rs)
    × NotIn 5 rs
    × NotIn 5 (9 ∷ 11 ∷ [])
    × ((s'.tasks 5).state ≡ zombie)
    × ((s'.tasks 5).status ≡ pos 3)
exit_end-Queues_example =
    exit_end-Queues (family 12) 13 true (pos 3) (7 ∷ []) (9 ∷ 11 ∷ []) (family-Queues 12)
      (λ w.
        loose 13 (λ e. omega (arith, e)) (λ e. omega (arith, e)) (λ e. omega (arith, e))
          (λ e. omega (arith, e)) (λ e. omega (arith, e)) (λ e. omega (arith, e)))
      (λ w.
        loose 12 (λ e. omega (arith, e)) (λ e. omega (arith, e)) (λ e. omega (arith, e))
          (λ e. omega (arith, e)) (λ e. omega (arith, e)) (λ e. omega (arith, e)))

wait_block-misses_example :
    let s' = wait_block (exit_end (family 7) 13 false (pos 3)) 7 in
    ((exit_end (family 7) 13 false (pos 3)).curr_task ≡ 7)
    × Queues s' [] (9 ∷ 11 ∷ [])
    × NotIn 7 []
    × NotIn 7 (9 ∷ 11 ∷ [])
    × ((s'.tasks 7).state ≡ waiting)
    × (find_zombie s' 7 task_table ≢ null)
wait_block-misses_example =
    wait_block-misses (family 7) 13 7 (pos 3) [] (9 ∷ 11 ∷ []) task_table (family-Queues 7) refl
      refl
      (
        λ e. omega (arith, e),
        (λ e. omega (arith, e), (λ e. omega (arith, e), (λ e. omega (arith, e), tt))),
      )
      refl

-- Two descriptors of file 0, and one that is free.
copy_files-shares_example :
    let (child, files') = copy_files (1 ∷ 0 ∷ 1 ∷ []) (replicate 3 null) table in
    (child ≡ 1 ∷ 0 ∷ 1 ∷ [])
    × ((i n : ℕ)
        → (entry table i).ref ≡ pos n
        → (entry files' i).ref ≡ pos (n + uses (address i) (1 ∷ 0 ∷ 1 ∷ [])))
copy_files-shares_example =
    copy_files-shares (1 ∷ 0 ∷ 1 ∷ []) table
      (λ ne. omega arith, (λ ne. omega arith, (λ ne. omega arith, tt)))
