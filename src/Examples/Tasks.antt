-- ===== src/Examples/Tasks.antt =====
-- Two ready tasks, 5 and 7, of which 5 runs, the sleepers 9 and 11, and the idle task 100.
use os_training.Base.{ℕ, ◌*◌, ◌≤◌, ◌==◌, ◌≡◌, refl, pos, [], ◌∷◌, if◌then◌else◌, arith}
use os_training.LinkedList.{Nodes, ListNode}
use os_training.Sched.{Manager, Task, running, sys_msleep, task_time_tick}
use os_training.Sched.Queues.{Queues}
use os_training.Sched.Sleep.{sys_msleep-Queues}
use os_training.Sched.Tick.{TickResult, task_time_tick-TickResult}

abbrev node : ℕ → ℕ → ListNode
node p n = record { pre = p; next = n }

abbrev run_nodes : Nodes
run_nodes a =
    if a == 5
    then node 0 7
    else if a == 7
    then node 5 0
    else if a == 9
    then node 0 11
    else if a == 11
    then node 9 0
    else node 0 0

-- Task 9 has one tick left to sleep, task 11 has three, and the slice of any task is over.
abbrev task_at : ℕ → Task
task_at a = record {
  state = running;
  name = 116 ∷ [];
  pid = a;
  parent = 0;
  heap_start = 0;
  heap_end = 0;
  sleep_ticks = pos (if a == 9 then 1 else if a == 11 then 3 else 0);
  time_ticks = pos 10;
  slice_ticks = pos 1;
  status = pos 0;
  file_table = [];
  cr3 = 0;
  esp0 = 0;
  tss_sel = 0;
}

abbrev pub manager : Manager
manager = record {
  curr_task = 5;
  idle_task = 100;
  ready_list = record { first = 5; last = 7; count = pos 2 };
  sleep_list = record { first = 9; last = 11; count = pos 2 };
  run_nodes = run_nodes;
  tasks = task_at;
}

pub manager-Queues : Queues manager (5 ∷ 7 ∷ []) (9 ∷ 11 ∷ [])
manager-Queues = record {
  ready = record {
    distinct = ((λ e. omega (arith, e), tt), (tt, tt));
    chain = (refl, λ e. omega (arith, e), refl, (refl, λ e. omega (arith, e), refl, (refl, refl)));
    counted = refl;
  };
  asleep = record {
    distinct = ((λ e. omega (arith, e), tt), (tt, tt));
    chain = (refl, λ e. omega (arith, e), refl, (refl, λ e. omega (arith, e), refl, (refl, refl)));
    counted = refl;
  };
  apart = (
    (λ e. omega (arith, e), (λ e. omega (arith, e), tt)),
    ((λ e. omega (arith, e), (λ e. omega (arith, e), tt)), tt),
  );
  idle_ready = (λ e. omega (arith, e), (λ e. omega (arith, e), tt));
  idle_asleep = (λ e. omega (arith, e), (λ e. omega (arith, e), tt));
}

task_time_tick-TickResult_example :
    TickResult manager (5 ∷ 7 ∷ []) (9 ∷ 11 ∷ []) (task_time_tick manager)
task_time_tick-TickResult_example =
    task_time_tick-TickResult manager (5 ∷ 7 ∷ []) (9 ∷ 11 ∷ []) manager-Queues refl

sys_msleep-Queues_example :
    Queues (sys_msleep manager 25) (7 ∷ []) (9 ∷ 11 ∷ 5 ∷ [])
    × ((sys_msleep manager 25).curr_task ≡ 7)
    × (t : ℕ) × (((sys_msleep manager 25).tasks 5).sleep_ticks ≡ pos t)
    × (1 ≤ t)
    × (25 ≤ t * 10)
    × ((u : ℕ) → 1 ≤ u → 25 ≤ u * 10 → t ≤ u)
sys_msleep-Queues_example =
    sys_msleep-Queues manager 5 25 (7 ∷ []) (9 ∷ 11 ∷ []) manager-Queues refl (omega arith)
