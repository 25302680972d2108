-- ===== src/Ipc/Refinement.antt =====
-- The semaphore as a client sees it, and the code's operations against that view.
use os_training.Base.{ℕ, zero, suc, ◌≡◌, List, [], ◌∷◌, ◌++◌, arith, ap, ◌∙◌}
use os_training.LinkedList.{ListHead, list_remove_first}
use os_training.Sched.{Manager, task_set_block, task_dispatch}
use os_training.Sched.Queues.{next_of, set_block-kept, set_ready-kept}
use os_training.Ipc.{Kernel, Sem, wait_on, wake_first, sem_wait, sem_notify}
use os_training.Ipc.Semaphore.{
  IsSem, sem_wait-takes, sem_wait-blocks, sem_notify-counts, sem_notify-wakes,
}

-- A semaphore with the ready queue: the units that are left, and the tasks that wait.
pub record SemView : Type 0 where
  pub ready : List ℕ
  pub waiters : List ℕ
  pub units : ℕ

-- The running task `x`, the first of the ready queue, takes a unit, or waits.
abbrev pub wait_view : (x : ℕ) → (rest ws : List ℕ) → ℕ → SemView
wait_view x rest ws zero = record { ready = rest; waiters = ws ++ x ∷ []; units = 0 }
wait_view x rest ws (suc n) = record { ready = x ∷ rest; waiters = ws; units = n }

-- A unit goes to the first waiter, or is counted.
abbrev pub notify_view : (rs ws : List ℕ) → ℕ → SemView
notify_view rs [] n = record { ready = rs; waiters = []; units = suc n }
notify_view rs (t ∷ ws) n = record { ready = rs ++ t ∷ []; waiters = ws; units = n }

-- No operation changes which task is the idle task.
pub dispatch-idle : (s : Manager) → (task_dispatch s).idle_task ≡ s.idle_task
unfolding task_dispatch
dispatch-idle s = ground arith

pub wait_on-idle :
    (k : Kernel) (l : ListHead) (c : ℕ) → (wait_on k l c).0.sched.idle_task ≡ k.sched.idle_task
unfolding wait_on
wait_on-idle k l c = dispatch-idle (task_set_block k.sched c) ∙ (set_block-kept k.sched c).1

pub wake_first-idle :
    (k : Kernel) (l : ListHead) → (wake_first k l).1.sched.idle_task ≡ k.sched.idle_task
unfolding wake_first
wake_first-idle k l = (set_ready-kept k.sched (list_remove_first k.wait_nodes l).0).1

sem_wait-idle : (k : Kernel) (s : Sem) → (sem_wait k s).0.sched.idle_task ≡ k.sched.idle_task
unfolding sem_wait
sem_wait-idle k s = ground (arith, wait_on-idle k s.wait_list k.sched.curr_task)

sem_notify-idle : (k : Kernel) (s : Sem) → (sem_notify k s).0.sched.idle_task ≡ k.sched.idle_task
unfolding sem_notify
sem_notify-idle k s =
    let woken = (wake_first k s.wait_list).1 in
    ground (arith, dispatch-idle woken.sched, wake_first-idle k s.wait_list)

-- The code's semaphore is at the view `v`; the first ready task runs, or the idle task `idle`.
pub record AtSem (idle : ℕ) (k : Kernel) (s : Sem) (ss : List ℕ) (v : SemView) : Type 0 where
  pub sem : IsSem k s v.ready ss v.waiters v.units
  pub runs : k.sched.curr_task ≡ next_of idle v.ready
  pub idles : k.sched.idle_task ≡ idle

-- The running task is the head of the ready queue.
pub runs_on : {k k' : Kernel} {x : ℕ} → k' ≡ k → k.sched.curr_task ≡ x → k'.sched.curr_task ≡ x
runs_on e here = ap (λ a. a.sched.curr_task) e ∙ here

module _ (idle : ℕ) (k : Kernel) (s : Sem) (ss : List ℕ) where
  -- For a running task that is the head of the ready queue, `sem_wait` implements its abstract
  -- step: with a unit left the task takes it and runs on; otherwise it leaves the ready queue for
  -- the end of the waiters, and the next ready task runs, or the idle task.
  pub sem_wait-refines :
      (x : ℕ) (rest ws : List ℕ) (n : ℕ)
      → AtSem idle k s ss (record { ready = x ∷ rest; waiters = ws; units = n })
      → AtSem idle (sem_wait k s).0 (sem_wait k s).1 ss (wait_view x rest ws n)
  sem_wait-refines x rest ws zero is =
      let r = sem_wait-blocks k s x rest ss ws is.sem is.runs in
      record {
        sem = r.0;
        runs = r.1 ∙ ap (λ i. next_of i rest) is.idles;
        idles = sem_wait-idle k s ∙ is.idles;
      }
  sem_wait-refines x rest ws (suc n) is =
      let r = sem_wait-takes k s (x ∷ rest) ss ws n is.sem in
      record { sem = r.1; runs = runs_on r.0 is.runs; idles = sem_wait-idle k s ∙ is.idles }

  -- `sem_notify` implements its abstract step: the unit goes to the first waiter, which becomes
  -- the last ready task, and is counted only if nobody waits; the first ready task runs, or the
  -- idle task.
  pub sem_notify-refines :
      (rs ws : List ℕ) (n : ℕ)
      → AtSem idle k s ss (record { ready = rs; waiters = ws; units = n })
      → AtSem idle (sem_notify k s).0 (sem_notify k s).1 ss (notify_view rs ws n)
  sem_notify-refines rs [] n is =
      let r = sem_notify-counts k s rs ss n is.sem in
      record { sem = r.1; runs = runs_on r.0 is.runs; idles = sem_notify-idle k s ∙ is.idles }
  sem_notify-refines rs (t ∷ ws) n is =
      let r = sem_notify-wakes k s t rs ss ws n is.sem in
      record {
        sem = r.0;
        runs = r.1 ∙ ap (λ i. next_of i (rs ++ t ∷ [])) is.idles;
        idles = sem_notify-idle k s ∙ is.idles;
      }
