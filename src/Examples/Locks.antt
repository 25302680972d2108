-- ===== src/Examples/Locks.antt =====
-- The tasks of Examples.Tasks with a third one, 20, that waits for a semaphore or for a mutex.
use os_training.Base.{ℕ, refl, pos, List, [], ◌∷◌, arith, inr}
use os_training.LinkedList.{ListHead}
use os_training.Ipc.{Kernel, Sem, Mutex, sem_wait, sem_notify, mutex_lock, mutex_unlock}
use os_training.Ipc.Waiters.{Waiting}
use os_training.Ipc.Refinement.{AtSem, sem_wait-refines, sem_notify-refines}
use os_training.Ipc.LockRefinement.{AtLock, held, mutex_lock-refines, mutex_unlock-refines}
use os_training.Examples.Tasks.{manager, manager-Queues}

abbrev pub kernel : Kernel
kernel = record { sched = manager; wait_nodes = λ a. record { pre = 0; next = 0 } }

abbrev pub waiter : ListHead
waiter = record { first = 20; last = 20; count = pos 1 }

abbrev pub ready : List ℕ
ready = 5 ∷ 7 ∷ []

abbrev pub asleep : List ℕ
asleep = 9 ∷ 11 ∷ []

pub kernel-Waiting : Waiting kernel waiter ready asleep (20 ∷ [])
kernel-Waiting = record {
  queues = manager-Queues;
  waiters = record {
    distinct = (tt, tt);
    chain = (refl, λ e. omega (arith, e), refl, (refl, refl));
    counted = refl;
  };
  not_ready = ((λ e. omega (arith, e), (λ e. omega (arith, e), tt)), tt);
  not_asleep = ((λ e. omega (arith, e), (λ e. omega (arith, e), tt)), tt);
  not_idle = (λ e. omega (arith, e), tt);
}

abbrev pub sem : Sem
sem = record { count = pos 0; wait_list = waiter }

pub sem-AtSem : AtSem 100 kernel sem asleep (record { ready = ready; waiters = 20 ∷ []; units = 0 })
sem-AtSem = record {
  sem = record { waiting = kernel-Waiting; counted = refl; none_left = inr refl };
  runs = refl;
  idles = refl;
}

-- Task 5 waits behind task 20.
sem_wait-refines_example :
    AtSem 100
      (sem_wait kernel sem).0
      (sem_wait kernel sem).1
      asleep
      (record { ready = 7 ∷ []; waiters = 20 ∷ 5 ∷ []; units = 0 })
sem_wait-refines_example = sem_wait-refines 100 kernel sem asleep 5 (7 ∷ []) (20 ∷ []) 0 sem-AtSem

-- Task 20 becomes ready behind the others.
sem_notify-refines_example :
    AtSem 100
      (sem_notify kernel sem).0
      (sem_notify kernel sem).1
      asleep
      (record { ready = 5 ∷ 7 ∷ 20 ∷ []; waiters = []; units = 0 })
sem_notify-refines_example = sem_notify-refines 100 kernel sem asleep ready (20 ∷ []) 0 sem-AtSem

abbrev mutex_of : (owner : ℕ) → Mutex
mutex_of owner = record { owner = owner; locked_count = pos 1; wait_list = waiter }

-- Task 30 holds the mutex, and task 5 waits behind task 20.
mutex_lock-refines_example :
    AtLock 100
      (mutex_lock kernel (mutex_of 30)).0
      (mutex_lock kernel (mutex_of 30)).1
      asleep
      (record { ready = 7 ∷ []; lock = held 30 0 (20 ∷ 5 ∷ []) })
mutex_lock-refines_example =
    mutex_lock-refines 100 kernel (mutex_of 30) asleep 5 (7 ∷ []) (held 30 0 (20 ∷ []))
      (λ e. omega (arith, e))
      (record {
        lock = record {
          waiting = kernel-Waiting;
          owner = refl;
          real = λ e. omega (arith, e);
          count = refl;
          outside = (λ e. omega (arith, e), tt);
        };
        runs = refl;
        idles = refl;
      })

-- Task 5 hands the mutex to task 20.
mutex_unlock-refines_example :
    AtLock 100
      (mutex_unlock kernel (mutex_of 5)).0
      (mutex_unlock kernel (mutex_of 5)).1
      asleep
      (record { ready = 5 ∷ 7 ∷ 20 ∷ []; lock = held 20 0 [] })
mutex_unlock-refines_example =
    mutex_unlock-refines 100 kernel (mutex_of 5) asleep 5 (7 ∷ []) (held 5 0 (20 ∷ []))
      (λ e. omega (arith, e))
      (record {
        lock = record {
          waiting = kernel-Waiting;
          owner = refl;
          real = λ e. omega (arith, e);
          count = refl;
          outside = (λ e. omega (arith, e), tt);
        };
        runs = refl;
        idles = refl;
      })
