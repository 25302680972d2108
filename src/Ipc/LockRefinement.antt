-- ===== src/Ipc/LockRefinement.antt =====
-- The mutex as a client sees it, and the code's operations against that view.
use os_training.Base.{
  ℕ, zero, suc, ◌≡◌, ◌≢◌, List, [], ◌∷◌, ◌++◌, arith, ap, sym, ◌∙◌, ◌==◌, if◌then◌else◌, Bool-cases,
  inl, inr, ==_iff,
}
use mathlib.Core.Path.{subst}
use os_training.LinkedList.{null}
use os_training.Sched.Queues.{next_of}
use os_training.Ipc.{Kernel, wake_first, Mutex, mutex_lock, mutex_unlock}
use os_training.Ipc.Locking.{
  IsFree, IsHeld, mutex_lock-free, mutex_lock-owner, mutex_lock-waits, mutex_unlock-other,
  mutex_unlock-nested, mutex_unlock-frees, mutex_unlock-hands_over,
}
use os_training.Ipc.Refinement.{dispatch-idle, wait_on-idle, wake_first-idle, runs_on}

mutex_lock-idle : (k : Kernel) (m : Mutex) → (mutex_lock k m).0.sched.idle_task ≡ k.sched.idle_task
unfolding mutex_lock
mutex_lock-idle k m = ground (arith, wait_on-idle k m.wait_list k.sched.curr_task)

mutex_unlock-idle :
    (k : Kernel) (m : Mutex) → (mutex_unlock k m).0.sched.idle_task ≡ k.sched.idle_task
unfolding mutex_unlock
mutex_unlock-idle k m =
    let woken = (wake_first k m.wait_list).1 in
    ground (arith, dispatch-idle woken.sched, wake_first-idle k m.wait_list)

-- A mutex: nobody has it, or `owner` has it `depth + 1` times and others wait, in this order.
pub data LockState : Type 0 where
  free : LockState
  held : (owner depth : ℕ) → (waiters : List ℕ) → LockState

-- A mutex with the ready queue.
pub record LockView : Type 0 where
  pub ready : List ℕ
  pub lock : LockState

-- The running task `x` takes the mutex, again or for the first time, or waits.
abbrev pub lock_view : (x : ℕ) → (rest : List ℕ) → LockState → LockView
lock_view x rest free = record { ready = x ∷ rest; lock = held x 0 [] }
lock_view x rest (held o d ws) =
    if o == x
    then record { ready = x ∷ rest; lock = held o (suc d) ws }
    else record { ready = rest; lock = held o d (ws ++ x ∷ []) }

-- The owner gives back one level; the last one goes to the first waiter.
abbrev pub give_back : (o : ℕ) → (rs : List ℕ) → ℕ → List ℕ → LockView
give_back o rs (suc d) ws = record { ready = rs; lock = held o d ws }
give_back o rs zero [] = record { ready = rs; lock = free }
give_back o rs zero (t ∷ ws) = record { ready = rs ++ t ∷ []; lock = held t 0 ws }

abbrev pub unlock_view : (x : ℕ) → (rs : List ℕ) → LockState → LockView
unlock_view x rs free = record { ready = rs; lock = free }
unlock_view x rs (held o d ws) =
    if o == x then give_back o rs d ws else record { ready = rs; lock = held o d ws }

-- The code's mutex is in the state given.
abbrev pub IsLock : Kernel → Mutex → (rs ss : List ℕ) → LockState → Type 0
IsLock k m rs ss free = IsFree k m rs ss
IsLock k m rs ss (held o d ws) = IsHeld k m rs ss o d ws

pub record AtLock (idle : ℕ) (k : Kernel) (m : Mutex) (ss : List ℕ) (v : LockView) : Type 0 where
  pub lock : IsLock k m v.ready ss v.lock
  pub runs : k.sched.curr_task ≡ next_of idle v.ready
  pub idles : k.sched.idle_task ≡ idle

module _ (idle : ℕ) (k : Kernel) (m : Mutex) (ss : List ℕ) (x : ℕ) (rest : List ℕ) where
  -- A step after which `x` runs on.
  runs_same :
      (v : LockState) (k' : Kernel) (m' : Mutex)
      → k' ≡ k
      → k.sched.curr_task ≡ x
      → k.sched.idle_task ≡ idle
      → IsLock k' m' (x ∷ rest) ss v
      → AtLock idle k' m' ss (record { ready = x ∷ rest; lock = v })
  runs_same v k' m' e here i l = record {
    lock = l;
    runs = runs_on e here;
    idles = ap (λ a. a.sched.idle_task) e ∙ i;
  }

  -- For a running task `x` that is the head of the ready queue and is not null, `mutex_lock`
  -- implements its abstract step: a free mutex is taken; the owner goes one level deeper; any
  -- other task leaves the ready queue for the end of the waiters, after which the next ready task
  -- runs.
  pub mutex_lock-refines :
      (v : LockState)
      → x ≢ null
      → AtLock idle k m ss (record { ready = x ∷ rest; lock = v })
      → AtLock idle (mutex_lock k m).0 (mutex_lock k m).1 ss (lock_view x rest v)
  mutex_lock-refines free ne is =
      let r = mutex_lock-free k m x is.runs (x ∷ rest) ss ne is.lock in
      runs_same (held x 0 []) (mutex_lock k m).0 (mutex_lock k m).1 r.0 is.runs is.idles r.1
  mutex_lock-refines (held o d ws) ne is = elim (Bool-cases (o == x)) [
    | inl mine ↦
        let e : o ≡ x = (==_iff o x).0 mine in
        let l : IsHeld k m (x ∷ rest) ss x d ws =
          subst (λ a. IsHeld k m (x ∷ rest) ss a d ws) e is.lock in
        let r = mutex_lock-owner k m x is.runs (x ∷ rest) ss ws d l in
        rw mine (
          subst
            (λ a.
              AtLock idle (mutex_lock k m).0 (mutex_lock k m).1 ss
                (record { ready = x ∷ rest; lock = held a (suc d) ws }))
            (sym e)
            (runs_same (held x (suc d) ws) (mutex_lock k m).0 (mutex_lock k m).1 r.0 is.runs
              is.idles r.1))
    | inr other ↦
        let ox : o ≢ x = ground arith in
        let r = mutex_lock-waits k m x is.runs rest ss ws o d ox is.lock in
        rw other (record {
          lock = r.0;
          runs = r.1 ∙ ap (λ i. next_of i rest) is.idles;
          idles = mutex_lock-idle k m ∙ is.idles;
        })
  ]

  -- What the owner's `mutex_unlock` leaves.
  owner_gives_back :
      (d : ℕ) (ws : List ℕ)
      → AtLock idle k m ss (record { ready = x ∷ rest; lock = held x d ws })
      → AtLock idle (mutex_unlock k m).0 (mutex_unlock k m).1 ss (give_back x (x ∷ rest) d ws)
  owner_gives_back (suc d) ws is =
      let r = mutex_unlock-nested k m x is.runs (x ∷ rest) ss ws d is.lock in
      runs_same (held x d ws) (mutex_unlock k m).0 (mutex_unlock k m).1 r.0 is.runs is.idles r.1
  owner_gives_back zero [] is =
      let r = mutex_unlock-frees k m x is.runs (x ∷ rest) ss is.lock in
      runs_same free (mutex_unlock k m).0 (mutex_unlock k m).1 r.0 is.runs is.idles r.1
  owner_gives_back zero (t ∷ ws) is =
      let r = mutex_unlock-hands_over k m x is.runs t (x ∷ rest) ss ws is.lock in
      record { lock = r.0; runs = r.1; idles = mutex_unlock-idle k m ∙ is.idles }

  -- For a running task `x` that is the head of the ready queue and is not null, `mutex_unlock`
  -- implements its abstract step: only the owner changes the mutex; it gives back one level, and
  -- the last level goes to the first waiter, which becomes the last ready task, or frees the mutex
  -- if nobody waits. The first ready task runs.
  pub mutex_unlock-refines :
      (v : LockState)
      → x ≢ null
      → AtLock idle k m ss (record { ready = x ∷ rest; lock = v })
      → AtLock idle (mutex_unlock k m).0 (mutex_unlock k m).1 ss (unlock_view x (x ∷ rest) v)
  mutex_unlock-refines free ne is =
      rw (mutex_unlock-other k m x is.runs (λ e. ne (sym e ∙ is.lock.owner))) is
  mutex_unlock-refines (held o d ws) ne is = elim (Bool-cases (o == x)) [
    | inl mine ↦
        let e : o ≡ x = (==_iff o x).0 mine in
        let is' : AtLock idle k m ss (record { ready = x ∷ rest; lock = held x d ws }) =
          subst (λ a. AtLock idle k m ss (record { ready = x ∷ rest; lock = held a d ws })) e is in
        rw mine (
          subst
            (λ a.
              AtLock idle (mutex_unlock k m).0 (mutex_unlock k m).1 ss
                (give_back a (x ∷ rest) d ws))
            (sym e) (owner_gives_back d ws is'))
    | inr other ↦
        let ox : m.owner ≢ x = ground (arith, is.lock.owner) in
        rw (other, mutex_unlock-other k m x is.runs ox) is
  ]
