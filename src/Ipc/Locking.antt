-- ===== src/Ipc/Locking.antt =====
-- `mutex_lock` and `mutex_unlock`: the owner, its depth, the waiters, and who runs.
use os_training.Base.{
  ℕ, suc, ◌≡◌, ◌≢◌, refl, true, false, is_zero, pos, dec, inc, List, [], ◌∷◌, ◌++◌, arith, ap, sym,
  ◌==◌,
}
use mathlib.Core.Path.{subst}
use os_training.LinkedList.{null}
use os_training.LinkedList.Chain.{NotIn, NotIn-append_intro}
use os_training.Sched.Queues.{next_of}
use os_training.Ipc.{Kernel, Mutex, wait_on, mutex_lock, mutex_unlock}
use os_training.Ipc.Waiters.{Waiting, wait_on-Waiting, wake_first-Waiting}

-- The mutex is free.
pub record IsFree (k : Kernel) (m : Mutex) (rs ss : List ℕ) : Type 0 where
  pub waiting : Waiting k m.wait_list rs ss []
  pub owner : m.owner ≡ null
  pub count : m.locked_count ≡ pos 0

-- The task `o` holds the mutex `suc d` times, and `ws` wait for it; `o` is none of them.
pub record IsHeld (k : Kernel) (m : Mutex) (rs ss : List ℕ) (o d : ℕ) (ws : List ℕ) : Type 0 where
  pub waiting : Waiting k m.wait_list rs ss ws
  pub owner : m.owner ≡ o
  pub real : o ≢ null
  pub count : m.locked_count ≡ pos (suc d)
  pub outside : NotIn o ws

module _ (k : Kernel) (m : Mutex) (x : ℕ) (here : k.sched.curr_task ≡ x) where
  -- A free mutex is taken by the running task `x`.
  pub mutex_lock-free :
      (rs ss : List ℕ)
      → x ≢ null
      → IsFree k m rs ss
      → let (k', m') = mutex_lock k m in (k' ≡ k) × IsHeld k' m' rs ss x 0 []
  unfolding mutex_lock
  mutex_lock-free rs ss ne is =
      let test : is_zero m.locked_count ≡ true = ap is_zero is.count in
      rw test
        (refl, record { waiting = is.waiting; owner = here; real = ne; count = refl; outside = tt })

  -- The owner takes it once more.
  pub mutex_lock-owner :
      (rs ss ws : List ℕ) (d : ℕ)
      → IsHeld k m rs ss x d ws
      → let (k', m') = mutex_lock k m in (k' ≡ k) × IsHeld k' m' rs ss x (suc d) ws
  unfolding mutex_lock
  mutex_lock-owner rs ss ws d is =
      let test : is_zero m.locked_count ≡ false = ap is_zero is.count in
      let mine : (m.owner == k.sched.curr_task) ≡ true = ground (arith, is.owner) in
      rw (test, mine)
        (
          refl,
          record {
            waiting = is.waiting;
            owner = is.owner;
            real = is.real;
            count = ap inc is.count;
            outside = is.outside;
          },
        )

  -- Another task waits behind the other waiters; the owner keeps the mutex.
  pub mutex_lock-waits :
      (rest ss ws : List ℕ) (o d : ℕ)
      → o ≢ x
      → IsHeld k m (x ∷ rest) ss o d ws
      → let (k', m') = mutex_lock k m in
        IsHeld k' m' rest ss o d (ws ++ x ∷ [])
        × (k'.sched.curr_task ≡ next_of k.sched.idle_task rest)
  unfolding mutex_lock
  mutex_lock-waits rest ss ws o d ne is =
      let test : is_zero m.locked_count ≡ false = ap is_zero is.count in
      let other : (m.owner == k.sched.curr_task) ≡ false = ground (arith, is.owner) in
      let w = wait_on-Waiting k m.wait_list x rest ss ws is.waiting in
      rw (test, other)
        (subst
          (λ c.
            let (k', l') = wait_on k m.wait_list c in
            IsHeld k' (record m { wait_list = l' }) rest ss o d (ws ++ x ∷ [])
            × (k'.sched.curr_task ≡ next_of k.sched.idle_task rest))
          (sym here)
          (
            record {
              waiting = w.0;
              owner = is.owner;
              real = is.real;
              count = is.count;
              outside = NotIn-append_intro o ws (x ∷ []) is.outside (ne, tt);
            },
            w.1,
          ))

  -- A task that does not own the mutex changes nothing by `mutex_unlock`.
  pub mutex_unlock-other : m.owner ≢ x → mutex_unlock k m ≡ (k, m)
  unfolding mutex_unlock
  mutex_unlock-other ne =
      let other : (m.owner == k.sched.curr_task) ≡ false = ground arith in rw other

  -- The owner of a mutex held more than once gives back one level.
  pub mutex_unlock-nested :
      (rs ss ws : List ℕ) (d : ℕ)
      → IsHeld k m rs ss x (suc d) ws
      → let (k', m') = mutex_unlock k m in (k' ≡ k) × IsHeld k' m' rs ss x d ws
  unfolding mutex_unlock
  mutex_unlock-nested rs ss ws d is =
      let mine : (m.owner == k.sched.curr_task) ≡ true = ground (arith, is.owner) in
      let left : is_zero (dec m.locked_count) ≡ false = ap (λ n. is_zero (dec n)) is.count in
      rw (mine, left)
        (
          refl,
          record {
            waiting = is.waiting;
            owner = is.owner;
            real = is.real;
            count = ap dec is.count;
            outside = is.outside;
          },
        )

  -- With nobody waiting the last level frees the mutex.
  pub mutex_unlock-frees :
      (rs ss : List ℕ)
      → IsHeld k m rs ss x 0 []
      → let (k', m') = mutex_unlock k m in (k' ≡ k) × IsFree k' m' rs ss
  unfolding mutex_unlock
  mutex_unlock-frees rs ss is =
      let mine : (m.owner == k.sched.curr_task) ≡ true = ground (arith, is.owner) in
      let left : is_zero (dec m.locked_count) ≡ true = ap (λ n. is_zero (dec n)) is.count in
      let nobody : is_zero m.wait_list.count ≡ true = ap is_zero is.waiting.waiters.counted in
      rw (mine, left, nobody)
        (refl, record { waiting = is.waiting; owner = refl; count = ap dec is.count })

  -- With waiters it hands the mutex to the first one, `t`, before any other task can take it.
  pub mutex_unlock-hands_over :
      (t : ℕ) (rs ss ws : List ℕ)
      → IsHeld k m rs ss x 0 (t ∷ ws)
      → let (k', m') = mutex_unlock k m in
        IsHeld k' m' (rs ++ t ∷ []) ss t 0 ws
        × (k'.sched.curr_task ≡ next_of k.sched.idle_task (rs ++ t ∷ []))
  unfolding mutex_unlock
  mutex_unlock-hands_over t rs ss ws is =
      let mine : (m.owner == k.sched.curr_task) ≡ true = ground (arith, is.owner) in
      let left : is_zero (dec m.locked_count) ≡ true = ap (λ n. is_zero (dec n)) is.count in
      let some_wait : is_zero m.wait_list.count ≡ false = ap is_zero is.waiting.waiters.counted in
      let w = wake_first-Waiting k m.wait_list t rs ss ws is.waiting in
      rw (mine, left, some_wait)
        (
          record {
            waiting = w.1;
            owner = w.0;
            real = is.waiting.waiters.chain.1;
            count = refl;
            outside = is.waiting.waiters.distinct.0;
          },
          w.2,
        )
