-- ===== src/Ipc/Semaphore.antt =====
-- `sem_wait` and `sem_notify`: the count, the waiters, and who runs.
use os_training.Base.{
  ℕ, suc, ◌≡◌, refl, ◌⊎◌, inl, inr, true, false, is_pos, is_zero, pos, dec, inc, List, [], ◌∷◌,
  ◌++◌, arith, ap, sym,
}
use mathlib.Core.Path.{subst}
use os_training.Sched.Queues.{next_of}
use os_training.Ipc.{Kernel, Sem, wait_on, sem_wait, sem_notify}
use os_training.Ipc.Waiters.{Waiting, wait_on-Waiting, wake_first-Waiting}

-- The semaphore has `n` units left and the waiters `ws`; nobody waits while units are left.
pub record IsSem (k : Kernel) (s : Sem) (rs ss ws : List ℕ) (n : ℕ) : Type 0 where
  pub waiting : Waiting k s.wait_list rs ss ws
  pub counted : s.count ≡ pos n
  pub none_left : (ws ≡ []) ⊎ (n ≡ 0)

module _ (k : Kernel) (s : Sem) where
  -- With a unit left `sem_wait` takes it, and the task runs on.
  pub sem_wait-takes :
      (rs ss ws : List ℕ) (n : ℕ)
      → IsSem k s rs ss ws (suc n)
      → let (k', s') = sem_wait k s in (k' ≡ k) × IsSem k' s' rs ss ws n
  unfolding sem_wait
  sem_wait-takes rs ss ws n is =
      let test : is_pos s.count ≡ true = ap is_pos is.counted in
      let less : dec s.count ≡ pos n = ap dec is.counted in
      let nobody : ws ≡ [] = only is.none_left in
      rw test (refl, record { waiting = is.waiting; counted = less; none_left = inl nobody })
    where
      only : (ws ≡ []) ⊎ (suc n ≡ 0) → ws ≡ []
      only (inl e) = e
      only (inr e) = absurd (omega arith)

  -- With none left the running task waits behind the other waiters, and the next task runs.
  pub sem_wait-blocks :
      (x : ℕ) (rest ss ws : List ℕ)
      → IsSem k s (x ∷ rest) ss ws 0
      → k.sched.curr_task ≡ x
      → let (k', s') = sem_wait k s in
        IsSem k' s' rest ss (ws ++ x ∷ []) 0 × (k'.sched.curr_task ≡ next_of k.sched.idle_task rest)
  unfolding sem_wait
  sem_wait-blocks x rest ss ws is here =
      let test : is_pos s.count ≡ false = ap is_pos is.counted in
      let w = wait_on-Waiting k s.wait_list x rest ss ws is.waiting in
      rw test (
        subst
          (λ c.
            let (k', l') = wait_on k s.wait_list c in
            IsSem k' (record s { wait_list = l' }) rest ss (ws ++ x ∷ []) 0
            × (k'.sched.curr_task ≡ next_of k.sched.idle_task rest))
          (sym here) (record { waiting = w.0; counted = is.counted; none_left = inr refl }, w.1))

  -- With nobody waiting `sem_notify` gives the unit back.
  pub sem_notify-counts :
      (rs ss : List ℕ) (n : ℕ)
      → IsSem k s rs ss [] n
      → let (k', s') = sem_notify k s in (k' ≡ k) × IsSem k' s' rs ss [] (suc n)
  unfolding sem_notify
  sem_notify-counts rs ss n is =
      let test : is_zero s.wait_list.count ≡ true = ap is_zero is.waiting.waiters.counted in
      rw test
        (refl, record { waiting = is.waiting; counted = ap inc is.counted; none_left = inl refl })

  -- With a waiter the unit goes to the first one, which becomes ready: no unit is counted.
  pub sem_notify-wakes :
      (t : ℕ) (rs ss ws : List ℕ) (n : ℕ)
      → IsSem k s rs ss (t ∷ ws) n
      → let (k', s') = sem_notify k s in
        IsSem k' s' (rs ++ t ∷ []) ss ws n
        × (k'.sched.curr_task ≡ next_of k.sched.idle_task (rs ++ t ∷ []))
  unfolding sem_notify
  sem_notify-wakes t rs ss ws n is =
      let test : is_zero s.wait_list.count ≡ false = ap is_zero is.waiting.waiters.counted in
      let w = wake_first-Waiting k s.wait_list t rs ss ws is.waiting in
      rw test
        (record { waiting = w.1; counted = is.counted; none_left = inr (empty is.none_left) }, w.2)
    where
      empty : ((t ∷ ws) ≡ []) ⊎ (n ≡ 0) → n ≡ 0
      empty (inl e) = cc
      empty (inr e) = e
