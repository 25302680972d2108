-- ===== src/Sched/Sleep.antt =====
-- `sys_msleep`: from the ready queue to the sleep queue, for the number of clock ticks that the
-- milliseconds ask for.
use os_training.Base.{ℕ, ◌+◌, ◌*◌, ◌^◌, ◌≤◌, ◌<◌, ◌≡◌, pos, List, [], ◌∷◌, ◌++◌, arith, ap, ◌∙◌}
use os_training.LinkedList.Chain.{NotIn}
use os_training.Sched.{
  Manager, task_set_block, task_set_sleep, task_dispatch, sys_msleep, ticks_of_ms,
}
use os_training.Sched.Queues.{
  Queues, next_of, task_set_block-Queues, task_set_sleep-Queues, task_dispatch-Queues,
  set_block-kept, task_dispatch-sleep_ticks, set_sleep-kept,
}

-- The ticks are the least number from 1 up whose ticks of 10 ms are as long as `ms`, as long as
-- adding 9 to the milliseconds does not wrap.
ticks_of_ms_lem :
    (ms : ℕ)
    → ms + 9 < 2 ^ 32
    → (1 ≤ ticks_of_ms ms)
      × (ms ≤ ticks_of_ms ms * 10)
      × ((u : ℕ) → 1 ≤ u → ms ≤ u * 10 → ticks_of_ms ms ≤ u)
unfolding ticks_of_ms
ticks_of_ms_lem ms h = (ground arith, ground arith, λ u some_tick enough. ground arith)

-- Above that bound the sum wraps, and the ticks are 0.
ticks_of_ms-wraps : (ms : ℕ) → ms < 2 ^ 32 → 2 ^ 32 ≤ ms + 9 → ticks_of_ms ms ≡ 0
unfolding ticks_of_ms
ticks_of_ms-wraps ms h w = ground arith

sys_msleep-eq :
    (s : Manager) (x ms : ℕ)
    → s.curr_task ≡ x
    → sys_msleep s ms ≡ task_dispatch (task_set_sleep (task_set_block s x) x (ticks_of_ms ms))
unfolding sys_msleep
sys_msleep-eq s x ms here =
    ap (λ c. task_dispatch (task_set_sleep (task_set_block s c) c (ticks_of_ms ms))) here

module _ (s : Manager) (x ms : ℕ) (rest ss : List ℕ) (q : Queues s (x ∷ rest) ss)
    (here : s.curr_task ≡ x) where
  -- When `x` runs at the head of the ready queue and rounding `ms` up to ticks does not wrap,
  -- `sys_msleep` moves `x` from the ready queue to the end of the sleep queue with the ticks that
  -- `ms` asks for, and runs the next ready task, or the idle task. The ticks are the least number
  -- from 1 up of ticks of 10 ms that is no shorter than `ms`.
  pub sys_msleep-Queues :
      ms + 9 < 2 ^ 32
      → Queues (sys_msleep s ms) rest (ss ++ x ∷ [])
        × ((sys_msleep s ms).curr_task ≡ next_of s.idle_task rest)
        × (t : ℕ) × (((sys_msleep s ms).tasks x).sleep_ticks ≡ pos t)
        × (1 ≤ t)
        × (ms ≤ t * 10)
        × ((u : ℕ) → 1 ≤ u → ms ≤ u * 10 → t ≤ u)
  sys_msleep-Queues small =
      let b = task_set_block-Queues s [] x rest ss q in
      let s1 = task_set_block s x in
      let idle : s1.idle_task ≡ s.idle_task = (set_block-kept s x).1 in
      let t = ticks_of_ms_lem ms small in
      let r =
        task_set_sleep-Queues s1 rest ss x (ticks_of_ms ms) b.1.0 (λ e. b.1.1 (e ∙ idle)) b.1.2
          b.1.3 (omega (arith, t.0)) b.0 in
      let s2 = task_set_sleep s1 x (ticks_of_ms ms) in
      let d = task_dispatch-Queues s2 rest (ss ++ x ∷ []) r in
      let k = set_sleep-kept s1 x (ticks_of_ms ms) (omega (arith, t.0)) in
      rw (sys_msleep-eq s x ms here) (
        d.0,
        d.1 ∙ ap (λ i. next_of i rest) (k.0 ∙ idle),
        ticks_of_ms ms,
        task_dispatch-sleep_ticks s2 x ∙ k.1,
        t.0,
        t.1,
        t.2,
      )

  -- When `x` runs at the head of the ready queue and the time is so long that rounding it up
  -- wraps, `sys_msleep` takes the task out of the ready queue and puts it into no queue.
  pub sys_msleep-lost :
      ms < 2 ^ 32 → 2 ^ 32 ≤ ms + 9 → Queues (sys_msleep s ms) rest ss × NotIn x rest × NotIn x ss
  unfolding task_set_sleep
  sys_msleep-lost small wraps =
      let b = task_set_block-Queues s [] x rest ss q in
      let d = task_dispatch-Queues (task_set_block s x) rest ss b.0 in
      rw (sys_msleep-eq s x ms here, ticks_of_ms-wraps ms small wraps) (d.0, b.1.2, b.1.3)
