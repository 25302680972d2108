-- ===== src/Sched/Yield.antt =====
-- `sys_yield`: round robin.
use os_training.Base.{
  ℕ, suc, ◌≤◌, true, false, ◌≡◌, pos, List, [], ◌∷◌, ◌++◌, arith, length, ap, ◌∙◌,
}
use os_training.Sched.{Manager, above_one, task_set_ready, task_set_block, task_dispatch, sys_yield}
use os_training.Sched.Queues.{
  Queues, task_set_ready-Queues, task_set_block-Queues, task_dispatch-Queues, set_block-kept,
}

sys_yield-eq :
    (s : Manager) (x n : ℕ)
    → s.curr_task ≡ x
    → s.ready_list.count ≡ pos (suc (suc n))
    → sys_yield s ≡ task_dispatch (task_set_ready (task_set_block s x) x)
unfolding sys_yield
sys_yield-eq s x n here counted =
    let test : above_one s.ready_list.count ≡ true = ap above_one counted ∙ ground arith in
    rw test (ap (λ c. task_dispatch (task_set_ready (task_set_block s c) c)) here)

-- When `x` runs at the head of the ready queue and another ready task `y` stands behind it,
-- `sys_yield` moves `x` to the end of the ready queue and runs `y`; the sleep queue stays.
pub sys_yield-Queues :
    (s : Manager) (x y : ℕ) (rest ss : List ℕ)
    → Queues s (x ∷ y ∷ rest) ss
    → s.curr_task ≡ x
    → Queues (sys_yield s) (y ∷ rest ++ x ∷ []) ss × ((sys_yield s).curr_task ≡ y)
unfolding sys_yield
sys_yield-Queues s x y rest ss q here =
    let b = task_set_block-Queues s [] x (y ∷ rest) ss q in
    let s1 = task_set_block s x in
    let idle : s1.idle_task ≡ s.idle_task = (set_block-kept s x).1 in
    let r =
      task_set_ready-Queues s1 (y ∷ rest) ss x b.1.0 (λ e. b.1.1 (e ∙ idle)) b.1.2 b.1.3 b.0 in
    let d = task_dispatch-Queues (task_set_ready s1 x) (y ∷ rest ++ x ∷ []) ss r in
    rw (sys_yield-eq s x (length rest) here q.ready.counted) (d.0, d.1)

-- With at most one ready task, `sys_yield` changes nothing.
sys_yield-alone : (s : Manager) (rs ss : List ℕ) → Queues s rs ss → length rs ≤ 1 → sys_yield s ≡ s
unfolding sys_yield
sys_yield-alone s rs ss q few =
    let test : above_one s.ready_list.count ≡ false = ap above_one q.ready.counted ∙ ground arith in
    rw test
