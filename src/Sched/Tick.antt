-- ===== src/Sched/Tick.antt =====
-- `task_time_tick`: the time slice of the running task, and the sleepers whose time has come.
use os_training.Base.{
  ℕ, ◌<◌, ◌≡◌, refl, dec, is_zero, Option, some, List, [], ◌∷◌, ◌++◌, arith, length, ap, ◌∙◌, sym,
  if◌then◌else◌, Bool-cases, inl, inr,
}
use mathlib.Core.Path.{subst, subst₂}
use os_training.LinkedList.{null, list_first}
use os_training.Sched.{
  Manager, Task, task_set_ready, task_set_block, task_dispatch, put_slice, tick_slice, tick_loop,
  tick_fuel, dispatched, task_time_tick,
}
use os_training.Sched.Sleepers.{woken, still, has, Queues-tasks, Ticked, ticked, tick_loop-Ticked}
use os_training.Sched.Queues.{
  Queues, next_of, task_set_ready-Queues, task_set_block-Queues, task_dispatch-Queues,
  set_block-kept, set_ready-kept, task_dispatch-sleep_ticks,
}

-- The ready queue after the running task's slice is counted down.
abbrev pub rotated : Manager → List ℕ → List ℕ
rotated s [] = []
rotated s (x ∷ xs) = if is_zero (dec (s.tasks x).slice_ticks) then xs ++ x ∷ [] else x ∷ xs

-- The idle task is in no queue and enters none.
requeue_idle : (s : Manager) → task_set_ready (task_set_block s s.idle_task) s.idle_task ≡ s
unfolding task_set_ready task_set_block
requeue_idle s = ground arith

-- The time slice of the running task, or of the idle task.
tick_slice-Queues :
    (s : Manager) (rs ss : List ℕ)
    → Queues s rs ss
    → Queues (tick_slice s (next_of s.idle_task rs)) (rotated s rs) ss
unfolding tick_slice
tick_slice-Queues s [] ss q = elim (Bool-cases (is_zero (dec (s.tasks s.idle_task).slice_ticks))) [
  | inl over ↦
      let r = put_slice s s.idle_task (s.tasks s.idle_task).time_ticks in
      rw (over, requeue_idle r) (Queues-tasks s r.tasks [] ss q)
  | inr more ↦ rw more (Queues-tasks s _ [] ss q)
]
tick_slice-Queues s (x ∷ xs) ss q = elim (Bool-cases (is_zero (dec (s.tasks x).slice_ticks))) [
  | inl over ↦
      let r = put_slice s x (s.tasks x).time_ticks in
      let b = task_set_block-Queues r [] x xs ss (Queues-tasks s r.tasks (x ∷ xs) ss q) in
      let idle = (set_block-kept r x).1 in
      rw over (
        task_set_ready-Queues (task_set_block r x) xs ss x b.1.0 (λ e. b.1.1 (e ∙ idle)) b.1.2 b.1.3
          b.0)
  | inr more ↦ rw more (Queues-tasks s _ (x ∷ xs) ss q)
]

tick_slice-kept :
    (s : Manager) (t : ℕ)
    → ((tick_slice s t).idle_task ≡ s.idle_task)
      × ((a : ℕ) → ((tick_slice s t).tasks a).sleep_ticks ≡ (s.tasks a).sleep_ticks)
unfolding tick_slice
tick_slice-kept s t =
    let r = put_slice s t (s.tasks t).time_ticks in
    let k = set_ready-kept (task_set_block r t) t in
    let b = set_block-kept r t in
    elim (Bool-cases (is_zero (dec (s.tasks t).slice_ticks))) [
      | inl over ↦ rw over (k.1 ∙ b.1, λ a. k.2 a ∙ ap (λ f. (f a).sleep_ticks) b.2 ∙ ground arith)
      | inr more ↦ rw more (refl, λ a. ground arith)
    ]

-- Who wakes up depends on the ticks alone.
woken-same :
    (f g : ℕ → Task) (ys : List ℕ)
    → ((a : ℕ) → (g a).sleep_ticks ≡ (f a).sleep_ticks)
    → (woken g ys ≡ woken f ys) × (still g ys ≡ still f ys)
woken-same f g [] e = (refl, refl)
woken-same f g (y ∷ ys) e = let r = woken-same f g ys e in rw (e y, r.0, r.1) (refl, refl)

-- What a clock tick leaves of the queues `rs` and `ss`.
pub data TickResult (s : Manager) (rs ss : List ℕ) : Option Manager → Type 0 where
  after :
      (s' : Manager)
      → Queues s' (rotated s rs ++ woken s.tasks ss) (still s.tasks ss)
      → s'.curr_task ≡ next_of s.idle_task (rotated s rs ++ woken s.tasks ss)
      → ((a : ℕ)
          → (s'.tasks a).sleep_ticks
            ≡ (if has a ss then dec (s.tasks a).sleep_ticks else (s.tasks a).sleep_ticks))
      → TickResult s rs ss (some s')

finish :
    (s s1 : Manager) (rs ss : List ℕ) {o : Option Manager}
    → s1.idle_task ≡ s.idle_task
    → ((a : ℕ) → (s1.tasks a).sleep_ticks ≡ (s.tasks a).sleep_ticks)
    → Ticked s1 (rotated s rs) [] ss o
    → TickResult s rs ss (dispatched o)
finish s s1 rs ss idle same (ticked s' q i t) =
    let w = woken-same s.tasks s1.tasks ss same in
    let rs' = rotated s rs ++ woken s.tasks ss in
    let q' = subst₂ (λ us vs. Queues s' (rotated s rs ++ us) vs) w.0 w.1 q in
    let d = task_dispatch-Queues s' rs' (still s.tasks ss) q' in
    after (task_dispatch s') d.0 (d.1 ∙ ap (λ n. next_of n rs') (i ∙ idle))
      (λ a. task_dispatch-sleep_ticks s' a ∙ ground (arith, t a, same a))

first-eq :
    (s : Manager) (rs ss : List ℕ) → Queues s rs ss → list_first s.sleep_list ≡ next_of null ss
first-eq s rs [] q = q.asleep.chain.0
first-eq s rs (x ∷ ss) q = q.asleep.chain.0

abbrev tick_of : Manager → ℕ → Option Manager
tick_of s c =
    let s1 = tick_slice s c in
    dispatched (tick_loop (tick_fuel s1.sleep_list.count) s1 (list_first s1.sleep_list))

-- A clock tick, with the ready tasks `rs` (none of them twice, none the idle task, none asleep),
-- the sleepers `ss`, and the first ready task or else the idle task running, ends and leaves this:
-- a running task whose slice is over stands behind the other ready tasks; the sleepers whose last
-- tick this is stand behind it, in the order in which they slept; the other sleepers stay with one
-- tick less; and the head of the ready queue runs, or the idle task.
pub task_time_tick-TickResult :
    (s : Manager) (rs ss : List ℕ)
    → Queues s rs ss
    → s.curr_task ≡ next_of s.idle_task rs
    → TickResult s rs ss (task_time_tick s)
unfolding task_time_tick
task_time_tick-TickResult s rs ss q here =
    let s1 = tick_slice s (next_of s.idle_task rs) in
    let k = tick_slice-kept s (next_of s.idle_task rs) in
    let q1 = tick_slice-Queues s rs ss q in
    subst (λ c. TickResult s rs ss (tick_of s c)) (sym here)
      (finish s s1 rs ss k.0 k.1 (
        tick_loop-Ticked (tick_fuel s1.sleep_list.count) s1 (list_first s1.sleep_list)
          (rotated s rs) [] ss q1 (first-eq s1 (rotated s rs) ss q1)
          (subst (λ n. length ss < tick_fuel n) (sym q1.asleep.counted) (omega arith))))
