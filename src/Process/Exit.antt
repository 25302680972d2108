-- ===== src/Process/Exit.antt =====
-- The queues at the end of `sys_exit`.
use os_training.Base.{
  ℕ, ◌≡◌, ◌≢◌, refl, sym, ap, ◌∙◌, ℤ, Bool, true, false, not, ◌&&◌, ◌==◌, Bool-cases, inl, inr,
  if◌then◌else◌, List, [], ◌∷◌, ◌++◌, arith,
}
use mathlib.Core.Path.{subst}
use mathlib.Core.List.{append-nil, append_assoc}
use os_training.LinkedList.Chain.{NotIn, ne→==_false, NotIn-append_intro}
use os_training.Sched.{
  Manager, zombie, put_task, task_set_ready, task_set_block, task_dispatch, task_next_run,
}
use os_training.Sched.Queues.{
  Queues, Loose, next_of, task_set_ready-Queues, task_set_block-Queues, task_dispatch-Queues,
  task_dispatch-tasks, set_ready-kept, set_block-kept, task_next_run-eq,
}
use os_training.Process.{is_waiting, wake_waiting, exit_end}

-- A task that waits for a child is in no queue.
abbrev pub WaitingLoose : Manager → List ℕ → List ℕ → (t : ℕ) → Type 0
WaitingLoose s rs ss t = is_waiting (s.tasks t).state ≡ true → Loose s t rs ss

-- The task, if it waits.
abbrev pub if_waiting : Manager → (t : ℕ) → List ℕ
if_waiting s t = if is_waiting (s.tasks t).state then t ∷ [] else []

-- `wake_waiting` lets a waiting task become ready.
wake_waiting-Queues :
    (s : Manager) (rs ss : List ℕ) (t : ℕ)
    → Queues s rs ss
    → WaitingLoose s rs ss t
    → Queues (wake_waiting s t) (rs ++ if_waiting s t) ss
wake_waiting-Queues s rs ss t q loose = elim (Bool-cases (is_waiting (s.tasks t).state)) [
  | inl waits ↦
      let (nn, ni, nr, ns) = loose waits in rw waits (task_set_ready-Queues s rs ss t nn ni nr ns q)
  | inr other ↦ rw other (subst (λ l. Queues s l ss) (sym (append-nil rs)) q)
]

wake_waiting-kept :
    (s : Manager) (t : ℕ)
    → ((wake_waiting s t).curr_task ≡ s.curr_task) × ((wake_waiting s t).idle_task ≡ s.idle_task)
wake_waiting-kept s t = elim (Bool-cases (is_waiting (s.tasks t).state)) [
  | inl waits ↦ rw waits ((set_ready-kept s t).0, (set_ready-kept s t).1)
  | inr other ↦ rw other (refl, refl)
]

-- No other task changes.
wake_waiting-other : (s : Manager) (t a : ℕ) → a ≢ t → (wake_waiting s t).tasks a ≡ s.tasks a
unfolding task_set_ready
wake_waiting-other s t a ne = ground arith

-- The tasks that `sys_exit` wakes, in order.
abbrev pub woken : Manager → (first_task : ℕ) → (move_child : Bool) → List ℕ
woken s first_task move_child =
    let parent = (s.tasks s.curr_task).parent in
    (if move_child && not (parent == first_task) then if_waiting s first_task else [])
    ++ if_waiting s parent

NotIn-next : (x idle : ℕ) (rs : List ℕ) → x ≢ idle → NotIn x rs → x ≢ next_of idle rs
NotIn-next x idle [] ne out = ne
NotIn-next x idle (r ∷ rs) ne out = out.0

-- A task that is not ready is as it was after a dispatch.
pub task_dispatch-other :
    (s : Manager) (rs ss : List ℕ) (x : ℕ)
    → Queues s rs ss
    → x ≢ s.idle_task
    → NotIn x rs
    → (task_dispatch s).tasks x ≡ s.tasks x
task_dispatch-other s rs ss x q ne out =
    let far : x ≢ task_next_run s =
      λ e. NotIn-next x s.idle_task rs ne out (e ∙ task_next_run-eq s rs ss q) in
    ground (arith, task_dispatch-tasks s x, ne→==_false x (task_next_run s) far)

-- The task `curr` ends: it leaves the ready queue as a zombie.
abbrev pub ended : Manager → (curr : ℕ) → (status : ℤ) → Manager
ended s curr status = record s {
  tasks = put_task s.tasks curr (record (s.tasks curr) { status = status; state = zombie });
}

pub ended-Queues :
    (s : Manager) (curr : ℕ) (status : ℤ) (rs ss : List ℕ)
    → Queues s (curr ∷ rs) ss
    → let s' = task_dispatch (task_set_block (ended s curr status) curr) in
      Queues s' rs ss
      × (s'.curr_task ≡ next_of s.idle_task rs)
      × NotIn curr rs
      × NotIn curr ss
      × (s'.tasks curr ≡ record (s.tasks curr) { status = status; state = zombie })
ended-Queues s curr status rs ss q =
    let e = ended s curr status in
    let q' : Queues e (curr ∷ rs) ss = record {
      ready = q.ready;
      asleep = q.asleep;
      apart = q.apart;
      idle_ready = q.idle_ready;
      idle_asleep = q.idle_asleep;
    } in
    let (left, (nn, ni, nr, ns)) = task_set_block-Queues e [] curr rs ss q' in
    let b = task_set_block e curr in
    let idle : b.idle_task ≡ s.idle_task = (set_block-kept e curr).1 in
    let (queues, runs, _) = task_dispatch-Queues b rs ss left in
    let other = task_dispatch-other b rs ss curr left (λ x. ni (x ∙ idle)) nr in
    let here : e.tasks curr ≡ record (s.tasks curr) { status = status; state = zombie } =
      ground arith in
    (
      queues,
      runs ∙ ap (λ i. next_of i rs) idle,
      nr,
      ns,
      other ∙ ap (λ f. f curr) (set_block-kept e curr).2 ∙ here,
    )

-- `NotIn` of at most one task.
NotIn-if : (x t : ℕ) (b : Bool) → (b ≡ true → x ≢ t) → NotIn x (if b then t ∷ [] else [])
NotIn-if x t true ne = (ne refl, tt)
NotIn-if x t false ne = tt

module _ (s : Manager) (first_task : ℕ) (move_child : Bool) (rs ss : List ℕ) (q : Queues s rs ss)
    (p : ℕ) where
  -- Whether `sys_exit` looks at the first task.
  abbrev pub looks : Bool
  looks = move_child && not (p == first_task)

  abbrev pub first_woken : Manager
  first_woken = if looks then wake_waiting s first_task else s

  abbrev pub first_list : List ℕ
  first_list = if looks then if_waiting s first_task else []

  first_woken-Queues : WaitingLoose s rs ss first_task → Queues first_woken (rs ++ first_list) ss
  first_woken-Queues loose = elim (Bool-cases looks) [
    | inl yes_looks ↦ rw yes_looks (wake_waiting-Queues s rs ss first_task q loose)
    | inr not_looks ↦ rw not_looks (subst (λ l. Queues s l ss) (sym (append-nil rs)) q)
  ]

  not_first : looks ≡ true → p ≢ first_task
  not_first h = ground arith

  first_woken-parent : first_woken.tasks p ≡ s.tasks p
  first_woken-parent = elim (Bool-cases looks) [
    | inl yes_looks ↦ rw yes_looks (wake_waiting-other s first_task p (not_first yes_looks))
    | inr not_looks ↦ rw not_looks refl
  ]

  first_woken-idle : first_woken.idle_task ≡ s.idle_task
  first_woken-idle = elim (Bool-cases looks) [
    | inl yes_looks ↦ rw yes_looks ((wake_waiting-kept s first_task).1)
    | inr not_looks ↦ rw not_looks refl
  ]

  NotIn-first : NotIn p first_list
  NotIn-first = elim (Bool-cases looks) [
    | inl yes_looks ↦
        rw yes_looks
          (NotIn-if p first_task (is_waiting (s.tasks first_task).state) (λ h. not_first yes_looks))
    | inr not_looks ↦ rw not_looks tt
  ]

  first_woken-loose : WaitingLoose s rs ss p → WaitingLoose first_woken (rs ++ first_list) ss p
  first_woken-loose loose waits =
      let (nn, ni, nr, ns) =
        loose (ap (λ t. is_waiting t.state) (sym first_woken-parent) ∙ waits) in
      (nn, λ e. ni (e ∙ first_woken-idle), NotIn-append_intro p rs first_list nr NotIn-first, ns)

module _ (s : Manager) (first_task : ℕ) (move_child : Bool) (status : ℤ) (rest ss : List ℕ) where
  -- At the end of `sys_exit` of the task at the head of the ready queue, the task leaves the queue
  -- as a zombie with its status; behind the other ready tasks stand the first task, if a zombie
  -- child was handed over and it is not the parent, and the parent, each of them if it waits; the
  -- sleepers stay, and the head of the ready queue runs, or the idle task. A waiting one of the
  -- two is in no queue before, is not null and is not the idle task.
  pub exit_end-Queues :
      Queues s (s.curr_task ∷ rest) ss
      → WaitingLoose s (s.curr_task ∷ rest) ss first_task
      → WaitingLoose s (s.curr_task ∷ rest) ss ((s.tasks s.curr_task).parent)
      → let s' = exit_end s first_task move_child status in
        let rs = rest ++ woken s first_task move_child in
        Queues s' rs ss
        × (s'.curr_task ≡ next_of s.idle_task rs)
        × NotIn s.curr_task rs
        × NotIn s.curr_task ss
        × ((s'.tasks s.curr_task).state ≡ zombie)
        × ((s'.tasks s.curr_task).status ≡ status)
  unfolding exit_end
  exit_end-Queues q first_loose parent_loose =
      let x = s.curr_task in
      let p = (s.tasks x).parent in
      let rs0 = x ∷ rest in
      let s1 = first_woken s first_task move_child rs0 ss q p in
      let w1 = first_list s first_task move_child rs0 ss q p in
      let q1 = first_woken-Queues s first_task move_child rs0 ss q p first_loose in
      let loose1 = first_woken-loose s first_task move_child rs0 ss q p parent_loose in
      let q2 = wake_waiting-Queues s1 (rs0 ++ w1) ss p q1 loose1 in
      let same : if_waiting s1 p ≡ if_waiting s p =
        ap (λ t. if is_waiting t.state then p ∷ [] else [])
          (first_woken-parent s first_task move_child rs0 ss q p) in
      let order : (rs0 ++ w1) ++ if_waiting s1 p ≡ x ∷ (rest ++ woken s first_task move_child) =
        ap (λ l. (rs0 ++ w1) ++ l) same ∙ append_assoc rs0 w1 (if_waiting s p) in
      let s2 = wake_waiting s1 p in
      let q3 = subst (λ l. Queues s2 l ss) order q2 in
      let (queues, runs, nr, ns, end) =
        ended-Queues s2 x status (rest ++ woken s first_task move_child) ss q3 in
      let idle : s2.idle_task ≡ s.idle_task =
        (wake_waiting-kept s1 p).1 ∙ first_woken-idle s first_task move_child rs0 ss q p in
      (
        queues,
        runs ∙ ap (λ i. next_of i (rest ++ woken s first_task move_child)) idle,
        nr,
        ns,
        ap (λ t. t.state) end,
        ap (λ t. t.status) end,
      )
