-- ===== src/Sched/Queues.antt =====
-- What the two queues of the scheduler stand for, and how a task enters and leaves them.
use os_training.Base.{
  Bool-cases, inl, inr, ℕ, ◌≡◌, ◌≢◌, refl, pos, List, [], ◌∷◌, ◌++◌, arith, ◌==◌, if◌then◌else◌,
  sym,
}
use os_training.LinkedList.{Nodes, null}
use os_training.LinkedList.Chain.{
  NotIn, IsList, Seg, NotIn-append, NotIn-append_intro, ne→==_false, Seg-split,
}
use os_training.LinkedList.Insert.{list_insert_last-IsList}
use os_training.LinkedList.Remove.{list_remove-IsList, Distinct-split}
use os_training.LinkedList.Frame.{
  Apart, Apart-sym, Apart-append, Apart-append_intro, list_insert_last-other, list_remove-other,
}
use os_training.Sched.{
  Manager, task_set_ready, task_set_block, task_set_sleep, task_set_wakeup, task_dispatch, ready,
  running, task_next_run,
}

-- The ready queue holds the tasks `rs` and the sleep queue the tasks `ss`, no task twice, and
-- neither holds the idle task.
pub record Queues (s : Manager) (rs ss : List ℕ) : Type 0 where
  pub ready : IsList s.run_nodes s.ready_list rs
  pub asleep : IsList s.run_nodes s.sleep_list ss
  pub apart : Apart rs ss
  pub idle_ready : NotIn s.idle_task rs
  pub idle_asleep : NotIn s.idle_task ss

-- The task that runs when the ready queue holds `rs`.
abbrev pub next_of : ℕ → List ℕ → ℕ
next_of idle [] = idle
next_of idle (x ∷ xs) = x

module _ (s : Manager) (rs ss : List ℕ) where
  -- A task that is in neither queue becomes ready: it goes to the end.
  pub task_set_ready-Queues :
      (t : ℕ)
      → t ≢ null
      → t ≢ s.idle_task
      → NotIn t rs
      → NotIn t ss
      → Queues s rs ss
      → Queues (task_set_ready s t) (rs ++ t ∷ []) ss
  unfolding task_set_ready
  task_set_ready-Queues t ne ni nr ns q = rw (ne→==_false t s.idle_task ni) (record {
    ready = list_insert_last-IsList s.run_nodes s.ready_list t rs ne nr q.ready;
    asleep =
        list_insert_last-other s.run_nodes s.ready_list s.sleep_list t rs ss q.ready q.apart ns
          q.asleep;
    apart = Apart-append_intro rs (t ∷ []) ss q.apart (ns, tt);
    idle_ready = NotIn-append_intro s.idle_task rs (t ∷ []) q.idle_ready (λ e. ni (sym e), tt);
    idle_asleep = q.idle_asleep;
  })

  -- A task that is in neither queue goes to sleep for at least one tick.
  pub task_set_sleep-Queues :
      (t ticks : ℕ)
      → t ≢ null
      → t ≢ s.idle_task
      → NotIn t rs
      → NotIn t ss
      → ticks ≢ 0
      → Queues s rs ss
      → Queues (task_set_sleep s t ticks) rs (ss ++ t ∷ [])
  unfolding task_set_sleep
  task_set_sleep-Queues t ticks ne ni nr ns nz q =
      let a = Apart-sym rs ss q.apart in
      rw (ne→==_false ticks 0 nz) (record {
        ready =
            list_insert_last-other s.run_nodes s.sleep_list s.ready_list t ss rs q.asleep a nr
              q.ready;
        asleep = list_insert_last-IsList s.run_nodes s.sleep_list t ss ne ns q.asleep;
        apart = Apart-sym (ss ++ t ∷ []) rs (Apart-append_intro ss (t ∷ []) rs a (nr, tt));
        idle_ready = q.idle_ready;
        idle_asleep =
            NotIn-append_intro s.idle_task ss (t ∷ []) q.idle_asleep (λ e. ni (sym e), tt);
      })

-- What is known of a task that has just left its queue.
abbrev pub Loose : Manager → ℕ → List ℕ → List ℕ → Type 0
Loose s t rs ss = (t ≢ null) × (t ≢ s.idle_task) × NotIn t rs × NotIn t ss

-- A node of a segment is not null.
Seg-ne_null :
    (h : Nodes) (prev p : ℕ) (xs : List ℕ) (x : ℕ) (ys : List ℕ) (stop last : ℕ)
    → Seg h prev p (xs ++ x ∷ ys) stop last
    → x ≢ null
Seg-ne_null h prev p xs x ys stop last c = (Seg-split h prev p xs (x ∷ ys) stop last c).3.1

pub task_set_block-Queues :
    (s : Manager) (xs : List ℕ) (t : ℕ) (ys ss : List ℕ)
    → Queues s (xs ++ t ∷ ys) ss
    → Queues (task_set_block s t) (xs ++ ys) ss × Loose s t (xs ++ ys) ss
unfolding task_set_block
task_set_block-Queues s xs t ys ss q =
    let idle = NotIn-append s.idle_task xs (t ∷ ys) q.idle_ready in
    let ni : t ≢ s.idle_task = λ e. idle.1.0 (sym e) in
    let d = Distinct-split xs t ys q.ready.distinct in
    let a = Apart-append xs (t ∷ ys) ss q.apart in
    rw (ne→==_false t s.idle_task ni) (
      record {
        ready = list_remove-IsList s.run_nodes s.ready_list xs t ys q.ready;
        asleep =
            list_remove-other s.run_nodes s.ready_list s.sleep_list xs t ys ss q.ready q.apart
              q.asleep;
        apart = Apart-append_intro xs ys ss a.0 a.1.1;
        idle_ready = NotIn-append_intro s.idle_task xs ys idle.0 idle.1.1;
        idle_asleep = q.idle_asleep;
      },
      (
        Seg-ne_null s.run_nodes null s.ready_list.first xs t ys null s.ready_list.last
            q.ready.chain,
        ni,
        NotIn-append_intro t xs ys d.2 d.3,
        a.1.0,
      ),
    )

pub task_set_wakeup-Queues :
    (s : Manager) (xs : List ℕ) (t : ℕ) (ys rs : List ℕ)
    → Queues s rs (xs ++ t ∷ ys)
    → Queues (task_set_wakeup s t) rs (xs ++ ys) × Loose s t rs (xs ++ ys)
unfolding task_set_wakeup
task_set_wakeup-Queues s xs t ys rs q =
    let idle = NotIn-append s.idle_task xs (t ∷ ys) q.idle_asleep in
    let d = Distinct-split xs t ys q.asleep.distinct in
    let a' = Apart-sym rs (xs ++ t ∷ ys) q.apart in
    let a = Apart-append xs (t ∷ ys) rs a' in
    (
      record {
        ready =
            list_remove-other s.run_nodes s.sleep_list s.ready_list xs t ys rs q.asleep a' q.ready;
        asleep = list_remove-IsList s.run_nodes s.sleep_list xs t ys q.asleep;
        apart = Apart-sym (xs ++ ys) rs (Apart-append_intro xs ys rs a.0 a.1.1);
        idle_ready = q.idle_ready;
        idle_asleep = NotIn-append_intro s.idle_task xs ys idle.0 idle.1.1;
      },
      (
        Seg-ne_null s.run_nodes null s.sleep_list.first xs t ys null s.sleep_list.last
            q.asleep.chain,
        λ e. idle.1.0 (sym e),
        a.1.0,
        NotIn-append_intro t xs ys d.2 d.3,
      ),
    )

-- What the queue operations leave alone.
module _ (s : Manager) (t : ℕ) where
  pub set_sleep-kept :
      (ticks : ℕ)
      → ticks ≢ 0
      → ((task_set_sleep s t ticks).idle_task ≡ s.idle_task)
        × (((task_set_sleep s t ticks).tasks t).sleep_ticks ≡ pos ticks)
  unfolding task_set_sleep
  set_sleep-kept ticks nz = rw (ne→==_false ticks 0 nz) (refl, ground arith)

  pub set_wakeup-kept :
      ((task_set_wakeup s t).idle_task ≡ s.idle_task)
      × ((task_set_wakeup s t).curr_task ≡ s.curr_task)
      × ((task_set_wakeup s t).tasks ≡ s.tasks)
  unfolding task_set_wakeup
  set_wakeup-kept = (refl, refl, refl)

  pub set_ready-kept :
      ((task_set_ready s t).curr_task ≡ s.curr_task)
      × ((task_set_ready s t).idle_task ≡ s.idle_task)
      × ((a : ℕ) → ((task_set_ready s t).tasks a).sleep_ticks ≡ (s.tasks a).sleep_ticks)
  unfolding task_set_ready
  set_ready-kept = (ground arith, ground arith, λ a. ground arith)

  pub set_ready-state :
      t ≢ s.idle_task
      → (a : ℕ)
      → (task_set_ready s t).tasks a
        ≡ (if a == t then record (s.tasks t) { state = ready } else s.tasks a)
  unfolding task_set_ready
  set_ready-state ni a = rw (ne→==_false t s.idle_task ni)

  pub set_block-kept :
      ((task_set_block s t).curr_task ≡ s.curr_task)
      × ((task_set_block s t).idle_task ≡ s.idle_task)
      × ((task_set_block s t).tasks ≡ s.tasks)
  unfolding task_set_block
  set_block-kept = (ground arith, ground arith, ground arith)

pub task_next_run-eq :
    (s : Manager) (rs ss : List ℕ) → Queues s rs ss → task_next_run s ≡ next_of s.idle_task rs
unfolding task_next_run
task_next_run-eq s [] ss q = rw q.ready.counted
task_next_run-eq s (x ∷ xs) ss q = rw q.ready.counted q.ready.chain.0

-- `task_dispatch` runs the head of the ready queue, or the idle task, and moves no task.
pub task_dispatch-Queues :
    (s : Manager) (rs ss : List ℕ)
    → Queues s rs ss
    → Queues (task_dispatch s) rs ss
      × ((task_dispatch s).curr_task ≡ next_of s.idle_task rs)
      × ((task_dispatch s).idle_task ≡ s.idle_task)
unfolding task_dispatch
task_dispatch-Queues s rs ss q = elim (Bool-cases (task_next_run s == s.curr_task)) [
  | inl same ↦ rw same (q, ground (arith, task_next_run-eq s rs ss q), refl)
  | inr other ↦ rw other (
    record {
      ready = q.ready;
      asleep = q.asleep;
      apart = q.apart;
      idle_ready = q.idle_ready;
      idle_asleep = q.idle_asleep;
    },
    task_next_run-eq s rs ss q,
    refl,
  )
]

-- It changes the state of the task that it begins to run, and nothing else of any task.
pub task_dispatch-tasks :
    (s : Manager) (a : ℕ)
    → (task_dispatch s).tasks a ≡ (
        if task_next_run s == s.curr_task
        then s.tasks a
        else if a == task_next_run s
        then record (s.tasks a) { state = running }
        else s.tasks a)
unfolding task_dispatch
task_dispatch-tasks s a = ground arith

pub task_dispatch-sleep_ticks :
    (s : Manager) (a : ℕ) → ((task_dispatch s).tasks a).sleep_ticks ≡ (s.tasks a).sleep_ticks
unfolding task_dispatch
task_dispatch-sleep_ticks s a = ground arith
