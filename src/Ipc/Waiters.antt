-- ===== src/Ipc/Waiters.antt =====
-- A wait list beside the queues of the scheduler: a task waits in one place at most.
use os_training.Base.{ℕ, ◌≡◌, ◌≢◌, refl, List, [], ◌∷◌, ◌++◌, ap, sym, ◌∙◌}
use mathlib.Core.Path.{subst}
use os_training.LinkedList.{ListHead}
use os_training.LinkedList.Chain.{NotIn, IsList, NotIn-append_intro}
use os_training.LinkedList.Insert.{list_insert_last-IsList}
use os_training.LinkedList.Remove.{list_remove_first-IsList}
use os_training.LinkedList.Frame.{Apart, Apart-append_intro, Apart-sym}
use os_training.Sched.{task_set_block, task_set_ready}
use os_training.Sched.Queues.{
  Queues, next_of, task_set_block-Queues, task_set_ready-Queues, task_dispatch-Queues,
  set_block-kept, set_ready-kept,
}
use os_training.Ipc.{Kernel, wait_on, wake_first, dispatch}

-- The tasks `ws` wait, in this order; none is ready, asleep or the idle task.
pub record Waiting (k : Kernel) (l : ListHead) (rs ss ws : List ℕ) : Type 0 where
  pub queues : Queues k.sched rs ss
  pub waiters : IsList k.wait_nodes l ws
  pub not_ready : Apart ws rs
  pub not_asleep : Apart ws ss
  pub not_idle : NotIn k.sched.idle_task ws

-- The running task `x` goes to the end of the wait list, and the next ready task runs.
pub wait_on-Waiting :
    (k : Kernel) (l : ListHead) (x : ℕ) (rest ss ws : List ℕ)
    → Waiting k l (x ∷ rest) ss ws
    → let (k', l') = wait_on k l x in
      Waiting k' l' rest ss (ws ++ x ∷ []) × (k'.sched.curr_task ≡ next_of k.sched.idle_task rest)
unfolding wait_on
wait_on-Waiting k l x rest ss ws w =
    let b = task_set_block-Queues k.sched [] x rest ss w.queues in
    let kept = set_block-kept k.sched x in
    let d = task_dispatch-Queues (task_set_block k.sched x) rest ss b.0 in
    let apart = Apart-sym ws (x ∷ rest) w.not_ready in
    let idle = d.2 ∙ kept.1 in
    (
      record {
        queues = d.0;
        waiters = list_insert_last-IsList k.wait_nodes l x ws b.1.0 apart.0 w.waiters;
        not_ready = Apart-append_intro ws (x ∷ []) rest (Apart-sym rest ws apart.1) (b.1.2, tt);
        not_asleep = Apart-append_intro ws (x ∷ []) ss w.not_asleep (b.1.3, tt);
        not_idle =
            subst (λ i. NotIn i (ws ++ x ∷ [])) (sym idle)
              (NotIn-append_intro k.sched.idle_task ws (x ∷ []) w.not_idle
                (λ e. b.1.1 (sym e), tt));
      },
      d.1 ∙ ap (λ i. next_of i rest) kept.1,
    )

-- The first waiter goes to the end of the ready queue.
pub wake_first-Waiting :
    (k : Kernel) (l : ListHead) (t : ℕ) (rs ss ws : List ℕ)
    → Waiting k l rs ss (t ∷ ws)
    → let (t', k', l') = wake_first k l in
      (t' ≡ t)
      × Waiting (dispatch k') l' (rs ++ t ∷ []) ss ws
      × ((dispatch k').sched.curr_task ≡ next_of k.sched.idle_task (rs ++ t ∷ []))
unfolding wake_first
wake_first-Waiting k l t rs ss ws w =
    let r = list_remove_first-IsList k.wait_nodes l t ws w.waiters in
    let ni : t ≢ k.sched.idle_task = λ e. w.not_idle.0 (sym e) in
    let q =
      task_set_ready-Queues k.sched rs ss t w.waiters.chain.1 ni w.not_ready.0 w.not_asleep.0
        w.queues in
    let kept = set_ready-kept k.sched t in
    let d = task_dispatch-Queues (task_set_ready k.sched t) (rs ++ t ∷ []) ss q in
    let apart =
      Apart-append_intro rs (t ∷ []) ws (Apart-sym ws rs w.not_ready.1)
        (w.waiters.distinct.0, tt) in
    rw r.0 (
      refl,
      record {
        queues = d.0;
        waiters = r.1;
        not_ready = Apart-sym (rs ++ t ∷ []) ws apart;
        not_asleep = w.not_asleep.1;
        not_idle = subst (λ i. NotIn i ws) (sym (d.2 ∙ kept.1)) w.not_idle.1;
      },
      d.1 ∙ ap (λ i. next_of i (rs ++ t ∷ [])) kept.1,
    )
