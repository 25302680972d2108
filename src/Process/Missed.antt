-- ===== src/Process/Missed.antt =====
-- A child that exits between the two parts of a round of `sys_wait`.
use os_training.Base.{
  ℕ, ◌≡◌, ◌≢◌, refl, sym, ap, ◌∙◌, ℤ, true, false, ◌==◌, ==_iff, Bool-cases, inl, inr, List, [],
  ◌∷◌, arith,
}
use os_training.LinkedList.{null}
use os_training.LinkedList.Chain.{NotIn, ne→==_false}
use os_training.Sched.{Manager, waiting, zombie, task_set_block, task_dispatch, set_state}
use os_training.Sched.Queues.{Queues, task_set_block-Queues, task_dispatch-Queues, set_block-kept}
use os_training.Process.{is_waiting, is_zombie, exit_end, wait_block, find_zombie}
use os_training.Process.Exit.{ended, ended-Queues, task_dispatch-other}
use os_training.Process.Children.{listed}
use os_training.Process.Reap.{NotNull}

-- A child that is listed and a zombie is found.
find_zombie-listed :
    (s : Manager) (p c : ℕ) (table : List ℕ)
    → NotNull table
    → listed c table ≡ true
    → (s.tasks c).parent ≡ p
    → is_zombie (s.tasks c).state ≡ true
    → find_zombie s p table ≢ null
unfolding find_zombie
find_zombie-listed s p c [] nn l e z = cc
find_zombie-listed s p c (t ∷ ts) (ne, nn) l e z = elim (Bool-cases (c == t)) [
  | inl same ↦
      let at : c ≡ t = (==_iff c t).0 same in
      let child : ((s.tasks t).parent == p) ≡ true =
        ap (λ a. (s.tasks a).parent == p) (sym at) ∙ (==_iff (s.tasks c).parent p).1 e in
      let dead : is_zombie (s.tasks t).state ≡ true =
        ap (λ a. is_zombie (s.tasks a).state) (sym at) ∙ z in
      rw (child, dead) ne
  | inr other ↦
      let rest = find_zombie-listed s p c ts nn (sym (rw other refl) ∙ l) e z in
      elim (Bool-cases ((s.tasks t).parent == p)) [
        | inr stranger ↦ rw stranger rest
        | inl child ↦ elim (Bool-cases (is_zombie (s.tasks t).state)) [
          | inl dead ↦ rw (child, dead) ne
          | inr alive ↦ rw (child, alive) rest
        ]
      ]
]

-- The task that waits leaves the ready queue.
wait_block-Queues :
    (s : Manager) (p : ℕ) (rest ss : List ℕ)
    → Queues s (p ∷ rest) ss
    → Queues (wait_block s p) rest ss
      × NotIn p rest
      × NotIn p ss
      × (((wait_block s p).tasks p).state ≡ waiting)
      × ((c : ℕ) → c ≢ p → c ≢ s.idle_task → NotIn c rest → (wait_block s p).tasks c ≡ s.tasks c)
unfolding wait_block
wait_block-Queues s p rest ss q =
    let (left, (nn, ni, nr, ns)) = task_set_block-Queues s [] p rest ss q in
    let b = task_set_block s p in
    let kept = set_block-kept s p in
    let w : Manager = set_state b p waiting in
    let q' : Queues w rest ss = record {
      ready = left.ready;
      asleep = left.asleep;
      apart = left.apart;
      idle_ready = left.idle_ready;
      idle_asleep = left.idle_asleep;
    } in
    let own : (w.tasks p).state ≡ waiting = ground arith in
    (
      (task_dispatch-Queues w rest ss q').0,
      nr,
      ns,
      ap (λ t. t.state) (task_dispatch-other w rest ss p q' (λ e. ni (e ∙ kept.1)) nr) ∙ own,
      λ c ne ci cr.
          let same : w.tasks c ≡ b.tasks c = rw (ne→==_false c p ne) refl in
          task_dispatch-other w rest ss c q' (λ e. ci (e ∙ kept.1)) cr
          ∙ same
          ∙ ap (λ f. f c) kept.2,
    )

idle_kept :
    (s : Manager) (c : ℕ) (status : ℤ) (rs ss : List ℕ)
    → Queues (task_dispatch (task_set_block (ended s c status) c)) rs ss
    → (task_dispatch (task_set_block (ended s c status) c)).idle_task ≡ s.idle_task
unfolding task_dispatch task_set_block
idle_kept s c status rs ss q = ground arith

module _ (s : Manager) (first_task p : ℕ) (status : ℤ) (rest ss table : List ℕ) where
  -- Let `p`, which does not wait yet, stand behind its running child in the ready queue, as it
  -- does between the search and the block of a round of `sys_wait`. When the child, which is
  -- listed in a table without null, exits then and hands no zombie child over, `p` runs next,
  -- blocks and waits in no queue, although its child is a zombie that a search for `p` finds.
  pub wait_block-misses :
      Queues s (s.curr_task ∷ p ∷ rest) ss
      → (s.tasks s.curr_task).parent ≡ p
      → is_waiting (s.tasks p).state ≡ false
      → NotNull table
      → listed s.curr_task table ≡ true
      → let s' = wait_block (exit_end s first_task false status) p in
        ((exit_end s first_task false status).curr_task ≡ p)
        × Queues s' rest ss
        × NotIn p rest
        × NotIn p ss
        × ((s'.tasks p).state ≡ waiting)
        × (find_zombie s' p table ≢ null)
  unfolding exit_end
  wait_block-misses q child busy nn entry =
      let c = s.curr_task in
      let calm : is_waiting (s.tasks (s.tasks c).parent).state ≡ false =
        ap (λ a. is_waiting (s.tasks a).state) child ∙ busy in
      let s2 = task_dispatch (task_set_block (ended s c status) c) in
      let alone : exit_end s first_task false status ≡ s2 = rw calm refl in
      let (queues, runs, nr, ns, end) = ended-Queues s c status (p ∷ rest) ss q in
      let (queues', pr, ps, waits, others) = wait_block-Queues s2 p rest ss queues in
      let idle : s2.idle_task ≡ s.idle_task = idle_kept s c status (p ∷ rest) ss queues in
      let still : (wait_block s2 p).tasks c
          ≡ record (s.tasks c) { status = status; state = zombie } =
        others c nr.0 (λ e. q.idle_ready.0 (sym (e ∙ idle))) nr.1 ∙ end in
      let found =
        find_zombie-listed (wait_block s2 p) p c table nn entry (ap (λ t. t.parent) still ∙ child)
          (ap (λ t. is_zombie t.state) still) in
      rw alone (runs, queues', pr, ps, waits, found)
