-- ===== src/Sched/Sleepers.antt =====
-- The loop of `task_time_tick` over the sleep queue.
use os_training.Base.{
  Bool, true, false, ◌||◌, ℕ, zero, suc, ◌<◌, ◌≡◌, refl, ℤ, dec, is_zero, Option, some, List, [],
  ◌∷◌, ◌++◌, arith, length, ap, ◌∙◌, sym, ◌==◌, if◌then◌else◌, Bool-cases, inl, inr,
}
use mathlib.Core.Path.{subst, subst₂}
use os_training.LinkedList.Remove.{Distinct-split}
use mathlib.Core.List.{append_assoc, append-nil}
use os_training.LinkedList.{null}
use os_training.LinkedList.Chain.{NotIn, Seg, Seg-split, ne→==_false}
use os_training.Sched.{Manager, Task, task_set_wakeup, put_task, tick_sleeper, tick_loop}
use os_training.Sched.Queues.{
  Queues, next_of, task_set_ready-Queues, task_set_wakeup-Queues, set_ready-kept, set_wakeup-kept,
}

-- The sleepers of `ss` whose last tick this is, and the others.
abbrev pub woken : (ℕ → Task) → List ℕ → List ℕ
woken tasks [] = []
woken tasks (x ∷ xs) =
    if is_zero (dec (tasks x).sleep_ticks) then x ∷ woken tasks xs else woken tasks xs

abbrev pub still : (ℕ → Task) → List ℕ → List ℕ
still tasks [] = []
still tasks (x ∷ xs) =
    if is_zero (dec (tasks x).sleep_ticks) then still tasks xs else x ∷ still tasks xs

-- A change of a task's fields does not touch the queues.
pub Queues-tasks :
    (s : Manager) (tasks : ℕ → Task) (rs ss : List ℕ)
    → Queues s rs ss
    → Queues (record s { tasks = tasks }) rs ss
Queues-tasks s tasks rs ss q = record {
  ready = q.ready;
  asleep = q.asleep;
  apart = q.apart;
  idle_ready = q.idle_ready;
  idle_asleep = q.idle_asleep;
}

-- The `next` pointer of a node leads to the head of what stands behind it.
next-eq :
    (s : Manager) (rs done : List ℕ) (x : ℕ) (todo : List ℕ)
    → Queues s rs (done ++ x ∷ todo)
    → (s.run_nodes x).next ≡ next_of null todo
next-eq s rs done x todo q =
    head (s.run_nodes x).next todo
      (Seg-split s.run_nodes null s.sleep_list.first done (x ∷ todo) null s.sleep_list.last
        q.asleep.chain).3.3
  where
    head :
        (p : ℕ) (ys : List ℕ) → Seg s.run_nodes x p ys null s.sleep_list.last → p ≡ next_of null ys
    head p [] c = c.0
    head p (y ∷ ys) c = c.0

-- One sleeper: it stays with one tick less, or it goes to the end of the ready queue.
tick_sleeper-stays :
    (s : Manager) (t : ℕ) (rs ss : List ℕ)
    → is_zero (dec (s.tasks t).sleep_ticks) ≡ false
    → Queues s rs ss
    → Queues (tick_sleeper s t) rs ss
unfolding tick_sleeper
tick_sleeper-stays s t rs ss e q = rw e (Queues-tasks s _ rs ss q)

tick_sleeper-wakes :
    (s : Manager) (t : ℕ) (rs done todo : List ℕ)
    → is_zero (dec (s.tasks t).sleep_ticks) ≡ true
    → Queues s rs (done ++ t ∷ todo)
    → Queues (tick_sleeper s t) (rs ++ t ∷ []) (done ++ todo)
unfolding tick_sleeper
tick_sleeper-wakes s t rs done todo e q =
    let counted : Manager = record s {
      tasks = put_task s.tasks t (record (s.tasks t) { sleep_ticks = dec (s.tasks t).sleep_ticks });
    } in
    let w =
      task_set_wakeup-Queues counted done t todo rs
        (Queues-tasks s counted.tasks rs (done ++ t ∷ todo) q) in
    let idle = (set_wakeup-kept counted t).0 in
    rw e (
      task_set_ready-Queues (task_set_wakeup counted t) rs (done ++ todo) t w.1.0
        (λ i. w.1.1 (i ∙ idle)) w.1.2 w.1.3 w.0)

-- It counts the ticks of that task, and of no other.
tick_sleeper-ticks :
    (s : Manager) (t a : ℕ)
    → ((tick_sleeper s t).tasks a).sleep_ticks
      ≡ (if a == t then dec (s.tasks t).sleep_ticks else (s.tasks a).sleep_ticks)
unfolding tick_sleeper
tick_sleeper-ticks s t a =
    let counted : Manager = record s {
      tasks = put_task s.tasks t (record (s.tasks t) { sleep_ticks = dec (s.tasks t).sleep_ticks });
    } in
    let w = task_set_wakeup counted t in
    elim (Bool-cases (is_zero (dec (s.tasks t).sleep_ticks))) [
      | inr more ↦ rw more (ground arith)
      | inl last ↦ rw last (
          (set_ready-kept w t).2 a
          ∙ ap (λ f. (f a).sleep_ticks) (set_wakeup-kept counted t).2
          ∙ ground arith)
    ]

tick_sleeper-kept : (s : Manager) (t : ℕ) → ((tick_sleeper s t).idle_task ≡ s.idle_task)
unfolding tick_sleeper task_set_wakeup
tick_sleeper-kept s t = ground (
  arith,
  (set_ready-kept
      (task_set_wakeup
        (record s {
          tasks =
              put_task s.tasks t (record (s.tasks t) { sleep_ticks = dec (s.tasks t).sleep_ticks });
        })
        t)
      t).1,
)

abbrev pub has : ℕ → List ℕ → Bool
has a [] = false
has a (x ∷ xs) = (a == x) || has a xs

NotIn-has : (x : ℕ) (ys : List ℕ) → NotIn x ys → has x ys ≡ false
NotIn-has x [] n = refl
NotIn-has x (y ∷ ys) n = ground (arith, NotIn-has x ys n.1)

-- A change of the ticks of `x` does not change who of the others wakes up.
woken-frame :
    (f g : ℕ → Task) (x : ℕ) (v : ℤ) (ys : List ℕ)
    → ((a : ℕ) → (g a).sleep_ticks ≡ (if a == x then v else (f a).sleep_ticks))
    → NotIn x ys
    → (woken g ys ≡ woken f ys) × (still g ys ≡ still f ys)
woken-frame f g x v [] e n = (refl, refl)
woken-frame f g x v (y ∷ ys) e n =
    let r = woken-frame f g x v ys e n.1 in
    let same : (g y).sleep_ticks ≡ (f y).sleep_ticks = ground (arith, e y, n.0) in
    rw (same, r.0, r.1) (refl, refl)

-- What the loop over the sleepers `todo` leaves, `done` being those that it has let stay.
pub data Ticked (s : Manager) (rs done todo : List ℕ) : Option Manager → Type 0 where
  ticked :
      (s' : Manager)
      → Queues s' (rs ++ woken s.tasks todo) (done ++ still s.tasks todo)
      → s'.idle_task ≡ s.idle_task
      → ((a : ℕ)
          → (s'.tasks a).sleep_ticks
            ≡ (if has a todo then dec (s.tasks a).sleep_ticks else (s.tasks a).sleep_ticks))
      → Ticked s rs done todo (some s')

-- A round that lets `x` stay, and one that wakes it up, before the rest of the loop.
module _ (s : Manager) (rs done : List ℕ) (x : ℕ) (todo : List ℕ) (out : NotIn x todo) where
  round_stays :
      {o : Option Manager}
      → is_zero (dec (s.tasks x).sleep_ticks) ≡ false
      → Ticked (tick_sleeper s x) rs (done ++ x ∷ []) todo o
      → Ticked s rs done (x ∷ todo) o
  round_stays e (ticked s' q i t) =
      let f =
        woken-frame s.tasks (tick_sleeper s x).tasks x (dec (s.tasks x).sleep_ticks) todo
          (tick_sleeper-ticks s x) out in
      let behind =
        append_assoc done (x ∷ []) (still (tick_sleeper s x).tasks todo)
        ∙ ap (λ ys. done ++ x ∷ ys) f.1 in
      ticked s' (rw e (subst₂ (λ us vs. Queues s' (rs ++ us) vs) f.0 behind q))
        (i ∙ tick_sleeper-kept s x)
        (λ a. ground (arith, t a, tick_sleeper-ticks s x a, NotIn-has x todo out))

  round_wakes :
      {o : Option Manager}
      → is_zero (dec (s.tasks x).sleep_ticks) ≡ true
      → Ticked (tick_sleeper s x) (rs ++ x ∷ []) done todo o
      → Ticked s rs done (x ∷ todo) o
  round_wakes e (ticked s' q i t) =
      let f =
        woken-frame s.tasks (tick_sleeper s x).tasks x (dec (s.tasks x).sleep_ticks) todo
          (tick_sleeper-ticks s x) out in
      let behind =
        append_assoc rs (x ∷ []) (woken (tick_sleeper s x).tasks todo)
        ∙ ap (λ ys. rs ++ x ∷ ys) f.0 in
      ticked s' (rw e (subst₂ (λ us vs. Queues s' us (done ++ vs)) behind f.1 q))
        (i ∙ tick_sleeper-kept s x)
        (λ a. ground (arith, t a, tick_sleeper-ticks s x a, NotIn-has x todo out))

pub tick_loop-Ticked :
    (fuel : ℕ) (s : Manager) (p : ℕ) (rs done todo : List ℕ)
    → Queues s rs (done ++ todo)
    → p ≡ next_of null todo
    → length todo < fuel
    → Ticked s rs done todo (tick_loop fuel s p)
unfolding tick_loop
tick_loop-Ticked zero s p rs done todo q e h = absurd (omega arith)
tick_loop-Ticked (suc fuel) s p rs done [] q e h =
    rw e
      (ticked s (subst (λ xs. Queues s xs (done ++ [])) (sym (append-nil rs)) q) refl (λ a. refl))
tick_loop-Ticked (suc fuel) s p rs done (x ∷ todo) q e h =
    let c =
      Seg-split s.run_nodes null s.sleep_list.first done (x ∷ todo) null s.sleep_list.last
        q.asleep.chain in
    let out : NotIn x todo = (Distinct-split done x todo q.asleep.distinct).3 in
    let next = next-eq s rs done x todo q in
    let follow = (s.run_nodes x).next in
    rw (e, ne→==_false x null c.3.1)
      (elim (Bool-cases (is_zero (dec (s.tasks x).sleep_ticks))) [
        | inl last ↦ round_wakes s rs done x todo out last (
            tick_loop-Ticked fuel (tick_sleeper s x) follow (rs ++ x ∷ []) done todo
              (tick_sleeper-wakes s x rs done todo last q) next (omega arith))
        | inr more ↦
            let q' =
              subst (λ ys. Queues (tick_sleeper s x) rs ys) (sym (append_assoc done (x ∷ []) todo))
                (tick_sleeper-stays s x rs (done ++ x ∷ todo) more q) in
            round_stays s rs done x todo out more (
              tick_loop-Ticked fuel (tick_sleeper s x) follow rs (done ++ x ∷ []) todo q' next
                (omega arith))
      ])
