-- ===== src/Process/Reap.antt =====
-- What `sys_wait` finds and reaps.
use os_training.Base.{
  ℕ, ◌≡◌, ◌≢◌, refl, sym, ap, ◌∙◌, Bool, true, false, ◌&&◌, ◌==◌, ==_iff, Bool-cases, inl, inr,
  if◌then◌else◌, Option, none, some, List, [], ◌∷◌, ◌++◌, arith,
}
use mathlib.Core.Path.{subst}
use os_training.LinkedList.{null}
use os_training.LinkedList.Chain.{ne→==_false}
use os_training.Sched.{Manager}
use os_training.Process.{
  stack_page, UserMemory, Reaped, no_task, is_zombie, is_unnamed, find_zombie, reap, wait_scan,
  alloc_task,
}

-- The task is a zombie and a child of `curr`.
abbrev pub is_zombie_child : Manager → (curr t : ℕ) → Bool
is_zombie_child s curr t = (s.tasks t).parent == curr && is_zombie (s.tasks t).state

-- None of the tasks is.
abbrev pub NoZombie : Manager → (curr : ℕ) → List ℕ → Type 0
NoZombie s curr [] = Unit {0}
NoZombie s curr (t ∷ ts) = (is_zombie_child s curr t ≡ false) × NoZombie s curr ts

abbrev pub NotNull : List ℕ → Type 0
NotNull [] = Unit {0}
NotNull (t ∷ ts) = (t ≢ null) × NotNull ts

-- The result of a search for `curr`.
pub data ZombieResult (s : Manager) (curr : ℕ) : List ℕ → ℕ → Type 0 where
  first_zombie :
      (before : List ℕ) (t : ℕ) (after : List ℕ) (table : List ℕ)
      → table ≡ before ++ (t ∷ after)
      → t ≢ null
      → NoZombie s curr before
      → is_zombie_child s curr t ≡ true
      → ZombieResult s curr table t
  no_zombie :
      (table : List ℕ) (r : ℕ) → r ≡ null → NoZombie s curr table → ZombieResult s curr table r

later :
    (s : Manager) (curr t : ℕ) {ts : List ℕ} {r : ℕ}
    → is_zombie_child s curr t ≡ false
    → ZombieResult s curr ts r
    → ZombieResult s curr (t ∷ ts) r
later s curr t miss (first_zombie before z after ts e ne none_before hit) =
    first_zombie (t ∷ before) z after (t ∷ ts) (ap (λ l. t ∷ l) e) ne (miss, none_before) hit
later s curr t miss (no_zombie ts r e none_of) = no_zombie (t ∷ ts) r e (miss, none_of)

find_zombie-ZombieResult :
    (s : Manager) (curr : ℕ) (table : List ℕ)
    → NotNull table
    → ZombieResult s curr table (find_zombie s curr table)
unfolding find_zombie
find_zombie-ZombieResult s curr [] nn = no_zombie [] null refl tt
find_zombie-ZombieResult s curr (t ∷ ts) (ne, nn) =
    let rest = find_zombie-ZombieResult s curr ts nn in
    elim (Bool-cases ((s.tasks t).parent == curr)) [
      | inr other ↦ rw other (later s curr t (rw other refl) rest)
      | inl child ↦ elim (Bool-cases (is_zombie (s.tasks t).state)) [
        | inl dead ↦
            rw (child, dead) (first_zombie [] t ts (t ∷ ts) refl ne tt (rw (child, dead) refl))
        | inr alive ↦ rw (child, alive) (later s curr t (rw (child, alive) refl) rest)
      ]
    ]

-- What a search of `sys_wait` gives to the running task.
pub data WaitResult {M : Type 0} (ops : UserMemory M) (s : Manager) (m : M) (table : List ℕ)
    : Option (Reaped M) → Type 0 where
  reaped :
      (before : List ℕ) (t : ℕ) (after : List ℕ) (r : Reaped M)
      → table ≡ before ++ (t ∷ after)
      → NoZombie s s.curr_task before
      → is_zombie_child s s.curr_task t ≡ true
      → r.pid ≡ (s.tasks t).pid
      → r.status ≡ (s.tasks t).status
      → ((a : ℕ) → r.manager.tasks a ≡ (if a == t then no_task else s.tasks a))
      → r.memory
        ≡ ops.memory_free_page
            (stack_page (s.tasks t).esp0)
            (ops.memory_destroy_uvm (s.tasks t).cr3 m)
      → alloc_task r.manager table ≢ null
      → WaitResult ops s m table (some r)
  nothing : NoZombie s s.curr_task table → WaitResult ops s m table none

-- A table with an entry that has no name has a free entry.
alloc_task-unnamed :
    (s : Manager) (before : List ℕ) (t : ℕ) (after : List ℕ)
    → NotNull (before ++ (t ∷ after))
    → is_unnamed (s.tasks t).name ≡ true
    → alloc_task s (before ++ (t ∷ after)) ≢ null
unfolding alloc_task
alloc_task-unnamed s [] t after (ne, nn) e = rw e ne
alloc_task-unnamed s (x ∷ before) t after (ne, nn) e =
    elim (Bool-cases (is_unnamed (s.tasks x).name)) [
      | inl here ↦ rw here ne
      | inr further ↦ rw further (alloc_task-unnamed s before t after nn e)
    ]

module _ {M : Type 0} (ops : UserMemory M) (s : Manager) (m : M) (table : List ℕ) where
  scanned :
      (t : ℕ)
      → NotNull table
      → ZombieResult s s.curr_task table t
      → WaitResult ops s m table (if t == null then none else some (reap ops s m t))
  unfolding reap
  scanned t nn (no_zombie _ _ e none_of) =
      let is_null : (t == null) ≡ true = (==_iff t null).1 e in rw is_null (nothing none_of)
  scanned t nn (first_zombie before _ after _ e ne none_before hit) =
      let there_is : (t == null) ≡ false = ne→==_false t null ne in
      let s' = (reap ops s m t).manager in
      let free = alloc_task-unnamed s' before t after (subst NotNull e nn) (ground arith) in
      rw there_is (
        reaped before t after _ e none_before hit refl refl (λ a. refl) refl
          (λ h. free (ap (alloc_task s') (sym e) ∙ h)))

  -- The search of `sys_wait` in a table without null takes the first zombie that is a child of the
  -- running task: it gives its number and its status, clears that task and no other, gives its
  -- page directory and then its stack back, and `alloc_task` finds a free entry after that. If no
  -- task of the table is a zombie child, it finds none.
  pub wait_scan-WaitResult : NotNull table → WaitResult ops s m table (wait_scan ops s m table)
  unfolding wait_scan
  wait_scan-WaitResult nn =
      scanned (find_zombie s s.curr_task table) nn (find_zombie-ZombieResult s s.curr_task table nn)
