-- ===== src/Process/Children.antt =====
-- What becomes of the children of a task that exits.
use os_training.Base.{
  ℕ, ◌≡◌, ◌≢◌, refl, sym, ap, ◌∙◌, Bool, true, false, ◌&&◌, ◌==◌, ==_iff, Bool-cases, inl, inr,
  if◌then◌else◌, List, [], ◌∷◌, arith,
}
use mathlib.Core.Path.{subst}
use os_training.Sched.{Manager, Task, put_task}
use os_training.Process.{is_zombie, move_children}
use os_training.Process.Reap.{is_zombie_child}

abbrev pub listed : (a : ℕ) → List ℕ → Bool
listed a [] = false
listed a (t ∷ ts) = if a == t then true else listed a ts

abbrev pub any_zombie : Manager → (curr : ℕ) → List ℕ → Bool
any_zombie s curr [] = false
any_zombie s curr (t ∷ ts) = if is_zombie_child s curr t then true else any_zombie s curr ts

-- A task that is handed over, if it is a child of `curr`.
abbrev pub adopted : (first curr : ℕ) → Task → Task
adopted first curr t = if t.parent == curr then record t { parent = first } else t

adopted-twice :
    (first curr : ℕ) (t : Task)
    → first ≢ curr
    → adopted first curr (adopted first curr t) ≡ adopted first curr t
adopted-twice first curr t ne = ground arith

abbrev zombie_child_of : (curr : ℕ) → Task → Bool
zombie_child_of curr t = t.parent == curr && is_zombie t.state

adopted-zombie :
    (first curr : ℕ) (t : Task)
    → first ≢ curr
    → zombie_child_of curr t ≡ false
    → zombie_child_of curr (adopted first curr t) ≡ false
adopted-zombie first curr t ne h = ground arith

adopted-parent : (first curr : ℕ) (t : Task) → first ≢ curr → (adopted first curr t).parent ≢ curr
adopted-parent first curr t ne e = ground arith

always : (b : Bool) → (if b then true else true) ≡ true
always true = refl
always false = refl

-- One round of the loop.
abbrev adopt : Manager → (curr first t : ℕ) → Manager
adopt s curr first t =
    if (s.tasks t).parent == curr
    then record s { tasks = put_task s.tasks t (record (s.tasks t) { parent = first }) }
    else s

adopt-tasks :
    (s : Manager) (curr first t a : ℕ)
    → (adopt s curr first t).tasks a
      ≡ (if a == t then adopted first curr (s.tasks a) else s.tasks a)
adopt-tasks s curr first t a = elim (Bool-cases (a == t)) [
  | inl same ↦
      subst
        (λ x.
          (adopt s curr first t).tasks x
          ≡ (if x == t then adopted first curr (s.tasks x) else s.tasks x))
        (sym ((==_iff a t).0 same)) (own t)
  | inr other ↦ rw other (kept other)
]
  where
    own :
        (t : ℕ)
        → (adopt s curr first t).tasks t
          ≡ (if t == t then adopted first curr (s.tasks t) else s.tasks t)
    own t = ground arith

    kept : (a == t) ≡ false → (adopt s curr first t).tasks a ≡ s.tasks a
    kept other = ground arith

module _ (curr first : ℕ) (ne : first ≢ curr) where
  children-adopted :
      (s : Manager) (table : List ℕ) (b : Bool) (a : ℕ)
      → (move_children s curr first table b).0.tasks a
        ≡ (if listed a table then adopted first curr (s.tasks a) else s.tasks a)
  unfolding move_children
  children-adopted s [] b a = refl
  children-adopted s (t ∷ ts) b a =
      let s1 = adopt s curr first t in
      let rest =
        children-adopted s1 ts
          (if (s.tasks t).parent == curr && is_zombie (s.tasks t).state then true else b) a in
      let one = adopt-tasks s curr first t a in
      rest ∙ elim (Bool-cases (a == t)) [
        | inl same ↦
            let now : s1.tasks a ≡ adopted first curr (s.tasks a) = one ∙ rw same refl in
            rw same (elim (Bool-cases (listed a ts)) [
              | inl again ↦
                  rw again (ap (adopted first curr) now ∙ adopted-twice first curr (s.tasks a) ne)
              | inr once ↦ rw once now
            ])
        | inr other ↦
            let now : s1.tasks a ≡ s.tasks a = one ∙ rw other refl in
            rw other (ap (λ x. if listed a ts then adopted first curr x else x) now)
      ]

  adopt-zombie_child :
      (s : Manager) (t a : ℕ)
      → is_zombie_child s curr t ≡ false
      → is_zombie_child (adopt s curr first t) curr a ≡ is_zombie_child s curr a
  adopt-zombie_child s t a none_here =
      let one = adopt-tasks s curr first t a in
      elim (Bool-cases (a == t)) [
        | inl same ↦
            let now : (adopt s curr first t).tasks a ≡ adopted first curr (s.tasks a) =
              one ∙ rw same refl in
            let none_there : is_zombie_child s curr a ≡ false =
              ap (is_zombie_child s curr) ((==_iff a t).0 same) ∙ none_here in
            ap (zombie_child_of curr) now
            ∙ adopted-zombie first curr (s.tasks a) ne none_there
            ∙ sym none_there
        | inr other ↦
            let now : (adopt s curr first t).tasks a ≡ s.tasks a = one ∙ rw other refl in
            ap (zombie_child_of curr) now
      ]

  any_zombie-same :
      (s s' : Manager) (ts : List ℕ)
      → ((a : ℕ) → is_zombie_child s' curr a ≡ is_zombie_child s curr a)
      → any_zombie s' curr ts ≡ any_zombie s curr ts
  any_zombie-same s s' [] same = refl
  any_zombie-same s s' (t ∷ ts) same =
      let rest = any_zombie-same s s' ts same in
      ap (λ c. if c then true else any_zombie s' curr ts) (same t)
      ∙ ap (λ c. if is_zombie_child s curr t then true else c) rest

  flag-any :
      (s : Manager) (table : List ℕ) (b : Bool)
      → (move_children s curr first table b).1 ≡ (if any_zombie s curr table then true else b)
  unfolding move_children
  flag-any s [] b = refl
  flag-any s (t ∷ ts) b =
      let s1 = adopt s curr first t in
      let c = is_zombie_child s curr t in
      let rest = flag-any s1 ts (if c then true else b) in
      rest ∙ elim (Bool-cases c) [
        | inl hit ↦ rw hit (always (any_zombie s1 curr ts))
        | inr miss ↦
            let same = any_zombie-same s s1 ts (λ a. adopt-zombie_child s t a miss) in
            rw miss (ap (λ z. if z then true else b) same)
      ]

  -- In `sys_exit`, for a first task that is another task, every listed child of the task that
  -- exits has the first task as its parent and is otherwise as before, every other task is as
  -- before, no listed task has the exiting one as its parent, and the flag tells whether one of
  -- its children is a zombie.
  pub move_children-adopted :
      (s : Manager) (table : List ℕ)
      → let (s', moved) = move_children s curr first table false in
        ((a : ℕ)
          → s'.tasks a ≡ (if listed a table then adopted first curr (s.tasks a) else s.tasks a))
        × ((a : ℕ) → listed a table ≡ true → (s'.tasks a).parent ≢ curr)
        × (moved ≡ any_zombie s curr table)
  move_children-adopted s table = (
    children-adopted s table false,
    λ a l e.
        let now : (move_children s curr first table false).0.tasks a
            ≡ adopted first curr (s.tasks a) =
          children-adopted s table false a ∙ rw l refl in
        adopted-parent first curr (s.tasks a) ne (sym (ap (λ t. t.parent) now) ∙ e),
    flag-any s table false ∙ ground arith,
  )
