-- ===== src/Fs/Close/Outcome.antt =====
-- What `sys_close` gives.
use mathlib.Core.Path.{subst}
use os_training.Base.{
  ℕ, zero, suc, ◌<◌, ◌≡◌, refl, sym, ap, ◌∙◌, ℤ, pos, negsuc, is_pos, minus_one, true, false, ◌==◌,
  if◌then◌else◌, Option, none, some, length, arith,
}
use os_training.LinkedList.{null}
use os_training.Files.{task_file, task_remove_fd}
use os_training.Files.Table.{one_less, entry}
use os_training.Files.Descriptors.{HasTable, task_file-task_remove_fd}
use os_training.Fs.{Kernel, address, is_fd_bad}
use os_training.Fs.Close.References.{
  freed, close_call, drop_reference-shared, drop_reference-last, shared-entry, last-entry,
}
use os_training.Fs.Close.{is_one, drop_reference, sys_close}

-- What `sys_close` gives for the descriptor `fd`.
pub data CloseResult {S : Type 0} (k : Kernel S) (fd : ℕ) : Option (ℤ × Kernel S) → Type 0 where
  not_open : task_file k.manager (pos fd) ≡ null → CloseResult k fd (some (minus_one, k))
  -- The file has other references: the file system is not called.
  shared :
      (i n : ℕ) (k' : Kernel S)
      → task_file k.manager (pos fd) ≡ address i
      → (entry k.file_table i).ref ≡ pos (suc (suc n))
      → k'.inner ≡ k.inner
      → ((j : ℕ)
          → entry k'.file_table j
            ≡ (if i == j then one_less (entry k.file_table i) else entry k.file_table j))
      → ((j : ℕ)
          → task_file k'.manager (pos j) ≡ (if fd == j then null else task_file k.manager (pos j)))
      → CloseResult k fd (some (pos 0, k'))
  -- It was the last: the file system closes the file, and its place is free if that leaves the
  -- count at 0.
  last :
      (i : ℕ) (k' : Kernel S)
      → task_file k.manager (pos fd) ≡ address i
      → (entry k.file_table i).ref ≡ pos 1
      → k'.inner ≡ (close_call k i).1
      → ((j : ℕ)
          → entry k'.file_table j
            ≡ (if i == j then freed (close_call k i).0 else entry k.file_table j))
      → ((j : ℕ)
          → task_file k'.manager (pos j) ≡ (if fd == j then null else task_file k.manager (pos j)))
      → CloseResult k fd (some (pos 0, k'))
  -- The assertion stops the kernel.
  stopped :
      (i : ℕ)
      → task_file k.manager (pos fd) ≡ address i
      → is_pos (entry k.file_table i).ref ≡ false
      → CloseResult k fd none

module _ {S : Type 0} (k : Kernel S) (fd : ℕ) where
  sys_close-not_open :
      task_file k.manager (pos fd) ≡ null → sys_close k (pos fd) ≡ some (minus_one, k)
  unfolding sys_close is_fd_bad
  sys_close-not_open e = rw e refl

  pub sys_close-checked :
      (i : ℕ)
      → task_file k.manager (pos fd) ≡ address i
      → sys_close k (pos fd) ≡ (
          if is_pos (entry k.file_table i).ref
          then some (
            pos 0,
            record (drop_reference k (address i)) {
              manager = task_remove_fd (drop_reference k (address i)).manager (pos fd);
            },
          )
          else none)
  unfolding sys_close is_fd_bad
  sys_close-checked i e = let there : (suc i == 0) ≡ false = ground arith in rw (e, there) refl

-- The tasks of a kernel after the descriptor is removed.
abbrev pub removed : {S : Type 0} → (fd : ℕ) → Kernel S → Option (ℤ × Kernel S)
removed fd k = some (pos 0, record k { manager = task_remove_fd k.manager (pos fd) })

module _ {S : Type 0} (k : Kernel S) (fd : ℕ) (full : HasTable k.manager)
    (in_range : fd < 128) where
  sys_close-counted :
      (i : ℕ)
      → task_file k.manager (pos fd) ≡ address i
      → i < length k.file_table
      → (r : ℤ) → (entry k.file_table i).ref ≡ r
      → CloseResult k fd (sys_close k (pos fd))
  sys_close-counted i e lt (pos zero) count =
      let none_left : is_pos (entry k.file_table i).ref ≡ false = ap is_pos count in
      subst (λ o. CloseResult k fd o) (sym (sys_close-checked k fd i e ∙ rw none_left refl))
        (stopped i e none_left)
  sys_close-counted i e lt (pos (suc zero)) count =
      let positive : is_pos (entry k.file_table i).ref ≡ true = ap is_pos count in
      let one : is_one (entry k.file_table i).ref ≡ true = ap is_one count in
      let dropped = drop_reference-last k i lt one in
      let less = one_less (entry k.file_table i) in
      subst (λ o. CloseResult k fd o)
        (sym (sys_close-checked k fd i e ∙ rw positive refl ∙ ap (removed fd) dropped))
        (last i _ e count refl (last-entry k i lt less (close_call k i).0)
          (λ j. task_file-task_remove_fd k.manager fd j full in_range))
  sys_close-counted i e lt (pos (suc (suc n))) count =
      let positive : is_pos (entry k.file_table i).ref ≡ true = ap is_pos count in
      let more : is_one (entry k.file_table i).ref ≡ false = ap is_one count ∙ ground arith in
      let dropped = drop_reference-shared k i lt more in
      subst (λ o. CloseResult k fd o)
        (sym (sys_close-checked k fd i e ∙ rw positive refl ∙ ap (removed fd) dropped))
        (shared i n _ e count refl (shared-entry k i lt)
          (λ j. task_file-task_remove_fd k.manager fd j full in_range))
  sys_close-counted i e lt (negsuc n) count =
      let none_left : is_pos (entry k.file_table i).ref ≡ false = ap is_pos count in
      subst (λ o. CloseResult k fd o) (sym (sys_close-checked k fd i e ∙ rw none_left refl))
        (stopped i e none_left)

  -- For a descriptor below 128 that is free or leads into the file table, `sys_close` ends in one
  -- of four ways. A free descriptor gives -1 and changes nothing. A file with more than one
  -- reference loses one, and no file system is called. With its last reference the file system of
  -- the file closes it, with the count at 0. In both of these the descriptor is free after that,
  -- and no other file and no other descriptor changes. A file whose count is not positive fails
  -- the assertion. The task's table has its 128 entries.
  pub sys_close-CloseResult :
      ((i : ℕ) → task_file k.manager (pos fd) ≡ address i → i < length k.file_table)
      → CloseResult k fd (sys_close k (pos fd))
  sys_close-CloseResult valid = go (task_file k.manager (pos fd)) refl
    where
      go : (p : ℕ) → task_file k.manager (pos fd) ≡ p → CloseResult k fd (sys_close k (pos fd))
      go zero e = subst (λ o. CloseResult k fd o) (sym (sys_close-not_open k fd e)) (not_open e)
      go (suc i) e = sys_close-counted i e (valid i e) (entry k.file_table i).ref refl
