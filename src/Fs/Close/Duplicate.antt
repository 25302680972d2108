-- ===== src/Fs/Close/Duplicate.antt =====
-- `sys_dup`, and `sys_close` of the descriptor that it gives.
use os_training.Base.{
  ==_self, ℕ, suc, ◌<◌, ◌≡◌, refl, sym, ap, ◌∙◌, pos, inc, is_pos, true, false, ◌==◌, ==_iff,
  Bool-cases, inl, inr, if◌then◌else◌, Option, none, some, List, length, set, arith,
}
use os_training.LinkedList.{null}
use os_training.Sched.{Manager}
use os_training.Files.{File, file_inc_ref, task_file, task_alloc_fd, task_remove_fd}
use os_training.Files.Table.{one_less, counted_back, file_inc_ref-entry, file_inc_ref-length, entry}
use os_training.Files.Descriptors.{
  HasTable, FdResult, taken, all_taken, task_alloc_fd-FdResult, task_file-task_remove_fd,
  task_alloc_fd-HasTable,
}
use os_training.Fs.{Kernel, address, is_fd_bad}
use os_training.Fs.Close.References.{drop_reference-shared, shared-entry}
use os_training.Fs.Close.Outcome.{sys_close-checked, removed}
use os_training.Fs.Close.{is_one, sys_close, dup_to, sys_dup}

abbrev one_more : File → File
one_more f = record f { ref = inc f.ref }

restored :
    (table : List File) (i n j : ℕ)
    → i < length table
    → (entry table i).ref ≡ pos (suc n)
    → (if i == j then one_less (entry (file_inc_ref table i) i) else entry (file_inc_ref table i) j)
      ≡ entry table j
restored table i n j lt count =
    let own : entry (file_inc_ref table i) i ≡ one_more (entry table i) =
      file_inc_ref-entry table i i lt ∙ rw (==_self i) refl in
    elim (Bool-cases (i == j)) [
      | inl hit ↦ rw hit (
          ap one_less own
          ∙ counted_back (entry table i) (suc n) count
          ∙ ap (entry table) ((==_iff i j).0 hit))
      | inr miss ↦ rw miss (file_inc_ref-entry table i j lt ∙ rw miss refl)
    ]

freed_again :
    (s m : Manager) (fd j p : ℕ)
    → task_file s (pos fd) ≡ null
    → task_file m (pos j) ≡ (if fd == j then p else task_file s (pos j))
    → (if fd == j then null else task_file m (pos j)) ≡ task_file s (pos j)
freed_again s m fd j p was_free leads = elim (Bool-cases (fd == j)) [
  | inl hit ↦ rw hit (sym was_free ∙ ap (λ a. task_file s (pos a)) ((==_iff fd j).0 hit))
  | inr miss ↦ rw miss (leads ∙ rw miss refl)
]

module _ {S : Type 0} (k : Kernel S) (fd i n place : ℕ) where
  sys_dup-allotted :
      task_file k.manager (pos fd) ≡ address i
      → sys_dup k (pos fd) ≡ dup_to k (address i) (task_alloc_fd k.manager (address i))
  unfolding sys_dup is_fd_bad
  sys_dup-allotted e = let there : (suc i == 0) ≡ false = ground arith in rw (e, there) refl

  -- For a descriptor of a file with a positive count, and another descriptor free, `sys_dup` gives
  -- a descriptor, and `sys_close` of that one succeeds and leaves every file of the table, every
  -- descriptor and the file systems as they were before `sys_dup`. The task's table has its 128
  -- entries, and the file is in the table.
  pub sys_dup-sys_close :
      HasTable k.manager
      → task_file k.manager (pos fd) ≡ address i
      → i < length k.file_table
      → (entry k.file_table i).ref ≡ pos (suc n)
      → place < 128
      → task_file k.manager (pos place) ≡ null
      → (fd' : ℕ) × (k1 : Kernel S) × (k2 : Kernel S) × (sys_dup k (pos fd) ≡ (pos fd', k1))
        × (sys_close k1 (pos fd') ≡ some (pos 0, k2))
        × (k2.inner ≡ k.inner)
        × ((j : ℕ) → entry k2.file_table j ≡ entry k.file_table j)
        × ((j : ℕ) → task_file k2.manager (pos j) ≡ task_file k.manager (pos j))
  unfolding dup_to
  sys_dup-sys_close full open_file lt count inside free =
      go (task_alloc_fd k.manager (address i)) refl
        (task_alloc_fd-FdResult k.manager (address i) full)
    where
      go :
          (o : Option (ℕ × Manager))
          → task_alloc_fd k.manager (address i) ≡ o
          → FdResult k.manager (address i) o
          → (fd' : ℕ) × (k1 : Kernel S) × (k2 : Kernel S) × (sys_dup k (pos fd) ≡ (pos fd', k1))
            × (sys_close k1 (pos fd') ≡ some (pos 0, k2))
            × (k2.inner ≡ k.inner)
            × ((j : ℕ) → entry k2.file_table j ≡ entry k.file_table j)
            × ((j : ℕ) → task_file k2.manager (pos j) ≡ task_file k.manager (pos j))
      go none e (all_taken none_free) = absurd (none_free place inside free)
      go (some (fd', m)) e (taken _ _ in_range was_free before leads) =
          let table = file_inc_ref k.file_table i in
          let k1 : Kernel S = record k { manager = m; file_table = table } in
          let own : entry table i ≡ one_more (entry k.file_table i) =
            file_inc_ref-entry k.file_table i i lt ∙ rw (==_self i) refl in
          let counted : (entry table i).ref ≡ pos (suc (suc n)) =
            ap (λ f. f.ref) own ∙ ap inc count in
          let positive : is_pos (entry table i).ref ≡ true = ap is_pos counted in
          let several : is_one (entry table i).ref ≡ false = ap is_one counted ∙ ground arith in
          let lt' : i < length table = omega (arith, file_inc_ref-length k.file_table i, lt) in
          let led : task_file m (pos fd') ≡ address i = leads fd' ∙ rw (==_self fd') refl in
          let full' = task_alloc_fd-HasTable k.manager (address i) fd' m full e in
          (
            fd',
            k1,
            record k1 {
              file_table = set table i (one_less (entry table i));
              manager = task_remove_fd m (pos fd');
            },
            sys_dup-allotted open_file ∙ ap (dup_to k (address i)) e,
            sys_close-checked k1 fd' i led
                ∙ rw positive refl
                ∙ ap (removed fd') (drop_reference-shared k1 i lt' several),
            refl,
            λ j. shared-entry k1 i lt' j ∙ restored k.file_table i n j lt count,
            λ j.
                task_file-task_remove_fd m fd' j full' in_range
                ∙ freed_again k.manager m fd' j (address i) was_free (leads j),
          )
