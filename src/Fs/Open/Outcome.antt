-- ===== src/Fs/Open/Outcome.antt =====
-- What `sys_open` gives.
use os_training.Base.{
  ℕ, ◌<◌, ◌≡◌, ◌≢◌, refl, sym, ap, ◌∙◌, ℤ, pos, is_neg, minus_one, ◌==◌, ==_iff, Bool-cases, inl,
  inr, if◌then◌else◌, Option, none, some, List, length, set, get_or-set, length-set, arith,
}
use mathlib.Core.Path.{subst}
use os_training.LinkedList.{null}
use os_training.LinkedList.Chain.{IsList}
use os_training.Sched.{Manager}
use os_training.Paths.{path_next_child}
use os_training.Files.{
  File, zeroed, file_alloc, file_free, task_file, opened, first_index, is_unused,
}
use os_training.Files.Table.{entry, FileResult, allotted, exhausted, file_alloc-FileResult}
use os_training.Files.Descriptors.{HasTable, FdResult, taken, all_taken, task_alloc_fd-FdResult}
use os_training.Fs.{Kernel, address, op_of}
use os_training.Fs.Find.{Chosen, mount_of-Chosen}
use os_training.Fs.Open.{name_copied, open_on, open_chosen, open_with_fd, open_with_file, sys_open}

-- The file that an operation `open` is given.
abbrev pub request : (fs : ℕ) → (path : Option (List ℕ)) → (flags : ℤ) → File
request fs path flags = record zeroed {
  ref = pos 1;
  dev_id = minus_one;
  fs = fs;
  mode = flags;
  file_name = name_copied zeroed.file_name path;
}

-- The file system that is asked, and the path that it gets, where `m` is the one that fits.
abbrev pub asked_fs : (root m : ℕ) → ℕ
asked_fs root m = if m == null then root else m

abbrev pub asked_path : (name : List ℕ) → (m : ℕ) → Option (List ℕ)
asked_path name m = if m == null then some name else path_next_child name

module _ {S : Type 0} where
  pub data OpenResult (k : Kernel S) (name : List ℕ) (flags : ℤ) (ms : List ℕ)
      : Option (ℤ × Kernel S) → Type 0 where
    -- Every file of the table is open; nothing changes.
    no_file :
        ((j : ℕ) → j < length k.file_table → (entry k.file_table j).ref ≢ pos 0)
        → OpenResult k name flags ms (some (minus_one, k))
    -- The task has no descriptor left; the counts of all files are as before.
    no_fd :
        (table : List File)
        → ((j : ℕ) → j < 128 → task_file k.manager (pos j) ≢ null)
        → ((j : ℕ) → (entry table j).ref ≡ (entry k.file_table j).ref)
        → OpenResult k name flags ms (some (minus_one, record k { file_table = table }))
    -- File `i` and descriptor `fd`, both free before, belong to one another now, whatever the
    -- file system says; no other file and no other descriptor changes.
    answered :
        (m i fd : ℕ) (k' : Kernel S) (call : ℤ × File × S)
        → Chosen k.fs_tbl name ms m
        → call
          ≡ (op_of k (asked_fs k.root_fs m)).open_file
              (asked_fs k.root_fs m)
              (asked_path name m)
              (request (asked_fs k.root_fs m) (asked_path name m) flags)
              k.inner
        → (entry k.file_table i).ref ≡ pos 0
        → task_file k.manager (pos fd) ≡ null
        → k'.inner ≡ call.2
        → ((j : ℕ) → entry k'.file_table j ≡ (if i == j then call.1 else entry k.file_table j))
        → ((j : ℕ)
            → task_file k'.manager (pos j)
              ≡ (if fd == j then address i else task_file k.manager (pos j)))
        → OpenResult k name flags ms (some (if is_neg call.0 then minus_one else pos fd, k'))

-- The call, and what it leaves.
abbrev pub call_of :
    {S : Type 0} → (k : Kernel S) (fs : ℕ) (path : Option (List ℕ)) (flags : ℤ) → ℤ × File × S
call_of k fs path flags = (op_of k fs).open_file fs path (request fs path flags) k.inner

abbrev pub leaves : {S : Type 0} → Kernel S → (i : ℕ) → ℤ × File × S → Kernel S
leaves k i call = record k { file_table = set k.file_table i call.1; inner = call.2 }

abbrev pub answer : {S : Type 0} → (fd : ℕ) → ℤ × File × S → ℤ
answer fd call = if is_neg call.0 then minus_one else pos fd

file_alloc-length :
    (table : List File) (i : ℕ) (table' : List File)
    → file_alloc table ≡ some (i, table')
    → length table' ≡ length table
unfolding file_alloc
file_alloc-length table i table' e = go (first_index is_unused table) e
  where
    go : (o : Option ℕ) → opened table o ≡ some (i, table') → length table' ≡ length table
    go none h = cc
    go (some j) h =
        let same : set table j (record zeroed { ref = pos 1 }) ≡ table' = cc in
        ap length (sym same) ∙ length-set table j (record zeroed { ref = pos 1 })

module _ {S : Type 0} (k : Kernel S) where
  open_on-answer :
      (fs : ℕ) (path : Option (List ℕ)) (flags : ℤ) (i fd : ℕ)
      → entry k.file_table i ≡ record zeroed { ref = pos 1 }
      → open_on k fs path flags (address i) fd
        ≡ (answer fd (call_of k fs path flags), leaves k i (call_of k fs path flags))
  unfolding open_on
  open_on-answer fs path flags i fd e = rw e (ground arith)

  open_chosen-answer :
      (name : List ℕ) (flags : ℤ) (i fd m : ℕ)
      → entry k.file_table i ≡ record zeroed { ref = pos 1 }
      → let fs = asked_fs k.root_fs m in
        let call = call_of k fs (asked_path name m) flags in
        open_chosen k name flags (address i) fd (some m) ≡ some (answer fd call, leaves k i call)
  unfolding open_chosen
  open_chosen-answer name flags i fd m e = elim (Bool-cases (m == null)) [
    | inl root ↦ rw root (ap some (open_on-answer k.root_fs (some name) flags i fd e))
    | inr other ↦ rw other (ap some (open_on-answer m (path_next_child name) flags i fd e))
  ]

-- A new file whose only reference is taken back leaves the counts as they were.
file_free-fresh :
    (table table' : List File) (i : ℕ)
    → i < length table'
    → (entry table i).ref ≡ pos 0
    → ((j : ℕ) → entry table' j ≡ (if i == j then record zeroed { ref = pos 1 } else entry table j))
    → (j : ℕ) → (entry (file_free table' i) j).ref ≡ (entry table j).ref
unfolding file_free
file_free-fresh table table' i lt unused eq j =
    let here : entry table' i ≡ record zeroed { ref = pos 1 } = ground (arith, eq i) in
    let fresh : File = record zeroed { ref = pos 0 } in
    let put = get_or-set table' i j fresh zeroed lt in
    rw here (elim (Bool-cases (i == j)) [
      | inl same ↦
          let whole : entry (set table' i fresh) j ≡ fresh = put ∙ rw same refl in
          ap (λ f. f.ref) whole
          ∙ sym (ap (λ a. (entry table a).ref) (sym ((==_iff i j).0 same)) ∙ unused)
      | inr other ↦
          let whole : entry (set table' i fresh) j ≡ entry table' j = put ∙ rw other refl in
          let kept : entry table' j ≡ entry table j = eq j ∙ rw other refl in
          ap (λ f. f.ref) (whole ∙ kept)
    ])

-- A write over a write at the same index.
pub put_over :
    (table old : List File) (i j : ℕ) (v w : File)
    → i < length table
    → entry table j ≡ (if i == j then w else entry old j)
    → entry (set table i v) j ≡ (if i == j then v else entry old j)
put_over table old i j v w lt e = elim (Bool-cases (i == j)) [
  | inl same ↦ get_or-set table i j v zeroed lt ∙ rw same refl
  | inr other ↦
      let kept : entry table j ≡ entry old j = e ∙ rw other refl in
      let other_kept : entry (set table i v) j ≡ entry table j =
        get_or-set table i j v zeroed lt ∙ rw other refl in
      rw other (other_kept ∙ kept)
]

module _ {S : Type 0} (k : Kernel S) (name : List ℕ) (flags : ℤ) (ms : List ℕ) where
  open_with_fd-OpenResult :
      (i : ℕ) (table : List File) {o : Option (ℕ × Manager)}
      → IsList k.fs_nodes k.mounted_list ms
      → i < length table
      → (entry k.file_table i).ref ≡ pos 0
      → ((j : ℕ)
          → entry table j
            ≡ (if i == j then record zeroed { ref = pos 1 } else entry k.file_table j))
      → FdResult k.manager (address i) o
      → OpenResult k name flags ms
          (open_with_fd (record k { file_table = table }) name flags (address i) o)
  unfolding open_with_fd
  open_with_fd-OpenResult i table is lt unused eq (all_taken none_free) =
      no_fd (file_free table i) none_free (file_free-fresh k.file_table table i lt unused eq)
  open_with_fd-OpenResult i table is lt unused eq (taken fd manager inside free before leads) =
      let k1 : Kernel S = record k { manager = manager; file_table = table } in
      let (m, found, chosen) = mount_of-Chosen k1 name ms is in
      let fs = asked_fs k.root_fs m in
      let call = call_of k1 fs (asked_path name m) flags in
      let here : entry table i ≡ record zeroed { ref = pos 1 } = ground (arith, eq i) in
      let after : (j : ℕ)
          → entry (set table i call.1) j ≡ (if i == j then call.1 else entry k.file_table j) =
        λ j. put_over table k.file_table i j call.1 _ lt (eq j) in
      subst (λ o. OpenResult k name flags ms o)
        (sym (
          ap (open_chosen k1 name flags (address i) fd) found
          ∙ open_chosen-answer k1 name flags i fd m here))
        (answered m i fd (leaves k1 i call) call chosen refl unused free refl after leads)

  open_with_file-OpenResult :
      {o : Option (ℕ × List File)}
      → IsList k.fs_nodes k.mounted_list ms
      → HasTable k.manager
      → file_alloc k.file_table ≡ o
      → FileResult k.file_table o
      → OpenResult k name flags ms (open_with_file k name flags o)
  unfolding open_with_file
  open_with_file-OpenResult is full e (exhausted all_used) = no_file all_used
  open_with_file-OpenResult is full e (allotted i table lt unused before eq) =
      let size = file_alloc-length k.file_table i table e in
      open_with_fd-OpenResult i table is (omega (arith, size)) unused eq
        (task_alloc_fd-FdResult k.manager (address i) full)

  -- With the mounted file systems `ms` and the full descriptor table of the running task,
  -- `sys_open` ends in one of three ways. No file of the table is free, and nothing changes; or no
  -- descriptor is free, and all counts of references, descriptors and file systems are as before;
  -- or the first mounted file system whose mount point the path begins with, else the root file
  -- system with the whole path, is asked to open a cleared file with one reference, in a place of
  -- the table that was free, and the descriptor that was free and that place belong to one another
  -- after that, whatever the answer, with no other file and no other descriptor changed. A
  -- negative answer is -1, any other gives the descriptor.
  pub sys_open-OpenResult :
      IsList k.fs_nodes k.mounted_list ms
      → HasTable k.manager
      → OpenResult k name flags ms (sys_open k name flags)
  unfolding sys_open
  sys_open-OpenResult is full =
      open_with_file-OpenResult is full refl (file_alloc-FileResult k.file_table)
