-- ===== src/Fs/Open/Leak.antt =====
-- A call of `sys_open` that fails keeps its file and its descriptor.
use os_training.Base.{
  ==_self, ℕ, ◌<◌, ◌≡◌, refl, ap, ◌∙◌, ℤ, pos, is_neg, minus_one, true, if◌then◌else◌, Option, some,
  List, length,
}
use os_training.LinkedList.{null}
use os_training.LinkedList.Chain.{IsList}
use os_training.Files.{task_file}
use os_training.Files.Table.{entry}
use os_training.Files.Descriptors.{HasTable}
use os_training.Fs.{Kernel, address}
use os_training.Fs.Find.{Chosen, Chosen-unique}
use os_training.Fs.Open.{sys_open}
use os_training.Fs.Open.Outcome.{
  OpenResult, no_file, no_fd, answered, call_of, asked_fs, asked_path, sys_open-OpenResult,
}

-- With a file and a descriptor free, when the one file system that the path leads to refuses the
-- one call that it gets and leaves the count of the file alone, `sys_open` gives -1, and a
-- descriptor that was free leads to a file that was free and has one reference now. The task's
-- table has its 128 entries.
pub sys_open-leaks :
    {S : Type 0}
    → (k : Kernel S) (name : List ℕ) (flags : ℤ) (ms : List ℕ) (m spare place : ℕ)
    → IsList k.fs_nodes k.mounted_list ms
    → HasTable k.manager
    → Chosen k.fs_tbl name ms m
    → is_neg (call_of k (asked_fs k.root_fs m) (asked_path name m) flags).0 ≡ true
    → (call_of k (asked_fs k.root_fs m) (asked_path name m) flags).1.ref ≡ pos 1
    → spare < length k.file_table
    → (entry k.file_table spare).ref ≡ pos 0
    → place < 128
    → task_file k.manager (pos place) ≡ null
    → (k' : Kernel S) × (i : ℕ) × (fd : ℕ) × (sys_open k name flags ≡ some (minus_one, k'))
      × (task_file k.manager (pos fd) ≡ null)
      × (task_file k'.manager (pos fd) ≡ address i)
      × ((entry k.file_table i).ref ≡ pos 0)
      × ((entry k'.file_table i).ref ≡ pos 1)
sys_open-leaks {S} k name flags ms m spare place is full chosen refuses keeps inside unused
      inside_table free =
    go (sys_open-OpenResult k name flags ms is full)
  where
    go :
        {o : Option (ℤ × Kernel S)}
        → OpenResult k name flags ms o
        → (k' : Kernel S) × (i : ℕ) × (fd : ℕ) × (o ≡ some (minus_one, k'))
          × (task_file k.manager (pos fd) ≡ null)
          × (task_file k'.manager (pos fd) ≡ address i)
          × ((entry k.file_table i).ref ≡ pos 0)
          × ((entry k'.file_table i).ref ≡ pos 1)
    go (no_file none_free) = absurd (none_free spare inside unused)
    go (no_fd table none_free same) = absurd (none_free place inside_table free)
    go (answered m' i fd k' call chosen' called unused' free' inner entries leads) =
        let asked = λ (a : ℕ). call_of k (asked_fs k.root_fs a) (asked_path name a) flags in
        let same : call ≡ asked m = called ∙ ap asked (Chosen-unique chosen' chosen refl) in
        let own : entry k'.file_table i ≡ call.1 = entries i ∙ rw (==_self i) refl in
        (
          k',
          i,
          fd,
          ap (λ b. some (if b then minus_one else pos fd, k'))
              (ap (λ c. is_neg c.0) same ∙ refuses),
          free',
          leads fd ∙ rw (==_self fd) refl,
          unused',
          ap (λ f. f.ref) own ∙ ap (λ c. c.1.ref) same ∙ keeps,
        )
