-- ===== src/Examples/Open.antt =====
-- A file table of three entries, of which the second is unused, and a task with one descriptor.
use os_training.Base.{ℕ, pos, List, [], ◌∷◌, replicate}
use os_training.Sched.{Manager}
use os_training.Files.{File, zeroed}
use os_training.Examples.Tasks.{manager}

abbrev pub file_of : ℕ → File
file_of n = record zeroed { ref = pos n; size = 100 }

abbrev pub table : List File
table = file_of 2 ∷ file_of 0 ∷ file_of 1 ∷ []

-- Descriptor 0 leads to the file at 40.
abbrev pub with_files : Manager
with_files = record manager {
  tasks = λ a. record (manager.tasks a) { file_table = 40 ∷ replicate 127 0 };
}
