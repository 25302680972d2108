-- ===== src/Process/Share.antt =====
-- The files of a new task are those of the running one.
use os_training.Base.{
  ℕ, zero, suc, ◌+◌, ◌<◌, ◌≡◌, ◌≢◌, refl, sym, ap, ◌∙◌, pos, inc, true, false, ◌==◌, ==_iff,
  Bool-cases, inl, inr, if◌then◌else◌, List, [], ◌∷◌, length, get_or-set, set, replicate,
  length-replicate, arith,
}
use mathlib.Core.Path.{subst}
use os_training.LinkedList.{null}
use os_training.Files.{File, zeroed, file_inc_ref}
use os_training.Files.Table.{file_inc_ref-length, entry}
use os_training.Fs.{address, index_of}
use os_training.Process.{copy_files}

-- How many of the descriptors lead to the file.
abbrev pub uses : (p : ℕ) → List ℕ → ℕ
uses p [] = 0
uses p (x ∷ xs) = if x == p then suc (uses p xs) else uses p xs

-- Every descriptor is null or leads into the table.
abbrev pub Within : (size : ℕ) → List ℕ → Type 0
Within size [] = Unit {0}
Within size (x ∷ xs) = (x ≢ null → index_of x < size) × Within size xs

file_inc_ref-ref :
    (files : List File) (x i n : ℕ)
    → x ≢ null
    → index_of x < length files
    → (entry files i).ref ≡ pos n
    → (entry (file_inc_ref files (index_of x)) i).ref ≡ pos (if x == address i then suc n else n)
unfolding file_inc_ref
file_inc_ref-ref files zero i n ne lt count = absurd (ne refl)
file_inc_ref-ref files (suc x) i n ne lt count =
    let more : File = record (entry files x) { ref = inc (entry files x).ref } in
    let put = get_or-set files x i more zeroed lt in
    elim (Bool-cases (x == i)) [
      | inl same ↦
          let at : x ≡ i = (==_iff x i).0 same in
          let own : entry (set files x more) i ≡ more = put ∙ rw same refl in
          let up : (suc x == suc i) ≡ true = ground arith in
          rw up (ap (λ f. f.ref) own ∙ ap (λ a. inc (entry files a).ref) at ∙ ap inc count)
      | inr other ↦
          let kept : entry (set files x more) i ≡ entry files i = put ∙ rw other refl in
          let up : (suc x == suc i) ≡ false = ground arith in rw up (ap (λ f. f.ref) kept ∙ count)
    ]

copy_files-child :
    (parent : List ℕ) (files : List File)
    → (copy_files parent (replicate (length parent) null) files).0 ≡ parent
unfolding copy_files
copy_files-child [] files = refl
copy_files-child (p ∷ parent) files = elim (Bool-cases (p == null)) [
  | inl free ↦
      let here : null ≡ p = sym ((==_iff p null).0 free) in
      rw free (
        ap (λ a. a ∷ (copy_files parent (replicate (length parent) null) files).0) here
        ∙ ap (λ l. p ∷ l) (copy_files-child parent files))
  | inr used ↦ rw used (ap (λ l. p ∷ l) (copy_files-child parent (file_inc_ref files (index_of p))))
]

copy_files-counts :
    (parent child : List ℕ) (files : List File) (i n : ℕ)
    → length child ≡ length parent
    → Within (length files) parent
    → (entry files i).ref ≡ pos n
    → (entry (copy_files parent child files).1 i).ref ≡ pos (n + uses (address i) parent)
unfolding copy_files
copy_files-counts [] child files i n e w count = count ∙ ap pos (omega arith)
copy_files-counts (p ∷ parent) [] files i n e w count = absurd (omega arith)
copy_files-counts (p ∷ parent) (c ∷ child) files i n e (lt, w) count =
    elim (Bool-cases (p == null)) [
      | inl free ↦
          let far : (p == address i) ≡ false = ground arith in
          rw (free, far) (copy_files-counts parent child files i n (omega arith) w count)
      | inr used ↦
          let there : p ≢ null = λ h. absurd (ground arith) in
          let files' = file_inc_ref files (index_of p) in
          let w' = subst (λ l. Within l parent) (sym (file_inc_ref-length files (index_of p))) w in
          let count' = file_inc_ref-ref files p i n there (lt there) count in
          let rest =
            copy_files-counts parent child files' i (if p == address i then suc n else n)
              (omega arith) w' count' in
          rw used (rest ∙ ap pos (ground arith))
    ]

-- When every descriptor of the running task is null or leads into the file table, the loop of
-- `copy_opened_files` over an empty table of the same length gives the child the same descriptors,
-- and adds to the count of each file, where it is not negative, the number of descriptors that
-- lead to it.
pub copy_files-shares :
    (parent : List ℕ) (files : List File)
    → Within (length files) parent
    → let (child, files') = copy_files parent (replicate (length parent) null) files in
      (child ≡ parent)
      × ((i n : ℕ)
          → (entry files i).ref ≡ pos n
          → (entry files' i).ref ≡ pos (n + uses (address i) parent))
copy_files-shares parent files w = (
  copy_files-child parent files,
  λ i n count.
      copy_files-counts parent (replicate (length parent) null) files i n
        (length-replicate (length parent) null) w count,
)
