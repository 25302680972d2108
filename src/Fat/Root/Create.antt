-- ===== src/Fat/Root/Create.antt =====
-- A file that `fatfs_open` creates, and the entry that `fatfs_unlink` clears.
use os_training.Base.{
  ℕ, zero, suc, ◌+◌, ◌-◌, ◌<◌, ◌≡◌, ◌≢◌, refl, ap, ◌∙◌, true, false, ltb, ◌==◌, arith, Bool-cases,
  inl, inr, ==_iff, some, none, List, [], ◌∷◌, length, set, get_or, replicate, length-set,
  length-replicate,
}
use os_training.LinkedList.Chain.{ne→==_false}
use os_training.Fat.{Fat}
use os_training.Fat.Name.{to_sfn, to_sfn_loop, same_bytes, sfn_len, to_upper}
use os_training.Fat.Dir.{DirItem, OpenFile, OpenFlags, diritem_init, no_item}
use os_training.Fat.Dir.Codec.{Fits}
use os_training.Fat.Root.{
  read_dir_entry, write_dir_entry, read_from_diritem, name_mark, matched, unmatched, open_scan,
  fatfs_open, DirEnt, readdir_loop, fatfs_readdir,
}
use os_training.Fat.Root.Entries.{RootDir, dir_entry, read_dir_entry-entry, write_dir_entry-entry}
use os_training.Fat.Root.Scan.{is_passed, is_found, open_scan-first}

length-to_sfn_loop :
    (src dest : List ℕ) (curr : ℕ) → length (to_sfn_loop src dest curr) ≡ length dest
unfolding to_sfn_loop
length-to_sfn_loop [] dest curr = refl
length-to_sfn_loop (c ∷ src) dest curr = elim (Bool-cases (ltb curr sfn_len)) [
  | inr full ↦ rw full refl
  | inl room ↦ elim (Bool-cases (c == 46)) [
    | inl dot ↦ rw (room, dot) (length-to_sfn_loop src dest 8)
    | inr other ↦
        rw (room, other)
          (length-to_sfn_loop src (set dest curr (to_upper c)) (curr + 1)
            ∙ length-set dest curr (to_upper c))
  ]
]

-- A short name has 11 bytes.
length-to_sfn : (src : List ℕ) → length (to_sfn src) ≡ sfn_len
unfolding to_sfn
length-to_sfn src =
    length-to_sfn_loop src (replicate sfn_len 32) 0 ∙ length-replicate {A = ℕ} sfn_len 32

same_bytes_refl : (n : ℕ) (xs : List ℕ) → same_bytes n xs xs ≡ true
unfolding same_bytes
same_bytes_refl zero xs = refl
same_bytes_refl (suc n) [] = refl
same_bytes_refl (suc n) (x ∷ xs) = rw ((==_iff x x).1 refl) (same_bytes_refl n xs)

diritem_init-Fits : (stack : DirItem) (path : List ℕ) → Fits (diritem_init stack 0 path)
unfolding diritem_init
diritem_init-Fits stack path = record {
  name = length-to_sfn path;
  crt_time = omega arith;
  crt_date = omega arith;
  last_acc_date = omega arith;
  fst_clus_hi = omega arith;
  wrt_time = omega arith;
  wrt_date = omega arith;
  fst_clus_l0 = omega arith;
  file_size = omega arith;
}

-- The new entry is found under its name.
init_found :
    (stack : DirItem) (path : List ℕ)
    → get_or (to_sfn path) 0 0 ≢ 0x00
    → get_or (to_sfn path) 0 0 ≢ 0xE5
    → is_found path (diritem_init stack 0 path) ≡ true
unfolding diritem_init
init_found stack path used busy =
    rw
      (
        ne→==_false (get_or (to_sfn path) 0 0) 0x00 used,
        ne→==_false (get_or (to_sfn path) 0 0) 0xE5 busy,
        same_bytes_refl sfn_len (to_sfn path),
      )
      refl

-- The branch of `fatfs_open` that creates a file.
open_new :
    (fuel : ℕ) (flags : OpenFlags) (stack : DirItem) (fat fat' : Fat) (path : List ℕ)
    (file : OpenFile) (i : ℕ)
    → open_scan fat.root_ent_cnt fat path 0 none ≡ (unmatched (some i), fat')
    → flags.creates file.mode ≡ true
    → (write_dir_entry fat' (diritem_init stack 0 path) i).0 ≡ true
    → fatfs_open fuel flags stack fat path file
      ≡ some (
        true,
        read_from_diritem file (diritem_init stack 0 path) i,
        (write_dir_entry fat' (diritem_init stack 0 path) i).1,
      )
unfolding fatfs_open
open_new fuel flags stack fat fat' path file i e creates ok =
    let item = diritem_init stack 0 path in
    let ok' = ap (λ x. (write_dir_entry x.1 item i).0) e ∙ ok in
    rw (fatfs_open, ap (λ x. x.0) e, creates, ok')
      (ap (λ x. some (true, read_from_diritem file item i, (write_dir_entry x.1 item i).1)) e)

-- In a root directory whose entries before `i` are passed by the search for a name, and whose
-- entry `i` is the end of the directory, `fatfs_open` with the flag for creation writes the new
-- entry at `i`, leaves all other entries as they are, and a search for the same name then finds
-- that entry. The short name does not begin with one of the two marks; what the stack holds where
-- the code sets nothing, the tenths of the creation time, gets into the entry. The sectors of the
-- directory can be read and written, and the buffer agrees with the sector that it is said to
-- hold.
pub fatfs_open-create :
    (fuel : ℕ) (flags : OpenFlags) (stack : DirItem) (fat : Fat) (path : List ℕ) (file : OpenFile)
    (i n : ℕ)
    → RootDir fat n
    → i < n
    → ((k : ℕ) → k < i → is_passed path (dir_entry fat k) ≡ true)
    → name_mark (dir_entry fat i) ≡ 0x00
    → flags.creates file.mode ≡ true
    → get_or (to_sfn path) 0 0 ≢ 0x00
    → get_or (to_sfn path) 0 0 ≢ 0xE5
    → (fat1 : Fat) × (fatfs_open fuel flags stack fat path file
        ≡ some (true, read_from_diritem file (diritem_init stack 0 path) i, fat1))
      × RootDir fat1 n
      × ((k : ℕ) → k ≢ i → dir_entry fat1 k ≡ dir_entry fat k)
      × ((open_scan fat1.root_ent_cnt fat1 path 0 none).0 ≡ matched (diritem_init stack 0 path) i)
fatfs_open-create fuel flags stack fat path file i n r l pass last creates used busy =
    let item = diritem_init stack 0 path in
    let (fat', r', same, found, end) = open_scan-first fat path i n r l pass in
    let (ok, r1, here, others) =
      write_dir_entry-entry fat' item i n r' l (diritem_init-Fits stack path) in
    let fat1 = (write_dir_entry fat' item i).1 in
    let passed : (k : ℕ) → k < i → is_passed path (dir_entry fat1 k) ≡ true =
      λ k m. ap (is_passed path) (others k (λ e. omega (arith, e)) ∙ same k) ∙ pass k m in
    let again = open_scan-first fat1 path i n r1 l passed in
    (
      fat1,
      open_new fuel flags stack fat fat' path file i (end last) creates ok,
      r1,
      λ k ne. others k ne ∙ same k,
      ap (λ x. x.0) (again.3 (ap (is_found path) here ∙ init_found stack path used busy))
          ∙ ap (λ x. matched x i) here,
    )

readdir_end :
    (c : ℕ) (fat : Fat) (i : ℕ) (dirent : DirEnt) (item : DirItem)
    → (read_dir_entry fat i).0 ≡ some item
    → (name_mark item == 0x00) ≡ true
    → readdir_loop (suc c) fat i dirent ≡ (false, i, dirent, (read_dir_entry fat i).1)
unfolding readdir_loop
readdir_end c fat i dirent item e mark = rw (readdir_loop, e, mark) refl

no_item-Fits : Fits no_item
no_item-Fits = record {
  name = refl;
  crt_time = omega arith;
  crt_date = omega arith;
  last_acc_date = omega arith;
  fst_clus_hi = omega arith;
  wrt_time = omega arith;
  wrt_date = omega arith;
  fst_clus_l0 = omega arith;
  file_size = omega arith;
}

-- Once entry `i` is cleared the way `fatfs_unlink` clears it, with the entries before it passed by
-- the search for a name, `fatfs_readdir` at `i` reports the end of the directory and the search
-- for the name ends at `i`, although all other entries are still there. The sectors of the
-- directory can be read and written, and the buffer agrees with the sector that it is said to
-- hold.
pub cleared_entry_hides :
    (fat : Fat) (path : List ℕ) (i n : ℕ) (dirent : DirEnt)
    → RootDir fat n
    → i < n
    → ((k : ℕ) → k < i → is_passed path (dir_entry fat k) ≡ true)
    → let fat' = (write_dir_entry fat no_item i).1 in
      ((fatfs_readdir fat' i dirent).0 ≡ false)
      × ((open_scan fat'.root_ent_cnt fat' path 0 none).0 ≡ unmatched (some i))
      × ((k : ℕ) → k ≢ i → dir_entry fat' k ≡ dir_entry fat k)
unfolding fatfs_readdir
cleared_entry_hides fat path i n dirent r l pass =
    let (ok, r', here, others) = write_dir_entry-entry fat no_item i n r l no_item-Fits in
    let fat' = (write_dir_entry fat no_item i).1 in
    let (read, loaded) = read_dir_entry-entry fat' i n r' l in
    let left : fat'.root_ent_cnt - i ≡ suc (n - suc i) = omega (arith, r'.cnt, l) in
    let passed : (k : ℕ) → k < i → is_passed path (dir_entry fat' k) ≡ true =
      λ k m. ap (is_passed path) (others k (λ e. omega (arith, e))) ∙ pass k m in
    let scan = open_scan-first fat' path i n r' l passed in
    (
      ap (λ c. (readdir_loop c fat' i dirent).0) left
          ∙ ap (λ x. x.0)
              (readdir_end (n - suc i) fat' i dirent no_item (read ∙ ap some here) refl),
      ap (λ x. x.0) (scan.4 (ap name_mark here)),
      others,
    )
