-- ===== src/Fat/Root.antt =====
-- The operations of the file system that scan or change the root directory. Each function that
-- takes back a chain has fuel for that loop, and `none` is out of fuel.
pub mod Entries
pub mod Scan
pub mod Create
pub mod Close
use os_training.Base.{
  ℕ, zero, suc, ◌+◌, ◌-◌, ◌*◌, ◌/◌, ◌%◌, ◌^◌, Bool, true, false, ◌&&◌, ◌||◌, not, ◌==◌, ltb, leb,
  if◌then◌else◌, Option, none, some, List, [], ◌∷◌, get_or,
}
use os_training.Fat.{Fat, bread_sector, bwrite_sector, cluster_free_chain, cluster_invalid}
use os_training.Fat.Name.{diritem_get_name}
use os_training.Fat.Dir.{
  DirItem, OpenFile, OpenFlags, item_at, put_item, diritem_init, no_item, diritem_name_match,
  diritem_get_type, file_normal, file_dir,
}

-- With `none` for the null pointer.
unfoldable pub read_dir_entry : Fat → (index : ℕ) → Option DirItem × Fat
read_dir_entry fat index =
    let offset = index * 32 in
    let (ok, fat') = bread_sector fat (fat.root_start + offset / fat.bytes_per_sec) in
    if leb fat.root_ent_cnt index
    then (none, fat)
    else if ok
    then (some (item_at fat'.fat_buffer (offset % fat.bytes_per_sec)), fat')
    else (none, fat')

unfoldable pub write_dir_entry : Fat → DirItem → (index : ℕ) → Bool × Fat
write_dir_entry fat item index =
    let offset = index * 32 in
    let sector = fat.root_start + offset / fat.bytes_per_sec in
    let (ok, fat') = bread_sector fat sector in
    let changed : Fat = record fat' {
      fat_buffer = put_item fat'.fat_buffer (offset % fat.bytes_per_sec) item;
    } in
    if leb fat.root_ent_cnt index
    then (false, fat)
    else if ok
    then bwrite_sector changed sector
    else (false, fat')

unfoldable pub read_from_diritem : OpenFile → DirItem → (index : ℕ) → OpenFile
read_from_diritem file item index = record file {
  type = diritem_get_type item;
  size = item.dir_file_size;
  pos = 0;
  sblk = item.dir_fst_clus_hi * 2 ^ 16 + item.dir_fst_clus_l0;
  cblk = item.dir_fst_clus_hi * 2 ^ 16 + item.dir_fst_clus_l0;
  p_index = index;
}

-- The first byte of the name.
abbrev pub name_mark : DirItem → ℕ
name_mark item = get_or item.dir_name 0 0

-- How the loop of `fatfs_open` ends: at an entry that cannot be read, with `file_item` at
-- `p_index`, or with no item and the last `p_index`, which is `none` for -1.
pub data OpenScan : Type 0 where
  unreadable : OpenScan
  matched : DirItem → ℕ → OpenScan
  unmatched : (p_index : Option ℕ) → OpenScan

-- The loop, with `n` entries to go.
unfoldable pub open_scan :
    (n : ℕ) → Fat → (path : List ℕ) → (i : ℕ) → (p_index : Option ℕ) → OpenScan × Fat
open_scan zero fat path i p_index = (unmatched p_index, fat)
open_scan (suc n) fat path i p_index =
    let (entry, fat') = read_dir_entry fat i in
    let free = open_scan n fat' path (i + 1) (some i) in
    let other = open_scan n fat' path (i + 1) p_index in
    elim entry [
      | none ↦ (unreadable, fat')
      | some item ↦
          if name_mark item == 0x00
          then (unmatched (some i), fat')
          else if name_mark item == 0xE5
          then free
          else if diritem_name_match item path
          then (matched item i, fat')
          else other
    ]

-- `O_TRUNC` on a file that exists.
abbrev pub truncate : (fuel : ℕ) → Fat → OpenFile → Option (Bool × OpenFile × Fat)
truncate fuel fat file = elim (cluster_free_chain fuel fat (file.sblk % 2 ^ 16)) [
  | none ↦ none
  | some fat' ↦
      some (true, record file { sblk = cluster_invalid; cblk = cluster_invalid; size = 0 }, fat')
]

-- The branch of a file that exists.
abbrev pub open_found :
    (fuel : ℕ) → OpenFlags → Fat → OpenFile → DirItem → ℕ → Option (Bool × OpenFile × Fat)
open_found fuel flags fat file item i =
    let opened = read_from_diritem file item i in
    if flags.truncates file.mode then truncate fuel fat opened else some (true, opened, fat)

-- The branch of a new file; `stack` is what the stack holds at its local item.
abbrev pub open_create :
    (stack : DirItem) → Fat → (path : List ℕ) → OpenFile → ℕ → Option (Bool × OpenFile × Fat)
open_create stack fat path file i =
    let item = diritem_init stack 0 path in
    let (ok, fat') = write_dir_entry fat item i in
    if ok then some (true, read_from_diritem file item i, fat') else some (false, file, fat')

unfoldable pub fatfs_open :
    (fuel : ℕ)
    → OpenFlags
    → (stack : DirItem) → Fat
    → (path : List ℕ) → OpenFile
    → Option (Bool × OpenFile × Fat)
fatfs_open fuel flags stack fat path file =
    let (scan, fat') = open_scan fat.root_ent_cnt fat path 0 none in
    elim scan [
      | unreadable ↦ some (false, file, fat')
      | matched item i ↦ open_found fuel flags fat' file item i
      | unmatched (some i) ↦
          if flags.creates file.mode
          then open_create stack fat' path file i
          else some (false, file, fat')
      | unmatched none ↦ some (false, file, fat')
    ]

unfoldable pub fatfs_close : OpenFlags → Fat → OpenFile → Fat
fatfs_close flags fat file =
    let (entry, fat') = read_dir_entry fat file.p_index in
    elim entry [
      | none ↦ if flags.reads_only file.mode then fat else fat'
      | some item ↦
          let changed : DirItem = record item {
            dir_file_size = file.size;
            dir_fst_clus_hi = file.sblk / 2 ^ 16;
            dir_fst_clus_l0 = file.sblk % 2 ^ 16;
          } in
          if flags.reads_only file.mode then fat else (write_dir_entry fat' changed file.p_index).1
    ]

-- `struct dirent`.
pub record DirEnt : Type 0 where
  pub index : ℕ
  pub type : ℕ
  pub name : ℕ → ℕ
  pub size : ℕ

unfoldable pub fatfs_opendir : (index : ℕ) → ℕ
fatfs_opendir index = 0

-- With `n` entries to go: whether an entry is returned, `dir->index`, and `*dirent`.
unfoldable pub readdir_loop : (n : ℕ) → Fat → (index : ℕ) → DirEnt → Bool × ℕ × DirEnt × Fat
readdir_loop zero fat index dirent = (false, index, dirent, fat)
readdir_loop (suc n) fat index dirent =
    let (entry, fat') = read_dir_entry fat index in
    let next = readdir_loop n fat' (index + 1) dirent in
    elim entry [
      | none ↦ (false, index, dirent, fat')
      | some item ↦
          let type = diritem_get_type item in
          let shown : DirEnt = record {
            index = index;
            type = type;
            name = diritem_get_name item.dir_name dirent.name;
            size = item.dir_file_size;
          } in
          if name_mark item == 0x00
          then (false, index, dirent, fat')
          else if not (name_mark item == 0xE5) && (type == file_normal || type == file_dir)
          then (true, index + 1, shown, fat')
          else next
    ]

unfoldable pub fatfs_readdir : Fat → (index : ℕ) → DirEnt → Bool × ℕ × DirEnt × Fat
fatfs_readdir fat index dirent = readdir_loop (fat.root_ent_cnt - index) fat index dirent

-- The entry is cleared once its chain is free.
abbrev pub remove_entry : (fuel : ℕ) → Fat → DirItem → ℕ → Option (Bool × Fat)
remove_entry fuel fat item i =
    let cluster = item.dir_fst_clus_hi * 2 ^ 16 + item.dir_fst_clus_l0 in
    elim (cluster_free_chain fuel fat (cluster % 2 ^ 16)) [
      | none ↦ none
      | some fat' ↦ some (write_dir_entry fat' no_item i)
    ]

unfoldable pub unlink_loop : (fuel n : ℕ) → Fat → (path : List ℕ) → (i : ℕ) → Option (Bool × Fat)
unlink_loop fuel zero fat path i = some (false, fat)
unlink_loop fuel (suc n) fat path i =
    let (entry, fat') = read_dir_entry fat i in
    let next = unlink_loop fuel n fat' path (i + 1) in
    elim entry [
      | none ↦ some (false, fat')
      | some item ↦
          if name_mark item == 0x00
          then some (false, fat')
          else if name_mark item == 0xE5
          then next
          else if diritem_name_match item path
          then remove_entry fuel fat' item i
          else next
    ]

unfoldable pub fatfs_unlink : (fuel : ℕ) → Fat → (path : List ℕ) → Option (Bool × Fat)
fatfs_unlink fuel fat path = unlink_loop fuel fat.root_ent_cnt fat path 0
