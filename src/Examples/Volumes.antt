-- ===== src/Examples/Volumes.antt =====
-- A FAT16 volume of one table sector in two copies, with a directory of 16 entries and a file in
-- the clusters 2 and 3; and one with a full table of 256 sectors.
use os_training.Base.{
  ℕ, zero, suc, ◌+◌, ◌/◌, ◌%◌, ◌^◌, ◌<◌, ◌≡◌, ◌≢◌, refl, true, false, ◌||◌, ◌==◌, if◌then◌else◌,
  arith, some, none, List, [], ◌∷◌, pos, minus_one, get_or,
}
use os_training.Fat.{Fat, Device, cluster_is_valid, cluster_free_chain, cluster_alloc_free}
use os_training.Fat.Table.{InTable, Holds, entry}
use os_training.Fat.Chain.{freed, cluster_free_chain-Holds}
use os_training.Fat.Outcome.{Outcome, cluster_alloc_free-Outcome}
use os_training.Fat.Wrap.{cluster_alloc_free_wraps}
use os_training.Fat.Free.{cluster_free_chain_total}
use os_training.Fat.Name.{to_sfn, to_sfn_loop}
use os_training.Fat.Dir.{DirItem, OpenFile, OpenFlags, bytes_at, no_item, diritem_init}
use os_training.Fat.Dir.Codec.{Fits}
use os_training.Fat.Root.{
  write_dir_entry, read_from_diritem, fatfs_open, fatfs_close, fatfs_readdir, open_scan, matched,
  unmatched, DirEnt,
}
use os_training.Fat.Root.Entries.{RootDir, dir_entry, write_dir_entry-entry}
use os_training.Fat.Root.Create.{fatfs_open-create, cleared_entry_hides}
use os_training.Fat.Root.Close.{fatfs_close-saved}
use os_training.Fat.File.{Transfer, fatfs_read}
use os_training.Fat.Save.{fatfs_seek}
use os_training.Fat.Seek.{walk, fatfs_seek-walk}
use os_training.Fat.Volume.{Volume, file_byte}
use os_training.Fat.Contents.{available, fatfs_read-Done}

-- The entries of the clusters 2 and 3 are 3 and FFFF.
abbrev table_byte : ℕ → ℕ
table_byte i = if i == 4 then 3 else if i == 6 || i == 7 then 255 else 0

abbrev disk_byte : ℕ → ℕ → ℕ
disk_byte s i = if s == 1 || s == 2 then table_byte i else if s == 3 then 0 else s

abbrev device : Device
device = record { sectors = disk_byte; reads = λ s. true; writes = λ s. true }

abbrev volume : Fat
volume = record {
  tbl_start = 1;
  tbl_cnt = 2;
  tbl_sectors = 1;
  bytes_per_sec = 512;
  sec_per_cluster = 1;
  root_ent_cnt = 16;
  root_start = 3;
  data_start = 4;
  cluster_byte_size = 512;
  fat_buffer = λ i. 0;
  curr_sector = minus_one;
  device = device;
}

-- The file of 600 bytes, with its position near the end of the first cluster.
abbrev file : OpenFile
file = record { type = 2; size = 600; pos = 510; sblk = 2; cblk = 2; p_index = 0; mode = 1 }

abbrev flags : OpenFlags
flags = record { creates = λ m. true; truncates = λ m. false; reads_only = λ m. false }

no_sector : (s : ℕ) → minus_one ≢ pos s
no_sector s e = cc

volume-Holds : Holds 1 volume (entry volume)
volume-Holds = record {
  sector = refl;
  sectors = refl;
  copies = omega arith;
  coherent = λ s i e. absurd (no_sector s e);
  healthy = λ s l m. (refl, refl);
  entries = λ c i. refl;
}

volume-Volume : Volume 1 volume (entry volume)
volume-Volume = record {
  holds = volume-Holds;
  size = refl;
  more = omega arith;
  page = omega arith;
  readable = λ s l. refl;
  bound = omega arith;
}

two-InTable : InTable 1 2
two-InTable = (omega arith, omega arith, omega arith)

three-InTable : InTable 1 3
three-InTable = (omega arith, omega arith, omega arith)

file-chain : (j : ℕ) → j < 2 → InTable 1 (walk (entry volume) 2 j)
file-chain zero l = two-InTable
file-chain (suc zero) l = three-InTable
file-chain (suc (suc j)) l = absurd (omega (arith, l))

fatfs_read-Done_example :
    (s : Transfer) × (fatfs_read 20 volume file 10 ≡ some s)
    × (s.bytes ≡ bytes_at (available file 10) (file_byte (entry volume) volume 2) 510)
    × (s.total ≡ available file 10)
    × (s.overrun ≡ false)
    × (s.file.pos ≡ 510 + available file 10)
    × Holds 1 s.fat (entry volume)
fatfs_read-Done_example =
    fatfs_read-Done 1 20 volume (entry volume) file 10 volume-Volume (omega arith) (omega arith)
      (omega arith) (λ more. refl) (λ j l. file-chain j (omega (arith, l))) (omega arith)

fatfs_seek-walk_example :
    (fat' : Fat) × (fatfs_seek 2 volume file 599 0
      ≡ some (
        true,
        record file { pos = 599; cblk = walk (entry volume) (2 % 2 ^ 16) (599 / 512) },
        fat',
      ))
    × Holds 1 fat' (entry volume)
fatfs_seek-walk_example =
    fatfs_seek-walk 1 2 volume (entry volume) file 599 volume-Holds (omega arith)
      (λ j l. file-chain j (omega (arith, l))) (omega arith)

cluster_alloc_free-Outcome_example : Outcome 1 (entry volume) 2 (cluster_alloc_free 256 volume 2)
cluster_alloc_free-Outcome_example =
    cluster_alloc_free-Outcome 1 256 volume (entry volume) 2 (omega arith) volume-Holds
      (omega arith) (omega arith)

cluster_free_chain-Holds_example :
    (fat' : Fat) × (cluster_free_chain 3 volume 2 ≡ some fat')
    × Holds 1 fat' (freed (entry volume) (2 ∷ 3 ∷ []))
unfolding cluster_is_valid
cluster_free_chain-Holds_example =
    cluster_free_chain-Holds 1 3 volume (entry volume) 2 (2 ∷ 3 ∷ []) 0xFFFF volume-Holds
      ((λ e. omega (arith, e), tt), (tt, tt)) (refl, two-InTable, (refl, three-InTable, refl)) refl
      (omega arith)

cluster_free_chain_total_example : (fat' : Fat) × (cluster_free_chain 259 volume 2 ≡ some fat')
cluster_free_chain_total_example =
    cluster_free_chain_total 1 259 volume (entry volume) 2 volume-Holds (omega arith)

-- Every byte of the table is FF.
abbrev full_volume : Fat
full_volume = record volume { tbl_sectors = 256; device = record device { sectors = λ s i. 255 } }

full_volume-Holds : Holds 256 full_volume (entry full_volume)
full_volume-Holds = record {
  sector = refl;
  sectors = refl;
  copies = omega arith;
  coherent = λ s i e. absurd (no_sector s e);
  healthy = λ s l m. (refl, refl);
  entries = λ c i. refl;
}

cluster_alloc_free_wraps_example : cluster_alloc_free 70000 full_volume 1 ≡ none
cluster_alloc_free_wraps_example =
    cluster_alloc_free_wraps 256 1 70000 full_volume (entry full_volume) (omega arith) (omega arith)
      (λ c i e. omega (arith, e)) full_volume-Holds

volume-RootDir : RootDir volume 16
volume-RootDir = record {
  sector = refl;
  cnt = refl;
  coherent = λ s i e. absurd (no_sector s e);
  healthy = λ j l. (refl, refl);
}

empty-Fits : Fits (dir_entry volume 0)
empty-Fits = record {
  name = refl;
  crt_time = omega arith;
  crt_date = omega arith;
  last_acc_date = omega arith;
  fst_clus_hi = omega arith;
  wrt_time = omega arith;
  wrt_date = omega arith;
  fst_clus_l0 = omega arith;
  file_size = omega arith;
}

write_dir_entry-entry_example :
    ((write_dir_entry volume (dir_entry volume 0) 5).0 ≡ true)
    × RootDir (write_dir_entry volume (dir_entry volume 0) 5).1 16
    × (dir_entry (write_dir_entry volume (dir_entry volume 0) 5).1 5 ≡ dir_entry volume 0)
    × ((k : ℕ)
        → k ≢ 5
        → dir_entry (write_dir_entry volume (dir_entry volume 0) 5).1 k ≡ dir_entry volume k)
write_dir_entry-entry_example =
    write_dir_entry-entry volume (dir_entry volume 0) 5 16 volume-RootDir (omega arith) empty-Fits

-- The name `a`.
abbrev path : List ℕ
path = 97 ∷ []

path-mark : get_or (to_sfn path) 0 0 ≡ 65
unfolding to_sfn to_sfn_loop
path-mark = refl

-- What the stack holds.
abbrev garbage : DirItem
garbage = record no_item { dir_attr = 7; dir_crt_time_teenth = 99 }

fatfs_open-create_example :
    (fat1 : Fat) × (fatfs_open 10 flags garbage volume path file
      ≡ some (true, read_from_diritem file (diritem_init garbage 0 path) 0, fat1))
    × RootDir fat1 16
    × ((k : ℕ) → k ≢ 0 → dir_entry fat1 k ≡ dir_entry volume k)
    × ((open_scan fat1.root_ent_cnt fat1 path 0 none).0 ≡ matched (diritem_init garbage 0 path) 0)
fatfs_open-create_example =
    fatfs_open-create 10 flags garbage volume path file 0 16 volume-RootDir (omega arith)
      (λ k l. absurd (omega (arith, l))) refl refl (λ e. omega (arith, e, path-mark))
      (λ e. omega (arith, e, path-mark))

fatfs_close-saved_example :
    let fat1 = fatfs_close flags volume file in
    let opened = read_from_diritem file (dir_entry fat1 0) 0 in
    RootDir fat1 16
    × (opened.size ≡ 600)
    × (opened.sblk ≡ 2)
    × (opened.pos ≡ 0)
    × ((dir_entry fat1 0).dir_name ≡ (dir_entry volume 0).dir_name)
    × ((k : ℕ) → k ≢ 0 → dir_entry fat1 k ≡ dir_entry volume k)
fatfs_close-saved_example =
    fatfs_close-saved flags volume file file 16 volume-RootDir (omega arith) refl empty-Fits
      (omega arith) (omega arith)

abbrev dirent : DirEnt
dirent = record { index = 0; type = 0; name = λ i. 0; size = 0 }

cleared_entry_hides_example :
    let fat' = (write_dir_entry volume no_item 0).1 in
    ((fatfs_readdir fat' 0 dirent).0 ≡ false)
    × ((open_scan fat'.root_ent_cnt fat' path 0 none).0 ≡ unmatched (some 0))
    × ((k : ℕ) → k ≢ 0 → dir_entry fat' k ≡ dir_entry volume k)
cleared_entry_hides_example =
    cleared_entry_hides volume path 0 16 dirent volume-RootDir (omega arith)
      (λ k l. absurd (omega (arith, l)))
