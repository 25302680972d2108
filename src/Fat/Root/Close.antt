-- ===== src/Fat/Root/Close.antt =====
-- `fatfs_close`: what it saves in the directory, and what an open reads from it.
use os_training.Base.{ℕ, ◌+◌, ◌*◌, ◌/◌, ◌%◌, ◌^◌, ◌<◌, ◌≡◌, ◌≢◌, refl, ap, ◌∙◌, false, arith, some}
use os_training.Fat.{Fat}
use os_training.Fat.Dir.{DirItem, OpenFile, OpenFlags}
use os_training.Fat.Dir.Codec.{Fits}
use os_training.Fat.Root.{read_dir_entry, write_dir_entry, read_from_diritem, fatfs_close}
use os_training.Fat.Root.Entries.{RootDir, dir_entry, read_dir_entry-entry, write_dir_entry-entry}
use os_training.Fat.Root.Scan.{Loaded-RootDir}

-- The entry with the size and the start of the file.
abbrev pub saved : DirItem → OpenFile → DirItem
saved item file = record item {
  dir_file_size = file.size;
  dir_fst_clus_hi = file.sblk / 2 ^ 16;
  dir_fst_clus_l0 = file.sblk % 2 ^ 16;
}

close-eq :
    (flags : OpenFlags) (fat : Fat) (file : OpenFile) (item : DirItem)
    → flags.reads_only file.mode ≡ false
    → (read_dir_entry fat file.p_index).0 ≡ some item
    → fatfs_close flags fat file
      ≡ (write_dir_entry (read_dir_entry fat file.p_index).1 (saved item file) file.p_index).1
unfolding fatfs_close
close-eq flags fat file item w e = rw (fatfs_close, e, w) refl

-- When a file that is not open for reading only is closed, an open of its entry gives the same
-- size and first cluster at position 0; the name of the entry and all other entries are as before.
-- The entry is well formed, and the size and the cluster fit in 32 bits. The sectors of the
-- directory can be read and written, and the buffer agrees with the sector that it is said to
-- hold.
pub fatfs_close-saved :
    (flags : OpenFlags) (fat : Fat) (file file' : OpenFile) (n : ℕ)
    → RootDir fat n
    → file.p_index < n
    → flags.reads_only file.mode ≡ false
    → Fits (dir_entry fat file.p_index)
    → file.size < 2 ^ 32
    → file.sblk < 2 ^ 32
    → let fat1 = fatfs_close flags fat file in
      let opened = read_from_diritem file' (dir_entry fat1 file.p_index) file.p_index in
      RootDir fat1 n
      × (opened.size ≡ file.size)
      × (opened.sblk ≡ file.sblk)
      × (opened.pos ≡ 0)
      × ((dir_entry fat1 file.p_index).dir_name ≡ (dir_entry fat file.p_index).dir_name)
      × ((k : ℕ) → k ≢ file.p_index → dir_entry fat1 k ≡ dir_entry fat k)
unfolding read_from_diritem
fatfs_close-saved flags fat file file' n r l w f small start =
    let i = file.p_index in
    let (read, loaded) = read_dir_entry-entry fat i n r l in
    let fat' = (read_dir_entry fat i).1 in
    let (r', same) = Loaded-RootDir fat fat' (fat.root_start + i * 32 / 512) n r loaded in
    let item = saved (dir_entry fat i) file in
    let fits : Fits item = record {
      name = f.name;
      crt_time = f.crt_time;
      crt_date = f.crt_date;
      last_acc_date = f.last_acc_date;
      fst_clus_hi = omega (arith, start);
      wrt_time = f.wrt_time;
      wrt_date = f.wrt_date;
      fst_clus_l0 = omega arith;
      file_size = small;
    } in
    let (ok, r1, here, others) = write_dir_entry-entry fat' item i n r' l fits in
    let whole : file.sblk / 2 ^ 16 * 2 ^ 16 + file.sblk % 2 ^ 16 ≡ file.sblk = omega arith in
    rw (close-eq flags fat file (dir_entry fat i) w read) (
      r1,
      ap (λ x. x.dir_file_size) here,
      ap (λ x. x.dir_fst_clus_hi * 2 ^ 16 + x.dir_fst_clus_l0) here ∙ whole,
      refl,
      ap (λ x. x.dir_name) here,
      λ k ne. others k ne ∙ same k,
    )
