-- ===== src/Fat/Root/Entries.antt =====
-- The root directory as an array of entries.
use os_training.Base.{
  ℕ, ◌+◌, ◌*◌, ◌/◌, ◌%◌, ◌<◌, ◌≤◌, ◌≡◌, ◌≢◌, refl, sym, ap, ◌∙◌, Bool, true, false, ◌&&◌, ltb, leb,
  ◌==◌, if◌then◌else◌, arith, Bool-cases, inl, inr, ==_iff, Option, some, none,
}
use os_training.LinkedList.Chain.{ne→==_false}
use os_training.Fat.{Fat, Sector, put_sector, bread_sector, bwrite_sector}
use os_training.Fat.Table.{IsCoherent, Loaded, bread_sector-Loaded}
use os_training.Fat.Dir.{DirItem, item_at, put_item}
use os_training.Fat.Dir.Codec.{Fits, item_at-put_item, item_at-ext}
use os_training.Fat.Root.{read_dir_entry, write_dir_entry}

-- The entry of the device at an index.
abbrev pub dir_entry : Fat → ℕ → DirItem
dir_entry fat j = item_at (fat.device.sectors (fat.root_start + j * 32 / 512)) (j * 32 % 512)

-- A root directory of `n` entries in sectors of 512 bytes that can be read and written.
pub record RootDir (fat : Fat) (n : ℕ) : Type 0 where
  pub sector : fat.bytes_per_sec ≡ 512
  pub cnt : fat.root_ent_cnt ≡ n
  pub coherent : IsCoherent fat
  pub healthy :
      (j : ℕ)
      → j < n
      → (fat.device.reads (fat.root_start + j * 32 / 512) ≡ true)
        × (fat.device.writes (fat.root_start + j * 32 / 512) ≡ true)

-- The functions with the computed sector and offset.
abbrev read_at : Fat → (sector off : ℕ) → Option DirItem × Fat
read_at fat sector off =
    let (ok, fat') = bread_sector fat sector in
    if ok then (some (item_at fat'.fat_buffer off), fat') else (none, fat')

abbrev write_at : Fat → DirItem → (sector off : ℕ) → Bool × Fat
write_at fat item sector off =
    let (ok, fat') = bread_sector fat sector in
    let changed : Fat = record fat' { fat_buffer = put_item fat'.fat_buffer off item } in
    if ok then bwrite_sector changed sector else (false, fat')

read-eq :
    (fat : Fat) (j n : ℕ)
    → RootDir fat n
    → j < n
    → read_dir_entry fat j ≡ read_at fat (fat.root_start + j * 32 / 512) (j * 32 % 512)
unfolding read_dir_entry
read-eq fat j n r l =
    let inside : leb fat.root_ent_cnt j ≡ false = ground (arith, l, r.cnt) in
    rw inside (ap (λ b. read_at fat (fat.root_start + j * 32 / b) (j * 32 % b)) r.sector)

write-eq :
    (fat : Fat) (item : DirItem) (j n : ℕ)
    → RootDir fat n
    → j < n
    → write_dir_entry fat item j ≡ write_at fat item (fat.root_start + j * 32 / 512) (j * 32 % 512)
unfolding write_dir_entry
write-eq fat item j n r l =
    let inside : leb fat.root_ent_cnt j ≡ false = ground (arith, l, r.cnt) in
    rw inside (ap (λ b. write_at fat item (fat.root_start + j * 32 / b) (j * 32 % b)) r.sector)

-- A read returns the entry, and only the buffer changes.
pub read_dir_entry-entry :
    (fat : Fat) (j n : ℕ)
    → RootDir fat n
    → j < n
    → ((read_dir_entry fat j).0 ≡ some (dir_entry fat j))
      × Loaded fat (read_dir_entry fat j).1 (fat.root_start + j * 32 / 512)
read_dir_entry-entry fat j n r l =
    let s = fat.root_start + j * 32 / 512 in
    let (read, loaded) = bread_sector-Loaded fat s r.coherent (r.healthy j l).0 in
    rw (read-eq fat j n r l, read)
      (
        ap some (
            item_at-ext (bread_sector fat s).1.fat_buffer (fat.device.sectors s) (j * 32 % 512)
              (λ k p q. loaded.buffer k)),
        loaded,
      )

-- The directory after a write into the loaded sector.
pub written : Fat → (s : ℕ) → Sector → Fat
written fat s b = record fat {
  fat_buffer = b;
  device = record fat.device { sectors = put_sector fat.device.sectors s b };
}

put_sector_same : (f : ℕ → Sector) (s : ℕ) (b : Sector) → put_sector f s b s ≡ b
put_sector_same f s b = rw ((==_iff s s).1 refl) refl

put_sector_other : (f : ℕ → Sector) (s x : ℕ) (b : Sector) → x ≢ s → put_sector f s b x ≡ f x
put_sector_other f s x b ne = rw (ne→==_false x s ne) refl

module _ (fat fat' : Fat) (item : DirItem) (j n : ℕ) (r : RootDir fat n) (l : j < n) (f : Fits item)
    (d : Loaded fat fat' (fat.root_start + j * 32 / 512)) where
  after : Fat
  after =
      written fat' (fat.root_start + j * 32 / 512) (put_item fat'.fat_buffer (j * 32 % 512) item)

  after-RootDir : RootDir after n
  unfolding after written
  after-RootDir = record {
    sector = d.bytes ∙ r.sector;
    cnt = d.ents ∙ r.cnt;
    coherent = λ z i e.
        let s = fat.root_start + j * 32 / 512 in
        let b = put_item fat'.fat_buffer (j * 32 % 512) item in
        let same : s ≡ z = ground (arith, d.current) in
        ap (λ g. g i)
          (sym (put_sector_same fat'.device.sectors s b)
            ∙ ap (put_sector fat'.device.sectors s b) same);
    healthy = λ k m.
        let ok = r.healthy k m in
        (
          ap (λ v. v.reads (fat'.root_start + k * 32 / 512)) d.device
              ∙ ap (λ x. fat.device.reads (x + k * 32 / 512)) d.root
              ∙ ok.0,
          ap (λ v. v.writes (fat'.root_start + k * 32 / 512)) d.device
              ∙ ap (λ x. fat.device.writes (x + k * 32 / 512)) d.root
              ∙ ok.1,
        );
  }

  after_same : dir_entry after j ≡ item
  unfolding after written
  after_same =
      let s = fat.root_start + j * 32 / 512 in
      let b = put_item fat'.fat_buffer (j * 32 % 512) item in
      ap (λ x. item_at (put_sector fat'.device.sectors s b (x + j * 32 / 512)) (j * 32 % 512))
        d.root
      ∙ ap (λ c. item_at c (j * 32 % 512)) (put_sector_same fat'.device.sectors s b)
      ∙ item_at-put_item fat'.fat_buffer (j * 32 % 512) item f

  after_other : (k : ℕ) → k ≢ j → dir_entry after k ≡ dir_entry fat k
  unfolding after written
  after_other k ne =
      let s = fat.root_start + j * 32 / 512 in
      let b = put_item fat'.fat_buffer (j * 32 % 512) item in
      let place = k * 32 % 512 in
      ap (λ x. item_at (put_sector fat'.device.sectors s b (x + k * 32 / 512)) place) d.root
      ∙ elim (Bool-cases (k * 32 / 512 == j * 32 / 512)) [
        | inl same ↦
            let e : fat.root_start + k * 32 / 512 ≡ s = ground (arith, same) in
            ap (λ x. item_at (put_sector fat'.device.sectors s b x) place) e
            ∙ ap (λ c. item_at c place) (put_sector_same fat'.device.sectors s b)
            ∙ item_at-ext b (fat.device.sectors s) place
                (λ i p q. outside i same ne p q ∙ d.buffer i)
            ∙ ap (λ x. item_at (fat.device.sectors x) place) (sym e)
        | inr other ↦
            let e : fat.root_start + k * 32 / 512 ≢ s = λ q. ground (arith, other, q) in
            ap (λ c. item_at c place)
              (put_sector_other fat'.device.sectors s (fat.root_start + k * 32 / 512) b e)
            ∙ ap (λ v. item_at (v.sectors (fat.root_start + k * 32 / 512)) place) d.device
      ]
    where
      outside :
          (i : ℕ)
          → (k * 32 / 512 == j * 32 / 512) ≡ true
          → k ≢ j
          → k * 32 % 512 ≤ i
          → i < k * 32 % 512 + 32
          → put_item fat'.fat_buffer (j * 32 % 512) item i ≡ fat'.fat_buffer i
      outside i same ne p q =
          let off : (leb (j * 32 % 512) i && ltb i (j * 32 % 512 + 32)) ≡ false = ground arith in
          rw off refl

-- `write_dir_entry` implements the write of one element of an array: the entry at its index
-- becomes the item, which fits in its 32 bytes, and every other entry, in the same sector or in
-- another one, is as before; the directory stays well formed. The sectors of the directory can be
-- read and written, and the buffer agrees with the sector that it is said to hold.
pub write_dir_entry-entry :
    (fat : Fat) (item : DirItem) (j n : ℕ)
    → RootDir fat n
    → j < n
    → Fits item
    → ((write_dir_entry fat item j).0 ≡ true)
      × RootDir (write_dir_entry fat item j).1 n
      × (dir_entry (write_dir_entry fat item j).1 j ≡ item)
      × ((k : ℕ) → k ≢ j → dir_entry (write_dir_entry fat item j).1 k ≡ dir_entry fat k)
unfolding bwrite_sector after written
write_dir_entry-entry fat item j n r l f =
    let s = fat.root_start + j * 32 / 512 in
    let (read, d) = bread_sector-Loaded fat s r.coherent (r.healthy j l).0 in
    let fat' = (bread_sector fat s).1 in
    let ok : fat'.device.writes s ≡ true = ap (λ v. v.writes s) d.device ∙ (r.healthy j l).1 in
    rw (write-eq fat item j n r l, read, ok)
      (
        refl,
        after-RootDir fat fat' item j n r l f d,
        after_same fat fat' item j n r l f d,
        after_other fat fat' item j n r l f d,
      )
