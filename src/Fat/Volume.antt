-- ===== src/Fat/Volume.antt =====
-- A mounted volume, and one round of `fatfs_read`: the cluster that it reads and how far it moves.
use os_training.Base.{
  u32, ℕ, zero, suc, ◌+◌, ◌-◌, ◌*◌, ◌/◌, ◌%◌, ◌^◌, ◌<◌, ◌≤◌, ◌≡◌, ◌≢◌, refl, sym, ap, ◌∙◌, Bool,
  true, ltb, arith, pos, minus_one,
}
use os_training.Fat.{Fat, Sector}
use os_training.Fat.Table.{InTable, Holds}
use os_training.Fat.Dir.{OpenFile}
use os_training.Fat.File.{all_sectors, read_span, start_sector, is_whole, curr_bytes}
use os_training.Fat.Kept.{Kept}
use os_training.Fat.Seek.{walk}

-- Sectors of 512 bytes, clusters that fit in the page of the buffer, a table `t` of `ts` sectors, and data sectors that can be read and whose
-- numbers fit in 32 bits.
pub record Volume (ts : ℕ) (fat : Fat) (t : ℕ → ℕ) : Type 0 where
  pub holds : Holds ts fat t
  pub size : fat.cluster_byte_size ≡ fat.sec_per_cluster * 512
  pub more : 0 < fat.sec_per_cluster
  pub page : fat.sec_per_cluster ≤ 8
  pub readable : (s : ℕ) → fat.data_start ≤ s → fat.device.reads s ≡ true
  pub bound : fat.data_start + 65536 * fat.sec_per_cluster < 2 ^ 32

pub Volume-Kept :
    (ts : ℕ) (fat fat' : Fat) (t : ℕ → ℕ)
    → Volume ts fat t
    → Kept fat fat'
    → Holds ts fat' t
    → Volume ts fat' t
Volume-Kept ts fat fat' t v k h = record {
  holds = h;
  size = k.size ∙ v.size ∙ ap (λ n. n * 512) (sym k.secs);
  more = omega (arith, v.more, k.secs);
  page = omega (arith, v.page, k.secs);
  readable = λ s l. ap (λ d. d.reads s) k.device ∙ v.readable s (omega (arith, k.start));
  bound = omega (arith, v.bound, k.start, k.secs);
}

-- The byte of a cluster at an offset in it, and the byte of the file that starts at `first`.
abbrev pub cluster_byte : Fat → (c o : ℕ) → ℕ
cluster_byte fat c o =
    fat.device.sectors (fat.data_start + (c - 2) * fat.sec_per_cluster + o / 512) (o % 512)

abbrev pub file_byte : (ℕ → ℕ) → Fat → (first p : ℕ) → ℕ
file_byte t fat first p =
    cluster_byte fat (walk t first (p / fat.cluster_byte_size)) (p % fat.cluster_byte_size)

pub file_byte-Kept :
    (t : ℕ → ℕ) (fat fat' : Fat) (first p : ℕ)
    → Kept fat fat'
    → file_byte t fat' first p ≡ file_byte t fat first p
file_byte-Kept t fat fat' first p k =
    ap (λ b. cluster_byte fat' (walk t first (p / b)) (p % b)) k.size
    ∙ ap (λ d. d.sectors (fat'.data_start + (c - 2) * fat'.sec_per_cluster + o / 512) (o % 512))
        k.device
    ∙ ap (λ n. fat.device.sectors (n + (c - 2) * fat'.sec_per_cluster + o / 512) (o % 512)) k.start
    ∙ ap (λ n. fat.device.sectors (fat.data_start + (c - 2) * n + o / 512) (o % 512)) k.secs
  where
    c : ℕ
    c = walk t first (p / fat.cluster_byte_size)

    o : ℕ
    o = p % fat.cluster_byte_size

no_sector : (s : ℕ) → minus_one ≢ pos s
no_sector s e = cc

all_sectors-true :
    (test : ℕ → Bool) (start n : ℕ)
    → ((s : ℕ) → start ≤ s → test s ≡ true)
    → all_sectors test start n ≡ true
all_sectors-true test start zero ok = refl
all_sectors-true test start (suc n) ok =
    rw (ok start (omega arith)) (all_sectors-true test (start + 1) n (λ s l. ok s (omega arith)))

-- What a round reads: it never leaves the cluster, and only stops at its end or with all bytes.
pub curr_bytes_bounds :
    (fat : Fat) (file : OpenFile) (n : ℕ)
    → 0 < fat.cluster_byte_size
    → 0 < n
    → file.pos % fat.cluster_byte_size < fat.cluster_byte_size
    → let curr = curr_bytes fat file n in
      let o = file.pos % fat.cluster_byte_size in
      (0 < curr)
      × (curr ≤ n)
      × (o + curr ≤ fat.cluster_byte_size)
      × (o + curr < fat.cluster_byte_size → curr ≡ n)
unfolding curr_bytes is_whole
curr_bytes_bounds fat file n more some_bytes o = ground arith

module _ (ts : ℕ) (fat : Fat) (t : ℕ → ℕ) (v : Volume ts fat t) (file : OpenFile)
    (i : InTable ts file.cblk) where
  start_sector_eq : start_sector fat file ≡ fat.data_start + (file.cblk - 2) * fat.sec_per_cluster
  unfolding start_sector
  start_sector_eq =
      let c : u32 (file.cblk + 2 ^ 32 - 2) ≡ file.cblk - 2 = omega (arith, i.0, i.2) in
      let small : (file.cblk - 2) * fat.sec_per_cluster ≤ 65536 * fat.sec_per_cluster =
        grind (arith, i.2) in
      ap (λ n. u32 (fat.data_start + n * fat.sec_per_cluster)) c ∙ omega (arith, small, v.bound)

  -- The buffer of the round holds the cluster.
  pub span_byte :
      (o : ℕ)
      → o < fat.cluster_byte_size
      → read_span fat.device.sectors (start_sector fat file) fat.sec_per_cluster fat.fat_buffer o
        ≡ cluster_byte fat file.cblk o
  unfolding read_span
  span_byte o l =
      let inside : ltb o (fat.sec_per_cluster * 512) ≡ true = ground (arith, l, v.size) in
      rw inside (ap (λ s. fat.device.sectors (s + o / 512) (o % 512)) start_sector_eq)

  pub can_read : all_sectors fat.device.reads (start_sector fat file) fat.sec_per_cluster ≡ true
  can_read =
      all_sectors-true fat.device.reads (start_sector fat file) fat.sec_per_cluster
        (λ s l. v.readable s (omega (arith, start_sector_eq)))

  -- The file system after a round that used the buffer.
  pub loaded_Holds :
      (b : Sector) → Holds ts (record fat { curr_sector = minus_one; fat_buffer = b }) t
  loaded_Holds b = record {
    sector = v.holds.sector;
    sectors = v.holds.sectors;
    copies = v.holds.copies;
    coherent = λ s k e. absurd (no_sector s e);
    healthy = v.holds.healthy;
    entries = v.holds.entries;
  }
