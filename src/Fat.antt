-- ===== src/Fat.antt =====
-- source/kernel/fs/fatfs/fatfs.c: the cluster table of the FAT16 file system.
-- The device that `dev_read` and `dev_write` reach is a parameter: the bytes of its sectors, and
-- which sectors it reads and writes; a transfer that it refuses leaves the buffer and the sector
-- as they were. The table is reached through one buffer of a sector, `fat_buffer`. Each function
-- runs under the mutex of the file system.
pub mod Table
pub mod Write
pub mod Chain
pub mod Alloc
pub mod Run
pub mod Loop
pub mod Grant
pub mod Outcome
pub mod Wrap
pub mod Free
pub mod Name
pub mod Dir
pub mod Root
pub mod File
pub mod Save
pub mod Kept
pub mod Seek
pub mod Division
pub mod Volume
pub mod Read
pub mod Contents
use os_training.Base.{
  ℕ, zero, suc, ◌+◌, ◌-◌, ◌*◌, ◌/◌, ◌%◌, ◌^◌, ℤ, pos, negsuc, Bool, true, false, ◌&&◌, not, ◌==◌,
  ltb, leb, if◌then◌else◌, Option, none, some,
}

abbrev pub cluster_invalid : ℕ
cluster_invalid = 0xFFF8

abbrev pub cluster_free : ℕ
cluster_free = 0

-- The bytes of a sector, or of the buffer, by offset.
abbrev pub Sector : Type 0
Sector = ℕ → ℕ

-- What stands behind `dev_read` and `dev_write` for one sector.
pub record Device : Type 0 where
  pub sectors : ℕ → Sector
  pub reads : ℕ → Bool
  pub writes : ℕ → Bool

-- `fat_t`, with the device of its file system.
pub record Fat : Type 0 where
  pub tbl_start : ℕ
  pub tbl_cnt : ℕ
  pub tbl_sectors : ℕ
  pub bytes_per_sec : ℕ
  pub sec_per_cluster : ℕ
  pub root_ent_cnt : ℕ
  pub root_start : ℕ
  pub data_start : ℕ
  pub cluster_byte_size : ℕ
  pub fat_buffer : Sector
  pub curr_sector : ℤ
  pub device : Device

-- `sector == fat->curr_sector`
abbrev pub is_current : ℤ → ℕ → Bool
is_current (pos n) sector = n == sector
is_current (negsuc n) sector = false

-- With `true` for 0 and `false` for -1.
unfoldable pub bread_sector : Fat → ℕ → Bool × Fat
bread_sector fat sector =
    let loaded : Fat = record fat {
      fat_buffer = fat.device.sectors sector;
      curr_sector = pos sector;
    } in
    if is_current fat.curr_sector sector
    then (true, fat)
    else if fat.device.reads sector
    then (true, loaded)
    else (false, fat)

abbrev pub put_sector : (ℕ → Sector) → ℕ → Sector → ℕ → Sector
put_sector sectors s b a = if a == s then b else sectors a

unfoldable pub bwrite_sector : Fat → ℕ → Bool × Fat
bwrite_sector fat sector =
    let written : Fat = record fat {
      device = record fat.device { sectors = put_sector fat.device.sectors sector fat.fat_buffer };
    } in
    if fat.device.writes sector then (true, written) else (false, fat)

unfoldable pub cluster_is_valid : ℕ → Bool
cluster_is_valid cluster = ltb cluster 0xFFF8 && leb 0x2 cluster

-- `*(cluster_t *)(buffer + off)`, little-endian, read and written.
abbrev pub word_at : Sector → ℕ → ℕ
word_at b off = b off + 256 * b (off + 1)

abbrev pub put_word : Sector → (off v : ℕ) → Sector
put_word b off v i = if i == off then v % 256 else if i == off + 1 then v / 256 % 256 else b i

-- The sector of the table and the offset in it that hold the entry of a cluster.
abbrev pub entry_sector : Fat → ℕ → ℕ
entry_sector fat c = c * 2 / fat.bytes_per_sec

abbrev pub entry_offset : Fat → ℕ → ℕ
entry_offset fat c = c * 2 % fat.bytes_per_sec

-- `cluster_get_next` behind the computation of `sector` and `off_sector`.
abbrev pub next_at : Fat → (curr sector off_sector : ℕ) → ℕ × Fat
next_at fat curr sector off_sector =
    let (ok, fat') = bread_sector fat (fat.tbl_start + sector) in
    if not (cluster_is_valid curr)
    then (cluster_invalid, fat)
    else if leb fat.tbl_sectors sector
    then (cluster_invalid, fat)
    else if ok
    then (word_at fat'.fat_buffer off_sector, fat')
    else (cluster_invalid, fat')

unfoldable pub cluster_get_next : Fat → ℕ → ℕ × Fat
cluster_get_next fat curr = next_at fat curr (entry_sector fat curr) (entry_offset fat curr)

-- The loop of `cluster_set_next` over the copies of the table, `n` of them.
unfoldable pub write_copies : Fat → (sector n : ℕ) → Bool × Fat
write_copies fat sector zero = (true, fat)
write_copies fat sector (suc n) =
    let (ok, fat') = bwrite_sector fat sector in
    let rest = write_copies fat' (sector + fat.tbl_sectors) n in if ok then rest else (false, fat')

-- `cluster_set_next` likewise.
abbrev pub set_at : Fat → (curr next sector off_sector : ℕ) → Bool × Fat
set_at fat curr next sector off_sector =
    let (ok, fat') = bread_sector fat (fat.tbl_start + sector) in
    let changed : Fat = record fat' { fat_buffer = put_word fat'.fat_buffer off_sector next } in
    if not (cluster_is_valid curr)
    then (false, fat)
    else if leb fat.tbl_sectors sector
    then (false, fat)
    else if ok
    then write_copies changed (fat.tbl_start + sector) fat.tbl_cnt
    else (false, fat')

unfoldable pub cluster_set_next : Fat → (curr next : ℕ) → Bool × Fat
cluster_set_next fat curr next =
    set_at fat curr next (entry_sector fat curr) (entry_offset fat curr)

-- The loop on fuel; `none` is out of fuel.
unfoldable pub cluster_free_chain : (fuel : ℕ) → Fat → (start : ℕ) → Option Fat
cluster_free_chain zero fat start = none
cluster_free_chain (suc fuel) fat start =
    let (next, fat1) = cluster_get_next fat start in
    let (ok, fat2) = cluster_set_next fat1 start cluster_free in
    let rest = cluster_free_chain fuel fat2 next in
    if cluster_is_valid start then rest else some fat

-- The variables of the loop of `cluster_alloc_free`.
pub record Search : Type 0 where
  pub fat : Fat
  pub pre : ℕ
  pub start : ℕ
  pub cnt : ℕ

-- How that loop ends: with its variables, or by the `return` inside it, after a link failed.
pub data SearchEnd : Type 0 where
  ended : Search → SearchEnd
  failed : Search → SearchEnd

-- The body of the `if` for a free cluster, up to `pre = curr; cnt--`; `none` is a failed link.
unfoldable pub take_cluster : Search → ℕ → Bool × Search
take_cluster s curr =
    let start = if cluster_is_valid s.start then s.start else curr in
    let (ok, fat) = cluster_set_next s.fat s.pre curr in
    let linked : Search = record { fat = fat; pre = curr; start = start; cnt = s.cnt - 1 } in
    let first : Search = record { fat = s.fat; pre = curr; start = start; cnt = s.cnt - 1 } in
    let broken : Search = record { fat = fat; pre = s.pre; start = start; cnt = s.cnt } in
    if cluster_is_valid s.pre
    then (if ok then (true, linked) else (false, broken))
    else (true, first)

-- `curr` is a `uint16_t`, so `curr++` wraps.
unfoldable pub search_loop : (fuel total : ℕ) → Search → (curr : ℕ) → Option SearchEnd
search_loop zero total s curr = none
search_loop (suc fuel) total s curr =
    let (free, fat) = cluster_get_next s.fat curr in
    let seen : Search = record s { fat = fat } in
    let (ok, taken) = take_cluster seen curr in
    let next = (curr + 1) % 2 ^ 16 in
    let skip = search_loop fuel total seen next in
    let more = search_loop fuel total taken next in
    if ltb curr total && not (s.cnt == 0)
    then (if free == cluster_free then (if ok then more else some (failed taken)) else skip)
    else some (ended s)

-- The chain is given back.
abbrev pub give_up : (fuel : ℕ) → Search → Option (ℕ × Fat)
give_up fuel s = elim (cluster_free_chain fuel s.fat s.start) [
  | none ↦ none
  | some fat ↦ some (cluster_invalid, fat)
]

-- What follows the loop: the end mark of the last cluster.
abbrev pub finish_chain : (fuel : ℕ) → Search → Option (ℕ × Fat)
finish_chain fuel s =
    let (ok, fat) = cluster_set_next s.fat s.pre cluster_invalid in
    let marked : Search = record s { fat = fat } in
    if s.cnt == 0 then (if ok then some (s.start, fat) else give_up fuel marked) else give_up fuel s

unfoldable pub cluster_alloc_free : (fuel : ℕ) → Fat → (cnt : ℕ) → Option (ℕ × Fat)
cluster_alloc_free fuel fat cnt =
    let total = fat.tbl_sectors * fat.bytes_per_sec / 2 in
    let begin : Search = record {
      fat = fat;
      pre = cluster_invalid;
      start = cluster_invalid;
      cnt = cnt;
    } in
    elim (search_loop fuel total begin 2) [
      | none ↦ none
      | some (ended s) ↦ finish_chain fuel s
      | some (failed s) ↦ give_up fuel s
    ]
