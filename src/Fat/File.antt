-- ===== src/Fat/File.antt =====
-- The contents of files: `expand_file`, `move_file_pos` and `fatfs_read`, and what `fatfs_write`
-- shares with them. Fuel bounds the loops, and `none` is out of fuel. A transfer of several sectors
-- that meets a sector which the device refuses is refused as a whole; a transfer that stops part
-- of the way is not modelled. The arithmetic of the source is on `uint32_t`.
use os_training.Base.{
  u32, up2, ℕ, zero, suc, ◌+◌, ◌-◌, ◌*◌, ◌/◌, ◌%◌, ◌^◌, Bool, true, false, ◌&&◌, ◌||◌, not, ◌==◌,
  ltb, leb, if◌then◌else◌, Option, none, some, List, [], ◌++◌, minus_one,
}
use os_training.Fat.{
  Fat, Sector, cluster_is_valid, cluster_invalid, cluster_get_next, cluster_set_next,
  cluster_alloc_free,
}
use os_training.Fat.Dir.{OpenFile, bytes_at}

-- `cluster_cnt` of `expand_file`; 0 stands for the early return.
abbrev pub clusters_wanted : (size cluster_byte_size inc_bytes : ℕ) → ℕ
clusters_wanted size cbs inc_bytes =
    let cfree = cbs - size % cbs in
    let cnt = up2 (inc_bytes - cfree) cbs / cbs in
    if size == 0 || size % cbs == 0 then up2 inc_bytes cbs / cbs else if cnt == 0 then 1 else cnt

-- The current cluster has more room than is asked for.
abbrev pub has_room : (size cluster_byte_size inc_bytes : ℕ) → Bool
has_room size cbs inc_bytes = not (size == 0 || size % cbs == 0) && ltb inc_bytes (cbs - size % cbs)

-- The new clusters, from `start` on, behind the current one.
abbrev pub link_clusters : OpenFile → Fat → (start : ℕ) → Bool × OpenFile × Fat
link_clusters file fat start =
    let (ok, fat') = cluster_set_next fat (file.cblk % 2 ^ 16) start in
    if not (cluster_is_valid start)
    then (false, file, fat)
    else if not (cluster_is_valid (file.sblk % 2 ^ 16))
    then (true, record file { cblk = start; sblk = start }, fat)
    else if ok
    then (true, file, fat')
    else (false, file, fat')

unfoldable pub expand_file :
    (fuel : ℕ) → OpenFile → Fat → (inc_bytes : ℕ) → Option (Bool × OpenFile × Fat)
expand_file fuel file fat inc_bytes =
    let granted : Option (Bool × OpenFile × Fat) =
      elim (cluster_alloc_free fuel fat
        (clusters_wanted file.size fat.cluster_byte_size inc_bytes)) [
          | none ↦ none
          | some r ↦ some (link_clusters file r.1 r.0)
        ] in
    if has_room file.size fat.cluster_byte_size inc_bytes then some (true, file, fat) else granted

-- `file->cblk = next` and `file->pos += move_bytes`
abbrev pub moved_to : OpenFile → (next move_bytes : ℕ) → OpenFile
moved_to file next move_bytes = record file { cblk = next; pos = u32 (file.pos + move_bytes) }

unfoldable pub move_file_pos :
    (fuel : ℕ)
    → OpenFile
    → Fat
    → (move_bytes : ℕ) → (expand : Bool) → Option (Bool × OpenFile × Fat)
move_file_pos fuel file fat move_bytes expand =
    let c_offset = file.pos % fat.cluster_byte_size in
    let (next, fat1) = cluster_get_next fat (file.cblk % 2 ^ 16) in
    let expanded : Option (Bool × OpenFile × Fat) =
      elim (expand_file fuel file fat1 fat1.cluster_byte_size) [
        | none ↦ none
        | some (true, file', fat2) ↦ some (
          true,
          moved_to file' (cluster_get_next fat2 (file'.cblk % 2 ^ 16)).0 move_bytes,
          (cluster_get_next fat2 (file'.cblk % 2 ^ 16)).1,
        )
        | some (false, file', fat2) ↦ some (false, file', fat2)
      ] in
    if ltb (c_offset + move_bytes) fat.cluster_byte_size
    then some (true, moved_to file file.cblk move_bytes, fat)
    else if next == cluster_invalid && expand
    then expanded
    else some (true, moved_to file next move_bytes, fat1)

-- Every one of the `n` sectors from `start` on passes.
abbrev pub all_sectors : (test : ℕ → Bool) → (start n : ℕ) → Bool
all_sectors test start zero = true
all_sectors test start (suc n) = test start && all_sectors test (start + 1) n

-- `n` sectors of 512 bytes from `start` on, read into a buffer and written from one.
unfoldable pub read_span : (ℕ → Sector) → (start n : ℕ) → Sector → Sector
read_span sectors start n buffer i =
    if ltb i (n * 512) then sectors (start + i / 512) (i % 512) else buffer i

abbrev pub write_span : (ℕ → Sector) → (start n : ℕ) → Sector → ℕ → Sector
write_span sectors start n buffer s i =
    if leb start s && ltb s (start + n) then buffer ((s - start) * 512 + i) else sectors s i

-- The first sector of the current cluster.
unfoldable pub start_sector : Fat → OpenFile → ℕ
start_sector fat file = u32 (fat.data_start + u32 (file.cblk + 2 ^ 32 - 2) * fat.sec_per_cluster)

-- A round that takes a whole cluster.
unfoldable pub is_whole : Fat → OpenFile → (nbytes : ℕ) → Bool
is_whole fat file nbytes = file.pos % fat.cluster_byte_size == 0 && nbytes == fat.cluster_byte_size

-- `curr_read` and `curr_write`: not over the end of the cluster.
unfoldable pub curr_bytes : Fat → OpenFile → (nbytes : ℕ) → ℕ
curr_bytes fat file nbytes =
    let cluster_offset = file.pos % fat.cluster_byte_size in
    if is_whole fat file nbytes
    then fat.cluster_byte_size
    else if ltb fat.cluster_byte_size (cluster_offset + nbytes)
    then fat.cluster_byte_size - cluster_offset
    else nbytes

-- The page of memory that `fat_buffer` points to, and whether a cluster is larger.
abbrev pub buffer_size : ℕ
buffer_size = 4096

abbrev pub past_buffer : Fat → Bool
past_buffer fat = ltb buffer_size (fat.sec_per_cluster * 512)

-- The variables of the loops; `bytes` is what `fatfs_read` has put into `buf`. `overrun` tells that
-- a cluster was read into `fat_buffer` that is larger than its page: it went over the memory
-- behind the page, which is not part of the state.
pub record Transfer : Type 0 where
  pub fat : Fat
  pub file : OpenFile
  pub bytes : List ℕ
  pub total : ℕ
  pub overrun : Bool

-- The `dev_read` of a round of `fatfs_read`, and the bytes that it copies.
abbrev pub read_round : Transfer → (nbytes : ℕ) → Bool × Transfer
read_round s nbytes =
    let fat = s.fat in
    let start = start_sector fat s.file in
    let ok = all_sectors fat.device.reads start fat.sec_per_cluster in
    let cluster = read_span fat.device.sectors start fat.sec_per_cluster fat.fat_buffer in
    let curr = curr_bytes fat s.file nbytes in
    let forgotten : Fat = record fat { curr_sector = minus_one } in
    let loaded : Fat = record fat { curr_sector = minus_one; fat_buffer = cluster } in
    let direct : Transfer = record s {
      bytes = s.bytes ++ bytes_at curr cluster 0;
      total = s.total + curr;
    } in
    let copied : Transfer = record s {
      fat = loaded;
      bytes = s.bytes ++ bytes_at curr cluster (s.file.pos % fat.cluster_byte_size);
      total = s.total + curr;
      overrun = s.overrun || past_buffer fat;
    } in
    if is_whole fat s.file nbytes
    then (if ok then (true, direct) else (false, s))
    else if ok
    then (true, copied)
    else (false, record s { fat = forgotten })

unfoldable pub read_loop : (fuel : ℕ) → Transfer → (nbytes : ℕ) → Option Transfer
read_loop zero s nbytes = none
read_loop (suc fuel) s nbytes =
    let curr = curr_bytes s.fat s.file nbytes in
    let (ok, done) = read_round s nbytes in
    let further : Option Transfer = elim (move_file_pos fuel done.file done.fat curr false) [
      | none ↦ none
      | some (true, file, fat) ↦
          read_loop fuel (record done { fat = fat; file = file }) (nbytes - curr)
      | some (false, file, fat) ↦ some (record done { fat = fat; file = file })
    ] in
    if nbytes == 0 then some s else if ok then further else some done

-- `nbytes` of `fatfs_read`: not over the end of the file.
abbrev pub read_amount : OpenFile → (size : ℕ) → ℕ
read_amount file size =
    if ltb file.size (u32 (file.pos + size)) then u32 (file.size + 2 ^ 32 - file.pos) else size

unfoldable pub fatfs_read : (fuel : ℕ) → Fat → OpenFile → (size : ℕ) → Option Transfer
fatfs_read fuel fat file size =
    read_loop fuel (record { fat = fat; file = file; bytes = []; total = 0; overrun = false })
      (read_amount file size)
