-- ===== src/Fat/Save.antt =====
-- `fatfs_write` and `fatfs_seek`.
use os_training.Base.{
  u32, ℕ, zero, suc, ◌+◌, ◌-◌, ◌%◌, ◌^◌, Bool, true, false, ◌&&◌, ◌||◌, not, ◌==◌, ltb, leb,
  if◌then◌else◌, Option, none, some, [], minus_one,
}
use os_training.Fat.{Fat, Sector, cluster_is_valid, cluster_get_next}
use os_training.Fat.Dir.{OpenFile}
use os_training.Fat.File.{
  Transfer, past_buffer, expand_file, move_file_pos, all_sectors, read_span, write_span,
  start_sector, is_whole, curr_bytes,
}

-- The cluster in the buffer with the bytes of `buf` from `total` on.
abbrev pub overlay : Sector → (offset curr : ℕ) → (buf : Sector) → (total : ℕ) → Sector
overlay cluster offset curr buf total i =
    if leb offset i && ltb i (offset + curr) then buf (total + (i - offset)) else cluster i

-- The `dev_read` and `dev_write` of a round, and the new size of the file.
abbrev pub write_round : Sector → Transfer → (nbytes : ℕ) → Bool × Transfer
write_round buf s nbytes =
    let fat = s.fat in
    let start = start_sector fat s.file in
    let readable = all_sectors fat.device.reads start fat.sec_per_cluster in
    let writable = all_sectors fat.device.writes start fat.sec_per_cluster in
    let cluster = read_span fat.device.sectors start fat.sec_per_cluster fat.fat_buffer in
    let curr = curr_bytes fat s.file nbytes in
    let mixed = overlay cluster (s.file.pos % fat.cluster_byte_size) curr buf s.total in
    let grown : OpenFile = record s.file { size = u32 (s.file.size + curr) } in
    let forgotten : Fat = record fat { curr_sector = minus_one } in
    let loaded : Fat = record fat { curr_sector = minus_one; fat_buffer = mixed } in
    let direct : Fat = record fat {
      device = record fat.device {
        sectors = write_span fat.device.sectors start fat.sec_per_cluster (λ i. buf (s.total + i));
      };
    } in
    let saved : Fat = record loaded {
      device = record fat.device {
        sectors = write_span fat.device.sectors start fat.sec_per_cluster mixed;
      };
    } in
    let overrun = s.overrun || past_buffer fat in
    if is_whole fat s.file nbytes
    then (if writable
        then (true, record s { fat = direct; file = grown; total = s.total + curr })
        else (false, s))
    else if not readable
    then (false, record s { fat = forgotten })
    else if writable
    then (true, record s { fat = saved; file = grown; total = s.total + curr; overrun = overrun })
    else (false, record s { fat = loaded; overrun = overrun })

unfoldable pub write_loop : (fuel : ℕ) → (buf : Sector) → Transfer → (nbytes : ℕ) → Option Transfer
write_loop zero buf s nbytes = none
write_loop (suc fuel) buf s nbytes =
    let curr = curr_bytes s.fat s.file nbytes in
    let (ok, done) = write_round buf s nbytes in
    let further : Option Transfer = elim (move_file_pos fuel done.file done.fat curr true) [
      | none ↦ none
      | some (true, file, fat) ↦
          write_loop fuel buf (record done { fat = fat; file = file }) (nbytes - curr)
      | some (false, file, fat) ↦ some (record done { fat = fat; file = file })
    ] in
    if nbytes == 0 then some s else if ok then further else some done

-- The loop is entered when the file is large enough, or is made so.
unfoldable pub fatfs_write :
    (fuel : ℕ) → Fat → OpenFile → (buf : Sector) → (size : ℕ) → Option Transfer
fatfs_write fuel fat file buf size =
    let enter =
      write_loop fuel buf
        (record { fat = fat; file = file; bytes = []; total = 0; overrun = false }) size in
    let expanded : Option Transfer =
      elim (expand_file fuel file fat (u32 (file.pos + size + 2 ^ 32 - file.size))) [
        | none ↦ none
        | some (true, file', fat') ↦
            write_loop fuel buf
              (record { fat = fat'; file = file'; bytes = []; total = 0; overrun = false }) size
        | some (false, file', fat') ↦
            some (record { fat = fat'; file = file'; bytes = []; total = 0; overrun = false })
      ] in
    if ltb file.size (u32 (file.pos + size)) then expanded else enter

-- The loop of `fatfs_seek`: the position and the cluster that it ends with, and `false` where it
-- returns -1.
unfoldable pub seek_loop :
    (fuel : ℕ) → Fat → (curr_cluster curr_pos offset_to_move : ℕ) → Option (Bool × ℕ × ℕ × Fat)
seek_loop zero fat cluster pos offset = none
seek_loop (suc fuel) fat cluster pos offset =
    let c_off = pos % fat.cluster_byte_size in
    let curr_move = fat.cluster_byte_size - c_off in
    let (next, fat') = cluster_get_next fat cluster in
    let rest = seek_loop fuel fat' next (pos + curr_move) (offset - curr_move) in
    if offset == 0
    then some (true, pos, cluster, fat)
    else if ltb (c_off + offset) fat.cluster_byte_size
    then some (true, pos + offset, cluster, fat)
    else if cluster_is_valid next
    then rest
    else some (false, pos + curr_move, next, fat')

unfoldable pub fatfs_seek :
    (fuel : ℕ) → Fat → OpenFile → (offset dir : ℕ) → Option (Bool × OpenFile × Fat)
fatfs_seek fuel fat file offset dir =
    let done : Option (Bool × OpenFile × Fat) =
      elim (seek_loop fuel fat (file.sblk % 2 ^ 16) 0 offset) [
        | none ↦ none
        | some (true, pos, cluster, fat') ↦
            some (true, record file { pos = pos; cblk = cluster }, fat')
        | some (false, pos, cluster, fat') ↦ some (false, file, fat')
      ] in
    if dir == 0 then done else some (false, file, fat)
