-- ===== src/Fat/Contents.antt =====
-- `fatfs_read` as a whole: the loop over the clusters of the file.
use os_training.Base.{
  ℕ, zero, suc, ◌+◌, ◌-◌, ◌*◌, ◌/◌, ◌%◌, ◌^◌, ◌<◌, ◌≤◌, ◌≡◌, refl, sym, ap, ◌∙◌, true, false, ◌==◌,
  ltb, if◌then◌else◌, arith, Bool-cases, inl, inr, some, [], ==_iff,
}
use mathlib.Core.List.{append-nil}
use mathlib.Core.Path.{subst}
use native.Mathlib.Nat.{div-mul-le_self}
use os_training.Fat.{Fat}
use os_training.Fat.Table.{InTable, Holds}
use os_training.Fat.Dir.{OpenFile, bytes_at}
use os_training.Fat.File.{
  move_file_pos, moved_to, curr_bytes, Transfer, read_round, read_loop, fatfs_read, read_amount,
}
use os_training.Fat.Kept.{Kept, Kept-refl, Kept-trans}
use os_training.Fat.Seek.{walk}
use os_training.Fat.Division.{div_next}
use os_training.Fat.Volume.{Volume, Volume-Kept, file_byte, curr_bytes_bounds}
use os_training.Fat.Read.{
  Done, walk-suc, read_round-Round, move_file_pos-Moved, round-Done, offset_lt,
}

-- The state in which a round leaves the loop.
abbrev next_state : Transfer → OpenFile → Fat → Transfer
next_state done file fat = record done { file = file; fat = fat }

read_step :
    (fuel : ℕ) (s : Transfer) (n : ℕ) (file : OpenFile) (fat : Fat)
    → (n == 0) ≡ false
    → (read_round s n).0 ≡ true
    → move_file_pos fuel
        (read_round s n).1.file
        (read_round s n).1.fat
        (curr_bytes s.fat s.file n)
        false
      ≡ some (true, file, fat)
    → read_loop (suc fuel) s n
      ≡ read_loop fuel (next_state (read_round s n).1 file fat) (n - curr_bytes s.fat s.file n)
unfolding read_loop
read_step fuel s n file fat more ok e = rw (more, ok, e) refl

read_stop : (fuel : ℕ) (s : Transfer) → read_loop (suc fuel) s 0 ≡ some s
unfolding read_loop
read_stop fuel s = refl

fills :
    (o cbs curr n : ℕ)
    → o + curr ≤ cbs
    → (o + curr < cbs → curr ≡ n)
    → 0 < n - curr
    → o + curr ≡ cbs
fills o cbs curr n l e left = elim (Bool-cases (ltb (o + curr) cbs)) [
  | inl short ↦ let all : curr ≡ n = e (ground (arith, short)) in absurd (omega (arith, all))
  | inr full ↦ ground (arith, full, l)
]

read_loop-Done :
    (ts fuel : ℕ) (t : ℕ → ℕ) (first : ℕ) (s : Transfer) (n : ℕ)
    → Volume ts s.fat t
    → (0 < n → s.file.cblk ≡ walk t first (s.file.pos / s.fat.cluster_byte_size))
    → ((j : ℕ) → j * s.fat.cluster_byte_size < s.file.pos + n → InTable ts (walk t first j))
    → s.file.pos + n < 2 ^ 32
    → n < fuel
    → Done ts t first s n (read_loop fuel s n)
read_loop-Done ts zero t first s n v here inside small enough = absurd (omega arith)
read_loop-Done ts (suc fuel) t first s n v here inside small enough = elim (Bool-cases (n == 0)) [
  | inl none_left ↦
      let e : n ≡ 0 = (==_iff n 0).0 none_left in
      subst (λ m. Done ts t first s m (read_loop (suc fuel) s m)) (sym e)
        (record {
          after = s;
          result = read_stop fuel s;
          holds = v.holds;
          kept = Kept-refl s.fat;
          bytes = sym (append-nil s.bytes);
          total = omega arith;
          at_end = omega arith;
          kept_inside = refl;
        })
  | inr busy ↦
      let more : 0 < n = ground (arith, busy) in
      let cbs = s.fat.cluster_byte_size in
      let some_bytes : 0 < cbs = omega (arith, v.size, v.more) in
      let q = s.file.pos / cbs in
      let at_q = here more in
      let i : InTable ts s.file.cblk =
        subst (InTable ts) (sym at_q)
          (inside q (omega (arith, div-mul-le_self s.file.pos cbs, more))) in
      let r = read_round-Round ts t first s n v i at_q more in
      let done = (read_round s n).1 in
      let curr = curr_bytes s.fat s.file n in
      let b =
        curr_bytes_bounds s.fat s.file n some_bytes more (offset_lt ts t first s n v i at_q more) in
      let i' : InTable ts done.file.cblk = subst (InTable ts) (ap (λ f. f.cblk) (sym r.file)) i in
      let m = move_file_pos-Moved ts fuel done.fat t done.file curr r.holds i' in
      let s' = next_state done (moved_to done.file m.next curr) m.fat' in
      let kept : Kept s.fat m.fat' = Kept-trans s.fat done.fat m.fat' r.kept m.kept in
      let same_pos : done.file.pos ≡ s.file.pos = ap (λ f. f.pos) r.file in
      let moved : s'.file.pos ≡ s.file.pos + curr = omega (arith, same_pos, b.1, small) in
      let rest =
        read_loop-Done ts fuel t first s' (n - curr) (Volume-Kept ts s.fat m.fat' t v kept m.holds)
          (λ left.
            let full : s.file.pos % cbs + curr ≡ cbs = fills _ cbs curr n b.2 b.3 left in
            let full' =
              ap (λ p. p % done.fat.cluster_byte_size + curr) same_pos
              ∙ ap (λ c. s.file.pos % c + curr) r.kept.size
              ∙ full
              ∙ sym r.kept.size in
            m.further full'
            ∙ ap (λ f. t f.cblk) r.file
            ∙ ap t at_q
            ∙ walk-suc t first q
            ∙ ap (walk t first) (
                sym (
                  ap (λ p. p / m.fat'.cluster_byte_size) moved
                  ∙ ap (λ c. (s.file.pos + curr) / c) kept.size
                  ∙ div_next s.file.pos curr cbs some_bytes full)))
          (λ j l. inside j (omega (arith, l, ap (λ k. j * k) kept.size, moved, b.1)))
          (omega (arith, moved, b.1)) (omega (arith, b.0, b.1)) in
      subst (Done ts t first s n)
        (sym (read_step fuel s n (moved_to done.file m.next curr) m.fat' busy r.ok m.result))
        (round-Done ts t first s s' n curr _ b.1 kept r.bytes r.total moved r.kept_inside rest)
]

-- What is left of the file from its position on, and not more than is asked for.
abbrev pub available : OpenFile → (size : ℕ) → ℕ
available file size = if ltb file.size (file.pos + size) then file.size - file.pos else size

amount-available :
    (file : OpenFile) (size : ℕ)
    → file.pos ≤ file.size
    → file.size < 2 ^ 32
    → file.pos + size < 2 ^ 32
    → read_amount file size ≡ available file size
amount-available file size l small small' = ground arith

available_bounds :
    (file : OpenFile) (size : ℕ)
    → file.pos ≤ file.size
    → (file.pos + available file size ≤ file.size) × (available file size ≤ size)
available_bounds file size l = ground arith

-- On a volume whose data sectors can be read and whose clusters fit in the 4096 bytes of the
-- buffer, for an open file whose clusters up to its size are in the table and whose current
-- cluster is the one of its position, if a byte is left, `fatfs_read` ends: it returns the bytes
-- of the file from its position on, up to the end of the file or the size asked for, moves the
-- position behind them and leaves the table as it is, and no cluster is read past the buffer. The
-- position is not behind the end; its sum with the size asked for, and the size of the file, fit
-- in 32 bits; there is fuel for each byte asked for and one round more. The sectors of the table,
-- in all copies, can be read and written, and the buffer agrees with the sector that it is said to
-- hold.
pub fatfs_read-Done :
    (ts fuel : ℕ) (fat : Fat) (t : ℕ → ℕ) (file : OpenFile) (size : ℕ)
    → Volume ts fat t
    → file.pos ≤ file.size
    → file.size < 2 ^ 32
    → file.pos + size < 2 ^ 32
    → (0 < available file size → file.cblk ≡ walk t file.sblk (file.pos / fat.cluster_byte_size))
    → ((j : ℕ) → j * fat.cluster_byte_size < file.size → InTable ts (walk t file.sblk j))
    → size < fuel
    → (s : Transfer) × (fatfs_read fuel fat file size ≡ some s)
      × (s.bytes ≡ bytes_at (available file size) (file_byte t fat file.sblk) file.pos)
      × (s.total ≡ available file size)
      × (s.overrun ≡ false)
      × (s.file.pos ≡ file.pos + available file size)
      × Holds ts s.fat t
unfolding fatfs_read
fatfs_read-Done ts fuel fat t file size v l small small' here inside enough =
    let n = available file size in
    let b = available_bounds file size l in
    let begin : Transfer = record {
      fat = fat;
      file = file;
      bytes = [];
      total = 0;
      overrun = false;
    } in
    let d =
      read_loop-Done ts fuel t file.sblk begin n v here (λ j k. inside j (omega (arith, b.0)))
        (omega (arith, b.0)) (omega (arith, b.1)) in
    (
      d.after,
      ap (read_loop fuel begin) (amount-available file size l small small') ∙ d.result,
      d.bytes,
      d.total ∙ omega arith,
      d.kept_inside,
      d.at_end,
      d.holds,
    )
