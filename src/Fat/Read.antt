-- ===== src/Fat/Read.antt =====
-- `fatfs_read`: the bytes of the file.
use os_training.Base.{
  ℕ, zero, suc, ◌+◌, ◌-◌, ◌/◌, ◌%◌, ◌^◌, ◌<◌, ◌≤◌, ◌≡◌, refl, sym, ap, ◌∙◌, Bool, true, false, ◌&&◌,
  ◌||◌, ◌==◌, ltb, arith, Bool-cases, inl, inr, Option, some, ◌++◌,
}
use mathlib.Core.List.{append_assoc}
use native.Mathlib.Nat.{mod-lt}
use os_training.Fat.{Fat, cluster_invalid, cluster_get_next}
use os_training.Fat.Table.{InTable, Holds, cluster_get_next-Holds}
use os_training.Fat.Dir.{OpenFile, bytes_at}
use os_training.Fat.File.{
  move_file_pos, moved_to, read_span, start_sector, is_whole, curr_bytes, Transfer, past_buffer,
  read_round,
}
use os_training.Fat.Kept.{Kept, Kept-refl, Kept-trans, cluster_get_next-Kept}
use os_training.Fat.Seek.{walk}
use os_training.Fat.Division.{mod_within, div_within, bytes_at-ext, bytes_at-add}
use os_training.Fat.Volume.{
  Volume, cluster_byte, file_byte, file_byte-Kept, curr_bytes_bounds, span_byte, can_read,
  loaded_Holds,
}

whole_start :
    (fat : Fat) (file : OpenFile) (n : ℕ)
    → is_whole fat file n ≡ true
    → file.pos % fat.cluster_byte_size ≡ 0
unfolding is_whole
whole_start fat file n e = ground (arith, e)

or_false : (b : Bool) → (b || false) ≡ b
or_false true = refl
or_false false = refl

-- What a round leaves.
pub record Round (ts : ℕ) (t : ℕ → ℕ) (first : ℕ) (s : Transfer) (n : ℕ) (o : Bool × Transfer)
    : Type 0 where
  pub ok : o.0 ≡ true
  pub holds : Holds ts o.1.fat t
  pub kept : Kept s.fat o.1.fat
  pub file : o.1.file ≡ s.file
  pub bytes :
      o.1.bytes
      ≡ s.bytes ++ bytes_at (curr_bytes s.fat s.file n) (file_byte t s.fat first) s.file.pos
  pub total : o.1.total ≡ s.total + curr_bytes s.fat s.file n
  pub kept_inside : o.1.overrun ≡ s.overrun

module _ (ts : ℕ) (t : ℕ → ℕ) (first : ℕ) (s : Transfer) (n : ℕ) (v : Volume ts s.fat t)
    (i : InTable ts s.file.cblk)
    (here : s.file.cblk ≡ walk t first (s.file.pos / s.fat.cluster_byte_size)) (more : 0 < n) where
  pub offset_lt : s.file.pos % s.fat.cluster_byte_size < s.fat.cluster_byte_size
  offset_lt = mod-lt s.file.pos (omega (arith, v.size, v.more))

  round_bytes :
      bytes_at
        (curr_bytes s.fat s.file n)
        (read_span s.fat.device.sectors
          (start_sector s.fat s.file)
          s.fat.sec_per_cluster
          s.fat.fat_buffer)
        (s.file.pos % s.fat.cluster_byte_size)
      ≡ bytes_at (curr_bytes s.fat s.file n) (file_byte t s.fat first) s.file.pos
  round_bytes =
      let cbs = s.fat.cluster_byte_size in
      let p = s.file.pos in
      let b = curr_bytes_bounds s.fat s.file n (omega (arith, v.size, v.more)) more offset_lt in
      bytes_at-ext (curr_bytes s.fat s.file n) _ (file_byte t s.fat first) (p % cbs) p (λ k l.
        let inside : p % cbs + k < cbs = omega (arith, b.2) in
        span_byte ts s.fat t v s.file i (p % cbs + k) inside
        ∙ ap (λ c. cluster_byte s.fat c (p % cbs + k)) here
        ∙ ap (λ q. cluster_byte s.fat (walk t first q) (p % cbs + k))
            (sym (div_within p k cbs inside))
        ∙ ap (λ o. cluster_byte s.fat (walk t first ((p + k) / cbs)) o)
            (sym (mod_within p k cbs inside)))

  pub read_round-Round : Round ts t first s n (read_round s n)
  read_round-Round =
      let cluster =
        read_span s.fat.device.sectors (start_sector s.fat s.file) s.fat.sec_per_cluster
          s.fat.fat_buffer in
      let readable = can_read ts s.fat t v s.file i in
      let fits_buffer : past_buffer s.fat ≡ false = ground (arith, v.page) in
      elim (Bool-cases (is_whole s.fat s.file n)) [
        | inl whole ↦
            let start : s.file.pos % s.fat.cluster_byte_size ≡ 0 =
              whole_start s.fat s.file n whole in
            let e = ap (bytes_at (curr_bytes s.fat s.file n) cluster) (sym start) ∙ round_bytes in
            record {
              ok = rw (whole, readable) refl;
              holds = rw (whole, readable) v.holds;
              kept = rw (whole, readable) (Kept-refl s.fat);
              file = rw (whole, readable) refl;
              bytes = rw (whole, readable) (ap (λ xs. s.bytes ++ xs) e);
              total = rw (whole, readable) refl;
              kept_inside = rw (whole, readable) refl;
            }
        | inr part ↦ record {
          ok = rw (part, readable) refl;
          holds = rw (part, readable) (loaded_Holds ts s.fat t v s.file i cluster);
          kept =
              rw (part, readable)
                (record { device = refl; size = refl; start = refl; secs = refl });
          file = rw (part, readable) refl;
          bytes = rw (part, readable) (ap (λ xs. s.bytes ++ xs) round_bytes);
          total = rw (part, readable) refl;
          kept_inside = rw (part, readable, fits_buffer) (or_false s.overrun);
        }
      ]

pub walk-suc : (t : ℕ → ℕ) (s k : ℕ) → t (walk t s k) ≡ walk t s (suc k)
walk-suc t s zero = refl
walk-suc t s (suc k) = walk-suc t (t s) k

-- How `move_file_pos` moves in a read.
pub record Moved (ts : ℕ) (fat : Fat) (t : ℕ → ℕ) (file : OpenFile) (curr : ℕ)
    (o : Option (Bool × OpenFile × Fat)) : Type 0 where
  pub next : ℕ
  pub fat' : Fat
  pub result : o ≡ some (true, moved_to file next curr, fat')
  pub holds : Holds ts fat' t
  pub kept : Kept fat fat'
  pub further : file.pos % fat.cluster_byte_size + curr ≡ fat.cluster_byte_size → next ≡ t file.cblk

and_false : (b : Bool) → (b && false) ≡ false
and_false true = refl
and_false false = refl

pub move_file_pos-Moved :
    (ts fuel : ℕ) (fat : Fat) (t : ℕ → ℕ) (file : OpenFile) (curr : ℕ)
    → Holds ts fat t
    → InTable ts file.cblk
    → Moved ts fat t file curr (move_file_pos fuel file fat curr false)
unfolding move_file_pos
move_file_pos-Moved ts fuel fat t file curr h i =
    elim (Bool-cases (ltb (file.pos % fat.cluster_byte_size + curr) fat.cluster_byte_size)) [
      | inl near ↦ record {
        next = file.cblk;
        fat' = fat;
        result = rw near refl;
        holds = h;
        kept = Kept-refl fat;
        further = λ e. absurd (ground (arith, near, e));
      }
      | inr far ↦
          let word : file.cblk % 2 ^ 16 ≡ file.cblk = omega (arith, i.2) in
          let (e, h1) = cluster_get_next-Holds ts fat t file.cblk h i in
          record {
            next = t file.cblk;
            fat' = (cluster_get_next fat file.cblk).1;
            result =
                rw (far, word, and_false ((cluster_get_next fat file.cblk).0 == cluster_invalid), e)
                  refl;
            holds = h1;
            kept = cluster_get_next-Kept fat file.cblk;
            further = λ e. refl;
          }
    ]

-- What the loop leaves.
pub record Done (ts : ℕ) (t : ℕ → ℕ) (first : ℕ) (s : Transfer) (n : ℕ) (o : Option Transfer)
    : Type 0 where
  pub after : Transfer
  pub result : o ≡ some after
  pub holds : Holds ts after.fat t
  pub kept : Kept s.fat after.fat
  pub bytes : after.bytes ≡ s.bytes ++ bytes_at n (file_byte t s.fat first) s.file.pos
  pub total : after.total ≡ s.total + n
  pub at_end : after.file.pos ≡ s.file.pos + n
  pub kept_inside : after.overrun ≡ s.overrun

-- A round and the rest of the loop.
pub round-Done :
    (ts : ℕ) (t : ℕ → ℕ) (first : ℕ) (s s' : Transfer) (n curr : ℕ) (o : Option Transfer)
    → curr ≤ n
    → Kept s.fat s'.fat
    → s'.bytes ≡ s.bytes ++ bytes_at curr (file_byte t s.fat first) s.file.pos
    → s'.total ≡ s.total + curr
    → s'.file.pos ≡ s.file.pos + curr
    → s'.overrun ≡ s.overrun
    → Done ts t first s' (n - curr) o
    → Done ts t first s n o
round-Done ts t first s s' n curr o l k b total p inside d =
    let whole : curr + (n - curr) ≡ n = omega (arith, l) in
    let byte = file_byte t s.fat first in
    let head = bytes_at curr byte s.file.pos in
    let tail : bytes_at (n - curr) (file_byte t s'.fat first) s'.file.pos
        ≡ bytes_at (n - curr) byte (s.file.pos + curr) =
      bytes_at-ext (n - curr) (file_byte t s'.fat first) byte s'.file.pos (s.file.pos + curr)
        (λ i m.
          file_byte-Kept t s.fat s'.fat first (s'.file.pos + i) k ∙ ap (λ q. byte (q + i)) p) in
    record {
      after = d.after;
      result = d.result;
      holds = d.holds;
      kept = Kept-trans s.fat s'.fat d.after.fat k d.kept;
      bytes =
          d.bytes
          ∙ ap (λ xs. s'.bytes ++ xs) tail
          ∙ ap (λ xs. xs ++ bytes_at (n - curr) byte (s.file.pos + curr)) b
          ∙ append_assoc s.bytes head (bytes_at (n - curr) byte (s.file.pos + curr))
          ∙ ap (λ xs. s.bytes ++ xs) (sym (bytes_at-add curr (n - curr) byte s.file.pos))
          ∙ ap (λ m. s.bytes ++ bytes_at m byte s.file.pos) whole;
      total = omega (arith, d.total, total, whole);
      at_end = omega (arith, d.at_end, p, whole);
      kept_inside = d.kept_inside ∙ inside;
    }
