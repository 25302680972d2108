-- ===== src/Fat/Write.antt =====
-- A write of one entry, which goes to every copy of the table.
use os_training.Base.{
  ℕ, zero, suc, ◌+◌, ◌*◌, ◌/◌, ◌%◌, ◌<◌, ◌≤◌, ◌≡◌, refl, sym, ap, ◌∙◌, true, false, ◌==◌, leb,
  if◌then◌else◌, arith, Bool-cases, inl, inr, ==_iff,
}
use os_training.LinkedList.Chain.{ne→==_false}
use os_training.Fat.{
  Fat, Sector, bread_sector, bwrite_sector, put_sector, cluster_is_valid, cluster_invalid, word_at,
  put_word, write_copies, cluster_set_next,
}
use os_training.Fat.Table.{
  InTable, Holds, Loaded, bread_sector-Loaded, in_range, valid_true, set_next-eq,
}

-- The table with another entry for `c`.
abbrev pub put_entry : (ℕ → ℕ) → (c v : ℕ) → ℕ → ℕ
put_entry t c v d = if d == c then v else t d

-- The file system with other sectors.
abbrev with_sectors : Fat → (ℕ → Sector) → Fat
with_sectors fat sectors = record fat { device = record fat.device { sectors = sectors } }

bwrite_sector-eq :
    (fat : Fat) (s : ℕ)
    → fat.device.writes s ≡ true
    → bwrite_sector fat s
      ≡ (true, with_sectors fat (put_sector fat.device.sectors s fat.fat_buffer))
unfolding bwrite_sector
bwrite_sector-eq fat s ok = rw ok

-- All copies are written, and no sector below the first one.
write_copies-eq :
    (fat : Fat) (s n : ℕ)
    → ((x : ℕ) → s ≤ x → x + fat.tbl_sectors ≤ s + n * fat.tbl_sectors → fat.device.writes x ≡ true)
    → 0 < fat.tbl_sectors
    → (sectors : ℕ → Sector) × (write_copies fat s n ≡ (true, with_sectors fat sectors))
      × ((x : ℕ) → x < s → sectors x ≡ fat.device.sectors x)
unfolding write_copies
write_copies-eq fat s zero ok some_rows = (fat.device.sectors, refl, λ x l. refl)
write_copies-eq fat s (suc n) ok some_rows =
    let split : suc n * fat.tbl_sectors ≡ n * fat.tbl_sectors + fat.tbl_sectors = grind arith in
    let here = ok s (omega arith) (omega (arith, split)) in
    let first = put_sector fat.device.sectors s fat.fat_buffer in
    let (sectors, e, below) =
      write_copies-eq (with_sectors fat first) (s + fat.tbl_sectors) n
        (λ x l m. ok x (omega arith) (omega (arith, split))) some_rows in
    (
      sectors,
      rw (bwrite_sector-eq fat s here) e,
      λ x l. below x (omega arith) ∙ rw (ne→==_false x s (λ e. omega (arith, e))),
    )

-- The first copy is written, and no other sector of it.
write_copies-first :
    (fat : Fat) (s n : ℕ)
    → ((x : ℕ) → s ≤ x → x + fat.tbl_sectors ≤ s + n * fat.tbl_sectors → fat.device.writes x ≡ true)
    → 0 < fat.tbl_sectors
    → 0 < n
    → (sectors : ℕ → Sector) × (write_copies fat s n ≡ (true, with_sectors fat sectors))
      × ((x : ℕ)
          → x < s + fat.tbl_sectors
          → sectors x ≡ put_sector fat.device.sectors s fat.fat_buffer x)
unfolding write_copies
write_copies-first fat s zero ok some_rows more = absurd (omega arith)
write_copies-first fat s (suc n) ok some_rows more =
    let split : suc n * fat.tbl_sectors ≡ n * fat.tbl_sectors + fat.tbl_sectors = grind arith in
    let here = ok s (omega arith) (omega (arith, split)) in
    let first = put_sector fat.device.sectors s fat.fat_buffer in
    let (sectors, e, below) =
      write_copies-eq (with_sectors fat first) (s + fat.tbl_sectors) n
        (λ x l m. ok x (omega arith) (omega (arith, split))) some_rows in
    (sectors, rw (bwrite_sector-eq fat s here) e, below)

-- An entry is two bytes at an even offset.
word_at-put_word :
    (b : Sector) (off off' v : ℕ)
    → v < 65536
    → off % 2 ≡ 0
    → off' % 2 ≡ 0
    → word_at (put_word b off v) off' ≡ (if off' == off then v else word_at b off')
word_at-put_word b off off' v small even even' = ground arith

-- What the write leaves in the place of an entry.
entry_after :
    (sectors : ℕ → Sector) (start c d v : ℕ) (b : Sector)
    → v < 65536
    → ((i : ℕ) → b i ≡ sectors (start + c * 2 / 512) i)
    → word_at
        (put_sector sectors
          (start + c * 2 / 512)
          (put_word b (c * 2 % 512) v)
          (start + d * 2 / 512))
        (d * 2 % 512)
      ≡ (if d == c then v else word_at (sectors (start + d * 2 / 512)) (d * 2 % 512))
entry_after sectors start c d v b small loaded =
    let w = word_at-put_word b (c * 2 % 512) (d * 2 % 512) v small (omega arith) (omega arith) in
    elim (Bool-cases ((start + d * 2 / 512) == (start + c * 2 / 512))) [
      | inl same ↦
          let e : start + d * 2 / 512 ≡ start + c * 2 / 512 = (==_iff _ _).0 same in
          rw same (ground (arith, w, e, loaded (d * 2 % 512), loaded (d * 2 % 512 + 1)))
      | inr other ↦ let ne : (d == c) ≡ false = ground arith in rw (other, ne) refl
    ]

module _ (ts : ℕ) (fat fat' : Fat) (t : ℕ → ℕ) (c v : ℕ) (small : v < 65536) (h : Holds ts fat t)
    (i : InTable ts c) (l : Loaded fat fat' (fat.tbl_start + c * 2 / 512)) where
  -- The buffer with the entry changed, and the device after the write.
  abbrev changed : Fat
  changed = record fat' { fat_buffer = put_word fat'.fat_buffer (c * 2 % 512) v }

  near_sectors :
      (sectors : ℕ → Sector)
      → ((x : ℕ)
          → x < fat.tbl_start + c * 2 / 512 + fat'.tbl_sectors
          → sectors x
            ≡ put_sector fat'.device.sectors (fat.tbl_start + c * 2 / 512) changed.fat_buffer x)
      → Holds ts (with_sectors changed sectors) (put_entry t c v)
  near_sectors sectors near =
      let s = fat.tbl_start + c * 2 / 512 in
      let r = in_range ts c fat.tbl_start fat.tbl_cnt i h.copies in
      let rows : fat'.tbl_sectors ≡ ts = l.secs ∙ h.sectors in
      let behind : fat'.tbl_start + fat'.tbl_cnt * fat'.tbl_sectors
          ≡ fat.tbl_start + fat.tbl_cnt * fat.tbl_sectors =
        ap (λ k. fat'.tbl_start + k * fat'.tbl_sectors) l.cnt
        ∙ ap (λ k. fat'.tbl_start + fat.tbl_cnt * k) l.secs
        ∙ ap (λ k. k + fat.tbl_cnt * fat.tbl_sectors) l.start in
      let at_s : sectors s ≡ changed.fat_buffer =
        near s (omega (arith, rows, r.1)) ∙ rw ((==_iff s s).1 refl) refl in
      record {
        sector = l.bytes ∙ h.sector;
        sectors = rows;
        copies = omega (arith, h.copies, l.cnt);
        coherent = λ z k cur.
            let same : s ≡ z = ground (arith, l.current) in
            ap (λ f. f k) (sym at_s ∙ ap sectors same);
        healthy = λ x p q.
            let ok = h.healthy x (omega (arith, l.start)) (omega (arith, behind)) in
            (ap (λ d. d.reads x) l.device ∙ ok.0, ap (λ d. d.writes x) l.device ∙ ok.1);
        entries = λ d inside.
            let x = fat.tbl_start + d * 2 / 512 in
            let there : sectors x ≡ put_sector fat.device.sectors s changed.fat_buffer x =
              near x (omega (arith, rows, inside.1))
              ∙ ap (λ e. put_sector e.sectors s changed.fat_buffer x) l.device in
            ap (λ f. word_at f (d * 2 % 512)) (ap (λ z. sectors (z + d * 2 / 512)) l.start ∙ there)
            ∙ entry_after fat.device.sectors fat.tbl_start c d v fat'.fat_buffer small l.buffer
            ∙ ap (λ e. if d == c then v else e) (h.entries d inside);
      }

  copies_written :
      (write_copies changed (fat.tbl_start + c * 2 / 512) fat.tbl_cnt).0 ≡ true
      × Holds ts
          (write_copies changed (fat.tbl_start + c * 2 / 512) fat.tbl_cnt).1
          (put_entry t c v)
  copies_written =
      let s = fat.tbl_start + c * 2 / 512 in
      let r = in_range ts c fat.tbl_start fat.tbl_cnt i h.copies in
      let ok : (x : ℕ)
          → s ≤ x
          → x + fat'.tbl_sectors ≤ s + fat.tbl_cnt * fat'.tbl_sectors
          → fat'.device.writes x ≡ true =
        λ x p q.
          let rows = ap (λ k. fat.tbl_cnt * k) l.secs in
          ap (λ d. d.writes x) l.device
          ∙ (h.healthy x (omega arith) (omega (arith, rows, l.secs, h.sectors, r.1))).1 in
      let (sectors, e, near) =
        write_copies-first changed s fat.tbl_cnt ok (omega (arith, l.secs, h.sectors, r.1))
          h.copies in
      rw e (refl, near_sectors sectors near)

-- A cluster in the table: its entry is changed in every copy, and no other entry.
pub cluster_set_next-Holds :
    (ts : ℕ) (fat : Fat) (t : ℕ → ℕ) (c v : ℕ)
    → Holds ts fat t
    → InTable ts c
    → v < 65536
    → ((cluster_set_next fat c v).0 ≡ true)
      × Holds ts (cluster_set_next fat c v).1 (put_entry t c v)
cluster_set_next-Holds ts fat t c v h i small =
    let r = in_range ts c fat.tbl_start fat.tbl_cnt i h.copies in
    let s = fat.tbl_start + c * 2 / 512 in
    let ok = (h.healthy s r.0 (omega (arith, r.2, ap (λ k. fat.tbl_cnt * k) h.sectors))).0 in
    let (read, l) = bread_sector-Loaded fat s h.coherent ok in
    let inside : leb fat.tbl_sectors (c * 2 / 512) ≡ false = ground (arith, h.sectors, r.1) in
    let valid = valid_true c i.0 i.2 in
    rw (set_next-eq fat c v h.sector, valid, inside, read)
      (copies_written ts fat (bread_sector fat s).1 t c v small h i l)

-- No cluster, no write.
cluster_set_next_invalid :
    (fat : Fat) (v : ℕ) → cluster_set_next fat cluster_invalid v ≡ (false, fat)
unfolding cluster_set_next cluster_is_valid
cluster_set_next_invalid fat v = refl
