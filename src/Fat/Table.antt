-- ===== src/Fat/Table.antt =====
-- The table as a function from clusters to entries, and the two operations on one entry.
use os_training.Base.{
  ℕ, ◌+◌, ◌*◌, ◌/◌, ◌%◌, ◌<◌, ◌≤◌, ◌≡◌, refl, sym, ap, ◌∙◌, ℤ, pos, negsuc, true, false, leb, arith,
  Bool-cases, inl, inr, ◌⊎◌,
}
use os_training.Fat.{
  Fat, is_current, bread_sector, cluster_is_valid, cluster_invalid, word_at, next_at, set_at,
  cluster_get_next, cluster_set_next,
}

-- A cluster with an entry in a table of `ts` sectors of 512 bytes.
abbrev pub InTable : (ts c : ℕ) → Type 0
InTable ts c = (2 ≤ c) × (c < ts * 256) × (c < 0xFFF8)

-- The entry of a cluster in the first copy of the table.
abbrev pub entry : Fat → ℕ → ℕ
entry fat c = word_at (fat.device.sectors (fat.tbl_start + c * 2 / 512)) (c * 2 % 512)

-- The buffer holds what the sector that it is marked with holds.
abbrev pub IsCoherent : Fat → Type 0
IsCoherent fat = (s i : ℕ) → fat.curr_sector ≡ pos s → fat.fat_buffer i ≡ fat.device.sectors s i

-- The table sectors, all copies, can be read and written.
abbrev pub IsHealthy : Fat → Type 0
IsHealthy fat =
    (s : ℕ)
    → fat.tbl_start ≤ s
    → s < fat.tbl_start + fat.tbl_cnt * fat.tbl_sectors
    → (fat.device.reads s ≡ true) × (fat.device.writes s ≡ true)

-- A file system with sectors of 512 bytes whose table, of `ts` sectors, holds the entries `t`.
pub record Holds (ts : ℕ) (fat : Fat) (t : ℕ → ℕ) : Type 0 where
  pub sector : fat.bytes_per_sec ≡ 512
  pub sectors : fat.tbl_sectors ≡ ts
  pub copies : 0 < fat.tbl_cnt
  pub coherent : IsCoherent fat
  pub healthy : IsHealthy fat
  pub entries : (c : ℕ) → InTable ts c → entry fat c ≡ t c

-- What a read of a table sector leaves: the sector in the buffer, and the device as it was.
pub record Loaded (fat fat' : Fat) (s : ℕ) : Type 0 where
  pub buffer : (i : ℕ) → fat'.fat_buffer i ≡ fat.device.sectors s i
  pub current : fat'.curr_sector ≡ pos s
  pub device : fat'.device ≡ fat.device
  pub start : fat'.tbl_start ≡ fat.tbl_start
  pub cnt : fat'.tbl_cnt ≡ fat.tbl_cnt
  pub secs : fat'.tbl_sectors ≡ fat.tbl_sectors
  pub bytes : fat'.bytes_per_sec ≡ fat.bytes_per_sec
  pub root : fat'.root_start ≡ fat.root_start
  pub ents : fat'.root_ent_cnt ≡ fat.root_ent_cnt

is_current_eq : (z : ℤ) (s : ℕ) → is_current z s ≡ true → z ≡ pos s
is_current_eq (pos n) s h = ground arith
is_current_eq (negsuc n) s h = cc

pub bread_sector-Loaded :
    (fat : Fat) (s : ℕ)
    → IsCoherent fat
    → fat.device.reads s ≡ true
    → ((bread_sector fat s).0 ≡ true) × Loaded fat (bread_sector fat s).1 s
unfolding bread_sector
bread_sector-Loaded fat s co ok = elim (Bool-cases (is_current fat.curr_sector s)) [
  | inl here ↦
      let e = is_current_eq fat.curr_sector s here in
      rw here (
        refl,
        record {
          buffer = λ i. co s i e;
          current = e;
          device = refl;
          start = refl;
          cnt = refl;
          secs = refl;
          bytes = refl;
          root = refl;
          ents = refl;
        },
      )
  | inr other ↦
      rw (other, ok)
        (
          refl,
          record {
            buffer = λ i. refl;
            current = refl;
            device = refl;
            start = refl;
            cnt = refl;
            secs = refl;
            bytes = refl;
            root = refl;
            ents = refl;
          },
        )
]

-- With the buffer that holds what it should, the same table.
Loaded-Holds :
    (ts : ℕ) (fat fat' : Fat) (s : ℕ) (t : ℕ → ℕ)
    → Holds ts fat t
    → Loaded fat fat' s
    → Holds ts fat' t
Loaded-Holds ts fat fat' s t h l = record {
  sector = l.bytes ∙ h.sector;
  sectors = l.secs ∙ h.sectors;
  copies = omega (arith, h.copies, l.cnt);
  coherent = λ z i e.
      let same : z ≡ s = ground (arith, l.current) in
      l.buffer i
      ∙ ap (λ x. fat.device.sectors x i) (sym same)
      ∙ ap (λ d. d.sectors z i) (sym l.device);
  healthy = rw (l.device, l.start, l.cnt, l.secs) h.healthy;
  entries = rw (l.device, l.start) h.entries;
}

-- The sector of an entry in the table.
pub in_range :
    (ts c start cnt : ℕ)
    → InTable ts c
    → 0 < cnt
    → (start ≤ start + c * 2 / 512) × (c * 2 / 512 < ts) × (start + c * 2 / 512 < start + cnt * ts)
in_range ts c start cnt (two, small, valid) more =
    let row : c * 2 / 512 < ts = omega arith in
    let all : ts ≤ cnt * ts = grind arith in (omega arith, row, omega arith)

pub valid_true : (c : ℕ) → 2 ≤ c → c < 0xFFF8 → cluster_is_valid c ≡ true
unfolding cluster_is_valid
valid_true c h k = ground arith

get_next-eq :
    (fat : Fat) (c : ℕ)
    → fat.bytes_per_sec ≡ 512
    → cluster_get_next fat c ≡ next_at fat c (c * 2 / 512) (c * 2 % 512)
unfolding cluster_get_next
get_next-eq fat c e = ap (λ b. next_at fat c (c * 2 / b) (c * 2 % b)) e

pub set_next-eq :
    (fat : Fat) (c n : ℕ)
    → fat.bytes_per_sec ≡ 512
    → cluster_set_next fat c n ≡ set_at fat c n (c * 2 / 512) (c * 2 % 512)
unfolding cluster_set_next
set_next-eq fat c n e = ap (λ b. set_at fat c n (c * 2 / b) (c * 2 % b)) e

-- A cluster in the table: its entry is read, and only the buffer changes.
pub cluster_get_next-Holds :
    (ts : ℕ) (fat : Fat) (t : ℕ → ℕ) (c : ℕ)
    → Holds ts fat t
    → InTable ts c
    → ((cluster_get_next fat c).0 ≡ t c) × Holds ts (cluster_get_next fat c).1 t
cluster_get_next-Holds ts fat t c h i =
    let r = in_range ts c fat.tbl_start fat.tbl_cnt i h.copies in
    let s = fat.tbl_start + c * 2 / 512 in
    let ok = (h.healthy s r.0 (omega (arith, r.2, ap (λ k. fat.tbl_cnt * k) h.sectors))).0 in
    let (read, l) = bread_sector-Loaded fat s h.coherent ok in
    let inside : leb fat.tbl_sectors (c * 2 / 512) ≡ false = ground (arith, h.sectors, r.1) in
    let valid = valid_true c i.0 i.2 in
    let value = word_at (bread_sector fat s).1.fat_buffer (c * 2 % 512) in
    let same : value ≡ entry fat c =
      omega (arith, l.buffer (c * 2 % 512), l.buffer (c * 2 % 512 + 1)) in
    rw (get_next-eq fat c h.sector, valid, inside, read)
      (same ∙ h.entries c i, Loaded-Holds ts fat (bread_sector fat s).1 s t h l)

-- A cluster that is not valid, or behind the table, has no entry, and nothing is read.
pub cluster_get_next_outside :
    (ts : ℕ) (fat : Fat) (t : ℕ → ℕ) (c : ℕ)
    → Holds ts fat t
    → ¬ InTable ts c
    → cluster_get_next fat c ≡ (cluster_invalid, fat)
unfolding cluster_is_valid
cluster_get_next_outside ts fat t c h out =
    get_next-eq fat c h.sector
    ∙ outside (Bool-cases (cluster_is_valid c)) (Bool-cases (leb fat.tbl_sectors (c * 2 / 512)))
  where
    outside :
        (cluster_is_valid c ≡ true) ⊎ (cluster_is_valid c ≡ false)
        → (leb fat.tbl_sectors (c * 2 / 512) ≡ true) ⊎ (leb fat.tbl_sectors (c * 2 / 512) ≡ false)
        → next_at fat c (c * 2 / 512) (c * 2 % 512) ≡ (cluster_invalid, fat)
    outside (inr bad) row = rw bad
    outside (inl valid) (inl behind) = rw (valid, behind)
    outside (inl valid) (inr inside) = absurd (out (ground (arith, h.sectors)))
