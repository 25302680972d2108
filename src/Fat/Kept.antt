-- ===== src/Fat/Kept.antt =====
-- What the reads of the cluster table leave as it is.
use os_training.Base.{
  ℕ, ◌+◌, ◌*◌, ◌/◌, ◌≡◌, refl, ◌∙◌, Bool, true, false, not, leb, if◌then◌else◌, pos,
}
use os_training.Fat.{Fat, cluster_is_valid, is_current, bread_sector, cluster_get_next}

-- What a read of the table keeps.
pub record Kept (fat fat' : Fat) : Type 0 where
  pub device : fat'.device ≡ fat.device
  pub size : fat'.cluster_byte_size ≡ fat.cluster_byte_size
  pub start : fat'.data_start ≡ fat.data_start
  pub secs : fat'.sec_per_cluster ≡ fat.sec_per_cluster

pub Kept-refl : (fat : Fat) → Kept fat fat
Kept-refl fat = record { device = refl; size = refl; start = refl; secs = refl }

Kept-if :
    (b : Bool) (fat : Fat) (x y : Bool × Fat)
    → Kept fat x.1
    → Kept fat y.1
    → Kept fat (if b then x else y).1
Kept-if true fat x y k l = k
Kept-if false fat x y k l = l

next_if :
    (b : Bool) (fat : Fat) (x y : ℕ × Fat)
    → Kept fat x.1
    → Kept fat y.1
    → Kept fat (if b then x else y).1
next_if true fat x y k l = k
next_if false fat x y k l = l

bread_sector-Kept : (fat : Fat) (s : ℕ) → Kept fat (bread_sector fat s).1
unfolding bread_sector
bread_sector-Kept fat s =
    let loaded : Fat = record fat { fat_buffer = fat.device.sectors s; curr_sector = pos s } in
    Kept-if (is_current fat.curr_sector s) fat (true, fat)
      (if fat.device.reads s then (true, loaded) else (false, fat)) (Kept-refl fat)
      (Kept-if (fat.device.reads s) fat (true, loaded) (false, fat)
        (record { device = refl; size = refl; start = refl; secs = refl }) (Kept-refl fat))

pub cluster_get_next-Kept : (fat : Fat) (c : ℕ) → Kept fat (cluster_get_next fat c).1
unfolding cluster_get_next
cluster_get_next-Kept fat c =
    let read = bread_sector-Kept fat (fat.tbl_start + c * 2 / fat.bytes_per_sec) in
    next_if (not (cluster_is_valid c)) fat _ _ (Kept-refl fat) (
      next_if (leb fat.tbl_sectors (c * 2 / fat.bytes_per_sec)) fat _ _ (Kept-refl fat) (
        next_if (bread_sector fat (fat.tbl_start + c * 2 / fat.bytes_per_sec)).0 fat _ _ read read))

pub Kept-trans : (fat fat' fat'' : Fat) → Kept fat fat' → Kept fat' fat'' → Kept fat fat''
Kept-trans fat fat' fat'' k l = record {
  device = l.device ∙ k.device;
  size = l.size ∙ k.size;
  start = l.start ∙ k.start;
  secs = l.secs ∙ k.secs;
}
