-- ===== src/Fat/Root/Scan.antt =====
-- The search of `fatfs_open` through the root directory.
use os_training.Base.{
  ℕ, zero, suc, ◌+◌, ◌-◌, ◌*◌, ◌/◌, ◌%◌, ◌<◌, ◌≤◌, ◌≡◌, refl, sym, ap, ◌∙◌, Bool, true, false, ◌&&◌,
  ◌||◌, not, ◌==◌, arith, Bool-cases, inl, inr, ==_iff, Option, some, none, List,
}
use os_training.Fat.{Fat}
use os_training.Fat.Table.{Loaded}
use os_training.Fat.Dir.{DirItem, diritem_name_match, item_at}
use os_training.Fat.Root.{read_dir_entry, name_mark, OpenScan, matched, unmatched, open_scan}
use os_training.Fat.Root.Entries.{RootDir, dir_entry, read_dir_entry-entry}

-- The entry is one that a scan for `path` goes past.
abbrev pub is_passed : (path : List ℕ) → DirItem → Bool
is_passed path item =
    not (name_mark item == 0x00) && (name_mark item == 0xE5 || not (diritem_name_match item path))

-- A read keeps the directory.
pub Loaded-RootDir :
    (fat fat' : Fat) (s n : ℕ)
    → RootDir fat n
    → Loaded fat fat' s
    → RootDir fat' n × ((k : ℕ) → dir_entry fat' k ≡ dir_entry fat k)
Loaded-RootDir fat fat' s n r l = (
  record {
    sector = l.bytes ∙ r.sector;
    cnt = l.ents ∙ r.cnt;
    coherent = λ z i e.
        let same : z ≡ s = ground (arith, l.current) in
        l.buffer i
        ∙ ap (λ x. fat.device.sectors x i) (sym same)
        ∙ ap (λ d. d.sectors z i) (sym l.device);
    healthy = λ k m.
        let ok = r.healthy k m in
        (
          ap (λ v. v.reads (fat'.root_start + k * 32 / 512)) l.device
              ∙ ap (λ x. fat.device.reads (x + k * 32 / 512)) l.root
              ∙ ok.0,
          ap (λ v. v.writes (fat'.root_start + k * 32 / 512)) l.device
              ∙ ap (λ x. fat.device.writes (x + k * 32 / 512)) l.root
              ∙ ok.1,
        );
  },
  λ k.
      ap (λ v. item_at (v.sectors (fat'.root_start + k * 32 / 512)) (k * 32 % 512)) l.device
      ∙ ap (λ x. item_at (fat.device.sectors (x + k * 32 / 512)) (k * 32 % 512)) l.root,
)

-- The scan with `c` entries to go stands at `j`.
record At (fat : Fat) (path : List ℕ) (n j c : ℕ) (o : OpenScan × Fat) : Type 0 where
  here : Fat
  index : Option ℕ
  same : o ≡ open_scan c here path j index
  dir : RootDir here n
  entries : (k : ℕ) → dir_entry here k ≡ dir_entry fat k

skip_entry :
    (c : ℕ) (fat : Fat) (path : List ℕ) (i : ℕ) (p : Option ℕ) (item : DirItem)
    → is_passed path item ≡ true
    → (read_dir_entry fat i).0 ≡ some item
    → (p' : Option ℕ) × (open_scan (suc c) fat path i p
        ≡ open_scan c (read_dir_entry fat i).1 path (i + 1) p')
unfolding open_scan
skip_entry c fat path i p item pass e =
    let used : (name_mark item == 0x00) ≡ false = ground (arith, pass) in
    elim (Bool-cases (name_mark item == 0xE5)) [
      | inl free ↦ (some i, rw (open_scan, e, used, free) refl)
      | inr busy ↦
          let other : diritem_name_match item path ≡ false = ground (arith, pass, busy) in
          (p, rw (open_scan, e, used, busy, other) refl)
    ]

-- A scan goes past the entries up to `j`.
scan-At :
    (m c c' : ℕ) (fat : Fat) (path : List ℕ) (i n : ℕ) (p : Option ℕ)
    → RootDir fat n
    → i + m < n
    → c' ≡ m + c
    → ((k : ℕ) → i ≤ k → k < i + m → is_passed path (dir_entry fat k) ≡ true)
    → At fat path n (i + m) c (open_scan c' fat path i p)
scan-At zero c c' fat path i n p r l e pass =
    let same : c' ≡ c = omega (arith, e) in
    let here : i ≡ i + 0 = omega arith in
    record {
      here = fat;
      index = p;
      same = ap (λ x. open_scan x fat path i p) same ∙ ap (λ x. open_scan c fat path x p) here;
      dir = r;
      entries = λ k. refl;
    }
scan-At (suc m) c zero fat path i n p r l e pass = absurd (omega (arith, e))
scan-At (suc m) c (suc c') fat path i n p r l e pass =
    let (read, loaded) = read_dir_entry-entry fat i n r (omega arith) in
    let fat' = (read_dir_entry fat i).1 in
    let (r', same) = Loaded-RootDir fat fat' (fat.root_start + i * 32 / 512) n r loaded in
    let (p', step) =
      skip_entry c' fat path i p (dir_entry fat i) (pass i (omega arith) (omega arith)) read in
    let further : i + 1 + m ≡ i + suc m = omega arith in
    let a =
      scan-At m c c' fat' path (i + 1) n p' r' (omega arith) (omega (arith, e))
        (λ k x y. ap (is_passed path) (same k) ∙ pass k (omega arith) (omega arith)) in
    record {
      here = a.here;
      index = a.index;
      same = step ∙ a.same ∙ ap (λ x. open_scan c a.here path x a.index) further;
      dir = a.dir;
      entries = λ k. a.entries k ∙ same k;
    }

module _ (fat : Fat) (path : List ℕ) (i c : ℕ) (p : Option ℕ) (item : DirItem)
    (read : (read_dir_entry fat i).0 ≡ some item) where
  scan_end :
      (name_mark item == 0x00) ≡ true
      → open_scan (suc c) fat path i p ≡ (unmatched (some i), (read_dir_entry fat i).1)
  unfolding open_scan
  scan_end e = rw (open_scan, read, e) refl

  scan_match :
      (name_mark item == 0x00) ≡ false
      → (name_mark item == 0xE5) ≡ false
      → diritem_name_match item path ≡ true
      → open_scan (suc c) fat path i p ≡ (matched item i, (read_dir_entry fat i).1)
  unfolding open_scan
  scan_match used busy match = rw (open_scan, read, used, busy, match) refl

-- What a scan finds: an entry in use with the name, behind entries that it goes past.
abbrev pub is_found : (path : List ℕ) → DirItem → Bool
is_found path item =
    not (name_mark item == 0x00) && not (name_mark item == 0xE5) && diritem_name_match item path

-- The scan of a whole directory, by the first entry that is not passed.
pub open_scan-first :
    (fat : Fat) (path : List ℕ) (i n : ℕ)
    → RootDir fat n
    → i < n
    → ((k : ℕ) → k < i → is_passed path (dir_entry fat k) ≡ true)
    → (fat' : Fat) × RootDir fat' n
      × ((k : ℕ) → dir_entry fat' k ≡ dir_entry fat k)
      × (is_found path (dir_entry fat i) ≡ true
          → open_scan fat.root_ent_cnt fat path 0 none ≡ (matched (dir_entry fat i) i, fat'))
      × (name_mark (dir_entry fat i) ≡ 0x00
          → open_scan fat.root_ent_cnt fat path 0 none ≡ (unmatched (some i), fat'))
open_scan-first fat path i n r l pass =
    let zero_i : 0 + i ≡ i = omega arith in
    let a =
      scan-At i (suc (n - suc i)) fat.root_ent_cnt fat path 0 n none r (omega (arith, l))
        (omega (arith, r.cnt, l)) (λ k x y. pass k (omega arith)) in
    let (read, loaded) = read_dir_entry-entry a.here i n a.dir l in
    let fat' = (read_dir_entry a.here i).1 in
    let (r', same) = Loaded-RootDir a.here fat' (a.here.root_start + i * 32 / 512) n a.dir loaded in
    let at_i = a.same ∙ ap (λ x. open_scan (suc (n - suc i)) a.here path x a.index) zero_i in
    let item = read ∙ ap some (a.entries i) in
    (
      fat',
      r',
      λ k. same k ∙ a.entries k,
      λ found.
          at_i
          ∙ scan_match a.here path i (n - suc i) a.index (dir_entry fat i) item
              (ground (arith, found)) (ground (arith, found)) (ground (arith, found)),
      λ mark.
          at_i
          ∙ scan_end a.here path i (n - suc i) a.index (dir_entry fat i) item ((==_iff _ _).1 mark),
    )
