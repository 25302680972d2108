-- ===== src/Fat/Dir/Codec.antt =====
-- The packed bytes of a directory entry, written and read.
use os_training.Base.{
  ℕ, zero, suc, ◌+◌, ◌-◌, ◌/◌, ◌%◌, ◌<◌, ◌≤◌, ◌≡◌, refl, ap, ◌∙◌, true, ◌&&◌, ltb, leb, arith, List,
  [], ◌∷◌, length, get_or,
}
use os_training.Fat.{Sector, word_at}
use os_training.Fat.Division.{bytes_at-ext}
use os_training.Fat.Dir.{DirItem, dword_at, bytes_at, item_at, item_byte, put_item}

-- Every field fits in its bytes.
pub record Fits (item : DirItem) : Type 0 where
  pub name : length item.dir_name ≡ 11
  pub crt_time : item.dir_crt_time < 65536
  pub crt_date : item.dir_crt_date < 65536
  pub last_acc_date : item.dir_last_acc_date < 65536
  pub fst_clus_hi : item.dir_fst_clus_hi < 65536
  pub wrt_time : item.dir_wrt_time < 65536
  pub wrt_date : item.dir_wrt_date < 65536
  pub fst_clus_l0 : item.dir_fst_clus_l0 < 65536
  pub file_size : item.dir_file_size < 4294967296

put_item_at :
    (b : Sector) (off j : ℕ) (item : DirItem)
    → j < 32
    → put_item b off item (off + j) ≡ item_byte item j
put_item_at b off j item l =
    let inside : (leb off (off + j) && ltb (off + j) (off + 32)) ≡ true = ground (arith, l) in
    let e : off + j - off ≡ j = omega arith in rw inside (ap (item_byte item) e)

put_item_first :
    (b : Sector) (off : ℕ) (item : DirItem) → put_item b off item off ≡ item_byte item 0
put_item_first b off item =
    let e : off ≡ off + 0 = omega arith in
    ap (put_item b off item) e ∙ put_item_at b off 0 item (omega arith)

word_put :
    (b : Sector) (off j : ℕ) (item : DirItem) (w : ℕ)
    → j + 1 < 32
    → item_byte item j ≡ w % 256
    → item_byte item (j + 1) ≡ w / 256 % 256
    → w < 65536
    → word_at (put_item b off item) (off + j) ≡ w
word_put b off j item w l low high small =
    let next : off + j + 1 ≡ off + (j + 1) = omega arith in
    let first = put_item_at b off j item (omega arith) in
    let second = ap (put_item b off item) next ∙ put_item_at b off (j + 1) item l in
    omega (arith, first, second, low, high)

size_put :
    (b : Sector) (off : ℕ) (item : DirItem)
    → item.dir_file_size < 4294967296
    → dword_at (put_item b off item) (off + 28) ≡ item.dir_file_size
size_put b off item small =
    let b0 = put_item_at b off 28 item (omega arith) in
    let b1 = put_item_at b off 29 item (omega arith) in
    let b2 = put_item_at b off 30 item (omega arith) in
    let b3 = put_item_at b off 31 item (omega arith) in
    let e1 : off + 28 + 1 ≡ off + 29 = omega arith in
    let e2 : off + 28 + 2 ≡ off + 30 = omega arith in
    let e3 : off + 28 + 2 + 1 ≡ off + 31 = omega arith in
    let f = put_item b off item in omega (arith, b0, ap f e1 ∙ b1, ap f e2 ∙ b2, ap f e3 ∙ b3)

bytes_at-list :
    (xs : List ℕ) (n : ℕ) (b : Sector) (off : ℕ)
    → length xs ≡ n
    → ((i : ℕ) → i < n → b (off + i) ≡ get_or xs i 0)
    → bytes_at n b off ≡ xs
bytes_at-list [] zero b off e h = refl
bytes_at-list [] (suc n) b off e h = absurd (omega (arith, e))
bytes_at-list (x ∷ xs) zero b off e h = absurd (omega (arith, e))
bytes_at-list (x ∷ xs) (suc n) b off e h =
    let here : off ≡ off + 0 = omega arith in
    let first : b off ≡ x = ap b here ∙ h 0 (omega arith) in
    let rest =
      bytes_at-list xs n b (off + 1) (omega (arith, e))
        (λ i l. ap b (shift off i) ∙ h (suc i) (omega arith)) in
    ap (λ y. y ∷ bytes_at n b (off + 1)) first ∙ ap (λ ys. x ∷ ys) rest
  where
    shift : (off i : ℕ) → off + 1 + i ≡ off + suc i
    shift off i = omega arith

name_put :
    (b : Sector) (off : ℕ) (item : DirItem)
    → length item.dir_name ≡ 11
    → bytes_at 11 (put_item b off item) off ≡ item.dir_name
name_put b off item e =
    bytes_at-list item.dir_name 11 (put_item b off item) off e
      (λ i l. put_item_at b off i item (omega arith) ∙ name_byte i l)
  where
    name_byte : (i : ℕ) → i < 11 → item_byte item i ≡ get_or item.dir_name i 0
    name_byte i l = let small : ltb i 11 ≡ true = ground (arith, l) in rw small refl

-- What is written is read back.
pub item_at-put_item :
    (b : Sector) (off : ℕ) (item : DirItem) → Fits item → item_at (put_item b off item) off ≡ item
item_at-put_item b off item f = λ i. record {
  dir_name = name_put b off item f.name i;
  dir_attr = put_item_at b off 11 item (omega arith) i;
  dir_nt_res = put_item_at b off 12 item (omega arith) i;
  dir_crt_time_teenth = put_item_at b off 13 item (omega arith) i;
  dir_crt_time = word_put b off 14 item item.dir_crt_time (omega arith) refl refl f.crt_time i;
  dir_crt_date = word_put b off 16 item item.dir_crt_date (omega arith) refl refl f.crt_date i;
  dir_last_acc_date =
      word_put b off 18 item item.dir_last_acc_date (omega arith) refl refl f.last_acc_date i;
  dir_fst_clus_hi =
      word_put b off 20 item item.dir_fst_clus_hi (omega arith) refl refl f.fst_clus_hi i;
  dir_wrt_time = word_put b off 22 item item.dir_wrt_time (omega arith) refl refl f.wrt_time i;
  dir_wrt_date = word_put b off 24 item item.dir_wrt_date (omega arith) refl refl f.wrt_date i;
  dir_fst_clus_l0 =
      word_put b off 26 item item.dir_fst_clus_l0 (omega arith) refl refl f.fst_clus_l0 i;
  dir_file_size = size_put b off item f.file_size i;
}

-- An entry depends on its 32 bytes only.
pub item_at-ext :
    (b b' : Sector) (off : ℕ)
    → ((j : ℕ) → off ≤ j → j < off + 32 → b j ≡ b' j)
    → item_at b off ≡ item_at b' off
item_at-ext b b' off h =
    let byte = λ (k : ℕ) (l : k < 32). h (off + k) (omega arith) (omega (arith, l)) in
    let word = λ (k : ℕ) (l : k + 1 < 32). word_ext k l in
    λ i. record {
      dir_name = bytes_at-ext 11 b b' off off (λ k l. byte k (omega arith)) i;
      dir_attr = byte 11 (omega arith) i;
      dir_nt_res = byte 12 (omega arith) i;
      dir_crt_time_teenth = byte 13 (omega arith) i;
      dir_crt_time = word 14 (omega arith) i;
      dir_crt_date = word 16 (omega arith) i;
      dir_last_acc_date = word 18 (omega arith) i;
      dir_fst_clus_hi = word 20 (omega arith) i;
      dir_wrt_time = word 22 (omega arith) i;
      dir_wrt_date = word 24 (omega arith) i;
      dir_fst_clus_l0 = word 26 (omega arith) i;
      dir_file_size = size_ext i;
    }
  where
    word_ext : (k : ℕ) → k + 1 < 32 → word_at b (off + k) ≡ word_at b' (off + k)
    word_ext k l = omega (
      arith,
      h (off + k) (omega arith) (omega arith),
      h (off + k + 1) (omega arith) (omega arith),
    )

    size_ext : dword_at b (off + 28) ≡ dword_at b' (off + 28)
    size_ext = omega (
      arith,
      h (off + 28) (omega arith) (omega arith),
      h (off + 28 + 1) (omega arith) (omega arith),
      h (off + 28 + 2) (omega arith) (omega arith),
      h (off + 28 + 2 + 1) (omega arith) (omega arith),
    )
