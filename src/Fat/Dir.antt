-- ===== src/Fat/Dir.antt =====
-- The entries of the root directory: the packed struct, its names and its type.
pub mod Codec
use os_training.Base.{
  ℕ, zero, suc, ◌+◌, ◌-◌, ◌*◌, ◌/◌, ◌%◌, ◌^◌, Bool, true, false, ◌&&◌, ◌||◌, not, ◌==◌, ltb, leb,
  if◌then◌else◌, Option, none, some, List, [], ◌∷◌, replicate, get_or,
}
use os_training.Fat.{
  Fat, Sector, bread_sector, bwrite_sector, cluster_free_chain, cluster_invalid, word_at,
}
use os_training.Fat.Name.{sfn_len, to_sfn, same_bytes, diritem_get_name}

-- `diritem_t`, the times and dates in the order of the struct.
pub record DirItem : Type 0 where
  pub dir_name : List ℕ
  pub dir_attr : ℕ
  pub dir_nt_res : ℕ
  pub dir_crt_time_teenth : ℕ
  pub dir_crt_time : ℕ
  pub dir_crt_date : ℕ
  pub dir_last_acc_date : ℕ
  pub dir_fst_clus_hi : ℕ
  pub dir_wrt_time : ℕ
  pub dir_wrt_date : ℕ
  pub dir_fst_clus_l0 : ℕ
  pub dir_file_size : ℕ

-- What the functions use of `file_t`; its `int` fields by their values modulo 2^32.
pub record OpenFile : Type 0 where
  pub type : ℕ
  pub size : ℕ
  pub pos : ℕ
  pub sblk : ℕ
  pub cblk : ℕ
  pub p_index : ℕ
  pub mode : ℕ

-- The tests on `mode` with the flags of `<sys/fcntl.h>`.
pub record OpenFlags : Type 0 where
  pub creates : ℕ → Bool
  pub truncates : ℕ → Bool
  pub reads_only : ℕ → Bool

abbrev pub dword_at : Sector → ℕ → ℕ
dword_at b off = word_at b off + 65536 * word_at b (off + 2)

-- The `n` bytes from `off` on.
abbrev pub bytes_at : (n : ℕ) → Sector → ℕ → List ℕ
bytes_at zero b off = []
bytes_at (suc n) b off = b off ∷ bytes_at n b (off + 1)

-- `(diritem_t *)(buffer + off)`: the packed struct of 32 bytes.
abbrev pub item_at : Sector → ℕ → DirItem
item_at b off = record {
  dir_name = bytes_at 11 b off;
  dir_attr = b (off + 11);
  dir_nt_res = b (off + 12);
  dir_crt_time_teenth = b (off + 13);
  dir_crt_time = word_at b (off + 14);
  dir_crt_date = word_at b (off + 16);
  dir_last_acc_date = word_at b (off + 18);
  dir_fst_clus_hi = word_at b (off + 20);
  dir_wrt_time = word_at b (off + 22);
  dir_wrt_date = word_at b (off + 24);
  dir_fst_clus_l0 = word_at b (off + 26);
  dir_file_size = dword_at b (off + 28);
}

-- The byte of the struct at an offset in it.
abbrev pub item_byte : DirItem → ℕ → ℕ
item_byte item j =
    if ltb j 11
    then get_or item.dir_name j 0
    else if j == 11
    then item.dir_attr
    else if j == 12
    then item.dir_nt_res
    else if j == 13
    then item.dir_crt_time_teenth
    else if j == 14
    then item.dir_crt_time % 256
    else if j == 15
    then item.dir_crt_time / 256 % 256
    else if j == 16
    then item.dir_crt_date % 256
    else if j == 17
    then item.dir_crt_date / 256 % 256
    else if j == 18
    then item.dir_last_acc_date % 256
    else if j == 19
    then item.dir_last_acc_date / 256 % 256
    else if j == 20
    then item.dir_fst_clus_hi % 256
    else if j == 21
    then item.dir_fst_clus_hi / 256 % 256
    else if j == 22
    then item.dir_wrt_time % 256
    else if j == 23
    then item.dir_wrt_time / 256 % 256
    else if j == 24
    then item.dir_wrt_date % 256
    else if j == 25
    then item.dir_wrt_date / 256 % 256
    else if j == 26
    then item.dir_fst_clus_l0 % 256
    else if j == 27
    then item.dir_fst_clus_l0 / 256 % 256
    else if j == 28
    then item.dir_file_size % 256
    else if j == 29
    then item.dir_file_size / 256 % 256
    else if j == 30
    then item.dir_file_size / 65536 % 256
    else item.dir_file_size / 16777216 % 256

-- The `kernel_memcpy` of the struct into the buffer.
abbrev pub put_item : Sector → ℕ → DirItem → Sector
put_item b off item i = if leb off i && ltb i (off + 32) then item_byte item (i - off) else b i

-- The tenths of the creation time stay as the caller left them.
unfoldable pub diritem_init : DirItem → (attr : ℕ) → (name : List ℕ) → DirItem
diritem_init item attr name = record item {
  dir_name = to_sfn name;
  dir_attr = attr;
  dir_nt_res = 0;
  dir_crt_time = 0;
  dir_crt_date = 0;
  dir_last_acc_date = 0;
  dir_fst_clus_hi = cluster_invalid / 65536;
  dir_wrt_time = 0;
  dir_wrt_date = 0;
  dir_fst_clus_l0 = cluster_invalid % 65536;
  dir_file_size = 0;
}

-- The item is all 0.
abbrev pub no_item : DirItem
no_item = record {
  dir_name = replicate sfn_len 0;
  dir_attr = 0;
  dir_nt_res = 0;
  dir_crt_time_teenth = 0;
  dir_crt_time = 0;
  dir_crt_date = 0;
  dir_last_acc_date = 0;
  dir_fst_clus_hi = 0;
  dir_wrt_time = 0;
  dir_wrt_date = 0;
  dir_fst_clus_l0 = 0;
  dir_file_size = 0;
}

abbrev pub diritem_name_match : DirItem → (path : List ℕ) → Bool
diritem_name_match item path = same_bytes sfn_len (to_sfn path) item.dir_name

-- `file_type_t`, by the numbers of the enumerators.
abbrev pub file_unknown : ℕ
file_unknown = 0

abbrev pub file_normal : ℕ
file_normal = 2

abbrev pub file_dir : ℕ
file_dir = 3

-- The bit `k` of a byte of attributes.
abbrev pub has_attr : (k attr : ℕ) → Bool
has_attr k attr = attr / 2 ^ k % 2 == 1

unfoldable pub diritem_get_type : DirItem → ℕ
diritem_get_type item =
    let hidden = has_attr 1 item.dir_attr in
    let system = has_attr 2 item.dir_attr in
    let volume_id = has_attr 3 item.dir_attr in
    let long_name = item.dir_attr % 16 == 15 in
    if volume_id || hidden || system
    then file_unknown
    else if long_name
    then file_unknown
    else if has_attr 4 item.dir_attr
    then file_dir
    else file_normal
