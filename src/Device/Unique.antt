-- ===== src/Device/Unique.antt =====
-- Which devices stand in the table.
use os_training.Base.{
  ℕ, zero, suc, ◌+◌, ◌<◌, ◌≤◌, ◌≡◌, ◌≢◌, refl, sym, ap, ◌∙◌, Bool, true, false, ◌||◌, ◌==◌, leb,
  arith, Bool-cases, inl, inr, ==_iff, Option, some, none, List, [], ◌∷◌, inc, dec, is_zero,
}
use os_training.Device.{
  DeviceEntry, Drivers, no_device, put_device, is_open_as, FindEnd, already, spare, find_device,
  find_desc, open_free, dev_opened, dev_open, is_devid_bad, dev_close, dev_table_size,
}

-- Two places that are open under the same numbers are one place.
abbrev pub IsUnique : {S : Type 0} → Drivers S → (ℕ → DeviceEntry) → Type 0
IsUnique ds tbl =
    (i j : ℕ)
    → i < dev_table_size
    → j < dev_table_size
    → is_zero (tbl i).open_count ≡ false
    → is_zero (tbl j).open_count ≡ false
    → ds.major (tbl i).desc ≡ ds.major (tbl j).desc
    → (tbl i).minor ≡ (tbl j).minor
    → i ≡ j

module _ {S : Type 0} (ds : Drivers S) (tbl : ℕ → DeviceEntry) where
  put_here : (k : ℕ) (d : DeviceEntry) (i : ℕ) → (i == k) ≡ true → put_device tbl k d i ≡ d
  put_here k d i e = rw e refl

  put_there : (k : ℕ) (d : DeviceEntry) (i : ℕ) → (i == k) ≡ false → put_device tbl k d i ≡ tbl i
  put_there k d i e = rw e refl

  -- A place that is changed to a device that is closed, or that was open there, or nowhere.
  put-IsUnique :
      (k : ℕ) (d : DeviceEntry)
      → IsUnique ds tbl
      → (is_zero d.open_count ≡ false
          → (j : ℕ) → j < dev_table_size
          → is_zero (tbl j).open_count ≡ false
          → ds.major (tbl j).desc ≡ ds.major d.desc
          → (tbl j).minor ≡ d.minor
          → j ≡ k)
      → IsUnique ds (put_device tbl k d)
  put-IsUnique k d u alone i j li lj oi oj e f = elim (Bool-cases (i == k)) [
    | inl ik ↦ elim (Bool-cases (j == k)) [
      | inl jk ↦ (==_iff i k).0 ik ∙ sym ((==_iff j k).0 jk)
      | inr jn ↦
          let a = put_here k d i ik in
          let b = put_there k d j jn in
          (==_iff i k).0 ik
          ∙ sym (
              alone (sym (ap (λ x. is_zero x.open_count) a) ∙ oi) j lj
                (sym (ap (λ x. is_zero x.open_count) b) ∙ oj)
                (sym (ap (λ x. ds.major x.desc) b) ∙ sym e ∙ ap (λ x. ds.major x.desc) a)
                (sym (ap (λ x. x.minor) b) ∙ sym f ∙ ap (λ x. x.minor) a))
    ]
    | inr other ↦ elim (Bool-cases (j == k)) [
      | inl jk ↦
          let a = put_there k d i other in
          let b = put_here k d j jk in
          alone (sym (ap (λ x. is_zero x.open_count) b) ∙ oj) i li
            (sym (ap (λ x. is_zero x.open_count) a) ∙ oi)
            (sym (ap (λ x. ds.major x.desc) a) ∙ e ∙ ap (λ x. ds.major x.desc) b)
            (sym (ap (λ x. x.minor) a) ∙ f ∙ ap (λ x. x.minor) b)
          ∙ sym ((==_iff j k).0 jk)
      | inr jn ↦
          let a = put_there k d i other in
          let b = put_there k d j jn in
          u i j li lj (sym (ap (λ x. is_zero x.open_count) a) ∙ oi)
            (sym (ap (λ x. is_zero x.open_count) b) ∙ oj)
            (sym (ap (λ x. ds.major x.desc) a) ∙ e ∙ ap (λ x. ds.major x.desc) b)
            (sym (ap (λ x. x.minor) a) ∙ f ∙ ap (λ x. x.minor) b)
    ]
  ]

  -- What the loop finds.
  Found : (n i : ℕ) (major minor : ℕ) → Option ℕ → FindEnd → Type 0
  Found n i major minor free (already j) = (j < i + n) × (is_open_as ds (tbl j) major minor ≡ true)
  Found n i major minor free (spare f) =
      (j : ℕ) → i ≤ j → j < i + n → is_open_as ds (tbl j) major minor ≡ false

  Found-widen :
      (n i major minor : ℕ) (free : Option ℕ) (o : FindEnd)
      → is_open_as ds (tbl i) major minor ≡ false
      → Found n (i + 1) major minor free o
      → Found (suc n) i major minor free o
  unfolding Found
  Found-widen n i major minor free (already j) no_hit f = (omega (arith, f.0), f.1)
  Found-widen n i major minor free (spare k) no_hit f = λ j l m. elim (Bool-cases (j == i)) [
    | inl e ↦ ap (λ x. is_open_as ds (tbl x) major minor) ((==_iff j i).0 e) ∙ no_hit
    | inr ne ↦ f j (ground (arith, ne, l)) (omega (arith, m))
  ]

  find_device-Found :
      (n i major minor : ℕ) (free : Option ℕ)
      → Found n i major minor free (find_device n ds tbl major minor i free)
  unfolding find_device Found
  find_device-Found zero i major minor free = λ j l m. absurd (omega arith)
  find_device-Found (suc n) i major minor free = elim (Bool-cases (is_zero (tbl i).open_count)) [
    | inl empty ↦ rw empty (
        Found-widen n i major minor (some i) _ (rw empty refl)
          (find_device-Found n (i + 1) major minor (some i)))
    | inr used ↦ elim (Bool-cases (is_open_as ds (tbl i) major minor)) [
      | inl here ↦ rw (here, used) (omega arith, here)
      | inr other ↦
          rw (other, used)
            (Found-widen n i major minor free _ other
              (find_device-Found n (i + 1) major minor free))
    ]
  ]

==_false→ne : (a b : ℕ) → (a == b) ≡ false → a ≢ b
==_false→ne a b h = ground arith

find_desc_major :
    {S : Type 0} (ds : Drivers S) (l : List ℕ) (major : ℕ)
    → find_desc ds l major ≢ 0
    → ds.major (find_desc ds l major) ≡ major
unfolding find_desc
find_desc_major ds [] major ne = absurd (ne refl)
find_desc_major ds (d ∷ rest) major ne = elim (Bool-cases (ds.major d == major)) [
  | inl here ↦ rw here ((==_iff _ _).0 here)
  | inr other ↦ rw other (find_desc_major ds rest major (λ e. ne (rw other e)))
]

module _ {S : Type 0} (ds : Drivers S) (tbl : ℕ → DeviceEntry) (u : IsUnique ds tbl) where
  -- An open device under these numbers would have been found.
  as_asked :
      (j major minor : ℕ)
      → is_zero (tbl j).open_count ≡ false
      → ds.major (tbl j).desc ≡ major
      → (tbl j).minor ≡ minor
      → is_open_as ds (tbl j) major minor ≡ true
  as_asked j major minor o e f =
      rw (o, (==_iff (ds.major (tbl j).desc) major).1 e, (==_iff (tbl j).minor minor).1 f) refl

  counted-IsUnique :
      (k : ℕ) (d : DeviceEntry)
      → k < dev_table_size
      → is_zero (tbl k).open_count ≡ false
      → d.desc ≡ (tbl k).desc
      → d.minor ≡ (tbl k).minor
      → IsUnique ds (put_device tbl k d)
  counted-IsUnique k d l o e f =
      put-IsUnique ds tbl k d u (λ od j lj oj p q. u j k lj l oj o (p ∙ ap ds.major e) (q ∙ f))

  open_free-IsUnique :
      (s : S) (desc minor data_addr i : ℕ)
      → ((j : ℕ) → j < dev_table_size → is_open_as ds (tbl j) (ds.major desc) minor ≡ false)
      → IsUnique ds (open_free ds tbl s desc minor data_addr i).1
  open_free-IsUnique s desc minor data_addr i none_open =
      let asked : DeviceEntry = record (tbl i) {
        desc = desc;
        minor = minor;
        data_addr = data_addr;
      } in
      let alone : (d : DeviceEntry)
          → d.desc ≡ desc
          → d.minor ≡ minor
          → IsUnique ds (put_device tbl i d) =
        λ d e f. put-IsUnique ds tbl i d u (λ od j lj oj p q. absurd (
          clash (is_open_as ds (tbl j) (ds.major desc) minor)
            (as_asked j (ds.major desc) minor oj (p ∙ ap ds.major e) (q ∙ f)) (none_open j lj))) in
      elim (Bool-cases (ds.open_device asked s).0) [
        | inl ok ↦ rw ok (alone _ refl refl)
        | inr bad ↦ rw bad (alone _ refl refl)
      ]
    where
      clash : (b : Bool) → b ≡ true → b ≡ false → ⊥
      clash b x y = cc

-- When no two places of the device table are open under the same numbers, this holds after every
-- `dev_open`, whether the device was open already, is opened anew, is refused by its driver, or
-- has no driver or no free place.
pub dev_open-IsUnique :
    {S : Type 0} (ds : Drivers S) (tbl : ℕ → DeviceEntry) (s : S) (major minor data_addr : ℕ)
    → IsUnique ds tbl
    → IsUnique ds (dev_open ds tbl s major minor data_addr).1
unfolding dev_open Found
dev_open-IsUnique ds tbl s major minor data_addr u =
    after (find_device dev_table_size ds tbl major minor 0 none)
      (find_device-Found ds tbl dev_table_size 0 major minor none)
  where
    after :
        (o : FindEnd)
        → Found ds tbl dev_table_size 0 major minor none o
        → IsUnique ds (dev_opened ds tbl s (find_desc ds ds.dev_desc_tbl major) minor data_addr o).1
    after (already k) (l, o) =
        counted-IsUnique ds tbl u k (record (tbl k) { open_count = inc (tbl k).open_count })
          (omega (arith, l)) (ground (arith, o)) refl refl
    after (spare none) f = u
    after (spare (some i)) f =
        let desc = find_desc ds ds.dev_desc_tbl major in
        elim (Bool-cases (desc == 0)) [
          | inl null ↦ rw null u
          | inr driver ↦
              let same = find_desc_major ds ds.dev_desc_tbl major (==_false→ne desc 0 driver) in
              rw driver (
                open_free-IsUnique ds tbl u s desc minor data_addr i (λ j l.
                  ap (λ x. is_open_as ds (tbl j) x minor) same
                  ∙ f j (omega arith) (omega (arith, l))))
        ]

-- When no two places of the device table are open under the same numbers, this holds after
-- `dev_close` of a device that is open, whether or not that was the last user of the device.
pub dev_close-IsUnique :
    {S : Type 0} (ds : Drivers S) (tbl : ℕ → DeviceEntry) (s : S) (dev_id : ℕ)
    → IsUnique ds tbl
    → is_zero (tbl dev_id).open_count ≡ false
    → IsUnique ds (dev_close ds tbl s dev_id).0
unfolding dev_close is_devid_bad
dev_close-IsUnique ds tbl s k u o = elim (Bool-cases (leb dev_table_size k || (tbl k).desc == 0)) [
  | inl bad ↦ rw bad u
  | inr good ↦
      let small : k < dev_table_size = ground (arith, good) in
      elim (Bool-cases (is_zero (dec (tbl k).open_count))) [
        | inl last ↦ rw (good, last) (put-IsUnique ds tbl k no_device u (λ e. absurd (clash e)))
        | inr more ↦
            rw (good, more)
              (counted-IsUnique ds tbl u k (record (tbl k) { open_count = dec (tbl k).open_count })
                small o refl refl)
      ]
]
  where
    clash : true ≡ false → ⊥
    clash e = cc
