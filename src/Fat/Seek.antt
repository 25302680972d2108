-- ===== src/Fat/Seek.antt =====
-- The position of a file in its chain: `fatfs_seek`.
use os_training.Base.{
  ℕ, zero, suc, ◌+◌, ◌-◌, ◌/◌, ◌%◌, ◌^◌, ◌<◌, ◌≤◌, ◌≡◌, refl, sym, ap, ◌∙◌, true, false, ◌==◌, ltb,
  arith, Bool-cases, inl, inr, some,
}
use native.Mathlib.Nat.{add-mod_right, zero-mod, div-eq-sub-div, div-eq_of_lt}
use os_training.Fat.{Fat, cluster_is_valid, cluster_get_next}
use os_training.Fat.Table.{InTable, Holds, valid_true, cluster_get_next-Holds}
use os_training.Fat.Dir.{OpenFile}
use os_training.Fat.Kept.{cluster_get_next-Kept}
use os_training.Fat.Save.{seek_loop, fatfs_seek}

-- The cluster `k` links behind `s`.
abbrev pub walk : (ℕ → ℕ) → (s k : ℕ) → ℕ
walk t s zero = s
walk t s (suc k) = walk t (t s) k

-- A round of the loop, by where the offset lies.
module _ (fuel : ℕ) (fat : Fat) (c from offset cbs : ℕ) (size : fat.cluster_byte_size ≡ cbs)
    (more : 0 < cbs) (at_start : from % cbs ≡ 0) where
  no_off : from % fat.cluster_byte_size ≡ 0
  no_off = ap (λ b. from % b) size ∙ at_start

  seek_near :
      offset < cbs → seek_loop (suc fuel) fat c from offset ≡ some (true, from + offset, c, fat)
  unfolding seek_loop
  seek_near near =
      let inside : ltb (from % fat.cluster_byte_size + offset) fat.cluster_byte_size ≡ true =
        ground (arith, no_off, size, near) in
      elim (Bool-cases (offset == 0)) [
        | inl e ↦
            let whole : from ≡ from + offset = ground (arith, e) in
            rw e (ap (λ x. some (true, x, c, fat)) whole)
        | inr e ↦ rw (e, inside) refl
      ]

  seek_far :
      (next : ℕ) (fat' : Fat)
      → cbs ≤ offset
      → cluster_get_next fat c ≡ (next, fat')
      → cluster_is_valid next ≡ true
      → seek_loop (suc fuel) fat c from offset
        ≡ seek_loop fuel fat' next (from + cbs) (offset - cbs)
  unfolding seek_loop
  seek_far next fat' far e valid =
      let some_offset : (offset == 0) ≡ false = ground (arith, far, more) in
      let outside : ltb (from % fat.cluster_byte_size + offset) fat.cluster_byte_size ≡ false =
        ground (arith, no_off, size, far) in
      let step : fat.cluster_byte_size - from % fat.cluster_byte_size ≡ cbs =
        omega (arith, no_off, size) in
      rw (some_offset, outside, e, valid, step) refl

  seek_end :
      (next : ℕ) (fat' : Fat)
      → cbs ≤ offset
      → cluster_get_next fat c ≡ (next, fat')
      → cluster_is_valid next ≡ false
      → seek_loop (suc fuel) fat c from offset ≡ some (false, from + cbs, next, fat')
  unfolding seek_loop
  seek_end next fat' far e valid =
      let some_offset : (offset == 0) ≡ false = ground (arith, far, more) in
      let outside : ltb (from % fat.cluster_byte_size + offset) fat.cluster_byte_size ≡ false =
        ground (arith, no_off, size, far) in
      let step : fat.cluster_byte_size - from % fat.cluster_byte_size ≡ cbs =
        omega (arith, no_off, size) in
      rw (some_offset, outside, e, valid, step) refl

-- One cluster further.
div_step : (offset cbs : ℕ) → 0 < cbs → cbs ≤ offset → offset / cbs ≡ suc ((offset - cbs) / cbs)
div_step offset cbs more far = div-eq-sub-div more far ∙ omega arith

next_from : (from cbs : ℕ) → from % cbs ≡ 0 → (from + cbs) % cbs ≡ 0
next_from from cbs e = add-mod_right from cbs ∙ e

seek_loop-walk :
    (ts fuel : ℕ) (fat : Fat) (t : ℕ → ℕ) (c from offset cbs : ℕ)
    → Holds ts fat t
    → fat.cluster_byte_size ≡ cbs
    → 0 < cbs
    → from % cbs ≡ 0
    → ((j : ℕ) → j ≤ offset / cbs → InTable ts (walk t c j))
    → offset / cbs < fuel
    → (fat' : Fat) × (seek_loop fuel fat c from offset
        ≡ some (true, from + offset, walk t c (offset / cbs), fat'))
      × Holds ts fat' t
seek_loop-walk ts zero fat t c from offset cbs h size more start inside enough =
    absurd (omega arith)
seek_loop-walk ts (suc fuel) fat t c from offset cbs h size more start inside enough =
    elim (Bool-cases (ltb offset cbs)) [
      | inl near ↦
          let small : offset < cbs = ground (arith, near) in
          let same : c ≡ walk t c (offset / cbs) = ap (walk t c) (sym (div-eq_of_lt small)) in
          (
            fat,
            seek_near fuel fat c from offset cbs size more start small
                ∙ ap (λ x. some (true, from + offset, x, fat)) same,
            h,
          )
      | inr far ↦
          let large : cbs ≤ offset = ground (arith, far) in
          let d = div_step offset cbs more large in
          let (e, h1) = cluster_get_next-Holds ts fat t c h (inside 0 (omega arith)) in
          let fat1 = (cluster_get_next fat c).1 in
          let i : InTable ts (t c) = inside 1 (omega (arith, d)) in
          let (fat', r, h') =
            seek_loop-walk ts fuel fat1 t (t c) (from + cbs) (offset - cbs) cbs h1
              ((cluster_get_next-Kept fat c).size ∙ size) more (next_from from cbs start)
              (λ j l. inside (suc j) (omega (arith, d))) (omega (arith, d)) in
          (
            fat',
            seek_far fuel fat c from offset cbs size more start (t c) fat1 large
                  (ap (λ x. (x, fat1)) e) (valid_true (t c) i.0 i.2)
                ∙ r
                ∙ ap (λ x. some (true, x, walk t (t c) ((offset - cbs) / cbs), fat')) (omega arith)
                ∙ ap (λ x. some (true, from + offset, walk t c x, fat')) (sym d),
            h',
          )
    ]

not_near : (offset cbs m : ℕ) → 0 < cbs → suc m ≤ offset / cbs → cbs ≤ offset
not_near offset cbs m more short = elim (Bool-cases (ltb offset cbs)) [
  | inl near ↦
      let small : offset < cbs = ground (arith, near) in absurd (omega (arith, div-eq_of_lt small))
  | inr far ↦ ground (arith, far)
]

-- The chain ends before the offset.
seek_loop-short :
    (ts fuel : ℕ) (fat : Fat) (t : ℕ → ℕ) (c from offset cbs m : ℕ)
    → Holds ts fat t
    → fat.cluster_byte_size ≡ cbs
    → 0 < cbs
    → from % cbs ≡ 0
    → suc m ≤ offset / cbs
    → ((j : ℕ) → j ≤ m → InTable ts (walk t c j))
    → cluster_is_valid (walk t c (suc m)) ≡ false
    → m < fuel
    → (p : ℕ) × (d : ℕ) × (fat' : Fat) × (seek_loop fuel fat c from offset
        ≡ some (false, p, d, fat'))
      × Holds ts fat' t
seek_loop-short ts zero fat t c from offset cbs m h size more start short inside bad enough =
    absurd (omega arith)
seek_loop-short ts (suc fuel) fat t c from offset cbs zero h size more start short inside bad
      enough =
    let (e, h1) = cluster_get_next-Holds ts fat t c h (inside 0 (omega arith)) in
    let fat1 = (cluster_get_next fat c).1 in
    let large : cbs ≤ offset = not_near offset cbs 0 more short in
    (
      from + cbs,
      t c,
      fat1,
      seek_end fuel fat c from offset cbs size more start (t c) fat1 large (ap (λ x. (x, fat1)) e)
          bad,
      h1,
    )
seek_loop-short ts (suc fuel) fat t c from offset cbs (suc m) h size more start short inside bad
      enough =
    let (e, h1) = cluster_get_next-Holds ts fat t c h (inside 0 (omega arith)) in
    let fat1 = (cluster_get_next fat c).1 in
    let large : cbs ≤ offset = not_near offset cbs (suc m) more short in
    let i : InTable ts (t c) = inside 1 (omega arith) in
    let (p, d, fat', r, h') =
      seek_loop-short ts fuel fat1 t (t c) (from + cbs) (offset - cbs) cbs m h1
        ((cluster_get_next-Kept fat c).size ∙ size) more (next_from from cbs start)
        (omega (arith, div_step offset cbs more large)) (λ j l. inside (suc j) (omega arith)) bad
        (omega arith) in
    (
      p,
      d,
      fat',
      seek_far fuel fat c from offset cbs size more start (t c) fat1 large (ap (λ x. (x, fat1)) e)
            (valid_true (t c) i.0 i.2)
          ∙ r,
      h',
    )

-- A seek from the start of the file gives the position asked for, and as current cluster the one
-- that is `offset / cluster size` links behind the first, when all clusters up to there are in the
-- table; the loop ends after that many rounds and the table is as before. The sectors of the
-- table, in all copies, can be read and written, and the buffer agrees with the sector that it is
-- said to hold.
pub fatfs_seek-walk :
    (ts fuel : ℕ) (fat : Fat) (t : ℕ → ℕ) (file : OpenFile) (offset : ℕ)
    → Holds ts fat t
    → 0 < fat.cluster_byte_size
    → ((j : ℕ) → j ≤ offset / fat.cluster_byte_size → InTable ts (walk t (file.sblk % 2 ^ 16) j))
    → offset / fat.cluster_byte_size < fuel
    → (fat' : Fat) × (fatfs_seek fuel fat file offset 0
        ≡ some (
          true,
          record file {
            pos = offset;
            cblk = walk t (file.sblk % 2 ^ 16) (offset / fat.cluster_byte_size);
          },
          fat',
        ))
      × Holds ts fat' t
unfolding fatfs_seek
fatfs_seek-walk ts fuel fat t file offset h more inside enough =
    let cbs = fat.cluster_byte_size in
    let (fat', e, h') =
      seek_loop-walk ts fuel fat t (file.sblk % 2 ^ 16) 0 offset cbs h refl more (zero-mod cbs)
        inside enough in
    let last = walk t (file.sblk % 2 ^ 16) (offset / cbs) in
    let whole : 0 + offset ≡ offset = omega arith in
    (fat', rw e (ap (λ p. some (true, record file { pos = p; cblk = last }, fat')) whole), h')

-- Past its end.
fatfs_seek-short :
    (ts fuel : ℕ) (fat : Fat) (t : ℕ → ℕ) (file : OpenFile) (offset m : ℕ)
    → Holds ts fat t
    → 0 < fat.cluster_byte_size
    → suc m ≤ offset / fat.cluster_byte_size
    → ((j : ℕ) → j ≤ m → InTable ts (walk t (file.sblk % 2 ^ 16) j))
    → cluster_is_valid (walk t (file.sblk % 2 ^ 16) (suc m)) ≡ false
    → m < fuel
    → (fat' : Fat) × (fatfs_seek fuel fat file offset 0 ≡ some (false, file, fat'))
      × Holds ts fat' t
unfolding fatfs_seek
fatfs_seek-short ts fuel fat t file offset m h more short inside bad enough =
    let (p, d, fat', e, h') =
      seek_loop-short ts fuel fat t (file.sblk % 2 ^ 16) 0 offset fat.cluster_byte_size m h refl
        more (zero-mod fat.cluster_byte_size) short inside bad enough in
    (fat', rw e refl, h')
