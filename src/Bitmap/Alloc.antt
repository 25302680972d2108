-- ===== src/Bitmap/Alloc.antt =====
-- `bitmap_alloc_nbits`: whether it ends, what a call for one bit does, and what one for two bits does.
use os_training.Base.{
  ℕ, zero, suc, ◌+◌, ◌-◌, ◌<◌, ◌≤◌, ◌≡◌, refl, ◌≢◌, inl, inr, ℤ, pos, negsuc, minus_one, false, ltb,
  leb, ◌==◌, if◌then◌else◌, arith, Bool-cases, Option, some,
}
use os_training.Bitmap.{
  Bitmap, bitmap_get_bit, bitmap_set_bit, complement, scan_run, alloc_loop, bitmap_alloc_nbits,
}
use os_training.Bitmap.Access.{IsValid, get-bitmap_set_bit, bitmap_set_bit-IsValid}

-- The inner loop does not move back, and moves on if it is left before `count` bits are counted.
scan_run-forward :
    (m : Bitmap) (bit count rounds i s : ℕ) → s ≤ (scan_run m bit count rounds i s).search_idx
unfolding scan_run
scan_run-forward m bit count zero i s = omega arith
scan_run-forward m bit count (suc rounds) i s =
    ground (arith, scan_run-forward m bit count rounds (i + 1) (s + 1))

scan_run-moves :
    (m : Bitmap) (bit count s : ℕ)
    → s < m.bit_count
    → leb count (scan_run m bit count count 1 s).i ≡ false
    → s < (scan_run m bit count count 1 s).search_idx
unfolding scan_run
scan_run-moves m bit zero s h short = ground arith
scan_run-moves m bit (suc rounds) s h short =
    ground (arith, scan_run-forward m bit (suc rounds) rounds 2 (s + 1))

alloc_loop_total :
    (m : Bitmap) (bit count fuel s : ℕ)
    → m.bit_count - s < fuel
    → (r : ℤ × Bitmap) × (alloc_loop m bit count fuel s ≡ some r)
unfolding alloc_loop
alloc_loop_total m bit count zero s h = absurd (omega arith)
alloc_loop_total m bit count (suc fuel) s h = elim (Bool-cases (ltb s m.bit_count)) [
  | inr done ↦ ((minus_one, m), rw done)
  | inl inside ↦ elim (Bool-cases (bitmap_get_bit m s == bit)) [
    | inr skip ↦
        let r = alloc_loop_total m bit count fuel (s + 1) (ground arith) in
        (r.0, rw (inside, skip) r.1)
    | inl same ↦ elim (Bool-cases (leb count (scan_run m bit count count 1 s).i)) [
      | inl found ↦
          ((pos s, bitmap_set_bit m s count (complement (pos bit))), rw (inside, same, found))
      | inr short ↦
          let n = (scan_run m bit count count 1 s).search_idx in
          let r =
            alloc_loop_total m bit count fuel n (ground (arith, scan_run-moves m bit count s)) in
          (r.0, rw (inside, same, short) r.1)
    ]
  ]
]

-- `bitmap_alloc_nbits` ends, whatever the bitmap, the bit and the count.
pub bitmap_alloc_nbits_total :
    (m : Bitmap) (bit count : ℕ) → (r : ℤ × Bitmap) × (bitmap_alloc_nbits m bit count ≡ some r)
unfolding bitmap_alloc_nbits
bitmap_alloc_nbits_total m bit count =
    alloc_loop_total m bit count (m.bit_count + 1) 0 (omega arith)

-- What a call for one bit of value 0 hands out.
pub data Allocated (m : Bitmap) : Option (ℤ × Bitmap) → Type 0 where
  -- The first bit that is 0: it becomes 1, and no other bit changes.
  taken :
      (i : ℕ) (m' : Bitmap)
      → i < m.bit_count
      → bitmap_get_bit m i ≡ 0
      → ((j : ℕ) → j < i → bitmap_get_bit m j ≢ 0)
      → ((j : ℕ) → bitmap_get_bit m' j ≡ (if i == j then 1 else bitmap_get_bit m j))
      → IsValid m'
      → m'.bit_count ≡ m.bit_count
      → Allocated m (some (pos i, m'))
  -- -1, if no bit of the bitmap is 0.
  full : ((j : ℕ) → j < m.bit_count → bitmap_get_bit m j ≢ 0) → Allocated m (some (minus_one, m))

-- With a count of 1 the scan stops at once.
scan_run-one : (m : Bitmap) (bit s : ℕ) → (scan_run m bit 1 1 1 s).i ≡ 1
unfolding scan_run
scan_run-one m bit s = refl

alloc_loop-Allocated :
    (m : Bitmap) (fuel s : ℕ)
    → IsValid m
    → m.bit_count - s < fuel
    → ((j : ℕ) → j < s → bitmap_get_bit m j ≢ 0)
    → Allocated m (alloc_loop m 0 1 fuel s)
unfolding alloc_loop
alloc_loop-Allocated m zero s v h used = absurd (omega arith)
alloc_loop-Allocated m (suc fuel) s v h used = elim (Bool-cases (ltb s m.bit_count)) [
  | inr done ↦ rw done (full (λ j lt. used j (ground arith)))
  | inl inside ↦ elim (Bool-cases (bitmap_get_bit m s == 0)) [
    | inr skip ↦
        rw (inside, skip)
          (alloc_loop-Allocated m fuel (s + 1) v (ground arith) (λ j lt. ground (arith, used j)))
    | inl same ↦
        let w = bitmap_set_bit-IsValid m s 1 (negsuc 0) v in
        rw (inside, same, scan_run-one m 0 s)
          (taken s (bitmap_set_bit m s 1 (negsuc 0)) (ground arith) (ground arith) used
            (λ j. ground (arith, get-bitmap_set_bit m s 1 (negsuc 0) j v)) w.0 w.1)
  ]
]

-- On a valid bitmap a call for one free bit ends; it hands out the first bit that is 0, sets it
-- and no other bit, and leaves a valid bitmap of the same size; it returns -1 and changes nothing
-- if there is no such bit.
pub bitmap_alloc_nbits-Allocated : (m : Bitmap) → IsValid m → Allocated m (bitmap_alloc_nbits m 0 1)
unfolding bitmap_alloc_nbits
bitmap_alloc_nbits-Allocated m v =
    alloc_loop-Allocated m (m.bit_count + 1) 0 v (omega arith) (λ j lt. absurd (omega arith))

alloc_loop-two :
    (m : Bitmap) (i fuel s : ℕ)
    → i - s < fuel
    → s ≤ i
    → i < m.bit_count
    → bitmap_get_bit m i ≡ 0
    → ((j : ℕ) → j < i → bitmap_get_bit m j ≢ 0)
    → alloc_loop m 0 2 fuel s ≡ some (pos i, bitmap_set_bit m i 2 (negsuc 0))
unfolding alloc_loop scan_run
alloc_loop-two m i zero s h le lt free used = absurd (omega arith)
alloc_loop-two m i (suc fuel) s h le lt free used = elim (Bool-cases (s == i)) [
  | inl here ↦ ground arith
  | inr before ↦ ground (arith, used s, alloc_loop-two m i fuel (s + 1))
]

-- With `i` the first free bit, a call for two bits hands out `i` and the bit behind it, whatever
-- that one holds: a bit in use is handed out again.
pub bitmap_alloc_nbits-overlaps :
    (m : Bitmap) (i : ℕ)
    → i < m.bit_count
    → bitmap_get_bit m i ≡ 0
    → ((j : ℕ) → j < i → bitmap_get_bit m j ≢ 0)
    → bitmap_alloc_nbits m 0 2 ≡ some (pos i, bitmap_set_bit m i 2 (negsuc 0))
unfolding bitmap_alloc_nbits
bitmap_alloc_nbits-overlaps m i lt free used =
    alloc_loop-two m i (m.bit_count + 1) 0 (omega arith) (omega arith) lt free used

alloc_loop-one_unchanged :
    (m : Bitmap) (fuel s : ℕ) (i : ℤ) (m' : Bitmap) (j : ℕ)
    → IsValid m
    → alloc_loop m 1 1 fuel s ≡ some (i, m')
    → bitmap_get_bit m' j ≡ bitmap_get_bit m j
unfolding alloc_loop
alloc_loop-one_unchanged m zero s i m' j v e = cc
alloc_loop-one_unchanged m (suc fuel) s i m' j v e = ground (
  arith,
  scan_run-one m 1 s,
  alloc_loop-one_unchanged m fuel (s + 1) i m' j v,
  get-bitmap_set_bit m s 1 (negsuc 1) j v,
)

-- On a valid bitmap a call for one bit of value 1 changes no bit, although it returns a bit as
-- taken: `~1` is not 0, so `bitmap_set_bit` sets the bit again in place of clearing it.
bitmap_alloc_nbits-one_unchanged :
    (m : Bitmap) (i : ℤ) (m' : Bitmap) (j : ℕ)
    → IsValid m
    → bitmap_alloc_nbits m 1 1 ≡ some (i, m')
    → bitmap_get_bit m' j ≡ bitmap_get_bit m j
unfolding bitmap_alloc_nbits
bitmap_alloc_nbits-one_unchanged m i m' j v e =
    alloc_loop-one_unchanged m (m.bit_count + 1) 0 i m' j v e
