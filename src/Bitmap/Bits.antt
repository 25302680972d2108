-- ===== src/Bitmap/Bits.antt =====
-- Facts about one byte, by evaluation over all bytes and bit positions.
use os_training.Base.{
  ℕ, zero, suc, ◌+◌, ◌*◌, ◌/◌, ◌%◌, ◌<◌, ◌≡◌, refl, Bool, true, ◌==◌, if◌then◌else◌, arith, ==_iff,
  ◌≤◌, false, Bool-cases, inl, inr,
}
use mathlib.Core.Bool.{false≢true}
use mathlib.Core.Path.{subst}
use os_training.Bitmap.{or_bit, clear_bit, test_bit}

-- The test passes at the `n` numbers from `low` on.
passes : (test : ℕ → Bool) → (low n : ℕ) → Bool
passes test low zero = true
passes test low (suc n) = let rest = passes test (low + 1) n in if test low then rest else false

passes_at :
    (test : ℕ → Bool) (low n k : ℕ)
    → passes test low n ≡ true
    → low ≤ k
    → k < low + n
    → test k ≡ true
unfolding passes
passes_at test low zero k h le lt = absurd (omega arith)
passes_at test low (suc n) k h le lt = elim (Bool-cases (test low)) [
  | inl good ↦ elim (Bool-cases (low == k)) [
    | inl here ↦ subst (λ m. test m ≡ true) ((==_iff low k).0 here) good
    | inr later ↦ passes_at test (low + 1) n k (ground (arith, good)) (ground arith) (omega arith)
  ]
  | inr bad ↦ absurd (false≢true (ground (arith, bad)))
]

-- A byte and two bit positions, packed in one number.
module _ (f : ℕ → ℕ → ℕ) (v : ℕ) where
  law : ℕ → Bool
  law n =
      let b = n / 64 in
      let k = n / 8 % 8 in
      let j = n % 8 in test_bit (f b k) j == (if k == j then v else test_bit b j)

  law_sound :
      passes law 0 16384 ≡ true
      → (b k j : ℕ) → b < 256
      → k < 8
      → j < 8
      → test_bit (f b k) j ≡ (if k == j then v else test_bit b j)
  unfolding law
  law_sound table b k j hb hk hj =
      let n = b * 64 + k * 8 + j in
      let eb : n / 64 ≡ b = omega arith in
      let ek : n / 8 % 8 ≡ k = omega arith in
      let ej : n % 8 ≡ j = omega arith in
      let h = (==_iff _ _).0 (passes_at law 0 16384 n table (omega arith) (omega arith)) in
      rw (eb, ek, ej) at h

or_table : passes (law or_bit 1) 0 16384 ≡ true
unfolding passes law or_bit test_bit
or_table = refl

clear_table : passes (law clear_bit 0) 0 16384 ≡ true
unfolding passes law clear_bit test_bit
clear_table = refl

-- Setting bit `k` of a byte, read back at bit `j`.
pub test_bit-or_bit :
    (b k j : ℕ)
    → b < 256
    → k < 8
    → j < 8
    → test_bit (or_bit b k) j ≡ (if k == j then 1 else test_bit b j)
test_bit-or_bit = law_sound or_bit 1 or_table

pub test_bit-clear_bit :
    (b k j : ℕ)
    → b < 256
    → k < 8
    → j < 8
    → test_bit (clear_bit b k) j ≡ (if k == j then 0 else test_bit b j)
test_bit-clear_bit = law_sound clear_bit 0 clear_table

pub or_bit_lt : (b k : ℕ) → or_bit b k < 256
unfolding or_bit
or_bit_lt b k = omega arith

pub clear_bit_lt : (b k : ℕ) → clear_bit b k < 256
unfolding clear_bit
clear_bit_lt b k = omega arith

pub test_bit_zero : (k : ℕ) → k < 8 → test_bit 0 k ≡ 0
unfolding passes test_bit
test_bit_zero k h =
    (==_iff _ _).0 (passes_at (λ j. test_bit 0 j == 0) 0 8 k zeros (omega arith) (omega arith))
  where
    zeros : passes (λ j. test_bit 0 j == 0) 0 8 ≡ true
    zeros = refl

pub test_bit_ones : (k : ℕ) → k < 8 → test_bit 0xFF k ≡ 1
unfolding passes test_bit
test_bit_ones k h =
    (==_iff _ _).0 (passes_at (λ j. test_bit 0xFF j == 1) 0 8 k ones (omega arith) (omega arith))
  where
    ones : passes (λ j. test_bit 0xFF j == 1) 0 8 ≡ true
    ones = refl
