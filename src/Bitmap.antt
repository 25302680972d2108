-- ===== src/Bitmap.antt =====
-- source/kernel/tools/bitmap.c: a bitmap over an array of bytes.
-- An index is a number; the `bit` that a caller passes is an `int`.
pub mod Bits
pub mod Access
pub mod Alloc
use Prim.Native.Nat.{bit_and, bit_or}
use os_training.Base.{
  ℕ, zero, suc, ◌+◌, ◌-◌, ◌/◌, ◌%◌, ◌^◌, ℤ, pos, negsuc, minus_one, is_zero, Bool, true, false,
  ◌&&◌, not, ltb, leb, ◌==◌, if◌then◌else◌, Option, none, some, List, get_or, set, replicate,
}

-- `bitmap_t`; `bits` is the array that the pointer leads to.
pub record Bitmap : Type 0 where
  pub bit_count : ℕ
  pub bits : List ℕ

abbrev pub bitmap_byte_count : ℕ → ℕ
bitmap_byte_count bit_count = (bit_count + 8 - 1) / 8

-- `b |= 1 << k` and `b &= ~(1 << k)` on a `uint8_t`.
unfoldable pub or_bit : ℕ → ℕ → ℕ
or_bit b k = bit_or b (2 ^ k) % 256

unfoldable pub clear_bit : ℕ → ℕ → ℕ
clear_bit b k = bit_and b (2 ^ 32 - 1 - 2 ^ k) % 256

-- `(b & (1 << k)) ? 1 : 0`
unfoldable pub test_bit : ℕ → ℕ → ℕ
test_bit b k = if bit_and b (2 ^ k) == 0 then 0 else 1

-- `kernel_memset` over the first `n` bytes of an array.
abbrev pub memset : List ℕ → ℕ → ℕ → List ℕ
memset xs v zero = xs
memset xs v (suc n) = set (memset xs v n) n v

unfoldable pub bitmap_init : List ℕ → ℕ → ℤ → Bitmap
bitmap_init bits count init_bit = record {
  bit_count = count;
  bits = memset bits (if is_zero init_bit then 0 else 0xFF) (bitmap_byte_count count);
}

unfoldable pub bitmap_get_bit : Bitmap → ℕ → ℕ
bitmap_get_bit m index = test_bit (get_or m.bits (index / 8) 0) (index % 8)

unfoldable pub bitmap_is_set : Bitmap → ℕ → ℕ
bitmap_is_set m index = if bitmap_get_bit m index == 0 then 0 else 1

-- One round of the loop of `bitmap_set_bit`.
unfoldable pub write_bit : Bitmap → ℕ → ℤ → Bitmap
write_bit m index bit =
    let b = get_or m.bits (index / 8) 0 in
    record m {
      bits =
          set m.bits (index / 8)
            (if is_zero bit then clear_bit b (index % 8) else or_bit b (index % 8));
    }

-- The loop runs `count` times, or until the index leaves the bitmap.
unfoldable pub bitmap_set_bit : Bitmap → ℕ → ℕ → ℤ → Bitmap
bitmap_set_bit m index zero bit = m
bitmap_set_bit m index (suc count) bit =
    if ltb index m.bit_count
    then bitmap_set_bit (write_bit m index bit) (index + 1) count bit
    else m

-- `~n` on an `int`.
abbrev pub complement : ℤ → ℤ
complement (pos n) = negsuc n
complement (negsuc n) = pos n

-- Where the inner loop of `bitmap_alloc_nbits` stops: `i`, `search_idx`, and whether `ok_idx` was
-- reset to -1.
pub record Scan : Type 0 where
  pub i : ℕ
  pub search_idx : ℕ
  pub reset : Bool

-- The inner loop; `rounds` is `count`, which is enough, as `i` begins at 1.
unfoldable pub scan_run : Bitmap → (bit count : ℕ) → (rounds i search_idx : ℕ) → Scan
scan_run m bit count zero i search_idx = record { i = i; search_idx = search_idx; reset = false }
scan_run m bit count (suc rounds) i search_idx =
    let rest = scan_run m bit count rounds (i + 1) (search_idx + 1) in
    if ltb i count && ltb search_idx m.bit_count
    then (if bitmap_get_bit m search_idx == bit
        then rest
        else record { i = i; search_idx = search_idx + 1; reset = true })
    else record { i = i; search_idx = search_idx; reset = false }

-- The outer loop on fuel; `none` is out of fuel. `ok_idx` is -1 where the scan reset it, and
-- `bitmap_set_bit` with -1 would begin before the array; `i >= count` excludes it.
unfoldable pub alloc_loop : Bitmap → (bit count : ℕ) → (fuel search_idx : ℕ) → Option (ℤ × Bitmap)
alloc_loop m bit count zero search_idx = none
alloc_loop m bit count (suc fuel) search_idx =
    let run = scan_run m bit count count 1 search_idx in
    let skip = alloc_loop m bit count fuel (search_idx + 1) in
    let again = alloc_loop m bit count fuel run.search_idx in
    if ltb search_idx m.bit_count
    then (if bitmap_get_bit m search_idx == bit
        then (if leb count run.i
            then some (pos search_idx, bitmap_set_bit m search_idx count (complement (pos bit)))
            else again)
        else skip)
    else some (minus_one, m)

-- Each round of the outer loop moves `search_idx` on, so `bit_count + 1` rounds are enough.
unfoldable pub bitmap_alloc_nbits : Bitmap → (bit count : ℕ) → Option (ℤ × Bitmap)
bitmap_alloc_nbits m bit count = alloc_loop m bit count (m.bit_count + 1) 0
