-- ===== src/Bitmap/Access.antt =====
-- What `bitmap_init` and `bitmap_set_bit` leave to be read by `bitmap_get_bit`.
use os_training.Base.{
  ℕ, zero, suc, ◌+◌, ◌*◌, ◌/◌, ◌%◌, ◌<◌, ◌≤◌, ◌≡◌, refl, inl, inr, ℤ, is_zero, ◌&&◌, ltb, leb, ◌==◌,
  if◌then◌else◌, arith, List, length, get_or, length-set, get_or-set, ◌∙◌, Bool-cases,
}
use os_training.Bitmap.{
  Bitmap, bitmap_byte_count, memset, bitmap_init, bitmap_get_bit, write_bit, bitmap_set_bit,
  test_bit, or_bit, clear_bit,
}
use os_training.Bitmap.Bits.{
  test_bit-or_bit, test_bit-clear_bit, or_bit_lt, clear_bit_lt, test_bit_zero, test_bit_ones,
}

-- The array holds bytes, and a bit for every index.
pub record IsValid (m : Bitmap) : Type 0 where
  pub bytes : (i : ℕ) → get_or m.bits i 0 < 256
  pub room : m.bit_count ≤ length m.bits * 8

-- The value that a bit has after a write of `bit`.
abbrev pub bit_value : ℤ → ℕ
bit_value bit = if is_zero bit then 0 else 1

module _ (m : Bitmap) (index : ℕ) (bit : ℤ) where
  new_byte : ℕ → ℕ → ℕ
  new_byte b k = if is_zero bit then clear_bit b k else or_bit b k

  new_byte_lt : (b k : ℕ) → new_byte b k < 256
  unfolding new_byte
  new_byte_lt b k = ground (arith, or_bit_lt b k, clear_bit_lt b k)

  test_bit-new_byte :
      (b k j : ℕ)
      → b < 256
      → k < 8
      → j < 8
      → test_bit (new_byte b k) j ≡ (if k == j then bit_value bit else test_bit b j)
  unfolding new_byte
  test_bit-new_byte b k j hb hk hj = ground (arith, test_bit-or_bit b k j, test_bit-clear_bit b k j)

  bits-write_bit :
      IsValid m
      → index < m.bit_count
      → (i : ℕ)
      → get_or (write_bit m index bit).bits i 0 ≡ (
          if index / 8 == i
          then new_byte (get_or m.bits (index / 8) 0) (index % 8)
          else get_or m.bits i 0)
  unfolding write_bit new_byte
  bits-write_bit v h i =
      let room = v.room in
      get_or-set m.bits (index / 8) i
        (if is_zero bit
          then clear_bit (get_or m.bits (index / 8) 0) (index % 8)
          else or_bit (get_or m.bits (index / 8) 0) (index % 8))
        0 (omega arith)

  length-write_bit : length (write_bit m index bit).bits ≡ length m.bits
  unfolding write_bit
  length-write_bit = length-set m.bits (index / 8) (
      if is_zero bit
      then clear_bit (get_or m.bits (index / 8) 0) (index % 8)
      else or_bit (get_or m.bits (index / 8) 0) (index % 8))

  pub bit_count-write_bit : (write_bit m index bit).bit_count ≡ m.bit_count
  unfolding write_bit
  bit_count-write_bit = refl

  pub write_bit-IsValid : IsValid m → index < m.bit_count → IsValid (write_bit m index bit)
  write_bit-IsValid v h = record {
    bytes = λ i. ground (
      arith,
      bits-write_bit v h i,
      new_byte_lt (get_or m.bits (index / 8) 0) (index % 8),
      v.bytes i,
    );
    room = omega (arith, bit_count-write_bit, length-write_bit, v.room);
  }

  -- A read after the write of one bit.
  get-write_bit :
      IsValid m
      → index < m.bit_count
      → (j : ℕ)
      → bitmap_get_bit (write_bit m index bit) j
        ≡ (if index == j then bit_value bit else bitmap_get_bit m j)
  unfolding bitmap_get_bit
  get-write_bit v h j = rw (bits-write_bit v h (j / 8)) (
      ground (
        arith,
        test_bit-new_byte (get_or m.bits (index / 8) 0) (index % 8) (j % 8) (v.bytes (index / 8))
            (omega arith) (omega arith),
      ))

-- On a valid bitmap `bitmap_set_bit` writes the bits from `index` on, `count` of them or up to the
-- end of the bitmap, and no other bit.
pub get-bitmap_set_bit :
    (m : Bitmap) (index count : ℕ) (bit : ℤ) (j : ℕ)
    → IsValid m
    → bitmap_get_bit (bitmap_set_bit m index count bit) j ≡ (
        if leb index j && ltb j (index + count) && ltb j m.bit_count
        then bit_value bit
        else bitmap_get_bit m j)
unfolding bitmap_set_bit
get-bitmap_set_bit m index zero bit j v = ground arith
get-bitmap_set_bit m index (suc count) bit j v = elim (Bool-cases (ltb index m.bit_count)) [
  | inl inside ↦
      let h : index < m.bit_count = ground arith in
      rw inside (
        ground (
          arith,
          get-bitmap_set_bit (write_bit m index bit) (index + 1) count bit j
              (write_bit-IsValid m index bit v h),
          get-write_bit m index bit v h j,
          bit_count-write_bit m index bit,
        ))
  | inr outside ↦ rw outside (ground arith)
]

pub bitmap_set_bit-IsValid :
    (m : Bitmap) (index count : ℕ) (bit : ℤ)
    → IsValid m
    → IsValid (bitmap_set_bit m index count bit)
      × ((bitmap_set_bit m index count bit).bit_count ≡ m.bit_count)
unfolding bitmap_set_bit
bitmap_set_bit-IsValid m index zero bit v = (v, refl)
bitmap_set_bit-IsValid m index (suc count) bit v = elim (Bool-cases (ltb index m.bit_count)) [
  | inl inside ↦
      let h : index < m.bit_count = ground arith in
      let w =
        bitmap_set_bit-IsValid (write_bit m index bit) (index + 1) count bit
          (write_bit-IsValid m index bit v h) in
      rw inside (w.0, w.1 ∙ bit_count-write_bit m index bit)
  | inr outside ↦ rw outside (v, refl)
]

module _ (bits : List ℕ) (v : ℕ) where
  memset_lem :
      (n : ℕ)
      → n ≤ length bits
      → (length (memset bits v n) ≡ length bits)
        × ((i : ℕ) → get_or (memset bits v n) i 0 ≡ (if ltb i n then v else get_or bits i 0))
  memset_lem zero h = (refl, λ i. ground arith)
  memset_lem (suc n) h =
      let r = memset_lem n (omega arith) in
      (
        length-set (memset bits v n) n v ∙ r.0,
        λ i. ground (arith, get_or-set (memset bits v n) n i v 0, r.0, r.1 i),
      )

-- `bitmap_init` on an array of bytes that is long enough gives a valid bitmap with every bit at
-- the value asked for.
pub get-bitmap_init :
    (bits : List ℕ) (count : ℕ) (init_bit : ℤ)
    → ((i : ℕ) → get_or bits i 0 < 256)
    → bitmap_byte_count count ≤ length bits
    → IsValid (bitmap_init bits count init_bit)
      × ((j : ℕ)
          → j < count
          → bitmap_get_bit (bitmap_init bits count init_bit) j ≡ bit_value init_bit)
unfolding bitmap_init bitmap_get_bit
get-bitmap_init bits count init_bit bytes room =
    let v : ℕ = if is_zero init_bit then 0 else 0xFF in
    let r = memset_lem bits v (bitmap_byte_count count) room in
    (
      record { bytes = λ i. ground (arith, r.1 i, bytes i); room = omega (arith, r.0) },
      λ j h. rw (r.1 (j / 8)) (ground (arith, test_bit_zero (j % 8), test_bit_ones (j % 8))),
    )

pub bit_count-bitmap_init :
    (bits : List ℕ) (count : ℕ) (init_bit : ℤ) → (bitmap_init bits count init_bit).bit_count ≡ count
unfolding bitmap_init
bit_count-bitmap_init bits count init_bit = refl
