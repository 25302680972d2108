-- ===== src/Memory/Pages.antt =====
-- What a well-formed page allocator is, and what its operations do to one page.
use os_training.Base.{
  ℕ, ◌+◌, ◌-◌, ◌*◌, ◌/◌, ◌%◌, ◌^◌, ◌<◌, ◌≤◌, ◌≡◌, ◌≢◌, ℤ, pos, Option, some, arith, ◌==◌,
  if◌then◌else◌, List, get_or, length,
}
use native.Mathlib.Nat.{mul-div_left, div-mul-le_self}
use os_training.Bitmap.{Bitmap, bitmap_get_bit, bitmap_byte_count}
use os_training.Bitmap.Access.{
  IsValid, get-bitmap_set_bit, bitmap_set_bit-IsValid, get-bitmap_init, bit_count-bitmap_init,
}
use os_training.Bitmap.Alloc.{Allocated, taken, full, bitmap_alloc_nbits-Allocated}
use os_training.Memory.{
  AddrAlloc, addr_alloc_init, page_taken, addr_alloc_page, page_index, addr_free_page,
}

-- The range does not reach past the end of the address space, and begins above 0, the address
-- that stands for a failure.
pub record IsAlloc (a : AddrAlloc) : Type 0 where
  pub bits : IsValid a.bitmap
  pub paged : 0 < a.page_size
  pub above : 0 < a.start
  pub covered : a.bitmap.bit_count * a.page_size ≤ a.size
  pub within : a.start + a.size ≤ 2 ^ 32

abbrev pub in_use : AddrAlloc → ℕ → ℕ
in_use a i = bitmap_get_bit a.bitmap i

-- The page of a number below the count: its address, and the way back.
page_index_addr :
    (a : AddrAlloc) (i : ℕ)
    → IsAlloc a
    → i < a.bitmap.bit_count
    → ((a.start + i * a.page_size) % 2 ^ 32 ≡ a.start + i * a.page_size)
      × (page_index a (a.start + i * a.page_size) ≡ i)
      × (a.start + (i + 1) * a.page_size ≤ a.start + a.size)
page_index_addr a i v h =
    let below : (i + 1) * a.page_size ≤ a.bitmap.bit_count * a.page_size = grind arith in
    let split : (i + 1) * a.page_size ≡ i * a.page_size + a.page_size = omega arith in
    let room : a.start + (i + 1) * a.page_size ≤ a.start + a.size = omega (arith, v.covered) in
    let small : a.start + i * a.page_size < 2 ^ 32 = omega (arith, v.within, v.paged) in
    let back : (a.start + i * a.page_size + 2 ^ 32 - a.start) % 2 ^ 32 ≡ i * a.page_size =
      omega arith in
    (omega arith, rw back (mul-div_left i v.paged), room)

-- What a call for one page gives.
pub data PageResult (a : AddrAlloc) : Option (ℕ × AddrAlloc) → Type 0 where
  -- A page of the range that was free: it is in use now, and no other page changed.
  page :
      (i addr : ℕ) (a' : AddrAlloc)
      → addr ≡ a.start + i * a.page_size
      → addr + a.page_size ≤ a.start + a.size
      → page_index a addr ≡ i
      → in_use a i ≡ 0
      → ((j : ℕ) → in_use a' j ≡ (if i == j then 1 else in_use a j))
      → IsAlloc a'
      → PageResult a (some (addr, a'))
  -- 0 and no change, if every page is in use.
  no_page : ((j : ℕ) → j < a.bitmap.bit_count → in_use a j ≢ 0) → PageResult a (some (0, a))

page_taken-PageResult :
    (a : AddrAlloc) {o : Option (ℤ × Bitmap)}
    → IsAlloc a
    → Allocated a.bitmap o
    → PageResult a (page_taken a o)
page_taken-PageResult a v (taken i m' lt free first written valid count) =
    let at = page_index_addr a i v lt in
    page i ((a.start + i * a.page_size) % 2 ^ 32) (record a { bitmap = m' }) at.0
      (omega (arith, at.0, at.2)) (rw (at.0) at.1) free written
      (record {
        bits = valid;
        paged = v.paged;
        above = v.above;
        covered = rw count v.covered;
        within = v.within;
      })
page_taken-PageResult a v (full busy) = no_page busy

-- On a well-formed allocator a call for one page hands out a free page that lies in the range and
-- marks that page alone, and the allocator stays well formed; it fails with 0, which is no page's
-- address, and with no change, only if every page is in use.
pub addr_alloc_page-PageResult : (a : AddrAlloc) → IsAlloc a → PageResult a (addr_alloc_page a 1)
unfolding addr_alloc_page
addr_alloc_page-PageResult a v =
    page_taken-PageResult a v (bitmap_alloc_nbits-Allocated a.bitmap v.bits)

-- On a well-formed allocator `addr_free_page` of one page, given by the address of a page of the
-- range, marks that page as free and no other, and the allocator stays well formed.
pub addr_free_page-IsAlloc :
    (a : AddrAlloc) (i : ℕ)
    → IsAlloc a
    → i < a.bitmap.bit_count
    → let a' = addr_free_page a (a.start + i * a.page_size) 1 in
      IsAlloc a' × ((j : ℕ) → in_use a' j ≡ (if i == j then 0 else in_use a j))
unfolding addr_free_page
addr_free_page-IsAlloc a i v h =
    let at = page_index_addr a i v h in
    let w = bitmap_set_bit-IsValid a.bitmap i 1 (pos 0) v.bits in
    rw at.1 (
      record {
        bits = w.0;
        paged = v.paged;
        above = v.above;
        covered = rw w.1 v.covered;
        within = v.within;
      },
      λ j. ground (arith, get-bitmap_set_bit a.bitmap i 1 (pos 0) j v.bits),
    )

-- `addr_alloc_init` over an array of bytes that has a bit for every page, with a page size above 0
-- and a range above address 0 that ends below 4 GB, sets up a well-formed allocator with every
-- page free.
addr_alloc_init-IsAlloc :
    (bits : List ℕ) (start size page_size : ℕ)
    → ((i : ℕ) → get_or bits i 0 < 256)
    → bitmap_byte_count (size / page_size) ≤ length bits
    → 0 < page_size
    → 0 < start
    → start + size ≤ 2 ^ 32
    → let a = addr_alloc_init bits start size page_size in
      IsAlloc a × ((j : ℕ) → j < size / page_size → in_use a j ≡ 0)
unfolding addr_alloc_init
addr_alloc_init-IsAlloc bits start size page_size bytes room paged above within =
    let r = get-bitmap_init bits (size / page_size) (pos 0) bytes room in
    (
      record {
        bits = r.0;
        paged = paged;
        above = above;
        covered = rw bit_count-bitmap_init (div-mul-le_self size page_size);
        within = within;
      },
      r.1,
    )
