-- ===== src/Examples/Pages.antt =====
-- A bitmap of one byte, and a page allocator of 8 pages over it.
use os_training.Base.{ℕ, zero, suc, ◌<◌, ◌≡◌, ◌≢◌, pos, negsuc, some, [], ◌∷◌, arith, refl, get_or}
use os_training.Bitmap.{
  Bitmap, bitmap_get_bit, bitmap_set_bit, bitmap_alloc_nbits, alloc_loop, scan_run, test_bit,
}
use os_training.Bitmap.Access.{IsValid}
use os_training.Memory.{AddrAlloc, addr_alloc_page}
use os_training.Memory.Pages.{IsAlloc, PageResult, addr_alloc_page-PageResult}

-- The bits 0, 1 and 3 are in use.
abbrev bitmap : Bitmap
bitmap = record { bit_count = 8; bits = 11 ∷ [] }

bitmap-bytes : (i : ℕ) → get_or bitmap.bits i 0 < 256
bitmap-bytes zero = omega arith
bitmap-bytes (suc i) = omega arith

bitmap-IsValid : IsValid bitmap
bitmap-IsValid = record { bytes = bitmap-bytes; room = omega arith }

two-free : bitmap_get_bit bitmap 2 ≡ 0
unfolding bitmap_get_bit test_bit
two-free = refl

below_two-used : (j : ℕ) → j < 2 → bitmap_get_bit bitmap j ≢ 0
unfolding bitmap_get_bit test_bit
below_two-used zero lt e = omega (arith, e)
below_two-used (suc zero) lt e = omega (arith, e)
below_two-used (suc (suc j)) lt e = omega (arith, lt)

first-used : bitmap_alloc_nbits bitmap 1 1 ≡ some (pos 0, bitmap_set_bit bitmap 0 1 (negsuc 1))
unfolding bitmap_alloc_nbits alloc_loop scan_run bitmap_get_bit test_bit
first-used = refl

abbrev pages : AddrAlloc
pages = record { bitmap = bitmap; page_size = 4096; start = 0x100000; size = 32768 }

pages-IsAlloc : IsAlloc pages
pages-IsAlloc = record {
  bits = bitmap-IsValid;
  paged = omega arith;
  above = omega arith;
  covered = omega arith;
  within = omega arith;
}

addr_alloc_page-PageResult_example : PageResult pages (addr_alloc_page pages 1)
addr_alloc_page-PageResult_example = addr_alloc_page-PageResult pages pages-IsAlloc
