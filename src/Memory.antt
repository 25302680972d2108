-- ===== src/Memory.antt =====
-- source/kernel/core/memory.c, the allocator of physical pages: `addr_alloc_t` with its functions,
-- over the bitmap. Each function runs under the allocator's mutex from its first to its last
-- statement, so a call is one step.
pub mod Pages
pub mod Tables
use os_training.Base.{ℕ, ◌+◌, ◌-◌, ◌*◌, ◌/◌, ◌%◌, ◌^◌, ℤ, pos, negsuc, Option, none, some, List}
use os_training.Bitmap.{Bitmap, bitmap_init, bitmap_alloc_nbits, bitmap_set_bit}

-- `addr_alloc_t` without its mutex.
pub record AddrAlloc : Type 0 where
  pub bitmap : Bitmap
  pub page_size : ℕ
  pub start : ℕ
  pub size : ℕ

unfoldable pub addr_alloc_init : (bits : List ℕ) (start size page_size : ℕ) → AddrAlloc
addr_alloc_init bits start size page_size = record {
  bitmap = bitmap_init bits (size / page_size) (pos 0);
  page_size = page_size;
  start = start;
  size = size;
}

-- The address for the index that `bitmap_alloc_nbits` returns, 0 for -1; a `uint32_t`.
abbrev pub page_addr : AddrAlloc → ℤ → ℕ
page_addr a (pos i) = (a.start + i * a.page_size) % 2 ^ 32
page_addr a (negsuc n) = 0

abbrev pub page_taken : AddrAlloc → Option (ℤ × Bitmap) → Option (ℕ × AddrAlloc)
page_taken a none = none
page_taken a (some (i, m)) = some (page_addr a i, record a { bitmap = m })

-- `none` would be a search that does not end; `bitmap_alloc_nbits_total` excludes it.
unfoldable pub addr_alloc_page : AddrAlloc → ℕ → Option (ℕ × AddrAlloc)
addr_alloc_page a page_count = page_taken a (bitmap_alloc_nbits a.bitmap 0 page_count)

-- `(addr - start) / page_size` on `uint32_t`
abbrev pub page_index : AddrAlloc → ℕ → ℕ
page_index a addr = (addr + 2 ^ 32 - a.start) % 2 ^ 32 / a.page_size

unfoldable pub addr_free_page : AddrAlloc → (addr page_count : ℕ) → AddrAlloc
addr_free_page a addr page_count = record a {
  bitmap = bitmap_set_bit a.bitmap (page_index a addr) page_count (pos 0);
}
