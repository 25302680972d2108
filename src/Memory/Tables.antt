-- ===== src/Memory/Tables.antt =====
-- source/kernel/core/memory.c and source/kernel/include/cpu/mmu.h: the page tables. The memory is
-- its 32-bit words by address; virtual and physical addresses of the kernel's memory are the same.
-- `none` stands for a call that does not return: a failed ASSERT, which stops the machine, or a
-- search of the bitmap that does not end.
pub mod Bits
pub mod Lookup
use os_training.Base.{
  bits_or, up2, u32, ℕ, zero, suc, ◌+◌, ◌-◌, ◌*◌, ◌/◌, ◌%◌, ◌^◌, Bool, true, false, ◌&&◌, ◌||◌, not,
  ◌==◌, ltb, leb, if◌then◌else◌, Option, none, some,
}
use os_training.Memory.{AddrAlloc, addr_alloc_page, addr_free_page}

abbrev pub mem_page_size : ℕ
mem_page_size = 4096

-- The memory with the allocator of its pages.
pub record Store : Type 0 where
  pub words : ℕ → ℕ
  pub paddr_alloc : AddrAlloc

-- `PTE_P`, and `PTE_P | PTE_W | PDE_U`.
abbrev pub pte_p : ℕ
pte_p = 1

abbrev pub pde_flags : ℕ
pde_flags = 7

abbrev pub pde_index : (vaddr : ℕ) → ℕ
pde_index vaddr = vaddr / 2 ^ 22

abbrev pub pte_index : (vaddr : ℕ) → ℕ
pte_index vaddr = vaddr / 2 ^ 12 % 1024

-- The field `present`, and `pde_paddr` and `pte_paddr`, of the word of an entry.
abbrev pub is_present : (v : ℕ) → Bool
is_present v = v % 2 == 1

abbrev pub entry_paddr : (v : ℕ) → ℕ
entry_paddr v = v / 4096 * 4096

abbrev pub put_word : (ℕ → ℕ) → (addr v : ℕ) → ℕ → ℕ
put_word words addr v a = if a == addr then v else words a

-- `kernel_memset` with 0 of a page.
abbrev pub clear_page : (ℕ → ℕ) → (page : ℕ) → ℕ → ℕ
clear_page words page a = if leb page a && ltb a (page + mem_page_size) then 0 else words a

-- The address of the entry of `vaddr` in the directory, and in a table.
abbrev pub pde_at : (page_dir vaddr : ℕ) → ℕ
pde_at page_dir vaddr = page_dir + 4 * pde_index vaddr

abbrev pub pte_at : (page_table vaddr : ℕ) → ℕ
pte_at page_table vaddr = page_table + 4 * pte_index vaddr

-- A new table for the entry at `pde`; 0 for no page.
abbrev pub new_table : Store → (pde vaddr : ℕ) → Option (ℕ × AddrAlloc) → Option (ℕ × Store)
new_table m pde vaddr none = none
new_table m pde vaddr (some (page, alloc)) =
    let linked = put_word m.words pde (bits_or 32 page pde_flags) in
    if page == 0
    then some (0, record m { paddr_alloc = alloc })
    else some (pte_at page vaddr, record m { words = clear_page linked page; paddr_alloc = alloc })

-- With 0 for the null pointer.
unfoldable pub find_pte : Store → (page_dir vaddr : ℕ) → (alloc : Bool) → Option (ℕ × Store)
find_pte m page_dir vaddr alloc =
    let pde = pde_at page_dir vaddr in
    if is_present (m.words pde)
    then some (pte_at (entry_paddr (m.words pde)) vaddr, m)
    else if alloc
    then new_table m pde vaddr (addr_alloc_page m.paddr_alloc 1)
    else some (0, m)

-- `paddr | perm | PTE_P` at the entry that was found.
abbrev pub map_page : Store → (pte paddr perm : ℕ) → Store
map_page m pte paddr perm = record m {
  words = put_word m.words pte (bits_or 32 (bits_or 32 paddr perm) pte_p);
}

-- With `true` for 0 and `false` for -1.
unfoldable pub memory_create_map :
    Store → (page_dir vaddr paddr count perm : ℕ) → Option (Bool × Store)
memory_create_map m page_dir vaddr paddr zero perm = some (true, m)
memory_create_map m page_dir vaddr paddr (suc count) perm = elim (find_pte m page_dir vaddr true) [
  | none ↦ none
  | some (pte, m') ↦
      let rest =
        memory_create_map (map_page m' pte paddr perm) page_dir ((vaddr + mem_page_size) % 2 ^ 32)
          ((paddr + mem_page_size) % 2 ^ 32) count perm in
      if pte == 0 then some (false, m') else if is_present (m'.words pte) then none else rest
]

abbrev pub paddr_of : (vaddr : ℕ) → Option (ℕ × Store) → Option ℕ
paddr_of vaddr none = none
paddr_of vaddr (some (pte, m)) =
    if pte == 0 then some 0 else some ((entry_paddr (m.words pte) + vaddr % mem_page_size) % 2 ^ 32)

unfoldable pub memory_get_paddr : Store → (page_dir vaddr : ℕ) → Option ℕ
memory_get_paddr m page_dir vaddr = paddr_of vaddr (find_pte m page_dir vaddr false)

-- The loop of `memory_alloc_for_page_dir`; `true` is 0 and `false` is -1. Where no page is left the
-- function returns 0.
abbrev pub alloc_page_at :
    (Store → Option (Bool × Store))
    → Store
    → (page_dir vaddr perm : ℕ) → Option (ℕ × AddrAlloc)
    → Option (Bool × Store)
alloc_page_at rest m page_dir vaddr perm none = none
alloc_page_at rest m page_dir vaddr perm (some (paddr, alloc)) =
    let taken : Store = record m { paddr_alloc = alloc } in
    let goes_on : Option (Bool × Store) =
      elim (memory_create_map taken page_dir vaddr paddr 1 perm) [
        | none ↦ none
        | some (true, m') ↦ rest m'
        | some (false, m') ↦ some (false, m')
      ] in
    if paddr == 0 then some (true, taken) else goes_on

unfoldable pub alloc_pages :
    (page_count : ℕ) → Store → (page_dir curr_vaddr perm : ℕ) → Option (Bool × Store)
alloc_pages zero m page_dir vaddr perm = some (true, m)
alloc_pages (suc n) m page_dir vaddr perm =
    alloc_page_at (λ m'. alloc_pages n m' page_dir (u32 (vaddr + mem_page_size)) perm) m page_dir
      vaddr perm (addr_alloc_page m.paddr_alloc 1)

unfoldable pub memory_alloc_for_page_dir :
    Store → (page_dir vaddr size perm : ℕ) → Option (Bool × Store)
memory_alloc_for_page_dir m page_dir vaddr size perm =
    alloc_pages (up2 size mem_page_size / mem_page_size) m page_dir vaddr perm
