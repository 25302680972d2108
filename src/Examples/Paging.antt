-- ===== src/Examples/Paging.antt =====
-- A page directory at 1000 with a table at 2000 for the addresses from 80000000 on.
use os_training.Base.{ℕ, ◌+◌, ◌<◌, ◌≡◌, refl, true, ◌==◌, if◌then◌else◌, arith, some, [], ◌∷◌}
use os_training.Memory.{AddrAlloc}
use os_training.Memory.Tables.{Store, memory_create_map, memory_get_paddr}
use os_training.Memory.Tables.Lookup.{in_page, present, memory_create_map-get_paddr}

abbrev alloc : AddrAlloc
alloc = record {
  bitmap = record { bit_count = 8; bits = 0 ∷ [] };
  page_size = 4096;
  start = 0x100000;
  size = 0x8000;
}

abbrev store : Store
store = record { words = λ a. if a == 0x1800 then 0x2007 else 0; paddr_alloc = alloc }

memory_create_map-get_paddr_example :
    (m' : Store) × (memory_create_map store 0x1000 0x80000000 0x5000 1 7 ≡ some (true, m'))
    × ((o : ℕ) → o < 4096 → memory_get_paddr m' 0x1000 (in_page 0x80000000 o) ≡ some (0x5000 + o))
memory_create_map-get_paddr_example =
    memory_create_map-get_paddr store 0x1000 0x2000 0x80000000 0x5000 7 refl refl
      (λ e. omega (arith, e)) (λ e. omega (arith, e)) (omega arith) (omega arith) refl (omega arith)
      (omega arith) (present refl refl refl)
