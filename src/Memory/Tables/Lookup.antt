-- ===== src/Memory/Tables/Lookup.antt =====
-- The address that a mapped page is found at.
use os_training.Base.{
  bits_or, ℕ, ◌+◌, ◌*◌, ◌/◌, ◌%◌, ◌^◌, ◌<◌, ◌≡◌, ◌≢◌, refl, ap, ◌∙◌, Bool, true, false, ◌&&◌, ltb,
  leb, if◌then◌else◌, arith, Bool-cases, inl, inr, ==_iff, some,
}
use os_training.LinkedList.Chain.{ne→==_false}
use os_training.Memory.{AddrAlloc, addr_alloc_page}
use os_training.Memory.Tables.{
  Store, pte_p, pde_flags, is_present, entry_paddr, put_word, clear_page, pde_at, pte_at, find_pte,
  map_page, paddr_of, memory_create_map, memory_get_paddr,
}
use os_training.Memory.Tables.Bits.{bits_or_odd, bits_or_page, bits_or-word}

-- The word of a mapped page.
abbrev pub mapped : (paddr perm : ℕ) → ℕ
mapped paddr perm = bits_or 32 (bits_or 32 paddr perm) pte_p

mapped_present : (paddr perm : ℕ) → is_present (mapped paddr perm) ≡ true
mapped_present paddr perm = (==_iff _ _).1 (bits_or_odd 31 (bits_or 32 paddr perm) 1 refl)

mapped_paddr :
    (paddr perm : ℕ)
    → paddr % 4096 ≡ 0
    → paddr < 2 ^ 32
    → perm < 4096
    → entry_paddr (mapped paddr perm) ≡ paddr
mapped_paddr paddr perm aligned word small =
    let a = bits_or_page (bits_or 32 paddr perm) 1 (omega arith) (bits_or-word paddr perm) in
    let b = bits_or_page paddr perm small word in omega (arith, a, b)

find-present :
    (m : Store) (page_dir vaddr : ℕ) (alloc : Bool)
    → is_present (m.words (pde_at page_dir vaddr)) ≡ true
    → find_pte m page_dir vaddr alloc
      ≡ some (pte_at (entry_paddr (m.words (pde_at page_dir vaddr))) vaddr, m)
unfolding find_pte
find-present m page_dir vaddr alloc e = rw e refl

find-new :
    (m : Store) (page_dir vaddr page : ℕ) (alloc : AddrAlloc)
    → is_present (m.words (pde_at page_dir vaddr)) ≡ false
    → addr_alloc_page m.paddr_alloc 1 ≡ some (page, alloc)
    → page ≢ 0
    → find_pte m page_dir vaddr true
      ≡ some (
        pte_at page vaddr,
        record m {
          words =
              clear_page
                (put_word m.words (pde_at page_dir vaddr) (bits_or 32 page pde_flags))
                page;
          paddr_alloc = alloc;
        },
      )
unfolding find_pte
find-new m page_dir vaddr page alloc absent e ne = rw (absent, e, ne→==_false page 0 ne) refl

map-one :
    (m m' : Store) (page_dir vaddr paddr perm pte : ℕ)
    → find_pte m page_dir vaddr true ≡ some (pte, m')
    → pte ≢ 0
    → is_present (m'.words pte) ≡ false
    → memory_create_map m page_dir vaddr paddr 1 perm ≡ some (true, map_page m' pte paddr perm)
unfolding memory_create_map
map-one m m' page_dir vaddr paddr perm pte e ne absent =
    rw (memory_create_map, e, ne→==_false pte 0 ne, absent) refl

-- A page of the same 4 KB.
abbrev pub in_page : (vaddr o : ℕ) → ℕ
in_page vaddr o = vaddr / 4096 * 4096 + o

-- What the table says after the page is mapped.
lookup_mapped :
    (m : Store) (page_dir table vaddr paddr perm o : ℕ)
    → page_dir % 4096 ≡ 0
    → table % 4096 ≡ 0
    → table ≢ page_dir
    → table ≢ 0
    → vaddr < 2 ^ 32
    → paddr % 4096 ≡ 0
    → paddr < 2 ^ 32
    → perm < 4096
    → o < 4096
    → is_present (m.words (pde_at page_dir vaddr)) ≡ true
    → entry_paddr (m.words (pde_at page_dir vaddr)) ≡ table
    → memory_get_paddr (map_page m (pte_at table vaddr) paddr perm) page_dir (in_page vaddr o)
      ≡ some (paddr + o)
unfolding memory_get_paddr
lookup_mapped m page_dir table vaddr paddr perm o da ta ne some_table vl pa pl small ol present at =
    let v = in_page vaddr o in
    let m' = map_page m (pte_at table vaddr) paddr perm in
    let row : pde_at page_dir v ≡ pde_at page_dir vaddr = omega arith in
    let col : pte_at table v ≡ pte_at table vaddr = omega arith in
    let apart : pde_at page_dir vaddr ≢ pte_at table vaddr =
      λ e. ne (omega (arith, e, da, ta, vl)) in
    let kept : m'.words (pde_at page_dir v) ≡ m.words (pde_at page_dir vaddr) =
      ap m'.words row ∙ rw (ne→==_false (pde_at page_dir vaddr) (pte_at table vaddr) apart) refl in
    let found = find-present m' page_dir v false (ap is_present kept ∙ present) in
    let pte = pte_at table vaddr in
    let here = ap (λ x. pte_at (entry_paddr x) v) kept ∙ ap (λ x. pte_at x v) at ∙ col in
    let there : m'.words pte ≡ mapped paddr perm = rw ((==_iff pte pte).1 refl) refl in
    let sum : (paddr + v % 4096) % 2 ^ 32 ≡ paddr + o = omega arith in
    let some_pte : pte ≢ 0 = λ e. some_table (omega (arith, e)) in
    ap (paddr_of v) (found ∙ ap (λ x. some (x, m')) here)
    ∙ ap (λ b. if b then some 0 else some ((entry_paddr (m'.words pte) + v % 4096) % 2 ^ 32))
        (ne→==_false pte 0 some_pte)
    ∙ ap (λ x. some ((entry_paddr x + v % 4096) % 2 ^ 32)) there
    ∙ ap (λ x. some ((x + v % 4096) % 2 ^ 32)) (mapped_paddr paddr perm pa pl small)
    ∙ ap some sum

-- The table of the entry, which is there already, or is a new page.
pub data TableFor (m : Store) (page_dir vaddr table : ℕ) : Type 0 where
  present :
      is_present (m.words (pde_at page_dir vaddr)) ≡ true
      → entry_paddr (m.words (pde_at page_dir vaddr)) ≡ table
      → is_present (m.words (pte_at table vaddr)) ≡ false
      → TableFor m page_dir vaddr table
  new :
      (alloc : AddrAlloc)
      → is_present (m.words (pde_at page_dir vaddr)) ≡ false
      → addr_alloc_page m.paddr_alloc 1 ≡ some (table, alloc)
      → TableFor m page_dir vaddr table

-- The words after a new table is linked.
linked_words :
    (words : ℕ → ℕ) (page_dir table vaddr : ℕ)
    → page_dir % 4096 ≡ 0
    → table % 4096 ≡ 0
    → table ≢ page_dir
    → vaddr < 2 ^ 32
    → let after =
        clear_page (put_word words (pde_at page_dir vaddr) (bits_or 32 table pde_flags)) table in
      (after (pde_at page_dir vaddr) ≡ bits_or 32 table pde_flags)
      × (after (pte_at table vaddr) ≡ 0)
linked_words words page_dir table vaddr da ta ne vl =
    let pde = pde_at page_dir vaddr in
    let away : (leb table pde && ltb pde (table + 4096)) ≡ false = outside in
    let inside : (leb table (pte_at table vaddr) && ltb (pte_at table vaddr) (table + 4096))
        ≡ true =
      ground arith in
    (rw (away, (==_iff pde pde).1 refl) refl, rw inside refl)
  where
    outside :
        (leb table (pde_at page_dir vaddr) && ltb (pde_at page_dir vaddr) (table + 4096)) ≡ false
    outside =
        elim (Bool-cases
          (leb table (pde_at page_dir vaddr) && ltb (pde_at page_dir vaddr) (table + 4096))) [
            | inr no_hit ↦ no_hit
            | inl hit ↦ absurd (ne (ground (arith, hit, da, ta, vl)))
          ]

-- When one page is mapped where nothing is mapped yet, in a table that is there or in a new one,
-- `memory_create_map` succeeds, and `memory_get_paddr` of each address of that page gives the
-- physical address at the same offset. Directory, table and physical page are aligned, the table
-- is not the directory, and the flags are below 4096.
pub memory_create_map-get_paddr :
    (m : Store) (page_dir table vaddr paddr perm : ℕ)
    → page_dir % 4096 ≡ 0
    → table % 4096 ≡ 0
    → table ≢ page_dir
    → table ≢ 0
    → table < 2 ^ 32
    → vaddr < 2 ^ 32
    → paddr % 4096 ≡ 0
    → paddr < 2 ^ 32
    → perm < 4096
    → TableFor m page_dir vaddr table
    → (m' : Store) × (memory_create_map m page_dir vaddr paddr 1 perm ≡ some (true, m'))
      × ((o : ℕ) → o < 4096 → memory_get_paddr m' page_dir (in_page vaddr o) ≡ some (paddr + o))
memory_create_map-get_paddr m page_dir table vaddr paddr perm da ta ne some_table tl vl pa pl small
      (present here at free) =
    (
      map_page m (pte_at table vaddr) paddr perm,
      map-one m m page_dir vaddr paddr perm (pte_at table vaddr)
          (find-present m page_dir vaddr true here ∙ ap (λ x. some (pte_at x vaddr, m)) at)
          (λ e. some_table (omega (arith, e))) free,
      λ o l.
          lookup_mapped m page_dir table vaddr paddr perm o da ta ne some_table vl pa pl small l
            here at,
    )
memory_create_map-get_paddr m page_dir table vaddr paddr perm da ta ne some_table tl vl pa pl small
      (new alloc absent e) =
    let words =
      clear_page (put_word m.words (pde_at page_dir vaddr) (bits_or 32 table pde_flags)) table in
    let m1 : Store = record m { words = words; paddr_alloc = alloc } in
    let (entry, empty) = linked_words m.words page_dir table vaddr da ta ne vl in
    let flags = bits_or_odd 31 table pde_flags refl in
    let here : is_present (m1.words (pde_at page_dir vaddr)) ≡ true =
      ap is_present entry ∙ (==_iff _ _).1 flags in
    let at : entry_paddr (m1.words (pde_at page_dir vaddr)) ≡ table =
      ap entry_paddr entry ∙ omega (arith, bits_or_page table pde_flags (omega arith) tl) in
    (
      map_page m1 (pte_at table vaddr) paddr perm,
      map-one m m1 page_dir vaddr paddr perm (pte_at table vaddr)
          (find-new m page_dir vaddr table alloc absent e some_table)
          (λ q. some_table (omega (arith, q))) (ap is_present empty),
      λ o l.
          lookup_mapped m1 page_dir table vaddr paddr perm o da ta ne some_table vl pa pl small l
            here at,
    )

-- The page is not mapped, in a table that is there: the result is not 0 but the offset.
memory_get_paddr_unmapped :
    (m : Store) (page_dir vaddr : ℕ)
    → is_present (m.words (pde_at page_dir vaddr)) ≡ true
    → entry_paddr (m.words (pde_at page_dir vaddr)) ≢ 0
    → m.words (pte_at (entry_paddr (m.words (pde_at page_dir vaddr))) vaddr) ≡ 0
    → memory_get_paddr m page_dir vaddr ≡ some (vaddr % 4096)
unfolding memory_get_paddr
memory_get_paddr_unmapped m page_dir vaddr here some_table empty =
    let table = entry_paddr (m.words (pde_at page_dir vaddr)) in
    let pte = pte_at table vaddr in
    let some_pte : pte ≢ 0 = λ e. some_table (omega (arith, e)) in
    let sum : (0 / 4096 * 4096 + vaddr % 4096) % 2 ^ 32 ≡ vaddr % 4096 = omega arith in
    ap (paddr_of vaddr) (find-present m page_dir vaddr false here)
    ∙ ap (λ b. if b then some 0 else some ((entry_paddr (m.words pte) + vaddr % 4096) % 2 ^ 32))
        (ne→==_false pte 0 some_pte)
    ∙ ap (λ x. some ((entry_paddr x + vaddr % 4096) % 2 ^ 32)) empty
    ∙ ap some sum
