-- ===== src/Fat/Wrap.antt =====
-- `cluster_alloc_free` on a table of 256 sectors or more, where `curr` passes every value of a
-- `uint16_t`.
use os_training.Base.{
  ℕ, zero, suc, ◌+◌, ◌*◌, ◌%◌, ◌^◌, ◌<◌, ◌≤◌, ◌≡◌, ◌≢◌, refl, sym, ap, ◌∙◌, true, false, ◌&&◌, not,
  ◌==◌, ltb, arith, Bool-cases, inl, inr, none,
}
use mathlib.Core.Path.{subst}
use os_training.LinkedList.Chain.{ne→==_false}
use os_training.Fat.{
  Fat, cluster_invalid, cluster_free, cluster_get_next, search_loop, cluster_alloc_free,
}
use os_training.Fat.Table.{InTable, Holds, cluster_get_next-Holds, cluster_get_next_outside}
use os_training.Fat.Run.{search_of}
use os_training.Fat.Outcome.{finish, alloc-finish}

module _ (ts cnt : ℕ) (t : ℕ → ℕ) (large : 256 ≤ ts) (more : 0 < cnt)
    (full : (c : ℕ) → InTable ts c → t c ≢ cluster_free) where
  -- No value of `curr` reads as a free cluster.
  none_free :
      (fat : Fat) (curr : ℕ)
      → Holds ts fat t
      → curr < 2 ^ 16
      → (((cluster_get_next fat curr).0 == cluster_free) ≡ false)
        × Holds ts (cluster_get_next fat curr).1 t
  none_free fat curr h small = elim (Bool-cases (ltb 1 curr && ltb curr 0xFFF8)) [
    | inl inside ↦
        let i : InTable ts curr = ground (arith, inside, large) in
        let (e, h1) = cluster_get_next-Holds ts fat t curr h i in
        (ap (λ x. x == cluster_free) e ∙ ne→==_false (t curr) cluster_free (full curr i), h1)
    | inr outside ↦
        let e = cluster_get_next_outside ts fat t curr h (λ i. ground (arith, outside, i.0, i.2)) in
        (ap (λ x. x.0 == cluster_free) e, subst (λ f. Holds ts f t) (sym (ap (λ x. x.1) e)) h)
  ]

  goes_on :
      (fuel total : ℕ) (fat : Fat) (curr : ℕ)
      → 2 ^ 16 ≤ total
      → Holds ts fat t
      → curr < 2 ^ 16
      → search_loop fuel total (search_of fat cluster_invalid cluster_invalid cnt) curr ≡ none
  unfolding search_loop
  goes_on zero total fat curr l h small = refl
  goes_on (suc fuel) total fat curr l h small =
      let (busy, h1) = none_free fat curr h small in
      let go : (ltb curr total && not (cnt == 0)) ≡ true = ground (arith, more) in
      rw (go, busy)
        (goes_on fuel total (cluster_get_next fat curr).1 ((curr + 1) % 2 ^ 16) l h1 (omega arith))

-- On a table of 256 sectors or more in which no cluster is free, `cluster_alloc_free` for at least
-- one cluster does not end, with any fuel. The sectors of the table, in all copies, can be read
-- and written, and the buffer agrees with the sector that it is said to hold.
pub cluster_alloc_free_wraps :
    (ts cnt fuel : ℕ) (fat : Fat) (t : ℕ → ℕ)
    → 256 ≤ ts
    → 0 < cnt
    → ((c : ℕ) → InTable ts c → t c ≢ cluster_free)
    → Holds ts fat t
    → cluster_alloc_free fuel fat cnt ≡ none
cluster_alloc_free_wraps ts cnt fuel fat t large more full h =
    alloc-finish ts fuel fat t cnt h
    ∙ ap (finish fuel)
        (goes_on ts cnt t large more full fuel (ts * 256) fat 2 (omega arith) h (omega arith))
