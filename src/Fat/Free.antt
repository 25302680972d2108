-- ===== src/Fat/Free.antt =====
-- `cluster_free_chain` on any table, by the number of entries that are not free.
use os_training.Base.{
  ℕ, zero, suc, ◌+◌, ◌*◌, ◌<◌, ◌≤◌, ◌≡◌, ◌≢◌, refl, sym, ap, ◌∙◌, true, false, ◌&&◌, ◌==◌, ltb,
  if◌then◌else◌, arith, Bool-cases, inl, inr, ==_iff, some,
}
use os_training.LinkedList.Chain.{ne→==_false}
use os_training.Fat.{
  Fat, cluster_is_valid, cluster_free, cluster_get_next, cluster_set_next, cluster_free_chain,
}
use os_training.Fat.Table.{InTable, Holds, valid_true, cluster_get_next_outside}
use os_training.Fat.Write.{put_entry}
use os_training.Fat.Chain.{free_step}
use os_training.Fat.Alloc.{==_false→ne}

-- How many of the first `n` entries are not free.
count_used : (n : ℕ) → (ℕ → ℕ) → ℕ
count_used zero t = 0
count_used (suc n) t = (if t n == cluster_free then 0 else 1) + count_used n t

count_used_le : (n : ℕ) (t : ℕ → ℕ) → count_used n t ≤ n
unfolding count_used
count_used_le zero t = omega arith
count_used_le (suc n) t = ground (arith, count_used_le n t)

count_used-above : (n c : ℕ) (t : ℕ → ℕ) → n ≤ c → count_used n (put_entry t c 0) ≡ count_used n t
unfolding count_used
count_used-above zero c t l = refl
count_used-above (suc n) c t l =
    rw (ne→==_false n c (λ e. omega (arith, e)), count_used-above n c t (omega arith)) refl

count_used-put_entry :
    (n c : ℕ) (t : ℕ → ℕ)
    → c < n
    → t c ≢ cluster_free
    → suc (count_used n (put_entry t c 0)) ≡ count_used n t
unfolding count_used
count_used-put_entry zero c t l used = absurd (omega arith)
count_used-put_entry (suc n) c t l used = elim (Bool-cases (n == c)) [
  | inl here ↦
      let e : n ≡ c = (==_iff n c).0 here in
      let busy : (t n == cluster_free) ≡ false =
        ne→==_false (t n) cluster_free (λ q. used (sym (ap t e) ∙ q)) in
      rw (here, busy, count_used-above n c t (omega (arith, e))) (omega arith)
  | inr other ↦
      let r = count_used-put_entry n c t (ground (arith, other)) used in rw other (omega (arith, r))
]

-- A cluster that is not in the table ends the loop after a round.
ends_outside :
    (ts fuel : ℕ) (fat : Fat) (t : ℕ → ℕ) (c : ℕ)
    → Holds ts fat t
    → ¬ InTable ts c
    → (fat' : Fat) × (cluster_free_chain (suc (suc fuel)) fat c ≡ some fat')
unfolding cluster_free_chain cluster_is_valid
ends_outside ts fuel fat t c h out = elim (Bool-cases (cluster_is_valid c)) [
  | inr bad ↦ (fat, rw bad refl)
  | inl good ↦ (
    (cluster_set_next fat c cluster_free).1,
    rw (good, cluster_get_next_outside ts fat t c h out) refl,
  )
]

-- A round in the table leaves the rest of the loop.
round_ends :
    (fuel : ℕ) (fat fat' : Fat) (c next : ℕ)
    → cluster_is_valid c ≡ true
    → (cluster_get_next fat c).0 ≡ next
    → cluster_free_chain fuel (cluster_set_next (cluster_get_next fat c).1 c cluster_free).1 next
      ≡ some fat'
    → cluster_free_chain (suc fuel) fat c ≡ some fat'
unfolding cluster_free_chain
round_ends fuel fat fat' c next good e r = rw (good, e) r

count_ends :
    (ts fuel : ℕ) (fat : Fat) (t : ℕ → ℕ) (c : ℕ)
    → Holds ts fat t
    → count_used (ts * 256) t + 3 ≤ fuel
    → (fat' : Fat) × (cluster_free_chain fuel fat c ≡ some fat')
count_ends ts zero fat t c h enough = absurd (omega arith)
count_ends ts (suc zero) fat t c h enough = absurd (omega arith)
count_ends ts (suc (suc fuel)) fat t c h enough =
    elim (Bool-cases (ltb 1 c && ltb c (ts * 256) && ltb c 0xFFF8)) [
      | inr outside ↦ ends_outside ts fuel fat t c h (λ i. ground (arith, outside, i.0, i.1, i.2))
      | inl inside ↦
          let i : InTable ts c = ground (arith, inside) in
          let (e, h2) = free_step ts fat t c h i in
          let fat2 = (cluster_set_next (cluster_get_next fat c).1 c cluster_free).1 in
          elim (Bool-cases (t c == cluster_free)) [
            | inl free ↦
                let stop : ¬ InTable ts (t c) = λ j. ground (arith, free, j.0) in
                let (fat', r) = free_ends fuel fat2 (put_entry t c 0) (t c) h2 stop enough in
                (fat', round_ends (suc fuel) fat fat' c (t c) (valid_true c i.0 i.2) e r)
            | inr used ↦
                let less = count_used-put_entry (ts * 256) c t i.1 (==_false→ne (t c) 0 used) in
                let (fat', r) =
                  count_ends ts (suc fuel) fat2 (put_entry t c 0) (t c) h2 (omega (arith, less)) in
                (fat', round_ends (suc fuel) fat fat' c (t c) (valid_true c i.0 i.2) e r)
          ]
    ]
  where
    free_ends :
        (fuel : ℕ) (fat2 : Fat) (u : ℕ → ℕ) (d : ℕ)
        → Holds ts fat2 u
        → ¬ InTable ts d
        → count_used (ts * 256) t + 3 ≤ suc (suc fuel)
        → (fat' : Fat) × (cluster_free_chain (suc fuel) fat2 d ≡ some fat')
    free_ends zero fat2 u d h2 out m = absurd (omega arith)
    free_ends (suc n) fat2 u d h2 out m = ends_outside ts n fat2 u d h2 out

-- When every sector of the table, in all copies, can be read and written, and the buffer agrees
-- with the sector that it is said to hold, `cluster_free_chain` ends whatever the entries are and
-- from every start, also where the entries form a loop, after at most 3 rounds more than the table
-- has entries.
pub cluster_free_chain_total :
    (ts fuel : ℕ) (fat : Fat) (t : ℕ → ℕ) (start : ℕ)
    → Holds ts fat t
    → ts * 256 + 3 ≤ fuel
    → (fat' : Fat) × (cluster_free_chain fuel fat start ≡ some fat')
cluster_free_chain_total ts fuel fat t start h enough =
    count_ends ts fuel fat t start h (omega (arith, count_used_le (ts * 256) t))
