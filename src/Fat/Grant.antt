-- ===== src/Fat/Grant.antt =====
-- The loop of `cluster_alloc_free` before it finds a cluster, and the two outcomes of the function.
use os_training.Base.{
  ℕ, zero, suc, ◌+◌, ◌-◌, ◌*◌, ◌%◌, ◌^◌, ◌<◌, ◌≤◌, ◌≡◌, ◌≢◌, refl, sym, ap, ◌∙◌, true, false, ◌&&◌,
  not, ◌==◌, ltb, arith, Bool-cases, inl, inr, ==_iff, Option, some, List, length,
}
use mathlib.Core.Path.{subst}
use os_training.LinkedList.Chain.{NotIn, Distinct}
use os_training.Fat.{
  Fat, cluster_is_valid, cluster_invalid, cluster_free, cluster_get_next, SearchEnd, ended,
  search_loop,
}
use os_training.Fat.Table.{InTable, Holds, valid_true, cluster_get_next-Holds}
use os_training.Fat.Chain.{Leads}
use os_training.Fat.Alloc.{AllFree, ==_false→ne}
use os_training.Fat.Run.{search_of, Run}
use os_training.Fat.Loop.{round_stop, round_busy, round_first, search_loop-Run}

-- A chain of `cnt` clusters that were free, from `start` to the end mark; nothing else changes.
pub record Granted (ts : ℕ) (t : ℕ → ℕ) (cnt start : ℕ) (after : ℕ → ℕ) : Type 0 where
  pub clusters : List ℕ
  pub count : length clusters ≡ cnt
  pub distinct : Distinct clusters
  pub free : AllFree t clusters
  pub chain : Leads ts after start clusters cluster_invalid
  pub others : (d : ℕ) → NotIn d clusters → after d ≡ t d

-- No cluster, the table as it was, and not enough clusters that are free.
pub record Refused (ts : ℕ) (t : ℕ → ℕ) (cnt start : ℕ) (after : ℕ → ℕ) : Type 0 where
  pub nothing : start ≡ cluster_invalid
  pub same : (d : ℕ) → after d ≡ t d
  pub free : List ℕ
  pub few : 0 < cnt → length free < cnt
  pub all : 0 < cnt → (d : ℕ) → InTable ts d → NotIn d free → t d ≢ cluster_free

-- The loop before a cluster is found, and the one that it finds first.
pub data Begin (ts : ℕ) (t : ℕ → ℕ) (curr cnt : ℕ) (o : Option SearchEnd) : Type 0 where
  nowhere :
      (fat : Fat)
      → o ≡ some (ended (search_of fat cluster_invalid cluster_invalid cnt))
      → Holds ts fat t
      → (0 < cnt → (d : ℕ) → curr ≤ d → d < ts * 256 → t d ≢ cluster_free)
      → Begin ts t curr cnt o
  found :
      (x : ℕ)
      → curr ≤ x
      → InTable ts x
      → t x ≡ cluster_free
      → 0 < cnt
      → ((d : ℕ) → curr ≤ d → d < x → t d ≢ cluster_free)
      → Run ts t x x (suc x) (cnt - 1) o
      → Begin ts t curr cnt o

Begin-skip :
    (ts : ℕ) (t : ℕ → ℕ) (curr cnt : ℕ) (o : Option SearchEnd)
    → t curr ≢ cluster_free
    → Begin ts t (suc curr) cnt o
    → Begin ts t curr cnt o
Begin-skip ts t curr cnt o busy (nowhere fat e h none_free) = nowhere fat e h (λ more d l m.
    elim (Bool-cases (d == curr)) [
      | inl e ↦ subst (λ c. t c ≢ cluster_free) (sym ((==_iff d curr).0 e)) busy
      | inr ne ↦ none_free more d (ground (arith, l)) m
    ])
Begin-skip ts t curr cnt o busy (found x l i f more earlier r) =
    found x (omega arith) i f more
      (λ d l m. elim (Bool-cases (d == curr)) [
        | inl e ↦ subst (λ c. t c ≢ cluster_free) (sym ((==_iff d curr).0 e)) busy
        | inr ne ↦ earlier d (ground (arith, l)) m
      ])
      r

pub search_loop-Begin :
    (ts fuel : ℕ) (fat : Fat) (t : ℕ → ℕ) (curr cnt : ℕ)
    → ts < 256
    → Holds ts fat t
    → 2 ≤ curr
    → ts * 256 < fuel + curr
    → 0 < fuel
    → Begin ts t curr cnt
        (search_loop fuel (ts * 256) (search_of fat cluster_invalid cluster_invalid cnt) curr)
unfolding cluster_is_valid
search_loop-Begin ts zero fat t curr cnt small h two m some_fuel = absurd (omega arith)
search_loop-Begin ts (suc fuel) fat t curr cnt small h two m some_fuel =
    elim (Bool-cases (ltb curr (ts * 256) && not (cnt == 0))) [
      | inr stop ↦
          nowhere fat (round_stop fuel (ts * 256) fat cluster_invalid cluster_invalid cnt curr stop)
            h (λ more d p q. absurd (omega (arith, over stop more)))
      | inl go ↦
          let more : (curr < ts * 256) × (0 < cnt) = goes go in
          let here : InTable ts curr = (two, more.0, omega (arith, more.0)) in
          let (e, h1) = cluster_get_next-Holds ts fat t curr h here in
          let fat1 = (cluster_get_next fat curr).1 in
          let next : (curr + 1) % 2 ^ 16 ≡ suc curr = omega (arith, more.0) in
          elim (Bool-cases (t curr == cluster_free)) [
            | inl free ↦
                let isfree : t curr ≡ cluster_free = (==_iff (t curr) cluster_free).0 free in
                found curr (omega arith) here isfree more.1 (λ d p q. absurd (omega arith))
                  (subst (Run ts t curr curr (suc curr) (cnt - 1))
                    (sym (
                      round_first fuel (ts * 256) fat cluster_invalid cluster_invalid cnt curr go
                        (ap (λ x. x == cluster_free) e ∙ free) next refl refl))
                    (search_loop-Run ts fuel fat1 t curr curr (suc curr) (cnt - 1) small h1 here
                      isfree (valid_true curr two here.2) (omega arith) more.0 (omega arith)))
            | inr busy ↦
                let r =
                  search_loop-Begin ts fuel fat1 t (suc curr) cnt small h1 (omega arith)
                    (omega arith) (omega (arith, more.0)) in
                Begin-skip ts t curr cnt _ (==_false→ne (t curr) cluster_free busy) (
                  subst (Begin ts t (suc curr) cnt)
                    (sym (
                      round_busy fuel (ts * 256) fat cluster_invalid cluster_invalid cnt curr go
                        (ap (λ x. x == cluster_free) e ∙ busy) next))
                    r)
          ]
    ]
  where
    over : (ltb curr (ts * 256) && not (cnt == 0)) ≡ false → 0 < cnt → ts * 256 ≤ curr
    over stop more = ground (arith, stop)

    goes : (ltb curr (ts * 256) && not (cnt == 0)) ≡ true → (curr < ts * 256) × (0 < cnt)
    goes go = ground (arith, go)
