-- ===== src/Fat/Loop.antt =====
-- `cluster_alloc_free`: the rounds of its loop, for a table of fewer than 256 sectors.
use os_training.Base.{
  ℕ, zero, suc, ◌+◌, ◌-◌, ◌*◌, ◌%◌, ◌^◌, ◌<◌, ◌≤◌, ◌≡◌, refl, sym, ap, ◌∙◌, true, false, ◌&&◌, not,
  ◌==◌, ltb, arith, Bool-cases, inl, inr, ==_iff, some,
}
use mathlib.Core.Path.{subst}
use os_training.Fat.{
  Fat, cluster_is_valid, cluster_free, cluster_get_next, cluster_set_next, ended, take_cluster,
  search_loop,
}
use os_training.Fat.Table.{InTable, Holds, valid_true, cluster_get_next-Holds}
use os_training.Fat.Write.{put_entry, cluster_set_next-Holds}
use os_training.Fat.Alloc.{==_false→ne, put_entry_other}
use os_training.Fat.Run.{search_of, Run, Run-end, Run-skip, Run-take}

-- A round at `curr`, by what the entry of `curr` is.
module _ (fuel total : ℕ) (fat : Fat) (pre start cnt curr : ℕ) where
  pub round_stop :
      (ltb curr total && not (cnt == 0)) ≡ false
      → search_loop (suc fuel) total (search_of fat pre start cnt) curr
        ≡ some (ended (search_of fat pre start cnt))
  unfolding search_loop
  round_stop e = rw e refl

  pub round_busy :
      (ltb curr total && not (cnt == 0)) ≡ true
      → ((cluster_get_next fat curr).0 == cluster_free) ≡ false
      → (curr + 1) % 2 ^ 16 ≡ suc curr
      → search_loop (suc fuel) total (search_of fat pre start cnt) curr
        ≡ search_loop fuel total (search_of (cluster_get_next fat curr).1 pre start cnt) (suc curr)
  unfolding search_loop
  round_busy e busy next = rw (e, busy, next) refl

  -- The first free cluster starts the chain.
  pub round_first :
      (ltb curr total && not (cnt == 0)) ≡ true
      → ((cluster_get_next fat curr).0 == cluster_free) ≡ true
      → (curr + 1) % 2 ^ 16 ≡ suc curr
      → cluster_is_valid pre ≡ false
      → cluster_is_valid start ≡ false
      → search_loop (suc fuel) total (search_of fat pre start cnt) curr
        ≡ search_loop fuel total
            (search_of (cluster_get_next fat curr).1 curr curr (cnt - 1))
            (suc curr)
  unfolding search_loop take_cluster
  round_first e free next none_pre none_start = rw (e, free, next, none_pre, none_start) refl

  -- A later one is linked behind it.
  round_link :
      let (ok, fat') = cluster_set_next (cluster_get_next fat curr).1 pre curr in
      (ltb curr total && not (cnt == 0)) ≡ true
      → ((cluster_get_next fat curr).0 == cluster_free) ≡ true
      → (curr + 1) % 2 ^ 16 ≡ suc curr
      → cluster_is_valid pre ≡ true
      → cluster_is_valid start ≡ true
      → ok ≡ true
      → search_loop (suc fuel) total (search_of fat pre start cnt) curr
        ≡ search_loop fuel total (search_of fat' curr start (cnt - 1)) (suc curr)
  unfolding search_loop take_cluster
  round_link e free next some_pre some_start ok = rw (e, free, next, some_pre, some_start, ok) refl

-- The rest of the loop behind the cluster `p`.
pub search_loop-Run :
    (ts fuel : ℕ) (fat : Fat) (t : ℕ → ℕ) (p start curr cnt : ℕ)
    → ts < 256
    → Holds ts fat t
    → InTable ts p
    → t p ≡ cluster_free
    → cluster_is_valid start ≡ true
    → p < curr
    → curr ≤ ts * 256
    → ts * 256 < fuel + curr
    → Run ts t p start curr cnt (search_loop fuel (ts * 256) (search_of fat p start cnt) curr)
search_loop-Run ts zero fat t p start curr cnt small h i f v before l m = absurd (omega arith)
search_loop-Run ts (suc fuel) fat t p start curr cnt small h i f v before l m =
    elim (Bool-cases (ltb curr (ts * 256) && not (cnt == 0))) [
      | inr stop ↦
          Run-end ts p start curr cnt t before fat _
            (round_stop fuel (ts * 256) fat p start cnt curr stop) h i f (over stop)
      | inl go ↦
          let more : (curr < ts * 256) × (0 < cnt) = goes go in
          let here : InTable ts curr = (omega (arith, i.0), more.0, omega (arith, more.0)) in
          let (e, h1) = cluster_get_next-Holds ts fat t curr h here in
          let fat1 = (cluster_get_next fat curr).1 in
          let next : (curr + 1) % 2 ^ 16 ≡ suc curr = omega (arith, more.0) in
          elim (Bool-cases (t curr == cluster_free)) [
            | inl free ↦
                let (ok, h2) =
                  cluster_set_next-Holds ts fat1 t p curr h1 i (omega (arith, more.0)) in
                let fat2 = (cluster_set_next fat1 p curr).1 in
                let isfree : t curr ≡ cluster_free = (==_iff (t curr) cluster_free).0 free in
                let same : put_entry t p curr curr ≡ cluster_free =
                  put_entry_other t p curr curr (λ q. omega (arith, q)) ∙ isfree in
                let r =
                  search_loop-Run ts fuel fat2 (put_entry t p curr) curr start (suc curr) (cnt - 1)
                    small h2 here same v (omega arith) more.0 (omega arith) in
                Run-take ts p start curr cnt t before _ i more.0 isfree more.1 (
                  subst (Run ts (put_entry t p curr) curr start (suc curr) (cnt - 1))
                    (sym (
                      round_link fuel (ts * 256) fat p start cnt curr go
                        (ap (λ x. x == cluster_free) e ∙ free) next (valid_true p i.0 i.2) v ok))
                    r)
            | inr busy ↦
                let r =
                  search_loop-Run ts fuel fat1 t p start (suc curr) cnt small h1 i f v (omega arith)
                    more.0 (omega arith) in
                Run-skip ts p start curr cnt t before _ (==_false→ne (t curr) cluster_free busy) (
                  subst (Run ts t p start (suc curr) cnt)
                    (sym (
                      round_busy fuel (ts * 256) fat p start cnt curr go
                        (ap (λ x. x == cluster_free) e ∙ busy) next))
                    r)
          ]
    ]
  where
    over : (ltb curr (ts * 256) && not (cnt == 0)) ≡ false → 0 < cnt → ts * 256 ≤ curr
    over stop more = ground (arith, stop)

    goes : (ltb curr (ts * 256) && not (cnt == 0)) ≡ true → (curr < ts * 256) × (0 < cnt)
    goes go = ground (arith, go)
