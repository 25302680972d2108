-- ===== src/Fat/Outcome.antt =====
-- `cluster_alloc_free` as a whole, with what follows its loop.
use os_training.Base.{
  ℕ, zero, suc, ◌-◌, ◌*◌, ◌/◌, ◌<◌, ◌≤◌, ◌≡◌, ◌≢◌, refl, sym, ap, ◌∙◌, true, false, ◌==◌, ltb,
  arith, Bool-cases, inl, inr, ◌⊎◌, ==_iff, Option, some, none, List, [], ◌∷◌, length,
}
use mathlib.Core.Path.{subst}
use os_training.LinkedList.Chain.{NotIn, ne→==_false}
use os_training.Fat.{
  Fat, cluster_is_valid, cluster_invalid, cluster_free, cluster_set_next, cluster_free_chain,
  SearchEnd, ended, failed, search_loop, give_up, finish_chain, cluster_alloc_free,
}
use os_training.Fat.Table.{InTable, Holds}
use os_training.Fat.Write.{put_entry, cluster_set_next-Holds}
use os_training.Fat.Chain.{freed, cluster_free_chain-Holds}
use os_training.Fat.Alloc.{
  last_of, Ascending, Ascending-Distinct, Ascending-length, Leads-last, freed_back, put_entry_other,
  last_of-above, last_of-below,
}
use os_training.Fat.Run.{search_of, Run}
use os_training.Fat.Grant.{Granted, Refused, nowhere, found, search_loop-Begin}

-- What the function makes of the end of its loop.
abbrev pub finish : (fuel : ℕ) → Option SearchEnd → Option (ℕ × Fat)
finish fuel o = elim o [
  | none ↦ none
  | some (ended s) ↦ finish_chain fuel s
  | some (failed s) ↦ give_up fuel s
]

-- Either outcome, with the file system that is left.
pub record Outcome (ts : ℕ) (t : ℕ → ℕ) (cnt : ℕ) (o : Option (ℕ × Fat)) : Type 0 where
  pub start : ℕ
  pub fat : Fat
  pub after : ℕ → ℕ
  pub result : o ≡ some (start, fat)
  pub holds : Holds ts fat after
  pub outcome : Granted ts t cnt start after ⊎ Refused ts t cnt start after

pub alloc-finish :
    (ts fuel : ℕ) (fat : Fat) (t : ℕ → ℕ) (cnt : ℕ)
    → Holds ts fat t
    → cluster_alloc_free fuel fat cnt
      ≡ finish fuel
          (search_loop fuel (ts * 256) (search_of fat cluster_invalid cluster_invalid cnt) 2)
unfolding cluster_alloc_free
alloc-finish ts fuel fat t cnt h =
    let total : fat.tbl_sectors * fat.bytes_per_sec / 2 ≡ ts * 256 =
      ap (λ b. fat.tbl_sectors * b / 2) h.sector ∙ omega (arith, h.sectors) in
    ap (λ n. finish fuel (search_loop fuel n (search_of fat cluster_invalid cluster_invalid cnt) 2))
      total

-- The chain of the loop, given back.
give_up-Run :
    (ts fuel x cnt : ℕ) (t : ℕ → ℕ) (o : Option SearchEnd) (r : Run ts t x x (suc x) cnt o)
    → InTable ts x
    → t x ≡ cluster_free
    → ts * 256 ≤ fuel
    → (fat' : Fat) × (u : ℕ → ℕ) × (give_up fuel (search_of r.fat (last_of x r.ys) x r.left)
        ≡ some (cluster_invalid, fat'))
      × Holds ts fat' u
      × ((d : ℕ) → u d ≡ t d)
unfolding cluster_is_valid
give_up-Run ts fuel x cnt t o r i f enough =
    let up : Ascending x (ts * 256) (x ∷ r.ys) = (omega arith, i.1, r.up) in
    let bound = Ascending-length x (ts * 256) (x ∷ r.ys) (omega (arith, i.1)) up in
    let short : length (x ∷ r.ys) < fuel = omega (arith, bound, i.0) in
    let (fat', e, h) =
      cluster_free_chain-Holds ts fuel r.fat r.after x (x ∷ r.ys) cluster_free r.holds
        (Ascending-Distinct x (ts * 256) (x ∷ r.ys) up) r.leads refl short in
    (
      fat',
      freed r.after (x ∷ r.ys),
      ap (λ o. elim o [ none ↦ none | some fat ↦ some (cluster_invalid, fat) ]) e,
      h,
      λ d. freed_back t r.after (x ∷ r.ys) d (f, r.free) (r.others d),
    )

NotIn-last : (x : ℕ) (ys : List ℕ) (d : ℕ) → NotIn d (x ∷ ys) → d ≢ last_of x ys
NotIn-last x [] d n = n.0
NotIn-last x (y ∷ ys) d n = NotIn-last y ys d n.1

-- The chain of the loop, with its end mark.
mark-Run :
    (ts fuel x cnt : ℕ) (t : ℕ → ℕ) (o : Option SearchEnd) (r : Run ts t x x (suc x) cnt o)
    → InTable ts x
    → t x ≡ cluster_free
    → r.left ≡ 0
    → ts < 256
    → Outcome ts t (suc cnt) (finish_chain fuel (search_of r.fat (last_of x r.ys) x r.left))
mark-Run ts fuel x cnt t o r i f none_left small =
    let q = last_of x r.ys in
    let inside : InTable ts q = (
      omega (arith, i.0, last_of-above x (ts * 256) r.ys r.up),
      last_of-below x (ts * 256) r.ys i.1 r.up,
      omega (arith, last_of-below x (ts * 256) r.ys i.1 r.up),
    ) in
    let (ok, h) =
      cluster_set_next-Holds ts r.fat r.after q cluster_invalid r.holds inside (omega arith) in
    let done : (r.left == 0) ≡ true = (==_iff r.left 0).1 none_left in
    let granted : Granted ts t (suc cnt) x (put_entry r.after q cluster_invalid) = record {
      clusters = x ∷ r.ys;
      count = omega (arith, r.count, none_left);
      distinct = Ascending-Distinct x (ts * 256) (x ∷ r.ys) (omega arith, i.1, r.up);
      free = (f, r.free);
      chain = Leads-last ts r.after x (ts * 256) cluster_invalid cluster_free r.ys r.up r.leads;
      others =
          λ d n. put_entry_other r.after q cluster_invalid d (NotIn-last x r.ys d n) ∙ r.others d n;
    } in
    record {
      start = x;
      fat = (cluster_set_next r.fat q cluster_invalid).1;
      after = put_entry r.after q cluster_invalid;
      result = rw (done, ok) refl;
      holds = h;
      outcome = inl granted;
    }

-- Not enough free clusters behind `x`.
back-Run :
    (ts fuel x cnt : ℕ) (t : ℕ → ℕ) (o : Option SearchEnd) (r : Run ts t x x (suc x) cnt o)
    → InTable ts x
    → t x ≡ cluster_free
    → ts * 256 ≤ fuel
    → 0 < r.left
    → ((d : ℕ) → 2 ≤ d → d < x → t d ≢ cluster_free)
    → Outcome ts t (suc cnt) (finish_chain fuel (search_of r.fat (last_of x r.ys) x r.left))
back-Run ts fuel x cnt t o r i f enough more earlier =
    let (fat', u, e, h, same) = give_up-Run ts fuel x cnt t o r i f enough in
    let left : (r.left == 0) ≡ false = ne→==_false r.left 0 (λ q. omega (arith, q)) in
    let refused : Refused ts t (suc cnt) cluster_invalid u = record {
      nothing = refl;
      same = same;
      free = x ∷ r.ys;
      few = λ p. omega (arith, r.count);
      all = λ p d inside n. elim (Bool-cases (ltb d x)) [
        | inl below ↦ earlier d inside.0 (ground (arith, below))
        | inr above ↦ r.full more d (ground (arith, above, n.0)) inside.1 n.1
      ];
    } in
    record {
      start = cluster_invalid;
      fat = fat';
      after = u;
      result = rw (left, e) refl;
      holds = h;
      outcome = inr refused;
    }

-- On a table of fewer than 256 sectors with fuel for each cluster, `cluster_alloc_free` ends in
-- one of two ways. It returns the head of a chain of exactly `cnt` different clusters that were
-- free, closed by the end mark, with all other entries as before; or, for a count of 0 or when
-- fewer than `cnt` clusters are free, it returns no cluster and leaves every entry as before. The
-- sectors of the table, in all copies, can be read and written, and the buffer agrees with the
-- sector that it is said to hold.
pub cluster_alloc_free-Outcome :
    (ts fuel : ℕ) (fat : Fat) (t : ℕ → ℕ) (cnt : ℕ)
    → ts < 256
    → Holds ts fat t
    → ts * 256 ≤ fuel
    → 0 < fuel
    → Outcome ts t cnt (cluster_alloc_free fuel fat cnt)
unfolding cluster_free_chain cluster_is_valid cluster_set_next
cluster_alloc_free-Outcome ts zero fat t cnt small h enough more = absurd (omega arith)
cluster_alloc_free-Outcome ts (suc fuel) fat t cnt small h enough more =
    subst (Outcome ts t cnt) (sym (alloc-finish ts (suc fuel) fat t cnt h))
      (elim (search_loop-Begin ts (suc fuel) fat t 2 cnt small h (omega arith) (omega arith)
        (omega arith)) [
          | nowhere fat' e h' none_free ↦ record {
            start = cluster_invalid;
            fat = fat';
            after = t;
            result = rw e (ended_nowhere fat');
            holds = h';
            outcome = inr record {
              nothing = refl;
              same = λ d. refl;
              free = [];
              few = λ p. p;
              all = λ p d i n. none_free p d i.0 i.1;
            };
          }
          | found x l i f p earlier r ↦
              let whole : suc (cnt - 1) ≡ cnt = omega arith in
              let loop =
                search_loop (suc fuel) (ts * 256)
                  (search_of fat cluster_invalid cluster_invalid cnt) 2 in
              subst (λ k. Outcome ts t k (finish (suc fuel) loop)) whole
                (subst (λ o. Outcome ts t (suc (cnt - 1)) (finish (suc fuel) o)) (sym r.result)
                  (elim (Bool-cases (r.left == 0)) [
                    | inl done ↦
                        mark-Run ts (suc fuel) x (cnt - 1) t _ r i f ((==_iff r.left 0).0 done)
                          small
                    | inr left ↦
                        back-Run ts (suc fuel) x (cnt - 1) t _ r i f enough (ground (arith, left))
                          earlier
                  ]))
        ])
  where
    ended_nowhere :
        (fat' : Fat)
        → finish_chain (suc fuel) (search_of fat' cluster_invalid cluster_invalid cnt)
          ≡ some (cluster_invalid, fat')
    ended_nowhere fat' = elim (Bool-cases (cnt == 0)) [ inl e ↦ rw e refl | inr e ↦ rw e refl ]
