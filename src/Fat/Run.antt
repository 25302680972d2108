-- ===== src/Fat/Run.antt =====
-- The loop of `cluster_alloc_free`.
use os_training.Base.{
  ℕ, suc, ◌+◌, ◌-◌, ◌*◌, ◌<◌, ◌≤◌, ◌≡◌, ◌≢◌, refl, sym, ◌∙◌, ◌==◌, arith, Bool-cases, inl, inr,
  ==_iff, Option, some, List, [], ◌∷◌, length,
}
use mathlib.Core.Path.{subst}
use os_training.LinkedList.Chain.{NotIn}
use os_training.Fat.{Fat, cluster_free, Search, SearchEnd, ended}
use os_training.Fat.Table.{InTable, Holds}
use os_training.Fat.Write.{put_entry}
use os_training.Fat.Chain.{Leads}
use os_training.Fat.Alloc.{
  Ascending-NotIn, last_of, Ascending, Ascending-lower, AllFree, AllFree-put_entry, put_entry_other,
  put_entry_same,
}

abbrev pub search_of : Fat → (pre start cnt : ℕ) → Search
search_of fat pre start cnt = record { fat = fat; pre = pre; start = start; cnt = cnt }

-- The loop behind the cluster `p`, from `curr` on: the clusters `ys` that it adds to the chain,
-- and what is left of the table and of the count.
pub record Run (ts : ℕ) (t : ℕ → ℕ) (p start curr cnt : ℕ) (o : Option SearchEnd) : Type 0 where
  pub ys : List ℕ
  pub fat : Fat
  pub after : ℕ → ℕ
  pub left : ℕ
  pub result : o ≡ some (ended (search_of fat (last_of p ys) start left))
  pub holds : Holds ts fat after
  pub leads : Leads ts after p (p ∷ ys) cluster_free
  pub up : Ascending curr (ts * 256) ys
  pub free : AllFree t ys
  pub others : (d : ℕ) → NotIn d (p ∷ ys) → after d ≡ t d
  pub count : length ys + left ≡ cnt
  pub full : 0 < left → (d : ℕ) → curr ≤ d → d < ts * 256 → NotIn d ys → t d ≢ cluster_free

module _ (ts p start curr cnt : ℕ) (t : ℕ → ℕ) (before : p < curr) where
  -- The loop ends at `curr`.
  pub Run-end :
      (fat : Fat) (o : Option SearchEnd)
      → o ≡ some (ended (search_of fat p start cnt))
      → Holds ts fat t
      → InTable ts p
      → t p ≡ cluster_free
      → (0 < cnt → ts * 256 ≤ curr)
      → Run ts t p start curr cnt o
  Run-end fat o e h i f over = record {
    ys = [];
    fat = fat;
    after = t;
    left = cnt;
    result = e;
    holds = h;
    leads = (refl, i, f);
    up = tt;
    free = tt;
    others = λ d n. refl;
    count = omega arith;
    full = λ more d l m n. absurd (omega (arith, over more));
  }

  -- A cluster that is not free is passed over.
  pub Run-skip :
      (o : Option SearchEnd)
      → t curr ≢ cluster_free
      → Run ts t p start (suc curr) cnt o
      → Run ts t p start curr cnt o
  Run-skip o busy r = record {
    ys = r.ys;
    fat = r.fat;
    after = r.after;
    left = r.left;
    result = r.result;
    holds = r.holds;
    leads = r.leads;
    up = Ascending-lower (suc curr) curr (ts * 256) r.ys (omega arith) r.up;
    free = r.free;
    others = r.others;
    count = r.count;
    full = λ more d l m n. elim (Bool-cases (d == curr)) [
      | inl e ↦ subst (λ c. t c ≢ cluster_free) (sym ((==_iff d curr).0 e)) busy
      | inr ne ↦ r.full more d (ground (arith, l)) m n
    ];
  }

  -- A free one is linked behind `p`.
  pub Run-take :
      (o : Option SearchEnd)
      → InTable ts p
      → curr < ts * 256
      → t curr ≡ cluster_free
      → 0 < cnt
      → Run ts (put_entry t p curr) curr start (suc curr) (cnt - 1) o
      → Run ts t p start curr cnt o
  Run-take o i small f more r =
      let linked : r.after p ≡ curr =
        r.others p
          (λ e. omega (arith, e), Ascending-NotIn (suc curr) (ts * 256) p r.ys r.up (omega arith))
        ∙ put_entry_same t p curr in
      record {
        ys = curr ∷ r.ys;
        fat = r.fat;
        after = r.after;
        left = r.left;
        result = r.result;
        holds = r.holds;
        leads = (
          refl,
          i,
          subst (λ s. Leads ts r.after s (curr ∷ r.ys) cluster_free) (sym linked) r.leads,
        );
        up = (omega arith, small, r.up);
        free = (f, AllFree-put_entry t p curr (suc curr) (ts * 256) r.ys (omega arith) r.up r.free);
        others = λ d n. r.others d n.1 ∙ put_entry_other t p curr d n.0;
        count = omega (arith, r.count);
        full = λ left d l m n.
            let later : suc curr ≤ d = omega (arith, n.0) in
            let off : d ≢ p = λ e. omega (arith, e) in
            subst (λ v. v ≢ cluster_free) (put_entry_other t p curr d off)
              (r.full left d later m n.1);
      }
