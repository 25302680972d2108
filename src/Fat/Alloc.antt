-- ===== src/Fat/Alloc.antt =====
-- The chains that `cluster_alloc_free` builds: clusters in ascending order that were free.
use os_training.Base.{
  ℕ, suc, ◌+◌, ◌<◌, ◌≤◌, ◌≡◌, ◌≢◌, refl, sym, ap, ◌∙◌, false, ◌==◌, arith, Bool-cases, inl, inr,
  ==_iff, List, [], ◌∷◌, length,
}
use mathlib.Core.Path.{subst}
use os_training.LinkedList.Chain.{NotIn, Distinct, ne→==_false}
use os_training.Fat.{cluster_free}
use os_training.Fat.Write.{put_entry}
use os_training.Fat.Chain.{Leads, freed}

-- The last of a list that begins with `p`.
abbrev pub last_of : (p : ℕ) → List ℕ → ℕ
last_of p [] = p
last_of p (y ∷ ys) = last_of y ys

-- A list of clusters in ascending order, from `b` on and below `n`.
abbrev pub Ascending : (b n : ℕ) → List ℕ → Type 0
Ascending b n [] = Unit
Ascending b n (x ∷ xs) = (b ≤ x) × (x < n) × Ascending (suc x) n xs

-- Every cluster of the list has a free entry.
abbrev pub AllFree : (ℕ → ℕ) → List ℕ → Type 0
AllFree t [] = Unit
AllFree t (x ∷ xs) = (t x ≡ cluster_free) × AllFree t xs

pub Ascending-NotIn : (b n d : ℕ) (xs : List ℕ) → Ascending b n xs → d < b → NotIn d xs
Ascending-NotIn b n d [] a l = tt
Ascending-NotIn b n d (x ∷ xs) a l =
    (λ e. omega (arith, e, a.0), Ascending-NotIn (suc x) n d xs a.2 (omega (arith, a.0)))

pub Ascending-Distinct : (b n : ℕ) (xs : List ℕ) → Ascending b n xs → Distinct xs
Ascending-Distinct b n [] a = tt
Ascending-Distinct b n (x ∷ xs) a =
    (Ascending-NotIn (suc x) n x xs a.2 (omega arith), Ascending-Distinct (suc x) n xs a.2)

pub Ascending-lower : (b c n : ℕ) (xs : List ℕ) → c ≤ b → Ascending b n xs → Ascending c n xs
Ascending-lower b c n [] l a = tt
Ascending-lower b c n (x ∷ xs) l a = (omega (arith, a.0), a.1, a.2)

pub Ascending-length : (b n : ℕ) (xs : List ℕ) → b ≤ n → Ascending b n xs → b + length xs ≤ n
Ascending-length b n [] l a = omega arith
Ascending-length b n (x ∷ xs) l a =
    omega (arith, a.0, Ascending-length (suc x) n xs (omega (arith, a.1)) a.2)

-- The last one is behind all others.
pub last_of-above : (p n : ℕ) (ys : List ℕ) → Ascending (suc p) n ys → p ≤ last_of p ys
last_of-above p n [] a = omega arith
last_of-above p n (y ∷ ys) a = omega (arith, a.0, last_of-above y n ys a.2)

pub last_of-below : (p n : ℕ) (ys : List ℕ) → p < n → Ascending (suc p) n ys → last_of p ys < n
last_of-below p n [] l a = l
last_of-below p n (y ∷ ys) l a = last_of-below y n ys a.1 a.2

pub put_entry_other : (t : ℕ → ℕ) (c v d : ℕ) → d ≢ c → put_entry t c v d ≡ t d
put_entry_other t c v d ne = rw (ne→==_false d c ne) refl

pub put_entry_same : (t : ℕ → ℕ) (c v : ℕ) → put_entry t c v c ≡ v
put_entry_same t c v = rw ((==_iff c c).1 refl) refl

-- An entry below the list does not matter to its being free.
pub AllFree-put_entry :
    (t : ℕ → ℕ) (c v b n : ℕ) (xs : List ℕ)
    → c < b
    → Ascending b n xs
    → AllFree (put_entry t c v) xs
    → AllFree t xs
AllFree-put_entry t c v b n [] l a f = tt
AllFree-put_entry t c v b n (x ∷ xs) l a f = (
  sym (put_entry_other t c v x (λ e. omega (arith, e, a.0))) ∙ f.0,
  AllFree-put_entry t c v (suc x) n xs (omega (arith, a.0)) a.2 f.1,
)

-- The end of a chain is the entry of its last cluster.
pub Leads-last :
    (ts : ℕ) (t : ℕ → ℕ) (p n v e : ℕ) (ys : List ℕ)
    → Ascending (suc p) n ys
    → Leads ts t p (p ∷ ys) e
    → Leads ts (put_entry t (last_of p ys) v) p (p ∷ ys) v
Leads-last ts t p n v e [] a l = (refl, l.1, put_entry_same t p v)
Leads-last ts t p n v e (y ∷ ys) a l =
    let rest : Leads ts t y (y ∷ ys) e = (refl, l.2.1, l.2.2) in
    let step : put_entry t (last_of y ys) v p ≡ y =
      put_entry_other t (last_of y ys) v p (λ q. omega (arith, q, a.0, last_of-above y n ys a.2))
      ∙ l.2.0 in
    (
      refl,
      l.1,
      subst (λ s. Leads ts (put_entry t (last_of y ys) v) s (y ∷ ys) v) (sym step)
          (Leads-last ts t y n v e ys a.2 rest),
    )

pub ==_false→ne : (a b : ℕ) → (a == b) ≡ false → a ≢ b
==_false→ne a b h = ground arith

-- Clusters that were free are free again.
pub freed_back :
    (t u : ℕ → ℕ) (xs : List ℕ) (d : ℕ)
    → AllFree t xs
    → (NotIn d xs → u d ≡ t d)
    → freed u xs d ≡ t d
freed_back t u [] d f o = o tt
freed_back t u (x ∷ xs) d f o = freed_back t (put_entry u x cluster_free) xs d f.1 out
  where
    out : NotIn d xs → put_entry u x cluster_free d ≡ t d
    out n = elim (Bool-cases (d == x)) [
      | inl e ↦ rw e (sym (ap t ((==_iff d x).0 e) ∙ f.0))
      | inr ne ↦ rw ne (o (==_false→ne d x ne, n))
    ]
