-- ===== src/Fat/Chain.antt =====
-- `cluster_free_chain`: the clusters of a chain.
use os_training.Base.{
  ℕ, zero, suc, ◌<◌, ◌≡◌, refl, sym, ap, ◌∙◌, true, false, ◌==◌, arith, some, List, [], ◌∷◌, length,
}
use mathlib.Core.Path.{subst}
use os_training.LinkedList.Chain.{NotIn, Distinct, ne→==_false}
use os_training.Fat.{
  Fat, cluster_is_valid, cluster_free, cluster_get_next, cluster_set_next, cluster_free_chain,
}
use os_training.Fat.Table.{InTable, Holds, valid_true, cluster_get_next-Holds}
use os_training.Fat.Write.{put_entry, cluster_set_next-Holds}

-- From the cluster `s` the entries lead through `xs` to `e`.
abbrev pub Leads : (ts : ℕ) → (ℕ → ℕ) → (s : ℕ) → List ℕ → (e : ℕ) → Type 0
Leads ts t s [] e = s ≡ e
Leads ts t s (x ∷ xs) e = (s ≡ x) × InTable ts x × Leads ts t (t x) xs e

-- The table with the clusters of `xs` free.
abbrev pub freed : (ℕ → ℕ) → List ℕ → ℕ → ℕ
freed t [] = t
freed t (x ∷ xs) = freed (put_entry t x cluster_free) xs

-- An entry that is not on the way does not matter.
Leads-put_entry :
    (ts : ℕ) (t : ℕ → ℕ) (c v s : ℕ) (xs : List ℕ) (e : ℕ)
    → NotIn c xs
    → Leads ts t s xs e
    → Leads ts (put_entry t c v) s xs e
Leads-put_entry ts t c v s [] e out l = l
Leads-put_entry ts t c v s (x ∷ xs) e out l =
    let other : (x == c) ≡ false = ne→==_false x c (λ q. out.0 (sym q)) in
    (l.0, l.1, rw other (Leads-put_entry ts t c v (t x) xs e out.1 l.2))

-- One round on a cluster of the table.
pub free_step :
    (ts : ℕ) (fat : Fat) (t : ℕ → ℕ) (c : ℕ)
    → Holds ts fat t
    → InTable ts c
    → let fat1 = (cluster_get_next fat c).1 in
      ((cluster_get_next fat c).0 ≡ t c)
      × Holds ts (cluster_set_next fat1 c cluster_free).1 (put_entry t c cluster_free)
free_step ts fat t c h i =
    let (e, h1) = cluster_get_next-Holds ts fat t c h i in
    (
      e,
      (cluster_set_next-Holds ts (cluster_get_next fat c).1 t c cluster_free h1 i (omega arith)).1,
    )

-- When the entries lead from `s` through the different clusters `xs` of the table to a value that
-- is no cluster, `cluster_free_chain`, with fuel for each of them and one round more, ends and the
-- table is the one before with the entries of `xs` free. The sectors of the table, in all copies,
-- can be read and written, and the buffer agrees with the sector that it is said to hold.
pub cluster_free_chain-Holds :
    (ts fuel : ℕ) (fat : Fat) (t : ℕ → ℕ) (s : ℕ) (xs : List ℕ) (e : ℕ)
    → Holds ts fat t
    → Distinct xs
    → Leads ts t s xs e
    → cluster_is_valid e ≡ false
    → length xs < fuel
    → (fat' : Fat) × (cluster_free_chain fuel fat s ≡ some fat') × Holds ts fat' (freed t xs)
unfolding cluster_free_chain
cluster_free_chain-Holds ts zero fat t s xs e h d l end m = absurd (omega arith)
cluster_free_chain-Holds ts (suc fuel) fat t s [] e h d l end m =
    let stop : cluster_is_valid s ≡ false = ap cluster_is_valid l ∙ end in (fat, rw stop refl, h)
cluster_free_chain-Holds ts (suc fuel) fat t s (x ∷ xs) e h d l end m =
    let i : InTable ts s = subst (InTable ts) (sym l.0) l.1 in
    let go : cluster_is_valid s ≡ true = valid_true s i.0 i.2 in
    let (next, h2) = free_step ts fat t s h i in
    let out : NotIn s xs = subst (λ c. NotIn c xs) (sym l.0) d.0 in
    let rest : Leads ts (put_entry t s cluster_free) (cluster_get_next fat s).0 xs e =
      Leads-put_entry ts t s cluster_free (cluster_get_next fat s).0 xs e out
        (subst (λ c. Leads ts t c xs e) (sym (next ∙ ap t l.0)) l.2) in
    let fat2 = (cluster_set_next (cluster_get_next fat s).1 s cluster_free).1 in
    let (fat', r, k) =
      cluster_free_chain-Holds ts fuel fat2 (put_entry t s cluster_free) (cluster_get_next fat s).0
        xs e h2 d.1 rest end (omega arith) in
    (fat', rw go r, subst (λ c. Holds ts fat' (freed (put_entry t c cluster_free) xs)) l.0 k)
