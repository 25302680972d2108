-- ===== src/LinkedList/Relink.antt =====
-- What one write of a `next` or `pre` pointer does to a segment.
use os_training.Base.{ℕ, ◌≡◌, refl, ◌≢◌, List, [], ◌∷◌, arith, ap, ◌∙◌, sym}
use mathlib.Core.Path.{subst}
use os_training.LinkedList.{ListNode, Nodes, write, set_next, set_pre}
use os_training.LinkedList.Chain.{NotIn, Distinct, Seg, Seg-write, write-ne, last-ne}

write_self : (h : Nodes) (p : ℕ) (n : ListNode) → write h p n p ≡ n
unfolding write
write_self h p n = ground arith

module _ (h : Nodes) where
  -- The `next` pointer of the last node is redirected.
  pub set_next-last :
      (prev p x : ℕ) (xs : List ℕ) (stop last q : ℕ)
      → Distinct (x ∷ xs)
      → Seg h prev p (x ∷ xs) stop last
      → Seg (set_next h last q) prev p (x ∷ xs) q last
  unfolding set_next
  set_next-last prev p x [] stop last q d s =
      rw (s.3.1, write_self h x (record { pre = (h x).pre; next = q }))
        (s.0, s.1, s.2, (refl, refl))
  set_next-last prev p x (y ∷ ys) stop last q d s =
      let n : ListNode = record { pre = (h last).pre; next = q } in
      let ne : x ≢ last = last-ne h x x (h x).next y ys stop last d.0 s.3 in
      let same : write h last n x ≡ h x = write-ne h last x n ne in
      (
        s.0,
        s.1,
        ap (λ m. m.pre) same ∙ s.2,
        rw same (set_next-last x (h x).next y ys stop last q d.1 s.3),
      )

  -- The `pre` pointer of the first node is redirected.
  set_pre-head :
      (prev p x : ℕ) (xs : List ℕ) (stop last q : ℕ)
      → Distinct (x ∷ xs)
      → Seg h prev p (x ∷ xs) stop last
      → Seg (set_pre h x q) q p (x ∷ xs) stop last
  unfolding set_pre
  set_pre-head prev p x xs stop last q d s =
      let n : ListNode = record { pre = q; next = (h x).next } in
      let w : write h x n x ≡ n = write_self h x n in
      (s.0, s.1, ap (λ m. m.pre) w, rw w (Seg-write h x n x (h x).next xs stop last d.0 s.3))

  pub set_pre-first :
      (prev p x : ℕ) (xs : List ℕ) (stop last q : ℕ)
      → Distinct (x ∷ xs)
      → Seg h prev p (x ∷ xs) stop last
      → Seg (set_pre h p q) q p (x ∷ xs) stop last
  set_pre-first prev p x xs stop last q d s =
      subst (λ a. Seg (set_pre h a q) q p (x ∷ xs) stop last) (sym s.0)
        (set_pre-head prev p x xs stop last q d s)

  -- A write of one pointer elsewhere leaves a segment alone.
  pub Seg-set_next :
      (w q prev p : ℕ) (xs : List ℕ) (stop last : ℕ)
      → NotIn w xs
      → Seg h prev p xs stop last
      → Seg (set_next h w q) prev p xs stop last
  unfolding set_next
  Seg-set_next w q = Seg-write h w (record { pre = (h w).pre; next = q })

  pub Seg-set_pre :
      (w q prev p : ℕ) (xs : List ℕ) (stop last : ℕ)
      → NotIn w xs
      → Seg h prev p xs stop last
      → Seg (set_pre h w q) prev p xs stop last
  unfolding set_pre
  Seg-set_pre w q = Seg-write h w (record { pre = q; next = (h w).next })

  pub set_next_self : (p q : ℕ) → set_next h p q p ≡ record { pre = (h p).pre; next = q }
  unfolding set_next
  set_next_self p q = write_self h p (record { pre = (h p).pre; next = q })

  pub set_pre_self : (p q : ℕ) → set_pre h p q p ≡ record { pre = q; next = (h p).next }
  unfolding set_pre
  set_pre_self p q = write_self h p (record { pre = q; next = (h p).next })

  pub set_next-ne : (p q a : ℕ) → a ≢ p → set_next h p q a ≡ h a
  unfolding set_next
  set_next-ne p q a ne = write-ne h p a (record { pre = (h p).pre; next = q }) ne

  pub set_pre-ne : (p q a : ℕ) → a ≢ p → set_pre h p q a ≡ h a
  unfolding set_pre
  set_pre-ne p q a ne = write-ne h p a (record { pre = q; next = (h p).next }) ne

-- The two writes that set up an inserted node, in either order.
module _ (h : Nodes) (node p q : ℕ) where
  pub front_node : set_pre (set_next h node p) node q node ≡ record { pre = q; next = p }
  front_node =
      set_pre_self (set_next h node p) node q
      ∙ ap (λ n. record { pre = q; next = n.next }) (set_next_self h node p)

  pub back_node : set_next (set_pre h node q) node p node ≡ record { pre = q; next = p }
  back_node =
      set_next_self (set_pre h node q) node p
      ∙ ap (λ n. record { pre = n.pre; next = p }) (set_pre_self h node q)

  pub Seg-front_node :
      (prev first : ℕ) (xs : List ℕ) (stop last : ℕ)
      → NotIn node xs
      → Seg h prev first xs stop last
      → Seg (set_pre (set_next h node p) node q) prev first xs stop last
  Seg-front_node prev first xs stop last out s =
      Seg-set_pre (set_next h node p) node q prev first xs stop last out
        (Seg-set_next h node p prev first xs stop last out s)

  pub Seg-back_node :
      (prev first : ℕ) (xs : List ℕ) (stop last : ℕ)
      → NotIn node xs
      → Seg h prev first xs stop last
      → Seg (set_next (set_pre h node q) node p) prev first xs stop last
  Seg-back_node prev first xs stop last out s =
      Seg-set_next (set_pre h node q) node p prev first xs stop last out
        (Seg-set_pre h node q prev first xs stop last out s)
