-- ===== src/LinkedList/Chain.antt =====
-- What a list of source/kernel/tools/list.c stands for: the sequence of its nodes.
use os_training.Base.{
  ℕ, ◌≡◌, refl, ◌≢◌, pos, List, [], ◌∷◌, ◌++◌, arith, length, ap, ◌∙◌, sym, ◌==◌, false,
}
use os_training.LinkedList.{ListNode, Nodes, ListHead, null, write}

-- `x` is none of `xs`.
abbrev pub NotIn : ℕ → List ℕ → Type 0
NotIn x [] = Unit
NotIn x (y ∷ ys) = (x ≢ y) × NotIn x ys

abbrev pub Distinct : List ℕ → Type 0
Distinct [] = Unit
Distinct (x ∷ xs) = NotIn x xs × Distinct xs

-- From `p` the `next` pointers lead through `xs` to `stop`, and the `pre` pointers lead back from
-- `last` to `prev`.
abbrev pub Seg : Nodes → (prev p : ℕ) → List ℕ → (stop last : ℕ) → Type 0
Seg h prev p [] stop last = (p ≡ stop) × (last ≡ prev)
Seg h prev p (x ∷ xs) stop last =
    (p ≡ x) × (x ≢ null) × ((h x).pre ≡ prev) × Seg h x (h x).next xs stop last

-- The list holds exactly the nodes `xs`, in this order.
pub record IsList (h : Nodes) (l : ListHead) (xs : List ℕ) : Type 0 where
  pub distinct : Distinct xs
  pub chain : Seg h null l.first xs null l.last
  pub counted : l.count ≡ pos (length xs)

pub ne→==_false : (a b : ℕ) → a ≢ b → (a == b) ≡ false
ne→==_false a b h = ground arith

eq→==_false : (a b : ℕ) → a ≡ b → b ≢ 0 → (a == 0) ≡ false
eq→==_false a b e h = ground arith

pub NotIn-append : (x : ℕ) (xs ys : List ℕ) → NotIn x (xs ++ ys) → NotIn x xs × NotIn x ys
NotIn-append x [] ys n = (tt, n)
NotIn-append x (y ∷ xs) ys n = let r = NotIn-append x xs ys n.1 in ((n.0, r.0), r.1)

pub NotIn-append_intro : (x : ℕ) (xs ys : List ℕ) → NotIn x xs → NotIn x ys → NotIn x (xs ++ ys)
NotIn-append_intro x [] ys n m = m
NotIn-append_intro x (y ∷ xs) ys n m = (n.0, NotIn-append_intro x xs ys n.1 m)

pub write-ne : (h : Nodes) (p a : ℕ) (n : ListNode) → a ≢ p → write h p n a ≡ h a
unfolding write
write-ne h p a n ne = rw (ne→==_false a p ne)

module _ (h : Nodes) where
  -- A write elsewhere leaves a segment alone.
  pub Seg-write :
      (w : ℕ) (n : ListNode) (prev p : ℕ) (xs : List ℕ) (stop last : ℕ)
      → NotIn w xs
      → Seg h prev p xs stop last
      → Seg (write h w n) prev p xs stop last
  Seg-write w n prev p [] stop last out s = s
  Seg-write w n prev p (x ∷ xs) stop last out s =
      let same = write-ne h w x n (λ e. out.0 (sym e)) in
      (
        s.0,
        s.1,
        ap (λ m. m.pre) same ∙ s.2,
        rw same (Seg-write w n x (h x).next xs stop last out.1 s.3),
      )

  pub Seg-append :
      (prev p : ℕ) (xs : List ℕ) (mid l : ℕ) (ys : List ℕ) (stop last : ℕ)
      → Seg h prev p xs mid l
      → Seg h l mid ys stop last
      → Seg h prev p (xs ++ ys) stop last
  Seg-append prev p [] mid l ys stop last s t = rw (s.0, ← s.1) t
  Seg-append prev p (x ∷ xs) mid l ys stop last s t =
      (s.0, s.1, s.2, Seg-append x (h x).next xs mid l ys stop last s.3 t)

  pub Seg-split :
      (prev p : ℕ) (xs ys : List ℕ) (stop last : ℕ)
      → Seg h prev p (xs ++ ys) stop last
      → (mid l : ℕ) × Seg h prev p xs mid l × Seg h l mid ys stop last
  Seg-split prev p [] ys stop last s = (p, prev, (refl, refl), s)
  Seg-split prev p (x ∷ xs) ys stop last s =
      let r = Seg-split x (h x).next xs ys stop last s.3 in (r.0, r.1, (s.0, s.1, s.2, r.2), r.3)

  -- The last node of a segment is one of its nodes, and so it is not null.
  pub last-ne :
      (a prev p x : ℕ) (xs : List ℕ) (stop last : ℕ)
      → NotIn a (x ∷ xs)
      → Seg h prev p (x ∷ xs) stop last
      → a ≢ last
  last-ne a prev p x [] stop last out s = λ e. out.0 (e ∙ s.3.1)
  last-ne a prev p x (y ∷ ys) stop last out s = last-ne a x (h x).next y ys stop last out.1 s.3

  pub last-ne_null :
      (prev p x : ℕ) (xs : List ℕ) (stop last : ℕ) → Seg h prev p (x ∷ xs) stop last → last ≢ null
  last-ne_null prev p x [] stop last s = λ e. s.1 (sym s.3.1 ∙ e)
  last-ne_null prev p x (y ∷ ys) stop last s = last-ne_null x (h x).next y ys stop last s.3
