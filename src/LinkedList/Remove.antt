-- ===== src/LinkedList/Remove.antt =====
-- `list_remove` and `list_remove_first` take one node out of the sequence.
use os_training.Base.{
  ℕ, suc, ◌≡◌, refl, List, [], ◌∷◌, ◌++◌, arith, length, ap, ◌∙◌, sym, ◌==◌, if◌then◌else◌,
}
use mathlib.Core.Path.{subst, subst₂}
use os_training.LinkedList.{
  Nodes, ListHead, null, set_next, set_pre, list_node_init, list_remove_first, list_remove,
}
use os_training.LinkedList.Chain.{
  NotIn, Distinct, Seg, IsList, Seg-append, Seg-split, last-ne, last-ne_null, NotIn-append,
  NotIn-append_intro, ne→==_false, Seg-write,
}
use os_training.LinkedList.Relink.{
  set_next-last, set_pre-first, set_next-ne, Seg-set_next, Seg-set_pre,
}

-- The node of a sequence `xs ++ x ∷ ys` of distinct nodes is in neither part.
pub Distinct-split :
    (xs : List ℕ) (x : ℕ) (ys : List ℕ)
    → Distinct (xs ++ x ∷ ys)
    → Distinct xs × Distinct ys × NotIn x xs × NotIn x ys × Distinct (xs ++ ys)
Distinct-split [] x ys d = (tt, d.1, tt, d.0, d.1)
Distinct-split (y ∷ xs) x ys d =
    let r = Distinct-split xs x ys d.1 in
    let n = NotIn-append y xs (x ∷ ys) d.0 in
    ((n.0, r.0), r.1, (λ e. n.1.0 (sym e), r.2), r.3, (NotIn-append_intro y xs ys n.0 n.1.1, r.4))

length-middle :
    (xs : List ℕ) (x : ℕ) (ys : List ℕ) → length (xs ++ x ∷ ys) ≡ suc (length (xs ++ ys))
length-middle [] x ys = refl
length-middle (y ∷ xs) x ys = ap suc (length-middle xs x ys)

-- The last node of a segment is none of the nodes behind the segment.
pub last-NotIn :
    (h : Nodes) (prev p x : ℕ) (xs : List ℕ) (stop last : ℕ) (ys : List ℕ)
    → Distinct ((x ∷ xs) ++ ys)
    → Seg h prev p (x ∷ xs) stop last
    → NotIn last ys
last-NotIn h prev p x [] stop last ys d s = rw s.3.1 d.0
last-NotIn h prev p x (y ∷ xs) stop last ys d s =
    last-NotIn h x (h x).next y xs stop last ys d.1 s.3

-- The front of the list after the write of `pre->next`, with the new `first`.
module _ (h : Nodes) (first x l n : ℕ) where
  abbrev front_first : ℕ
  front_first = if x == first then n else first

  abbrev pub front_nodes : Nodes
  front_nodes = if l == null then h else set_next h l n

  front :
      (xs : List ℕ)
      → Distinct xs
      → NotIn x xs
      → Seg h null first xs x l
      → Seg front_nodes null front_first xs n l
  front [] d out s = (ground arith, s.1)
  front (y ∷ xs) d out s =
      let same : front_nodes ≡ set_next h l n =
        ap (λ b. if b then h else set_next h l n)
          (ne→==_false l null (last-ne_null h null first y xs x l s)) in
      let kept : front_first ≡ first =
        ap (λ b. if b then n else first) (ne→==_false x first (λ e. out.0 (e ∙ s.0))) in
      subst₂ (λ g f. Seg g null f (y ∷ xs) n l) (sym same) (sym kept)
        (set_next-last h null first y xs x l n d s)

  -- That write spares the nodes behind `x`, and `x`.
  pub front-spares :
      (xs ys : List ℕ)
      → Distinct (xs ++ ys)
      → Seg h null first xs x l
      → (prev p last : ℕ) → Seg h prev p ys null last
      → Seg front_nodes prev p ys null last
  front-spares [] ys d s prev p last t = rw s.1 t
  front-spares (y ∷ xs) ys d s prev p last t =
      rw (ne→==_false l null (last-ne_null h null first y xs x l s))
        (Seg-set_next h l n prev p ys null last (last-NotIn h null first y xs x l ys d s) t)

  pub front-spares_node : (xs : List ℕ) → NotIn x xs → Seg h null first xs x l → front_nodes x ≡ h x
  front-spares_node [] out s = rw s.1
  front-spares_node (y ∷ xs) out s =
      rw (ne→==_false l null (last-ne_null h null first y xs x l s))
        (set_next-ne h l n x (last-ne h x null first y xs x l out s))

-- The rest of the list after the write of `next->pre`, with the new `last`.
module _ (h : Nodes) (last x l n : ℕ) where
  abbrev back_last : ℕ
  back_last = if x == last then l else last

  abbrev pub back_nodes : Nodes
  back_nodes = if n == null then h else set_pre h n l

  back :
      (ys : List ℕ)
      → Distinct ys
      → NotIn x ys
      → Seg h x n ys null last
      → Seg back_nodes l n ys null back_last
  back [] d out s = (s.0, ground arith)
  back (y ∷ ys) d out s =
      let same : back_nodes ≡ set_pre h n l =
        ap (λ b. if b then h else set_pre h n l) (ne→==_false n null (λ e. s.1 (sym s.0 ∙ e))) in
      let kept : back_last ≡ last =
        ap (λ b. if b then l else last)
          (ne→==_false x last (last-ne h x x n y ys null last out s)) in
      subst₂ (λ g k. Seg g l n (y ∷ ys) null k) (sym same) (sym kept)
        (set_pre-first h x n y ys null last l d s)

  -- That write spares the nodes before `x`.
  pub back-spares :
      (xs ys : List ℕ)
      → Distinct (xs ++ ys)
      → Seg h x n ys null last
      → (prev p stop l' : ℕ) → Seg h prev p xs stop l'
      → Seg back_nodes prev p xs stop l'
  back-spares xs [] d s prev p stop l' t = rw s.0 t
  back-spares xs (y ∷ ys) d s prev p stop l' t =
      let out : NotIn n xs = rw s.0 (Distinct-split xs y ys d).2 in
      rw (ne→==_false n null (λ e. s.1 (sym s.0 ∙ e))) (Seg-set_pre h n l prev p xs stop l' out t)

pub Seg-list_node_init :
    (h : Nodes) (x prev p : ℕ) (xs : List ℕ) (stop last : ℕ)
    → NotIn x xs
    → Seg h prev p xs stop last
    → Seg (list_node_init h x) prev p xs stop last
unfolding list_node_init
Seg-list_node_init h x = Seg-write h x (record { pre = null; next = null })

-- `list_remove` takes the node `x` out of a well-formed list, wherever it stands, and leaves a
-- well-formed list of the others in their order.
pub list_remove-IsList :
    (h : Nodes) (l : ListHead) (xs : List ℕ) (x : ℕ) (ys : List ℕ)
    → IsList h l (xs ++ x ∷ ys)
    → let (g, l') = list_remove h l x in IsList g l' (xs ++ ys)
unfolding list_remove
list_remove-IsList h l xs x ys is =
    let parts = Seg-split h null l.first xs (x ∷ ys) null l.last is.chain in
    let t = parts.3 in
    let pre = (h x).pre in
    let n = (h x).next in
    let s : Seg h null l.first xs x pre = rw (t.2, ← t.0) parts.2 in
    let d = Distinct-split xs x ys is.distinct in
    let h1 = front_nodes h l.first x pre n in
    let keep : h1 x ≡ h x = front-spares_node h l.first x pre n xs d.2 s in
    let s1 = front h l.first x pre n xs d.0 d.2 s in
    let t1 = front-spares h l.first x pre n xs ys d.4 s x n l.last t.3 in
    let h2 = back_nodes h1 l.last x pre n in
    let t2 = back h1 l.last x pre n ys d.1 d.3 t1 in
    let s2 =
      back-spares h1 l.last x pre n xs ys d.4 t1 null (front_first h l.first x pre n) n pre s1 in
    let s3 = Seg-list_node_init h2 x null (front_first h l.first x pre n) xs n pre d.2 s2 in
    let t3 = Seg-list_node_init h2 x pre n ys null (back_last h1 l.last x pre n) d.3 t2 in
    rw (keep, is.counted, length-middle xs x ys)
      (record {
        distinct = d.4;
        chain =
            Seg-append (list_node_init h2 x) null (front_first h l.first x pre n) xs n pre ys null
              (back_last h1 l.last x pre n) s3 t3;
        counted = refl;
      })

-- The head of a list is taken out: its `last` is null exactly if nothing follows.
new_last-eq :
    (h : Nodes) (last x n : ℕ) (ys : List ℕ)
    → NotIn x ys
    → Seg h x n ys null last
    → back_last h last x null n ≡ (if n == null then null else last)
new_last-eq h last x n [] out s = ground arith
new_last-eq h last x n (y ∷ ys) out s = rw (
  ne→==_false n null (λ e. s.1 (sym s.0 ∙ e)),
  ne→==_false x last (last-ne h x x n y ys null last out s),
)

-- `list_remove_first` of a well-formed list that is not empty hands back the first node and leaves
-- a well-formed list of the others.
pub list_remove_first-IsList :
    (h : Nodes) (l : ListHead) (x : ℕ) (ys : List ℕ)
    → IsList h l (x ∷ ys)
    → let (p, g, l') = list_remove_first h l in (p ≡ x) × IsList g l' ys
unfolding list_remove_first
list_remove_first-IsList h l x ys is =
    let f = l.first in
    let n = (h f).next in
    let out : NotIn f ys = rw is.chain.0 is.distinct.0 in
    let t : Seg h f n ys null l.last = rw is.chain.0 is.chain.3 in
    let back_part = back h l.last f null n ys is.distinct.1 out t in
    let kept : Seg (back_nodes h l.last f null n) null n ys null
        (if n == null then null else l.last) =
      subst (λ k. Seg (back_nodes h l.last f null n) null n ys null k)
        (new_last-eq h l.last f n ys out t) back_part in
    rw is.counted (
      is.chain.0,
      record {
        distinct = is.distinct.1;
        chain =
            Seg-list_node_init (back_nodes h l.last f null n) f null n ys null
              (if n == null then null else l.last) out kept;
        counted = refl;
      },
    )

-- On an empty list `list_remove_first` hands back null and changes nothing.
pub list_remove_first-nil :
    (h : Nodes) (l : ListHead) → IsList h l [] → list_remove_first h l ≡ (null, h, l)
unfolding list_remove_first
list_remove_first-nil h l is = rw is.counted
