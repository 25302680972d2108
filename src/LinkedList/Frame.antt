-- ===== src/LinkedList/Frame.antt =====
-- Two lists over one store, as the ready and the sleep queue are: the second one under a change
-- of the first.
use os_training.Base.{ℕ, ◌≡◌, List, [], ◌∷◌, ◌++◌, sym}
use os_training.LinkedList.{Nodes, ListHead, null, set_next, set_pre, list_insert_last, list_remove}
use os_training.LinkedList.Chain.{NotIn, Distinct, Seg, IsList, Seg-split, NotIn-append_intro}
use os_training.LinkedList.Relink.{Seg-back_node, Seg-set_next}
use os_training.LinkedList.Remove.{
  Distinct-split, last-NotIn, front_nodes, front-spares, front-spares_node, back_nodes, back-spares,
  Seg-list_node_init,
}

-- No node of `xs` is in `zs`.
abbrev pub Apart : List ℕ → List ℕ → Type 0
Apart [] zs = Unit
Apart (x ∷ xs) zs = NotIn x zs × Apart xs zs

pub Apart-nil : (xs : List ℕ) → Apart xs []
Apart-nil [] = tt
Apart-nil (x ∷ xs) = (tt, Apart-nil xs)

Apart-cons : (z : ℕ) (xs zs : List ℕ) → NotIn z xs → Apart xs zs → Apart xs (z ∷ zs)
Apart-cons z [] zs n a = tt
Apart-cons z (x ∷ xs) zs n a = ((λ e. n.0 (sym e), a.0), Apart-cons z xs zs n.1 a.1)

pub Apart-sym : (xs zs : List ℕ) → Apart xs zs → Apart zs xs
Apart-sym [] zs a = Apart-nil zs
Apart-sym (x ∷ xs) zs a = Apart-cons x zs xs a.0 (Apart-sym xs zs a.1)

pub Apart-append : (xs ys zs : List ℕ) → Apart (xs ++ ys) zs → Apart xs zs × Apart ys zs
Apart-append [] ys zs a = (tt, a)
Apart-append (x ∷ xs) ys zs a = let r = Apart-append xs ys zs a.1 in ((a.0, r.0), r.1)

pub Apart-append_intro : (xs ys zs : List ℕ) → Apart xs zs → Apart ys zs → Apart (xs ++ ys) zs
Apart-append_intro [] ys zs a b = b
Apart-append_intro (x ∷ xs) ys zs a b = (a.0, Apart-append_intro xs ys zs a.1 b)

Distinct-append : (xs zs : List ℕ) → Distinct xs → Distinct zs → Apart xs zs → Distinct (xs ++ zs)
Distinct-append [] zs d e a = e
Distinct-append (x ∷ xs) zs d e a =
    (NotIn-append_intro x xs zs d.0 a.0, Distinct-append xs zs d.1 e a.1)

-- `list_insert_last` on one well-formed list leaves another well-formed list over the same store
-- alone, if the two have no node in common and the new node is not in the other list.
pub list_insert_last-other :
    (h : Nodes) (l m : ListHead) (node : ℕ) (xs zs : List ℕ)
    → IsList h l xs
    → Apart xs zs
    → NotIn node zs
    → IsList h m zs
    → IsList (list_insert_last h l node).0 m zs
unfolding list_insert_last
list_insert_last-other h l m node [] zs is apart out other = rw is.counted (record {
  distinct = other.distinct;
  chain = Seg-back_node h node null l.last null m.first zs null m.last out other.chain;
  counted = other.counted;
})
list_insert_last-other h l m node (x ∷ xs) zs is apart out other =
    let d = Distinct-append (x ∷ xs) zs is.distinct other.distinct apart in
    let s = Seg-back_node h node null l.last null m.first zs null m.last out other.chain in
    let g : Nodes = (set_next (set_pre h node l.last) node null) in
    rw is.counted (record {
      distinct = other.distinct;
      chain =
          Seg-set_next g l.last node null m.first zs null m.last
            (last-NotIn h null l.first x xs null l.last zs d is.chain) s;
      counted = other.counted;
    })

-- `list_remove` on one well-formed list leaves another well-formed list over the same store alone,
-- if the two have no node in common.
pub list_remove-other :
    (h : Nodes) (l m : ListHead) (xs : List ℕ) (x : ℕ) (ys zs : List ℕ)
    → IsList h l (xs ++ x ∷ ys)
    → Apart (xs ++ x ∷ ys) zs
    → IsList h m zs
    → IsList (list_remove h l x).0 m zs
unfolding list_remove
list_remove-other h l m xs x ys zs is apart other =
    let parts = Seg-split h null l.first xs (x ∷ ys) null l.last is.chain in
    let t = parts.3 in
    let pre = (h x).pre in
    let n = (h x).next in
    let s : Seg h null l.first xs x pre = rw (t.2, ← t.0) parts.2 in
    let d = Distinct-split xs x ys is.distinct in
    let a = Apart-append xs (x ∷ ys) zs apart in
    let keep : front_nodes h l.first x pre n x ≡ h x =
      front-spares_node h l.first x pre n xs d.2 s in
    let h1 = front_nodes h l.first x pre n in
    let t1 = front-spares h l.first x pre n xs ys d.4 s x n l.last t.3 in
    let dx = Distinct-append xs zs d.0 other.distinct a.0 in
    let o1 = front-spares h l.first x pre n xs zs dx s null m.first m.last other.chain in
    let dy = Distinct-append zs ys other.distinct d.1 (Apart-sym ys zs a.1.1) in
    let o2 = back-spares h1 l.last x pre n zs ys dy t1 null m.first null m.last o1 in
    let h2 = back_nodes h1 l.last x pre n in
    let o3 = Seg-list_node_init h2 x null m.first zs null m.last a.1.0 o2 in
    rw keep (record { distinct = other.distinct; chain = o3; counted = other.counted })
