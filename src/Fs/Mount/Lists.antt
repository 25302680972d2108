-- ===== src/Fs/Mount/Lists.antt =====
-- What the two operations at the front of one list leave of another list over the same nodes.
use os_training.Base.{ℕ, ◌≢◌, sym, ◌==◌, List, [], ◌∷◌, Bool-cases, inl, inr, arith}
use mathlib.Core.Path.{subst}
use os_training.LinkedList.{
  Nodes, ListHead, null, list_insert_first, list_remove_first, set_pre, set_next,
}
use os_training.LinkedList.Chain.{NotIn, Seg, IsList}
use os_training.LinkedList.Relink.{Seg-front_node, Seg-set_pre}
use os_training.LinkedList.Remove.{Seg-list_node_init}
use os_training.LinkedList.Frame.{Apart}

pub list_insert_first-other :
    (h : Nodes) (l m : ListHead) (node : ℕ) (xs zs : List ℕ)
    → IsList h l xs
    → Apart xs zs
    → NotIn node zs
    → IsList h m zs
    → IsList (list_insert_first h l node).0 m zs
unfolding list_insert_first
list_insert_first-other h l m node [] zs is apart out other = rw is.counted (record {
  distinct = other.distinct;
  chain = Seg-front_node h node l.first null null m.first zs null m.last out other.chain;
  counted = other.counted;
})
list_insert_first-other h l m node (x ∷ xs) zs is apart out other =
    let g : Nodes = set_pre (set_next h node l.first) node null in
    let s = Seg-front_node h node l.first null null m.first zs null m.last out other.chain in
    let first_out : NotIn l.first zs = subst (λ a. NotIn a zs) (sym is.chain.0) apart.0 in
    rw is.counted (record {
      distinct = other.distinct;
      chain = Seg-set_pre g l.first node null m.first zs null m.last first_out s;
      counted = other.counted;
    })

-- The node behind the first one.
next_out :
    (h : Nodes) (x p : ℕ) (ys zs : List ℕ) (last : ℕ)
    → Seg h x p ys null last
    → Apart ys zs
    → p ≢ null
    → NotIn p zs
next_out h x p [] zs last s apart ne = absurd (ne s.0)
next_out h x p (y ∷ ys) zs last s apart ne = subst (λ a. NotIn a zs) (sym s.0) apart.0

pub list_remove_first-other :
    (h : Nodes) (l m : ListHead) (x : ℕ) (ys zs : List ℕ)
    → IsList h l (x ∷ ys)
    → Apart (x ∷ ys) zs
    → IsList h m zs
    → IsList (list_remove_first h l).1 m zs
unfolding list_remove_first
list_remove_first-other h l m x ys zs is apart other =
    let f = l.first in
    let n = (h f).next in
    let first_out : NotIn f zs = subst (λ a. NotIn a zs) (sym is.chain.0) apart.0 in
    let after : Seg h x n ys null l.last =
      subst (λ a. Seg h x (h a).next ys null l.last) (sym is.chain.0) is.chain.3 in
    elim (Bool-cases (n == null)) [
      | inl last ↦
          rw (is.counted, last)
            (record {
              distinct = other.distinct;
              chain = Seg-list_node_init h f null m.first zs null m.last first_out other.chain;
              counted = other.counted;
            })
      | inr more ↦
          let n_out = next_out h x n ys zs l.last after apart.1 (λ e. ground (arith, more, e)) in
          let s = Seg-set_pre h n null null m.first zs null m.last n_out other.chain in
          rw (is.counted, more)
            (record {
              distinct = other.distinct;
              chain =
                  Seg-list_node_init (set_pre h n null) f null m.first zs null m.last first_out s;
              counted = other.counted;
            })
    ]
