-- ===== src/LinkedList/Insert.antt =====
-- `list_insert_first` and `list_insert_last` add one node at their end of the sequence.
use os_training.Base.{
  ℕ, suc, ◌≡◌, refl, ◌≢◌, pos, List, [], ◌∷◌, ◌++◌, arith, length, length-append, ap, ◌∙◌, sym,
}
use os_training.LinkedList.{
  Nodes, ListHead, null, set_next, set_pre, list_insert_first, list_insert_last,
}
use os_training.LinkedList.Chain.{NotIn, Distinct, IsList, Seg-append, last-ne, NotIn-append_intro}
use os_training.LinkedList.Relink.{
  set_next-last, set_pre-first, front_node, back_node, Seg-front_node, Seg-back_node, set_next-ne,
  set_pre-ne,
}

Distinct-snoc : (xs : List ℕ) (a : ℕ) → Distinct xs → NotIn a xs → Distinct (xs ++ a ∷ [])
Distinct-snoc [] a d n = (tt, tt)
Distinct-snoc (x ∷ xs) a d n =
    (NotIn-append_intro x xs (a ∷ []) d.0 (λ e. n.0 (sym e), tt), Distinct-snoc xs a d.1 n.1)

length-snoc : (xs : List ℕ) (a : ℕ) → pos (suc (length xs)) ≡ pos (length (xs ++ a ∷ []))
length-snoc xs a = ap pos (omega (arith, length-append xs (a ∷ [])))

module _ (h : Nodes) (l : ListHead) (node : ℕ) where
  -- `list_insert_first` puts a node that is not null and not in the well-formed list in front, and
  -- leaves a well-formed list.
  pub list_insert_first-IsList :
      (xs : List ℕ)
      → node ≢ null
      → NotIn node xs
      → IsList h l xs
      → let (g, l') = list_insert_first h l node in IsList g l' (node ∷ xs)
  unfolding list_insert_first
  list_insert_first-IsList [] ne out is =
      let new = front_node h node l.first null in
      rw is.counted (record {
        distinct = (tt, tt);
        chain = (refl, ne, ap (λ n. n.pre) new, (ap (λ n. n.next) new ∙ is.chain.0, refl));
        counted = refl;
      })
  list_insert_first-IsList (x ∷ xs) ne out is =
      let g : Nodes = set_pre (set_next h node l.first) node null in
      let new = front_node h node l.first null in
      let s = Seg-front_node h node l.first null null l.first (x ∷ xs) null l.last out is.chain in
      let t = set_pre-first g null l.first x xs null l.last node is.distinct s in
      let off : node ≢ l.first = λ e. out.0 (e ∙ is.chain.0) in
      let far : set_pre g l.first node node ≡ g node = set_pre-ne g l.first node node off in
      let nx = ap (λ n. n.next) (far ∙ new) in
      rw is.counted (record {
        distinct = (out, is.distinct);
        chain = (refl, ne, ap (λ n. n.pre) (far ∙ new), rw nx t);
        counted = refl;
      })

  -- `list_insert_last` puts a node that is not null and not in the well-formed list behind the
  -- others, and leaves a well-formed list.
  pub list_insert_last-IsList :
      (xs : List ℕ)
      → node ≢ null
      → NotIn node xs
      → IsList h l xs
      → let (g, l') = list_insert_last h l node in IsList g l' (xs ++ node ∷ [])
  unfolding list_insert_last
  list_insert_last-IsList [] ne out is =
      let new = back_node h node null l.last in
      rw is.counted (record {
        distinct = (tt, tt);
        chain = (refl, ne, ap (λ n. n.pre) new ∙ is.chain.1, (ap (λ n. n.next) new, refl));
        counted = refl;
      })
  list_insert_last-IsList (x ∷ xs) ne out is =
      let g : Nodes = set_next (set_pre h node l.last) node null in
      let new = back_node h node null l.last in
      let s = Seg-back_node h node null l.last null l.first (x ∷ xs) null l.last out is.chain in
      let t = set_next-last g null l.first x xs null l.last node is.distinct s in
      let off : node ≢ l.last = last-ne h node null l.first x xs null l.last out is.chain in
      let far : set_next g l.last node node ≡ g node = set_next-ne g l.last node node off in
      let new' = far ∙ new in
      let u =
        Seg-append (set_next g l.last node) null l.first (x ∷ xs) node l.last (node ∷ []) null node
          t (refl, ne, ap (λ n. n.pre) new', (ap (λ n. n.next) new', refl)) in
      rw is.counted (record {
        distinct = Distinct-snoc (x ∷ xs) node is.distinct out;
        chain = u;
        counted = length-snoc (x ∷ xs) node;
      })
