-- ===== src/Examples/Lists.antt =====
-- A list of the nodes 5, 7 and 9, and a second list with the node 4 over the same store.
use os_training.Base.{ℕ, ◌==◌, refl, pos, List, [], ◌∷◌, if◌then◌else◌, arith}
use os_training.LinkedList.{Nodes, ListHead, ListNode, list_remove}
use os_training.LinkedList.Chain.{IsList, NotIn}
use os_training.LinkedList.Remove.{list_remove-IsList}
use os_training.LinkedList.Frame.{Apart}

abbrev node : ℕ → ℕ → ListNode
node p n = record { pre = p; next = n }

abbrev nodes : Nodes
nodes a =
    if a == 5 then node 0 7 else if a == 7 then node 5 9 else if a == 9 then node 7 0 else node 0 0

abbrev queue : ListHead
queue = record { first = 5; last = 9; count = pos 3 }

abbrev other_queue : ListHead
other_queue = record { first = 4; last = 4; count = pos 1 }

abbrev three : List ℕ
three = 5 ∷ 7 ∷ 9 ∷ []

queue-IsList : IsList nodes queue three
queue-IsList = record {
  distinct = (
    (λ e. omega (arith, e), (λ e. omega (arith, e), tt)),
    ((λ e. omega (arith, e), tt), (tt, tt)),
  );
  chain = (
    refl,
    λ e. omega (arith, e),
    refl,
    (refl, λ e. omega (arith, e), refl, (refl, λ e. omega (arith, e), refl, (refl, refl))),
  );
  counted = refl;
}

other_queue-IsList : IsList nodes other_queue (4 ∷ [])
other_queue-IsList = record {
  distinct = (tt, tt);
  chain = (refl, λ e. omega (arith, e), refl, (refl, refl));
  counted = refl;
}

queues-Apart : Apart three (4 ∷ [])
queues-Apart =
    ((λ e. omega (arith, e), tt), ((λ e. omega (arith, e), tt), ((λ e. omega (arith, e), tt), tt)))

eight-NotIn : NotIn 8 three
eight-NotIn = (λ e. omega (arith, e), (λ e. omega (arith, e), (λ e. omega (arith, e), tt)))

list_remove-IsList_example : let (g, l) = list_remove nodes queue 7 in IsList g l (5 ∷ 9 ∷ [])
list_remove-IsList_example = list_remove-IsList nodes queue (5 ∷ []) 7 (9 ∷ []) queue-IsList
