-- ===== src/LinkedList.antt =====
-- source/kernel/tools/list.c and the inline functions of source/kernel/include/tools/list.h: the
-- intrusive doubly linked list on which every queue of the kernel stands.
-- A node is an address; 0 is the null pointer. The nodes of one kind (`run_node`, `wait_node`,
-- `all_node` of a task, `node` of a file system) stand in a store of their own, indexed by the
-- structure that holds them, so `list_node_parent` is the identity.
-- Each function returns the store and the list that it leaves. A write through a null pointer
-- would be a write to node 0.
pub mod Chain
pub mod Relink
pub mod Insert
pub mod Remove
pub mod Frame
use os_training.Base.{ℕ, ℤ, pos, inc, dec, is_zero, Bool, ◌==◌, if◌then◌else◌}

abbrev pub null : ℕ
null = 0

-- `list_node_t`
pub record ListNode : Type 0 where
  pub pre : ℕ
  pub next : ℕ

abbrev pub Nodes : Type 0
Nodes = ℕ → ListNode

-- `list_t`; the count is an `int`, and `list_remove` takes it below 0 on an empty list.
pub record ListHead : Type 0 where
  pub first : ℕ
  pub last : ℕ
  pub count : ℤ

-- The memory after a write of one node.
unfoldable pub write : Nodes → ℕ → ListNode → Nodes
write h p n a = if a == p then n else h a

-- `p->next = q`
unfoldable pub set_next : Nodes → ℕ → ℕ → Nodes
unfolding write
set_next h p q = write h p (record { pre = (h p).pre; next = q })

-- `p->pre = q`
unfoldable pub set_pre : Nodes → ℕ → ℕ → Nodes
unfolding write
set_pre h p q = write h p (record { pre = q; next = (h p).next })

unfoldable pub list_node_init : Nodes → ℕ → Nodes
unfolding write
list_node_init h p = write h p (record { pre = null; next = null })

abbrev pub list_node_pre : Nodes → ℕ → ℕ
list_node_pre h p = (h p).pre

abbrev pub list_node_next : Nodes → ℕ → ℕ
list_node_next h p = (h p).next

abbrev pub list_init : ListHead
list_init = record { first = null; last = null; count = pos 0 }

abbrev pub list_is_empty : ListHead → Bool
list_is_empty l = is_zero l.count

abbrev pub list_count : ListHead → ℤ
list_count l = l.count

abbrev pub list_first : ListHead → ℕ
list_first l = l.first

abbrev pub list_last : ListHead → ℕ
list_last l = l.last

unfoldable pub list_insert_first : Nodes → ListHead → ℕ → Nodes × ListHead
list_insert_first h l node =
    let h1 = set_pre (set_next h node l.first) node null in
    if list_is_empty l
    then (h1, record { first = node; last = node; count = inc l.count })
    else (set_pre h1 l.first node, record { first = node; last = l.last; count = inc l.count })

unfoldable pub list_insert_last : Nodes → ListHead → ℕ → Nodes × ListHead
list_insert_last h l node =
    let h1 = set_next (set_pre h node l.last) node null in
    if list_is_empty l
    then (h1, record { first = node; last = node; count = inc l.count })
    else (set_next h1 l.last node, record { first = l.first; last = node; count = inc l.count })

-- The node that is handed back is null if the list is empty.
unfoldable pub list_remove_first : Nodes → ListHead → ℕ × Nodes × ListHead
list_remove_first h l =
    let node = l.first in
    let next = (h node).next in
    let last = if next == null then null else l.last in
    let h1 = if next == null then h else set_pre h next null in
    if list_is_empty l
    then (null, h, l)
    else (node, list_node_init h1 node, record { first = next; last = last; count = dec l.count })

-- `list_remove` does not look whether the node is in the list.
unfoldable pub list_remove : Nodes → ListHead → ℕ → Nodes × ListHead
list_remove h l node =
    let first = if node == l.first then (h node).next else l.first in
    let last = if node == l.last then (h node).pre else l.last in
    let h1 = if (h node).pre == null then h else set_next h (h node).pre (h node).next in
    let h2 = if (h1 node).next == null then h1 else set_pre h1 (h1 node).next (h1 node).pre in
    (list_node_init h2 node, record { first = first; last = last; count = dec l.count })
