-- ===== src/Fs/Mount/Init.antt =====
-- `mount_list_init`.
use os_training.Base.{ℕ, zero, suc, ◌<◌, refl, List, [], ◌∷◌, arith}
use os_training.LinkedList.{Nodes, ListHead, list_init, list_insert_first}
use os_training.LinkedList.Chain.{NotIn, IsList}
use os_training.LinkedList.Insert.{list_insert_first-IsList}
use os_training.LinkedList.Frame.{Apart-nil}
use os_training.Fs.{Kernel, address}
use os_training.Fs.Mount.{free_loop, mount_list_init}
use os_training.Fs.Mount.Outcome.{IsMounts}

-- The free list after `n` rounds from `i` on.
abbrev freed : (n i : ℕ) → List ℕ → List ℕ
freed zero i xs = xs
freed (suc n) i xs = freed n (suc i) (address i ∷ xs)

-- Every node of the list is below `b`.
abbrev Below : (b : ℕ) → List ℕ → Type 0
Below b [] = Unit {0}
Below b (x ∷ xs) = (x < b) × Below b xs

Below-NotIn : (b : ℕ) (xs : List ℕ) → Below b xs → NotIn b xs
Below-NotIn b [] h = tt
Below-NotIn b (x ∷ xs) (l, h) = (λ e. omega (arith, l, e), Below-NotIn b xs h)

Below-suc : (b : ℕ) (xs : List ℕ) → Below b xs → Below (suc b) xs
Below-suc b [] h = tt
Below-suc b (x ∷ xs) (l, h) = (omega arith, Below-suc b xs h)

free_loop-IsList :
    (n i : ℕ) (h : Nodes) (l : ListHead) (xs : List ℕ)
    → IsList h l xs
    → Below (suc i) xs
    → let (h', l') = free_loop n i h l in IsList h' l' (freed n i xs)
unfolding free_loop
free_loop-IsList zero i h l xs is below = is
free_loop-IsList (suc n) i h l xs is below =
    let (h', l') = list_insert_first h l (suc i) in
    free_loop-IsList n (suc i) h' l' (suc i ∷ xs)
      (list_insert_first-IsList h l (suc i) xs (omega arith) (Below-NotIn (suc i) xs below) is)
      (omega arith, Below-suc (suc i) xs below)

empty-IsList : (h : Nodes) → IsList h list_init []
empty-IsList h = record { distinct = tt; chain = (refl, refl); counted = refl }

-- After `mount_list_init` nothing is mounted, and the ten file systems are free, the last one first.
mount_list_init-IsMounts :
    {S : Type 0}
    → (k : Kernel S)
    → let (h, l, m) = mount_list_init k.fs_nodes in
      IsMounts
        (record k { fs_nodes = h; free_list = l; mounted_list = m })
        []
        (10 ∷ 9 ∷ 8 ∷ 7 ∷ 6 ∷ 5 ∷ 4 ∷ 3 ∷ 2 ∷ 1 ∷ [])
unfolding mount_list_init
mount_list_init-IsMounts k = record {
  mounted = empty-IsList (mount_list_init k.fs_nodes).0;
  unused = free_loop-IsList 10 0 k.fs_nodes list_init [] (empty-IsList k.fs_nodes) tt;
  apart = Apart-nil (10 ∷ 9 ∷ 8 ∷ 7 ∷ 6 ∷ 5 ∷ 4 ∷ 3 ∷ 2 ∷ 1 ∷ []);
}
