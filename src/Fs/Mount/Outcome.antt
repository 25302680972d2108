-- ===== src/Fs/Mount/Outcome.antt =====
-- What `mount` gives, and the two lists of file systems under it.
use os_training.Base.{
  ℕ, zero, suc, ◌+◌, ◌<◌, ◌≡◌, ◌≢◌, ◌⊎◌, inl, inr, refl, ap, ◌∙◌, is_zero, is_neg, Bool, true,
  false, ◌==◌, if◌then◌else◌, Bool-cases, Option, none, some, List, [], ◌∷◌, ◌++◌, length, arith,
}
use os_training.LinkedList.{
  Nodes, ListHead, null, list_node_init, list_insert_last, list_remove_first,
}
use os_training.LinkedList.Chain.{NotIn, Seg, IsList, ne→==_false}
use os_training.LinkedList.Insert.{list_insert_first-IsList, list_insert_last-IsList}
use os_training.LinkedList.Remove.{
  Seg-list_node_init, list_remove_first-IsList, list_remove_first-nil,
}
use os_training.LinkedList.Frame.{Apart, Apart-sym, Apart-append_intro, list_insert_last-other}
use os_training.Text.Strings.{kernel_strncmp}
use os_training.Fs.{FsOps, Kinds, MountedFs, Kernel, fs_mountp_size, mount_fuel}
use os_training.Fs.Mount.{
  point_copied, get_fs_op, is_mounted, put_fs, release_fs, mount_with, mount_op, mount_unless,
  mount,
}
use os_training.Fs.Mount.Lists.{list_insert_first-other, list_remove_first-other}

-- The mounted file systems are `ms` and the free ones `free`, in this order, and none is both.
pub record IsMounts {S : Type 0} (k : Kernel S) (ms free : List ℕ) : Type 0 where
  pub mounted : IsList k.fs_nodes k.mounted_list ms
  pub unused : IsList k.fs_nodes k.free_list free
  pub apart : Apart free ms

-- `kernel_strncmp` takes the mount point of one of the file systems for this one.
abbrev pub any_same : {S : Type 0} → (ℕ → MountedFs S) → (point : List ℕ) → List ℕ → Bool
any_same tbl point [] = false
any_same tbl point (m ∷ ms) =
    if is_zero (kernel_strncmp (some (tbl m).mount_point) (some point) fs_mountp_size)
    then true
    else any_same tbl point ms

pub data MountResult {S : Type 0} (k : Kernel S) (kinds : Kinds S) (type : ℕ) (point : List ℕ)
    (major minor : ℕ) (ms free : List ℕ) : Option (ℕ × Kernel S) → Type 0 where
  already :
      any_same k.fs_tbl point ms ≡ true
      → MountResult k kinds type point major minor ms free (some (null, k))
  none_free :
      any_same k.fs_tbl point ms ≡ false
      → free ≡ []
      → MountResult k kinds type point major minor ms free (some (null, k))
  -- The first free file system is taken and given back.
  failed :
      (x : ℕ) (k' : Kernel S)
      → any_same k.fs_tbl point ms ≡ false
      → (get_fs_op kinds type ≡ none)
        ⊎ ((op : FsOps S) × (get_fs_op kinds type ≡ some op)
            × (is_neg (op.do_mount x major minor k.inner).0 ≡ true))
      → IsMounts k' ms free
      → MountResult k kinds type point major minor ms free (some (null, k'))
  -- The first free file system is the last of the mounted now.
  mounted_last :
      (x : ℕ) (rest : List ℕ) (op : FsOps S) (k' : Kernel S)
      → any_same k.fs_tbl point ms ≡ false
      → free ≡ x ∷ rest
      → get_fs_op kinds type ≡ some op
      → is_neg (op.do_mount x major minor k.inner).0 ≡ false
      → IsMounts k' (ms ++ (x ∷ [])) rest
      → k'.fs_tbl ≡ put_fs k.fs_tbl x (record { mount_point = point_copied point; op = op })
      → k'.inner ≡ (op.do_mount x major minor k.inner).1
      → MountResult k kinds type point major minor ms free (some (x, k'))

module _ {S : Type 0} (k : Kernel S) (point : List ℕ) where
  is_mounted-any :
      (fuel prev p : ℕ) (ms : List ℕ) (last : ℕ)
      → Seg k.fs_nodes prev p ms null last
      → length ms < fuel
      → is_mounted fuel k point p ≡ some (any_same k.fs_tbl point ms)
  unfolding is_mounted
  is_mounted-any zero prev p ms last s l = absurd (omega arith)
  is_mounted-any (suc fuel) prev p [] last s l = rw s.0 refl
  is_mounted-any (suc fuel) prev p (m ∷ ms) last s l =
      let there_is : (m == null) ≡ false = ne→==_false m null s.1 in
      let more = is_mounted-any fuel m (k.fs_nodes m).next ms last s.3 (omega arith) in
      let c =
        is_zero (kernel_strncmp (some (k.fs_tbl m).mount_point) (some point) fs_mountp_size) in
      elim (Bool-cases c) [
        | inl hit ↦ rw (s.0, there_is, hit) refl
        | inr miss ↦ rw (s.0, there_is, miss) more
      ]

module _ {S : Type 0} (k : Kernel S) (x : ℕ) (ms rest : List ℕ) (ne : x ≢ null) (out : NotIn x rest)
    (far : NotIn x ms) (is : IsMounts k ms rest) where
  release_fs-IsMounts : IsMounts (release_fs k x).1 ms (x ∷ rest)
  release_fs-IsMounts = record {
    mounted =
        list_insert_first-other k.fs_nodes k.free_list k.mounted_list x rest ms is.unused is.apart
          far is.mounted;
    unused = list_insert_first-IsList k.fs_nodes k.free_list x rest ne out is.unused;
    apart = (far, is.apart);
  }

  insert_last-IsMounts :
      let (h, l) = list_insert_last k.fs_nodes k.mounted_list x in
      IsMounts (record k { fs_nodes = h; mounted_list = l }) (ms ++ (x ∷ [])) rest
  insert_last-IsMounts = record {
    mounted = list_insert_last-IsList k.fs_nodes k.mounted_list x ms ne far is.mounted;
    unused =
        list_insert_last-other k.fs_nodes k.mounted_list k.free_list x ms rest is.mounted
          (Apart-sym rest ms is.apart) out is.unused;
    apart =
        Apart-sym (ms ++ (x ∷ [])) rest
          (Apart-append_intro ms (x ∷ []) rest (Apart-sym rest ms is.apart) (out, tt));
  }

  -- The node of a file system that is in no list is cleared.
  clear-IsMounts : IsMounts (record k { fs_nodes = list_node_init k.fs_nodes x }) ms rest
  clear-IsMounts = record {
    mounted = record {
      distinct = is.mounted.distinct;
      chain =
          Seg-list_node_init k.fs_nodes x null k.mounted_list.first ms null k.mounted_list.last far
            is.mounted.chain;
      counted = is.mounted.counted;
    };
    unused = record {
      distinct = is.unused.distinct;
      chain =
          Seg-list_node_init k.fs_nodes x null k.free_list.first rest null k.free_list.last out
            is.unused.chain;
      counted = is.unused.counted;
    };
    apart = is.apart;
  }

module _ {S : Type 0} (k : Kernel S) (kinds : Kinds S) (type : ℕ) (point : List ℕ) (major minor : ℕ)
    (ms : List ℕ) where
  mount_op-MountResult :
      (x : ℕ) (rest : List ℕ) (h : Nodes) (l : ListHead) (o : Option (FsOps S))
      → x ≢ null
      → NotIn x rest
      → NotIn x ms
      → any_same k.fs_tbl point ms ≡ false
      → IsMounts (record k { fs_nodes = h; free_list = l }) ms rest
      → get_fs_op kinds type ≡ o
      → MountResult k kinds type point major minor ms
          (x ∷ rest)
          (some (mount_op (record k { fs_nodes = h; free_list = l }) x o point major minor))
  unfolding mount_op mount_with
  mount_op-MountResult x rest h l none ne out far new is kind =
      failed x _ new (inl kind)
        (release_fs-IsMounts (record k { fs_nodes = h; free_list = l }) x ms rest ne out far is)
  mount_op-MountResult x rest h l (some op) ne out far new is kind =
      let k1 : Kernel S = record k { fs_nodes = h; free_list = l } in
      let cleared = clear-IsMounts k1 x ms rest ne out far is in
      let m : MountedFs S = record { mount_point = point_copied point; op = op } in
      let k2 : Kernel S = record k1 {
        fs_nodes = list_node_init h x;
        fs_tbl = put_fs k.fs_tbl x m;
        inner = (op.do_mount x major minor k.inner).1;
      } in
      let ready : IsMounts k2 ms rest = record {
        mounted = cleared.mounted;
        unused = cleared.unused;
        apart = cleared.apart;
      } in
      elim (Bool-cases (is_neg (op.do_mount x major minor k.inner).0)) [
        | inl bad ↦ rw bad (
            failed x _ new (inr (op, kind, bad))
              (release_fs-IsMounts k2 x ms rest ne out far ready))
        | inr good ↦ rw good (
            mounted_last x rest op _ new refl kind good
              (insert_last-IsMounts k2 x ms rest ne out far ready) refl refl)
      ]

  mount_unless-MountResult :
      (free : List ℕ) (b : Bool)
      → any_same k.fs_tbl point ms ≡ b
      → IsMounts k ms free
      → MountResult k kinds type point major minor ms free
          (mount_unless k kinds type point major minor (some b))
  unfolding mount_unless
  mount_unless-MountResult free true e is = already e
  mount_unless-MountResult [] false e is =
      rw (list_remove_first-nil k.fs_nodes k.free_list is.unused) (none_free e refl)
  mount_unless-MountResult (x ∷ rest) false e is =
      let (p, h, l) = list_remove_first k.fs_nodes k.free_list in
      let (same, left) = list_remove_first-IsList k.fs_nodes k.free_list x rest is.unused in
      let other =
        list_remove_first-other k.fs_nodes k.free_list k.mounted_list x rest ms is.unused is.apart
          is.mounted in
      let taken : IsMounts (record k { fs_nodes = h; free_list = l }) ms rest = record {
        mounted = other;
        unused = left;
        apart = is.apart.1;
      } in
      let there_is : (x == null) ≡ false = ne→==_false x null is.unused.chain.1 in
      rw (same, there_is)
        (mount_op-MountResult x rest h l (get_fs_op kinds type) is.unused.chain.1
          is.unused.distinct.0 is.apart.0 e taken refl)

  -- With the mounted file systems `ms` and the free ones `free`, no one in both, `mount`
  -- implements its step on the two sequences. It returns null, with both as they are, when a mount
  -- point compares equal, when no file system is free, when the type is not known, or when the
  -- operation of the file system fails; else the first free one, with its mount point and its
  -- operations, becomes the last of the mounted, and no other entry of the table changes.
  pub mount-MountResult :
      (free : List ℕ)
      → IsMounts k ms free
      → MountResult k kinds type point major minor ms free (mount k kinds type point major minor)
  unfolding mount
  mount-MountResult free is =
      let found : is_mounted (mount_fuel k.mounted_list.count) k point k.mounted_list.first
          ≡ some (any_same k.fs_tbl point ms) =
        ap (λ n. is_mounted (mount_fuel n) k point k.mounted_list.first) is.mounted.counted
        ∙ is_mounted-any k point (length ms + 1) null k.mounted_list.first ms k.mounted_list.last
            is.mounted.chain (omega arith) in
      rw found (mount_unless-MountResult free (any_same k.fs_tbl point ms) refl is)
