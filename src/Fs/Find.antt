-- ===== src/Fs/Find.antt =====
-- The search for the file system of a path.
use os_training.Base.{
  ℕ, zero, suc, ◌+◌, ◌<◌, ◌≡◌, refl, sym, ap, ◌∙◌, true, false, ◌==◌, Bool-cases, inl, inr, some,
  List, [], ◌∷◌, length, arith,
}
use mathlib.Core.Bool.{false≢true}
use os_training.LinkedList.{null}
use os_training.LinkedList.Chain.{Seg, IsList, ne→==_false}
use os_training.Paths.{path_begin_with}
use os_training.Fs.{MountedFs, Kernel, find_mount, mount_of, mount_fuel}

-- The first of the mounted file systems whose mount point the name begins with, or null.
pub data Chosen {S : Type 0} (tbl : ℕ → MountedFs S) (name : List ℕ) : List ℕ → ℕ → Type 0 where
  here :
      (m : ℕ) (ms : List ℕ)
      → path_begin_with name (tbl m).mount_point ≡ true
      → Chosen tbl name (m ∷ ms) m
  there :
      (m : ℕ) (ms : List ℕ) (r : ℕ)
      → path_begin_with name (tbl m).mount_point ≡ false
      → Chosen tbl name ms r
      → Chosen tbl name (m ∷ ms) r
  nowhere : (r : ℕ) → r ≡ null → Chosen tbl name [] r

-- Only one is chosen.
pub Chosen-unique :
    {S : Type 0} {tbl : ℕ → MountedFs S} {name xs ys : List ℕ} {a b : ℕ}
    → Chosen tbl name xs a
    → Chosen tbl name ys b
    → xs ≡ ys
    → a ≡ b
Chosen-unique (here m ms hit) (here m' ms' hit') e = cc
Chosen-unique {tbl = tbl} {name} (here m ms hit) (there m' ms' r miss c) e =
    let same : m ≡ m' = cc in
    absurd
      (false≢true (sym miss ∙ sym (ap (λ a. path_begin_with name (tbl a).mount_point) same) ∙ hit))
Chosen-unique (here m ms hit) (nowhere r' e') e = absurd (ground arith)
Chosen-unique {tbl = tbl} {name} (there m ms r miss c) (here m' ms' hit) e =
    let same : m ≡ m' = cc in
    absurd (false≢true (sym miss ∙ ap (λ a. path_begin_with name (tbl a).mount_point) same ∙ hit))
Chosen-unique (there m ms r miss c) (there m' ms' r' miss' c') e = Chosen-unique c c' (cc)
Chosen-unique (there m ms r miss c) (nowhere r' e') e = absurd (ground arith)
Chosen-unique (nowhere r e') (here m' ms' hit') e = absurd (ground arith)
Chosen-unique (nowhere r e') (there m' ms' r' miss' c') e = absurd (ground arith)
Chosen-unique (nowhere r e') (nowhere r' e'') e = e' ∙ sym e''

module _ {S : Type 0} (k : Kernel S) (name : List ℕ) where
  find_mount-Chosen :
      (fuel prev p : ℕ) (ms : List ℕ) (last : ℕ)
      → Seg k.fs_nodes prev p ms null last
      → length ms < fuel
      → (r : ℕ) × (find_mount fuel k name p ≡ some r) × Chosen k.fs_tbl name ms r
  unfolding find_mount
  find_mount-Chosen zero prev p ms last s l = absurd (omega arith)
  find_mount-Chosen (suc fuel) prev p [] last s l = (null, rw s.0 refl, nowhere null refl)
  find_mount-Chosen (suc fuel) prev p (m ∷ ms) last s l =
      let there_is : (m == null) ≡ false = ne→==_false m null s.1 in
      let (r, e, c) = find_mount-Chosen fuel m (k.fs_nodes m).next ms last s.3 (omega arith) in
      elim (Bool-cases (path_begin_with name (k.fs_tbl m).mount_point)) [
        | inl hit ↦ (m, rw (s.0, there_is, hit) refl, here m ms hit)
        | inr miss ↦ (r, rw (s.0, there_is, miss) e, there m ms r miss c)
      ]

  pub mount_of-Chosen :
      (ms : List ℕ)
      → IsList k.fs_nodes k.mounted_list ms
      → (r : ℕ) × (mount_of k name ≡ some r) × Chosen k.fs_tbl name ms r
  mount_of-Chosen ms is =
      let (r, e, c) =
        find_mount-Chosen (length ms + 1) null k.mounted_list.first ms k.mounted_list.last is.chain
          (omega arith) in
      (r, ap (λ n. find_mount (mount_fuel n) k name k.mounted_list.first) is.counted ∙ e, c)
