-- ===== src/Fs/Close/References.antt =====
-- The counts of references under `sys_close` and `sys_dup`.
use os_training.Base.{
  ℕ, ◌<◌, ◌≡◌, refl, sym, ap, ◌∙◌, is_zero, true, false, ◌==◌, ==_iff, Bool-cases, inl, inr,
  if◌then◌else◌, List, length, set, get_or-set, length-set, arith,
}
use os_training.Files.{File, zeroed, file_free}
use os_training.Files.Table.{one_less, entry}
use os_training.Fs.{Kernel, address, op_of}
use os_training.Fs.Open.Outcome.{put_over}
use os_training.Fs.Close.{is_one, close_last, drop_reference}

-- What `file_free` makes of a file.
abbrev pub freed : File → File
freed f = if is_zero f.ref then f else one_less f

file_free-entry :
    (table : List File) (i j : ℕ)
    → i < length table
    → entry (file_free table i) j ≡ (if i == j then freed (entry table i) else entry table j)
unfolding file_free
file_free-entry table i j lt = elim (Bool-cases (is_zero (entry table i).ref)) [
  | inl none_left ↦ rw none_left (elim (Bool-cases (i == j)) [
    | inl same ↦ rw same (ap (entry table) (sym ((==_iff i j).0 same)))
    | inr other ↦ rw other refl
  ])
  | inr some_left ↦ rw some_left (get_or-set table i j (one_less (entry table i)) zeroed lt)
]

-- The call of `close`, which is given the file with no reference left.
abbrev pub close_call : {S : Type 0} → Kernel S → (i : ℕ) → File × S
close_call k i =
    let f = one_less (entry k.file_table i) in (op_of k (entry k.file_table i).fs).close f k.inner

module _ {S : Type 0} (k : Kernel S) (i : ℕ) (lt : i < length k.file_table) where
  pub drop_reference-shared :
      is_one (entry k.file_table i).ref ≡ false
      → drop_reference k (address i)
        ≡ record k { file_table = set k.file_table i (one_less (entry k.file_table i)) }
  unfolding drop_reference
  drop_reference-shared more = rw more refl

  pub drop_reference-last :
      is_one (entry k.file_table i).ref ≡ true
      → drop_reference k (address i) ≡ record k {
        file_table =
            file_free
              (set (set k.file_table i (one_less (entry k.file_table i))) i (close_call k i).0)
              i;
        inner = (close_call k i).1;
      }
  unfolding drop_reference close_last
  drop_reference-last last = rw last refl

  -- The entries when it is not the last reference, and when it is.
  pub shared-entry :
      (j : ℕ)
      → entry (set k.file_table i (one_less (entry k.file_table i))) j
        ≡ (if i == j then one_less (entry k.file_table i) else entry k.file_table j)
  shared-entry j = get_or-set k.file_table i j (one_less (entry k.file_table i)) zeroed lt

  pub last-entry :
      (less f : File) (j : ℕ)
      → entry (file_free (set (set k.file_table i less) i f) i) j
        ≡ (if i == j then freed f else entry k.file_table j)
  last-entry less f j =
      let once = set k.file_table i less in
      let inside : i < length once = omega (arith, length-set k.file_table i less, lt) in
      let twice = set once i f in
      let inside' : i < length twice = omega (arith, length-set once i f, inside) in
      let put = λ (a : ℕ).
        put_over once k.file_table i a f less inside (get_or-set k.file_table i a less zeroed lt) in
      let own : entry twice i ≡ f = put i ∙ ground arith in
      file_free-entry twice i j inside' ∙ elim (Bool-cases (i == j)) [
        | inl same ↦ rw same (ap freed own)
        | inr other ↦ rw other (put j ∙ rw other refl)
      ]
