-- ===== src/Files/Table.antt =====
-- `file_alloc`, `file_inc_ref` and `file_free`: who owns an entry of the file table.
use os_training.Base.{
  ℕ, Bool-cases, inl, inr, ==_iff, ◌<◌, ◌≡◌, ◌≢◌, refl, sym, ap, ◌∙◌, ℤ, pos, inc, dec, is_zero,
  true, false, ◌==◌, if◌then◌else◌, Option, none, some, List, length, get_or, set, get_or-set,
  length-set, arith,
}
use mathlib.Core.Bool.{false≢true}
use os_training.Files.{File, zeroed, is_unused, opened, file_alloc, file_free, file_inc_ref}
use os_training.Files.Search.{Found, found, nowhere, first_index-Found}

abbrev pub entry : List File → ℕ → File
entry table i = get_or table i zeroed

-- What `file_alloc` gives.
pub data FileResult (table : List File) : Option (ℕ × List File) → Type 0 where
  -- The first entry with no references: it is cleared, has one reference, and no other entry changes.
  allotted :
      (i : ℕ) (table' : List File)
      → i < length table
      → (entry table i).ref ≡ pos 0
      → ((j : ℕ) → j < i → (entry table j).ref ≢ pos 0)
      → ((j : ℕ)
          → entry table' j ≡ (if i == j then record zeroed { ref = pos 1 } else entry table j))
      → FileResult table (some (i, table'))
  exhausted : ((j : ℕ) → j < length table → (entry table j).ref ≢ pos 0) → FileResult table none

is_zero→0 : (n : ℤ) → is_zero n ≡ true → n ≡ pos 0
is_zero→0 n h = ground arith

used : (f : File) → is_unused f ≡ false → f.ref ≢ pos 0
used f h e = false≢true (sym h ∙ ap is_zero e)

opened-FileResult :
    (table : List File) {o : Option ℕ}
    → Found is_unused zeroed table o
    → FileResult table (opened table o)
opened-FileResult table (found i lt hit before) =
    allotted i (set table i (record zeroed { ref = pos 1 })) lt (is_zero→0 (entry table i).ref hit)
      (λ j l. used (entry table j) (before j l))
      (λ j. get_or-set table i j (record zeroed { ref = pos 1 }) zeroed lt)
opened-FileResult table (nowhere miss) = exhausted (λ j l. used (entry table j) (miss j l))

-- `file_alloc` gives the first entry of the table with no references, cleared and with one
-- reference, and changes no other entry; it fails only if every entry has references.
pub file_alloc-FileResult : (table : List File) → FileResult table (file_alloc table)
unfolding file_alloc
file_alloc-FileResult table = opened-FileResult table (first_index-Found is_unused zeroed table)

abbrev pub one_less : File → File
one_less f = record f { ref = dec f.ref }

-- The entry `f` where one reference is added and taken again.
pub counted_back : (f : File) (n : ℕ) → f.ref ≡ pos n → record f { ref = dec (inc f.ref) } ≡ f
counted_back f n e = ap (λ r. record f { ref = r }) (ap (λ r. dec (inc r)) e ∙ sym e)

-- For an entry of the file table whose count of references is not negative, `file_inc_ref` and
-- then `file_free` leave every entry of the table as it was.
file_free-file_inc_ref :
    (table : List File) (i n j : ℕ)
    → i < length table
    → (entry table i).ref ≡ pos n
    → entry (file_free (file_inc_ref table i) i) j ≡ entry table j
unfolding file_free file_inc_ref
file_free-file_inc_ref table i n j lt e =
    let more : File = record (entry table i) { ref = inc (entry table i).ref } in
    let table' = set table i more in
    let here : entry table' i ≡ more = get_or-set table i i more zeroed lt ∙ ground arith in
    let some_left : is_zero (entry table' i).ref ≡ false =
      ap (λ f. is_zero f.ref) here ∙ ap (λ r. is_zero (inc r)) e in
    let less : File = record (entry table' i) { ref = dec (entry table' i).ref } in
    let back : less ≡ entry table i = ap one_less here ∙ counted_back (entry table i) n e in
    let put = get_or-set table' i j less zeroed (omega (arith, length-set table i more)) in
    elim (Bool-cases (i == j)) [
      | inl same ↦
          let whole : entry (set table' i less) j ≡ less = put ∙ rw same refl in
          rw some_left (whole ∙ back ∙ ap (entry table) ((==_iff i j).0 same))
      | inr other ↦
          let kept : entry table' j ≡ entry table j =
            get_or-set table i j more zeroed lt ∙ rw other refl in
          let whole : entry (set table' i less) j ≡ entry table' j = put ∙ rw other refl in
          rw some_left (whole ∙ kept)
    ]

-- The entries after `file_inc_ref`.
pub file_inc_ref-entry :
    (table : List File) (i j : ℕ)
    → i < length table
    → entry (file_inc_ref table i) j
      ≡ (if i == j then record (entry table i) { ref = inc (entry table i).ref } else entry table j)
unfolding file_inc_ref
file_inc_ref-entry table i j lt =
    get_or-set table i j (record (entry table i) { ref = inc (entry table i).ref }) zeroed lt

pub file_inc_ref-length : (table : List File) (i : ℕ) → length (file_inc_ref table i) ≡ length table
unfolding file_inc_ref
file_inc_ref-length table i =
    length-set table i (record (entry table i) { ref = inc (entry table i).ref })
