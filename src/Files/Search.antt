-- ===== src/Files/Search.antt =====
-- The search that `file_alloc` and `task_alloc_fd` share.
use os_training.Base.{
  ℕ, zero, suc, ◌≤◌, ◌<◌, ◌≡◌, refl, ap, Bool, true, false, Bool-cases, inl, inr, Option, none,
  some, List, [], ◌∷◌, length, get_or, take, arith,
}
use os_training.Files.{first_index, next_index}

-- The first entry that passes the test, or none if no entry does.
pub data Found {ℓ} {A : Type ℓ} (test : A → Bool) (d : A) (xs : List A) : Option ℕ → Type ℓ where
  found :
      (i : ℕ)
      → i < length xs
      → test (get_or xs i d) ≡ true
      → ((j : ℕ) → j < i → test (get_or xs j d) ≡ false)
      → Found test d xs (some i)
  nowhere : ((j : ℕ) → j < length xs → test (get_or xs j d) ≡ false) → Found test d xs none

cons-Found {ℓ} :
    {A : Type ℓ} (test : A → Bool) (d x : A) (xs : List A) {o : Option ℕ}
    → test x ≡ false
    → Found test d xs o
    → Found test d (x ∷ xs) (next_index o)
cons-Found test d x xs h (found i lt hit before) = found (suc i) (omega arith) hit earlier
  where
    earlier : (j : ℕ) → j < suc i → test (get_or (x ∷ xs) j d) ≡ false
    earlier zero l = h
    earlier (suc j) l = before j (omega arith)
cons-Found test d x xs h (nowhere miss) = nowhere all
  where
    all : (j : ℕ) → j < length (x ∷ xs) → test (get_or (x ∷ xs) j d) ≡ false
    all zero l = h
    all (suc j) l = miss j (omega arith)

pub first_index-Found {ℓ} :
    {A : Type ℓ} (test : A → Bool) (d : A) (xs : List A) → Found test d xs (first_index test xs)
unfolding first_index
first_index-Found test d [] = nowhere (λ j l. absurd (omega (arith, l)))
first_index-Found test d (x ∷ xs) = elim (Bool-cases (test x)) [
  | inl hit ↦ rw hit (found 0 (omega arith) hit (λ j l. absurd (omega (arith, l))))
  | inr miss ↦ rw miss (cons-Found test d x xs miss (first_index-Found test d xs))
]

pub get_or-take : (n : ℕ) (xs : List ℕ) (i : ℕ) → i < n → get_or (take n xs) i 0 ≡ get_or xs i 0
get_or-take zero xs i h = absurd (omega arith)
get_or-take (suc n) [] i h = refl
get_or-take (suc n) (x ∷ xs) zero h = refl
get_or-take (suc n) (x ∷ xs) (suc i) h = get_or-take n xs i (omega arith)

pub length-take : (n : ℕ) (xs : List ℕ) → n ≤ length xs → length (take n xs) ≡ n
length-take zero xs h = refl
length-take (suc n) [] h = absurd (omega arith)
length-take (suc n) (x ∷ xs) h = ap suc (length-take n xs (omega arith))
