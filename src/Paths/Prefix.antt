-- ===== src/Paths/Prefix.antt =====
-- `path_begin_with`.
use os_training.Base.{
  ℕ, ◌≡◌, ◌↔◌, refl, ap, ◌∙◌, true, Bool-cases, inl, inr, ◌==◌, ==_iff, List, [], ◌∷◌, ◌++◌, arith,
}
use os_training.Paths.{path_begin_with}

begins-split :
    (path str : List ℕ) → path_begin_with path str ≡ true → (rest : List ℕ) × (path ≡ str ++ rest)
unfolding path_begin_with
begins-split path [] h = (path, refl)
begins-split [] (d ∷ str) h = cc
begins-split (c ∷ path) (d ∷ str) h = elim (Bool-cases (c == d)) [
  | inl same ↦
      let (rest, e) = begins-split path str (ground arith) in
      (rest, ground (arith, e, (==_iff c d).0 same))
  | inr other ↦ absurd (ground arith)
]

begins-append : (str rest : List ℕ) → path_begin_with (str ++ rest) str ≡ true
unfolding path_begin_with
begins-append [] rest = refl
begins-append (c ∷ str) rest = ground (arith, begins-append str rest)

-- `path_begin_with` tells exactly whether the path is the string with something behind it.
pub path_begin_with-append :
    (path str : List ℕ)
    → (path_begin_with path str ≡ true) ↔ ((rest : List ℕ) × (path ≡ str ++ rest))
path_begin_with-append path str =
    (begins-split path str, λ h. ap (λ p. path_begin_with p str) h.1 ∙ begins-append str h.0)
