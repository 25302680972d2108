-- ===== src/Paths/Child.antt =====
-- `path_next_child`.
use os_training.Base.{
  ℕ, zero, suc, ◌≡◌, refl, ap, ◌∙◌, false, ◌==◌, none, List, [], ◌∷◌, ◌++◌, replicate,
}
use os_training.Paths.{slash, skip_slashes, skip_name, unless_empty, path_next_child}

-- The string holds no slash.
abbrev pub IsName : List ℕ → Type 0
IsName [] = Unit {0}
IsName (c ∷ s) = ((c == slash) ≡ false) × IsName s

skip_slashes-replicate :
    (k c : ℕ) (s : List ℕ) → (c == slash) ≡ false → skip_slashes (replicate k slash ++ (c ∷ s)) ≡ s
unfolding skip_slashes
skip_slashes-replicate zero c s h = rw h refl
skip_slashes-replicate (suc k) c s h = skip_slashes-replicate k c s h

skip_name-slash : (name rest : List ℕ) → IsName name → skip_name (name ++ (slash ∷ rest)) ≡ rest
unfolding skip_name
skip_name-slash [] rest h = refl
skip_name-slash (c ∷ name) rest (p, h) = rw p (skip_name-slash name rest h)

skip_name-all : (name : List ℕ) → IsName name → skip_name name ≡ []
unfolding skip_name
skip_name-all [] h = refl
skip_name-all (c ∷ name) (p, h) = rw p (skip_name-all name h)

-- Of a path that begins with any number of slashes and a name, `path_next_child` gives what follows
-- the slash behind the name, or null if nothing follows.
pub path_next_child-rest :
    (k c : ℕ) (name rest : List ℕ)
    → IsName (c ∷ name)
    → (path_next_child (replicate k slash ++ (c ∷ (name ++ (slash ∷ rest)))) ≡ unless_empty rest)
      × (path_next_child (replicate k slash ++ (c ∷ name)) ≡ none)
unfolding path_next_child
path_next_child-rest k c name rest (p, h) = (
  ap (λ s. unless_empty (skip_name s)) (skip_slashes-replicate k c (name ++ (slash ∷ rest)) p)
      ∙ ap unless_empty (skip_name-slash name rest h),
  ap (λ s. unless_empty (skip_name s)) (skip_slashes-replicate k c name p)
      ∙ ap unless_empty (skip_name-all name h),
)
