-- ===== src/Paths.antt =====
-- The functions on paths of source/kernel/fs/fs.c. A path is the list of its bytes without the 0
-- at its end.
pub mod Prefix
pub mod Child
pub mod Numbers
use os_training.Base.{
  ℕ, ◌+◌, ◌-◌, ◌*◌, ◌%◌, ◌^◌, Bool, true, false, ◌==◌, ltb, if◌then◌else◌, Option, none, some, List,
  [], ◌∷◌,
}

abbrev pub slash : ℕ
slash = 47

unfoldable pub path_begin_with : (path str : List ℕ) → Bool
path_begin_with path [] = true
path_begin_with [] (d ∷ str) = false
path_begin_with (c ∷ path) (d ∷ str) =
    let rest = path_begin_with path str in if c == d then rest else false

-- `while (*c && (*c++ == '/'))`: the byte that ends the loop is passed too.
unfoldable pub skip_slashes : List ℕ → List ℕ
skip_slashes [] = []
skip_slashes (c ∷ s) = let rest = skip_slashes s in if c == slash then rest else s

-- `while (*c && (*c++ != '/'))`
unfoldable pub skip_name : List ℕ → List ℕ
skip_name [] = []
skip_name (c ∷ s) = let rest = skip_name s in if c == slash then s else rest

-- `*c ? c : 0`
abbrev pub unless_empty : List ℕ → Option (List ℕ)
unless_empty [] = none
unless_empty (c ∷ s) = some (c ∷ s)

unfoldable pub path_next_child : List ℕ → Option (List ℕ)
path_next_child path = unless_empty (skip_name (skip_slashes path))

-- A `char` as an `int`, which is given by its bits.
abbrev pub signed_char : (c : ℕ) → ℕ
signed_char c = if ltb c 128 then c else c + (2 ^ 32 - 256)

-- `n = n * 10 + *c - '0'`
abbrev pub next_number : (n c : ℕ) → ℕ
next_number n c = (n * 10 + signed_char c + (2 ^ 32 - 48)) % 2 ^ 32

unfoldable pub number_loop : (n : ℕ) → List ℕ → ℕ
number_loop n [] = n
number_loop n (c ∷ s) = let rest = number_loop (next_number n c) s in if c == slash then n else rest

-- The bits of the number that `path_to_num` gives; it never fails.
unfoldable pub path_to_num : List ℕ → ℕ
path_to_num path = number_loop 0 path
