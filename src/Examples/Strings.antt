-- ===== src/Examples/Strings.antt =====
-- The string "AB" in memory, and the number 42 in a path.
use os_training.Base.{ℕ, ◌+◌, ◌<◌, ◌≡◌, ◌↔◌, pos, some, List, [], ◌∷◌, ◌++◌, length, get_or, arith}
use os_training.Text.{kernel_itoa}
use os_training.Text.Strings.{kernel_strncpy, kernel_strncmp}
use os_training.Text.Strings.Copy.{kernel_strncpy-copies, kernel_strncpy-overruns}
use os_training.Text.Strings.Compare.{Agree, kernel_strncmp-Agree}
use os_training.Paths.{path_to_num, slash}
use os_training.Paths.Numbers.{path_to_num-kernel_itoa}

abbrev memory : ℕ → ℕ
memory a = a + 1

abbrev word : List ℕ
word = 65 ∷ 66 ∷ []

kernel_strncpy-copies_example :
    ((i : ℕ) → i < 2 → kernel_strncpy memory 100 (some word) 8 (100 + i) ≡ get_or word i 0)
    × (kernel_strncpy memory 100 (some word) 8 (100 + 2) ≡ 0)
    × ((a : ℕ) → a < 100 → kernel_strncpy memory 100 (some word) 8 a ≡ memory a)
    × ((a : ℕ) → 100 + 2 < a → kernel_strncpy memory 100 (some word) 8 a ≡ memory a)
kernel_strncpy-copies_example =
    kernel_strncpy-copies memory 100 word 8 (λ e. omega (arith, e)) (omega arith)

kernel_strncpy-overruns_example : kernel_strncpy memory 100 (some word) 2 (100 + 2) ≡ 0
kernel_strncpy-overruns_example =
    kernel_strncpy-overruns memory 100 word 2 (λ e. omega (arith, e)) (omega arith) (omega arith)

kernel_strncmp-Agree_example :
    (kernel_strncmp (some word) (some (65 ∷ 67 ∷ [])) 1 ≡ pos 0) ↔ Agree word (65 ∷ 67 ∷ []) 1
kernel_strncmp-Agree_example = kernel_strncmp-Agree word (65 ∷ 67 ∷ []) 1

path_to_num-kernel_itoa_example :
    (cs : List ℕ) × (kernel_itoa (pos 42) 10 ≡ some cs)
    × (path_to_num cs ≡ 42)
    × ((rest : List ℕ) → path_to_num (cs ++ (slash ∷ rest)) ≡ 42)
    × (0 < length cs)
path_to_num-kernel_itoa_example = path_to_num-kernel_itoa 42 (omega arith)
