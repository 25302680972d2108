-- ===== src/Text/Strings.antt =====
-- source/kernel/tools/klib.c: the functions on strings. A string that is read is the list of its
-- bytes without the 0 at its end, and `none` is the null pointer; a buffer that is written stands
-- in a memory of bytes at its address.
pub mod Copy
pub mod Compare
pub mod FileName
use os_training.Base.{
  ℕ, zero, suc, ◌+◌, ◌-◌, ℤ, pos, negsuc, is_zero, Bool, true, false, ◌||◌, ◌==◌, if◌then◌else◌,
  Option, none, some, List, [], ◌∷◌, length,
}
use os_training.LinkedList.{null}

-- `*p = c`
abbrev pub store_byte : (ℕ → ℕ) → (p c : ℕ) → ℕ → ℕ
store_byte mem p c a = if a == p then c else mem a

-- The loop of `kernel_strncpy`: the memory, `d` and `size` at its end. `size` goes down before
-- each test.
unfoldable pub copy_loop : (ℕ → ℕ) → (d : ℕ) → List ℕ → (size : ℕ) → (ℕ → ℕ) × ℕ × ℤ
copy_loop mem d s zero = (mem, d, negsuc 0)
copy_loop mem d [] (suc n) = (mem, d, pos n)
copy_loop mem d (c ∷ s) (suc n) = copy_loop (store_byte mem d c) (d + 1) s n

-- The 0 that is written at the end.
abbrev pub terminate : (ℕ → ℕ) × ℕ × ℤ → ℕ → ℕ
terminate (mem, d, size) = if is_zero size then store_byte mem (d - 1) 0 else store_byte mem d 0

-- The size is not negative.
unfoldable pub kernel_strncpy : (ℕ → ℕ) → (dest : ℕ) → Option (List ℕ) → (size : ℕ) → ℕ → ℕ
kernel_strncpy mem dest none size = mem
kernel_strncpy mem dest (some src) size =
    if dest == null || size == 0 then mem else terminate (copy_loop mem dest src size)

-- The string at `p`: the bytes up to the first 0, `n` at most.
abbrev pub string_at : (ℕ → ℕ) → (p n : ℕ) → List ℕ
string_at mem p zero = []
string_at mem p (suc n) =
    let rest = string_at mem (p + 1) n in if mem p == 0 then [] else mem p ∷ rest

-- The `n` bytes at `p`.
abbrev pub bytes_from : (ℕ → ℕ) → (p n : ℕ) → List ℕ
bytes_from mem p zero = []
bytes_from mem p (suc n) = mem p ∷ bytes_from mem (p + 1) n

-- The loop of `kernel_strcpy`, with `n` bytes of the buffer to go before its first 0.
unfoldable pub overwrite_loop : (ℕ → ℕ) → (d : ℕ) → List ℕ → (n : ℕ) → ℕ → ℕ
overwrite_loop mem d [] n = store_byte mem d 0
overwrite_loop mem d (c ∷ s) zero = store_byte mem d 0
overwrite_loop mem d (c ∷ s) (suc n) = overwrite_loop (store_byte mem d c) (d + 1) s n

-- `held` is the length of the string that the buffer holds.
unfoldable pub kernel_strcpy : (ℕ → ℕ) → (dest : ℕ) → Option (List ℕ) → (held : ℕ) → ℕ → ℕ
kernel_strcpy mem dest none held = mem
kernel_strcpy mem dest (some src) held =
    if dest == null then mem else overwrite_loop mem dest src held

-- The loop and the last test of `kernel_strncmp`.
unfoldable pub same_start : List ℕ → List ℕ → (size : ℕ) → Bool
same_start [] t n = true
same_start (c ∷ s) [] n = true
same_start (c ∷ s) (d ∷ t) zero = c == d
same_start (c ∷ s) (d ∷ t) (suc n) = let rest = same_start s t n in if c == d then rest else false

-- The size is not negative.
unfoldable pub kernel_strncmp : Option (List ℕ) → Option (List ℕ) → (size : ℕ) → ℤ
kernel_strncmp none s2 size = negsuc 0
kernel_strncmp (some s) none size = negsuc 0
kernel_strncmp (some s) (some t) size = if same_start s t size then pos 0 else pos 1

unfoldable pub kernel_strlen : Option (List ℕ) → ℕ
kernel_strlen none = 0
kernel_strlen (some s) = length s

abbrev pub is_separator : ℕ → Bool
is_separator c = c == 92 || c == 47

-- The loop back from the end of the string, over its bytes `before` the place, the nearest first;
-- `after` is the string behind the place.
unfoldable pub search_back : (before after : List ℕ) → List ℕ
search_back [] after = after
search_back (c ∷ before) after =
    let rest = search_back before (c ∷ after) in if is_separator c then after else rest

-- The bytes before the end, the nearest first.
unfoldable pub to_end : (name back : List ℕ) → List ℕ
to_end [] back = back
to_end (c ∷ name) back = to_end name (c ∷ back)

-- The string that the result points to.
unfoldable pub get_file_name : List ℕ → List ℕ
get_file_name name = search_back (to_end name []) []

-- An array of pointers up to its null, or the null pointer.
unfoldable pub strings_count : Option (List ℕ) → ℕ
strings_count none = 0
strings_count (some ps) = length ps
