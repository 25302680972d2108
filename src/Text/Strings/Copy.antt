-- ===== src/Text/Strings/Copy.antt =====
-- `kernel_strncpy`.
use os_training.Base.{
  ℕ, zero, suc, ◌+◌, ◌-◌, ◌≤◌, ◌<◌, ◌≡◌, ◌≢◌, refl, ap, ◌∙◌, pos, negsuc, false, ◌==◌, some, List,
  [], ◌∷◌, length, get_or, take, arith,
}
use os_training.Text.Strings.{kernel_strncpy, copy_loop, terminate, store_byte}

-- The memory with the bytes of `s` from `d` on.
abbrev pub written : (ℕ → ℕ) → (d : ℕ) → List ℕ → ℕ → ℕ
written mem d [] = mem
written mem d (c ∷ s) = written (store_byte mem d c) (d + 1) s

written-before : (mem : ℕ → ℕ) (d : ℕ) (s : List ℕ) (a : ℕ) → a < d → written mem d s a ≡ mem a
written-before mem d [] a l = refl
written-before mem d (c ∷ s) a l =
    ground (arith, written-before (store_byte mem d c) (d + 1) s a (omega arith))

written-at :
    (mem : ℕ → ℕ) (d : ℕ) (s : List ℕ) (a i : ℕ)
    → a ≡ d + i
    → i < length s
    → written mem d s a ≡ get_or s i 0
written-at mem d [] a i e l = absurd (omega arith)
written-at mem d (c ∷ s) a zero e l =
    ground (arith, written-before (store_byte mem d c) (d + 1) s a (omega arith))
written-at mem d (c ∷ s) a (suc i) e l =
    written-at (store_byte mem d c) (d + 1) s a i (omega arith) (omega arith)

written-after :
    (mem : ℕ → ℕ) (d : ℕ) (s : List ℕ) (a : ℕ) → d + length s ≤ a → written mem d s a ≡ mem a
written-after mem d [] a l = refl
written-after mem d (c ∷ s) a l =
    ground (arith, written-after (store_byte mem d c) (d + 1) s a (omega arith))

-- The loop on a string shorter than the size.
copy_loop-short :
    (mem : ℕ → ℕ) (d : ℕ) (s : List ℕ) (n k : ℕ)
    → n ≡ length s + suc k
    → copy_loop mem d s n ≡ (written mem d s, d + length s, pos k)
unfolding copy_loop
copy_loop-short mem d [] zero k e = absurd (omega arith)
copy_loop-short mem d [] (suc n) k e =
    let p : d ≡ d + 0 = omega arith in
    let q : n ≡ k = omega arith in ap (λ x. (mem, x, pos n)) p ∙ ap (λ x. (mem, d + 0, pos x)) q
copy_loop-short mem d (c ∷ s) zero k e = absurd (omega arith)
copy_loop-short mem d (c ∷ s) (suc n) k e =
    let more = copy_loop-short (store_byte mem d c) (d + 1) s n k (omega arith) in
    let same : d + 1 + length s ≡ d + suc (length s) = omega arith in
    more ∙ ap (λ x. (written (store_byte mem d c) (d + 1) s, x, pos k)) same

-- The loop on a longer one.
copy_loop-long :
    (mem : ℕ → ℕ) (d : ℕ) (s : List ℕ) (n : ℕ)
    → n ≤ length s
    → copy_loop mem d s n ≡ (written mem d (take n s), d + n, negsuc 0)
unfolding copy_loop
copy_loop-long mem d s zero h = ap (λ x. (mem, x, negsuc 0)) (omega arith)
copy_loop-long mem d [] (suc n) h = absurd (omega arith)
copy_loop-long mem d (c ∷ s) (suc n) h =
    let more = copy_loop-long (store_byte mem d c) (d + 1) s n (omega arith) in
    let same : d + 1 + n ≡ d + suc n = omega arith in
    more ∙ ap (λ x. (written (store_byte mem d c) (d + 1) (take n s), x, negsuc 0)) same

-- What it leaves for a string shorter than the size by `suc k`.
copies_short :
    (mem : ℕ → ℕ) (dest : ℕ) (s : List ℕ) (size k : ℕ)
    → dest ≢ 0
    → size ≡ length s + suc k
    → kernel_strncpy mem dest (some s) size ≡ terminate (written mem dest s, dest + length s, pos k)
unfolding kernel_strncpy
copies_short mem dest s size k h e =
    let some_room : (size == 0) ≡ false = ground arith in
    let there : (dest == 0) ≡ false = ground arith in
    rw (there, some_room, copy_loop-short mem dest s size k e) refl

-- For a string that is at least two bytes shorter than the size and a buffer that is not at null,
-- `kernel_strncpy` puts its bytes into the buffer and a 0 behind them, and changes no byte before
-- or after those.
pub kernel_strncpy-copies :
    (mem : ℕ → ℕ) (dest : ℕ) (s : List ℕ) (size : ℕ)
    → dest ≢ 0
    → length s + 1 < size
    → ((i : ℕ) → i < length s → kernel_strncpy mem dest (some s) size (dest + i) ≡ get_or s i 0)
      × (kernel_strncpy mem dest (some s) size (dest + length s) ≡ 0)
      × ((a : ℕ) → a < dest → kernel_strncpy mem dest (some s) size a ≡ mem a)
      × ((a : ℕ) → dest + length s < a → kernel_strncpy mem dest (some s) size a ≡ mem a)
kernel_strncpy-copies mem dest s size h room =
    let k = size - length s - 2 in
    let e = copies_short mem dest s size (suc k) h (omega arith) in
    (
      λ i l. ap (λ f. f (dest + i)) e ∙ ground (arith, written-at mem dest s (dest + i) i refl l),
      ap (λ f. f (dest + length s)) e ∙ ground arith,
      λ a l. ap (λ f. f a) e ∙ ground (arith, written-before mem dest s a l),
      λ a l. ap (λ f. f a) e ∙ ground (arith, written-after mem dest s a (omega arith)),
    )

-- A string that just fits with its 0 loses its last byte to the 0.
kernel_strncpy-cuts :
    (mem : ℕ → ℕ) (dest : ℕ) (s : List ℕ)
    → dest ≢ 0
    → kernel_strncpy mem dest (some s) (length s + 1) (dest + length s - 1) ≡ 0
kernel_strncpy-cuts mem dest s h =
    ap (λ f. f (dest + length s - 1)) (copies_short mem dest s (length s + 1) 0 h (omega arith))
    ∙ ground arith

-- For a string that is as long as the size, which is not 0, or longer, the byte behind a buffer of
-- that size, which is not at null, is 0 after `kernel_strncpy`, whatever it was.
pub kernel_strncpy-overruns :
    (mem : ℕ → ℕ) (dest : ℕ) (s : List ℕ) (size : ℕ)
    → dest ≢ 0
    → 0 < size
    → size ≤ length s
    → kernel_strncpy mem dest (some s) size (dest + size) ≡ 0
unfolding kernel_strncpy
kernel_strncpy-overruns mem dest s size h room long =
    let some_room : (size == 0) ≡ false = ground arith in
    let there : (dest == 0) ≡ false = ground arith in
    rw (there, some_room, copy_loop-long mem dest s size long) (ground arith)
