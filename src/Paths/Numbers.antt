-- ===== src/Paths/Numbers.antt =====
-- `path_to_num` on the numerals that `kernel_itoa` writes.
use os_training.Base.{
  ℕ, zero, suc, ◌+◌, ◌*◌, ◌/◌, ◌%◌, ◌^◌, ◌<◌, ◌≡◌, refl, sym, ap, ◌∙◌, pos, false, ◌==◌, Bool-cases,
  inl, inr, ==_iff, some, List, [], ◌∷◌, ◌++◌, length, length-append, arith,
}
use mathlib.Core.List.{append_assoc, append-nil}
use os_training.Text.{num2ch, digit_loop, reversed, kernel_itoa}
use os_training.Paths.{slash, path_to_num, number_loop, next_number}

-- One more digit of a number below 2 ^ 31.
next_number-digit : (q d : ℕ) → d < 10 → q * 10 + d < 2 ^ 31 → next_number q (num2ch d) ≡ q * 10 + d
next_number-digit q d small fits = ground arith

number_loop-digit :
    (q d : ℕ) (rest : List ℕ)
    → d < 10
    → q * 10 + d < 2 ^ 31
    → number_loop q (num2ch d ∷ rest) ≡ number_loop (q * 10 + d) rest
unfolding number_loop
number_loop-digit q d rest small fits =
    let digit : (num2ch d == slash) ≡ false = ground arith in
    rw digit (ap (λ n. number_loop n rest) (next_number-digit q d small fits))

-- The digits of a number, read before whatever follows.
digit_loop-number :
    (fuel num : ℕ)
    → num < 2 ^ fuel
    → 0 < fuel
    → num < 2 ^ 31
    → (cs : List ℕ) × (digit_loop fuel num 10 ≡ some cs)
      × ((rest : List ℕ) → number_loop 0 (reversed cs ++ rest) ≡ number_loop num rest)
      × (0 < length (reversed cs))
unfolding digit_loop
digit_loop-number zero num small more fits = absurd (omega arith)
digit_loop-number (suc fuel) num small more fits =
    let d = num % 10 in
    elim (Bool-cases (num / 10 == 0)) [
      | inl last ↦
          let none_left = (==_iff (num / 10) 0).0 last in
          (
            num2ch d ∷ [],
            rw last refl,
            λ rest.
                number_loop-digit 0 d rest (omega arith) (omega arith)
                ∙ ap (λ n. number_loop n rest) (omega (arith, none_left)),
            omega arith,
          )
      | inr further ↦
          let some_left : 0 < num / 10 = ground (arith, further) in
          let below : num / 10 < 2 ^ fuel = omega (arith, half fuel) in
          let rounds : 0 < fuel = positive fuel (num / 10) some_left below in
          let (cs, r, v, _) = digit_loop-number fuel (num / 10) below rounds (omega arith) in
          (
            num2ch d ∷ cs,
            rw (further, r) refl,
            λ rest.
                ap (number_loop 0) (append_assoc (reversed cs) (num2ch d ∷ []) rest)
                ∙ v (num2ch d ∷ rest)
                ∙ number_loop-digit (num / 10) d rest (omega arith) (omega arith)
                ∙ ap (λ n. number_loop n rest) (omega arith),
            omega (arith, length-append (reversed cs) (num2ch d ∷ [])),
          )
    ]
  where
    half : (n : ℕ) → 2 ^ suc n ≡ 2 * 2 ^ n
    half n = grind arith

    positive : (n q : ℕ) → 0 < q → q < 2 ^ n → 0 < n
    positive zero q l m = absurd (omega (arith, l, m))
    positive (suc n) q l m = omega arith

-- For a number below 2 ^ 31, `kernel_itoa` writes at least one digit in base 10, and `path_to_num`
-- reads the number back from the digits, also where a slash and anything else follows.
pub path_to_num-kernel_itoa :
    (n : ℕ)
    → n < 2 ^ 31
    → (cs : List ℕ) × (kernel_itoa (pos n) 10 ≡ some cs)
      × (path_to_num cs ≡ n)
      × ((rest : List ℕ) → path_to_num (cs ++ (slash ∷ rest)) ≡ n)
      × (0 < length cs)
unfolding kernel_itoa path_to_num number_loop
path_to_num-kernel_itoa n small =
    let same : n % 2 ^ 32 ≡ n = omega arith in
    let (cs, r, v, more) =
      digit_loop-number 32 (n % 2 ^ 32) (omega arith) (omega arith) (omega arith) in
    (
      reversed cs,
      rw r refl,
      ap (number_loop 0) (sym (append-nil (reversed cs))) ∙ v [] ∙ same,
      λ rest. v (slash ∷ rest) ∙ same,
      more,
    )
