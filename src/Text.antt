-- ===== src/Text.antt =====
-- source/kernel/tools/klib.c: `kernel_itoa`. A string is the list of its bytes without the 0 at
-- its end.
pub mod Numerals
pub mod Strings
use os_training.Base.{
  ℕ, zero, suc, ◌+◌, ◌-◌, ◌*◌, ◌/◌, ◌%◌, ◌^◌, ℤ, pos, negsuc, Bool, true, false, ◌||◌, ◌==◌, ltb,
  if◌then◌else◌, Option, none, some, List, [], ◌∷◌, ◌++◌,
}

-- `num2ch[d + 15]`; the table has the same character for `d` and for `-d`.
abbrev pub num2ch : (d : ℕ) → ℕ
num2ch d = if ltb d 10 then d + 48 else d + 55

abbrev pub push_digit : (ch : ℕ) → Option (List ℕ) → Option (List ℕ)
push_digit ch none = none
push_digit ch (some cs) = some (ch ∷ cs)

-- The loop that writes the digits, the lowest first, on fuel; `none` is out of fuel. A negative
-- number, whose remainders are not positive, is given by its absolute value.
unfoldable pub digit_loop : (fuel num base : ℕ) → Option (List ℕ)
digit_loop zero num base = none
digit_loop (suc fuel) num base =
    let rest = digit_loop fuel (num / base) base in
    let ch = num2ch (num % base) in if num / base == 0 then some (ch ∷ []) else push_digit ch rest

-- The loop that puts the digits the other way round.
abbrev pub reversed : List ℕ → List ℕ
reversed [] = []
reversed (c ∷ cs) = reversed cs ++ (c ∷ [])

abbrev pub written_as : (sign : List ℕ) → Option (List ℕ) → Option (List ℕ)
written_as sign none = none
written_as sign (some cs) = some (sign ++ reversed cs)

abbrev pub is_base : (base : ℕ) → Bool
is_base base = base == 2 || base == 8 || base == 10 || base == 16

-- `num` as a `uint32_t`.
abbrev pub unsigned : ℤ → ℕ
unsigned (pos n) = n % 2 ^ 32
unsigned (negsuc n) = 2 ^ 32 - 1 - n % 2 ^ 32

-- The digits of a number of 32 bits need no more than 32 rounds.
unfoldable pub kernel_itoa : (num : ℤ) → (base : ℕ) → Option (List ℕ)
kernel_itoa (pos n) base =
    let digits = written_as [] (digit_loop 32 (unsigned (pos n)) base) in
    if is_base base then digits else some []
kernel_itoa (negsuc n) base =
    let negative = written_as (45 ∷ []) (digit_loop 32 (n + 1) base) in
    let digits = written_as [] (digit_loop 32 (unsigned (negsuc n)) base) in
    if is_base base then (if base == 10 then negative else digits) else some []
