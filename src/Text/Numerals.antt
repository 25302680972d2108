-- ===== src/Text/Numerals.antt =====
-- The numerals that `kernel_itoa` writes, read back.
use os_training.Base.{
  ℕ, zero, suc, ◌+◌, ◌-◌, ◌*◌, ◌/◌, ◌%◌, ◌^◌, ◌<◌, ◌≤◌, ◌≡◌, refl, ap, ◌∙◌, pos, negsuc, true, ◌==◌,
  ltb, if◌then◌else◌, arith, Bool-cases, inl, inr, ==_iff, some, List, [], ◌∷◌, ◌++◌,
}
use native.Mathlib.Nat.{div-add-mod', mod-lt}
use os_training.Text.{num2ch, digit_loop, reversed, is_base, kernel_itoa}

-- The value of a digit, and of a numeral behind what is read already.
abbrev digit_value : (ch : ℕ) → ℕ
digit_value ch = if ltb ch 58 then ch - 48 else ch - 55

abbrev pub read_digits : (base value : ℕ) → List ℕ → ℕ
read_digits base value [] = value
read_digits base value (c ∷ cs) = read_digits base (value * base + digit_value c) cs

digit_value-num2ch : (d : ℕ) → d < 16 → digit_value (num2ch d) ≡ d
digit_value-num2ch d l = ground arith

read_digits-append :
    (base v : ℕ) (xs ys : List ℕ)
    → read_digits base v (xs ++ ys) ≡ read_digits base (read_digits base v xs) ys
read_digits-append base v [] ys = refl
read_digits-append base v (x ∷ xs) ys = read_digits-append base (v * base + digit_value x) xs ys

twice : (q base : ℕ) → 2 ≤ base → q * 2 ≤ q * base
twice q base l = grind arith

exponent : (k q : ℕ) → 0 < q → q < 2 ^ k → 0 < k
exponent zero q l m = absurd (omega (arith, l, m))
exponent (suc k) q l m = omega arith

-- What is left after a digit has a bit less.
smaller :
    (k num q base : ℕ)
    → num < 2 ^ k
    → 0 < q
    → 2 ≤ base
    → q * base ≤ num
    → (k' : ℕ) × (k ≡ suc k') × (q < 2 ^ k')
smaller zero num q base small l two le = absurd (omega (arith, small, l, twice q base two, le))
smaller (suc k) num q base small l two le =
    (k, refl, omega (arith, small, power k, twice q base two, le))
  where
    power : (n : ℕ) → 2 ^ suc n ≡ 2 * 2 ^ n
    power n = grind arith

-- The digits of a number below a power of two.
digit_loop-value :
    (fuel k num base : ℕ)
    → num < 2 ^ k
    → k ≤ fuel
    → 0 < fuel
    → 2 ≤ base
    → base ≤ 16
    → (cs : List ℕ) × (digit_loop fuel num base ≡ some cs)
      × (read_digits base 0 (reversed cs) ≡ num)
unfolding digit_loop
digit_loop-value zero k num base small enough more two sixteen = absurd (omega arith)
digit_loop-value (suc fuel) k num base small enough more two sixteen =
    let d = num % base in
    let some_base : 0 < base = omega arith in
    let lower : d < 16 = omega (arith, mod-lt num some_base) in
    let whole = div-add-mod' num base in
    let value = digit_value-num2ch d lower in
    elim (Bool-cases (num / base == 0)) [
      | inl last ↦
          let none_left : num / base ≡ 0 = (==_iff _ _).0 last in
          let zero_high = ap (λ q. q * base) none_left in
          (num2ch d ∷ [], rw last refl, omega (arith, value, whole, zero_high))
      | inr further ↦
          let some_left : 0 < num / base = ground (arith, further) in
          let (k', e, below) =
            smaller k num (num / base) base small some_left two (omega (arith, whole)) in
          let (cs, r, v) =
            digit_loop-value fuel k' (num / base) base below (omega (arith, e))
              (omega (arith, e, enough, exponent k' (num / base) some_left below)) two sixteen in
          (
            num2ch d ∷ cs,
            rw (further, r) refl,
            read_digits-append base 0 (reversed cs) (num2ch d ∷ [])
                ∙ ap (λ x. x * base + digit_value (num2ch d)) v
                ∙ omega (arith, value, whole),
          )
    ]

base_bounds : (base : ℕ) → is_base base ≡ true → (2 ≤ base) × (base ≤ 16)
base_bounds base e = ground (arith, e)

-- For a number of 32 bits that is not negative and the bases 2, 8, 10 and 16, `kernel_itoa` ends,
-- and reading the digits that it writes, the highest first, gives the number back.
pub kernel_itoa-reads :
    (n base : ℕ)
    → n < 2 ^ 32
    → is_base base ≡ true
    → (cs : List ℕ) × (kernel_itoa (pos n) base ≡ some cs) × (read_digits base 0 cs ≡ n)
unfolding kernel_itoa
kernel_itoa-reads n base small ok =
    let b = base_bounds base ok in
    let same : n % 2 ^ 32 ≡ n = omega arith in
    let (cs, r, v) =
      digit_loop-value 32 32 (n % 2 ^ 32) base (omega arith) (omega arith) (omega arith) b.0 b.1 in
    (reversed cs, rw (ok, r) refl, v ∙ same)

-- A negative number in base 10.
kernel_itoa-negative :
    (n : ℕ)
    → n < 2 ^ 31
    → (cs : List ℕ) × (kernel_itoa (negsuc n) 10 ≡ some (45 ∷ cs)) × (read_digits 10 0 cs ≡ n + 1)
unfolding kernel_itoa
kernel_itoa-negative n small =
    let (cs, r, v) =
      digit_loop-value 32 32 (n + 1) 10 (omega arith) (omega arith) (omega arith) (omega arith)
        (omega arith) in
    (reversed cs, rw r refl, v)
