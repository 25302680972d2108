-- ===== src/Memory/Tables/Bits.antt =====
-- The words that hold a page's address and flags.
use os_training.Base.{
  bits_or, ℕ, zero, suc, ◌+◌, ◌*◌, ◌/◌, ◌%◌, ◌^◌, ◌<◌, ◌≡◌, refl, sym, ap, ◌∙◌, true, ◌||◌, ◌==◌,
  arith, Bool-cases, inl, inr,
}

bits_or_half : (n a b : ℕ) → bits_or (suc n) a b / 2 ≡ bits_or n (a / 2) (b / 2)
unfolding bits_or
bits_or_half n a b = elim (Bool-cases (a % 2 == 1 || b % 2 == 1)) [
  | inl e ↦ rw e (omega arith)
  | inr e ↦ rw e (omega arith)
]

-- The lowest bit.
pub bits_or_odd : (n a b : ℕ) → b % 2 ≡ 1 → bits_or (suc n) a b % 2 ≡ 1
unfolding bits_or
bits_or_odd n a b h =
    let e : (a % 2 == 1 || b % 2 == 1) ≡ true = ground (arith, h) in rw e (omega arith)

bits_or_zero : (n a : ℕ) → a < 2 ^ n → bits_or n a 0 ≡ a
unfolding bits_or
bits_or_zero zero a l = omega (arith, l)
bits_or_zero (suc n) a l =
    let small : a / 2 < 2 ^ n = omega (arith, l, power n) in
    let r = bits_or_zero n (a / 2) small in
    elim (Bool-cases (a % 2 == 1)) [
      | inl e ↦ rw e (ground (arith, e, r))
      | inr e ↦ rw e (ground (arith, e, r))
    ]
  where
    power : (n : ℕ) → 2 ^ suc n ≡ 2 * 2 ^ n
    power n = grind arith

halves : (k x : ℕ) → ℕ
halves zero x = x
halves (suc k) x = halves k (x / 2)

halves-bits_or :
    (k n m a b : ℕ) → m ≡ k + n → halves k (bits_or m a b) ≡ bits_or n (halves k a) (halves k b)
unfolding halves
halves-bits_or zero n m a b e = let same : m ≡ n = omega (arith, e) in ap (λ x. bits_or x a b) same
halves-bits_or (suc k) n zero a b e = absurd (omega (arith, e))
halves-bits_or (suc k) n (suc m) a b e =
    ap (halves k) (bits_or_half m a b) ∙ halves-bits_or k n m (a / 2) (b / 2) (omega (arith, e))

halves_page : (x : ℕ) → halves 12 x ≡ x / 4096
unfolding halves
halves_page x = omega arith

-- The flags do not touch the address.
pub bits_or_page : (a b : ℕ) → b < 4096 → a < 2 ^ 32 → bits_or 32 a b / 4096 ≡ a / 4096
bits_or_page a b small word =
    let none_left : b / 4096 ≡ 0 = omega arith in
    sym (halves_page (bits_or 32 a b))
    ∙ halves-bits_or 12 20 32 a b refl
    ∙ ap (λ x. bits_or 20 x (halves 12 b)) (halves_page a)
    ∙ ap (bits_or 20 (a / 4096)) (halves_page b ∙ none_left)
    ∙ bits_or_zero 20 (a / 4096) (omega arith)

bits_or-lt : (n a b : ℕ) → bits_or n a b < 2 ^ n
unfolding bits_or
bits_or-lt zero a b = omega arith
bits_or-lt (suc n) a b =
    let r = bits_or-lt n (a / 2) (b / 2) in
    elim (Bool-cases (a % 2 == 1 || b % 2 == 1)) [
      | inl e ↦ rw e (omega (arith, r, power n))
      | inr e ↦ rw e (omega (arith, r, power n))
    ]
  where
    power : (n : ℕ) → 2 ^ suc n ≡ 2 * 2 ^ n
    power n = grind arith

pub bits_or-word : (a b : ℕ) → bits_or 32 a b < 2 ^ 32
bits_or-word a b = bits_or-lt 32 a b
