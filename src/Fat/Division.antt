-- ===== src/Fat/Division.antt =====
-- Positions in a file by clusters of `c` bytes.
use os_training.Base.{
  ℕ, zero, suc, ◌+◌, ◌*◌, ◌/◌, ◌%◌, ◌<◌, ◌≡◌, refl, sym, ap, ◌∙◌, arith, ◌∷◌, ◌++◌,
}
use native.Mathlib.Nat.{mod-add-mod, mod-eq_of_lt, div-add-mod', div-eq_of_lt, add-div_right}
use os_training.Fat.{Sector}
use os_training.Fat.Dir.{bytes_at}

-- Inside a cluster.
pub mod_within : (p i c : ℕ) → p % c + i < c → (p + i) % c ≡ p % c + i
mod_within p i c l = sym (mod-add-mod p c i) ∙ mod-eq_of_lt l

div_mul_add : (q r c : ℕ) → r < c → (q * c + r) / c ≡ q
div_mul_add zero r c l = let e : 0 * c + r ≡ r = omega arith in ap (λ n. n / c) e ∙ div-eq_of_lt l
div_mul_add (suc q) r c l =
    let e : suc q * c + r ≡ q * c + r + c = grind arith in
    let step : (q * c + r + c) / c ≡ (q * c + r) / c + 1 =
      add-div_right (q * c + r) (omega arith) in
    ap (λ n. n / c) e ∙ step ∙ omega (arith, div_mul_add q r c l)

pub div_within : (p i c : ℕ) → p % c + i < c → (p + i) / c ≡ p / c
div_within p i c l =
    let e : p + i ≡ p / c * c + (p % c + i) = omega (arith, div-add-mod' p c) in
    ap (λ n. n / c) e ∙ div_mul_add (p / c) (p % c + i) c l

-- To the end of a cluster.
pub div_next : (p i c : ℕ) → 0 < c → p % c + i ≡ c → (p + i) / c ≡ suc (p / c)
div_next p i c more l =
    let all : suc (p / c) * c ≡ p / c * c + c = grind arith in
    let e : p + i ≡ suc (p / c) * c + 0 = omega (arith, all, div-add-mod' p c) in
    ap (λ n. n / c) e ∙ div_mul_add (suc (p / c)) 0 c more

pub bytes_at-ext :
    (n : ℕ) (b b' : Sector) (o p : ℕ)
    → ((i : ℕ) → i < n → b (o + i) ≡ b' (p + i))
    → bytes_at n b o ≡ bytes_at n b' p
bytes_at-ext zero b b' o p e = refl
bytes_at-ext (suc n) b b' o p e =
    let first : b o ≡ b' p = here b b' o p (e 0 (omega arith)) in
    let rest =
      bytes_at-ext n b b' (o + 1) (p + 1) (λ i l. later b b' o p i (e (suc i) (omega arith))) in
    ap (λ x. x ∷ bytes_at n b (o + 1)) first ∙ ap (λ xs. b' p ∷ xs) rest
  where
    here : (b b' : Sector) (o p : ℕ) → b (o + 0) ≡ b' (p + 0) → b o ≡ b' p
    here b b' o p e =
        let x : o + 0 ≡ o = omega arith in
        let y : p + 0 ≡ p = omega arith in ap b (sym x) ∙ e ∙ ap b' y

    later :
        (b b' : Sector) (o p i : ℕ)
        → b (o + suc i) ≡ b' (p + suc i)
        → b (o + 1 + i) ≡ b' (p + 1 + i)
    later b b' o p i e =
        let x : o + 1 + i ≡ o + suc i = omega arith in
        let y : p + suc i ≡ p + 1 + i = omega arith in ap b x ∙ e ∙ ap b' y

pub bytes_at-add :
    (m n : ℕ) (b : Sector) (p : ℕ) → bytes_at (m + n) b p ≡ bytes_at m b p ++ bytes_at n b (p + m)
bytes_at-add zero n b p =
    let x : 0 + n ≡ n = omega arith in
    let y : p ≡ p + 0 = omega arith in ap (λ k. bytes_at k b p) x ∙ ap (bytes_at n b) y
bytes_at-add (suc m) n b p =
    let x : suc m + n ≡ suc (m + n) = omega arith in
    let y : p + 1 + m ≡ p + suc m = omega arith in
    ap (λ k. bytes_at k b p) x
    ∙ ap (λ xs. b p ∷ xs) (bytes_at-add m n b (p + 1))
    ∙ ap (λ q. b p ∷ (bytes_at m b (p + 1) ++ bytes_at n b q)) y
