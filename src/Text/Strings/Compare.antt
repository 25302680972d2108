-- ===== src/Text/Strings/Compare.antt =====
-- `kernel_strncmp`.
use os_training.Base.{
  ℕ, zero, suc, ◌≤◌, ◌<◌, ◌≡◌, ◌↔◌, refl, pos, true, ==_iff, some, List, [], ◌∷◌, length, get_or,
  arith,
}
use os_training.Text.Strings.{kernel_strncmp, same_start}

-- No place up to `n` that both strings have tells them apart.
abbrev pub Agree : (s t : List ℕ) → (n : ℕ) → Type 0
Agree s t n = (i : ℕ) → i ≤ n → i < length s → i < length t → get_or s i 0 ≡ get_or t i 0

same_start-Agree : (s t : List ℕ) (n : ℕ) → same_start s t n ≡ true → Agree s t n
unfolding same_start
same_start-Agree [] t n h i l a b = absurd (omega arith)
same_start-Agree (c ∷ s) [] n h i l a b = absurd (omega arith)
same_start-Agree (c ∷ s) (d ∷ t) zero h zero l a b = (==_iff c d).0 h
same_start-Agree (c ∷ s) (d ∷ t) zero h (suc i) l a b = absurd (omega arith)
same_start-Agree (c ∷ s) (d ∷ t) (suc n) h zero l a b = ground arith
same_start-Agree (c ∷ s) (d ∷ t) (suc n) h (suc i) l a b =
    same_start-Agree s t n (ground arith) i (omega arith) (omega arith) (omega arith)

Agree-same_start : (s t : List ℕ) (n : ℕ) → Agree s t n → same_start s t n ≡ true
unfolding same_start
Agree-same_start [] t n h = refl
Agree-same_start (c ∷ s) [] n h = refl
Agree-same_start (c ∷ s) (d ∷ t) zero h =
    (==_iff c d).1 (h 0 (omega arith) (omega arith) (omega arith))
Agree-same_start (c ∷ s) (d ∷ t) (suc n) h =
    let first : c ≡ d = h 0 (omega arith) (omega arith) (omega arith) in
    let more =
      Agree-same_start s t n (λ i l a b. h (suc i) (omega arith) (omega arith) (omega arith)) in
    rw ((==_iff c d).1 first) more

-- `kernel_strncmp` of two strings gives 0 exactly if no place up to the size, the size included,
-- tells them apart where both have a byte.
pub kernel_strncmp-Agree :
    (s t : List ℕ) (n : ℕ) → (kernel_strncmp (some s) (some t) n ≡ pos 0) ↔ Agree s t n
unfolding kernel_strncmp
kernel_strncmp-Agree s t n =
    (λ e. same_start-Agree s t n (ground arith), λ h. rw (Agree-same_start s t n h) refl)
