-- ===== src/Stdio/Window.antt =====
-- Ranges of bytes, and writes over them.
use client_server.Stdio.Reliable.{window, patch}
use client_server.Base.{
  ℕ, zero, suc, ◌+◌, ◌-◌, ◌≤◌, ◌<◌, ◌≡◌, refl, ap, ◌∙◌, ◌⊎◌, true, ◌&&◌, List, [], ◌∷◌, ◌++◌, arith,
  ltb, leb, length, get_or,
}

pub length-window : (f : ℕ → ℕ) (p n : ℕ) → length (window f p n) ≡ n
unfolding window
length-window f p zero = refl
length-window f p (suc n) = ap suc (length-window f (p + 1) n)

-- A range depends on its own bytes only.
pub window-eq :
    (f g : ℕ → ℕ) (p n : ℕ)
    → ((i : ℕ) → p ≤ i → i < p + n → f i ≡ g i)
    → window f p n ≡ window g p n
unfolding window
window-eq f g p zero h = refl
window-eq f g p (suc n) h =
    rw
      (
        h p (omega arith) (omega arith),
        window-eq f g (p + 1) n (λ i low high. h i (omega arith) (omega arith)),
      )
      refl

pub window-get_or :
    (f : ℕ → ℕ) (p : ℕ) (xs : List ℕ)
    → ((i : ℕ) → i < length xs → f (p + i) ≡ get_or xs i 0)
    → window f p (length xs) ≡ xs
unfolding window
window-get_or f p [] h = refl
window-get_or f p (x ∷ xs) h =
    let first : f p ≡ x = ap f (omega arith) ∙ h 0 (omega arith) in
    let rest : window f (p + 1) (length xs) ≡ xs =
      window-get_or f (p + 1) xs (λ i lt. ap f (omega arith) ∙ h (suc i) (omega arith)) in
    rw (first, rest) refl

pub get_or-window : (f : ℕ → ℕ) (p n i : ℕ) → i < n → get_or (window f p n) i 0 ≡ f (p + i)
unfolding window
get_or-window f p zero i h = absurd (omega arith)
get_or-window f p (suc n) zero h = ap f (omega arith)
get_or-window f p (suc n) (suc i) h = get_or-window f (p + 1) n i (omega arith) ∙ ap f (omega arith)

-- What was written is there, and the bytes apart from it are as before.
pub window-patch_self : (f : ℕ → ℕ) (p : ℕ) (xs : List ℕ) → window (patch f p xs) p (length xs) ≡ xs
unfolding patch
window-patch_self f p xs = window-get_or (patch f p xs) p xs λ i h.
    let back : p + i - p ≡ i = omega arith in
    let inside : leb p (p + i) && ltb (p + i) (p + length xs) ≡ true = ground arith in
    rw (inside, back) refl

pub window-patch_apart :
    (f : ℕ → ℕ) (p : ℕ) (xs : List ℕ) (q n : ℕ)
    → (q + n ≤ p) ⊎ (p + length xs ≤ q)
    → window (patch f p xs) q n ≡ window f q n
unfolding patch
window-patch_apart f p xs q n h = window-eq (patch f p xs) f q n (λ i low high. ground (arith, h))

pub window-append :
    (f : ℕ → ℕ) (p m n : ℕ) → window f p (m + n) ≡ window f p m ++ window f (p + m) n
unfolding window
window-append f p zero n =
    let zero_add : 0 + n ≡ n = omega arith in
    let add_zero : p + 0 ≡ p = omega arith in rw (zero_add, add_zero) refl
window-append f p (suc m) n =
    let suc_add : suc m + n ≡ suc (m + n) = omega arith in
    let add_suc : p + suc m ≡ p + 1 + m = omega arith in
    rw (suc_add, add_suc) (ap (λ t. f p ∷ t) (window-append f (p + 1) m n))
