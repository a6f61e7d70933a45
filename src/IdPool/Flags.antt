-- ===== src/IdPool/Flags.antt =====
-- The array of flags: how many are clear, and how a write changes that.
use client_server.Base.{
  ℕ, zero, suc, ◌+◌, ◌≤◌, ◌<◌, ◌≡◌, ◌≢◌, refl, List, [], ◌∷◌, arith, ◌==◌, if◌then◌else◌, length,
  get_or, set, replicate,
}

-- how many flags are zero
unfoldable pub free_count : List ℕ → ℕ
free_count [] = 0
free_count (x ∷ xs) = (if x == 0 then 1 else 0) + free_count xs

pub free_count-le : (xs : List ℕ) → free_count xs ≤ length xs
unfolding free_count
free_count-le [] = omega arith
free_count-le (x ∷ xs) = ground (arith, free_count-le xs)

pub free_count-replicate : (n : ℕ) → free_count (replicate n 0) ≡ n
unfolding free_count
free_count-replicate zero = refl
free_count-replicate (suc n) = omega (arith, free_count-replicate n)

-- Setting a clear flag leaves one clear flag less.
pub free_count-mark :
    (xs : List ℕ) (i : ℕ)
    → i < length xs
    → get_or xs i 0 ≡ 0
    → free_count (set xs i 1) + 1 ≡ free_count xs
unfolding free_count
free_count-mark [] i h e = absurd (omega arith)
free_count-mark (x ∷ xs) zero h e = ground arith
free_count-mark (x ∷ xs) (suc i) h e = ground (arith, free_count-mark xs i)

-- Clearing a flag that is set leaves one more.
pub free_count-clear :
    (xs : List ℕ) (i : ℕ) → get_or xs i 0 ≢ 0 → free_count (set xs i 0) ≡ free_count xs + 1
unfolding free_count
free_count-clear [] i h = absurd (h refl)
free_count-clear (x ∷ xs) zero h = ground arith
free_count-clear (x ∷ xs) (suc i) h = ground (arith, free_count-clear xs i)

-- With a flag set, not all are clear.
pub free_count-lt : (xs : List ℕ) (i : ℕ) → get_or xs i 0 ≢ 0 → free_count xs < length xs
unfolding free_count
free_count-lt [] i h = absurd (h refl)
free_count-lt (x ∷ xs) zero h = ground (arith, free_count-le xs)
free_count-lt (x ∷ xs) (suc i) h = ground (arith, free_count-lt xs i)

-- With no flag clear, each one is set.
pub free_count_zero : (xs : List ℕ) (i : ℕ) → free_count xs ≡ 0 → i < length xs → get_or xs i 0 ≢ 0
unfolding free_count
free_count_zero [] i e h = absurd (omega arith)
free_count_zero (x ∷ xs) zero e h = ground arith
free_count_zero (x ∷ xs) (suc i) e h = free_count_zero xs i (ground arith) (omega arith)
