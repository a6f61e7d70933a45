-- ===== src/Buddy/Pow.antt =====
-- Powers of two.
use client_server.Base.{
  ℕ, zero, suc, ◌+◌, ◌-◌, ◌*◌, ◌^◌, ◌≤◌, ◌<◌, ◌≡◌, refl, ap, ◌∙◌, ◌≢◌, inl, inr, arith, ltb, leb,
  ltb→lt, ltb→le, leb→le, leb→lt, Bool-cases,
}
use native.Mathlib.Nat.{pow-suc, one-le-pow}

pub two-pow-suc : (k : ℕ) → 2 ^ suc k ≡ 2 ^ k + 2 ^ k
two-pow-suc k = omega (arith, pow-suc 2 k)

pub two-pow_pos : (k : ℕ) → 1 ≤ 2 ^ k
two-pow_pos k = one-le-pow k 2 (omega arith)

pub two-pow-add : (j k : ℕ) → 2 ^ (j + k) ≡ 2 ^ j * 2 ^ k
two-pow-add zero k = ground arith
two-pow-add (suc j) k =
    let e : suc j + k ≡ suc (j + k) = omega arith in
    rw e (
      omega (
        arith,
        two-pow-suc (j + k),
        two-pow-suc j,
        two-pow-add j k,
        ap (λ (t : ℕ). t * 2 ^ k) (two-pow-suc j),
      ))

-- `2 ^ k` where `j ≤ k`
pub two-pow-split : (j k : ℕ) → j ≤ k → 2 ^ k ≡ 2 ^ j * 2 ^ (k - j)
two-pow-split j k h =
    let e : k ≡ j + (k - j) = omega arith in ap (λ t. 2 ^ t) e ∙ two-pow-add j (k - j)

pub two-pow_mono : (j k : ℕ) → j ≤ k → 2 ^ j ≤ 2 ^ k
two-pow_mono j k h = grind (arith, two-pow-split j k h, two-pow_pos (k - j), two-pow_pos j)

pub two-pow-lt : (j k : ℕ) → j < k → 2 ^ j < 2 ^ k
two-pow-lt j k h = omega (arith, two-pow_mono (suc j) k h, two-pow-suc j, two-pow_pos j)

pub le_of_two-pow : (j k : ℕ) → 2 ^ j ≤ 2 ^ k → j ≤ k
le_of_two-pow j k h = elim (Bool-cases (leb j k)) [
  | inl e ↦ leb→le j k e
  | inr e ↦ absurd (omega (arith, two-pow-lt k j (leb→lt j k e)))
]

-- The binary logarithm, rounded up: `x < 2 ^ e`, and no smaller power will do.
pub ceil_log : (x : ℕ) → x ≢ 0 → (e : ℕ) × (x < 2 ^ suc e) × (2 ^ e ≤ x)
ceil_log zero h = absurd (h refl)
ceil_log (suc zero) h = (0, omega arith, omega arith)
ceil_log (suc (suc x)) h = next (ceil_log (suc x) (omega arith))
  where
    next :
        ((e : ℕ) × (suc x < 2 ^ suc e) × (2 ^ e ≤ suc x))
        → (e : ℕ) × (suc (suc x) < 2 ^ suc e) × (2 ^ e ≤ suc (suc x))
    next (e, lt, le) = elim (Bool-cases (ltb (suc (suc x)) (2 ^ suc e))) [
      | inl h ↦ (e, ltb→lt _ _ h, omega arith)
      | inr h ↦ (suc e, omega (arith, two-pow-suc (suc e), two-pow-suc e), ltb→le _ _ h)
    ]
