-- ===== src/Buddy/Calc/NextPow2.antt =====
-- `next_pow2`: each step doubles the number of leading ones.
use Prim.Native.Nat.{bit_or}
use native.Mathlib.Nat.{
  mul_comm, div-le_self, lt-mul-div-succ, div-lt_iff_lt-mul, mul-le-mul_left, le_refl,
}
use client_server.Buddy.Pow.{two-pow-suc, two-pow_pos, two-pow-split, two-pow_mono, ceil_log}
use client_server.Buddy.Bits.{bit_or_bounds, bit_or_above}
use client_server.Buddy.Calc.{smear, next_pow2}
use client_server.Base.{
  ℕ, zero, suc, ◌+◌, ◌-◌, ◌*◌, ◌/◌, ◌^◌, ◌≤◌, ◌<◌, ◌≡◌, refl, ap, ◌∙◌, ◌≢◌, inl, inr, arith, leb,
  leb→le, leb→lt, ne→==, Bool-cases, u32,
}

-- `x` has `e` digits, and the first `j` of them (all, if there are fewer) are ones.
abbrev Leading : ℕ → ℕ → ℕ → Type 0
Leading e j x = (x < 2 ^ e) × (2 ^ e ≤ x + 2 ^ (e - j))

-- Few digits: they are all ones already.
smear_short : (e j x : ℕ) → e ≤ j → Leading e j x → Leading e (j + j) (smear x j)
unfolding smear
smear_short e j x h (lt, le) =
    let all : 2 ^ (e - j) ≡ 1 = (let z : e - j ≡ 0 = omega arith in rw z refl) in
    let b = bit_or_bounds e x (x / 2 ^ j) lt (omega (arith, div-le_self x (2 ^ j))) in
    omega (arith, b, all, two-pow_pos (e - (j + j)))

-- The gap that is left below the leading ones, scaled by `2 ^ j`, covers the old gap.
gap : (e j : ℕ) → j < e → 2 ^ (e - j) ≤ 2 ^ j * 2 ^ (e - (j + j))
gap e j h = elim (Bool-cases (leb (e - j) j)) [
  | inl le ↦
      let z : e - (j + j) ≡ 0 = omega (arith, leb→le _ _ le) in
      rw z (omega (arith, two-pow_mono (e - j) j (leb→le _ _ le)))
  | inr lt ↦
      let same : e - (j + j) ≡ e - j - j = omega arith in
      rw (same, ← two-pow-split j (e - j) (omega (arith, leb→lt _ _ lt))) (le_refl _)
]

-- `x` is at most the gap `w` below `a * w`, so its shift is at most the gap `p` below `w`.
shifted-le : (a w p x : ℕ) → 0 < a → a * w ≤ x + w → w ≤ a * p → w ≤ x / a + p
shifted-le a w p x pos near cover = elim (Bool-cases (leb w (x / a + p))) [
  | inl le ↦ leb→le _ _ le
  | inr lt ↦
      let less : x / a + p + 1 ≤ w = omega (arith, leb→lt _ _ lt) in
      let far : a * (x / a + p + 1) ≤ a * w = mul-le-mul_left a less in
      absurd (omega (arith, far, lt-mul-div-succ x pos))
]

-- One step, with `a` for `2 ^ j` and `w` for the gap `2 ^ k`.
step_bounds :
    (a k p x : ℕ)
    → 0 < a
    → x < a * 2 ^ k
    → a * 2 ^ k ≤ x + 2 ^ k
    → 2 ^ k ≤ a * p
    → (bit_or x (x / a) < a * 2 ^ k) × (a * 2 ^ k ≤ bit_or x (x / a) + p)
step_bounds a k p x pos lt near cover =
    let less : (a - 1) * 2 ^ k + 2 ^ k ≡ a * 2 ^ k =
      omega (arith, ap (λ (t : ℕ). t * 2 ^ k) (pred_suc a pos)) in
    let r : ℕ = x - (a - 1) * 2 ^ k in
    let parts : x ≡ (a - 1) * 2 ^ k + r = omega (arith, near, less) in
    let small : r < 2 ^ k = omega (arith, lt, less) in
    let shift : x / a < 2 ^ k = (div-lt_iff_lt-mul pos).1 (omega (arith, lt, mul_comm a (2 ^ k))) in
    let above = bit_or_above k (a - 1) r (x / a) small shift in
    let low = bit_or_bounds k r (x / a) small shift in
    let whole : bit_or x (x / a) ≡ (a - 1) * 2 ^ k + bit_or r (x / a) =
      ap (λ t. bit_or t (x / a)) parts ∙ above in
    omega (arith, whole, low, less, shifted-le a (2 ^ k) p x pos near cover)
  where
    pred_suc : (a : ℕ) → 0 < a → a - 1 + 1 ≡ a
    pred_suc a h = omega arith

smear_long : (e j x : ℕ) → j < e → Leading e j x → Leading e (j + j) (smear x j)
unfolding smear
smear_long e j x h (lt, le) =
    let split : 2 ^ e ≡ 2 ^ j * 2 ^ (e - j) = two-pow-split j e (omega arith) in
    let b =
      step_bounds (2 ^ j) (e - j) (2 ^ (e - (j + j))) x (two-pow_pos j) (omega (arith, split))
        (omega (arith, split)) (gap e j h) in
    omega (arith, b, split)

smear-Leading : (e j x : ℕ) → Leading e j x → Leading e (j + j) (smear x j)
smear-Leading e j x l = elim (Bool-cases (leb e j)) [
  | inl h ↦ smear_short e j x (leb→le e j h) l
  | inr h ↦ smear_long e j x (leb→lt e j h) l
]

-- After the five steps a number of at most 32 digits is all ones.
smear_all :
    (e x : ℕ)
    → suc e ≤ 32
    → x < 2 ^ suc e
    → 2 ^ e ≤ x
    → smear (smear (smear (smear (smear x 1) 2) 4) 8) 16 + 1 ≡ 2 ^ suc e
smear_all e x h lt le =
    let one : Leading (suc e) 1 x =
      (lt, (let z : suc e - 1 ≡ e = omega arith in rw z (omega (arith, two-pow-suc e)))) in
    let l16 =
      smear-Leading (suc e) 8 _
        (smear-Leading (suc e) 4 _ (smear-Leading (suc e) 2 _ (smear-Leading (suc e) 1 x one))) in
    let l32 = smear-Leading (suc e) 16 _ l16 in
    let z : suc e - (16 + 16) ≡ 0 = omega arith in
    let gap_one : 2 ^ (suc e - (16 + 16)) ≡ 1 = ap (λ t. 2 ^ t) z in omega (arith, l32, gap_one)

abbrev Rounds : ℕ → ℕ → Type 0
Rounds v e = (e ≤ 32) × (v ≤ 2 ^ e) × (2 ^ e < 2 * v) × (next_pow2 v ≡ u32 (2 ^ e))

up_to_power :
    (v e : ℕ)
    → suc (suc v) < 2 ^ 32
    → suc v < 2 ^ suc e
    → 2 ^ e ≤ suc v
    → Rounds (suc (suc v)) (suc e)
unfolding next_pow2
up_to_power v e h lt le = (small, omega arith, omega (arith, two-pow-suc e), run)
  where
    small : suc e ≤ 32
    small = elim (Bool-cases (leb (suc e) 32)) [
      | inl k ↦ leb→le _ _ k
      | inr k ↦ absurd (omega (arith, two-pow_mono 32 e (omega (arith, leb→lt _ _ k))))
    ]

    run : next_pow2 (suc (suc v)) ≡ u32 (2 ^ suc e)
    run =
        let p : suc (suc v) - 1 ≡ suc v = omega arith in
        rw (ne→== (suc (suc v)) 0 (omega arith), p) (ap u32 (smear_all e (suc v) small lt le))

-- `next_pow2 v`, for `v` a 32-bit number other than zero, is the least power of two that is not
-- below `v`, if that fits 32 bits; for `v` above 2 ^ 31 the power is 2 ^ 32, and the result 0.
pub next_pow2_lem :
    (v : ℕ)
    → v ≢ 0
    → v < 2 ^ 32
    → (e : ℕ) × (e ≤ 32) × (v ≤ 2 ^ e) × (2 ^ e < 2 * v) × (next_pow2 v ≡ u32 (2 ^ e))
unfolding next_pow2 smear
next_pow2_lem zero ne h = absurd (ne refl)
next_pow2_lem (suc zero) ne h = (0, omega arith, omega arith, omega arith, refl)
next_pow2_lem (suc (suc v)) ne h =
    let (e, lt, le) = ceil_log (suc v) (omega arith) in
    let r = up_to_power v e h lt le in (suc e, r.0, r.1, r.2, r.3)
