-- ===== src/Buddy/Disjoint.antt =====
-- The blocks of a valid allocator do not overlap, and lie inside the pool.
use native.Mathlib.Nat.{mul-le-mul_right}
use client_server.Buddy.State.{BuddyAlloc}
use client_server.Buddy.Calc.{get_block_size}
use client_server.Buddy.Pow.{two-pow-suc, two-pow-add}
use client_server.Buddy.Geometry.{node, exponent, get_block_size_lem}
use client_server.Buddy.Merge.{halves}
use client_server.Buddy.Inv.{Fits, Inv, IsValid, held}
use client_server.Buddy.Tiling.{Kind, whole, is_void, is_split, Tiling}
use client_server.Base.{
  ℕ, zero, suc, ◌+◌, ◌-◌, ◌*◌, ◌/◌, ◌^◌, ◌≤◌, ◌<◌, ◌≡◌, refl, sym, ap, subst, ◌∙◌, ◌≢◌, ◌⊎◌, inl,
  inr, true, false, none, List, arith, ltb, leb, ltb→lt, ltb→le, leb→le, leb→lt, Bool-cases,
}

-- The index of the ancestor `d` levels up.
abbrev up : ℕ → ℕ → ℕ
up zero i = i
up (suc d) i = up d (i / 2)

-- The block lies inside its ancestor.
up-bounds : (d i : ℕ) → (up d i * 2 ^ d ≤ i) × (i < up d i * 2 ^ d + 2 ^ d)
up-bounds zero i = (omega arith, omega arith)
up-bounds (suc d) i =
    let (low, high) = up-bounds d (i / 2) in
    let double : up d (i / 2) * 2 ^ suc d ≡ 2 * (up d (i / 2) * 2 ^ d) =
      omega (arith, ap (λ (t : ℕ). up d (i / 2) * t) (two-pow-suc d)) in
    (omega (arith, low, double), omega (arith, high, double, two-pow-suc d))

-- The ancestors of a block are split.
parent-split :
    {n : ℕ} {kind : ℕ → Kind} (t : Tiling n kind) (l i : ℕ)
    → is_void (kind (node (suc l) i)) ≡ false
    → is_split (kind (node l (i / 2))) ≡ true
parent-split {kind = kind} t l i h = elim (halves l i) [
  | inl (e, _) ↦ ground (arith, t.left (node l (i / 2)), h, ap kind e)
  | inr (e, _) ↦ ground (arith, t.right (node l (i / 2)), h, ap kind e)
]

up-split :
    {n : ℕ} {kind : ℕ → Kind} (t : Tiling n kind) (d l i : ℕ)
    → is_void (kind (node (l + suc d) i)) ≡ false
    → is_split (kind (node l (up (suc d) i))) ≡ true
up-split {kind = kind} t zero l i h =
    let e : l + 1 ≡ suc l = omega arith in
    parent-split t l i (ap (λ x. is_void (kind (node x i))) (sym e) ∙ h)
up-split {kind = kind} t (suc d) l i h =
    let e : l + suc (suc d) ≡ suc (l + suc d) = omega arith in
    up-split t d l (i / 2) (
      ground
        (arith, parent-split t (l + suc d) i (ap (λ x. is_void (kind (node x i))) (sym e) ∙ h)))

-- The byte ranges from `p` of `m` bytes and from `q` of `k` bytes do not overlap.
abbrev pub Apart : ℕ → ℕ → ℕ → ℕ → Type 0
Apart p m q k = (p + m ≤ q) ⊎ (q + k ≤ p)

-- A range of `d * e` bytes and one of `e` bytes inside another range of `d * e` bytes.
spans_left : (i q i' d e : ℕ) → q * d ≤ i' → i < q → i * (d * e) + d * e ≤ i' * e
spans_left i q i' d e low lt =
    let steps : (i + 1) * d ≤ q * d = mul-le-mul_right d (omega (arith, lt)) in
    let scaled : (i + 1) * d * e ≤ i' * e = mul-le-mul_right e (omega (arith, steps, low)) in
    omega (arith, scaled)

spans_right : (i q i' d e : ℕ) → i' < q * d + d → q < i → i' * e + e ≤ i * (d * e)
spans_right i q i' d e high lt =
    let steps : (q + 1) * d ≤ i * d = mul-le-mul_right d (omega (arith, lt)) in
    let scaled : (i' + 1) * e ≤ i * d * e = mul-le-mul_right e (omega (arith, steps, high)) in
    omega (arith, scaled)

module _ (a : ℕ) {n : ℕ} {kind : ℕ → Kind} (t : Tiling n kind) where
  -- A block and another one of the same level or a lower one.
  below-Apart :
      (l i d i' : ℕ)
      → l + d < n
      → is_split (kind (node l i)) ≡ false
      → is_void (kind (node (l + d) i')) ≡ false
      → (d ≡ 0 → i ≢ i')
      → Apart
          (i * 2 ^ exponent a n l)
          (2 ^ exponent a n l)
          (i' * 2 ^ exponent a n (l + d))
          (2 ^ exponent a n (l + d))
  below-Apart l i d i' h w w' ne =
      let e' = exponent a n (l + d) in
      let ex : exponent a n l ≡ d + e' = omega (arith, h) in
      let size : 2 ^ exponent a n l ≡ 2 ^ d * 2 ^ e' = ap (λ x. 2 ^ x) ex ∙ two-pow-add d e' in
      let (low, high) = up-bounds d i' in
      let other : up d i' ≢ i = differs d w w' ne in
      rw size (elim (Bool-cases (ltb i (up d i'))) [
        | inl lt ↦ inl (spans_left i (up d i') i' (2 ^ d) (2 ^ e') low (ltb→lt _ _ lt))
        | inr ge ↦
            inr (
              spans_right i (up d i') i' (2 ^ d) (2 ^ e') high
                (omega (arith, ltb→le _ _ ge, other)))
      ])
    where
      differs :
          (d : ℕ)
          → is_split (kind (node l i)) ≡ false
          → is_void (kind (node (l + d) i')) ≡ false
          → (d ≡ 0 → i ≢ i')
          → up d i' ≢ i
      differs zero w w' ne e = ne refl (sym e)
      differs (suc d) w w' ne e =
          ground (arith, up-split t d l i' w', w, ap (λ x. is_split (kind (node l x))) e)

  -- Two blocks in different slots.
  nodes-Apart :
      (l i l' i' : ℕ)
      → l < n
      → l' < n
      → kind (node l i) ≡ whole
      → kind (node l' i') ≡ whole
      → node l i ≢ node l' i'
      → Apart
          (i * 2 ^ exponent a n l)
          (2 ^ exponent a n l)
          (i' * 2 ^ exponent a n l')
          (2 ^ exponent a n l')
  nodes-Apart l i l' i' h h' w w' ne = elim (Bool-cases (leb l l')) [
    | inl le ↦
        let down : l + (l' - l) ≡ l' = omega (arith, leb→le l l' le) in
        subst
          (λ x.
            Apart (i * 2 ^ exponent a n l) (2 ^ exponent a n l) (i' * 2 ^ exponent a n x)
              (2 ^ exponent a n x))
          down
          (below-Apart l i (l' - l) i' (omega (arith, down, h')) (ap is_split w)
            (ap (λ x. is_void (kind (node x i'))) down ∙ ap is_void w')
            (λ z e. ne (ground (arith, z, e, leb→le l l' le))))
    | inr gt ↦
        let down : l' + (l - l') ≡ l = omega (arith, leb→lt l l' gt) in
        swap _ _ _ _ (
          subst
            (λ x.
              Apart (i' * 2 ^ exponent a n l') (2 ^ exponent a n l') (i * 2 ^ exponent a n x)
                (2 ^ exponent a n x))
            down
            (below-Apart l' i' (l - l') i (omega (arith, down, h)) (ap is_split w')
              (ap (λ x. is_void (kind (node x i))) down ∙ ap is_void w)
              (λ z e. absurd (omega (arith, z, leb→lt l l' gt)))))
  ]
    where
      swap : (p m q k : ℕ) → Apart p m q k → Apart q k p m
      swap p m q k (inl x) = inr x
      swap p m q k (inr x) = inl x

-- The size of the block in slot `j`, as `get_block_size` gives it.
abbrev pub size_of : BuddyAlloc → ℕ → ℕ
size_of b j = get_block_size (b.elements j).level b.min_block_size b.num_of_levels

module _ {a n : ℕ} (fits : Fits a n) {b : BuddyAlloc} {ls : ℕ → List ℕ} {kind : ℕ → Kind}
    (v : Inv a n none b ls kind) where
  block_range :
      (j : ℕ)
      → (b.elements j).is_active ≡ true
      → (l : ℕ) × (i : ℕ) × (l < n)
        × (i < 2 ^ l)
        × (j ≡ node l i)
        × (kind (node l i) ≡ whole)
        × ((b.elements j).offset ≡ i * 2 ^ exponent a n l)
        × (size_of b j ≡ 2 ^ exponent a n l)
  block_range j h =
      let (i, hl, hi, place, slot) = v.placed j h in
      let w : kind j ≡ whole = ground (arith, v.active j, h) in
      (
        (b.elements j).level,
        i,
        hl,
        hi,
        slot,
        ap kind (sym slot) ∙ w,
        place,
        rw (v.least, v.levels) (get_block_size_lem a n (b.elements j).level fits.word hl),
      )

  blocks-Apart :
      (j k : ℕ)
      → j ≢ k
      → (b.elements j).is_active ≡ true
      → (b.elements k).is_active ≡ true
      → Apart (b.elements j).offset (size_of b j) (b.elements k).offset (size_of b k)
  blocks-Apart j k ne hj hk =
      let (l, i, hl, _, slot, w, place, size) = block_range j hj in
      let (l', i', hl', _, slot', w', place', size') = block_range k hk in
      rw (place, size, place', size')
        (nodes-Apart a v.tiling l i l' i' hl hl' w w' (λ e. ne (slot ∙ e ∙ sym slot')))

  block_inside :
      (j : ℕ)
      → (b.elements j).is_active ≡ true
      → (b.elements j).offset + size_of b j ≤ 2 ^ (a + (n - 1))
  block_inside j h =
      let (l, i, hl, hi, slot, w, place, size) = block_range j h in
      let total : 2 ^ (a + (n - 1)) ≡ 2 ^ l * 2 ^ exponent a n l =
        ap (λ x. 2 ^ x) (omega (arith, hl)) ∙ two-pow-add l (exponent a n l) in
      let scaled : (i + 1) * 2 ^ exponent a n l ≤ 2 ^ l * 2 ^ exponent a n l =
        mul-le-mul_right (2 ^ exponent a n l) (omega (arith, hi)) in
      omega (arith, place, size, total, scaled)

-- Two blocks that callers hold do not overlap: the byte ranges from their offsets, of the sizes
-- that `get_block_size` gives their levels, are apart and lie inside the pool.
pub held-Apart :
    (a n : ℕ) (b : BuddyAlloc) (j k : ℕ)
    → Fits a n
    → IsValid a n b
    → j ≢ k
    → held (b.elements j) ≡ true
    → held (b.elements k) ≡ true
    → Apart (b.elements j).offset (size_of b j) (b.elements k).offset (size_of b k)
      × ((b.elements j).offset + size_of b j ≤ 2 ^ (a + (n - 1)))
held-Apart a n b j k fits (ls, kind, v) ne hj hk =
    let act : (b.elements j).is_active ≡ true = ground (arith, hj) in
    let act' : (b.elements k).is_active ≡ true = ground (arith, hk) in
    (blocks-Apart fits v j k ne act act', block_inside fits v j act)
