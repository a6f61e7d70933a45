-- ===== src/Buddy/Geometry.antt =====
-- The tree of blocks: the block `i` of level `l`, its slot, its offset and its size, for an
-- allocator of `n` levels whose least block has `2 ^ a` bytes.
use native.Mathlib.Nat.{mul-div_cancel}
use client_server.Buddy.Pow.{two-pow-suc, two-pow_pos, two-pow_mono, two-pow-lt, two-pow-add}
use client_server.Buddy.Bits.{neighbour, bit_xor_pow2}
use client_server.Buddy.Calc.{get_buddy_offset, get_block_size, calc_buddy_allocator_slot}
use client_server.Base.{
  ℕ, suc, ◌+◌, ◌-◌, ◌*◌, ◌/◌, ◌%◌, ◌^◌, ◌≤◌, ◌<◌, min, ◌≡◌, ap, inl, inr, arith, ltb, ◌==◌, ltb→lt,
  ltb→le, ==→eq, ==→ne, Bool-cases, sub32,
}

-- The slot of block `i` of level `l`.
abbrev pub node : ℕ → ℕ → ℕ
node l i = 2 ^ l - 1 + i

pub node_left : (l i : ℕ) → node (suc l) (2 * i) ≡ 2 * node l i + 1
node_left l i = omega (arith, two-pow-suc l, two-pow_pos l)

pub node_right : (l i : ℕ) → node (suc l) (2 * i + 1) ≡ 2 * node l i + 2
node_right l i = omega (arith, two-pow-suc l, two-pow_pos l)

pub node-lt : (l n i : ℕ) → l < n → i < 2 ^ l → node l i < 2 ^ n - 1
node-lt l n i h lt = omega (arith, two-pow-suc l, two-pow_mono (suc l) n h, two-pow_pos l)

pub node_injective : (l i k j : ℕ) → i < 2 ^ l → j < 2 ^ k → node l i ≡ node k j → (l ≡ k) × (i ≡ j)
node_injective l i k j hi hj e = elim (Bool-cases (ltb l k)) [
  | inl h ↦ absurd (
      omega
        (arith, bounds l i hi, bounds k j hj, two-pow_mono (suc l) k (ltb→lt l k h), two-pow-suc l))
  | inr h ↦ elim (Bool-cases (ltb k l)) [
    | inl h' ↦ absurd (
        omega (
          arith,
          bounds l i hi,
          bounds k j hj,
          two-pow_mono (suc k) l (ltb→lt k l h'),
          two-pow-suc k,
        ))
    | inr h' ↦
        let same : l ≡ k = omega (arith, ltb→le l k h, ltb→le k l h') in
        (same, omega (arith, ap (λ t. 2 ^ t) same, e))
  ]
]
  where
    bounds : (l i : ℕ) → i < 2 ^ l → (2 ^ l ≤ node l i + 1) × (node l i + 1 < 2 ^ l + 2 ^ l)
    bounds l i h = omega (arith, two-pow_pos l)

-- The exponent of the size of the blocks of level `l`.
abbrev pub exponent : ℕ → ℕ → ℕ → ℕ
exponent a n l = a + (n - 1 - l)

pub get_block_size_lem :
    (a n l : ℕ) → a + n ≤ 32 → l < n → get_block_size l (2 ^ a) n ≡ 2 ^ exponent a n l
unfolding get_block_size
get_block_size_lem a n l fits h =
    let e : sub32 (sub32 n 1) l ≡ n - 1 - l = omega arith in
    rw (e, ← two-pow-add a (n - 1 - l))
      (omega (arith, two-pow-lt (a + (n - 1 - l)) 32 (omega arith)))

pub calc_buddy_allocator_slot_lem :
    (e l i : ℕ) → l < 31 → i < 2 ^ l → calc_buddy_allocator_slot (i * 2 ^ e) l (2 ^ e) ≡ node l i
unfolding calc_buddy_allocator_slot
calc_buddy_allocator_slot_lem e l i h lt =
    rw (mul-div_cancel i (two-pow_pos e))
      (omega (arith, two-pow_mono (suc l) 31 h, two-pow-suc l, two-pow_pos l))

pub get_buddy_offset_lem : (e i : ℕ) → get_buddy_offset (i * 2 ^ e) (2 ^ e) ≡ neighbour i * 2 ^ e
unfolding get_buddy_offset
get_buddy_offset_lem e i = bit_xor_pow2 e i

-- The offset of a block is that of its left half, and the least of its and its neighbour's is
-- that of their parent.
pub offset_left : (e i : ℕ) → i * 2 ^ suc e ≡ 2 * i * 2 ^ e
offset_left e i = omega (arith, ap (λ (t : ℕ). i * t) (two-pow-suc e))

pub offset_parent : (e i : ℕ) → min (i * 2 ^ e) (neighbour i * 2 ^ e) ≡ i / 2 * 2 ^ suc e
offset_parent e i = elim (Bool-cases (i % 2 == 0)) [
  | inl even ↦
      let whole : i ≡ 2 * (i / 2) = omega (arith, ==→eq _ _ even) in
      rw even
        (omega (arith, ap (λ (t : ℕ). t * 2 ^ e) whole, ap (λ (t : ℕ). i / 2 * t) (two-pow-suc e)))
  | inr odd ↦
      let whole : i ≡ 2 * (i / 2) + 1 = omega (arith, ==→ne _ _ odd) in
      let below : i - 1 ≡ 2 * (i / 2) = omega (arith, whole) in
      rw odd (
        omega (
          arith,
          ap (λ (t : ℕ). t * 2 ^ e) whole,
          ap (λ (t : ℕ). t * 2 ^ e) below,
          ap (λ (t : ℕ). i / 2 * t) (two-pow-suc e),
        ))
]
