-- ===== src/Buddy/Inv.antt =====
-- The invariant of the allocator between and inside the calls of BUDDY_ALLOCATOR/src.
use native.Mathlib.Nat.{mul-div_cancel}
use client_server.Buddy.State.{Block, BuddyAlloc, ret, put_block, mem_pool_get_block}
use client_server.Buddy.Chain.{contains, at, Chain-frame}
use client_server.Buddy.Links.{nexts, prevs}
use client_server.Buddy.Lists.{HasLists}
use client_server.Buddy.Geometry.{node, exponent}
use client_server.Buddy.Pow.{two-pow_mono}
use client_server.Buddy.Tiling.{Kind, whole, is_whole, Tiling}
use client_server.Base.{
  ℕ, ◌+◌, ◌-◌, ◌*◌, ◌/◌, ◌^◌, ◌≤◌, ◌<◌, ◌≡◌, refl, ap, ◌∙◌, ◌≢◌, Bool, true, false, not, ◌&&◌,
  Option, none, List, arith, leb, ◌==◌, mul32,
}

-- The pools for which no computation of the allocator wraps: `n` levels, blocks of at least
-- `2 ^ a` bytes, and the block records of 24 bytes addressed in 32 bits.
pub record Fits (a n : ℕ) : Type 0 where
  pub some_level : n ≢ 0
  pub word : a + n ≤ 32
  pub records : n ≤ 27

-- A free block, and a block that a caller holds.
abbrev pub is_free : Block → Bool
is_free x = x.is_active && not x.is_allocated

abbrev pub held : Block → Bool
held x = x.is_active && x.is_allocated

-- The block stands in the slot of its level and offset.
abbrev pub Placed : ℕ → ℕ → Block → ℕ → Type 0
Placed a n x j =
    (i : ℕ) × (x.level < n)
    × (i < 2 ^ x.level)
    × (x.offset ≡ i * 2 ^ exponent a n x.level)
    × (j ≡ node x.level i)

-- The lists hold the free blocks of their levels, and the active blocks tile the pool. Inside a
-- call one block of the tiling may be a hole, the slot of which is not active.
pub record Inv (a n : ℕ) (hole : Option ℕ) (b : BuddyAlloc) (ls : ℕ → List ℕ) (kind : ℕ → Kind)
    : Type 0 where
  pub least : b.min_block_size ≡ 2 ^ a
  pub levels : b.num_of_levels ≡ n
  pub slots : b.num_of_elements ≡ 2 ^ n - 1
  pub record_size : b.size_of_element ≡ 24
  pub lists : HasLists b ls
  pub free : (k j : ℕ) → contains (ls k) j ≡ (is_free (b.elements j) && (b.elements j).level == k)
  pub active : (j : ℕ) → (b.elements j).is_active ≡ (is_whole (kind j) && not (at hole j))
  pub placed : (j : ℕ) → (b.elements j).is_active ≡ true → Placed a n (b.elements j) j
  pub tiling : Tiling n kind
  pub hole_whole : (j : ℕ) → at hole j ≡ true → kind j ≡ whole

-- The allocator is valid between the calls.
abbrev pub IsValid : ℕ → ℕ → BuddyAlloc → Type 0
IsValid a n b = (ls : ℕ → List ℕ) × (kind : ℕ → Kind) × Inv a n none b ls kind

-- The blocks that callers hold are the same.
pub record Kept (b b' : BuddyAlloc) : Type 0 where
  pub same : (j : ℕ) → held (b'.elements j) ≡ held (b.elements j)
  pub offset : (j : ℕ) → held (b.elements j) ≡ true → (b'.elements j).offset ≡ (b.elements j).offset
  pub level : (j : ℕ) → held (b.elements j) ≡ true → (b'.elements j).level ≡ (b.elements j).level

pub Kept-trans : (b c d : BuddyAlloc) → Kept b c → Kept c d → Kept b d
Kept-trans b c d h k = record {
  same = λ j. k.same j ∙ h.same j;
  offset = λ j y. k.offset j (h.same j ∙ y) ∙ h.offset j y;
  level = λ j y. k.level j (h.same j ∙ y) ∙ h.level j y;
}

-- A block that is in no list may be changed freely.
pub put_block-HasLists :
    (b : BuddyAlloc) (ls : ℕ → List ℕ) (p : ℕ) (x : Block)
    → HasLists b ls
    → ((k : ℕ) → contains (ls k) p ≡ false)
    → HasLists (put_block b p x) ls
put_block-HasLists b ls p x h out = record {
  chain = λ k.
      Chain-frame (nexts b) (prevs b) _ _ (ls k) none (b.head k)
        (λ j m. (ground (arith, out k, m), ground (arith, out k, m))) (h.chain k);
  distinct = h.distinct;
  own_level = λ k j m. ground (arith, out k, m, h.own_level k j m);
}

module _ {a n : ℕ} (fits : Fits a n) {hole : Option ℕ} {b : BuddyAlloc} {ls : ℕ → List ℕ}
    {kind : ℕ → Kind} (v : Inv a n hole b ls kind) where
  pub mem_pool_get_block_lem : (p : ℕ) → p < 2 ^ n - 1 → mem_pool_get_block p b ≡ ret p b
  unfolding mem_pool_get_block
  mem_pool_get_block_lem p h =
      let small : mul32 p 24 / 24 ≡ p =
        ap (λ t. t / 24) (omega (arith, two-pow_mono n 27 fits.records, h))
        ∙ mul-div_cancel p {n = 24} (omega arith) in
      let size : mul32 p b.size_of_element / b.size_of_element ≡ p =
        ap (λ t. mul32 p t / t) v.record_size ∙ small in
      let room : leb b.num_of_elements p ≡ false = ground (arith, v.slots, h) in
      rw (room, size) refl

  pub held-out : (p : ℕ) → held (b.elements p) ≡ true → (k : ℕ) → contains (ls k) p ≡ false
  held-out p h k = ground (arith, v.free k p, h)
