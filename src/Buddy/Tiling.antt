-- ===== src/Buddy/Tiling.antt =====
-- How the blocks tile the pool: each slot of the tree is split into its halves, is a whole block,
-- or lies inside a whole block. The halves of slot `s` are the slots `2 * s + 1` and `2 * s + 2`.
use client_server.Base.{
  ℕ, ◌+◌, ◌-◌, ◌*◌, ◌^◌, ◌<◌, ◌≡◌, ap, ◌⊎◌, inl, inr, Bool, true, false, not, ◌||◌, arith, ◌==◌,
  if◌then◌else◌,
}

pub data Kind : Type 0 where
  split whole void : Kind

abbrev pub is_split : Kind → Bool
is_split split = true
is_split whole = false
is_split void = false

abbrev pub is_whole : Kind → Bool
is_whole split = false
is_whole whole = true
is_whole void = false

abbrev pub is_void : Kind → Bool
is_void split = false
is_void whole = false
is_void void = true

-- The root is no part of another block; a half is a block or split further exactly if its parent
-- is split; there is nothing below the last of the `n` levels.
pub record Tiling (n : ℕ) (kind : ℕ → Kind) : Type 0 where
  pub root : is_void (kind 0) ≡ false
  pub left : (s : ℕ) → is_void (kind (2 * s + 1)) ≡ not (is_split (kind s))
  pub right : (s : ℕ) → is_void (kind (2 * s + 2)) ≡ not (is_split (kind s))
  pub beyond : (s : ℕ) → is_void (kind s) ≡ false → s < 2 ^ n - 1

-- The tiling with the block `s` split into two, and with two halves joined.
abbrev pub split_at : (ℕ → Kind) → ℕ → ℕ → Kind
split_at kind s j =
    if j == s then split else if j == 2 * s + 1 || j == 2 * s + 2 then whole else kind j

abbrev pub join_at : (ℕ → Kind) → ℕ → ℕ → Kind
join_at kind s j =
    if j == s then whole else if j == 2 * s + 1 || j == 2 * s + 2 then void else kind j

module _ {n : ℕ} {kind : ℕ → Kind} (t : Tiling n kind) (s : ℕ) where
  pub split_at-Tiling : kind s ≡ whole → 2 * s + 2 < 2 ^ n - 1 → Tiling n (split_at kind s)
  split_at-Tiling w fits = record {
    root = ground (arith, t.root);
    left = λ j. ground (arith, w, t.left j, t.left s, t.right s);
    right = λ j. ground (arith, w, t.right j, t.left s, t.right s);
    beyond = λ j h. ground (arith, w, t.beyond j, t.beyond s, fits, h);
  }

  pub join_at-Tiling :
      kind (2 * s + 1) ≡ whole → kind (2 * s + 2) ≡ whole → Tiling n (join_at kind s)
  join_at-Tiling l r = record {
    root = ground (arith, t.root);
    left = λ j. ground (arith, l, r, t.left j, t.left s, t.right s);
    right = λ j. ground (arith, l, r, t.right j, t.left s, t.right s);
    beyond = λ j h. ground (arith, l, r, t.beyond j, t.beyond (2 * s + 1), h);
  }

  -- The parent of a half that is a block is split.
  pub parent_split : (j : ℕ) → kind j ≡ whole → (j ≡ 2 * s + 1) ⊎ (j ≡ 2 * s + 2) → kind s ≡ split
  parent_split j w (inl e) = ground (arith, w, t.left s, ap kind e)
  parent_split j w (inr e) = ground (arith, w, t.right s, ap kind e)
