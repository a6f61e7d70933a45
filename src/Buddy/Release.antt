-- ===== src/Buddy/Release.antt =====
-- `buddy_alloc_free` of a block that a caller holds.
use client_server.Buddy.State.{BuddyAlloc, ret}
use client_server.Buddy.Calc.{get_block_size}
use client_server.Buddy.Api.{merge_loop, free_block, buddy_alloc_free}
use client_server.Buddy.Geometry.{node, get_block_size_lem}
use client_server.Buddy.Inv.{Fits, Inv, IsValid, Kept-trans, held, put_block-HasLists, held-out}
use client_server.Buddy.Take.{retire}
use client_server.Buddy.Fill.{listed, Listed-Kept, Listed-Inv}
use client_server.Buddy.Merge.{Merged, merge_loop-Merged}
use client_server.Buddy.Tiling.{Kind}
use client_server.Base.{
  ℕ, ◌≡◌, refl, subst, true, false, none, some, List, arith, leb, ◌==◌, if◌then◌else◌, ok,
}

-- What the free of the block `p` leaves: callers hold what they held, less `p`, each block with
-- its offset and level.
pub record Released (p : ℕ) (b b' : BuddyAlloc) : Type 0 where
  pub holds : (j : ℕ) → held (b'.elements j) ≡ (if j == p then false else held (b.elements j))
  pub offset :
      (j : ℕ) → held (b'.elements j) ≡ true → (b'.elements j).offset ≡ (b.elements j).offset
  pub level : (j : ℕ) → held (b'.elements j) ≡ true → (b'.elements j).level ≡ (b.elements j).level

-- The slot of a held block becomes a hole.
retire_held-Inv :
    {a n : ℕ} {b : BuddyAlloc} {ls : ℕ → List ℕ} {kind : ℕ → Kind} (fits : Fits a n) (p : ℕ)
    → Inv a n none b ls kind
    → held (b.elements p) ≡ true
    → Inv a n (some p) (retire p b) ls kind
retire_held-Inv {b = b} {ls = ls} fits p v h = record {
  least = v.least;
  levels = v.levels;
  slots = v.slots;
  record_size = v.record_size;
  lists = put_block-HasLists b ls p _ v.lists (held-out fits v p h);
  free = λ k j. ground (arith, v.free k j, h);
  active = λ j. ground (arith, v.active j);
  placed = λ j y. ground (arith, v.placed j, y);
  tiling = v.tiling;
  hole_whole = λ j y. ground (arith, v.active j, h, y);
}

module _ {a n : ℕ} (fits : Fits a n) {b : BuddyAlloc} {ls : ℕ → List ℕ} {kind : ℕ → Kind}
    (v : Inv a n none b ls kind) (p : ℕ) (h : held (b.elements p) ≡ true) where
  merged :
      (r : Merged a n (retire p b)) × (merge_loop
          (b.elements p).level
          (b.elements p).offset
          (get_block_size (b.elements p).level b.min_block_size b.num_of_levels)
          (retire p b)
        ≡ ret (r.level, r.offset, r.size) r.state)
  merged =
      let (i, hl, hi, place, slot) = v.placed p (ground (arith, h)) in
      let v1 : Inv a n (some (node (b.elements p).level i)) (retire p b) ls kind =
        subst (λ x. Inv a n (some x) (retire p b) ls kind) slot (retire_held-Inv fits p v h) in
      merge_loop-Merged fits (b.elements p).level i (b.elements p).offset
        (get_block_size (b.elements p).level b.min_block_size b.num_of_levels) v1 hl hi place
        (rw (v.least, v.levels) (get_block_size_lem a n (b.elements p).level fits.word hl))

  free_block-Released :
      (b' : BuddyAlloc) × (free_block p b ≡ ret tt b') × IsValid a n b' × Released p b b'
  unfolding free_block
  free_block-Released =
      let (r, run) = merged in
      let idle : (r.state.elements (node r.level r.index)).is_active ≡ false =
        ground (arith, r.inv.active (node r.level r.index)) in
      let (b', ls', fill, t) = listed fits r.inv r.level r.index r.inside r.within idle in
      let kept =
        Kept-trans (retire p b) r.state b' r.kept (Listed-Kept r.state b' _ ls' _ _ _ idle t) in
      let (_, hl, _, _, _) = v.placed p (ground (arith, h)) in
      let test : leb b.num_of_levels (b.elements p).level ≡ false = ground (arith, v.levels, hl) in
      (
        b',
        rw (test, run, r.place, r.whole_size) fill,
        (ls', r.kinds, Listed-Inv a n r.level r.index r.inv r.inside r.within t),
        record {
          holds = λ j. ground (arith, kept.same j);
          offset = λ j y. ground (arith, kept.same j, kept.offset j, y);
          level = λ j y. ground (arith, kept.same j, kept.level j, y);
        },
      )

-- On a valid allocator the free of a block that a caller holds succeeds and leaves a valid
-- allocator, in which callers hold the same blocks less this one, with offsets and levels.
pub buddy_alloc_free-Released :
    (a n : ℕ) (b : BuddyAlloc) (p : ℕ)
    → Fits a n
    → IsValid a n b
    → held (b.elements p) ≡ true
    → (b' : BuddyAlloc) × (buddy_alloc_free (some b) (some p) ≡ (ok, some b'))
      × IsValid a n b'
      × Released p b b'
unfolding buddy_alloc_free
buddy_alloc_free-Released a n b p fits (ls, kind, v) h =
    let (b', run, valid, released) = free_block-Released fits v p h in
    (b', rw (buddy_alloc_free, run) refl, valid, released)
