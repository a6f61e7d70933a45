-- ===== src/Buddy/Fill.antt =====
-- A block is made in an empty slot, and put into a list or handed out.
use client_server.Buddy.State.{BuddyAlloc, update, ret, ◌>>=◌, put_block, mem_pool_get_block}
use client_server.Buddy.Calc.{calc_buddy_allocator_slot}
use client_server.Buddy.FreeList.{new_block, create_new_block, linked_list_add_block}
use client_server.Buddy.Chain.{contains}
use client_server.Buddy.Lists.{HasLists, linked_list_add_block-HasLists}
use client_server.Buddy.Geometry.{node, exponent, node-lt, calc_buddy_allocator_slot_lem}
use client_server.Buddy.Inv.{Fits, Inv, Kept, put_block-HasLists, mem_pool_get_block_lem}
use client_server.Buddy.Take.{hand_out}
use client_server.Buddy.Tiling.{Kind}
use client_server.Base.{
  ℕ, ◌*◌, ◌%◌, ◌^◌, ◌<◌, ◌≡◌, refl, subst, ◌∙◌, inl, inr, true, false, Option, none, some, List,
  ◌∷◌, arith, ◌==◌, if◌then◌else◌, ==→eq, Bool-cases,
}

-- The new block in its slot.
abbrev pub made : ℕ → ℕ → ℕ → ℕ → ℕ → BuddyAlloc → BuddyAlloc
made a n s level i b = put_block b s (new_block level (i * 2 ^ exponent a n level))

-- A new free block `s` of the level and index, in front of the list of its level.
pub record Listed (b b' : BuddyAlloc) (ls ls' : ℕ → List ℕ) (s level offset : ℕ) : Type 0 where
  pub lists : HasLists b' ls'
  pub rest : (k j : ℕ) → contains (ls' k) j ≡ (if j == s then k == level else contains (ls k) j)
  pub min_block_size : b'.min_block_size ≡ b.min_block_size
  pub num_of_levels : b'.num_of_levels ≡ b.num_of_levels
  pub num_of_elements : b'.num_of_elements ≡ b.num_of_elements
  pub size_of_element : b'.size_of_element ≡ b.size_of_element
  pub is_active :
      (j : ℕ) → (b'.elements j).is_active ≡ (if j == s then true else (b.elements j).is_active)
  pub is_allocated :
      (j : ℕ)
      → (b'.elements j).is_allocated ≡ (if j == s then false else (b.elements j).is_allocated)
  pub offsets :
      (j : ℕ) → (b'.elements j).offset ≡ (if j == s then offset else (b.elements j).offset)
  pub levels : (j : ℕ) → (b'.elements j).level ≡ (if j == s then level else (b.elements j).level)

-- A new free block is made in an empty slot that the pool finds.
module _ {a n : ℕ} {hole : Option ℕ} {b : BuddyAlloc} {ls : ℕ → List ℕ} {kind : ℕ → Kind}
    (v : Inv a n hole b ls kind) (l i : ℕ) (few : l < 31) (hi : i < 2 ^ l)
    (idle : (b.elements (node l i)).is_active ≡ false)
    (found : mem_pool_get_block (node l i) b ≡ ret (node l i) b) where
  create_new_block_at :
      create_new_block l (i * 2 ^ exponent a n l) (2 ^ exponent a n l) b
      ≡ ret (node l i) (made a n (node l i) l i b)
  unfolding create_new_block
  create_new_block_at =
      let slot : calc_buddy_allocator_slot (i * 2 ^ exponent a n l) l (2 ^ exponent a n l)
          ≡ node l i =
        calc_buddy_allocator_slot_lem (exponent a n l) l i few hi in
      rw (slot, found, idle) refl

  pub new_block-Listed :
      (b' : BuddyAlloc) × (ls' : ℕ → List ℕ) × ((create_new_block l
              (i * 2 ^ exponent a n l)
              (2 ^ exponent a n l)
            >>= linked_list_add_block)
          b
        ≡ ret tt b')
      × Listed b b' ls ls' (node l i) l (i * 2 ^ exponent a n l)
  new_block-Listed =
      let b1 = made a n (node l i) l i b in
      let out : (k : ℕ) → contains (ls k) (node l i) ≡ false =
        λ k. ground (arith, v.free k (node l i), idle) in
      let (b', run, lists, same) =
        linked_list_add_block-HasLists b1 ls (node l i)
          (put_block-HasLists b ls (node l i) _ v.lists out) out in
      let lv : (b1.elements (node l i)).level ≡ l = ground (arith, few) in
      (
        b',
        update ls l (node l i ∷ ls l),
        rw create_new_block_at run,
        record {
          lists = subst (λ t. HasLists b' (update ls t (node l i ∷ ls t))) lv lists;
          rest = λ k j. elim (Bool-cases (k == l)) [
            | inl e ↦ rw (e, ==→eq k l e) refl
            | inr ne ↦ rw ne (ground (arith, out k))
          ];
          min_block_size = same.min_block_size;
          num_of_levels = same.num_of_levels;
          num_of_elements = same.num_of_elements;
          size_of_element = same.size_of_element;
          is_active = λ j. ground (arith, same.is_active j);
          is_allocated = λ j. ground (arith, same.is_allocated j);
          offsets = λ j. ground (arith, same.offset j);
          levels = λ j. ground (arith, same.level j, lv);
        },
      )

module _ {a n : ℕ} (fits : Fits a n) {hole : Option ℕ} {b : BuddyAlloc} {ls : ℕ → List ℕ}
    {kind : ℕ → Kind} (v : Inv a n hole b ls kind) (l i : ℕ) (hl : l < n) (hi : i < 2 ^ l)
    (idle : (b.elements (node l i)).is_active ≡ false) where
  pub create_new_block_lem :
      create_new_block l (i * 2 ^ exponent a n l) (2 ^ exponent a n l) b
      ≡ ret (node l i) (made a n (node l i) l i b)
  create_new_block_lem =
      create_new_block_at v l i (omega (arith, fits.records, hl)) hi idle
        (mem_pool_get_block_lem fits v (node l i) (node-lt l n i hl hi))

  pub listed :
      (b' : BuddyAlloc) × (ls' : ℕ → List ℕ) × ((create_new_block l
              (i * 2 ^ exponent a n l)
              (2 ^ exponent a n l)
            >>= linked_list_add_block)
          b
        ≡ ret tt b')
      × Listed b b' ls ls' (node l i) l (i * 2 ^ exponent a n l)
  listed =
      new_block-Listed v l i (omega (arith, fits.records, hl)) hi idle
        (mem_pool_get_block_lem fits v (node l i) (node-lt l n i hl hi))

-- An empty slot holds no block of a caller, so those stay.
pub Listed-Kept :
    (b b' : BuddyAlloc) (ls ls' : ℕ → List ℕ) (s level offset : ℕ)
    → (b.elements s).is_active ≡ false
    → Listed b b' ls ls' s level offset
    → Kept b b'
Listed-Kept b b' ls ls' s level offset idle t = record {
  same = λ j. ground (arith, t.is_active j, t.is_allocated j, idle);
  offset = λ j h. ground (arith, t.offsets j, idle, h);
  level = λ j h. ground (arith, t.levels j, idle, h);
}

-- The hole is filled by a free block.
pub Listed-Inv :
    (a n l i : ℕ) {b b' : BuddyAlloc} {ls ls' : ℕ → List ℕ} {kind : ℕ → Kind}
    → Inv a n (some (node l i)) b ls kind
    → l < n
    → i < 2 ^ l
    → Listed b b' ls ls' (node l i) l (i * 2 ^ exponent a n l)
    → Inv a n none b' ls' kind
Listed-Inv a n l i v hl hi t = record {
  least = t.min_block_size ∙ v.least;
  levels = t.num_of_levels ∙ v.levels;
  slots = t.num_of_elements ∙ v.slots;
  record_size = t.size_of_element ∙ v.record_size;
  lists = t.lists;
  free = λ k j. ground (arith, t.rest k j, v.free k j, t.is_active j, t.is_allocated j, t.levels j);
  active = λ j. ground (arith, v.active j, t.is_active j, v.hole_whole j);
  placed = λ j h. elim (Bool-cases (j == node l i)) [
    | inl e ↦ (
      i,
      ground (arith, t.levels j, e),
      ground (arith, t.levels j, e),
      ground (arith, t.levels j, t.offsets j, e),
      ground (arith, t.levels j, e),
    )
    | inr ne ↦ ground (arith, v.placed j, t.is_active j, t.levels j, t.offsets j, h, ne)
  ];
  tiling = v.tiling;
  hole_whole = λ j h. cc;
}

-- The hole is filled by a block that is handed out.
pub made-Inv :
    (a n l i : ℕ) {b : BuddyAlloc} {ls : ℕ → List ℕ} {kind : ℕ → Kind}
    → Fits a n
    → Inv a n (some (node l i)) b ls kind
    → l < n
    → i < 2 ^ l
    → Inv a n none (hand_out (node l i) (made a n (node l i) l i b)) ls kind
made-Inv a n l i {b} {ls} {kind} fits v hl hi =
    let idle : (b.elements (node l i)).is_active ≡ false = ground (arith, v.active (node l i)) in
    let out : (k : ℕ) → contains (ls k) (node l i) ≡ false =
      λ k. ground (arith, v.free k (node l i), idle) in
    let lv : l % 64 ≡ l = omega (arith, fits.records) in
    record {
      least = v.least;
      levels = v.levels;
      slots = v.slots;
      record_size = v.record_size;
      lists =
          put_block-HasLists _ ls (node l i) _ (put_block-HasLists b ls (node l i) _ v.lists out)
            out;
      free = λ k j. ground (arith, v.free k j, out k);
      active = λ j. ground (arith, v.active j, v.hole_whole j);
      placed = λ j h. elim (Bool-cases (j == node l i)) [
        | inl e ↦ (
          i,
          ground (arith, lv, e),
          ground (arith, lv, e),
          ground (arith, lv, e),
          ground (arith, lv, e),
        )
        | inr ne ↦ ground (arith, v.placed j, h, ne)
      ];
      tiling = v.tiling;
      hole_whole = λ j h. cc;
    }
