-- ===== src/Buddy/CallTests.antt =====
-- The calls on the allocator of BUDDY_ALLOCATOR/tests/buddy_allocator.cpp, 4096 bytes in blocks
-- from 512 on, with its two halves in use, and with the first half in use.
use client_server.Buddy.State.{Block, BuddyAlloc, zero_block}
use client_server.Buddy.FreeList.{new_block}
use client_server.Buddy.Api.{Cfg, buddy_alloc_create, buddy_alloc_free}
use client_server.Buddy.Inv.{Fits, Inv, IsValid}
use client_server.Buddy.Tiling.{Kind, split, whole, void, Tiling}
use client_server.Buddy.Request.{Served, buddy_alloc_allocate-Served}
use client_server.Buddy.Release.{Released, buddy_alloc_free-Released}
use client_server.Buddy.Creation.{Creation, buddy_alloc_create-Creation}
use client_server.Buddy.Disjoint.{Apart, size_of, held-Apart}
use client_server.Buddy.Sequence.{Call, request, release, run, Agrees, run-created-Agrees}
use client_server.Buddy.Api.{buddy_alloc_count_free_blocks}
use client_server.Buddy.Inv.{is_free}
use client_server.Buddy.Count.{tally, buddy_alloc_count_free_blocks-tally}
use client_server.Base.{
  ℕ, ◌+◌, ◌-◌, ◌*◌, ◌^◌, ◌≤◌, ◌<◌, ◌≡◌, refl, inl, inr, Bool, true, false, not, ◌&&◌, ◌||◌, Option,
  none, some, List, [], ◌∷◌, arith, ltb, ◌==◌, if◌then◌else◌, ==→eq, Bool-cases, ok, returns,
  overrun,
}

pub four_levels : Fits 9 4
four_levels = record { some_level = omega arith; word = omega arith; records = omega arith }

-- Slot 2 is in use or free.
abbrev halves_in : Bool → ℕ → Block
halves_in in_use j =
    if j == 1
    then record (new_block 1 0) { is_allocated = true }
    else if j == 2
    then record (new_block 1 2048) { is_allocated = in_use }
    else zero_block

abbrev free_heads : Bool → ℕ → Option ℕ
free_heads in_use k = if k == 1 && not in_use then some 2 else none

abbrev free_lists : Bool → ℕ → List ℕ
free_lists in_use k = if k == 1 && not in_use then 2 ∷ [] else []

abbrev pub pool : Bool → BuddyAlloc
pool in_use = record {
  min_block_size = 512;
  num_of_levels = 4;
  mem_pool = record { elements = halves_in in_use; num_of_elements = 15; size_of_element = 24 };
  head = free_heads in_use;
}

abbrev two_halves : ℕ → Kind
two_halves j = if j == 0 then split else if j == 1 || j == 2 then whole else void

two_halves-Tiling : Tiling 4 two_halves
two_halves-Tiling = record {
  root = refl;
  left = λ s. ground arith;
  right = λ s. ground arith;
  beyond = λ s h. ground (arith, h);
}

pool-Inv : (in_use : Bool) → Inv 9 4 none (pool in_use) (free_lists in_use) two_halves
pool-Inv in_use = record {
  least = refl;
  levels = refl;
  slots = refl;
  record_size = refl;
  lists = record {
    chain = λ k. elim (Bool-cases (k == 1 && not in_use)) [
      | inl e ↦ rw e (refl, ground (arith, e), ground (arith, e))
      | inr e ↦ rw e refl
    ];
    distinct =
        λ k. elim (Bool-cases (k == 1 && not in_use)) [ inl e ↦ rw e (refl, tt) | inr e ↦ rw e tt ];
    own_level = λ k j m. ground (arith, m);
  };
  free = λ k j. ground arith;
  active = λ j. ground arith;
  placed = λ j h. elim (Bool-cases (j == 1)) [
    | inl e ↦ rw e (0, omega arith, omega arith, refl, ==→eq j 1 e)
    | inr ne ↦ elim (Bool-cases (j == 2)) [
      | inl e ↦ rw (ne, e) (1, omega arith, omega arith, refl, ==→eq j 2 e)
      | inr ne' ↦ absurd (ground (arith, ne, ne', h))
    ]
  ];
  tiling = two_halves-Tiling;
  hole_whole = λ j h. cc;
}

pub pool-IsValid : (in_use : Bool) → IsValid 9 4 (pool in_use)
pool-IsValid in_use = (free_lists in_use, two_halves, pool-Inv in_use)

buddy_alloc_allocate-Served_example :
    (e : ℕ) × (1000 ≤ 2 ^ e) × (2 ^ e < 2 * 1000) × Served 9 4 e 1000 (pool false)
buddy_alloc_allocate-Served_example =
    buddy_alloc_allocate-Served 9 4 (pool false) 1000 four_levels (pool-IsValid false) (omega arith)
      (omega arith)

buddy_alloc_free-Released_example :
    (b' : BuddyAlloc) × (buddy_alloc_free (some (pool false)) (some 1) ≡ (ok, some b'))
    × IsValid 9 4 b'
    × Released 1 (pool false) b'
buddy_alloc_free-Released_example =
    buddy_alloc_free-Released 9 4 (pool false) 1 four_levels (pool-IsValid false) refl

held-Apart_example :
    Apart 0 (size_of (pool true) 1) 2048 (size_of (pool true) 2)
    × (0 + size_of (pool true) 1 ≤ 2 ^ (9 + (4 - 1)))
held-Apart_example =
    held-Apart 9 4 (pool true) 1 2 four_levels (pool-IsValid true) (omega arith) refl refl

abbrev cfg : Cfg
cfg = record { total_mem_pool_size = 4096; min_block_size = 512 }

buddy_alloc_create-Creation_example : Creation true true false cfg
buddy_alloc_create-Creation_example =
    buddy_alloc_create-Creation cfg (omega arith) (omega arith) true true false

abbrev calls : List Call
calls =
    request 1024
    ∷ request 600
    ∷ release 3
    ∷ request 2048
    ∷ release 2
    ∷ release 2
    ∷ request 5000
    ∷ []

run-created-Agrees_example :
    (b : BuddyAlloc) × (buddy_alloc_create true true true true
        (some (record { total_mem_pool_size = 2 ^ 12; min_block_size = 2 ^ 9 }))
      ≡ returns (ok, some b))
    × Agrees 9 (12 - 9 + 1) (run calls (b, []))
run-created-Agrees_example = run-created-Agrees 9 12 calls (omega arith) (omega arith) (omega arith)

buddy_alloc_count_free_blocks-tally_example :
    buddy_alloc_count_free_blocks (some (pool false)) true 1 ≡ (
      if ltb 1 4
      then returns (
        ok,
        some (
            tally
              (λ j. is_free ((pool false).elements j) && ((pool false).elements j).level == 1)
              (pool false).num_of_elements),
      )
      else overrun)
buddy_alloc_count_free_blocks-tally_example =
    buddy_alloc_count_free_blocks-tally 9 4 (pool false) 1 four_levels (pool-IsValid false)
