-- ===== src/Buddy/Tests.antt =====
-- The allocator of BUDDY_ALLOCATOR/tests/buddy_allocator.cpp: 4096 bytes in blocks from 512 on.
use client_server.Base.{
  ℕ, zero, suc, ◌+◌, ◌-◌, ◌*◌, ◌^◌, ◌≤◌, ◌<◌, ◌≡◌, refl, true, ◌&&◌, Option, none, some, List, [],
  ◌∷◌, arith, ltb, leb, if◌then◌else◌, u32, einval, Status, ok, err, Run, returns, overrun,
}
use client_server.Buddy.Chain.{contains, remove}
use client_server.Buddy.Links.{SameButLinks}
use client_server.Buddy.Lists.{
  HasLists, linked_list_add_block-HasLists, linked_list_extract_block-HasLists,
}
use client_server.Buddy.Calc.NextPow2.{next_pow2_lem}
use client_server.Buddy.Calc.Levels.{get_block_level-next_pow2}
use client_server.Buddy.Calc.{
  smear, shifts, halvings, add_nodes, get_block_size, calc_num_of_levels, next_pow2, calc_max_nodes,
  get_block_level, calc_buddy_allocator_slot, get_buddy_offset,
}
use client_server.Buddy.State.{
  BuddyAlloc, Block, zero_block, update, ret, mem_pool_create, mem_pool_get_block,
}
use client_server.Buddy.FreeList.{
  new_block, create_new_block, linked_list_add_block, linked_list_extract_block, remove_buddy_block,
  allocate_at_level, find_non_empty_level, split_loop, split_block_down,
}
use client_server.Buddy.Api.{
  Cfg, buddy_alloc_create, buddy_alloc_allocate, buddy_alloc_free, buddy_alloc_count_free_blocks,
  allocate_level, allocate_size, merge_loop, free_block, count_loop,
}

abbrev cfg : Cfg
cfg = record { total_mem_pool_size = 4096; min_block_size = 512 }

-- A sequence of calls: `alloc size`, or the free of a slot.
data Call : Type 0 where
  alloc : ℕ → Call
  release : ℕ → Call

play : Option BuddyAlloc → List Call → List (Status × Option ℕ) × Option BuddyAlloc
unfolding buddy_alloc_allocate buddy_alloc_free
play b [] = ([], b)
play b (alloc n ∷ cs) =
    let (rc, b', out) = buddy_alloc_allocate b true n in
    let (rs, b'') = play b' cs in ((rc, out) ∷ rs, b'')
play b (release p ∷ cs) =
    let (rc, b') = buddy_alloc_free b (some p) in
    let (rs, b'') = play b' cs in ((rc, none) ∷ rs, b'')

free_counts : Option BuddyAlloc → List (Run (Status × Option ℕ))
unfolding buddy_alloc_count_free_blocks count_loop
free_counts b =
    buddy_alloc_count_free_blocks b true 0
    ∷ buddy_alloc_count_free_blocks b true 1
    ∷ buddy_alloc_count_free_blocks b true 2
    ∷ buddy_alloc_count_free_blocks b true 3
    ∷ []

abbrev the_alloc : Run (Status × Option BuddyAlloc) → Option BuddyAlloc
the_alloc (returns (rc, b)) = b
the_alloc overrun = none

abbrev made : Option BuddyAlloc
made = the_alloc (buddy_alloc_create true true true true (some cfg))

initial_free_list : List (Run (Status × Option ℕ))
unfolding buddy_alloc_create calc_num_of_levels halvings calc_max_nodes add_nodes mem_pool_create
    create_new_block linked_list_add_block mem_pool_get_block calc_buddy_allocator_slot free_counts
initial_free_list = free_counts made

simple : List (Status × Option ℕ) × List (Run (Status × Option ℕ))
unfolding buddy_alloc_create calc_num_of_levels halvings calc_max_nodes add_nodes mem_pool_create
    create_new_block linked_list_add_block mem_pool_get_block calc_buddy_allocator_slot free_counts
    play allocate_size allocate_level get_block_level next_pow2 smear shifts allocate_at_level
    find_non_empty_level split_block_down split_loop linked_list_extract_block get_block_size
    free_block merge_loop remove_buddy_block get_buddy_offset
simple =
    let (rs, b) = play made (
      alloc 1024
      ∷ alloc 1024
      ∷ release 3
      ∷ alloc 2048
      ∷ alloc 512
      ∷ alloc 1024
      ∷ release 7
      ∷ alloc 1024
      ∷ release 3
      ∷ release 2
      ∷ release 4
      ∷ []) in
    (rs, free_counts b)

-- An allocator with the free block 0, and a block in slot 1 that is in no list.
abbrev blocks : ℕ → Block
blocks zero = new_block 0 0
blocks (suc zero) = new_block 1 0
blocks (suc (suc j)) = zero_block

abbrev heads : ℕ → Option ℕ
heads zero = some 0
heads (suc k) = none

abbrev one_list : ℕ → List ℕ
one_list zero = 0 ∷ []
one_list (suc k) = []

abbrev one_free : BuddyAlloc
one_free = record {
  min_block_size = 512;
  num_of_levels = 4;
  mem_pool = record { elements = blocks; num_of_elements = 15; size_of_element = 24 };
  head = heads;
}

one_free-HasLists : HasLists one_free one_list
one_free-HasLists = record {
  chain = elim [ zero ↦ (refl, refl, refl) | (suc k) ↦ refl ];
  distinct = elim [ zero ↦ (refl, tt) | (suc k) ↦ tt ];
  own_level = own;
}
  where
    own : (k j : ℕ) → contains (one_list k) j ≡ true → (blocks j).level ≡ k
    own zero zero m = refl
    own zero (suc j) m = ground arith
    own (suc k) j m = cc

linked_list_add_block-HasLists_example :
    (b' : BuddyAlloc) × (linked_list_add_block 1 one_free ≡ ret tt b')
    × HasLists b' (update one_list 1 (1 ∷ []))
    × SameButLinks one_free b'
linked_list_add_block-HasLists_example =
    linked_list_add_block-HasLists one_free one_list 1 one_free-HasLists
      (elim [ zero ↦ refl | (suc k) ↦ refl ])

linked_list_extract_block-HasLists_example :
    (b' : BuddyAlloc) × (linked_list_extract_block 0 0 one_free ≡ ret tt b')
    × HasLists b' (update one_list 0 (remove 0 (0 ∷ [])))
    × SameButLinks one_free b'
linked_list_extract_block-HasLists_example =
    linked_list_extract_block-HasLists one_free one_list 0 0 one_free-HasLists refl

next_pow2_lem_example :
    (e : ℕ) × (e ≤ 32) × (1000 ≤ 2 ^ e) × (2 ^ e < 2 * 1000) × (next_pow2 1000 ≡ u32 (2 ^ e))
next_pow2_lem_example = next_pow2_lem 1000 (omega arith) (omega arith)

get_block_level-next_pow2_example :
    (e : ℕ) × (1000 ≤ 2 ^ e)
    × (2 ^ e < 2 * 1000)
    × (get_block_level (2 ^ 9) 4 (next_pow2 1000)
        ≡ (if leb 9 e && ltb e (9 + 4) then (ok, some (9 + 4 - 1 - e)) else (err einval, none)))
get_block_level-next_pow2_example =
    get_block_level-next_pow2 9 4 1000 (omega arith) (omega arith) (omega arith) (omega arith)
