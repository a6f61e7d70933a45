-- ===== src/Buddy/FreeList.antt =====
-- The free lists and the block operations of BUDDY_ALLOCATOR/src/buddy_allocator.c: its
-- "INTERNAL LINKED LIST API" and "INTERNAL BUDDY ALLOCATOR API". Out-parameters are the addresses
-- of locals of the callers, never NULL, and are returned.
use client_server.Base.{
  ℕ, zero, suc, ◌+◌, ◌-◌, ◌/◌, ◌%◌, Bool, true, false, not, ◌||◌, Option, none, some, leb,
  if◌then◌else◌, einval, enomem, enfile,
}
use client_server.Buddy.Calc.{calc_buddy_allocator_slot, get_buddy_offset, get_block_size}
use client_server.Buddy.State.{
  Block, ret, fail, M, ◌>>=◌, ◌>>◌, pure, fails, read, modify, set_head, mem_pool_get_block,
}

-- `level` is a bit-field of 6 bits.
abbrev pub new_block : ℕ → ℕ → Block
new_block level offset = record {
  next = none;
  prev = none;
  offset = offset;
  level = level % 64;
  is_active = true;
  is_allocated = false;
}

-- Of the old block only `is_allocated` and `is_active` are read.
unfoldable pub create_new_block : ℕ → ℕ → ℕ → M ℕ
create_new_block level offset block_size = do
  p ← mem_pool_get_block (calc_buddy_allocator_slot offset level block_size)
  block ← read (λ b. b.elements p)
  if block.is_active then fails einval else do modify p (λ _. new_block level offset); pure p

-- `if (head != NULL) head->prev = input_block`
abbrev pub set_prev : Option ℕ → Option ℕ → M (Unit {0})
set_prev none q = pure tt
set_prev (some p) q = modify p (λ x. record x { prev = q })

-- `if (prev_block != NULL) prev_block->next = next_block; else free_list[level].head = next_block`
abbrev pub set_next_or_head : Option ℕ → ℕ → Option ℕ → M (Unit {0})
set_next_or_head none level q = set_head level q
set_next_or_head (some p) level q = modify p (λ x. record x { next = q })

unfoldable pub linked_list_add_block : ℕ → M (Unit {0})
linked_list_add_block p = do
  level ← read (λ b. (b.elements p).level)
  old ← read (λ b. b.head level)
  set_prev old (some p)
  modify p (λ x. record x { next = old; prev = none })
  set_head level (some p)

unfoldable pub linked_list_extract_block : ℕ → ℕ → M (Unit {0})
linked_list_extract_block p level = do
  next_block ← read (λ b. (b.elements p).next)
  prev_block ← read (λ b. (b.elements p).prev)
  set_prev next_block prev_block
  set_next_or_head prev_block level next_block

-- Returns whether the buddy was found free and removed, and the buddy's offset.
unfoldable pub remove_buddy_block : ℕ → ℕ → ℕ → M (Bool × ℕ)
remove_buddy_block offset level block_size = do
  let buddy_offset = get_buddy_offset offset block_size
  p ← mem_pool_get_block (calc_buddy_allocator_slot buddy_offset level block_size)
  buddy ← read (λ b. b.elements p)
  if not buddy.is_active || buddy.is_allocated then pure (false, buddy_offset) else do
    linked_list_extract_block p level
    modify p (λ x. record x { is_active = false })
    pure (true, buddy_offset)

-- `none` is `*found_block = false`.
unfoldable pub allocate_at_level : ℕ → M (Option ℕ)
allocate_at_level level = do
  target ← read (λ b. b.head level)
  elim target [
    | none ↦ pure none
    | some p ↦ do
      linked_list_extract_block p level
      modify p (λ x. record x { is_allocated = true })
      pure (some p)
  ]

-- `while (level > 0 && free_list[level].head == NULL) level--`, then the test of the head.
unfoldable pub find_non_empty_level : ℕ → M ℕ
find_non_empty_level zero b = elim (b.head 0) [ none ↦ fail enfile b | some p ↦ ret 0 b ]
find_non_empty_level (suc level) b = elim (b.head (suc level)) [
  | none ↦ find_non_empty_level level b
  | some p ↦ ret (suc level) b
]

-- The loop of `split_block_down`: `n` rounds from `lev` on; returns the last block size.
unfoldable pub split_loop : ℕ → ℕ → ℕ → ℕ → M ℕ
split_loop zero lev blk_offset b_size = pure b_size
split_loop (suc n) lev blk_offset b_size = do
  buddy ← create_new_block lev (get_buddy_offset blk_offset (b_size / 2)) (b_size / 2)
  linked_list_add_block buddy
  split_loop n (lev + 1) blk_offset (b_size / 2)

unfoldable pub split_block_down : ℕ → ℕ → M ℕ
split_block_down src_level target_level = do
  num_of_levels ← read (λ b. b.num_of_levels)
  if leb num_of_levels src_level || (leb num_of_levels target_level || leb target_level src_level)
      then fails einval
      else do
        start ← read (λ b. b.head src_level)
        elim start [
          | none ↦ fails enomem
          | some p ↦ do
            linked_list_extract_block p src_level
            modify p (λ x. record x { is_active = false })
            blk_offset ← read (λ b. (b.elements p).offset)
            size ← read (λ b. get_block_size src_level b.min_block_size b.num_of_levels)
            b_size ← split_loop (target_level - src_level) (src_level + 1) blk_offset size
            create_new_block target_level blk_offset b_size
        ]
