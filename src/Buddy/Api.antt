-- ===== src/Buddy/Api.antt =====
-- The public functions of BUDDY_ALLOCATOR/include/buddy_allocator.h.
use Prim.Native.Nat.{bit_and}
use client_server.Base.{
  ℕ, zero, suc, ◌+◌, ◌*◌, min, Bool, true, false, not, ◌||◌, Option, none, some, ltb, leb, ◌==◌,
  if◌then◌else◌, u32, sub32, Errno, einval, enomem, Status, ok, err, Pointer, null, live, freed,
  Run, returns, overrun,
}
use client_server.Buddy.Calc.{
  max_levels, get_block_size, calc_num_of_levels, next_pow2, calc_max_nodes, get_block_level,
}
use client_server.Buddy.State.{
  Block, BuddyAlloc, MemPool, Res, ret, fail, M, ◌>>=◌, ◌>>◌, pure, fails, read, modify,
  mem_pool_create, mem_pool_destroy,
}
use client_server.Buddy.FreeList.{
  create_new_block, linked_list_add_block, remove_buddy_block, allocate_at_level,
  find_non_empty_level, split_block_down,
}

-- `buddy_alloc_cfg_t`
pub record Cfg : Type 0 where
  pub total_mem_pool_size : ℕ
  pub min_block_size : ℕ

-- `sizeof(struct buddy_alloc_block)` on a 64-bit machine
abbrev pub sizeof_block : ℕ
sizeof_block = 24

-- What follows a call that gave a status and a result.
abbrev pub or_else {ℓ κ} : {A : Type ℓ} {B : Type κ} → Status × Option A → (Errno → B) → (A → B) → B
or_else (ok, some a) e f = f a
or_else (ok, none) e f = e einval
or_else (err x, o) e f = e x

abbrev pub is_pow2 : ℕ → Bool
is_pow2 v = bit_and v (sub32 v 1) == 0

abbrev pub first_block : ℕ → M (Unit {0})
first_block total = do blk ← create_new_block 0 0 total; linked_list_add_block blk

-- `fail:` of `buddy_alloc_create`, behind the test that `b_allocator` is there: the pool is
-- destroyed if `b_allocator->mem_pool` is not NULL.
abbrev pub torn_down : Errno → Run Status → Run (Status × Option BuddyAlloc)
torn_down e (returns rc) = returns (err e, none)
torn_down e overrun = overrun

abbrev pub failed : Errno → Pointer MemPool → Run (Status × Option BuddyAlloc)
failed e null = returns (err e, none)
failed e (live pool) = torn_down e (mem_pool_destroy (live pool))
failed e freed = torn_down e (mem_pool_destroy freed)

abbrev pub keep : Res (Unit {0}) → Run (Status × Option BuddyAlloc)
keep (ret _ b) = returns (ok, some b)
keep (fail e b) = failed e (live b.mem_pool)

-- The part of `buddy_alloc_create` behind the answer of `mem_pool_create`, for `total` bytes.
abbrev pub with_pool : ℕ → ℕ → ℕ → Status × Pointer MemPool → Run (Status × Option BuddyAlloc)
with_pool total minb num_of_levels (err e, pool) = failed e pool
with_pool total minb num_of_levels (ok, null) = overrun
with_pool total minb num_of_levels (ok, freed) = overrun
with_pool total minb num_of_levels (ok, live pool) = keep (
    first_block total (record {
      min_block_size = minb;
      num_of_levels = num_of_levels;
      mem_pool = pool;
      head = λ _. none;
    }))

-- The flags say whether `b_alloc` is given and whether each of the three calls of `calloc`
-- succeeds.
unfoldable pub buddy_alloc_create :
    Bool → Bool → Bool → Bool → Option Cfg → Run (Status × Option BuddyAlloc)
buddy_alloc_create has_out got_alloc got_pool got_elements none = returns (err einval, none)
buddy_alloc_create has_out got_alloc got_pool got_elements (some cfg) =
    let total = cfg.total_mem_pool_size in
    let minb = cfg.min_block_size in
    if not has_out
    then returns (err einval, none)
    else if (minb == 0 || total == 0) || (not (is_pow2 total) || not (is_pow2 minb))
    then returns (err einval, none)
    else if ltb total minb
    then returns (err einval, none)
    else or_else (calc_num_of_levels total minb) (λ e. returns (err e, none))
        λ num_of_levels.
          if ltb max_levels num_of_levels
          then returns (err einval, none)
          else or_else (calc_max_nodes num_of_levels) (λ e. returns (err e, none))
              λ max_nodes.
                if not got_alloc
                then returns (err enomem, none)
                else with_pool total minb num_of_levels
                    (mem_pool_create got_pool got_elements null max_nodes sizeof_block)

unfoldable pub buddy_alloc_destroy : Option BuddyAlloc → Run Status
buddy_alloc_destroy none = returns (err einval)
buddy_alloc_destroy (some b) = mem_pool_destroy (live b.mem_pool)

-- The part of `buddy_alloc_allocate` below its level computation.
unfoldable pub allocate_level : ℕ → M ℕ
allocate_level original_block_level = do
  found ← allocate_at_level original_block_level
  elim found [
    | some p ↦ pure p
    | none ↦ do
      level ← find_non_empty_level original_block_level
      p ← split_block_down level original_block_level
      modify p (λ x. record x { is_allocated = true })
      pure p
  ]

unfoldable pub allocate_size : ℕ → M ℕ
allocate_size block_size b =
    if block_size == 0
    then fail einval b
    else or_else (get_block_level b.min_block_size b.num_of_levels (next_pow2 block_size))
        (λ e. fail e b) λ level. allocate_level level b

abbrev pub finish {ℓ} : {A : Type ℓ} → Res A → Status × Option BuddyAlloc × Option A
finish (ret a b) = (ok, some b, some a)
finish (fail e b) = (err e, some b, none)

-- `has_out` is false if `block_out` is NULL.
unfoldable pub buddy_alloc_allocate :
    Option BuddyAlloc → Bool → ℕ → Status × Option BuddyAlloc × Option ℕ
buddy_alloc_allocate none has_out block_size = (err einval, none, none)
buddy_alloc_allocate (some b) false block_size = (err einval, some b, none)
buddy_alloc_allocate (some b) true block_size = finish (allocate_size block_size b)

-- The loop of `buddy_alloc_free`: the level is also the number of rounds left. It returns the
-- level, offset and size at which it stops.
unfoldable pub merge_loop : ℕ → ℕ → ℕ → M (ℕ × ℕ × ℕ)
merge_loop zero block_offset block_size = pure (0, block_offset, block_size)
merge_loop (suc level) block_offset block_size = do
  (buddy_exist, buddy_offset) ← remove_buddy_block block_offset (suc level) block_size
  elim buddy_exist [
    | false ↦ pure (suc level, block_offset, block_size)
    | true ↦ merge_loop level (min block_offset buddy_offset) (u32 (block_size * 2))
  ]

unfoldable pub free_block : ℕ → M (Unit {0})
free_block p = do
  block ← read (λ b. b.elements p)
  num_of_levels ← read (λ b. b.num_of_levels)
  if leb num_of_levels block.level then fails einval else do
    size ← read (λ b. get_block_size block.level b.min_block_size b.num_of_levels)
    modify p (λ x. record x { is_active = false })
    (level, offset, merged_size) ← merge_loop block.level block.offset size
    q ← create_new_block level offset merged_size
    linked_list_add_block q

unfoldable pub buddy_alloc_free : Option BuddyAlloc → Option ℕ → Status × Option BuddyAlloc
buddy_alloc_free none block = (err einval, none)
buddy_alloc_free (some b) none = (err einval, some b)
buddy_alloc_free (some b) (some p) = elim (free_block p b) [
  | ret _ b' ↦ (ok, some b')
  | fail e b' ↦ (err e, some b')
]

-- The out-parameters of the getters are tested for NULL: `has_out`.
unfoldable pub buddy_alloc_get_num_of_levels : Option BuddyAlloc → Bool → Status × Option ℕ
buddy_alloc_get_num_of_levels none has_out = (err einval, none)
buddy_alloc_get_num_of_levels (some b) false = (err einval, none)
buddy_alloc_get_num_of_levels (some b) true = (ok, some b.num_of_levels)

-- `while (cur) { ++count; cur = cur->next; }`, with fuel; `none` is no end in sight.
unfoldable pub count_loop : ℕ → (ℕ → Block) → Option ℕ → ℕ → Option ℕ
count_loop zero elements cur count = none
count_loop (suc fuel) elements none count = some count
count_loop (suc fuel) elements (some p) count =
    count_loop fuel elements ((elements p).next) (count + 1)

-- `free_list[level]` is read without a test of the level: from `num_of_levels` on it lies behind
-- the end of the allocation. The fuel is one more than the number of slots.
unfoldable pub buddy_alloc_count_free_blocks :
    Option BuddyAlloc → Bool → ℕ → Run (Status × Option ℕ)
buddy_alloc_count_free_blocks none has_out level = returns (err einval, none)
buddy_alloc_count_free_blocks (some b) false level = returns (err einval, none)
buddy_alloc_count_free_blocks (some b) true level =
    if leb b.num_of_levels level
    then overrun
    else returns (ok, count_loop (b.num_of_elements + 1) b.elements (b.head level) 0)

unfoldable pub buddy_alloc_get_block_level : Option Block → Bool → Status × Option ℕ
buddy_alloc_get_block_level none has_out = (err einval, none)
buddy_alloc_get_block_level (some blk) false = (err einval, none)
buddy_alloc_get_block_level (some blk) true = (ok, some blk.level)

unfoldable pub buddy_alloc_get_block_offset : Option Block → Bool → Status × Option ℕ
buddy_alloc_get_block_offset none has_out = (err einval, none)
buddy_alloc_get_block_offset (some blk) false = (err einval, none)
buddy_alloc_get_block_offset (some blk) true = (ok, some blk.offset)
