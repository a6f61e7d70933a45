-- ===== src/Buddy/Create.antt =====
-- `buddy_alloc_create`: the new allocator has one free block, the whole pool.
use client_server.Buddy.State.{
  BuddyAlloc, zero_block, ret, ◌>>=◌, mem_pool_create, mem_pool_get_block,
}
use client_server.Buddy.Calc.Levels.{calc_num_of_levels_lem, calc_max_nodes_lem}
use client_server.Buddy.FreeList.{create_new_block, linked_list_add_block}
use client_server.Buddy.Pow.{two-pow_pos, two-pow-lt, two-pow_mono}
use client_server.Buddy.Bits.{test_of_pow2}
use client_server.Buddy.Api.{
  sizeof_block, is_pow2, first_block, keep, with_pool, buddy_alloc_create,
}
use client_server.Buddy.Geometry.{exponent}
use client_server.Buddy.Inv.{Inv, IsValid, held}
use client_server.Buddy.Fill.{new_block-Listed, Listed-Kept, Listed-Inv}
use client_server.Buddy.Tiling.{Kind, whole, void}
use client_server.Base.{
  ℕ, ◌+◌, ◌-◌, ◌*◌, ◌^◌, ◌≤◌, ◌<◌, ◌≡◌, refl, sym, ap, ◌∙◌, Bool, true, false, not, none, some, [],
  arith, ltb, leb, ◌≢◌, ◌==◌, if◌then◌else◌, sub32, enomem, ok, err, null, live, freed, returns,
}

-- The allocator that the code fills in before its first block.
abbrev blank : ℕ → ℕ → BuddyAlloc
blank a n = record {
  min_block_size = 2 ^ a;
  num_of_levels = n;
  mem_pool = record {
    elements = λ _. zero_block;
    num_of_elements = 2 ^ n - 1;
    size_of_element = sizeof_block;
  };
  head = λ _. none;
}

abbrev root_only : ℕ → Kind
root_only j = if j == 0 then whole else void

blank-Inv : (a n : ℕ) → n ≢ 0 → Inv a n (some 0) (blank a n) (λ _. []) root_only
blank-Inv a n some_level = record {
  least = refl;
  levels = refl;
  slots = refl;
  record_size = refl;
  lists = record { chain = λ k. refl; distinct = λ k. tt; own_level = λ k j m. cc };
  free = λ k j. refl;
  active = λ j. ground arith;
  placed = λ j h. cc;
  tiling = record {
    root = refl;
    left = λ s. ground arith;
    right = λ s. ground arith;
    beyond = λ s h. ground (arith, two-pow_mono 1 n (omega (arith, some_level)), h);
  };
  hole_whole = λ j h. ground arith;
}

first_slot : (a n : ℕ) → 0 < n → mem_pool_get_block 0 (blank a n) ≡ ret 0 (blank a n)
unfolding mem_pool_get_block
first_slot a n some_level =
    let room : leb (2 ^ n - 1) 0 ≡ false = ground (arith, two-pow_mono 1 n some_level) in
    rw room refl

first_block-IsValid :
    (a n total : ℕ)
    → n ≢ 0
    → total ≡ 2 ^ exponent a n 0
    → (b : BuddyAlloc) × (first_block total (blank a n) ≡ ret tt b)
      × IsValid a n b
      × ((j : ℕ) → held (b.elements j) ≡ false)
first_block-IsValid a n total ne e =
    let v = blank-Inv a n ne in
    let some_level : 0 < n = omega (arith, ne) in
    let (b', ls', run, t) =
      new_block-Listed v 0 0 (omega arith) (omega arith) refl (first_slot a n some_level) in
    let start : 0 ≡ 0 * 2 ^ exponent a n 0 = omega arith in
    let first : first_block total (blank a n) ≡ ret tt b' =
      ap (λ t. first_block t (blank a n)) e
      ∙ ap (λ t. (create_new_block 0 t (2 ^ exponent a n 0) >>= linked_list_add_block) (blank a n))
          start
      ∙ run in
    (
      b',
      first,
      (ls', root_only, Listed-Inv a n 0 0 v some_level (omega arith) t),
      λ j. (Listed-Kept _ b' _ ls' _ _ _ refl t).same j,
    )

pub is_pow2_lem : (k : ℕ) → k < 32 → is_pow2 (2 ^ k) ≡ true
is_pow2_lem k h =
    let less : sub32 (2 ^ k) 1 ≡ 2 ^ k - 1 = omega (arith, two-pow_pos k, two-pow-lt k 32 h) in
    rw (less, test_of_pow2 k) refl

-- The code behind the tests of the sizes and the first allocation.
pub create_reach :
    (a c : ℕ) (got_alloc got_pool got_elements : Bool)
    → a ≤ c
    → c < 32
    → buddy_alloc_create true got_alloc got_pool got_elements
        (some (record { total_mem_pool_size = 2 ^ c; min_block_size = 2 ^ a }))
      ≡ (if not got_alloc
          then returns (err enomem, none)
          else with_pool
              (2 ^ c)
              (2 ^ a)
              (c - a + 1)
              (mem_pool_create got_pool got_elements null (2 ^ (c - a + 1) - 1) sizeof_block))
unfolding buddy_alloc_create
create_reach a c got_alloc got_pool got_elements h word =
    let n = c - a + 1 in
    let least : 2 ^ a == 0 ≡ false = ground (arith, two-pow_pos a) in
    let size : 2 ^ c == 0 ≡ false = ground (arith, two-pow_pos c) in
    let order : ltb (2 ^ c) (2 ^ a) ≡ false = ground (arith, two-pow_mono a c h) in
    let few : ltb 64 n ≡ false = ground (arith, word) in
    rw
      (
        least,
        size,
        is_pow2_lem c word,
        is_pow2_lem a (omega (arith, h, word)),
        order,
        calc_num_of_levels_lem a c h,
        few,
        calc_max_nodes_lem n (omega arith) (omega (arith, word)),
      )
      refl

-- The answer of `mem_pool_create` for a tree of `n` levels.
pub pool_lem :
    (n : ℕ) (got_pool got_elements : Bool)
    → 0 < n
    → mem_pool_create got_pool got_elements null (2 ^ n - 1) sizeof_block ≡ (
        if not got_pool
        then (err enomem, null)
        else if not got_elements
        then (err enomem, freed)
        else (
          ok,
          live (record {
            elements = λ _. zero_block;
            num_of_elements = 2 ^ n - 1;
            size_of_element = sizeof_block;
          }),
        ))
unfolding mem_pool_create
pool_lem n got_pool got_elements some_level =
    let some_nodes : 2 ^ n - 1 == 0 ≡ false = ground (arith, two-pow_mono 1 n some_level) in
    rw some_nodes refl

-- For a pool of `2 ^ c` bytes in blocks of `2 ^ a` bytes or more and a 32-bit size,
-- `buddy_alloc_create` succeeds if the memory is there. The allocator is valid and nobody
-- holds a block of it.
pub buddy_alloc_create-IsValid :
    (a c : ℕ)
    → a ≤ c
    → c < 32
    → (b : BuddyAlloc) × (buddy_alloc_create true true true true
          (some (record { total_mem_pool_size = 2 ^ c; min_block_size = 2 ^ a }))
        ≡ returns (ok, some b))
      × IsValid a (c - a + 1) b
      × ((j : ℕ) → held (b.elements j) ≡ false)
buddy_alloc_create-IsValid a c h word =
    let n = c - a + 1 in
    let top : exponent a n 0 ≡ c = omega (arith, h) in
    let (b, run, valid, nobody) =
      first_block-IsValid a n (2 ^ c) (omega arith) (ap (λ t. 2 ^ t) (sym top)) in
    (
      b,
      create_reach a c true true true h word
          ∙ ap (with_pool (2 ^ c) (2 ^ a) n) (pool_lem n true true (omega arith))
          ∙ ap keep run,
      valid,
      nobody,
    )
