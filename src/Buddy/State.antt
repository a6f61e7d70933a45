-- ===== src/Buddy/State.antt =====
-- The state of BUDDY_ALLOCATOR/src/buddy_allocator.c and its memory pool of block records.
use client_server.Base.{
  ℕ, ◌/◌, Bool, false, ◌||◌, Option, none, leb, ◌==◌, if◌then◌else◌, mul32, Errno, einval, enomem,
  Status, ok, err, not, Pointer, null, live, freed, Run, returns, overrun,
}

-- `struct buddy_alloc_block`. A pointer to a block is the number of the slot of the pool that it
-- points into, and `none` is NULL.
pub record Block : Type 0 where
  pub next : Option ℕ
  pub prev : Option ℕ
  pub offset : ℕ
  pub level : ℕ
  pub is_active : Bool
  pub is_allocated : Bool

-- what `calloc` leaves in a slot
abbrev pub zero_block : Block
zero_block = record {
  next = none;
  prev = none;
  offset = 0;
  level = 0;
  is_active = false;
  is_allocated = false;
}

-- `mem_pool_t`. Only slots below `num_of_elements` are reached.
pub record MemPool : Type 0 where
  pub elements : ℕ → Block
  pub num_of_elements : ℕ
  pub size_of_element : ℕ

-- `buddy_alloc_t`: `head` gives the head of the free list of each level below `num_of_levels`.
pub record BuddyAlloc : Type 0 where
  pub min_block_size : ℕ
  pub num_of_levels : ℕ
  pub mem_pool : MemPool
  pub open mem_pool use *
  pub head : ℕ → Option ℕ

abbrev pub update {ℓ} : {A : Type ℓ} → (ℕ → A) → ℕ → A → ℕ → A
update f k v j = if j == k then v else f j

-- `*block = v`, and `free_list[level].head = h`.
abbrev pub put_block : BuddyAlloc → ℕ → Block → BuddyAlloc
put_block b p v = record b { mem_pool = record (b.mem_pool) { elements = update b.elements p v } }

abbrev pub put_head : BuddyAlloc → ℕ → Option ℕ → BuddyAlloc
put_head b level h = record b { head = update b.head level h }

-- A call that runs on the allocator: it returns a value, or fails with an error number, and
-- either way leaves the allocator as it then is.
pub data Res {ℓ} (A : Type ℓ) : Type ℓ where
  ret : A → BuddyAlloc → Res A
  fail : Errno → BuddyAlloc → Res A

abbrev pub M {ℓ} : Type ℓ → Type ℓ
M A = BuddyAlloc → Res A

abbrev pub then_run {ℓ κ} : {A : Type ℓ} {B : Type κ} → Res A → (A → M B) → Res B
then_run (ret a b) f = f a b
then_run (fail e b) f = fail e b

-- `rc = f(...); if (rc != 0) return rc;`
infixl 5 ◌>>=◌ ◌>>◌
abbrev pub ◌>>=◌ {ℓ κ} : {A : Type ℓ} {B : Type κ} → M A → (A → M B) → M B
◌>>=◌ m f b = then_run (m b) f

abbrev pub ◌>>◌ {ℓ} : {B : Type ℓ} → M (Unit {0}) → M B → M B
m >> k = m >>= λ _. k

abbrev pub pure {ℓ} : {A : Type ℓ} → A → M A
pure a b = ret a b

abbrev pub fails {ℓ} : {A : Type ℓ} → Errno → M A
fails e b = fail e b

abbrev pub read {ℓ} : {A : Type ℓ} → (BuddyAlloc → A) → M A
read f b = ret (f b) b

-- `block->f(...)`: changes one block in place.
abbrev pub modify : ℕ → (Block → Block) → M (Unit {0})
modify p f b = ret tt (put_block b p (f (b.elements p)))

abbrev pub set_head : ℕ → Option ℕ → M (Unit {0})
set_head level h b = ret tt (put_head b level h)

-- The pool's create takes the outcome of its two calls of `calloc`, and the pointer at `pool`
-- before. If the second one fails, `*pool` is freed and stays as it is.
unfoldable pub mem_pool_create : Bool → Bool → Pointer MemPool → ℕ → ℕ → Status × Pointer MemPool
mem_pool_create got_pool got_elements pool num_elements element_size =
    if num_elements == 0 || element_size == 0
    then (err einval, pool)
    else if not got_pool
    then (err enomem, null)
    else if not got_elements
    then (err enomem, freed)
    else (
      ok,
      live (record {
        elements = λ _. zero_block;
        num_of_elements = num_elements;
        size_of_element = element_size;
      }),
    )

-- A pool that is freed already is read and freed again.
unfoldable pub mem_pool_destroy : Pointer MemPool → Run Status
mem_pool_destroy null = returns (err einval)
mem_pool_destroy (live pool) = returns ok
mem_pool_destroy freed = overrun

-- The address is `elements_array` and `slot_index * size_of_element` bytes, computed in 32 bits;
-- the result is the slot that it points into.
unfoldable pub mem_pool_get_block : ℕ → M ℕ
mem_pool_get_block slot_index b =
    if leb b.num_of_elements slot_index
    then fail einval b
    else ret (mul32 slot_index b.size_of_element / b.size_of_element) b
