-- ===== src/IdPool.antt =====
-- INFRA/src/id_pool.c and INFRA/include/id_pool.h: a pool of numeric ids, kept as a stack of free
-- ids and an array of flags. A pointer to a pool is an option (`none` for NULL), and a call that
-- changes `*pool` returns the new one beside its status and what it stores through `out_id`.
pub mod Flags
pub mod Inv
pub mod Create
pub mod Allocate
pub mod Free
pub mod RoundTrip
pub mod Held
pub mod Sequence
mod Tests
use client_server.Base.{
  ℕ, zero, suc, ◌+◌, ◌-◌, ◌*◌, ◌^◌, Bool, true, false, ◌||◌, Option, none, some, List, [], ◌∷◌, ltb,
  leb, ◌==◌, if◌then◌else◌, length, set, replicate, u32, add32, sub32, mul32, Status, ok, err,
  einval, enomem, enoent, espipe, ealready, Run, returns, overrun, ◌>>=◌, load, store,
}

pub record IdPool : Type 0 where
  pub in_use : List ℕ
  pub capacity : ℕ
  pub top : ℕ
  pub id_start_offset : ℕ
  pub free_ids : List ℕ

pub record IdPoolCfg : Type 0 where
  pub capacity : ℕ
  pub id_start_offset : ℕ

-- `sizeof(id_pool_t)` on a 64-bit machine
abbrev pub sizeof_id_pool : ℕ
sizeof_id_pool = 24

-- `total`, computed in 32 bits as the code does
abbrev pub pool_bytes : ℕ → ℕ
pool_bytes capacity = add32 (add32 sizeof_id_pool (mul32 capacity 4)) capacity

-- Where the last byte of the flags ends, `in_use + sz_inuse`, and where `free_ids` does. The
-- array begins at the struct's 20th byte.
abbrev pub in_use_end : ℕ → ℕ
in_use_end capacity = sizeof_id_pool + mul32 capacity 4 + capacity

abbrev pub free_ids_end : ℕ → ℕ
free_ids_end capacity = 20 + capacity * 4

-- the ids that the loop `for (i = 0; ...)` stores, from round `i` on, `n` rounds
pub init_free_ids : ℕ → ℕ → ℕ → ℕ → List ℕ
init_free_ids offset capacity i zero = []
init_free_ids offset capacity i (suc n) =
    u32 (offset + (capacity - 1 - i)) ∷ init_free_ids offset capacity (i + 1) n

pub fresh_pool : IdPoolCfg → IdPool
unfolding init_free_ids
fresh_pool cfg = record {
  in_use = replicate cfg.capacity 0;
  capacity = cfg.capacity;
  top = cfg.capacity;
  id_start_offset = cfg.id_start_offset;
  free_ids = init_free_ids cfg.id_start_offset cfg.capacity 0 cfg.capacity;
}

-- `malloc n` says whether `n` bytes are to be had, and `has_out` whether `pool` is not NULL.
pub create : (ℕ → Bool) → Bool → Option IdPoolCfg → Run (Status × Option IdPool)
create malloc false cfg = returns (err einval, none)
create malloc true none = returns (err einval, none)
create malloc true (some cfg) =
    if cfg.capacity == 0
    then returns (err einval, none)
    else if malloc (pool_bytes cfg.capacity)
    then (if ltb (pool_bytes cfg.capacity) (in_use_end cfg.capacity)
          || ltb (pool_bytes cfg.capacity) (free_ids_end cfg.capacity)
        then overrun
        else returns (ok, some (fresh_pool cfg)))
    else returns (err enomem, none)

pub take_top : IdPool → Run (Status × Option IdPool × Option ℕ)
take_top p = do
  id ← load p.free_ids (p.top - 1)
  flags ← store p.in_use (sub32 id p.id_start_offset) 1
  returns (ok, some (record p { top = p.top - 1; in_use = flags }), some id)

pub allocate : Option IdPool → Run (Status × Option IdPool × Option ℕ)
allocate none = returns (err einval, none, none)
allocate (some p) = if p.top == 0 then returns (err enoent, some p, none) else take_top p

pub put_back : IdPool → ℕ → Run (Status × Option IdPool)
put_back p id = do
  flags ← store p.in_use (sub32 id p.id_start_offset) 0
  ids ← store p.free_ids p.top id
  returns (ok, some (record p { in_use = flags; free_ids = ids; top = add32 p.top 1 }))

pub free : Option IdPool → ℕ → Run (Status × Option IdPool)
free none id = returns (err einval, none)
free (some p) id =
    if leb (add32 p.capacity p.id_start_offset) id || ltb id p.id_start_offset
    then returns (err espipe, some p)
    else do
      flag ← load p.in_use (sub32 id p.id_start_offset)
      if flag == 0 then returns (err ealready, some p) else put_back p id

-- `free_ids` is an array inside the struct, so it is never NULL. The pool is gone afterwards.
pub destroy : Option IdPool → Status
destroy none = err einval
destroy (some p) = ok

-- The difference is turned into an `int`: at 2 ^ 31 and above it is negative.
unfoldable pub get_used_id_count : Option IdPool → Status × Option ℕ
get_used_id_count none = (err einval, none)
get_used_id_count (some p) =
    if leb (2 ^ 31) (sub32 p.capacity p.top)
    then (err einval, none)
    else (ok, some (sub32 p.capacity p.top))
