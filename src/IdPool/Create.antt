-- ===== src/IdPool/Create.antt =====
-- `id_pool_create`
use client_server.Base.{
  ℕ, zero, suc, ◌+◌, ◌-◌, ◌*◌, ◌^◌, ◌≤◌, ◌<◌, ◌≡◌, refl, ap, ◌≢◌, Bool, true, false, Option, some,
  arith, length, get_or, length-replicate, get_or-replicate, Status, ok, Run, returns, overrun,
}
use client_server.IdPool.{IdPool, IdPoolCfg, create, pool_bytes, init_free_ids, fresh_pool}
use client_server.IdPool.Flags.{free_count-replicate}
use client_server.IdPool.Inv.{is_used, IsValid}

length-init_free_ids : (off cap i n : ℕ) → length (init_free_ids off cap i n) ≡ n
unfolding init_free_ids
length-init_free_ids off cap i zero = refl
length-init_free_ids off cap i (suc n) = ap suc (length-init_free_ids off cap (i + 1) n)

get_or-init_free_ids :
    (off cap i n k : ℕ)
    → cap + off < 2 ^ 32
    → i + n ≤ cap
    → k < n
    → get_or (init_free_ids off cap i n) k 0 ≡ off + (cap - 1 - i - k)
unfolding init_free_ids
get_or-init_free_ids off cap i zero k fits h lt = absurd (omega arith)
get_or-init_free_ids off cap i (suc n) zero fits h lt = omega arith
get_or-init_free_ids off cap i (suc n) (suc k) fits h lt =
    omega (arith, get_or-init_free_ids off cap (i + 1) n k fits (omega arith) (omega arith))

module _ (cfg : IdPoolCfg) (fits : cfg.capacity + cfg.id_start_offset < 2 ^ 32) where
  abbrev nth : ℕ → ℕ
  nth i = get_or (fresh_pool cfg).free_ids i 0

  nth_lem : (i : ℕ) → i < cfg.capacity → nth i ≡ cfg.id_start_offset + (cfg.capacity - 1 - i)
  unfolding fresh_pool
  nth_lem i h = omega (
    arith,
    get_or-init_free_ids cfg.id_start_offset cfg.capacity 0 cfg.capacity i fits (omega arith) h,
  )

  pub fresh_pool-IsValid : IsValid (fresh_pool cfg)
  unfolding fresh_pool
  fresh_pool-IsValid = record {
    fits = fits;
    ids_len = length-init_free_ids cfg.id_start_offset cfg.capacity 0 cfg.capacity;
    flags_len = length-replicate cfg.capacity 0;
    counted = free_count-replicate cfg.capacity;
    ranged = λ i h. omega (arith, nth_lem i h);
    clear = λ i h. get_or-replicate cfg.capacity _ 0;
    distinct = λ i j h lt. omega (arith, nth_lem i h, nth_lem j (omega arith));
  }

-- No id of a fresh pool is in use.
pub fresh_pool-unused : (cfg : IdPoolCfg) (id : ℕ) → is_used (fresh_pool cfg) id ≡ false
unfolding fresh_pool is_used
fresh_pool-unused cfg id =
    ground (arith, get_or-replicate {A = ℕ} cfg.capacity (id - cfg.id_start_offset) 0)

pub fresh_pool-limits :
    (cfg : IdPoolCfg)
    → ((fresh_pool cfg).top ≡ cfg.capacity)
      × (((fresh_pool cfg).capacity ≡ cfg.capacity)
          × ((fresh_pool cfg).id_start_offset ≡ cfg.id_start_offset))
unfolding fresh_pool
fresh_pool-limits cfg = (refl, (refl, refl))

-- The run returns a valid pool with the limits asked for and no id in use.
pub record Creates (cfg : IdPoolCfg) (r : Run (Status × Option IdPool)) : Type 0 where
  pub p : IdPool
  pub ret : r ≡ returns (ok, some p)
  pub valid : IsValid p
  pub capacity : p.capacity ≡ cfg.capacity
  pub offset : p.id_start_offset ≡ cfg.id_start_offset
  pub unused : (id : ℕ) → is_used p id ≡ false

-- With memory at hand and a capacity that is not zero, `id_pool_create` succeeds if the struct,
-- the ids and the flags take less than 2 ^ 32 bytes and the ids stay below 2 ^ 32: it returns a
-- valid pool with the limits asked for and no id in use.
pub create-Creates :
    (malloc : ℕ → Bool) (cfg : IdPoolCfg)
    → malloc (pool_bytes cfg.capacity) ≡ true
    → cfg.capacity ≢ 0
    → 24 + 5 * cfg.capacity < 2 ^ 32
    → cfg.capacity + cfg.id_start_offset < 2 ^ 32
    → Creates cfg (create malloc true (some cfg))
unfolding create
create-Creates malloc cfg got ne small fits = record {
  p = fresh_pool cfg;
  ret = ground (arith, got);
  valid = fresh_pool-IsValid cfg fits;
  capacity = (fresh_pool-limits cfg).1.0;
  offset = (fresh_pool-limits cfg).1.1;
  unused = fresh_pool-unused cfg;
}

-- If they take 2 ^ 32 bytes or more, the size has wrapped, and `id_pool_create` writes past the
-- end of the block that it was given.
pub create_overrun :
    (malloc : ℕ → Bool) (cfg : IdPoolCfg)
    → malloc (pool_bytes cfg.capacity) ≡ true
    → cfg.capacity < 2 ^ 32
    → 2 ^ 32 ≤ 24 + 5 * cfg.capacity
    → create malloc true (some cfg) ≡ overrun
unfolding create
create_overrun malloc cfg got word big = ground (arith, got)
