-- ===== src/IdPool/Tests.antt =====
-- The pool of INFRA/tests/id_pool_test.cpp: five ids from 100 on.
use client_server.Base.{
  ℕ, ◌≡◌, refl, ◌≢◌, ◌⊎◌, true, false, none, some, [], ◌∷◌, arith, enoent, espipe, ealready, ok,
  err, returns, overrun, load, store, Returns,
}
use client_server.IdPool.{
  IdPool, IdPoolCfg, create, fresh_pool, allocate, take_top, free, get_used_id_count,
}
use client_server.IdPool.Inv.{is_used, in_range, IsValid}
use client_server.IdPool.Create.{Creates, create-Creates, create_overrun, fresh_pool-IsValid}
use client_server.IdPool.Allocate.{Allocated, allocate_lem, allocated-Allocated}
use client_server.IdPool.Free.{Freed, free_lem}
use client_server.IdPool.RoundTrip.{
  free-allocate, allocate-free, free-free, used_count, get_used_id_count_lem,
}
use client_server.IdPool.Sequence.{take, give, run, start, Agrees, run-fresh-Agrees}

abbrev five : IdPoolCfg
five = record { capacity = 5; id_start_offset = 100 }

abbrev huge : IdPoolCfg
huge = record { capacity = 1_000_000_000; id_start_offset = 0 }

-- Only 100 is in use.
abbrev one_used : IdPool
one_used = record {
  in_use = 1 ∷ 0 ∷ 0 ∷ 0 ∷ 0 ∷ [];
  capacity = 5;
  top = 4;
  id_start_offset = 100;
  free_ids = 104 ∷ 103 ∷ 102 ∷ 101 ∷ 100 ∷ [];
}

fresh_ids : (fresh_pool five).free_ids ≡ 104 ∷ 103 ∷ 102 ∷ 101 ∷ 100 ∷ []
unfolding fresh_pool
fresh_ids = refl

-- `IdPoolBasicAllocateFree`
first_id : allocate (some (fresh_pool five)) ≡ returns (ok, some one_used, some 100)
unfolding allocate take_top fresh_pool load store
first_id = refl

-- `IdPoolFreeInvalidId`
below_range : free (some one_used) 99 ≡ returns (err espipe, some one_used)
unfolding free
below_range = refl

above_range : free (some one_used) 106 ≡ returns (err espipe, some one_used)
unfolding free
above_range = refl

-- `IdPoolDoubleFree`
not_in_use : free (some one_used) 101 ≡ returns (err ealready, some one_used)
unfolding free load
not_in_use = refl

five-IsValid : IsValid (fresh_pool five)
five-IsValid = fresh_pool-IsValid five (omega arith)

one_used-IsValid : IsValid one_used
unfolding fresh_pool
one_used-IsValid = (allocated-Allocated five-IsValid (omega arith)).valid

create-Creates_example : Creates five (create (λ _. true) true (some five))
create-Creates_example =
    create-Creates (λ _. true) five refl (omega arith) (omega arith) (omega arith)

create_overrun_example : create (λ _. true) true (some huge) ≡ overrun
create_overrun_example = create_overrun (λ _. true) huge refl (omega arith) (omega arith)

allocate_lem_example :
    ((one_used.top ≡ 0)
      × (allocate (some one_used) ≡ returns (err enoent, some one_used, none))
      × ((id : ℕ) → is_used one_used id ≡ in_range one_used id))
    ⊎ ((id : ℕ) × (q : IdPool) × (one_used.top ≢ 0)
        × (allocate (some one_used) ≡ returns (ok, some q, some id))
        × Allocated one_used id q)
allocate_lem_example = allocate_lem one_used-IsValid

free_lem_example :
    ((in_range one_used 100 ≡ false)
      × (free (some one_used) 100 ≡ returns (err espipe, some one_used)))
    ⊎ ((in_range one_used 100 ≡ true)
        × (is_used one_used 100 ≡ false)
        × (free (some one_used) 100 ≡ returns (err ealready, some one_used)))
    ⊎ ((q : IdPool) × (is_used one_used 100 ≡ true)
        × (free (some one_used) 100 ≡ returns (ok, some q))
        × Freed one_used 100 q)
free_lem_example = free_lem 100 one_used-IsValid

run-fresh-Agrees_example :
    Returns (Agrees five) (run (start five) (take ∷ take ∷ give 100 ∷ give 100 ∷ take ∷ []))
run-fresh-Agrees_example =
    run-fresh-Agrees five (take ∷ take ∷ give 100 ∷ give 100 ∷ take ∷ []) (omega arith)

free-allocate_example :
    (id : ℕ) × (q : IdPool) × (allocate (some one_used) ≡ returns (ok, some q, some id))
    × (free (some q) id ≡ returns (ok, some one_used))
free-allocate_example = free-allocate one_used-IsValid (omega arith)

allocate-free_example :
    (q : IdPool) × (r : IdPool) × (free (some one_used) 100 ≡ returns (ok, some q))
    × (allocate (some q) ≡ returns (ok, some r, some 100))
    × ((j : ℕ) → is_used r j ≡ is_used one_used j)
unfolding is_used
allocate-free_example = allocate-free 100 one_used-IsValid refl

free-free_example :
    (q : IdPool) × (free (some one_used) 100 ≡ returns (ok, some q))
    × (free (some q) 100 ≡ returns (err ealready, some q))
unfolding is_used
free-free_example = free-free 100 one_used-IsValid refl

get_used_id_count_lem_example : get_used_id_count (some one_used) ≡ (ok, some 1)
unfolding used_count
get_used_id_count_lem_example = get_used_id_count_lem one_used-IsValid
