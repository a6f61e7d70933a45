-- ===== src/Stack/Tests.antt =====
-- A stack of three values with two on it.
use client_server.Base.{
  ℕ, zero, suc, ◌^◌, ◌<◌, ◌≡◌, refl, true, none, some, [], ◌∷◌, arith, get_or, einval, enoent, ok,
  err, returns, load,
}
use client_server.Stack.{Stack, pop}
use client_server.Stack.Spec.{put, take, spec_run}
use client_server.Stack.Refine.{items_below, IsValid}
use client_server.Stack.Sequence.{run, run_refines}

abbrev two_items : Stack
two_items = record { num_of_items = 2; size = 3; stack_array = 7 ∷ 8 ∷ 0 ∷ [] }

two_values : (i : ℕ) → get_or two_items.stack_array i 0 < 2 ^ 16
two_values zero = omega arith
two_values (suc zero) = omega arith
two_values (suc (suc zero)) = omega arith
two_values (suc (suc (suc i))) = omega arith

two_items-IsValid : IsValid two_items
two_items-IsValid = record {
  room = omega arith;
  word = omega arith;
  array_len = refl;
  values = two_values;
}

last_out :
    pop (some two_items) true ≡ returns (ok, some (record two_items { num_of_items = 1 }), some 8)
unfolding pop load
last_out = refl

run_refines_example :
    run (some two_items) (put 70_000 ∷ put 1 ∷ take ∷ take ∷ take ∷ take ∷ [])
    ≡ returns (
        (ok, none)
        ∷ (err einval, none)
        ∷ (ok, some 4464)
        ∷ (ok, some 8)
        ∷ (ok, some 7)
        ∷ (err enoent, none)
        ∷ [])
unfolding spec_run items_below
run_refines_example =
    run_refines (put 70_000 ∷ put 1 ∷ take ∷ take ∷ take ∷ take ∷ []) two_items-IsValid
