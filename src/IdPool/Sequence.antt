-- ===== src/IdPool/Sequence.antt =====
-- Clients of one pool: any sequence of `id_pool_allocate` and `id_pool_free` calls, with the list
-- of the ids that were handed out and not yet taken back.
use client_server.Base.{
  ℕ, ◌+◌, ◌^◌, ◌<◌, ◌≡◌, refl, sym, ◌∙◌, inl, inr, true, Option, none, some, List, [], ◌∷◌, arith,
  length, Status, ok, err, Run, returns, ◌>>=◌, Returns, done, bind-Returns,
}
use client_server.IdPool.{IdPool, IdPoolCfg, fresh_pool, allocate, free}
use client_server.IdPool.Inv.{is_used, IsValid}
use client_server.IdPool.Create.{fresh_pool-IsValid, fresh_pool-unused, fresh_pool-limits}
use client_server.IdPool.Allocate.{Allocated, allocate_lem}
use client_server.IdPool.Free.{Freed, free_lem}
use client_server.IdPool.Held.{
  contains, remove, Distinct, contains-remove, remove-Distinct, length-remove,
}

pub data Op : Type 0 where
  take : Op
  give : ℕ → Op

pub record World : Type 0 where
  pub pool : Option IdPool
  pub held : List ℕ

abbrev pub add_out : Option ℕ → List ℕ → List ℕ
add_out none held = held
add_out (some id) held = id ∷ held

abbrev pub drop_if_ok : Status → ℕ → List ℕ → List ℕ
drop_if_ok ok id held = remove id held
drop_if_ok (err e) id held = held

pub step : World → Op → Run World
step w take = do
  (rc, q, out) ← allocate w.pool
  returns (record { pool = q; held = add_out out w.held })
step w (give id) = do
  (rc, q) ← free w.pool id
  returns (record { pool = q; held = drop_if_ok rc id w.held })

pub run : World → List Op → Run World
run w [] = returns w
run w (o ∷ os) = do w' ← step w o; run w' os

abbrev pub start : IdPoolCfg → World
start cfg = record { pool = some (fresh_pool cfg); held = [] }

-- The held ids are distinct, they are exactly those that the pool has in use, and with the free
-- ones they make up the capacity.
pub record Agrees (cfg : IdPoolCfg) (w : World) : Type 0 where
  pub p : IdPool
  pub is_pool : w.pool ≡ some p
  pub valid : IsValid p
  pub limits : (p.capacity ≡ cfg.capacity) × (p.id_start_offset ≡ cfg.id_start_offset)
  pub same : (j : ℕ) → contains w.held j ≡ is_used p j
  pub distinct : Distinct w.held
  pub counts : length w.held + p.top ≡ cfg.capacity

module _ {cfg : IdPoolCfg} where
  taken :
      {w : World} {q : IdPool} (id : ℕ) (g : Agrees cfg w)
      → Allocated g.p id q
      → Agrees cfg (record { pool = some q; held = id ∷ w.held })
  unfolding contains
  taken {q} id g a = record {
    p = q;
    is_pool = refl;
    valid = a.valid;
    limits = (a.capacity ∙ g.limits.0, a.offset ∙ g.limits.1);
    same = λ j. ground (arith, g.same j, a.marks j);
    distinct = (g.same id ∙ a.was_free, g.distinct);
    counts = omega (arith, g.counts, a.counts);
  }

  given :
      {w : World} {q : IdPool} (id : ℕ) (g : Agrees cfg w)
      → is_used g.p id ≡ true
      → Freed g.p id q
      → Agrees cfg (record { pool = some q; held = remove id w.held })
  given {w} {q} id g u f = record {
    p = q;
    is_pool = refl;
    valid = f.valid;
    limits = (f.capacity ∙ g.limits.0, f.offset ∙ g.limits.1);
    same = λ j. ground (arith, g.same j, f.marks j, contains-remove id j w.held);
    distinct = remove-Distinct id w.held g.distinct;
    counts = omega (arith, g.counts, f.counts, length-remove id w.held g.distinct (g.same id ∙ u));
  }

  unchanged :
      {w : World} (g : Agrees cfg w) → Agrees cfg (record { pool = some g.p; held = w.held })
  unchanged g = record {
    p = g.p;
    is_pool = refl;
    valid = g.valid;
    limits = g.limits;
    same = g.same;
    distinct = g.distinct;
    counts = g.counts;
  }

  step-Agrees : (w : World) (o : Op) → Agrees cfg w → Returns (Agrees cfg) (step w o)
  unfolding step
  step-Agrees w take g = elim (allocate_lem g.valid) [
    | inl (e, r, _) ↦ rw (g.is_pool, r) (done (unchanged g))
    | inr (id, q, ne, r, a) ↦ rw (g.is_pool, r) (done (taken id g a))
  ]
  step-Agrees w (give id) g = elim (free_lem id g.valid) [
    | inl (o, r) ↦ rw (g.is_pool, r) (done (unchanged g))
    | inr (inl (i, n, r)) ↦ rw (g.is_pool, r) (done (unchanged g))
    | inr (inr (q, u, r, f)) ↦ rw (g.is_pool, r) (done (given id g u f))
  ]

  run-Agrees : (os : List Op) (w : World) → Agrees cfg w → Returns (Agrees cfg) (run w os)
  unfolding run
  run-Agrees [] w g = done g
  run-Agrees (o ∷ os) w g = bind-Returns (step-Agrees w o g) (λ w' g'. run-Agrees os w' g')

-- From a fresh pool no sequence of calls makes an access out of bounds, and after each the held
-- ids are distinct, are exactly those that the pool has in use, and make up the capacity with the
-- free ones: no id is handed out while somebody holds it, and none is lost.
pub run-fresh-Agrees :
    (cfg : IdPoolCfg) (os : List Op)
    → cfg.capacity + cfg.id_start_offset < 2 ^ 32
    → Returns (Agrees cfg) (run (start cfg) os)
unfolding contains
run-fresh-Agrees cfg os fits = run-Agrees os (start cfg) (record {
  p = fresh_pool cfg;
  is_pool = refl;
  valid = fresh_pool-IsValid cfg fits;
  limits = (fresh_pool-limits cfg).1;
  same = λ j. sym (fresh_pool-unused cfg j);
  distinct = tt;
  counts = omega (arith, (fresh_pool-limits cfg).0);
})
