-- ===== src/IdPool/RoundTrip.antt =====
-- Two calls in a row on a valid pool, and the count of the ids in use.
use client_server.Base.{
  ℕ, ◌+◌, ◌-◌, ◌^◌, ◌≡◌, refl, ap, ◌∙◌, ◌≢◌, true, none, some, List, [], ◌∷◌, arith, ltb, ◌==◌,
  if◌then◌else◌, length, get_or, set, get_or-set_self, set-set_self, set-get_or, einval, ealready,
  ok, err, returns,
}
use client_server.IdPool.{IdPool, allocate, free, get_used_id_count}
use client_server.IdPool.Flags.{free_count, free_count-lt}
use client_server.IdPool.Inv.{is_used, IsValid}
use client_server.IdPool.Allocate.{
  top_id, allocated, Allocated, top-le, allocate-returns, allocated-Allocated,
}
use client_server.IdPool.Free.{
  freed, Freed, freed-Freed, free-returns, free-unused, used-InRange, used-ne,
}

set_back : (xs : List ℕ) (i v : ℕ) → get_or xs i 0 ≡ v → set (set xs i 1) i v ≡ xs
set_back xs i v e = rw (← e) (set-set_self xs i 1 0)

-- An id that was handed out and is taken back at once leaves the pool exactly as it was.
pub free-allocate :
    {p : IdPool}
    → IsValid p
    → p.top ≢ 0
    → (id : ℕ) × (q : IdPool) × (allocate (some p) ≡ returns (ok, some q, some id))
      × (free (some q) id ≡ returns (ok, some p))
free-allocate {p} v ne = (
  top_id p,
  allocated p,
  allocate-returns v ne,
  free-returns (top_id p) a.valid used ∙ ap (λ r. returns (ok, some r)) back,
)
  where
    a : Allocated p (top_id p) (allocated p)
    a = allocated-Allocated v ne

    used : is_used (allocated p) (top_id p) ≡ true
    used = ground (arith, a.marks (top_id p))

    back : freed (allocated p) (top_id p) ≡ p
    back = λ i. record {
      in_use =
          set_back p.in_use (top_id p - p.id_start_offset) 0 (v.clear (p.top - 1) (omega arith)) i;
      capacity = p.capacity;
      top = (let e : p.top - 1 + 1 ≡ p.top = omega arith in e) i;
      id_start_offset = p.id_start_offset;
      free_ids = set-get_or p.free_ids (p.top - 1) 0 i;
    }

-- The id that was taken back last is the next to be handed out, and then the same ids are in use
-- as before.
pub allocate-free :
    {p : IdPool} (id : ℕ)
    → IsValid p
    → is_used p id ≡ true
    → (q : IdPool) × (r : IdPool) × (free (some p) id ≡ returns (ok, some q))
      × (allocate (some q) ≡ returns (ok, some r, some id))
      × ((j : ℕ) → is_used r j ≡ is_used p j)
allocate-free {p} id v u = (
  q,
  allocated q,
  free-returns id v u,
  allocate-returns f.valid ne ∙ ap (λ k. returns (ok, some (allocated q), some k)) last,
  λ j. ground (arith, f.marks j, a.marks j, last, u),
)
  where
    q : IdPool
    q = freed p id

    f : Freed p id q
    f = freed-Freed id v u

    ne : q.top ≢ 0
    ne = omega arith

    a : Allocated q (top_id q) (allocated q)
    a = allocated-Allocated f.valid ne

    last : top_id q ≡ id
    last =
        let e : p.top + 1 - 1 ≡ p.top = omega arith in
        rw e (
          get_or-set_self p.free_ids p.top id 0 (
            omega (
              arith,
              v.counted,
              v.flags_len,
              v.ids_len,
              free_count-lt p.in_use (id - p.id_start_offset) (used-ne id v u),
            )))

-- The second of two frees of one id fails with EALREADY, and changes nothing.
pub free-free :
    {p : IdPool} (id : ℕ)
    → IsValid p
    → is_used p id ≡ true
    → (q : IdPool) × (free (some p) id ≡ returns (ok, some q))
      × (free (some q) id ≡ returns (err ealready, some q))
free-free {p} id v u = (
  freed p id,
  free-returns id v u,
  free-unused id f.valid (used-InRange id v u) (ground (arith, f.marks id)),
)
  where
    f : Freed p id (freed p id)
    f = freed-Freed id v u

unfoldable pub used_count : List ℕ → ℕ
used_count [] = 0
used_count (x ∷ xs) = (if x == 0 then 0 else 1) + used_count xs

used_count_lem : (xs : List ℕ) → used_count xs + free_count xs ≡ length xs
unfolding used_count free_count
used_count_lem [] = refl
used_count_lem (x ∷ xs) = ground (arith, used_count_lem xs)

-- `id_pool_get_used_id_count` reports the number of flags that are set, if that is below 2 ^ 31,
-- and fails with EINVAL from there on.
pub get_used_id_count_lem :
    {p : IdPool}
    → IsValid p
    → get_used_id_count (some p) ≡ (
        if ltb (used_count p.in_use) (2 ^ 31)
        then (ok, some (used_count p.in_use))
        else (err einval, none))
unfolding get_used_id_count
get_used_id_count_lem {p} v =
    ground (arith, v.counted, v.flags_len, v.fits, used_count_lem p.in_use, top-le v)
