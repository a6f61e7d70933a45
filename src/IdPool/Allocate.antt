-- ===== src/IdPool/Allocate.antt =====
-- `id_pool_allocate` on a valid pool.
use client_server.Base.{
  ℕ, ◌+◌, ◌-◌, ◌≤◌, ◌≡◌, refl, ◌∙◌, ◌≢◌, ◌⊎◌, inl, inr, true, false, none, some, arith, ◌==◌,
  if◌then◌else◌, ==→eq, ==→ne, ne→==, Bool-cases, get_or, set, length-set, get_or-set_self,
  get_or-set_ne, sub32, enoent, ok, err, returns, load_lem, store_lem,
}
use client_server.IdPool.{IdPool, take_top, allocate}
use client_server.IdPool.Flags.{free_count-le, free_count-mark, free_count_zero}
use client_server.IdPool.Inv.{InRange, in_range, is_used, IsValid}

-- What it is to hand out `id` from `p`, leaving `q`: the id is of the range and was not in use;
-- now it is, as are those that were, and no others; one free id is gone; the limits stand.
pub record Allocated (p : IdPool) (id : ℕ) (q : IdPool) : Type 0 where
  pub in_range : InRange p id
  pub was_free : is_used p id ≡ false
  pub marks : (j : ℕ) → is_used q j ≡ (if j == id then true else is_used p j)
  pub counts : q.top + 1 ≡ p.top
  pub capacity : q.capacity ≡ p.capacity
  pub offset : q.id_start_offset ≡ p.id_start_offset
  pub valid : IsValid q

abbrev pub top_id : IdPool → ℕ
top_id p = get_or p.free_ids (p.top - 1) 0

abbrev pub allocated : IdPool → IdPool
allocated p = record p { top = p.top - 1; in_use = set p.in_use (top_id p - p.id_start_offset) 1 }

pub top-le : {p : IdPool} → IsValid p → p.top ≤ p.capacity
top-le {p} v = omega (arith, v.counted, v.flags_len, free_count-le p.in_use)

module _ {p : IdPool} (v : IsValid p) (ne : p.top ≢ 0) where
  top_id-InRange : InRange p (top_id p)
  top_id-InRange = v.ranged (p.top - 1) (omega arith)

  top_id_clear : get_or p.in_use (top_id p - p.id_start_offset) 0 ≡ 0
  top_id_clear = v.clear (p.top - 1) (omega arith)

  pub allocate-returns : allocate (some p) ≡ returns (ok, some (allocated p), some (top_id p))
  unfolding allocate take_top
  allocate-returns = rw (ne→== p.top 0 ne) (
      rw (load_lem p.free_ids (p.top - 1) 0 (omega (arith, v.ids_len, top-le v))) (
        rw (sub-ok) (
          rw (
            store_lem p.in_use (top_id p - p.id_start_offset) 1
              (omega (arith, v.flags_len, top_id-InRange))))))
    where
      sub-ok : sub32 (top_id p) p.id_start_offset ≡ top_id p - p.id_start_offset
      sub-ok = omega (arith, top_id-InRange, v.fits)

  allocated-IsValid : IsValid (allocated p)
  allocated-IsValid = record {
    fits = v.fits;
    ids_len = v.ids_len;
    flags_len = length-set p.in_use _ 1 ∙ v.flags_len;
    counted = omega (
      arith,
      v.counted,
      free_count-mark p.in_use (top_id p - p.id_start_offset)
          (omega (arith, v.flags_len, top_id-InRange)) top_id_clear,
    );
    ranged = λ i h. v.ranged i (omega arith);
    clear = λ i h.
        get_or-set_ne p.in_use (top_id p - p.id_start_offset)
          (get_or p.free_ids i 0 - p.id_start_offset) 1 0
          (omega (
            arith,
            v.distinct (p.top - 1) i (omega arith) (omega arith),
            v.ranged i (omega arith),
            top_id-InRange,
          ))
        ∙ v.clear i (omega arith);
    distinct = λ i j h lt. v.distinct i j (omega arith) lt;
  }

  pub allocated-Allocated : Allocated p (top_id p) (allocated p)
  unfolding is_used
  allocated-Allocated = record {
    in_range = top_id-InRange;
    was_free = ground (arith, top_id_clear);
    marks = λ j. ground (
      arith,
      top_id-InRange,
      v.flags_len,
      get_or-set_self p.in_use (top_id p - p.id_start_offset) 1 0,
      get_or-set_ne p.in_use (top_id p - p.id_start_offset) (j - p.id_start_offset) 1 0,
    );
    counts = omega arith;
    capacity = refl;
    offset = refl;
    valid = allocated-IsValid;
  }

-- With no free id left, exactly the ids of the range are in use.
exhausted-used : {p : IdPool} (id : ℕ) → IsValid p → p.top ≡ 0 → is_used p id ≡ in_range p id
unfolding is_used
exhausted-used {p} id v e =
    ground (arith, v.counted, v.flags_len, free_count_zero p.in_use (id - p.id_start_offset))

-- On a valid pool `id_pool_allocate` returns without an access out of bounds. If no id is free it
-- fails with ENOENT, changes nothing, and every id of the range is in use; otherwise it hands one
-- out.
pub allocate_lem :
    {p : IdPool}
    → IsValid p
    → ((p.top ≡ 0)
        × (allocate (some p) ≡ returns (err enoent, some p, none))
        × ((id : ℕ) → is_used p id ≡ in_range p id))
      ⊎ ((id : ℕ) × (q : IdPool) × (p.top ≢ 0)
          × (allocate (some p) ≡ returns (ok, some q, some id))
          × Allocated p id q)
unfolding allocate
allocate_lem {p} v = elim (Bool-cases (p.top == 0)) [
  | inl e ↦ inl (==→eq _ _ e, rw e, λ id. exhausted-used id v (==→eq _ _ e))
  | inr e ↦
      let ne = ==→ne p.top 0 e in
      inr (top_id p, allocated p, ne, allocate-returns v ne, allocated-Allocated v ne)
]
