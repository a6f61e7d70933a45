-- ===== src/IdPool/Free.antt =====
-- `id_pool_free` on a valid pool.
use client_server.Base.{
  ℕ, ◌+◌, ◌-◌, ◌<◌, ◌≡◌, refl, ◌∙◌, ◌≢◌, ◌⊎◌, inl, inr, true, false, ◌||◌, some, arith, ltb, leb,
  ◌==◌, if◌then◌else◌, ==→eq, ==→ne, ne→==, Bool-cases, get_or, set, length-set, get_or-set_self,
  get_or-set_ne, add32, sub32, espipe, ealready, ok, err, returns, load, load_lem, store_lem,
}
use client_server.IdPool.{IdPool, put_back, free}
use client_server.IdPool.Flags.{free_count-clear, free_count-lt}
use client_server.IdPool.Inv.{InRange, in_range, is_used, IsValid}

-- What it is to take `id` back.
pub record Freed (p : IdPool) (id : ℕ) (q : IdPool) : Type 0 where
  pub marks : (j : ℕ) → is_used q j ≡ (if j == id then false else is_used p j)
  pub counts : q.top ≡ p.top + 1
  pub capacity : q.capacity ≡ p.capacity
  pub offset : q.id_start_offset ≡ p.id_start_offset
  pub valid : IsValid q

abbrev pub freed : IdPool → ℕ → IdPool
freed p id = record p {
  in_use = set p.in_use (id - p.id_start_offset) 0;
  free_ids = set p.free_ids p.top id;
  top = p.top + 1;
}

module _ {p : IdPool} (id : ℕ) (v : IsValid p) where
  pub used-InRange : is_used p id ≡ true → InRange p id
  unfolding is_used
  used-InRange u = ground arith

  pub used-ne : is_used p id ≡ true → get_or p.in_use (id - p.id_start_offset) 0 ≢ 0
  unfolding is_used
  used-ne u = ground arith

  unused-eq : is_used p id ≡ false → InRange p id → get_or p.in_use (id - p.id_start_offset) 0 ≡ 0
  unfolding is_used
  unused-eq u r = ground arith

  module _ (r : InRange p id) where
    guard-false : (leb (add32 p.capacity p.id_start_offset) id || ltb id p.id_start_offset) ≡ false
    guard-false = ground (arith, v.fits, r)

    index : sub32 id p.id_start_offset ≡ id - p.id_start_offset
    index = omega (arith, r, v.fits)

    load-flag :
        load p.in_use (sub32 id p.id_start_offset)
        ≡ returns (get_or p.in_use (id - p.id_start_offset) 0)
    load-flag =
        rw index (load_lem p.in_use (id - p.id_start_offset) 0 (omega (arith, r, v.flags_len)))

    pub free-unused : is_used p id ≡ false → free (some p) id ≡ returns (err ealready, some p)
    unfolding free
    free-unused u = rw (guard-false, load-flag, unused-eq u r)

  pub free-out_of_range : ¬ InRange p id → free (some p) id ≡ returns (err espipe, some p)
  unfolding free
  free-out_of_range out =
      elim (Bool-cases (leb (add32 p.capacity p.id_start_offset) id || ltb id p.id_start_offset)) [
        | inl e ↦ rw e
        | inr e ↦ absurd (out (ground (arith, v.fits)))
      ]

  module _ (u : is_used p id ≡ true) where
    room-lt : p.top < p.capacity
    room-lt =
        omega (
          arith,
          v.counted,
          v.flags_len,
          free_count-lt p.in_use (id - p.id_start_offset) (used-ne u),
        )

    put_back-returns : put_back p id ≡ returns (ok, some (freed p id))
    unfolding put_back
    put_back-returns =
        rw
          (
            index (used-InRange u),
            store_lem p.in_use (id - p.id_start_offset) 0
                (omega (arith, used-InRange u, v.flags_len)),
            store_lem p.free_ids p.top id (omega (arith, room, v.ids_len)),
          )
          (λ i. returns (
            ok,
            some (record p {
              in_use = set p.in_use (id - p.id_start_offset) 0;
              free_ids = set p.free_ids p.top id;
              top = wrap i;
            }),
          ))
      where
        room : p.top < p.capacity
        room = omega (
          arith,
          v.counted,
          v.flags_len,
          free_count-lt p.in_use (id - p.id_start_offset) (used-ne u),
        )

        wrap : add32 p.top 1 ≡ p.top + 1
        wrap = omega (arith, room, v.fits)

    pub free-returns : free (some p) id ≡ returns (ok, some (freed p id))
    unfolding free
    free-returns =
        rw (guard-false (used-InRange u), load-flag (used-InRange u), ne→== _ 0 (used-ne u))
          put_back-returns

    freed-IsValid : IsValid (freed p id)
    freed-IsValid = record {
      fits = v.fits;
      ids_len = length-set p.free_ids p.top id ∙ v.ids_len;
      flags_len = length-set p.in_use (id - p.id_start_offset) 0 ∙ v.flags_len;
      counted =
          omega (arith, v.counted, free_count-clear p.in_use (id - p.id_start_offset) (used-ne u));
      ranged = λ i h. elim (nth i h) [
        | inl (e, e') ↦ rw e' (used-InRange u)
        | inr (lt, e') ↦ rw e' (v.ranged i lt)
      ];
      clear = λ i h. elim (nth i h) [
        | inl (e, e') ↦
            rw e' (get_or-set_self p.in_use _ 0 0 (omega (arith, used-InRange u, v.flags_len)))
        | inr (lt, e') ↦ rw e' (still i lt)
      ];
      distinct = λ i j h lt. elim (nth i h) [
        | inl (e, e') ↦
            rw (e', old j (omega arith)) (λ same. used-ne u (rw same (v.clear j (omega arith))))
        | inr (lt', e') ↦ rw (e', old j (omega arith)) (v.distinct i j lt' lt)
      ];
    }
      where
        room : p.top < p.capacity
        room = room-lt

        old : (i : ℕ) → i < p.top → get_or (set p.free_ids p.top id) i 0 ≡ get_or p.free_ids i 0
        old i h = get_or-set_ne p.free_ids p.top i id 0 (omega arith)

        nth :
            (i : ℕ)
            → i < p.top + 1
            → ((i ≡ p.top) × (get_or (set p.free_ids p.top id) i 0 ≡ id))
              ⊎ ((i < p.top) × (get_or (set p.free_ids p.top id) i 0 ≡ get_or p.free_ids i 0))
        nth i h = elim (Bool-cases (i == p.top)) [
          | inl e ↦ inl (
            ==→eq i p.top e,
            rw (==→eq i p.top e)
                (get_or-set_self p.free_ids p.top id 0 (omega (arith, room, v.ids_len))),
          )
          | inr e ↦ inr (omega (arith, ==→ne i p.top e), old i (omega (arith, ==→ne i p.top e)))
        ]

        still :
            (i : ℕ)
            → i < p.top
            → get_or
                (set p.in_use (id - p.id_start_offset) 0)
                (get_or p.free_ids i 0 - p.id_start_offset)
                0
              ≡ 0
        still i h =
            elim (Bool-cases
              (id - p.id_start_offset == get_or p.free_ids i 0 - p.id_start_offset)) [
                | inl e ↦
                    rw (← ==→eq _ _ e)
                      (get_or-set_self p.in_use _ 0 0 (omega (arith, used-InRange u, v.flags_len)))
                | inr e ↦ get_or-set_ne p.in_use _ _ 0 0 (==→ne _ _ e) ∙ v.clear i h
              ]

    pub freed-Freed : Freed p id (freed p id)
    unfolding is_used
    freed-Freed = record {
      marks = λ j. ground (
        arith,
        used-InRange u,
        v.flags_len,
        get_or-set_self p.in_use (id - p.id_start_offset) 0 0,
        get_or-set_ne p.in_use (id - p.id_start_offset) (j - p.id_start_offset) 0 0,
      );
      counts = refl;
      capacity = refl;
      offset = refl;
      valid = freed-IsValid;
    }

-- On a valid pool `id_pool_free` returns without an access out of bounds. Outside the range it
-- fails with ESPIPE, for an id that is not in use with EALREADY, both without a change; an id
-- that is in use it takes back.
pub free_lem :
    {p : IdPool} (id : ℕ)
    → IsValid p
    → ((in_range p id ≡ false) × (free (some p) id ≡ returns (err espipe, some p)))
      ⊎ ((in_range p id ≡ true)
          × (is_used p id ≡ false)
          × (free (some p) id ≡ returns (err ealready, some p)))
      ⊎ ((q : IdPool) × (is_used p id ≡ true)
          × (free (some p) id ≡ returns (ok, some q))
          × Freed p id q)
unfolding in_range
free_lem {p} id v = elim (Bool-cases (in_range p id)) [
  | inl i ↦ elim (Bool-cases (is_used p id)) [
    | inl u ↦ inr (inr (freed p id, u, free-returns id v u, freed-Freed id v u))
    | inr n ↦ inr (inl (i, n, free-unused id v (ground arith) n))
  ]
  | inr o ↦ inl (o, free-out_of_range id v (λ r. ground (arith, r)))
]
