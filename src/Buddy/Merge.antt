-- ===== src/Buddy/Merge.antt =====
-- The loop of `buddy_alloc_free`: as long as the other half of the hole's parent is free, the hole
-- grows to the parent.
use client_server.Buddy.State.{BuddyAlloc, ret}
use client_server.Buddy.Calc.{get_buddy_offset, calc_buddy_allocator_slot}
use client_server.Buddy.FreeList.{remove_buddy_block}
use client_server.Buddy.Api.{merge_loop}
use client_server.Buddy.Pow.{two-pow-suc, two-pow-lt}
use client_server.Buddy.Bits.{neighbour}
use client_server.Buddy.Geometry.{
  node, node_left, node_right, node-lt, node_injective, exponent, get_buddy_offset_lem,
  calc_buddy_allocator_slot_lem, offset_parent,
}
use client_server.Buddy.Chain.{contains}
use client_server.Buddy.Inv.{
  Fits, Inv, Kept, Kept-trans, is_free, put_block-HasLists, mem_pool_get_block_lem,
}
use client_server.Buddy.Take.{Taken, extract-Taken, retire}
use client_server.Buddy.Split.{exponent-suc}
use client_server.Buddy.Tiling.{Kind, whole, split, join_at, join_at-Tiling, parent_split}
use client_server.Base.{
  ℕ, zero, suc, ◌+◌, ◌*◌, ◌/◌, ◌%◌, ◌^◌, ◌<◌, min, ◌≡◌, refl, sym, ap, ◌∙◌, ◌⊎◌, inl, inr, true,
  false, not, ◌||◌, some, List, arith, ◌==◌, ==→eq, eq→==, ==→ne, Bool-cases, u32,
}

-- The slots `s` and `q` are the two halves of the slot `p`.
abbrev pub Halves : ℕ → ℕ → ℕ → Type 0
Halves p s q = ((s ≡ 2 * p + 1) × (q ≡ 2 * p + 2)) ⊎ ((s ≡ 2 * p + 2) × (q ≡ 2 * p + 1))

pub halves : (l i : ℕ) → Halves (node l (i / 2)) (node (suc l) i) (node (suc l) (neighbour i))
halves l i = elim (Bool-cases (i % 2 == 0)) [
  | inl even ↦
      let whole : i ≡ 2 * (i / 2) = omega (arith, ==→eq _ _ even) in
      rw even (
        inl (omega (arith, whole, node_left l (i / 2)), omega (arith, whole, node_right l (i / 2))))
  | inr odd ↦
      let whole : i ≡ 2 * (i / 2) + 1 = omega (arith, ==→ne _ _ odd) in
      rw odd (
        inr (omega (arith, whole, node_right l (i / 2)), omega (arith, whole, node_left l (i / 2))))
]

neighbour-lt : (l i : ℕ) → i < 2 ^ suc l → neighbour i < 2 ^ suc l
neighbour-lt l i h = ground (arith, two-pow-suc l, h)

module _ {a n : ℕ} {b b' : BuddyAlloc} {ls ls' : ℕ → List ℕ} {kind : ℕ → Kind} (s q p level : ℕ)
    (v : Inv a n (some s) b ls kind) (m : contains (ls level) q ≡ true)
    (t : Taken b b' ls ls' q level) where
  -- The hole and a free block are joined.
  join-Inv : Halves p s q → Inv a n (some p) (retire q b') ls' (join_at kind p)
  join-Inv sides =
      let hole_kind : kind s ≡ whole = v.hole_whole s (eq→== s s refl) in
      let act : (b.elements q).is_active ≡ true = ground (arith, v.free level q, m) in
      let buddy_kind : kind q ≡ whole = ground (arith, v.active q, act) in
      let parent : kind p ≡ split = ground (arith, sides, parent_split v.tiling p s hole_kind) in
      record {
        least = t.same.min_block_size ∙ v.least;
        levels = t.same.num_of_levels ∙ v.levels;
        slots = t.same.num_of_elements ∙ v.slots;
        record_size = t.same.size_of_element ∙ v.record_size;
        lists = put_block-HasLists b' ls' q _ t.lists (λ k. ground (arith, t.rest k q));
        free = λ k j. ground (
          arith,
          t.rest k j,
          v.free k j,
          t.same.is_active j,
          t.same.is_allocated j,
          t.same.level j,
        );
        active = λ j. ground (arith, v.active j, t.same.is_active j, sides, parent);
        placed = λ j h.
            ground (arith, v.placed j, t.same.is_active j, t.same.level j, t.same.offset j, h);
        tiling = elim sides [
          | inl (e, e') ↦
              join_at-Tiling v.tiling p (ap kind (sym e) ∙ hole_kind)
                (ap kind (sym e') ∙ buddy_kind)
          | inr (e, e') ↦
              join_at-Tiling v.tiling p (ap kind (sym e') ∙ buddy_kind)
                (ap kind (sym e) ∙ hole_kind)
        ];
        hole_whole = λ j h. ground (arith, h);
      }

  join-Kept : Kept b (retire q b')
  join-Kept = record {
    same = λ j. ground (arith, v.free level q, m, t.same.is_active j, t.same.is_allocated j);
    offset = λ j h. ground (arith, v.free level q, m, t.same.offset j);
    level = λ j h. ground (arith, v.free level q, m, t.same.level j);
  }

-- The hole after some rounds of the loop, at the offset and with the size that the loop returns.
pub record Merged (a n : ℕ) (b : BuddyAlloc) : Type 0 where
  pub level : ℕ
  pub index : ℕ
  pub inside : level < n
  pub within : index < 2 ^ level
  pub offset : ℕ
  pub size : ℕ
  pub place : offset ≡ index * 2 ^ exponent a n level
  pub whole_size : size ≡ 2 ^ exponent a n level
  pub state : BuddyAlloc
  pub entries : ℕ → List ℕ
  pub kinds : ℕ → Kind
  pub inv : Inv a n (some (node level index)) state entries kinds
  pub kept : Kept b state

module _ {a n : ℕ} (fits : Fits a n) where
  module _ (l i : ℕ) {b : BuddyAlloc} {ls : ℕ → List ℕ} {kind : ℕ → Kind}
      (v : Inv a n (some (node (suc l) i)) b ls kind) (hl : suc l < n) (hi : i < 2 ^ suc l) where
    -- A round of the loop: the buddy stays, as it is not free, or it is joined with the hole.
    merge_round :
        (remove_buddy_block (i * 2 ^ exponent a n (suc l)) (suc l) (2 ^ exponent a n (suc l)) b
          ≡ ret (false, neighbour i * 2 ^ exponent a n (suc l)) b)
        ⊎ ((c : BuddyAlloc) × (ls' : ℕ → List ℕ) × (kind' : ℕ → Kind) × (remove_buddy_block
                (i * 2 ^ exponent a n (suc l))
                (suc l)
                (2 ^ exponent a n (suc l))
                b
              ≡ ret (true, neighbour i * 2 ^ exponent a n (suc l)) c)
            × Inv a n (some (node l (i / 2))) c ls' kind'
            × Kept b c)
    unfolding remove_buddy_block
    merge_round =
        let e = exponent a n (suc l) in
        let q = node (suc l) (neighbour i) in
        let below : neighbour i < 2 ^ suc l = neighbour-lt l i hi in
        let buddy : get_buddy_offset (i * 2 ^ e) (2 ^ e) ≡ neighbour i * 2 ^ e =
          get_buddy_offset_lem e i in
        let slot : calc_buddy_allocator_slot (neighbour i * 2 ^ e) (suc l) (2 ^ e) ≡ q =
          calc_buddy_allocator_slot_lem e (suc l) (neighbour i) (omega (arith, hl, fits.records))
            below in
        let found = mem_pool_get_block_lem fits v q (node-lt (suc l) n (neighbour i) hl below) in
        elim (Bool-cases (is_free (b.elements q))) [
          | inr stays ↦
              let test : not (b.elements q).is_active || (b.elements q).is_allocated ≡ true =
                ground (arith, stays) in
              inl (rw (buddy, slot, found, test) refl)
          | inl joins ↦
              let test : not (b.elements q).is_active || (b.elements q).is_allocated ≡ false =
                ground (arith, joins) in
              let (i', _, hi', _, same) = v.placed q (ground (arith, joins)) in
              let lv : suc l ≡ (b.elements q).level =
                (node_injective (suc l) (neighbour i) ((b.elements q).level) i' below hi' same).0 in
              let m : contains (ls (suc l)) q ≡ true =
                ground (arith, v.free (suc l) q, joins, lv) in
              let (b', t) = extract-Taken v q (suc l) m in
              let s = node (suc l) i in
              let p = node l (i / 2) in
              inr (
                retire q b',
                _,
                join_at kind p,
                rw (buddy, slot, found, test, t.run) refl,
                join-Inv s q p (suc l) v m t (halves l i),
                join-Kept s q p (suc l) v m t,
              )
        ]

  -- The loop ends with a hole, and callers keep their blocks.
  pub merge_loop-Merged :
      (l i off size : ℕ) {b : BuddyAlloc} {ls : ℕ → List ℕ} {kind : ℕ → Kind}
      → Inv a n (some (node l i)) b ls kind
      → l < n
      → i < 2 ^ l
      → off ≡ i * 2 ^ exponent a n l
      → size ≡ 2 ^ exponent a n l
      → (r : Merged a n b) × (merge_loop l off size b ≡ ret (r.level, r.offset, r.size) r.state)
  unfolding merge_loop
  merge_loop-Merged zero i off size {b} {ls} {kind} v hl hi place whole_size = (
    record {
      level = 0;
      index = i;
      inside = hl;
      within = hi;
      offset = off;
      size = size;
      place = place;
      whole_size = whole_size;
      state = b;
      entries = ls;
      kinds = kind;
      inv = v;
      kept = record { same = λ j. refl; offset = λ j h. refl; level = λ j h. refl };
    },
    refl,
  )
  merge_loop-Merged (suc l) i off size {b} {ls} {kind} v hl hi place whole_size =
      let e = exponent a n (suc l) in
      let here =
        ap (λ o. remove_buddy_block o (suc l) size b) place
        ∙ ap (λ o. remove_buddy_block (i * 2 ^ e) (suc l) o b) whole_size in
      elim (merge_round l i v hl hi) [
        | inl run ↦
            let stay : remove_buddy_block off (suc l) size b ≡ ret (false, neighbour i * 2 ^ e) b =
              here ∙ run in
            (
              record {
                level = suc l;
                index = i;
                inside = hl;
                within = hi;
                offset = off;
                size = size;
                place = place;
                whole_size = whole_size;
                state = b;
                entries = ls;
                kinds = kind;
                inv = v;
                kept = record { same = λ j. refl; offset = λ j h. refl; level = λ j h. refl };
              },
              rw stay refl,
            )
        | inr (c, ls', kind', run, v', kept) ↦
            let ex = exponent-suc a n l hl in
            let joined : remove_buddy_block off (suc l) size b ≡ ret (true, neighbour i * 2 ^ e) c =
              here ∙ run in
            let grown_place : min off (neighbour i * 2 ^ e) ≡ i / 2 * 2 ^ exponent a n l =
              ap (λ o. min o (neighbour i * 2 ^ e)) place
              ∙ offset_parent e i
              ∙ ap (λ x. i / 2 * 2 ^ x) (sym ex) in
            let grown_size : u32 (size * 2) ≡ 2 ^ exponent a n l = omega (
              arith,
              whole_size,
              ap (λ x. 2 ^ x) ex,
              two-pow-suc e,
              two-pow-lt (exponent a n l) 32 (omega (arith, fits.word, hl)),
            ) in
            let (r, rest) =
              merge_loop-Merged l (i / 2) (min off (neighbour i * 2 ^ e)) (u32 (size * 2)) v'
                (omega (arith, hl)) (omega (arith, hi, two-pow-suc l)) grown_place grown_size in
            (
              record {
                level = r.level;
                index = r.index;
                inside = r.inside;
                within = r.within;
                offset = r.offset;
                size = r.size;
                place = r.place;
                whole_size = r.whole_size;
                state = r.state;
                entries = r.entries;
                kinds = r.kinds;
                inv = r.inv;
                kept = Kept-trans b c r.state kept r.kept;
              },
              rw joined rest,
            )
      ]
