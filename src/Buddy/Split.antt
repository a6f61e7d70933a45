-- ===== src/Buddy/Split.antt =====
-- The loop of `split_block_down`: it halves a hole until the hole has the wanted level, and lists
-- the other halves as free.
use client_server.Buddy.State.{BuddyAlloc, Res, ret, fail, M, ◌>>=◌, ◌>>◌, then_run}
use client_server.Buddy.Calc.{get_buddy_offset}
use client_server.Buddy.FreeList.{create_new_block, linked_list_add_block, split_loop}
use client_server.Buddy.Pow.{two-pow-suc}
use client_server.Buddy.Bits.{neighbour}
use client_server.Buddy.Geometry.{
  node, node_left, node_right, node-lt, exponent, get_buddy_offset_lem, offset_left,
}
use client_server.Buddy.Inv.{Fits, Inv, Kept, Kept-trans}
use client_server.Buddy.Fill.{Listed, listed, Listed-Kept}
use client_server.Buddy.Tiling.{Kind, whole, split_at, split_at-Tiling}
use client_server.Base.{
  ℕ, zero, suc, ◌+◌, ◌-◌, ◌*◌, ◌/◌, ◌^◌, ◌<◌, ◌≡◌, refl, ap, subst, ◌∙◌, inl, inr, false, some,
  List, arith, ◌==◌, Bool-cases,
}

-- From `b` on, the allocator came to a hole of level `t` at the offset, and callers kept their
-- blocks.
pub record HoleAt (a n t offset : ℕ) (b : BuddyAlloc) : Type 0 where
  pub index : ℕ
  pub within : index < 2 ^ t
  pub place : offset ≡ index * 2 ^ exponent a n t
  pub state : BuddyAlloc
  pub entries : ℕ → List ℕ
  pub kinds : ℕ → Kind
  pub inv : Inv a n (some (node t index)) state entries kinds
  pub kept : Kept b state

pub then_run_assoc :
    (r : Res ℕ) (g : ℕ → M (Unit {0})) (k : M ℕ)
    → then_run r (λ p. g p >> k) ≡ then_run (then_run r g) (λ _. k)
then_run_assoc (ret p b) g k = refl
then_run_assoc (fail e b) g k = refl

pub exponent-suc : (a n l : ℕ) → suc l < n → exponent a n l ≡ suc (exponent a n (suc l))
exponent-suc a n l h = omega arith

module _ {a n : ℕ} (fits : Fits a n) where
  -- The hole has a free right half and the hole goes on as its left half.
  split-Inv :
      (l i : ℕ) {b b' : BuddyAlloc} {ls ls' : ℕ → List ℕ} {kind : ℕ → Kind}
      → Inv a n (some (node l i)) b ls kind
      → suc l < n
      → i < 2 ^ l
      → Listed b b' ls ls'
          (node (suc l) (2 * i + 1))
          (suc l)
          ((2 * i + 1) * 2 ^ exponent a n (suc l))
      → Inv a n (some (node (suc l) (2 * i))) b' ls' (split_at kind (node l i))
  split-Inv l i {b} {b'} {ls} {ls'} {kind} v hl hi t =
      let left = node_left l i in
      let right = node_right l i in
      let w : kind (node l i) ≡ whole = v.hole_whole (node l i) (ground arith) in
      let half : 2 * i + 1 < 2 ^ suc l = omega (arith, two-pow-suc l) in
      record {
        least = t.min_block_size ∙ v.least;
        levels = t.num_of_levels ∙ v.levels;
        slots = t.num_of_elements ∙ v.slots;
        record_size = t.size_of_element ∙ v.record_size;
        lists = t.lists;
        free = λ k j.
            ground (arith, t.rest k j, v.free k j, t.is_active j, t.is_allocated j, t.levels j);
        active = λ j.
            ground (arith, v.active j, t.is_active j, left, right, w, v.tiling.left (node l i));
        placed = λ j h. elim (Bool-cases (j == node (suc l) (2 * i + 1))) [
          | inl e ↦ (
            2 * i + 1,
            ground (arith, t.levels j, e),
            ground (arith, t.levels j, e, half),
            ground (arith, t.levels j, t.offsets j, e),
            ground (arith, t.levels j, e),
          )
          | inr ne ↦ ground (arith, v.placed j, t.is_active j, t.levels j, t.offsets j, h, ne)
        ];
        tiling =
            split_at-Tiling v.tiling (node l i) w
              (subst (λ x. x < 2 ^ n - 1) right (node-lt (suc l) n (2 * i + 1) hl half));
        hole_whole = λ j h. ground (arith, left, h);
      }

  -- A round of the loop.
  split_round :
      (l i : ℕ) {b : BuddyAlloc} {ls : ℕ → List ℕ} {kind : ℕ → Kind}
      → Inv a n (some (node l i)) b ls kind
      → suc l < n
      → i < 2 ^ l
      → (b' : BuddyAlloc) × (ls' : ℕ → List ℕ) × ((create_new_block
                (suc l)
                (get_buddy_offset (i * 2 ^ exponent a n l) (2 ^ exponent a n l / 2))
                (2 ^ exponent a n l / 2)
              >>= linked_list_add_block)
            b
          ≡ ret tt b')
        × Inv a n (some (node (suc l) (2 * i))) b' ls' (split_at kind (node l i))
        × Kept b b'
  split_round l i {b} {ls} {kind} v hl hi =
      let ex = exponent-suc a n l hl in
      let e = exponent a n (suc l) in
      let size : 2 ^ exponent a n l / 2 ≡ 2 ^ e =
        omega (arith, ap (λ t. 2 ^ t) ex, two-pow-suc e) in
      let off : i * 2 ^ exponent a n l ≡ 2 * i * 2 ^ e = ap (λ t. i * 2 ^ t) ex ∙ offset_left e i in
      let other : neighbour (2 * i) ≡ 2 * i + 1 = ground arith in
      let buddy : get_buddy_offset (i * 2 ^ exponent a n l) (2 ^ exponent a n l / 2)
          ≡ (2 * i + 1) * 2 ^ e =
        rw (off, size) (get_buddy_offset_lem e (2 * i) ∙ ap (λ t. t * 2 ^ e) other) in
      let half : 2 * i + 1 < 2 ^ suc l = omega (arith, two-pow-suc l) in
      let w : kind (node l i) ≡ whole = v.hole_whole (node l i) (ground arith) in
      let idle : (b.elements (node (suc l) (2 * i + 1))).is_active ≡ false = ground (
        arith,
        v.active (node (suc l) (2 * i + 1)),
        v.tiling.right (node l i),
        node_right l i,
        w,
      ) in
      let (b', ls', run, t) = listed fits v (suc l) (2 * i + 1) hl half idle in
      (b', ls', rw (buddy, size) run, split-Inv l i v hl hi t, Listed-Kept b b' ls ls' _ _ _ idle t)

  -- The hole comes to the level `t`.
  pub split_loop-HoleAt :
      (m t l i off size : ℕ) {b : BuddyAlloc} {ls : ℕ → List ℕ} {kind : ℕ → Kind}
      → Inv a n (some (node l i)) b ls kind
      → t ≡ l + m
      → t < n
      → i < 2 ^ l
      → off ≡ i * 2 ^ exponent a n l
      → size ≡ 2 ^ exponent a n l
      → (r : HoleAt a n t off b) × (split_loop m (l + 1) off size b
          ≡ ret (2 ^ exponent a n t) r.state)
  unfolding split_loop
  split_loop-HoleAt zero t l i off size {b} {ls} {kind} v e ht hi place whole_size =
      subst (λ t. (r : HoleAt a n t off b) × (ret size b ≡ ret (2 ^ exponent a n t) r.state))
        (omega (arith, e))
        (
          record {
            index = i;
            within = hi;
            place = place;
            state = b;
            entries = ls;
            kinds = kind;
            inv = v;
            kept = record { same = λ j. refl; offset = λ j h. refl; level = λ j h. refl };
          },
          ap (λ s. ret s b) whole_size,
        )
  split_loop-HoleAt (suc m) t l i off size {b} v e ht hi place whole_size =
      let hl : suc l < n = omega (arith, e, ht) in
      let ex = exponent-suc a n l hl in
      let (b', ls', run, v', kept) = split_round l i v hl hi in
      let down : l + 1 ≡ suc l = omega arith in
      let half_size : size / 2 ≡ 2 ^ exponent a n (suc l) =
        omega (arith, whole_size, ap (λ t. 2 ^ t) ex, two-pow-suc (exponent a n (suc l))) in
      let half_place : off ≡ 2 * i * 2 ^ exponent a n (suc l) =
        place ∙ ap (λ t. i * 2 ^ t) ex ∙ offset_left (exponent a n (suc l)) i in
      let (r, rest) =
        split_loop-HoleAt m t (suc l) (2 * i) off (size / 2) v' (omega (arith, e)) ht
          (omega (arith, two-pow-suc l)) half_place half_size in
      let first : (create_new_block (l + 1) (get_buddy_offset off (size / 2)) (size / 2)
              >>= linked_list_add_block)
            b
          ≡ ret tt b' =
        rw (place, whole_size, down) run in
      (
        record {
          index = r.index;
          within = r.within;
          place = r.place;
          state = r.state;
          entries = r.entries;
          kinds = r.kinds;
          inv = r.inv;
          kept = Kept-trans b b' r.state kept r.kept;
        },
        then_run_assoc (create_new_block (l + 1) (get_buddy_offset off (size / 2)) (size / 2) b)
              linked_list_add_block (split_loop m (l + 1 + 1) off (size / 2))
            ∙ ap (λ s. then_run s (λ _. split_loop m (l + 1 + 1) off (size / 2))) first
            ∙ ap (λ k. split_loop m (k + 1) off (size / 2) b') down
            ∙ rest,
      )
