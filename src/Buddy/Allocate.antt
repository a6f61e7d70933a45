-- ===== src/Buddy/Allocate.antt =====
-- `buddy_alloc_allocate`: a block of the wanted level is taken or split off, or no list up to that
-- level has one.
use client_server.Buddy.State.{BuddyAlloc, ret, fail}
use client_server.Buddy.Calc.{get_block_size}
use client_server.Buddy.FreeList.{
  create_new_block, allocate_at_level, find_non_empty_level, split_block_down, split_loop,
}
use client_server.Buddy.Api.{allocate_level}
use client_server.Buddy.Chain.{contains}
use client_server.Buddy.Geometry.{node, exponent, get_block_size_lem}
use client_server.Buddy.Lists.{head_in}
use client_server.Buddy.Links.{nexts, prevs}
use client_server.Buddy.Inv.{Fits, Inv, Kept-trans, held, is_free}
use client_server.Buddy.Take.{
  Taken, extract-Taken, retire, retire-Inv, retire-Kept, hand_out, hand_out-Inv,
}
use client_server.Buddy.Fill.{made, made-Inv, create_new_block_lem}
use client_server.Buddy.Split.{HoleAt, split_loop-HoleAt}
use client_server.Buddy.Tiling.{Kind}
use client_server.Base.{
  ℕ, zero, suc, ◌+◌, ◌-◌, ◌*◌, ◌%◌, ◌^◌, ◌≤◌, ◌<◌, ◌≡◌, refl, sym, ap, subst, ◌∙◌, ◌≢◌, ◌⊎◌, inl,
  inr, true, false, ◌&&◌, ◌||◌, Option, none, some, List, arith, leb, ◌==◌, if◌then◌else◌, ==→eq,
  eq→==, ==→ne, Bool-cases, Option-cases, enfile,
}

-- What a call that succeeds leaves: the allocator is valid, the block has the level and was
-- nobody's, and the blocks that callers held before are held with their places as before.
pub record Allocated (a n l : ℕ) (b : BuddyAlloc) : Type 0 where
  pub block : ℕ
  pub state : BuddyAlloc
  pub entries : ℕ → List ℕ
  pub kinds : ℕ → Kind
  pub inv : Inv a n none state entries kinds
  pub own_level : (state.elements block).level ≡ l
  pub fresh : held (b.elements block) ≡ false
  pub holds : (j : ℕ) → held (state.elements j) ≡ (if j == block then true else held (b.elements j))
  pub offset :
      (j : ℕ) → held (b.elements j) ≡ true → (state.elements j).offset ≡ (b.elements j).offset
  pub level : (j : ℕ) → held (b.elements j) ≡ true → (state.elements j).level ≡ (b.elements j).level

-- The head of a list is a free block of the list's level.
head-free :
    {a n : ℕ} {b : BuddyAlloc} {ls : ℕ → List ℕ} {kind : ℕ → Kind} {hole : Option ℕ}
    → Inv a n hole b ls kind
    → (k p : ℕ) → b.head k ≡ some p
    → contains (ls k) p ≡ true
head-free {b = b} {ls = ls} v k p h =
    head_in (nexts b) (prevs b) (ls k) none (b.head k) p (v.lists.chain k) (rw h (eq→== p p refl))

-- The search goes down from the level to the nearest list that has a block.
find_non_empty_level_lem :
    (l : ℕ) (b : BuddyAlloc)
    → ((k : ℕ) × (p : ℕ) × (k ≤ l) × (find_non_empty_level l b ≡ ret k b) × (b.head k ≡ some p))
      ⊎ ((find_non_empty_level l b ≡ fail enfile b) × ((k : ℕ) → k ≤ l → b.head k ≡ none))
unfolding find_non_empty_level
find_non_empty_level_lem zero b = elim (Option-cases (b.head 0)) [
  | inl h ↦ inr (rw (find_non_empty_level, h) refl, λ k le. ap b.head (omega (arith, le)) ∙ h)
  | inr (p, h) ↦ inl (0, p, omega arith, rw (find_non_empty_level, h) refl, h)
]
find_non_empty_level_lem (suc l) b = elim (Option-cases (b.head (suc l))) [
  | inl h ↦ elim (find_non_empty_level_lem l b) [
    | inl (k, p, le, run, e) ↦ inl (k, p, omega (arith, le), rw (find_non_empty_level, h) run, e)
    | inr (run, empty) ↦ inr (
      rw (find_non_empty_level, h) run,
      λ k le. elim (Bool-cases (k == suc l)) [
        | inl e ↦ ap b.head (==→eq k (suc l) e) ∙ h
        | inr ne ↦ empty k (omega (arith, ==→ne k (suc l) ne, le))
      ],
    )
  ]
  | inr (p, h) ↦ inl (suc l, p, omega arith, rw (find_non_empty_level, h) refl, h)
]

module _ {a n : ℕ} (fits : Fits a n) {b : BuddyAlloc} {ls : ℕ → List ℕ} {kind : ℕ → Kind}
    (v : Inv a n none b ls kind) where
  -- A free block of the level itself.
  allocate_at_level-Allocated :
      (l p : ℕ)
      → b.head l ≡ some p
      → (r : Allocated a n l b) × (allocate_at_level l b ≡ ret (some r.block) r.state)
  unfolding allocate_at_level
  allocate_at_level-Allocated l p h =
      let m = head-free v l p h in
      let (b', t) = extract-Taken v p l m in
      let f : is_free (b.elements p) && (b.elements p).level == l ≡ true = sym (v.free l p) ∙ m in
      (
        record {
          block = p;
          state = hand_out p b';
          entries = _;
          kinds = kind;
          inv = hand_out-Inv v p l m t;
          own_level = ground (arith, t.same.level p, f);
          fresh = ground (arith, f);
          holds = λ j. ground (arith, f, t.same.is_active j, t.same.is_allocated j);
          offset = λ j y. ground (arith, t.same.offset j);
          level = λ j y. ground (arith, t.same.level j);
        },
        rw (h, t.run) refl,
      )

  -- A hole of the level is filled by a block that is handed out.
  HoleAt-Allocated :
      (l off : ℕ)
      → l < n
      → (r : HoleAt a n l off b)
      → (x : Allocated a n l b) × (c : BuddyAlloc) × (create_new_block l off
            (2 ^ exponent a n l)
            r.state
          ≡ ret x.block c)
        × (x.state ≡ hand_out x.block c)
  HoleAt-Allocated l off hl r =
      let s = node l r.index in
      let idle : (r.state.elements s).is_active ≡ false = ground (arith, r.inv.active s) in
      let nobodys : held (b.elements s) ≡ false = ground (arith, r.kept.same s, idle) in
      let lv : l % 64 ≡ l = omega (arith, fits.records) in
      (
        record {
          block = s;
          state = hand_out s (made a n s l r.index r.state);
          entries = r.entries;
          kinds = r.kinds;
          inv = made-Inv a n l r.index fits r.inv hl r.within;
          own_level = ground (arith, lv);
          fresh = nobodys;
          holds = λ j. ground (arith, r.kept.same j);
          offset = λ j y. ground (arith, r.kept.offset j, nobodys, y);
          level = λ j y. ground (arith, r.kept.level j, nobodys, y);
        },
        made a n s l r.index r.state,
        ap (λ o. create_new_block l o (2 ^ exponent a n l) r.state) r.place
            ∙ create_new_block_lem fits r.inv l r.index hl r.within idle,
        refl,
      )

  -- A free block of a level above, taken out, is the hole that the loop starts from.
  opened-HoleAt :
      (k l p : ℕ) (b' : BuddyAlloc) (ls' : ℕ → List ℕ)
      → contains (ls k) p ≡ true
      → k < l
      → l < n
      → Taken b b' ls ls' p k
      → (r : HoleAt a n l ((b'.elements p).offset) b) × (split_loop
            (l - k)
            (k + 1)
            ((b'.elements p).offset)
            (get_block_size k b'.min_block_size b'.num_of_levels)
            (retire p b')
          ≡ ret (2 ^ exponent a n l) r.state)
  opened-HoleAt k l p b' ls' m lt hl t =
      let f : is_free (b.elements p) && (b.elements p).level == k ≡ true = sym (v.free k p) ∙ m in
      let lv : (b.elements p).level ≡ k = ground (arith, f) in
      let (i, _, hi, place, slot) = v.placed p (ground (arith, f)) in
      let v1 = retire-Inv v p k m t in
      let v2 : Inv a n (some (node k i)) (retire p b') ls' kind =
        subst (λ x. Inv a n (some x) (retire p b') ls' kind) (slot ∙ ap (λ x. node x i) lv) v1 in
      let size : get_block_size k b'.min_block_size b'.num_of_levels ≡ 2 ^ exponent a n k =
        rw (v1.least, v1.levels) (get_block_size_lem a n k fits.word (omega (arith, lt, hl))) in
      let off : (b'.elements p).offset ≡ i * 2 ^ exponent a n k =
        t.same.offset p ∙ place ∙ ap (λ x. i * 2 ^ exponent a n x) lv in
      let (r, run) =
        split_loop-HoleAt fits (l - k) l k i ((b'.elements p).offset)
          (get_block_size k b'.min_block_size b'.num_of_levels) v2 (omega (arith, lt)) hl
          (subst (λ x. i < 2 ^ x) lv hi) off size in
      (
        record {
          index = r.index;
          within = r.within;
          place = r.place;
          state = r.state;
          entries = r.entries;
          kinds = r.kinds;
          inv = r.inv;
          kept = Kept-trans b (retire p b') r.state (retire-Kept v p k m t) r.kept;
        },
        run,
      )

  -- A free block of a level above is split down, and its first part handed out.
  split_block_down-Allocated :
      (k l p : ℕ)
      → b.head k ≡ some p
      → k < l
      → l < n
      → (x : Allocated a n l b) × (c : BuddyAlloc) × (split_block_down k l b ≡ ret x.block c)
        × (x.state ≡ hand_out x.block c)
  unfolding split_block_down
  split_block_down-Allocated k l p h lt hl =
      let m = head-free v k p h in
      let (b', t) = extract-Taken v p k m in
      let (r, run) = opened-HoleAt k l p b' _ m lt hl t in
      let (x, c, create, same) = HoleAt-Allocated l ((b'.elements p).offset) hl r in
      let test : leb b.num_of_levels k || (leb b.num_of_levels l || leb l k) ≡ false =
        ground (arith, v.levels, lt, hl) in
      let here : p == p ≡ true = eq→== p p refl in
      (x, c, rw (test, h, t.run, here, run) create, same)

  -- `allocate_level`, for a level of the allocator, hands out a block of it that was nobody's; the
  -- allocator stays valid and callers keep their blocks. Or it fails with ENFILE and changes
  -- nothing, and then no list of the level or one above has a block.
  pub allocate_level_lem :
      (l : ℕ)
      → l < n
      → ((x : Allocated a n l b) × (allocate_level l b ≡ ret x.block x.state))
        ⊎ ((allocate_level l b ≡ fail enfile b) × ((k : ℕ) → k ≤ l → b.head k ≡ none))
  unfolding allocate_level allocate_at_level
  allocate_level_lem l hl = elim (Option-cases (b.head l)) [
    | inr (p, h) ↦ let (x, run) = allocate_at_level-Allocated l p h in inl (x, rw run refl)
    | inl h ↦
        let none_here : allocate_at_level l b ≡ ret none b = rw (allocate_at_level, h) refl in
        elim (find_non_empty_level_lem l b) [
          | inr (run, empty) ↦ inr (rw (none_here, run) refl, empty)
          | inl (k, p, le, run, e) ↦
              let ne : k ≢ l = λ same. cc in
              let (x, c, split, same) =
                split_block_down-Allocated k l p e (omega (arith, le, ne)) hl in
              inl (x, rw (none_here, run, split) (ap (ret x.block) (sym same)))
        ]
  ]
