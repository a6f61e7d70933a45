-- ===== src/Buddy/Links.antt =====
-- What `linked_list_add_block` and `linked_list_extract_block` do to the links of the blocks.
use client_server.Buddy.State.{BuddyAlloc, put_block, put_head, ret}
use client_server.Buddy.FreeList.{
  set_prev, set_next_or_head, linked_list_add_block, linked_list_extract_block,
}
use client_server.Buddy.Chain.{at, Bridged}
use client_server.Base.{ℕ, ◌≡◌, refl, Option, none, some, arith, ◌==◌, if◌then◌else◌}

-- What the operations leave, as functions.
abbrev after_prev : Option ℕ → Option ℕ → BuddyAlloc → BuddyAlloc
after_prev none q b = b
after_prev (some p) q b = put_block b p (record (b.elements p) { prev = q })

abbrev after_next : Option ℕ → ℕ → Option ℕ → BuddyAlloc → BuddyAlloc
after_next none level q b = put_head b level q
after_next (some p) level q b = put_block b p (record (b.elements p) { next = q })

abbrev link_front : ℕ → ℕ → Option ℕ → BuddyAlloc → BuddyAlloc
link_front p level old b =
    put_head (put_block b p (record (b.elements p) { next = old; prev = none })) level (some p)

pub added : ℕ → ℕ → BuddyAlloc → BuddyAlloc
added p level b = link_front p level (b.head level) (after_prev (b.head level) (some p) b)

pub extracted : ℕ → ℕ → BuddyAlloc → BuddyAlloc
extracted p level b =
    after_next (b.elements p).prev level (b.elements p).next
      (after_prev (b.elements p).next (b.elements p).prev b)

set_prev_lem : (o q : Option ℕ) (b : BuddyAlloc) → set_prev o q b ≡ ret tt (after_prev o q b)
set_prev_lem none q b = refl
set_prev_lem (some p) q b = refl

set_next_lem :
    (o : Option ℕ) (level : ℕ) (q : Option ℕ) (b : BuddyAlloc)
    → set_next_or_head o level q b ≡ ret tt (after_next o level q b)
set_next_lem none level q b = refl
set_next_lem (some p) level q b = refl

pub linked_list_add_block_lem :
    (p : ℕ) (b : BuddyAlloc) → linked_list_add_block p b ≡ ret tt (added p (b.elements p).level b)
unfolding linked_list_add_block added
linked_list_add_block_lem p b = rw (set_prev_lem (b.head (b.elements p).level) (some p) b)

pub linked_list_extract_block_lem :
    (p level : ℕ) (b : BuddyAlloc)
    → linked_list_extract_block p level b ≡ ret tt (extracted p level b)
unfolding linked_list_extract_block extracted
linked_list_extract_block_lem p level b =
    rw (set_prev_lem (b.elements p).next (b.elements p).prev b, set_next_lem)

abbrev pub nexts : BuddyAlloc → ℕ → Option ℕ
nexts b j = (b.elements j).next

abbrev pub prevs : BuddyAlloc → ℕ → Option ℕ
prevs b j = (b.elements j).prev

-- All but the links and the heads stays.
pub record SameButLinks (b b' : BuddyAlloc) : Type 0 where
  pub min_block_size : b'.min_block_size ≡ b.min_block_size
  pub num_of_levels : b'.num_of_levels ≡ b.num_of_levels
  pub num_of_elements : b'.num_of_elements ≡ b.num_of_elements
  pub size_of_element : b'.size_of_element ≡ b.size_of_element
  pub offset : (j : ℕ) → (b'.elements j).offset ≡ (b.elements j).offset
  pub level : (j : ℕ) → (b'.elements j).level ≡ (b.elements j).level
  pub is_active : (j : ℕ) → (b'.elements j).is_active ≡ (b.elements j).is_active
  pub is_allocated : (j : ℕ) → (b'.elements j).is_allocated ≡ (b.elements j).is_allocated

module _ (p level : ℕ) (b : BuddyAlloc) where
  pub added_next :
      (j : ℕ) → nexts (added p level b) j ≡ (if j == p then b.head level else nexts b j)
  unfolding added
  added_next j = ground arith

  pub added_prev :
      (j : ℕ)
      → prevs (added p level b) j
        ≡ (if j == p then none else if at (b.head level) j then some p else prevs b j)
  unfolding added
  added_prev j = ground arith

  pub added_head : (k : ℕ) → (added p level b).head k ≡ (if k == level then some p else b.head k)
  unfolding added
  added_head k = ground arith

  pub added-SameButLinks : SameButLinks b (added p level b)
  unfolding added
  added-SameButLinks = ground arith

  pub extracted-Bridged :
      Bridged (nexts b) (prevs b) (nexts (extracted p level b)) (prevs (extracted p level b)) p
  unfolding extracted
  extracted-Bridged = record { next = λ j. ground arith; prev = λ j. ground arith }

  pub extracted_head :
      (k : ℕ)
      → (extracted p level b).head k
        ≡ elim (prevs b p) [ none ↦ if k == level then nexts b p else b.head k | some q ↦ b.head k ]
  unfolding extracted
  extracted_head k = ground arith

  pub extracted-SameButLinks : SameButLinks b (extracted p level b)
  unfolding extracted
  extracted-SameButLinks = ground arith
