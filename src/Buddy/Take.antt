-- ===== src/Buddy/Take.antt =====
-- A free block leaves its list: to be split or merged, it stops being a block; to be handed out,
-- it is marked as allocated.
use client_server.Buddy.State.{BuddyAlloc, update, ret, put_block}
use client_server.Buddy.FreeList.{linked_list_extract_block}
use client_server.Buddy.Chain.{contains, remove, contains-remove}
use client_server.Buddy.Links.{SameButLinks}
use client_server.Buddy.Lists.{HasLists, linked_list_extract_block-HasLists}
use client_server.Buddy.Inv.{Inv, Kept, put_block-HasLists}
use client_server.Buddy.Tiling.{Kind}
use client_server.Base.{
  ℕ, ◌≡◌, ◌∙◌, inl, inr, true, false, Option, none, some, List, arith, ◌==◌, if◌then◌else◌, ==→eq,
  Bool-cases,
}

abbrev pub retire : ℕ → BuddyAlloc → BuddyAlloc
retire p b = put_block b p (record (b.elements p) { is_active = false })

abbrev pub hand_out : ℕ → BuddyAlloc → BuddyAlloc
hand_out p b = put_block b p (record (b.elements p) { is_allocated = true })

-- The block leaves its list; nothing else changes but links.
pub record Taken (b b' : BuddyAlloc) (ls ls' : ℕ → List ℕ) (p level : ℕ) : Type 0 where
  pub run : linked_list_extract_block p level b ≡ ret tt b'
  pub lists : HasLists b' ls'
  pub rest : (k j : ℕ) → contains (ls' k) j ≡ (if j == p then false else contains (ls k) j)
  pub same : SameButLinks b b'

module _ {a n : ℕ} {hole : Option ℕ} {b : BuddyAlloc} {ls : ℕ → List ℕ} {kind : ℕ → Kind}
    (v : Inv a n hole b ls kind) (p level : ℕ) (m : contains (ls level) p ≡ true) where
  pub extract-Taken :
      (b' : BuddyAlloc) × Taken b b' ls (update ls level (remove p (ls level))) p level
  extract-Taken =
      let (b', run, lists, same) = linked_list_extract_block-HasLists b ls p level v.lists m in
      (
        b',
        record {
          run = run;
          lists = lists;
          rest = λ k j. elim (Bool-cases (k == level)) [
            | inl e ↦
                rw (e, ==→eq k level e)
                  (ground (arith, contains-remove p j (ls level) (v.lists.distinct level)))
            | inr ne ↦ rw ne (ground (arith, v.free k p, v.free level p, m, ne))
          ];
          same = same;
        },
      )

module _ {a n : ℕ} {b b' : BuddyAlloc} {ls ls' : ℕ → List ℕ} {kind : ℕ → Kind}
    (v : Inv a n none b ls kind) (p level : ℕ) (m : contains (ls level) p ≡ true)
    (t : Taken b b' ls ls' p level) where
  out : (k : ℕ) → contains (ls' k) p ≡ false
  out k = ground (arith, t.rest k p)

  pub retire-Inv : Inv a n (some p) (retire p b') ls' kind
  retire-Inv = record {
    least = t.same.min_block_size ∙ v.least;
    levels = t.same.num_of_levels ∙ v.levels;
    slots = t.same.num_of_elements ∙ v.slots;
    record_size = t.same.size_of_element ∙ v.record_size;
    lists = put_block-HasLists b' ls' p _ t.lists out;
    free = λ k j.
        ground (
          arith,
          t.rest k j,
          v.free k j,
          t.same.is_active j,
          t.same.is_allocated j,
          t.same.level j,
        );
    active = λ j. ground (arith, v.active j, t.same.is_active j);
    placed =
        λ j h. ground (arith, v.placed j, t.same.is_active j, t.same.level j, t.same.offset j, h);
    tiling = v.tiling;
    hole_whole = λ j h. ground (arith, v.active j, v.free level p, m, h);
  }

  pub retire-Kept : Kept b (retire p b')
  retire-Kept = record {
    same = λ j. ground (arith, v.free level p, m, t.same.is_active j, t.same.is_allocated j);
    offset = λ j h. ground (arith, v.free level p, m, t.same.offset j);
    level = λ j h. ground (arith, v.free level p, m, t.same.level j);
  }

  pub hand_out-Inv : Inv a n none (hand_out p b') ls' kind
  hand_out-Inv = record {
    least = t.same.min_block_size ∙ v.least;
    levels = t.same.num_of_levels ∙ v.levels;
    slots = t.same.num_of_elements ∙ v.slots;
    record_size = t.same.size_of_element ∙ v.record_size;
    lists = put_block-HasLists b' ls' p _ t.lists out;
    free = λ k j.
        ground (
          arith,
          t.rest k j,
          v.free k j,
          t.same.is_active j,
          t.same.is_allocated j,
          t.same.level j,
        );
    active = λ j. ground (arith, v.active j, t.same.is_active j);
    placed =
        λ j h. ground (arith, v.placed j, t.same.is_active j, t.same.level j, t.same.offset j, h);
    tiling = v.tiling;
    hole_whole = v.hole_whole;
  }
