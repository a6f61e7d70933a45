-- ===== src/Buddy/Lists.antt =====
-- The free lists of all levels, and that `linked_list_add_block` and `linked_list_extract_block`
-- keep them.
use client_server.Buddy.State.{BuddyAlloc, update, ret}
use client_server.Buddy.FreeList.{linked_list_add_block, linked_list_extract_block}
use client_server.Buddy.Chain.{
  contains, remove, Distinct, at, Chain, next_in, prev_in, prev_some, Chain-frame, Chain-cons,
  first, Chain-remove, contains-remove, remove-Distinct,
}
use client_server.Buddy.Links.{
  added, extracted, nexts, prevs, SameButLinks, added_next, added_prev, added_head,
  added-SameButLinks, extracted-Bridged, extracted_head, extracted-SameButLinks,
  linked_list_add_block_lem, linked_list_extract_block_lem,
}
use client_server.Base.{
  ℕ, ◌≡◌, refl, sym, ap, subst, ◌∙◌, inl, inr, true, false, Option, none, some, List, [], ◌∷◌,
  arith, ◌==◌, ==→eq, eq→==, ==→ne, Bool-cases,
}

-- The free list of each level, as a list of slots: doubly linked from its head, without
-- repetition, and of blocks of that level.
pub record HasLists (b : BuddyAlloc) (ls : ℕ → List ℕ) : Type 0 where
  pub chain : (k : ℕ) → Chain (nexts b) (prevs b) none (b.head k) (ls k)
  pub distinct : (k : ℕ) → Distinct (ls k)
  pub own_level : (k j : ℕ) → contains (ls k) j ≡ true → (b.elements j).level ≡ k

-- The head of a list is an entry of it.
pub head_in :
    (nx pv : ℕ → Option ℕ) (xs : List ℕ) (before p : Option ℕ) (j : ℕ)
    → Chain nx pv before p xs
    → at p j ≡ true
    → contains xs j ≡ true
head_in nx pv [] before p j c a = ground arith
head_in nx pv (x ∷ xs) before p j c a = ground arith

-- The backward link of an entry leads to an entry.
back_in :
    (nx pv : ℕ → Option ℕ) (xs : List ℕ) (p : Option ℕ) (x j : ℕ)
    → Chain nx pv none p xs
    → contains xs x ≡ true
    → at (pv x) j ≡ true
    → contains xs j ≡ true
back_in nx pv [] p x j c m a = cc
back_in nx pv (y ∷ ys) p x j (e, b, c) m a = ground (arith, prev_in nx pv ys none p y x j (e, b, c))

module _ {b : BuddyAlloc} {ls : ℕ → List ℕ} (h : HasLists b ls) (p level : ℕ) where
  apart :
      (k j : ℕ) → (k == level) ≡ false → contains (ls k) j ≡ true → contains (ls level) j ≡ false
  apart k j ne m = elim (Bool-cases (contains (ls level) j)) [
    | inl m' ↦ absurd (==→ne k level ne (sym (h.own_level k j m) ∙ h.own_level level j m'))
    | inr out ↦ out
  ]

  module _ (out : (k : ℕ) → contains (ls k) p ≡ false) where
    added_own :
        Chain
          (nexts (added p level b))
          (prevs (added p level b))
          none
          ((added p level b).head level)
          (p ∷ ls level)
    added_own =
        let top : (added p level b).head level ≡ some p =
          ground (arith, added_head p level b level) in
        subst (λ t. Chain (nexts (added p level b)) (prevs (added p level b)) none t (p ∷ ls level))
          (sym top)
          (Chain-cons (nexts b) (prevs b) _ _ p (ls level) (b.head level) (added_next p level b)
            (added_prev p level b) (h.chain level) (out level) (h.distinct level))

    added_other :
        (k : ℕ)
        → (k == level) ≡ false
        → Chain
            (nexts (added p level b))
            (prevs (added p level b))
            none
            ((added p level b).head k)
            (ls k)
    added_other k ne =
        let top : (added p level b).head k ≡ b.head k =
          ground (arith, added_head p level b k, ne) in
        subst (λ t. Chain (nexts (added p level b)) (prevs (added p level b)) none t (ls k))
          (sym top)
          (Chain-frame (nexts b) (prevs b) _ _ (ls k) none (b.head k)
            (λ j m. (
              ground (arith, added_next p level b j, out k, m),
              ground (
                arith,
                added_prev p level b j,
                out k,
                m,
                apart k j ne m,
                head_in (nexts b) (prevs b) (ls level) none (b.head level) j (h.chain level),
              ),
            ))
            (h.chain k))

    pub added-HasLists :
        (b.elements p).level ≡ level → HasLists (added p level b) (update ls level (p ∷ ls level))
    added-HasLists lv = record {
      chain = λ k. elim (Bool-cases (k == level)) [
        | inl e ↦ rw (e, ==→eq k level e) added_own
        | inr ne ↦ rw ne (added_other k ne)
      ];
      distinct = λ k. elim (Bool-cases (k == level)) [
        | inl e ↦ rw e (out level, h.distinct level)
        | inr ne ↦ rw ne (h.distinct k)
      ];
      own_level = λ k j m. elim (Bool-cases (k == level)) [
        | inl e ↦ ground (arith, (added-SameButLinks p level b).level j, lv, h.own_level level j, e)
        | inr ne ↦ ground (arith, (added-SameButLinks p level b).level j, h.own_level k j, ne)
      ];
    }

  module _ (m : contains (ls level) p ≡ true) where
    extracted_top :
        (xs : List ℕ)
        → Chain (nexts b) (prevs b) none (b.head level) xs
        → contains xs p ≡ true
        → Distinct xs
        → (extracted p level b).head level ≡ first (nexts b) p xs (b.head level)
    extracted_top [] c m' d = cc
    extracted_top (x ∷ xs) c m' d = elim (Bool-cases (p == x)) [
      | inl e ↦
          let none_before : prevs b p ≡ none = ap (prevs b) (==→eq p x e) ∙ c.1 in
          extracted_head p level b level ∙ rw (none_before, e, eq→== level level refl)
      | inr ne ↦
          let (q, some_before) =
            prev_some (nexts b) (prevs b) xs none (b.head level) x p c (ground arith) in
          extracted_head p level b level ∙ rw (some_before, ne)
    ]

    extracted_own :
        Chain
          (nexts (extracted p level b))
          (prevs (extracted p level b))
          none
          ((extracted p level b).head level)
          (remove p (ls level))
    extracted_own =
        subst
          (λ t.
            Chain (nexts (extracted p level b)) (prevs (extracted p level b)) none t
              (remove p (ls level)))
          (sym (extracted_top (ls level) (h.chain level) m (h.distinct level)))
          (Chain-remove (extracted-Bridged p level b) (ls level) none (b.head level) (h.chain level)
            (h.distinct level) (λ j k. refl) m)

    extracted_other :
        (k : ℕ)
        → (k == level) ≡ false
        → Chain
            (nexts (extracted p level b))
            (prevs (extracted p level b))
            none
            ((extracted p level b).head k)
            (ls k)
    extracted_other k ne =
        let top : (extracted p level b).head k ≡ b.head k =
          ground (arith, extracted_head p level b k, ne) in
        subst (λ t. Chain (nexts (extracted p level b)) (prevs (extracted p level b)) none t (ls k))
          (sym top)
          (Chain-frame (nexts b) (prevs b) _ _ (ls k) none (b.head k)
            (λ j i. (
              ground (
                arith,
                (extracted-Bridged p level b).next j,
                apart k j ne i,
                m,
                back_in (nexts b) (prevs b) (ls level) (b.head level) p j (h.chain level),
              ),
              ground (
                arith,
                (extracted-Bridged p level b).prev j,
                apart k j ne i,
                m,
                next_in (nexts b) (prevs b) (ls level) none (b.head level) p j (h.chain level),
              ),
            ))
            (h.chain k))

    pub extracted-HasLists : HasLists (extracted p level b) (update ls level (remove p (ls level)))
    extracted-HasLists = record {
      chain = λ k. elim (Bool-cases (k == level)) [
        | inl e ↦ rw (e, ==→eq k level e) extracted_own
        | inr ne ↦ rw ne (extracted_other k ne)
      ];
      distinct = λ k. elim (Bool-cases (k == level)) [
        | inl e ↦ rw e (remove-Distinct p (ls level) (h.distinct level))
        | inr ne ↦ rw ne (h.distinct k)
      ];
      own_level = λ k j i. elim (Bool-cases (k == level)) [
        | inl e ↦ ground (
          arith,
          (extracted-SameButLinks p level b).level j,
          h.own_level level j,
          e,
          contains-remove p j (ls level) (h.distinct level),
        )
        | inr ne ↦ ground (arith, (extracted-SameButLinks p level b).level j, h.own_level k j, ne)
      ];
    }

-- `linked_list_add_block` of a block that is in no list puts it in front of the list of its level.
-- All lists stay chains without repetition, and nothing but links and heads changes.
pub linked_list_add_block-HasLists :
    (b : BuddyAlloc) (ls : ℕ → List ℕ) (p : ℕ)
    → HasLists b ls
    → ((k : ℕ) → contains (ls k) p ≡ false)
    → (b' : BuddyAlloc) × (linked_list_add_block p b ≡ ret tt b')
      × HasLists b' (update ls (b.elements p).level (p ∷ ls (b.elements p).level))
      × SameButLinks b b'
linked_list_add_block-HasLists b ls p h out = (
  added p (b.elements p).level b,
  linked_list_add_block_lem p b,
  added-HasLists h p (b.elements p).level out refl,
  added-SameButLinks p (b.elements p).level b,
)

-- `linked_list_extract_block` of a block that is in the list of its level, wherever it stands,
-- takes it out and leaves the others in their order. All lists stay chains without repetition,
-- and nothing but links and heads changes.
pub linked_list_extract_block-HasLists :
    (b : BuddyAlloc) (ls : ℕ → List ℕ) (p level : ℕ)
    → HasLists b ls
    → contains (ls level) p ≡ true
    → (b' : BuddyAlloc) × (linked_list_extract_block p level b ≡ ret tt b')
      × HasLists b' (update ls level (remove p (ls level)))
      × SameButLinks b b'
linked_list_extract_block-HasLists b ls p level h m = (
  extracted p level b,
  linked_list_extract_block_lem p level b,
  extracted-HasLists h p level m,
  extracted-SameButLinks p level b,
)
