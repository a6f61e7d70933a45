-- ===== src/Buddy/Sequence.antt =====
-- Histories of calls of a caller of the allocator that frees only blocks it holds.
use client_server.Buddy.State.{BuddyAlloc}
use client_server.Buddy.Api.{
  buddy_alloc_create, buddy_alloc_allocate, buddy_alloc_free, allocate_size,
}
use client_server.Buddy.Chain.{contains, remove, Distinct, contains-remove, remove-Distinct}
use client_server.Buddy.Inv.{Fits, IsValid, held}
use client_server.Buddy.Request.{
  Served, no_such_level, exhausted, handed_out, buddy_alloc_allocate-Served,
}
use client_server.Buddy.Release.{Released, buddy_alloc_free-Released}
use client_server.Buddy.Create.{buddy_alloc_create-IsValid}
use client_server.Buddy.Allocate.{Allocated}
use client_server.Base.{
  ℕ, ◌+◌, ◌-◌, ◌^◌, ◌≤◌, ◌<◌, ◌≡◌, refl, sym, subst, ◌∙◌, inl, inr, true, Option, none, some, List,
  [], ◌∷◌, arith, ◌==◌, if◌then◌else◌, ==→ne, Bool-cases, u32, einval, Status, ok, err, returns,
}

-- A request for a number of bytes, which is passed as a `uint32_t`, or the free of a slot.
pub data Call : Type 0 where
  request : ℕ → Call
  release : ℕ → Call

-- The caller's view: the allocator and the blocks it holds. It keeps the blocks that it is given.
abbrev pub View : Type 0
View = BuddyAlloc × List ℕ

abbrev given : View → Status × Option BuddyAlloc × Option ℕ → View
given (b, owned) (rc, none, out) = (b, owned)
given (b, owned) (rc, some b', none) = (b', owned)
given (b, owned) (rc, some b', some p) = (b', p ∷ owned)

abbrev taken_back : View → ℕ → Status × Option BuddyAlloc → View
taken_back (b, owned) p (ok, some b') = (b', remove p owned)
taken_back (b, owned) p (ok, none) = (b, owned)
taken_back (b, owned) p (err e, some b') = (b', owned)
taken_back (b, owned) p (err e, none) = (b, owned)

unfoldable pub step : Call → View → View
step (request size) (b, owned) = given (b, owned) (buddy_alloc_allocate (some b) true (u32 size))
step (release p) (b, owned) =
    if contains owned p
    then taken_back (b, owned) p (buddy_alloc_free (some b) (some p))
    else (b, owned)

unfoldable pub run : List Call → View → View
run [] view = view
run (c ∷ cs) view = run cs (step c view)

-- The allocator is valid, and its held blocks are those that the caller has, each once.
pub record Agrees (a n : ℕ) (view : View) : Type 0 where
  pub valid : IsValid a n view.0
  pub distinct : Distinct view.1
  pub agree : (j : ℕ) → held (view.0.elements j) ≡ contains view.1 j

-- A request of no bytes.
pub allocate_zero :
    (b : BuddyAlloc) (size : ℕ)
    → size == 0 ≡ true
    → buddy_alloc_allocate (some b) true size ≡ (err einval, some b, none)
unfolding buddy_alloc_allocate allocate_size
allocate_zero b size e = rw e refl

module _ (a n : ℕ) (b : BuddyAlloc) (owned : List ℕ) (g : Agrees a n (b, owned)) where
  pub handed_out-Agrees : {l : ℕ} (x : Allocated a n l b) → Agrees a n (x.state, x.block ∷ owned)
  handed_out-Agrees x = record {
    valid = (x.entries, x.kinds, x.inv);
    distinct = (sym (g.agree x.block) ∙ x.fresh, g.distinct);
    agree = λ j. ground (arith, x.holds j, g.agree j);
  }

  pub released-Agrees :
      (b' : BuddyAlloc) (p : ℕ) → IsValid a n b' → Released p b b' → Agrees a n (b', remove p owned)
  released-Agrees b' p valid released = record {
    valid = valid;
    distinct = remove-Distinct p owned g.distinct;
    agree = λ j. released.holds j ∙ ground (arith, g.agree j, contains-remove p j owned g.distinct);
  }

module _ (a n : ℕ) (fits : Fits a n) where
  request-Agrees :
      (size : ℕ) (b : BuddyAlloc) (owned : List ℕ)
      → Agrees a n (b, owned)
      → Agrees a n (step (request size) (b, owned))
  unfolding step buddy_alloc_allocate allocate_size
  request-Agrees size b owned g = elim (Bool-cases (u32 size == 0)) [
    | inl e ↦ rw e g
    | inr ne ↦
        let (e, _, _, served) =
          buddy_alloc_allocate-Served a n b (u32 size) fits g.valid (==→ne _ _ ne) (omega arith) in
        served_lem e served
  ]
    where
      served_lem :
          (e : ℕ)
          → Served a n e (u32 size) b
          → Agrees a n (given (b, owned) (buddy_alloc_allocate (some b) true (u32 size)))
      served_lem e (no_such_level h run) = subst (λ r. Agrees a n (given (b, owned) r)) (sym run) g
      served_lem e (exhausted h run) = subst (λ r. Agrees a n (given (b, owned) r)) (sym run) g
      served_lem e (handed_out h h' x run) =
          subst (λ r. Agrees a n (given (b, owned) r)) (sym run) (handed_out-Agrees a n b owned g x)

  release-Agrees :
      (p : ℕ) (b : BuddyAlloc) (owned : List ℕ)
      → Agrees a n (b, owned)
      → Agrees a n (step (release p) (b, owned))
  unfolding step
  release-Agrees p b owned g = elim (Bool-cases (contains owned p)) [
    | inr out ↦ rw out g
    | inl own ↦
        let (b', run, valid, released) =
          buddy_alloc_free-Released a n b p fits g.valid (g.agree p ∙ own) in
        rw (own, run) (released-Agrees a n b owned g b' p valid released)
  ]

  run-Agrees :
      (cs : List Call) (b : BuddyAlloc) (owned : List ℕ)
      → Agrees a n (b, owned)
      → Agrees a n (run cs (b, owned))
  unfolding run
  run-Agrees [] b owned g = g
  run-Agrees (request size ∷ cs) b owned g =
      run-Agrees cs (step (request size) (b, owned)).0 (step (request size) (b, owned)).1
        (request-Agrees size b owned g)
  run-Agrees (release p ∷ cs) b owned g =
      run-Agrees cs (step (release p) (b, owned)).0 (step (release p) (b, owned)).1
        (release-Agrees p b owned g)

-- For a pool of `2 ^ c` bytes in blocks of `2 ^ a` bytes or more, a 32-bit size and at most 27
-- levels, the allocator is created, and it stays valid through every history of requests and
-- frees of a caller that frees only what it holds. The blocks that the allocator regards as held
-- are always exactly those that the caller has, and no block is handed out twice.
pub run-created-Agrees :
    (a c : ℕ) (cs : List Call)
    → a ≤ c
    → c < 32
    → c < a + 27
    → (b : BuddyAlloc) × (buddy_alloc_create true true true true
          (some (record { total_mem_pool_size = 2 ^ c; min_block_size = 2 ^ a }))
        ≡ returns (ok, some b))
      × Agrees a (c - a + 1) (run cs (b, []))
run-created-Agrees a c cs h word records =
    let (b, made, valid, nobody) = buddy_alloc_create-IsValid a c h word in
    let fits : Fits a (c - a + 1) = record {
      some_level = omega arith;
      word = omega (arith, h, word);
      records = omega (arith, h, records);
    } in
    (
      b,
      made,
      run-Agrees a (c - a + 1) fits cs b []
          (record { valid = valid; distinct = tt; agree = nobody }),
    )
