-- ===== src/Buddy/Count.antt =====
-- `buddy_alloc_count_free_blocks`
use client_server.Buddy.State.{Block, BuddyAlloc}
use client_server.Buddy.Chain.{contains, Distinct, Chain}
use client_server.Buddy.Links.{prevs}
use client_server.Buddy.Geometry.{node-lt}
use client_server.Buddy.Inv.{Fits, IsValid, is_free}
use client_server.Buddy.Api.{count_loop, buddy_alloc_count_free_blocks}
use client_server.Base.{
  ℕ, zero, suc, ◌+◌, ◌≤◌, ◌<◌, ◌≡◌, refl, sym, ap, ◌∙◌, inl, inr, Bool, true, false, ◌&&◌, Option,
  none, some, List, [], ◌∷◌, arith, ltb, leb, ◌==◌, if◌then◌else◌, Bool-cases, length, ok, returns,
  overrun,
}

-- How many numbers below `n` pass a test.
unfoldable pub tally : (ℕ → Bool) → ℕ → ℕ
tally f zero = 0
tally f (suc n) = if f n then suc (tally f n) else tally f n

tally-eq : (f g : ℕ → Bool) (n : ℕ) → ((j : ℕ) → f j ≡ g j) → tally f n ≡ tally g n
unfolding tally
tally-eq f g zero h = refl
tally-eq f g (suc n) h = rw (h n, tally-eq f g n h) refl

tally-le : (f : ℕ → Bool) (n : ℕ) → tally f n ≤ n
unfolding tally
tally-le f zero = omega arith
tally-le f (suc n) = ground (arith, tally-le f n)

tally_none : (n : ℕ) → tally (λ j. false) n ≡ 0
unfolding tally
tally_none zero = refl
tally_none (suc n) = tally_none n

-- One more number that passes.
tally_mark :
    (f : ℕ → Bool) (x n : ℕ)
    → f x ≡ false
    → tally (λ j. if j == x then true else f j) n ≡ (if ltb x n then suc (tally f n) else tally f n)
unfolding tally
tally_mark f x zero h = ground arith
tally_mark f x (suc n) h = ground (arith, tally_mark f x n h, h)

length-tally :
    (xs : List ℕ) (n : ℕ)
    → Distinct xs
    → ((j : ℕ) → contains xs j ≡ true → j < n)
    → length xs ≡ tally (contains xs) n
length-tally [] n d h = sym (tally_none n)
length-tally (x ∷ xs) n (out, d) h =
    let inside : x < n = h x (ground arith) in
    let rest = length-tally xs n d (λ j m. h j (ground (arith, m))) in
    ground (arith, tally_mark (contains xs) x n out, rest, inside)

-- Fuel above the length of the list is enough.
count_loop_lem :
    (elements : ℕ → Block) (pv : ℕ → Option ℕ) (xs : List ℕ) (fuel : ℕ) (before p : Option ℕ)
    (count : ℕ)
    → Chain (λ j. (elements j).next) pv before p xs
    → length xs < fuel
    → count_loop fuel elements p count ≡ some (count + length xs)
unfolding count_loop
count_loop_lem elements pv xs zero before p count c h = absurd (omega (arith, h))
count_loop_lem elements pv [] (suc fuel) before p count e h =
    let add_zero : count ≡ count + 0 = omega arith in rw e (ap some add_zero)
count_loop_lem elements pv (x ∷ xs) (suc fuel) before p count (e, b, c) h =
    let sum : count + 1 + length xs ≡ count + suc (length xs) = omega arith in
    rw e (
      count_loop_lem elements pv xs fuel (some x) (elements x).next (count + 1) c (omega (arith, h))
      ∙ ap some sum)

-- On a valid allocator the count of a level that it has ends within a round for each block record
-- and one more, and is the number of block records that are free blocks of the level. For any
-- other level the code reads behind the end of the lists.
pub buddy_alloc_count_free_blocks-tally :
    (a n : ℕ) (b : BuddyAlloc) (level : ℕ)
    → Fits a n
    → IsValid a n b
    → buddy_alloc_count_free_blocks (some b) true level ≡ (
        if ltb level n
        then returns (
          ok,
          some (
              tally
                (λ j. is_free (b.elements j) && (b.elements j).level == level)
                b.num_of_elements),
        )
        else overrun)
unfolding buddy_alloc_count_free_blocks
buddy_alloc_count_free_blocks-tally a n b level fits (ls, kind, v) =
    let inside : (j : ℕ) → contains (ls level) j ≡ true → j < b.num_of_elements = λ j m.
      let busy : (b.elements j).is_active ≡ true = ground (arith, m, v.free level j) in
      let (i, low, lt, at_offset, e) = v.placed j busy in
      omega (arith, v.slots, e, node-lt (b.elements j).level n i low lt) in
    let len = length-tally (ls level) b.num_of_elements (v.lists.distinct level) inside in
    let short = tally-le (contains (ls level)) b.num_of_elements in
    let count = len ∙ tally-eq (contains (ls level)) _ b.num_of_elements (v.free level) in
    let run =
      count_loop_lem b.elements (prevs b) (ls level) (b.num_of_elements + 1) none (b.head level) 0
        (v.lists.chain level) (omega (arith, len, short)) in
    let zero_add : 0 + length (ls level) ≡ length (ls level) = omega arith in
    elim (Bool-cases (ltb level n)) [
      | inl e ↦
          let inside_lists : leb b.num_of_levels level ≡ false = ground (arith, v.levels, e) in
          rw (inside_lists, e) (ap (λ c. returns (ok, c)) (run ∙ ap some (zero_add ∙ count)))
      | inr e ↦
          let outside : leb b.num_of_levels level ≡ true = ground (arith, v.levels, e) in
          rw (outside, e) refl
    ]
