-- ===== src/Buddy/Creation.antt =====
-- `buddy_alloc_create`: what it comes to, for all sizes and all answers of `calloc`.
use Prim.Native.Nat.{bit_and}
use client_server.Buddy.State.{BuddyAlloc, mem_pool_destroy}
use client_server.Buddy.Pow.{two-pow_pos, two-pow_mono, le_of_two-pow}
use client_server.Buddy.Bits.{pow2_of_test}
use client_server.Buddy.Api.{Cfg, is_pow2, with_pool, buddy_alloc_create}
use client_server.Buddy.Inv.{IsValid, held}
use client_server.Buddy.Create.{is_pow2_lem, create_reach, pool_lem, buddy_alloc_create-IsValid}
use client_server.Base.{
  ℕ, ◌+◌, ◌-◌, ◌^◌, ◌≤◌, ◌<◌, ◌≡◌, refl, sym, ap, ◌∙◌, ◌≢◌, inl, inr, Bool, true, false, not, ◌&&◌,
  ◌||◌, Option, none, some, arith, ltb, ◌==◌, ltb→lt, ltb→le, ==→eq, Bool-cases, sub32, einval,
  enomem, Status, ok, err, Run, returns, overrun,
}

-- A pool of `2 ^ c` bytes in blocks of `2 ^ a` bytes or more.
pub record Sizes (a c : ℕ) (cfg : Cfg) : Type 0 where
  pub total : cfg.total_mem_pool_size ≡ 2 ^ c
  pub least : cfg.min_block_size ≡ 2 ^ a
  pub order : a ≤ c

module _ (got_alloc got_pool got_elements : Bool) (cfg : Cfg) where
  abbrev pub creation : Run (Status × Option BuddyAlloc)
  creation = buddy_alloc_create true got_alloc got_pool got_elements (some cfg)

  -- What `buddy_alloc_create` can come to.
  pub data Creation : Type 0 where
    bad_sizes : ((a c : ℕ) → ¬ Sizes a c cfg) → creation ≡ returns (err einval, none) → Creation
    no_memory :
        (a c : ℕ)
        → Sizes a c cfg
        → got_alloc && got_pool ≡ false
        → creation ≡ returns (err enomem, none)
        → Creation
    freed_twice :
        (a c : ℕ)
        → Sizes a c cfg
        → got_alloc && got_pool ≡ true
        → got_elements ≡ false
        → creation ≡ overrun
        → Creation
    created :
        (a c : ℕ) (b : BuddyAlloc)
        → Sizes a c cfg
        → got_alloc && got_pool && got_elements ≡ true
        → creation ≡ returns (ok, some b)
        → IsValid a (c - a + 1) b
        → ((j : ℕ) → held (b.elements j) ≡ false)
        → Creation

-- The tests of the sizes, the first of which also asks for powers of two.
abbrev odd_sizes : Cfg → Bool
odd_sizes cfg =
    (cfg.min_block_size == 0 || cfg.total_mem_pool_size == 0)
    || (not (is_pow2 cfg.total_mem_pool_size) || not (is_pow2 cfg.min_block_size))

small_exponent : (k v : ℕ) → v < 2 ^ 32 → v ≡ 2 ^ k → k < 32
small_exponent k v h e = elim (Bool-cases (ltb k 32)) [
  | inl lt ↦ ltb→lt _ _ lt
  | inr ge ↦ absurd (omega (arith, h, e, two-pow_mono 32 k (ltb→le _ _ ge)))
]

exponent_of : (v : ℕ) → v < 2 ^ 32 → v ≢ 0 → is_pow2 v ≡ true → (k : ℕ) × (v ≡ 2 ^ k)
exponent_of v h ne e =
    let less : sub32 v 1 ≡ v - 1 = omega (arith, h, ne) in
    pow2_of_test v ne (ap (bit_and v) (sym less) ∙ ==→eq _ _ e)

module _ (cfg : Cfg) (total_word : cfg.total_mem_pool_size < 2 ^ 32)
    (least_word : cfg.min_block_size < 2 ^ 32) where
  Sizes-tests : (a c : ℕ) → Sizes a c cfg → odd_sizes cfg ≡ false
  Sizes-tests a c s =
      let hc = small_exponent c cfg.total_mem_pool_size total_word s.total in
      let ha = small_exponent a cfg.min_block_size least_word s.least in
      let p : is_pow2 cfg.total_mem_pool_size ≡ true = ap is_pow2 s.total ∙ is_pow2_lem c hc in
      let q : is_pow2 cfg.min_block_size ≡ true = ap is_pow2 s.least ∙ is_pow2_lem a ha in
      ground (arith, p, q, s.total, s.least, two-pow_pos a, two-pow_pos c)

  -- Sizes that pass both tests are powers of two in order.
  tests-Sizes :
      odd_sizes cfg ≡ false
      → ltb cfg.total_mem_pool_size cfg.min_block_size ≡ false
      → (a c : ℕ) × Sizes a c cfg
  tests-Sizes even order =
      let some_total : cfg.total_mem_pool_size ≢ 0 = ground (arith, even) in
      let some_least : cfg.min_block_size ≢ 0 = ground (arith, even) in
      let p : is_pow2 cfg.total_mem_pool_size ≡ true = ground (arith, even) in
      let q : is_pow2 cfg.min_block_size ≡ true = ground (arith, even) in
      let (c, total) = exponent_of cfg.total_mem_pool_size total_word some_total p in
      let (a, least) = exponent_of cfg.min_block_size least_word some_least q in
      (
        a,
        c,
        record {
          total = total;
          least = least;
          order = le_of_two-pow a c (omega (arith, total, least, ltb→le _ _ order));
        },
      )

  sized :
      (got_alloc got_pool got_elements : Bool) (a c : ℕ)
      → Sizes a c cfg
      → creation got_alloc got_pool got_elements cfg
        ≡ creation got_alloc got_pool got_elements
            (record { total_mem_pool_size = 2 ^ c; min_block_size = 2 ^ a })
  sized got_alloc got_pool got_elements a c s =
      ap
        (λ t.
          creation got_alloc got_pool got_elements
            (record { total_mem_pool_size = t; min_block_size = cfg.min_block_size }))
        s.total
      ∙ ap
          (λ t.
            creation got_alloc got_pool got_elements
              (record { total_mem_pool_size = 2 ^ c; min_block_size = t }))
          s.least

  sized-Creation :
      (got_alloc got_pool got_elements : Bool) (a c : ℕ)
      → Sizes a c cfg
      → Creation got_alloc got_pool got_elements cfg
  unfolding mem_pool_destroy
  sized-Creation false got_pool got_elements a c s =
      let hc = small_exponent c cfg.total_mem_pool_size total_word s.total in
      no_memory a c s refl (
        sized false got_pool got_elements a c s
        ∙ create_reach a c false got_pool got_elements s.order hc)
  sized-Creation true false got_elements a c s =
      let hc = small_exponent c cfg.total_mem_pool_size total_word s.total in
      no_memory a c s refl (
        sized true false got_elements a c s
        ∙ create_reach a c true false got_elements s.order hc
        ∙ ap (with_pool (2 ^ c) (2 ^ a) (c - a + 1))
            (pool_lem (c - a + 1) false got_elements (omega arith)))
  sized-Creation true true false a c s =
      let hc = small_exponent c cfg.total_mem_pool_size total_word s.total in
      freed_twice a c s refl refl (
        sized true true false a c s
        ∙ create_reach a c true true false s.order hc
        ∙ ap (with_pool (2 ^ c) (2 ^ a) (c - a + 1))
            (pool_lem (c - a + 1) true false (omega arith)))
  sized-Creation true true true a c s =
      let hc = small_exponent c cfg.total_mem_pool_size total_word s.total in
      let (b, made, valid, nobody) = buddy_alloc_create-IsValid a c s.order hc in
      created a c b s refl (sized true true true a c s ∙ made) valid nobody

  -- What `buddy_alloc_create` does for all 32-bit sizes and all answers of `calloc`. Unless both
  -- sizes are powers of two, the least block not larger than the pool, it fails with EINVAL. For
  -- good sizes it fails with ENOMEM if there is no memory for the allocator or for the pool's
  -- struct. If there is for these, but none for the block records, it uses and frees the pool a
  -- second time. With all memory at hand it succeeds, the allocator is valid, and nobody holds a
  -- block of it.
  pub buddy_alloc_create-Creation :
      (got_alloc got_pool got_elements : Bool) → Creation got_alloc got_pool got_elements cfg
  unfolding buddy_alloc_create
  buddy_alloc_create-Creation got_alloc got_pool got_elements = elim (Bool-cases (odd_sizes cfg)) [
    | inl odd ↦ bad_sizes (λ a c s. ground (arith, odd, Sizes-tests a c s)) (rw odd refl)
    | inr even ↦ elim (Bool-cases (ltb cfg.total_mem_pool_size cfg.min_block_size)) [
      | inl less ↦
          bad_sizes
            (λ a c s. omega (arith, ltb→lt _ _ less, s.total, s.least, two-pow_mono a c s.order))
            (rw (even, less) refl)
      | inr order ↦
          let (a, c, s) = tests-Sizes even order in
          sized-Creation got_alloc got_pool got_elements a c s
    ]
  ]
