-- ===== src/Buddy/Request.antt =====
-- `buddy_alloc_allocate` on a size in bytes.
use client_server.Buddy.State.{BuddyAlloc}
use client_server.Buddy.Calc.{next_pow2, get_block_level}
use client_server.Buddy.Calc.Levels.{get_block_level-next_pow2}
use client_server.Buddy.Api.{allocate_size, buddy_alloc_allocate}
use client_server.Buddy.Inv.{Fits, IsValid}
use client_server.Buddy.Allocate.{Allocated, allocate_level_lem}
use client_server.Base.{
  ℕ, ◌+◌, ◌-◌, ◌*◌, ◌^◌, ◌≤◌, ◌<◌, ◌≡◌, refl, ◌≢◌, ◌⊎◌, inl, inr, true, false, ◌&&◌, none, some,
  arith, ltb, leb, ◌==◌, if◌then◌else◌, ne→==, Bool-cases, einval, enfile, ok, err,
}

-- The outcome of a request that blocks of `2 ^ e` bytes are to serve.
pub data Served (a n e size : ℕ) (b : BuddyAlloc) : Type 0 where
  no_such_level :
      (e < a) ⊎ (a + n ≤ e)
      → buddy_alloc_allocate (some b) true size ≡ (err einval, some b, none)
      → Served a n e size b
  exhausted :
      ((k : ℕ) → k ≤ a + n - 1 - e → b.head k ≡ none)
      → buddy_alloc_allocate (some b) true size ≡ (err enfile, some b, none)
      → Served a n e size b
  handed_out :
      a ≤ e
      → e < a + n
      → (x : Allocated a n (a + n - 1 - e) b)
      → buddy_alloc_allocate (some b) true size ≡ (ok, some x.state, some x.block)
      → Served a n e size b

-- On a valid allocator a request of `size` bytes is served from the blocks of `2 ^ e` bytes, the
-- least power of two that is not below `size`. If no level has such blocks it fails with EINVAL.
-- If no list of that level or one of larger blocks has a block it fails with ENFILE; both leave
-- the allocator as it was. Otherwise it hands out a block of that level that nobody held, the
-- allocator stays valid, and the blocks that callers hold stay held, with offset and level.
pub buddy_alloc_allocate-Served :
    (a n : ℕ) (b : BuddyAlloc) (size : ℕ)
    → Fits a n
    → IsValid a n b
    → size ≢ 0
    → size < 2 ^ 32
    → (e : ℕ) × (size ≤ 2 ^ e) × (2 ^ e < 2 * size) × Served a n e size b
unfolding buddy_alloc_allocate allocate_size
buddy_alloc_allocate-Served a n b size fits (ls, kind, v) nz word =
    let (e, low, up, level) =
      get_block_level-next_pow2 a n size fits.some_level fits.word nz word in
    let given : get_block_level b.min_block_size b.num_of_levels (next_pow2 size)
        ≡ (if leb a e && ltb e (a + n) then (ok, some (a + n - 1 - e)) else (err einval, none)) =
      rw (v.least, v.levels) level in
    let some_size : size == 0 ≡ false = ne→== size 0 nz in
    (
      e,
      low,
      up,
      elim (Bool-cases (leb a e && ltb e (a + n))) [
        | inr none_such ↦
            no_such_level (ground (arith, none_such)) (rw (some_size, given, none_such) refl)
        | inl inside ↦
            let up_to : e < a + n = ground (arith, inside) in
            let from : a ≤ e = ground (arith, inside) in
            let in_range : a + n - 1 - e < n = omega (arith, up_to, from, fits.some_level) in
            elim (allocate_level_lem fits v (a + n - 1 - e) in_range) [
              | inl (x, run) ↦ handed_out from up_to x (rw (some_size, given, inside, run) refl)
              | inr (run, empty) ↦ exhausted empty (rw (some_size, given, inside, run) refl)
            ]
      ],
    )
