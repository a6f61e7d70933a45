-- ===== src/Buddy/Calc.antt =====
-- The arithmetic of BUDDY_ALLOCATOR/src/buddy_allocator.c, on `uint32_t` values. A shift is by
-- less than 32 bits wherever the code makes one on a valid allocator.
pub mod NextPow2
pub mod Levels
use mathlib.Core.Logic.{dite}
use mathlib.Core.WellFounded.{Acc}
use Prim.Native.Nat.{bit_and, bit_or, bit_xor}
use native.Mathlib.Decide.{dec_lt}
use client_server.Base.Order.{lt_wf}
use client_server.Base.{
  ℕ, zero, suc, ◌+◌, ◌-◌, ◌*◌, ◌/◌, ◌^◌, ◌<◌, not, ◌||◌, Option, none, some, arith, ltb, ◌==◌,
  if◌then◌else◌, u32, add32, sub32, einval, Status, ok, err,
}

abbrev pub max_levels : ℕ
max_levels = 64

unfoldable pub get_buddy_offset : ℕ → ℕ → ℕ
get_buddy_offset block_offset block_size = bit_xor block_offset block_size

unfoldable pub get_block_size : ℕ → ℕ → ℕ → ℕ
get_block_size block_level min_block_size num_of_levels =
    u32 (min_block_size * 2 ^ sub32 (sub32 num_of_levels 1) block_level)

pub half-lt : {a x : ℕ} → a < x → x / 2 < x
half-lt h = omega arith

-- `for (t = ...; t > 0; t >>= 1) levels++`
count_halvings : (t levels : ℕ) → Acc ◌<◌ t → ℕ
count_halvings t levels (Acc.intro _ smaller) =
    dite (dec_lt 0 t) (λ h. count_halvings (t / 2) (levels + 1) (smaller (t / 2) (half-lt h)))
      (λ _. levels)

unfoldable pub halvings : ℕ → ℕ
unfolding count_halvings lt_wf dec_lt
halvings t = count_halvings t 0 (lt_wf.apply t)

unfoldable pub calc_num_of_levels : ℕ → ℕ → Status × Option ℕ
calc_num_of_levels block_size min_block_size =
    if min_block_size == 0
    then (err einval, none)
    else (ok, some (halvings (block_size / min_block_size)))

-- The shifts and ors of `next_pow2`.
unfoldable pub smear : ℕ → ℕ → ℕ
smear v k = bit_or v (v / 2 ^ k)

unfoldable pub next_pow2 : ℕ → ℕ
next_pow2 v =
    if v == 0 then 0 else add32 (smear (smear (smear (smear (smear (v - 1) 1) 2) 4) 8) 16) 1

-- `for (i = 0; i < num_of_levels; i++) max_nodes = max_nodes + (1 << i)`: `n` rounds from `i` on
unfoldable pub add_nodes : ℕ → ℕ → ℕ → ℕ
add_nodes zero i max_nodes = max_nodes
add_nodes (suc n) i max_nodes = add_nodes n (i + 1) (add32 max_nodes (2 ^ i))

unfoldable pub calc_max_nodes : ℕ → Status × Option ℕ
calc_max_nodes num_of_levels =
    if ltb max_levels num_of_levels || num_of_levels == 0
    then (err einval, none)
    else (ok, some (add_nodes num_of_levels 0 0))

-- `while (size > minb) { size >>= 1; shift_count++; }`
count_shifts : (minb size shift_count : ℕ) → Acc ◌<◌ size → ℕ
count_shifts minb size shift_count (Acc.intro _ smaller) =
    dite (dec_lt minb size)
      (λ h. count_shifts minb (size / 2) (shift_count + 1) (smaller (size / 2) (half-lt h)))
      (λ _. shift_count)

unfoldable pub shifts : ℕ → ℕ → ℕ
unfolding count_shifts lt_wf dec_lt
shifts minb size = count_shifts minb size 0 (lt_wf.apply size)

-- The allocator enters by two of its fields. Its callers pass an allocator and the address of a
-- local, so neither pointer is NULL.
unfoldable pub get_block_level : ℕ → ℕ → ℕ → Status × Option ℕ
get_block_level minb num_of_levels block_size =
    if ltb block_size minb || not (bit_and block_size (sub32 block_size 1) == 0)
    then (err einval, none)
    else let shift_count = shifts minb block_size in
      let max_lvl = sub32 num_of_levels 1 in
      if ltb max_lvl shift_count then (err einval, none) else (ok, some (max_lvl - shift_count))

unfoldable pub calc_buddy_allocator_slot : ℕ → ℕ → ℕ → ℕ
calc_buddy_allocator_slot offset block_level block_size =
    add32 (sub32 (u32 (2 ^ block_level)) 1) (offset / block_size)
