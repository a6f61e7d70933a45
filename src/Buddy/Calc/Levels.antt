-- ===== src/Buddy/Calc/Levels.antt =====
-- Levels and sizes of an allocator of `2 ^ a` bytes a block and `n` levels.
use native.Mathlib.Nat.{mul-div_cancel_left}
use native.Mathlib.Bridge.{le_prop}
use mathlib.Core.Logic.{dif_pos, dif_neg}
use mathlib.Core.WellFounded.{Acc}
use native.Mathlib.Decide.{dec_lt}
use client_server.Base.Order.{lt_wf}
use client_server.Buddy.Pow.{two-pow-suc, two-pow_pos, two-pow-split, two-pow_mono, two-pow-lt}
use client_server.Buddy.Bits.{test_of_pow2}
use client_server.Buddy.Calc.{
  half-lt, count_halvings, halvings, calc_num_of_levels, add_nodes, calc_max_nodes, count_shifts,
  shifts, next_pow2, get_block_level,
}
use client_server.Buddy.Calc.NextPow2.{next_pow2_lem}
use client_server.Base.{
  ℕ, zero, suc, ◌+◌, ◌-◌, ◌*◌, ◌/◌, ◌^◌, ◌≤◌, ◌<◌, ◌≡◌, refl, ap, ◌∙◌, ◌≢◌, inl, inr, ◌&&◌, none,
  some, arith, ltb, leb, if◌then◌else◌, ltb→lt, lt→ltb, ltb→le, leb→le, leb→lt, ne→==, Bool-cases,
  u32, add32, sub32, einval, ok, err,
}

halve_step :
    (x acc : ℕ) (w : Acc ◌<◌ x)
    → 0 < x
    → (w' : Acc ◌<◌ (x / 2)) × (count_halvings x acc w ≡ count_halvings (x / 2) (acc + 1) w')
unfolding count_halvings
halve_step x acc (Acc.intro _ smaller) h =
    (smaller (x / 2) (half-lt h), dif_pos (dec_lt 0 x) le_prop h _ _)

halve_end : (x acc : ℕ) (w : Acc ◌<◌ x) → x ≡ 0 → count_halvings x acc w ≡ acc
unfolding count_halvings
halve_end x acc (Acc.intro _ smaller) h = dif_neg (dec_lt 0 x) (omega arith) _ _

count_halvings_pow2 :
    (k acc x : ℕ) (w : Acc ◌<◌ x) → x ≡ 2 ^ k → count_halvings x acc w ≡ acc + k + 1
count_halvings_pow2 zero acc x w e =
    let (w', p) = halve_step x acc w (omega arith) in
    p ∙ halve_end (x / 2) (acc + 1) w' (omega arith) ∙ omega arith
count_halvings_pow2 (suc k) acc x w e =
    let (w', p) = halve_step x acc w (omega (arith, two-pow_pos (suc k))) in
    p ∙ count_halvings_pow2 k (acc + 1) (x / 2) w' (omega (arith, two-pow-suc k)) ∙ omega arith

shift_step :
    (minb x acc : ℕ) (w : Acc ◌<◌ x)
    → minb < x
    → (w' : Acc ◌<◌ (x / 2)) × (count_shifts minb x acc w ≡ count_shifts minb (x / 2) (acc + 1) w')
unfolding count_shifts
shift_step minb x acc (Acc.intro _ smaller) h =
    (smaller (x / 2) (half-lt h), dif_pos (dec_lt minb x) le_prop h _ _)

shift_end : (minb x acc : ℕ) (w : Acc ◌<◌ x) → x ≤ minb → count_shifts minb x acc w ≡ acc
unfolding count_shifts
shift_end minb x acc (Acc.intro _ smaller) h = dif_neg (dec_lt minb x) (omega arith) _ _

count_shifts_pow2 :
    (a c acc x : ℕ) (w : Acc ◌<◌ x) → x ≡ 2 ^ (c + a) → count_shifts (2 ^ a) x acc w ≡ acc + c
count_shifts_pow2 a zero acc x w e =
    let z : zero + a ≡ a = omega arith in
    shift_end (2 ^ a) x acc w (omega (arith, ap (λ t. 2 ^ t) z)) ∙ omega arith
count_shifts_pow2 a (suc c) acc x w e =
    let z : suc c + a ≡ suc (c + a) = omega arith in
    let (w', p) =
      shift_step (2 ^ a) x acc w (omega (arith, two-pow-lt a (suc c + a) (omega arith))) in
    p
    ∙ count_shifts_pow2 a c (acc + 1) (x / 2) w'
        (omega (arith, ap (λ t. 2 ^ t) z, two-pow-suc (c + a)))
    ∙ omega arith

shifts_pow2 : (a c : ℕ) → a ≤ c → shifts (2 ^ a) (2 ^ c) ≡ c - a
unfolding shifts
shifts_pow2 a c h =
    let e : c ≡ c - a + a = omega arith in
    count_shifts_pow2 a (c - a) 0 (2 ^ c) (lt_wf.apply (2 ^ c)) (ap (λ t. 2 ^ t) e) ∙ omega arith

halvings_pow2 : (k : ℕ) → halvings (2 ^ k) ≡ k + 1
unfolding halvings
halvings_pow2 k = count_halvings_pow2 k 0 (2 ^ k) (lt_wf.apply (2 ^ k)) refl ∙ omega arith

pub div-two-pow : (a c : ℕ) → a ≤ c → 2 ^ c / 2 ^ a ≡ 2 ^ (c - a)
div-two-pow a c h = rw (two-pow-split a c h) (mul-div_cancel_left (2 ^ (c - a)) (two-pow_pos a))

-- For a pool of `2 ^ c` bytes in blocks of at least `2 ^ a`, `calc_num_of_levels` gives the
-- number of halvings that take the one size to the other, and one.
pub calc_num_of_levels_lem :
    (a c : ℕ) → a ≤ c → calc_num_of_levels (2 ^ c) (2 ^ a) ≡ (ok, some (c - a + 1))
unfolding calc_num_of_levels
calc_num_of_levels_lem a c h =
    rw (ne→== (2 ^ a) 0 (omega (arith, two-pow_pos a)), div-two-pow a c h, halvings_pow2 (c - a))

add_nodes_lem : (n i acc : ℕ) → acc + 1 ≡ 2 ^ i → i + n ≤ 32 → add_nodes n i acc + 1 ≡ 2 ^ (i + n)
unfolding add_nodes
add_nodes_lem zero i acc e h = let z : i + 0 ≡ i = omega arith in rw z e
add_nodes_lem (suc n) i acc e h =
    let z : i + 1 ≡ suc i = omega arith in
    let next : add32 acc (2 ^ i) + 1 ≡ 2 ^ (i + 1) =
      rw z (omega (arith, two-pow-suc i, two-pow_mono (suc i) 32 (omega arith))) in
    let sum : i + 1 + n ≡ i + suc n = omega arith in
    add_nodes_lem n (i + 1) (add32 acc (2 ^ i)) next (omega arith) ∙ ap (λ t. 2 ^ t) sum

-- `calc_max_nodes` gives the number of nodes of a full binary tree of `n` levels.
pub calc_max_nodes_lem : (n : ℕ) → n ≢ 0 → n ≤ 32 → calc_max_nodes n ≡ (ok, some (2 ^ n - 1))
unfolding calc_max_nodes
calc_max_nodes_lem n ne h =
    let z : 0 + n ≡ n = omega arith in
    let e : add_nodes n 0 0 ≡ 2 ^ n - 1 =
      omega (arith, add_nodes_lem n 0 0 refl (omega arith), ap (λ t. 2 ^ t) z) in
    rw e (ground arith)

-- `get_block_level` of a power of two: the level whose blocks have that size, if there is one;
-- EINVAL if the size is below the least block size or above the pool's.
pub get_block_level_pow2 :
    (a c n : ℕ)
    → n ≢ 0
    → n ≤ 32
    → c < 32
    → get_block_level (2 ^ a) n (2 ^ c)
      ≡ (if leb a c && ltb c (a + n) then (ok, some (a + n - 1 - c)) else (err einval, none))
unfolding get_block_level
get_block_level_pow2 a c n ne h hc =
    let less : sub32 (2 ^ c) 1 ≡ 2 ^ c - 1 = omega (arith, two-pow_pos c, two-pow-lt c 32 hc) in
    let max_lvl : sub32 n 1 ≡ n - 1 = omega arith in
    elim (Bool-cases (leb a c)) [
      | inl le ↦
          rw (less, max_lvl, test_of_pow2 c, shifts_pow2 a c (leb→le a c le))
            (ground (arith, le, two-pow_mono a c (leb→le a c le)))
      | inr lt ↦ ground (arith, lt, two-pow-lt c a (leb→lt a c lt))
    ]

get_block_level_zero : (a n : ℕ) → get_block_level (2 ^ a) n 0 ≡ (err einval, none)
unfolding get_block_level
get_block_level_zero a n = rw (lt→ltb 0 (2 ^ a) (two-pow_pos a))

-- The level that a request of `v` bytes is served from: `2 ^ e` is the least power of two that is
-- not below `v`; if a level has blocks of that size the request goes there, and if not, because
-- they would be smaller than the least block or larger than the pool, it fails with EINVAL.
pub get_block_level-next_pow2 :
    (a n v : ℕ)
    → n ≢ 0
    → a + n ≤ 32
    → v ≢ 0
    → v < 2 ^ 32
    → (e : ℕ) × (v ≤ 2 ^ e)
      × (2 ^ e < 2 * v)
      × (get_block_level (2 ^ a) n (next_pow2 v)
          ≡ (if leb a e && ltb e (a + n) then (ok, some (a + n - 1 - e)) else (err einval, none)))
get_block_level-next_pow2 a n v ne h nv hv =
    let (e, le, low, up, p) = next_pow2_lem v nv hv in
    (e, low, up, ap (get_block_level (2 ^ a) n) p ∙ level e le)
  where
    level :
        (e : ℕ)
        → e ≤ 32
        → get_block_level (2 ^ a) n (u32 (2 ^ e))
          ≡ (if leb a e && ltb e (a + n) then (ok, some (a + n - 1 - e)) else (err einval, none))
    level e le = elim (Bool-cases (ltb e 32)) [
      | inl lt ↦
          let fits : u32 (2 ^ e) ≡ 2 ^ e = omega (arith, two-pow-lt e 32 (ltb→lt _ _ lt)) in
          rw fits (get_block_level_pow2 a e n ne (omega arith) (ltb→lt _ _ lt))
      | inr ge ↦
          let top : e ≡ 32 = omega (arith, ltb→le _ _ ge) in
          let zero_size : u32 (2 ^ e) ≡ 0 = ap (λ t. u32 (2 ^ t)) top in
          rw (zero_size, get_block_level_zero a n) (ground arith)
    ]
