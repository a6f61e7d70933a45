-- ===== src/IdPool/Inv.antt =====
-- The invariant of a pool, and what it means for an id to be in use.
use client_server.Base.{
  ℕ, ◌+◌, ◌-◌, ◌^◌, ◌≤◌, ◌<◌, ◌≡◌, ◌≢◌, Bool, ◌&&◌, not, leb, ltb, ◌==◌, length, get_or,
}
use client_server.IdPool.{IdPool}
use client_server.IdPool.Flags.{free_count}

-- The ids that the pool deals in.
abbrev pub InRange : IdPool → ℕ → Type 0
InRange p id = (p.id_start_offset ≤ id) × (id < p.capacity + p.id_start_offset)

unfoldable pub in_range : IdPool → ℕ → Bool
in_range p id = leb p.id_start_offset id && ltb id (p.capacity + p.id_start_offset)

-- An id of the range whose flag is set.
unfoldable pub is_used : IdPool → ℕ → Bool
unfolding in_range
is_used p id = in_range p id && not (get_or p.in_use (id - p.id_start_offset) 0 == 0)

-- The arrays have `capacity` entries; the first `top` entries of `free_ids` are distinct ids of
-- the range whose flags are clear, and there are `top` clear flags.
pub record IsValid (p : IdPool) : Type 0 where
  pub fits : p.capacity + p.id_start_offset < 2 ^ 32
  pub ids_len : length p.free_ids ≡ p.capacity
  pub flags_len : length p.in_use ≡ p.capacity
  pub counted : free_count p.in_use ≡ p.top
  pub ranged : (i : ℕ) → i < p.top → InRange p (get_or p.free_ids i 0)
  pub clear :
      (i : ℕ) → i < p.top → get_or p.in_use (get_or p.free_ids i 0 - p.id_start_offset) 0 ≡ 0
  pub distinct : (i j : ℕ) → i < p.top → j < i → get_or p.free_ids i 0 ≢ get_or p.free_ids j 0
