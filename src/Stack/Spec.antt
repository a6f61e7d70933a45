-- ===== src/Stack/Spec.antt =====
-- A bounded list, last in first out, and what its clients see of each call.
use client_server.Base.{
  ℕ, Option, none, some, List, [], ◌∷◌, ◌==◌, if◌then◌else◌, length, u16, einval, enoent, Status,
  ok, err,
}

pub data Op : Type 0 where
  put : ℕ → Op
  take : Op

-- the status, and the value that a call hands over
abbrev pub Reply : Type 0
Reply = Status × Option ℕ

abbrev pub spec_push : ℕ → List ℕ → ℕ → Reply × List ℕ
spec_push size xs x = if length xs == size then ((err einval, none), xs) else ((ok, none), x ∷ xs)

abbrev pub spec_pop : List ℕ → Reply × List ℕ
spec_pop [] = ((err enoent, none), [])
spec_pop (x ∷ xs) = ((ok, some x), xs)

-- An argument of type `uint16_t` is turned into one at the call.
abbrev pub spec_step : ℕ → List ℕ → Op → Reply × List ℕ
spec_step size xs (put x) = spec_push size xs (u16 x)
spec_step size xs take = spec_pop xs

unfoldable pub spec_run : ℕ → List ℕ → List Op → List Reply
spec_run size xs [] = []
spec_run size xs (o ∷ os) = let (r, ys) = spec_step size xs o in r ∷ spec_run size ys os
