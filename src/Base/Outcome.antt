-- ===== src/Base/Outcome.antt =====
-- What a C call can come to: a return, or an access outside the memory that it may use.
use Prim.Native.Nat.{ℕ, ◌≤◌, ◌<◌}
use mathlib.Core.Path.{◌≡◌, refl}
use mathlib.Core.Logic.{◌⊎◌, inl, inr}
use mathlib.Core.List.{List}
use mathlib.Core.Option.{none, some}
use client_server.Base.Tests.{ltb, if◌then◌else◌, lt→ltb, le→ltb}
use client_server.Base.Lists.{
  length, get_elem?, get_or, set, get_elem?-eq-get_or, get_elem?-eq-none,
}

-- The negative `errno` values that the program returns.
pub data Errno : Type 0 where
  einval enomem enoent espipe ealready eacces eperm enfile eio efbig efault : Errno
  -- any other one that the system reports
  other : ℕ → Errno

-- `int rc`: zero, or minus an error number.
pub data Status : Type 0 where
  ok : Status
  err : Errno → Status

pub Status-cases : (s : Status) → (s ≡ ok) ⊎ ((e : Errno) × (s ≡ err e))
Status-cases ok = inl refl
Status-cases (err e) = inr (e, refl)

-- `overrun` is an access outside the memory that was allocated.
pub data Run {ℓ} (A : Type ℓ) : Type ℓ where
  returns : A → Run A
  overrun : Run A

infixl 5 ◌>>=◌
abbrev pub ◌>>=◌ {ℓ κ} : {A : Type ℓ} {B : Type κ} → Run A → (A → Run B) → Run B
returns a >>= f = f a
overrun >>= f = overrun

-- `xs[i]` and `xs[i] = v`.
unfoldable pub load {ℓ} : {A : Type ℓ} → List A → ℕ → Run A
load xs i = elim (get_elem? xs i) [ none ↦ overrun | some a ↦ returns a ]

unfoldable pub store {ℓ} : {A : Type ℓ} → List A → ℕ → A → Run (List A)
store xs i v = if ltb i (length xs) then returns (set xs i v) else overrun

module _ {ℓ} {A : Type ℓ} where
  pub load_lem : (xs : List A) (i : ℕ) (d : A) → i < length xs → load xs i ≡ returns (get_or xs i d)
  unfolding load
  load_lem xs i d h = rw (get_elem?-eq-get_or xs i d h, load)

  pub load_overrun : (xs : List A) (i : ℕ) → length xs ≤ i → load xs i ≡ overrun
  unfolding load
  load_overrun xs i h = rw (get_elem?-eq-none xs i h, load)

  pub store_lem :
      (xs : List A) (i : ℕ) (v : A) → i < length xs → store xs i v ≡ returns (set xs i v)
  unfolding store
  store_lem xs i v h = rw (lt→ltb i (length xs) h)

  pub store_overrun : (xs : List A) (i : ℕ) (v : A) → length xs ≤ i → store xs i v ≡ overrun
  unfolding store
  store_overrun xs i v h = rw (le→ltb i (length xs) h)

-- The call comes to a return, with a result of which `P` holds.
pub data Returns {A : Type 0} (P : A → Type 0) : Run A → Type 0 where
  done : {a : A} → P a → Returns P (returns a)

pub bind-Returns :
    {A B : Type 0} {P : A → Type 0} {Q : B → Type 0} {m : Run A} {f : A → Run B}
    → Returns P m
    → ((a : A) → P a → Returns Q (f a))
    → Returns Q (m >>= f)
bind-Returns (done p) next = next _ p

-- A pointer to an object: NULL, to one that is there, or to one that has been freed.
pub data Pointer {ℓ} (A : Type ℓ) : Type ℓ where
  null : Pointer A
  live : A → Pointer A
  freed : Pointer A
