-- ===== src/Stack.antt =====
-- STACK/stack.c: a bounded stack of 16-bit values over an array of `int`. A pointer to a stack is
-- an option (`none` for NULL), and a call that changes `*st` returns the new one.
pub mod Refine
pub mod Spec
pub mod Sequence
mod Tests
use client_server.Base.{
  ◌>>=◌, ℕ, ◌+◌, ◌-◌, ◌*◌, Bool, true, false, not, ◌||◌, Option, none, some, List, ◌==◌,
  if◌then◌else◌, replicate, u16, einval, enomem, enoent, Status, ok, err, Run, returns, load, store,
}

pub record Stack : Type 0 where
  pub num_of_items : ℕ
  pub size : ℕ
  pub stack_array : List ℕ

-- `has_out` is false if `st` is NULL, and `malloc` says whether that many bytes are to be had.
-- The block is cleared by `memset`.
pub create : (ℕ → Bool) → Bool → ℕ → Status × Option Stack
create malloc has_out size =
    if not has_out || size == 0
    then (err einval, none)
    else if malloc (4 + 4 * size)
    then (ok, some (record { num_of_items = 0; size = size; stack_array = replicate size 0 }))
    else (err enomem, none)

unfoldable pub is_empty : Stack → Bool
is_empty st = st.num_of_items == 0

unfoldable pub is_full : Stack → Bool
is_full st = st.num_of_items == st.size

pub push : Option Stack → ℕ → Run (Status × Option Stack)
unfolding is_full
push none x = returns (err einval, none)
push (some st) x = if is_full st then returns (err einval, some st) else do
  items ← store st.stack_array st.num_of_items x
  returns (ok, some (record st { stack_array = items; num_of_items = u16 (st.num_of_items + 1) }))

-- The value that is read is turned from an `int` into a `uint16_t`; `has_out` is false if
-- `outData` is NULL.
pub pop : Option Stack → Bool → Run (Status × Option Stack × Option ℕ)
unfolding is_empty
pop none has_out = returns (err einval, none, none)
pop (some st) false = returns (err einval, some st, none)
pop (some st) true = if is_empty st then returns (err enoent, some st, none) else do
  x ← load st.stack_array (st.num_of_items - 1)
  returns (ok, some (record st { num_of_items = st.num_of_items - 1 }), some (u16 x))

-- `stackFree` also sets the caller's pointer to NULL.
pub free : Option (Option Stack) → Status × Option (Option Stack)
free none = (err einval, none)
free (some none) = (err einval, some none)
free (some (some st)) = (ok, some none)
