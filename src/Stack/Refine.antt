-- ===== src/Stack/Refine.antt =====
-- A valid stack behaves as the bounded list of the values that it holds, the last one first.
use client_server.Base.{
  ℕ, zero, suc, ◌+◌, ◌-◌, ◌*◌, ◌^◌, ◌≤◌, ◌<◌, ◌≡◌, refl, ap, ◌∙◌, ◌≢◌, ◌⊎◌, inl, inr, Bool, true,
  none, some, List, [], ◌∷◌, arith, ◌==◌, ==→eq, ==→ne, Bool-cases, length, get_or, set, replicate,
  length-set, length-replicate, get_or-set_self, get_or-set_ne, get_or-replicate, u16, einval,
  enoent, ok, err, returns, load_lem, store_lem,
}
use client_server.Stack.{Stack, create, push, pop}

-- the first `n` values of the array, the last of them first
unfoldable pub items_below : List ℕ → ℕ → List ℕ
items_below xs zero = []
items_below xs (suc n) = get_or xs n 0 ∷ items_below xs n

abbrev pub contents : Stack → List ℕ
contents st = items_below st.stack_array st.num_of_items

-- The array has `size` entries, 16-bit values all, and no more of them count than there are.
pub record IsValid (st : Stack) : Type 0 where
  pub room : st.num_of_items ≤ st.size
  pub word : st.size < 2 ^ 16
  pub array_len : length st.stack_array ≡ st.size
  pub values : (i : ℕ) → get_or st.stack_array i 0 < 2 ^ 16

length-items_below : (xs : List ℕ) (n : ℕ) → length (items_below xs n) ≡ n
unfolding items_below
length-items_below xs zero = refl
length-items_below xs (suc n) = ap suc (length-items_below xs n)

-- A write at `n` or above does not show below `n`.
items_below-set : (xs : List ℕ) (n i x : ℕ) → n ≤ i → items_below (set xs i x) n ≡ items_below xs n
unfolding items_below
items_below-set xs zero i x h = refl
items_below-set xs (suc n) i x h =
    rw (get_or-set_ne xs i n x 0 (omega arith), items_below-set xs n i x (omega arith))

items_below_pos :
    (xs : List ℕ) (n : ℕ) → n ≢ 0 → items_below xs n ≡ get_or xs (n - 1) 0 ∷ items_below xs (n - 1)
unfolding items_below
items_below_pos xs zero h = absurd (h refl)
items_below_pos xs (suc n) h = ap (λ k. get_or xs k 0 ∷ items_below xs k) (omega arith)

set_values :
    (xs : List ℕ) (i x : ℕ)
    → ((k : ℕ) → get_or xs k 0 < 2 ^ 16)
    → x < 2 ^ 16
    → (k : ℕ) → get_or (set xs i x) k 0 < 2 ^ 16
set_values [] i x all h k = omega arith
set_values (y ∷ ys) zero x all h zero = h
set_values (y ∷ ys) zero x all h (suc k) = all (suc k)
set_values (y ∷ ys) (suc i) x all h zero = all 0
set_values (y ∷ ys) (suc i) x all h (suc k) = set_values ys i x (λ m. all (suc m)) h k

-- `create` with a size that is not zero, in memory that is to be had, makes a valid empty stack.
pub create-IsValid :
    (malloc : ℕ → Bool) (size : ℕ)
    → malloc (4 + 4 * size) ≡ true
    → size ≢ 0
    → size < 2 ^ 16
    → (st : Stack) × (create malloc true size ≡ (ok, some st))
      × IsValid st
      × (contents st ≡ [])
      × (st.size ≡ size)
unfolding create items_below
create-IsValid malloc size got ne word = (
  record { num_of_items = 0; size = size; stack_array = replicate size 0 },
  ground (arith, got),
  record {
    room = omega arith;
    word = word;
    array_len = length-replicate size 0;
    values = λ i. omega (arith, get_or-replicate {A = ℕ} size i 0);
  },
  refl,
  refl,
)

-- What a push leaves: a stack of the same size with `x` on top.
pub record Pushed (st : Stack) (x : ℕ) (st' : Stack) : Type 0 where
  pub top : contents st' ≡ x ∷ contents st
  pub size : st'.size ≡ st.size
  pub valid : IsValid st'

-- What a pop leaves: a stack of the same size, and what was below the top.
pub record Popped (st : Stack) (x : ℕ) (st' : Stack) : Type 0 where
  pub top : contents st ≡ x ∷ contents st'
  pub size : st'.size ≡ st.size
  pub valid : IsValid st'

-- `stackPush` on a valid stack makes no access out of bounds. With `size` values on the stack it
-- fails with EINVAL and changes nothing; else it puts the value on top.
pub push_lem :
    {st : Stack} (x : ℕ)
    → IsValid st
    → x < 2 ^ 16
    → ((length (contents st) ≡ st.size) × (push (some st) x ≡ returns (err einval, some st)))
      ⊎ ((st' : Stack) × (length (contents st) < st.size)
          × (push (some st) x ≡ returns (ok, some st'))
          × Pushed st x st')
unfolding push items_below
push_lem {st} x v h = elim (Bool-cases (st.num_of_items == st.size)) [
  | inl e ↦ inl (length-items_below st.stack_array st.num_of_items ∙ ==→eq _ _ e, rw e)
  | inr e ↦
      let room : st.num_of_items < st.size = omega (arith, ==→ne _ _ e, v.room) in
      inr (
        record st {
          stack_array = set st.stack_array st.num_of_items x;
          num_of_items = suc st.num_of_items;
        },
        omega (arith, room, length-items_below st.stack_array st.num_of_items),
        rw (e, store_lem st.stack_array st.num_of_items x (omega (arith, room, v.array_len)))
            (λ i. returns (
              ok,
              some (record st {
                stack_array = set st.stack_array st.num_of_items x;
                num_of_items =
                    (let w : u16 (st.num_of_items + 1) ≡ suc st.num_of_items =
                          omega (arith, room, v.word) in
                        w)
                      i;
              }),
            )),
        record {
          top = rw (
            get_or-set_self st.stack_array st.num_of_items x 0 (omega (arith, room, v.array_len)),
            items_below-set st.stack_array st.num_of_items st.num_of_items x (omega arith),
          );
          size = refl;
          valid = record {
            room = room;
            word = v.word;
            array_len = length-set st.stack_array st.num_of_items x ∙ v.array_len;
            values = set_values st.stack_array st.num_of_items x v.values h;
          };
        },
      )
]

-- `stackPop` on a valid stack makes no access out of bounds. On an empty stack it fails with
-- ENOENT and changes nothing; else it returns the top value and leaves the rest.
pub pop_lem :
    {st : Stack}
    → IsValid st
    → ((contents st ≡ []) × (pop (some st) true ≡ returns (err enoent, some st, none)))
      ⊎ ((x : ℕ) × (st' : Stack) × (pop (some st) true ≡ returns (ok, some st', some x))
          × Popped st x st')
unfolding pop items_below
pop_lem {st} v = elim (Bool-cases (st.num_of_items == 0)) [
  | inl e ↦ inl (ap (items_below st.stack_array) (==→eq _ _ e), rw e)
  | inr e ↦
      let ne = ==→ne st.num_of_items 0 e in
      inr (
        get_or st.stack_array (st.num_of_items - 1) 0,
        record st { num_of_items = st.num_of_items - 1 },
        rw
            (
              e,
              load_lem st.stack_array (st.num_of_items - 1) 0
                  (omega (arith, ne, v.room, v.array_len)),
            )
            (ap (λ k. returns (ok, some (record st { num_of_items = st.num_of_items - 1 }), some k))
              (omega (arith, v.values (st.num_of_items - 1)))),
        record {
          top = items_below_pos st.stack_array st.num_of_items ne;
          size = refl;
          valid = record {
            room = omega (arith, v.room);
            word = v.word;
            array_len = v.array_len;
            values = v.values;
          };
        },
      )
]
