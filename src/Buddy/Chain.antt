-- ===== src/Buddy/Chain.antt =====
-- Doubly linked chains over two link functions: what relinking does to the list of a chain.
use client_server.Base.{
  ℕ, ◌≡◌, refl, sym, ap, subst, ◌∙◌, inl, inr, Bool, true, false, Option, none, some, List, [], ◌∷◌,
  arith, ◌==◌, if◌then◌else◌, ==→eq, Bool-cases,
}

abbrev pub contains : List ℕ → ℕ → Bool
contains [] j = false
contains (x ∷ xs) j = if j == x then true else contains xs j

unfoldable pub remove : ℕ → List ℕ → List ℕ
remove p [] = []
remove p (x ∷ xs) = if p == x then xs else x ∷ remove p xs

abbrev pub Distinct : List ℕ → Type 0
Distinct [] = Unit {0}
Distinct (x ∷ xs) = (contains xs x ≡ false) × Distinct xs

-- The link leads to `j`.
abbrev pub at : Option ℕ → ℕ → Bool
at none j = false
at (some x) j = j == x

module _ (nx pv : ℕ → Option ℕ) where
  -- From `p` the `nx` links lead through `xs` to NULL, and the `pv` links lead back to `before`.
  abbrev pub Chain : Option ℕ → Option ℕ → List ℕ → Type 0
  Chain before p [] = p ≡ none
  Chain before p (x ∷ xs) = (p ≡ some x) × (pv x ≡ before) × Chain (some x) (nx x) xs

  -- Inside a chain the forward link of an entry leads to an entry.
  pub next_in :
      (xs : List ℕ) (before p : Option ℕ) (x j : ℕ)
      → Chain before p xs
      → contains xs x ≡ true
      → at (nx x) j ≡ true
      → contains xs j ≡ true
  next_in [] before p x j c m a = cc
  next_in (y ∷ []) before p x j (e, b, c) m a = ground arith
  next_in (y ∷ z ∷ zs) before p x j (e, b, c) m a =
      ground (arith, next_in (z ∷ zs) (some y) (nx y) x j c)

  -- The backward link of an entry behind the first leads to an entry.
  pub prev_in :
      (ys : List ℕ) (before p : Option ℕ) (y x j : ℕ)
      → Chain before p (y ∷ ys)
      → contains ys x ≡ true
      → at (pv x) j ≡ true
      → contains (y ∷ ys) j ≡ true
  prev_in [] before p y x j c m a = cc
  prev_in (z ∷ zs) before p y x j (e, b, c) m a = ground (arith, prev_in zs (some y) (nx y) z x j c)

  -- An entry behind the first has a backward link.
  pub prev_some :
      (ys : List ℕ) (before p : Option ℕ) (y x : ℕ)
      → Chain before p (y ∷ ys)
      → contains ys x ≡ true
      → (q : ℕ) × (pv x ≡ some q)
  prev_some [] before p y x c m = cc
  prev_some (z ∷ zs) before p y x (e, b, c) m = elim (Bool-cases (x == z)) [
    | inl h ↦ (y, ap pv (==→eq x z h) ∙ c.1)
    | inr h ↦ prev_some zs (some y) (nx y) z x c (ground arith)
  ]

module _ (nx pv nx' pv' : ℕ → Option ℕ) where
  -- A chain depends on the links of its own entries only.
  pub Chain-frame :
      (xs : List ℕ) (before p : Option ℕ)
      → ((j : ℕ) → contains xs j ≡ true → (nx' j ≡ nx j) × (pv' j ≡ pv j))
      → Chain nx pv before p xs
      → Chain nx' pv' before p xs
  Chain-frame [] before p same c = c
  Chain-frame (x ∷ xs) before p same (e, b, c) =
      let own = same x (ground arith) in
      let rest = Chain-frame xs (some x) (nx x) (λ j h. same j (ground arith)) c in
      (e, own.1 ∙ b, subst (λ n. Chain nx' pv' (some x) n xs) (sym own.0) rest)

  -- A new entry in front of a chain that begins at `old`.
  pub Chain-cons :
      (q : ℕ) (xs : List ℕ) (old : Option ℕ)
      → ((j : ℕ) → nx' j ≡ (if j == q then old else nx j))
      → ((j : ℕ) → pv' j ≡ (if j == q then none else if at old j then some q else pv j))
      → Chain nx pv none old xs
      → contains xs q ≡ false
      → Distinct xs
      → Chain nx' pv' none (some q) (q ∷ xs)
  Chain-cons q [] old n v c out d = (refl, ground (arith, v q), ground (arith, n q))
  Chain-cons q (x ∷ xs) old n v (e, b, c) out d =
      let own : nx' x ≡ nx x = ground (arith, n x) in
      let rest =
        Chain-frame xs (some x) (nx x) (λ j h. (ground (arith, n j), ground (arith, v j))) c in
      (
        refl,
        ground (arith, v q),
        (
          ground (arith, n q),
          ground (arith, v x),
          subst (λ k. Chain nx' pv' (some x) k xs) (sym own) rest,
        ),
      )

-- The links with the entry `x` bridged, and where the chain then begins.
pub record Bridged (nx pv nx' pv' : ℕ → Option ℕ) (x : ℕ) : Type 0 where
  pub next : (j : ℕ) → nx' j ≡ (if at (pv x) j then nx x else nx j)
  pub prev : (j : ℕ) → pv' j ≡ (if at (nx x) j then pv x else pv j)

abbrev pub first : (nx : ℕ → Option ℕ) → ℕ → List ℕ → Option ℕ → Option ℕ
first nx x [] p = p
first nx x (y ∷ ys) p = if x == y then nx x else p

module _ {nx pv nx' pv' : ℕ → Option ℕ} {x : ℕ} (g : Bridged nx pv nx' pv' x) where
  bridge_first :
      (ys : List ℕ) (before p : Option ℕ)
      → Chain nx pv before p (x ∷ ys)
      → Distinct (x ∷ ys)
      → ((j : ℕ) → contains (x ∷ ys) j ≡ true → at before j ≡ false)
      → Chain nx' pv' before (nx x) ys
  bridge_first [] before p (e, b, c) d out = c
  bridge_first (z ∷ zs) before p (e, b, (e', b', c)) d out =
      let own : nx' z ≡ nx z = ground (arith, g.next z, out z) in
      let rest =
        Chain-frame nx pv nx' pv' zs (some z) (nx z)
          (λ j h. (ground (arith, g.next j, out j), ground (arith, g.prev j))) c in
      (e', ground (arith, g.prev z), subst (λ k. Chain nx' pv' (some z) k zs) (sym own) rest)

  -- The entry before the rest of the chain now leads to where the rest begins.
  bridge_link :
      (ys : List ℕ) (y : ℕ)
      → Chain nx pv (some y) (nx y) ys
      → contains ys y ≡ false
      → contains ys x ≡ true
      → first nx x ys (nx y) ≡ nx' y
  bridge_link [] y c out m = cc
  bridge_link (z ∷ zs) y (e, b, c) out m = elim (Bool-cases (x == z)) [
    | inl h ↦
        let back : pv x ≡ some y = ap pv (==→eq x z h) ∙ b in rw h (ground (arith, g.next y, back))
    | inr h ↦ rw h (ground (arith, g.next y, prev_in nx pv zs (some y) (nx y) z x y (e, b, c)))
  ]

  pub Chain-remove :
      (ys : List ℕ) (before p : Option ℕ)
      → Chain nx pv before p ys
      → Distinct ys
      → ((j : ℕ) → contains ys j ≡ true → at before j ≡ false)
      → contains ys x ≡ true
      → Chain nx' pv' before (first nx x ys p) (remove x ys)
  unfolding remove
  Chain-remove [] before p c d out m = cc
  Chain-remove (y ∷ ys) before p c d out m = elim (Bool-cases (x == y)) [
    | inl h ↦
        let same : y ≡ x = sym (==→eq x y h) in
        rw h (
          bridge_first ys before p (subst (λ t. Chain nx pv before p (t ∷ ys)) same c)
            (subst (λ t. Distinct (t ∷ ys)) same d) (λ j k. out j (ground arith)))
    | inr h ↦
        let m' : contains ys x ≡ true = ground arith in
        let rest = Chain-remove ys (some y) (nx y) c.2 d.1 (λ j k. ground arith) m' in
        let link = bridge_link ys y c.2 d.0 m' in
        let own : pv' y ≡ before =
          ground (arith, g.prev y, next_in nx pv ys (some y) (nx y) x y c.2) in
        rw h (c.0, own, subst (λ k. Chain nx' pv' (some y) k (remove x ys)) link rest)
  ]

pub contains-remove :
    (x j : ℕ) (xs : List ℕ)
    → Distinct xs
    → contains (remove x xs) j ≡ (if j == x then false else contains xs j)
unfolding remove
contains-remove x j [] d = ground arith
contains-remove x j (y ∷ ys) d = ground (arith, contains-remove x j ys)

pub remove-Distinct : (x : ℕ) (xs : List ℕ) → Distinct xs → Distinct (remove x xs)
unfolding remove
remove-Distinct x [] d = tt
remove-Distinct x (y ∷ ys) d = ground (arith, remove-Distinct x ys, contains-remove x y ys)
