-- ===== src/IdPool/Held.antt =====
-- The ids that clients hold, as a list without repetitions.
use client_server.Base.{
  ℕ, ◌+◌, ◌≡◌, refl, inl, inr, Bool, true, false, List, [], ◌∷◌, arith, ◌==◌, if◌then◌else◌,
  Bool-cases, length,
}

unfoldable pub contains : List ℕ → ℕ → Bool
contains [] j = false
contains (x ∷ xs) j = if j == x then true else contains xs j

unfoldable pub remove : ℕ → List ℕ → List ℕ
remove id [] = []
remove id (x ∷ xs) = let rest = remove id xs in if id == x then rest else x ∷ rest

abbrev pub Distinct : List ℕ → Type 0
Distinct [] = Unit {0}
Distinct (x ∷ xs) = (contains xs x ≡ false) × Distinct xs

pub contains-remove :
    (id j : ℕ) (xs : List ℕ)
    → contains (remove id xs) j ≡ (if j == id then false else contains xs j)
unfolding contains remove
contains-remove id j [] = ground arith
contains-remove id j (x ∷ xs) = ground (arith, contains-remove id j xs)

pub remove-Distinct : (id : ℕ) (xs : List ℕ) → Distinct xs → Distinct (remove id xs)
unfolding remove
remove-Distinct id [] d = tt
remove-Distinct id (x ∷ xs) d = ground (arith, remove-Distinct id xs, contains-remove id x xs)

remove_absent : (id : ℕ) (xs : List ℕ) → contains xs id ≡ false → remove id xs ≡ xs
unfolding contains remove
remove_absent id [] h = refl
remove_absent id (x ∷ xs) h = ground (arith, remove_absent id xs)

pub length-remove :
    (id : ℕ) (xs : List ℕ)
    → Distinct xs
    → contains xs id ≡ true
    → length (remove id xs) + 1 ≡ length xs
unfolding contains remove
length-remove id [] d h = cc
length-remove id (x ∷ xs) d h = elim (Bool-cases (id == x)) [
  | inl e ↦
      let gone : remove id xs ≡ xs = remove_absent id xs (ground arith) in
      rw (e, gone) (omega arith)
  | inr e ↦ ground (arith, length-remove id xs)
]
