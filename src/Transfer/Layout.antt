-- ===== src/Transfer/Layout.antt =====
-- What is put into a datagram is read from it.
use native.Mathlib.Nat.{pow-suc}
use client_server.Transfer.{
  le_bytes, le_value, take, drop, sizeof_header, chunk_bytes, chunk_offset, chunk_data,
}
use client_server.Base.{
  ℕ, zero, suc, ◌+◌, ◌/◌, ◌^◌, ◌≤◌, ◌<◌, ◌≡◌, refl, ap, ◌∙◌, List, [], ◌∷◌, arith, length,
}

pub length-le_bytes : (n x : ℕ) → length (le_bytes n x) ≡ n
unfolding le_bytes
length-le_bytes zero x = refl
length-le_bytes (suc n) x = ap suc (length-le_bytes n (x / 256))

-- A number comes back if it fits the bytes.
le_value-le_bytes : (n x : ℕ) → x < 256 ^ n → le_value (le_bytes n x) ≡ x
unfolding le_bytes le_value
le_value-le_bytes zero x h = omega (arith, h)
le_value-le_bytes (suc n) x h =
    omega (arith, le_value-le_bytes n (x / 256) (omega (arith, h, pow-suc 256 n)))

offset_field :
    (flags offset : ℕ) (xs : List ℕ)
    → take 8 (drop 8 (chunk_bytes flags offset xs)) ≡ le_bytes 8 offset
unfolding chunk_bytes le_bytes take drop
offset_field flags offset xs = refl

-- The offset comes back if it is a number of 64 bits.
pub chunk_offset-chunk_bytes :
    (flags offset : ℕ) (xs : List ℕ)
    → offset < 2 ^ 64
    → chunk_offset (chunk_bytes flags offset xs) ≡ offset
unfolding chunk_offset
chunk_offset-chunk_bytes flags offset xs h =
    ap le_value (offset_field flags offset xs) ∙ le_value-le_bytes 8 offset h

pub chunk_data-chunk_bytes :
    (flags offset : ℕ) (xs : List ℕ) → chunk_data (chunk_bytes flags offset xs) ≡ xs
unfolding chunk_data chunk_bytes le_bytes drop
chunk_data-chunk_bytes flags offset xs = refl

pub length-chunk_bytes :
    (flags offset : ℕ) (xs : List ℕ)
    → length (chunk_bytes flags offset xs) ≡ sizeof_header + length xs
unfolding chunk_bytes le_bytes
length-chunk_bytes flags offset xs = omega arith

pub take_all : (n : ℕ) (xs : List ℕ) → length xs ≤ n → take n xs ≡ xs
unfolding take
take_all zero [] h = refl
take_all zero (x ∷ xs) h = absurd (omega (arith, h))
take_all (suc n) [] h = refl
take_all (suc n) (x ∷ xs) h = ap (λ t. x ∷ t) (take_all n xs (omega (arith, h)))
