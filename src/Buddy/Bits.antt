-- ===== src/Buddy/Bits.antt =====
-- `&`, `|` and `^` on numbers, digit by digit, and their laws at powers of two.
use Prim.Native.Nat.{
  bit_and, bit_or, bit_xor, digits, bitwise, differ, bit_and-bitwise, bit_or-bitwise,
  bit_xor-bitwise,
}
use client_server.Buddy.Pow.{two-pow-suc, two-pow_pos}
use client_server.Base.{
  ℕ, zero, suc, ◌+◌, ◌-◌, ◌*◌, ◌/◌, ◌%◌, ◌^◌, ◌≤◌, ◌<◌, min, max, ◌≡◌, refl, sym, ap, ◌∙◌, ◌≢◌, inl,
  inr, arith, ◌==◌, if◌then◌else◌, ==→eq, ==→ne, Bool-cases,
}

-- Two counts of digits give one result if both reach the first number.
digits_enough :
    (z : ℕ → ℕ) (f : ℕ → ℕ → ℕ) (n k a b : ℕ) → a ≤ n → a ≤ k → digits z f n a b ≡ digits z f k a b
digits_enough z f n k zero b h h' = elim n as (λ t. digits z f t 0 b ≡ digits z f k 0 b) [
  | zero ↦ zero_digits k
  | suc t ↦ zero_digits k
]
  where
    zero_digits : (t : ℕ) → z b ≡ digits z f t 0 b
    zero_digits zero = refl
    zero_digits (suc t) = refl
digits_enough z f (suc n) (suc k) (suc a) b h h' =
    ap (λ t. t * 2 + f (suc a % 2) (b % 2))
      (digits_enough z f n k (suc a / 2) (b / 2) (omega arith) (omega arith))
digits_enough z f zero k (suc a) b h h' = absurd (omega arith)
digits_enough z f (suc n) zero (suc a) b h h' = absurd (omega arith)

low_digit :
    (z : ℕ → ℕ) (f : ℕ → ℕ → ℕ) (a b : ℕ)
    → bitwise z f (suc a) b ≡ bitwise z f (suc a / 2) (b / 2) * 2 + f (suc a % 2) (b % 2)
low_digit z f a b =
    ap (λ t. t * 2 + f (suc a % 2) (b % 2))
      (digits_enough z f a (suc a / 2) (suc a / 2) (b / 2) (omega arith) (omega arith))

pub bit_or_step : (a b : ℕ) → bit_or a b ≡ bit_or (a / 2) (b / 2) * 2 + max (a % 2) (b % 2)
bit_or_step zero b = omega (arith, bit_or-bitwise 0 b, bit_or-bitwise 0 (b / 2))
bit_or_step (suc a) b =
    bit_or-bitwise (suc a) b
    ∙ low_digit (λ y. y) max a b
    ∙ ap (λ t. t * 2 + max (suc a % 2) (b % 2)) (sym (bit_or-bitwise (suc a / 2) (b / 2)))

pub bit_and_step : (a b : ℕ) → bit_and a b ≡ bit_and (a / 2) (b / 2) * 2 + min (a % 2) (b % 2)
bit_and_step zero b = omega (arith, bit_and-bitwise 0 b, bit_and-bitwise 0 (b / 2))
bit_and_step (suc a) b =
    bit_and-bitwise (suc a) b
    ∙ low_digit (λ y. 0) min a b
    ∙ ap (λ t. t * 2 + min (suc a % 2) (b % 2)) (sym (bit_and-bitwise (suc a / 2) (b / 2)))

pub bit_xor_step : (a b : ℕ) → bit_xor a b ≡ bit_xor (a / 2) (b / 2) * 2 + differ (a % 2) (b % 2)
bit_xor_step zero b = omega (arith, bit_xor-bitwise 0 b, bit_xor-bitwise 0 (b / 2))
bit_xor_step (suc a) b =
    bit_xor-bitwise (suc a) b
    ∙ low_digit (λ y. y) differ a b
    ∙ ap (λ t. t * 2 + differ (suc a % 2) (b % 2)) (sym (bit_xor-bitwise (suc a / 2) (b / 2)))

-- With a second number of zero, the digits of the first are left.
digits_zero :
    (f : ℕ → ℕ → ℕ) → ((d : ℕ) → f d 0 ≡ d) → (n a : ℕ) → a ≤ n → digits (λ y. y) f n a 0 ≡ a
digits_zero f unit zero zero h = refl
digits_zero f unit (suc n) zero h = refl
digits_zero f unit zero (suc a) h = absurd (omega arith)
digits_zero f unit (suc n) (suc a) h =
    omega (arith, digits_zero f unit n (suc a / 2) (omega arith), unit (suc a % 2))

bit_or-zero : (a : ℕ) → bit_or a 0 ≡ a
bit_or-zero a = bit_or-bitwise a 0 ∙ digits_zero max (λ d. omega arith) a a (omega arith)

differ-zero : (d : ℕ) → differ d 0 ≡ d
differ-zero zero = refl
differ-zero (suc d) = refl

bit_xor-zero : (a : ℕ) → bit_xor a 0 ≡ a
bit_xor-zero a = bit_xor-bitwise a 0 ∙ digits_zero differ differ-zero a a (omega arith)

-- An or of `k`-bit numbers is one, and is no less than either.
pub bit_or_bounds :
    (k a b : ℕ) → a < 2 ^ k → b < 2 ^ k → (a ≤ bit_or a b) × (b ≤ bit_or a b) × (bit_or a b < 2 ^ k)
bit_or_bounds zero zero zero h h' = omega (arith, bit_or-bitwise 0 0)
bit_or_bounds zero (suc a) b h h' = absurd (omega arith)
bit_or_bounds zero zero (suc b) h h' = absurd (omega arith)
bit_or_bounds (suc k) a b h h' =
    let halves : (a / 2 < 2 ^ k) × (b / 2 < 2 ^ k) = omega (arith, two-pow-suc k) in
    omega (arith, bit_or_step a b, two-pow-suc k, bit_or_bounds k (a / 2) (b / 2) halves.0 halves.1)

-- What a number has above its low `k` bits, the or with a `k`-bit number leaves as it is.
pub bit_or_above :
    (k q r b : ℕ) → r < 2 ^ k → b < 2 ^ k → bit_or (q * 2 ^ k + r) b ≡ q * 2 ^ k + bit_or r b
bit_or_above zero q zero zero h h' =
    let e : q * 1 + 0 ≡ q = omega arith in rw e (bit_or-zero q ∙ omega (arith, bit_or-bitwise 0 0))
bit_or_above zero q (suc r) b h h' = absurd (omega arith)
bit_or_above zero q zero (suc b) h h' = absurd (omega arith)
bit_or_above (suc k) q r b h h' =
    let p : q * 2 ^ suc k ≡ 2 * (q * 2 ^ k) =
      omega (arith, ap (λ (t : ℕ). q * t) (two-pow-suc k)) in
    let half : (q * 2 ^ suc k + r) / 2 ≡ q * 2 ^ k + r / 2 = omega arith in
    omega (
      arith,
      bit_or_step (q * 2 ^ suc k + r) b,
      bit_or_step r b,
      ap (λ t. bit_or t (b / 2)) half,
      bit_or_above k q (r / 2) (b / 2) (omega (arith, two-pow-suc k))
          (omega (arith, two-pow-suc k)),
    )

-- The neighbour of an even number above it, of an odd number below it.
abbrev pub neighbour : ℕ → ℕ
neighbour q = if q % 2 == 0 then q + 1 else q - 1

-- The exclusive or with a power of two flips one binary digit.
pub bit_xor_pow2 : (k q : ℕ) → bit_xor (q * 2 ^ k) (2 ^ k) ≡ neighbour q * 2 ^ k
bit_xor_pow2 zero q =
    let e : q * 1 ≡ q = omega arith in
    rw e (elim (Bool-cases (q % 2 == 0)) [
      | inl even ↦ rw even (
          omega (
            arith,
            bit_xor_step q 1,
            bit_xor-zero (q / 2),
            ap (λ d. differ d 1) (==→eq _ _ even),
            ==→eq _ _ even,
          ))
      | inr odd ↦
          let one : q % 2 ≡ 1 = omega (arith, ==→ne _ _ odd) in
          rw odd
            (omega (arith, bit_xor_step q 1, bit_xor-zero (q / 2), ap (λ d. differ d 1) one, one))
    ])
bit_xor_pow2 (suc k) q =
    let p : q * 2 ^ suc k ≡ 2 * (q * 2 ^ k) =
      omega (arith, ap (λ (t : ℕ). q * t) (two-pow-suc k)) in
    let n : neighbour q * 2 ^ suc k ≡ 2 * (neighbour q * 2 ^ k) =
      omega (arith, ap (λ (t : ℕ). neighbour q * t) (two-pow-suc k)) in
    let half : q * 2 ^ suc k / 2 ≡ q * 2 ^ k = omega arith in
    let half' : 2 ^ suc k / 2 ≡ 2 ^ k = omega (arith, two-pow-suc k) in
    let low : q * 2 ^ suc k % 2 ≡ 0 = omega arith in
    let low' : 2 ^ suc k % 2 ≡ 0 = omega (arith, two-pow-suc k) in
    bit_xor_step (q * 2 ^ suc k) (2 ^ suc k)
    ∙ rw (half, half', low, low', bit_xor_pow2 k q, n) (omega arith)

-- The test that the code makes for a power of two.
abbrev IsPow2 : ℕ → Type 0
IsPow2 v = (k : ℕ) × (v ≡ 2 ^ k)

bit_and_self : (n a : ℕ) → a ≤ n → bit_and a a ≡ a
bit_and_self n zero h = bit_and-bitwise 0 0
bit_and_self zero (suc a) h = absurd (omega arith)
bit_and_self (suc n) (suc a) h =
    omega (arith, bit_and_step (suc a) (suc a), bit_and_self n (suc a / 2) (omega arith))

bounded_test : (n v : ℕ) → v ≤ n → v ≢ 0 → bit_and v (v - 1) ≡ 0 → IsPow2 v
bounded_test n zero h ne e = absurd (ne refl)
bounded_test zero (suc v) h ne e = absurd (omega arith)
bounded_test (suc n) (suc v) h ne e = elim (Bool-cases (suc v % 2 == 0)) [
  | inl even ↦
      let two : suc v % 2 ≡ 0 = ==→eq _ _ even in
      let below : (suc v - 1) / 2 ≡ suc v / 2 - 1 = omega (arith, two) in
      let (k, p) =
        bounded_test n (suc v / 2) (omega arith) (omega (arith, two))
          (omega (arith, e, bit_and_step (suc v) (suc v - 1), ap (bit_and (suc v / 2)) below)) in
      (suc k, omega (arith, p, two, two-pow-suc k))
  | inr odd ↦
      let one : suc v % 2 ≡ 1 = omega (arith, ==→ne _ _ odd) in
      let same : (suc v - 1) / 2 ≡ suc v / 2 = omega (arith, one) in
      (
        0,
        omega (
          arith,
          e,
          one,
          bit_and_step (suc v) (suc v - 1),
          ap (bit_and (suc v / 2)) same,
          bit_and_self (suc v) (suc v / 2) (omega arith),
        ),
      )
]

-- It holds of a number other than zero only if the number is a power of two.
pub pow2_of_test : (v : ℕ) → v ≢ 0 → bit_and v (v - 1) ≡ 0 → (k : ℕ) × (v ≡ 2 ^ k)
pow2_of_test v ne e = bounded_test v v (omega arith) ne e

-- And of every power of two.
pub test_of_pow2 : (k : ℕ) → bit_and (2 ^ k) (2 ^ k - 1) ≡ 0
test_of_pow2 zero = bit_and-bitwise 1 0
test_of_pow2 (suc k) =
    let half : 2 ^ suc k / 2 ≡ 2 ^ k = omega (arith, two-pow-suc k) in
    let half' : (2 ^ suc k - 1) / 2 ≡ 2 ^ k - 1 = omega (arith, two-pow-suc k, two-pow_pos k) in
    let low : 2 ^ suc k % 2 ≡ 0 = omega (arith, two-pow-suc k) in
    bit_and_step (2 ^ suc k) (2 ^ suc k - 1) ∙ rw (half, half', low, test_of_pow2 k) (omega arith)
