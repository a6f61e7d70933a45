-- ===== src/Transfer/Packets.antt =====
-- The datagrams that carry a file: part `k` holds its bytes from `1024 * k` on.
use client_server.Stdio.Reliable.{window, patch}
use client_server.Stdio.Window.{length-window, get_or-window}
use client_server.Transfer.{sizeof_header, chunk_bytes}
use client_server.Transfer.Layout.{length-chunk_bytes}
use client_server.Base.{
  ℕ, zero, suc, ◌+◌, ◌-◌, ◌*◌, ◌/◌, ◌≤◌, ◌<◌, min, max, ◌≡◌, refl, ap, ◌∙◌, inl, inr, Bool, true,
  false, ◌&&◌, ◌||◌, List, [], ◌∷◌, arith, ltb, leb, ◌==◌, ==→eq, Bool-cases, length,
}

-- MAX_FILE_CHUNK_SIZE
abbrev pub max_file_chunk_size : ℕ
max_file_chunk_size = 1024

-- The number of bytes in part `k` of a file of `n` bytes.
abbrev pub part_size : ℕ → ℕ → ℕ
part_size n k = min (n - max_file_chunk_size * k) max_file_chunk_size

abbrev pub part : (ℕ → ℕ) → ℕ → ℕ → List ℕ
part byte n k = window byte (max_file_chunk_size * k) (part_size n k)

unfoldable pub packet : (ℕ → ℕ) → ℕ → ℕ → List ℕ
packet byte n k = chunk_bytes 0 (max_file_chunk_size * k) (part byte n k)

abbrev pub has : ℕ → List ℕ → Bool
has k [] = false
has k (j ∷ js) = k == j || has k js

-- The parts of the list are parts of a file of `n` bytes.
abbrev pub AllParts : ℕ → List ℕ → Type 0
AllParts n [] = Unit {0}
AllParts n (k ∷ ks) = (max_file_chunk_size * k < n) × AllParts n ks

-- Where the last of the parts ends.
abbrev pub extent : ℕ → List ℕ → ℕ
extent n [] = 0
extent n (k ∷ ks) = max (max_file_chunk_size * k + part_size n k) (extent n ks)

pub length-packet :
    (byte : ℕ → ℕ) (n k : ℕ) → length (packet byte n k) ≡ sizeof_header + part_size n k
unfolding packet
length-packet byte n k =
    length-chunk_bytes 0 (max_file_chunk_size * k) (part byte n k)
    ∙ ap (λ l. sizeof_header + l) (length-window byte (max_file_chunk_size * k) (part_size n k))

abbrev pub chosen : Bool → ℕ → ℕ → ℕ
chosen true x y = x
chosen false x y = y

-- What part `k` writes is the bytes with that number, when divided by the size of a part.
pub patch-part :
    (old byte : ℕ → ℕ) (n k i : ℕ)
    → patch old (max_file_chunk_size * k) (part byte n k) i
      ≡ chosen (ltb i n && i / max_file_chunk_size == k) (byte i) (old i)
unfolding patch
patch-part old byte n k i =
    let p = max_file_chunk_size * k in
    let size : length (part byte n k) ≡ part_size n k = length-window byte p (part_size n k) in
    let inside : leb p i && ltb i (p + part_size n k) ≡ ltb i n && i / max_file_chunk_size == k =
      ground arith in
    elim (Bool-cases (ltb i n && i / max_file_chunk_size == k)) [
      | inr e ↦ rw (size, inside, e) refl
      | inl e ↦
          let low : p ≤ i = ground (arith, e) in
          let high : i < p + part_size n k = ground (arith, e) in
          rw (size, inside, e)
            (get_or-window byte p (part_size n k) (i - p) (omega (arith, low, high))
              ∙ ap byte (omega (arith, low)))
    ]

extent-le : (n : ℕ) (ks : List ℕ) → AllParts n ks → extent n ks ≤ n
extent-le n [] h = omega arith
extent-le n (k ∷ ks) (lt, h) = omega (arith, lt, extent-le n ks h)

has-extent :
    (n k : ℕ) (ks : List ℕ)
    → has k ks ≡ true
    → max_file_chunk_size * k + part_size n k ≤ extent n ks
has-extent n k [] h = absurd (cc)
has-extent n k (j ∷ js) h = elim (Bool-cases (k == j)) [
  | inl e ↦ omega (arith, ==→eq _ _ e)
  | inr e ↦
      let rest : has k js ≡ true = ground (arith, h, e) in omega (arith, has-extent n k js rest)
]

-- If all parts are there, the last of them ends where the file ends.
pub extent_all :
    (n : ℕ) (ks : List ℕ)
    → AllParts n ks
    → ((k : ℕ) → max_file_chunk_size * k < n → has k ks ≡ true)
    → extent n ks ≡ n
extent_all zero ks parts all = omega (arith, extent-le zero ks parts)
extent_all (suc n) ks parts all =
    let last = n / max_file_chunk_size in
    omega (arith, extent-le (suc n) ks parts, has-extent (suc n) last ks (all last (omega arith)))
