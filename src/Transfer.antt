-- ===== src/Transfer.antt =====
-- APPS/FILE_TRANSFER_INFRA/file_transfer_protocol.h: a datagram is a header of 16 bytes and the
-- bytes of a part of a file.
pub mod Layout
pub mod Packets
pub mod Receiver
pub mod Shutdown
pub mod Reassembly
pub mod Sender
pub mod EndToEnd
mod Tests
use client_server.Base.{ℕ, zero, suc, ◌+◌, ◌*◌, ◌/◌, ◌%◌, List, [], ◌∷◌, ◌++◌}

-- The `n` bytes of a number, least first, as a 64-bit x86 machine stores it, and back.
unfoldable pub le_bytes : ℕ → ℕ → List ℕ
le_bytes zero x = []
le_bytes (suc n) x = (x % 256) ∷ le_bytes n (x / 256)

unfoldable pub le_value : List ℕ → ℕ
le_value [] = 0
le_value (b ∷ bs) = b + 256 * le_value bs

unfoldable pub take : ℕ → List ℕ → List ℕ
take zero xs = []
take (suc n) [] = []
take (suc n) (x ∷ xs) = x ∷ take n xs

unfoldable pub drop : ℕ → List ℕ → List ℕ
drop zero xs = xs
drop (suc n) [] = []
drop (suc n) (x ∷ xs) = drop n xs

-- `sizeof(data_chunk_protocol)`: `flags`, four bytes of padding, `offset`
abbrev pub sizeof_header : ℕ
sizeof_header = 16

-- The bytes of a `data_chunk_protocol` in a zeroed buffer.
unfoldable pub chunk_bytes : ℕ → ℕ → List ℕ → List ℕ
chunk_bytes flags offset xs = le_bytes 4 flags ++ (le_bytes 4 0 ++ (le_bytes 8 offset ++ xs))

-- `data_chunk->offset` and `data_chunk->data`, read from the bytes.
unfoldable pub chunk_offset : List ℕ → ℕ
chunk_offset d = le_value (take 8 (drop 8 d))

unfoldable pub chunk_data : List ℕ → List ℕ
chunk_data d = drop sizeof_header d
