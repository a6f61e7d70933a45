-- ===== src/Stdio/Reliable.antt =====
-- The documented behaviour of the calls on an open file while no device fails.
use client_server.Base.{
  ℕ, zero, suc, ◌+◌, ◌-◌, ◌^◌, ◌≤◌, ◌<◌, min, max, ◌≡◌, ◌≢◌, Bool, true, ◌&&◌, List, [], ◌∷◌, ltb,
  leb, if◌then◌else◌, length, get_or, einval, ok, err,
}
use client_server.Stdio.{Stdio}

-- The `n` bytes from `p` on.
unfoldable pub window : (ℕ → ℕ) → ℕ → ℕ → List ℕ
window f p zero = []
window f p (suc n) = f p ∷ window f (p + 1) n

-- The bytes with `xs` written over them from `p` on.
unfoldable pub patch : (ℕ → ℕ) → ℕ → List ℕ → ℕ → ℕ
patch f p xs i = if leb p i && ltb i (p + length xs) then get_or xs (i - p) 0 else f i

-- An open file has a position, a size and bytes. What is said here of writes holds also for a file
-- that is open for writing only.
pub record IsWritable (S : Stdio) : Type 0 where
  pub is_open : S.World → S.File → Bool
  pub position : S.World → S.File → ℕ
  pub size : S.World → S.File → ℕ
  pub byte : S.World → S.File → ℕ → ℕ
  pub fwrite_count :
      (w : S.World) (f : S.File) (xs : List ℕ)
      → is_open w f ≡ true
      → (S.fwrite w f xs).0 ≡ length xs
  pub fwrite_open :
      (w : S.World) (f : S.File) (xs : List ℕ)
      → is_open w f ≡ true
      → is_open (S.fwrite w f xs).1 f ≡ true
  pub fwrite_position :
      (w : S.World) (f : S.File) (xs : List ℕ)
      → is_open w f ≡ true
      → position (S.fwrite w f xs).1 f ≡ position w f + length xs
  pub fwrite_size :
      (w : S.World) (f : S.File) (xs : List ℕ)
      → is_open w f ≡ true
      → xs ≢ []
      → size (S.fwrite w f xs).1 f ≡ max (size w f) (position w f + length xs)
  pub fwrite_byte :
      (w : S.World) (f : S.File) (xs : List ℕ) (i : ℕ)
      → is_open w f ≡ true
      → byte (S.fwrite w f xs).1 f i ≡ patch (byte w f) (position w f) xs i

-- A file that is open for reading and writing.
pub record IsReliable (S : Stdio) : Type 0 where
  pub writable : IsWritable S
  pub open writable use *
  pub fseek_ok :
      (w : S.World) (f : S.File) (p : ℕ) → is_open w f ≡ true → p < 2 ^ 63 → (S.fseek w f p).0 ≡ ok
  -- The pattern of a negative offset.
  pub fseek_negative :
      (w : S.World) (f : S.File) (p : ℕ) → 2 ^ 63 ≤ p → p < 2 ^ 64 → (S.fseek w f p).0 ≡ err einval
  pub fseek_open :
      (w : S.World) (f : S.File) (p : ℕ) → is_open w f ≡ true → is_open (S.fseek w f p).1 f ≡ true
  pub fseek_position :
      (w : S.World) (f : S.File) (p : ℕ)
      → is_open w f ≡ true
      → p < 2 ^ 63
      → position (S.fseek w f p).1 f ≡ p
  pub fseek_size : (w : S.World) (f : S.File) (p : ℕ) → size (S.fseek w f p).1 f ≡ size w f
  pub fseek_byte : (w : S.World) (f : S.File) (p i : ℕ) → byte (S.fseek w f p).1 f i ≡ byte w f i
  pub fread_bytes :
      (w : S.World) (f : S.File) (n : ℕ)
      → is_open w f ≡ true
      → (S.fread w f n).0 ≡ window (byte w f) (position w f) (min n (size w f - position w f))
  pub fread_open :
      (w : S.World) (f : S.File) (n : ℕ) → is_open w f ≡ true → is_open (S.fread w f n).1 f ≡ true
  pub fread_size : (w : S.World) (f : S.File) (n : ℕ) → size (S.fread w f n).1 f ≡ size w f
  pub fread_byte : (w : S.World) (f : S.File) (n i : ℕ) → byte (S.fread w f n).1 f i ≡ byte w f i
  pub fflush_ok : (w : S.World) (f : S.File) → is_open w f ≡ true → (S.fflush w f).0 ≡ ok
  pub fflush_open :
      (w : S.World) (f : S.File) → is_open w f ≡ true → is_open (S.fflush w f).1 f ≡ true
  pub fflush_size : (w : S.World) (f : S.File) → size (S.fflush w f).1 f ≡ size w f
  pub fflush_byte : (w : S.World) (f : S.File) (i : ℕ) → byte (S.fflush w f).1 f i ≡ byte w f i
