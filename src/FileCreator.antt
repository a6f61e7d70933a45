-- ===== src/FileCreator.antt =====
-- APPS/FILE_CREATOR_APP/file_creator.c: a program that makes a file of random bytes.
pub mod Written
mod Tests
use client_server.Stdio.{Stdio, create_new}
use client_server.Base.{
  ℕ, zero, suc, ◌/◌, ◌%◌, Bool, true, false, Option, none, some, List, [], ◌∷◌, ◌==◌, if◌then◌else◌,
  eperm, Status, ok, err,
}

-- FILE_BUFFER_SIZE
abbrev pub file_buffer_size : ℕ
file_buffer_size = 1024

-- `Seed` is the state of the generator behind `rand`, whose values are at least 0. The value -1
-- is that of `-EPERM`.
module _ (S : Stdio) {Seed : Type 0} (rand : Seed → ℕ × Seed) where
  -- The first `n` bytes of the buffer are filled.
  unfoldable pub fill : ℕ → Seed → List ℕ × Seed
  fill zero s = ([], s)
  fill (suc n) s = let (r, s1) = rand s in let (bytes, s2) = fill n s1 in ((r % 256) ∷ bytes, s2)

  -- What follows an `fwrite` that should have written `n` bytes.
  abbrev pub after_write :
      S.File
      → ℕ
      → Seed
      → (S.World → Status × S.World × Seed)
      → ℕ × S.World
      → Status × S.World × Seed
  after_write f n s next (count, w) = if count == n then next w else (err eperm, S.fclose w f, s)

  -- The part behind the loop, for `remaining` bytes.
  abbrev pub write_remaining : S.File → ℕ → S.World → Seed → Status × S.World × Seed
  write_remaining f zero w s = (ok, S.fclose w f, s)
  write_remaining f (suc n) w s =
      let (bytes, s1) = fill (suc n) s in
      after_write f (suc n) s1 (λ w'. (ok, S.fclose w' f, s1)) (S.fwrite w f bytes)

  -- The loop, with the number of full chunks that are left, and what is behind it. `fwrite` gives
  -- one item exactly if it wrote all its bytes.
  unfoldable pub write_chunks : ℕ → S.File → ℕ → S.World → Seed → Status × S.World × Seed
  write_chunks zero f remaining w s = write_remaining f remaining w s
  write_chunks (suc i) f remaining w s =
      let (bytes, s1) = fill file_buffer_size s in
      after_write f file_buffer_size s1 (λ w'. write_chunks i f remaining w' s1)
        (S.fwrite w f bytes)

  abbrev pub with_opened : ℕ → Seed → Option S.File × S.World → Status × S.World × Seed
  with_opened f_size s (none, w) = (err eperm, w, s)
  with_opened f_size s (some f, w) =
      write_chunks (f_size / file_buffer_size) f (f_size % file_buffer_size) w s

  unfoldable pub creating_data_file : S.FilePath → ℕ → S.World → Seed → Status × S.World × Seed
  creating_data_file path f_size w s = with_opened f_size s (S.fopen w path create_new)

  -- EXIT_SUCCESS or EXIT_FAILURE
  abbrev pub exit_code : Status × S.World × Seed → Bool × S.World × Seed
  exit_code (ok, w, s) = (true, w, s)
  exit_code (err e, w, s) = (false, w, s)

  -- `main`: the arguments are a path and what `strtoull` makes of the size, `none` if more text
  -- follows the number; no arguments if `argc` is not 3.
  unfoldable pub creator_main :
      Option (S.FilePath × Option ℕ) → S.World → Seed → Bool × S.World × Seed
  creator_main none w s = (false, w, s)
  creator_main (some (path, none)) w s = (false, w, s)
  creator_main (some (path, some file_size)) w s =
      if file_size == 0 then (false, w, s) else exit_code (creating_data_file path file_size w s)
