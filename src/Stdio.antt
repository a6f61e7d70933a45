-- ===== src/Stdio.antt =====
-- What the program calls of <stdio.h>, <unistd.h> and <sys/stat.h>, over an unknown world. A call
-- that can fail gives `err e` with the value that it leaves in `errno`.
pub mod Reliable
pub mod Window
pub mod Memory
use client_server.Base.{ℕ, Option, List, Status}

-- The modes "wb+", "rb+" and "wb".
pub data Mode : Type 0 where
  create_update update_old create_new : Mode

-- An offset of `fseek` is a `long`, as its bit pattern of 64 bits. `fread` gives the bytes that it
-- stored, and `fwrite` the number of bytes that it wrote.
pub record Stdio : Type 1 where
  pub World : Type 0
  pub FilePath : Type 0
  pub File : Type 0
  pub access : World → FilePath → Status
  pub stat_size : World → FilePath → Status × ℕ
  pub remove : World → FilePath → Status × World
  pub fopen : World → FilePath → Mode → Option File × World
  pub fclose : World → File → World
  pub fseek : World → File → ℕ → Status × World
  pub fread : World → File → ℕ → List ℕ × World
  pub fwrite : World → File → List ℕ → ℕ × World
  pub fflush : World → File → Status × World
