-- ===== src/Stdio/Memory.antt =====
-- A world with one path, in memory: the documented behaviour can be met.
use client_server.Base.{
  ℕ, ◌+◌, ◌-◌, ◌^◌, min, max, ◌≡◌, refl, Bool, true, false, Option, none, some, arith, ltb,
  if◌then◌else◌, lt→ltb, le→ltb, length, einval, enoent, Status, ok, err,
}
use client_server.Stdio.{Stdio, Mode, create_update, update_old, create_new}
use client_server.Stdio.Reliable.{window, patch, IsReliable, IsWritable}

pub record Disk : Type 0 where
  pub there : Bool
  pub position : ℕ
  pub size : ℕ
  pub byte : ℕ → ℕ

abbrev pub no_file : Disk
no_file = record { there = false; position = 0; size = 0; byte = λ _. 0 }

abbrev open_disk : Disk → Mode → Option (Unit {0}) × Disk
open_disk d update_old = if d.there then (some tt, record d { position = 0 }) else (none, d)
open_disk d create_update = (some tt, record no_file { there = true })
open_disk d create_new = (some tt, record no_file { there = true })

abbrev seek : Disk → ℕ → Status × Disk
seek d p = if ltb p (2 ^ 63) then (ok, record d { position = p }) else (err einval, d)

pub seek_size : (d : Disk) (p : ℕ) → (seek d p).1.size ≡ d.size
seek_size d p = ground arith

pub seek_byte : (d : Disk) (p i : ℕ) → (seek d p).1.byte i ≡ d.byte i
seek_byte d p i = ground arith

abbrev pub memory : Stdio
memory = record {
  World = Disk;
  FilePath = Unit {0};
  File = Unit {0};
  access = λ d _. if d.there then ok else err enoent;
  stat_size = λ d _. if d.there then (ok, d.size) else (err enoent, 0);
  remove = λ d _. if d.there then (ok, no_file) else (err enoent, d);
  fopen = λ d _ m. open_disk d m;
  fclose = λ d _. d;
  fseek = λ d _ p. seek d p;
  fread = λ d _ n. (
    window d.byte d.position (min n (d.size - d.position)),
    record d { position = d.position + min n (d.size - d.position) },
  );
  fwrite = λ d _ xs. (
    length xs,
    record d {
      position = d.position + length xs;
      size = max d.size (d.position + length xs);
      byte = patch d.byte d.position xs;
    },
  );
  fflush = λ d _. (ok, d);
}

abbrev pub memory-IsWritable : IsWritable memory
memory-IsWritable = record {
  is_open = λ d _. true;
  position = λ d _. d.position;
  size = λ d _. d.size;
  byte = λ d _. d.byte;
  fwrite_count = λ w f xs h. refl;
  fwrite_open = λ w f xs h. refl;
  fwrite_position = λ w f xs h. refl;
  fwrite_size = λ w f xs h ne. refl;
  fwrite_byte = λ w f xs i h. refl;
}

abbrev pub memory-IsReliable : IsReliable memory
memory-IsReliable = record {
  writable = memory-IsWritable;
  fseek_ok = λ w f p h lt. rw (lt→ltb _ _ lt) refl;
  fseek_negative = λ w f p le lt. rw (le→ltb _ _ le) refl;
  fseek_open = λ w f p h. refl;
  fseek_position = λ w f p h lt. rw (lt→ltb _ _ lt) refl;
  fseek_size = λ w f p. seek_size w p;
  fseek_byte = λ w f p i. seek_byte w p i;
  fread_bytes = λ w f n h. refl;
  fread_open = λ w f n h. refl;
  fread_size = λ w f n. refl;
  fread_byte = λ w f n i. refl;
  fflush_ok = λ w f h. refl;
  fflush_open = λ w f h. refl;
  fflush_size = λ w f. refl;
  fflush_byte = λ w f i. refl;
}
