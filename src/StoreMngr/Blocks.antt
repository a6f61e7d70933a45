-- ===== src/StoreMngr/Blocks.antt =====
-- `store_mngr_block_write` and `store_mngr_block_read` on blocks of a valid allocator.
use client_server.Stdio.{Stdio}
use client_server.Stdio.Reliable.{IsReliable, window}
use client_server.Buddy.State.{BuddyAlloc}
use client_server.Buddy.Pow.{two-pow-lt}
use client_server.Buddy.Inv.{Fits, IsValid, held}
use client_server.Buddy.Disjoint.{Apart, size_of, held-Apart}
use client_server.Buddy.Api.{buddy_alloc_get_block_offset}
use client_server.RamFile.{RamFile, ram_file_read, ram_file_write}
use client_server.RamFile.Access.{IsOpen, read_fits, ram_file_read-ram_file_write}
use client_server.StoreMngr.{
  StoreMngr, StoreMngrBlock, store_mngr_block_write, store_mngr_block_read,
}
use client_server.Base.{
  ℕ, ◌+◌, ◌-◌, ◌^◌, ◌≤◌, ◌<◌, ◌≡◌, refl, sym, ap, ◌∙◌, ◌≢◌, inl, inr, true, Option, some, List, [],
  arith, length, add32, sub32, ok,
}

-- The handle of the block in slot `p`.
abbrev pub handle : ℕ → Option StoreMngrBlock
handle p = some (record { b_alloc_block = some p })

-- The manager has a valid allocator and an open file, which may be as large as the pool.
pub record IsReady {S : Stdio} (R : IsReliable S) (a n : ℕ) (w : S.World) (m : StoreMngr S)
    (b : BuddyAlloc) (file : RamFile S) (f : S.File) : Type 0 where
  pub b_alloc : m.b_alloc ≡ some b
  pub fits : Fits a n
  pub valid : IsValid a n b
  pub r_file_ctrl : m.r_file_ctrl ≡ some file
  pub opened : IsOpen R w file f
  pub limit : file.max_file_size ≡ 2 ^ (a + (n - 1))

module _ {S : Stdio} (w : S.World) (m : StoreMngr S) (b : BuddyAlloc) (h : m.b_alloc ≡ some b) where
  -- A write through a handle is a write to the file at the sum of the offsets, in 32 bits.
  pub store_mngr_block_write_lem :
      (p d : ℕ) (bytes : Option (List ℕ))
      → store_mngr_block_write S w (some m) (handle p) d bytes
        ≡ ram_file_write S w m.r_file_ctrl (add32 (b.elements p).offset d) bytes
  unfolding store_mngr_block_write buddy_alloc_get_block_offset
  store_mngr_block_write_lem p d bytes = rw h refl

  pub store_mngr_block_read_lem :
      (p d n : ℕ)
      → store_mngr_block_read S w (some m) (handle p) d n true true
        ≡ ram_file_read S w m.r_file_ctrl (add32 (b.elements p).offset d) true n
  unfolding store_mngr_block_read buddy_alloc_get_block_offset
  store_mngr_block_read_lem p d n = rw h refl

  -- Nothing confines a write to the block: through the handle of any block `j` with an offset of
  -- 32 bits, and with the file offset that leads from its start to the byte `e` of any block `k`,
  -- the same is written as through the handle of `k` at `e`.
  pub store_mngr_block_write_escapes :
      (j k e : ℕ) (bytes : Option (List ℕ))
      → (b.elements j).offset < 2 ^ 32
      → store_mngr_block_write S w
          (some m)
          (handle j)
          (sub32 (add32 (b.elements k).offset e) (b.elements j).offset)
          bytes
        ≡ store_mngr_block_write S w (some m) (handle k) e bytes
  store_mngr_block_write_escapes j k e bytes lt =
      let target : add32 (b.elements j).offset
            (sub32 (add32 (b.elements k).offset e) (b.elements j).offset)
          ≡ add32 (b.elements k).offset e =
        omega (arith, lt) in
      store_mngr_block_write_lem j _ bytes
      ∙ ap (λ o. ram_file_write S w m.r_file_ctrl o bytes) target
      ∙ sym (store_mngr_block_write_lem k e bytes)

module _ {S : Stdio} (R : IsReliable S) where
  -- A range inside a held block is a range of the file below its limit.
  block_range :
      (a n : ℕ) (w : S.World) (m : StoreMngr S) (b : BuddyAlloc) (file : RamFile S) (f : S.File)
      → IsReady R a n w m b file f
      → (j k d len : ℕ) → j ≢ k
      → held (b.elements j) ≡ true
      → held (b.elements k) ≡ true
      → d + len ≤ size_of b j
      → (add32 (b.elements j).offset d ≡ (b.elements j).offset + d)
        × ((b.elements j).offset + d + len ≤ file.max_file_size)
        × Apart (b.elements j).offset (size_of b j) (b.elements k).offset (size_of b k)
  block_range a n w m b file f r j k d len ne hj hk fits =
      let (apart, inside) = held-Apart a n b j k r.fits r.valid ne hj hk in
      let small : 2 ^ (a + (n - 1)) < 2 ^ 32 =
        two-pow-lt (a + (n - 1)) 32 (omega (arith, r.fits.word, r.fits.some_level)) in
      (omega (arith, inside, fits, small), omega (arith, inside, fits, r.limit), apart)

  -- On a ready manager, while no device fails, let callers hold two blocks `j` and `k`. A write of
  -- some data inside `j` succeeds and is read back, and a read of some bytes inside `k`, which the
  -- file has, gives what it gave before the write.
  pub store_mngr_block_read-store_mngr_block_write :
      (a n : ℕ) (w : S.World) (m : StoreMngr S) (b : BuddyAlloc) (file : RamFile S) (f : S.File)
      → IsReady R a n w m b file f
      → (j k d e len : ℕ) (xs : List ℕ) → j ≢ k
      → held (b.elements j) ≡ true
      → held (b.elements k) ≡ true
      → xs ≢ []
      → d + length xs ≤ size_of b j
      → len ≢ 0
      → e + len ≤ size_of b k
      → (b.elements k).offset + e + len ≤ R.size w f
      → (w0 w1 w2 w3 : S.World) × (old : List ℕ) × (store_mngr_block_read S w
            (some m)
            (handle k)
            e
            len
            true
            true
          ≡ (ok, old, w0))
        × (store_mngr_block_write S w (some m) (handle j) d (some xs) ≡ (ok, w1))
        × (store_mngr_block_read S w1 (some m) (handle j) d (length xs) true true ≡ (ok, xs, w2))
        × (store_mngr_block_read S w1 (some m) (handle k) e len true true ≡ (ok, old, w3))
  store_mngr_block_read-store_mngr_block_write a n w m b file f r j k d e len xs ne hj hk some_bytes
        fits nz fits' within =
      let (at_j, below_j, apart) = block_range a n w m b file f r j k d (length xs) ne hj hk fits in
      let (at_k, below_k, _) =
        block_range a n w m b file f r k j e len (λ q. ne (sym q)) hk hj fits' in
      let p = (b.elements j).offset + d in
      let q = (b.elements k).offset + e in
      let (w1, w2, w3, write, read_j, read_k) =
        ram_file_read-ram_file_write R w file f p xs q len r.opened some_bytes below_j nz below_k
          within
          (elim apart [
            | inl x ↦ inr (omega (arith, x, fits))
            | inr x ↦ inl (omega (arith, x, fits'))
          ]) in
      let (w0, read, _) = read_fits R w file f r.opened q len nz below_k within in
      let file_k : (w : S.World)
          → ram_file_read S w m.r_file_ctrl (add32 (b.elements k).offset e) true len
            ≡ ram_file_read S w (some file) q true len =
        λ w. rw (at_k, r.r_file_ctrl) refl in
      let file_w : ram_file_write S w m.r_file_ctrl (add32 (b.elements j).offset d) (some xs)
          ≡ ram_file_write S w (some file) p (some xs) =
        rw (at_j, r.r_file_ctrl) refl in
      let file_j : (w : S.World)
          → ram_file_read S w m.r_file_ctrl (add32 (b.elements j).offset d) true (length xs)
            ≡ ram_file_read S w (some file) p true (length xs) =
        λ w. rw (at_j, r.r_file_ctrl) refl in
      (
        w0,
        w1,
        w2,
        w3,
        window (R.byte w f) q len,
        store_mngr_block_read_lem w m b r.b_alloc k e len ∙ file_k w ∙ read,
        store_mngr_block_write_lem w m b r.b_alloc j d (some xs) ∙ file_w ∙ write,
        store_mngr_block_read_lem w1 m b r.b_alloc j d (length xs) ∙ file_j w1 ∙ read_j,
        store_mngr_block_read_lem w1 m b r.b_alloc k e len ∙ file_k w1 ∙ read_k,
      )
