-- ===== src/StoreMngr/Sequence.antt =====
-- Histories of calls of a caller that uses the handles that it holds.
use client_server.Stdio.{Stdio}
use client_server.Stdio.Reliable.{IsReliable}
use client_server.Buddy.State.{BuddyAlloc}
use client_server.Buddy.Chain.{contains, remove}
use client_server.Buddy.Api.{buddy_alloc_allocate, buddy_alloc_free}
use client_server.Buddy.Request.{no_such_level, exhausted, handed_out, buddy_alloc_allocate-Served}
use client_server.Buddy.Release.{buddy_alloc_free-Released}
use client_server.Buddy.Sequence.{Agrees, handed_out-Agrees, released-Agrees, allocate_zero}
use client_server.RamFile.{RamFile, open_file, ram_file_read, ram_file_write}
use client_server.RamFile.Limit
use client_server.RamFile.Limit.{IsWithin, run-IsWithin}
use client_server.StoreMngr.{
  StoreMngr, StoreMngrBlock, StoreType, new_handle, store_mngr_create, store_mngr_block_alloc,
  store_mngr_block_free, store_mngr_block_write, store_mngr_block_read,
}
use client_server.StoreMngr.Blocks.{
  IsReady, handle, store_mngr_block_write_lem, store_mngr_block_read_lem,
}
use client_server.StoreMngr.Create.{store_mngr_create-IsReady}
use client_server.Base.{
  ℕ, ◌+◌, ◌-◌, ◌^◌, ◌≤◌, ◌<◌, ◌≡◌, refl, sym, ap, subst, ◌∙◌, inl, inr, Bool, true, Option, none,
  some, List, [], ◌∷◌, arith, ◌==◌, if◌then◌else◌, ==→ne, Bool-cases, length, u32, u64, add32,
  Status, ok, returns,
}

-- A call: a block for a number of bytes, the end of a block, a write and a read at an offset in a
-- block. A block is named by its slot, and numbers are passed as 32-bit ones.
pub data StoreCall : Type 0 where
  alloc : ℕ → StoreCall
  free : ℕ → StoreCall
  write : ℕ → ℕ → List ℕ → StoreCall
  read : ℕ → ℕ → ℕ → StoreCall

-- The length of the data of a write is a 32-bit number.
abbrev pub AllWords : List StoreCall → Type 0
AllWords [] = Unit {0}
AllWords (write p d xs ∷ cs) = (length xs < 2 ^ 32) × AllWords cs
AllWords (alloc size ∷ cs) = AllWords cs
AllWords (free p ∷ cs) = AllWords cs
AllWords (read p d n ∷ cs) = AllWords cs

-- The world, the manager, and the blocks that the caller has.
pub record View (S : Stdio) : Type 0 where
  pub world : S.World
  pub mngr : StoreMngr S
  pub owned : List ℕ

abbrev with_block : Option StoreMngrBlock → List ℕ → List ℕ
with_block none owned = owned
with_block (some h) owned = elim h.b_alloc_block [ none ↦ owned | some p ↦ p ∷ owned ]

module _ {S : Stdio} where
  abbrev given : View S → Status × Option (StoreMngr S) × Option StoreMngrBlock → View S
  given v (rc, none, h) = v
  given v (rc, some m, h) = record v { mngr = m; owned = with_block h v.owned }

  abbrev taken_back : View S → ℕ → Status × Option (StoreMngr S) → View S
  taken_back v p (rc, none) = v
  taken_back v p (rc, some m) = record v { mngr = m; owned = remove p v.owned }

  unfoldable pub step : StoreCall → View S → View S
  step (alloc size) v = given v (store_mngr_block_alloc S true (some v.mngr) (u32 size) true)
  step (free p) v =
      if contains v.owned p
      then taken_back v p (store_mngr_block_free S (some v.mngr) (handle p))
      else v
  step (write p d xs) v =
      if contains v.owned p
      then record v {
        world = (store_mngr_block_write S v.world (some v.mngr) (handle p) (u32 d) (some xs)).1;
      }
      else v
  step (read p d n) v =
      if contains v.owned p
      then record v {
        world =
            (store_mngr_block_read S v.world (some v.mngr) (handle p) (u32 d) (u32 n) true true).2;
      }
      else v

  unfoldable pub run : List StoreCall → View S → View S
  run [] v = v
  run (c ∷ cs) v = run cs (step c v)

module _ {S : Stdio} (R : IsReliable S) (a n : ℕ) (file : RamFile S) (f : S.File) where
  -- The manager is ready, its file is not larger than the pool, and its allocator regards as held
  -- exactly the blocks that the caller has.
  pub record Keeps (v : View S) : Type 0 where
    pub b : BuddyAlloc
    pub ready : IsReady R a n v.world v.mngr b file f
    pub agrees : Agrees a n (b, v.owned)
    pub within : IsWithin R file f v.world

  -- The same manager with another allocator.
  moved :
      (v : View S) (k : Keeps v) (b' : BuddyAlloc) (owned : List ℕ)
      → Agrees a n (b', owned)
      → Keeps (record v { mngr = record v.mngr { b_alloc = some b' }; owned = owned })
  moved v k b' owned g = record {
    b = b';
    ready = record {
      b_alloc = refl;
      fits = k.ready.fits;
      valid = g.valid;
      r_file_ctrl = k.ready.r_file_ctrl;
      opened = k.ready.opened;
      limit = k.ready.limit;
    };
    agrees = g;
    within = k.within;
  }

  -- The same manager over another world.
  turned :
      (v : View S) (k : Keeps v) (w' : S.World)
      → IsWithin R file f w'
      → Keeps (record v { world = w' })
  turned v k w' within = record {
    b = k.b;
    ready = record {
      b_alloc = k.ready.b_alloc;
      fits = k.ready.fits;
      valid = k.ready.valid;
      r_file_ctrl = k.ready.r_file_ctrl;
      opened = within.opened;
      limit = k.ready.limit;
    };
    agrees = k.agrees;
    within = within;
  }

  alloc-Keeps : (size : ℕ) (v : View S) → Keeps v → Keeps (step (alloc size) v)
  unfolding step store_mngr_block_alloc
  alloc-Keeps size v k =
      let reach : (r : Status × Option BuddyAlloc × Option ℕ)
          → buddy_alloc_allocate (some k.b) true (u32 size) ≡ r
          → given v (new_handle S v.mngr r) ≡ step (alloc size) v =
        λ r run. sym (
          ap (λ o. given v (new_handle S v.mngr (buddy_alloc_allocate o true (u32 size))))
            k.ready.b_alloc
          ∙ ap (λ r. given v (new_handle S v.mngr r)) run) in
      elim (Bool-cases (u32 size == 0)) [
        | inl e ↦
            subst Keeps (reach _ (allocate_zero k.b (u32 size) e)) (moved v k k.b v.owned k.agrees)
        | inr ne ↦
            let (e, _, _, served) =
              buddy_alloc_allocate-Served a n k.b (u32 size) k.ready.fits k.ready.valid
                (==→ne _ _ ne) (omega arith) in
            elim served [
              | no_such_level h r ↦ subst Keeps (reach _ r) (moved v k k.b v.owned k.agrees)
              | exhausted h r ↦ subst Keeps (reach _ r) (moved v k k.b v.owned k.agrees)
              | handed_out h h' x r ↦ subst Keeps (reach _ r) (
                  moved v k x.state (x.block ∷ v.owned)
                    (handed_out-Agrees a n k.b v.owned k.agrees x))
            ]
      ]

  free-Keeps : (p : ℕ) (v : View S) → Keeps v → Keeps (step (free p) v)
  unfolding step store_mngr_block_free
  free-Keeps p v k = elim (Bool-cases (contains v.owned p)) [
    | inr e ↦ rw (step, e) k
    | inl e ↦
        let (b', run, valid, released) =
          buddy_alloc_free-Released a n k.b p k.ready.fits k.ready.valid (k.agrees.agree p ∙ e) in
        let answer = ap (λ o. buddy_alloc_free o (some p)) k.ready.b_alloc ∙ run in
        rw (step, e, answer)
          (moved v k b' (remove p v.owned)
            (released-Agrees a n k.b v.owned k.agrees b' p valid released))
  ]

  -- One call on the file keeps it within its limit.
  written-IsWithin :
      (w : S.World) (o : ℕ) (xs : List ℕ)
      → o < 2 ^ 32
      → length xs < 2 ^ 32
      → IsWithin R file f w
      → IsWithin R file f (ram_file_write S w (some file) o (some xs)).1
  unfolding Limit.run Limit.call
  written-IsWithin w o xs word small within =
      let same : u64 o ≡ o = omega (arith, word) in
      subst (λ o. IsWithin R file f (ram_file_write S w (some file) o (some xs)).1) same
        (run-IsWithin R file f w (Limit.write o xs ∷ []) within (omega (arith, small), tt))

  read-IsWithin :
      (w : S.World) (o len : ℕ)
      → o < 2 ^ 32
      → IsWithin R file f w
      → IsWithin R file f (ram_file_read S w (some file) o true len).2
  unfolding Limit.run Limit.call
  read-IsWithin w o len word within =
      let same : u64 o ≡ o = omega (arith, word) in
      subst (λ o. IsWithin R file f (ram_file_read S w (some file) o true len).2) same
        (run-IsWithin R file f w (Limit.read o len ∷ []) within (tt, tt))

  write-Keeps :
      (p d : ℕ) (xs : List ℕ) (v : View S)
      → length xs < 2 ^ 32
      → Keeps v
      → Keeps (step (write p d xs) v)
  unfolding step
  write-Keeps p d xs v small k = elim (Bool-cases (contains v.owned p)) [
    | inr e ↦ rw (step, e) k
    | inl e ↦
        let o = add32 (k.b.elements p).offset (u32 d) in
        let answer =
          store_mngr_block_write_lem v.world v.mngr k.b k.ready.b_alloc p (u32 d) (some xs)
          ∙ ap (λ c. ram_file_write S v.world c o (some xs)) k.ready.r_file_ctrl in
        rw (step, e, answer)
          (turned v k (ram_file_write S v.world (some file) o (some xs)).1
            (written-IsWithin v.world o xs (omega arith) small k.within))
  ]

  read-Keeps : (p d len : ℕ) (v : View S) → Keeps v → Keeps (step (read p d len) v)
  unfolding step
  read-Keeps p d len v k = elim (Bool-cases (contains v.owned p)) [
    | inr e ↦ rw (step, e) k
    | inl e ↦
        let o = add32 (k.b.elements p).offset (u32 d) in
        let answer =
          store_mngr_block_read_lem v.world v.mngr k.b k.ready.b_alloc p (u32 d) (u32 len)
          ∙ ap (λ c. ram_file_read S v.world c o true (u32 len)) k.ready.r_file_ctrl in
        rw (step, e, answer)
          (turned v k (ram_file_read S v.world (some file) o true (u32 len)).2
            (read-IsWithin v.world o (u32 len) (omega arith) k.within))
  ]

  run-Keeps : (cs : List StoreCall) (v : View S) → AllWords cs → Keeps v → Keeps (run cs v)
  unfolding run
  run-Keeps [] v small k = k
  run-Keeps (alloc size ∷ cs) v small k =
      run-Keeps cs (step (alloc size) v) small (alloc-Keeps size v k)
  run-Keeps (free p ∷ cs) v small k = run-Keeps cs (step (free p) v) small (free-Keeps p v k)
  run-Keeps (write p d xs ∷ cs) v (small, rest) k =
      run-Keeps cs (step (write p d xs) v) rest (write-Keeps p d xs v small k)
  run-Keeps (read p d len ∷ cs) v small k =
      run-Keeps cs (step (read p d len) v) small (read-Keeps p d len v k)

-- For a pool of `2 ^ c` bytes in blocks of `2 ^ a` bytes or more, a 32-bit size and at most 27
-- levels, if memory is there and the storage file opens and is not larger than the pool,
-- `store_mngr_create` succeeds. While no device fails, through every history of calls of a caller
-- that uses the blocks it has, with any offsets and data shorter than 2 ^ 32 bytes, the manager
-- stays ready: its allocator is valid and regards as held exactly the blocks that the caller has,
-- and its file stays open and not larger than the pool.
pub run-store_mngr_create :
    {S : Stdio} (R : IsReliable S) (a c : ℕ) (type : StoreType) (got : ℕ → Bool) (w w' : S.World)
    (path : S.FilePath) (f : S.File) (cs : List StoreCall)
    → a ≤ c
    → c < 32
    → c < a + 27
    → ((k : ℕ) → got k ≡ true)
    → open_file S w path ≡ (some f, w')
    → R.is_open w' f ≡ true
    → R.size w' f ≤ 2 ^ c
    → AllWords cs
    → (m : StoreMngr S) × (file : RamFile S) × (store_mngr_create S got true w path
          (some (record { total_size = 2 ^ c; minimum_block_size = 2 ^ a; type = type }))
        ≡ returns (ok, some m, w'))
      × Keeps R a (c - a + 1) file f (run cs (record { world = w'; mngr = m; owned = [] }))
run-store_mngr_create {S} R a c type got w w' path f cs h word records memory opens open_f small
      words =
    let (m, b, file, made, ready, nobody) =
      store_mngr_create-IsReady R a c type got w w' path f h word records memory opens open_f in
    let top : a + (c - a + 1 - 1) ≡ c = omega (arith, h) in
    let limit : file.max_file_size ≡ 2 ^ c = ready.limit ∙ ap (λ t. 2 ^ t) top in
    (
      m,
      file,
      made,
      run-Keeps R a (c - a + 1) file f cs (record { world = w'; mngr = m; owned = [] }) words
          (record {
            b = b;
            ready = ready;
            agrees = record { valid = ready.valid; distinct = tt; agree = nobody };
            within = record { opened = ready.opened; within = omega (arith, limit, small) };
          }),
    )
