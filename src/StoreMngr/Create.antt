-- ===== src/StoreMngr/Create.antt =====
-- `store_mngr_create`
use client_server.Stdio.{Stdio}
use client_server.Stdio.Reliable.{IsReliable}
use client_server.Buddy.State.{BuddyAlloc}
use client_server.Buddy.Pow.{two-pow_pos, two-pow-lt}
use client_server.Buddy.Inv.{held}
use client_server.Buddy.Create.{buddy_alloc_create-IsValid}
use client_server.RamFile.{RamFile, open_file, ram_file_create}
use client_server.StoreMngr.{StoreMngr, StoreType, store_mngr_create}
use client_server.StoreMngr.Blocks.{IsReady}
use client_server.Base.{
  ℕ, ◌+◌, ◌-◌, ◌^◌, ◌≤◌, ◌<◌, ◌≡◌, refl, sym, ap, Bool, true, false, some, arith, ◌==◌, ok, returns,
}

-- For a pool of `2 ^ c` bytes in blocks of `2 ^ a` bytes or more, a 32-bit size and at most 27
-- levels, and if memory is there and the storage file opens, `store_mngr_create` succeeds. Its
-- allocator is valid and nobody holds a block, and the file may grow to the size of the pool.
pub store_mngr_create-IsReady :
    {S : Stdio} (R : IsReliable S) (a c : ℕ) (type : StoreType) (got : ℕ → Bool) (w w' : S.World)
    (path : S.FilePath) (f : S.File)
    → a ≤ c
    → c < 32
    → c < a + 27
    → ((k : ℕ) → got k ≡ true)
    → open_file S w path ≡ (some f, w')
    → R.is_open w' f ≡ true
    → (m : StoreMngr S) × (b : BuddyAlloc) × (file : RamFile S) × (store_mngr_create S got true w
          path
          (some (record { total_size = 2 ^ c; minimum_block_size = 2 ^ a; type = type }))
        ≡ returns (ok, some m, w'))
      × IsReady R a (c - a + 1) w' m b file f
      × ((j : ℕ) → held (b.elements j) ≡ false)
unfolding store_mngr_create ram_file_create
store_mngr_create-IsReady {S} R a c type got w w' path f h word records memory opens open_f =
    let (b, made, valid, nobody) = buddy_alloc_create-IsValid a c h word in
    let some_size : 2 ^ c == 0 ≡ false = ground (arith, two-pow_pos c) in
    let top : a + (c - a + 1 - 1) ≡ c = omega (arith, h) in
    let file : RamFile S = record {
      file = some f;
      file_path = some path;
      max_file_size = 2 ^ c;
      delete_files = true;
    } in
    let filed : ram_file_create S true (got 4) (got 5) w
          (some (record { file_path = some path; max_file_size = 2 ^ c; delete_files = true }))
        ≡ (ok, some file, w') =
      rw (memory 4, memory 5, opens, some_size) refl in
    (
      record { b_alloc = some b; r_file_ctrl = some file; type = type },
      b,
      file,
      rw (memory 0, memory 1, memory 2, memory 3, made) (rw (filed) refl),
      record {
        b_alloc = refl;
        fits = record {
          some_level = omega arith;
          word = omega (arith, h, word);
          records = omega (arith, h, records);
        };
        valid = valid;
        r_file_ctrl = refl;
        opened = record {
          file = refl;
          is_open = open_f;
          limit = omega (arith, two-pow-lt c 32 word);
        };
        limit = ap (λ t. 2 ^ t) (sym top);
      },
      nobody,
    )
