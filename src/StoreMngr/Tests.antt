-- ===== src/StoreMngr/Tests.antt =====
-- A storage manager over a file in memory, of 4096 bytes with blocks from 512 on.
use client_server.Stdio.Memory.{Disk, memory, memory-IsReliable, no_file}
use client_server.Buddy.CallTests.{pool, pool-IsValid, four_levels}
use client_server.RamFile.{RamFile, check_if_file_exist}
use client_server.Buddy.Calc.{get_block_size}
use client_server.StoreMngr.{
  StoreMngr, type1, store_mngr_create, store_mngr_block_write, store_mngr_block_read,
}
use client_server.StoreMngr.Blocks.{
  IsReady, handle, store_mngr_block_read-store_mngr_block_write, store_mngr_block_write_escapes,
}
use client_server.StoreMngr.Sequence.{
  StoreCall, alloc, free, write, read, run, Keeps, run-store_mngr_create,
}
use client_server.Base.{
  ℕ, ◌+◌, ◌-◌, ◌%◌, ◌^◌, ◌≡◌, refl, true, some, List, [], ◌∷◌, arith, add32, sub32, ok, returns,
}

-- Slots 1 and 2 are the halves of the pool; the file has all its bytes.
abbrev full_file : Disk
full_file = record { there = true; position = 0; size = 4096; byte = λ i. i % 256 }

abbrev storage : RamFile memory
storage = record { file = some tt; file_path = some tt; max_file_size = 4096; delete_files = true }

abbrev two_blocks : StoreMngr memory
two_blocks = record { b_alloc = some (pool true); r_file_ctrl = some storage; type = type1 }

two_blocks-IsReady : IsReady memory-IsReliable 9 4 full_file two_blocks (pool true) storage tt
two_blocks-IsReady = record {
  b_alloc = refl;
  fits = four_levels;
  valid = pool-IsValid true;
  r_file_ctrl = refl;
  opened = record { file = refl; is_open = refl; limit = omega arith };
  limit = refl;
}

store_mngr_block_read-store_mngr_block_write_example :
    (w0 w1 w2 w3 : Disk) × (old : List ℕ) × (store_mngr_block_read memory full_file
        (some two_blocks)
        (handle 2)
        5
        2
        true
        true
      ≡ (ok, old, w0))
    × (store_mngr_block_write memory full_file (some two_blocks) (handle 1) 2047 (some (7 ∷ []))
        ≡ (ok, w1))
    × (store_mngr_block_read memory w1 (some two_blocks) (handle 1) 2047 1 true true
        ≡ (ok, 7 ∷ [], w2))
    × (store_mngr_block_read memory w1 (some two_blocks) (handle 2) 5 2 true true ≡ (ok, old, w3))
unfolding get_block_size
store_mngr_block_read-store_mngr_block_write_example =
    store_mngr_block_read-store_mngr_block_write memory-IsReliable 9 4 full_file two_blocks
      (pool true) storage tt two_blocks-IsReady 1 2 2047 5 2 (7 ∷ []) (omega arith) refl refl
      (λ e. cc) (omega arith) (omega arith) (omega arith) (omega arith)

store_mngr_block_write_escapes_example :
    store_mngr_block_write memory full_file
      (some two_blocks)
      (handle 1)
      (sub32 (add32 2048 3) 0)
      (some (7 ∷ []))
    ≡ store_mngr_block_write memory full_file (some two_blocks) (handle 2) 3 (some (7 ∷ []))
store_mngr_block_write_escapes_example =
    store_mngr_block_write_escapes full_file two_blocks (pool true) refl 1 2 3 (some (7 ∷ []))
      (omega arith)

-- The first write escapes from its block, the last call is for a block that is gone.
abbrev story : List StoreCall
story =
    alloc 1000 ∷ write 1 3000 (1 ∷ 2 ∷ []) ∷ alloc 0 ∷ read 1 0 2 ∷ free 1 ∷ write 1 0 (3 ∷ []) ∷ []

run-store_mngr_create_example :
    (m : StoreMngr memory) × (file : RamFile memory) × (store_mngr_create memory
        (λ k. true)
        true
        no_file
        tt
        (some (record { total_size = 2 ^ 12; minimum_block_size = 2 ^ 9; type = type1 }))
      ≡ returns (ok, some m, record no_file { there = true }))
    × Keeps memory-IsReliable 9
        (12 - 9 + 1)
        file
        tt
        (run story (record { world = record no_file { there = true }; mngr = m; owned = [] }))
unfolding check_if_file_exist
run-store_mngr_create_example =
    run-store_mngr_create memory-IsReliable 9 12 type1 (λ k. true) no_file
      (record no_file { there = true }) tt tt story (omega arith) (omega arith) (omega arith)
      (λ k. refl) refl refl (omega arith) (omega arith, (omega arith, tt))
