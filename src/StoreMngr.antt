-- ===== src/StoreMngr.antt =====
-- STORAGE_MANAGER/src/store_mngr.c: blocks of the buddy allocator as ranges of one file.
pub mod Blocks
pub mod Create
pub mod Sequence
mod Tests
use client_server.Stdio.{Stdio}
use client_server.Buddy.State.{Block, BuddyAlloc}
use client_server.Buddy.Api.{
  buddy_alloc_create, buddy_alloc_destroy, buddy_alloc_allocate, buddy_alloc_free,
  buddy_alloc_get_block_offset,
}
use client_server.RamFile.{
  RamFile, ram_file_create, ram_file_destroy, ram_file_read, ram_file_write,
}
use client_server.Base.{
  ℕ, Bool, true, not, Option, none, some, List, [], if◌then◌else◌, add32, einval, enomem, Status,
  ok, err, Run, returns, overrun,
}

-- `enum store_type`
pub data StoreType : Type 0 where
  type1 type2 type3 : StoreType

-- `store_mngr_cfg_t`
pub record StoreMngrCfg : Type 0 where
  pub total_size : ℕ
  pub minimum_block_size : ℕ
  pub type : StoreType

-- `struct store_mngr_block`: its pointer to a block of the allocator, as the block's slot.
pub record StoreMngrBlock : Type 0 where
  pub b_alloc_block : Option ℕ

-- What the pointer leads to.
abbrev pub block_at : Option BuddyAlloc → Option ℕ → Option Block
block_at (some b) (some p) = some (b.elements p)
block_at (some b) none = none
block_at none p = none

-- `path` is the path of "./storage.bin".
module _ (S : Stdio) where
  pub record StoreMngr : Type 0 where
    pub b_alloc : Option BuddyAlloc
    pub r_file_ctrl : Option (RamFile S)
    pub type : StoreType

  abbrev pub destroy_file : S.World → Option (RamFile S) → S.World
  destroy_file w none = w
  destroy_file w (some m) = (ram_file_destroy S w (some m)).1

  -- The manager is torn down and `rc` returned; the status of `buddy_alloc_destroy` is not looked
  -- at.
  abbrev pub tear_down :
      S.World → Option BuddyAlloc → Option (RamFile S) → Status → Run (Status × S.World)
  tear_down w none file rc = returns (rc, destroy_file w file)
  tear_down w (some b) file rc = elim (buddy_alloc_destroy (some b)) [
    | returns ignored ↦ returns (rc, destroy_file w file)
    | overrun ↦ overrun
  ]

  -- `fail:` of `store_mngr_create`
  abbrev pub given_up : Run (Status × S.World) → Run (Status × Option StoreMngr × S.World)
  given_up (returns (rc, w)) = returns (rc, none, w)
  given_up overrun = overrun

  -- The parts of `store_mngr_create` behind the answers of the file and of the allocator.
  abbrev pub with_file :
      Option BuddyAlloc
      → StoreType
      → Status × Option (RamFile S) × S.World
      → Run (Status × Option StoreMngr × S.World)
  with_file b type (err e, file, w) = given_up (tear_down w b file (err e))
  with_file b type (ok, file, w) =
      returns (ok, some (record { b_alloc = b; r_file_ctrl = file; type = type }), w)

  abbrev pub with_alloc :
      (ℕ → Bool)
      → S.World
      → S.FilePath
      → StoreMngrCfg
      → Run (Status × Option BuddyAlloc)
      → Run (Status × Option StoreMngr × S.World)
  with_alloc got w path cfg overrun = overrun
  with_alloc got w path cfg (returns (err e, b)) = given_up (tear_down w b none (err e))
  with_alloc got w path cfg (returns (ok, b)) = with_file b cfg.type (
      ram_file_create S true (got 4) (got 5) w (
        some
          (record { file_path = some path; max_file_size = cfg.total_size; delete_files = true })))

  -- `got k` is the outcome of the `k`-th allocation of memory: the manager's, the three of
  -- `buddy_alloc_create`, the two of `ram_file_create`. `has_out` is false if `s_mngr` is NULL.
  unfoldable pub store_mngr_create :
      (ℕ → Bool)
      → Bool
      → S.World
      → S.FilePath
      → Option StoreMngrCfg
      → Run (Status × Option StoreMngr × S.World)
  store_mngr_create got has_out w path none = returns (err einval, none, w)
  store_mngr_create got has_out w path (some cfg) =
      if not has_out
      then returns (err einval, none, w)
      else if not (got 0)
      then returns (err enomem, none, w)
      else with_alloc got w path cfg (
          buddy_alloc_create true (got 1) (got 2) (got 3) (
            some (record {
              total_mem_pool_size = cfg.total_size;
              min_block_size = cfg.minimum_block_size;
            })))

  unfoldable pub store_mngr_destroy : S.World → Option StoreMngr → Run (Status × S.World)
  store_mngr_destroy w none = returns (err einval, w)
  store_mngr_destroy w (some m) = tear_down w m.b_alloc m.r_file_ctrl ok

  -- The handle that `store_mngr_block_alloc` gives out.
  abbrev pub new_handle :
      StoreMngr
      → Status × Option BuddyAlloc × Option ℕ
      → Status × Option StoreMngr × Option StoreMngrBlock
  new_handle m (err e, b, p) = (err e, some (record m { b_alloc = b }), none)
  new_handle m (ok, b, p) =
      (ok, some (record m { b_alloc = b }), some (record { b_alloc_block = p }))

  -- `got` is the outcome of `calloc`; `has_out` is false if `st_blk_handler` is NULL.
  unfoldable pub store_mngr_block_alloc :
      Bool → Option StoreMngr → ℕ → Bool → Status × Option StoreMngr × Option StoreMngrBlock
  store_mngr_block_alloc got none file_size has_out = (err einval, none, none)
  store_mngr_block_alloc got (some m) file_size has_out =
      if not has_out
      then (err einval, some m, none)
      else if not got
      then (err enomem, some m, none)
      else new_handle m (buddy_alloc_allocate m.b_alloc true file_size)

  -- The handle is gone afterwards.
  unfoldable pub store_mngr_block_free :
      Option StoreMngr → Option StoreMngrBlock → Status × Option StoreMngr
  store_mngr_block_free none h = (err einval, none)
  store_mngr_block_free (some m) none = (err einval, some m)
  store_mngr_block_free (some m) (some h) =
      let (rc, b) = buddy_alloc_free m.b_alloc h.b_alloc_block in
      (rc, some (record m { b_alloc = b }))

  abbrev pub write_to :
      S.World → StoreMngr → ℕ → Option (List ℕ) → Status × Option ℕ → Status × S.World
  write_to w m file_bytes_offset bytes (err e, o) = (err e, w)
  write_to w m file_bytes_offset bytes (ok, none) = (ok, w)
  write_to w m file_bytes_offset bytes (ok, some block_offset) =
      ram_file_write S w m.r_file_ctrl (add32 block_offset file_bytes_offset) bytes

  -- `bytes` is the pointer of `data`, and its length `data_len`.
  unfoldable pub store_mngr_block_write :
      S.World → Option StoreMngr → Option StoreMngrBlock → ℕ → Option (List ℕ) → Status × S.World
  store_mngr_block_write w none h file_bytes_offset bytes = (err einval, w)
  store_mngr_block_write w (some m) none file_bytes_offset bytes = (err einval, w)
  store_mngr_block_write w (some m) (some h) file_bytes_offset bytes =
      write_to w m file_bytes_offset bytes
        (buddy_alloc_get_block_offset (block_at m.b_alloc h.b_alloc_block) true)

  abbrev pub read_from :
      S.World → StoreMngr → ℕ → ℕ → Bool → Status × Option ℕ → Status × List ℕ × S.World
  read_from w m file_bytes_offset read_size has_buffer (err e, o) = (err e, [], w)
  read_from w m file_bytes_offset read_size has_buffer (ok, none) = (ok, [], w)
  read_from w m file_bytes_offset read_size has_buffer (ok, some block_offset) =
      ram_file_read S w m.r_file_ctrl (add32 block_offset file_bytes_offset) has_buffer read_size

  -- `has_buffer` says whether the pointer of `data_out` is not NULL, `has_out` whether `data_out`
  -- itself is not. On success `data_len` is `read_size`, the length of the list.
  unfoldable pub store_mngr_block_read :
      S.World
      → Option StoreMngr
      → Option StoreMngrBlock
      → ℕ
      → ℕ
      → Bool
      → Bool
      → Status × List ℕ × S.World
  store_mngr_block_read w none h file_bytes_offset read_size has_out has_buffer =
      (err einval, [], w)
  store_mngr_block_read w (some m) none file_bytes_offset read_size has_out has_buffer =
      (err einval, [], w)
  store_mngr_block_read w (some m) (some h) file_bytes_offset read_size has_out has_buffer =
      if not has_out
      then (err einval, [], w)
      else read_from w m file_bytes_offset read_size has_buffer
          (buddy_alloc_get_block_offset (block_at m.b_alloc h.b_alloc_block) true)
