-- ===== src/RamFile.antt =====
-- CLIENT_SERVER/src/ram_file_ctrl.c: a file with a largest size, over <stdio.h>.
pub mod Access
pub mod Limit
mod Tests
use client_server.Stdio.{Stdio, create_update, update_old}
use client_server.Base.{
  ℕ, ◌+◌, ◌*◌, Bool, not, ◌||◌, Option, none, some, List, [], ltb, ◌==◌, if◌then◌else◌, length, u64,
  einval, enomem, eio, efbig, efault, Status, ok, err,
}

-- DEFAULT_MAX_FILE_SIZE
abbrev pub default_max_file_size : ℕ
default_max_file_size = 10 * 1024 * 1024

module _ (S : Stdio) where
  -- `ram_file_cfg_t`
  pub record RamFileCfg : Type 0 where
    pub file_path : Option S.FilePath
    pub max_file_size : ℕ
    pub delete_files : Bool

  -- `struct ram_file_t`; `none` is NULL.
  pub record RamFile : Type 0 where
    pub file : Option S.File
    pub file_path : Option S.FilePath
    pub max_file_size : ℕ
    pub delete_files : Bool

  unfoldable pub check_if_file_exist : S.World → Option S.FilePath → Status
  check_if_file_exist w none = err efault
  check_if_file_exist w (some path) = S.access w path

  unfoldable pub delete_file_if_exists : S.World → Option S.FilePath → Status × S.World
  delete_file_if_exists w none = (ok, w)
  delete_file_if_exists w (some path) = elim (check_if_file_exist w (some path)) [
    | ok ↦ S.remove w path
    | err e ↦ (ok, w)
  ]

  -- A missing file is created.
  abbrev pub open_file : S.World → S.FilePath → Option S.File × S.World
  open_file w path = elim (check_if_file_exist w (some path)) [
    | ok ↦ S.fopen w path update_old
    | err e ↦ S.fopen w path create_update
  ]

  abbrev pub new_ram_file :
      S.FilePath → RamFileCfg → Option S.File × S.World → Status × Option RamFile × S.World
  new_ram_file path cfg (none, w) = (err eio, none, w)
  new_ram_file path cfg (some f, w) = (
    ok,
    some (record {
      file = some f;
      file_path = some path;
      max_file_size = if cfg.max_file_size == 0 then default_max_file_size else cfg.max_file_size;
      delete_files = cfg.delete_files;
    }),
    w,
  )

  -- The flags say whether `ram_file_mngr` is given, and whether `calloc` and `strdup` succeed.
  unfoldable pub ram_file_create :
      Bool → Bool → Bool → S.World → Option RamFileCfg → Status × Option RamFile × S.World
  ram_file_create has_out got_mngr got_path w none = (err einval, none, w)
  ram_file_create has_out got_mngr got_path w (some cfg) = elim cfg.file_path [
    | none ↦ (err einval, none, w)
    | some path ↦
        if not has_out
        then (err einval, none, w)
        else if not got_mngr || not got_path
        then (err enomem, none, w)
        else new_ram_file path cfg (open_file w path)
  ]

  abbrev pub close_file : S.World → Option S.File → S.World
  close_file w none = w
  close_file w (some f) = S.fclose w f

  unfoldable pub ram_file_destroy : S.World → Option RamFile → Status × S.World
  ram_file_destroy w none = (err einval, w)
  ram_file_destroy w (some m) =
      if m.delete_files
      then delete_file_if_exists (close_file w m.file) m.file_path
      else (ok, close_file w m.file)

  -- `fread` of `data_size` bytes, and the bytes that it stored in `data_out`.
  abbrev pub read_at : S.World → S.File → ℕ → ℕ → Status × List ℕ × S.World
  read_at w f offset data_size =
      let (rc, w') = S.fseek w f offset in
      elim rc [
        | err e ↦ (err eio, [], w')
        | ok ↦
            let (bytes, w'') = S.fread w' f data_size in
            if length bytes == data_size then (ok, bytes, w'') else (err eio, bytes, w'')
      ]

  -- `has_out` is false if `data_out` is NULL. The sum is one of 64 bits.
  unfoldable pub ram_file_read : S.World → Option RamFile → ℕ → Bool → ℕ → Status × List ℕ × S.World
  ram_file_read w none offset has_out data_size = (err einval, [], w)
  ram_file_read w (some m) offset has_out data_size = elim m.file [
    | none ↦ (err einval, [], w)
    | some f ↦
        if not has_out || data_size == 0
        then (err einval, [], w)
        else if ltb m.max_file_size (u64 (offset + data_size))
        then (err efbig, [], w)
        else read_at w f offset data_size
  ]

  abbrev pub write_at : S.World → S.File → ℕ → List ℕ → Status × S.World
  write_at w f offset bytes =
      let (rc, w') = S.fseek w f offset in
      elim rc [
        | err e ↦ (err e, w')
        | ok ↦
            let (count, w'') = S.fwrite w' f bytes in
            if count == length bytes then S.fflush w'' f else (err eio, w'')
      ]

  -- `data` is `none` if it is NULL; `data_size` is its length.
  unfoldable pub ram_file_write : S.World → Option RamFile → ℕ → Option (List ℕ) → Status × S.World
  ram_file_write w none offset bytes = (err einval, w)
  ram_file_write w (some m) offset none = (err einval, w)
  ram_file_write w (some m) offset (some bytes) = elim m.file [
    | none ↦ (err einval, w)
    | some f ↦
        if length bytes == 0
        then (err einval, w)
        else if ltb m.max_file_size (u64 (offset + length bytes))
        then (err efbig, w)
        else write_at w f offset bytes
  ]

  unfoldable pub ram_file_exist : S.World → Option S.FilePath → Status
  ram_file_exist w path = check_if_file_exist w path

  -- The size, or minus an error number.
  unfoldable pub ram_file_size_in_bytes : S.World → Option S.FilePath → Status × ℕ
  ram_file_size_in_bytes w none = (check_if_file_exist w none, 0)
  ram_file_size_in_bytes w (some path) = elim (check_if_file_exist w (some path)) [
    | err e ↦ (err e, 0)
    | ok ↦ S.stat_size w path
  ]
