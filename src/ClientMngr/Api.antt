-- ===== src/ClientMngr/Api.antt =====
-- The calls of CLIENTS_MANAGER/include/client_mngr.h on a manager that is there. Addresses for
-- results are not tested by the code, and are taken to be given.
use client_server.Base.{
  ℕ, zero, suc, ◌+◌, true, false, ◌||◌, Option, none, some, leb, ◌==◌, if◌then◌else◌, einval,
  eacces, eperm, Status, ok, err, Run, returns, ◌>>=◌,
}
use client_server.IdPool
use client_server.IdPool.{IdPool, destroy, get_used_id_count}
use client_server.ClientMngr.{
  ClientMngr, ClientData, FileData, get_client, put_client, get_file, put_file,
}

-- `n` rounds of the loop from `i` on; an error ends it.
unfoldable pub destroy_loop : ℕ → ℕ → ClientMngr → Run Status
destroy_loop zero i m = returns (destroy m.clients_id_pool)
destroy_loop (suc n) i m = do
  c ← get_client m i
  elim (destroy c.files_id_pool) [ err e ↦ returns (err e) | ok ↦ destroy_loop n (i + 1) m ]

unfoldable pub client_mngr_destroy : Option ClientMngr → Run Status
client_mngr_destroy none = returns (err einval)
client_mngr_destroy (some m) = destroy_loop m.max_clients 0 m

-- The part of `client_mngr_allocate` behind the pool's answer.
abbrev pub take_client :
    ClientMngr → Status × Option IdPool × Option ℕ → Run (Status × Option ClientMngr × Option ℕ)
take_client m (err e, pool, id) = returns (err e, some m, none)
take_client m (ok, pool, none) = returns (ok, some m, none)
take_client m (ok, pool, some id) = do
  c ← get_client m id
  m' ← put_client (record m { clients_id_pool = pool }) id (record c { in_use = true })
  returns (ok, some m', some id)

unfoldable pub client_mngr_allocate :
    Option ClientMngr → Run (Status × Option ClientMngr × Option ℕ)
client_mngr_allocate none = returns (err einval, none, none)
client_mngr_allocate (some m) = do answer ← IdPool.allocate m.clients_id_pool; take_client m answer

-- The mark goes before the id; if the pool does not take the id back, the mark is gone.
abbrev pub drop_client : ClientMngr → ℕ → ClientData → Run (Status × Option ClientMngr)
drop_client m client_id c = do
  m' ← put_client m client_id (record c { in_use = false })
  (rc, pool) ← IdPool.free m'.clients_id_pool client_id
  returns (rc, some (record m' { clients_id_pool = pool }))

unfoldable pub client_mngr_free : Option ClientMngr → ℕ → Run (Status × Option ClientMngr)
client_mngr_free none client_id = returns (err einval, none)
client_mngr_free (some m) client_id =
    if leb m.max_clients client_id then returns (err einval, some m) else do
      c ← get_client m client_id
      elim (get_used_id_count c.files_id_pool).1 [
        | none ↦ returns (err eacces, some m)
        | some count ↦
            if count == 0 then drop_client m client_id c else returns (err eacces, some m)
      ]

-- The part of `client_mngr_file_allocate` behind the pool's answer.
abbrev pub take_file :
    ClientMngr
    → ℕ
    → ClientData
    → ℕ
    → Status × Option IdPool × Option ℕ
    → Run (Status × Option ClientMngr × Option ℕ)
take_file m client_id c file_size (err e, pool, id) = returns (err e, some m, none)
take_file m client_id c file_size (ok, pool, none) = returns (ok, some m, none)
take_file m client_id c file_size (ok, pool, some id) = do
  m' ← put_client m client_id (record c { files_id_pool = pool })
  m'' ← put_file m' c id (record { file_size = file_size; ctx = none })
  returns (ok, some m'', some id)

unfoldable pub client_mngr_file_allocate :
    Option ClientMngr → ℕ → ℕ → Run (Status × Option ClientMngr × Option ℕ)
client_mngr_file_allocate none client_id file_size = returns (err einval, none, none)
client_mngr_file_allocate (some m) client_id file_size =
    if leb m.max_clients client_id then returns (err einval, some m, none) else do
      c ← get_client m client_id
      answer ← IdPool.allocate c.files_id_pool
      take_file m client_id c file_size answer

-- The size is reset before the id goes back.
abbrev pub drop_file : ClientMngr → ℕ → ClientData → ℕ → FileData → Run (Status × Option ClientMngr)
drop_file m client_id c file_id x = do
  m' ← put_file m c file_id (record x { file_size = 0 })
  (rc, pool) ← IdPool.free c.files_id_pool file_id
  m'' ← put_client m' client_id (record c { files_id_pool = pool })
  returns (rc, some m'')

unfoldable pub client_mngr_file_free : Option ClientMngr → ℕ → ℕ → Run (Status × Option ClientMngr)
client_mngr_file_free none client_id file_id = returns (err einval, none)
client_mngr_file_free (some m) client_id file_id =
    if leb m.max_clients client_id || leb m.max_files file_id
    then returns (err einval, some m)
    else do
      c ← get_client m client_id
      x ← get_file m c file_id
      elim x.ctx [ some p ↦ returns (err eperm, some m) | none ↦ drop_file m client_id c file_id x ]

unfoldable pub client_mngr_file_set_ctx :
    Option ClientMngr → ℕ → ℕ → Option ℕ → Run (Status × Option ClientMngr)
client_mngr_file_set_ctx none client_id file_id ctx = returns (err einval, none)
client_mngr_file_set_ctx (some m) client_id file_id ctx =
    if leb m.max_clients client_id || leb m.max_files file_id
    then returns (err einval, some m)
    else do
      c ← get_client m client_id
      x ← get_file m c file_id
      m' ← put_file m c file_id (record x { ctx = ctx })
      returns (ok, some m')

unfoldable pub client_mngr_file_get_ctx : Option ClientMngr → ℕ → ℕ → Run (Status × Option ℕ)
client_mngr_file_get_ctx none client_id file_id = returns (err einval, none)
client_mngr_file_get_ctx (some m) client_id file_id =
    if leb m.max_clients client_id || leb m.max_files file_id
    then returns (err einval, none)
    else do
      c ← get_client m client_id
      x ← get_file m c file_id
      elim x.ctx [ none ↦ returns (err einval, none) | some p ↦ returns (ok, some p) ]

unfoldable pub client_mngr_file_get_size : Option ClientMngr → ℕ → ℕ → Run (Status × Option ℕ)
client_mngr_file_get_size none client_id file_id = returns (err einval, none)
client_mngr_file_get_size (some m) client_id file_id =
    if leb m.max_clients client_id || leb m.max_files file_id
    then returns (err einval, none)
    else do c ← get_client m client_id; x ← get_file m c file_id; returns (ok, some x.file_size)
