-- ===== src/ClientMngr.antt =====
-- CLIENTS_MANAGER/src/client_mngr.c: clients and their files. The manager is one block of memory:
-- a head, the array of clients, and behind it the entries of the files. An access that reaches
-- outside the block is `overrun`.
pub mod Api
pub mod Layout
pub mod Ready
pub mod Files
pub mod Sequence
pub mod Create
mod Tests
use client_server.Base.{
  ℕ, zero, suc, ◌+◌, ◌*◌, Bool, true, false, Option, none, some, ltb, leb, ◌==◌, if◌then◌else◌, u32,
  add32, mul32, einval, enomem, eacces, eperm, Status, ok, err, Run, returns, overrun, ◌>>=◌,
}
use client_server.IdPool.{IdPool, IdPoolCfg}
use client_server.IdPool

-- `client_mngr_cfg_t`
pub record ClientMngrCfg : Type 0 where
  pub clients_capacity : ℕ
  pub files_capacity : ℕ

-- `file_data`. A context is a pointer, and `none` is NULL.
pub record FileData : Type 0 where
  pub file_size : ℕ
  pub ctx : Option ℕ

-- `client_data`. The pointer `files_data` is the number of the entry behind `file_base`.
pub record ClientData : Type 0 where
  pub files_id_pool : Option IdPool
  pub files_data : ℕ
  pub in_use : Bool

-- `client_mngr_t`. `bytes` is the size of the block, and `file_base` where the entries start.
pub record ClientMngr : Type 0 where
  pub max_clients : ℕ
  pub max_files : ℕ
  pub clients_id_pool : Option IdPool
  pub clients_data : ℕ → ClientData
  pub entries : ℕ → FileData
  pub bytes : ℕ
  pub file_base : ℕ

-- `sizeof(client_mngr_t)`, `sizeof(client_data)` and `sizeof(file_data)` on a 64-bit machine
abbrev pub sizeof_mngr : ℕ
sizeof_mngr = 16

abbrev pub sizeof_client : ℕ
sizeof_client = 24

abbrev pub sizeof_file : ℕ
sizeof_file = 16

abbrev pub clients_data_size : ClientMngrCfg → ℕ
clients_data_size cfg = u32 (cfg.clients_capacity * sizeof_client)

abbrev pub total_size : ClientMngrCfg → ℕ
total_size cfg =
    add32 (add32 sizeof_mngr (clients_data_size cfg)) (u32 (cfg.files_capacity * sizeof_file))

abbrev pub update {ℓ} : {A : Type ℓ} → (ℕ → A) → ℕ → A → ℕ → A
update f k v j = if j == k then v else f j

-- `clients_data[id]`, read and written.
abbrev pub get_client : ClientMngr → ℕ → Run ClientData
get_client m id =
    if ltb m.bytes (sizeof_mngr + (id + 1) * sizeof_client)
    then overrun
    else returns (m.clients_data id)

abbrev pub put_client : ClientMngr → ℕ → ClientData → Run ClientMngr
put_client m id c =
    if ltb m.bytes (sizeof_mngr + (id + 1) * sizeof_client)
    then overrun
    else returns (record m { clients_data = update m.clients_data id c })

-- `client->files_data[file_id]`, read and written.
abbrev pub get_file : ClientMngr → ClientData → ℕ → Run FileData
get_file m c file_id =
    if ltb m.bytes (m.file_base + (c.files_data + file_id + 1) * sizeof_file)
    then overrun
    else returns (m.entries (c.files_data + file_id))

abbrev pub put_file : ClientMngr → ClientData → ℕ → FileData → Run ClientMngr
put_file m c file_id x =
    if ltb m.bytes (m.file_base + (c.files_data + file_id + 1) * sizeof_file)
    then overrun
    else returns (record m { entries = update m.entries (c.files_data + file_id) x })

-- What `calloc` leaves.
abbrev pub blank : ClientMngrCfg → ClientMngr
blank cfg = record {
  max_clients = cfg.clients_capacity;
  max_files = cfg.files_capacity;
  clients_id_pool = none;
  clients_data = λ _. record { files_id_pool = none; files_data = 0; in_use = false };
  entries = λ _. record { file_size = 0; ctx = none };
  bytes = total_size cfg;
  file_base = sizeof_mngr + clients_data_size cfg;
}

abbrev pub pool_cfg : ℕ → IdPoolCfg
pool_cfg capacity = record { capacity = capacity; id_start_offset = 0 }

-- The loop over the clients: `n` rounds from `i` on. `malloc k` is the outcome of the `k`-th
-- allocation, by its size. If a pool fails, all that was made is freed.
unfoldable pub create_loop : (ℕ → ℕ → Bool) → ℕ → ℕ → ClientMngr → Run (Status × Option ClientMngr)
create_loop malloc zero i m = returns (ok, some m)
create_loop malloc (suc n) i m = do
  c ← get_client m i
  (rc, pool) ← IdPool.create (malloc (2 + i)) true (some (pool_cfg m.max_files))
  elim rc [
    | err e ↦ returns (err e, none)
    | ok ↦ do
      m' ← put_client m i (record c { files_id_pool = pool; files_data = mul32 i m.max_files })
      create_loop malloc n (i + 1) m'
  ]

-- `has_out` is false if `client_manager` is NULL.
unfoldable pub client_mngr_create :
    (ℕ → ℕ → Bool) → Bool → Option ClientMngrCfg → Run (Status × Option ClientMngr)
client_mngr_create malloc false cfg = returns (err einval, none)
client_mngr_create malloc true none = returns (err einval, none)
client_mngr_create malloc true (some cfg) =
    if malloc 0 (total_size cfg)
    then (do
      (rc, pool) ← IdPool.create (malloc 1) true (some (pool_cfg cfg.clients_capacity))
      elim rc [
        | err e ↦ returns (err e, none)
        | ok ↦
            create_loop malloc cfg.clients_capacity 0
              (record (blank cfg) { clients_id_pool = pool })
      ])
    else returns (err enomem, none)
