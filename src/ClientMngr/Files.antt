-- ===== src/ClientMngr/Files.antt =====
-- The files of client 0, whose entries are inside the manager's block, on a ready manager.
use client_server.IdPool
use client_server.IdPool.{IdPool}
use client_server.IdPool.Allocate.{allocate_lem}
use client_server.IdPool.Free.{free_lem}
use client_server.ClientMngr.{ClientMngr, ClientData, FileData, update, sizeof_file}
use client_server.ClientMngr.Api.{
  client_mngr_file_allocate, client_mngr_file_free, client_mngr_file_set_ctx,
  client_mngr_file_get_ctx, client_mngr_file_get_size, take_file, drop_file,
}
use client_server.ClientMngr.Layout.{
  with_ctx, client_room, past_end, client_mngr_file_set_ctx_lem, get_ctx_first,
}
use client_server.ClientMngr.Ready.{IsReady, with_client, with_client-IsReady}
use client_server.ClientMngr.Create.{HasPool}
use client_server.Base.{
  ℕ, ◌+◌, ◌*◌, ◌≤◌, ◌<◌, ◌≡◌, refl, ap, ◌∙◌, inl, inr, true, false, ◌||◌, Option, none, some, arith,
  ltb, leb, leb→le, leb→lt, Bool-cases, Option-cases, einval, enoent, espipe, ealready, eperm,
  Status, ok, err, Run, returns, ◌>>=◌,
}

abbrev pub with_entry : ClientMngr → ℕ → FileData → ClientMngr
with_entry m k x = record m { entries = update m.entries k x }

with_entry-IsReady :
    (m : ClientMngr) (k : ℕ) (x : FileData) → IsReady m → IsReady (with_entry m k x)
with_entry-IsReady m k x h = record {
  laid = record { bytes = h.laid.bytes; base = h.laid.base; files = h.laid.files };
  client_pool = h.client_pool;
  file_pools = h.file_pools;
}

-- A ready manager with clients.
pub record IsServing (m : ClientMngr) : Type 0 where
  pub ready : IsReady m
  pub some_clients : 0 < m.max_clients

module _ (m : ClientMngr) (v : IsServing m) where
  abbrev client : ClientData
  client = m.clients_data 0

  limits : leb m.max_clients 0 ≡ false
  limits = ground (arith, v.some_clients)

  file_room :
      (id : ℕ)
      → id < m.max_files
      → ltb m.bytes (m.file_base + (client.files_data + id + 1) * sizeof_file) ≡ false
  file_room id lt = past_end m v.ready.laid 0 id v.some_clients lt

  changed_client :
      (q : Option IdPool) (k : ℕ) (x : FileData)
      → HasPool m.max_files q
      → IsServing
          (with_entry (with_client m m.clients_id_pool 0 (record client { files_id_pool = q })) k x)
  changed_client q k x files = record {
    ready = with_entry-IsReady _ k x (
        with_client-IsReady m m.clients_id_pool 0 (record client { files_id_pool = q }) v.ready
          v.ready.client_pool files refl);
    some_clients = v.some_clients;
  }

  pub file_allocate_lem :
      (file_size : ℕ)
      → (rc : Status) × (m' : ClientMngr) × (id : Option ℕ) × (client_mngr_file_allocate
            (some m)
            0
            file_size
          ≡ returns (rc, some m', id))
        × IsServing m'
  unfolding client_mngr_file_allocate
  file_allocate_lem file_size =
      let (files, e, valid, cap, start) = v.ready.file_pools 0 v.some_clients in
      let room = client_room m v.ready.laid 0 v.some_clients in
      let first : client_mngr_file_allocate (some m) 0 file_size
          ≡ (IdPool.allocate client.files_id_pool >>= take_file m 0 client file_size) =
        rw (limits, room) refl in
      elim (allocate_lem valid) [
        | inl (top, run, used) ↦
            let answer = ap IdPool.allocate e ∙ run in
            (err enoent, m, none, first ∙ ap (λ r. r >>= take_file m 0 client file_size) answer, v)
        | inr (id, q, top, run, a) ↦
            let answer = ap IdPool.allocate e ∙ run in
            let lt : id < m.max_files = omega (arith, a.in_range, cap, start) in
            (
              ok,
              _,
              some id,
              first
                  ∙ ap (λ r. r >>= take_file m 0 client file_size) answer
                  ∙ rw (room, file_room id lt) refl,
              changed_client (some q) (client.files_data + id)
                  (record { file_size = file_size; ctx = none })
                  (q, refl, a.valid, a.capacity ∙ cap, a.offset ∙ start),
            )
      ]

  -- The tests of the limits come out so for a file number in range.
  in_limits :
      (file_id : ℕ) → file_id < m.max_files → leb m.max_clients 0 || leb m.max_files file_id ≡ false
  in_limits file_id lt = ground (arith, lt, v.some_clients)

  over_limits :
      (file_id : ℕ) → m.max_files ≤ file_id → leb m.max_clients 0 || leb m.max_files file_id ≡ true
  over_limits file_id le = ground (arith, le)

  abbrev entry : ℕ → FileData
  entry file_id = m.entries (client.files_data + file_id)

  abbrev file_kept : ℕ → Option ℕ → Run (Status × Option ClientMngr)
  file_kept file_id (some p) = returns (err eperm, some m)
  file_kept file_id none = drop_file m 0 client file_id (entry file_id)

  dropped :
      (file_id : ℕ)
      → file_id < m.max_files
      → (rc : Status) × (m' : ClientMngr) × (drop_file m 0 client file_id (entry file_id)
          ≡ returns (rc, some m'))
        × IsServing m'
  dropped file_id lt =
      let (files, e, valid, cap, start) = v.ready.file_pools 0 v.some_clients in
      let room = client_room m v.ready.laid 0 v.some_clients in
      let free_answer : (r : Run (Status × Option IdPool))
          → IdPool.free (some files) file_id ≡ r
          → IdPool.free client.files_id_pool file_id ≡ r =
        λ r run. ap (λ o. IdPool.free o file_id) e ∙ run in
      elim (free_lem file_id valid) [
        | inl (out, run) ↦ (
          err espipe,
          _,
          rw (file_room file_id lt, free_answer _ run, room) refl,
          changed_client (some files) (client.files_data + file_id)
              (record (entry file_id) { file_size = 0 }) (files, refl, valid, cap, start),
        )
        | inr (inl (inside, unused, run)) ↦ (
          err ealready,
          _,
          rw (file_room file_id lt, free_answer _ run, room) refl,
          changed_client (some files) (client.files_data + file_id)
              (record (entry file_id) { file_size = 0 }) (files, refl, valid, cap, start),
        )
        | inr (inr (q, used, run, a)) ↦ (
          ok,
          _,
          rw (file_room file_id lt, free_answer _ run, room) refl,
          changed_client (some q) (client.files_data + file_id)
              (record (entry file_id) { file_size = 0 })
              (q, refl, a.valid, a.capacity ∙ cap, a.offset ∙ start),
        )
      ]

  pub file_free_lem :
      (file_id : ℕ)
      → (rc : Status) × (m' : ClientMngr) × (client_mngr_file_free (some m) 0 file_id
          ≡ returns (rc, some m'))
        × IsServing m'
  unfolding client_mngr_file_free
  file_free_lem file_id = elim (Bool-cases (leb m.max_files file_id)) [
    | inl over ↦ (err einval, m, rw (over_limits file_id (leb→le _ _ over)) refl, v)
    | inr below ↦
        let lt : file_id < m.max_files = leb→lt _ _ below in
        let room = client_room m v.ready.laid 0 v.some_clients in
        let first : client_mngr_file_free (some m) 0 file_id
            ≡ file_kept file_id (entry file_id).ctx =
          rw (in_limits file_id lt, room, file_room file_id lt) refl in
        elim (Option-cases (entry file_id).ctx) [
          | inl closed ↦
              let (rc, m', run, v') = dropped file_id lt in
              (rc, m', first ∙ ap (file_kept file_id) closed ∙ run, v')
          | inr (p, busy) ↦ (err eperm, m, first ∙ ap (file_kept file_id) busy, v)
        ]
  ]

  pub file_set_ctx_lem :
      (file_id : ℕ) (ctx : Option ℕ)
      → (rc : Status) × (m' : ClientMngr) × (client_mngr_file_set_ctx (some m) 0 file_id ctx
          ≡ returns (rc, some m'))
        × IsServing m'
  unfolding client_mngr_file_set_ctx
  file_set_ctx_lem file_id ctx = elim (Bool-cases (leb m.max_files file_id)) [
    | inl over ↦ (err einval, m, rw (over_limits file_id (leb→le _ _ over)) refl, v)
    | inr below ↦ (
      ok,
      with_ctx m file_id ctx,
      client_mngr_file_set_ctx_lem m v.ready.laid 0 file_id v.some_clients (leb→lt _ _ below) ctx,
      record {
        ready = with_entry-IsReady m file_id (record (m.entries file_id) { ctx = ctx }) v.ready;
        some_clients = v.some_clients;
      },
    )
  ]

  pub file_get_ctx_lem :
      (file_id : ℕ)
      → (rc : Status) × (ctx : Option ℕ) × (client_mngr_file_get_ctx (some m) 0 file_id
          ≡ returns (rc, ctx))
  unfolding client_mngr_file_get_ctx
  file_get_ctx_lem file_id = elim (Bool-cases (leb m.max_files file_id)) [
    | inl over ↦ (err einval, none, rw (over_limits file_id (leb→le _ _ over)) refl)
    | inr below ↦
        let read = get_ctx_first m file_id v.ready.laid v.some_clients (leb→lt _ _ below) in
        elim (Option-cases (m.entries file_id).ctx) [
          | inl e ↦ (err einval, none, read ∙ rw e refl)
          | inr (p, e) ↦ (ok, some p, read ∙ rw e refl)
        ]
  ]

  pub file_get_size_lem :
      (file_id : ℕ)
      → (rc : Status) × (size : Option ℕ) × (client_mngr_file_get_size (some m) 0 file_id
          ≡ returns (rc, size))
  unfolding client_mngr_file_get_size
  file_get_size_lem file_id = elim (Bool-cases (leb m.max_files file_id)) [
    | inl over ↦ (err einval, none, rw (over_limits file_id (leb→le _ _ over)) refl)
    | inr below ↦
        let lt : file_id < m.max_files = leb→lt _ _ below in
        let room = client_room m v.ready.laid 0 v.some_clients in
        (
          ok,
          some (entry file_id).file_size,
          rw (in_limits file_id lt, room, file_room file_id lt) refl,
        )
  ]
