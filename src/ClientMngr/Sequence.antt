-- ===== src/ClientMngr/Sequence.antt =====
-- Histories of calls on a manager that `client_mngr_create` made.
use client_server.ClientMngr.{
  ClientMngr, ClientMngrCfg, client_mngr_create, sizeof_mngr, sizeof_client, sizeof_file,
}
use client_server.ClientMngr.Api.{
  client_mngr_allocate, client_mngr_free, client_mngr_file_allocate, client_mngr_file_free,
  client_mngr_file_set_ctx, client_mngr_file_get_ctx, client_mngr_file_get_size,
}
use client_server.ClientMngr.Create.{client_mngr_create-IsLaid}
use client_server.ClientMngr.Ready.{
  IsReady, full, taken, out_of_range, has_files, not_taken, given_back,
  client_mngr_allocate-Allocation, client_mngr_free-Freeing,
}
use client_server.ClientMngr.Files.{
  IsServing, file_allocate_lem, file_free_lem, file_set_ctx_lem, file_get_ctx_lem,
  file_get_size_lem,
}
use client_server.Base.{
  ℕ, ◌+◌, ◌*◌, ◌^◌, ◌<◌, ◌≡◌, ◌≢◌, Bool, true, Option, none, some, List, [], ◌∷◌, arith, ok, Run,
  returns, ◌>>=◌, Returns, done, bind-Returns,
}

-- A call: for any client, or for a file of client 0.
pub data Call : Type 0 where
  client_allocate : Call
  client_free : ℕ → Call
  file_allocate : ℕ → Call
  file_free : ℕ → Call
  file_set_ctx : ℕ → Option ℕ → Call
  file_get_ctx : ℕ → Call
  file_get_size : ℕ → Call

abbrev kept : ClientMngr → Option ClientMngr → ClientMngr
kept m none = m
kept m (some m') = m'

unfoldable pub call : Call → ClientMngr → Run ClientMngr
call client_allocate m = do (rc, m', id) ← client_mngr_allocate (some m); returns (kept m m')
call (client_free id) m = do (rc, m') ← client_mngr_free (some m) id; returns (kept m m')
call (file_allocate size) m = do
  (rc, m', id) ← client_mngr_file_allocate (some m) 0 size
  returns (kept m m')
call (file_free file_id) m = do
  (rc, m') ← client_mngr_file_free (some m) 0 file_id
  returns (kept m m')
call (file_set_ctx file_id ctx) m = do
  (rc, m') ← client_mngr_file_set_ctx (some m) 0 file_id ctx
  returns (kept m m')
call (file_get_ctx file_id) m = do
  (rc, ctx) ← client_mngr_file_get_ctx (some m) 0 file_id
  returns m
call (file_get_size file_id) m = do
  (rc, size) ← client_mngr_file_get_size (some m) 0 file_id
  returns m

unfoldable pub run : List Call → ClientMngr → Run ClientMngr
run [] m = returns m
run (c ∷ cs) m = do m' ← call c m; run cs m'

call-IsServing : (c : Call) (m : ClientMngr) → IsServing m → Returns IsServing (call c m)
unfolding call
call-IsServing client_allocate m v = elim (client_mngr_allocate-Allocation m v.ready) [
  | full used e ↦ rw e (done v)
  | taken id q lt a e r ↦ rw e (done (record { ready = r; some_clients = v.some_clients }))
]
call-IsServing (client_free id) m v = elim (client_mngr_free-Freeing m v.ready id) [
  | out_of_range le e ↦ rw e (done v)
  | has_files files g ne e ↦ rw e (done v)
  | not_taken u e r ↦ rw e (done (record { ready = r; some_clients = v.some_clients }))
  | given_back q u a e r ↦ rw e (done (record { ready = r; some_clients = v.some_clients }))
]
call-IsServing (file_allocate size) m v =
    let (rc, m', id, e, v') = file_allocate_lem m v size in rw e (done v')
call-IsServing (file_free file_id) m v =
    let (rc, m', e, v') = file_free_lem m v file_id in rw e (done v')
call-IsServing (file_set_ctx file_id ctx) m v =
    let (rc, m', e, v') = file_set_ctx_lem m v file_id ctx in rw e (done v')
call-IsServing (file_get_ctx file_id) m v =
    let (rc, ctx, e) = file_get_ctx_lem m v file_id in rw e (done v)
call-IsServing (file_get_size file_id) m v =
    let (rc, size, e) = file_get_size_lem m v file_id in rw e (done v)

run-IsServing : (cs : List Call) (m : ClientMngr) → IsServing m → Returns IsServing (run cs m)
unfolding run
run-IsServing [] m v = done v
run-IsServing (c ∷ cs) m v = bind-Returns (call-IsServing c m v) (λ m' v'. run-IsServing cs m' v')

-- With memory at hand, capacities that are not zero, and sizes and indices that fit 32 bits, the
-- manager is created. From there on no sequence of calls that take and free clients, of any
-- number, and of calls on the files of client 0, of any number, makes an access out of bounds;
-- after each the manager is laid out as before, and has a valid pool of client ids and one of file
-- ids for each client.
pub run-client_mngr_create :
    (malloc : ℕ → ℕ → Bool) (cfg : ClientMngrCfg) (cs : List Call)
    → ((k n : ℕ) → malloc k n ≡ true)
    → cfg.clients_capacity ≢ 0
    → cfg.files_capacity ≢ 0
    → sizeof_mngr + cfg.clients_capacity * sizeof_client + cfg.files_capacity * sizeof_file < 2 ^ 32
    → cfg.clients_capacity * cfg.files_capacity < 2 ^ 32
    → (m : ClientMngr) × (client_mngr_create malloc true (some cfg) ≡ returns (ok, some m))
      × Returns IsServing (run cs m)
run-client_mngr_create malloc cfg cs got some_clients some_files small indices =
    let (m, made, s, laid) =
      client_mngr_create-IsLaid malloc cfg got some_clients some_files small indices in
    let ready : IsReady m = record {
      laid = laid;
      client_pool = rw s.clients s.client_pool;
      file_pools = λ j lt. rw s.files (s.file_pools j (omega (arith, lt, s.clients)));
    } in
    (
      m,
      made,
      run-IsServing cs m
          (record { ready = ready; some_clients = omega (arith, s.clients, some_clients) }),
    )
