-- ===== src/ClientMngr/Tests.antt =====
-- A manager of two clients with three files each, as the code lays it out.
use client_server.ClientMngr.{ClientMngr}
use client_server.ClientMngr.Api.{client_mngr_file_set_ctx, client_mngr_file_get_ctx}
use client_server.ClientMngr.{client_mngr_create}
use client_server.ClientMngr.Create.{SetUp, client_mngr_create-IsLaid}
use client_server.ClientMngr.Layout.{
  IsLaid, with_ctx, client_mngr_file_set_ctx_lem, file_get_ctx-file_set_ctx,
}
use client_server.IdPool.{IdPool, IdPoolCfg, fresh_pool}
use client_server.IdPool.Create.{fresh_pool-IsValid, fresh_pool-limits}
use client_server.ClientMngr.Create.{HasPool}
use client_server.ClientMngr.Ready.{IsReady, Allocation, client_mngr_allocate-Allocation}
use client_server.ClientMngr.Files.{IsServing}
use client_server.ClientMngr.Sequence.{
  Call, client_allocate, client_free, file_allocate, file_free, file_set_ctx, run,
  run-client_mngr_create,
}
use client_server.Base.{
  ℕ, ◌*◌, ◌^◌, ◌<◌, ◌≡◌, refl, true, false, none, some, List, [], ◌∷◌, arith, ◌==◌, if◌then◌else◌,
  ok, returns, overrun, Returns,
}

abbrev two_clients : ClientMngr
two_clients = record {
  max_clients = 2;
  max_files = 3;
  clients_id_pool = none;
  clients_data = λ i. record { files_id_pool = none; files_data = i * 3; in_use = false };
  entries = λ _. record { file_size = 0; ctx = none };
  bytes = 112;
  file_base = 64;
}

two_clients-IsLaid : IsLaid two_clients
two_clients-IsLaid = record { bytes = refl; base = refl; files = λ i h. refl }

client_mngr_file_set_ctx_lem_example :
    client_mngr_file_set_ctx (some two_clients) 1 0 (some 7)
    ≡ (if 1 == 0 then returns (ok, some (with_ctx two_clients 0 (some 7))) else overrun)
client_mngr_file_set_ctx_lem_example =
    client_mngr_file_set_ctx_lem two_clients two_clients-IsLaid 1 0 (omega arith) (omega arith)
      (some 7)

client_mngr_create-IsLaid_example :
    (m : ClientMngr) × (client_mngr_create
        (λ k n. true)
        true
        (some (record { clients_capacity = 2; files_capacity = 3 }))
      ≡ returns (ok, some m))
    × SetUp (record { clients_capacity = 2; files_capacity = 3 }) 2 m
    × IsLaid m
client_mngr_create-IsLaid_example =
    client_mngr_create-IsLaid (λ k n. true) (record { clients_capacity = 2; files_capacity = 3 })
      (λ k n. refl) (omega arith) (omega arith) (omega arith) (omega arith)

file_get_ctx-file_set_ctx_example :
    (m' : ClientMngr) × (client_mngr_file_set_ctx (some two_clients) 0 1 (some 7)
      ≡ returns (ok, some m'))
    × (client_mngr_file_get_ctx (some m') 0 1 ≡ (
        if 1 == 1 then returns (ok, some 7) else client_mngr_file_get_ctx (some two_clients) 0 1))
file_get_ctx-file_set_ctx_example =
    file_get_ctx-file_set_ctx two_clients 1 1 7 two_clients-IsLaid (omega arith) (omega arith)
      (omega arith)

abbrev ids : ℕ → IdPool
ids capacity = fresh_pool (record { capacity = capacity; id_start_offset = 0 })

ids-HasPool : (capacity : ℕ) → capacity < 2 ^ 32 → HasPool capacity (some (ids capacity))
ids-HasPool capacity fits =
    let cfg : IdPoolCfg = record { capacity = capacity; id_start_offset = 0 } in
    (
      ids capacity,
      refl,
      fresh_pool-IsValid cfg (omega (arith, fits)),
      (fresh_pool-limits cfg).1.0,
      (fresh_pool-limits cfg).1.1,
    )

-- The same manager with its pools.
abbrev ready_clients : ClientMngr
ready_clients = record two_clients {
  clients_id_pool = some (ids 2);
  clients_data = λ i. record { files_id_pool = some (ids 3); files_data = i * 3; in_use = false };
}

ready_clients-IsReady : IsReady ready_clients
ready_clients-IsReady = record {
  laid = record { bytes = refl; base = refl; files = λ i h. refl };
  client_pool = ids-HasPool 2 (omega arith);
  file_pools = λ j h. ids-HasPool 3 (omega arith);
}

client_mngr_allocate-Allocation_example : Allocation ready_clients ready_clients-IsReady
client_mngr_allocate-Allocation_example =
    client_mngr_allocate-Allocation ready_clients ready_clients-IsReady

abbrev history : List Call
history =
    client_allocate
    ∷ file_allocate 100
    ∷ file_set_ctx 2 (some 7)
    ∷ file_free 2
    ∷ client_free 0
    ∷ client_free 9
    ∷ []

run-client_mngr_create_example :
    (m : ClientMngr) × (client_mngr_create
        (λ k n. true)
        true
        (some (record { clients_capacity = 2; files_capacity = 3 }))
      ≡ returns (ok, some m))
    × Returns IsServing (run history m)
run-client_mngr_create_example =
    run-client_mngr_create (λ k n. true) (record { clients_capacity = 2; files_capacity = 3 })
      history (λ k n. refl) (omega arith) (omega arith) (omega arith) (omega arith)
