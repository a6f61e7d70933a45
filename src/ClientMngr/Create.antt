-- ===== src/ClientMngr/Create.antt =====
-- `client_mngr_create`
use native.Mathlib.Nat.{mul-le-mul_right}
use client_server.IdPool
use client_server.IdPool.{IdPool}
use client_server.IdPool.Inv
use client_server.IdPool.Create.{create-Creates}
use client_server.ClientMngr.{
  ClientMngr, ClientMngrCfg, update, sizeof_mngr, sizeof_client, sizeof_file, total_size,
  clients_data_size, blank, pool_cfg, create_loop, client_mngr_create,
}
use client_server.ClientMngr.Layout.{IsLaid}
use client_server.Base.{
  ℕ, zero, suc, ◌+◌, ◌*◌, ◌^◌, ◌≤◌, ◌<◌, ◌≡◌, refl, sym, ap, subst, ◌∙◌, ◌≢◌, inl, inr, Bool, true,
  false, Option, some, arith, ltb, ◌==◌, ==→eq, ==→ne, Bool-cases, mul32, ok, returns,
}

-- A valid pool of `capacity` ids from 0 on.
abbrev pub HasPool : ℕ → Option IdPool → Type 0
HasPool capacity o =
    (p : IdPool) × (o ≡ some p)
    × IdPool.Inv.IsValid p
    × (p.capacity ≡ capacity)
    × (p.id_start_offset ≡ 0)

-- The manager when the first `i` clients are set up.
pub record SetUp (cfg : ClientMngrCfg) (i : ℕ) (m : ClientMngr) : Type 0 where
  pub clients : m.max_clients ≡ cfg.clients_capacity
  pub files : m.max_files ≡ cfg.files_capacity
  pub bytes :
      m.bytes
      ≡ sizeof_mngr + cfg.clients_capacity * sizeof_client + cfg.files_capacity * sizeof_file
  pub base : m.file_base ≡ sizeof_mngr + cfg.clients_capacity * sizeof_client
  pub client_pool : HasPool cfg.clients_capacity m.clients_id_pool
  pub file_pools : (j : ℕ) → j < i → HasPool cfg.files_capacity (m.clients_data j).files_id_pool
  pub places : (j : ℕ) → j < i → (m.clients_data j).files_data ≡ j * cfg.files_capacity

module _ (malloc : ℕ → ℕ → Bool) (cfg : ClientMngrCfg) (got : (k n : ℕ) → malloc k n ≡ true)
    (some_clients : cfg.clients_capacity ≢ 0) (some_files : cfg.files_capacity ≢ 0)
    (small : sizeof_mngr + cfg.clients_capacity * sizeof_client + cfg.files_capacity * sizeof_file
      < 2 ^ 32)
    (indices : cfg.clients_capacity * cfg.files_capacity < 2 ^ 32) where
  pool_made :
      (k capacity : ℕ)
      → capacity ≢ 0
      → 24 + 5 * capacity < 2 ^ 32
      → (p : IdPool) × (IdPool.create (malloc k) true (some (pool_cfg capacity))
          ≡ returns (ok, some p))
        × IdPool.Inv.IsValid p
        × (p.capacity ≡ capacity)
        × (p.id_start_offset ≡ 0)
  pool_made k capacity ne fits =
      let c = create-Creates (malloc k) (pool_cfg capacity) (got k _) ne fits (omega arith) in
      (c.p, c.ret, c.valid, c.capacity, c.offset)

  create_loop-SetUp :
      (n i : ℕ) (m : ClientMngr)
      → i + n ≡ cfg.clients_capacity
      → SetUp cfg i m
      → (m' : ClientMngr) × (create_loop malloc n i m ≡ returns (ok, some m'))
        × SetUp cfg cfg.clients_capacity m'
  unfolding create_loop
  create_loop-SetUp zero i m e s = (m, refl, subst (λ x. SetUp cfg x m) (omega (arith, e)) s)
  create_loop-SetUp (suc n) i m e s =
      let (p, made, valid, cap, start) =
        pool_made (2 + i) cfg.files_capacity some_files (omega (arith, small, some_files)) in
      let room : ltb m.bytes (sizeof_mngr + (i + 1) * sizeof_client) ≡ false =
        ground (arith, s.bytes, e) in
      let run : IdPool.create (malloc (2 + i)) true (some (pool_cfg m.max_files))
          ≡ returns (ok, some p) =
        ap (λ t. IdPool.create (malloc (2 + i)) true (some (pool_cfg t))) s.files ∙ made in
      let bound : i * cfg.files_capacity ≤ cfg.clients_capacity * cfg.files_capacity =
        mul-le-mul_right cfg.files_capacity (omega (arith, e)) in
      let place : mul32 i m.max_files ≡ i * cfg.files_capacity =
        ap (mul32 i) s.files ∙ omega (arith, bound, indices) in
      let next = record m {
        clients_data = update m.clients_data i (record (m.clients_data i) {
          files_id_pool = some p;
          files_data = mul32 i m.max_files;
        });
      } in
      let (m', rest, s') = create_loop-SetUp n (i + 1) next (omega (arith, e)) (record {
        clients = s.clients;
        files = s.files;
        bytes = s.bytes;
        base = s.base;
        client_pool = s.client_pool;
        file_pools = λ j h. elim (Bool-cases (j == i)) [
          | inl here ↦ rw here (p, refl, valid, cap, start)
          | inr ne ↦ rw ne (s.file_pools j (omega (arith, h, ==→ne j i ne)))
        ];
        places = λ j h. elim (Bool-cases (j == i)) [
          | inl here ↦ rw here (place ∙ ap (λ t. t * cfg.files_capacity) (sym (==→eq j i here)))
          | inr ne ↦ rw ne (s.places j (omega (arith, h, ==→ne j i ne)))
        ];
      }) in
      (m', rw (room, run, room) rest, s')

  -- With memory at hand, capacities that are not zero, and sizes and indices that fit 32 bits,
  -- `client_mngr_create` returns a manager with a valid pool of client ids and one of file ids for
  -- each client, laid out in its block with room for `files_capacity` entries in all.
  pub client_mngr_create-IsLaid :
      (m : ClientMngr) × (client_mngr_create malloc true (some cfg) ≡ returns (ok, some m))
      × SetUp cfg cfg.clients_capacity m
      × IsLaid m
  unfolding client_mngr_create
  client_mngr_create-IsLaid =
      let (p, made, valid, cap, start) =
        pool_made 1 cfg.clients_capacity some_clients (omega (arith, small, some_clients)) in
      let clients_size : clients_data_size cfg ≡ cfg.clients_capacity * sizeof_client =
        omega (arith, small) in
      let total : total_size cfg
          ≡ sizeof_mngr + cfg.clients_capacity * sizeof_client + cfg.files_capacity * sizeof_file =
        omega (arith, small) in
      let (m, run, s) =
        create_loop-SetUp cfg.clients_capacity 0 (record (blank cfg) { clients_id_pool = some p })
          (omega arith)
          (record {
            clients = refl;
            files = refl;
            bytes = total;
            base = ap (λ t. sizeof_mngr + t) clients_size;
            client_pool = (p, refl, valid, cap, start);
            file_pools = λ j h. absurd (omega (arith, h));
            places = λ j h. absurd (omega (arith, h));
          }) in
      (
        m,
        rw (got 0 (total_size cfg), made) run,
        s,
        record {
          bytes = rw (s.clients, s.files) s.bytes;
          base = rw s.clients s.base;
          files = λ i h. s.places i (omega (arith, h, s.clients)) ∙ ap (λ t. i * t) (sym s.files);
        },
      )
