-- ===== src/Transfer/Shutdown.antt =====
-- How `main` of the server ends.
use client_server.Stdio.{Stdio}
use client_server.Sockets.{Sockets}
use client_server.RamFile.{RamFile, ram_file_create, ram_file_destroy}
use client_server.NetServer.{
  NetServer, set_up, or_cleanup, cleanup_server, net_server_create, net_server_start,
  net_server_stop, net_server_destroy,
}
use client_server.NetServer.Loop.{turns, started}
use client_server.Transfer.Receiver.{
  max_file_size, server_port, server_data_to_file_callback, Answers, App, app_teardown, app_setup,
  app_run, server_main,
}
use client_server.Base.{
  ℕ, ◌≡◌, refl, ◌⊎◌, inl, inr, true, false, Option, none, some, Bool-cases, Errno, enomem, Status,
  ok, err, Status-cases, Pointer, null, live, freed, Run, returns, overrun,
}

module _ (S : Stdio) (K : Sockets) (loopback : K.Text) (path : S.FilePath) where
  -- The server is there after `net_server_create`, or freed.
  data Made (r : Status × Pointer (NetServer K loopback S.World (Option (RamFile S))) × K.Net)
      : Type 0 where
    failed : (e : Errno) (net : K.Net) → r ≡ (err e, freed, net) → Made r
    made :
        (s : NetServer K loopback S.World (Option (RamFile S))) (net : K.Net)
        → r ≡ (ok, live s, net)
        → Made r

  or_cleanup-Made :
      (fd : ℕ) (r : Status × K.Net)
      (next : K.Net → Status × Pointer (NetServer K loopback S.World (Option (RamFile S))) × K.Net)
      → ((net : K.Net) → Made (next net))
      → Made (or_cleanup K loopback S.World (Option (RamFile S)) fd r next)
  or_cleanup-Made fd (err e, net) next h = failed e _ refl
  or_cleanup-Made fd (ok, net) next h = h net

  set_up-Made :
      (port : ℕ) (r : Status × ℕ × K.Net)
      → Made (set_up K loopback S.World (Option (RamFile S)) port r)
  set_up-Made port (err e, fd, net) = failed e net refl
  set_up-Made port (ok, fd, net) = or_cleanup-Made fd (K.reuse_addr net fd) _ λ net1.
      or_cleanup-Made fd (K.receive_timeout net1 fd) _ λ net2.
        or_cleanup-Made fd (K.bind net2 fd (K.inet_addr loopback port)) _ λ net3. made _ net3 refl

  module _ (x : Answers S K loopback path) (w : S.World) (net : K.Net) where
    abbrev pub file_of_server : Status × Option (RamFile S) × S.World
    file_of_server = ram_file_create S true (x.got 0) (x.got 1) w (
        some
          (record { file_path = some path; max_file_size = max_file_size; delete_files = false }))

    abbrev pub server_of :
        Status × Pointer (NetServer K loopback S.World (Option (RamFile S))) × K.Net
    server_of = set_up K loopback S.World (Option (RamFile S)) server_port (K.socket net)

    abbrev pub main : Run (Status × App S K loopback path)
    main = server_main S K loopback path x w net

    -- How it ends.
    pub data ServerOutcome : Type 0 where
      no_file :
          (e : Errno) (m : Option (RamFile S)) (w1 : S.World)
          → file_of_server ≡ (err e, m, w1)
          → main
            ≡ returns (err e, record { file_mngr = none; net_server = null; world = w1; net = net })
          → ServerOutcome
      no_memory :
          (m : Option (RamFile S)) (w1 : S.World)
          → file_of_server ≡ (ok, m, w1)
          → x.got 2 ≡ false
          → main
            ≡ returns (
              err enomem,
              record {
                file_mngr = m;
                net_server = null;
                world = (ram_file_destroy S w1 m).1;
                net = net;
              },
            )
          → ServerOutcome
      no_server :
          (m : Option (RamFile S)) (w1 : S.World) (e : Errno) (net1 : K.Net)
          → file_of_server ≡ (ok, m, w1)
          → x.got 2 ≡ true
          → server_of ≡ (err e, freed, net1)
          → main ≡ overrun
          → ServerOutcome
      no_thread :
          (m : Option (RamFile S)) (w1 : S.World)
          (s : NetServer K loopback S.World (Option (RamFile S))) (net1 : K.Net)
          → file_of_server ≡ (ok, m, w1)
          → x.got 2 ≡ true
          → server_of ≡ (ok, live s, net1)
          → x.thread_started ≡ false
          → main ≡ overrun
          → ServerOutcome
      stopped :
          (m : Option (RamFile S)) (w1 : S.World)
          (s : NetServer K loopback S.World (Option (RamFile S))) (net1 : K.Net)
          → file_of_server ≡ (ok, m, w1)
          → x.got 2 ≡ true
          → server_of ≡ (ok, live s, net1)
          → x.thread_started ≡ true
          → main
            ≡ returns (
              ok,
              record {
                file_mngr = m;
                net_server = freed;
                world =
                    (ram_file_destroy S
                      (turns (server_data_to_file_callback S m) x.served (started w1)).world
                      m).1;
                net = K.close net1 s.sock_fd;
              },
            )
          → ServerOutcome

    File-cases :
        (r : Status × Option (RamFile S) × S.World)
        → ((e : Errno) × (m : Option (RamFile S)) × (w1 : S.World) × (r ≡ (err e, m, w1)))
          ⊎ ((m : Option (RamFile S)) × (w1 : S.World) × (r ≡ (ok, m, w1)))
    File-cases (err e, m, w1) = inl (e, m, w1, refl)
    File-cases (ok, m, w1) = inr (m, w1, refl)

    -- For every answer of the system, `main` of the server ends in one of five ways. If the file
    -- cannot be made, it returns that error; if there is no memory for the server, it destroys the
    -- file and returns ENOMEM. If there is memory but a socket call fails, or the thread is not
    -- started, it uses the server after it was freed. Otherwise it returns 0: what the turns of the
    -- loop made of the world is left, the file is closed, the server freed and its socket closed.
    pub server_main-ServerOutcome : ServerOutcome
    unfolding server_main app_setup app_run app_teardown net_server_create net_server_start
        net_server_stop net_server_destroy cleanup_server ram_file_destroy
    server_main-ServerOutcome = elim (File-cases file_of_server) [
      | inl (e, m, w1, f) ↦ no_file e m w1 f (rw f refl)
      | inr (m, w1, f) ↦ elim (Bool-cases (x.got 2)) [
        | inr g ↦ no_memory m w1 f g (rw (f, g) refl)
        | inl g ↦ elim (set_up-Made server_port (K.socket net)) [
          | failed e net1 s ↦ no_server m w1 e net1 f g s (rw (f, g, s) refl)
          | made s net1 q ↦ elim (Bool-cases x.thread_started) [
            | inl t ↦ stopped m w1 s net1 f g q t (rw (f, g, q, t) refl)
            | inr t ↦ elim (Status-cases x.thread_errno) [
              | inl n ↦ no_thread m w1 s net1 f g q t (rw (f, g, q, t, n) refl)
              | inr (e, n) ↦ no_thread m w1 s net1 f g q t (rw (f, g, q, t, n) refl)
            ]
          ]
        ]
      ]
    ]
