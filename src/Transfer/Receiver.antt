-- ===== src/Transfer/Receiver.antt =====
-- APPS/FILE_SENDER_SERVER_APP/file_sender_server.c: the callback that writes each datagram into
-- the received file, and the program around it.
use client_server.Stdio.{Stdio}
use client_server.Sockets.{Sockets}
use client_server.RamFile.{RamFile, ram_file_create, ram_file_destroy, ram_file_write}
use client_server.NetServer.{
  NetServer, net_server_create, net_server_start, net_server_stop, net_server_destroy,
}
use client_server.NetServer.Loop.{Turn, turns, started}
use client_server.Transfer.{sizeof_header, chunk_offset, chunk_data}
use client_server.Base.{
  ℕ, ◌-◌, ◌*◌, Bool, true, false, Option, none, some, List, ltb, if◌then◌else◌, length, Status, ok,
  err, Pointer, null, Run, returns, ◌>>=◌,
}

-- MAX_FILE_BUFFER_SIZE, MAX_FILE_SIZE and SERVER_PORT
abbrev pub max_file_buffer_size : ℕ
max_file_buffer_size = 1024

abbrev pub max_file_size : ℕ
max_file_size = 1024 * 1024

abbrev pub server_port : ℕ
server_port = 54322

module _ (S : Stdio) where
  -- `client_ip` and `client_port` are not used; errors are logged only.
  unfoldable pub server_data_to_file_callback : Option (RamFile S) → List ℕ → S.World → S.World
  server_data_to_file_callback file d w =
      if ltb (length d) sizeof_header
      then w
      else if ltb max_file_buffer_size (length d - sizeof_header)
      then w
      else (ram_file_write S w file (chunk_offset d) (some (chunk_data d))).1

  -- `path` is FILE_PATH and `loopback` SERVER_IP.
  module _ (K : Sockets) (loopback : K.Text) (path : S.FilePath) where
    -- What the system answers while the program runs: to its allocations of memory (the two of
    -- `ram_file_create`, that of `net_server_create`), to `pthread_create`, and to `recvfrom`, the
    -- signal and `net_server_stop`, as the turns of the loop and its caller until the thread is
    -- joined. `net_server_stop` itself does not touch the world, so these turns stand before it.
    pub record Answers : Type 0 where
      pub got : ℕ → Bool
      pub thread_started : Bool
      pub thread_errno : Status
      pub served : List Turn

    abbrev pub Server : Type 0
    Server = Pointer (NetServer K loopback S.World (Option (RamFile S)))

    -- `struct file_sender_server`, the file system and the network.
    pub record App : Type 0 where
      pub file_mngr : Option (RamFile S)
      pub net_server : Server
      pub world : S.World
      pub net : K.Net

    unfoldable pub app_teardown : App → Run App
    app_teardown app = do
      (rc, server) ← net_server_stop K loopback S.World (Option (RamFile S)) app.net_server
      (rc', server', net) ←
          net_server_destroy K loopback S.World (Option (RamFile S)) server app.net
      returns (record app {
        net_server = server';
        world = (ram_file_destroy S app.world app.file_mngr).1;
        net = net;
      })

    abbrev pub create_server : Answers → App → Status × App
    create_server x app =
        let (rc, server, net) =
          net_server_create K loopback S.World (Option (RamFile S)) true (x.got 2)
            (some server_port) app.net_server app.net in
        (rc, record app { net_server = server; net = net })

    abbrev pub with_file : Answers → App → Status × Option (RamFile S) × S.World → Status × App
    with_file x app (err e, file, w) = (err e, record app { world = w })
    with_file x app (ok, file, w) = create_server x (record app { file_mngr = file; world = w })

    -- The signal handlers and the level of the log are left out.
    unfoldable pub app_setup : Answers → App → Status × App
    app_setup x app = with_file x app (
        ram_file_create S true (x.got 0) (x.got 1) app.world (
          some (record {
            file_path = some path;
            max_file_size = max_file_size;
            delete_files = false;
          })))

    unfoldable pub app_run : Answers → App → Run (Status × App)
    app_run x app = do
      (rc, server, net) ←
          net_server_start K loopback S.World (Option (RamFile S)) x.thread_started x.thread_errno
            app.net_server (some server_data_to_file_callback) (some app.file_mngr) app.net
      returns (rc, record app { net_server = server; net = net })

    -- The loop serves until it is joined.
    abbrev pub serve : Answers → App → App
    serve x app = record app {
      world =
          (turns (server_data_to_file_callback app.file_mngr) x.served (started app.world)).world;
    }

    abbrev pub after_run : Answers → Status × App → Run (Status × App)
    after_run x (err e, app) = do app' ← app_teardown app; returns (err e, app')
    after_run x (ok, app) = do app' ← app_teardown (serve x app); returns (ok, app')

    abbrev pub after_setup : Answers → Status × App → Run (Status × App)
    after_setup x (err e, app) = do app' ← app_teardown app; returns (err e, app')
    after_setup x (ok, app) = do r ← app_run x app; after_run x r

    -- `main`, from the state in which `file_sender` is zero.
    unfoldable pub server_main : Answers → S.World → K.Net → Run (Status × App)
    server_main x w net =
        after_setup x
          (app_setup x (record { file_mngr = none; net_server = null; world = w; net = net }))
