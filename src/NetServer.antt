-- ===== src/NetServer.antt =====
-- CLIENT_SERVER/src/net_server.c: a server that hands each datagram to a callback, on a thread of
-- its own.
pub mod Loop
pub mod Stop
mod Tests
use client_server.Sockets.{Sockets}
use client_server.Base.{
  ◌>>=◌, ℕ, ◌*◌, Bool, true, false, not, Option, none, some, List, if◌then◌else◌, einval, enomem,
  Status, ok, err, Pointer, null, live, freed, Run, returns, overrun,
}

-- SERVER_BUFFER_SIZE
abbrev pub server_buffer_size : ℕ
server_buffer_size = 10 * 1024

-- `loopback` is the text of SERVER_IP. The callback changes a world `W`; `C` is what `user_ctx`
-- points to.
module _ (K : Sockets) (loopback : K.Text) (W C : Type 0) where
  -- `struct net_server_t`. What `malloc` leaves in `callback` and `user_ctx` is `none`; `thread`
  -- says that the thread of `server_thread` was made and not joined.
  pub record NetServer : Type 0 where
    pub sock_addr : K.Address
    pub sock_fd : ℕ
    pub receive_data_flag : Bool
    pub thread : Bool
    pub callback : Option (C → List ℕ → W → W)
    pub user_ctx : Option C

  unfoldable pub cleanup_server :
      Pointer NetServer → K.Net → Run (Status × Pointer NetServer × K.Net)
  cleanup_server null net = returns (err einval, null, net)
  cleanup_server (live s) net = returns (ok, freed, K.close net s.sock_fd)
  cleanup_server freed net = overrun

  abbrev new_server : ℕ → ℕ → NetServer
  new_server fd port = record {
    sock_addr = K.inet_addr loopback port;
    sock_fd = fd;
    receive_data_flag = false;
    thread = false;
    callback = none;
    user_ctx = none;
  }

  -- `if (call < 0) { cleanup_server(*server); return -errno; }`
  abbrev pub or_cleanup :
      ℕ
      → Status × K.Net
      → (K.Net → Status × Pointer NetServer × K.Net)
      → Status × Pointer NetServer × K.Net
  or_cleanup fd (err e, net) next = (err e, freed, K.close net fd)
  or_cleanup fd (ok, net) next = next net

  -- The part of `net_server_create` behind the answer of `socket`.
  abbrev pub set_up : ℕ → Status × ℕ × K.Net → Status × Pointer NetServer × K.Net
  set_up port (err e, fd, net) = (err e, freed, net)
  set_up port (ok, fd, net) = or_cleanup fd (K.reuse_addr net fd) λ net.
      or_cleanup fd (K.receive_timeout net fd) λ net.
        or_cleanup fd (K.bind net fd (K.inet_addr loopback port))
          λ net. (ok, live (new_server fd port), net)

  -- `port` is `server_cfg->local_port`, `none` if `server_cfg` is NULL. `got` is the outcome of
  -- `malloc`, and `old` the pointer at `server` before.
  unfoldable pub net_server_create :
      Bool → Bool → Option ℕ → Pointer NetServer → K.Net → Status × Pointer NetServer × K.Net
  net_server_create has_out got none old net = (err einval, old, net)
  net_server_create has_out got (some port) old net =
      if not has_out
      then (err einval, old, net)
      else if not got
      then (err enomem, null, net)
      else set_up port (K.socket net)

  -- `started` is the outcome of `pthread_create`, which gives its error as a result and leaves
  -- `errno` alone; `errno` is what stands there.
  unfoldable pub net_server_start :
      Bool
      → Status
      → Pointer NetServer
      → Option (C → List ℕ → W → W)
      → Option C
      → K.Net
      → Run (Status × Pointer NetServer × K.Net)
  net_server_start started errno null callback ctx net = returns (err einval, null, net)
  net_server_start started errno (live s) none ctx net = returns (err einval, live s, net)
  net_server_start started errno freed none ctx net = returns (err einval, freed, net)
  net_server_start started errno freed (some f) ctx net = overrun
  net_server_start started errno (live s) (some f) ctx net =
      if started
      then returns (
        ok,
        live (record s {
          receive_data_flag = true;
          thread = true;
          callback = some f;
          user_ctx = ctx;
        }),
        net,
      )
      else do (rc, p, net') ← cleanup_server (live s) net; returns (errno, p, net')

  -- The thread is joined.
  unfoldable pub net_server_stop : Pointer NetServer → Run (Status × Pointer NetServer)
  net_server_stop null = returns (err einval, null)
  net_server_stop freed = overrun
  net_server_stop (live s) =
      if s.receive_data_flag
      then returns (ok, live (record s { receive_data_flag = false; thread = false }))
      else returns (err einval, live s)

  unfoldable pub net_server_destroy :
      Pointer NetServer → K.Net → Run (Status × Pointer NetServer × K.Net)
  net_server_destroy p net = cleanup_server p net
