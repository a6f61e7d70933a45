-- ===== src/NetClient.antt =====
-- CLIENT_SERVER/src/net_client.c: a client that sends datagrams to one address.
use client_server.Sockets.{Sockets}
use client_server.Base.{
  ℕ, Bool, not, Option, none, some, List, if◌then◌else◌, einval, enomem, Status, ok, err, Pointer,
  null, live, freed, Run, returns, overrun,
}

module _ (K : Sockets) where
  -- `net_client_cfg_t`
  pub record NetClientCfg : Type 0 where
    pub server_ip : K.Text
    pub server_port : ℕ

  -- `struct net_client_t`; `time_out` is never used.
  pub record NetClient : Type 0 where
    pub sock_addr : K.Address
    pub sock_fd : ℕ

  -- The part of `net_client_create` behind the answer of `inet_aton`. If the address is not valid
  -- the client is freed, and its socket stays open.
  abbrev pub with_address : ℕ → Option K.Address → K.Net → Status × Pointer NetClient × K.Net
  with_address fd none net = (err einval, freed, net)
  with_address fd (some a) net = (ok, live (record { sock_addr = a; sock_fd = fd }), net)

  abbrev pub with_socket : NetClientCfg → Status × ℕ × K.Net → Status × Pointer NetClient × K.Net
  with_socket cfg (err e, fd, net) = (err e, freed, net)
  with_socket cfg (ok, fd, net) = with_address fd (K.inet_aton cfg.server_ip cfg.server_port) net

  -- `has_out` is false if `client` is NULL, `got` is the outcome of `calloc`, and `old` is the
  -- pointer at `client` before.
  unfoldable pub net_client_create :
      Bool
      → Bool
      → Option NetClientCfg
      → Pointer NetClient
      → K.Net
      → Status × Pointer NetClient × K.Net
  net_client_create has_out got none old net = (err einval, old, net)
  net_client_create has_out got (some cfg) old net =
      if not has_out
      then (err einval, old, net)
      else if not got
      then (err enomem, null, net)
      else with_socket cfg (K.socket net)

  unfoldable pub net_client_destroy : Pointer NetClient → K.Net → Run (Status × K.Net)
  net_client_destroy null net = returns (err einval, net)
  net_client_destroy (live c) net = returns (ok, K.close net c.sock_fd)
  net_client_destroy freed net = overrun

  -- `bytes` is `data->iov[0]`, the only vector that is sent; `none` if `data` is NULL.
  unfoldable pub net_client_send :
      Pointer NetClient → Option (List ℕ) → K.Net → Run (Status × K.Net)
  net_client_send null bytes net = returns (err einval, net)
  net_client_send (live c) none net = returns (err einval, net)
  net_client_send (live c) (some bytes) net = returns (K.sendto net c.sock_fd c.sock_addr bytes)
  net_client_send freed bytes net = elim bytes [
    | none ↦ returns (err einval, net)
    | some b ↦ overrun
  ]
