-- ===== src/Transfer/Sender/Sending.antt =====
-- What `main` of the sender sends while nothing fails.
use client_server.Stdio.{Stdio, update_old}
use client_server.Stdio.Reliable.{IsReliable}
use client_server.Sockets.{Sockets}
use client_server.Sockets.Up.{IsUp}
use client_server.RamFile.{
  RamFile, ram_file_create, ram_file_exist, ram_file_size_in_bytes, check_if_file_exist,
  default_max_file_size, open_file,
}
use client_server.NetClient.{NetClient, net_client_create}
use client_server.Transfer.Packets.{max_file_chunk_size, packet}
use client_server.Transfer.Receiver.{server_port}
use client_server.Transfer.Sender.{send_loop, client_main}
use client_server.Transfer.Sender.Rounds.{part_count, from, IsSource, send_loop_lem}
use client_server.Base.{
  ℕ, ◌*◌, ◌^◌, ◌<◌, min, ◌≡◌, refl, sym, ap, ◌∙◌, Bool, true, false, some, ◌++◌, map, arith, ◌==◌,
  if◌then◌else◌, ok, null, live, returns,
}

module _ {S : Stdio} (R : IsReliable S) {K : Sockets} (N : IsUp K) where
  -- A file of `n` bytes at the path, that can be opened, and memory, a socket and an address for
  -- the rest.
  pub record IsServed (path : S.FilePath) (server_ip : K.Text) (got : ℕ → Bool) (w : S.World)
      (net : K.Net) (n : ℕ) (f : S.File) (w1 : S.World) (fd : ℕ) (net1 : K.Net) (a : K.Address)
      : Type 0 where
    pub there : S.access w path ≡ ok
    pub file_size : S.stat_size w path ≡ (ok, n)
    pub file : S.fopen w path update_old ≡ (some f, w1)
    pub is_open : R.is_open w1 f ≡ true
    pub size : R.size w1 f ≡ n
    pub limit : n < 2 ^ 63
    pub memory : (i : ℕ) → got i ≡ true
    pub socket : K.socket net ≡ (ok, fd, net1)
    pub address : K.inet_aton server_ip server_port ≡ some a

  module _ {path : S.FilePath} {server_ip : K.Text} {got : ℕ → Bool} {w : S.World} {net : K.Net}
      {n : ℕ} {f : S.File} {w1 : S.World} {fd : ℕ} {net1 : K.Net} {a : K.Address}
      (h : IsServed path server_ip got w net n f w1 fd net1 a) where
    source : RamFile S
    source = record {
      file = some f;
      file_path = some path;
      max_file_size = if n == 0 then default_max_file_size else n;
      delete_files = false;
    }

    found : ram_file_exist S w (some path) ≡ ok
    unfolding ram_file_exist check_if_file_exist
    found = h.there

    sized : ram_file_size_in_bytes S w (some path) ≡ (ok, n)
    unfolding ram_file_size_in_bytes check_if_file_exist
    sized = rw (ram_file_size_in_bytes, check_if_file_exist, h.there, h.file_size) refl

    created :
        ram_file_create S true
          (got 0)
          (got 1)
          w
          (some (record { file_path = some path; max_file_size = n; delete_files = false }))
        ≡ (ok, some source, w1)
    unfolding ram_file_create check_if_file_exist source
    created = rw (h.memory 0, h.memory 1, open_file, check_if_file_exist, h.there, h.file) refl

    connected :
        net_client_create K true
          (got 2)
          (some (record { server_ip = server_ip; server_port = server_port }))
          null
          net
        ≡ (ok, live (record { sock_addr = a; sock_fd = fd }), net1)
    unfolding net_client_create
    connected = rw (h.memory 2, h.socket, h.address) refl

    client_main-send_loop :
        (fuel : ℕ)
        → client_main S K server_ip got fuel (some path) w net
          ≡ send_loop S K fuel
              (some source)
              (live (record { sock_addr = a; sock_fd = fd }))
              n
              0
              w1
              net1
    unfolding client_main
    client_main-send_loop fuel = rw (found, sized, created, connected) refl

    source-IsSource : IsSource R N source f (R.byte w1 f) n w1
    unfolding source
    source-IsSource = record {
      opened = record { file = refl; is_open = h.is_open; limit = ground (arith, h.limit) };
      size = h.size;
      bytes = λ i. refl;
      limit = ground arith;
    }

  -- If the file is there and opens, memory, a socket and an address are to be had, and no device
  -- and no send fails, `main` of the sender returns 0 and has sent one packet for each part of the
  -- file, in order, and nothing else. Fuel for one round more than the file has parts is enough.
  pub client_main-sent :
      (path : S.FilePath) (server_ip : K.Text) (got : ℕ → Bool) (fuel : ℕ) (w : S.World)
      (net : K.Net) (n : ℕ) (f : S.File) (w1 : S.World) (fd : ℕ) (net1 : K.Net) (a : K.Address)
      → IsServed path server_ip got w net n f w1 fd net1 a
      → part_count n < fuel
      → (w' : S.World) × (net' : K.Net) × (client_main S K server_ip got fuel (some path) w net
          ≡ returns (some (ok, w', net')))
        × (N.sent net' ≡ N.sent net ++ map (packet (R.byte w1 f) n) (from 0 (part_count n)))
  client_main-sent path server_ip got fuel w net n f w1 fd net1 a h lt =
      let c : NetClient K = record { sock_addr = a; sock_fd = fd } in
      let (w', net', run, sent) =
        send_loop_lem R N (source h) f c (R.byte w1 f) n (part_count n) fuel 0 w1 net1
          (source-IsSource h) (omega arith) lt in
      let start : min (max_file_chunk_size * 0) n ≡ 0 = omega arith in
      (
        w',
        net',
        client_main-send_loop h fuel
            ∙ ap (λ p. send_loop S K fuel (some (source h)) (live c) n p w1 net1) (sym start)
            ∙ run,
        sent
            ∙ ap (λ t. t ++ map (packet (R.byte w1 f) n) (from 0 (part_count n)))
                (sym (ap N.sent (ap (λ r. r.2) h.socket)) ∙ N.socket_sent net),
      )
