-- ===== src/Transfer/Sender/Termination.antt =====
-- `main` of the sender ends, whatever the file system and the network do.
use client_server.Stdio.{Stdio}
use client_server.Sockets.{Sockets}
use client_server.RamFile.{RamFile, ram_file_read, ram_file_exist, ram_file_size_in_bytes}
use client_server.NetClient.{
  NetClient, NetClientCfg, net_client_create, net_client_destroy, net_client_send, with_address,
  with_socket,
}
use client_server.Transfer.{chunk_bytes}
use client_server.Transfer.Packets.{max_file_chunk_size}
use client_server.Transfer.Sender.{
  data_chunk_size, Exit, leave, after_read, after_send, send_loop, with_client, with_file,
  with_size, with_existing, client_main,
}
use client_server.Base.{
  ℕ, zero, suc, ◌+◌, ◌*◌, ◌≤◌, ◌≡◌, refl, inl, inr, Bool, true, Option, none, some, List, arith,
  ltb, Bool-cases, Status, ok, err, live, returns,
}

module _ (S : Stdio) (K : Sockets) where
  -- The program returns: it does not run out of fuel, and uses no pointer that was freed.
  abbrev pub Ends : Exit S K → Type 0
  Ends x = (r : Status × S.World × K.Net) × (x ≡ returns (some r))

  module _ (m : Option (RamFile S)) (c : NetClient K) where
    leave-Ends : (rc : Status) (w : S.World) (net : K.Net) → Ends (leave S K m (live c) rc w net)
    unfolding net_client_destroy
    leave-Ends rc w net = (_, refl)

    after_read-Ends :
        (net : K.Net) (next : List ℕ → S.World → Exit S K) (r : Status × List ℕ × S.World)
        → ((bytes : List ℕ) (w : S.World) → Ends (next bytes w))
        → Ends (after_read S K m (live c) net next r)
    after_read-Ends net next (err e, bytes, w) h = leave-Ends (err e) w net
    after_read-Ends net next (ok, bytes, w) h = h bytes w

    after_send-Ends :
        (w : S.World) (next : K.Net → Exit S K) (r : Status × K.Net)
        → ((net : K.Net) → Ends (next net))
        → Ends (after_send S K m (live c) w next r)
    after_send-Ends w next (err e, net) h = leave-Ends (err e) w net
    after_send-Ends w next (ok, net) h = h net

    send_loop-Ends :
        (fuel file_size offset : ℕ) (w : S.World) (net : K.Net)
        → offset ≤ file_size
        → file_size + max_file_chunk_size ≤ offset + max_file_chunk_size * fuel
        → Ends (send_loop S K fuel m (live c) file_size offset w net)
    unfolding send_loop net_client_send
    send_loop-Ends zero file_size offset w net le h = absurd (omega (arith, le, h))
    send_loop-Ends (suc fuel) file_size offset w net le h =
        elim (Bool-cases (ltb offset file_size)) [
          | inr e ↦ rw (send_loop, e) (leave-Ends ok w net)
          | inl e ↦
              rw (send_loop, e)
                (after_read-Ends net _
                  (ram_file_read S w m offset true (data_chunk_size file_size offset))
                  λ bytes w'.
                    after_send-Ends w' _
                      (K.sendto net c.sock_fd c.sock_addr (chunk_bytes 0 offset bytes))
                      λ net'.
                        send_loop-Ends fuel file_size (offset + data_chunk_size file_size offset) w'
                          net' (ground (arith, le, e)) (ground (arith, le, h, e)))
        ]

  module _ (server_ip : K.Text) (got : ℕ → Bool) (fuel : ℕ) where
    address-Ends :
        (file_size fd : ℕ) (m : Option (RamFile S)) (w : S.World) (a : Option K.Address)
        (net : K.Net)
        → file_size + max_file_chunk_size ≤ max_file_chunk_size * fuel
        → Ends (with_client S K server_ip got fuel file_size m w (with_address K fd a net))
    address-Ends file_size fd m w none net h = (_, refl)
    address-Ends file_size fd m w (some a) net h =
        send_loop-Ends m (record { sock_addr = a; sock_fd = fd }) fuel file_size 0 w net
          (omega arith) (omega (arith, h))

    socket-Ends :
        (file_size : ℕ) (m : Option (RamFile S)) (w : S.World) (cfg : NetClientCfg K)
        (r : Status × ℕ × K.Net)
        → file_size + max_file_chunk_size ≤ max_file_chunk_size * fuel
        → Ends (with_client S K server_ip got fuel file_size m w (with_socket K cfg r))
    socket-Ends file_size m w cfg (err e, fd, net) h = (_, refl)
    socket-Ends file_size m w cfg (ok, fd, net) h =
        address-Ends file_size fd m w (K.inet_aton cfg.server_ip cfg.server_port) net h

    file-Ends :
        (file_size : ℕ) (net : K.Net) (r : Status × Option (RamFile S) × S.World)
        → file_size + max_file_chunk_size ≤ max_file_chunk_size * fuel
        → Ends (with_file S K server_ip got fuel file_size net r)
    unfolding net_client_create
    file-Ends file_size net (err e, m, w) h = (_, refl)
    file-Ends file_size net (ok, m, w) h = elim (Bool-cases (got 2)) [
      | inl e ↦ rw e (socket-Ends file_size m w _ (K.socket net) h)
      | inr e ↦ rw e (_, refl)
    ]

    size-Ends :
        (path : S.FilePath) (w : S.World) (net : K.Net) (r : Status × ℕ)
        → r.1 + max_file_chunk_size ≤ max_file_chunk_size * fuel
        → Ends (with_size S K server_ip got fuel path w net r)
    size-Ends path w net (err e, n) h = (_, refl)
    size-Ends path w net (ok, n) h = file-Ends n net _ h

    existing-Ends :
        (path : S.FilePath) (w : S.World) (net : K.Net) (r : Status)
        → (ram_file_size_in_bytes S w (some path)).1 + max_file_chunk_size
          ≤ max_file_chunk_size * fuel
        → Ends (with_existing S K server_ip got fuel path w net r)
    existing-Ends path w net (err e) h = (_, refl)
    existing-Ends path w net ok h = size-Ends path w net _ h

    -- Whatever the file system, the network and the allocations of memory answer, `main` of the
    -- sender returns within one round for each 1024 bytes begun of the size that it read, and one
    -- more for the last test. It uses no client that was freed.
    pub client_main-Ends :
        (path : S.FilePath) (w : S.World) (net : K.Net)
        → (ram_file_size_in_bytes S w (some path)).1 + max_file_chunk_size
          ≤ max_file_chunk_size * fuel
        → Ends (client_main S K server_ip got fuel (some path) w net)
    unfolding client_main
    client_main-Ends path w net h = existing-Ends path w net (ram_file_exist S w (some path)) h
