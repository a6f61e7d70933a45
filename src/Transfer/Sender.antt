-- ===== src/Transfer/Sender.antt =====
-- APPS/FILE_SENDER_CLIENT_APP/file_sender_client.c: the program that sends a file in parts.
pub mod Termination
pub mod Rounds
pub mod Sending
use client_server.Stdio.{Stdio}
use client_server.Sockets.{Sockets}
use client_server.RamFile.{
  RamFile, ram_file_create, ram_file_destroy, ram_file_read, ram_file_exist, ram_file_size_in_bytes,
}
use client_server.NetClient.{NetClient, net_client_create, net_client_destroy, net_client_send}
use client_server.Transfer.{chunk_bytes}
use client_server.Transfer.Packets.{max_file_chunk_size}
use client_server.Transfer.Receiver.{server_port}
use client_server.Base.{
  ◌>>=◌, ℕ, zero, suc, ◌+◌, ◌-◌, Bool, true, false, Option, none, some, List, ltb, if◌then◌else◌,
  einval, Status, ok, err, Pointer, null, Run, returns,
}

-- `data_chunk_size`
abbrev pub data_chunk_size : ℕ → ℕ → ℕ
data_chunk_size file_size offset =
    if ltb (file_size - offset) max_file_chunk_size then file_size - offset else max_file_chunk_size

module _ (S : Stdio) (K : Sockets) where
  -- What `main` returns, with the file system and the network; `none` if the fuel runs out.
  abbrev pub Exit : Type 0
  Exit = Run (Option (Status × S.World × K.Net))

  abbrev pub exit : Status → S.World → K.Net → Exit
  exit rc w net = returns (some (rc, w, net))

  -- Both managers are destroyed.
  abbrev pub leave : Option (RamFile S) → Pointer (NetClient K) → Status → S.World → K.Net → Exit
  leave m c rc w net = do
    (ignored, net') ← net_client_destroy K c net
    exit rc (ram_file_destroy S w m).1 net'

  -- The two tests of a round, with what follows if there was no error.
  abbrev pub after_read :
      Option (RamFile S)
      → Pointer (NetClient K)
      → K.Net
      → (List ℕ → S.World → Exit)
      → Status × List ℕ × S.World
      → Exit
  after_read m c net next (err e, bytes, w) = leave m c (err e) w net
  after_read m c net next (ok, bytes, w) = next bytes w

  abbrev pub after_send :
      Option (RamFile S) → Pointer (NetClient K) → S.World → (K.Net → Exit) → Status × K.Net → Exit
  after_send m c w next (err e, net) = leave m c (err e) w net
  after_send m c w next (ok, net) = next net

  -- The loop, from `file_offset` on.
  unfoldable pub send_loop :
      ℕ → Option (RamFile S) → Pointer (NetClient K) → ℕ → ℕ → S.World → K.Net → Exit
  send_loop zero m c file_size offset w net = returns none
  send_loop (suc fuel) m c file_size offset w net = elim (ltb offset file_size) [
    | false ↦ leave m c ok w net
    | true ↦
        after_read m c net
          (λ bytes w'. do
            sent ← net_client_send K c (some (chunk_bytes 0 offset bytes)) net
            after_send m c w'
                (λ net'.
                  send_loop fuel m c file_size (offset + data_chunk_size file_size offset) w' net')
                sent)
          (ram_file_read S w m offset true (data_chunk_size file_size offset))
  ]

  -- `server_ip` is SERVER_IP, and `got` the outcomes of the allocations of memory.
  module _ (server_ip : K.Text) (got : ℕ → Bool) (fuel : ℕ) where
    abbrev pub with_client :
        ℕ → Option (RamFile S) → S.World → Status × Pointer (NetClient K) × K.Net → Exit
    with_client file_size m w (err e, c, net) = exit (err e) (ram_file_destroy S w m).1 net
    with_client file_size m w (ok, c, net) = send_loop fuel m c file_size 0 w net

    abbrev pub with_file : ℕ → K.Net → Status × Option (RamFile S) × S.World → Exit
    with_file file_size net (err e, m, w) = exit (err e) w net
    with_file file_size net (ok, m, w) = with_client file_size m w (
        net_client_create K true (got 2)
          (some (record { server_ip = server_ip; server_port = server_port })) null net)

    abbrev pub with_size : S.FilePath → S.World → K.Net → Status × ℕ → Exit
    with_size path w net (err e, ignored) = exit (err e) w net
    with_size path w net (ok, file_size) = with_file file_size net (
        ram_file_create S true (got 0) (got 1) w (
          some (record { file_path = some path; max_file_size = file_size; delete_files = false })))

    abbrev pub with_existing : S.FilePath → S.World → K.Net → Status → Exit
    with_existing path w net (err e) = exit (err e) w net
    with_existing path w net ok = with_size path w net (ram_file_size_in_bytes S w (some path))

    -- `main`; the path is `none` if `argc` is not 2.
    unfoldable pub client_main : Option S.FilePath → S.World → K.Net → Exit
    client_main none w net = exit (err einval) w net
    client_main (some path) w net = with_existing path w net (ram_file_exist S w (some path))
