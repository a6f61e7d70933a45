-- ===== src/Transfer/EndToEnd.antt =====
-- The sender and the server together: what the one sends the other writes.
use client_server.Stdio.{Stdio}
use client_server.Stdio.Reliable.{IsReliable, window}
use client_server.Sockets.{Sockets}
use client_server.Sockets.Up.{IsUp}
use client_server.RamFile.{RamFile}
use client_server.RamFile.Access.{IsOpen}
use client_server.NetServer.Loop.{turns, started, serving, deliver}
use client_server.NetServer.Stop.{AllFit, turns-serving}
use client_server.Transfer.Packets.{max_file_chunk_size, packet, has, AllParts, length-packet}
use client_server.Transfer.Receiver.{server_data_to_file_callback}
use client_server.Transfer.Reassembly.{deliver_all}
use client_server.Transfer.Sender.{client_main}
use client_server.Transfer.Sender.Rounds.{part_count, from}
use client_server.Transfer.Sender.Sending.{IsServed, client_main-sent}
use client_server.Base.{
  ℕ, zero, suc, ◌+◌, ◌*◌, ◌≤◌, ◌<◌, ◌≡◌, refl, ap, ◌∙◌, Bool, true, some, List, [], ◌∷◌, ◌++◌, map,
  arith, get_or, ok, returns,
}

-- The datagrams of a sequence that arrive, by their numbers.
abbrev pub arrivals : List (List ℕ) → List ℕ → List (List ℕ)
arrivals sent ks = map (λ k. get_or sent k []) ks

module _ (byte : ℕ → ℕ) (n : ℕ) where
  get_or-from :
      (k j i : ℕ) → i < j → get_or (map (packet byte n) (from k j)) i [] ≡ packet byte n (k + i)
  unfolding from
  get_or-from k zero i h = absurd (omega (arith, h))
  get_or-from k (suc j) zero h = ap (packet byte n) (omega arith)
  get_or-from k (suc j) (suc i) h =
      get_or-from (k + 1) j i (omega (arith, h)) ∙ ap (packet byte n) (omega arith)

  arrivals-packet :
      (ks : List ℕ)
      → AllParts n ks
      → arrivals (map (packet byte n) (from 0 (part_count n))) ks ≡ map (packet byte n) ks
  arrivals-packet [] h = refl
  arrivals-packet (k ∷ ks) (lt, h) =
      let zero_add : 0 + k ≡ k = omega arith in
      let first =
        get_or-from 0 (part_count n) k (omega (arith, lt)) ∙ ap (packet byte n) zero_add in
      rw (first, arrivals-packet ks h) refl

  packets-AllFit : (ks : List ℕ) → AllParts n ks → AllFit (map (packet byte n) ks)
  packets-AllFit [] h = tt
  packets-AllFit (k ∷ ks) (lt, h) =
      let size = length-packet byte n k in
      (omega (arith, size), omega (arith, size), packets-AllFit ks h)

module _ {S : Stdio} (R : IsReliable S) {K : Sockets} (N : IsUp K) {S' : Stdio}
    (R' : IsReliable S') where
  -- Let the sender find a file of `n` bytes and nothing fail for it, on a network on which nothing
  -- was sent before. It returns 0. If the datagrams that it sent reach the loop of the server in
  -- any order, each of them once or more often, the received file is the sent one: as many bytes,
  -- and the same. The received file is open, has a limit that is not below `n`, and at most `n`
  -- bytes before.
  pub turns-client_main :
      (path : S.FilePath) (server_ip : K.Text) (got : ℕ → Bool) (fuel : ℕ) (w : S.World)
      (net : K.Net) (n : ℕ) (f : S.File) (w1 : S.World) (fd : ℕ) (net1 : K.Net) (a : K.Address)
      (v : S'.World) (m : RamFile S') (g : S'.File) (ks : List ℕ)
      → IsServed R N path server_ip got w net n f w1 fd net1 a
      → part_count n < fuel
      → N.sent net ≡ []
      → IsOpen R' v m g
      → n ≤ m.max_file_size
      → R'.size v g ≤ n
      → AllParts n ks
      → ((k : ℕ) → max_file_chunk_size * k < n → has k ks ≡ true)
      → (w' : S.World) × (net' : K.Net) × (client_main S K server_ip got fuel (some path) w net
          ≡ returns (some (ok, w', net')))
        × let v' =
            (turns
              (server_data_to_file_callback S' (some m))
              (serving (arrivals (N.sent net') ks))
              (started v)).world in
          (R'.size v' g ≡ n) × (window (R'.byte v' g) 0 n ≡ window (R.byte w1 f) 0 n)
  turns-client_main path server_ip got fuel w net n f w1 fd net1 a v m g ks h enough none_sent o
        fits le parts all =
      let (w', net', run, sent) =
        client_main-sent R N path server_ip got fuel w net n f w1 fd net1 a h enough in
      let callback = server_data_to_file_callback S' (some m) in
      let packets = map (packet (R.byte w1 f) n) ks in
      let sent_all : N.sent net' ≡ map (packet (R.byte w1 f) n) (from 0 (part_count n)) =
        sent ∙ ap (λ t. t ++ map (packet (R.byte w1 f) n) (from 0 (part_count n))) none_sent in
      let arrived : arrivals (N.sent net') ks ≡ packets =
        ap (λ t. arrivals t ks) sent_all ∙ arrivals-packet (R.byte w1 f) n ks parts in
      let served : (turns callback (serving (arrivals (N.sent net') ks)) (started v)).world
          ≡ deliver callback packets v =
        ap (λ ds. (turns callback (serving ds) (started v)).world) arrived
        ∙ turns-serving callback packets (started v) refl refl
            (packets-AllFit (R.byte w1 f) n ks parts) in
      let (size, bytes) = deliver_all R' m g (R.byte w1 f) n v ks o fits le parts all in
      (
        w',
        net',
        run,
        (ap (λ u. R'.size u g) served ∙ size, ap (λ u. window (R'.byte u g) 0 n) served ∙ bytes),
      )
